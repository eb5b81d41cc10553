-- ===== src/Net.antt =====
-- The network stack of src/kernel/net.c and the layouts of include/kernel/net.h: Ethernet, ARP,
-- IPv4, ICMP and UDP. A received packet is memory from a pointer on, with the length that the code is
-- given, so that a read past that length is a read like any other.
pub mod Wire
pub mod Receive
pub mod Arp
pub mod Checksum
pub mod Transmit
mod Tests
use zoho_os_chatbot.Base.{
  ℕ, zero, suc, ◌+◌, ◌-◌, ◌*◌, ◌/◌, ◌%◌, ◌^◌, Bool, true, false, not, ◌&&◌, ◌||◌, Option, none,
  some, List, [], ◌∷◌, ◌++◌, ltb, leb, ◌==◌, if◌then◌else◌, u8, u16, u32, u64, length, take, get_or,
}
use zoho_os_chatbot.Tcp.{Tcp, Sent}
use zoho_os_chatbot.Net.Wire.{
  Bytes, Mac, Ip4, mac_bytes, ip_bytes, mac_at, ip_at, ip_eq, htons, ntohs, htonl, low8, high8,
  le32, load16, slice, bytes_of, net_checksum,
}

pub record ArpEntry : Type 0 where
  pub ip : Ip4
  pub mac : Mac
  pub valid : Bool

-- A valid entry of `udp_bindings`, its handler named by a number.
pub record Binding : Type 0 where
  pub port : ℕ
  pub handler : ℕ

-- A call of a handler.
pub record UdpCall : Type 0 where
  pub handler : ℕ
  pub src_ip : Ip4
  pub src_port : ℕ
  pub dst_port : ℕ
  pub payload : List ℕ

-- The static variables; `udp_bindings` is the valid prefix. With them, in their order, what was
-- handed to the network card, the calls of UDP handlers, and the segments that TCP wants sent.
pub record Net : Type 0 where
  pub my_ip : Ip4
  pub my_mac : Mac
  pub arp_cache : List ArpEntry
  pub udp_bindings : List Binding
  pub rx_packet_count : ℕ
  pub tx_packet_count : ℕ
  pub frames : List (List ℕ)
  pub calls : List UdpCall
  pub tcp : Tcp
  pub tcp_out : List Sent

abbrev pub broadcast_mac : Mac
broadcast_mac = record { b0 = 255; b1 = 255; b2 = 255; b3 = 255; b4 = 255; b5 = 255 }

abbrev pub zero_mac : Mac
zero_mac = record { b0 = 0; b1 = 0; b2 = 0; b3 = 0; b4 = 0; b5 = 0 }

abbrev pub broadcast_ip : Ip4
broadcast_ip = record { b0 = 255; b1 = 255; b2 = 255; b3 = 255 }

abbrev pub ethertype_ipv4 : ℕ
ethertype_ipv4 = 0x0800

abbrev pub ethertype_arp : ℕ
ethertype_arp = 0x0806

abbrev pub udp_max_bindings : ℕ
udp_max_bindings = 16

-- `net_udp_bind`; a failed bind is only logged.
pub net_udp_bind : List Binding → ℕ → ℕ → List Binding
net_udp_bind bs port handler =
    if ltb (length bs) udp_max_bindings
    then bs ++ (record { port = port; handler = handler } ∷ [])
    else bs

-- `net_send_eth`; `total_len` is a `uint16_t`, and so many bytes are sent.
abbrev pub eth_frame : Mac → Mac → ℕ → List ℕ → List ℕ
eth_frame dest src type payload =
    mac_bytes dest (mac_bytes src (low8 (htons type) ∷ high8 (htons type) ∷ payload))

unfoldable pub net_send_eth : Net → Mac → ℕ → List ℕ → Net
net_send_eth n dest type payload = record n {
  frames =
      n.frames ++ (take (u16 (14 + length payload)) (eth_frame dest n.my_mac type payload) ∷ []);
  tx_packet_count = u64 (n.tx_packet_count + 1);
}

-- An `arp_packet_t`.
abbrev pub arp_packet : ℕ → Mac → Ip4 → Mac → Ip4 → List ℕ
arp_packet oper src_mac src_ip dst_mac dst_ip =
    low8 (htons 1)
    ∷ high8 (htons 1)
    ∷ low8 (htons ethertype_ipv4)
    ∷ high8 (htons ethertype_ipv4)
    ∷ 6
    ∷ 4
    ∷ low8 (htons oper)
    ∷ high8 (htons oper)
    ∷ mac_bytes src_mac (ip_bytes src_ip (mac_bytes dst_mac (ip_bytes dst_ip [])))

pub net_send_arp_request : Net → Ip4 → Net
unfolding net_send_eth
net_send_arp_request n target =
    net_send_eth n broadcast_mac ethertype_arp (arp_packet 1 n.my_mac n.my_ip zero_mac target)

-- The loop that updates the cache.
pub store_arp : List ArpEntry → Ip4 → Mac → List ArpEntry
store_arp [] ip mac = []
store_arp (e ∷ es) ip mac =
    if not e.valid || ip_eq e.ip ip
    then record { ip = ip; mac = mac; valid = true } ∷ es
    else e ∷ store_arp es ip mac

-- The loop that searches it.
pub lookup_mac : List ArpEntry → Ip4 → Option Mac
lookup_mac [] ip = none
lookup_mac (e ∷ es) ip = if e.valid && ip_eq e.ip ip then some e.mac else lookup_mac es ip

-- The `ipv4_packet_t` with the checksum `sum`.
abbrev pub ip_header : ℕ → ℕ → Ip4 → Ip4 → ℕ → List ℕ → List ℕ
ip_header total_len proto src dst sum rest =
    0x45
    ∷ 0
    ∷ low8 (htons total_len)
    ∷ high8 (htons total_len)
    ∷ 0
    ∷ 0
    ∷ 0
    ∷ 0
    ∷ 64
    ∷ proto
    ∷ low8 sum
    ∷ high8 sum
    ∷ ip_bytes src (ip_bytes dst rest)

abbrev pub ip_packet : Ip4 → Ip4 → ℕ → List ℕ → List ℕ
ip_packet src dst proto payload =
    let total_len = u16 (20 + length payload) in
    let sum = net_checksum (bytes_of (ip_header total_len proto src dst 0 [])) 20 in
    ip_header total_len proto src dst sum payload

unfoldable pub net_send_ipv4 : Net → Ip4 → Mac → ℕ → List ℕ → Net
unfolding net_send_eth
net_send_ipv4 n dest_ip dest_mac proto payload =
    net_send_eth n dest_mac ethertype_ipv4 (ip_packet n.my_ip dest_ip proto payload)

abbrev pub udp_packet : ℕ → ℕ → List ℕ → List ℕ
udp_packet src_port dst_port payload =
    let total_len = u16 (8 + length payload) in
    low8 (htons src_port)
    ∷ high8 (htons src_port)
    ∷ low8 (htons dst_port)
    ∷ high8 (htons dst_port)
    ∷ low8 (htons total_len)
    ∷ high8 (htons total_len)
    ∷ 0
    ∷ 0
    ∷ payload

unfoldable pub send_udp_to : Net → Ip4 → ℕ → ℕ → List ℕ → Option Mac → Net
unfolding net_send_ipv4
send_udp_to n target src_port dst_port payload none = n
send_udp_to n target src_port dst_port payload (some mac) =
    net_send_ipv4 n target mac 17 (udp_packet src_port dst_port payload)

-- `net_send_udp`; a target that is not in the cache gets nothing.
unfoldable pub net_send_udp : Net → Ip4 → ℕ → ℕ → List ℕ → Net
unfolding send_udp_to
net_send_udp n target src_port dst_port payload =
    send_udp_to n target src_port dst_port payload
      (if ip_eq target broadcast_ip then some broadcast_mac else lookup_mac n.arp_cache target)

-- The search for a target's MAC in `net_send_tcp` and `net_ping`: a miss sends an ARP request and
-- polls the card for a while. `poll` is what that does to the state.
unfoldable pub resolve : (Net → Net) → Net → Ip4 → Option Mac × Net
resolve poll n target =
    let asked = poll (net_send_arp_request n target) in
    elim (lookup_mac n.arp_cache target) [
      | some mac ↦ (some mac, n)
      | none ↦ (lookup_mac asked.arp_cache target, asked)
    ]

-- The echo request of `net_ping`.
abbrev pub ping_packet : ℕ → List ℕ
ping_packet sum =
    8
    ∷ 0
    ∷ low8 sum
    ∷ high8 sum
    ∷ low8 (htons 0x1234)
    ∷ high8 (htons 0x1234)
    ∷ low8 (htons 1)
    ∷ high8 (htons 1)
    ∷ []

send_ping : Ip4 → Option Mac × Net → Net
send_ping target (none, n) = n
send_ping target (some mac, n) =
    net_send_ipv4 n target mac 1 (ping_packet (net_checksum (bytes_of (ping_packet 0)) 8))

pub net_ping : (Net → Net) → Net → Ip4 → Net
unfolding send_ping resolve
net_ping poll n target = send_ping target (resolve poll n target)

unfoldable pub net_set_ip : Net → Ip4 → Net
net_set_ip n ip = record n { my_ip = ip }
