-- ===== src/Net/Receive.antt =====
-- The handlers of received packets in src/kernel/net.c. `d` is the memory from the packet's first
-- byte on, and `len` the length that the code is given.
pub mod Delivery
pub mod Overread
use zoho_os_chatbot.Base.{
  ℕ, zero, suc, ◌+◌, ◌-◌, ◌*◌, ◌/◌, ◌%◌, ◌^◌, Bool, true, false, not, ◌&&◌, ◌||◌, Option, none,
  some, List, [], ◌∷◌, ◌++◌, ltb, leb, ◌==◌, if◌then◌else◌, u8, u16, u32, u64, length,
}
use zoho_os_chatbot.Tcp.{Tcp, Segment, net_handle_tcp}
use zoho_os_chatbot.Net.Wire.{
  Bytes, Mac, Ip4, mac_bytes, ip_bytes, mac_at, ip_at, ip_eq, htons, ntohs, htonl, low8, high8,
  load16, load32, slice, bytes_of, net_checksum,
}
use zoho_os_chatbot.Net.{
  Binding, UdpCall, Net, ethertype_ipv4, ethertype_arp, net_send_eth, arp_packet, store_arp,
  net_send_ipv4,
}

-- The memory from `k` bytes further on.
abbrev pub from : Bytes → ℕ → Bytes
from d k i = d (k + i)

-- The address as the one number by which `Tcp` knows it.
abbrev pub ip_number : Ip4 → ℕ
ip_number a = a.b0 * 0x1000000 + a.b1 * 0x10000 + a.b2 * 0x100 + a.b3

-- An ARP packet: the sender is stored, and a request for the own address is answered.
pub answer_arp : Net → Bytes → Net
answer_arp n d =
    let src_mac = mac_at d 8 in
    let src_ip = ip_at d 14 in
    if (ntohs (load16 d 6) == 1) && ip_eq (ip_at d 24) n.my_ip
    then net_send_eth n src_mac ethertype_arp (arp_packet 2 n.my_mac n.my_ip src_mac src_ip)
    else n

pub net_handle_arp : Net → Bytes → ℕ → Net
unfolding answer_arp
net_handle_arp n d len =
    let learned : Net = record n { arp_cache = store_arp n.arp_cache (ip_at d 14) (mac_at d 8) } in
    if ltb len 28
    then n
    else if not (ntohs (load16 d 0) == 1) || not (ntohs (load16 d 2) == ethertype_ipv4)
    then n
    else answer_arp learned d

-- The reply to an echo request: the request with another type and a new checksum.
abbrev pub icmp_reply : Bytes → ℕ → ℕ → List ℕ
icmp_reply d len sum = 0 ∷ d 1 ∷ low8 sum ∷ high8 sum ∷ slice d 4 (len - 4)

-- `ip` is the memory from the IPv4 header on, and `d` that from its payload on.
pub net_handle_icmp : Net → Mac → Bytes → Bytes → ℕ → Net
net_handle_icmp n src_mac ip d len =
    let sum = net_checksum (bytes_of (icmp_reply d len 0)) len in
    if ltb len 8
    then n
    else if d 0 == 8
    then net_send_ipv4 n (ip_at ip 12) src_mac 1 (icmp_reply d len sum)
    else n

-- The first binding of the port.
pub call_udp : List Binding → Net → Ip4 → ℕ → ℕ → List ℕ → Net
call_udp [] n src_ip src_port dst_port payload = n
call_udp (b ∷ bs) n src_ip src_port dst_port payload =
    if b.port == dst_port
    then record n {
      calls =
          n.calls
          ++ (record {
            handler = b.handler;
            src_ip = src_ip;
            src_port = src_port;
            dst_port = dst_port;
            payload = payload;
          }
              ∷ []);
    }
    else call_udp bs n src_ip src_port dst_port payload

pub net_handle_udp : Net → Bytes → Bytes → ℕ → Net
unfolding call_udp
net_handle_udp n ip d len =
    let udp_len = ntohs (load16 d 4) in
    if ltb len 8
    then n
    else if ltb udp_len 8 || ltb len udp_len
    then n
    else call_udp n.udp_bindings n (ip_at ip 12) (ntohs (load16 d 0)) (ntohs (load16 d 2))
        (slice d 8 (udp_len - 8))

-- A TCP segment goes to the connections of tcp.c, once its header is complete.
pub handle_tcp : Net → Bytes → Bytes → ℕ → Net
handle_tcp n ip d len =
    let header_len = u8 (d 12 / 16 * 4) in
    let segment : Segment = record {
      src_ip = ip_number (ip_at ip 12);
      src_port = ntohs (load16 d 0);
      dst_port = ntohs (load16 d 2);
      seq = htonl (load32 d 4);
      ack = htonl (load32 d 8);
      flags = d 13;
    } in
    let r = net_handle_tcp n.tcp segment in
    if ltb len 20
    then n
    else if ltb header_len 20 || ltb len header_len
    then n
    else record n { tcp = r.0; tcp_out = n.tcp_out ++ r.1 }

-- The address of a packet to all is four bytes of `broadcast_mac`.
pub net_handle_ipv4 : Net → Mac → Bytes → ℕ → Net
unfolding net_handle_icmp net_handle_udp handle_tcp
net_handle_ipv4 n src_mac d len =
    let all : Ip4 = record { b0 = 255; b1 = 255; b2 = 255; b3 = 255 } in
    let header_len = d 0 % 16 * 4 in
    let payload_len = u16 (ntohs (load16 d 2) + 2 ^ 16 - header_len) in
    let payload = from d header_len in
    if ltb len 20
    then n
    else if not (ip_eq (ip_at d 16) n.my_ip) && not (ip_eq (ip_at d 16) all)
    then n
    else if d 9 == 1
    then net_handle_icmp n src_mac d payload payload_len
    else if d 9 == 17
    then net_handle_udp n d payload payload_len
    else if d 9 == 6
    then handle_tcp n d payload payload_len
    else n

-- A received frame.
pub net_handle_packet : Net → Bytes → ℕ → Net
unfolding net_handle_arp net_handle_ipv4
net_handle_packet n d len =
    let counted : Net = record n { rx_packet_count = u64 (n.rx_packet_count + 1) } in
    let type = ntohs (load16 d 12) in
    if ltb len 14
    then n
    else if type == ethertype_arp
    then net_handle_arp counted (from d 14) (len - 14)
    else if type == ethertype_ipv4
    then net_handle_ipv4 counted (mac_at d 6) (from d 14) (len - 14)
    else counted
