-- ===== src/Dhcp.antt =====
-- The DHCP client of src/kernel/dhcp.c, with the layout of include/kernel/dhcp.h, over the network
-- stack of Net. A reply is memory from its first byte on, with the length that the code is given.
pub mod Options
pub mod Lease
mod Tests
use zoho_os_chatbot.Base.{
  ℕ, zero, suc, ◌+◌, ◌%◌, ◌/◌, true, false, not, ◌&&◌, ◌||◌, List, [], ◌∷◌, ◌++◌, ltb, ◌==◌,
  if◌then◌else◌, take,
}
use zoho_os_chatbot.Net.Wire.{
  Bytes, Mac, Ip4, mac_bytes, ip_bytes, ip_at, htons, htonl, low8, high8, le32, load32,
}
use zoho_os_chatbot.Net.{Binding, Net, broadcast_ip, net_udp_bind, net_send_udp, net_set_ip}

abbrev pub opt_msg_type : ℕ
opt_msg_type = 53

abbrev pub opt_req_ip : ℕ
opt_req_ip = 50

abbrev pub opt_server : ℕ
opt_server = 54

abbrev pub opt_end : ℕ
opt_end = 255

abbrev pub msg_discover : ℕ
msg_discover = 1

abbrev pub msg_offer : ℕ
msg_offer = 2

abbrev pub msg_request : ℕ
msg_request = 3

abbrev pub msg_ack : ℕ
msg_ack = 5

abbrev pub magic_cookie : ℕ
magic_cookie = 0x63825363

abbrev pub dhcp_xid : ℕ
dhcp_xid = 0x12345678

-- `sizeof(dhcp_packet_t)`, where the options begin.
abbrev pub packet_size : ℕ
packet_size = 240

-- The static variables but for `dhcp_xid`, which no code changes.
pub record Dhcp : Type 0 where
  pub offered_ip : Ip4
  pub server_ip : Ip4

-- What the loop over the options has found.
pub record Parsed : Type 0 where
  pub msg_type : ℕ
  pub server : Ip4

-- One option at `i`, whose data are at `i + 2`.
abbrev pub read_option : Bytes → ℕ → Parsed → Parsed
read_option d i p =
    if d i == opt_msg_type
    then record p { msg_type = d (i + 2) }
    else if d i == opt_server
    then record p { server = ip_at d (i + 2) }
    else p

-- The loop, on fuel.
unfoldable pub parse_options : ℕ → Bytes → ℕ → ℕ → Parsed → Parsed
parse_options zero d len i p = p
parse_options (suc fuel) d len i p = elim (ltb i len && not (d i == opt_end)) [
  | false ↦ p
  | true ↦ parse_options fuel d len (i + 2 + d (i + 1)) (read_option d i p)
]

-- A `dhcp_packet_t` that is cleared and filled, with its options.
unfoldable pub zeros : ℕ → List ℕ → List ℕ
zeros zero rest = rest
zeros (suc n) rest = 0 ∷ zeros n rest

abbrev pub dhcp_packet : Mac → ℕ → List ℕ → List ℕ
dhcp_packet mac flags options =
    1
    ∷ 1
    ∷ 6
    ∷ 0
    ∷ le32 (htonl dhcp_xid) (
        0
        ∷ 0
        ∷ low8 (htons flags)
        ∷ high8 (htons flags)
        ∷ zeros 16 (mac_bytes mac (zeros 202 (le32 (htonl magic_cookie) options))))

abbrev pub request_options : Dhcp → List ℕ
request_options s =
    opt_msg_type
    ∷ 1
    ∷ msg_request
    ∷ opt_req_ip
    ∷ 4
    ∷ ip_bytes s.offered_ip (opt_server ∷ 4 ∷ ip_bytes s.server_ip (opt_end ∷ []))

-- The REQUEST: `packet_size + 12` bytes of it are sent.
unfoldable pub send_request : Mac → Net → Dhcp → Net
unfolding zeros
send_request mac n s =
    net_send_udp n broadcast_ip 68 67
      (take (packet_size + 12) (dhcp_packet mac 0 (request_options s)))

-- The client with the network stack.
pub record Client : Type 0 where
  pub net : Net
  pub dhcp : Dhcp

-- What is done with a reply for this client, once its options are read.
unfoldable pub take_reply : Mac → Client → Bytes → Parsed → Client
unfolding send_request
take_reply mac c d p =
    let s : Dhcp = record (c.dhcp) { server_ip = p.server } in
    let offered : Dhcp = record s { offered_ip = ip_at d 16 } in
    if p.msg_type == msg_offer
    then record { net = send_request mac c.net offered; dhcp = offered }
    else if p.msg_type == msg_ack
    then record { net = net_set_ip c.net (ip_at d 16); dhcp = s }
    else record c { dhcp = s }

-- `dhcp_handle`; each round of its loop goes on by two bytes at least.
unfoldable pub dhcp_handle : Mac → Client → Bytes → ℕ → Client
unfolding parse_options take_reply
dhcp_handle mac c d len =
    let start : Parsed = record { msg_type = 0; server = c.dhcp.server_ip } in
    if ltb len packet_size
    then c
    else if not (d 0 == 2) || not (htonl (load32 d 236) == magic_cookie)
    then c
    else if not (load32 d 4 == htonl dhcp_xid)
    then c
    else take_reply mac c d (parse_options len d len packet_size start)

-- `dhcp_init`, with the number of the handler, and `dhcp_discover`.
abbrev pub dhcp_init : List Binding → ℕ → List Binding
dhcp_init bindings handler = net_udp_bind bindings 68 handler

pub dhcp_discover : Mac → Net → Net
unfolding zeros
dhcp_discover mac n = net_send_udp n broadcast_ip 68 67 (
    take (packet_size + 4)
      (dhcp_packet mac 0x8000 (opt_msg_type ∷ 1 ∷ msg_discover ∷ opt_end ∷ [])))
