-- ===== src/Dhcp/Lease.antt =====
-- What dhcp_handle of src/kernel/dhcp.c does with replies: an offer, and the acknowledgement of it.
use zoho_os_chatbot.Base.{
  ℕ, ◌+◌, ◌≤◌, ◌≡◌, ◌≢◌, refl, ap, ◌∙◌, true, false, ◌⊎◌, List, [], ◌∷◌, ◌++◌, All, length, take,
  ltb, ◌==◌, arith, u16, u64,
}
use zoho_os_chatbot.Dhcp.{
  Dhcp, Parsed, Client, packet_size, opt_end, msg_offer, msg_ack, magic_cookie, dhcp_xid, zeros,
  dhcp_packet, request_options, send_request, take_reply, dhcp_handle,
}
use zoho_os_chatbot.Dhcp.Options.{
  Entry, IsEntry, Written, end_of, end_of-length, note_entries, parse_options_lem,
}
use zoho_os_chatbot.Net.Wire.{Bytes, Mac, ip_at, htonl, load32}
use zoho_os_chatbot.Net.{
  Net, net_send_ipv4, net_send_eth, broadcast_ip, broadcast_mac, net_send_udp, send_udp_to,
  net_set_ip, eth_frame, ip_packet, udp_packet,
}

-- A reply for this client, whose options the memory holds within `len` bytes.
pub record IsReply (d : Bytes) (len : ℕ) (es : List Entry) : Type 0 where
  pub op : d 0 ≡ 2
  pub magic : htonl (load32 d 236) ≡ magic_cookie
  pub xid : load32 d 4 ≡ htonl dhcp_xid
  pub entries : All IsEntry es
  pub written : Written d packet_size es
  pub fits : end_of packet_size es ≤ len
  pub ended : (end_of packet_size es ≡ len) ⊎ (d (end_of packet_size es) ≡ opt_end)

-- What its options say, with the server that was known before if none is named.
unfoldable pub read_reply : List Entry → Client → Parsed
read_reply es c = note_entries es (record { msg_type = 0; server = c.dhcp.server_ip })

handled :
    (mac : Mac) (c : Client) (d : Bytes) (len : ℕ) (es : List Entry)
    → IsReply d len es
    → dhcp_handle mac c d len ≡ take_reply mac c d (read_reply es c)
unfolding dhcp_handle read_reply
handled mac c d len es r =
    let le = end_of-length packet_size es in
    let long : ltb len packet_size ≡ false = ground (arith, le, r.fits) in
    let start : Parsed = record { msg_type = 0; server = c.dhcp.server_ip } in
    let q =
      parse_options_lem es len d len packet_size start r.entries r.written r.fits r.ended
        (omega (arith, le, r.fits)) in
    rw (dhcp_handle, long, r.op, r.magic, r.xid, q) refl

-- The frame that broadcasts a request: the option list of the source, cut to its first 12 bytes.
pub request_frame : Mac → Net → Dhcp → List ℕ
unfolding zeros
request_frame mac n s =
    let udp = udp_packet 68 67 (take (packet_size + 12) (dhcp_packet mac 0 (request_options s))) in
    let ip = ip_packet n.my_ip broadcast_ip 17 udp in
    take (u16 (14 + length ip)) (eth_frame broadcast_mac n.my_mac 0x0800 ip)

request-frames :
    (mac : Mac) (n : Net) (s : Dhcp)
    → send_request mac n s ≡ record n {
      frames = n.frames ++ (request_frame mac n s ∷ []);
      tx_packet_count = u64 (n.tx_packet_count + 1);
    }
unfolding send_request request_frame net_send_udp send_udp_to net_send_ipv4 net_send_eth
request-frames mac n s = refl

-- A reply is read and acted on by its message type: an offer is taken and requested from the server
-- it names, by one broadcast frame; an acknowledgement sets the address of this machine, and any
-- other type changes nothing but the server that is known.
pub dhcp_handle_lem :
    (mac : Mac) (c : Client) (d : Bytes) (len : ℕ) (es : List Entry)
    → IsReply d len es
    → let w = dhcp_handle mac c d len in
      let p = read_reply es c in
      (w.dhcp.server_ip ≡ p.server)
      × (p.msg_type ≡ msg_offer
          → (w.dhcp.offered_ip ≡ ip_at d 16)
            × (w.net ≡ record (c.net) {
              frames = c.net.frames ++ (request_frame mac c.net w.dhcp ∷ []);
              tx_packet_count = u64 (c.net.tx_packet_count + 1);
            }))
      × (p.msg_type ≡ msg_ack
          → (w.dhcp.offered_ip ≡ c.dhcp.offered_ip)
            × (w.net ≡ record (c.net) { my_ip = ip_at d 16 }))
      × (p.msg_type ≢ msg_offer
          → p.msg_type ≢ msg_ack
          → (w.dhcp.offered_ip ≡ c.dhcp.offered_ip) × (w.net ≡ c.net))
unfolding take_reply net_set_ip
dhcp_handle_lem mac c d len es r =
    let p = read_reply es c in
    rw (handled mac c d len es r) (
      server p,
      λ o.
          let y : (p.msg_type == msg_offer) ≡ true = ground arith in
          rw (take_reply, y)
            (
              refl,
              request-frames mac c.net (record { offered_ip = ip_at d 16; server_ip = p.server }),
            ),
      λ a.
          let n : (p.msg_type == msg_offer) ≡ false = ground arith in
          let y : (p.msg_type == msg_ack) ≡ true = ground arith in
          rw (take_reply, n, y) (refl, refl),
      λ o a.
          let n : (p.msg_type == msg_offer) ≡ false = ground arith in
          let m : (p.msg_type == msg_ack) ≡ false = ground arith in
          rw (take_reply, n, m) (refl, refl),
    )
  where
    server : (p : Parsed) → (take_reply mac c d p).dhcp.server_ip ≡ p.server
    server p = ground arith

-- An offer and then an acknowledgement: this machine has the address of the acknowledgement, has sent
-- one frame, the request, and nothing else of the network stack has changed but its count.
pub lease :
    (mac : Mac) (c : Client) (offer : Bytes) (offer_len : ℕ) (offered : List Entry) (ack : Bytes)
    (ack_len : ℕ) (acked : List Entry)
    → IsReply offer offer_len offered
    → IsReply ack ack_len acked
    → let o = dhcp_handle mac c offer offer_len in
      let w = dhcp_handle mac o ack ack_len in
      (read_reply offered c).msg_type ≡ msg_offer
      → (read_reply acked o).msg_type ≡ msg_ack
      → (w.dhcp.offered_ip ≡ ip_at offer 16)
        × (w.dhcp.server_ip ≡ (read_reply acked o).server)
        × (w.net ≡ record (c.net) {
          my_ip = ip_at ack 16;
          frames = c.net.frames ++ (request_frame mac c.net o.dhcp ∷ []);
          tx_packet_count = u64 (c.net.tx_packet_count + 1);
        })
lease mac c offer offer_len offered ack ack_len acked r1 r2 t1 t2 =
    let o = dhcp_handle mac c offer offer_len in
    let (s1, f1, g1, h1) = dhcp_handle_lem mac c offer offer_len offered r1 in
    let (s2, f2, g2, h2) = dhcp_handle_lem mac o ack ack_len acked r2 in
    (
      (g2 t2).0 ∙ (f1 t1).0,
      s2,
      (g2 t2).1 ∙ ap (λ (n : Net). record n { my_ip = ip_at ack 16 }) (f1 t1).1,
    )

-- The request does not name its server: 12 of its 16 bytes of options are sent, with the first byte of
-- the server's address, so that requests to servers that share this byte are the same.
pub request_forgets_server :
    (mac : Mac) (n : Net) (s t : Dhcp)
    → s.offered_ip ≡ t.offered_ip
    → s.server_ip.b0 ≡ t.server_ip.b0
    → send_request mac n s ≡ send_request mac n t
unfolding send_request zeros
request_forgets_server mac n s t o b = rw (o, b) refl
