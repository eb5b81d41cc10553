-- ===== src/Dhcp/Tests.antt =====
-- An offer of the address 10.0.0.7 by the server 10.0.0.1, and its acknowledgement.
use zoho_os_chatbot.Base.{All, ℕ, ◌≡◌, refl, inr, List, [], ◌∷◌, arith}
use zoho_os_chatbot.Dhcp.{
  Client, magic_cookie, dhcp_xid, zeros, parse_options, send_request, dhcp_handle,
}
use zoho_os_chatbot.Dhcp.Lease.{IsReply, read_reply, request_frame, lease, request_forgets_server}
use zoho_os_chatbot.Dhcp.Options.{Entry, IsEntry, note_entry, note_entries, parse_options_lem}
use zoho_os_chatbot.Net.Wire.{Bytes, Mac, Ip4, htonl, le32, bytes_of}

abbrev reply : ℕ → Bytes
unfolding zeros
reply type = bytes_of (
    2
    ∷ 1
    ∷ 6
    ∷ 0
    ∷ le32 (htonl dhcp_xid) (
        zeros 8 (
          10
          ∷ 0
          ∷ 0
          ∷ 7
          ∷ zeros 216
              (le32 (htonl magic_cookie) (53 ∷ 1 ∷ type ∷ 54 ∷ 4 ∷ 10 ∷ 0 ∷ 0 ∷ 1 ∷ 255 ∷ [])))))

abbrev entries : ℕ → List Entry
entries type =
    record { type = 53; bytes = type ∷ [] } ∷ record { type = 54; bytes = 10 ∷ 0 ∷ 0 ∷ 1 ∷ [] } ∷ []

entries_proper : (type : ℕ) → All IsEntry (entries type)
entries_proper type = (
  record { proper = omega arith; message = λ e. omega arith; address = λ e. absurd (omega arith) },
  (
    record {
      proper = omega arith;
      message = λ e. absurd (omega arith);
      address = λ e. omega arith;
    },
    tt,
  ),
)

reply-IsReply : (type : ℕ) → IsReply (reply type) 250 (entries type)
unfolding zeros
reply-IsReply type = record {
  op = refl;
  magic = refl;
  xid = refl;
  entries = entries_proper type;
  written = (refl, refl, (refl, refl), (refl, refl, (refl, (refl, (refl, (refl, refl)))), refl));
  fits = omega arith;
  ended = inr refl;
}

abbrev card : Mac
card = record { b0 = 82; b1 = 84; b2 = 0; b3 = 18; b4 = 52; b5 = 86 }

abbrev address : ℕ → Ip4
address n = record { b0 = 10; b1 = 0; b2 = 0; b3 = n }

abbrev no_address : Ip4
no_address = record { b0 = 0; b1 = 0; b2 = 0; b3 = 0 }

abbrev client : Client
client = record {
  net = record {
    my_ip = no_address;
    my_mac = card;
    arp_cache = [];
    udp_bindings = record { port = 68; handler = 1 } ∷ [];
    rx_packet_count = 0;
    tx_packet_count = 1;
    frames = [];
    calls = [];
    tcp = record { connections = []; next_local_port = 49152; bindings = [] };
    tcp_out = [];
  };
  dhcp = record { offered_ip = no_address; server_ip = no_address };
}

parse_options_lem_example :
    parse_options 3 (reply 2) 250 240 (record { msg_type = 0; server = no_address })
    ≡ record { msg_type = 2; server = address 1 }
unfolding zeros note_entry note_entries
parse_options_lem_example =
    parse_options_lem (entries 2) 3 (reply 2) 250 240 (record { msg_type = 0; server = no_address })
      (entries_proper 2) (reply-IsReply 2).written (omega arith) (inr refl) (omega arith)

lease_example :
    let o = dhcp_handle card client (reply 2) 250 in
    let w = dhcp_handle card o (reply 5) 250 in
    (w.dhcp.offered_ip ≡ address 7)
    × (w.dhcp.server_ip ≡ address 1)
    × (w.net ≡ record (client.net) {
      my_ip = address 7;
      frames = request_frame card client.net o.dhcp ∷ [];
      tx_packet_count = 2;
    })
unfolding zeros note_entry note_entries read_reply
lease_example =
    lease card client (reply 2) 250 (entries 2) (reply 5) 250 (entries 5) (reply-IsReply 2)
      (reply-IsReply 5) refl refl

request_forgets_server_example :
    send_request card client.net (record { offered_ip = address 7; server_ip = address 1 })
    ≡ send_request card client.net (record { offered_ip = address 7; server_ip = address 99 })
request_forgets_server_example =
    request_forgets_server card client.net
      (record { offered_ip = address 7; server_ip = address 1 })
      (record { offered_ip = address 7; server_ip = address 99 }) refl refl
