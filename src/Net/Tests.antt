-- ===== src/Net/Tests.antt =====
-- Two machines that know each other, an echo request whose length field is too large, and a segment.
use zoho_os_chatbot.Base.{
  ◌+◌, ◌≤◌, ◌<◌, ℕ, ◌≡◌, refl, true, false, some, List, [], ◌∷◌, arith, length,
}
use zoho_os_chatbot.Net.Wire.{Bytes, Mac, Ip4, bytes_of, net_checksum}
use zoho_os_chatbot.Net.{Net, net_send_udp, lookup_mac}
use zoho_os_chatbot.Net.Transmit.{Outgoing, summed, segment_sum, segment_accepted}
use zoho_os_chatbot.Net.Receive.{net_handle_ipv4, net_handle_packet}
use zoho_os_chatbot.Net.Receive.Delivery.{udp_delivery}
use zoho_os_chatbot.Net.Receive.Overread.{echo_leaks_memory}

abbrev ip : ℕ → Ip4
ip n = record { b0 = 10; b1 = 0; b2 = 2; b3 = n }

abbrev mac : ℕ → Mac
mac n = record { b0 = 82; b1 = 84; b2 = 0; b3 = 0; b4 = 0; b5 = n }

abbrev host : ℕ → ℕ → Net
host me peer = record {
  my_ip = ip me;
  my_mac = mac me;
  arp_cache =
      record { ip = ip peer; mac = mac peer; valid = true }
      ∷ record { ip = ip 0; mac = mac 0; valid = false }
      ∷ [];
  udp_bindings = record { port = 67; handler = 1 } ∷ record { port = 68; handler = 2 } ∷ [];
  rx_packet_count = 0;
  tx_packet_count = 0;
  frames = [];
  calls = [];
  tcp = record { connections = []; next_local_port = 49152; bindings = [] };
  tcp_out = [];
}

udp_delivery_example :
    (frame : List ℕ) × ((net_send_udp (host 15 2) (ip 2) 4000 68 (1 ∷ 2 ∷ 3 ∷ [])).frames
      ≡ frame ∷ [])
    × (net_handle_packet (host 2 15) (bytes_of frame) (length frame) ≡ record (host 2 15) {
      rx_packet_count = 1;
      calls =
          record {
            handler = 2;
            src_ip = ip 15;
            src_port = 4000;
            dst_port = 68;
            payload = 1 ∷ 2 ∷ 3 ∷ [];
          }
          ∷ [];
    })
unfolding lookup_mac
udp_delivery_example =
    udp_delivery (host 15 2) (host 2 15) (mac 2) 4000 68 2 (1 ∷ 2 ∷ 3 ∷ []) refl found refl
      (omega arith) (omega arith) (omega arith)
  where
    found : lookup_mac (host 15 2).arp_cache (ip 2) ≡ some (mac 2)
    found = refl

abbrev echo : Bytes
echo = bytes_of (
    0x45 ∷ 0 ∷ 4 ∷ 0 ∷ 0 ∷ 0 ∷ 0 ∷ 0 ∷ 64 ∷ 1 ∷ 0 ∷ 0 ∷ 10 ∷ 0 ∷ 2 ∷ 2 ∷ 10 ∷ 0 ∷ 2 ∷ 15 ∷ 8 ∷ 0 ∷ 0
    ∷ 0 ∷ [])

-- Of a packet of 24 bytes that says it has 1,024, the reply holds the 1,000 bytes behind it.
echo_leaks_memory_example :
    (frame : List ℕ) × ((net_handle_ipv4 (host 15 2) (mac 2) echo 24).frames ≡ frame ∷ [])
    × (length frame ≡ 1038)
    × ((j : ℕ) → 24 ≤ j → j < 1024 → bytes_of frame (14 + j) ≡ echo j)
echo_leaks_memory_example =
    echo_leaks_memory (host 15 2) (mac 2) echo 24 (omega arith) refl refl refl refl (omega arith)
      (omega arith)

-- A SYN with two bytes of payload.
abbrev syn : Outgoing
syn = record {
  src_port = 49152;
  dst_port = 80;
  seq = 0x12345678;
  ack = 0;
  flags = 2;
  payload = 104 ∷ 105 ∷ [];
}

segment_accepted_example :
    net_checksum (bytes_of (summed (ip 15) (ip 2) syn (segment_sum (ip 15) (ip 2) syn))) 34 ≡ 0
segment_accepted_example = segment_accepted (ip 15) (ip 2) syn (omega arith) (omega arith)
