-- ===== src/Tcp/Tests.antt =====
-- A table with one connection that has sent its SYN.
use zoho_os_chatbot.Base.{ℕ, ◌≡◌, ◌≢◌, refl, [], ◌∷◌, test_bit}
use zoho_os_chatbot.Tcp.{
  State, closed, syn_sent, established, Conn, Segment, Tcp, matches, handle_conn, find_conn,
  tcp_handle_packet,
}
use zoho_os_chatbot.Tcp.Transitions.{Transition, SameEnds, handle_conn_lem}

abbrev conn : State → Conn
conn x = record {
  remote_ip = 0x0A000202;
  local_port = 49152;
  remote_port = 80;
  state = x;
  seq = 0x12345679;
  ack = 0;
  remote_seq = 0;
  remote_ack = 0;
}

abbrev segment : ℕ → ℕ → Segment
segment port flags = record {
  src_ip = 0x0A000202;
  src_port = 80;
  dst_port = port;
  seq = 1000;
  ack = 0x12345679;
  flags = flags;
}

abbrev table : Tcp
table = record {
  connections = conn closed ∷ conn syn_sent ∷ [];
  next_local_port = 49153;
  bindings = 49152 ∷ [];
}

-- The SYN and ACK of the peer reaches the second entry, which answers with one ACK.
packet_runs :
    (tcp_handle_packet table (segment 49152 18)).1
    ≡ record {
      target_ip = 0x0A000202;
      src_port = 49152;
      dst_port = 80;
      seq = 0x12345679;
      ack = 1001;
      flags = 16;
    }
      ∷ []
unfolding tcp_handle_packet handle_conn find_conn matches test_bit
packet_runs = refl

handle_conn_lem_example :
    let r = handle_conn (conn syn_sent) (segment 49152 18) in
    Transition (segment 49152 18) syn_sent r.conn.state
    × SameEnds (conn syn_sent) r.conn
    × ((syn_sent ≢ established) → r.conn.seq ≡ 0x12345679)
handle_conn_lem_example = handle_conn_lem (conn syn_sent) (segment 49152 18)
