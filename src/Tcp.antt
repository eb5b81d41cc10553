-- ===== src/Tcp.antt =====
-- The TCP connections of src/kernel/tcp.c, with the port bindings of src/kernel/net.c through which
-- segments reach them. What the code hands to `net_send_tcp` is returned as a list of segments.
pub mod Transitions
pub mod Table
mod Tests
use zoho_os_chatbot.Base.{
  ℕ, zero, suc, ◌+◌, ◌^◌, Bool, true, false, not, ◌&&◌, Option, none, some, List, [], ◌∷◌, ◌++◌,
  ltb, ◌==◌, if◌then◌else◌, u16, u32, length, get_elem?, set, test_bit, has,
}

pub data State : Type 0 where
  closed listen syn_sent syn_received established fin_wait_1 fin_wait_2 close_wait : State
  closing last_ack time_wait : State

-- `tcp_conn_t`; an address is its four bytes as one number.
pub record Conn : Type 0 where
  pub remote_ip : ℕ
  pub local_port : ℕ
  pub remote_port : ℕ
  pub state : State
  pub seq : ℕ
  pub ack : ℕ
  pub remote_seq : ℕ
  pub remote_ack : ℕ

-- The fields of a header that the code reads, in host order, and the sender's address.
pub record Segment : Type 0 where
  pub src_ip : ℕ
  pub src_port : ℕ
  pub dst_port : ℕ
  pub seq : ℕ
  pub ack : ℕ
  pub flags : ℕ

-- A call of `net_send_tcp`, with no payload.
pub record Sent : Type 0 where
  pub target_ip : ℕ
  pub src_port : ℕ
  pub dst_port : ℕ
  pub seq : ℕ
  pub ack : ℕ
  pub flags : ℕ

-- The static variables of tcp.c, and the valid prefix of `tcp_bindings` in net.c: the ports, all
-- bound to `tcp_handle_packet`, as nothing else binds one.
pub record Tcp : Type 0 where
  pub connections : List Conn
  pub next_local_port : ℕ
  pub bindings : List ℕ

abbrev pub max_connections : ℕ
max_connections = 16

abbrev pub max_bindings : ℕ
max_bindings = 16

abbrev pub flag_fin : ℕ
flag_fin = 1

abbrev pub flag_syn : ℕ
flag_syn = 2

abbrev pub flag_rst : ℕ
flag_rst = 4

abbrev pub flag_ack : ℕ
flag_ack = 16

-- `flags & TCP_FLAG_FIN`, and so on: the bits 0, 1 and 4.
abbrev pub has_fin : Segment → Bool
has_fin s = test_bit s.flags 0

abbrev pub has_syn : Segment → Bool
has_syn s = test_bit s.flags 1

abbrev pub has_ack : Segment → Bool
has_ack s = test_bit s.flags 4

abbrev pub is_closed : State → Bool
is_closed closed = true
is_closed _ = false

pub matches : Conn → Segment → Bool
matches c s =
    not (is_closed c.state)
    && (c.local_port == s.dst_port)
    && (c.remote_port == s.src_port)
    && (c.remote_ip == s.src_ip)

-- An index into the tail, as an index into the whole list.
abbrev pub bump : Option ℕ → Option ℕ
bump none = none
bump (some i) = some (suc i)

pub find_conn : List Conn → Segment → Option ℕ
find_conn [] s = none
find_conn (c ∷ cs) s = if matches c s then some 0 else bump (find_conn cs s)

-- What the connection becomes, and what is sent.
pub record Reply : Type 0 where
  pub conn : Conn
  pub sent : List Sent

-- `net_send_tcp(src_ip, conn->local_port, src_port, conn->seq, conn->ack, flags, NULL, 0)`
abbrev pub answer : Conn → Segment → ℕ → Sent
answer c s flags = record {
  target_ip = s.src_ip;
  src_port = c.local_port;
  dst_port = s.src_port;
  seq = c.seq;
  ack = c.ack;
  flags = flags;
}

on_syn_sent : Conn → Segment → Reply
on_syn_sent c s =
    let next : Conn = record c {
      state = established;
      remote_seq = u32 (s.seq + 1);
      ack = u32 (s.seq + 1);
      remote_ack = s.ack;
    } in
    if has_syn s && has_ack s
    then record { conn = next; sent = answer next s flag_ack ∷ [] }
    else record { conn = c; sent = [] }

on_established : Conn → Segment → Reply
on_established c s =
    let next : Conn = record c { state = close_wait; ack = u32 (s.seq + 1) } in
    if has_fin s
    then record {
      conn = record next { state = last_ack; seq = u32 (c.seq + 1) };
      sent = answer next s flag_ack ∷ answer next s (flag_fin + flag_ack) ∷ [];
    }
    else record { conn = c; sent = [] }

on_last_ack : Conn → Segment → Reply
on_last_ack c s = record {
  conn = (if has_ack s then record c { state = closed } else c);
  sent = [];
}

react : State → Conn → Segment → Reply
react syn_sent c s = on_syn_sent c s
react established c s = on_established c s
react last_ack c s = on_last_ack c s
react _ c s = record { conn = c; sent = [] }

-- The part of `tcp_handle_packet` behind the search, on the connection that was found.
pub handle_conn : Conn → Segment → Reply
unfolding react on_syn_sent on_established on_last_ack
handle_conn c s = react c.state c s

-- A segment for no connection: a SYN is answered by RST.
pub reject : Segment → List Sent
reject s =
    if has_syn s
    then record {
      target_ip = s.src_ip;
      src_port = s.dst_port;
      dst_port = s.src_port;
      seq = 0;
      ack = u32 (s.seq + 1);
      flags = flag_rst + flag_ack;
    }
      ∷ []
    else []

update_conn : Tcp → Segment → ℕ → Option Conn → Tcp × List Sent
update_conn t s i none = (t, [])
update_conn t s i (some c) =
    let r = handle_conn c s in (record t { connections = set t.connections i r.conn }, r.sent)

handle_found : Tcp → Segment → Option ℕ → Tcp × List Sent
handle_found t s none = (t, reject s)
handle_found t s (some i) = update_conn t s i (get_elem? t.connections i)

pub tcp_handle_packet : Tcp → Segment → Tcp × List Sent
unfolding handle_found update_conn handle_conn reject find_conn matches
tcp_handle_packet t s = handle_found t s (find_conn t.connections s)

-- The loop of `net_handle_tcp`: the segment goes to the handler of the first binding of its port.
pub net_handle_tcp : Tcp → Segment → Tcp × List Sent
unfolding tcp_handle_packet
net_handle_tcp t s = if has s.dst_port t.bindings then tcp_handle_packet t s else (t, [])

-- `net_tcp_bind`; a failed bind is only logged.
pub net_tcp_bind : List ℕ → ℕ → List ℕ
net_tcp_bind bindings port =
    if ltb (length bindings) max_bindings then bindings ++ (port ∷ []) else bindings

pub free_slot : List Conn → Option ℕ
free_slot [] = none
free_slot (c ∷ cs) = if is_closed c.state then some 0 else bump (free_slot cs)

abbrev pub initial_seq : ℕ
initial_seq = 0x12345678

-- The connection that `tcp_connect` has filled in when it returns.
pub connecting : Conn → ℕ → ℕ → ℕ → Conn
connecting c ip port local = record c {
  remote_ip = ip;
  remote_port = port;
  local_port = local;
  state = syn_sent;
  seq = u32 (initial_seq + 1);
  ack = 0;
}

connect_slot : Tcp → ℕ → ℕ → ℕ → Option Conn → Tcp × List Sent
connect_slot t ip port i none = (t, [])
connect_slot t ip port i (some c) =
    let local = t.next_local_port in
    (
      record {
        connections = set t.connections i (connecting c ip port local);
        next_local_port = u16 (local + 1);
        bindings = net_tcp_bind t.bindings local;
      },
      record {
        target_ip = ip;
        src_port = local;
        dst_port = port;
        seq = initial_seq;
        ack = 0;
        flags = flag_syn;
      }
          ∷ [],
    )

connect_found : Tcp → ℕ → ℕ → Option ℕ → Tcp × List Sent
connect_found t ip port none = (t, [])
connect_found t ip port (some i) = connect_slot t ip port i (get_elem? t.connections i)

pub tcp_connect : Tcp → ℕ → ℕ → Tcp × List Sent
unfolding connect_found connect_slot connecting free_slot net_tcp_bind
tcp_connect t ip port = connect_found t ip port (free_slot t.connections)
