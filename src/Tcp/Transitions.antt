-- ===== src/Tcp/Transitions.antt =====
-- The state machine of one connection in src/kernel/tcp.c.
use zoho_os_chatbot.Base.{
  ◌+◌, ◌≡◌, ◌≢◌, inl, inr, refl, true, List, ◌++◌, ◌&&◌, [], ◌∷◌, arith, u32, Bool-cases,
}
use zoho_os_chatbot.Tcp.{
  State, closed, syn_sent, established, last_ack, listen, syn_received, fin_wait_1, fin_wait_2,
  close_wait, closing, time_wait, Conn, Segment, Sent, has_fin, has_syn, has_ack, flag_ack, answer,
  on_syn_sent, on_established, on_last_ack, react, handle_conn,
}

-- The moves of the state machine, each with the flags that it needs.
pub data Transition (s : Segment) : State → State → Type 0 where
  stay : {x : State} → Transition s x x
  synchronised : has_syn s ≡ true → has_ack s ≡ true → Transition s syn_sent established
  finished : has_fin s ≡ true → Transition s established last_ack
  acknowledged : has_ack s ≡ true → Transition s last_ack closed

-- The addresses and ports of a connection never change.
abbrev pub SameEnds : Conn → Conn → Type 0
SameEnds c d =
    (d.remote_ip ≡ c.remote_ip) × (d.local_port ≡ c.local_port) × (d.remote_port ≡ c.remote_port)

react_lem :
    (x : State) (c : Conn) (s : Segment)
    → c.state ≡ x
    → let r = react x c s in
      Transition s x r.conn.state × SameEnds c r.conn × ((x ≢ established) → r.conn.seq ≡ c.seq)
unfolding react on_syn_sent on_established on_last_ack
react_lem syn_sent c s e = elim (Bool-cases (has_syn s && has_ack s)) [
  | inl y ↦ rw y (synchronised (ground arith) (ground arith), (refl, refl, refl), λ h. refl)
  | inr n ↦ rw (n, e) (stay, (refl, refl, refl), λ h. refl)
]
react_lem established c s e = elim (Bool-cases (has_fin s)) [
  | inl y ↦ rw y (finished y, (refl, refl, refl), λ h. absurd (h refl))
  | inr n ↦ rw (n, e) (stay, (refl, refl, refl), λ h. refl)
]
react_lem last_ack c s e = elim (Bool-cases (has_ack s)) [
  | inl y ↦ rw y (acknowledged y, (refl, refl, refl), λ h. refl)
  | inr n ↦ rw (n, e) (stay, (refl, refl, refl), λ h. refl)
]
react_lem closed c s e = rw e (stay, (refl, refl, refl), λ h. refl)
react_lem listen c s e = rw e (stay, (refl, refl, refl), λ h. refl)
react_lem syn_received c s e = rw e (stay, (refl, refl, refl), λ h. refl)
react_lem fin_wait_1 c s e = rw e (stay, (refl, refl, refl), λ h. refl)
react_lem fin_wait_2 c s e = rw e (stay, (refl, refl, refl), λ h. refl)
react_lem close_wait c s e = rw e (stay, (refl, refl, refl), λ h. refl)
react_lem closing c s e = rw e (stay, (refl, refl, refl), λ h. refl)
react_lem time_wait c s e = rw e (stay, (refl, refl, refl), λ h. refl)

-- A segment moves its connection along the state machine or leaves the state alone; the addresses
-- and ports stay, and the own sequence number changes in no state but ESTABLISHED.
pub handle_conn_lem :
    (c : Conn) (s : Segment)
    → let r = handle_conn c s in
      Transition s c.state r.conn.state
      × SameEnds c r.conn
      × ((c.state ≢ established) → r.conn.seq ≡ c.seq)
unfolding handle_conn
handle_conn_lem c s = react_lem c.state c s refl

-- The handshake: a connection that has sent its SYN is established by a segment with SYN and ACK; it
-- answers with one ACK that carries the next sequence numbers of both sides.
pub handshake :
    (c : Conn) (s : Segment)
    → c.state ≡ syn_sent
    → has_syn s ≡ true
    → has_ack s ≡ true
    → let r = handle_conn c s in
      (r.conn.state ≡ established)
      × (r.conn.ack ≡ u32 (s.seq + 1))
      × (r.sent ≡ answer r.conn s flag_ack ∷ [])
unfolding handle_conn react on_syn_sent
handshake c s e y a = ground arith

-- The segments of one connection, one after the other: what it becomes, and all that is sent.
unfoldable pub receive_all : Conn → List Segment → Conn × List Sent
receive_all c [] = (c, [])
receive_all c (s ∷ ss) =
    let r = handle_conn c s in let rest = receive_all r.conn ss in (rest.0, r.sent ++ rest.1)

-- A segment that does nothing.
IsIdle : Conn → Segment → Type 0
IsIdle c s = handle_conn c s ≡ record { conn = c; sent = [] }

-- The connection once it is established by `s`, and once it has answered the FIN of `f`.
abbrev pub opened : Conn → Segment → Conn
opened c s = record c {
  state = established;
  remote_seq = u32 (s.seq + 1);
  ack = u32 (s.seq + 1);
  remote_ack = s.ack;
}

abbrev pub finishing : Conn → Segment → Conn
finishing c f = record c { state = last_ack; ack = u32 (f.seq + 1); seq = u32 (c.seq + 1) }
