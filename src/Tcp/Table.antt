-- ===== src/Tcp/Table.antt =====
-- The table of connections of src/kernel/tcp.c: which entries a segment or a connect touches.
use zoho_os_chatbot.Base.{
  ℕ, suc, ◌+◌, ◌<◌, ◌≤◌, ◌≡◌, ◌≢◌, ◌⊎◌, inl, inr, refl, Bool, true, false, Option, none, some, List,
  [], ◌∷◌, arith, u16, Bool-cases, length, get_elem?, has, has-append, get_elem?-set_self,
  get_elem?-set_ne, All,
}
use zoho_os_chatbot.Tcp.{
  Conn, Segment, Sent, Tcp, max_bindings, is_closed, matches, bump, find_conn, handle_conn, reject,
  update_conn, handle_found, tcp_handle_packet, net_handle_tcp, net_tcp_bind, free_slot, connecting,
  connect_slot, connect_found, tcp_connect, initial_seq, flag_syn,
}

-- The first entry that passes a test, found or not.
pub data First (p : Conn → Bool) (cs : List Conn) : Option ℕ → Type 0 where
  missing : All (λ c. p c ≡ false) cs → First p cs none
  found :
      (i : ℕ) (c : Conn)
      → get_elem? cs i ≡ some c
      → i < length cs
      → p c ≡ true
      → First p cs (some i)

First-cons :
    (p : Conn → Bool) (c : Conn) (cs : List Conn) (o : Option ℕ)
    → p c ≡ false
    → First p cs o
    → First p (c ∷ cs) (bump o)
First-cons p c cs o h (missing a) = missing (h, a)
First-cons p c cs o h (found i d e l t) = found (suc i) d e (omega arith) t

find_conn-First : (cs : List Conn) (s : Segment) → First (λ c. matches c s) cs (find_conn cs s)
unfolding find_conn
find_conn-First [] s = missing tt
find_conn-First (c ∷ cs) s = elim (Bool-cases (matches c s)) [
  | inl y ↦ rw y (found 0 c refl (omega arith) y)
  | inr n ↦ rw n (First-cons (λ d. matches d s) c cs (find_conn cs s) n (find_conn-First cs s))
]

free_slot-First : (cs : List Conn) → First (λ c. is_closed c.state) cs (free_slot cs)
unfolding free_slot
free_slot-First [] = missing tt
free_slot-First (c ∷ cs) = elim (Bool-cases (is_closed c.state)) [
  | inl y ↦ rw y (found 0 c refl (omega arith) y)
  | inr n ↦ rw n (First-cons (λ d. is_closed d.state) c cs (free_slot cs) n (free_slot-First cs))
]

-- What `tcp_handle_packet` does: either no connection matches, the table stays and the answer is
-- that of `reject`, or one entry, which matches, becomes what `handle_conn` makes of it.
pub record Handled (t : Tcp) (s : Segment) (i : ℕ) (c : Conn) (r : Tcp × List Sent) : Type 0 where
  pub matching : matches c s ≡ true
  pub before : get_elem? t.connections i ≡ some c
  pub after : get_elem? r.0.connections i ≡ some (handle_conn c s).conn
  pub others : (j : ℕ) → i ≢ j → get_elem? r.0.connections j ≡ get_elem? t.connections j
  pub sent : r.1 ≡ (handle_conn c s).sent

handle_found-lem :
    (t : Tcp) (s : Segment) (o : Option ℕ)
    → First (λ c. matches c s) t.connections o
    → ((handle_found t s o ≡ (t, reject s)) × All (λ c. matches c s ≡ false) t.connections)
      ⊎ ((i : ℕ) × (c : Conn) × Handled t s i c (handle_found t s o))
unfolding handle_found update_conn
handle_found-lem t s none (missing a) = inl (refl, a)
handle_found-lem t s (some i) (found _ c e l y) = inr (
  i,
  c,
  rw e (record {
    matching = y;
    before = e;
    after = get_elem?-set_self t.connections i (handle_conn c s).conn l;
    others = λ j ne. get_elem?-set_ne t.connections i j (handle_conn c s).conn ne;
    sent = refl;
  }),
)

-- A segment changes at most the one connection that it matches; with no match the table stays and
-- the answer is that of `reject`.
pub tcp_handle_packet_lem :
    (t : Tcp) (s : Segment)
    → ((tcp_handle_packet t s ≡ (t, reject s)) × All (λ c. matches c s ≡ false) t.connections)
      ⊎ ((i : ℕ) × (c : Conn) × Handled t s i c (tcp_handle_packet t s))
unfolding tcp_handle_packet
tcp_handle_packet_lem t s =
    handle_found-lem t s (find_conn t.connections s) (find_conn-First t.connections s)

-- What a successful `tcp_connect` does, at the entry `i`, which was closed.
pub record Connected (t : Tcp) (ip port i : ℕ) (c : Conn) (r : Tcp × List Sent) : Type 0 where
  pub was_closed : is_closed c.state ≡ true
  pub before : get_elem? t.connections i ≡ some c
  pub after : get_elem? r.0.connections i ≡ some (connecting c ip port t.next_local_port)
  pub others : (j : ℕ) → i ≢ j → get_elem? r.0.connections j ≡ get_elem? t.connections j
  pub next_port : r.0.next_local_port ≡ u16 (t.next_local_port + 1)
  pub bound : length t.bindings < max_bindings → has t.next_local_port r.0.bindings ≡ true
  pub unbound : max_bindings ≤ length t.bindings → r.0.bindings ≡ t.bindings
  pub sent : (x : Sent) × (r.1 ≡ x ∷ []) × (x.flags ≡ flag_syn) × (x.seq ≡ initial_seq)

bind-has : (xs : List ℕ) (p : ℕ) → length xs < max_bindings → has p (net_tcp_bind xs p) ≡ true
unfolding net_tcp_bind
bind-has xs p h = ground (arith, has-append p xs (p ∷ []))

bind-full : (xs : List ℕ) (p : ℕ) → max_bindings ≤ length xs → net_tcp_bind xs p ≡ xs
unfolding net_tcp_bind
bind-full xs p h = ground arith

connect_found-lem :
    (t : Tcp) (ip port : ℕ) (o : Option ℕ)
    → First (λ c. is_closed c.state) t.connections o
    → ((connect_found t ip port o ≡ (t, [])) × All (λ c. is_closed c.state ≡ false) t.connections)
      ⊎ ((i : ℕ) × (c : Conn) × Connected t ip port i c (connect_found t ip port o))
unfolding connect_found connect_slot
connect_found-lem t ip port none (missing a) = inl (refl, a)
connect_found-lem t ip port (some i) (found _ c e l y) =
    let new = connecting c ip port t.next_local_port in
    inr (
      i,
      c,
      rw e (record {
        was_closed = y;
        before = e;
        after = get_elem?-set_self t.connections i new l;
        others = λ j ne. get_elem?-set_ne t.connections i j new ne;
        next_port = refl;
        bound = bind-has t.bindings t.next_local_port;
        unbound = bind-full t.bindings t.next_local_port;
        sent = (_, refl, refl, refl);
      }),
    )

-- `tcp_connect` with every entry in use changes nothing and sends nothing; else it fills one closed
-- entry, sends one SYN, and touches no other entry. Its port is bound only if a binding is left.
pub tcp_connect_lem :
    (t : Tcp) (ip port : ℕ)
    → ((tcp_connect t ip port ≡ (t, [])) × All (λ c. is_closed c.state ≡ false) t.connections)
      ⊎ ((i : ℕ) × (c : Conn) × Connected t ip port i c (tcp_connect t ip port))
unfolding tcp_connect
tcp_connect_lem t ip port =
    connect_found-lem t ip port (free_slot t.connections) (free_slot-First t.connections)

-- Once all bindings are taken, no segment for the port of a new connection is ever handled: none of
-- the ports bound is its port, and binding it fails, whether or not an entry was closed.
pub deaf_connection :
    (t : Tcp) (ip port : ℕ) (s : Segment)
    → max_bindings ≤ length t.bindings
    → has t.next_local_port t.bindings ≡ false
    → s.dst_port ≡ t.next_local_port
    → net_handle_tcp (tcp_connect t ip port).0 s ≡ ((tcp_connect t ip port).0, [])
unfolding net_handle_tcp
deaf_connection t ip port s full fresh e = elim (tcp_connect_lem t ip port) [
  | inl (same, _) ↦ ground (arith, same, fresh, e)
  | inr (i, c, d) ↦ ground (arith, d.unbound, fresh, e)
]
