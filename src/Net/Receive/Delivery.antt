-- ===== src/Net/Receive/Delivery.antt =====
-- A UDP datagram from one machine to another, through src/kernel/net.c on both.
use zoho_os_chatbot.Base.{
  ℕ, zero, suc, ◌+◌, ◌-◌, ◌*◌, ◌%◌, ◌^◌, ◌<◌, ◌≤◌, ◌≡◌, refl, sym, ap, ◌∙◌, true, false, Option,
  none, some, List, [], ◌∷◌, ◌++◌, arith, ltb, ◌==◌, if◌then◌else◌, u16, u64, length, take, drop,
  Bool-cases, inl, inr, ge→ltb,
}
use zoho_os_chatbot.Net.Wire.{
  Bytes, Mac, Ip4, ip_eq, htons, ntohs, low8, high8, load16, slice, bytes_of, mac_at, ip_at,
}
use zoho_os_chatbot.Net.{
  Binding, Net, ethertype_ipv4, eth_frame, net_send_eth, ip_packet, net_send_ipv4, udp_packet,
  send_udp_to, net_send_udp, lookup_mac, broadcast_ip,
}
use zoho_os_chatbot.Net.Arp.{ip_eq_self}
use zoho_os_chatbot.Net.Receive.{from, call_udp, net_handle_udp, net_handle_ipv4, net_handle_packet}

-- The handler of the first binding of a port.
abbrev pub handler_of : List Binding → ℕ → Option ℕ
handler_of [] port = none
handler_of (b ∷ bs) port = if b.port == port then some b.handler else handler_of bs port

call_udp_lem :
    (bs : List Binding) (n : Net) (ip : Ip4) (sp dp : ℕ) (payload : List ℕ) (h : ℕ)
    → handler_of bs dp ≡ some h
    → call_udp bs n ip sp dp payload ≡ record n {
      calls =
          n.calls
          ++ (record { handler = h; src_ip = ip; src_port = sp; dst_port = dp; payload = payload }
              ∷ []);
    }
unfolding call_udp
call_udp_lem [] n ip sp dp payload h e = cc
call_udp_lem (b ∷ bs) n ip sp dp payload h e = elim (Bool-cases (b.port == dp)) [
  | inl y ↦ let same : b.handler ≡ h = ground arith in rw (y, same) refl
  | inr y ↦
      let f : handler_of bs dp ≡ some h = ground arith in
      rw y (call_udp_lem bs n ip sp dp payload h f)
]

pub ntohs-htons : (x : ℕ) → x < 2 ^ 16 → ntohs (low8 (htons x) + 256 * high8 (htons x)) ≡ x
ntohs-htons x h = omega arith

pub bytes_of-drop : (k j : ℕ) (xs : List ℕ) → bytes_of xs (k + j) ≡ bytes_of (drop k xs) j
bytes_of-drop zero j xs = ap (bytes_of xs) (omega arith)
bytes_of-drop (suc k) j [] = refl
bytes_of-drop (suc k) j (x ∷ xs) =
    let e : suc k + j ≡ suc (k + j) = omega arith in rw e (bytes_of-drop k j xs)

-- Memory that holds a list from `i` on.
slice_lem :
    (ys : List ℕ) (d : Bytes) (i : ℕ)
    → ((j : ℕ) → d (i + j) ≡ bytes_of ys j)
    → slice d i (length ys) ≡ ys
unfolding slice
slice_lem [] d i h = refl
slice_lem (y ∷ ys) d i h =
    let e : i + 0 ≡ i = omega arith in
    let first : d i ≡ y = ap d (sym e) ∙ h 0 in
    let rest : slice d (suc i) (length ys) ≡ ys =
      slice_lem ys d (suc i)
        (λ j. let f : suc i + j ≡ i + suc j = omega arith in ap d f ∙ h (suc j)) in
    rw (first, rest) refl

pub take-whole : (n : ℕ) (xs : List ℕ) → length xs ≤ n → take n xs ≡ xs
take-whole zero [] h = refl
take-whole zero (x ∷ xs) h = absurd (omega arith)
take-whole (suc n) [] h = refl
take-whole (suc n) (x ∷ xs) h = ap (λ l. x ∷ l) (take-whole n xs (omega arith))

-- The frame of a datagram.
abbrev pub udp_frame : Mac → Mac → Ip4 → Ip4 → ℕ → ℕ → List ℕ → List ℕ
udp_frame dest src src_ip dst_ip sp dp payload =
    eth_frame dest src ethertype_ipv4 (ip_packet src_ip dst_ip 17 (udp_packet sp dp payload))

send_udp_to_lem :
    (n : Net) (target : Ip4) (mac : Mac) (sp dp : ℕ) (payload : List ℕ)
    → length payload + 42 < 2 ^ 16
    → (send_udp_to n target sp dp payload (some mac)).frames
      ≡ n.frames ++ (udp_frame mac n.my_mac n.my_ip target sp dp payload ∷ [])
unfolding send_udp_to net_send_ipv4 net_send_eth
send_udp_to_lem n target mac sp dp payload h =
    let f = udp_frame mac n.my_mac n.my_ip target sp dp payload in
    ap (λ x. n.frames ++ (x ∷ []))
      (take-whole (u16 (14 + length (ip_packet n.my_ip target 17 (udp_packet sp dp payload)))) f
        (omega arith))

-- The receiver's part: the datagram in the memory `d`, from its UDP header on.
handle_udp_lem :
    (n : Net) (ip d : Bytes) (sp dp len : ℕ) (payload : List ℕ)
    → sp < 2 ^ 16
    → dp < 2 ^ 16
    → len ≡ length payload + 8
    → len < 2 ^ 16
    → ((j : ℕ) → d j ≡ bytes_of (udp_packet sp dp payload) j)
    → net_handle_udp n ip d len ≡ call_udp n.udp_bindings n (ip_at ip 12) sp dp payload
unfolding net_handle_udp
handle_udp_lem n ip d sp dp len payload bs bd e b h =
    let total : u16 (8 + length payload) ≡ len = omega arith in
    let ul : ntohs (load16 d 4) ≡ len = omega (arith, h 4, h 5, total) in
    let s : ntohs (load16 d 0) ≡ sp = omega (arith, h 0, h 1) in
    let t : ntohs (load16 d 2) ≡ dp = omega (arith, h 2, h 3) in
    let l : len - 8 ≡ length payload = omega arith in
    let p : slice d 8 (length payload) ≡ payload =
      slice_lem payload d 8 (λ j. h (8 + j) ∙ bytes_of-drop 8 j (udp_packet sp dp payload)) in
    let c1 : ltb len 8 ≡ false = ge→ltb len 8 (omega arith) in
    let c2 : ltb len len ≡ false = ge→ltb len len (omega arith) in rw (ul, s, t, l, p, c1, c2) refl

handle_ipv4_lem :
    (n : Net) (src_mac : Mac) (d : Bytes) (len : ℕ) (src : Ip4) (sp dp : ℕ) (payload : List ℕ)
    → sp < 2 ^ 16
    → dp < 2 ^ 16
    → len ≡ length payload + 28
    → len < 2 ^ 16
    → ((j : ℕ) → d j ≡ bytes_of (ip_packet src n.my_ip 17 (udp_packet sp dp payload)) j)
    → net_handle_ipv4 n src_mac d len ≡ call_udp n.udp_bindings n src sp dp payload
unfolding net_handle_ipv4
handle_ipv4_lem n src_mac d len src sp dp payload bs bd e b h =
    let total : u16 (20 + length (udp_packet sp dp payload)) ≡ len = omega arith in
    let hl : d 0 % 16 * 4 ≡ 20 = omega (arith, h 0) in
    let pl : u16 (ntohs (load16 d 2) + 2 ^ 16 - 20) ≡ length payload + 8 =
      omega (arith, h 2, h 3, total) in
    let c1 : ltb len 20 ≡ false = ge→ltb len 20 (omega arith) in
    let mine : ip_eq (ip_at d 16) n.my_ip ≡ true =
      rw (h 16, h 17, h 18, h 19) (ip_eq_self n.my_ip) in
    let src_eq : ip_at d 12 ≡ src = rw (h 12, h 13, h 14, h 15) refl in
    let p1 : (d 9 == 1) ≡ false = rw (h 9) refl in
    let p2 : (d 9 == 17) ≡ true = rw (h 9) refl in
    rw (hl, pl, c1, mine, p1, p2)
      (handle_udp_lem n d (from d 20) sp dp (length payload + 8) payload bs bd refl (omega arith)
          (λ j.
            h (20 + j) ∙ bytes_of-drop 20 j (ip_packet src n.my_ip 17 (udp_packet sp dp payload)))
        ∙ ap (λ ip. call_udp n.udp_bindings n ip sp dp payload) src_eq)

abbrev counted : Net → Net
counted n = record n { rx_packet_count = u64 (n.rx_packet_count + 1) }

handle_packet_lem :
    (n : Net) (dest src_mac : Mac) (src : Ip4) (sp dp : ℕ) (payload : List ℕ)
    → sp < 2 ^ 16
    → dp < 2 ^ 16
    → length payload + 42 < 2 ^ 16
    → let f = udp_frame dest src_mac src n.my_ip sp dp payload in
      net_handle_packet n (bytes_of f) (length f)
      ≡ call_udp n.udp_bindings (counted n) src sp dp payload
unfolding net_handle_packet
handle_packet_lem n dest src_mac src sp dp payload bs bd b =
    let f = udp_frame dest src_mac src n.my_ip sp dp payload in
    let d = bytes_of f in
    let packet = ip_packet src n.my_ip 17 (udp_packet sp dp payload) in
    let c1 : ltb (length f) 14 ≡ false = ge→ltb (length f) 14 (omega arith) in
    rw c1 (
      handle_ipv4_lem (counted n) (mac_at d 6) (from d 14) (length f - 14) src sp dp payload bs bd
        (omega arith) (omega arith) (λ j. bytes_of-drop 14 j f))

-- A datagram of at most 65,493 bytes to a machine whose hardware address is known: the sender hands
-- the card one frame more, and the receiver, when it handles that frame, calls the handler that is
-- first bound to the port, with the sender's address and port and the same bytes, and does nothing
-- else but count the frame.
pub udp_delivery :
    (a b : Net) (mac : Mac) (sp dp h : ℕ) (payload : List ℕ)
    → ip_eq b.my_ip broadcast_ip ≡ false
    → lookup_mac a.arp_cache b.my_ip ≡ some mac
    → handler_of b.udp_bindings dp ≡ some h
    → sp < 2 ^ 16
    → dp < 2 ^ 16
    → length payload + 42 < 2 ^ 16
    → (frame : List ℕ) × ((net_send_udp a b.my_ip sp dp payload).frames ≡ a.frames ++ (frame ∷ []))
      × (net_handle_packet b (bytes_of frame) (length frame) ≡ record b {
        rx_packet_count = u64 (b.rx_packet_count + 1);
        calls =
            b.calls
            ++ (record {
              handler = h;
              src_ip = a.my_ip;
              src_port = sp;
              dst_port = dp;
              payload = payload;
            }
                ∷ []);
      })
unfolding net_send_udp
udp_delivery a b mac sp dp h payload nb lm ho bs bd l = (
  udp_frame mac a.my_mac a.my_ip b.my_ip sp dp payload,
  rw (nb, lm) (send_udp_to_lem a b.my_ip mac sp dp payload l),
  handle_packet_lem b mac a.my_mac a.my_ip sp dp payload bs bd l
      ∙ call_udp_lem b.udp_bindings (counted b) a.my_ip sp dp payload h ho,
)
