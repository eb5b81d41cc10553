-- ===== src/Net/Transmit.antt =====
-- The TCP segments that net_send_tcp of src/kernel/net.c sends, with the checksum over them and over
-- the header that stands for their addresses.
use zoho_os_chatbot.Base.{
  ℕ, zero, suc, ◌+◌, ◌-◌, ◌*◌, ◌/◌, ◌%◌, ◌<◌, ◌≡◌, refl, sym, ap, ap₂, ◌∙◌, fun_ext, arith, ◌==◌,
  if◌then◌else◌, u16, u32, Option, none, some, List, [], ◌∷◌, ◌++◌, All, length, Bool-cases, inl,
  inr,
}
use zoho_os_chatbot.Net.Checksum.{AreBytes, with_word, net_checksum-with_word}
use zoho_os_chatbot.Net.Receive.Delivery.{bytes_of-drop}
use zoho_os_chatbot.Net.Wire.{
  Bytes, Mac, Ip4, ip_bytes, htons, htonl, low8, high8, le32, load16, bytes_of, sum_words, fold_sum,
  complement, checksum_rounds, net_checksum,
}
use zoho_os_chatbot.Net.{Net, net_send_ipv4, resolve}

-- What the caller of `net_send_tcp` gives.
pub record Outgoing : Type 0 where
  pub src_port : ℕ
  pub dst_port : ℕ
  pub seq : ℕ
  pub ack : ℕ
  pub flags : ℕ
  pub payload : List ℕ

abbrev pub total_len : Outgoing → ℕ
total_len o = u16 (20 + length o.payload)

-- The `tcp_packet_t` with a checksum, up to it and behind it.
abbrev pub before_sum : Outgoing → List ℕ → List ℕ
before_sum o rest =
    low8 (htons o.src_port)
    ∷ high8 (htons o.src_port)
    ∷ low8 (htons o.dst_port)
    ∷ high8 (htons o.dst_port)
    ∷ le32 (htonl o.seq)
        (le32 (htonl o.ack) (80 ∷ o.flags ∷ low8 (htons 8192) ∷ high8 (htons 8192) ∷ rest))

abbrev pub tcp_packet : Outgoing → ℕ → List ℕ
tcp_packet o sum = before_sum o (low8 sum ∷ high8 sum ∷ 0 ∷ 0 ∷ o.payload)

-- `pseudo`
abbrev pub pseudo_header : Ip4 → Ip4 → ℕ → List ℕ → List ℕ
pseudo_header src target len rest =
    ip_bytes src (ip_bytes target (0 ∷ 6 ∷ low8 (htons len) ∷ high8 (htons len) ∷ rest))

-- The two loops and the fold.
unfoldable pub tcp_checksum : Bytes → Bytes → ℕ → ℕ
tcp_checksum pseudo tcp len =
    let sum = sum_words (len / 2) tcp 0 (sum_words 6 pseudo 0 0) in
    let all = if len % 2 == 1 then u32 (sum + tcp (len - 1)) else sum in
    complement (fold_sum checksum_rounds all)

abbrev pub segment_sum : Ip4 → Ip4 → Outgoing → ℕ
segment_sum src target o =
    tcp_checksum (bytes_of (pseudo_header src target (total_len o) [])) (bytes_of (tcp_packet o 0))
      (total_len o)

send_segment : Ip4 → Outgoing → Option Mac × Net → Net
send_segment target o (none, n) = n
send_segment target o (some mac, n) =
    net_send_ipv4 n target mac 6 (tcp_packet o (segment_sum n.my_ip target o))

-- `net_send_tcp`; `poll` is what waiting for an answer does to the state, as in `resolve`.
pub net_send_tcp : (Net → Net) → Net → Ip4 → Outgoing → Net
unfolding send_segment
net_send_tcp poll n target o = send_segment target o (resolve poll n target)

-- What a receiver sums: the header for the addresses and the segment.
abbrev pub summed : Ip4 → Ip4 → Outgoing → ℕ → List ℕ
summed src target o sum = pseudo_header src target (total_len o) (tcp_packet o sum)

sum_words-from :
    (n k : ℕ) (d e : Bytes) (i sum : ℕ)
    → ((j : ℕ) → d (k + j) ≡ e j)
    → sum_words n d (k + i) sum ≡ sum_words n e i sum
unfolding sum_words
sum_words-from zero k d e i sum h = refl
sum_words-from (suc n) k d e i sum h =
    let a : load16 d (k + i) ≡ load16 e i =
      ap₂ (λ x y. x + 256 * y) (h i) (ap (λ x. d x) (omega arith) ∙ h (i + 1)) in
    let p : k + i + 2 ≡ k + (i + 2) = omega arith in
    rw (a, p) (sum_words-from n k d e (i + 2) (u32 (sum + load16 e i)) h)

-- Twelve bytes in front are six words more.
tcp_checksum_lem :
    (src target : Ip4) (len : ℕ) (rest : List ℕ)
    → let all = pseudo_header src target len rest in
      tcp_checksum (bytes_of (pseudo_header src target len [])) (bytes_of rest) len
      ≡ net_checksum (bytes_of all) (12 + len)
unfolding tcp_checksum net_checksum
tcp_checksum_lem src target len rest =
    let all = pseudo_header src target len rest in
    let m = len / 2 in
    let six = sum_words 6 (bytes_of (pseudo_header src target len [])) 0 0 in
    let half : (12 + len) / 2 ≡ suc (suc (suc (suc (suc (suc m))))) = omega arith in
    let odd : (12 + len) % 2 ≡ len % 2 = omega arith in
    let sums : sum_words ((12 + len) / 2) (bytes_of all) 0 0 ≡ sum_words m (bytes_of rest) 0 six =
      ap (λ n. sum_words n (bytes_of all) 0 0) half
      ∙ sum_words-from m 12 (bytes_of all) (bytes_of rest) 0 six (λ j. bytes_of-drop 12 j all) in
    elim (Bool-cases (len % 2 == 1)) [
      | inl y ↦
          let at : 12 + len - 1 ≡ 12 + (len - 1) =
            let g : len % 2 ≡ 1 = ground arith in omega (arith, g) in
          let l : bytes_of all (12 + len - 1) ≡ bytes_of rest (len - 1) =
            ap (bytes_of all) at ∙ bytes_of-drop 12 (len - 1) all in
          rw (odd, y, sums, l) refl
      | inr n ↦ rw (odd, n, sums) refl
    ]

-- A word in the middle of a list.
with_word-middle :
    (xs ys : List ℕ) (a b c j : ℕ)
    → with_word (bytes_of (xs ++ (a ∷ b ∷ ys))) (length xs) c j
      ≡ bytes_of (xs ++ (low8 c ∷ high8 c ∷ ys)) j
with_word-middle [] ys a b c zero = refl
with_word-middle [] ys a b c (suc zero) = refl
with_word-middle [] ys a b c (suc (suc j)) = ground arith
with_word-middle (x ∷ xs) ys a b c zero = ground arith
with_word-middle (x ∷ xs) ys a b c (suc j) =
    let r = with_word-middle xs ys a b c j in ground (arith, r)

All-AreBytes : (xs : List ℕ) → All (λ x. x < 256) xs → AreBytes (bytes_of xs)
All-AreBytes [] a i = omega arith
All-AreBytes (x ∷ xs) a zero = a.0
All-AreBytes (x ∷ xs) a (suc i) = All-AreBytes xs a.1 i

-- A segment with its checksum, sent by `net_send_tcp`, passes the test of its receiver: the sum over
-- the addresses, the protocol, the length and the segment is 0. The addresses, the flags and the
-- payload are bytes, and the payload has fewer than 65504 of them, so that the sum's length is below
-- 2 ^ 16.
pub segment_accepted :
    (src target : Ip4) (o : Outgoing)
    → All (λ b. b < 256) (ip_bytes src (ip_bytes target (o.flags ∷ o.payload)))
    → length o.payload < 65504
    → net_checksum
        (bytes_of (summed src target o (segment_sum src target o)))
        (32 + length o.payload)
      ≡ 0
segment_accepted src target o b h =
    let size = 32 + length o.payload in
    let len : 12 + total_len o ≡ size = omega arith in
    let c = segment_sum src target o in
    let zero_sum = summed src target o 0 in
    let front = pseudo_header src target (total_len o) (before_sum o []) in
    let bytes : AreBytes (bytes_of zero_sum) = All-AreBytes zero_sum (ground (arith, b)) in
    let e : c ≡ net_checksum (bytes_of zero_sum) size =
      tcp_checksum_lem src target (total_len o) (tcp_packet o 0)
      ∙ ap (net_checksum (bytes_of zero_sum)) len in
    let stored : bytes_of (summed src target o c) ≡ with_word (bytes_of zero_sum) 28 c =
      fun_ext (λ j. sym (with_word-middle front (0 ∷ 0 ∷ o.payload) 0 0 c j)) in
    ap (λ d. net_checksum d size) stored
    ∙ ap (λ n. net_checksum (with_word (bytes_of zero_sum) 28 n) size) e
    ∙ net_checksum-with_word (bytes_of zero_sum) size 14 bytes (omega arith) (omega arith) refl refl
