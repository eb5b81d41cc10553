-- ===== src/Net/Checksum.antt =====
-- The Internet checksum of src/kernel/net.c: a packet that carries it sums to zero.
use zoho_os_chatbot.Base.{
  ℕ, zero, suc, ◌+◌, ◌-◌, ◌*◌, ◌/◌, ◌%◌, ◌^◌, ◌<◌, ◌≤◌, ◌≡◌, refl, sym, ap, ◌∙◌, arith, ltb, ◌==◌,
  if◌then◌else◌, u32, update, Bool-cases, inl, inr,
}
use zoho_os_chatbot.Net.Wire.{
  Bytes, low8, high8, load16, sum_words, fold_sum, complement, checksum_rounds, net_checksum,
}

-- The sum of `n` words, unbounded.
total : ℕ → Bytes → ℕ → ℕ
total zero d i = 0
total (suc n) d i = load16 d i + total n d (i + 2)

abbrev pub AreBytes : Bytes → Type 0
AreBytes d = (i : ℕ) → d i < 256

total-le : (n : ℕ) (d : Bytes) (i : ℕ) → AreBytes d → total n d i ≤ n * 65535
unfolding total
total-le zero d i b = omega arith
total-le (suc n) d i b = omega (arith, b i, b (i + 1), total-le n d (i + 2) b)

sum_words-total :
    (n : ℕ) (d : Bytes) (i sum : ℕ)
    → AreBytes d
    → sum + n * 65535 < 2 ^ 32
    → sum_words n d i sum ≡ sum + total n d i
unfolding sum_words total
sum_words-total zero d i sum b h = omega arith
sum_words-total (suc n) d i sum b h =
    let e : u32 (sum + load16 d i) ≡ sum + load16 d i = omega (arith, b i, b (i + 1)) in
    rw e (
      sum_words-total n d (i + 2) (sum + load16 d i) b (omega (arith, b i, b (i + 1)))
      ∙ omega arith)

-- The packet with the word `c` at `pos`.
abbrev pub with_word : Bytes → ℕ → ℕ → Bytes
with_word d pos c = update (update d pos (low8 c)) (pos + 1) (high8 c)

total-after :
    (n : ℕ) (d : Bytes) (i pos c : ℕ) → pos + 2 ≤ i → total n (with_word d pos c) i ≡ total n d i
unfolding total
total-after zero d i pos c h = refl
total-after (suc n) d i pos c h = ground (arith, total-after n d (i + 2) pos c)

total-with_word :
    (n : ℕ) (d : Bytes) (i k c : ℕ)
    → k < n
    → d (i + 2 * k) ≡ 0
    → d (i + 2 * k + 1) ≡ 0
    → c < 2 ^ 16
    → total n (with_word d (i + 2 * k) c) i ≡ total n d i + c
unfolding total
total-with_word zero d i k c l z w b = absurd (omega arith)
total-with_word (suc n) d i zero c l z w b =
    let e : i + 2 * 0 ≡ i = omega arith in
    let z0 : d i ≡ 0 = ap d (sym e) ∙ z in
    let z1 : d (i + 1) ≡ 0 = ap (λ j. d (j + 1)) (sym e) ∙ w in
    let first : load16 (with_word d (i + 2 * 0) c) i ≡ c = ground arith in
    omega (arith, first, total-after n d (i + 2) (i + 2 * 0) c)
total-with_word (suc n) d i (suc k) c l z w b =
    let e : i + 2 * suc k ≡ i + 2 + 2 * k = omega arith in
    let first : load16 (with_word d (i + 2 * suc k) c) i ≡ load16 d i = ground arith in
    let rest =
      total-with_word n d (i + 2) k c (omega arith) (ap d (sym e) ∙ z)
        (ap (λ j. d (j + 1)) (sym e) ∙ w) b in
    let moved : total n (with_word d (i + 2 * suc k) c) (i + 2)
        ≡ total n (with_word d (i + 2 + 2 * k) c) (i + 2) =
      ap (λ p. total n (with_word d p c) (i + 2)) e in
    omega (arith, first, rest, moved)

-- The folded sum has 16 bits, differs by a multiple of 65535, and is 0 only for 0.
record Folded (x r : ℕ) : Type 0 where
  small : r < 2 ^ 16
  rounds : ℕ
  same : x ≡ r + 65535 * rounds
  positive : 0 < x → 0 < r

fold_stop : (f x : ℕ) → x < 2 ^ 16 → fold_sum f x ≡ x
unfolding fold_sum
fold_stop zero x h = refl
fold_stop (suc f) x h = ground arith

fold_round : (f x : ℕ) → 2 ^ 16 ≤ x → fold_sum (suc f) x ≡ fold_sum f (x % 2 ^ 16 + x / 2 ^ 16)
unfolding fold_sum
fold_round f x h = ground arith

Folded-round : (x r : ℕ) → Folded (x % 2 ^ 16 + x / 2 ^ 16) r → Folded x r
Folded-round x r f = record {
  small = f.small;
  rounds = f.rounds + x / 2 ^ 16;
  same = omega (arith, f.same);
  positive = λ p. f.positive (omega arith);
}

Folded-self : (x : ℕ) → x < 2 ^ 16 → Folded x x
Folded-self x h = record { small = h; rounds = 0; same = omega arith; positive = λ p. p }

-- A sum that one more round makes small.
fold-almost : (f x : ℕ) → x ≤ 131070 → Folded x (fold_sum (suc f) x)
fold-almost f x h = elim (Bool-cases (ltb x (2 ^ 16))) [
  | inl y ↦ rw (fold_stop (suc f) x (ground arith)) (Folded-self x (ground arith))
  | inr y ↦
      let big : 2 ^ 16 ≤ x = ground arith in
      let z = x % 2 ^ 16 + x / 2 ^ 16 in
      let s : z < 2 ^ 16 = omega arith in
      rw (fold_round f x big, fold_stop f z s) (Folded-round x z (Folded-self z s))
]

fold_sum-Folded : (x : ℕ) → x < 2 ^ 32 → Folded x (fold_sum checksum_rounds x)
fold_sum-Folded x h = elim (Bool-cases (ltb x (2 ^ 16))) [
  | inl y ↦ rw (fold_stop 3 x (ground arith)) (Folded-self x (ground arith))
  | inr y ↦
      let big : 2 ^ 16 ≤ x = ground arith in
      let z = x % 2 ^ 16 + x / 2 ^ 16 in
      rw (fold_round 2 x big) (Folded-round x (fold_sum 2 z) (fold-almost 1 z (omega arith)))
]

-- The sum that `net_checksum` folds.
abbrev last_byte : Bytes → ℕ → ℕ
last_byte d len = if len % 2 == 1 then d (len - 1) else 0

net_checksum-fold :
    (d : Bytes) (len : ℕ)
    → AreBytes d
    → len < 2 ^ 16
    → net_checksum d len
      ≡ complement (fold_sum checksum_rounds (total (len / 2) d 0 + last_byte d len))
unfolding net_checksum
net_checksum-fold d len b h =
    let s = sum_words-total (len / 2) d 0 0 b (omega arith) in
    let t = total-le (len / 2) d 0 b in
    elim (Bool-cases (len % 2 == 1)) [
      | inl y ↦
          let e : u32 (sum_words (len / 2) d 0 0 + d (len - 1))
              ≡ total (len / 2) d 0 + d (len - 1) =
            omega (arith, s, t, b (len - 1)) in
          rw (y, e) refl
      | inr y ↦
          let e : sum_words (len / 2) d 0 0 ≡ total (len / 2) d 0 + 0 = omega (arith, s) in
          rw (y, e) refl
    ]

with_word-AreBytes : (d : Bytes) (pos c : ℕ) → AreBytes d → AreBytes (with_word d pos c)
with_word-AreBytes d pos c b i = ground (arith, b i)

-- Over a packet of bytes whose word at an even place is 0, let `c` be the checksum: the checksum over
-- the packet with `c` stored at that place is 0, by which the receiver accepts it.
pub net_checksum-with_word :
    (d : Bytes) (len k : ℕ)
    → AreBytes d
    → len < 2 ^ 16
    → k < len / 2
    → d (2 * k) ≡ 0
    → d (2 * k + 1) ≡ 0
    → net_checksum (with_word d (2 * k) (net_checksum d len)) len ≡ 0
net_checksum-with_word d len k b h l z w =
    let c = net_checksum d len in
    let e = net_checksum-fold d len b h in
    let n = len / 2 in
    let tail = last_byte d len in
    let sum = total n d 0 + tail in
    let t = total-le n d 0 b in
    let lb : tail < 256 = ground (arith, b (len - 1)) in
    let f = fold_sum-Folded sum (omega (arith, t)) in
    let cb : c < 2 ^ 16 = omega (arith, e) in
    let at : 0 + 2 * k ≡ 2 * k = omega arith in
    let d2 = with_word d (2 * k) c in
    let same_tail : last_byte d2 len ≡ tail = ground arith in
    let w2 = total-with_word n d 0 k c l (ap d at ∙ z) (ap (λ j. d (j + 1)) at ∙ w) cb in
    let moved : total n (with_word d (0 + 2 * k) c) 0 ≡ total n d2 0 =
      ap (λ p. total n (with_word d p c) 0) at in
    let sum2 : total n d2 0 + last_byte d2 len ≡ sum + c = omega (arith, w2, moved, same_tail) in
    let f2 = fold_sum-Folded (sum + c) (omega (arith, t)) in
    let done : complement (fold_sum checksum_rounds (sum + c)) ≡ 0 =
      omega (arith, f.small, f.same, f2.small, f2.same, f2.positive, e) in
    net_checksum-fold d2 len (with_word-AreBytes d (2 * k) c b) h
    ∙ ap (λ s. complement (fold_sum checksum_rounds s)) sum2
    ∙ done
