-- ===== src/Printf/Digits.antt =====
-- The loops below `itoa` of src/kernel/printf.c: digits are written from the last to the first, and
-- then turned round.
use zoho_os_chatbot.Base.{
  ℕ, zero, suc, ◌+◌, ◌-◌, ◌*◌, ◌/◌, ◌%◌, ◌^◌, ◌<◌, ◌≤◌, ◌≡◌, ◌≢◌, ◌⊎◌, inl, inr, refl, sym, ap, ◌∙◌,
  arith, ltb, leb, ◌==◌, ◌&&◌, if◌then◌else◌, update, update_self, update_ne, Bool-cases,
}
use zoho_os_chatbot.Printf.{Chars, digit, strlen, swap_loop, digit_loop}

-- The number that a digit stands for.
abbrev pub digit_value : ℕ → ℕ
digit_value c = if ltb c b'a' then c - b'0' else c - b'a' + 10

-- A character that the code writes for a number below `base`.
abbrev pub IsDigit : ℕ → ℕ → Type 0
IsDigit base c = (digit_value c < base) × (digit (digit_value c) ≡ c)

abbrev pub IsBase : ℕ → Type 0
IsBase base = (base ≡ 10) ⊎ (base ≡ 16)

-- `m` digits from `i` on, the last digit of the number first.
unfoldable pub little : ℕ → Chars → ℕ → ℕ → ℕ
little base t i zero = 0
little base t i (suc m) = digit_value (t i) + base * little base t (suc i) m

-- What the loop of `itoa` leaves behind: `m` digits from `i` on that spell `n`.
pub record Written (base n : ℕ) (s : Chars) (i fuel : ℕ) (r : Chars × ℕ) : Type 0 where
  pub m : ℕ
  pub end : r.1 ≡ i + m
  pub short : m ≤ fuel
  pub kept : (k : ℕ) → k < i → r.0 k ≡ s k
  pub digits : (k : ℕ) → i ≤ k → k < i + m → r.0 k ≢ 0
  pub proper : (k : ℕ) → i ≤ k → k < i + m → IsDigit base (r.0 k)
  pub value : little base r.0 i m ≡ n
  pub empty : n ≡ 0 → m ≡ 0
  pub top : n ≢ 0 → (0 < m) × (r.0 (i + m - 1) ≢ b'0')

digit-positive : (d : ℕ) → digit d ≢ 0
digit-positive d = ground arith

digit_value-digit : (d : ℕ) → d < 16 → digit_value (digit d) ≡ d
digit_value-digit d h = ground arith

digit-IsDigit : (base d : ℕ) → d < base → d < 16 → IsDigit base (digit d)
digit-IsDigit base d l h = (rw (digit_value-digit d h) l, ap (λ e. digit e) (digit_value-digit d h))

mod-base : (base n : ℕ) → IsBase base → n % base < base
mod-base base n (inl e) = rw e (omega arith)
mod-base base n (inr e) = rw e (omega arith)

mod-below : (base n : ℕ) → IsBase base → n % base < 16
mod-below base n (inl e) = rw e (omega arith)
mod-below base n (inr e) = rw e (omega arith)

div-mod : (base n : ℕ) → IsBase base → n % base + base * (n / base) ≡ n
div-mod base n (inl e) = rw e (omega arith)
div-mod base n (inr e) = rw e (omega arith)

digit-zero : (d : ℕ) → digit d ≡ b'0' → d ≡ 0
digit-zero d e = ground arith

div-zero : (base n : ℕ) → IsBase base → n % base ≡ 0 → n / base ≡ 0 → n ≡ 0
div-zero base n b e f = sym (div-mod base n b) ∙ rw (e, f) (omega arith)

div-halves : (base n f : ℕ) → IsBase base → n < 2 ^ suc f → n / base < 2 ^ f
div-halves base n f (inl e) h = rw e (omega arith)
div-halves base n f (inr e) h = rw e (omega arith)

pub digit_loop-Written :
    (fuel n base : ℕ) (s : Chars) (i : ℕ)
    → IsBase base
    → n < 2 ^ fuel
    → Written base n s i fuel (digit_loop fuel n base s i)
unfolding digit_loop little
digit_loop-Written zero n base s i b h = record {
  m = 0;
  end = omega arith;
  short = omega arith;
  kept = λ k l. refl;
  digits = λ k l u. absurd (omega arith);
  proper = λ k l u. absurd (omega arith);
  value = omega arith;
  empty = λ e. refl;
  top = λ q. absurd (omega arith);
}
digit_loop-Written (suc fuel) n base s i b h = elim (Bool-cases (n == 0)) [
  | inl e ↦
      rw (e, digit_loop)
        (record {
          m = 0;
          end = omega arith;
          short = omega arith;
          kept = λ k l. refl;
          digits = λ k l u. absurd (omega arith);
          proper = λ k l u. absurd (omega arith);
          value = ground arith;
          empty = λ q. refl;
          top = λ q. absurd (ground arith);
        })
  | inr e ↦
      let s' = update s i (digit (n % base)) in
      let w = digit_loop-Written fuel (n / base) base s' (suc i) b (div-halves base n fuel b h) in
      let r = digit_loop fuel (n / base) base s' (suc i) in
      let here : r.0 i ≡ digit (n % base) = w.kept i (omega arith) ∙ update_self s i _ in
      rw (e, digit_loop)
        (record {
          m = suc w.m;
          end = omega (arith, w.end);
          short = omega (arith, w.short);
          kept = λ k l. w.kept k (omega arith) ∙ update_ne s i k _ (λ q. omega arith);
          digits = λ k l u. elim (Bool-cases (k == i)) [
            | inl q ↦ (λ z. digit-positive (n % base) (sym here ∙ ap r.0 (ground arith) ∙ z))
            | inr q ↦ w.digits k (ground arith) (omega arith)
          ];
          proper = λ k l u. elim (Bool-cases (k == i)) [
            | inl q ↦
                let there : r.0 k ≡ digit (n % base) = ap r.0 (ground arith) ∙ here in
                rw there (digit-IsDigit base (n % base) (mod-base base n b) (mod-below base n b))
            | inr q ↦ w.proper k (ground arith) (omega arith)
          ];
          value =
              rw (here, digit_value-digit (n % base) (mod-below base n b), w.value)
                (div-mod base n b);
          empty = λ q. absurd (ground arith);
          top = λ q. (
            omega arith,
            (λ z. elim (Bool-cases (n / base == 0)) [
              | inl u ↦
                  let m0 : w.m ≡ 0 = w.empty (ground arith) in
                  q (
                    div-zero base n b (digit-zero (n % base) (sym here ∙ ap r.0 (omega arith) ∙ z))
                      (ground arith))
              | inr u ↦ (w.top (λ o. ground arith)).1 (ap r.0 (omega arith) ∙ z)
            ]),
          );
        })
]

-- Memory with the characters from `i` to `j` turned round.
abbrev pub mirror : Chars → ℕ → ℕ → Chars
mirror s i j k = if leb i k && leb k j then s (i + j - k) else s k

mirror-short : (s : Chars) (i j k : ℕ) → j ≤ i → s k ≡ mirror s i j k
mirror-short s i j k h = grind arith

swap : Chars → ℕ → ℕ → Chars
swap s i j = update (update s i (s j)) j (s i)

mirror-swap :
    (s : Chars) (i j k : ℕ) → i < j → mirror (swap s i j) (suc i) (j - 1) k ≡ mirror s i j k
unfolding swap
mirror-swap s i j k h = grind arith

pub swap_loop-mirror :
    (fuel : ℕ) (s : Chars) (i j k : ℕ) → j ≤ i + fuel → swap_loop fuel s i j k ≡ mirror s i j k
unfolding swap_loop swap
swap_loop-mirror zero s i j k h = mirror-short s i j k (omega arith)
swap_loop-mirror (suc fuel) s i j k h = elim (Bool-cases (ltb i j)) [
  | inl e ↦
      rw (e, swap_loop)
        (swap_loop-mirror fuel (swap s i j) (suc i) (j - 1) k (omega arith)
          ∙ mirror-swap s i j k (ground arith))
  | inr e ↦ rw (e, swap_loop) (mirror-short s i j k (ground arith))
]

pub strlen_lem :
    (fuel m : ℕ) (s : Chars) → m < fuel → ((k : ℕ) → k < m → s k ≢ 0) → s m ≡ 0 → strlen fuel s ≡ m
unfolding strlen
strlen_lem zero m s l d z = absurd (omega arith)
strlen_lem (suc fuel) zero s l d z = ground arith
strlen_lem (suc fuel) (suc m) s l d z = ground (
  arith,
  d 0 (omega arith),
  strlen_lem fuel m (λ k. s (suc k)) (omega arith) (λ k u. d (suc k) (omega arith)) z,
)
