-- ===== src/Printf/Number.antt =====
-- `itoa` of src/kernel/printf.c: its digits spell the number.
use zoho_os_chatbot.Base.{
  ℕ, zero, suc, ◌+◌, ◌-◌, ◌*◌, ◌^◌, ◌<◌, ◌≤◌, ◌≡◌, ◌≢◌, refl, sym, ap, ◌∙◌, List, [], ◌∷◌, arith,
  ◌==◌, true, false, length, get_or, update, update_self, update_ne, Bool-cases, inl, inr, All,
}
use zoho_os_chatbot.Printf.{Chars, strlen, digit_loop, reverse, itoa, buf_size}
use zoho_os_chatbot.Printf.Digits.{
  digit_value, IsDigit, IsBase, little, digit_loop-Written, mirror, swap_loop-mirror, strlen_lem,
}

-- The characters before the first 0, looked for in `fuel` of them.
unfoldable pub string_at : ℕ → Chars → List ℕ
string_at zero t = []
string_at (suc fuel) t = elim (t 0 == 0) [
  | true ↦ []
  | false ↦ t 0 ∷ string_at fuel (λ k. t (suc k))
]

-- The number that digits spell behind those that spell `acc`.
abbrev pub spelled : ℕ → ℕ → List ℕ → ℕ
spelled base acc [] = acc
spelled base acc (c ∷ cs) = spelled base (acc * base + digit_value c) cs

spelled-string_at :
    (m q fuel base : ℕ) (t v : Chars)
    → m < fuel
    → ((k : ℕ) → k < m → v k ≡ t (m - suc k))
    → v m ≡ 0
    → ((k : ℕ) → k < m → t k ≢ 0)
    → spelled base (little base t m q) (string_at fuel v) ≡ little base t 0 (m + q)
unfolding string_at little
spelled-string_at m q zero base t v l s z d = absurd (omega arith)
spelled-string_at zero q (suc fuel) base t v l s z d =
    rw (z, string_at) (ap (little base t 0) (omega arith))
spelled-string_at (suc m) q (suc fuel) base t v l s z d =
    let first : v 0 ≡ t m = s 0 (omega arith) ∙ ap t (omega arith) in
    let some_digit : (v 0 == 0) ≡ false = ground (arith, d m (omega arith)) in
    let acc : little base t (suc m) q * base + digit_value (v 0) ≡ little base t m (suc q) =
      rw first (grind arith) in
    rw (some_digit, string_at, acc)
      (spelled-string_at m (suc q) fuel base t (λ k. v (suc k)) (omega arith)
          (λ k l. s (suc k) (omega arith) ∙ ap t (omega arith)) z (λ k l. d k (omega arith))
        ∙ ap (little base t 0) (omega arith))

length-string_at :
    (m fuel : ℕ) (v : Chars)
    → m < fuel
    → ((k : ℕ) → k < m → v k ≢ 0)
    → v m ≡ 0
    → length (string_at fuel v) ≡ m
unfolding string_at
length-string_at m zero v l d z = absurd (omega arith)
length-string_at zero (suc fuel) v l d z = rw (z, string_at) refl
length-string_at (suc m) (suc fuel) v l d z =
    let some_digit : (v 0 == 0) ≡ false = ground (arith, d 0 (omega arith)) in
    rw (some_digit, string_at)
      (ap suc
        (length-string_at m fuel (λ k. v (suc k)) (omega arith) (λ k u. d (suc k) (omega arith)) z))

All-string_at :
    (base m fuel : ℕ) (v : Chars)
    → m < fuel
    → ((k : ℕ) → k < m → v k ≢ 0)
    → ((k : ℕ) → k < m → IsDigit base (v k))
    → v m ≡ 0
    → All (λ c. IsDigit base c) (string_at fuel v)
unfolding string_at
All-string_at base m zero v l d p z = absurd (omega arith)
All-string_at base zero (suc fuel) v l d p z = rw (z, string_at) tt
All-string_at base (suc m) (suc fuel) v l d p z =
    let some_digit : (v 0 == 0) ≡ false = ground (arith, d 0 (omega arith)) in
    rw (some_digit, string_at)
      (
        p 0 (omega arith),
        All-string_at base m fuel (λ k. v (suc k)) (omega arith) (λ k u. d (suc k) (omega arith))
            (λ k u. p (suc k) (omega arith)) z,
      )

-- The string `v` of `m` characters spells `n` without a leading zero.
pub record Spells (base n : ℕ) (v : Chars) : Type 0 where
  pub m : ℕ
  pub positive : 0 < m
  pub short : m ≤ 64
  pub digits : (k : ℕ) → k < m → v k ≢ 0
  pub proper : (k : ℕ) → k < m → IsDigit base (v k)
  pub one : n ≡ 0 → m ≡ 1
  pub end : v m ≡ 0
  pub value : spelled base 0 (string_at buf_size v) ≡ n
  pub leading : n ≢ 0 → v 0 ≢ b'0'

mirror-inside : (s : Chars) (m k : ℕ) → k < m → mirror s 0 (m - 1) k ≡ s (m - suc k)
mirror-inside s m k h = grind arith

mirror-outside : (s : Chars) (m : ℕ) → 0 < m → mirror s 0 (m - 1) m ≡ s m
mirror-outside s m h = grind arith

-- Turning round what the loop has written, and ended by a 0.
reverse-Spells :
    (base n : ℕ) (t : Chars) (m : ℕ)
    → 0 < m
    → m ≤ 64
    → ((k : ℕ) → k < m → t k ≢ 0)
    → ((k : ℕ) → k < m → IsDigit base (t k))
    → (n ≡ 0 → m ≡ 1)
    → little base t 0 m ≡ n
    → (n ≢ 0 → t (m - 1) ≢ b'0')
    → Spells base n (reverse (update t m 0))
unfolding reverse little
reverse-Spells base n t m p l d proper one e lead =
    let t' = update t m 0 in
    let kept : (k : ℕ) → k < m → t' k ≡ t k = λ k u. update_ne t m k 0 (λ q. omega arith) in
    let len : strlen buf_size t' ≡ m =
      strlen_lem buf_size m t' (omega arith) (λ k u z. d k u (sym (kept k u) ∙ z))
        (update_self t m 0) in
    let turned : (k : ℕ) → reverse t' k ≡ mirror t' 0 (m - 1) k =
      λ k. rw len (swap_loop-mirror buf_size t' 0 (m - 1) k (omega arith)) in
    let inner : (k : ℕ) → k < m → reverse t' k ≡ t (m - suc k) =
      λ k u. turned k ∙ mirror-inside t' m k u ∙ kept (m - suc k) (omega arith) in
    let last : reverse t' m ≡ 0 = turned m ∙ mirror-outside t' m p ∙ update_self t m 0 in
    record {
      m = m;
      positive = p;
      short = l;
      digits = λ k u z. d (m - suc k) (omega arith) (sym (inner k u) ∙ z);
      proper = λ k u. rw (inner k u) (proper (m - suc k) (omega arith));
      one = one;
      end = last;
      value =
          spelled-string_at m 0 buf_size base t (reverse t') (omega arith) inner last d
          ∙ ap (little base t 0) (omega arith)
          ∙ e;
      leading = λ q z. lead q (sym (inner 0 p) ∙ z);
    }

pub itoa-Spells :
    (base n : ℕ) (s : Chars) → IsBase base → n < 2 ^ 64 → Spells base n (itoa n s base)
unfolding itoa little
itoa-Spells base n s b h = elim (Bool-cases (n == 0)) [
  | inl e ↦
      rw (e, itoa)
        (reverse-Spells base n (update s 0 b'0') 1 (omega arith) (omega arith) (λ k u. ground arith)
          (λ k u. digit_zero-IsDigit k b (omega arith)) (λ q. refl) (nought ∙ ground arith)
          (λ q. absurd (ground arith)))
  | inr e ↦
      let w = digit_loop-Written 64 n base s 0 b h in
      let q : n ≢ 0 = λ z. ground arith in
      let r = digit_loop 64 n base s 0 in
      rw (e, itoa, w.end)
        (reverse-Spells base n r.0 (0 + w.m) (omega (arith, (w.top q).0)) (omega (arith, w.short))
          (λ k. w.digits k (omega arith)) (λ k. w.proper k (omega arith)) (λ z. absurd (q z))
          (ap (little base r.0 0) (omega arith) ∙ w.value) (λ q z. (w.top q).1 z))
]
  where
    nought : little base (update s 0 b'0') 0 1 ≡ 0
    nought = omega arith

    digit_zero-IsDigit : (k : ℕ) → IsBase base → k < 1 → IsDigit base (update s 0 b'0' k)
    digit_zero-IsDigit k (inl e) l = rw e (ground arith, ground arith)
    digit_zero-IsDigit k (inr e) l = rw e (ground arith, ground arith)

-- The digits of `n` in `base`: at least one, without a leading zero but in 0, which has one digit.
pub record Numeral (base n : ℕ) (xs : List ℕ) : Type 0 where
  pub value : spelled base 0 xs ≡ n
  pub proper : All (λ c. IsDigit base c) xs
  pub nonempty : 0 < length xs
  pub short : length xs ≤ 64
  pub one : n ≡ 0 → length xs ≡ 1
  pub leading : n ≢ 0 → get_or xs 0 0 ≢ b'0'

pub Spells-Numeral :
    (base n : ℕ) (v : Chars) → Spells base n v → Numeral base n (string_at buf_size v)
unfolding string_at
Spells-Numeral base n v s = record {
  value = s.value;
  proper = All-string_at base s.m buf_size v (omega (arith, s.short)) s.digits s.proper s.end;
  nonempty = omega (arith, s.positive, len);
  short = omega (arith, s.short, len);
  one = λ z. len ∙ s.one z;
  leading = λ q z. s.leading q (sym first ∙ z);
}
  where
    some_char : (v 0 == 0) ≡ false
    some_char = ground (arith, s.digits 0 s.positive)

    len : length (string_at buf_size v) ≡ s.m
    len = length-string_at s.m buf_size v (omega (arith, s.short)) s.digits s.end

    first : get_or (string_at buf_size v) 0 0 ≡ v 0
    first = rw (some_char, string_at) refl

-- In base 10 or 16, `itoa` writes a numeral of any 64-bit number and a final 0 into a buffer of 65
-- characters, whatever the buffer holds: at most 64 digits, whose value is the number, and no leading
-- zero but in 0 itself.
pub itoa_lem :
    (base n : ℕ) (s : Chars)
    → IsBase base
    → n < 2 ^ 64
    → Numeral base n (string_at buf_size (itoa n s base))
itoa_lem base n s b h = Spells-Numeral base n (itoa n s base) (itoa-Spells base n s b h)
