-- ===== src/Base/Bits.antt =====
-- Single bits of a machine word: `x & (1 << i)`, `x | (1 << i)` and `x & ~(1 << i)`, by recursion on
-- the bit's number, and their laws.
use Prim.Native.Nat.{◌^◌, ◌≤◌, ◌<◌, ℕ, zero, suc, ◌+◌, ◌*◌, ◌/◌, ◌%◌}
use mathlib.Core.Path.{◌≡◌, refl, ap}
use mathlib.Core.Logic.{◌≢◌}
use mathlib.Core.Bool.{Bool, true, false}
use native.Mathlib.Omega.{arith, pow_step}
use zoho_os_chatbot.Base.Tests.{◌==◌}

unfoldable pub test_bit : ℕ → ℕ → Bool
test_bit x zero = x % 2 == 1
test_bit x (suc i) = test_bit (x / 2) i

unfoldable pub set_bit : ℕ → ℕ → ℕ
set_bit x zero = x / 2 * 2 + 1
set_bit x (suc i) = set_bit (x / 2) i * 2 + x % 2

unfoldable pub clear_bit : ℕ → ℕ → ℕ
clear_bit x zero = x / 2 * 2
clear_bit x (suc i) = clear_bit (x / 2) i * 2 + x % 2

tail_bit : (h x : ℕ) → (h * 2 + x % 2) / 2 ≡ h
tail_bit h x = omega arith

pub test_bit-set_bit_self : (x i : ℕ) → test_bit (set_bit x i) i ≡ true
unfolding test_bit set_bit
test_bit-set_bit_self x zero = ground arith
test_bit-set_bit_self x (suc i) =
    rw (tail_bit (set_bit (x / 2) i) x) (test_bit-set_bit_self (x / 2) i)

pub test_bit-clear_bit_self : (x i : ℕ) → test_bit (clear_bit x i) i ≡ false
unfolding test_bit clear_bit
test_bit-clear_bit_self x zero = ground arith
test_bit-clear_bit_self x (suc i) =
    rw (tail_bit (clear_bit (x / 2) i) x) (test_bit-clear_bit_self (x / 2) i)

pub test_bit-set_bit_ne : (x i j : ℕ) → i ≢ j → test_bit (set_bit x i) j ≡ test_bit x j
unfolding test_bit set_bit
test_bit-set_bit_ne x zero zero h = absurd (h refl)
test_bit-set_bit_ne x zero (suc j) h = ap (λ y. test_bit y j) (omega arith)
test_bit-set_bit_ne x (suc i) zero h = ground arith
test_bit-set_bit_ne x (suc i) (suc j) h =
    rw (tail_bit (set_bit (x / 2) i) x) (test_bit-set_bit_ne (x / 2) i j (λ e. h (ap suc e)))

pub test_bit-clear_bit_ne : (x i j : ℕ) → i ≢ j → test_bit (clear_bit x i) j ≡ test_bit x j
unfolding test_bit clear_bit
test_bit-clear_bit_ne x zero zero h = absurd (h refl)
test_bit-clear_bit_ne x zero (suc j) h = ap (λ y. test_bit y j) (omega arith)
test_bit-clear_bit_ne x (suc i) zero h = ground arith
test_bit-clear_bit_ne x (suc i) (suc j) h =
    rw (tail_bit (clear_bit (x / 2) i) x) (test_bit-clear_bit_ne (x / 2) i j (λ e. h (ap suc e)))

-- Bits below `n` stay below `2 ^ n`.
pub set_bit-lt : (n x i : ℕ) → i < n → x < 2 ^ n → set_bit x i < 2 ^ n
unfolding set_bit
set_bit-lt zero x i h b = absurd (omega arith)
set_bit-lt (suc n) x zero h b = let p = pow_step 2 n in omega (arith, p)
set_bit-lt (suc n) x (suc i) h b =
    let p = pow_step 2 n in
    let r : set_bit (x / 2) i < 2 ^ n = set_bit-lt n (x / 2) i (omega arith) (omega (arith, p)) in
    omega (arith, p, r)

pub clear_bit-le : (x i : ℕ) → clear_bit x i ≤ x
unfolding clear_bit
clear_bit-le x zero = omega arith
clear_bit-le x (suc i) = omega (arith, clear_bit-le (x / 2) i)

-- The word whose lowest `n` bits are set.
ones : ℕ → ℕ
ones zero = 0
ones (suc n) = ones n * 2 + 1

test_bit-ones_lt : (n i : ℕ) → i < n → test_bit (ones n) i ≡ true
unfolding ones test_bit
test_bit-ones_lt zero i h = absurd (omega arith)
test_bit-ones_lt (suc n) zero h = ground arith
test_bit-ones_lt (suc n) (suc i) h =
    let e : (ones n * 2 + 1) / 2 ≡ ones n = omega arith in rw e (test_bit-ones_lt n i (omega arith))

pub test_bit-ones : (i : ℕ) → i < 32 → test_bit 0xFFFFFFFF i ≡ true
unfolding ones
test_bit-ones i h = test_bit-ones_lt 32 i h
