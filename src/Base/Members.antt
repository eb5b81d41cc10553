-- ===== src/Base/Members.antt =====
-- Membership, counts and removal in lists of numbers.
use Prim.Native.Nat.{ℕ, zero, suc, ◌+◌, ◌≤◌, ◌<◌}
use mathlib.Core.Path.{◌≡◌, refl}
use mathlib.Core.Logic.{◌≢◌, inl, inr}
use mathlib.Core.Bool.{Bool, true, false, ◌||◌}
use mathlib.Core.List.{List, [], ◌∷◌, ◌++◌}
use native.Mathlib.Omega.{arith}
use zoho_os_chatbot.Base.Tests.{◌==◌, if◌then◌else◌, Bool-cases}
use zoho_os_chatbot.Base.Lists.{length, take, All}

-- Membership among numbers, as a test.
abbrev pub has : ℕ → List ℕ → Bool
has a [] = false
has a (x ∷ xs) = (a == x) || has a xs

abbrev pub Distinct : List ℕ → Type 0
Distinct [] = Unit
Distinct (x ∷ xs) = (has x xs ≡ false) × Distinct xs

pub has-append : (a : ℕ) (xs ys : List ℕ) → has a (xs ++ ys) ≡ (has a xs || has a ys)
has-append a [] ys = refl
has-append a (x ∷ xs) ys = ground (arith, has-append a xs ys)

-- How often a number occurs.
abbrev pub count : ℕ → List ℕ → ℕ
count a [] = 0
count a (x ∷ xs) = if a == x then suc (count a xs) else count a xs

pub count-append : (a : ℕ) (xs ys : List ℕ) → count a (xs ++ ys) ≡ count a xs + count a ys
count-append a [] ys = omega arith
count-append a (x ∷ xs) ys = ground (arith, count-append a xs ys)

-- The list without the first occurrence of a number.
unfoldable pub remove : ℕ → List ℕ → List ℕ
remove a [] = []
remove a (x ∷ xs) = elim (a == x) [ true ↦ xs | false ↦ x ∷ remove a xs ]

pub has-remove_ne : (a b : ℕ) (xs : List ℕ) → a ≢ b → has b (remove a xs) ≡ has b xs
unfolding remove
has-remove_ne a b [] ne = refl
has-remove_ne a b (x ∷ xs) ne = ground (arith, has-remove_ne a b xs)

pub has-remove_self : (a : ℕ) (xs : List ℕ) → Distinct xs → has a (remove a xs) ≡ false
unfolding remove
has-remove_self a [] d = refl
has-remove_self a (x ∷ xs) d = ground (arith, has-remove_self a xs)

has-remove : (a b : ℕ) (xs : List ℕ) → has b xs ≡ false → has b (remove a xs) ≡ false
unfolding remove
has-remove a b [] h = refl
has-remove a b (x ∷ xs) h = ground (arith, has-remove a b xs)

pub remove-Distinct : (a : ℕ) (xs : List ℕ) → Distinct xs → Distinct (remove a xs)
unfolding remove
remove-Distinct a [] d = tt
remove-Distinct a (x ∷ xs) d = ground (arith, remove-Distinct a xs, has-remove a x xs)

remove-below :
    (n : ℕ) (xs : List ℕ) → Distinct xs → All (λ x. x < suc n) xs → All (λ x. x < n) (remove n xs)
unfolding remove
remove-below n [] d a = tt
remove-below n (x ∷ xs) d a = ground (arith, remove-below n xs, below n xs)
  where
    below : (n : ℕ) (xs : List ℕ) → has n xs ≡ false → All (λ x. x < suc n) xs → All (λ x. x < n) xs
    below n [] h a = tt
    below n (y ∷ ys) h a = ground (arith, below n ys)

length-remove : (a : ℕ) (xs : List ℕ) → length xs ≤ suc (length (remove a xs))
unfolding remove
length-remove a [] = omega arith
length-remove a (x ∷ xs) = ground (arith, length-remove a xs)

pub Distinct-length-le : (n : ℕ) (xs : List ℕ) → Distinct xs → All (λ x. x < n) xs → length xs ≤ n
Distinct-length-le zero [] d a = omega arith
Distinct-length-le zero (x ∷ xs) d a = absurd (omega arith)
Distinct-length-le (suc n) xs d a = omega (
  arith,
  length-remove n xs,
  Distinct-length-le n (remove n xs) (remove-Distinct n xs d) (remove-below n xs d a),
)

pub count-has : (a : ℕ) (xs : List ℕ) → has a xs ≡ false → count a xs ≡ 0
count-has a [] h = refl
count-has a (x ∷ xs) h = ground (arith, count-has a xs)

pub has-count : (a : ℕ) (xs : List ℕ) → has a xs ≡ true → 0 < count a xs
has-count a [] h = cc
has-count a (x ∷ xs) h = ground (arith, has-count a xs)

pub Distinct-count-le : (a : ℕ) (xs : List ℕ) → Distinct xs → count a xs ≤ 1
Distinct-count-le a [] d = omega arith
Distinct-count-le a (x ∷ xs) d = ground (arith, count-has a xs, Distinct-count-le a xs)

pub has-take : (n a : ℕ) (xs : List ℕ) → has a (take n xs) ≡ true → has a xs ≡ true
has-take zero a xs h = cc
has-take (suc n) a [] h = h
has-take (suc n) a (x ∷ xs) h = ground (arith, has-take n a xs)

pub take-Distinct : (n : ℕ) (xs : List ℕ) → Distinct xs → Distinct (take n xs)
take-Distinct zero xs d = tt
take-Distinct (suc n) [] d = tt
take-Distinct (suc n) (x ∷ xs) d = (
  elim (Bool-cases (has x (take n xs))) [ inl e ↦ absurd (cc (has-take n x xs e)) | inr e ↦ e ],
  take-Distinct n xs d.1,
)

-- Lists with the same counts have the same members, and are distinct together.
pub has-of_count : (a : ℕ) (xs ys : List ℕ) → count a xs ≡ count a ys → has a xs ≡ has a ys
has-of_count a xs ys e = elim (Bool-cases (has a xs)) [
  | inl h ↦ elim (Bool-cases (has a ys)) [
    | inl k ↦ cc
    | inr k ↦ absurd (omega (arith, e, has-count a xs h, count-has a ys k))
  ]
  | inr h ↦ elim (Bool-cases (has a ys)) [
    | inl k ↦ absurd (omega (arith, e, count-has a xs h, has-count a ys k))
    | inr k ↦ cc
  ]
]

count-le-cons : (a x : ℕ) (xs : List ℕ) → count a xs ≤ count a (x ∷ xs)
count-le-cons a x xs = ground arith

pub Distinct-of_count : (xs : List ℕ) → ((a : ℕ) → count a xs ≤ 1) → Distinct xs
Distinct-of_count [] h = tt
Distinct-of_count (x ∷ xs) h = (
  elim (Bool-cases (has x xs)) [
    | inl e ↦ absurd (ground (arith, h x, has-count x xs e))
    | inr e ↦ e
  ],
  Distinct-of_count xs (λ a. omega (arith, h a, count-le-cons a x xs)),
)
