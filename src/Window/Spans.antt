-- ===== src/Window/Spans.antt =====
-- Intervals and rectangles on the screen, as src/kernel/window.c joins and cuts them.
use zoho_os_chatbot.Base.{
  ℕ, ◌+◌, ◌^◌, ◌<◌, ◌≤◌, ◌≡◌, refl, true, false, Option, none, some, u32, arith, inl, inr, ◌⊎◌,
}
use zoho_os_chatbot.Window.Dirty.{Rect, i32_lt, i32_sub, i32_min, i32_max}

-- The rectangle lies on a screen of this size, and is not empty.
abbrev pub IsInside : ℕ → ℕ → Rect → Type 0
IsInside width height r = (r.x + r.w ≤ width) × (0 < r.w) × (r.y + r.h ≤ height) × (0 < r.h)

-- The pixel lies in the rectangle.
abbrev pub Has : Rect → ℕ → ℕ → Type 0
Has r px py = (r.x ≤ px) × (px < r.x + r.w) × (r.y ≤ py) × (py < r.y + r.h)

-- The screen.
abbrev pub screen : ℕ → ℕ → Rect
screen width height = record { x = 0; y = 0; w = width; h = height }

-- One axis: two intervals within `n`.
pub span-union :
    (x w x' w' n : ℕ)
    → n < 2 ^ 31
    → x + w ≤ n
    → x' + w' ≤ n
    → 0 < w
    → 0 < w'
    → let x1 = i32_min x x' in
      let x2 = i32_max (u32 (x + w)) (u32 (x' + w')) in
      (x1 ≤ x)
      × (x1 ≤ x')
      × (x + w ≤ x1 + i32_sub x2 x1)
      × (x' + w' ≤ x1 + i32_sub x2 x1)
      × (x1 + i32_sub x2 x1 ≤ n)
      × (0 < i32_sub x2 x1)
span-union x w x' w' n b h h' p p' = ground arith

-- An interval cut to the screen.
pub span-cut :
    (x w n : ℕ)
    → x < 2 ^ 32
    → n < 2 ^ 31
    → let x1 = i32_max x 0 in
      let x2 = i32_min (u32 (x + w)) (u32 (0 + n)) in
      i32_lt x1 x2 ≡ true → (x1 + i32_sub x2 x1 ≤ n) × (0 < i32_sub x2 x1)
span-cut x w n l b h = ground arith

-- A pixel of the screen in an interval, by signed comparisons, and in the cut of it.
pub span-cut-Has :
    (x w n p : ℕ)
    → x < 2 ^ 32
    → n < 2 ^ 31
    → p < n
    → i32_lt p x ≡ false
    → i32_lt p (u32 (x + w)) ≡ true
    → let x1 = i32_max x 0 in
      let x2 = i32_min (u32 (x + w)) (u32 (0 + n)) in
      (i32_lt x1 x2 ≡ true) × (x1 ≤ p) × (p < x1 + i32_sub x2 x1)
span-cut-Has x w n p l b h q r = ground arith

pub Option-cases {ℓ} : {A : Type ℓ} (o : Option A) → (o ≡ none) ⊎ ((a : A) × (o ≡ some a))
Option-cases none = inl refl
Option-cases (some a) = inr (a, refl)

-- The pixel of the screen lies in the rectangle by the signed comparisons.
abbrev pub Shows : Rect → ℕ → ℕ → Type 0
Shows r px py =
    (i32_lt px r.x ≡ false)
    × (i32_lt px (u32 (r.x + r.w)) ≡ true)
    × (i32_lt py r.y ≡ false)
    × (i32_lt py (u32 (r.y + r.h)) ≡ true)
