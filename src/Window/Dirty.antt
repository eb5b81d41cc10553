-- ===== src/Window/Dirty.antt =====
-- The rectangles of the screen to draw again, in src/kernel/window.c. Signed 32-bit coordinates are
-- their two's complement.
use zoho_os_chatbot.Base.{
  ℕ, zero, suc, ◌+◌, ◌-◌, ◌^◌, Bool, ◌||◌, Option, none, some, ltb, not, if◌then◌else◌, u32, update,
}

-- `rect_t`
pub record Rect : Type 0 where
  pub x : ℕ
  pub y : ℕ
  pub w : ℕ
  pub h : ℕ

-- `a < b`, `a + b` and `a - b` of type `int32_t`.
abbrev pub i32_lt : ℕ → ℕ → Bool
i32_lt a b = ltb (u32 (a + 2 ^ 31)) (u32 (b + 2 ^ 31))

abbrev pub i32_sub : ℕ → ℕ → ℕ
i32_sub a b = u32 (a + 2 ^ 32 - b)

abbrev pub i32_min : ℕ → ℕ → ℕ
i32_min a b = if i32_lt a b then a else b

abbrev pub i32_max : ℕ → ℕ → ℕ
i32_max a b = if i32_lt b a then a else b

unfoldable pub rect_union : Rect → Rect → Rect
rect_union a b =
    let x1 = i32_min a.x b.x in
    let y1 = i32_min a.y b.y in
    let x2 = i32_max (u32 (a.x + a.w)) (u32 (b.x + b.w)) in
    let y2 = i32_max (u32 (a.y + a.h)) (u32 (b.y + b.h)) in
    record { x = x1; y = y1; w = i32_sub x2 x1; h = i32_sub y2 y1 }

-- `none` is the result 0.
unfoldable pub rect_intersect : Rect → Rect → Option Rect
rect_intersect a b =
    let x1 = i32_max a.x b.x in
    let y1 = i32_max a.y b.y in
    let x2 = i32_min (u32 (a.x + a.w)) (u32 (b.x + b.w)) in
    let y2 = i32_min (u32 (a.y + a.h)) (u32 (b.y + b.h)) in
    if not (i32_lt x1 x2) || not (i32_lt y1 y2)
    then none
    else some (record { x = x1; y = y1; w = i32_sub x2 x1; h = i32_sub y2 y1 })

abbrev pub max_dirty_rects : ℕ
max_dirty_rects = 32

-- `dirty_rects` and `dirty_count`.
pub record Dirty : Type 0 where
  pub rects : ℕ → Rect
  pub count : ℕ

-- The loop of `queue_dirty_rect`: the rounds left, the index and the list.
unfoldable pub merge_loop : ℕ → ℕ → (ℕ → Rect) → Rect → Option (ℕ → Rect)
merge_loop zero i rects clipped = none
merge_loop (suc n) i rects clipped = elim (rect_intersect (rects i) clipped) [
  | some overlap ↦ some (update rects i (rect_union (rects i) clipped))
  | none ↦ merge_loop n (suc i) rects clipped
]

unfoldable pub add_rect : Dirty → Rect → Dirty
add_rect d clipped = elim (merge_loop d.count 0 d.rects clipped) [
  | some rects ↦ record d { rects = rects }
  | none ↦
      if ltb d.count max_dirty_rects
      then record { rects = update d.rects d.count clipped; count = d.count + 1 }
      else record { rects = update d.rects 0 (rect_union (d.rects 0) clipped); count = 1 }
]

unfoldable pub queue_dirty_rect : Dirty → Rect → Rect → Dirty
queue_dirty_rect d screen rect = elim (rect_intersect rect screen) [
  | none ↦ d
  | some clipped ↦ add_rect d clipped
]

-- The fields of `window_t` that say where it is.
pub record Place : Type 0 where
  pub x : ℕ
  pub y : ℕ
  pub w : ℕ
  pub h : ℕ

abbrev pub title_height : ℕ
title_height = 25

abbrev pub shadow_offset : ℕ
shadow_offset = 5

abbrev pub window_outer_rect : Place → Rect
window_outer_rect win = record {
  x = win.x;
  y = win.y;
  w = u32 (win.w + shadow_offset);
  h = u32 (win.h + shadow_offset);
}

-- What the two calls add to the list; they set `dirty` of the window too.
pub window_mark_dirty : Dirty → Rect → Place → Dirty
window_mark_dirty d screen win = queue_dirty_rect d screen (window_outer_rect win)

pub window_mark_region_dirty : Dirty → Rect → Place → ℕ → ℕ → ℕ → ℕ → Dirty
window_mark_region_dirty d screen win x y w h =
    queue_dirty_rect d screen
      (record { x = u32 (win.x + x); y = u32 (win.y + title_height + y); w = w; h = h })
