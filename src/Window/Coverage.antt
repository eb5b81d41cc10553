-- ===== src/Window/Coverage.antt =====
-- What the list of src/kernel/window.c of rectangles to draw covers.
use zoho_os_chatbot.Base.{
  ℕ, zero, suc, ◌+◌, ◌^◌, ◌<◌, ◌≤◌, ◌≡◌, ◌≢◌, sym, ap, ◌∙◌, Option, none, some, ltb, u32, update,
  update_self, update_ne, arith, ◌==◌, Bool-cases, inl, inr,
}
use zoho_os_chatbot.Window.Dirty.{
  Rect, i32_lt, i32_min, i32_max, rect_union, rect_intersect, max_dirty_rects, Dirty, merge_loop,
  add_rect, queue_dirty_rect,
}
use mathlib.Core.Path.{subst}
use zoho_os_chatbot.Window.Spans.{
  IsInside, Has, screen, span-union, span-cut, span-cut-Has, Shows, Option-cases,
}

module _ (width height : ℕ) (wide : width < 2 ^ 31) (high : height < 2 ^ 31) where
  union-Has :
      (a b : Rect)
      → IsInside width height a
      → IsInside width height b
      → IsInside width height (rect_union a b)
        × ((px py : ℕ) → Has a px py → Has (rect_union a b) px py)
        × ((px py : ℕ) → Has b px py → Has (rect_union a b) px py)
  unfolding rect_union
  union-Has a b ia ib =
      let h = span-union a.x a.w b.x b.w width wide ia.0 ib.0 ia.1 ib.1 in
      let v = span-union a.y a.h b.y b.h height high ia.2 ib.2 ia.3 ib.3 in
      (
        (h.4, h.5, v.4, v.5),
        λ px py (l, u, l', u').
            (omega (arith, h.0), omega (arith, h.2), omega (arith, v.0), omega (arith, v.2)),
        λ px py (l, u, l', u').
            (omega (arith, h.1), omega (arith, h.3), omega (arith, v.1), omega (arith, v.3)),
      )

  -- What is cut from a rectangle: nothing when no pixel of the screen lies in it, else a rectangle on
  -- the screen with all of them.
  Cut : Rect → Option Rect → Type 0
  Cut r none = (px py : ℕ) → px < width → py < height → Shows r px py → ⊥
  Cut r (some c) =
      IsInside width height c
      × ((px py : ℕ) → px < width → py < height → Shows r px py → Has c px py)

  rect_intersect-Cut :
      (r : Rect) → r.x < 2 ^ 32 → r.y < 2 ^ 32 → Cut r (rect_intersect r (screen width height))
  unfolding rect_intersect Cut
  rect_intersect-Cut r lx ly =
      let x1 = i32_max r.x 0 in
      let x2 = i32_min (u32 (r.x + r.w)) (u32 (0 + width)) in
      let y1 = i32_max r.y 0 in
      let y2 = i32_min (u32 (r.y + r.h)) (u32 (0 + height)) in
      elim (Bool-cases (i32_lt x1 x2)) [
        | inr e ↦
            rw (e, rect_intersect)
              (λ px py l u s. let h = span-cut-Has r.x r.w width px lx wide l s.0 s.1 in absurd cc)
        | inl e ↦ elim (Bool-cases (i32_lt y1 y2)) [
          | inr f ↦
              rw (e, f, rect_intersect)
                (λ px py l u s.
                  let v = span-cut-Has r.y r.h height py ly high u s.2 s.3 in absurd cc)
          | inl f ↦
              let h = span-cut r.x r.w width lx wide e in
              let v = span-cut r.y r.h height ly high f in
              rw (e, f, rect_intersect)
                (
                  (h.0, h.1, v.0, v.1),
                  λ px py l u s.
                      let h' = span-cut-Has r.x r.w width px lx wide l s.0 s.1 in
                      let v' = span-cut-Has r.y r.h height py ly high u s.2 s.3 in
                      (h'.1, h'.2, v'.1, v'.2),
                )
        ]
      ]

  -- The rectangles in use are on the screen.
  unfoldable pub IsDirty : Dirty → Type 0
  IsDirty d =
      (d.count ≤ max_dirty_rects) × ((i : ℕ) → i < d.count → IsInside width height (d.rects i))

  -- What the first `n` rectangles cover.
  unfoldable pub Covers : (ℕ → Rect) → ℕ → ℕ → ℕ → Type 0
  Covers rects n px py = (i : ℕ) × (i < n) × Has (rects i) px py

  -- What a merge leaves.
  Merged : (ℕ → Rect) → ℕ → Rect → Option (ℕ → Rect) → Type 0
  Merged rects n c none = Unit
  Merged rects n c (some new) =
      ((i : ℕ) → i < n → IsInside width height (new i))
      × ((px py : ℕ) → Covers rects n px py → Covers new n px py)
      × ((px py : ℕ) → Has c px py → Covers new n px py)

  merge_at :
      (rects : ℕ → Rect) (n i : ℕ) (c : Rect)
      → ((j : ℕ) → j < n → IsInside width height (rects j))
      → IsInside width height c
      → i < n
      → Merged rects n c (some (update rects i (rect_union (rects i) c)))
  unfolding Merged Covers
  merge_at rects n i c h ic l =
      let u = union-Has (rects i) c (h i l) ic in
      let new = update rects i (rect_union (rects i) c) in
      let here : new i ≡ rect_union (rects i) c = update_self rects i (rect_union (rects i) c) in
      let there : (j : ℕ) → i ≢ j → new j ≡ rects j =
        λ j ne. update_ne rects i j (rect_union (rects i) c) ne in
      (
        λ j m. elim (Bool-cases (i == j)) [
          | inl e ↦ subst (IsInside width height) (sym here ∙ ap new (ground arith)) u.0
          | inr e ↦ subst (IsInside width height) (sym (there j (λ q. ground arith))) (h j m)
        ],
        λ px py (j, m, p). elim (Bool-cases (i == j)) [
          | inl e ↦
              let old = subst (λ k. Has (rects k) px py) {x = j} {y = i} (ground arith) p in
              (i, l, subst (λ r. Has r px py) (sym here) (u.1 px py old))
          | inr e ↦ (j, m, subst (λ r. Has r px py) (sym (there j (λ q. ground arith))) p)
        ],
        λ px py p. (i, l, subst (λ r. Has r px py) (sym here) (u.2 px py p)),
      )

  merge_loop-Merged :
      (k i n : ℕ) (rects : ℕ → Rect) (c : Rect)
      → k + i ≡ n
      → ((j : ℕ) → j < n → IsInside width height (rects j))
      → IsInside width height c
      → Merged rects n c (merge_loop k i rects c)
  unfolding merge_loop Merged
  merge_loop-Merged zero i n rects c e h ic = tt
  merge_loop-Merged (suc k) i n rects c e h ic = elim (Option-cases (rect_intersect (rects i) c)) [
    | inl o ↦ rw (o, merge_loop) (merge_loop-Merged k (suc i) n rects c (omega arith) h ic)
    | inr (r, o) ↦ rw (o, merge_loop) (merge_at rects n i c h ic (omega arith))
  ]

  -- What a further rectangle `c` leaves.
  record Added (d : Dirty) (c : Rect) (new : Dirty) : Type 0 where
    dirty : IsDirty new
    fresh : (px py : ℕ) → Has c px py → Covers new.rects new.count px py
    kept :
        d.count < max_dirty_rects
        → (px py : ℕ) → Covers d.rects d.count px py
        → Covers new.rects new.count px py

  append-Added :
      (d : Dirty) (c : Rect)
      → IsDirty d
      → IsInside width height c
      → d.count < max_dirty_rects
      → Added d c (record { rects = update d.rects d.count c; count = d.count + 1 })
  unfolding IsDirty Covers
  append-Added d c (few, h) ic l =
      let new = update d.rects d.count c in
      let here : new d.count ≡ c = update_self d.rects d.count c in
      record {
        dirty = (
          omega arith,
          λ i m. elim (Bool-cases (d.count == i)) [
            | inl e ↦ subst (IsInside width height) (sym here ∙ ap new (ground arith)) ic
            | inr e ↦
                subst (IsInside width height)
                  (sym (update_ne d.rects d.count i c (λ q. ground arith))) (h i (ground arith))
          ],
        );
        fresh = λ px py p. (d.count, omega arith, subst (λ r. Has r px py) (sym here) p);
        kept = λ u px py (i, m, p). (
          i,
          omega arith,
          subst (λ r. Has r px py) (sym (update_ne d.rects d.count i c (λ q. omega arith))) p,
        );
      }

  full-Added :
      (d : Dirty) (c : Rect)
      → IsDirty d
      → IsInside width height c
      → max_dirty_rects ≤ d.count
      → Added d c (record { rects = update d.rects 0 (rect_union (d.rects 0) c); count = 1 })
  unfolding IsDirty Covers Merged
  full-Added d c (few, h) ic l =
      let m = merge_at d.rects 1 0 c (λ j u. h j (omega arith)) ic (omega arith) in
      record { dirty = (omega arith, m.0); fresh = m.2; kept = λ u. absurd (omega arith) }

  add_rect-Added :
      (d : Dirty) (c : Rect) → IsDirty d → IsInside width height c → Added d c (add_rect d c)
  unfolding add_rect IsDirty Covers Merged
  add_rect-Added d c (few, h) ic =
      let m = merge_loop-Merged d.count 0 d.count d.rects c (omega arith) h ic in
      elim (Option-cases (merge_loop d.count 0 d.rects c)) [
        | inr (new, o) ↦
            let m' = subst (Merged d.rects d.count c) o m in
            rw (o, add_rect) (record { dirty = (few, m'.0); fresh = m'.2; kept = λ l. m'.1 })
        | inl o ↦ elim (Bool-cases (ltb d.count max_dirty_rects)) [
          | inl l ↦ rw (o, l, add_rect) (append-Added d c (few, h) ic (ground arith))
          | inr l ↦ rw (o, l, add_rect) (full-Added d c (few, h) ic (ground arith))
        ]
      ]

  -- For a list of at most 32 rectangles, all on a screen of fewer than 2 ^ 31 pixels a side, and any
  -- rectangle, however it lies: `queue_dirty_rect` leaves such a list again; every pixel of the screen
  -- in the rectangle is covered then; and while the list is not full, every pixel that was covered
  -- still is.
  pub queue_dirty_rect_lem :
      (d : Dirty) (r : Rect)
      → IsDirty d
      → r.x < 2 ^ 32
      → r.y < 2 ^ 32
      → let new = queue_dirty_rect d (screen width height) r in
        IsDirty new
        × ((px py : ℕ)
            → px < width
            → py < height
            → Shows r px py
            → Covers new.rects new.count px py)
        × (d.count < max_dirty_rects
            → (px py : ℕ) → Covers d.rects d.count px py
            → Covers new.rects new.count px py)
  unfolding queue_dirty_rect Cut
  queue_dirty_rect_lem d r ok lx ly =
      let cut = rect_intersect-Cut r lx ly in
      elim (Option-cases (rect_intersect r (screen width height))) [
        | inl o ↦
            let off = subst (Cut r) o cut in
            rw (o, queue_dirty_rect) (ok, λ px py l u s. absurd (off px py l u s), λ l px py p. p)
        | inr (c, o) ↦
            let on = subst (Cut r) o cut in
            let a = add_rect-Added d c ok on.0 in
            rw (o, queue_dirty_rect)
              (a.dirty, λ px py l u s. a.fresh px py (on.1 px py l u s), a.kept)
      ]
