-- ===== src/Pmm/BootStack.antt =====
-- `pmm_init` of src/kernel/pmm.c: which frames are on the stack when the kernel starts.
use zoho_os_chatbot.Base.{
  ℕ, zero, suc, ◌+◌, ◌*◌, ◌/◌, ◌≤◌, ◌<◌, ◌≡◌, refl, true, false, not, ◌&&◌, ◌||◌, List, [], ◌∷◌,
  arith, ◌==◌, leb, ltb, Bool-cases, inl, inr, length, has, All, map, u64,
}
use zoho_os_chatbot.Pmm.{
  page_size, max_frames, bitmap_test, Pmm, MultibootInfo, Scan, push_frame, push_free, boot_state,
  boot_scan, boot_frames, init,
}
use zoho_os_chatbot.Pmm.Invariant.{frame_of, IsValid}
use zoho_os_chatbot.Pmm.Boot.{top, usable, Fits, free_at_boot, scan_tags-Scanned, boot_bitmap-free}

push_free_step : (n f : ℕ) (s : Pmm) → push_free (suc n) f s ≡ push_free n (suc f) (push_frame f s)
unfolding push_free
push_free_step n f s = refl

push_frame-bitmap : (f : ℕ) (s : Pmm) → (push_frame f s).frame_bitmap ≡ s.frame_bitmap
unfolding push_frame
push_frame-bitmap f s = ground arith

push_frame-has :
    (f : ℕ) (s : Pmm) (g : ℕ)
    → has (g * page_size) (push_frame f s).free_stack
      ≡ (has (g * page_size) s.free_stack || ((g == f) && not (bitmap_test s.frame_bitmap g)))
unfolding push_frame
push_frame-has f s g = ground arith

push_free-has :
    (n f : ℕ) (s : Pmm) (g : ℕ)
    → has (g * page_size) (push_free n f s).free_stack ≡ (
        has (g * page_size) s.free_stack
        || (leb f g && ltb g (f + n) && not (bitmap_test s.frame_bitmap g)))
push_free-has zero f s g = unfold push_free in ground arith
push_free-has (suc n) f s g = ground (
  arith,
  push_free_step n f s,
  push_free-has n (suc f) (push_frame f s) g,
  push_frame-has f s g,
  push_frame-bitmap f s,
)

boot_frames-within :
    (mb : MultibootInfo) (f : ℕ)
    → Fits mb.tags
    → f < max_frames
    → usable mb.tags f ≡ true
    → f < boot_frames mb
unfolding boot_frames boot_scan
boot_frames-within mb f fits h u =
    let start : Scan = record { bits = λ _. 0xFFFFFFFF; max_addr = 0 } in
    let w = (scan_tags-Scanned f mb.tags start h fits).within u in ground (arith, w)

boot_frames-le : (mb : MultibootInfo) → boot_frames mb ≤ max_frames
unfolding boot_frames
boot_frames-le mb = ground arith

-- `pmm_init` puts a frame on the stack exactly if it lies below the limit, the loop over some
-- usable entry of the memory map visits it, and neither the loop over the kernel's image nor the
-- one over the boot information does.
pub init-free_iff :
    (mb : MultibootInfo) (k_end f : ℕ)
    → Fits mb.tags
    → k_end ≤ top
    → u64 (mb.address + mb.total_size) ≤ top
    → has (f * page_size) (init mb k_end).free_stack ≡ (ltb f max_frames && free_at_boot mb k_end f)
unfolding init boot_state
init-free_iff mb k_end f fits k m = elim (Bool-cases (ltb f max_frames)) [
  | inl lt ↦ ground (
    arith,
    push_free-has (boot_frames mb) 0 (boot_state mb k_end) f,
    boot_bitmap-free mb k_end f fits k m,
    boot_frames-within mb f fits,
  )
  | inr ge ↦
      ground (arith, push_free-has (boot_frames mb) 0 (boot_state mb k_end) f, boot_frames-le mb)
]

not-has_of_below :
    (f : ℕ) (xs : List ℕ) → All (λ a. frame_of a < f) xs → has f (map frame_of xs) ≡ false
not-has_of_below f [] a = refl
not-has_of_below f (x ∷ xs) a = ground (arith, not-has_of_below f xs)

All-below_suc :
    (f : ℕ) (xs : List ℕ) → All (λ a. frame_of a < f) xs → All (λ a. frame_of a < suc f) xs
All-below_suc f [] a = tt
All-below_suc f (x ∷ xs) a = (omega arith, All-below_suc f xs a.1)

push_frame-IsValid :
    (f : ℕ) (s : Pmm)
    → f < max_frames
    → IsValid s
    → All (λ a. frame_of a < f) s.free_stack
    → IsValid (push_frame f s) × All (λ a. frame_of a < suc f) (push_frame f s).free_stack
unfolding push_frame
push_frame-IsValid f s h v a = elim (Bool-cases (bitmap_test s.frame_bitmap f)) [
  | inl used ↦ rw used (v, All-below_suc f s.free_stack a)
  | inr unused ↦
      let e : f * page_size / page_size ≡ f = omega arith in
      rw unused (
        record {
          clear = ((rw e unused, rw e h), v.clear);
          distinct = (rw e (not-has_of_below f s.free_stack a), v.distinct);
        },
        (rw e (omega arith), All-below_suc f s.free_stack a),
      )
]

push_free-IsValid :
    (n f : ℕ) (s : Pmm)
    → f + n ≤ max_frames
    → IsValid s
    → All (λ a. frame_of a < f) s.free_stack
    → IsValid (push_free n f s)
push_free-IsValid zero f s h v a = unfold push_free in v
push_free-IsValid (suc n) f s h v a =
    let p = push_frame-IsValid f s (omega arith) v a in
    rw (push_free_step n f s) (push_free-IsValid n (suc f) (push_frame f s) (omega arith) p.0 p.1)

push_frame-total :
    (f : ℕ) (s : Pmm)
    → s.total_frames ≡ length s.free_stack
    → (push_frame f s).total_frames ≡ length (push_frame f s).free_stack
unfolding push_frame
push_frame-total f s h = ground arith

push_free-total :
    (n f : ℕ) (s : Pmm)
    → s.total_frames ≡ length s.free_stack
    → (push_free n f s).total_frames ≡ length (push_free n f s).free_stack
push_free-total zero f s h = unfold push_free in h
push_free-total (suc n) f s h =
    rw (push_free_step n f s) (push_free-total n (suc f) (push_frame f s) (push_frame-total f s h))

-- The allocator starts in a valid state, with as many free frames as it counts in total.
pub init-IsValid :
    (mb : MultibootInfo) (k_end : ℕ)
    → IsValid (init mb k_end) × ((init mb k_end).total_frames ≡ length (init mb k_end).free_stack)
unfolding init boot_state
init-IsValid mb k_end = (
  push_free-IsValid (boot_frames mb) 0 _ (omega (arith, boot_frames-le mb))
      (record { clear = tt; distinct = tt }) tt,
  push_free-total (boot_frames mb) 0 _ refl,
)
