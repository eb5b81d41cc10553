-- ===== src/Pmm/References.antt =====
-- The reference counts of src/kernel/pmm.c when a frame is taken and a reference to another dropped.
use zoho_os_chatbot.Base.{ℕ, ◌-◌, ◌/◌, ◌<◌, ◌≡◌, ◌≢◌, arith, List, ◌∷◌}
use zoho_os_chatbot.Pmm.{
  page_size, max_frames, Pmm, alloc_frame, pop_frame, free_frame, return_frame, drop_ref, get_ref,
}

-- A page that others still use is exchanged for a free one: the one counts one user less, the other
-- one user.
pub exchange-get_ref :
    (s : Pmm) (x old : ℕ) (xs : List ℕ)
    → s.free_stack ≡ x ∷ xs
    → x / page_size < max_frames
    → x / page_size ≢ old / page_size
    → 1 < get_ref s old
    → let t = free_frame (alloc_frame s).state old in
      (get_ref t old ≡ get_ref s old - 1) × (get_ref t x ≡ 1)
unfolding alloc_frame pop_frame free_frame return_frame drop_ref get_ref
exchange-get_ref s x old xs e b ne more = rw (e, pop_frame) (ground arith)
