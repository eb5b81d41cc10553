-- ===== src/Vmm/Isolation.antt =====
-- A page table that vmm_clone_address_space of src/kernel/vmm.c has copied, and the first write by the
-- copy's side, a page fault of src/kernel/idt.c.
use zoho_os_chatbot.Base.{
  ℕ, ◌+◌, ◌-◌, ◌/◌, ◌%◌, ◌^◌, ◌<◌, ◌≤◌, ◌≡◌, ◌≢◌, sym, ap, ◌∙◌, true, false, ◌||◌, arith, List, ◌∷◌,
  some, inl, inr, ◌⊎◌, test_bit, ltb, Bool-cases,
}
use mathlib.Core.Path.{subst}
use zoho_os_chatbot.Pmm.{page_size, max_frames, get_ref}
use zoho_os_chatbot.Vmm.{
  Memory, Vmm, pt_index, is_present, is_huge, frame_bits, vmm_get_phys, vmm_get_flags,
}
use zoho_os_chatbot.Vmm.CopyOnWrite.{Owned, handle_page_fault_lem}
use zoho_os_chatbot.Vmm.Fault.{Ram, resumed, handle_page_fault}
use zoho_os_chatbot.Vmm.Copied.{users, users-has, share_pages_lem}
use zoho_os_chatbot.Vmm.Shared.{IsShared}
use zoho_os_chatbot.Vmm.Sharing.{is_cow, is_writable, share_pages}
use zoho_os_chatbot.Vmm.Walk.{Walk, Walk-phys}

module _ (raced : Memory → Memory) (v : Vmm) (bytes : ℕ → ℕ) (src dst child cr2 pdpt pd : ℕ)
    (apart : src ≢ dst) (present : is_present (v.memory src (pt_index cr2)) ≡ true)
    (writable : is_writable (v.memory src (pt_index cr2) % 2 ^ 12) ≡ true)
    (small : is_huge (v.memory src (pt_index cr2) % 2 ^ 12) ≡ false)
    (walk : Walk (share_pages 512 v src dst 0).memory child cr2 pdpt pd dst) where
  abbrev entry : ℕ
  entry = v.memory src (pt_index cr2)

  abbrev frame : ℕ
  frame = frame_bits entry

  abbrev copied : Vmm
  copied = share_pages 512 v src dst 0

  both-IsShared :
      IsShared entry (copied.memory src (pt_index cr2))
      × (copied.memory dst (pt_index cr2) ≡ copied.memory src (pt_index cr2))
  both-IsShared = (share_pages_lem v src dst apart).0 (pt_index cr2) (omega arith) present

  -- What the copy's side sees before it writes.
  child_flags :
      (is_cow (vmm_get_flags copied.memory child cr2) ≡ true)
      × (is_huge (vmm_get_flags copied.memory child cr2) ≡ false)
      × (frame_bits (vmm_get_phys copied.memory child cr2) ≡ frame)
  child_flags =
      let p = Walk-phys copied.memory child cr2 pdpt pd dst walk in
      let (s, same) = both-IsShared in
      let f = p.1 ∙ ap (λ n. n % 2 ^ 12) same in
      (
        rw f (s.noted ∙ ap (λ b. b || is_cow (entry % 2 ^ 12)) writable),
        rw f (s.flags 7 (omega arith) (omega arith) (omega arith) ∙ small),
        let q = ap (λ (n : ℕ). frame_bits n) same in omega (arith, p.0, q, s.frame),
      )

  Resolved : Ram → Ram → ℕ → ℕ → Type 0
  Resolved before w old x =
      (1 < get_ref before.vmm.pmm old)
        × Owned before w child cr2 dst old x
        × (get_ref w.vmm.pmm old ≡ get_ref before.vmm.pmm old - 1)
        × (get_ref w.vmm.pmm x ≡ 1)
      ⊎ (get_ref before.vmm.pmm old ≤ 1)
        × Owned before w child cr2 dst old old
        × (w.vmm.pmm ≡ before.vmm.pmm)

  -- Two frames have no byte in common.
  aside :
      (x f k : ℕ)
      → x / page_size ≢ f / page_size
      → x % 2 ^ 12 ≡ 0
      → k < 4096
      → f % 2 ^ 12 ≡ 0
      → (f + k < x) ⊎ (x + 4096 ≤ f + k)
  aside x f k ne al h al2 = elim (Bool-cases (ltb (f + k) x)) [
    | inl y ↦ inl (ground arith)
    | inr n ↦ inr (let g : x ≤ f + k = ground arith in omega (arith, ne, g))
  ]

  -- A page table is copied by the innermost loop of `vmm_clone_address_space`, and then the copy's side
  -- writes to a small page that could be written before; the way to the page leads through the copied
  -- table. If the frame of the page is a real one that has a user, its count is 512 away from its
  -- largest value, and another real frame is free, then the write faults and goes on with a page of
  -- its own that has the same bytes; the fault is one step, in which no other CPU acts. The other
  -- side's entry still has its frame, shared, with the bytes as they were; and the frame has one user
  -- less than after the copy, which added one for each entry that leads to it.
  pub write_isolated :
      (x : ℕ) (xs : List ℕ) (error_code cs : ℕ)
      → test_bit error_code 1 ≡ true
      → v.pmm.free_stack ≡ x ∷ xs
      → x % 2 ^ 12 ≡ 0
      → x / page_size < max_frames
      → x / page_size ≢ frame / page_size
      → frame / page_size < max_frames
      → 1 ≤ v.pmm.ref_counts (frame / page_size)
      → v.pmm.ref_counts (frame / page_size) + 512 < 2 ^ 32
      → (w : Ram) × (handle_page_fault raced
            (record { vmm = copied; bytes = bytes })
            (some child)
            cr2
            error_code
            cs
          ≡ resumed w)
        × Owned (record { vmm = copied; bytes = bytes }) w child cr2 dst frame x
        × IsShared entry (w.vmm.memory src (pt_index cr2))
        × ((k : ℕ) → k < 4096 → w.bytes (frame + k) ≡ bytes (frame + k))
        × (get_ref w.vmm.pmm frame + 1
            ≡ v.pmm.ref_counts (frame / page_size) + users v.memory src (frame / page_size) 512 0)
  unfolding get_ref Resolved
  write_isolated x xs error_code cs wr e al b ne fb r1 r2 =
      let (cow, plain, phys) = child_flags in
      let before : Ram = record { vmm = copied; bytes = bytes } in
      let n1 = users-has v.memory src 512 0 (pt_index cr2) (omega arith) (omega arith) present in
      let count = (share_pages_lem v src dst apart).3 (frame / page_size) fb r2 in
      let ref : get_ref copied.pmm frame ≡ copied.pmm.ref_counts (frame / page_size) =
        ground arith in
      let (w, ran, c) =
        handle_page_fault_lem raced before child cr2 pdpt pd dst walk plain x xs error_code cs wr
          cow ((share_pages_lem v src dst apart).4 ∙ e) al b
          (λ q. ne (q ∙ ap (λ n. n / page_size) phys)) in
      elim (subst (λ o. Resolved before w o x) phys c) [
        | inl (more, own, left, one) ↦ (
          w,
          ran,
          own,
          subst (λ n. IsShared entry n) (sym (own.others src (pt_index cr2) (inl apart)))
              both-IsShared.0,
          λ k h. own.kept (frame + k) (aside x frame k ne al h (omega arith)),
          omega (arith, left, ref, count, n1),
        )
        | inr (last, own, same) ↦ absurd (omega (arith, last, ref, count, n1))
      ]
