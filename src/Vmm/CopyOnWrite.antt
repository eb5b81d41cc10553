-- ===== src/Vmm/CopyOnWrite.antt =====
-- What the page fault of src/kernel/idt.c does with a page that is shared until one side writes.
use zoho_os_chatbot.Base.{
  ℕ, ◌+◌, ◌-◌, ◌/◌, ◌%◌, ◌^◌, ◌<◌, ◌≤◌, ◌≡◌, ◌≢◌, refl, sym, ap, ◌∙◌, true, false, arith, ltb, leb,
  ◌&&◌, List, ◌∷◌, some, inl, inr, ◌⊎◌, Bool-cases, test_bit, set_bit, clear_bit, set_bit-lt,
  clear_bit-le, test_bit-set_bit_self, test_bit-set_bit_ne, test_bit-clear_bit_self,
  test_bit-clear_bit_ne,
}
use zoho_os_chatbot.Pmm.Invariant.{alloc_frame-cons}
use zoho_os_chatbot.Pmm.References.{exchange-get_ref}
use zoho_os_chatbot.Pmm.{page_size, max_frames, Pmm, alloc_frame, free_frame, get_ref}
use zoho_os_chatbot.Vmm.{
  Memory, write_entry, Vmm, pt_index, is_huge, frame_bits, with_flags, vmm_map, vmm_get_phys,
  vmm_get_flags,
}
use zoho_os_chatbot.Vmm.Fault.{
  Ram, copy_page, own_flags, split_page, take_page, resumed, resolve_fault, handle_page_fault,
}
use zoho_os_chatbot.Vmm.Sharing.{is_cow, is_writable}
use zoho_os_chatbot.Vmm.Walk.{
  Walk, Walk-phys, same_page, Walk-page, vmm_map-Walk, vmm_map-Walk-phys,
}

own_flags-lt : (flags : ℕ) → flags < 2 ^ 12 → own_flags flags < 2 ^ 12
own_flags-lt flags h =
    set_bit-lt 12 (clear_bit flags 9) 1 (omega arith) (omega (arith, clear_bit-le flags 9))

-- The flags of an owned page: writable, no longer shared, all else as before.
pub own_flags_lem :
    (flags b : ℕ)
    → (is_writable (set_bit (own_flags flags) 0) ≡ true)
      × (is_cow (set_bit (own_flags flags) 0) ≡ false)
      × (b ≢ 0 → b ≢ 1 → b ≢ 9 → test_bit (set_bit (own_flags flags) 0) b ≡ test_bit flags b)
own_flags_lem flags b = (
  test_bit-set_bit_ne (own_flags flags) 0 1 (omega arith)
      ∙ test_bit-set_bit_self (clear_bit flags 9) 1,
  test_bit-set_bit_ne (own_flags flags) 0 9 (omega arith)
      ∙ test_bit-set_bit_ne (clear_bit flags 9) 1 9 (omega arith)
      ∙ test_bit-clear_bit_self flags 9,
  λ z o n.
      test_bit-set_bit_ne (own_flags flags) 0 b (λ e. z (sym e))
      ∙ test_bit-set_bit_ne (clear_bit flags 9) 1 b (λ e. o (sym e))
      ∙ test_bit-clear_bit_ne flags 9 b (λ e. n (sym e)),
)

-- The address space maps the address to a frame of its own that it may write, with the bytes of the
-- frame before, and with the other flags it had. Outside of the frame memory is as it was, and so is
-- every other entry of every table.
pub record Owned (m w : Ram) (pml4 virt pt old frame : ℕ) : Type 0 where
  pub phys : vmm_get_phys w.vmm.memory pml4 virt ≡ frame + virt % 2 ^ 12
  pub writable : is_writable (vmm_get_flags w.vmm.memory pml4 virt) ≡ true
  pub own : is_cow (vmm_get_flags w.vmm.memory pml4 virt) ≡ false
  pub flags :
      (b : ℕ)
      → b ≢ 0
      → b ≢ 1
      → b ≢ 9
      → test_bit (vmm_get_flags w.vmm.memory pml4 virt) b
        ≡ test_bit (vmm_get_flags m.vmm.memory pml4 virt) b
  pub copied : (k : ℕ) → k < 4096 → w.bytes (frame + k) ≡ m.bytes (old + k)
  pub kept : (a : ℕ) → (a < frame) ⊎ (frame + 4096 ≤ a) → w.bytes a ≡ m.bytes a
  pub others : (t i : ℕ) → (t ≢ pt) ⊎ (i ≢ pt_index virt) → w.vmm.memory t i ≡ m.vmm.memory t i

module _ (raced : Memory → Memory) (m : Ram) (pml4 cr2 pdpt pd pt : ℕ)
    (walk : Walk m.vmm.memory pml4 cr2 pdpt pd pt)
    (small : is_huge (vmm_get_flags m.vmm.memory pml4 cr2) ≡ false) where
  abbrev bits : ℕ
  bits = vmm_get_flags m.vmm.memory pml4 cr2

  abbrev old_frame : ℕ
  old_frame = frame_bits (vmm_get_phys m.vmm.memory pml4 cr2)

  bits-lt : bits < 2 ^ 12
  bits-lt = let p = Walk-phys m.vmm.memory pml4 cr2 pdpt pd pt walk in omega (arith, p.1)

  plain : is_huge (own_flags bits) ≡ false
  plain =
      test_bit-set_bit_ne (clear_bit bits 9) 1 7 (omega arith)
      ∙ test_bit-clear_bit_ne bits 9 7 (omega arith)
      ∙ small

  -- The state that a mapping of the page with new flags leaves.
  mapped : Pmm → ℕ → Vmm
  mapped pmm frame =
      vmm_map raced (record (m.vmm) { pmm = pmm }) pml4 (frame_bits cr2) frame (own_flags bits)

  mapped-Owned :
      (pmm : Pmm) (frame : ℕ) (w : Ram)
      → w.vmm.memory ≡ (mapped pmm frame).memory
      → frame % 2 ^ 12 ≡ 0
      → ((k : ℕ) → k < 4096 → w.bytes (frame + k) ≡ m.bytes (old_frame + k))
      → ((a : ℕ) → (a < frame) ⊎ (frame + 4096 ≤ a) → w.bytes a ≡ m.bytes a)
      → Owned m w pml4 cr2 pt old_frame frame
  unfolding mapped
  mapped-Owned pmm frame w e al copied kept =
      let v : Vmm = record (m.vmm) { pmm = pmm } in
      let at = Walk-page m.vmm.memory pml4 cr2 (frame_bits cr2) pdpt pd pt (omega arith) walk in
      let p =
        vmm_map-Walk-phys raced v pml4 (frame_bits cr2) pdpt pd pt frame (own_flags bits) cr2 at
          plain (own_flags-lt bits bits-lt) (omega arith) in
      let f : vmm_get_flags w.vmm.memory pml4 cr2 ≡ set_bit (own_flags bits) 0 =
        ap (λ n. vmm_get_flags n pml4 cr2) e ∙ p.1 in
      record {
        phys = ap (λ n. vmm_get_phys n pml4 cr2) e ∙ p.0 ∙ ap (λ n. n + cr2 % 2 ^ 12) (omega arith);
        writable = rw f (own_flags_lem bits 0).0;
        own = rw f (own_flags_lem bits 0).1;
        flags = λ b z o n. rw f ((own_flags_lem bits b).2 z o n);
        copied = copied;
        kept = kept;
        others = others;
      }
    where
      others : (t i : ℕ) → (t ≢ pt) ⊎ (i ≢ pt_index cr2) → w.vmm.memory t i ≡ m.vmm.memory t i
      others t i o =
          let v : Vmm = record (m.vmm) { pmm = pmm } in
          let at = Walk-page m.vmm.memory pml4 cr2 (frame_bits cr2) pdpt pd pt (omega arith) walk in
          let q : w.vmm.memory
              ≡ write_entry m.vmm.memory pt (pt_index (frame_bits cr2))
                  (with_flags (frame_bits frame) (own_flags bits)) =
            e
            ∙ ap (λ (n : Vmm). n.memory)
                (vmm_map-Walk raced v pml4 (frame_bits cr2) pdpt pd pt frame (own_flags bits) at
                  plain) in
          let i2 = (same_page (frame_bits cr2) cr2 (omega arith)).3 in rw q (ground (arith, o, i2))

  -- The page that is copied is read through the mapping that the fault was for.
  copy_lem :
      (frame : ℕ)
      → ((k : ℕ)
          → k < 4096
          → copy_page m pml4 frame (frame_bits cr2) (frame + k) ≡ m.bytes (old_frame + k))
        × ((a : ℕ)
            → (a < frame) ⊎ (frame + 4096 ≤ a)
            → copy_page m pml4 frame (frame_bits cr2) a ≡ m.bytes a)
  unfolding copy_page
  copy_lem frame = (
    λ k h.
        let at =
          Walk-page m.vmm.memory pml4 cr2 (frame_bits cr2 + k) pdpt pd pt (omega arith) walk in
        let p = Walk-phys m.vmm.memory pml4 (frame_bits cr2 + k) pdpt pd pt at in
        let q = Walk-phys m.vmm.memory pml4 cr2 pdpt pd pt walk in
        let i =
          ap (λ n. frame_bits (m.vmm.memory pt n))
            (same_page (frame_bits cr2 + k) cr2 (omega arith)).3 in
        let here : (leb frame (frame + k) && ltb (frame + k) (frame + 4096)) ≡ true =
          ground arith in
        let off : frame + k - frame ≡ k = omega arith in
        rw (here, off) (ap (λ n. m.bytes n) (omega (arith, p.0, q.0, i))),
    λ a o.
        let out : (leb frame a && ltb a (frame + 4096)) ≡ false = ground (arith, o) in rw out refl,
  )

  split_frame :
      (x : ℕ) (xs : List ℕ)
      → m.vmm.pmm.free_stack ≡ x ∷ xs
      → x % 2 ^ 12 ≡ 0
      → Owned m (split_page raced m pml4 cr2 bits old_frame) pml4 cr2 pt old_frame x
  unfolding split_page mapped
  split_frame x xs e al =
      let a = alloc_frame-cons m.vmm.pmm x xs e in
      let w = split_page raced m pml4 cr2 bits old_frame in
      let c = copy_lem x in
      mapped-Owned (alloc_frame m.vmm.pmm).state x w
        (ap (λ n. (mapped (alloc_frame m.vmm.pmm).state n).memory) a.0) al
        (λ k h. ap (λ n. copy_page m pml4 n (frame_bits cr2) (x + k)) a.0 ∙ c.0 k h)
        (λ b o. ap (λ n. copy_page m pml4 n (frame_bits cr2) b) a.0 ∙ c.1 b o)

  -- The allocator is not told of the mapping.
  mapped-pmm : (pmm : Pmm) (frame : ℕ) → (mapped pmm frame).pmm ≡ pmm
  unfolding mapped
  mapped-pmm pmm frame =
      let v : Vmm = record (m.vmm) { pmm = pmm } in
      let at = Walk-page m.vmm.memory pml4 cr2 (frame_bits cr2) pdpt pd pt (omega arith) walk in
      ap (λ (n : Vmm). n.pmm)
        (vmm_map-Walk raced v pml4 (frame_bits cr2) pdpt pd pt frame (own_flags bits) at plain)

  take_frame : Owned m (take_page raced m pml4 cr2 bits old_frame) pml4 cr2 pt old_frame old_frame
  unfolding take_page mapped
  take_frame =
      mapped-Owned m.vmm.pmm old_frame (take_page raced m pml4 cr2 bits old_frame) refl
        (omega arith) (λ k h. refl) (λ a o. refl)

  -- A task writes to a small page of its address space that is shared until one side writes, whose
  -- tables are all there, and a real frame is free, which is not the page's. The fault is one step, in
  -- which no other CPU acts. The task goes on.
  -- If the page has other users, its address space now has the free frame there, with the same
  -- bytes, which it alone uses, and the page has one user less; else it has the page itself. Either
  -- way it may write, no entry of any table but that of the page is touched, and no byte outside of
  -- its frame, of the frames that hold no table.
  pub handle_page_fault_lem :
      (x : ℕ) (xs : List ℕ) (error_code cs : ℕ)
      → test_bit error_code 1 ≡ true
      → is_cow bits ≡ true
      → m.vmm.pmm.free_stack ≡ x ∷ xs
      → x % 2 ^ 12 ≡ 0
      → x / page_size < max_frames
      → x / page_size ≢ old_frame / page_size
      → (w : Ram) × (handle_page_fault raced m (some pml4) cr2 error_code cs ≡ resumed w)
        × ((1 < get_ref m.vmm.pmm old_frame)
              × Owned m w pml4 cr2 pt old_frame x
              × (get_ref w.vmm.pmm old_frame ≡ get_ref m.vmm.pmm old_frame - 1)
              × (get_ref w.vmm.pmm x ≡ 1)
            ⊎ (get_ref m.vmm.pmm old_frame ≤ 1)
              × Owned m w pml4 cr2 pt old_frame old_frame
              × (w.vmm.pmm ≡ m.vmm.pmm))
  unfolding handle_page_fault resolve_fault split_page take_page mapped
  handle_page_fault_lem x xs error_code cs wr cow e al b ne =
      elim (Bool-cases (ltb 1 (get_ref m.vmm.pmm old_frame))) [
        | inl more ↦
            let a = alloc_frame m.vmm.pmm in
            let c = exchange-get_ref m.vmm.pmm x old_frame xs e b ne (ground arith) in
            let p = ap (λ (n : Pmm). free_frame n old_frame) (mapped-pmm a.state a.frame) in
            (
              split_page raced m pml4 cr2 bits old_frame,
              rw (wr, cow, more) refl,
              inl (
                ground arith,
                split_frame x xs e al,
                ap (λ (n : Pmm). get_ref n old_frame) p ∙ c.0,
                ap (λ (n : Pmm). get_ref n x) p ∙ c.1,
              ),
            )
        | inr last ↦ (
          take_page raced m pml4 cr2 bits old_frame,
          rw (wr, cow, last) refl,
          inr (ground arith, take_frame, mapped-pmm m.vmm.pmm old_frame),
        )
      ]
