-- ===== src/Elf/Pages.antt =====
-- What a page of a segment holds once src/kernel/elf.c has loaded it.
use zoho_os_chatbot.Base.{
  ap₂, test_bit, Distinct, set_bit, ◌⊎◌, ℕ, ◌+◌, ◌-◌, ◌*◌, ◌/◌, ◌%◌, ◌^◌, ◌<◌, ◌≤◌, ◌≡◌, ◌≢◌, refl,
  sym, ap, ◌∙◌, true, false, ◌&&◌, inl, inr, ltb, leb, ◌==◌, if◌then◌else◌, min, u64, arith,
  Bool-cases, List, ◌∷◌, length, All,
}
use zoho_os_chatbot.Elf.{
  ProgramHeader, page_start, page_flags, copy_offset, copy_source, bytes_from_file, fill_frame,
  load_page,
}
use zoho_os_chatbot.Net.Wire.{Bytes}
use zoho_os_chatbot.Pmm.Invariant.{alloc_frame-cons}
use zoho_os_chatbot.Pmm.{alloc_frame}
use mathlib.Core.Path.{subst}
use zoho_os_chatbot.Vmm.{Vmm, is_huge, pd_index, find_pd, vmm_map, vmm_get_phys, vmm_get_flags}
use zoho_os_chatbot.Vmm.Fault.{Ram}
use zoho_os_chatbot.Vmm.Mapping.{vmm_map-vmm_get_phys}
use zoho_os_chatbot.Vmm.Tables.{Levels, IsTree}
use zoho_os_chatbot.Vmm.Walk.{same_page, vmm_map-page, find_pd-page}

-- The byte that a segment has at an address: those of the file first, and zeros behind them.
unfoldable pub segment_byte : Bytes → ProgramHeader → ℕ → ℕ
segment_byte d s a =
    if leb s.vaddr a && ltb (a - s.vaddr) s.filesz then d (s.offset + (a - s.vaddr)) else 0

-- The copy at some place, in terms of the address that the byte gets.
fill_from :
    (d : Bytes) (s : ProgramHeader) (frame x a off src n : ℕ) (bytes : ℕ → ℕ)
    → x < 4096
    → (leb off x && ltb x (off + n)) ≡ (leb s.vaddr a && ltb (a - s.vaddr) s.filesz)
    → (off ≤ x → s.vaddr ≤ a → src + (x - off) ≡ s.offset + (a - s.vaddr))
    → fill_frame d off src n bytes frame (frame + x) ≡ segment_byte d s a
unfolding fill_frame segment_byte
fill_from d s frame x a off src n bytes h same at =
    let here : (leb frame (frame + x) && ltb (frame + x) (frame + 4096)) ≡ true = ground arith in
    let shift : (leb (frame + off) (frame + x) && ltb (frame + x) (frame + off + n))
        ≡ (leb off x && ltb x (off + n)) =
      ground arith in
    elim (Bool-cases (leb s.vaddr a && ltb (a - s.vaddr) s.filesz)) [
      | inl y ↦
          let lo : off ≤ x = ground (arith, same, y) in
          let hi : s.vaddr ≤ a = ground arith in
          let i : src + (frame + x - (frame + off)) ≡ s.offset + (a - s.vaddr) =
            omega (arith, at lo hi) in
          rw (fill_frame, here, shift, same, y, i) refl
      | inr z ↦ rw (fill_frame, here, shift, same, z) refl
    ]

fill-cong :
    (d : Bytes) (o1 o2 s1 s2 n1 n2 frame a : ℕ) (bytes : ℕ → ℕ)
    → o1 ≡ o2
    → s1 ≡ s2
    → n1 ≡ n2
    → fill_frame d o1 s1 n1 bytes frame a ≡ fill_frame d o2 s2 n2 bytes frame a
fill-cong d o1 o2 s1 s2 n1 n2 frame a bytes e f g = rw (e, f, g) refl

pub fill_frame_lem :
    (d : Bytes) (s : ProgramHeader) (p frame x : ℕ) (bytes : ℕ → ℕ)
    → x < 4096
    → s.offset + p * 4096 < 2 ^ 64
    → s.offset + s.filesz < 2 ^ 64
    → fill_frame d (copy_offset s p) (copy_source s p) (bytes_from_file s p) bytes frame (frame + x)
      ≡ segment_byte d s (page_start s + p * 4096 + x)
fill_frame_lem d s p frame x bytes h o f = elim (Bool-cases (p == 0)) [
  | inl y ↦
      let z : p ≡ 0 = ground arith in
      let r = s.vaddr % 4096 in
      let src : copy_source s p ≡ s.offset = rw y (omega arith) in
      let off : copy_offset s p ≡ r = rw y refl in
      let size : bytes_from_file s p ≡ min s.filesz (4096 - r) = ground (arith, src, off) in
      let a = page_start s + p * 4096 + x in
      let same : (leb r x && ltb x (r + min s.filesz (4096 - r)))
          ≡ (leb s.vaddr a && ltb (a - s.vaddr) s.filesz) =
        ground arith in
      fill-cong d (copy_offset s p) r (copy_source s p) s.offset (bytes_from_file s p)
        (min s.filesz (4096 - r)) frame (frame + x) bytes off src size
      ∙ fill_from d s frame x a r s.offset (min s.filesz (4096 - r)) bytes h same
          (λ lo hi. omega arith)
  | inr later ↦
      let z : 1 ≤ p = ground arith in
      let r = s.vaddr % 4096 in
      let start = s.offset + p * 4096 - r in
      let src : copy_source s p ≡ start = rw later (omega arith) in
      let off : copy_offset s p ≡ 0 = rw later refl in
      let size : bytes_from_file s p ≡ min (s.offset + s.filesz - start) 4096 =
        ground (arith, src, off) in
      let a = page_start s + p * 4096 + x in
      let same : (leb 0 x && ltb x (0 + min (s.offset + s.filesz - start) 4096))
          ≡ (leb s.vaddr a && ltb (a - s.vaddr) s.filesz) =
        ground arith in
      fill-cong d (copy_offset s p) 0 (copy_source s p) start (bytes_from_file s p)
        (min (s.offset + s.filesz - start) 4096) frame (frame + x) bytes off src size
      ∙ fill_from d s frame x a 0 start (min (s.offset + s.filesz - start) 4096) bytes h same
          (λ lo hi. omega arith)
]

fill_outside :
    (d : Bytes) (off src n frame a : ℕ) (bytes : ℕ → ℕ)
    → (a < frame) ⊎ (frame + 4096 ≤ a)
    → fill_frame d off src n bytes frame a ≡ bytes a
unfolding fill_frame
fill_outside d off src n frame a bytes o =
    let out : (leb frame a && ltb a (frame + 4096)) ≡ false = ground (arith, o) in
    rw (fill_frame, out) refl

-- The tree is one without its first free frame.
rest-IsTree :
    (level : Levels) (v : Vmm) (x : ℕ) (xs : List ℕ)
    → v.pmm.free_stack ≡ x ∷ xs
    → IsTree level v
    → IsTree level (record v { pmm = (alloc_frame v.pmm).state }) × (x % 2 ^ 12 ≡ 0)
rest-IsTree level v x xs e t =
    let q = (alloc_frame-cons v.pmm x xs e).1 in
    let d = subst Distinct e t.distinct in
    let a = subst (λ l. All (λ a. (level a ≡ 0) × (a % 2 ^ 12 ≡ 0) × (a ≢ 0)) l) e t.free in
    (
      record {
        down = t.down;
        free = subst (λ l. All (λ a. (level a ≡ 0) × (a % 2 ^ 12 ≡ 0) × (a ≢ 0)) l) (sym q) a.1;
        distinct = subst Distinct (sym q) d.1;
      },
      a.0.1,
    )

page_flags-small : (s : ProgramHeader) → (page_flags s < 2 ^ 12) × (is_huge (page_flags s) ≡ false)
unfolding test_bit
page_flags-small s = elim (Bool-cases (test_bit s.flags 1)) [
  | inl y ↦ rw y (omega arith, refl)
  | inr n ↦ rw n (omega arith, refl)
]

-- A page of a segment, when four frames are free, the tables are a tree, no huge page is at the
-- address, no other CPU writes, the file offsets of the page and of the segment's end are below 2^64,
-- and the page ends at 2^64 at most: through the new mapping each of its bytes is that of the segment,
-- zeros behind the bytes of the file, the page has the flags of the segment and is present. Of the
-- bytes of the frames that hold no table, none outside of one frame has changed; the tables are apart,
-- and `vmm_map` may clear and fill new ones.
pub load_page_lem :
    (level : Levels) (m : Ram) (pml4 : ℕ) (d : Bytes) (s : ProgramHeader) (p x : ℕ) (xs : List ℕ)
    → IsTree level m.vmm
    → level pml4 ≡ 4
    → m.vmm.pmm.free_stack ≡ x ∷ xs
    → 3 ≤ length xs
    → s.offset + p * 4096 < 2 ^ 64
    → s.offset + s.filesz < 2 ^ 64
    → page_start s + p * 4096 + 4096 ≤ 2 ^ 64
    → (let page = page_start s + p * 4096 in
        is_huge (m.vmm.memory (find_pd m.vmm.memory pml4 page) (pd_index page)) ≡ false)
    → let w = load_page (λ n. n) m pml4 d s p in
      let page = page_start s + p * 4096 in
      ((k : ℕ)
        → k < 4096
        → (w.bytes (vmm_get_phys w.vmm.memory pml4 (page + k)) ≡ segment_byte d s (page + k))
          × (vmm_get_flags w.vmm.memory pml4 (page + k) ≡ set_bit (page_flags s) 0))
      × ((a : ℕ) → (a < x) ⊎ (x + 4096 ≤ a) → w.bytes a ≡ m.bytes a)
unfolding load_page
load_page_lem level m pml4 d s p x xs tree root e room o f top nh =
    let a = alloc_frame m.vmm.pmm in
    let q = alloc_frame-cons m.vmm.pmm x xs e in
    let v : Vmm = record (m.vmm) { pmm = a.state } in
    let page = page_start s + p * 4096 in
    let (rest, al) = rest-IsTree level m.vmm x xs e tree in
    let b = page_flags-small s in
    let addr : u64 page ≡ page = omega arith in
    (
      λ k h.
          let at : page / 2 ^ 12 ≡ (page + k) / 2 ^ 12 = omega arith in
          let nh2 : is_huge (v.memory (find_pd v.memory pml4 (page + k)) (pd_index (page + k)))
              ≡ false =
            ap₂ (λ t i. is_huge (v.memory t i))
              (sym (find_pd-page v.memory pml4 page (page + k) at))
              (sym (same_page page (page + k) at).2)
            ∙ nh in
          let mapped =
            vmm_map-vmm_get_phys level v pml4 (page + k) x (page_flags s) rest root
              (omega (arith, ap length q.1)) b.0 b.1 nh2 in
          let same : vmm_map (λ n. n) v pml4 (u64 page) a.frame (page_flags s)
              ≡ vmm_map (λ n. n) v pml4 (page + k) x (page_flags s) =
            rw (addr, q.0) (vmm_map-page (λ n. n) v pml4 page (page + k) x (page_flags s) at) in
          let g : vmm_get_phys (load_page (λ n. n) m pml4 d s p).vmm.memory pml4 (page + k)
              ≡ x + k =
            ap (λ (n : Vmm). vmm_get_phys n.memory pml4 (page + k)) same
            ∙ mapped.phys
            ∙ omega (arith, al) in
          (
            ap
                  (λ n.
                    fill_frame d (copy_offset s p) (copy_source s p) (bytes_from_file s p) m.bytes
                      a.frame n)
                  g
                ∙ ap
                    (λ n.
                      fill_frame d (copy_offset s p) (copy_source s p) (bytes_from_file s p) m.bytes
                        n (x + k))
                    q.0
                ∙ fill_frame_lem d s p x k m.bytes h o f,
            ap (λ (n : Vmm). vmm_get_flags n.memory pml4 (page + k)) same ∙ mapped.flags,
          ),
      λ b out.
          ap
            (λ n.
              fill_frame d (copy_offset s p) (copy_source s p) (bytes_from_file s p) m.bytes n b)
            q.0
          ∙ fill_outside d (copy_offset s p) (copy_source s p) (bytes_from_file s p) x b m.bytes
              out,
    )
