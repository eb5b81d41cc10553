-- ===== src/Vmm/Mapping.antt =====
-- Mapping and translating in src/kernel/vmm.c.
use zoho_os_chatbot.Base.{
  ℕ, ◌+◌, ◌%◌, ◌^◌, ◌<◌, ◌≤◌, ◌≡◌, ◌≢◌, refl, ap, fun_ext, ◌∙◌, true, false, arith, ◌==◌, length,
  Bool-cases, inl, inr, set_bit,
}
use zoho_os_chatbot.Vmm.{
  Memory, write_entry, pml4_index, pdpt_index, pd_index, pt_index, is_huge, frame_bits, huge_bits,
  with_flags, Vmm, get_existing_table, ensure_next_table, map_at, map_page, vmm_map, find_pd,
  vmm_get_phys, vmm_get_flags, vmm_unmap,
}
use zoho_os_chatbot.Vmm.Entries.{with_flags_lem, set_bit-small}
use zoho_os_chatbot.Vmm.Tables.{Levels, IsTree, Grown, ensure_next_table_lem}
use zoho_os_chatbot.Vmm.Walked.{Walked, Walked-two, Walked-plain, get_existing-cong}

-- What a translation reads once the directory and the page table are known.
pub record Way (mem : Memory) (pml4 virt pd pt : ℕ) : Type 0 where
  pub directory : find_pd mem pml4 virt ≡ pd
  pub real_pd : pd ≢ 0
  pub small : is_huge (mem pd (pd_index virt)) ≡ false
  pub leaf : get_existing_table mem pd (pd_index virt) ≡ pt
  pub real_pt : pt ≢ 0

pub Way-phys :
    (mem : Memory) (pml4 virt pd pt : ℕ)
    → Way mem pml4 virt pd pt
    → (vmm_get_phys mem pml4 virt ≡ frame_bits (mem pt (pt_index virt)) + virt % 2 ^ 12)
      × (vmm_get_flags mem pml4 virt ≡ mem pt (pt_index virt) % 2 ^ 12)
      × (vmm_unmap mem pml4 virt ≡ write_entry mem pt (pt_index virt) 0)
unfolding vmm_get_phys vmm_get_flags vmm_unmap
Way-phys mem pml4 virt pd pt p =
    let a : (pd == 0) ≡ false = ground (arith, p.real_pd) in
    let b : (pt == 0) ≡ false = ground (arith, p.real_pt) in
    rw (p.directory, a, p.small, p.leaf, b) (refl, refl, refl)

-- After the third table was made, a write to it leaves the way to it alone.
Way-written :
    (v w x : Vmm) (pml4 virt pd pt entry : ℕ) (l2 l3 : Levels)
    → Walked v w pml4 virt pd l2
    → is_huge (w.memory pd (pd_index virt)) ≡ false
    → Grown l2 l3 w x pd (pd_index virt) pt
    → Way (write_entry x.memory pt (pt_index virt) entry) pml4 virt pd pt
Way-written v w x pml4 virt pd pt entry l2 l3 k nh g = record {
  directory = k.found mem above;
  real_pd = k.real;
  small = ap (λ (n : ℕ). is_huge n) at_pd ∙ plain;
  leaf = get_existing-cong mem x.memory pd (pd_index virt) at_pd ∙ g.linked;
  real_pt = g.real;
}
  where
    mem : Memory
    mem = write_entry x.memory pt (pt_index virt) entry

    leaf_level : l3 pt ≡ 1
    leaf_level = omega (arith, g.below, k.level)

    pd_level : l3 pd ≡ 2
    pd_level = g.kept pd (omega (arith, k.level)) ∙ k.level

    at_pd : mem pd (pd_index virt) ≡ x.memory pd (pd_index virt)
    at_pd =
        let ne : pt ≢ pd = λ q. omega (arith, leaf_level, pd_level, ap l3 q) in ground (arith, ne)

    plain : is_huge (x.memory pd (pd_index virt)) ≡ false
    plain = elim (Bool-cases (is_huge (x.memory pd (pd_index virt)))) [
      | inl y ↦ ap (λ (n : ℕ). is_huge n) (g.plain y) ∙ nh
      | inr n ↦ n
    ]

    above : (t i : ℕ) → 3 ≤ l2 t → mem t i ≡ w.memory t i
    above t i h =
        let kept : l3 t ≡ l2 t = g.kept t (omega arith) in
        let ne : pt ≢ t = λ q. omega (arith, leaf_level, kept, ap l3 q) in
        let ne2 : t ≢ pd = λ q. omega (arith, k.level, ap l2 q) in
        let same : x.memory t i ≡ w.memory t i = g.same t i (omega arith) (inl ne2) in
        ground (arith, ne, same)

-- What a mapping of a small page promises of the memory: the translation and the flags are those
-- given, until the page is unmapped.
pub record Mapped (mem : Memory) (pml4 virt address bits : ℕ) : Type 0 where
  pub phys : vmm_get_phys mem pml4 virt ≡ frame_bits address + virt % 2 ^ 12
  pub flags : vmm_get_flags mem pml4 virt ≡ set_bit bits 0
  pub unmapped : vmm_get_flags (vmm_unmap mem pml4 virt) pml4 virt ≡ 0
  pub offset : vmm_get_phys (vmm_unmap mem pml4 virt) pml4 virt ≡ virt % 2 ^ 12

Mapped-written :
    (v w x : Vmm) (pml4 virt pd pt phys flags : ℕ) (l2 l3 : Levels)
    → Walked v w pml4 virt pd l2
    → is_huge (w.memory pd (pd_index virt)) ≡ false
    → Grown l2 l3 w x pd (pd_index virt) pt
    → flags < 2 ^ 12
    → Mapped
        (write_entry x.memory pt (pt_index virt) (with_flags (frame_bits phys) flags))
        pml4
        virt
        phys
        flags
Mapped-written v w x pml4 virt pd pt phys flags l2 l3 k nh g b =
    let e = with_flags (frame_bits phys) flags in
    let mem = write_entry x.memory pt (pt_index virt) e in
    let p = Way-phys mem pml4 virt pd pt (Way-written v w x pml4 virt pd pt e l2 l3 k nh g) in
    let f = with_flags_lem (frame_bits phys) flags (omega arith) b in
    let at : mem pt (pt_index virt) ≡ e = ground arith in
    let cleared = write_entry x.memory pt (pt_index virt) 0 in
    let q = Way-phys cleared pml4 virt pd pt (Way-written v w x pml4 virt pd pt 0 l2 l3 k nh g) in
    let none : cleared pt (pt_index virt) ≡ 0 = ground arith in
    let twice : write_entry mem pt (pt_index virt) 0 ≡ cleared =
      fun_ext (λ t. fun_ext (λ i. ground arith)) in
    let u : vmm_unmap mem pml4 virt ≡ cleared = p.2 ∙ twice in
    record {
      phys = p.0 ∙ ap (λ n. frame_bits n + virt % 2 ^ 12) at ∙ ap (λ n. n + virt % 2 ^ 12) f.2;
      flags = p.1 ∙ ap (λ n. n % 2 ^ 12) at ∙ f.3;
      unmapped = ap (λ m. vmm_get_flags m pml4 virt) u ∙ q.1 ∙ ap (λ n. n % 2 ^ 12) none;
      offset =
          ap (λ m. vmm_get_phys m pml4 virt) u
          ∙ q.0
          ∙ ap (λ n. frame_bits n + virt % 2 ^ 12) none
          ∙ omega arith;
    }

-- The tables above the last level, when two frames are free.
walk :
    (level : Levels) (v : Vmm) (pml4 virt : ℕ)
    → IsTree level v
    → level pml4 ≡ 4
    → 2 ≤ length v.pmm.free_stack
    → let pdpt = ensure_next_table (λ m. m) v pml4 (pml4_index virt) in
      let pd = ensure_next_table (λ m. m) pdpt.vmm pdpt.table (pdpt_index virt) in
      (pdpt.table ≢ 0) × ((new : Levels) × Walked v pd.vmm pml4 virt pd.table new)
walk level v pml4 virt tree e room =
    let pdpt = ensure_next_table (λ m. m) v pml4 (pml4_index virt) in
    let pd = ensure_next_table (λ m. m) pdpt.vmm pdpt.table (pdpt_index virt) in
    elim (ensure_next_table_lem level v pml4 (pml4_index virt) tree (omega arith) (omega arith)
      (λ q. absurd (omega arith))) [
        | inl empty ↦ absurd (omega (arith, ap length empty))
        | inr (l1, g) ↦
            elim (ensure_next_table_lem l1 pdpt.vmm pdpt.table (pdpt_index virt) g.tree
              (omega arith) (omega (arith, g.below)) (λ q. absurd (omega (arith, g.below)))) [
                | inl empty ↦ absurd (omega (arith, g.room, ap length empty))
                | inr (l2, h) ↦ (
                  g.real,
                  (
                    l2,
                    Walked-two v pdpt.vmm pd.vmm pml4 virt pdpt.table pd.table level l1 l2 e g h,
                  ),
                )
              ]
      ]

-- With three free frames, a tree of tables, no huge page at the address and no other CPU that writes:
-- a small page that is mapped translates to its frame with the offset and has its flags and the
-- present bit; once unmapped it has no flags, and its translation is the offset alone, not 0.
pub vmm_map-vmm_get_phys :
    (level : Levels) (v : Vmm) (pml4 virt phys flags : ℕ)
    → IsTree level v
    → level pml4 ≡ 4
    → 3 ≤ length v.pmm.free_stack
    → flags < 2 ^ 12
    → is_huge flags ≡ false
    → is_huge (v.memory (find_pd v.memory pml4 virt) (pd_index virt)) ≡ false
    → Mapped (vmm_map (λ m. m) v pml4 virt phys flags).memory pml4 virt phys flags
unfolding vmm_map map_page map_at
vmm_map-vmm_get_phys level v pml4 virt phys flags tree e room b small nh =
    let pdpt = ensure_next_table (λ m. m) v pml4 (pml4_index virt) in
    let pd = ensure_next_table (λ m. m) pdpt.vmm pdpt.table (pdpt_index virt) in
    let pt = ensure_next_table (λ m. m) pd.vmm pd.table (pd_index virt) in
    let (real, (l2, k)) = walk level v pml4 virt tree e (omega arith) in
    let z1 : (pdpt.table == 0) ≡ false = ground (arith, real) in
    let z2 : (pd.table == 0) ≡ false = ground (arith, k.real) in
    let plain = Walked-plain v pd.vmm pml4 virt pd.table l2 k nh in
    elim (ensure_next_table_lem l2 pd.vmm pd.table (pd_index virt) k.tree (omega arith)
      (omega (arith, k.level)) (λ q. plain)) [
        | inl empty ↦ absurd (omega (arith, k.room, ap length empty))
        | inr (l3, g) ↦
            let z3 : (pt.table == 0) ≡ false = ground (arith, g.real) in
            rw (z1, z2, small, z3)
              (Mapped-written v pd.vmm pt.vmm pml4 virt pd.table pt.table phys flags l2 l3 k plain g
                b)
      ]

-- With two free frames, a tree of tables and no other CPU that writes: a huge page that is mapped
-- translates to its frame of 2 MiB with the offset in it.
pub vmm_map-huge :
    (level : Levels) (v : Vmm) (pml4 virt phys flags : ℕ)
    → IsTree level v
    → level pml4 ≡ 4
    → 2 ≤ length v.pmm.free_stack
    → flags < 2 ^ 12
    → is_huge flags ≡ true
    → vmm_get_phys (vmm_map (λ m. m) v pml4 virt phys flags).memory pml4 virt
      ≡ huge_bits phys + virt % 2 ^ 21
unfolding vmm_map map_at vmm_get_phys
vmm_map-huge level v pml4 virt phys flags tree e room b huge =
    let pdpt = ensure_next_table (λ m. m) v pml4 (pml4_index virt) in
    let pd = ensure_next_table (λ m. m) pdpt.vmm pdpt.table (pdpt_index virt) in
    let (real, (l2, k)) = walk level v pml4 virt tree e room in
    let z1 : (pdpt.table == 0) ≡ false = ground (arith, real) in
    let z2 : (pd.table == 0) ≡ false = ground (arith, k.real) in
    let entry = with_flags (huge_bits phys) flags in
    let mem = write_entry pd.vmm.memory pd.table (pd_index virt) entry in
    let f = with_flags_lem (huge_bits phys) flags (omega arith) b in
    let at : mem pd.table (pd_index virt) ≡ entry = ground arith in
    let found : find_pd mem pml4 virt ≡ pd.table = k.found mem (λ t i h.
      let ne : pd.table ≢ t = λ q. omega (arith, k.level, ap l2 q) in ground (arith, ne)) in
    let hb : is_huge entry ≡ true = f.1 ∙ huge in
    let top : huge_bits entry ≡ huge_bits phys = omega (arith, f.3, set_bit-small flags b) in
    rw (z1, z2, huge, found, z2, at, hb) (ap (λ n. n + virt % 2 ^ 21) top)
