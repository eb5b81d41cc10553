-- ===== src/Vmm/Walk.antt =====
-- Mapping where all tables are there, in src/kernel/vmm.c.
use zoho_os_chatbot.Base.{
  ℕ, ◌+◌, ◌/◌, ◌%◌, ◌^◌, ◌<◌, ◌≡◌, ◌≢◌, refl, sym, ap, ◌∙◌, false, arith, ◌==◌, set_bit,
}
use zoho_os_chatbot.Vmm.{
  find_pd, Memory, write_entry, pml4_index, pdpt_index, pd_index, pt_index, is_huge, frame_bits,
  with_flags, Vmm, get_existing_table, ensure_next_table, map_at, map_page, vmm_map, vmm_get_phys,
  vmm_get_flags,
}
use zoho_os_chatbot.Vmm.Entries.{with_flags_lem}
use zoho_os_chatbot.Vmm.Mapping.{Way, Way-phys}
use zoho_os_chatbot.Vmm.Walked.{find_pd_lem, get_existing-cong}

-- The tables on the way to an address, which are there, and of which the last is none of the others.
pub record Walk (mem : Memory) (pml4 virt pdpt pd pt : ℕ) : Type 0 where
  pub to_pdpt : get_existing_table mem pml4 (pml4_index virt) ≡ pdpt
  pub to_pd : get_existing_table mem pdpt (pdpt_index virt) ≡ pd
  pub to_pt : get_existing_table mem pd (pd_index virt) ≡ pt
  pub small : is_huge (mem pd (pd_index virt)) ≡ false
  pub real : (pdpt ≢ 0) × (pd ≢ 0) × (pt ≢ 0)
  pub apart : (pt ≢ pml4) × (pt ≢ pdpt) × (pt ≢ pd)

Walk-Way :
    (mem : Memory) (pml4 virt pdpt pd pt : ℕ)
    → Walk mem pml4 virt pdpt pd pt
    → Way mem pml4 virt pd pt
Walk-Way mem pml4 virt pdpt pd pt w = record {
  directory = find_pd_lem mem pml4 virt pdpt pd w.to_pdpt w.real.0 w.to_pd;
  real_pd = w.real.1;
  small = w.small;
  leaf = w.to_pt;
  real_pt = w.real.2;
}

-- What an address on the way translates to.
pub Walk-phys :
    (mem : Memory) (pml4 virt pdpt pd pt : ℕ)
    → Walk mem pml4 virt pdpt pd pt
    → (vmm_get_phys mem pml4 virt ≡ frame_bits (mem pt (pt_index virt)) + virt % 2 ^ 12)
      × (vmm_get_flags mem pml4 virt ≡ mem pt (pt_index virt) % 2 ^ 12)
Walk-phys mem pml4 virt pdpt pd pt w =
    let p = Way-phys mem pml4 virt pd pt (Walk-Way mem pml4 virt pdpt pd pt w) in (p.0, p.1)

-- The addresses of one page share their indices.
pub same_page :
    (a b : ℕ)
    → a / 2 ^ 12 ≡ b / 2 ^ 12
    → (pml4_index a ≡ pml4_index b)
      × (pdpt_index a ≡ pdpt_index b)
      × (pd_index a ≡ pd_index b)
      × (pt_index a ≡ pt_index b)
same_page a b e = (omega arith, omega arith, omega arith, omega arith)

-- One page is walked to and mapped by any of its addresses.
pub find_pd-page :
    (mem : Memory) (pml4 a b : ℕ)
    → a / 2 ^ 12 ≡ b / 2 ^ 12
    → find_pd mem pml4 a ≡ find_pd mem pml4 b
unfolding find_pd
find_pd-page mem pml4 a b e = let s = same_page a b e in rw (s.0, s.1) refl

pub vmm_map-page :
    (raced : Memory → Memory) (v : Vmm) (pml4 a b phys flags : ℕ)
    → a / 2 ^ 12 ≡ b / 2 ^ 12
    → vmm_map raced v pml4 a phys flags ≡ vmm_map raced v pml4 b phys flags
unfolding vmm_map map_page
vmm_map-page raced v pml4 a b phys flags e =
    let s = same_page a b e in
    rw (s.0, s.1, s.2, s.3) (refl {a = vmm_map raced v pml4 b phys flags})

pub Walk-page :
    (mem : Memory) (pml4 a b pdpt pd pt : ℕ)
    → a / 2 ^ 12 ≡ b / 2 ^ 12
    → Walk mem pml4 a pdpt pd pt
    → Walk mem pml4 b pdpt pd pt
Walk-page mem pml4 a b pdpt pd pt e w =
    let s = same_page a b e in
    record {
      to_pdpt = ap (λ i. get_existing_table mem pml4 i) (sym s.0) ∙ w.to_pdpt;
      to_pd = ap (λ i. get_existing_table mem pdpt i) (sym s.1) ∙ w.to_pd;
      to_pt = ap (λ i. get_existing_table mem pd i) (sym s.2) ∙ w.to_pt;
      small = ap (λ i. is_huge (mem pd i)) (sym s.2) ∙ w.small;
      real = w.real;
      apart = w.apart;
    }

-- A write to the last table leaves the way to it alone.
pub Walk-written :
    (mem : Memory) (pml4 virt pdpt pd pt index entry : ℕ)
    → Walk mem pml4 virt pdpt pd pt
    → Walk (write_entry mem pt index entry) pml4 virt pdpt pd pt
Walk-written mem pml4 virt pdpt pd pt index entry w =
    let new = write_entry mem pt index entry in
    let a : new pml4 (pml4_index virt) ≡ mem pml4 (pml4_index virt) = ground (arith, w.apart) in
    let b : new pdpt (pdpt_index virt) ≡ mem pdpt (pdpt_index virt) = ground (arith, w.apart) in
    let c : new pd (pd_index virt) ≡ mem pd (pd_index virt) = ground (arith, w.apart) in
    record {
      to_pdpt = get_existing-cong new mem pml4 (pml4_index virt) a ∙ w.to_pdpt;
      to_pd = get_existing-cong new mem pdpt (pdpt_index virt) b ∙ w.to_pd;
      to_pt = get_existing-cong new mem pd (pd_index virt) c ∙ w.to_pt;
      small = ap (λ (n : ℕ). is_huge n) c ∙ w.small;
      real = w.real;
      apart = w.apart;
    }

existing_kept :
    (raced : Memory → Memory) (v : Vmm) (table index found : ℕ)
    → get_existing_table v.memory table index ≡ found
    → found ≢ 0
    → ensure_next_table raced v table index ≡ record { table = found; vmm = v }
unfolding ensure_next_table
existing_kept raced v table index found e n =
    let z : (found == 0) ≡ false = ground (arith, n) in rw (e, z) refl

-- Then `vmm_map` is one write, whatever other CPUs do.
pub vmm_map-Walk :
    (raced : Memory → Memory) (v : Vmm) (pml4 virt pdpt pd pt phys flags : ℕ)
    → Walk v.memory pml4 virt pdpt pd pt
    → is_huge flags ≡ false
    → vmm_map raced v pml4 virt phys flags ≡ record v {
      memory = write_entry v.memory pt (pt_index virt) (with_flags (frame_bits phys) flags);
    }
unfolding vmm_map map_page map_at
vmm_map-Walk raced v pml4 virt pdpt pd pt phys flags w h =
    let z1 : (pdpt == 0) ≡ false = ground (arith, w.real) in
    let z2 : (pd == 0) ≡ false = ground (arith, w.real) in
    let z3 : (pt == 0) ≡ false = ground (arith, w.real) in
    rw
      (
        existing_kept raced v pml4 (pml4_index virt) pdpt w.to_pdpt w.real.0,
        existing_kept raced v pdpt (pdpt_index virt) pd w.to_pd w.real.1,
        z1,
        z2,
        h,
        existing_kept raced v pd (pd_index virt) pt w.to_pt w.real.2,
        z3,
      )
      refl

-- The translation of the page after it.
pub vmm_map-Walk-phys :
    (raced : Memory → Memory) (v : Vmm) (pml4 virt pdpt pd pt phys flags a : ℕ)
    → Walk v.memory pml4 virt pdpt pd pt
    → is_huge flags ≡ false
    → flags < 2 ^ 12
    → a / 2 ^ 12 ≡ virt / 2 ^ 12
    → let mem = (vmm_map raced v pml4 virt phys flags).memory in
      (vmm_get_phys mem pml4 a ≡ frame_bits phys + a % 2 ^ 12)
      × (vmm_get_flags mem pml4 a ≡ set_bit flags 0)
vmm_map-Walk-phys raced v pml4 virt pdpt pd pt phys flags a w h b e =
    let entry = with_flags (frame_bits phys) flags in
    let mem = write_entry v.memory pt (pt_index virt) entry in
    let f = with_flags_lem (frame_bits phys) flags (omega arith) b in
    let k =
      Walk-page mem pml4 virt a pdpt pd pt (sym e)
        (Walk-written v.memory pml4 virt pdpt pd pt (pt_index virt) entry w) in
    let p = Walk-phys mem pml4 a pdpt pd pt k in
    let at : mem pt (pt_index a) ≡ entry = ground (arith, (same_page a virt e).3) in
    rw (vmm_map-Walk raced v pml4 virt pdpt pd pt phys flags w h) (
      p.0 ∙ ap (λ n. frame_bits n + a % 2 ^ 12) at ∙ ap (λ n. n + a % 2 ^ 12) f.2,
      p.1 ∙ ap (λ n. n % 2 ^ 12) at ∙ f.3,
    )
