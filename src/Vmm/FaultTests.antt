-- ===== src/Vmm/FaultTests.antt =====
-- A page table with one page that can be written, its copy, and the first write by the copy's side.
use zoho_os_chatbot.Base.{
  ℕ, ◌≡◌, ◌≢◌, ◌+◌, ◌-◌, ◌^◌, ◌<◌, ◌≤◌, ◌⊎◌, true, false, refl, [], ◌∷◌, arith, ◌==◌, ◌&&◌,
  if◌then◌else◌, some, test_bit, ◌∙◌, ap,
}
use zoho_os_chatbot.Pmm.{max_frames, get_ref}
use zoho_os_chatbot.Vmm.{
  Memory, Vmm, find_pd, vmm_get_phys, vmm_get_flags, is_present, get_existing_table,
}
use zoho_os_chatbot.Vmm.Copied.{users, share_pages_lem}
use zoho_os_chatbot.Vmm.Fault.{Ram, resumed, handle_page_fault}
use zoho_os_chatbot.Vmm.CopyOnWrite.{Owned, handle_page_fault_lem}
use zoho_os_chatbot.Vmm.Isolation.{write_isolated}
use zoho_os_chatbot.Vmm.Walked.{get_existing-cong}
use zoho_os_chatbot.Vmm.Shared.{IsShared}
use zoho_os_chatbot.Vmm.Sharing.{share_pages}
use zoho_os_chatbot.Vmm.Walk.{Walk}

abbrev tables : Memory
tables t i =
    if (t == 0x1000) && (i == 1)
    then 0x2007
    else if (t == 0x2000) && (i == 0)
    then 0x3007
    else if (t == 0x3000) && (i == 0)
    then 0x4007
    else if (t == 0x5000) && (i == 2)
    then 0x9007
    else 0

abbrev two_tables : Vmm
two_tables = record {
  memory = tables;
  pmm = record {
    frame_bitmap = λ _. 0;
    free_stack = 0x6000 ∷ [];
    ref_counts = λ f. if f == 9 then 1 else 0;
    total_frames = 16;
  };
  current_pml4 = 0x1000;
}

abbrev address : ℕ
address = 0x8000002010

stays :
    (t i : ℕ)
    → (t == 0x5000) ≡ false
    → (t == 0x4000) ≡ false
    → (share_pages 512 two_tables 0x5000 0x4000 0).memory t i ≡ tables t i
stays t i a b =
    (share_pages_lem two_tables 0x5000 0x4000 (omega arith)).2 t i (ground arith) (ground arith)

copy-Walk :
    Walk (share_pages 512 two_tables 0x5000 0x4000 0).memory 0x1000 address 0x2000 0x3000 0x4000
unfolding get_existing_table test_bit
copy-Walk =
    let w = (share_pages 512 two_tables 0x5000 0x4000 0).memory in
    record {
      to_pdpt = get_existing-cong w tables 0x1000 1 (stays 0x1000 1 refl refl) ∙ refl;
      to_pd = get_existing-cong w tables 0x2000 0 (stays 0x2000 0 refl refl) ∙ refl;
      to_pt = get_existing-cong w tables 0x3000 0 (stays 0x3000 0 refl refl) ∙ refl;
      small = ap (λ n. test_bit n 7) (stays 0x3000 0 refl refl) ∙ refl;
      real = (omega arith, omega arith, omega arith);
      apart = (omega arith, omega arith, omega arith);
    }

abbrev page_bytes : ℕ → ℕ
page_bytes a = if a == 0x9003 then 77 else 0

abbrev copied_tables : Ram
copied_tables = record { vmm = share_pages 512 two_tables 0x5000 0x4000 0; bytes = page_bytes }

write_isolated_example :
    (w : Ram) × (handle_page_fault (λ m. m) copied_tables (some 0x1000) address 2 3 ≡ resumed w)
    × Owned copied_tables w 0x1000 address 0x4000 0x9000 0x6000
    × IsShared 0x9007 (w.vmm.memory 0x5000 2)
    × ((k : ℕ) → k < 4096 → w.bytes (0x9000 + k) ≡ page_bytes (0x9000 + k))
    × (get_ref w.vmm.pmm 0x9000 + 1 ≡ 1 + users tables 0x5000 9 512 0)
unfolding test_bit
write_isolated_example =
    write_isolated (λ m. m) two_tables page_bytes 0x5000 0x4000 0x1000 address 0x2000 0x3000
      (omega arith) refl refl refl copy-Walk 0x6000 [] 2 3 refl refl refl (omega arith)
      (omega arith) (omega arith) (omega arith) (omega arith)

-- The same page before it is shared, marked as shared and with one user and with two.
abbrev one_table : ℕ → Ram
one_table n = record {
  vmm = record two_tables {
    memory = λ t i. if (t == 0x4000) && (i == 2) then 0x9205 else tables t i;
    pmm = record (two_tables.pmm) { ref_counts = λ f. if f == 9 then n else 0 };
  };
  bytes = page_bytes;
}

one-Walk : (n : ℕ) → Walk (one_table n).vmm.memory 0x1000 address 0x2000 0x3000 0x4000
unfolding get_existing_table test_bit
one-Walk n = record {
  to_pdpt = refl;
  to_pd = refl;
  to_pt = refl;
  small = refl;
  real = (omega arith, omega arith, omega arith);
  apart = (omega arith, omega arith, omega arith);
}

handle_page_fault_lem_example :
    (w : Ram) × (handle_page_fault (λ m. m) (one_table 2) (some 0x1000) address 2 3 ≡ resumed w)
    × ((1 < get_ref (one_table 2).vmm.pmm 0x9000)
          × Owned (one_table 2) w 0x1000 address 0x4000 0x9000 0x6000
          × (get_ref w.vmm.pmm 0x9000 ≡ get_ref (one_table 2).vmm.pmm 0x9000 - 1)
          × (get_ref w.vmm.pmm 0x6000 ≡ 1)
        ⊎ (get_ref (one_table 2).vmm.pmm 0x9000 ≤ 1)
          × Owned (one_table 2) w 0x1000 address 0x4000 0x9000 0x9000
          × (w.vmm.pmm ≡ (one_table 2).vmm.pmm))
unfolding vmm_get_phys vmm_get_flags find_pd get_existing_table test_bit
handle_page_fault_lem_example =
    handle_page_fault_lem (λ m. m) (one_table 2) 0x1000 address 0x2000 0x3000 0x4000 (one-Walk 2)
      refl 0x6000 [] 2 3 refl refl refl refl (omega arith) (omega arith)

share_pages_lem_example :
    let w = share_pages 512 two_tables 0x5000 0x4000 0 in
    ((l : ℕ)
      → l < 512
      → is_present (tables 0x5000 l) ≡ true
      → IsShared (tables 0x5000 l) (w.memory 0x5000 l) × (w.memory 0x4000 l ≡ w.memory 0x5000 l))
    × ((l : ℕ)
        → l < 512
        → is_present (tables 0x5000 l) ≡ false
        → (w.memory 0x5000 l ≡ tables 0x5000 l) × (w.memory 0x4000 l ≡ tables 0x4000 l))
    × ((t i : ℕ) → t ≢ 0x5000 → t ≢ 0x4000 → w.memory t i ≡ tables t i)
    × ((f : ℕ)
        → f < max_frames
        → two_tables.pmm.ref_counts f + 512 < 2 ^ 32
        → w.pmm.ref_counts f ≡ two_tables.pmm.ref_counts f + users tables 0x5000 f 512 0)
    × (w.pmm.free_stack ≡ 0x6000 ∷ [])
share_pages_lem_example = share_pages_lem two_tables 0x5000 0x4000 (omega arith)
