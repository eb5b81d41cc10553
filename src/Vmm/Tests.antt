-- ===== src/Vmm/Tests.antt =====
-- An address space whose root is empty, with four free frames.
use zoho_os_chatbot.Base.{refl, [], ◌∷◌, arith, ◌==◌, if◌then◌else◌, test_bit}
use zoho_os_chatbot.Vmm.{Vmm, vmm_map}
use zoho_os_chatbot.Vmm.Tables.{Levels, IsTree}
use zoho_os_chatbot.Vmm.Mapping.{Mapped, vmm_map-vmm_get_phys}

abbrev level : Levels
level t = if t == 0x1000 then 4 else 0

abbrev space : Vmm
space = record {
  memory = λ t i. 0;
  pmm = record {
    frame_bitmap = λ _. 0;
    free_stack = 0x2000 ∷ 0x3000 ∷ 0x4000 ∷ 0x5000 ∷ [];
    ref_counts = λ _. 0;
    total_frames = 4;
  };
  current_pml4 = 0x1000;
}

space-IsTree : IsTree level space
unfolding test_bit
space-IsTree = record {
  down = λ t i b l p h. absurd (cc);
  free = omega arith;
  distinct = (refl, (refl, (refl, (refl, tt))));
}

vmm_map-vmm_get_phys_example :
    Mapped
      (vmm_map (λ m. m) space 0x1000 0x8000123456 0x7FFF000 6).memory
      0x1000
      0x8000123456
      0x7FFF000
      6
unfolding test_bit
vmm_map-vmm_get_phys_example =
    vmm_map-vmm_get_phys level space 0x1000 0x8000123456 0x7FFF000 6 space-IsTree refl (omega arith)
      (omega arith) refl refl
