-- ===== src/Elf/Tests.antt =====
-- A segment of three bytes that begins 16 bytes into its first page, in an empty address space.
use zoho_os_chatbot.Base.{
  ℕ, ◌≡◌, ◌+◌, ◌<◌, ◌≤◌, ◌⊎◌, refl, [], ◌∷◌, arith, ◌==◌, if◌then◌else◌, set_bit, test_bit,
}
use zoho_os_chatbot.Elf.Pages.{segment_byte, load_page_lem}
use zoho_os_chatbot.Elf.{ProgramHeader, load_page}
use zoho_os_chatbot.Net.Wire.{Bytes, bytes_of}
use zoho_os_chatbot.Vmm.Fault.{Ram}
use zoho_os_chatbot.Vmm.Tables.{Levels, IsTree}
use zoho_os_chatbot.Vmm.{vmm_get_phys, vmm_get_flags}

abbrev level : Levels
level t = if t == 0x1000 then 4 else 0

abbrev ram : Ram
ram = record {
  vmm = record {
    memory = λ t i. 0;
    pmm = record {
      frame_bitmap = λ _. 0;
      free_stack = 0x2000 ∷ 0x3000 ∷ 0x4000 ∷ 0x5000 ∷ [];
      ref_counts = λ _. 0;
      total_frames = 4;
    };
    current_pml4 = 0x1000;
  };
  bytes = λ _. 99;
}

ram-IsTree : IsTree level ram.vmm
unfolding test_bit
ram-IsTree = record {
  down = λ t i b l p h. absurd (cc);
  free = omega arith;
  distinct = (refl, (refl, (refl, (refl, tt))));
}

abbrev file : Bytes
file = bytes_of (7 ∷ 8 ∷ 9 ∷ [])

abbrev segment : ProgramHeader
segment = record { type = 1; flags = 6; offset = 0; vaddr = 0x8000000010; filesz = 3; memsz = 20 }

last_byte : segment_byte file segment 0x8000000012 ≡ 9
unfolding segment_byte
last_byte = refl

behind : segment_byte file segment 0x8000000013 ≡ 0
unfolding segment_byte
behind = refl

load_page_lem_example :
    let w = load_page (λ n. n) ram 0x1000 file segment 0 in
    ((k : ℕ)
      → k < 4096
      → (w.bytes (vmm_get_phys w.vmm.memory 0x1000 (0x8000000000 + k))
          ≡ segment_byte file segment (0x8000000000 + k))
        × (vmm_get_flags w.vmm.memory 0x1000 (0x8000000000 + k) ≡ set_bit 6 0))
    × ((a : ℕ) → (a < 0x2000) ⊎ (0x2000 + 4096 ≤ a) → w.bytes a ≡ 99)
unfolding test_bit
load_page_lem_example =
    load_page_lem level ram 0x1000 file segment 0 0x2000 (0x3000 ∷ 0x4000 ∷ 0x5000 ∷ []) ram-IsTree
      refl refl (omega arith) (omega arith) (omega arith) (omega arith) refl
