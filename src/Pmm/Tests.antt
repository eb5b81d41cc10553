-- ===== src/Pmm/Tests.antt =====
-- The frame allocator on a small machine: 16 MiB of usable memory above 1 MiB.
use zoho_os_chatbot.Base.{
  ◌*◌, ◌<◌, ◌≡◌, ◌≢◌, ◌⊎◌, refl, [], ◌∷◌, arith, has, test_bit, set_bit, clear_bit, ltb, ◌&&◌,
}
use zoho_os_chatbot.Pmm.{
  page_size, max_frames, bitmap_test, bitmap_set, bitmap_unset, Pmm, alloc_frame, alloc, free, inc,
  run, mmap, other, MultibootInfo, init, boot_state, boot_bitmap, boot_scan, boot_frames,
  reserve_range,
}
use zoho_os_chatbot.Pmm.Invariant.{frame_of, IsValid, run-IsValid}
use zoho_os_chatbot.Pmm.Ownership.{no_double_alloc}
use zoho_os_chatbot.Pmm.Boot.{free_at_boot, mbi_tail_unreserved}
use zoho_os_chatbot.Pmm.BootStack.{init-free_iff}

abbrev machine : MultibootInfo
machine = record {
  address = 0x10FF8;
  total_size = 0x18;
  tags =
      other
      ∷ mmap (
          record { addr = 0; len = 0x14000; type = 1 }
          ∷ record { addr = 0x14000; len = 0x1000; type = 2 }
          ∷ [])
      ∷ [];
}

-- The kernel ends in frame 15; the boot information lies in frames 16 and 17.
booted : (init machine 0xF800).free_stack ≡ 0x13000 ∷ 0x12000 ∷ 0x11000 ∷ []
unfolding init boot_state boot_bitmap boot_scan boot_frames bitmap_test bitmap_set bitmap_unset
    test_bit set_bit clear_bit
booted = refl

abbrev two_frames : Pmm
two_frames = record {
  frame_bitmap = λ _. 0;
  free_stack = 0x3000 ∷ 0x5000 ∷ [];
  ref_counts = λ _. 0;
  total_frames = 2;
}

two_frames-IsValid : IsValid two_frames
unfolding bitmap_test test_bit
two_frames-IsValid = record {
  clear = ((refl, omega arith), ((refl, omega arith), tt));
  distinct = (refl, (refl, tt));
}

stack_of_two : two_frames.free_stack ≡ 0x3000 ∷ 0x5000 ∷ []
stack_of_two = refl

run-IsValid_example : IsValid (run two_frames (alloc ∷ inc 0x3000 ∷ free 0x3000 ∷ free 0x3000 ∷ []))
run-IsValid_example =
    run-IsValid (alloc ∷ inc 0x3000 ∷ free 0x3000 ∷ free 0x3000 ∷ []) two_frames-IsValid

no_double_alloc_example :
    let t = run (alloc_frame two_frames).state (inc 0x3000 ∷ alloc ∷ free 0x5000 ∷ []) in
    ((alloc_frame t).frame ≡ 0) ⊎ (frame_of (alloc_frame t).frame ≢ frame_of 0x3000)
no_double_alloc_example =
    no_double_alloc 0x3000 (0x5000 ∷ []) (inc 0x3000 ∷ alloc ∷ free 0x5000 ∷ []) two_frames-IsValid
      stack_of_two (tt, (tt, (omega arith, tt)))

abbrev taken : Pmm
taken = (alloc_frame two_frames).state

init-free_iff_example :
    has (0x12 * page_size) (init machine 0xF800).free_stack
    ≡ (ltb 0x12 max_frames && free_at_boot machine 0xF800 0x12)
init-free_iff_example =
    init-free_iff machine 0xF800 0x12 ((omega arith, (omega arith, tt)), tt) (omega arith)
      (omega arith)

mbi_tail_unreserved_example :
    (frame_of 0x11010 * page_size < 0x11010)
    × (bitmap_test (reserve_range 2 0x10FF8 0x11010 (λ _. 0)) (frame_of 0x11010)
        ≡ bitmap_test (λ _. 0) (frame_of 0x11010))
mbi_tail_unreserved_example =
    mbi_tail_unreserved 2 0x10FF8 0x11010 (λ _. 0) (omega arith) (omega arith) (omega arith)
      (omega arith) (omega arith)
