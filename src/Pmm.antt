-- ===== src/Pmm.antt =====
-- The physical frame allocator of src/kernel/pmm.c: the bitmap with one bit for each 4 KiB frame,
-- the stack of free frames, and the reference counts.
pub mod Bitmap
pub mod Invariant
pub mod References
pub mod Ownership
pub mod Boot
pub mod BootStack
mod Tests
use zoho_os_chatbot.Base.{
  ℕ, zero, suc, ◌+◌, ◌-◌, ◌*◌, ◌/◌, ◌%◌, ◌^◌, Bool, true, false, not, List, [], ◌∷◌, ltb, leb, ◌==◌,
  if◌then◌else◌, u32, u64, update, test_bit, set_bit, clear_bit, length,
}

abbrev pub page_size : ℕ
page_size = 4096

abbrev pub max_frames : ℕ
max_frames = 1024 * 1024

-- `frame_bitmap`, a word of 32 bits at each index.
abbrev pub Bitmap : Type 0
Bitmap = ℕ → ℕ

pub bitmap_set : Bitmap → ℕ → Bitmap
bitmap_set b frame = update b (frame / 32) (set_bit (b (frame / 32)) (frame % 32))

pub bitmap_unset : Bitmap → ℕ → Bitmap
bitmap_unset b frame = update b (frame / 32) (clear_bit (b (frame / 32)) (frame % 32))

pub bitmap_test : Bitmap → ℕ → Bool
bitmap_test b frame = test_bit (b (frame / 32)) (frame % 32)

-- The static variables. `free_stack` is the used part of the array, its top first, so that
-- `stack_ptr + 1` is its length.
pub record Pmm : Type 0 where
  pub frame_bitmap : Bitmap
  pub free_stack : List ℕ
  pub ref_counts : ℕ → ℕ
  pub total_frames : ℕ

-- The address and the new state; `NULL` is 0.
pub record Allocated : Type 0 where
  pub frame : ℕ
  pub state : Pmm

pop_frame : Pmm → List ℕ → Allocated
pop_frame s [] = record { frame = 0; state = s }
pop_frame s (addr ∷ rest) = record {
  frame = addr;
  state = record s {
    free_stack = rest;
    frame_bitmap = bitmap_set s.frame_bitmap (addr / page_size);
    ref_counts = update s.ref_counts (addr / page_size) 1;
  };
}

pub alloc_frame : Pmm → Allocated
unfolding pop_frame
alloc_frame s = pop_frame s s.free_stack

-- What happens when the last reference is gone.
return_frame : Pmm → ℕ → Pmm
return_frame s addr =
    if bitmap_test s.frame_bitmap (addr / page_size)
    then record s {
      frame_bitmap = bitmap_unset s.frame_bitmap (addr / page_size);
      free_stack = addr ∷ s.free_stack;
    }
    else s

drop_ref : Pmm → ℕ → Pmm
drop_ref s f = record s { ref_counts = update s.ref_counts f (s.ref_counts f - 1) }

pub free_frame : Pmm → ℕ → Pmm
unfolding return_frame drop_ref
free_frame s addr =
    let f = addr / page_size in
    if leb max_frames f
    then s
    else if ltb 0 (s.ref_counts f)
    then (if s.ref_counts f - 1 == 0 then return_frame (drop_ref s f) addr else drop_ref s f)
    else s

unfoldable pub ref_inc : Pmm → ℕ → Pmm
ref_inc s addr =
    let f = addr / page_size in
    if ltb f max_frames
    then record s { ref_counts = update s.ref_counts f (u32 (s.ref_counts f + 1)) }
    else s

unfoldable pub get_ref : Pmm → ℕ → ℕ
get_ref s addr = if ltb (addr / page_size) max_frames then s.ref_counts (addr / page_size) else 0

abbrev pub get_free_count : Pmm → ℕ
get_free_count s = length s.free_stack

abbrev pub get_total_frames : Pmm → ℕ
get_total_frames s = s.total_frames

-- The calls that change the state, and a sequence of them.
pub data Call : Type 0 where
  alloc : Call
  free : (addr : ℕ) → Call
  inc : (addr : ℕ) → Call

pub step : Pmm → Call → Pmm
step s alloc = (alloc_frame s).state
step s (free addr) = free_frame s addr
step s (inc addr) = ref_inc s addr

pub run : Pmm → List Call → Pmm
run s [] = s
run s (c ∷ cs) = run (step s c) cs

-- The Multiboot2 information: its address, its size and its tags.
pub record MmapEntry : Type 0 where
  pub addr : ℕ
  pub len : ℕ
  pub type : ℕ

pub data Tag : Type 0 where
  mmap : (entries : List MmapEntry) → Tag
  other : Tag

pub record MultibootInfo : Type 0 where
  pub address : ℕ
  pub total_size : ℕ
  pub tags : List Tag

-- The bitmap and `max_addr` while the memory map is read.
pub record Scan : Type 0 where
  pub bits : Bitmap
  pub max_addr : ℕ

scan_frame : Scan → ℕ → Scan
scan_frame s addr =
    if ltb (addr / page_size) max_frames
    then record {
      bits = bitmap_unset s.bits (addr / page_size);
      max_addr = if ltb s.max_addr (addr + page_size) then addr + page_size else s.max_addr;
    }
    else s

-- `for (addr = …; addr < end; addr += PAGE_SIZE)`, on fuel.
scan_range : ℕ → ℕ → ℕ → Scan → Scan
scan_range zero addr end s = s
scan_range (suc fuel) addr end s = elim (ltb addr end) [
  | true ↦ scan_range fuel (u64 (addr + page_size)) end (scan_frame s addr)
  | false ↦ s
]

-- One more round than pages fit between the two addresses.
abbrev pub rounds : ℕ → ℕ → ℕ
rounds addr end = (end - addr) / page_size + 2

scan_entries : List MmapEntry → Scan → Scan
scan_entries [] s = s
scan_entries (e ∷ es) s =
    let end = u64 (e.addr + e.len) in
    scan_entries es (if e.type == 1 then scan_range (rounds e.addr end) e.addr end s else s)

pub scan_tags : List Tag → Scan → Scan
scan_tags [] s = s
scan_tags (mmap es ∷ ts) s = scan_tags ts (scan_entries es s)
scan_tags (other ∷ ts) s = scan_tags ts s

pub reserve_range : ℕ → ℕ → ℕ → Bitmap → Bitmap
reserve_range zero addr end b = b
reserve_range (suc fuel) addr end b = elim (ltb addr end) [
  | true ↦ reserve_range fuel (u64 (addr + page_size)) end (bitmap_set b (addr / page_size))
  | false ↦ b
]

-- The last loop, from frame `f` on, with the rounds that are left.
push_frame : ℕ → Pmm → Pmm
push_frame f s =
    if not (bitmap_test s.frame_bitmap f)
    then record s { free_stack = f * page_size ∷ s.free_stack; total_frames = s.total_frames + 1 }
    else s

push_free : ℕ → ℕ → Pmm → Pmm
unfolding push_frame
push_free zero f s = s
push_free (suc n) f s = push_free n (suc f) (push_frame f s)

-- The bitmap with which `pmm_init` fills the stack: every frame reserved, the usable memory
-- released, then the kernel's image and the boot information reserved.
pub boot_scan : MultibootInfo → Scan
unfolding scan_tags scan_entries scan_range scan_frame
boot_scan mb = scan_tags mb.tags (record { bits = λ _. 0xFFFFFFFF; max_addr = 0 })

pub boot_bitmap : MultibootInfo → ℕ → Bitmap
unfolding reserve_range
boot_bitmap mb k_end =
    let kernel = reserve_range (rounds 0 k_end) 0 k_end (boot_scan mb).bits in
    let mbi_end = u64 (mb.address + mb.total_size) in
    reserve_range (rounds mb.address mbi_end) mb.address mbi_end kernel

pub boot_frames : MultibootInfo → ℕ
boot_frames mb =
    let max_frame = (boot_scan mb).max_addr / page_size in
    if ltb max_frames max_frame then max_frames else max_frame

-- `k_end` is the linker's symbol `kernel_end`.
pub boot_state : MultibootInfo → ℕ → Pmm
boot_state mb k_end = record {
  frame_bitmap = boot_bitmap mb k_end;
  free_stack = [];
  ref_counts = λ _. 0;
  total_frames = 0;
}

pub init : MultibootInfo → ℕ → Pmm
unfolding push_free
init mb k_end = push_free (boot_frames mb) 0 (boot_state mb k_end)
