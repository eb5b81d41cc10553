-- ===== src/Elf.antt =====
-- The loader of src/kernel/elf.c. The file is memory from its first byte on; no frame that is given
-- out lies in it.
pub mod Pages
mod Tests
use zoho_os_chatbot.Base.{
  ℕ, zero, suc, ◌+◌, ◌-◌, ◌*◌, ◌/◌, ◌%◌, ◌^◌, true, false, ◌&&◌, Option, none, some, ltb, leb, ◌==◌,
  if◌then◌else◌, min, u64, test_bit,
}
use zoho_os_chatbot.Net.Wire.{Bytes, load16, load32}
use zoho_os_chatbot.Pmm.{alloc_frame}
use zoho_os_chatbot.Vmm.Fault.{Ram}
use zoho_os_chatbot.Vmm.{Memory, Vmm, frame_bits, create_address_space, vmm_map}

abbrev pub elf_magic : ℕ
elf_magic = 0x464C457F

-- A `uint64_t` in memory.
abbrev pub load64 : Bytes → ℕ → ℕ
load64 d i = load32 d i + 2 ^ 32 * load32 d (i + 4)

-- The fields of an `elf_phdr_t` that are used.
pub record ProgramHeader : Type 0 where
  pub type : ℕ
  pub flags : ℕ
  pub offset : ℕ
  pub vaddr : ℕ
  pub filesz : ℕ
  pub memsz : ℕ

abbrev pub segment_at : Bytes → ℕ → ProgramHeader
segment_at d i = record {
  type = load32 d i;
  flags = load32 d (i + 4);
  offset = load64 d (i + 8);
  vaddr = load64 d (i + 16);
  filesz = load64 d (i + 32);
  memsz = load64 d (i + 40);
}

-- `PAGE_USER`, with `PAGE_WRITABLE` if the segment may be written.
abbrev pub page_flags : ProgramHeader → ℕ
page_flags s = if test_bit s.flags 1 then 6 else 4

abbrev pub page_start : ProgramHeader → ℕ
page_start s = frame_bits s.vaddr

abbrev pub num_pages : ProgramHeader → ℕ
num_pages s =
    let page_end = frame_bits (u64 (u64 (s.vaddr + s.memsz) + 4095)) in
    u64 (page_end + (2 ^ 64 - page_start s)) / 4096

-- Where the bytes of page `p` stand in the page and in the file, and how many they are.
abbrev pub copy_offset : ProgramHeader → ℕ → ℕ
copy_offset s p = if p == 0 then s.vaddr % 4096 else 0

abbrev pub copy_source : ProgramHeader → ℕ → ℕ
copy_source s p =
    if p == 0
    then u64 (s.offset + p * 4096)
    else u64 (u64 (s.offset + p * 4096) + (2 ^ 64 - s.vaddr % 4096))

abbrev pub bytes_from_file : ProgramHeader → ℕ → ℕ
bytes_from_file s p =
    let file_end = u64 (s.offset + s.filesz) in
    if ltb (copy_source s p) file_end
    then min (file_end - copy_source s p) (4096 - copy_offset s p)
    else 0

-- `memset` and `memcpy` on the frame: `n` bytes of the file, from `src` on, at `off`.
unfoldable pub fill_frame : Bytes → ℕ → ℕ → ℕ → (ℕ → ℕ) → ℕ → ℕ → ℕ
fill_frame d off src n bytes frame a =
    if leb frame a && ltb a (frame + 4096)
    then (if leb (frame + off) a && ltb a (frame + off + n)
        then d (src + (a - (frame + off)))
        else 0)
    else bytes a

-- One round of the loop over the pages, and the loop from page `p` on.
unfoldable pub load_page : (Memory → Memory) → Ram → ℕ → Bytes → ProgramHeader → ℕ → Ram
unfolding fill_frame
load_page raced m pml4 d s p =
    let a = alloc_frame m.vmm.pmm in
    let v : Vmm = record (m.vmm) { pmm = a.state } in
    record {
      vmm = vmm_map raced v pml4 (u64 (page_start s + p * 4096)) a.frame (page_flags s);
      bytes =
          fill_frame d (copy_offset s p) (copy_source s p) (bytes_from_file s p) m.bytes a.frame;
    }

load_pages : ℕ → (Memory → Memory) → Ram → ℕ → Bytes → ProgramHeader → ℕ → Ram
unfolding load_page
load_pages zero raced m pml4 d s p = m
load_pages (suc n) raced m pml4 d s p =
    load_pages n raced (load_page raced m pml4 d s p) pml4 d s (suc p)

-- The loop over the program headers, from the `i`th on.
load_segments : ℕ → (Memory → Memory) → Ram → ℕ → Bytes → ℕ → Ram
unfolding load_pages
load_segments zero raced m pml4 d i = m
load_segments (suc n) raced m pml4 d i =
    let s = segment_at d (load64 d 32 + i * load16 d 54) in
    load_segments n raced (if s.type == 1 then load_pages (num_pages s) raced m pml4 d s 0 else m)
      pml4 d (suc i)

-- The results of `elf_load`: the entry point, the new address space and memory.
pub record Loaded : Type 0 where
  pub entry_point : ℕ
  pub pml4 : ℕ
  pub ram : Ram

pub elf_load : (Memory → Memory) → Ram → Bytes → Option Loaded
unfolding load_segments
elf_load raced m d =
    let space = create_address_space m.vmm in
    if load32 d 0 == elf_magic
    then some (record {
      entry_point = load64 d 24;
      pml4 = space.table;
      ram = load_segments (load16 d 56) raced (record m { vmm = space.vmm }) space.table d 0;
    })
    else none
