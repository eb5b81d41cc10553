-- ===== src/Vmm.antt =====
-- The page tables of src/kernel/vmm.c over the frame allocator. Memory is a function from a table's
-- address and an index to the entry; an entry's low twelve bits are its flags.
pub mod Entries
pub mod Tables
pub mod Walked
pub mod Mapping
pub mod Walk
pub mod Sharing
pub mod Shared
pub mod Copied
pub mod Fault
pub mod CopyOnWrite
pub mod Isolation
mod Tests
mod FaultTests
use zoho_os_chatbot.Base.{
  ℕ, zero, suc, ◌+◌, ◌-◌, ◌*◌, ◌/◌, ◌%◌, ◌^◌, Bool, true, false, not, ◌&&◌, Option, none, some, ltb,
  leb, ◌==◌, if◌then◌else◌, update, u64, test_bit, set_bit,
}
use zoho_os_chatbot.Pmm.{Pmm, Allocated, alloc_frame, free_frame}

abbrev pub Memory : Type 0
Memory = ℕ → ℕ → ℕ

abbrev pub write_entry : Memory → ℕ → ℕ → ℕ → Memory
write_entry mem table index entry = update mem table (update (mem table) index entry)

-- `PML4_INDEX`, `PDPT_INDEX`, `PD_INDEX` and `PT_INDEX`.
abbrev pub pml4_index : ℕ → ℕ
pml4_index virt = virt / 2 ^ 39 % 512

abbrev pub pdpt_index : ℕ → ℕ
pdpt_index virt = virt / 2 ^ 30 % 512

abbrev pub pd_index : ℕ → ℕ
pd_index virt = virt / 2 ^ 21 % 512

abbrev pub pt_index : ℕ → ℕ
pt_index virt = virt / 2 ^ 12 % 512

-- The bits `PAGE_PRESENT` and `PAGE_HUGE`.
abbrev pub is_present : ℕ → Bool
is_present entry = test_bit entry 0

abbrev pub is_huge : ℕ → Bool
is_huge entry = test_bit entry 7

-- `entry & ~0xFFF`, and `entry & ~0x1FFFFF`.
abbrev pub frame_bits : ℕ → ℕ
frame_bits entry = entry / 2 ^ 12 * 2 ^ 12

abbrev pub huge_bits : ℕ → ℕ
huge_bits entry = entry / 2 ^ 21 * 2 ^ 21

-- `base | flags | PAGE_PRESENT`, for a base whose low twelve bits are 0 and flags that have no others.
abbrev pub with_flags : ℕ → ℕ → ℕ
with_flags base flags = base + set_bit flags 0

-- The memory, with the frame allocator.
pub record Vmm : Type 0 where
  pub memory : Memory
  pub pmm : Pmm
  pub current_pml4 : ℕ

-- The 512 entries of a fresh table.
abbrev pub clear_table : Memory → ℕ → Memory
clear_table mem table = update mem table (λ i. if ltb i 512 then 0 else mem table i)

-- A table that was found or made, 0 if there is none, and the state.
pub record Table : Type 0 where
  pub table : ℕ
  pub vmm : Vmm

pub alloc_zeroed_table : Vmm → Table
alloc_zeroed_table v =
    let a = alloc_frame v.pmm in
    if a.frame == 0 then record { table = 0; vmm = record v { pmm = a.state } } else record {
      table = a.frame;
      vmm = record v { pmm = a.state; memory = clear_table v.memory a.frame };
    }

pub get_existing_table : Memory → ℕ → ℕ → ℕ
get_existing_table mem table index =
    if is_present (mem table index) then frame_bits (mem table index) else 0

-- `ensure_next_table`. Another CPU may put a table in place while this one makes its own: `raced` is
-- the memory as the second look finds it, which is under the lock.
pub ensure_next_table : (Memory → Memory) → Vmm → ℕ → ℕ → Table
unfolding alloc_zeroed_table
ensure_next_table raced v table index =
    let old = get_existing_table v.memory table index in
    let a = alloc_zeroed_table v in
    let seen = raced a.vmm.memory in
    let again = get_existing_table seen table index in
    if not (old == 0)
    then record { table = old; vmm = v }
    else if a.table == 0
    then a
    else if again == 0
    then record {
      table = a.table;
      vmm = record (a.vmm) { memory = write_entry seen table index (with_flags a.table 7) };
    }
    else record {
      table = again;
      vmm = record (a.vmm) { memory = seen; pmm = free_frame a.vmm.pmm a.table };
    }

-- `vmm_create_address_space`: the first entry, the kernel's, is shared.
pub create_address_space : Vmm → Table
create_address_space v =
    let a = alloc_frame v.pmm in
    let cleared = clear_table v.memory a.frame in
    if a.frame == 0 then record { table = 0; vmm = record v { pmm = a.state } } else record {
      table = a.frame;
      vmm = record v {
        pmm = a.state;
        memory = write_entry cleared a.frame 0 (cleared v.current_pml4 0);
      };
    }

-- The last write of `vmm_map`.
map_at : Vmm → ℕ → ℕ → ℕ → Vmm
map_at v table index entry = record v { memory = write_entry v.memory table index entry }

map_page : (Memory → Memory) → Vmm → ℕ → ℕ → ℕ → ℕ → Vmm
unfolding map_at ensure_next_table
map_page raced v pd virt phys flags =
    let pt = ensure_next_table raced v pd (pd_index virt) in
    if pt.table == 0
    then pt.vmm
    else map_at pt.vmm pt.table (pt_index virt) (with_flags (frame_bits phys) flags)

-- `vmm_map`, for flags below 2^12, as all that vmm.h defines are.
pub vmm_map : (Memory → Memory) → Vmm → ℕ → ℕ → ℕ → ℕ → Vmm
unfolding map_page
vmm_map raced v pml4 virt phys flags =
    let pdpt = ensure_next_table raced v pml4 (pml4_index virt) in
    let pd = ensure_next_table raced pdpt.vmm pdpt.table (pdpt_index virt) in
    if pdpt.table == 0
    then pdpt.vmm
    else if pd.table == 0
    then pd.vmm
    else if is_huge flags
    then map_at pd.vmm pd.table (pd_index virt) (with_flags (huge_bits phys) flags)
    else map_page raced pd.vmm pd.table virt phys flags

-- The loop of `vmm_map_range`, on fuel: `i` bytes are mapped. `flags | PAGE_HUGE` sets bit 7.
map_range : ℕ → (Memory → Memory) → Vmm → ℕ → ℕ → ℕ → ℕ → ℕ → ℕ → Vmm
map_range zero raced v pml4 virt phys size flags i = v
map_range (suc fuel) raced v pml4 virt phys size flags i = elim (ltb i size) [
  | false ↦ v
  | true ↦
      elim ((u64 (virt + i) % 0x200000 == 0)
        && (u64 (phys + i) % 0x200000 == 0)
        && leb 0x200000 (size - i)) [
          | true ↦
              map_range fuel raced
                (vmm_map raced v pml4 (u64 (virt + i)) (u64 (phys + i)) (set_bit flags 7)) pml4 virt
                phys size flags (u64 (i + 0x200000))
          | false ↦
              map_range fuel raced (vmm_map raced v pml4 (u64 (virt + i)) (u64 (phys + i)) flags)
                pml4 virt phys size flags (u64 (i + 0x1000))
        ]
]

-- `vmm_map_range`; each round maps one page at least.
pub vmm_map_range : (Memory → Memory) → Vmm → ℕ → ℕ → ℕ → ℕ → ℕ → Vmm
unfolding map_range
vmm_map_range raced v pml4 virt phys size flags =
    map_range (size / 0x1000 + 2) raced v pml4 virt phys size flags 0

-- The page directory of an address, 0 if a level above is missing.
pub find_pd : Memory → ℕ → ℕ → ℕ
find_pd mem pml4 virt =
    let pdpt = get_existing_table mem pml4 (pml4_index virt) in
    if pdpt == 0 then 0 else get_existing_table mem pdpt (pdpt_index virt)

-- `vmm_unmap`, less the flush of the address's translation.
pub vmm_unmap : Memory → ℕ → ℕ → Memory
unfolding find_pd
vmm_unmap mem pml4 virt =
    let pd = find_pd mem pml4 virt in
    let pt = get_existing_table mem pd (pd_index virt) in
    if pd == 0
    then mem
    else if is_huge (mem pd (pd_index virt))
    then write_entry mem pd (pd_index virt) 0
    else if not (pt == 0)
    then write_entry mem pt (pt_index virt) 0
    else mem

-- `vmm_get_phys` and `vmm_get_flags`.
pub vmm_get_phys : Memory → ℕ → ℕ → ℕ
unfolding find_pd
vmm_get_phys mem pml4 virt =
    let pd = find_pd mem pml4 virt in
    let pt = get_existing_table mem pd (pd_index virt) in
    if pd == 0
    then 0
    else if is_huge (mem pd (pd_index virt))
    then huge_bits (mem pd (pd_index virt)) + virt % 2 ^ 21
    else if pt == 0
    then 0
    else frame_bits (mem pt (pt_index virt)) + virt % 2 ^ 12

pub vmm_get_flags : Memory → ℕ → ℕ → ℕ
unfolding find_pd
vmm_get_flags mem pml4 virt =
    let pd = find_pd mem pml4 virt in
    let pt = get_existing_table mem pd (pd_index virt) in
    if pd == 0
    then 0
    else if is_huge (mem pd (pd_index virt))
    then mem pd (pd_index virt) % 2 ^ 12
    else if pt == 0
    then 0
    else mem pt (pt_index virt) % 2 ^ 12

-- The loop of `vmm_unmap_range`, on fuel: the size of each step is read from `current_pml4`.
unmap_range : ℕ → ℕ → Memory → ℕ → ℕ → ℕ → ℕ → Memory
unmap_range zero current mem pml4 virt size i = mem
unmap_range (suc fuel) current mem pml4 virt size i = elim (ltb i size) [
  | false ↦ mem
  | true ↦
      let a = u64 (virt + i) in
      let pd = find_pd mem current a in
      let huge = not (pd == 0) && is_huge (mem pd (pd_index a)) in
      let step : ℕ = if huge then 0x200000 else 0x1000 in
      unmap_range fuel current (vmm_unmap mem pml4 a) pml4 virt size (u64 (i + step))
]

pub vmm_unmap_range : Vmm → ℕ → ℕ → ℕ → Vmm
unfolding unmap_range
vmm_unmap_range v pml4 virt size = record v {
  memory = unmap_range (size / 0x1000 + 2) v.current_pml4 v.memory pml4 virt size 0;
}
