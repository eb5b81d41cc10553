-- ===== src/Vmm/Fault.antt =====
-- The page fault of src/kernel/idt.c: the write to a page that is shared until one side writes.
use zoho_os_chatbot.Base.{
  ℕ, ◌+◌, ◌-◌, ◌%◌, ◌&&◌, Option, none, some, ltb, leb, ◌==◌, if◌then◌else◌, test_bit, set_bit,
  clear_bit,
}
use zoho_os_chatbot.Pmm.{alloc_frame, free_frame, get_ref}
use zoho_os_chatbot.Vmm.{Memory, Vmm, frame_bits, vmm_map, vmm_get_phys, vmm_get_flags}
use zoho_os_chatbot.Vmm.Sharing.{is_cow}

-- The page tables, and the bytes of the frames that hold no table, which the kernel sees at their own
-- addresses. What `vmm_map` clears and writes is in tables, and so in `vmm` alone.
pub record Ram : Type 0 where
  pub vmm : Vmm
  pub bytes : ℕ → ℕ

-- `memcpy(new_frame, (void*)(cr2 & ~0xFFF), 4096)`, whose source is read through the page tables.
unfoldable pub copy_page : Ram → ℕ → ℕ → ℕ → ℕ → ℕ
copy_page m pml4 new_frame page a =
    if leb new_frame a && ltb a (new_frame + 4096)
    then m.bytes (vmm_get_phys m.vmm.memory pml4 (page + (a - new_frame)))
    else m.bytes a

-- `(flags & ~PAGE_COW) | PAGE_WRITABLE`
abbrev pub own_flags : ℕ → ℕ
own_flags flags = set_bit (clear_bit flags 9) 1

-- The two branches for a shared page: a copy for this side, or the page itself for the last owner.
unfoldable pub split_page : (Memory → Memory) → Ram → ℕ → ℕ → ℕ → ℕ → Ram
unfolding copy_page
split_page raced m pml4 cr2 flags old_phys =
    let a = alloc_frame m.vmm.pmm in
    let v : Vmm = record (m.vmm) { pmm = a.state } in
    let mapped = vmm_map raced v pml4 (frame_bits cr2) a.frame (own_flags flags) in
    record {
      vmm = record mapped { pmm = free_frame mapped.pmm old_phys };
      bytes = copy_page m pml4 a.frame (frame_bits cr2);
    }

unfoldable pub take_page : (Memory → Memory) → Ram → ℕ → ℕ → ℕ → ℕ → Ram
take_page raced m pml4 cr2 flags old_phys = record m {
  vmm = vmm_map raced m.vmm pml4 (frame_bits cr2) old_phys (own_flags flags);
}

-- How a fault ends: the task goes on, it is marked as exited and the CPU scheduled, or the CPU halts.
pub data Outcome : Type 0 where
  resumed : (m : Ram) → Outcome
  terminated : Outcome
  halted : Outcome

unfoldable pub resolve_fault : (Memory → Memory) → Ram → ℕ → ℕ → ℕ → ℕ → Outcome
unfolding split_page take_page
resolve_fault raced m pml4 cr2 error_code cs =
    let flags = vmm_get_flags m.vmm.memory pml4 cr2 in
    let old_phys = frame_bits (vmm_get_phys m.vmm.memory pml4 cr2) in
    if test_bit error_code 1 && is_cow flags
    then (if ltb 1 (get_ref m.vmm.pmm old_phys)
        then resumed (split_page raced m pml4 cr2 flags old_phys)
        else resumed (take_page raced m pml4 cr2 flags old_phys))
    else if cs % 4 == 3
    then terminated
    else halted

-- `handle_page_fault`, with the address space of the current task, if there is one, and `cr2`. It is
-- one step: the code holds no lock over it, and another CPU that acts in between is not modelled, but
-- for `raced`, which `vmm_map` calls where a table is missing.
unfoldable pub handle_page_fault : (Memory → Memory) → Ram → Option ℕ → ℕ → ℕ → ℕ → Outcome
unfolding resolve_fault
handle_page_fault raced m none cr2 error_code cs = resumed m
handle_page_fault raced m (some pml4) cr2 error_code cs =
    resolve_fault raced m pml4 cr2 error_code cs
