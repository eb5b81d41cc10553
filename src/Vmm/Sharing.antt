-- ===== src/Vmm/Sharing.antt =====
-- The copy of an address space in src/kernel/vmm.c, whose pages are shared until one side writes, and
-- its release. The entries of the copy are read again in every round.
use zoho_os_chatbot.Base.{ℕ, zero, suc, ◌%◌, ◌^◌, Bool, if◌then◌else◌, test_bit, set_bit, clear_bit}
use zoho_os_chatbot.Pmm.{free_frame, ref_inc}
use zoho_os_chatbot.Vmm.{
  Memory, write_entry, is_present, is_huge, frame_bits, huge_bits, with_flags, Vmm, Table,
  ensure_next_table, create_address_space,
}

-- `flags & PAGE_WRITABLE`, and `(flags & ~PAGE_WRITABLE) | PAGE_COW`.
abbrev pub is_writable : ℕ → Bool
is_writable entry = test_bit entry 1

abbrev pub is_cow : ℕ → Bool
is_cow entry = test_bit entry 9

abbrev pub guard_flags : ℕ → ℕ
guard_flags flags = set_bit (clear_bit flags 1) 9

-- The shared entry `phys | flags | PAGE_PRESENT` and its write to both tables; the source's own entry
-- stays if it was not writable.
abbrev pub shared_entry : ℕ → ℕ → ℕ
shared_entry phys flags = with_flags phys (if is_writable flags then guard_flags flags else flags)

unfoldable pub share_entry : Vmm → ℕ → ℕ → ℕ → ℕ → Vmm
share_entry v src dst index phys =
    let flags = v.memory src index % 2 ^ 12 in
    let entry = shared_entry phys flags in
    let guarded = if is_writable flags then write_entry v.memory src index entry else v.memory in
    record v { memory = write_entry guarded dst index entry; pmm = ref_inc v.pmm phys }

-- The innermost loop, from index `l` on, with the rounds that are left.
unfoldable pub share_page : Vmm → ℕ → ℕ → ℕ → Vmm
unfolding share_entry
share_page v src_pt dst_pt l =
    if is_present (v.memory src_pt l)
    then share_entry v src_pt dst_pt l (frame_bits (v.memory src_pt l))
    else v

unfoldable pub share_pages : ℕ → Vmm → ℕ → ℕ → ℕ → Vmm
unfolding share_page
share_pages zero v src_pt dst_pt l = v
share_pages (suc n) v src_pt dst_pt l =
    share_pages n (share_page v src_pt dst_pt l) src_pt dst_pt (suc l)

-- One round, and the loop, over a page directory: a huge page is shared like a small one.
clone_pd_entry : (Memory → Memory) → Vmm → ℕ → ℕ → ℕ → Vmm
unfolding share_pages
clone_pd_entry raced v src_pd dst_pd k =
    let e = v.memory src_pd k in
    let pt = ensure_next_table raced v dst_pd k in
    if is_present e
    then (if is_huge e
        then share_entry v src_pd dst_pd k (huge_bits e)
        else share_pages 512 pt.vmm (frame_bits e) pt.table 0)
    else v

clone_pd : ℕ → (Memory → Memory) → Vmm → ℕ → ℕ → ℕ → Vmm
clone_pd zero raced v src_pd dst_pd k = v
clone_pd (suc n) raced v src_pd dst_pd k =
    clone_pd n raced (clone_pd_entry raced v src_pd dst_pd k) src_pd dst_pd (suc k)

-- The two loops above it; `clone_pml4` begins at 1, so that the kernel's entry is left alone.
clone_pdpt : ℕ → (Memory → Memory) → Vmm → ℕ → ℕ → ℕ → Vmm
clone_pdpt zero raced v src_pdpt dst_pdpt j = v
clone_pdpt (suc n) raced v src_pdpt dst_pdpt j =
    let e = v.memory src_pdpt j in
    let pd = ensure_next_table raced v dst_pdpt j in
    let next = if is_present e then clone_pd 512 raced pd.vmm (frame_bits e) pd.table 0 else v in
    clone_pdpt n raced next src_pdpt dst_pdpt (suc j)

clone_pml4 : ℕ → (Memory → Memory) → Vmm → ℕ → ℕ → ℕ → Vmm
clone_pml4 zero raced v src_pml4 dst_pml4 i = v
clone_pml4 (suc n) raced v src_pml4 dst_pml4 i =
    let e = v.memory src_pml4 i in
    let pdpt = ensure_next_table raced v dst_pml4 i in
    let next =
      if is_present e then clone_pdpt 512 raced pdpt.vmm (frame_bits e) pdpt.table 0 else v in
    clone_pml4 n raced next src_pml4 dst_pml4 (suc i)

-- `vmm_clone_address_space`, less the flush of translations at its end.
pub vmm_clone_address_space : (Memory → Memory) → Vmm → ℕ → Table
unfolding clone_pml4
vmm_clone_address_space raced v src_pml4 =
    let dst = create_address_space v in
    record { table = dst.table; vmm = clone_pml4 511 raced dst.vmm src_pml4 dst.table 1 }

-- `vmm_destroy_address_space`, which only gives frames back: a table goes after what it holds.
release : Vmm → ℕ → Vmm
release v addr = record v { pmm = free_frame v.pmm addr }

destroy_pt : ℕ → Vmm → ℕ → ℕ → Vmm
unfolding release
destroy_pt zero v pt l = v
destroy_pt (suc n) v pt l =
    let e = v.memory pt l in
    destroy_pt n (if is_present e then release v (frame_bits e) else v) pt (suc l)

destroy_pd : ℕ → Vmm → ℕ → ℕ → Vmm
unfolding destroy_pt
destroy_pd zero v pd k = v
destroy_pd (suc n) v pd k =
    let pt = frame_bits (v.memory pd k) in
    let gone = release (destroy_pt 512 v pt 0) pt in
    destroy_pd n (if is_present (v.memory pd k) then gone else v) pd (suc k)

destroy_pdpt : ℕ → Vmm → ℕ → ℕ → Vmm
unfolding destroy_pd
destroy_pdpt zero v pdpt j = v
destroy_pdpt (suc n) v pdpt j =
    let pd = frame_bits (v.memory pdpt j) in
    let gone = release (destroy_pd 512 v pd 0) pd in
    destroy_pdpt n (if is_present (v.memory pdpt j) then gone else v) pdpt (suc j)

destroy_pml4 : ℕ → Vmm → ℕ → ℕ → Vmm
unfolding destroy_pdpt
destroy_pml4 zero v pml4 i = v
destroy_pml4 (suc n) v pml4 i =
    let pdpt = frame_bits (v.memory pml4 i) in
    let gone = release (destroy_pdpt 512 v pdpt 0) pdpt in
    destroy_pml4 n (if is_present (v.memory pml4 i) then gone else v) pml4 (suc i)

pub vmm_destroy_address_space : Vmm → ℕ → Vmm
unfolding destroy_pml4 release
vmm_destroy_address_space v pml4 = release (destroy_pml4 511 v pml4 1) pml4
