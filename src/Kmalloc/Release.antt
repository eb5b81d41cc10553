-- ===== src/Kmalloc/Release.antt =====
-- `kfree` of src/kernel/kmalloc.c on a whole heap, and the round trip with `kmalloc`.
use zoho_os_chatbot.Base.{
  ℕ, ◌+◌, ◌-◌, ◌%◌, ◌^◌, ◌≤◌, ◌<◌, ◌≡◌, ◌≢◌, refl, ap, ◌∙◌, true, false, Option, none, some, List,
  ◌∷◌, ◌++◌, arith, ltb, ◌==◌, Bool-cases, Option-cases, inl, inr,
}
use mathlib.Core.Path.{subst}
use zoho_os_chatbot.Kmalloc.{
  header_size, heap_start, Block, Heap, Taken, round_up, first_fit, count_alloc, finish_alloc,
  kmalloc, find_block, set_free, merge, count_free, free_header, kfree,
}
use zoho_os_chatbot.Kmalloc.Tiling.{used, Tiled-bytes}
use zoho_os_chatbot.Kmalloc.Alloc.{
  first_fit-FirstFit, FirstFit-Tiled, FirstFit-Serves, FirstFit-sums,
}
use zoho_os_chatbot.Kmalloc.Free.{
  merge-Tiled, merge-Coalesced, merge-used, find_block-addr, set_free-Tiled, set_free-used,
  set_free-sums,
}
use zoho_os_chatbot.Kmalloc.RoundTrip.{find_block-FirstFit, merge-set_free_id}
use zoho_os_chatbot.Kmalloc.Invariant.{IsValid, heap_end, bytes-small, round_up_lem}

free_header-IsValid :
    (h : Heap) (ptr : ℕ) (o : Option Block) (h' : Heap)
    → find_block (ptr - header_size) h.blocks ≡ o
    → free_header h o ≡ some h'
    → IsValid h
    → IsValid h'
unfolding free_header count_free
free_header-IsValid h ptr none h' e r v = cc
free_header-IsValid h ptr (some b) h' e r v = elim (Bool-cases b.is_free) [
  | inl free ↦ let same : h ≡ h' = ground arith in rw same at v
  | inr busy ↦
      let a = find_block-addr (ptr - header_size) h.blocks b e in
      let found : find_block b.addr h.blocks ≡ some b = ap (λ x. find_block x h.blocks) a ∙ e in
      let s = set_free-sums b.addr h.blocks b found busy in
      let m = merge-used (set_free b.addr h.blocks) in
      let done : Heap = record {
        blocks = merge (set_free b.addr h.blocks);
        stats = count_free h.stats b.size;
      } in
      let ok : IsValid done = record {
        tiled =
            merge-Tiled heap_start heap_end (set_free b.addr h.blocks) (omega arith)
              (set_free-Tiled b.addr heap_start heap_end h.blocks v.tiled);
        coalesced = merge-Coalesced (set_free b.addr h.blocks);
        bytes = ground (arith, s, m, v.bytes);
        live = ground (arith, s, m, v.live);
        peak = ground (arith, v.peak);
      } in
      let same : done ≡ h' = ground arith in rw same at ok
]

-- Every call of `kfree` that is defined keeps the invariant: the blocks still tile the heap, no two
-- free ones are neighbours, and the counters are right.
pub kfree-IsValid :
    {h : Heap} (ptr : ℕ) {h' : Heap} → kfree h ptr ≡ some h' → IsValid h → IsValid h'
unfolding kfree
kfree-IsValid {h} ptr {h'} e v = elim (Bool-cases (ptr == 0)) [
  | inl null ↦ let same : h ≡ h' = ground arith in rw same at v
  | inr given ↦ elim (Bool-cases (ltb ptr header_size)) [
    | inl low ↦ absurd (ground arith)
    | inr high ↦
        free_header-IsValid h ptr (find_block (ptr - header_size) h.blocks) h' refl (ground arith) v
  ]
]

kfree-header :
    (h : Heap) (ptr : ℕ) (b : Block)
    → header_size ≤ ptr
    → find_block (ptr - header_size) h.blocks ≡ some b
    → kfree h ptr ≡ free_header h (some b)
unfolding kfree
kfree-header h ptr b le e =
    let z : (ptr == 0) ≡ false = ground arith in
    let l : ltb ptr header_size ≡ false = ground arith in rw (z, l, e)

-- `kfree` of a pointer whose header stands in the list: if the block is already free nothing
-- changes, so freeing twice is harmless as long as the header is still there; else its region, and
-- no other, leaves the regions in use.
pub kfree_lem :
    (h : Heap) (ptr : ℕ) (b : Block)
    → header_size ≤ ptr
    → find_block (ptr - header_size) h.blocks ≡ some b
    → (b.is_free ≡ true → kfree h ptr ≡ some h)
      × (b.is_free ≡ false
          → (h' : Heap) × (pre : List (ℕ × ℕ)) × (post : List (ℕ × ℕ)) × (kfree h ptr ≡ some h')
            × (used h.blocks ≡ pre ++ ((ptr - header_size, b.size) ∷ post))
            × (used h'.blocks ≡ pre ++ post))
unfolding free_header
kfree_lem h ptr b le e =
    let a = find_block-addr (ptr - header_size) h.blocks b e in
    let found : find_block b.addr h.blocks ≡ some b = ap (λ x. find_block x h.blocks) a ∙ e in
    let k = kfree-header h ptr b le e in
    (
      λ free. ground (arith, k),
      λ busy.
          let (pre, post, u, u') = set_free-used b.addr h.blocks b found busy in
          let m = merge-used (set_free b.addr h.blocks) in
          (
            record { blocks = merge (set_free b.addr h.blocks); stats = count_free h.stats b.size },
            pre,
            post,
            ground (arith, k),
            subst (λ x. used h.blocks ≡ pre ++ ((x, b.size) ∷ post)) a u,
            m.0 ∙ u',
          ),
    )

finish_alloc-kfree :
    (h : Heap) (size : ℕ) (t : Taken)
    → first_fit size h.blocks ≡ some t
    → size % 8 ≡ 0
    → IsValid h
    → let r = finish_alloc h (some t) in
      (h' : Heap) × (kfree r.heap r.ptr ≡ some h')
      × (h'.blocks ≡ h.blocks)
      × (h'.stats.bytes_used ≡ h.stats.bytes_used)
      × (h'.stats.live_allocations ≡ h.stats.live_allocations)
unfolding finish_alloc free_header count_free count_alloc
finish_alloc-kfree h size t e m v =
    let f = first_fit-FirstFit size h.blocks t e in
    let s = FirstFit-Serves size heap_end (omega arith) heap_start f v.tiled in
    let same : t.block.addr + header_size - header_size ≡ t.block.addr = omega arith in
    let found : find_block (t.block.addr + header_size - header_size) t.blocks ≡ some t.block =
      rw same (find_block-FirstFit size heap_end (omega arith) heap_start f v.tiled) in
    let b = Tiled-bytes heap_start heap_end h.blocks v.tiled in
    let sums = bytes-small v in
    let r = finish_alloc h (some t) in
    let k = kfree-header r.heap r.ptr t.block (omega arith) found in
    let back =
      merge-set_free_id size heap_end (omega arith) heap_start h.blocks t f v.tiled v.coalesced in
    let fs = FirstFit-sums f in
    let ts =
      Tiled-bytes heap_start heap_end t.blocks
        (FirstFit-Tiled size heap_end (omega arith) heap_start m f v.tiled) in
    (
      record {
        blocks = merge (set_free t.block.addr t.blocks);
        stats = count_free r.heap.stats t.block.size;
      },
      ground (arith, k, s.in_use),
      back,
      ground (arith, sums, v.bytes, ts, fs),
      ground (arith, sums, v.live),
    )

-- Freeing what `kmalloc` has just returned brings back the same blocks, the same number of used
-- bytes and the same number of live allocations.
pub kmalloc-kfree :
    {h : Heap} (size : ℕ)
    → IsValid h
    → size < 2 ^ 64
    → (kmalloc h size).ptr ≢ 0
    → let r = kmalloc h size in
      (h' : Heap) × (kfree r.heap r.ptr ≡ some h')
      × (h'.blocks ≡ h.blocks)
      × (h'.stats.bytes_used ≡ h.stats.bytes_used)
      × (h'.stats.live_allocations ≡ h.stats.live_allocations)
unfolding kmalloc
kmalloc-kfree {h} size v lt ne = elim (Option-cases (first_fit (round_up size) h.blocks)) [
  | inl e ↦ absurd (ne (rw e (unfold finish_alloc in refl)))
  | inr (t, e) ↦ rw e (finish_alloc-kfree h (round_up size) t e (round_up_lem size lt).0 v)
]
