-- ===== src/Kmalloc/Invariant.antt =====
-- `kmalloc`, `kfree` and the statistics of src/kernel/kmalloc.c on a whole heap.
use zoho_os_chatbot.Base.{
  ℕ, ◌+◌, ◌-◌, ◌%◌, ◌^◌, ◌≤◌, ◌<◌, ◌≡◌, refl, true, Option, none, some, List, ◌∷◌, ◌++◌, arith,
  Option-cases, inl, inr, All, ◌⊎◌, u64,
}
use zoho_os_chatbot.Kmalloc.{
  header_size, heap_start, heap_size, Heap, Taken, init, round_up, first_fit, count_alloc,
  Allocated, finish_alloc, kmalloc,
}
use zoho_os_chatbot.Kmalloc.Tiling.{
  Tiled, Coalesced, Separated, used, used_bytes, used_count, Tiled-bytes, Tiled-Separated,
  used_count-le,
}
use zoho_os_chatbot.Kmalloc.Alloc.{
  first_fit-FirstFit, first_fit-none, FirstFit-Tiled, FirstFit-Serves, FirstFit-Coalesced,
  FirstFit-used, FirstFit-sums,
}

abbrev pub heap_end : ℕ
heap_end = heap_start + heap_size

-- The blocks tile the heap, no two free ones are neighbours, and the counters are right.
pub record IsValid (h : Heap) : Type 0 where
  pub tiled : Tiled heap_start heap_end h.blocks
  pub coalesced : Coalesced h.blocks
  pub bytes : h.stats.bytes_used ≡ used_bytes h.blocks
  pub live : h.stats.live_allocations ≡ used_count h.blocks
  pub peak : h.stats.bytes_used ≤ h.stats.peak_bytes_used

-- The heap of `kmalloc_init` is valid.
pub init-IsValid : IsValid init
unfolding init used_bytes used_count
init-IsValid = record {
  tiled = omega arith;
  coalesced = tt;
  bytes = refl;
  live = refl;
  peak = omega arith;
}

-- Sums of a tiled heap stay far below the machine's word.
pub bytes-small :
    {h : Heap} → IsValid h → (used_bytes h.blocks ≤ heap_size) × (used_count h.blocks ≤ heap_size)
bytes-small {h} v =
    let t = Tiled-bytes heap_start heap_end h.blocks v.tiled in
    (omega (arith, t), omega (arith, t, used_count-le h.blocks))

-- `(size + 7) & ~7` is the next multiple of eight, unless the sum passes 2 ^ 64: then it is 0.
pub round_up_lem :
    (size : ℕ)
    → size < 2 ^ 64
    → (round_up size % 8 ≡ 0)
      × (size + 7 < 2 ^ 64 → (size ≤ round_up size) × (round_up size < size + 8))
      × (2 ^ 64 ≤ size + 7 → round_up size ≡ 0)
unfolding round_up
round_up_lem size h = (omega arith, λ b. (omega arith, omega arith), λ b. omega arith)

finish_alloc-IsValid :
    (h : Heap) (size : ℕ) (o : Option Taken)
    → first_fit size h.blocks ≡ o
    → size % 8 ≡ 0
    → IsValid h
    → IsValid (finish_alloc h o).heap
unfolding finish_alloc count_alloc
finish_alloc-IsValid h size none e m v = record {
  tiled = v.tiled;
  coalesced = v.coalesced;
  bytes = v.bytes;
  live = v.live;
  peak = v.peak;
}
finish_alloc-IsValid h size (some t) e m v =
    let f = first_fit-FirstFit size h.blocks t e in
    let s = FirstFit-sums f in
    let tiled' = FirstFit-Tiled size heap_end (omega arith) heap_start m f v.tiled in
    let b = Tiled-bytes heap_start heap_end t.blocks tiled' in
    record {
      tiled = tiled';
      coalesced = FirstFit-Coalesced f v.coalesced;
      bytes = omega (arith, s, b, v.bytes);
      live = omega (arith, s, bytes-small v, v.live);
      peak = ground arith;
    }

-- Every call of `kmalloc`, failed ones included, keeps the invariant.
pub kmalloc-IsValid :
    {h : Heap} (size : ℕ) → size < 2 ^ 64 → IsValid h → IsValid (kmalloc h size).heap
unfolding kmalloc
kmalloc-IsValid {h} size lt v =
    finish_alloc-IsValid h (round_up size) (first_fit (round_up size) h.blocks) refl
      (round_up_lem size lt).0 v

-- What a call of `kmalloc` with result `r` promises.
pub record Granted (h : Heap) (size : ℕ) (r : Allocated) : Type 0 where
  pub aligned : r.ptr % 8 ≡ 0
  pub above : heap_start + header_size ≤ r.ptr
  pub region :
      (got : ℕ) × (pre : List (ℕ × ℕ)) × (post : List (ℕ × ℕ)) × (round_up size ≤ got)
      × (got < round_up size + header_size + 8)
      × (r.ptr + got ≤ heap_end)
      × (used h.blocks ≡ pre ++ post)
      × (used r.heap.blocks ≡ pre ++ ((r.ptr - header_size, got) ∷ post))

finish_alloc-Granted :
    (h : Heap) (size : ℕ) (t : Taken)
    → first_fit (round_up size) h.blocks ≡ some t
    → IsValid h
    → Granted h size (finish_alloc h (some t))
unfolding finish_alloc
finish_alloc-Granted h size t e v =
    let f = first_fit-FirstFit (round_up size) h.blocks t e in
    let s = FirstFit-Serves (round_up size) heap_end (omega arith) heap_start f v.tiled in
    let (pre, post, u, u') = FirstFit-used f in
    record {
      aligned = omega (arith, s.aligned);
      above = omega (arith, s.above);
      region = (
        t.block.size,
        pre,
        post,
        s.enough,
        s.waste,
        omega (arith, s.below),
        u,
        (let same : t.block.addr + header_size - header_size ≡ t.block.addr = omega arith in
            rw same u'),
      );
    }

-- `kmalloc` either returns NULL, changes nothing but the count of failures, and no free block was as
-- large as the rounded size; or it returns an aligned pointer into the heap to a new region of at
-- least the rounded size and less than 32 bytes more, and all regions in use before stay as they are.
pub kmalloc_lem :
    {h : Heap} (size : ℕ)
    → IsValid h
    → let r = kmalloc h size in
      ((r.ptr ≡ 0)
        × (r.heap ≡ record h {
          stats = record (h.stats) { failed_allocations = u64 (h.stats.failed_allocations + 1) };
        })
        × All (λ b. b.is_free ≡ true → b.size < round_up size) h.blocks)
      ⊎ Granted h size r
unfolding kmalloc
kmalloc_lem {h} size v = elim (Option-cases (first_fit (round_up size) h.blocks)) [
  | inl e ↦
      inl (rw e (unfold finish_alloc in (refl, refl, first_fit-none (round_up size) h.blocks e)))
  | inr (t, e) ↦ inr (rw e (finish_alloc-Granted h size t e v))
]

-- The regions in use never overlap, and lie inside the heap.
pub used-Separated : {h : Heap} → IsValid h → Separated heap_start heap_end (used h.blocks)
used-Separated {h} v = Tiled-Separated heap_start heap_end h.blocks v.tiled
