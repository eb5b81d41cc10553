-- ===== src/Kmalloc/Statistics.antt =====
-- `kmalloc_get_stats` of src/kernel/kmalloc.c against the blocks of the heap.
use zoho_os_chatbot.Base.{
  ℕ, ◌+◌, ◌*◌, ◌^◌, ◌<◌, ◌≡◌, refl, ◌&&◌, List, [], ◌∷◌, arith, ltb, if◌then◌else◌, u64, max,
  length,
}
use zoho_os_chatbot.Kmalloc.{header_size, heap_size, Block, Heap, sum_free, get_stats}
use zoho_os_chatbot.Kmalloc.Tiling.{free_bytes, Tiled-bytes}
use zoho_os_chatbot.Kmalloc.Invariant.{IsValid, heap_end}

-- The largest size of a free block, or the number given.
pub largest : List Block → ℕ → ℕ
largest [] m = m
largest (b ∷ bs) m = largest bs (if b.is_free then max m b.size else m)

sum_free_lem :
    (bs : List Block) (free m : ℕ)
    → free + free_bytes bs < 2 ^ 64
    → sum_free bs free m ≡ (free + free_bytes bs, largest bs m)
unfolding sum_free free_bytes largest
sum_free_lem [] free m h = ground arith
sum_free_lem (b ∷ bs) free m h = ground (
  arith,
  sum_free_lem bs (if b.is_free then u64 (free + b.size) else free)
      (if b.is_free && ltb m b.size then b.size else m),
)

-- The statistics of a valid heap: the free bytes are the sum of the free blocks, the largest free
-- block is the largest of them, and used bytes, free bytes and headers make up the whole heap. The
-- blocks stay as they are.
pub get_stats_lem :
    {h : Heap}
    → IsValid h
    → let (s, h') = get_stats h in
      (s.bytes_free ≡ free_bytes h.blocks)
      × (s.largest_free_block ≡ largest h.blocks 0)
      × (s.bytes_used + s.bytes_free + header_size * length h.blocks ≡ heap_size)
      × (h'.blocks ≡ h.blocks)
      × (h'.stats ≡ s)
unfolding get_stats
get_stats_lem {h} v =
    let t = Tiled-bytes _ heap_end h.blocks v.tiled in
    let e = sum_free_lem h.blocks 0 0 (omega (arith, t)) in
    (ground (arith, e), ground (arith, e), ground (arith, e, t, v.bytes), refl, refl)
