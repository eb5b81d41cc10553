-- ===== src/Kmalloc.antt =====
-- The kernel heap of src/kernel/kmalloc.c: first fit over a linked list of blocks, with splitting,
-- coalescing and statistics. A block's `next` is the block that follows it in the list.
pub mod Tiling
pub mod Alloc
pub mod Free
pub mod RoundTrip
pub mod Invariant
pub mod Release
pub mod Statistics
mod Tests
use zoho_os_chatbot.Base.{
  ℕ, zero, suc, ◌+◌, ◌-◌, ◌*◌, ◌/◌, ◌%◌, ◌^◌, Bool, true, false, not, ◌&&◌, Option, none, some,
  List, [], ◌∷◌, ◌++◌, ltb, leb, ◌==◌, if◌then◌else◌, u64,
}

abbrev pub heap_start : ℕ
heap_start = 0x1000000

abbrev pub heap_size : ℕ
heap_size = 0x1000000

-- `sizeof(struct kmalloc_header)`: eight bytes each for the size, the padded flag and the pointer.
abbrev pub header_size : ℕ
header_size = 24

-- A header with the address at which it stands.
pub record Block : Type 0 where
  pub addr : ℕ
  pub size : ℕ
  pub is_free : Bool

pub record Stats : Type 0 where
  pub alloc_count : ℕ
  pub free_count : ℕ
  pub live_allocations : ℕ
  pub bytes_used : ℕ
  pub peak_bytes_used : ℕ
  pub bytes_free : ℕ
  pub largest_free_block : ℕ
  pub failed_allocations : ℕ

-- The blocks that `free_list_head` leads to, and `kmalloc_stats`.
pub record Heap : Type 0 where
  pub blocks : List Block
  pub stats : Stats

abbrev pub first_block : Block
first_block = record { addr = heap_start; size = heap_size - header_size; is_free = true }

unfoldable pub init : Heap
init = record {
  blocks = first_block ∷ [];
  stats = record {
    alloc_count = 0;
    free_count = 0;
    live_allocations = 0;
    bytes_used = 0;
    peak_bytes_used = 0;
    bytes_free = first_block.size;
    largest_free_block = first_block.size;
    failed_allocations = 0;
  };
}

-- `(size + 7) & ~7`
pub round_up : ℕ → ℕ
round_up size = u64 (size + 7) / 8 * 8

-- The block that was taken, and the list with it marked used.
pub record Taken : Type 0 where
  pub block : Block
  pub blocks : List Block

-- The block is cut if enough room remains for another header and eight bytes.
pub take_block : ℕ → Block → List Block → Taken
take_block size b rest =
    if leb (u64 (size + header_size + 8)) b.size
    then (let used : Block = record b { size = size; is_free = false } in
        let new_block : Block = record {
          addr = b.addr + header_size + size;
          size = b.size - size - header_size;
          is_free = true;
        } in
        record { block = used; blocks = used ∷ new_block ∷ rest })
    else (let used : Block = record b { is_free = false } in
        record { block = used; blocks = used ∷ rest })

keep_block : Block → Option Taken → Option Taken
keep_block b none = none
keep_block b (some t) = some (record t { blocks = b ∷ t.blocks })

-- The loop over the list.
pub first_fit : ℕ → List Block → Option Taken
first_fit size [] = none
first_fit size (b ∷ rest) =
    if b.is_free && leb size b.size
    then some (take_block size b rest)
    else keep_block b (first_fit size rest)

count_alloc : Stats → ℕ → Stats
count_alloc s size =
    let used = u64 (s.bytes_used + size) in
    record s {
      alloc_count = u64 (s.alloc_count + 1);
      live_allocations = u64 (s.live_allocations + 1);
      bytes_used = used;
      peak_bytes_used = if ltb s.peak_bytes_used used then used else s.peak_bytes_used;
    }

-- The pointer and the new heap; `NULL` is 0.
pub record Allocated : Type 0 where
  pub ptr : ℕ
  pub heap : Heap

finish_alloc : Heap → Option Taken → Allocated
finish_alloc h none = record {
  ptr = 0;
  heap = record h {
    stats = record (h.stats) { failed_allocations = u64 (h.stats.failed_allocations + 1) };
  };
}
finish_alloc h (some t) = record {
  ptr = t.block.addr + header_size;
  heap = record h { blocks = t.blocks; stats = count_alloc h.stats t.block.size };
}

unfoldable pub kmalloc : Heap → ℕ → Allocated
unfolding finish_alloc count_alloc first_fit keep_block take_block round_up
kmalloc h size = finish_alloc h (first_fit (round_up size) h.blocks)

-- The header at an address.
pub find_block : ℕ → List Block → Option Block
find_block a [] = none
find_block a (b ∷ bs) = if b.addr == a then some b else find_block a bs

pub set_free : ℕ → List Block → List Block
set_free a [] = []
set_free a (b ∷ bs) = if b.addr == a then record b { is_free = true } ∷ bs else b ∷ set_free a bs

-- The loop that merges, at the block `curr`.
pub merge_from : Block → List Block → List Block
merge_from curr [] = curr ∷ []
merge_from curr (n ∷ rest) = elim (curr.is_free && n.is_free) [
  | true ↦ merge_from (record curr { size = u64 (curr.size + (n.size + header_size)) }) rest
  | false ↦ curr ∷ merge_from n rest
]

pub merge : List Block → List Block
unfolding merge_from
merge [] = []
merge (b ∷ bs) = merge_from b bs

count_free : Stats → ℕ → Stats
count_free s size = record s {
  free_count = u64 (s.free_count + 1);
  live_allocations =
      if ltb 0 s.live_allocations then s.live_allocations - 1 else s.live_allocations;
  bytes_used = if leb size s.bytes_used then s.bytes_used - size else 0;
}

free_header : Heap → Option Block → Option Heap
free_header h none = none
free_header h (some b) =
    if b.is_free
    then some h
    else some
        (record { blocks = merge (set_free b.addr h.blocks); stats = count_free h.stats b.size })

-- `none`: the pointer is not one that `kmalloc` gave out, so that no header stands below it and
-- what the code does is not defined.
pub kfree : Heap → ℕ → Option Heap
unfolding free_header count_free merge set_free find_block
kfree h ptr =
    if ptr == 0
    then some h
    else if ltb ptr header_size
    then none
    else free_header h (find_block (ptr - header_size) h.blocks)

-- The loop of `kmalloc_get_stats`, with its two sums.
sum_free : List Block → ℕ → ℕ → ℕ × ℕ
sum_free [] free largest = (free, largest)
sum_free (b ∷ bs) free largest =
    sum_free bs (if b.is_free then u64 (free + b.size) else free)
      (if b.is_free && ltb largest b.size then b.size else largest)

pub get_stats : Heap → Stats × Heap
unfolding sum_free
get_stats h =
    let (free, largest) = sum_free h.blocks 0 0 in
    let s : Stats = record (h.stats) { bytes_free = free; largest_free_block = largest } in
    (s, record h { stats = s })
