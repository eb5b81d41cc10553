-- ===== src/Kmalloc/Tests.antt =====
-- The heap after its initialisation and after a few calls.
use zoho_os_chatbot.Base.{
  ◌-◌, ◌<◌, ◌≡◌, ◌≢◌, ◌⊎◌, refl, true, false, some, [], ◌∷◌, arith, All, u64, ◌+◌,
}
use zoho_os_chatbot.Kmalloc.{header_size, Block, Heap, init, round_up, kmalloc, find_block, kfree}
use zoho_os_chatbot.Kmalloc.Invariant.{IsValid, init-IsValid, kmalloc-IsValid, kmalloc_lem, Granted}
use zoho_os_chatbot.Kmalloc.Release.{kfree-IsValid, kmalloc-kfree}

abbrev one : Heap
unfolding kmalloc init
one = (kmalloc init 20).heap

one_runs :
    one.blocks
    ≡ record { addr = 0x1000000; size = 24; is_free = false }
      ∷ record { addr = 0x1000030; size = 0xFFFFB8; is_free = true }
      ∷ []
unfolding kmalloc init
one_runs = refl

kmalloc-IsValid_example : IsValid (kmalloc init 20).heap
kmalloc-IsValid_example = kmalloc-IsValid 20 (omega arith) init-IsValid

kmalloc_lem_example :
    let r = kmalloc init 20 in
    ((r.ptr ≡ 0)
      × (r.heap ≡ record init {
        stats = record (init.stats) {
          failed_allocations = u64 (init.stats.failed_allocations + 1);
        };
      })
      × All (λ b. b.is_free ≡ true → b.size < round_up 20) init.blocks)
    ⊎ Granted init 20 r
kmalloc_lem_example = kmalloc_lem 20 init-IsValid

abbrev first_header : Block
first_header = record { addr = 0x1000000; size = 24; is_free = false }

used_header : find_block (0x1000018 - header_size) one.blocks ≡ some first_header
unfolding kmalloc init find_block
used_header = refl

abbrev freed : Heap
freed = record {
  blocks = record { addr = 0x1000000; size = 0xFFFFE8; is_free = true } ∷ [];
  stats = record {
    alloc_count = 1;
    free_count = 1;
    live_allocations = 0;
    bytes_used = 0;
    peak_bytes_used = 24;
    bytes_free = 0xFFFFE8;
    largest_free_block = 0xFFFFE8;
    failed_allocations = 0;
  };
}

kfree_runs : kfree one 0x1000018 ≡ some freed
unfolding kmalloc init kfree
kfree_runs = refl

kfree-IsValid_example : IsValid freed
unfolding kmalloc init
kfree-IsValid_example =
    kfree-IsValid 0x1000018 kfree_runs (kmalloc-IsValid 20 (omega arith) init-IsValid)

granted : (kmalloc init 20).ptr ≢ 0
unfolding kmalloc init
granted = omega arith

kmalloc-kfree_example :
    let r = kmalloc init 20 in
    (h' : Heap) × (kfree r.heap r.ptr ≡ some h')
    × (h'.blocks ≡ init.blocks)
    × (h'.stats.bytes_used ≡ init.stats.bytes_used)
    × (h'.stats.live_allocations ≡ init.stats.live_allocations)
kmalloc-kfree_example = kmalloc-kfree 20 init-IsValid (omega arith) granted
