-- ===== src/Kmalloc/RoundTrip.antt =====
-- Freeing what was just allocated, in src/kernel/kmalloc.c: the list of blocks is back as it was.
use zoho_os_chatbot.Base.{
  ℕ, ◌+◌, ◌^◌, ◌≤◌, ◌<◌, ◌≡◌, ◌≢◌, refl, ap, true, false, ◌&&◌, some, List, [], ◌∷◌, arith, leb,
}
use zoho_os_chatbot.Kmalloc.{
  header_size, Block, Taken, take_block, find_block, set_free, merge_from, merge,
}
use zoho_os_chatbot.Kmalloc.Tiling.{Tiled, Coalesced, Tiled-le, wall, Coalesced-wall}
use zoho_os_chatbot.Kmalloc.Alloc.{FirstFit, here, there, FirstFit-Serves}
use zoho_os_chatbot.Kmalloc.Free.{merge_from_id}

take_block-addr :
    (size : ℕ) (b : Block) (rest : List Block) → (take_block size b rest).block.addr ≡ b.addr
unfolding take_block
take_block-addr size b rest = ground arith

set_free_ne :
    (a : ℕ) (b : Block) (bs : List Block) → b.addr ≢ a → set_free a (b ∷ bs) ≡ b ∷ set_free a bs
unfolding set_free
set_free_ne a b bs h = ground arith

merge_from_used :
    (p b : Block) (bs : List Block)
    → (p.is_free && b.is_free) ≡ false
    → merge_from p (b ∷ bs) ≡ p ∷ merge_from b bs
unfolding merge_from
merge_from_used p b bs h = rw (h, merge_from)

module _ (size end : ℕ) (small : end ≤ 2 ^ 32) where
  pub find_block-FirstFit :
      (a : ℕ) {bs : List Block} {t : Taken}
      → FirstFit size bs t
      → Tiled a end bs
      → find_block t.block.addr t.blocks ≡ some t.block
  unfolding find_block take_block
  find_block-FirstFit a (here y) h = ground arith
  find_block-FirstFit a (there {b} {t} n f) h =
      let s = FirstFit-Serves size end small (a + header_size + b.size) f h.2 in
      ground (arith, s.above, find_block-FirstFit (a + header_size + b.size) f h.2)

  take_block-merge :
      (p b : Block) (rest : List Block)
      → (b.is_free && leb size b.size) ≡ true
      → b.size < 2 ^ 32
      → Coalesced (p ∷ b ∷ rest)
      → merge_from p (set_free b.addr (take_block size b rest).blocks) ≡ p ∷ b ∷ rest
  unfolding merge_from set_free take_block
  take_block-merge p b rest y l c = ground (arith, merge_from_id b rest c.1)

  pub merge-set_free :
      (a : ℕ) (p : Block) {bs : List Block} {t : Taken}
      → FirstFit size bs t
      → Tiled a end bs
      → Coalesced (p ∷ bs)
      → merge_from p (set_free t.block.addr t.blocks) ≡ p ∷ bs
  unfolding take_block
  merge-set_free a p (here {b} {rest} y) h c =
      let le = Tiled-le (a + header_size + b.size) end rest h.2 in
      rw (take_block-addr size b rest) (take_block-merge p b rest y (omega arith) c)
  merge-set_free a p (there {b} {t} n f) h c =
      let s = FirstFit-Serves size end small (a + header_size + b.size) f h.2 in
      rw
        (
          set_free_ne t.block.addr b t.blocks (omega (arith, s.above)),
          merge_from_used p b (set_free t.block.addr t.blocks) c.0,
        )
        (ap (λ x. p ∷ x) (merge-set_free (a + header_size + b.size) b f h.2 c.1))

-- Freeing the block that was taken gives the list back as it was.
pub merge-set_free_id :
    (size end : ℕ) (small : end ≤ 2 ^ 32) (a : ℕ) (bs : List Block) (t : Taken)
    → FirstFit size bs t
    → Tiled a end bs
    → Coalesced bs
    → merge (set_free t.block.addr t.blocks) ≡ bs
unfolding merge merge_from
merge-set_free_id size end small a bs t f h c =
    drop_wall (set_free t.block.addr t.blocks) bs
      (merge-set_free size end small a wall f h (Coalesced-wall bs c))
  where
    drop_wall : (xs ys : List Block) → merge_from wall xs ≡ wall ∷ ys → merge xs ≡ ys
    drop_wall [] ys e = cc
    drop_wall (x ∷ xs) ys e = cc (merge_from_used wall x xs refl)
