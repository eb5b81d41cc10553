-- ===== src/Kmalloc/Free.antt =====
-- What `kfree` of src/kernel/kmalloc.c does to the list: the header is marked free, and neighbours
-- that are both free are merged.
use zoho_os_chatbot.Base.{
  ℕ, ◌+◌, ◌^◌, ◌≤◌, ◌≡◌, refl, ap, false, ◌&&◌, some, List, [], ◌∷◌, ◌++◌, arith, ◌==◌, u64,
  Bool-cases, inl, inr,
}
use zoho_os_chatbot.Kmalloc.{header_size, Block, find_block, set_free, merge_from, merge}
use zoho_os_chatbot.Kmalloc.Tiling.{
  Tiled, Coalesced, used, used_bytes, used_count, Tiled-le, wall, Coalesced-tail,
}

abbrev merged : Block → Block → Block
merged c n = record c { size = u64 (c.size + (n.size + header_size)) }

merge_from-Tiled :
    (a end : ℕ) (c : Block) (bs : List Block)
    → end ≤ 2 ^ 32
    → Tiled a end (c ∷ bs)
    → Tiled a end (merge_from c bs)
unfolding merge_from
merge_from-Tiled a end c [] s t = t
merge_from-Tiled a end c (n ∷ rest) s t =
    let le = Tiled-le (a + header_size + c.size + header_size + n.size) end rest t.2.2 in
    let e : a + header_size + c.size + header_size + n.size ≡ a + header_size + (merged c n).size =
      omega arith in
    let t' : Tiled a end (merged c n ∷ rest) = (t.0, omega arith, rw e at t.2.2) in
    elim (Bool-cases (c.is_free && n.is_free)) [
      | inl both ↦ rw (both, merge_from) (merge_from-Tiled a end (merged c n) rest s t')
      | inr one ↦
          rw (one, merge_from)
            (t.0, t.1, merge_from-Tiled (a + header_size + c.size) end n rest s t.2)
    ]

merge_from-Coalesced :
    (p c : Block) (bs : List Block)
    → (p.is_free && c.is_free) ≡ false
    → Coalesced (p ∷ merge_from c bs)
unfolding merge_from
merge_from-Coalesced p c [] h = (h, tt)
merge_from-Coalesced p c (n ∷ rest) h = elim (Bool-cases (c.is_free && n.is_free)) [
  | inl both ↦ rw (both, merge_from) (merge_from-Coalesced p (merged c n) rest h)
  | inr one ↦ rw (one, merge_from) (h, merge_from-Coalesced c n rest one)
]

-- Merging takes only free blocks together.
merge_from-used :
    (c : Block) (bs : List Block)
    → (used (merge_from c bs) ≡ used (c ∷ bs))
      × (used_bytes (merge_from c bs) ≡ used_bytes (c ∷ bs))
      × (used_count (merge_from c bs) ≡ used_count (c ∷ bs))
unfolding merge_from used_bytes used_count
merge_from-used c [] = (refl, refl, refl)
merge_from-used c (n ∷ rest) = elim (Bool-cases (c.is_free && n.is_free)) [
  | inl both ↦ rw (both, merge_from) (ground (arith, merge_from-used (merged c n) rest))
  | inr one ↦ rw (one, merge_from) (ground (arith, merge_from-used n rest))
]

-- A list with no two free neighbours is left as it is.
pub merge_from_id : (c : Block) (bs : List Block) → Coalesced (c ∷ bs) → merge_from c bs ≡ c ∷ bs
unfolding merge_from
merge_from_id c [] h = refl
merge_from_id c (n ∷ rest) h = rw (h.0, merge_from) (ap (λ x. c ∷ x) (merge_from_id n rest h.1))

pub merge-Tiled :
    (a end : ℕ) (bs : List Block) → end ≤ 2 ^ 32 → Tiled a end bs → Tiled a end (merge bs)
unfolding merge
merge-Tiled a end [] s t = t
merge-Tiled a end (b ∷ bs) s t = merge_from-Tiled a end b bs s t

pub merge-Coalesced : (bs : List Block) → Coalesced (merge bs)
unfolding merge
merge-Coalesced [] = tt
merge-Coalesced (b ∷ bs) =
    Coalesced-tail wall (merge_from b bs) (merge_from-Coalesced wall b bs refl)

pub merge-used :
    (bs : List Block)
    → (used (merge bs) ≡ used bs)
      × (used_bytes (merge bs) ≡ used_bytes bs)
      × (used_count (merge bs) ≡ used_count bs)
unfolding merge
merge-used [] = (refl, refl, refl)
merge-used (b ∷ bs) = merge_from-used b bs

pub find_block-addr : (a : ℕ) (bs : List Block) (b : Block) → find_block a bs ≡ some b → b.addr ≡ a
unfolding find_block
find_block-addr a [] b e = cc
find_block-addr a (d ∷ ds) b e = ground (arith, find_block-addr a ds b)

pub set_free-Tiled : (f a end : ℕ) (bs : List Block) → Tiled a end bs → Tiled a end (set_free f bs)
unfolding set_free
set_free-Tiled f a end [] t = t
set_free-Tiled f a end (b ∷ bs) t =
    ground (arith, set_free-Tiled f (a + header_size + b.size) end bs)

-- The region that is freed, and no other, leaves the regions in use.
pub set_free-used :
    (a : ℕ) (bs : List Block) (b : Block)
    → find_block a bs ≡ some b
    → b.is_free ≡ false
    → (pre : List (ℕ × ℕ)) × (post : List (ℕ × ℕ)) × (used bs ≡ pre ++ ((b.addr, b.size) ∷ post))
      × (used (set_free a bs) ≡ pre ++ post)
unfolding find_block set_free
set_free-used a [] b e f = absurd (ground arith)
set_free-used a (d ∷ ds) b e f = elim (Bool-cases (d.addr == a)) [
  | inl y ↦ ([], used ds, ground arith, ground arith)
  | inr n ↦
      let (pre, post, u, u') = set_free-used a ds b (ground arith) f in
      elim (Bool-cases d.is_free) [
        | inl free ↦ (pre, post, ground arith, ground arith)
        | inr busy ↦ ((d.addr, d.size) ∷ pre, post, ground arith, ground arith)
      ]
]

pub set_free-sums :
    (a : ℕ) (bs : List Block) (b : Block)
    → find_block a bs ≡ some b
    → b.is_free ≡ false
    → (used_bytes (set_free a bs) + b.size ≡ used_bytes bs)
      × (used_count (set_free a bs) + 1 ≡ used_count bs)
unfolding find_block set_free used_bytes used_count
set_free-sums a [] b e f = absurd (ground arith)
set_free-sums a (d ∷ ds) b e f = ground (arith, set_free-sums a ds b)
