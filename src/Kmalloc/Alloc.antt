-- ===== src/Kmalloc/Alloc.antt =====
-- The block that the loop of `kmalloc` (src/kernel/kmalloc.c) takes, and the list that it leaves.
use zoho_os_chatbot.Base.{
  ℕ, ◌+◌, ◌-◌, ◌%◌, ◌^◌, ◌≤◌, ◌<◌, ◌≡◌, true, false, ◌&&◌, none, some, List, [], ◌∷◌, ◌++◌, arith,
  leb, u64, Bool-cases, Option-cases, inl, inr, All,
}
use zoho_os_chatbot.Kmalloc.{header_size, Block, Taken, take_block, keep_block, first_fit}
use zoho_os_chatbot.Kmalloc.Tiling.{
  Tiled, Coalesced, used, used_bytes, used_count, Tiled-le, wall, Coalesced-wall, Coalesced-tail,
}

-- The first block that is free and large enough.
pub data FirstFit (size : ℕ) : List Block → Taken → Type 0 where
  here :
      {b : Block} {rest : List Block}
      → (b.is_free && leb size b.size) ≡ true
      → FirstFit size (b ∷ rest) (take_block size b rest)
  there :
      {b : Block} {rest : List Block} {t : Taken}
      → (b.is_free && leb size b.size) ≡ false
      → FirstFit size rest t
      → FirstFit size (b ∷ rest) (record t { blocks = b ∷ t.blocks })

pub first_fit-FirstFit :
    (size : ℕ) (bs : List Block) (t : Taken) → first_fit size bs ≡ some t → FirstFit size bs t
unfolding first_fit keep_block
first_fit-FirstFit size [] t e = cc
first_fit-FirstFit size (b ∷ rest) t e = elim (Bool-cases (b.is_free && leb size b.size)) [
  | inl y ↦ let same : take_block size b rest ≡ t = ground arith in rw (← same) (here y)
  | inr n ↦ elim (Option-cases (first_fit size rest)) [
    | inl e' ↦ absurd (ground arith)
    | inr (u, e') ↦
        let same : (record u { blocks = b ∷ u.blocks }) ≡ t = ground arith in
        rw (← same) (there n (first_fit-FirstFit size rest u e'))
  ]
]

-- The loop finds nothing only if no free block is large enough.
pub first_fit-none :
    (size : ℕ) (bs : List Block)
    → first_fit size bs ≡ none
    → All (λ b. b.is_free ≡ true → b.size < size) bs
unfolding first_fit keep_block
first_fit-none size [] e = tt
first_fit-none size (b ∷ rest) e = elim (Option-cases (first_fit size rest)) [
  | inl e' ↦ (λ f. ground arith, first_fit-none size rest e')
  | inr (u, e') ↦ absurd (ground arith)
]

module _ (size end : ℕ) (small : end ≤ 2 ^ 32) where
  take_block-Tiled :
      (a : ℕ) (b : Block) (rest : List Block)
      → size % 8 ≡ 0
      → (b.is_free && leb size b.size) ≡ true
      → Tiled a end (b ∷ rest)
      → Tiled a end (take_block size b rest).blocks
  unfolding take_block
  take_block-Tiled a b rest m h t =
      let le = Tiled-le (a + header_size + b.size) end rest t.2 in
      let fits : size ≤ b.size = ground arith in
      elim (Bool-cases (leb (u64 (size + header_size + 8)) b.size)) [
        | inl y ↦
            let room : size + header_size + 8 ≤ b.size = ground arith in
            let e : a + header_size + size + header_size + (b.size - size - header_size)
                ≡ a + header_size + b.size =
              omega arith in
            rw y (t.0, m, (omega arith, omega arith, rw e t.2))
        | inr n ↦ rw n t
      ]

  pub FirstFit-Tiled :
      (a : ℕ) {bs : List Block} {t : Taken}
      → size % 8 ≡ 0
      → FirstFit size bs t
      → Tiled a end bs
      → Tiled a end t.blocks
  FirstFit-Tiled a m (here {b} {rest} y) h = take_block-Tiled a b rest m y h
  FirstFit-Tiled a m (there {b} n f) h =
      (h.0, h.1, FirstFit-Tiled (a + header_size + b.size) m f h.2)

  -- The block fits the request, wastes at most 31 bytes, and lies in the heap.
  pub record Serves (a : ℕ) (t : Taken) : Type 0 where
    pub in_use : t.block.is_free ≡ false
    pub enough : size ≤ t.block.size
    pub waste : t.block.size < size + header_size + 8
    pub above : a ≤ t.block.addr
    pub below : t.block.addr + header_size + t.block.size ≤ end
    pub aligned : t.block.addr % 8 ≡ a % 8

  pub FirstFit-Serves :
      (a : ℕ) {bs : List Block} {t : Taken} → FirstFit size bs t → Tiled a end bs → Serves a t
  unfolding take_block
  FirstFit-Serves a (here {b} {rest} y) h =
      ground (arith, Tiled-le (a + header_size + b.size) end rest)
  FirstFit-Serves a (there {b} {rest} {t} n f) h =
      let s = FirstFit-Serves (a + header_size + b.size) f h.2 in
      record {
        in_use = s.in_use;
        enough = s.enough;
        waste = s.waste;
        above = omega (arith, s.above);
        below = s.below;
        aligned = omega (arith, s.aligned);
      }

take_block-Coalesced :
    (size : ℕ) (p b : Block) (rest : List Block)
    → (b.is_free && leb size b.size) ≡ true
    → Coalesced (p ∷ b ∷ rest)
    → Coalesced (p ∷ (take_block size b rest).blocks)
unfolding take_block
take_block-Coalesced size p b [] h c = ground arith
take_block-Coalesced size p b (d ∷ ds) h c = ground arith

FirstFit-Coalesced_after :
    {size : ℕ} (p : Block) {bs : List Block} {t : Taken}
    → FirstFit size bs t
    → Coalesced (p ∷ bs)
    → Coalesced (p ∷ t.blocks)
FirstFit-Coalesced_after {size} p (here {b} {rest} y) c = take_block-Coalesced size p b rest y c
FirstFit-Coalesced_after p (there {b} n f) c = (c.0, FirstFit-Coalesced_after b f c.1)

pub FirstFit-Coalesced :
    {size : ℕ} {bs : List Block} {t : Taken}
    → FirstFit size bs t
    → Coalesced bs
    → Coalesced t.blocks
FirstFit-Coalesced {bs} {t} f c =
    Coalesced-tail wall t.blocks (FirstFit-Coalesced_after wall f (Coalesced-wall bs c))

-- The regions in use stay, and one is added among them.
pub FirstFit-used :
    {size : ℕ} {bs : List Block} {t : Taken}
    → FirstFit size bs t
    → (pre : List (ℕ × ℕ)) × (post : List (ℕ × ℕ)) × (used bs ≡ pre ++ post)
      × (used t.blocks ≡ pre ++ ((t.block.addr, t.block.size) ∷ post))
unfolding take_block
FirstFit-used (here {b} {rest} y) = ([], used rest, ground arith, ground arith)
FirstFit-used (there {b} {rest} {t} n f) =
    let (pre, post, e, e') = FirstFit-used f in
    elim (Bool-cases b.is_free) [
      | inl free ↦ (pre, post, ground arith, ground arith)
      | inr busy ↦ ((b.addr, b.size) ∷ pre, post, ground arith, ground arith)
    ]

pub FirstFit-sums :
    {size : ℕ} {bs : List Block} {t : Taken}
    → FirstFit size bs t
    → (used_bytes t.blocks ≡ used_bytes bs + t.block.size)
      × (used_count t.blocks ≡ used_count bs + 1)
unfolding take_block used_bytes used_count
FirstFit-sums (here y) = (ground arith, ground arith)
FirstFit-sums (there n f) = (ground (arith, FirstFit-sums f), ground (arith, FirstFit-sums f))
