-- ===== src/Kmalloc/Tiling.antt =====
-- The blocks of the heap lie one after the other, and no two neighbours are both free.
use zoho_os_chatbot.Base.{
  ℕ, ◌+◌, ◌*◌, ◌%◌, ◌≤◌, ◌≡◌, refl, false, ◌&&◌, List, [], ◌∷◌, arith, length, if◌then◌else◌,
}
use zoho_os_chatbot.Kmalloc.{header_size, Block}

-- From address `a` to `end`, block by block, every size a multiple of eight.
abbrev pub Tiled : ℕ → ℕ → List Block → Type 0
Tiled a end [] = a ≡ end
Tiled a end (b ∷ bs) = (b.addr ≡ a) × (b.size % 8 ≡ 0) × Tiled (a + header_size + b.size) end bs

abbrev pub Coalesced : List Block → Type 0
Coalesced [] = Unit
Coalesced (b ∷ []) = Unit
Coalesced (b ∷ c ∷ bs) = ((b.is_free && c.is_free) ≡ false) × Coalesced (c ∷ bs)

-- The blocks in use, each with its address and size.
abbrev pub used : List Block → List (ℕ × ℕ)
used [] = []
used (b ∷ bs) = if b.is_free then used bs else (b.addr, b.size) ∷ used bs

unfoldable pub used_bytes : List Block → ℕ
used_bytes [] = 0
used_bytes (b ∷ bs) = (if b.is_free then 0 else b.size) + used_bytes bs

unfoldable pub free_bytes : List Block → ℕ
free_bytes [] = 0
free_bytes (b ∷ bs) = (if b.is_free then b.size else 0) + free_bytes bs

unfoldable pub used_count : List Block → ℕ
used_count [] = 0
used_count (b ∷ bs) = (if b.is_free then 0 else 1) + used_count bs

-- Regions in order, none overlapping the next, all between `a` and `end`.
abbrev pub Separated : ℕ → ℕ → List (ℕ × ℕ) → Type 0
Separated a end [] = a ≤ end
Separated a end (r ∷ rs) = (a ≤ r.0) × Separated (r.0 + header_size + r.1) end rs

pub Separated-weaken :
    (a b end : ℕ) (rs : List (ℕ × ℕ)) → a ≤ b → Separated b end rs → Separated a end rs
Separated-weaken a b end [] h s = omega arith
Separated-weaken a b end (r ∷ rs) h s = (omega arith, s.1)

pub Tiled-le : (a end : ℕ) (bs : List Block) → Tiled a end bs → a ≤ end
Tiled-le a end [] t = omega arith
Tiled-le a end (b ∷ bs) t = omega (arith, Tiled-le (a + header_size + b.size) end bs t.2)

pub Tiled-Separated : (a end : ℕ) (bs : List Block) → Tiled a end bs → Separated a end (used bs)
Tiled-Separated a end [] t = omega arith
Tiled-Separated a end (b ∷ bs) t = ground (
  arith,
  Tiled-Separated (a + header_size + b.size) end bs,
  Separated-weaken a (a + header_size + b.size) end (used bs),
)

-- Every byte of the heap is in a header, in use or free.
pub Tiled-bytes :
    (a end : ℕ) (bs : List Block)
    → Tiled a end bs
    → a + used_bytes bs + free_bytes bs + header_size * length bs ≡ end
unfolding used_bytes free_bytes
Tiled-bytes a end [] t = omega arith
Tiled-bytes a end (b ∷ bs) t = ground (arith, Tiled-bytes (a + header_size + b.size) end bs)

pub used_count-le : (bs : List Block) → used_count bs ≤ length bs
unfolding used_count
used_count-le [] = omega arith
used_count-le (b ∷ bs) = ground (arith, used_count-le bs)

-- A used block put in front of a list.
abbrev pub wall : Block
wall = record { addr = 0; size = 0; is_free = false }

pub Coalesced-wall : (bs : List Block) → Coalesced bs → Coalesced (wall ∷ bs)
Coalesced-wall [] c = tt
Coalesced-wall (b ∷ bs) c = (refl, c)

pub Coalesced-tail : (b : Block) (bs : List Block) → Coalesced (b ∷ bs) → Coalesced bs
Coalesced-tail b [] c = tt
Coalesced-tail b (d ∷ ds) c = c.1
