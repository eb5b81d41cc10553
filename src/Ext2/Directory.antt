-- ===== src/Ext2/Directory.antt =====
-- The search of a directory in src/kernel/ext2.c, with `strcmp` of src/kernel/string.c.
use zoho_os_chatbot.Base.{
  List, [], ◌∷◌, ◌++◌, All, ℕ, zero, suc, ◌+◌, ◌-◌, ◌^◌, ◌<◌, ◌≤◌, ◌≡◌, refl, ap, ◌∙◌, Bool, true,
  false, ltb, ◌==◌, if◌then◌else◌, u32, test_bit, arith, Bool-cases, inl, inr,
}
use zoho_os_chatbot.Ext2.{Volume, Inode, read_block, read_inode}
use zoho_os_chatbot.Net.Wire.{load16, load32}
use zoho_os_chatbot.Vfs.Tar.{strcmp}
use zoho_os_chatbot.Vfs.{Bytes}

-- The node that is returned, NULL, or a loop that is still running.
pub data Search : Type 0 where
  found : (inode : ℕ) → (is_directory : Bool) → Search
  missing : Search
  running : Search

-- The entry at `at`: its name with the final 0, and whether it is the one that is looked for.
abbrev pub entry_name : Bytes → ℕ → Bytes
entry_name d at k = if ltb k (d (at + 6)) then d (at + 8 + k) else 0

abbrev pub is_named : Bytes → ℕ → Bytes → Bool
is_named d at name = let c = strcmp 256 (entry_name d at) name in c.0 == c.1

-- The loop over the entries of one block; a name has fewer than 256 characters.
unfoldable pub search_block : ℕ → Bytes → ℕ → Bytes → ℕ → Search
search_block zero d size name at = running
search_block (suc fuel) d size name at = elim (ltb at size) [
  | false ↦ missing
  | true ↦ elim (is_named d at name) [
    | true ↦ found (load32 d at) (d (at + 7) == 2)
    | false ↦ search_block fuel d size name (u32 (at + load16 d (at + 4)))
  ]
]

-- The loop over the twelve blocks, from the `i`th on.
search_blocks : ℕ → ℕ → Volume → Bytes → Inode → Bytes → ℕ → Search
unfolding search_block
search_blocks zero fuel v heap inode name i = missing
search_blocks (suc n) fuel v heap inode name i =
    let rest = search_blocks n fuel v heap inode name (suc i) in
    let here = search_block fuel (read_block v (inode.block i) heap) v.block_size name 0 in
    if inode.block i == 0
    then rest
    else elim here [ missing ↦ rest | found n d ↦ found n d | running ↦ running ]

-- `ext2_finddir`, with the rounds that each block is given.
pub ext2_finddir : ℕ → Volume → Bytes → ℕ → Bytes → Search
unfolding search_blocks
ext2_finddir fuel v heap inode_num name =
    let inode = read_inode v heap inode_num in
    if test_bit inode.mode 14 then search_blocks 12 fuel v heap inode name 0 else missing

-- The entries of a block from the offset `at` on stand at `os`: each has a length, which leads to the
-- next, and the last one leads to the end of the block or behind it.
abbrev pub IsChain : Bytes → ℕ → ℕ → List ℕ → Type 0
IsChain d size at [] = size ≤ at
IsChain d size at (o ∷ os) =
    (o ≡ at)
    × (at < size)
    × (1 ≤ load16 d (at + 4))
    × (at + load16 d (at + 4) < 2 ^ 32)
    × IsChain d size (at + load16 d (at + 4)) os

-- The answer of a search among the entries at `os`: the first of the name, or none if no entry has it.
abbrev pub Answers : Bytes → Bytes → List ℕ → Search → Type 0
Answers d name os missing = All (λ o. is_named d o name ≡ false) os
Answers d name os (found n dir) =
    (pre : List ℕ) × (o : ℕ) × (post : List ℕ) × (os ≡ pre ++ (o ∷ post))
    × All (λ p. is_named d p name ≡ false) pre
    × (is_named d o name ≡ true)
    × (n ≡ load32 d o)
    × (dir ≡ (d (o + 7) == 2))
Answers d name os running = ⊥

Answers-later :
    (d name : Bytes) (o : ℕ) (os : List ℕ) (r : Search)
    → is_named d o name ≡ false
    → Answers d name os r
    → Answers d name (o ∷ os) r
Answers-later d name o os missing n a = (n, a)
Answers-later d name o os (found i dir) n (pre, q, post, e, a, m, f, g) =
    (o ∷ pre, q, post, ap (λ xs. o ∷ xs) e, (n, a), m, f, g)
Answers-later d name o os running n a = a

-- In a block whose entries from an offset on each have a length that leads to the next, and the last one
-- to the end of the block or behind it, and in at most as many rounds as bytes are left, and one, the
-- search from there ends: with the number and the kind of the first entry of the name, or without a
-- node if no entry has the name.
pub search_block_lem :
    (d : Bytes) (size : ℕ) (name : Bytes) (fuel at : ℕ) (os : List ℕ)
    → IsChain d size at os
    → size - at < fuel
    → Answers d name os (search_block fuel d size name at)
unfolding search_block
search_block_lem d size name zero at os c f = absurd (omega arith)
search_block_lem d size name (suc fuel) at [] c f =
    let past : ltb at size ≡ false = ground arith in rw (search_block, past) tt
search_block_lem d size name (suc fuel) at (o ∷ os) (e, lt, one, small, c) f =
    let inside : ltb at size ≡ true = ground arith in
    let next : u32 (at + load16 d (at + 4)) ≡ at + load16 d (at + 4) = omega (arith, small) in
    let r = search_block_lem d size name fuel (at + load16 d (at + 4)) os c (omega (arith, one)) in
    elim (Bool-cases (is_named d at name))
      as (λ _. Answers d name (o ∷ os) (search_block (suc fuel) d size name at)) [
        | inl named ↦ rw (search_block, inside, named, e) ([], at, os, refl, tt, named, refl, refl)
        | inr other ↦
            rw (search_block, inside, other, next)
              (Answers-later d name o os (search_block fuel d size name (at + load16 d (at + 4)))
                (ap (λ p. is_named d p name) e ∙ other) r)
      ]

-- At an entry of another name whose length is 0 the search goes round for ever.
pub search_hangs :
    (d : Bytes) (size : ℕ) (name : Bytes) (fuel at : ℕ)
    → size < 2 ^ 32
    → at < size
    → is_named d at name ≡ false
    → load16 d (at + 4) ≡ 0
    → search_block fuel d size name at ≡ running
unfolding search_block
search_hangs d size name zero at b l n z = refl
search_hangs d size name (suc fuel) at b l n z =
    let y : ltb at size ≡ true = ground arith in
    let stay : u32 (at + load16 d (at + 4)) ≡ at = omega (arith, z) in
    rw (search_block, y, n, stay) (search_hangs d size name fuel at b l n z)
