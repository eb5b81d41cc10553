-- ===== src/Ext2/Reading.antt =====
-- Blocks and files of src/kernel/ext2.c against the bytes on the disk.
use zoho_os_chatbot.Base.{
  ℕ, zero, suc, ◌+◌, ◌-◌, ◌*◌, ◌/◌, ◌%◌, ◌^◌, ◌<◌, ◌≤◌, ◌≡◌, ◌⊎◌, refl, sym, ap, ◌∙◌, true, false,
  ◌&&◌, ltb, leb, ◌==◌, if◌then◌else◌, u32, min, max, arith, Bool-cases, inl, inr,
}
use zoho_os_chatbot.Ext2.{
  Volume, Inode, read_sectors, read_block, read_piece, to_read, read_blocks, read_size, read_file,
}
use zoho_os_chatbot.Vfs.{Bytes, copy}

read_sectors_lem :
    (n : ℕ) (ss : ℕ → Bytes) (first i : ℕ) (buffer : Bytes) (j : ℕ)
    → read_sectors n ss first i buffer j ≡ (
        if leb (i * 512) j && ltb j ((i + n) * 512)
        then ss (u32 (first + j / 512)) (j % 512)
        else buffer j)
unfolding read_sectors
read_sectors_lem zero ss first i buffer j =
    let out : (leb (i * 512) j && ltb j ((i + 0) * 512)) ≡ false = ground arith in rw out refl
read_sectors_lem (suc n) ss first i buffer j =
    let next = copy buffer (i * 512) (ss (u32 (first + i))) 0 512 in
    read_sectors_lem n ss first (suc i) next j
    ∙ elim (Bool-cases (leb (suc i * 512) j && ltb j ((suc i + n) * 512))) [
      | inl y ↦
          let w : (leb (i * 512) j && ltb j ((i + suc n) * 512)) ≡ true = ground arith in
          rw (y, w) refl
      | inr o ↦ rw o (elim (Bool-cases (leb (i * 512) j && ltb j (i * 512 + 512))) [
        | inl here ↦
            let w : (leb (i * 512) j && ltb j ((i + suc n) * 512)) ≡ true = ground arith in
            let q : j / 512 ≡ i = ground arith in
            let r : 0 + (j - i * 512) ≡ j % 512 = ground arith in rw (here, w, q, r) refl
        | inr past ↦
            let w : (leb (i * 512) j && ltb j ((i + suc n) * 512)) ≡ false = ground arith in
            rw (past, w) refl
      ])
    ]

-- The sizes of blocks that Ext2 has, and what the arithmetic on them needs: `limit` is where the
-- twelve blocks end that an inode names itself.
pub record Geometry (size limit : ℕ) : Type 0 where
  pub inside : (k : ℕ) → k % size < size
  pub direct : (k : ℕ) → ltb (k / size) 12 ≡ ltb k limit
  pub whole : (k : ℕ) → k < limit → k + (size - k % size) ≤ limit
  pub same :
      (k i : ℕ)
      → i < size - k % size
      → ((k + i) / size ≡ k / size) × ((k + i) % size ≡ k % size + i)
  pub sectors : size / 512 * 512 ≡ size

pub Geometry-1024 : Geometry 1024 12288
Geometry-1024 = record {
  inside = λ k. omega arith;
  direct = λ k. ground arith;
  whole = λ k h. omega arith;
  same = λ k i h. (omega arith, omega arith);
  sectors = refl;
}

pub Geometry-2048 : Geometry 2048 24576
Geometry-2048 = record {
  inside = λ k. omega arith;
  direct = λ k. ground arith;
  whole = λ k h. omega arith;
  same = λ k i h. (omega arith, omega arith);
  sectors = refl;
}

pub Geometry-4096 : Geometry 4096 49152
Geometry-4096 = record {
  inside = λ k. omega arith;
  direct = λ k. ground arith;
  whole = λ k h. omega arith;
  same = λ k i h. (omega arith, omega arith);
  sectors = refl;
}

-- The byte of a file at `k`: zero in a block that is missing, else that of the disk.
pub file_byte : Volume → Inode → ℕ → ℕ
file_byte v inode k =
    let block = inode.block (k / v.block_size) in
    let at = k % v.block_size in
    if block == 0 then 0 else v.sectors (u32 (block * (v.block_size / 512) + at / 512)) (at % 512)

block_byte :
    (v : Volume) (limit block j : ℕ) (buffer : Bytes)
    → Geometry v.block_size limit
    → j < v.block_size
    → read_block v block buffer j
      ≡ v.sectors (u32 (block * (v.block_size / 512) + j / 512)) (j % 512)
unfolding read_block
block_byte v limit block j buffer g h =
    let spb = v.block_size / 512 in
    let w : (leb (0 * 512) j && ltb j ((0 + spb) * 512)) ≡ true = ground (arith, g.sectors) in
    read_sectors_lem spb v.sectors (block * spb) 0 buffer j ∙ rw w refl

-- One round of the loop puts the bytes of one block in place.
read_piece_lem :
    (v : Volume) (limit : ℕ) (inode : Inode) (heap : Bytes) (at done n i : ℕ) (buffer : Bytes)
    → Geometry v.block_size limit
    → n ≤ v.block_size - at % v.block_size
    → i < n
    → read_piece v inode heap at done n buffer (done + i) ≡ file_byte v inode (at + i)
unfolding read_piece file_byte
read_piece_lem v limit inode heap at done n i buffer g b h =
    let (q, r) = g.same at i (omega arith) in
    let block = inode.block (at / v.block_size) in
    let in_block : at % v.block_size + i < v.block_size = omega arith in
    let stored = block_byte v limit block (at % v.block_size + i) heap g in_block in
    let here : (leb done (done + i) && ltb (done + i) (done + n)) ≡ true = ground arith in
    let off : done + i - done ≡ i = omega arith in
    elim (Bool-cases (block == 0)) [
      | inl y ↦ rw (q, r, y, here) refl
      | inr z ↦ rw (q, r, z, here, off, stored) refl
    ]

read_piece-outside :
    (v : Volume) (inode : Inode) (heap : Bytes) (at done n i : ℕ) (buffer : Bytes)
    → (i < done) ⊎ (done + n ≤ i)
    → read_piece v inode heap at done n buffer i ≡ buffer i
unfolding read_piece
read_piece-outside v inode heap at done n i buffer o =
    let out : (leb done i && ltb i (done + n)) ≡ false = ground (arith, o) in
    elim (Bool-cases (inode.block (at / v.block_size) == 0)) [
      | inl y ↦ rw (y, out) refl
      | inr z ↦ rw (z, out) refl
    ]

-- From the index `done` to the result the buffer holds the bytes of the file from `offset` on; the
-- rest is as before.
pub record Read (v : Volume) (inode : Inode) (offset done count : ℕ) (old : Bytes) (r : ℕ × Bytes)
    : Type 0 where
  pub result : r.0 ≡ count
  pub inside : (i : ℕ) → done ≤ i → i < count → r.1 i ≡ file_byte v inode (offset + i)
  pub outside : (i : ℕ) → (i < done) ⊎ (count ≤ i) → r.1 i ≡ old i

read_blocks_lem :
    (fuel : ℕ) (v : Volume) (limit : ℕ) (inode : Inode) (heap : Bytes) (offset size done : ℕ)
    (buffer : Bytes)
    → Geometry v.block_size limit
    → size - done ≤ fuel
    → done ≤ size
    → offset + size < 2 ^ 32
    → Read v inode offset done
        (max done (min size (limit - offset)))
        buffer
        (read_blocks fuel v inode heap offset size done buffer)
unfolding read_blocks
read_blocks_lem zero v limit inode heap offset size done buffer g f le b = record {
  result = omega arith;
  inside = λ i lo hi. absurd (omega arith);
  outside = λ i o. refl;
}
read_blocks_lem (suc fuel) v limit inode heap offset size done buffer g f le b =
    let at = u32 (offset + done) in
    let wrap : at ≡ offset + done = omega arith in
    let d = g.direct at in
    elim (Bool-cases (ltb done size && ltb at limit)) [
      | inr stop ↦
          let e : max done (min size (limit - offset)) ≡ done = ground arith in
          rw (read_blocks, d, stop, e)
            (record {
              result = refl;
              inside = λ i lo hi. absurd (omega arith);
              outside = λ i o. refl;
            })
      | inl go ↦
          let n = to_read v at (size - done) in
          let in_block = g.inside at in
          let below : at < limit = ground arith in
          let whole = g.whole at below in
          let pos : 0 < n = ground arith in
          let small : n ≤ v.block_size - at % v.block_size = ground arith in
          let left : n ≤ size - done = ground arith in
          let next = read_piece v inode heap at done n buffer in
          let r =
            read_blocks_lem fuel v limit inode heap offset size (done + n) next g (omega arith)
              (omega arith) b in
          let e : max done (min size (limit - offset))
              ≡ max (done + n) (min size (limit - offset)) =
            omega arith in
          rw (read_blocks, d, go, e)
            (record {
              result = r.result;
              inside = λ i lo hi. elim (Bool-cases (ltb i (done + n))) [
                | inl y ↦
                    let split : done + (i - done) ≡ i = omega arith in
                    let k : at + (i - done) ≡ offset + i = omega arith in
                    let p =
                      read_piece_lem v limit inode heap at done n (i - done) buffer g small
                        (ground arith) in
                    r.outside i (inl (ground arith))
                    ∙ ap next (sym split)
                    ∙ p
                    ∙ ap (file_byte v inode) k
                | inr z ↦ r.inside i (ground arith) hi
              ];
              outside = λ i o.
                  r.outside i
                    (elim o [ inl lo ↦ inl (omega arith) | inr hi ↦ inr (omega (arith, e)) ])
                  ∙ read_piece-outside v inode heap at done n i buffer
                      (elim o [ inl lo ↦ inl lo | inr hi ↦ inr (omega (arith, e)) ]);
            })
    ]

-- `ext2_read` on an inode: for a block size of Ext2 and no overflow of the end it returns as many
-- bytes as were wanted, as the file has from the offset on, and as its first twelve blocks have,
-- whichever is least, and the buffer holds them, zeros where a block is missing, and is otherwise as
-- before.
pub read_file_lem :
    (v : Volume) (limit : ℕ) (inode : Inode) (heap : Bytes) (offset size : ℕ) (buffer : Bytes)
    → Geometry v.block_size limit
    → inode.size < 2 ^ 32
    → offset + size < 2 ^ 32
    → Read v inode offset 0
        (min (min size (inode.size - offset)) (limit - offset))
        buffer
        (read_file v inode heap offset size buffer)
unfolding read_file
read_file_lem v limit inode heap offset size buffer g s b =
    elim (Bool-cases (leb inode.size offset)) [
      | inl y ↦
          let e : min (min size (inode.size - offset)) (limit - offset) ≡ 0 = ground arith in
          rw (y, e)
            (record {
              result = refl;
              inside = λ i lo hi. absurd (omega arith);
              outside = λ i o. refl;
            })
      | inr z ↦
          let n = read_size inode offset size in
          let m : n ≡ min size (inode.size - offset) = ground arith in
          let r =
            read_blocks_lem n v limit inode heap offset n 0 buffer g (omega arith) (omega arith)
              (omega (arith, m)) in
          let e : min (min size (inode.size - offset)) (limit - offset)
              ≡ max 0 (min n (limit - offset)) =
            omega (arith, m) in
          rw (z, e) r
    ]
