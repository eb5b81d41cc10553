-- ===== src/Ext2.antt =====
-- The Ext2 reader of src/kernel/ext2.c with the layouts of include/kernel/ext2.h. The disk is a
-- function from sectors to bytes; a buffer from kmalloc holds what was there before.
pub mod Reading
pub mod Directory
mod Tests
use zoho_os_chatbot.Base.{
  ℕ, zero, suc, ◌+◌, ◌-◌, ◌*◌, ◌/◌, ◌%◌, ◌^◌, Bool, true, false, not, ◌&&◌, Option, none, some, ltb,
  leb, ◌==◌, if◌then◌else◌, u32, test_bit,
}
use zoho_os_chatbot.Net.Wire.{load16, load32}
use zoho_os_chatbot.Vfs.{Bytes, copy}

-- The disk, `block_size` and `inodes_per_group` of the superblock.
pub record Volume : Type 0 where
  pub sectors : ℕ → Bytes
  pub block_size : ℕ
  pub inodes_per_group : ℕ

-- The loop of `read_block`, from sector `i` of the block on.
unfoldable pub read_sectors : ℕ → (ℕ → Bytes) → ℕ → ℕ → Bytes → Bytes
read_sectors zero ss first i buffer = buffer
read_sectors (suc n) ss first i buffer =
    read_sectors n ss first (suc i) (copy buffer (i * 512) (ss (u32 (first + i))) 0 512)

unfoldable pub read_block : Volume → ℕ → Bytes → Bytes
unfolding read_sectors
read_block v block buffer =
    let sectors_per_block = v.block_size / 512 in
    read_sectors sectors_per_block v.sectors (block * sectors_per_block) 0 buffer

-- The fields of an `ext2_inode_t` that are used.
pub record Inode : Type 0 where
  pub mode : ℕ
  pub size : ℕ
  pub block : ℕ → ℕ

abbrev pub inode_at : Bytes → ℕ → Inode
inode_at d i = record {
  mode = load16 d i;
  size = load32 d (i + 4);
  block = λ k. load32 d (i + 40 + 4 * k);
}

-- The table of the group that an inode belongs to, and `read_inode`.
abbrev pub inode_table : Volume → Bytes → ℕ → ℕ
inode_table v heap group =
    let bgdt_block = if v.block_size == 1024 then 2 else 1 in
    load32 (read_block v bgdt_block heap) (group * 32 + 8)

pub read_inode : Volume → Bytes → ℕ → Inode
read_inode v heap inode_num =
    let group = (inode_num - 1) / v.inodes_per_group in
    let offset = u32 ((inode_num - 1) % v.inodes_per_group * 128) in
    let block = u32 (inode_table v heap group + offset / v.block_size) in
    inode_at (read_block v block heap) (offset % v.block_size)

-- One round of the loop of `ext2_read`: the bytes of one block. A block that is missing is zeros.
abbrev pub to_read : Volume → ℕ → ℕ → ℕ
to_read v at left =
    let room = v.block_size - at % v.block_size in if ltb left room then left else room

unfoldable pub read_piece : Volume → Inode → Bytes → ℕ → ℕ → ℕ → Bytes → Bytes
read_piece v inode heap at done n buffer =
    let physical = inode.block (at / v.block_size) in
    if physical == 0
    then copy buffer done (λ _. 0) 0 n
    else copy buffer done (read_block v physical heap) (at % v.block_size) n

-- The loop: the rounds left, the offset, the bytes wanted, those read so far, and the buffer. From the
-- twelfth block on it breaks.
unfoldable pub read_blocks : ℕ → Volume → Inode → Bytes → ℕ → ℕ → ℕ → Bytes → ℕ × Bytes
unfolding read_piece
read_blocks zero v inode heap offset size done buffer = (done, buffer)
read_blocks (suc fuel) v inode heap offset size done buffer =
    elim (ltb done size && ltb (u32 (offset + done) / v.block_size) 12) [
      | false ↦ (done, buffer)
      | true ↦
          let at = u32 (offset + done) in
          let n = to_read v at (size - done) in
          read_blocks fuel v inode heap offset size (done + n)
            (read_piece v inode heap at done n buffer)
    ]

-- `ext2_read` on an inode; each round reads one byte at least.
abbrev pub read_size : Inode → ℕ → ℕ → ℕ
read_size inode offset size =
    if ltb inode.size (u32 (offset + size)) then inode.size - offset else size

unfoldable pub read_file : Volume → Inode → Bytes → ℕ → ℕ → Bytes → ℕ × Bytes
unfolding read_blocks
read_file v inode heap offset size buffer =
    let n = read_size inode offset size in
    if leb inode.size offset then (0, buffer) else read_blocks n v inode heap offset n 0 buffer

pub ext2_read : Volume → Bytes → ℕ → ℕ → ℕ → Bytes → ℕ × Bytes
unfolding read_file read_inode
ext2_read v heap inode_num offset size buffer =
    read_file v (read_inode v heap inode_num) heap offset size buffer
