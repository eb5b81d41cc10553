-- ===== src/Vfs.antt =====
-- The descriptors of src/kernel/vfs.c and the sectors that they lead to, with the one-sector cache of
-- src/kernel/tar.c. Sectors are functions from the byte's index; the buffer of a caller is one too.
pub mod Copying
pub mod Reading
pub mod Writing
mod Wrapping
pub mod Descriptors
pub mod Tar
pub mod Archive
mod Tests
use zoho_os_chatbot.Base.{
  ℕ, zero, suc, ◌+◌, ◌-◌, ◌*◌, ◌/◌, ◌%◌, ◌^◌, Bool, true, false, not, ◌&&◌, ◌||◌, Option, none,
  some, ltb, leb, ◌==◌, if◌then◌else◌, u32, update,
}

abbrev pub Bytes : Type 0
Bytes = ℕ → ℕ

-- `memcpy(to + d, from + s, n)` on ranges that do not overlap.
abbrev pub copy : Bytes → ℕ → Bytes → ℕ → ℕ → Bytes
copy to d from s n i = if leb d i && ltb i (d + n) then from (s + (i - d)) else to i

-- The disk, and `cache` of tar.c.
pub record Disk : Type 0 where
  pub sectors : ℕ → Bytes
  pub cache_valid : Bool
  pub cache_lba : ℕ
  pub cache_data : Bytes

unfoldable pub cached_read_sector : Disk → ℕ → Bytes × Disk
cached_read_sector d lba =
    let filled : Disk = record d {
      cache_data = d.sectors lba;
      cache_lba = lba;
      cache_valid = true;
    } in
    if d.cache_valid && (d.cache_lba == lba) then (d.cache_data, d) else (d.sectors lba, filled)

pub cached_write_sector : Disk → ℕ → Bytes → Disk
cached_write_sector d lba b = record {
  sectors = update d.sectors lba b;
  cache_valid = true;
  cache_lba = lba;
  cache_data = b;
}

-- `fd_t`
pub record Fd : Type 0 where
  pub in_use : Bool
  pub start_lba : ℕ
  pub size : ℕ
  pub offset : ℕ

abbrev pub max_fds : ℕ
max_fds = 16

abbrev pub sector_size : ℕ
sector_size = 512

-- The bytes of one round of a transfer: to the end of the sector, or fewer if fewer are left.
abbrev pub chunk : ℕ → ℕ → ℕ
chunk offset left =
    let room = sector_size - offset % sector_size in if ltb left room then left else room

-- The loop of `vfs_read`: the fuel, the sectors, the first sector, the offset, the bytes read so
-- far, the bytes wanted and the buffer.
pub read_loop : ℕ → (ℕ → Bytes) → ℕ → ℕ → ℕ → ℕ → Bytes → ℕ × Bytes
read_loop zero ss start offset done count buf = (done, buf)
read_loop (suc fuel) ss start offset done count buf = elim (ltb done count) [
  | false ↦ (done, buf)
  | true ↦
      let sector = ss (u32 (start + offset / sector_size)) in
      let n = chunk offset (count - done) in
      let next : Bytes =
        if (offset % sector_size == 0) && (n == sector_size)
        then copy buf done sector 0 sector_size
        else copy buf done sector (offset % sector_size) n in
      read_loop fuel ss start (u32 (offset + n)) (u32 (done + n)) count next
]

-- The loop of `vfs_write`.
pub write_loop : ℕ → Disk → ℕ → ℕ → ℕ → ℕ → Bytes → ℕ × Disk
unfolding cached_write_sector
write_loop zero d start offset done count buf = (done, d)
write_loop (suc fuel) d start offset done count buf = elim (ltb done count) [
  | false ↦ (done, d)
  | true ↦
      let lba = u32 (start + offset / sector_size) in
      let n = chunk offset (count - done) in
      let sector : Bytes = copy (d.sectors lba) (offset % sector_size) buf done n in
      write_loop fuel (cached_write_sector d lba sector) start (u32 (offset + n)) (u32 (done + n))
        count buf
]

-- The descriptors, with the disk.
pub record Vfs : Type 0 where
  pub fds : ℕ → Fd
  pub disk : Disk

-- The loop of `vfs_open` over the descriptors: the rounds left and the index.
pub free_fd : ℕ → ℕ → (ℕ → Fd) → Option ℕ
free_fd zero i fds = none
free_fd (suc n) i fds = if not (fds i).in_use then some i else free_fd n (suc i) fds

-- `vfs_open` of a file that was found at the sector `lba` with this size; `none` is the result -1.
abbrev pub open_at : Vfs → ℕ → ℕ → Option ℕ → Option ℕ × Vfs
open_at v lba size none = (none, v)
open_at v lba size (some i) = (
  some i,
  record v {
    fds = update v.fds i (record { in_use = true; start_lba = lba; size = size; offset = 0 });
  },
)

pub vfs_open : Vfs → Option (ℕ × ℕ) → Option ℕ × Vfs
unfolding free_fd
vfs_open v none = (none, v)
vfs_open v (some (lba, size)) = open_at v lba size (free_fd max_fds 0 v.fds)

-- A descriptor that the code accepts; a negative one is not.
abbrev pub usable : Vfs → ℕ → Bool
usable v fd = ltb fd max_fds && (v.fds fd).in_use

-- The result, the buffer and the new state.
pub record Transfer : Type 0 where
  pub result : Option ℕ
  pub buffer : Bytes
  pub vfs : Vfs

abbrev pub advance : Vfs → ℕ → ℕ → Vfs
advance v fd n =
    let f = v.fds fd in
    record v { fds = update v.fds fd (record f { offset = u32 (f.offset + n) }) }

-- The bytes that a read and a write transfer.
pub read_count : Fd → ℕ → ℕ
read_count f count =
    if leb f.size f.offset
    then 0
    else if ltb (f.size - f.offset) count
    then f.size - f.offset
    else count

-- `f->size - f->offset` is taken modulo 2^32.
pub write_count : Fd → ℕ → ℕ
write_count f count =
    if ltb f.size (u32 (f.offset + count)) then u32 (f.size + 2 ^ 32 - f.offset) else count

pub vfs_read : Vfs → ℕ → Bytes → ℕ → Transfer
unfolding read_count read_loop
vfs_read v fd buf count =
    let f = v.fds fd in
    let n = read_count f count in
    let r = read_loop n v.disk.sectors f.start_lba f.offset 0 n buf in
    if not (usable v fd)
    then record { result = none; buffer = buf; vfs = v }
    else if leb f.size f.offset
    then record { result = some 0; buffer = buf; vfs = v }
    else record { result = some r.0; buffer = r.1; vfs = advance v fd n }

pub vfs_write : Vfs → ℕ → Bytes → ℕ → Option ℕ × Vfs
unfolding write_count write_loop
vfs_write v fd buf count =
    let f = v.fds fd in
    let n = write_count f count in
    let r = write_loop n v.disk f.start_lba f.offset 0 n buf in
    if not (usable v fd) then (none, v) else (some r.0, record (advance v fd n) { disk = r.1 })

pub vfs_size : Vfs → ℕ → ℕ
vfs_size v fd = if usable v fd then (v.fds fd).size else 0

pub vfs_close : Vfs → ℕ → Vfs
vfs_close v fd =
    if ltb fd max_fds
    then record v { fds = update v.fds fd (record (v.fds fd) { in_use = false }) }
    else v
