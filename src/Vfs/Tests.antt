-- ===== src/Vfs/Tests.antt =====
-- Two descriptors on one file of 1000 bytes at the sector 4.
use zoho_os_chatbot.Base.{
  ℕ, ◌+◌, ◌<◌, ◌≤◌, ◌≡◌, refl, true, false, arith, ◌==◌, if◌then◌else◌, some, none, ltb, get_or,
  ◌-◌, ◌/◌, ◌%◌, ◌^◌, List, [], ◌∷◌,
}
use zoho_os_chatbot.Vfs.Tar.{size_field, octal_loop, octal_to_int, strcmp, find_loop, tar_find_file}
use zoho_os_chatbot.Vfs.Archive.{Entry, IsOctal, IsArchive, Searched, tar_find_file_lem}
use zoho_os_chatbot.Vfs.{cached_read_sector, Bytes, Disk, Fd, Vfs, usable, vfs_read, vfs_write}
use zoho_os_chatbot.Vfs.Reading.{Read, vfs_read_lem}
use zoho_os_chatbot.Vfs.Descriptors.{Wrote, vfs_write_lem, write-read}

abbrev file : ℕ → Fd
file offset = record { in_use = true; start_lba = 4; size = 1000; offset = offset }

abbrev unused : Fd
unused = record { in_use = false; start_lba = 0; size = 0; offset = 0 }

abbrev disk : Disk
disk = record { sectors = λ l i. l + i; cache_valid = false; cache_lba = 0; cache_data = λ _. 0 }

abbrev mounted : Vfs
mounted = record {
  fds = λ i. if i == 0 then file 500 else if i == 1 then file 500 else unused;
  disk = disk;
}

abbrev bytes : Bytes
bytes i = i + 7

abbrev empty : Bytes
empty i = 0

vfs_read_lem_example :
    let r = vfs_read mounted 0 empty 30 in
    (usable mounted 0 ≡ true → 500 < 1000 → Read mounted 0 30 empty 30 r)
    × (usable mounted 0 ≡ true
        → 1000 ≤ 500
        → r ≡ record { result = some 0; buffer = empty; vfs = mounted })
    × (usable mounted 0 ≡ false → r ≡ record { result = none; buffer = empty; vfs = mounted })
vfs_read_lem_example = vfs_read_lem mounted 0 empty 30 (omega arith) (omega arith)

vfs_write_lem_example : Wrote mounted 0 bytes 500 (vfs_write mounted 0 bytes 600)
vfs_write_lem_example =
    vfs_write_lem mounted 0 bytes 600 refl (omega arith) (omega arith) (omega arith) (omega arith)

write-read_example :
    let w = vfs_write mounted 0 bytes 30 in
    let r = vfs_read w.1 1 empty 30 in (r.result ≡ w.0) × ((i : ℕ) → i < 30 → r.buffer i ≡ bytes i)
write-read_example =
    write-read mounted 0 1 bytes empty 30 refl refl (omega arith) refl (omega arith) (omega arith)
      (omega arith) (omega arith)

abbrev header : List ℕ → ℕ → Bytes
header name size k = if ltb k 124 then get_or name k 0 else b'0' + size / 8 ^ (10 - (k - 124)) % 8

-- An archive at the sector 2 with two files, of 600 and of 8 bytes.
abbrev files : List Entry
files = record { name = b'a' ∷ []; size = 600 } ∷ record { name = b'b' ∷ b'c' ∷ []; size = 8 } ∷ []

abbrev archive : Disk
archive = record {
  sectors = λ l.
      if l == 2
      then header (b'a' ∷ []) 600
      else if l == 5
      then header (b'b' ∷ b'c' ∷ []) 8
      else empty;
  cache_valid = false;
  cache_lba = 0;
  cache_data = empty;
}

abbrev path : Bytes
path k = get_or (b'b' ∷ b'c' ∷ []) k 0

found : (tar_find_file archive 2 path).0 ≡ some (6, 8)
unfolding tar_find_file find_loop strcmp octal_to_int octal_loop cached_read_sector
found = refl

header-IsOctal : (name : List ℕ) (size : ℕ) → IsOctal (size_field (header name size)) size
header-IsOctal name size k h =
    let e : 124 + k - 124 ≡ k = omega arith in
    let n : ltb (124 + k) 124 ≡ false = ground arith in rw (n, e) refl

files_stored : IsArchive archive.sectors (2 + 20000) 2 files
files_stored = (
  omega arith,
  record {
    name = record { nonzero = (λ z. omega arith, tt); chars = λ k l. ground arith };
    named = omega arith;
    short = omega arith;
    size = header-IsOctal (b'a' ∷ []) 600;
    small = omega arith;
  },
  (
    omega arith,
    record {
      name = record {
        nonzero = (λ z. omega arith, (λ z. omega arith, tt));
        chars = λ k l. ground arith;
      };
      named = omega arith;
      short = omega arith;
      size = header-IsOctal (b'b' ∷ b'c' ∷ []) 8;
      small = omega arith;
    },
    (omega arith, refl),
  ),
)

tar_find_file_lem_example : Searched (some (6, 8)) archive (tar_find_file archive 2 path)
tar_find_file_lem_example =
    tar_find_file_lem archive 2 path (b'b' ∷ b'c' ∷ []) files (λ e. cc)
      (record { nonzero = (λ z. omega arith, (λ z. omega arith, tt)); chars = λ k l. refl })
      (omega arith) files_stored
