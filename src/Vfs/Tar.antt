-- ===== src/Vfs/Tar.antt =====
-- The headers of a tar archive on the disk: `tar_find_file` and `tar_get_file_by_index` of
-- src/kernel/tar.c, with `strcmp` of src/kernel/string.c.
use zoho_os_chatbot.Base.{
  ℕ, zero, suc, ◌+◌, ◌-◌, ◌*◌, ◌/◌, true, false, not, ◌||◌, Option, none, some, ltb, ◌==◌, u32,
}
use zoho_os_chatbot.Vfs.{Bytes, Disk, cached_read_sector, Vfs, vfs_open}

-- The loop of `octal_to_int`: the characters left, the field and `res`.
unfoldable pub octal_loop : ℕ → Bytes → ℕ → ℕ
octal_loop zero oct res = res
octal_loop (suc n) oct res = elim (ltb (oct 0) b'0' || ltb b'7' (oct 0)) [
  | true ↦ res
  | false ↦ octal_loop n (λ k. oct (suc k)) (u32 (res * 8 + (oct 0 - b'0')))
]

unfoldable pub octal_to_int : Bytes → ℕ
octal_to_int oct = octal_loop 11 oct 0

-- The two characters whose difference `strcmp` returns, looked for among `fuel` of them.
unfoldable pub strcmp : ℕ → Bytes → Bytes → ℕ × ℕ
strcmp zero s t = (s 0, t 0)
strcmp (suc fuel) s t = elim ((s 0 == 0) || not (s 0 == t 0)) [
  | true ↦ (s 0, t 0)
  | false ↦ strcmp fuel (λ k. s (suc k)) (λ k. t (suc k))
]

-- The header's `size` stands behind its name, mode, uid and gid.
abbrev pub size_field : Bytes → Bytes
size_field header k = header (124 + k)

abbrev pub next_header : Bytes → ℕ → ℕ
next_header header lba = u32 (lba + (1 + u32 (octal_to_int (size_field header) + 511) / 512))

-- The loop of `tar_find_file`: the rounds left, the disk, the first sector of the archive, the name
-- and the sector of the next header.
unfoldable pub find_loop : ℕ → Disk → ℕ → Bytes → ℕ → Option (ℕ × ℕ) × Disk
find_loop zero d start name lba = (none, d)
find_loop (suc fuel) d start name lba =
    let r = cached_read_sector d lba in
    let c = strcmp 512 r.0 name in
    let next = next_header r.0 lba in
    elim (r.0 0 == 0) [
      | true ↦ (none, r.1)
      | false ↦ elim (c.0 == c.1) [
        | true ↦ (some (u32 (lba + 1), octal_to_int (size_field r.0)), r.1)
        | false ↦ elim (ltb (u32 (start + 20000)) next) [
          | true ↦ (none, r.1)
          | false ↦ find_loop fuel r.1 start name next
        ]
      ]
    ]

abbrev pub max_headers : ℕ
max_headers = 20001

unfoldable pub tar_find_file : Disk → ℕ → Bytes → Option (ℕ × ℕ) × Disk
tar_find_file d start name = find_loop max_headers d start name start

-- The loop of `tar_get_file_by_index`, with `current_lba` and `current_idx`; its result is the header,
-- whose first bytes are the name.
unfoldable pub index_loop : ℕ → Disk → ℕ → ℕ → ℕ → ℕ → Option Bytes × Disk
index_loop zero d start index lba idx = (none, d)
index_loop (suc fuel) d start index lba idx =
    let r = cached_read_sector d lba in
    let next = next_header r.0 lba in
    elim (r.0 0 == 0) [
      | true ↦ (none, r.1)
      | false ↦ elim (idx == index) [
        | true ↦ (some r.0, r.1)
        | false ↦ elim (ltb (u32 (start + 20000)) next) [
          | true ↦ (none, r.1)
          | false ↦ index_loop fuel r.1 start index next (idx + 1)
        ]
      ]
    ]

unfoldable pub tar_get_file_by_index : Disk → ℕ → ℕ → Option Bytes × Disk
tar_get_file_by_index d start index = index_loop max_headers d start index start 0

-- The whole of `vfs_open`, with the search for the file.
pub open_path : Vfs → ℕ → Bytes → Option ℕ × Vfs
open_path v start name =
    let r = tar_find_file v.disk start name in vfs_open (record v { disk = r.1 }) r.0
