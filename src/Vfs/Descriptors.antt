-- ===== src/Vfs/Descriptors.antt =====
-- Writes through a descriptor of src/kernel/vfs.c, and reading back what was written.
use zoho_os_chatbot.Base.{
  ℕ, zero, suc, ◌+◌, ◌-◌, ◌/◌, ◌^◌, ◌<◌, ◌≤◌, ◌≡◌, ◌≢◌, refl, sym, ap, ◌∙◌, true, false, arith,
  ◌==◌, u32, min, Bool-cases, inl, inr, Option, some, none, ap₂,
}
use mathlib.Core.Path.{subst}
use zoho_os_chatbot.Vfs.{
  Bytes, sector_size, Fd, Vfs, usable, write_count, vfs_write, vfs_read, free_fd, open_at, vfs_open,
  max_fds,
}
use zoho_os_chatbot.Vfs.Copying.{byte_at}
use zoho_os_chatbot.Vfs.Reading.{vfs_read_lem}
use zoho_os_chatbot.Vfs.Writing.{Written, write_loop_lem}

write_count-min :
    (f : Fd) (count : ℕ)
    → f.offset ≤ f.size
    → f.size < 2 ^ 32
    → f.offset + count < 2 ^ 32
    → write_count f count ≡ min count (f.size - f.offset)
unfolding write_count
write_count-min f count l b c = ground arith

-- What `vfs_write` gives on a descriptor in use.
pub record Wrote (v : Vfs) (fd : ℕ) (buf : Bytes) (n : ℕ) (r : Option ℕ × Vfs) : Type 0 where
  pub result : r.0 ≡ some n
  pub written : Written v.disk (v.fds fd).start_lba (v.fds fd).offset 0 n buf r.1.disk
  pub offset : r.1.fds fd ≡ record (v.fds fd) { offset = (v.fds fd).offset + n }
  pub others : (i : ℕ) → fd ≢ i → r.1.fds i ≡ v.fds i

-- A write on a descriptor in use whose offset and count do not add up to 2^32 returns the lesser of
-- the bytes given and the bytes left in the file, puts the buffer's bytes into the file from the
-- offset on, changes no other byte of the file and no sector before it, keeps the cache coherent, and
-- moves the offset by as many.
pub vfs_write_lem :
    (v : Vfs) (fd : ℕ) (buf : Bytes) (count : ℕ)
    → usable v fd ≡ true
    → (v.fds fd).offset ≤ (v.fds fd).size
    → (v.fds fd).size < 2 ^ 32
    → (v.fds fd).offset + count < 2 ^ 32
    → (v.fds fd).start_lba + (v.fds fd).size / sector_size < 2 ^ 32
    → Wrote v fd buf (min count ((v.fds fd).size - (v.fds fd).offset)) (vfs_write v fd buf count)
unfolding vfs_write
vfs_write_lem v fd buf count u l b c w =
    let f = v.fds fd in
    let n = min count (f.size - f.offset) in
    let e : write_count f count ≡ n = write_count-min f count l b c in
    let r =
      write_loop_lem n v.disk f.start_lba f.offset 0 n buf (omega arith) (omega arith) (omega arith)
        (omega arith) (omega arith) in
    let moved : u32 (f.offset + n) ≡ f.offset + n = omega arith in
    rw (e, u, moved)
      (record {
        result = ap some r.0;
        written = r.1;
        offset = ground arith;
        others = λ i ne. ground arith;
      })

-- What is written through one descriptor is read through another one that stands at the same place
-- of the same file, inside of it: the read gives as many bytes as the write took, and they are the
-- same. The offset and the count add up to less than 2 ^ 32, and so do the first sector and the
-- number of sectors of the file.
pub write-read :
    (v : Vfs) (fd rd : ℕ) (buf into : Bytes) (count : ℕ)
    → usable v fd ≡ true
    → usable v rd ≡ true
    → fd ≢ rd
    → v.fds rd ≡ v.fds fd
    → (v.fds fd).offset < (v.fds fd).size
    → (v.fds fd).size < 2 ^ 32
    → (v.fds fd).offset + count < 2 ^ 32
    → (v.fds fd).start_lba + (v.fds fd).size / sector_size < 2 ^ 32
    → let w = vfs_write v fd buf count in
      let r = vfs_read w.1 rd into count in
      (r.result ≡ w.0)
      × ((i : ℕ) → i < min count ((v.fds fd).size - (v.fds fd).offset) → r.buffer i ≡ buf i)
write-read v fd rd buf into count u ur ne same l b c w =
    let n = min count ((v.fds fd).size - (v.fds fd).offset) in
    let q = vfs_write_lem v fd buf count u (omega arith) b c w in
    let v2 = (vfs_write v fd buf count).1 in
    let f : v2.fds rd ≡ v.fds fd = q.others rd ne ∙ same in
    let size : (v2.fds rd).size ≡ (v.fds fd).size = ap (λ x. x.size) f in
    let offset : (v2.fds rd).offset ≡ (v.fds fd).offset = ap (λ x. x.offset) f in
    let start : (v2.fds rd).start_lba ≡ (v.fds fd).start_lba = ap (λ x. x.start_lba) f in
    let in_use : (v2.fds rd).in_use ≡ (v.fds rd).in_use = ap (λ x. x.in_use) (q.others rd ne) in
    let r =
      (vfs_read_lem v2 rd into count (omega (arith, size)) (omega arith)).0
        (ground (arith, in_use, ur)) (omega (arith, size, offset)) in
    let m : min count ((v2.fds rd).size - (v2.fds rd).offset) ≡ n = omega (arith, size, offset) in
    (
      r.result ∙ ap some m ∙ sym q.result,
      λ i h.
          let z : 0 + i ≡ i = omega arith in
          subst (λ k. (vfs_read v2 rd into count).buffer k ≡ buf k) z
            (r.filled.inside i (omega (arith, m))
              ∙ ap₂ (λ a o. byte_at v2.disk.sectors a (o + i)) start offset
              ∙ q.written.inside i (omega arith)),
    )

-- The outcome of the search for a free descriptor from the index `i` on.
abbrev Found : ℕ → ℕ → (ℕ → Fd) → Option ℕ → Type 0
Found n i fds none = (j : ℕ) → i ≤ j → j < i + n → (fds j).in_use ≡ true
Found n i fds (some k) = (k < i + n) × ((fds k).in_use ≡ false)

Found-later :
    (n i : ℕ) (fds : ℕ → Fd) (o : Option ℕ)
    → (fds i).in_use ≡ true
    → Found n (suc i) fds o
    → Found (suc n) i fds o
Found-later n i fds none u f = λ j le lt. elim (Bool-cases (i == j)) [
  | inl y ↦ let e : j ≡ i = ground arith in rw e u
  | inr y ↦ f j (ground arith) (omega arith)
]
Found-later n i fds (some k) u f = (omega (arith, f.0), f.1)

free_fd-Found : (n i : ℕ) (fds : ℕ → Fd) → Found n i fds (free_fd n i fds)
unfolding free_fd
free_fd-Found zero i fds = λ j le lt. absurd (omega arith)
free_fd-Found (suc n) i fds = elim (Bool-cases ((fds i).in_use)) [
  | inl y ↦ rw y (Found-later n i fds (free_fd n (suc i) fds) y (free_fd-Found n (suc i) fds))
  | inr y ↦ rw y (omega arith, y)
]

-- The outcome of an open at the sector `lba`.
abbrev pub Opened : Vfs → ℕ → ℕ → Option ℕ × Vfs → Type 0
Opened v lba size (none, w) = (w ≡ v) × ((j : ℕ) → j < max_fds → (v.fds j).in_use ≡ true)
Opened v lba size (some i, w) =
    (i < max_fds)
    × ((v.fds i).in_use ≡ false)
    × (w.fds i ≡ record { in_use = true; start_lba = lba; size = size; offset = 0 })
    × ((j : ℕ) → i ≢ j → w.fds j ≡ v.fds j)
    × (w.disk ≡ v.disk)

-- An open of a file that exists fails only if every descriptor is in use, and changes nothing then;
-- else it returns a descriptor that was not in use, now at the start of the file, and touches no other.
pub vfs_open_lem : (v : Vfs) (lba size : ℕ) → Opened v lba size (vfs_open v (some (lba, size)))
unfolding vfs_open
vfs_open_lem v lba size = go (free_fd max_fds 0 v.fds) (free_fd-Found max_fds 0 v.fds)
  where
    go : (o : Option ℕ) → Found max_fds 0 v.fds o → Opened v lba size (open_at v lba size o)
    go none f = (refl, λ j h. f j (omega arith) (omega arith))
    go (some i) f = (omega (arith, f.0), f.1, ground arith, λ j ne. ground arith, refl)
