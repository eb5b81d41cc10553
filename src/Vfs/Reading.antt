-- ===== src/Vfs/Reading.antt =====
-- The loop of `vfs_read` in src/kernel/vfs.c.
use zoho_os_chatbot.Base.{
  ℕ, zero, suc, ◌+◌, ◌-◌, ◌/◌, ◌%◌, ◌^◌, ◌<◌, ◌≤◌, ◌≡◌, ◌≢◌, refl, ap, ◌∙◌, true, false, ◌&&◌,
  arith, ltb, leb, ◌==◌, if◌then◌else◌, u32, min, lt→ltb, Bool-cases, inl, inr, some, none,
}
use zoho_os_chatbot.Vfs.{
  Bytes, copy, chunk, sector_size, read_loop, Fd, Vfs, Transfer, usable, read_count, vfs_read,
}
use zoho_os_chatbot.Vfs.Copying.{
  byte_at, chunk-same_sector, chunk_bounds, copy_inside, copy_below, copy_above,
}

-- From the index `done` to `count` the buffer holds the bytes of the file from `offset` on; the rest
-- is as before.
pub record Filled (ss : ℕ → Bytes) (start offset done count : ℕ) (old new : Bytes) : Type 0 where
  pub inside : (i : ℕ) → done + i < count → new (done + i) ≡ byte_at ss start (offset + i)
  pub below : (i : ℕ) → i < done → new i ≡ old i
  pub above : (i : ℕ) → count ≤ i → new i ≡ old i

whole_sector :
    (buf sector : Bytes) (done offset n : ℕ)
    → (if (offset % sector_size == 0) && (n == sector_size)
        then copy buf done sector 0 sector_size
        else copy buf done sector (offset % sector_size) n)
      ≡ copy buf done sector (offset % sector_size) n
whole_sector buf sector done offset n =
    elim (Bool-cases ((offset % sector_size == 0) && (n == sector_size))) [
      | inl y ↦
          let z : offset % sector_size ≡ 0 = ground arith in
          let w : n ≡ sector_size = ground arith in rw (y, z, w) refl
      | inr y ↦ rw y refl
    ]

-- One round fills the chunk, and the others fill what is left.
Filled-step :
    (ss : ℕ → Bytes) (start offset done count : ℕ) (buf out : Bytes)
    → done < count
    → let n = chunk offset (count - done) in
      let sector = ss (u32 (start + offset / sector_size)) in
      Filled ss start
        (offset + n)
        (done + n)
        count
        (copy buf done sector (offset % sector_size) n)
        out
      → Filled ss start offset done count buf out
Filled-step ss start offset done count buf out lt f = record {
  inside = inside;
  below = λ i h. f.below i (omega arith) ∙ copy_below buf sector done s n i h;
  above = λ i h. f.above i h ∙ copy_above buf sector done s n i (omega (arith, b.1));
}
  where
    n : ℕ
    n = chunk offset (count - done)

    s : ℕ
    s = offset % sector_size

    sector : Bytes
    sector = ss (u32 (start + offset / sector_size))

    b : (0 < n) × (n ≤ count - done)
    b = chunk_bounds offset (count - done) (omega arith)

    inside : (i : ℕ) → done + i < count → out (done + i) ≡ byte_at ss start (offset + i)
    inside i h = elim (Bool-cases (ltb i n)) [
      | inl y ↦
          let same = chunk-same_sector offset (count - done) i (ground arith) in
          f.below (done + i) (ground arith)
          ∙ copy_inside buf sector done s n i (ground arith)
          ∙ (rw (same.0, same.1) refl)
      | inr y ↦
          let split : i ≡ n + (i - n) = ground arith in
          let e : done + i ≡ done + n + (i - n) = omega arith in
          let g : offset + i ≡ offset + n + (i - n) = omega arith in
          rw (e, g) (f.inside (i - n) (omega arith))
    ]

read_loop_stop :
    (fuel : ℕ) (ss : ℕ → Bytes) (start offset done count : ℕ) (buf : Bytes)
    → count ≤ done
    → read_loop fuel ss start offset done count buf ≡ (done, buf)
unfolding read_loop
read_loop_stop zero ss start offset done count buf h = refl
read_loop_stop (suc fuel) ss start offset done count buf h = ground arith

read_loop_round :
    (fuel : ℕ) (ss : ℕ → Bytes) (start offset done count : ℕ) (buf : Bytes)
    → done < count
    → offset + (count - done) < 2 ^ 32
    → count < 2 ^ 32
    → let n = chunk offset (count - done) in
      let sector = ss (u32 (start + offset / sector_size)) in
      read_loop (suc fuel) ss start offset done count buf
      ≡ read_loop fuel ss start
          (offset + n)
          (done + n)
          count
          (copy buf done sector (offset % sector_size) n)
unfolding read_loop
read_loop_round fuel ss start offset done count buf lt b c =
    let n = chunk offset (count - done) in
    let s = chunk_bounds offset (count - done) (omega arith) in
    let sector = ss (u32 (start + offset / sector_size)) in
    let e : u32 (offset + n) ≡ offset + n = omega (arith, s.1) in
    let g : u32 (done + n) ≡ done + n = omega (arith, s.1) in
    unfolded ∙ (rw (e, g, whole_sector buf sector done offset n) refl)
  where
    unfolded :
        let n = chunk offset (count - done) in
        let sector = ss (u32 (start + offset / sector_size)) in
        read_loop (suc fuel) ss start offset done count buf
        ≡ read_loop fuel ss start (u32 (offset + n)) (u32 (done + n)) count (
            if (offset % sector_size == 0) && (n == sector_size)
            then copy buf done sector 0 sector_size
            else copy buf done sector (offset % sector_size) n)
    unfolded = rw (lt→ltb done count lt, read_loop) refl

pub read_loop_lem :
    (fuel : ℕ) (ss : ℕ → Bytes) (start offset done count : ℕ) (buf : Bytes)
    → done ≤ count
    → count ≤ done + fuel
    → offset + (count - done) < 2 ^ 32
    → count < 2 ^ 32
    → let r = read_loop fuel ss start offset done count buf in
      (r.0 ≡ count) × Filled ss start offset done count buf r.1
read_loop_lem zero ss start offset done count buf le fl b c =
    let same : done ≡ count = omega arith in
    rw (read_loop_stop zero ss start offset done count buf (omega arith)) (
      same,
      record { inside = λ i h. absurd (omega arith); below = λ i h. refl; above = λ i h. refl },
    )
read_loop_lem (suc fuel) ss start offset done count buf le fl b c =
    let n = chunk offset (count - done) in
    let sector = ss (u32 (start + offset / sector_size)) in
    let next : Bytes = copy buf done sector (offset % sector_size) n in
    elim (Bool-cases (ltb done count)) [
      | inr y ↦
          let same : done ≡ count = ground arith in
          rw (read_loop_stop (suc fuel) ss start offset done count buf (omega arith)) (
            same,
            record {
              inside = λ i h. absurd (omega arith);
              below = λ i h. refl;
              above = λ i h. refl;
            },
          )
      | inl y ↦
          let lt : done < count = ground arith in
          let s = chunk_bounds offset (count - done) (omega arith) in
          let r =
            read_loop_lem fuel ss start (offset + n) (done + n) count next (omega (arith, s.1))
              (omega (arith, s.0)) (omega (arith, s.1)) c in
          rw (read_loop_round fuel ss start offset done count buf lt b c)
            (r.0, Filled-step ss start offset done count buf _ lt r.1)
    ]

read_count-min :
    (f : Fd) (count : ℕ) → f.offset < f.size → read_count f count ≡ min count (f.size - f.offset)
unfolding read_count
read_count-min f count l = ground arith

-- What `vfs_read` gives on a descriptor in use: the bytes that are left or were asked for, whichever
-- are fewer, from the offset on, and an offset that has moved by as many.
pub record Read (v : Vfs) (fd count : ℕ) (buf : Bytes) (n : ℕ) (r : Transfer) : Type 0 where
  pub result : r.result ≡ some n
  pub filled : Filled v.disk.sectors (v.fds fd).start_lba (v.fds fd).offset 0 n buf r.buffer
  pub offset : (r.vfs.fds fd).offset ≡ (v.fds fd).offset + n
  pub others : (i : ℕ) → fd ≢ i → r.vfs.fds i ≡ v.fds i
  pub disk : r.vfs.disk ≡ v.disk

-- A read on a descriptor in use, whose offset is inside the file, returns the lesser of the bytes
-- asked for and the bytes left, fills the buffer with the file's bytes from the offset on and no byte
-- further, moves the offset by as many, and leaves the disk and the other descriptors alone. A read
-- at the end of the file returns 0, one on any other descriptor -1, and neither changes anything.
pub vfs_read_lem :
    (v : Vfs) (fd : ℕ) (buf : Bytes) (count : ℕ)
    → (v.fds fd).size < 2 ^ 32
    → count < 2 ^ 32
    → let f = v.fds fd in
      let r = vfs_read v fd buf count in
      (usable v fd ≡ true
        → f.offset < f.size
        → Read v fd count buf (min count (f.size - f.offset)) r)
      × (usable v fd ≡ true
          → f.size ≤ f.offset
          → r ≡ record { result = some 0; buffer = buf; vfs = v })
      × (usable v fd ≡ false → r ≡ record { result = none; buffer = buf; vfs = v })
unfolding vfs_read
vfs_read_lem v fd buf count b c = (λ u l. inside u l, λ u l. ground arith, λ u. ground arith)
  where
    inside :
        usable v fd ≡ true
        → (v.fds fd).offset < (v.fds fd).size
        → Read v fd count buf
            (min count ((v.fds fd).size - (v.fds fd).offset))
            (vfs_read v fd buf count)
    inside u l =
        let f = v.fds fd in
        let n = min count (f.size - f.offset) in
        let e : read_count f count ≡ n = read_count-min f count l in
        let h : leb f.size f.offset ≡ false = ground arith in
        let r =
          read_loop_lem n v.disk.sectors f.start_lba f.offset 0 n buf (omega arith) (omega arith)
            (omega arith) (omega arith) in
        rw (e, u, h)
          (record {
            result = ap some r.0;
            filled = r.1;
            offset = ground arith;
            others = λ i ne. ground arith;
            disk = refl;
          })
