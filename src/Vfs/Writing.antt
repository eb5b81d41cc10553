-- ===== src/Vfs/Writing.antt =====
-- The loop of `vfs_write` in src/kernel/vfs.c, and the cache that it writes through.
use zoho_os_chatbot.Base.{
  ℕ, zero, suc, ◌+◌, ◌-◌, ◌/◌, ◌%◌, ◌^◌, ◌<◌, ◌≤◌, ◌≡◌, ◌≢◌, refl, ap, ◌∙◌, true, ◌&&◌, arith, ltb,
  ◌==◌, u32, lt→ltb, Bool-cases, inl, inr,
}
use mathlib.Core.Path.{subst}
use zoho_os_chatbot.Vfs.{
  Bytes, copy, chunk, sector_size, Disk, cached_read_sector, cached_write_sector, write_loop,
}
use zoho_os_chatbot.Vfs.Copying.{
  byte_at, chunk-same_sector, chunk_bounds, copy_inside, copy_below, copy_above,
}

-- The cache holds what the disk holds.
abbrev pub IsCoherent : Disk → Type 0
IsCoherent d = d.cache_valid ≡ true → d.cache_data ≡ d.sectors d.cache_lba

-- With a coherent cache, a cached read gives what is on the disk, which it leaves alone, and the
-- cache stays coherent; a cached write stores its sector, touches no other, and makes the cache
-- coherent.
pub cache_lem :
    (d : Disk) (lba : ℕ) (b : Bytes)
    → IsCoherent d
    → let r = cached_read_sector d lba in
      let w = cached_write_sector d lba b in
      (r.0 ≡ d.sectors lba)
      × (r.1.sectors ≡ d.sectors)
      × IsCoherent r.1
      × (w.sectors lba ≡ b)
      × ((l : ℕ) → lba ≢ l → w.sectors l ≡ d.sectors l)
      × IsCoherent w
unfolding cached_read_sector cached_write_sector
cache_lem d lba b c = elim (Bool-cases (d.cache_valid && (d.cache_lba == lba))) [
  | inl y ↦
      let e : d.cache_lba ≡ lba = ground arith in
      rw y (
        c (ground arith) ∙ ap d.sectors e,
        refl,
        c,
        ground arith,
        λ l ne. ground arith,
        λ h. ground arith,
      )
  | inr y ↦ rw y (refl, refl, λ h. refl, ground arith, λ l ne. ground arith, λ h. ground arith)
]

-- From `offset` on, the file holds the buffer's bytes from `done` to `count`; its other bytes, and
-- the sectors before its first, are as before.
pub record Written (old : Disk) (start offset done count : ℕ) (buf : Bytes) (new : Disk)
    : Type 0 where
  pub inside : (i : ℕ) → done + i < count → byte_at new.sectors start (offset + i) ≡ buf (done + i)
  pub before : (k : ℕ) → k < offset → byte_at new.sectors start k ≡ byte_at old.sectors start k
  pub after :
      (k : ℕ)
      → offset + (count - done) ≤ k
      → start + k / sector_size < 2 ^ 32
      → byte_at new.sectors start k ≡ byte_at old.sectors start k
  pub others : (l : ℕ) → l < start → new.sectors l ≡ old.sectors l
  pub coherent : IsCoherent old → IsCoherent new

abbrev pub put : Disk → ℕ → ℕ → ℕ → ℕ → Bytes → Disk
put d start offset done n buf =
    let lba = u32 (start + offset / sector_size) in
    cached_write_sector d lba (copy (d.sectors lba) (offset % sector_size) buf done n)

-- One round writes its chunk and no other byte.
pub put-Written :
    (d : Disk) (start offset done count : ℕ) (buf : Bytes)
    → done < count
    → start + (offset + (count - done)) / sector_size < 2 ^ 32
    → let n = chunk offset (count - done) in
      Written d start offset done (done + n) buf (put d start offset done n buf)
unfolding cached_write_sector
put-Written d start offset done count buf lt b = record {
  inside = inside;
  before = before;
  after = after;
  others = λ l h. ground arith;
  coherent = λ c h. ground arith;
}
  where
    n : ℕ
    n = chunk offset (count - done)

    s : ℕ
    s = offset % sector_size

    lba : ℕ
    lba = u32 (start + offset / sector_size)

    lba-plain : lba ≡ start + offset / sector_size
    lba-plain = omega arith

    new : Disk
    new = put d start offset done n buf

    sector : Bytes
    sector = copy (d.sectors lba) s buf done n

    written : new.sectors lba ≡ sector
    written = ground arith

    kept : (l : ℕ) → lba ≢ l → new.sectors l ≡ d.sectors l
    kept l ne = ground arith

    inside : (i : ℕ) → done + i < done + n → byte_at new.sectors start (offset + i) ≡ buf (done + i)
    inside i h =
        let same = chunk-same_sector offset (count - done) i (omega arith) in
        rw (same.0, same.1)
          (ap (λ f. f (s + i)) written ∙ copy_inside (d.sectors lba) buf s done n i (omega arith))

    outside :
        (k : ℕ)
        → (k / sector_size ≡ offset / sector_size
            → sector (k % sector_size) ≡ d.sectors lba (k % sector_size))
        → start + k / sector_size < 2 ^ 32
        → byte_at new.sectors start k ≡ byte_at d.sectors start k
    outside k h w = elim (Bool-cases (k / sector_size == offset / sector_size)) [
      | inl y ↦
          let e : k / sector_size ≡ offset / sector_size = ground arith in
          rw e (ap (λ f. f (k % sector_size)) written ∙ h e)
      | inr y ↦
          let ne : lba ≢ u32 (start + k / sector_size) = λ q. ground (arith, lba-plain) in
          ap (λ f. f (k % sector_size)) (kept (u32 (start + k / sector_size)) ne)
    ]

    before : (k : ℕ) → k < offset → byte_at new.sectors start k ≡ byte_at d.sectors start k
    before k h =
        outside k (λ e. copy_below (d.sectors lba) buf s done n (k % sector_size) (omega arith))
          (omega arith)

    after :
        (k : ℕ)
        → offset + (done + n - done) ≤ k
        → start + k / sector_size < 2 ^ 32
        → byte_at new.sectors start k ≡ byte_at d.sectors start k
    after k h w =
        outside k (λ e. copy_above (d.sectors lba) buf s done n (k % sector_size) (omega arith)) w

-- A round, and then the rest of the transfer.
Written-step :
    (d e out : Disk) (start offset done n count : ℕ) (buf : Bytes)
    → done + n ≤ count
    → start + (offset + (count - done)) / sector_size < 2 ^ 32
    → Written d start offset done (done + n) buf e
    → Written e start (offset + n) (done + n) count buf out
    → Written d start offset done count buf out
Written-step d e out start offset done n count buf le b p q = record {
  inside = inside;
  before = λ k h. q.before k (omega arith) ∙ p.before k h;
  after = λ k h w. q.after k (omega arith) w ∙ p.after k (omega arith) w;
  others = λ l h. q.others l h ∙ p.others l h;
  coherent = λ c. q.coherent (p.coherent c);
}
  where
    inside : (i : ℕ) → done + i < count → byte_at out.sectors start (offset + i) ≡ buf (done + i)
    inside i h = elim (Bool-cases (ltb i n)) [
      | inl y ↦ q.before (offset + i) (ground arith) ∙ p.inside i (ground arith)
      | inr y ↦
          let split : i ≡ n + (i - n) = ground arith in
          let f : done + i ≡ done + n + (i - n) = omega arith in
          let g : offset + i ≡ offset + n + (i - n) = omega arith in
          rw (f, g) (q.inside (i - n) (omega arith))
    ]

write_loop_stop :
    (fuel : ℕ) (d : Disk) (start offset done count : ℕ) (buf : Bytes)
    → count ≤ done
    → write_loop fuel d start offset done count buf ≡ (done, d)
unfolding write_loop
write_loop_stop zero d start offset done count buf h = refl
write_loop_stop (suc fuel) d start offset done count buf h = ground arith

write_loop_round :
    (fuel : ℕ) (d : Disk) (start offset done count : ℕ) (buf : Bytes)
    → done < count
    → offset + (count - done) < 2 ^ 32
    → count < 2 ^ 32
    → let n = chunk offset (count - done) in
      write_loop (suc fuel) d start offset done count buf
      ≡ write_loop fuel (put d start offset done n buf) start (offset + n) (done + n) count buf
unfolding write_loop
write_loop_round fuel d start offset done count buf lt b c =
    let n = chunk offset (count - done) in
    let s = chunk_bounds offset (count - done) (omega arith) in
    let e : u32 (offset + n) ≡ offset + n = omega (arith, s.1) in
    let g : u32 (done + n) ≡ done + n = omega (arith, s.1) in unfolded ∙ (rw (e, g) refl)
  where
    unfolded :
        let n = chunk offset (count - done) in
        write_loop (suc fuel) d start offset done count buf
        ≡ write_loop fuel
            (put d start offset done n buf)
            start
            (u32 (offset + n))
            (u32 (done + n))
            count
            buf
    unfolded = rw (lt→ltb done count lt, write_loop) refl

nothing-Written :
    (d : Disk) (start offset done : ℕ) (buf : Bytes) → Written d start offset done done buf d
nothing-Written d start offset done buf = record {
  inside = λ i h. absurd (omega arith);
  before = λ k h. refl;
  after = λ k h w. refl;
  others = λ l h. refl;
  coherent = λ c. c;
}

-- The loop goes on until all is written, also where the offset wraps round.
pub write_loop-count :
    (fuel : ℕ) (d : Disk) (start offset done count : ℕ) (buf : Bytes)
    → offset < 2 ^ 32
    → done ≤ count
    → count ≤ done + fuel
    → count < 2 ^ 32
    → (write_loop fuel d start offset done count buf).0 ≡ count
unfolding write_loop
write_loop-count zero d start offset done count buf o le fl c = omega arith
write_loop-count (suc fuel) d start offset done count buf o le fl c =
    let n = chunk offset (count - done) in
    elim (Bool-cases (ltb done count)) [
      | inr y ↦ rw (write_loop, y) (ground arith)
      | inl y ↦
          let s = chunk_bounds offset (count - done) (ground arith) in
          rw (write_loop, y)
            (write_loop-count fuel (put d start offset done n buf) start (u32 (offset + n))
              (u32 (done + n)) count buf (omega arith) (omega (arith, s.1))
              (omega (arith, s.0, s.1)) c)
    ]

pub write_loop_lem :
    (fuel : ℕ) (d : Disk) (start offset done count : ℕ) (buf : Bytes)
    → done ≤ count
    → count ≤ done + fuel
    → offset + (count - done) < 2 ^ 32
    → count < 2 ^ 32
    → start + (offset + (count - done)) / sector_size < 2 ^ 32
    → let r = write_loop fuel d start offset done count buf in
      (r.0 ≡ count) × Written d start offset done count buf r.1
write_loop_lem zero d start offset done count buf le fl b c w =
    let same : done ≡ count = omega arith in
    rw (write_loop_stop zero d start offset done count buf (omega arith)) (
      same,
      subst (λ m. Written d start offset done m buf d) same
          (nothing-Written d start offset done buf),
    )
write_loop_lem (suc fuel) d start offset done count buf le fl b c w =
    let n = chunk offset (count - done) in
    elim (Bool-cases (ltb done count)) [
      | inr y ↦
          let same : done ≡ count = ground arith in
          rw (write_loop_stop (suc fuel) d start offset done count buf (omega arith)) (
            same,
            subst (λ m. Written d start offset done m buf d) same
                (nothing-Written d start offset done buf),
          )
      | inl y ↦
          let lt : done < count = ground arith in
          let s = chunk_bounds offset (count - done) (omega arith) in
          let next = put d start offset done n buf in
          let r =
            write_loop_lem fuel next start (offset + n) (done + n) count buf (omega (arith, s.1))
              (omega (arith, s.0)) (omega (arith, s.1)) c (omega (arith, s.1)) in
          rw (write_loop_round fuel d start offset done count buf lt b c) (
            r.0,
            Written-step d next _ start offset done n count buf (omega (arith, s.1)) w
                (put-Written d start offset done count buf lt w) r.1,
          )
    ]
