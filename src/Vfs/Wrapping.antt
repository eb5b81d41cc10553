-- ===== src/Vfs/Wrapping.antt =====
-- The loop of `vfs_write` in src/kernel/vfs.c where the 32 bits of the offset wrap round.
use zoho_os_chatbot.Base.{
  ℕ, zero, suc, ◌+◌, ◌-◌, ◌^◌, ◌<◌, ◌≤◌, ◌≡◌, ap, ◌∙◌, arith, u32, ltb, lt→ltb, Bool-cases, inl,
  inr,
}
use zoho_os_chatbot.Vfs.{Bytes, Disk, chunk, write_loop}
use zoho_os_chatbot.Vfs.Copying.{byte_at, chunk_bounds, chunk-same_sector}
use zoho_os_chatbot.Vfs.Writing.{Written, put, put-Written, write_loop_lem}

-- Behind the offset, the byte at `k` is the buffer's; before it, it is the one on the disk `d`.
abbrev pub Overwritten : Disk → ℕ → ℕ → ℕ → Bytes → Disk → ℕ → Type 0
Overwritten d start offset done buf new k =
    (offset ≤ k → byte_at new.sectors start k ≡ buf (done + (k - offset)))
    × (k < offset → byte_at new.sectors start k ≡ byte_at d.sectors start k)

-- A byte that the rest of the loop leaves as the round made it.
round-Overwritten :
    (d e new : Disk) (start offset done n k : ℕ) (buf : Bytes)
    → Written d start offset done (done + n) buf e
    → k < offset + n
    → byte_at new.sectors start k ≡ byte_at e.sectors start k
    → Overwritten d start offset done buf new k
round-Overwritten d e new start offset done n k buf p h q = (
  λ le.
      let f : k ≡ offset + (k - offset) = omega arith in
      q ∙ ap (byte_at e.sectors start) f ∙ p.inside (k - offset) (omega arith),
  λ l. q ∙ p.before k l,
)

write_loop-next :
    (fuel : ℕ) (d : Disk) (start offset done count : ℕ) (buf : Bytes)
    → done < count
    → count < 2 ^ 32
    → let n = chunk offset (count - done) in
      write_loop (suc fuel) d start offset done count buf
      ≡ write_loop fuel
          (put d start offset done n buf)
          start
          (u32 (offset + n))
          (done + n)
          count
          buf
unfolding write_loop
write_loop-next fuel d start offset done count buf lt c =
    let n = chunk offset (count - done) in
    let s = chunk_bounds offset (count - done) (omega arith) in
    let g : u32 (done + n) ≡ done + n = omega (arith, s.1) in
    rw (lt→ltb done count lt, write_loop)
      (ap
        (λ m. write_loop fuel (put d start offset done n buf) start (u32 (offset + n)) m count buf)
        g)

-- The bytes from the offset to 2^32, and those before it from where the loop ends.
pub write_loop-Overwritten :
    (fuel : ℕ) (d : Disk) (start offset done count : ℕ) (buf : Bytes) (k : ℕ)
    → offset < 2 ^ 32
    → count ≤ done + fuel
    → count < 2 ^ 32
    → 2 ^ 32 ≤ offset + (count - done)
    → start + 2 ^ 24 < 2 ^ 32
    → offset + (count - done) ≤ k + 2 ^ 32
    → k < 2 ^ 32
    → Overwritten d start offset done buf (write_loop fuel d start offset done count buf).1 k
write_loop-Overwritten zero d start offset done count buf k o fl c w b lo hi = absurd (omega arith)
write_loop-Overwritten (suc fuel) d start offset done count buf k o fl c w b lo hi =
    let n = chunk offset (count - done) in
    let s = chunk_bounds offset (count - done) (omega arith) in
    let e = put d start offset done n buf in
    let p = put-Written d start offset done count buf (omega arith) (omega arith) in
    let fits : offset + n ≤ 2 ^ 32 =
      omega
        (arith, s.0, (chunk-same_sector offset (count - done) (n - 1) (omega (arith, s.0))).0) in
    rw (write_loop-next fuel d start offset done count buf (omega arith) c)
      (elim (Bool-cases (ltb (offset + n) (2 ^ 32))) [
        | inl y ↦
            let plain : u32 (offset + n) ≡ offset + n = ground arith in
            let r =
              write_loop-Overwritten fuel e start (offset + n) (done + n) count buf k (ground arith)
                (omega (arith, s.0)) c (omega (arith, s.1)) b (omega (arith, s.1)) hi in
            let out = write_loop fuel e start (offset + n) (done + n) count buf in
            rw plain (elim (Bool-cases (ltb k (offset + n))) [
              | inl z ↦
                  round-Overwritten d e out.1 start offset done n k buf p (ground arith)
                    (r.1 (ground arith))
              | inr z ↦
                  let at : done + n + (k - (offset + n)) ≡ done + (k - offset) = ground arith in
                  (λ le. r.0 (ground arith) ∙ ap buf at, λ l. absurd (ground arith))
            ])
        | inr y ↦
            let around : u32 (offset + n) ≡ 0 = ground (arith, fits) in
            let full : offset + n ≡ 2 ^ 32 = ground (arith, fits) in
            let r =
              write_loop_lem fuel e start 0 (done + n) count buf (omega (arith, s.1))
                (omega (arith, s.0)) (omega (arith, s.1)) c (omega (arith, s.1)) in
            let out = write_loop fuel e start 0 (done + n) count buf in
            rw around (
              round-Overwritten d e out.1 start offset done n k buf p (omega arith)
                (r.1.after k (omega arith) (omega arith)))
      ])
