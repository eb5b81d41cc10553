-- ===== src/Vfs/Copying.antt =====
-- The byte at a position of a file whose sectors start at `start`, and what one round of a transfer
-- in src/kernel/vfs.c does to it.
use zoho_os_chatbot.Base.{ℕ, ◌+◌, ◌-◌, ◌/◌, ◌%◌, ◌<◌, ◌≤◌, ◌≡◌, arith, u32}
use zoho_os_chatbot.Vfs.{Bytes, copy, chunk, sector_size}

abbrev pub byte_at : (ℕ → Bytes) → ℕ → ℕ → ℕ
byte_at ss start k = ss (u32 (start + k / sector_size)) (k % sector_size)

-- A round stays inside its sector.
pub chunk-same_sector :
    (offset left i : ℕ)
    → i < chunk offset left
    → ((offset + i) / sector_size ≡ offset / sector_size)
      × ((offset + i) % sector_size ≡ offset % sector_size + i)
chunk-same_sector offset left i h =
    let b : i < sector_size - offset % sector_size = ground arith in (omega arith, omega arith)

pub chunk_bounds :
    (offset left : ℕ) → 0 < left → (0 < chunk offset left) × (chunk offset left ≤ left)
chunk_bounds offset left h = (ground arith, ground arith)

pub copy_inside :
    (to from : Bytes) (d s n i : ℕ) → i < n → copy to d from s n (d + i) ≡ from (s + i)
copy_inside to from d s n i h = ground arith

pub copy_below : (to from : Bytes) (d s n i : ℕ) → i < d → copy to d from s n i ≡ to i
copy_below to from d s n i h = ground arith

pub copy_above : (to from : Bytes) (d s n i : ℕ) → d + n ≤ i → copy to d from s n i ≡ to i
copy_above to from d s n i h = ground arith
