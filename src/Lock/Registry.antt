-- ===== src/Lock/Registry.antt =====
-- The table of registered locks of src/kernel/lock.c.
use zoho_os_chatbot.Base.{
  ℕ, ◌+◌, ◌≤◌, ◌<◌, ◌^◌, ◌≡◌, ◌≢◌, Option, none, some, List, [], ◌∷◌, arith, ltb, leb,
  if◌then◌else◌, u32, update,
}

-- `registered_locks` and `registered_lock_count`; an entry is the address of a lock.
pub record Registry : Type 0 where
  pub locks : ℕ → Option ℕ
  pub count : ℕ

abbrev pub capacity : ℕ
capacity = 64

pub register : Registry → ℕ → Registry
register r lock =
    let index = r.count in
    record {
      locks = if ltb index capacity then update r.locks index (some lock) else r.locks;
      count = u32 (index + 1);
    }

pub get_registered_count : Registry → ℕ
get_registered_count r = if ltb r.count capacity then r.count else capacity

-- The lock whose counters `lock_get_stats` copies; `none` is the result 0.
pub get_stats : Registry → ℕ → Option ℕ
get_stats r index = if leb (get_registered_count r) index then none else r.locks index

pub register_all : Registry → List ℕ → Registry
register_all r [] = r
register_all r (l ∷ ls) = register_all (register r l) ls

abbrev pub no_locks : Registry
no_locks = record { locks = λ _. none; count = 0 }

-- Every index below the count answers, and no other.
pub record IsValid (r : Registry) : Type 0 where
  pub filled : (i : ℕ) → i < r.count → i < capacity → r.locks i ≢ none

register-IsValid :
    (r : Registry) (l : ℕ) → r.count + 1 < 2 ^ 32 → IsValid r → IsValid (register r l)
unfolding register
register-IsValid r l b v = record { filled = λ i h c. ground (arith, v.filled i) }

-- A lock registered while there is room answers at the index that was the count; one registered
-- later changes no entry and answers at no index.
pub register_lem :
    (r : Registry) (l : ℕ)
    → r.count + 1 < 2 ^ 32
    → (r.count < capacity → get_stats (register r l) r.count ≡ some l)
      × (capacity ≤ r.count
          → (get_registered_count (register r l) ≡ capacity)
            × ((i : ℕ) → get_stats (register r l) i ≡ get_stats r i))
      × ((i : ℕ) → i < r.count → get_stats (register r l) i ≡ get_stats r i)
unfolding register get_stats get_registered_count
register_lem r l b =
    (λ h. ground arith, λ h. (ground arith, λ i. ground arith), λ i h. ground arith)
