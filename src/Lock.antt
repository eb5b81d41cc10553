-- ===== src/Lock.antt =====
-- The spin locks of src/kernel/lock.c. One atomic operation is one step of one CPU; a CPU's local
-- variable `spins` is kept where it stands in `spin_lock`.
pub mod Exclusion
pub mod Registry
mod Tests
use zoho_os_chatbot.Base.{ℕ, ◌+◌, ◌<◌, ◌≡◌, ◌≢◌, Bool, true, false, u64, update}

-- `spinlock_t`, less its name.
pub record Spinlock : Type 0 where
  pub locked : Bool
  pub acquisitions : ℕ
  pub contentions : ℕ
  pub spin_loops : ℕ

-- Where a CPU stands: outside, in the loop of `spin_lock` with its count of spins, at one of the
-- three counters, or between `spin_lock` and `spin_unlock`.
pub data Pc : Type 0 where
  outside : Pc
  spinning : (spins : ℕ) → Pc
  acquired : (spins : ℕ) → Pc
  contended : (spins : ℕ) → Pc
  looped : (spins : ℕ) → Pc
  critical : Pc

pub data Move (l : Spinlock) : Pc → Spinlock → Pc → Type 0 where
  enter : Move l outside l (spinning 0)
  -- `__sync_lock_test_and_set(&lock->locked, 1)` returns the old value.
  test_and_set_busy : {s : ℕ} → l.locked ≡ true → Move l (spinning s) l (spinning (u64 (s + 1)))
  test_and_set_free :
      {s : ℕ} → l.locked ≡ false → Move l (spinning s) (record l { locked = true }) (acquired s)
  -- `__sync_fetch_and_add(&lock->acquisitions, 1)`, then the test of `spins`.
  count_plain :
      {s : ℕ}
      → s ≡ 0
      → Move l (acquired s) (record l { acquisitions = u64 (l.acquisitions + 1) }) critical
  count_contended :
      {s : ℕ}
      → s ≢ 0
      → Move l (acquired s) (record l { acquisitions = u64 (l.acquisitions + 1) }) (contended s)
  count_contention :
      {s : ℕ} → Move l (contended s) (record l { contentions = u64 (l.contentions + 1) }) (looped s)
  count_loops :
      {s : ℕ} → Move l (looped s) (record l { spin_loops = u64 (l.spin_loops + s) }) critical
  -- `__sync_lock_release(&lock->locked)` in `spin_unlock`.
  release : Move l critical (record l { locked = false }) outside

-- The lock, and where each CPU stands.
pub record System : Type 0 where
  pub lock : Spinlock
  pub pc : ℕ → Pc

pub data Step (s : System) : System → Type 0 where
  pick :
      (i : ℕ) {l : Spinlock} {p : Pc}
      → Move s.lock (s.pc i) l p
      → Step s (record { lock = l; pc = update s.pc i p })

-- `spin_init_named`
abbrev pub fresh_lock : Spinlock
fresh_lock = record { locked = false; acquisitions = 0; contentions = 0; spin_loops = 0 }

abbrev pub start : System
start = record { lock = fresh_lock; pc = λ _. outside }

pub data Reach : System → Type 0 where
  begin : Reach start
  later : {s t : System} → Reach s → Step s t → Reach t
