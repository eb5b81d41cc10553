-- ===== src/Lock/Exclusion.antt =====
-- No two CPUs are inside the lock of src/kernel/lock.c together, and a CPU inside keeps it locked.
use zoho_os_chatbot.Base.{ℕ, ◌≡◌, refl, Bool, true, false, update, arith}
use zoho_os_chatbot.Lock.{
  Spinlock, Pc, outside, spinning, acquired, contended, looped, critical, Move, enter,
  test_and_set_busy, test_and_set_free, count_plain, count_contended, count_contention, count_loops,
  release, System, pick, Reach, begin, later,
}

-- From the successful test-and-set to the release.
abbrev pub inside : Pc → Bool
inside outside = false
inside (spinning s) = false
inside (acquired s) = true
inside (contended s) = true
inside (looped s) = true
inside critical = true

pub record IsSafe (l : Spinlock) (pc : ℕ → Pc) : Type 0 where
  pub locked : (i : ℕ) → inside (pc i) ≡ true → l.locked ≡ true
  pub alone : (i j : ℕ) → inside (pc i) ≡ true → inside (pc j) ≡ true → i ≡ j

abbrev Moved : Spinlock → (ℕ → Pc) → ℕ → Pc → Spinlock → Pc → Type 0
Moved l pc i p l' p' = p ≡ pc i → IsSafe l pc → IsSafe l' (update pc i p')

Move-IsSafe :
    (l : Spinlock) (pc : ℕ → Pc) (i : ℕ) {l' : Spinlock} {p p' : Pc}
    → Move l p l' p'
    → Moved l pc i p l' p'
Move-IsSafe l pc i enter e v = record {
  locked = λ j h. ground (arith, v.locked j);
  alone = λ j k h g. ground (arith, v.alone j k);
}
Move-IsSafe l pc i (test_and_set_busy y) e v = record {
  locked = λ j h. ground (arith, v.locked j);
  alone = λ j k h g. ground (arith, v.alone j k);
}
Move-IsSafe l pc i (test_and_set_free y) e v = record {
  locked = λ j h. refl;
  alone = λ j k h g. ground (arith, v.locked j, v.locked k);
}
Move-IsSafe l pc i (count_plain y) e v = record {
  locked = λ j h. ground (arith, v.locked j, v.locked i);
  alone = λ j k h g. ground (arith, v.alone j k, v.alone i j, v.alone i k);
}
Move-IsSafe l pc i (count_contended y) e v = record {
  locked = λ j h. ground (arith, v.locked j, v.locked i);
  alone = λ j k h g. ground (arith, v.alone j k, v.alone i j, v.alone i k);
}
Move-IsSafe l pc i count_contention e v = record {
  locked = λ j h. ground (arith, v.locked j, v.locked i);
  alone = λ j k h g. ground (arith, v.alone j k, v.alone i j, v.alone i k);
}
Move-IsSafe l pc i count_loops e v = record {
  locked = λ j h. ground (arith, v.locked j, v.locked i);
  alone = λ j k h g. ground (arith, v.alone j k, v.alone i j, v.alone i k);
}
Move-IsSafe l pc i release e v = record {
  locked = λ j h. ground (arith, v.alone i j);
  alone = λ j k h g. ground (arith, v.alone j k);
}

Reach-IsSafe : {s : System} → Reach s → IsSafe s.lock s.pc
Reach-IsSafe begin = record { locked = λ i h. cc; alone = λ i j h g. cc }
Reach-IsSafe (later {s} r (pick i m)) = Move-IsSafe s.lock s.pc i m refl (Reach-IsSafe r)

-- In every reachable state at most one CPU is between its successful test-and-set and its release,
-- and while one is, the lock's word is set.
pub mutual_exclusion :
    {s : System}
    → Reach s
    → ((i j : ℕ) → inside (s.pc i) ≡ true → inside (s.pc j) ≡ true → i ≡ j)
      × ((i : ℕ) → inside (s.pc i) ≡ true → s.lock.locked ≡ true)
mutual_exclusion r = let v = Reach-IsSafe r in (v.alone, v.locked)
