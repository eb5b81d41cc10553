-- ===== src/Lock/Tests.antt =====
-- Two CPUs at one lock, and a registered lock.
use zoho_os_chatbot.Base.{ℕ, ◌≡◌, refl, true}
use zoho_os_chatbot.Lock.{
  enter, test_and_set_busy, test_and_set_free, count_plain, System, pick, Reach, begin, later,
}
use zoho_os_chatbot.Lock.Exclusion.{inside, mutual_exclusion}

-- CPU 0 owns the lock, CPU 1 has spun once.
contended : (s : System) × Reach s
contended = (
  _,
  later
      (later
        (later (later (later begin (pick 0 enter)) (pick 0 (test_and_set_free refl)))
          (pick 1 enter))
        (pick 1 (test_and_set_busy refl)))
      (pick 0 (count_plain refl)),
)

mutual_exclusion_example :
    ((i j : ℕ) → inside (contended.0.pc i) ≡ true → inside (contended.0.pc j) ≡ true → i ≡ j)
    × ((i : ℕ) → inside (contended.0.pc i) ≡ true → contended.0.lock.locked ≡ true)
mutual_exclusion_example = mutual_exclusion contended.1
