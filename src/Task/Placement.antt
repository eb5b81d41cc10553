-- ===== src/Task/Placement.antt =====
-- `pick_least_loaded_cpu` of src/kernel/task.c, by which a new task is placed.
use zoho_os_chatbot.Base.{
  ℕ, zero, suc, ◌+◌, ◌-◌, ◌<◌, ◌≤◌, ◌≡◌, refl, true, false, not, ◌&&◌, arith, ltb, ◌==◌,
  if◌then◌else◌, length, Bool-cases, inl, inr,
}
use zoho_os_chatbot.Task.{Machine, queue}

-- The queued tasks, and the current one unless it is the idle task.
unfoldable pub load : Machine → ℕ → ℕ
load m i =
    let c = (m.cpus i).current_task in
    length (queue m i) + (if not (c == 0) && not ((m.tasks c).id == 0) then 1 else 0)

-- The loop: the rounds left, the index, the CPU found so far and its load.
least_from : Machine → ℕ → ℕ → ℕ → ℕ → ℕ
least_from m zero i least min_load = least
least_from m (suc n) i least min_load =
    least_from m n (suc i) (if ltb (load m i) min_load then i else least)
      (if ltb (load m i) min_load then load m i else min_load)

pub pick_least_loaded_cpu : Machine → ℕ
unfolding least_from load
pick_least_loaded_cpu m = least_from m (m.cpu_count - 1) 1 0 (load m 0)

least_from-least :
    (m : Machine) (n i least min_load : ℕ)
    → least < i
    → min_load ≡ load m least
    → ((j : ℕ) → j < i → load m least ≤ load m j)
    → (least_from m n i least min_load < i + n)
      × ((j : ℕ) → j < i + n → load m (least_from m n i least min_load) ≤ load m j)
unfolding least_from
least_from-least m zero i least min_load h e b = (omega arith, λ j l. b j (omega arith))
least_from-least m (suc n) i least min_load h e b = elim (Bool-cases (ltb (load m i) min_load)) [
  | inl y ↦
      let r = least_from-least m n (suc i) i (load m i) (omega arith) refl (below y) in
      rw y (omega (arith, r.0), λ j l. r.1 j (omega arith))
  | inr y ↦
      let r = least_from-least m n (suc i) least min_load (omega arith) e (kept y) in
      rw y (omega (arith, r.0), λ j l. r.1 j (omega arith))
]
  where
    below : ltb (load m i) min_load ≡ true → (j : ℕ) → j < suc i → load m i ≤ load m j
    below y j l = elim (Bool-cases (ltb j i)) [
      | inl old ↦ ground (arith, b j)
      | inr new ↦ let same : j ≡ i = ground arith in rw same (omega arith)
    ]

    kept : ltb (load m i) min_load ≡ false → (j : ℕ) → j < suc i → load m least ≤ load m j
    kept y j l = elim (Bool-cases (ltb j i)) [
      | inl old ↦ b j (ground arith)
      | inr new ↦ let same : j ≡ i = ground arith in rw same (ground arith)
    ]

-- With at least one CPU, the CPU that is picked exists, and no CPU has a smaller load.
pub pick_least_loaded_cpu_lem :
    (m : Machine)
    → 0 < m.cpu_count
    → (pick_least_loaded_cpu m < m.cpu_count)
      × ((j : ℕ) → j < m.cpu_count → load m (pick_least_loaded_cpu m) ≤ load m j)
unfolding pick_least_loaded_cpu
pick_least_loaded_cpu_lem m h =
    let r =
      least_from-least m (m.cpu_count - 1) 1 0 (load m 0) (omega arith) refl
        (λ j l. let same : j ≡ 0 = omega arith in rw same (omega arith)) in
    (omega (arith, r.0), λ j l. r.1 j (omega arith))
