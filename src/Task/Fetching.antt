-- ===== src/Task/Fetching.antt =====
-- Where `task_schedule` of src/kernel/task.c gets its next task from: the head of the own run queue,
-- or else the head of the first other queue that holds one.
use zoho_os_chatbot.Base.{
  ℕ, zero, suc, ◌+◌, ◌<◌, ◌≡◌, ◌≢◌, refl, false, List, [], ◌∷◌, arith, ◌==◌, has, Bool-cases, ◌⊎◌,
  inl, inr,
}
use zoho_os_chatbot.Task.{
  Machine, queue, set_queue, set_task, Fetched, dequeue_task, steal_from, task_steal, fetch,
}

-- No queue holds NULL.
abbrev pub NoNull : Machine → Type 0
NoNull m = (i : ℕ) → has 0 (queue m i) ≡ false

-- `nothing`: every queue was empty. `took`: the task was the head of a queue; it may have been given
-- to the CPU `me`.
pub data Fetch (m : Machine) (me : ℕ) : Fetched → Type 0 where
  nothing :
      ((i : ℕ) → i < m.cpu_count → queue m i ≡ []) → Fetch m me (record { task = 0; machine = m })
  own :
      {t : ℕ} {ts : List ℕ}
      → queue m me ≡ t ∷ ts
      → t ≢ 0
      → Fetch m me (record { task = t; machine = set_queue m me ts })
  stolen :
      {t : ℕ} {ts : List ℕ} (i : ℕ)
      → i < m.cpu_count
      → i ≢ me
      → queue m me ≡ []
      → queue m i ≡ t ∷ ts
      → t ≢ 0
      → Fetch m me (record {
        task = t;
        machine = set_task (set_queue m i ts) t (record (m.tasks t) { cpu_id = (m.cpus me).id });
      })

dequeue-nil :
    (m : Machine) (i : ℕ) → queue m i ≡ [] → dequeue_task m i ≡ record { task = 0; machine = m }
unfolding dequeue_task
dequeue-nil m i e = rw e

dequeue-cons :
    (m : Machine) (i t : ℕ) (ts : List ℕ)
    → queue m i ≡ t ∷ ts
    → dequeue_task m i ≡ record { task = t; machine = set_queue m i ts }
unfolding dequeue_task
dequeue-cons m i t ts e = rw e

List-cases {ℓ} : {A : Type ℓ} (xs : List A) → (xs ≡ []) ⊎ ((x : A) × (ys : List A) × (xs ≡ x ∷ ys))
List-cases [] = inl refl
List-cases (x ∷ xs) = inr (x, xs, refl)

steal_skip :
    (n i me : ℕ) (m : Machine)
    → (i ≡ me) ⊎ (queue m i ≡ [])
    → steal_from (suc n) i me m ≡ steal_from n (suc i) me m
unfolding steal_from
steal_skip n i me m (inl e) = ground arith
steal_skip n i me m (inr e) = ground (arith, dequeue-nil m i e)

steal_take :
    (n i me t : ℕ) (ts : List ℕ) (m : Machine)
    → i ≢ me
    → queue m i ≡ t ∷ ts
    → t ≢ 0
    → steal_from (suc n) i me m ≡ record {
      task = t;
      machine = set_task (set_queue m i ts) t (record (m.tasks t) { cpu_id = (m.cpus me).id });
    }
unfolding steal_from
steal_take n i me t ts m ne e real = ground (arith, dequeue-cons m i t ts e)

passed :
    (m : Machine) (i : ℕ)
    → ((j : ℕ) → j < i → queue m j ≡ [])
    → queue m i ≡ []
    → (j : ℕ) → j < suc i
    → queue m j ≡ []
passed m i before q j h = elim (Bool-cases (j == i)) [
  | inl y ↦ let same : j ≡ i = ground arith in rw same q
  | inr n ↦ before j (ground arith)
]

steal_from-Fetch :
    (n i : ℕ) (m : Machine) (me : ℕ)
    → NoNull m
    → queue m me ≡ []
    → i + n ≡ m.cpu_count
    → ((j : ℕ) → j < i → queue m j ≡ [])
    → Fetch m me (steal_from n i me m)
steal_from-Fetch zero i m me z mine e before =
    unfold steal_from in nothing (λ j h. before j (omega arith))
steal_from-Fetch (suc n) i m me z mine e before = elim (Bool-cases (i == me)) [
  | inl self ↦
      let same : i ≡ me = ground arith in
      rw (steal_skip n i me m (inl same))
        (steal_from-Fetch n (suc i) m me z mine (omega arith) (passed m i before (rw same mine)))
  | inr other ↦ elim (List-cases (queue m i)) [
    | inl none_here ↦
        rw (steal_skip n i me m (inr none_here))
          (steal_from-Fetch n (suc i) m me z mine (omega arith) (passed m i before none_here))
    | inr (t, ts, some_here) ↦
        let real : t ≢ 0 = λ t0. ground (arith, z i) in
        let ne : i ≢ me = ground arith in
        rw (steal_take n i me t ts m ne some_here real)
          (stolen i (omega arith) ne mine some_here real)
  ]
]

-- A fetch comes back with nothing only if every run queue is empty.
pub fetch-Fetch : (m : Machine) (me : ℕ) → NoNull m → Fetch m me (fetch m me)
unfolding fetch task_steal
fetch-Fetch m me z = elim (List-cases (queue m me)) [
  | inl e ↦
      rw (dequeue-nil m me e)
        (steal_from-Fetch m.cpu_count 0 m me z e (omega arith) (λ j h. elim h [ ]))
  | inr (t, ts, e) ↦
      let real : t ≢ 0 = λ t0. ground (arith, z me) in
      let tz : (t == 0) ≡ false = ground arith in rw (dequeue-cons m me t ts e, tz) (own e real)
]
