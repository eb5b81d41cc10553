-- ===== src/Task/Picking.antt =====
-- The loop of `task_schedule` in src/kernel/task.c ends with a ready task, or with none when every run
-- queue is empty.
use zoho_os_chatbot.Base.{
  ℕ, zero, suc, ◌+◌, ◌<◌, ◌≤◌, ◌≡◌, ◌≢◌, ◌∙◌, refl, ap, sym, ◌⊎◌, inl, inr, some, List, [], ◌∷◌,
  arith, has, true, ◌==◌, if◌then◌else◌, update, length, All, Bool-cases,
}
use mathlib.Core.Path.{subst}
use zoho_os_chatbot.Task.{
  Task, Cpu, Machine, State, ready, running, exited, queue, set_queue, set_task, task_reap, Fetched,
  fetch, pick_next,
}
use zoho_os_chatbot.Task.Fetching.{NoNull, Fetch, nothing, own, stolen, fetch-Fetch}

-- The tasks in all the queues.
unfoldable pub total_from : ℕ → (ℕ → Cpu) → ℕ
total_from zero cpus = 0
total_from (suc n) cpus = total_from n cpus + length (cpus n).runqueue

abbrev pub total : Machine → ℕ
total m = total_from m.cpu_count m.cpus

-- The queues hold ready and exited tasks only, and the CPU is one of those counted.
pub record IsSettled (m : Machine) (me : ℕ) : Type 0 where
  pub no_null : NoNull m
  pub counted : me < m.cpu_count
  pub states : (i : ℕ) → All (λ t. (m.tasks t).state ≢ running) (queue m i)

total-update_ge :
    (n : ℕ) (cpus : ℕ → Cpu) (i : ℕ) (c : Cpu)
    → n ≤ i
    → total_from n (update cpus i c) ≡ total_from n cpus
unfolding total_from
total-update_ge zero cpus i c h = refl
total-update_ge (suc n) cpus i c h = ground (arith, total-update_ge n cpus i c)

pub total-update :
    (n : ℕ) (cpus : ℕ → Cpu) (i : ℕ) (c : Cpu)
    → i < n
    → total_from n (update cpus i c) + length (cpus i).runqueue
      ≡ total_from n cpus + length c.runqueue
unfolding total_from
total-update zero cpus i c h = elim h [ ]
total-update (suc n) cpus i c h = elim (Bool-cases (i == n)) [
  | inl y ↦ ground (arith, total-update_ge n cpus i c)
  | inr z ↦ ground (arith, total-update n cpus i c)
]

total-zero :
    (n : ℕ) (cpus : ℕ → Cpu) → ((i : ℕ) → i < n → (cpus i).runqueue ≡ []) → total_from n cpus ≡ 0
unfolding total_from
total-zero zero cpus h = refl
total-zero (suc n) cpus h =
    omega (arith, total-zero n cpus (λ i l. h i (omega arith)), ap length (h n (omega arith)))

All-set_task :
    (m : Machine) (t : ℕ) (x : Task) (q : List ℕ)
    → x.state ≡ (m.tasks t).state
    → All (λ u. (m.tasks u).state ≢ running) q
    → All (λ u. ((set_task m t x).tasks u).state ≢ running) q
All-set_task m t x [] e a = tt
All-set_task m t x (u ∷ us) e a = (ground (arith, a.0), All-set_task m t x us e a.1)

-- What a fetch with a task leaves behind.
record Taken (m : Machine) (me : ℕ) (r : Fetched) : Type 0 where
  settled : IsSettled r.machine me
  fewer : total r.machine + 1 ≡ total m
  queued : (r.machine.tasks r.task).state ≢ running

pop-IsSettled :
    (m : Machine) (me i t : ℕ) (ts : List ℕ)
    → IsSettled m me
    → queue m i ≡ t ∷ ts
    → IsSettled (set_queue m i ts) me × ((m.tasks t).state ≢ running)
pop-IsSettled m me i t ts s e =
    let a : All (λ u. (m.tasks u).state ≢ running) (t ∷ ts) = rw e at (s.states i) in
    (
      record {
        no_null = λ j. elim (Bool-cases (i == j)) [
          | inl y ↦ ground (arith, s.no_null i)
          | inr n ↦ ground (arith, s.no_null j)
        ];
        counted = s.counted;
        states = λ j. elim (Bool-cases (i == j)) [
          | inl y ↦
              let same : queue (set_queue m i ts) j ≡ ts = ground arith in
              subst (λ q. All (λ u. (m.tasks u).state ≢ running) q) (sym same) a.1
          | inr n ↦
              let same : queue (set_queue m i ts) j ≡ queue m j = ground arith in
              subst (λ q. All (λ u. (m.tasks u).state ≢ running) q) (sym same) (s.states j)
        ];
      },
      a.0,
    )

fetch-Taken :
    (m : Machine) (me : ℕ) {r : Fetched} → Fetch m me r → r.task ≢ 0 → IsSettled m me → Taken m me r
fetch-Taken m me (nothing h) ne s = absurd (ne refl)
fetch-Taken m me (own {t} {ts} e real) ne s =
    let p = pop-IsSettled m me me t ts s e in
    record {
      settled = p.0;
      fewer = omega (
        arith,
        total-update m.cpu_count m.cpus me (record (m.cpus me) { runqueue = ts }) s.counted,
        ap length e,
      );
      queued = p.1;
    }
fetch-Taken m me (stolen {t} {ts} i lt other mine e real) ne s =
    let p = pop-IsSettled m me i t ts s e in
    let x : Task = record (m.tasks t) { cpu_id = (m.cpus me).id } in
    record {
      settled = record {
        no_null = p.0.no_null;
        counted = s.counted;
        states = λ j.
            All-set_task (set_queue m i ts) t x (queue (set_queue m i ts) j) refl (p.0.states j);
      };
      fewer = omega (
        arith,
        total-update m.cpu_count m.cpus i (record (m.cpus i) { runqueue = ts }) lt,
        ap length e,
      );
      queued = ground (arith, p.1);
    }

-- The task that the loop of `task_schedule` settles on.
pub record Picked (m : Machine) (me : ℕ) (r : Fetched) : Type 0 where
  pub ready_task : r.task ≢ 0 → (r.machine.tasks r.task).state ≡ ready
  pub queued : r.task ≢ 0 → (i : ℕ) × (i < m.cpu_count) × (has r.task (queue m i) ≡ true)
  pub idle_only : r.task ≡ 0 → total r.machine ≡ 0
  pub settled : IsSettled r.machine me
  pub accounted :
      total r.machine + length r.machine.reaped + (if r.task == 0 then 0 else 1)
      ≡ total m + length m.reaped

Fetch-none :
    (m : Machine) (me : ℕ) {r : Fetched}
    → Fetch m me r
    → r.task ≡ 0
    → (r.machine ≡ m) × (total m ≡ 0)
Fetch-none m me (nothing h) z = (refl, total-zero m.cpu_count m.cpus h)
Fetch-none m me (own e real) z = absurd (real z)
Fetch-none m me (stolen i lt other mine e real) z = absurd (real z)

pick_stop :
    (fuel : ℕ) (m : Machine) (me : ℕ)
    → ((fetch m me).task ≡ 0) ⊎ (((fetch m me).machine.tasks (fetch m me).task).state ≡ ready)
    → pick_next (suc fuel) m me ≡ some (fetch m me)
unfolding pick_next
pick_stop fuel m me (inl z) = ground arith
pick_stop fuel m me (inr e) = ground arith

pick_reap :
    (fuel : ℕ) (m : Machine) (me : ℕ)
    → (fetch m me).task ≢ 0
    → ((fetch m me).machine.tasks (fetch m me).task).state ≡ exited
    → pick_next (suc fuel) m me
      ≡ pick_next fuel (task_reap (fetch m me).machine (fetch m me).task) me
unfolding pick_next
pick_reap fuel m me ne e = ground arith

State-cases : (s : State) → s ≢ running → (s ≡ ready) ⊎ (s ≡ exited)
State-cases ready h = inl refl
State-cases running h = absurd (h refl)
State-cases exited h = inr refl

-- A task that was fetched was in a queue, and so is every one that is left.
shorter :
    (m : Machine) (k u : ℕ) (us : List ℕ)
    → queue m k ≡ u ∷ us
    → (i t : ℕ) → has t (queue (set_queue m k us) i) ≡ true
    → has t (queue m i) ≡ true
shorter m k u us e i t h = elim (Bool-cases (k == i)) [
  | inl y ↦
      let same : k ≡ i = ground arith in
      let q : queue (set_queue m k us) i ≡ us = ground arith in
      let in_us : has t us ≡ true = rw (sym q) h in
      let whole : has t (u ∷ us) ≡ true = ground arith in
      ap (λ j. has t (queue m j)) (sym same) ∙ ap (has t) e ∙ whole
  | inr n ↦ let q : queue (set_queue m k us) i ≡ queue m i = ground arith in rw (sym q) h
]

Fetch-queued :
    (m : Machine) (me : ℕ) {r : Fetched}
    → me < m.cpu_count
    → Fetch m me r
    → r.task ≢ 0
    → (i : ℕ) × (i < m.cpu_count) × (has r.task (queue m i) ≡ true)
Fetch-queued m me c (nothing h) ne = absurd (ne refl)
Fetch-queued m me c (own {t} {ts} e real) ne = (me, c, rw e (ground arith))
Fetch-queued m me c (stolen {t} {ts} i lt other mine e real) ne = (i, lt, rw e (ground arith))

Fetch-kept :
    (m : Machine) (me : ℕ) {r : Fetched}
    → Fetch m me r
    → (r.machine.cpu_count ≡ m.cpu_count)
      × ((i t : ℕ) → has t (queue r.machine i) ≡ true → has t (queue m i) ≡ true)
Fetch-kept m me (nothing h) = (refl, λ i t q. q)
Fetch-kept m me (own {t} {ts} e real) = (refl, shorter m me t ts e)
Fetch-kept m me (stolen {t} {ts} i lt other mine e real) = (refl, shorter m i t ts e)

Fetch-reaped : (m : Machine) (me : ℕ) {r : Fetched} → Fetch m me r → r.machine.reaped ≡ m.reaped
Fetch-reaped m me (nothing h) = refl
Fetch-reaped m me (own e real) = refl
Fetch-reaped m me (stolen i lt other mine e real) = refl

pub pick_next-Picked :
    (fuel : ℕ) (m : Machine) (me : ℕ)
    → IsSettled m me
    → total m < fuel
    → (r : Fetched) × (pick_next fuel m me ≡ some r) × Picked m me r
pick_next-Picked zero m me s h = elim h [ ]
pick_next-Picked (suc fuel) m me s h =
    let f = fetch-Fetch m me s.no_null in
    let r = fetch m me in
    elim (Bool-cases (r.task == 0)) [
      | inl none_left ↦
          let z : r.task ≡ 0 = ground arith in
          let (same, empty) = Fetch-none m me f z in
          (
            r,
            pick_stop fuel m me (inl z),
            record {
              ready_task = λ ne. absurd (ne z);
              queued = λ ne. absurd (ne z);
              idle_only = λ _. rw same empty;
              settled = rw same s;
              accounted = ground (arith, same, z);
            },
          )
      | inr found ↦
          let ne : r.task ≢ 0 = ground arith in
          let k = fetch-Taken m me f ne s in
          elim (State-cases (r.machine.tasks r.task).state k.queued) [
            | inl is_ready ↦ (
              r,
              pick_stop fuel m me (inr is_ready),
              record {
                ready_task = λ _. is_ready;
                queued = λ _. Fetch-queued m me s.counted f ne;
                idle_only = λ z. absurd (ne z);
                settled = k.settled;
                accounted = ground (arith, ne, k.fewer, Fetch-reaped m me f);
              },
            )
            | inr gone ↦
                let (q, e, p) =
                  pick_next-Picked fuel (task_reap r.machine r.task) me
                    (record {
                      no_null = k.settled.no_null;
                      counted = k.settled.counted;
                      states = k.settled.states;
                    })
                    (omega (arith, k.fewer)) in
                (
                  q,
                  pick_reap fuel m me ne gone ∙ e,
                  record {
                    ready_task = p.ready_task;
                    queued = λ n.
                        let (i, lt, q) = p.queued n in
                        let (count, old) = Fetch-kept m me f in
                        (i, omega (arith, lt, count), old i _ q);
                    idle_only = p.idle_only;
                    settled = p.settled;
                    accounted =
                        omega (arith, p.accounted, k.fewer, ap length (Fetch-reaped m me f));
                  },
                )
          ]
    ]
