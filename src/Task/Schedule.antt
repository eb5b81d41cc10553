-- ===== src/Task/Schedule.antt =====
-- `task_schedule` of src/kernel/task.c as a whole: it ends, hands the CPU to a runnable task, and falls
-- back to the idle task only when no run queue holds anything.
use zoho_os_chatbot.Base.{
  ℕ, ◌+◌, ◌<◌, ◌≤◌, ◌≡◌, ◌≢◌, ◌∙◌, refl, ap, false, inl, inr, some, List, [], ◌∷◌, ◌++◌, arith,
  ◌==◌, if◌then◌else◌, update, All, Bool-cases, length-append, has-append,
}
use mathlib.Core.Path.{subst}
use zoho_os_chatbot.Task.{
  Task, Machine, State, ready, running, exited, default_timeslice, queue, set_queue, set_task,
  enqueue_task, Fetched, pick_next, save_rsp, park, requeue_as, requeue_current, switch_to,
  finish_schedule, task_schedule,
}
use zoho_os_chatbot.Task.Picking.{total, total-update, IsSettled, Picked, pick_next-Picked}

-- What a completed call of `task_schedule` leaves: the CPU runs `t` with a fresh timeslice, its
-- kernel stack and address space, and the returned stack pointer is the one that `t` had saved.
pub record Switched (me t : ℕ) (saved : Task) (out : ℕ × Machine) : Type 0 where
  pub current : (out.1.cpus me).current_task ≡ t
  pub state : (out.1.tasks t).state ≡ running
  pub slice : (out.1.tasks t).timeslice ≡ (if saved.id == 0 then 0 else default_timeslice)
  pub stack : (out.1.cpus me).kernel_stack ≡ saved.kernel_rsp
  pub space : (out.1.cpus me).cr3 ≡ saved.pml4
  pub resumes : out.0 ≡ saved.rsp

switch_to-Switched :
    (m : Machine) (me t : ℕ) → Switched me t (m.tasks t) ((m.tasks t).rsp, switch_to m me t)
unfolding switch_to
switch_to-Switched m me t = record {
  current = ground arith;
  state = ground arith;
  slice = ground arith;
  stack = ground arith;
  space = ground arith;
  resumes = refl;
}

-- The request to reschedule is cleared.
abbrev pub cleared : Machine → ℕ → Machine
cleared m me = record m { cpus = update m.cpus me (record (m.cpus me) { need_resched = false }) }

cleared-IsSettled : (m : Machine) (me : ℕ) → IsSettled m me → IsSettled (cleared m me) me
cleared-IsSettled m me s = record {
  no_null = λ j. ground (arith, s.no_null j);
  counted = s.counted;
  states = λ j.
      let same : queue m j ≡ queue (cleared m me) j = ground arith in
      subst (λ q. All (λ u. (m.tasks u).state ≢ running) q) same (s.states j);
}

All-update :
    (tasks : ℕ → Task) (t : ℕ) (x : Task) (q : List ℕ)
    → (x.state ≡ running → (tasks t).state ≡ running)
    → All (λ u. (tasks u).state ≢ running) q
    → All (λ u. (update tasks t x u).state ≢ running) q
All-update tasks t x [] h a = tt
All-update tasks t x (u ∷ us) h a = (
  λ e. elim (Bool-cases (t == u)) [
    | inl y ↦
        let same : t ≡ u = ground arith in
        a.0 (subst (λ v. (tasks v).state ≡ running) same (h (ground arith)))
    | inr n ↦ a.0 (ground arith)
  ],
  All-update tasks t x us h a.1,
)

set_task-IsSettled :
    (m : Machine) (me t : ℕ) (x : Task)
    → (x.state ≡ running → (m.tasks t).state ≡ running)
    → IsSettled m me
    → IsSettled (set_task m t x) me
set_task-IsSettled m me t x h s = record {
  no_null = s.no_null;
  counted = s.counted;
  states = λ j. All-update m.tasks t x (queue m j) h (s.states j);
}

All-snoc {ℓ κ} :
    {A : Type ℓ} (P : A → Type κ) (xs : List A) (a : A) → All P xs → P a → All P (xs ++ (a ∷ []))
All-snoc P [] a h p = (p, tt)
All-snoc P (x ∷ xs) a h p = (h.0, All-snoc P xs a h.1 p)

enqueue-IsSettled :
    (m : Machine) (me t : ℕ)
    → t ≢ 0
    → (m.tasks t).state ≢ running
    → IsSettled m me
    → IsSettled (enqueue_task m me t) me × (total (enqueue_task m me t) ≡ total m + 1)
unfolding enqueue_task
enqueue-IsSettled m me t real calm s =
    let q = queue m me ++ (t ∷ []) in
    (
      record {
        no_null = λ j. elim (Bool-cases (me == j)) [
          | inl y ↦ ground (arith, s.no_null me, has-append 0 (queue m me) (t ∷ []))
          | inr n ↦ ground (arith, s.no_null j)
        ];
        counted = s.counted;
        states = λ j. elim (Bool-cases (me == j)) [
          | inl y ↦
              let same : q ≡ queue (set_queue m me q) j = ground arith in
              subst (λ r. All (λ u. (m.tasks u).state ≢ running) r) same
                (All-snoc (λ u. (m.tasks u).state ≢ running) (queue m me) t (s.states me) calm)
          | inr n ↦
              let same : queue m j ≡ queue (set_queue m me q) j = ground arith in
              subst (λ r. All (λ u. (m.tasks u).state ≢ running) r) same (s.states j)
        ];
      },
      omega (
        arith,
        total-update m.cpu_count m.cpus me (record (m.cpus me) { runqueue = q }) s.counted,
        length-append (queue m me) (t ∷ []),
      ),
    )

requeue_as-IsSettled :
    (st : State) (m : Machine) (me t : ℕ)
    → t ≢ 0
    → IsSettled m me
    → IsSettled (requeue_as st m me t) me × (total (requeue_as st m me t) ≤ total m + 1)
unfolding requeue_as park
requeue_as-IsSettled ready m me t real s = (s, omega arith)
requeue_as-IsSettled exited m me t real s = (s, omega arith)
requeue_as-IsSettled running m me t real s =
    let x : Task = record (m.tasks t) { state = ready } in
    let p = set_task-IsSettled m me t x (λ e. cc) s in
    let q = enqueue-IsSettled (set_task m t x) me t real (ground arith) p in
    elim (Bool-cases ((m.tasks t).id == 0)) [
      | inl idle ↦ rw idle (p, omega arith)
      | inr user ↦ rw user (q.0, omega (arith, q.1))
    ]

requeue-IsSettled :
    (m : Machine) (me rsp : ℕ)
    → (m.cpus me).current_task ≢ 0
    → IsSettled m me
    → IsSettled (requeue_current m me rsp) me × (total (requeue_current m me rsp) ≤ total m + 1)
unfolding requeue_current save_rsp
requeue-IsSettled m me rsp real s =
    let t = (m.cpus me).current_task in
    let x : Task = record (m.tasks t) { rsp = rsp } in
    requeue_as-IsSettled _ (set_task m t x) me t real (set_task-IsSettled m me t x (λ e. e) s)

schedule-eq :
    (fuel : ℕ) (m : Machine) (me rsp : ℕ)
    → (m.cpus me).current_task ≢ 0
    → task_schedule fuel m me rsp
      ≡ finish_schedule me (pick_next fuel (requeue_current (cleared m me) me rsp) me)
unfolding task_schedule
schedule-eq fuel m me rsp ne = ground arith

-- `task_schedule`, while no other CPU touches the run queues, on a CPU that is one of those counted and
-- has a current task, where the queues hold no NULL and no task that is marked as running: it ends,
-- given more fuel than one above the number of queued tasks, and hands the CPU to a task: to one
-- that is ready and was in a run queue, the current task among them by then, or to the CPU's idle
-- task, and to this only if all run queues of all CPUs are empty by then.
pub task_schedule_lem :
    (fuel : ℕ) (m : Machine) (me rsp : ℕ)
    → (m.cpus me).current_task ≢ 0
    → IsSettled m me
    → total m + 1 < fuel
    → (out : ℕ × Machine) × (r : Fetched) × (t : ℕ) × (task_schedule fuel m me rsp ≡ some out)
      × Picked (requeue_current (cleared m me) me rsp) me r
      × (t ≡ (if r.task == 0 then (r.machine.cpus me).idle_task else r.task))
      × Switched me t (r.machine.tasks t) out
task_schedule_lem fuel m me rsp ne s h =
    let c = cleared m me in
    let same : (c.cpus me).current_task ≡ (m.cpus me).current_task = ground arith in
    let less =
      total-update m.cpu_count m.cpus me (record (m.cpus me) { need_resched = false }) s.counted in
    let q = requeue-IsSettled c me rsp (rw same ne) (cleared-IsSettled m me s) in
    let (r, e, p) =
      pick_next-Picked fuel (requeue_current c me rsp) me q.0 (omega (arith, q.1, less)) in
    let t = if r.task == 0 then (r.machine.cpus me).idle_task else r.task in
    (
      ((r.machine.tasks t).rsp, switch_to r.machine me t),
      r,
      t,
      schedule-eq fuel m me rsp ne ∙ ap (finish_schedule me) e ∙ (unfold finish_schedule in refl),
      p,
      refl,
      switch_to-Switched r.machine me t,
    )
