-- ===== src/Task/Timer.antt =====
-- `task_timer_tick` and `task_request_reschedule` of src/kernel/task.c, and the order in which one
-- CPU's tasks run.
use zoho_os_chatbot.Base.{
  ℕ, zero, suc, ◌+◌, ◌-◌, ◌≤◌, ◌≡◌, ◌≢◌, ◌∙◌, ◌↔◌, refl, Bool, true, false, not, [], arith, ltb,
  ◌==◌, if◌then◌else◌, u64, update, length,
}
use zoho_os_chatbot.Task.{Cpu, Machine, ready, running, exited, queue, set_task}

abbrev pub set_cpu : Machine → ℕ → Cpu → Machine
set_cpu m i c = record m { cpus = update m.cpus i c }

pub task_request_reschedule : Machine → ℕ → Machine
task_request_reschedule m me = set_cpu m me (record (m.cpus me) { need_resched = true })

pub task_needs_schedule : Machine → ℕ → Bool
task_needs_schedule m me = (m.cpus me).need_resched

-- The accounting at the head of the handler.
pub count_tick : Machine → ℕ → Machine
count_tick m me =
    let c = m.cpus me in
    let t = c.current_task in
    let x = m.tasks t in
    let ticked : Cpu = record c { total_ticks = u64 (c.total_ticks + 1) } in
    if t == 0
    then set_cpu m me ticked
    else set_cpu (set_task m t (record x { total_ticks = u64 (x.total_ticks + 1) })) me
        (if x.id == 0 then record ticked { idle_ticks = u64 (c.idle_ticks + 1) } else ticked)

-- The timeslice of the running task.
pub charge_slice : Machine → ℕ → ℕ → Machine
unfolding task_request_reschedule
charge_slice m me t =
    let x = m.tasks t in
    let left = x.timeslice - 1 in
    let charged = if ltb 0 x.timeslice then set_task m t (record x { timeslice = left }) else m in
    if (charged.tasks t).timeslice == 0 then task_request_reschedule charged me else charged

tick_running : Machine → ℕ → ℕ → Machine
tick_running m me t =
    if (m.tasks t).id == 0
    then (if not (length (queue m me) == 0) then task_request_reschedule m me else m)
    else charge_slice m me t

pub task_timer_tick : Machine → ℕ → Machine
task_timer_tick m me =
    let c = count_tick m me in
    let t = (m.cpus me).current_task in
    if t == 0 then task_request_reschedule c me else elim ((c.tasks t).state) [
      | running ↦ tick_running c me t
      | ready ↦ task_request_reschedule c me
      | exited ↦ task_request_reschedule c me
    ]

pub ticks : ℕ → Machine → ℕ → Machine
ticks zero m me = m
ticks (suc n) m me = ticks n (task_timer_tick m me) me

-- A task other than the idle one runs here with `n` ticks left.
pub record Runs (m : Machine) (me t n : ℕ) : Type 0 where
  pub current : (m.cpus me).current_task ≡ t
  pub real : t ≢ 0
  pub user : (m.tasks t).id ≢ 0
  pub state : (m.tasks t).state ≡ running
  pub slice : (m.tasks t).timeslice ≡ n

count_tick-Runs :
    (m : Machine) (me t n : ℕ)
    → Runs m me t n
    → Runs (count_tick m me) me t n
      × (((count_tick m me).cpus me).need_resched ≡ (m.cpus me).need_resched)
unfolding count_tick
count_tick-Runs m me t n r =
    let e : ((m.cpus me).current_task == 0) ≡ false = ground (arith, r.current, r.real) in
    rw e (
      record {
        current = ground (arith, r.current);
        real = r.real;
        user = ground (arith, r.current, r.user);
        state = ground (arith, r.current, r.state);
        slice = ground (arith, r.current, r.slice);
      },
      ground arith,
    )

charge_slice-Runs :
    (m : Machine) (me t n : ℕ)
    → Runs m me t (suc n)
    → Runs (charge_slice m me t) me t n
      × (n ≢ 0 → ((charge_slice m me t).cpus me).need_resched ≡ (m.cpus me).need_resched)
      × (n ≡ 0 → ((charge_slice m me t).cpus me).need_resched ≡ true)
unfolding charge_slice task_request_reschedule
charge_slice-Runs m me t n r = (
  record {
    current = ground (arith, r.slice, r.current);
    real = r.real;
    user = ground (arith, r.slice, r.user);
    state = ground (arith, r.slice, r.state);
    slice = ground (arith, r.slice);
  },
  λ ne. ground (arith, r.slice),
  λ z. ground (arith, r.slice),
)

tick_running-user :
    (m : Machine) (me t : ℕ) → (m.tasks t).id ≢ 0 → tick_running m me t ≡ charge_slice m me t
unfolding tick_running
tick_running-user m me t h = ground arith

tick_lem :
    (m : Machine) (me t n : ℕ)
    → Runs m me t n
    → task_timer_tick m me ≡ charge_slice (count_tick m me) me t
unfolding task_timer_tick
tick_lem m me t n r =
    let c = (count_tick-Runs m me t n r).0 in
    ground (arith, r.current, r.real, c.state, tick_running-user (count_tick m me) me t c.user)

tick-Runs :
    (m : Machine) (me t n : ℕ)
    → Runs m me t (suc n)
    → Runs (task_timer_tick m me) me t n
      × (n ≢ 0 → ((task_timer_tick m me).cpus me).need_resched ≡ (m.cpus me).need_resched)
      × (n ≡ 0 → ((task_timer_tick m me).cpus me).need_resched ≡ true)
tick-Runs m me t n r =
    let (c, same) = count_tick-Runs m me t (suc n) r in
    let s = charge_slice-Runs (count_tick m me) me t n c in
    rw (tick_lem m me t (suc n) r) (s.0, (λ ne. s.1 ne ∙ same), s.2)

-- A task that runs with `n + 1` ticks left, while no reschedule is wanted, keeps the CPU through the
-- next `n` ticks; the tick after them asks for a reschedule.
pub timeslice_expires :
    (n : ℕ) (m : Machine) (me t : ℕ)
    → Runs m me t (suc n)
    → (m.cpus me).need_resched ≡ false
    → ((k : ℕ) → k ≤ n → task_needs_schedule (ticks k m me) me ≡ false)
      × (task_needs_schedule (ticks (suc n) m me) me ≡ true)
unfolding ticks task_needs_schedule
timeslice_expires zero m me t r q =
    let s = tick-Runs m me t zero r in (λ k le. let e : k ≡ 0 = omega arith in rw e q, s.2 refl)
timeslice_expires (suc n) m me t r q =
    let s = tick-Runs m me t (suc n) r in
    let ih = timeslice_expires n (task_timer_tick m me) me t s.0 (s.1 (omega arith) ∙ q) in
    (λ k. early k ih.0, ih.1)
  where
    early :
        (k : ℕ)
        → ((j : ℕ) → j ≤ n → task_needs_schedule (ticks j (task_timer_tick m me) me) me ≡ false)
        → k ≤ suc n
        → task_needs_schedule (ticks k m me) me ≡ false
    early zero ih le = q
    early (suc k) ih le = ih k (omega arith)

-- The idle task is preempted by a tick exactly if its run queue holds a task.
pub idle_tick :
    (m : Machine) (me : ℕ)
    → (m.cpus me).current_task ≢ 0
    → (m.tasks (m.cpus me).current_task).id ≡ 0
    → (m.tasks (m.cpus me).current_task).state ≡ running
    → (m.cpus me).need_resched ≡ false
    → (task_needs_schedule (task_timer_tick m me) me ≡ true) ↔ (queue m me ≢ [])
unfolding task_timer_tick tick_running count_tick task_request_reschedule task_needs_schedule
idle_tick m me real idle run q =
    (λ e n. ground (arith, real, idle, run, q, n), λ ne. ground (arith, real, idle, run, q, ne))
