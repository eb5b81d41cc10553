-- ===== src/Task.antt =====
-- Tasks and the scheduler of src/kernel/task.c. A task is named by the address of its `task_t`, 0
-- being NULL. `Task.Runqueue` models a run queue with its pointers; here a run queue is the list of
-- the tasks that its pointers lead to, oldest first.
pub mod Runqueue
pub mod Fetching
pub mod Picking
pub mod Schedule
pub mod Placement
pub mod Timer
pub mod Create
pub mod Snapshot
mod Tests
use zoho_os_chatbot.Base.{
  ℕ, zero, suc, ◌+◌, ◌-◌, ◌^◌, Bool, true, false, not, ◌&&◌, Option, none, some, List, [], ◌∷◌,
  ◌++◌, ltb, leb, ◌==◌, if◌then◌else◌, u32, u64, update, length,
}

pub data State : Type 0 where
  ready running exited : State

pub record Task : Type 0 where
  pub id : ℕ
  pub rsp : ℕ
  pub stack_bottom : ℕ
  pub user_stack_bottom : ℕ
  pub kernel_rsp : ℕ
  pub pml4 : ℕ
  pub state : State
  pub cpu_id : ℕ
  pub timeslice : ℕ
  pub total_ticks : ℕ

-- The part of `cpu_t` that the scheduler uses, with the registers that it loads: the stack of
-- `tss_set_rsp0` and `syscall_set_kernel_stack`, and CR3.
pub record Cpu : Type 0 where
  pub id : ℕ
  pub current_task : ℕ
  pub need_resched : Bool
  pub total_ticks : ℕ
  pub idle_ticks : ℕ
  pub runqueue : List ℕ
  pub idle_task : ℕ
  pub kernel_stack : ℕ
  pub cr3 : ℕ

-- `reaped` is the list of the tasks that `task_reap` was called on, the last one first.
pub record Machine : Type 0 where
  pub tasks : ℕ → Task
  pub cpus : ℕ → Cpu
  pub cpu_count : ℕ
  pub reaped : List ℕ

abbrev pub default_timeslice : ℕ
default_timeslice = 4

abbrev pub queue : Machine → ℕ → List ℕ
queue m i = (m.cpus i).runqueue

abbrev pub set_queue : Machine → ℕ → List ℕ → Machine
set_queue m i q = record m { cpus = update m.cpus i (record (m.cpus i) { runqueue = q }) }

abbrev pub set_task : Machine → ℕ → Task → Machine
set_task m t x = record m { tasks = update m.tasks t x }

pub enqueue_task : Machine → ℕ → ℕ → Machine
enqueue_task m i t = set_queue m i (queue m i ++ (t ∷ []))

-- A task, 0 if there is none, and the new state.
pub record Fetched : Type 0 where
  pub task : ℕ
  pub machine : Machine

abbrev pub pop_head : Machine → ℕ → List ℕ → Fetched
pop_head m i [] = record { task = 0; machine = m }
pop_head m i (t ∷ ts) = record { task = t; machine = set_queue m i ts }

pub dequeue_task : Machine → ℕ → Fetched
dequeue_task m i = pop_head m i (queue m i)

-- `task_steal`: the rounds left, the index, and the CPU that steals.
steal_from : ℕ → ℕ → ℕ → Machine → Fetched
steal_from zero i me m = record { task = 0; machine = m }
steal_from (suc n) i me m = elim (i == me) [
  | true ↦ steal_from n (suc i) me m
  | false ↦ elim ((dequeue_task m i).task == 0) [
    | true ↦ steal_from n (suc i) me (dequeue_task m i).machine
    | false ↦
        let r = dequeue_task m i in
        record {
          task = r.task;
          machine =
              set_task r.machine r.task
                (record (r.machine.tasks r.task) { cpu_id = (m.cpus me).id });
        }
  ]
]

pub task_steal : Machine → ℕ → Fetched
unfolding steal_from
task_steal m me = steal_from m.cpu_count 0 me m

-- The head of the own queue, or else a stolen task.
pub fetch : Machine → ℕ → Fetched
unfolding dequeue_task task_steal
fetch m me = let r = dequeue_task m me in if r.task == 0 then task_steal r.machine me else r

-- `task_reap` gives back the task's memory and windows; here it is recorded.
abbrev pub task_reap : Machine → ℕ → Machine
task_reap m t = record m { reaped = t ∷ m.reaped }

-- The loop of `task_schedule`, on fuel.
pub pick_next : ℕ → Machine → ℕ → Option Fetched
pick_next zero m me = none
pick_next (suc fuel) m me = elim ((fetch m me).task == 0) [
  | true ↦ some (fetch m me)
  | false ↦ elim (((fetch m me).machine.tasks (fetch m me).task).state) [
    | exited ↦ pick_next fuel (task_reap (fetch m me).machine (fetch m me).task) me
    | ready ↦ some (fetch m me)
    | running ↦ pick_next fuel (enqueue_task (fetch m me).machine me (fetch m me).task) me
  ]
]

-- The outgoing task: its stack pointer is saved, and a running one is ready again, and queued unless
-- it is the idle task.
pub save_rsp : Machine → ℕ → ℕ → Machine
save_rsp m t rsp = set_task m t (record (m.tasks t) { rsp = rsp })

pub park : Machine → ℕ → Machine
park m t = set_task m t (record (m.tasks t) { state = ready })

requeue_as : State → Machine → ℕ → ℕ → Machine
requeue_as running m me t =
    if not ((m.tasks t).id == 0) then enqueue_task (park m t) me t else park m t
requeue_as ready m me t = m
requeue_as exited m me t = m

pub requeue_current : Machine → ℕ → ℕ → Machine
unfolding requeue_as
requeue_current m me rsp =
    let t = (m.cpus me).current_task in
    let s = save_rsp m t rsp in requeue_as (s.tasks t).state s me t

-- The switch to the incoming task.
pub switch_to : Machine → ℕ → ℕ → Machine
switch_to m me t =
    let x = m.tasks t in
    let slice : ℕ = if x.id == 0 then 0 else default_timeslice in
    record (set_task m t (record x { state = running; timeslice = slice })) {
      cpus =
          update m.cpus me
            (record (m.cpus me) { current_task = t; kernel_stack = x.kernel_rsp; cr3 = x.pml4 });
    }

finish_schedule : ℕ → Option Fetched → Option (ℕ × Machine)
finish_schedule me none = none
finish_schedule me (some r) =
    let t = if r.task == 0 then (r.machine.cpus me).idle_task else r.task in
    some ((r.machine.tasks t).rsp, switch_to r.machine me t)

-- The stack pointer to restore, and the new state; `none` means that the fuel ran out.
pub task_schedule : ℕ → Machine → ℕ → ℕ → Option (ℕ × Machine)
task_schedule fuel m me rsp =
    if (m.cpus me).current_task == 0
    then some (rsp, m)
    else (let cleared = record m {
      cpus = update m.cpus me (record (m.cpus me) { need_resched = false });
    } in
        finish_schedule me (pick_next fuel (requeue_current cleared me rsp) me))
