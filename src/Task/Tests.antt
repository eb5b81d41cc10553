-- ===== src/Task/Tests.antt =====
-- Two CPUs: CPU 0 runs task 11 and has an exited task queued, CPU 1 idles with one ready task queued.
use zoho_os_chatbot.Base.{
  ℕ, zero, suc, ◌+◌, ◌<◌, ◌≡◌, ◌≢◌, refl, false, some, List, [], ◌∷◌, arith, ◌==◌, if◌then◌else◌,
  All, ◌*◌, take,
}
use zoho_os_chatbot.Task.{
  State, ready, running, exited, Task, Cpu, Machine, queue, Fetched, requeue_current, save_rsp,
  park, enqueue_task, fetch, pick_next, switch_to, finish_schedule, task_schedule,
}
use mathlib.Core.Option
use zoho_os_chatbot.Task.Runqueue.{
  Links, IsQueue, enqueue, dequeue, enqueue_refines, dequeue_refines,
}
use zoho_os_chatbot.Task.Picking.{total_from, IsSettled, Picked}
use zoho_os_chatbot.Task.Schedule.{Switched, cleared, task_schedule_lem}
use zoho_os_chatbot.Task.Snapshot.{all_infos, task_get_all_info, task_get_all_info_lem}
use zoho_os_chatbot.Task.Timer.{Runs}

abbrev links : Links
links = record {
  next = λ a. if a == 8 then 9 else 0;
  rq = record { head = 8; tail = 9; count = 2 };
}

links-IsQueue : IsQueue links (8 ∷ 9 ∷ [])
links-IsQueue = record {
  chain = (refl, omega arith, (refl, omega arith, refl));
  last = refl;
  count = refl;
  small = omega arith;
  distinct = (refl, (refl, tt));
}

enqueue_refines_example : IsQueue (enqueue links 5) (8 ∷ 9 ∷ 5 ∷ [])
enqueue_refines_example =
    enqueue_refines links 5 (8 ∷ 9 ∷ []) (omega arith) refl (omega arith) links-IsQueue

dequeue_refines_example : ((dequeue links).0 ≡ 8) × IsQueue (dequeue links).1 (9 ∷ [])
dequeue_refines_example = dequeue_refines links (8 ∷ 9 ∷ []) links-IsQueue

abbrev task : ℕ → State → Task
task id state = record {
  id = id;
  rsp = 0x100 * id;
  stack_bottom = 0;
  user_stack_bottom = 0;
  kernel_rsp = 0x1000 * id;
  pml4 = 0x10000 * id;
  state = state;
  cpu_id = 0;
  timeslice = 4;
  total_ticks = 0;
}

abbrev tasks : ℕ → Task
tasks a =
    if a == 11
    then task 1 running
    else if a == 12
    then task 2 exited
    else if a == 13
    then task 3 ready
    else task 0 running

abbrev cpu : ℕ → ℕ → List ℕ → Cpu
cpu id current q = record {
  id = id;
  current_task = current;
  need_resched = false;
  total_ticks = 0;
  idle_ticks = 0;
  runqueue = q;
  idle_task = 20 + id;
  kernel_stack = 0;
  cr3 = 0;
}

abbrev machine : Machine
machine = record {
  tasks = tasks;
  cpus =
      λ i. if i == 0 then cpu 0 11 (12 ∷ []) else if i == 1 then cpu 1 21 (13 ∷ []) else cpu i 0 [];
  cpu_count = 2;
  reaped = [];
}

machine-queue : (i : ℕ) → (i ≢ 0) → (i ≢ 1) → queue machine i ≡ []
machine-queue i a b = ground arith

machine-IsSettled : (me : ℕ) → me < 2 → IsSettled machine me
machine-IsSettled me lt = record { no_null = λ i. ground arith; counted = lt; states = states }
  where
    states : (i : ℕ) → All (λ t. (machine.tasks t).state ≢ running) (queue machine i)
    states zero = (λ e. cc, tt)
    states (suc zero) = (λ e. cc, tt)
    states (suc (suc i)) = rw (machine-queue (suc (suc i)) (omega arith) (omega arith)) tt

abbrev outcome : ℕ × Machine → ℕ × List ℕ
outcome out = ((out.1.cpus 0).current_task, out.1.reaped)

-- CPU 0 queues task 11 behind the exited one, reaps that, and goes on with 11.
schedule_runs : Option.map outcome (task_schedule 5 machine 0 77) ≡ some (11, 12 ∷ [])
unfolding task_schedule finish_schedule switch_to requeue_current save_rsp park enqueue_task
    pick_next fetch
schedule_runs = refl

task_schedule_lem_example :
    (out : ℕ × Machine) × (r : Fetched) × (t : ℕ) × (task_schedule 5 machine 0 77 ≡ some out)
    × Picked (requeue_current (cleared machine 0) 0 77) 0 r
    × (t ≡ (if r.task == 0 then (r.machine.cpus 0).idle_task else r.task))
    × Switched 0 t (r.machine.tasks t) out
unfolding total_from
task_schedule_lem_example =
    task_schedule_lem 5 machine 0 77 (omega arith) (machine-IsSettled 0 (omega arith)) (omega arith)

runs : Runs machine 0 11 4
runs = record { current = refl; real = omega arith; user = omega arith; state = refl; slice = refl }

task_get_all_info_lem_example : task_get_all_info machine 2 ≡ take 2 (all_infos machine 2 0)
task_get_all_info_lem_example = task_get_all_info_lem machine 2
