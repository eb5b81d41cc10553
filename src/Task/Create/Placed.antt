-- ===== src/Task/Create/Placed.antt =====
-- Where the new task of src/kernel/task.c goes: onto the run queue of a CPU with the least load.
use zoho_os_chatbot.Base.{
  ℕ, ◌+◌, ◌-◌, ◌<◌, ◌≤◌, ◌≡◌, ◌≢◌, refl, ap, sym, ◌∙◌, inl, inr, Bool, [], ◌∷◌, ◌++◌, arith,
  if◌then◌else◌, u64,
}
use mathlib.Core.Path.{subst}
use zoho_os_chatbot.Kmalloc
use zoho_os_chatbot.Kmalloc.Invariant.{
  IsValid, kmalloc-IsValid, kmalloc_lem, heap_end, round_up_lem,
}
use zoho_os_chatbot.Task.{ready, Task, Machine, default_timeslice, queue, set_task, enqueue_task}
use zoho_os_chatbot.Task.Placement.{load, pick_least_loaded_cpu, pick_least_loaded_cpu_lem}
use zoho_os_chatbot.Task.Create.{
  Kernel, task_size, stack_size, push_frame, fresh_task, place, task_create, task_create_user,
}
use zoho_os_chatbot.Task.Create.Frames.{Framed, push_frame-Framed}

-- The task at `t`, with the fields of `x`, is the last of the queue of a CPU that had the least load,
-- and nothing else has changed.
pub record Placed (m : Machine) (t : ℕ) (x : Task) (new : Machine) : Type 0 where
  pub cpu : ℕ
  pub known : cpu < m.cpu_count
  pub least : (j : ℕ) → j < m.cpu_count → load m cpu ≤ load m j
  pub queued : queue new cpu ≡ queue m cpu ++ (t ∷ [])
  pub other_cpus : (j : ℕ) → cpu ≢ j → new.cpus j ≡ m.cpus j
  pub task : new.tasks t ≡ record x { cpu_id = (m.cpus cpu).id }
  pub other_tasks : (u : ℕ) → t ≢ u → new.tasks u ≡ m.tasks u

load-set_task :
    (m : Machine) (t : ℕ) (x : Task) (i : ℕ)
    → (m.cpus i).current_task ≢ t
    → load (set_task m t x) i ≡ load m i
unfolding load
load-set_task m t x i h = ground arith

pub place-Placed :
    (m : Machine) (t : ℕ) (x : Task)
    → ((i : ℕ) → (m.cpus i).current_task ≢ t)
    → 0 < m.cpu_count
    → Placed m t x (place m t x)
unfolding place enqueue_task
place-Placed m t x h c =
    let w = set_task m t x in
    let i = pick_least_loaded_cpu w in
    let p = pick_least_loaded_cpu_lem w c in
    record {
      cpu = i;
      known = p.0;
      least =
          λ j lt. omega (arith, p.1 j lt, load-set_task m t x i (h i), load-set_task m t x j (h j));
      queued = ground arith;
      other_cpus = λ j ne. ground arith;
      task = ground arith;
      other_tasks = λ u ne. ground arith;
    }

-- A stack that the heap gave out lies in the heap.
pub stack_inside :
    (h : Kmalloc.Heap)
    → IsValid h
    → let b = Kmalloc.kmalloc h stack_size in
      b.ptr ≢ 0 → (Kmalloc.heap_start ≤ b.ptr) × (b.ptr + stack_size ≤ heap_end)
stack_inside h v ne = elim (kmalloc_lem stack_size v) [
  | inl (z, _, _) ↦ absurd (ne z)
  | inr g ↦
      let (got, pre, post, enough, waste, below, u, u') = g.region in
      (
        omega (arith, g.above),
        omega (arith, below, enough, (round_up_lem stack_size (omega arith)).1 (omega arith)),
      )
]

-- What the functions that create a task promise of the result `r`: the task has the next number, is
-- ready with a whole timeslice, waits on a least loaded CPU, and its stack pointer leads to the frame
-- of its entry at the top of its stack; the heap stays well-formed, and the stack lies in it.
pub record Created (k : Kernel) (seg sp code start : ℕ) (r : ℕ × Kernel) : Type 0 where
  pub id : (r.1.machine.tasks r.0).id ≡ k.next_id
  pub next_id : r.1.next_id ≡ u64 (k.next_id + 1)
  pub slice : (r.1.machine.tasks r.0).timeslice ≡ default_timeslice
  pub state : (r.1.machine.tasks r.0).state ≡ ready
  pub top : (r.1.machine.tasks r.0).kernel_rsp ≡ (r.1.machine.tasks r.0).stack_bottom + stack_size
  pub framed :
      Framed k.memory r.1.memory
        (r.1.machine.tasks r.0).rsp
        (r.1.machine.tasks r.0).kernel_rsp
        seg
        sp
        code
        start
  pub placed : Placed k.machine r.0 (r.1.machine.tasks r.0) r.1.machine
  pub heap : IsValid r.1.heap
  pub real : r.0 ≢ 0
  pub inside :
      (Kmalloc.heap_start ≤ (r.1.machine.tasks r.0).stack_bottom)
      × ((r.1.machine.tasks r.0).kernel_rsp ≤ heap_end)

-- Placing a task whose fields are known.
Placed-self :
    (m : Machine) (t : ℕ) (x : Task) (new : Machine)
    → Placed m t x new
    → Placed m t (new.tasks t) new
Placed-self m t x new p = record {
  cpu = p.cpu;
  known = p.known;
  least = p.least;
  queued = p.queued;
  other_cpus = p.other_cpus;
  task = p.task ∙ sym (ap (λ (y : Task). record y { cpu_id = (m.cpus p.cpu).id }) p.task);
  other_tasks = p.other_tasks;
}

-- The common part of the functions: `t` is the task's memory, and `h` the heap from which the kernel
-- stack is taken.
new_task : Kernel → ℕ → Kmalloc.Heap → ℕ → ℕ → ℕ → ℕ → ℕ → ℕ → ℕ × Kernel
new_task k t h ub pml4 seg sp code start =
    let b = Kmalloc.kmalloc h stack_size in
    let top = b.ptr + stack_size in
    let s = push_frame (record { memory = k.memory; top = top }) seg sp code start in
    (
      t,
      record {
        machine = place k.machine t (fresh_task k.next_id s.top b.ptr ub top pml4);
        heap = b.heap;
        memory = s.memory;
        next_id = u64 (k.next_id + 1);
      },
    )

new_task-Created :
    (k : Kernel) (t : ℕ) (h : Kmalloc.Heap) (ub pml4 seg sp code start : ℕ)
    → IsValid h
    → t ≢ 0
    → (Kmalloc.kmalloc h stack_size).ptr ≢ 0
    → 0 < k.machine.cpu_count
    → ((i : ℕ) → (k.machine.cpus i).current_task ≢ t)
    → let r = new_task k t h ub pml4 seg sp code start in
      let x = r.1.machine.tasks r.0 in
      Created k seg sp code start r
      × (x.pml4 ≡ pml4)
      × (x.user_stack_bottom ≡ ub)
      × (x.kernel_rsp ≡ (Kmalloc.kmalloc h stack_size).ptr + stack_size)
unfolding new_task
new_task-Created k t h ub pml4 seg sp code start v given stack c ne =
    let b = Kmalloc.kmalloc h stack_size in
    let top = b.ptr + stack_size in
    let s = push_frame (record { memory = k.memory; top = top }) seg sp code start in
    let x = fresh_task k.next_id s.top b.ptr ub top pml4 in
    let p = place-Placed k.machine t x ne c in
    let f =
      push_frame-Framed (record { memory = k.memory; top = top }) seg sp code start (omega arith) in
    let field = λ (g : Task → ℕ). ap g p.task in
    (
      record {
        id = field (λ y. y.id);
        next_id = refl;
        slice = field (λ y. y.timeslice);
        state = ap (λ (y : Task). y.state) p.task;
        top = omega (arith, field (λ y. y.kernel_rsp), field (λ y. y.stack_bottom));
        framed =
            subst (λ (y : Task). Framed k.memory s.memory y.rsp y.kernel_rsp seg sp code start)
              (sym p.task) f;
        placed = Placed-self k.machine t x (place k.machine t x) p;
        heap = kmalloc-IsValid stack_size (omega arith) v;
        real = given;
        inside =
            subst (λ (y : Task). (Kmalloc.heap_start ≤ y.stack_bottom) × (y.kernel_rsp ≤ heap_end))
              (sym p.task) (stack_inside h v stack);
      },
      field (λ y. y.pml4),
      field (λ y. y.user_stack_bottom),
      field (λ y. y.kernel_rsp),
    )

-- Where the heap is well-formed and has memory for the task and for its stack, there is a CPU, and no CPU runs a task at
-- that address, `task_create` makes a kernel task with the kernel's segments, the address space of the CPU that
-- creates it, and a stack pointer at the top of its own stack or one word below, by the order of the
-- second push; whichever it is, the other promises of `Created` hold.
pub task_create_lem :
    (early : Bool) (k : Kernel) (me start : ℕ)
    → IsValid k.heap
    → (let a = Kmalloc.kmalloc k.heap task_size in
        (a.ptr ≢ 0) × ((Kmalloc.kmalloc a.heap stack_size).ptr ≢ 0))
    → 0 < k.machine.cpu_count
    → ((i : ℕ) → (k.machine.cpus i).current_task ≢ (task_create early k me start).0)
    → let r = task_create early k me start in
      let x = r.1.machine.tasks r.0 in
      Created k 0x10 (if early then x.kernel_rsp else x.kernel_rsp - 8) 0x08 start r
      × (x.pml4 ≡ (k.machine.cpus me).cr3)
      × (x.user_stack_bottom ≡ 0)
unfolding task_create new_task
task_create_lem early k me start v given c ne =
    let a = Kmalloc.kmalloc k.heap task_size in
    let top = (Kmalloc.kmalloc a.heap stack_size).ptr + stack_size in
    let sp = λ (rsp : ℕ). if early then rsp else rsp - 8 in
    let q =
      new_task-Created k a.ptr a.heap 0 (k.machine.cpus me).cr3 0x10 (sp top) 0x08 start
        (kmalloc-IsValid task_size (omega arith) v) given.0 given.1 c ne in
    (
      subst (λ rsp. Created k 0x10 (sp rsp) 0x08 start (task_create early k me start)) (sym q.3)
          q.0,
      q.1,
      q.2,
    )

-- Under the same conditions, with memory also for the user stack, `task_create_user` makes a user task with the user's segments, the address space that it is given,
-- and a stack pointer at the top of a stack of its own.
pub task_create_user_lem :
    (k : Kernel) (pml4 start : ℕ)
    → IsValid k.heap
    → (let a = Kmalloc.kmalloc k.heap task_size in
        let u = Kmalloc.kmalloc a.heap stack_size in
        (a.ptr ≢ 0) × (u.ptr ≢ 0) × ((Kmalloc.kmalloc u.heap stack_size).ptr ≢ 0))
    → 0 < k.machine.cpu_count
    → ((i : ℕ) → (k.machine.cpus i).current_task ≢ (task_create_user k pml4 start).0)
    → let r = task_create_user k pml4 start in
      let x = r.1.machine.tasks r.0 in
      Created k 0x1B (x.user_stack_bottom + stack_size) 0x23 start r × (x.pml4 ≡ pml4)
unfolding task_create_user new_task
task_create_user_lem k pml4 start v given c ne =
    let a = Kmalloc.kmalloc k.heap task_size in
    let u = Kmalloc.kmalloc a.heap stack_size in
    let va = kmalloc-IsValid task_size (omega arith) v in
    let q =
      new_task-Created k a.ptr u.heap u.ptr pml4 0x1B (u.ptr + stack_size) 0x23 start
        (kmalloc-IsValid stack_size (omega arith) va) given.0 given.2 c ne in
    (
      subst (λ ub. Created k 0x1B (ub + stack_size) 0x23 start (task_create_user k pml4 start))
          (sym q.2) q.0,
      q.1,
    )
