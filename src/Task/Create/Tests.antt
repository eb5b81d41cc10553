-- ===== src/Task/Create/Tests.antt =====
-- Tasks created on a machine of two CPUs with a fresh heap.
use zoho_os_chatbot.Base.{ℕ, ◌-◌, ◌≡◌, refl, Bool, false, [], arith}
use zoho_os_chatbot.Kmalloc
use zoho_os_chatbot.Kmalloc.Invariant.{init-IsValid}
use zoho_os_chatbot.Task.{running, Task, Cpu}
use zoho_os_chatbot.Task.Create.{task_size, stack_size, Kernel, task_create, task_create_user}
use zoho_os_chatbot.Task.Create.Placed.{Created, task_create_lem}
use zoho_os_chatbot.Task.Create.Forked.{Forked}

abbrev parent : Task
parent = record {
  id = 1;
  rsp = 0x5000;
  stack_bottom = 0x4000;
  user_stack_bottom = 0x6000;
  kernel_rsp = 0x50B0;
  pml4 = 0x9000;
  state = running;
  cpu_id = 0;
  timeslice = 4;
  total_ticks = 0;
}

abbrev cpu : ℕ → Cpu
cpu id = record {
  id = id;
  current_task = 0x3000;
  need_resched = false;
  total_ticks = 0;
  idle_ticks = 0;
  runqueue = [];
  idle_task = 0x2000;
  kernel_stack = 0;
  cr3 = 0x9000;
}

abbrev kernel : Kernel
kernel = record {
  machine = record { tasks = λ _. parent; cpus = cpu; cpu_count = 2; reaped = [] };
  heap = Kmalloc.init;
  memory = λ a. a;
  next_id = 7;
}

created_at : (early : Bool) → (task_create early kernel 0 0x8000).0 ≡ 0x1000018
unfolding task_create Kmalloc.kmalloc Kmalloc.init
created_at early = refl

user_created_at : (task_create_user kernel 0x9000 0x8000).0 ≡ 0x1000018
unfolding task_create_user Kmalloc.kmalloc Kmalloc.init
user_created_at = refl

memory_given :
    let a = Kmalloc.kmalloc Kmalloc.init task_size in
    let b = Kmalloc.kmalloc a.heap stack_size in
    let u = Kmalloc.kmalloc b.heap stack_size in
    (a.ptr ≡ 0x1000018) × (b.ptr ≡ 0x1000080) × (u.ptr ≡ 0x1004098)
unfolding Kmalloc.kmalloc Kmalloc.init
memory_given = (refl, refl, refl)

task_create_lem_example :
    let r = task_create false kernel 0 0x8000 in
    let x = r.1.machine.tasks r.0 in
    Created kernel 0x10 (x.kernel_rsp - 8) 0x08 0x8000 r
    × (x.pml4 ≡ 0x9000)
    × (x.user_stack_bottom ≡ 0)
task_create_lem_example =
    task_create_lem false kernel 0 0x8000 init-IsValid
      ((λ e. omega (arith, memory_given.0)), (λ e. omega (arith, memory_given.1))) (omega arith)
      (λ i e. omega (arith, created_at false))
