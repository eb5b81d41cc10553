-- ===== src/Task/Create.antt =====
-- The creation of tasks in src/kernel/task.c: the task's memory from the heap, its number, the frame
-- on its kernel stack from which the scheduler's interrupt returns into it, and its run queue.
pub mod Frames
pub mod Placed
pub mod Forked
mod Tests
use zoho_os_chatbot.Base.{
  ℕ, zero, suc, ◌+◌, ◌-◌, ◌*◌, ◌^◌, Bool, true, false, not, ◌&&◌, Option, none, some, List, [], ◌∷◌,
  ◌++◌, ltb, leb, ◌==◌, if◌then◌else◌, u64, update,
}
use zoho_os_chatbot.Kmalloc
use zoho_os_chatbot.Task.{
  ready, running, Task, Cpu, Machine, default_timeslice, set_task, enqueue_task,
}
use zoho_os_chatbot.Task.Placement.{pick_least_loaded_cpu}

-- The heap, and the memory as words of eight bytes by their addresses.
pub record Kernel : Type 0 where
  pub machine : Machine
  pub heap : Kmalloc.Heap
  pub memory : ℕ → ℕ
  pub next_id : ℕ

-- `sizeof(task_t)`, and the size of each stack.
abbrev pub task_size : ℕ
task_size = 80

abbrev pub stack_size : ℕ
stack_size = 4096 * 4

-- The memory and the pointer `stack`.
pub record Stack : Type 0 where
  pub memory : ℕ → ℕ
  pub top : ℕ

-- `*(--stack) = value`
abbrev pub push : Stack → ℕ → Stack
push s value = record { memory = update s.memory (s.top - 8) value; top = s.top - 8 }

pub push_zeros : ℕ → Stack → Stack
push_zeros zero s = s
push_zeros (suc n) s = push_zeros n (push s 0)

-- SS, RSP, RFLAGS, CS, RIP, two words of zeros and fifteen registers.
pub push_frame : Stack → ℕ → ℕ → ℕ → ℕ → Stack
unfolding push_zeros
push_frame s ss rsp cs entry =
    let interrupt = push (push (push (push (push s ss) rsp) 0x202) cs) entry in
    push_zeros 15 (push (push interrupt 0) 0)

-- The fields of a task that was just filled in, less its place.
abbrev pub fresh_task : ℕ → ℕ → ℕ → ℕ → ℕ → ℕ → Task
fresh_task id rsp bottom user_bottom kernel_rsp pml4 = record {
  id = id;
  rsp = rsp;
  stack_bottom = bottom;
  user_stack_bottom = user_bottom;
  kernel_rsp = kernel_rsp;
  pml4 = pml4;
  state = ready;
  cpu_id = 0;
  timeslice = default_timeslice;
  total_ticks = 0;
}

-- The last statements of the three functions: the CPU with the least load gets the task.
pub place : Machine → ℕ → Task → Machine
place m t x =
    let written = set_task m t x in
    let target = pick_least_loaded_cpu written in
    enqueue_task (set_task written t (record x { cpu_id = (m.cpus target).id })) target t

-- `task_create` on the CPU `me`. C leaves open whether the `stack` on the right of the second push
-- is read before or after it is lowered: `early` says which. The code does not test whether `kmalloc`
-- gave memory. Where it gave none, this function puts the task at 0, and does not follow the code: that
-- writes to the address 0, and a run queue then links 0 as its end.
pub task_create : Bool → Kernel → ℕ → ℕ → ℕ × Kernel
unfolding push_frame place
task_create early k me entry =
    let a = Kmalloc.kmalloc k.heap task_size in
    let b = Kmalloc.kmalloc a.heap stack_size in
    let kernel_rsp = b.ptr + stack_size in
    let rsp : ℕ = if early then kernel_rsp else kernel_rsp - 8 in
    let s = push_frame (record { memory = k.memory; top = kernel_rsp }) 0x10 rsp 0x08 entry in
    let x = fresh_task k.next_id s.top b.ptr 0 kernel_rsp (k.machine.cpus me).cr3 in
    (
      a.ptr,
      record {
        machine = place k.machine a.ptr x;
        heap = b.heap;
        memory = s.memory;
        next_id = u64 (k.next_id + 1);
      },
    )

-- `task_create_user`, with the address space that `vmm_create_address_space` has returned.
pub task_create_user : Kernel → ℕ → ℕ → ℕ × Kernel
unfolding push_frame place
task_create_user k pml4 entry =
    let a = Kmalloc.kmalloc k.heap task_size in
    let u = Kmalloc.kmalloc a.heap stack_size in
    let b = Kmalloc.kmalloc u.heap stack_size in
    let kernel_rsp = b.ptr + stack_size in
    let s =
      push_frame (record { memory = k.memory; top = kernel_rsp }) 0x1B (u.ptr + stack_size) 0x23
        entry in
    let x = fresh_task k.next_id s.top b.ptr u.ptr kernel_rsp pml4 in
    (
      a.ptr,
      record {
        machine = place k.machine a.ptr x;
        heap = b.heap;
        memory = s.memory;
        next_id = u64 (k.next_id + 1);
      },
    )

-- `task_exec`, with what `elf_load` has returned: the entry point and the address space. The rest is
-- the text of `task_create_user`.
pub task_exec : Kernel → Option (ℕ × ℕ) → ℕ × Kernel
unfolding task_create_user
task_exec k none = (0, k)
task_exec k (some (entry, pml4)) = task_create_user k pml4 entry

-- `memcpy` of whole words.
abbrev pub copy_words : (ℕ → ℕ) → ℕ → ℕ → ℕ → ℕ → ℕ
copy_words memory to from n a =
    if leb to a && ltb a (to + n) then memory (from + (a - to)) else memory a

-- `task_fork` on the CPU `me`, with the address space that `vmm_clone_address_space` has returned.
-- The result is the child's number and its address. As in `task_create`, memory is not tested for, and
-- the case of none is not followed.
pub task_fork : Kernel → ℕ → ℕ → ℕ × ℕ × Kernel
task_fork k me pml4 =
    let parent = k.machine.tasks (k.machine.cpus me).current_task in
    let a = Kmalloc.kmalloc k.heap task_size in
    let b = Kmalloc.kmalloc a.heap stack_size in
    let u = Kmalloc.kmalloc b.heap stack_size in
    let shared = parent.user_stack_bottom == 0 in
    let user_bottom : ℕ = if shared then 0 else u.ptr in
    let offset = parent.kernel_rsp - parent.rsp in
    let kernel_rsp = b.ptr + stack_size in
    let copied = copy_words k.memory (kernel_rsp - offset) parent.rsp offset in
    let x = fresh_task k.next_id (kernel_rsp - offset) b.ptr user_bottom kernel_rsp pml4 in
    let child : Task = record x { cpu_id = parent.cpu_id } in
    (
      k.next_id,
      a.ptr,
      record {
        machine = enqueue_task (set_task k.machine a.ptr child) me a.ptr;
        heap = if shared then b.heap else u.heap;
        memory = update copied (kernel_rsp - offset) 0;
        next_id = u64 (k.next_id + 1);
      },
    )

-- `task_init_per_cpu`, for the CPU `me`: its run queue is empty and it runs an idle task of its own,
-- whose count of ticks is not set.
pub task_init_per_cpu : Kernel → ℕ → Kernel
task_init_per_cpu k me =
    let a = Kmalloc.kmalloc k.heap task_size in
    let c = k.machine.cpus me in
    let idle : Task = record (k.machine.tasks a.ptr) {
      id = 0;
      state = running;
      cpu_id = c.id;
      rsp = 0;
      kernel_rsp = 0;
      stack_bottom = 0;
      user_stack_bottom = 0;
      timeslice = 0;
      pml4 = c.cr3;
    } in
    let started : Cpu = record c {
      runqueue = [];
      idle_task = a.ptr;
      current_task = a.ptr;
      total_ticks = 0;
      idle_ticks = 0;
    } in
    record k {
      machine = record (set_task k.machine a.ptr idle) { cpus = update k.machine.cpus me started };
      heap = a.heap;
    }

-- `task_init_global`
pub task_init_global : Kernel → Kernel
task_init_global k = record k { next_id = 1 }
