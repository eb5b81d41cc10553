-- ===== src/Task/Create/Forked.antt =====
-- `task_fork` of src/kernel/task.c.
use zoho_os_chatbot.Base.{ℕ, ◌+◌, ◌-◌, ◌<◌, ◌≤◌, ◌≡◌, ◌≢◌, ◌⊎◌, [], ◌∷◌, ◌++◌}
use zoho_os_chatbot.Kmalloc
use zoho_os_chatbot.Kmalloc.Invariant.{heap_end, IsValid}
use zoho_os_chatbot.Task.{ready, Task, queue}
use zoho_os_chatbot.Task.Create.{Kernel, stack_size}

-- The child of `parent`: it resumes from a copy of the parent's saved words, as deep below the top of
-- its own stack, in which the first word is 0, the result of its fork.
pub record Forked (k : Kernel) (me pml4 : ℕ) (parent : Task) (r : ℕ × ℕ × Kernel) : Type 0 where
  pub id : r.0 ≡ k.next_id
  pub numbered : (r.2.machine.tasks r.1).id ≡ k.next_id
  pub state : (r.2.machine.tasks r.1).state ≡ ready
  pub space : (r.2.machine.tasks r.1).pml4 ≡ pml4
  pub depth :
      (r.2.machine.tasks r.1).rsp + (parent.kernel_rsp - parent.rsp)
      ≡ (r.2.machine.tasks r.1).kernel_rsp
  pub result : r.2.memory (r.2.machine.tasks r.1).rsp ≡ 0
  pub frame :
      (i : ℕ)
      → 0 < i
      → i < parent.kernel_rsp - parent.rsp
      → r.2.memory ((r.2.machine.tasks r.1).rsp + i) ≡ k.memory (parent.rsp + i)
  pub rest :
      (a : ℕ)
      → (a < (r.2.machine.tasks r.1).rsp) ⊎ ((r.2.machine.tasks r.1).kernel_rsp ≤ a)
      → r.2.memory a ≡ k.memory a
  pub queued : queue r.2.machine me ≡ queue k.machine me ++ (r.1 ∷ [])
  pub heap : IsValid r.2.heap
  pub real : r.1 ≢ 0
  pub inside :
      (Kmalloc.heap_start ≤ (r.2.machine.tasks r.1).stack_bottom)
      × ((r.2.machine.tasks r.1).kernel_rsp ≤ heap_end)
  pub user_stack :
      ((parent.user_stack_bottom ≡ 0) × ((r.2.machine.tasks r.1).user_stack_bottom ≡ 0))
      ⊎ ((parent.user_stack_bottom ≢ 0)
          × (Kmalloc.heap_start ≤ (r.2.machine.tasks r.1).user_stack_bottom)
          × ((r.2.machine.tasks r.1).user_stack_bottom + stack_size ≤ heap_end))
