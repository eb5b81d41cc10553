-- ===== src/Task/Snapshot.antt =====
-- `task_get_all_info` of src/kernel/task.c: a snapshot of all tasks, cut to the caller's array.
use zoho_os_chatbot.Base.{
  ℕ, zero, suc, ◌≤◌, ◌≡◌, refl, sym, ap, ◌∙◌, List, [], ◌∷◌, ◌++◌, map, append-nil, append_assoc,
  arith, ltb, ◌==◌, if◌then◌else◌, length, take, Bool-cases, inl, inr, length-append, length-take,
  take-take_append,
}
use mathlib.Core.Path.{subst}
use zoho_os_chatbot.Task.{State, Machine, queue}

pub record TaskInfo : Type 0 where
  pub id : ℕ
  pub cpu_id : ℕ
  pub total_ticks : ℕ
  pub state : State

-- The entry for the task `t`, seen on the CPU `i`.
abbrev pub task_info : Machine → ℕ → ℕ → TaskInfo
task_info m i t =
    let x = m.tasks t in
    record { id = x.id; cpu_id = (m.cpus i).id; total_ticks = x.total_ticks; state = x.state }

-- One entry more, if `count < max_tasks`.
pub put_info : ℕ → List TaskInfo → TaskInfo → List TaskInfo
put_info max out x = if ltb (length out) max then out ++ (x ∷ []) else out

pub put_queue : Machine → ℕ → ℕ → List ℕ → List TaskInfo → List TaskInfo
unfolding put_info
put_queue m max i [] out = out
put_queue m max i (t ∷ ts) out = put_queue m max i ts (put_info max out (task_info m i t))

-- The current task of a CPU, and then the tasks of its run queue.
pub put_cpu : Machine → ℕ → ℕ → List TaskInfo → List TaskInfo
unfolding put_queue
put_cpu m max i out =
    let t = (m.cpus i).current_task in
    put_queue m max i (queue m i) (if t == 0 then out else put_info max out (task_info m i t))

-- The loop over the CPUs: the rounds left and the index.
put_cpus : Machine → ℕ → ℕ → ℕ → List TaskInfo → List TaskInfo
unfolding put_cpu
put_cpus m max zero i out = out
put_cpus m max (suc n) i out = put_cpus m max n (suc i) (put_cpu m max i out)

pub task_get_all_info : Machine → ℕ → List TaskInfo
unfolding put_cpus
task_get_all_info m max = put_cpus m max m.cpu_count 0 []

-- All tasks of a CPU, and of the CPUs from `i` on.
abbrev pub cpu_infos : Machine → ℕ → List TaskInfo
cpu_infos m i =
    let t = (m.cpus i).current_task in
    (if t == 0 then [] else task_info m i t ∷ []) ++ map (task_info m i) (queue m i)

abbrev pub all_infos : Machine → ℕ → ℕ → List TaskInfo
all_infos m zero i = []
all_infos m (suc n) i = cpu_infos m i ++ all_infos m n (suc i)

take-short : (n : ℕ) (xs : List TaskInfo) → length xs ≤ n → take n xs ≡ xs
take-short zero [] h = refl
take-short zero (x ∷ xs) h = absurd (omega arith)
take-short (suc n) [] h = refl
take-short (suc n) (x ∷ xs) h = ap (λ l. x ∷ l) (take-short n xs (omega arith))

take-full : (n : ℕ) (xs ys : List TaskInfo) → n ≤ length xs → take n (xs ++ ys) ≡ take n xs
take-full zero xs ys h = refl
take-full (suc n) [] ys h = absurd (omega arith)
take-full (suc n) (x ∷ xs) ys h = ap (λ l. x ∷ l) (take-full n xs ys (omega arith))

put_info-take :
    (max : ℕ) (out : List TaskInfo) (x : TaskInfo)
    → length out ≤ max
    → put_info max out x ≡ take max (out ++ (x ∷ []))
unfolding put_info
put_info-take max out x h = elim (Bool-cases (ltb (length out) max)) [
  | inl y ↦
      rw y (sym (take-short max (out ++ (x ∷ [])) (ground (arith, length-append out (x ∷ [])))))
  | inr y ↦ rw y (sym (take-full max out (x ∷ []) (ground arith) ∙ take-short max out h))
]

-- The array is the first `max` of the entries so far, and stays so.
Cut : ℕ → List TaskInfo → List TaskInfo → Type 0
Cut max all out = out ≡ take max all

Cut-take :
    (max : ℕ) (all out ys : List TaskInfo)
    → Cut max all out
    → take max (out ++ ys) ≡ take max (all ++ ys)
unfolding Cut
Cut-take max all out ys c = rw c (take-take_append max all ys)

Cut-length : (max : ℕ) (all out : List TaskInfo) → Cut max all out → length out ≤ max
unfolding Cut
Cut-length max all out c = rw c (omega (arith, length-take max all))

put_info-Cut :
    (max : ℕ) (all out : List TaskInfo) (x : TaskInfo)
    → Cut max all out
    → Cut max (all ++ (x ∷ [])) (put_info max out x)
unfolding Cut
put_info-Cut max all out x c =
    put_info-take max out x (Cut-length max all out c) ∙ Cut-take max all out (x ∷ []) c

put_queue-Cut :
    (m : Machine) (max i : ℕ) (ts : List ℕ) (all out : List TaskInfo)
    → Cut max all out
    → Cut max (all ++ map (task_info m i) ts) (put_queue m max i ts out)
unfolding put_queue
put_queue-Cut m max i [] all out c = subst (λ l. Cut max l out) (sym (append-nil all)) c
put_queue-Cut m max i (t ∷ ts) all out c =
    let x = task_info m i t in
    subst (λ l. Cut max l (put_queue m max i ts (put_info max out x)))
      (append_assoc all (x ∷ []) (map (task_info m i) ts))
      (put_queue-Cut m max i ts (all ++ (x ∷ [])) (put_info max out x)
        (put_info-Cut max all out x c))

put_cpu-Cut :
    (m : Machine) (max i : ℕ) (all out : List TaskInfo)
    → Cut max all out
    → Cut max (all ++ cpu_infos m i) (put_cpu m max i out)
unfolding put_cpu
put_cpu-Cut m max i all out c = elim (Bool-cases ((m.cpus i).current_task == 0)) [
  | inl y ↦ rw y (put_queue-Cut m max i (queue m i) all out c)
  | inr y ↦
      let x = task_info m i (m.cpus i).current_task in
      rw y (
        subst (λ l. Cut max l (put_queue m max i (queue m i) (put_info max out x)))
          (append_assoc all (x ∷ []) (map (task_info m i) (queue m i)))
          (put_queue-Cut m max i (queue m i) (all ++ (x ∷ [])) (put_info max out x)
            (put_info-Cut max all out x c)))
]

put_cpus-Cut :
    (m : Machine) (max n i : ℕ) (all out : List TaskInfo)
    → Cut max all out
    → Cut max (all ++ all_infos m n i) (put_cpus m max n i out)
unfolding put_cpus
put_cpus-Cut m max zero i all out c = subst (λ l. Cut max l out) (sym (append-nil all)) c
put_cpus-Cut m max (suc n) i all out c =
    subst (λ l. Cut max l (put_cpus m max n (suc i) (put_cpu m max i out)))
      (append_assoc all (cpu_infos m i) (all_infos m n (suc i)))
      (put_cpus-Cut m max n (suc i) (all ++ cpu_infos m i) (put_cpu m max i out)
        (put_cpu-Cut m max i all out c))

-- The snapshot is the list of every CPU's current task and queued tasks, in the order of the CPUs and
-- of the queues, cut to the size of the array: nothing is left out while there is room.
pub task_get_all_info_lem :
    (m : Machine) (max : ℕ) → task_get_all_info m max ≡ take max (all_infos m m.cpu_count 0)
unfolding task_get_all_info Cut
task_get_all_info_lem m max = put_cpus-Cut m max m.cpu_count 0 [] [] (empty max)
  where
    empty : (max : ℕ) → ◌≡◌ {A = List TaskInfo} [] (take max ([] ++ []))
    empty zero = refl
    empty (suc n) = refl
