-- ===== src/Task/Runqueue.antt =====
-- A run queue of src/kernel/task.c with its pointers: `head`, `tail`, `count` and the field `next` of
-- each task. It refines a first-in first-out list.
use mathlib.Core.Path.{subst}
use zoho_os_chatbot.Base.{
  ℕ, ◌+◌, ◌-◌, ◌^◌, ◌<◌, ◌≡◌, ◌≢◌, refl, sym, true, false, List, [], ◌∷◌, ◌++◌, arith, ◌==◌,
  if◌then◌else◌, u32, update, length, length-append, has, Distinct,
}

-- `runqueue_t`; 0 is NULL.
pub record Pointers : Type 0 where
  pub head : ℕ
  pub tail : ℕ
  pub count : ℕ

-- The field `next` of the task at each address.
abbrev pub Next : Type 0
Next = ℕ → ℕ

pub record Links : Type 0 where
  pub next : Next
  pub rq : Pointers

pub enqueue : Links → ℕ → Links
enqueue l task =
    let next = update l.next task 0 in
    if l.rq.tail == 0
    then record {
      next = next;
      rq = record { head = task; tail = task; count = u32 (l.rq.count + 1) };
    }
    else record {
      next = update next l.rq.tail task;
      rq = record (l.rq) { tail = task; count = u32 (l.rq.count + 1) };
    }

-- The task, or 0, and the new queue; `count` counts queued tasks, so `count--` runs above 0.
pub dequeue : Links → ℕ × Links
dequeue l =
    let task = l.rq.head in
    if task == 0 then (0, l) else (
      task,
      record l {
        rq = record {
          head = l.next task;
          tail = if l.next task == 0 then 0 else l.rq.tail;
          count = u32 (l.rq.count + 2 ^ 32 - 1);
        };
      },
    )

-- From `p` the pointers lead through the tasks `xs` to NULL.
abbrev pub Chain : Next → ℕ → List ℕ → Type 0
Chain next p [] = p ≡ 0
Chain next p (x ∷ xs) = (p ≡ x) × (x ≢ 0) × Chain next (next x) xs

abbrev pub last_of : List ℕ → ℕ
last_of [] = 0
last_of (x ∷ []) = x
last_of (x ∷ y ∷ ys) = last_of (y ∷ ys)

-- The pointers stand for the list `xs`.
pub record IsQueue (l : Links) (xs : List ℕ) : Type 0 where
  pub chain : Chain l.next l.rq.head xs
  pub last : l.rq.tail ≡ last_of xs
  pub count : l.rq.count ≡ length xs
  pub small : length xs < 2 ^ 32
  pub distinct : Distinct xs

Chain-update :
    (next : Next) (p t v : ℕ) (xs : List ℕ)
    → has t xs ≡ false
    → Chain next p xs
    → Chain (update next t v) p xs
Chain-update next p t v [] h c = c
Chain-update next p t v (x ∷ xs) h c =
    let ne : t ≢ x = ground arith in
    let e : update next t v x ≡ next x = ground arith in
    (c.0, c.1, rw e (Chain-update next (next x) t v xs (ground arith) c.2))

last-has : (x : ℕ) (xs : List ℕ) → has (last_of (x ∷ xs)) (x ∷ xs) ≡ true
last-has x [] = ground arith
last-has x (y ∷ ys) = ground (arith, last-has y ys)

last-ne_zero : (next : Next) (p x : ℕ) (xs : List ℕ) → Chain next p (x ∷ xs) → last_of (x ∷ xs) ≢ 0
last-ne_zero next p x [] c = c.1
last-ne_zero next p x (y ∷ ys) c = last-ne_zero next (next x) y ys c.2

-- Writing the last task's `next` extends the chain by one task.
Chain-append :
    (next : Next) (p t x : ℕ) (xs : List ℕ)
    → t ≢ 0
    → next t ≡ 0
    → has t (x ∷ xs) ≡ false
    → Distinct (x ∷ xs)
    → Chain next p (x ∷ xs)
    → Chain (update next (last_of (x ∷ xs)) t) p ((x ∷ xs) ++ (t ∷ []))
Chain-append next p t x [] ne z h d c = (c.0, c.1, (ground arith, ne, ground arith))
Chain-append next p t x (y ∷ ys) ne z h d c =
    let l = last_of (y ∷ ys) in
    let lx : l ≢ x = ground (arith, last-has y ys) in
    let e : update next l t x ≡ next x = ground arith in
    (c.0, c.1, rw e (Chain-append next (next x) t y ys ne z (ground arith) d.1 c.2))

last-append : (t : ℕ) (xs : List ℕ) → last_of (xs ++ (t ∷ [])) ≡ t
last-append t [] = refl
last-append t (x ∷ []) = refl
last-append t (x ∷ y ∷ ys) = last-append t (y ∷ ys)

has-snoc : (a t : ℕ) (xs : List ℕ) → a ≢ t → has a xs ≡ false → has a (xs ++ (t ∷ [])) ≡ false
has-snoc a t [] ne h = ground arith
has-snoc a t (x ∷ xs) ne h = ground (arith, has-snoc a t xs)

Distinct-snoc : (t : ℕ) (xs : List ℕ) → has t xs ≡ false → Distinct xs → Distinct (xs ++ (t ∷ []))
Distinct-snoc t [] h d = (refl, tt)
Distinct-snoc t (x ∷ xs) h d =
    (has-snoc x t xs (ground arith) d.0, Distinct-snoc t xs (ground arith) d.1)

-- `enqueue_task` of a task that is not in the queue appends it.
pub enqueue_refines :
    (l : Links) (t : ℕ) (xs : List ℕ)
    → t ≢ 0
    → has t xs ≡ false
    → length xs + 1 < 2 ^ 32
    → IsQueue l xs
    → IsQueue (enqueue l t) (xs ++ (t ∷ []))
unfolding enqueue
enqueue_refines l t [] ne h b q =
    let e : (l.rq.tail == 0) ≡ true = ground (arith, q.last) in
    rw e (record {
      chain = (refl, ne, ground arith);
      last = refl;
      count = omega (arith, q.count);
      small = omega arith;
      distinct = (refl, tt);
    })
enqueue_refines l t (x ∷ xs) ne h b q =
    let z = last-ne_zero l.next l.rq.head x xs q.chain in
    let e : (l.rq.tail == 0) ≡ false = ground (arith, q.last) in
    rw (e, q.last)
      (record {
        chain =
            Chain-append (update l.next t 0) l.rq.head t x xs ne (ground arith) h q.distinct
              (Chain-update l.next l.rq.head t 0 (x ∷ xs) h q.chain);
        last = sym (last-append t (x ∷ xs));
        count = omega (arith, q.count, length-append xs (t ∷ []));
        small = omega (arith, length-append xs (t ∷ []));
        distinct = Distinct-snoc t (x ∷ xs) h q.distinct;
      })

-- What `dequeue_task` does to a queue that stands for the list.
abbrev pub Dequeued : Links → List ℕ → Type 0
Dequeued l [] = dequeue l ≡ (0, l)
Dequeued l (x ∷ xs) = ((dequeue l).0 ≡ x) × IsQueue (dequeue l).1 xs

-- `dequeue_task` of an empty queue returns NULL and changes nothing; else it returns the oldest task
-- and leaves the rest.
pub dequeue_refines : (l : Links) (xs : List ℕ) → IsQueue l xs → Dequeued l xs
unfolding dequeue
dequeue_refines l [] q = ground (arith, q.chain)
dequeue_refines l (x ∷ []) q =
    let e : (l.rq.head == 0) ≡ false = ground (arith, q.chain) in
    let n : (l.next l.rq.head == 0) ≡ true = ground (arith, q.chain) in
    rw (e, n)
      (
        q.chain.0,
        record {
          chain = ground (arith, q.chain);
          last = refl;
          count = omega (arith, q.count);
          small = omega arith;
          distinct = tt;
        },
      )
dequeue_refines l (x ∷ y ∷ ys) q =
    let e : (l.rq.head == 0) ≡ false = ground (arith, q.chain) in
    let h = q.chain.0 in
    let n : (l.next l.rq.head == 0) ≡ false = rw h (ground (arith, q.chain)) in
    let c : Chain l.next (l.next l.rq.head) (y ∷ ys) =
      subst (λ p. Chain l.next (l.next p) (y ∷ ys)) (sym h) q.chain.2 in
    rw (e, n)
      (
        h,
        record {
          chain = c;
          last = q.last;
          count = omega (arith, q.count, q.small);
          small = omega (arith, q.small);
          distinct = q.distinct.1;
        },
      )
