-- ===== src/Pmm/Ownership.antt =====
-- Who owns a frame of src/kernel/pmm.c: an allocated frame is not handed out again before it is
-- freed, and goes back on the stack with its last reference.
use zoho_os_chatbot.Base.{
  ℕ, zero, suc, ◌+◌, ◌^◌, ◌≤◌, ◌<◌, ◌≡◌, ◌≢◌, refl, true, false, List, [], ◌∷◌, ◌++◌, arith, ◌⊎◌,
  inl, inr, has, Distinct, All, map, replicate,
}
use zoho_os_chatbot.Pmm.{
  max_frames, bitmap_test, Pmm, pop_frame, alloc_frame, free_frame, ref_inc, get_ref, Call, alloc,
  free, inc, step, run,
}
use zoho_os_chatbot.Pmm.Bitmap.{
  bitmap_test-set_self, bitmap_test-set_ne, bitmap_test-unset_self, bitmap_test-unset_ne,
}
use zoho_os_chatbot.Pmm.Invariant.{frame_of, IsFree, IsValid, step-IsValid, run-IsValid}

-- With a free frame on top of the stack, `pmm_alloc_frame` returns that frame: it was marked free,
-- is marked used with one reference afterwards, has left the stack, and no other frame's count has
-- changed.
pub alloc_frame_lem :
    {s : Pmm} (x : ℕ) (xs : List ℕ)
    → IsValid s
    → s.free_stack ≡ x ∷ xs
    → let r = alloc_frame s in
      (r.frame ≡ x)
      × (bitmap_test s.frame_bitmap (frame_of x) ≡ false)
      × (bitmap_test r.state.frame_bitmap (frame_of x) ≡ true)
      × (get_ref r.state x ≡ 1)
      × (r.state.free_stack ≡ xs)
      × (has (frame_of x) (map frame_of xs) ≡ false)
      × ((g : ℕ) → g ≢ frame_of x → r.state.ref_counts g ≡ s.ref_counts g)
unfolding alloc_frame get_ref
alloc_frame_lem {s} x xs v e =
    let c : All (IsFree s.frame_bitmap) (x ∷ xs) = rw e at v.clear in
    let d : Distinct (map frame_of (x ∷ xs)) = rw e at v.distinct in
    rw (e, pop_frame)
      (
        refl,
        c.0.0,
        bitmap_test-set_self s.frame_bitmap (frame_of x),
        ground arith,
        refl,
        d.0,
        λ g h. ground arith,
      )

-- The address as a test of ownership: the frame's bit is set.
abbrev pub Owned : ℕ → Pmm → Type 0
Owned f s = bitmap_test s.frame_bitmap f ≡ true

-- The call is no release of the frame `f`.
abbrev pub Keeps : ℕ → Call → Type 0
Keeps f alloc = Unit
Keeps f (free addr) = frame_of addr ≢ f
Keeps f (inc addr) = Unit

pop_frame-Owned : (f : ℕ) (s : Pmm) (xs : List ℕ) → Owned f s → Owned f (pop_frame s xs).state
unfolding pop_frame
pop_frame-Owned f s [] o = o
pop_frame-Owned f s (x ∷ xs) o =
    ground (
      arith,
      bitmap_test-set_self s.frame_bitmap f,
      bitmap_test-set_ne s.frame_bitmap (frame_of x) f,
    )

step-Owned : (f : ℕ) (c : Call) (s : Pmm) → Keeps f c → Owned f s → Owned f (step s c)
unfolding step alloc_frame free_frame ref_inc
step-Owned f alloc s k o = pop_frame-Owned f s s.free_stack o
step-Owned f (free addr) s k o =
    ground (arith, bitmap_test-unset_ne s.frame_bitmap (frame_of addr) f)
step-Owned f (inc addr) s k o = ground arith

run-Owned : (f : ℕ) (cs : List Call) (s : Pmm) → All (Keeps f) cs → Owned f s → Owned f (run s cs)
unfolding run
run-Owned f [] s k o = o
run-Owned f (c ∷ cs) s k o = run-Owned f cs (step s c) k.1 (step-Owned f c s k.0 o)

pop_frame-ne :
    (f : ℕ) (s : Pmm) (xs : List ℕ)
    → All (IsFree s.frame_bitmap) xs
    → Owned f s
    → ((pop_frame s xs).frame ≡ 0) ⊎ (frame_of (pop_frame s xs).frame ≢ f)
unfolding pop_frame
pop_frame-ne f s [] a o = inl refl
pop_frame-ne f s (x ∷ xs) a o = inr (λ e. ground arith)

-- No double allocation: a frame that `pmm_alloc_frame` has returned is not returned again, whatever
-- calls come between, as long as none of them frees it.
pub no_double_alloc :
    {s : Pmm} (x : ℕ) (xs : List ℕ) (cs : List Call)
    → IsValid s
    → s.free_stack ≡ x ∷ xs
    → All (Keeps (frame_of x)) cs
    → let t = run (alloc_frame s).state cs in
      ((alloc_frame t).frame ≡ 0) ⊎ (frame_of (alloc_frame t).frame ≢ frame_of x)
unfolding alloc_frame step
no_double_alloc {s} x xs cs v e k =
    let t = run (alloc_frame s).state cs in
    pop_frame-ne (frame_of x) t t.free_stack (run-IsValid cs (step-IsValid alloc v)).clear
      (run-Owned (frame_of x) cs (alloc_frame s).state k (alloc_frame_lem x xs v e).2)

-- `pmm_free_frame` of a used frame: with no reference it does nothing, with one it puts the frame
-- back on the stack and marks it free, with more it only takes one reference away.
pub free_frame_lem :
    (s : Pmm) (addr : ℕ)
    → frame_of addr < max_frames
    → Owned (frame_of addr) s
    → let t = free_frame s addr in
      (get_ref s addr ≡ 0 → t ≡ s)
      × (get_ref s addr ≡ 1
          → (t.free_stack ≡ addr ∷ s.free_stack)
            × (bitmap_test t.frame_bitmap (frame_of addr) ≡ false)
            × (get_ref t addr ≡ 0))
      × (2 ≤ get_ref s addr
          → (t.free_stack ≡ s.free_stack)
            × (t.frame_bitmap ≡ s.frame_bitmap)
            × (get_ref t addr + 1 ≡ get_ref s addr))
unfolding free_frame get_ref
free_frame_lem s addr lt o = (
  λ e. ground arith,
  λ e. (
    ground arith,
    ground (arith, bitmap_test-unset_self s.frame_bitmap (frame_of addr)),
    ground arith,
  ),
  λ e. (ground arith, ground arith, ground arith),
)

-- The frame of `x` is used and has `r` references.
record Shares (x r : ℕ) (xs : List ℕ) (s : Pmm) : Type 0 where
  stack : s.free_stack ≡ xs
  used : Owned (frame_of x) s
  refs : s.ref_counts (frame_of x) ≡ r

module _ (x : ℕ) (lt : frame_of x < max_frames) (xs : List ℕ) where
  inc-Shares :
      (r : ℕ) (s : Pmm) → suc r < 2 ^ 32 → Shares x r xs s → Shares x (suc r) xs (ref_inc s x)
  unfolding ref_inc
  inc-Shares r s b h = ground arith

  free-Shares :
      (r : ℕ) (s : Pmm) → Shares x (suc (suc r)) xs s → Shares x (suc r) xs (free_frame s x)
  unfolding free_frame
  free-Shares r s h = ground arith

  frees-Shares :
      (n r : ℕ) (s : Pmm)
      → Shares x (suc (r + n)) xs s
      → Shares x (suc r) xs (run s (replicate n (free x)))
  unfolding run step
  frees-Shares zero r s h = record { stack = h.stack; used = h.used; refs = omega arith }
  frees-Shares (suc n) r s h =
      frees-Shares n r (free_frame s x)
        (free-Shares (r + n) s (record { stack = h.stack; used = h.used; refs = omega arith }))

  shares :
      (n m r : ℕ) (s : Pmm)
      → suc (r + n) < 2 ^ 32
      → Shares x (suc r) xs s
      → m ≡ r + n
      → Shares x 1 xs (run s (replicate n (inc x) ++ replicate m (free x)))
  unfolding run step
  shares zero m r s b h e =
      frees-Shares m 0 s (record { stack = h.stack; used = h.used; refs = omega arith })
  shares (suc n) m r s b h e =
      shares n m (suc r) (ref_inc s x) (omega arith) (inc-Shares (suc r) s (omega arith) h)
        (omega arith)

-- A frame that gets `n` more references after its allocation stays off the stack through `n`
-- releases, and goes back on it with the next one; the count must fit its 32 bits.
pub shared_lem :
    {s : Pmm} (x : ℕ) (xs : List ℕ) (n : ℕ)
    → IsValid s
    → s.free_stack ≡ x ∷ xs
    → n + 1 < 2 ^ 32
    → let t = run (alloc_frame s).state (replicate n (inc x) ++ replicate n (free x)) in
      (t.free_stack ≡ xs) × (get_ref t x ≡ 1) × ((free_frame t x).free_stack ≡ x ∷ xs)
unfolding get_ref
shared_lem {s} x xs n v e b =
    let a = alloc_frame_lem x xs v e in
    let c : All (IsFree s.frame_bitmap) (x ∷ xs) = rw e at v.clear in
    let lt = c.0.1 in
    let refs : get_ref (alloc_frame s).state x ≡ 1 = a.3 in
    let t = run (alloc_frame s).state (replicate n (inc x) ++ replicate n (free x)) in
    let h =
      shares x lt xs n n 0 (alloc_frame s).state (omega arith)
        (record { stack = a.4; used = a.2; refs = ground arith }) (omega arith) in
    let f = free_frame_lem t x lt h.used in (h.stack, ground arith, ground (arith, f))
