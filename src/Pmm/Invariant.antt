-- ===== src/Pmm/Invariant.antt =====
-- The invariant of the frame allocator: every frame on the stack is marked free, and none is there
-- twice.
use zoho_os_chatbot.Base.{
  ℕ, suc, ◌/◌, ◌≤◌, ◌<◌, ◌≡◌, refl, ap, true, false, List, [], ◌∷◌, arith, length, has, Distinct,
  All, map, Distinct-length-le,
}
use zoho_os_chatbot.Pmm.{
  page_size, max_frames, Bitmap, bitmap_set, bitmap_unset, bitmap_test, Pmm, pop_frame, alloc_frame,
  free_frame, ref_inc, Call, alloc, free, inc, step, run,
}
use zoho_os_chatbot.Pmm.Bitmap.{bitmap_test-set_ne, bitmap_test-unset_self, bitmap_test-unset_ne}

abbrev pub frame_of : ℕ → ℕ
frame_of addr = addr / page_size

-- What the stack's entries satisfy.
abbrev pub IsFree : Bitmap → ℕ → Type 0
IsFree b addr = (bitmap_test b (frame_of addr) ≡ false) × (frame_of addr < max_frames)

pub record IsValid (s : Pmm) : Type 0 where
  pub clear : All (IsFree s.frame_bitmap) s.free_stack
  pub distinct : Distinct (map frame_of s.free_stack)

-- The frame `f` is not on the stack if its bit is set.
not-has_of_set :
    (b : Bitmap) (f : ℕ) (xs : List ℕ)
    → bitmap_test b f ≡ true
    → All (IsFree b) xs
    → has f (map frame_of xs) ≡ false
not-has_of_set b f [] h a = refl
not-has_of_set b f (x ∷ xs) h a = ground (arith, not-has_of_set b f xs)

All-set :
    (b : Bitmap) (f : ℕ) (xs : List ℕ)
    → has f (map frame_of xs) ≡ false
    → All (IsFree b) xs
    → All (IsFree (bitmap_set b f)) xs
All-set b f [] h a = tt
All-set b f (x ∷ xs) h a = ground (arith, All-set b f xs, bitmap_test-set_ne b f (frame_of x))

All-unset :
    (b : Bitmap) (f : ℕ) (xs : List ℕ) → All (IsFree b) xs → All (IsFree (bitmap_unset b f)) xs
All-unset b f [] a = tt
All-unset b f (x ∷ xs) a =
    ground
      (arith, All-unset b f xs, bitmap_test-unset_ne b f (frame_of x), bitmap_test-unset_self b f)

pop_frame-IsValid :
    (s : Pmm) (xs : List ℕ) → s.free_stack ≡ xs → IsValid s → IsValid (pop_frame s xs).state
unfolding pop_frame
pop_frame-IsValid s [] e v = v
pop_frame-IsValid s (x ∷ xs) e v =
    let c : All (IsFree s.frame_bitmap) (x ∷ xs) = rw e at v.clear in
    let d : Distinct (map frame_of (x ∷ xs)) = rw e at v.distinct in
    record { clear = All-set s.frame_bitmap (frame_of x) xs d.0 c.1; distinct = d.1 }

pub alloc_frame-IsValid : {s : Pmm} → IsValid s → IsValid (alloc_frame s).state
unfolding alloc_frame
alloc_frame-IsValid {s} v = pop_frame-IsValid s s.free_stack refl v

pub free_frame-IsValid : {s : Pmm} (addr : ℕ) → IsValid s → IsValid (free_frame s addr)
unfolding free_frame
free_frame-IsValid {s} addr v = ground (
  arith,
  not-has_of_set s.frame_bitmap (frame_of addr) s.free_stack,
  All-unset s.frame_bitmap (frame_of addr) s.free_stack,
  bitmap_test-unset_self s.frame_bitmap (frame_of addr),
)

pub ref_inc-IsValid : {s : Pmm} (addr : ℕ) → IsValid s → IsValid (ref_inc s addr)
unfolding ref_inc
ref_inc-IsValid addr v = ground arith

-- Every sequence of allocations, releases and new references keeps the invariant.
pub step-IsValid : {s : Pmm} (c : Call) → IsValid s → IsValid (step s c)
unfolding step
step-IsValid alloc v = alloc_frame-IsValid v
step-IsValid (free addr) v = free_frame-IsValid addr v
step-IsValid (inc addr) v = ref_inc-IsValid addr v

-- Every sequence of calls preserves the invariant: the frames on the stack are distinct, exist, and are
-- marked free in the bitmap.
pub run-IsValid : (cs : List Call) {s : Pmm} → IsValid s → IsValid (run s cs)
unfolding run
run-IsValid [] v = v
run-IsValid (c ∷ cs) v = run-IsValid cs (step-IsValid c v)

All-below :
    (b : Bitmap) (xs : List ℕ) → All (IsFree b) xs → All (λ f. f < max_frames) (map frame_of xs)
All-below b [] a = tt
All-below b (x ∷ xs) a = (a.0.1, All-below b xs a.1)

length-frames : (xs : List ℕ) → length (map frame_of xs) ≡ length xs
length-frames [] = refl
length-frames (x ∷ xs) = ap suc (length-frames xs)

-- The push onto the array stays inside it.
pub free_stack_fits : {s : Pmm} → IsValid s → length s.free_stack ≤ max_frames
free_stack_fits {s} v = omega (
  arith,
  length-frames s.free_stack,
  Distinct-length-le max_frames (map frame_of s.free_stack) v.distinct
      (All-below s.frame_bitmap s.free_stack v.clear),
)

-- The result of an allocation by the shape of the stack.
pub alloc_frame-cons :
    (s : Pmm) (x : ℕ) (xs : List ℕ)
    → s.free_stack ≡ x ∷ xs
    → ((alloc_frame s).frame ≡ x) × ((alloc_frame s).state.free_stack ≡ xs)
unfolding alloc_frame pop_frame
alloc_frame-cons s x xs e = rw (e, pop_frame) (refl, refl)

pub alloc_frame-nil : (s : Pmm) → s.free_stack ≡ [] → (alloc_frame s).frame ≡ 0
unfolding alloc_frame pop_frame
alloc_frame-nil s e = rw (e, pop_frame) refl
