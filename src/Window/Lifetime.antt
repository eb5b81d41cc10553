-- ===== src/Window/Lifetime.antt =====
-- The lifetime of windows in src/kernel/window.c: references are counted, and a window is freed once,
-- when it is destroyed and no reference is left.
use zoho_os_chatbot.Base.{
  ℕ, zero, suc, ◌+◌, ◌-◌, ◌^◌, ◌<◌, ◌≤◌, ◌≡◌, ◌≢◌, sym, ◌∙◌, true, false, not, ◌&&◌, ◌||◌, List, [],
  ◌∷◌, ◌++◌, arith, ◌==◌, Bool-cases, inl, inr, has, count, Distinct, All, count-append, append-nil,
  has-of_count, Distinct-of_count, Distinct-count-le,
}
use mathlib.Core.Path.{subst}
use zoho_os_chatbot.Window.Dirty.{Place}
use zoho_os_chatbot.Window.Manager.{
  Desktop, free_window, retain_window, release_window, release_refs, snapshot_loop, window_create,
  destroy_window, destroy_loop, window_destroy_by_pid,
}

-- `hs` are the references that are held, each as often as it is held.
pub record IsSound (d : Desktop) (hs : List ℕ) : Type 0 where
  pub no_null : d.allocated 0 ≡ false
  pub alive : (p : ℕ) → has p d.window_list ≡ (d.allocated p && not (d.windows p).destroyed)
  pub distinct : Distinct d.window_list
  pub counted : (p : ℕ) → d.allocated p ≡ true → (d.windows p).refcount ≡ count p hs
  pub held : (p : ℕ) → d.allocated p ≡ false → count p hs ≡ 0
  pub kept : (p : ℕ) → d.allocated p ≡ true → (d.windows p).destroyed ≡ true → 0 < count p hs
  pub dragged : ((d.dragging_window == 0) || has d.dragging_window d.window_list) ≡ true
  pub good : d.bad_free ≡ false

-- Only the number of references counts.
pub IsSound-count :
    (d : Desktop) (hs gs : List ℕ)
    → ((p : ℕ) → count p hs ≡ count p gs)
    → IsSound d hs
    → IsSound d gs
IsSound-count d hs gs e s = record {
  no_null = s.no_null;
  alive = s.alive;
  distinct = s.distinct;
  counted = λ p a. s.counted p a ∙ e p;
  held = λ p a. sym (e p) ∙ s.held p a;
  kept = λ p a z. omega (arith, s.kept p a z, e p);
  dragged = s.dragged;
  good = s.good;
}

-- What keeps the list, the flags, the counts and the window that is dragged keeps all.
pub record Same (d d' : Desktop) : Type 0 where
  pub allocated : d'.allocated ≡ d.allocated
  pub list : d'.window_list ≡ d.window_list
  pub bad_free : d'.bad_free ≡ d.bad_free
  pub dragging : d'.dragging_window ≡ d.dragging_window
  pub destroyed : (p : ℕ) → (d'.windows p).destroyed ≡ (d.windows p).destroyed
  pub refcount : (p : ℕ) → (d'.windows p).refcount ≡ (d.windows p).refcount

pub Same-IsSound : (d d' : Desktop) (hs : List ℕ) → Same d d' → IsSound d hs → IsSound d' hs
Same-IsSound d d' hs e s = record {
  no_null = rw e.allocated s.no_null;
  alive = λ p. rw (e.allocated, e.list, e.destroyed p) (s.alive p);
  distinct = rw e.list s.distinct;
  counted = λ p. rw (e.allocated, e.refcount p) (s.counted p);
  held = λ p. rw e.allocated (s.held p);
  kept = λ p. rw (e.allocated, e.destroyed p) (s.kept p);
  dragged = rw (e.dragging, e.list) s.dragged;
  good = e.bad_free ∙ s.good;
}

pub retain-IsSound :
    (d : Desktop) (p : ℕ) (hs : List ℕ)
    → IsSound d hs
    → d.allocated p ≡ true
    → count p hs + 1 < 2 ^ 32
    → IsSound (retain_window d p) (p ∷ hs)
unfolding retain_window
retain-IsSound d p hs s a b =
    let nz : (p == 0) ≡ false = ground (arith, s.no_null) in
    let c = s.counted p a in
    rw (nz, retain_window)
      (record {
        no_null = s.no_null;
        alive = λ q. ground (arith, s.alive q);
        distinct = s.distinct;
        counted = λ q h. ground (arith, s.counted q h);
        held = λ q h. ground (arith, s.held q h);
        kept = λ q h z. ground (arith, s.kept q);
        dragged = s.dragged;
        good = s.good;
      })

pub held-allocated :
    (d : Desktop) (p : ℕ) (hs : List ℕ) → IsSound d hs → 0 < count p hs → d.allocated p ≡ true
held-allocated d p hs s h = ground (arith, s.held p)

pub release-IsSound :
    (d : Desktop) (p : ℕ) (hs : List ℕ) → IsSound d (p ∷ hs) → IsSound (release_window d p) hs
unfolding release_window free_window
release-IsSound d p hs s =
    let a = held-allocated d p (p ∷ hs) s (ground arith) in
    let c : (d.windows p).refcount ≡ suc (count p hs) = s.counted p a ∙ ground arith in
    let held : ((p == 0) || ((d.windows p).refcount == 0)) ≡ false = ground (arith, s.no_null) in
    let nz : (p == 0) ≡ false = ground (arith, s.no_null) in
    elim (Bool-cases ((d.windows p).destroyed && ((d.windows p).refcount - 1 == 0))) [
      | inl e ↦
          rw (held, e, nz, release_window)
            (record {
              no_null = ground (arith, s.no_null);
              alive = λ q. ground (arith, s.alive q);
              distinct = s.distinct;
              counted = λ q h. ground (arith, s.counted q);
              held = λ q h. ground (arith, s.held q);
              kept = λ q h z. ground (arith, s.kept q);
              dragged = s.dragged;
              good = ground (arith, s.good);
            })
      | inr e ↦
          rw (held, e, release_window)
            (record {
              no_null = s.no_null;
              alive = λ q. ground (arith, s.alive q);
              distinct = s.distinct;
              counted = λ q h. ground (arith, s.counted q h);
              held = λ q h. ground (arith, s.held q h);
              kept = λ q h z. ground (arith, s.kept q);
              dragged = s.dragged;
              good = s.good;
            })
    ]

pub release_refs-IsSound :
    (d : Desktop) (held hs : List ℕ) → IsSound d (held ++ hs) → IsSound (release_refs d held) hs
unfolding release_refs
release_refs-IsSound d [] hs s = s
release_refs-IsSound d (p ∷ held) hs s =
    release_refs-IsSound (release_window d p) held hs (release-IsSound d p (held ++ hs) s)

retain-allocated : (d : Desktop) (p : ℕ) → (retain_window d p).allocated ≡ d.allocated
unfolding retain_window
retain-allocated d p = ground arith

count-cons_le : (q p : ℕ) (hs : List ℕ) → count q (p ∷ hs) ≤ suc (count q hs)
count-cons_le q p hs = ground arith

-- A snapshot takes a reference to each window that it has.
pub snapshot-IsSound :
    (room : ℕ) (curr : List ℕ) (d : Desktop) (hs : List ℕ)
    → IsSound d hs
    → All (λ p. d.allocated p ≡ true) curr
    → ((p : ℕ) → count p hs + room < 2 ^ 32)
    → let r = snapshot_loop room curr d in IsSound r.2 (r.0 ++ hs)
unfolding snapshot_loop
snapshot-IsSound zero curr d hs s a b = s
snapshot-IsSound (suc room) [] d hs s a b = s
snapshot-IsSound (suc room) (p ∷ curr) d hs s (a, rest) b =
    let d' = retain_window d p in
    let s' = retain-IsSound d p hs s a (omega (arith, b p)) in
    let rest' = subst (λ f. All (λ q. f q ≡ true) curr) (sym (retain-allocated d p)) rest in
    let r = snapshot_loop room curr d' in
    let t =
      snapshot-IsSound room curr d' (p ∷ hs) s' rest'
        (λ q. omega (arith, b q, count-cons_le q p hs)) in
    IsSound-count r.2 (r.0 ++ (p ∷ hs)) (p ∷ (r.0 ++ hs))
      (λ q. ground (arith, count-append q r.0 (p ∷ hs), count-append q r.0 hs)) t

-- A new window, at an address that holds none.
pub create-IsSound :
    (d : Desktop) (p : ℕ) (place : Place) (bg : ℕ) (hs : List ℕ)
    → IsSound d hs
    → p ≢ 0
    → d.allocated p ≡ false
    → IsSound (window_create d p place bg) hs
unfolding window_create
create-IsSound d p place bg hs s z a = record {
  no_null = ground (arith, s.no_null);
  alive = λ q. ground (arith, s.alive q);
  distinct = (ground (arith, s.alive p), s.distinct);
  counted = λ q h. ground (arith, s.counted q, s.held q);
  held = λ q h. ground (arith, s.held q);
  kept = λ q h e. ground (arith, s.kept q);
  dragged = ground (arith, s.dragged);
  good = s.good;
}

-- The loop of `window_destroy_by_pid` in the middle: the windows that stay, those still to look at,
-- and the state, where neither list is the list of the state yet.
abbrev with_list : Desktop → List ℕ → Desktop
with_list d l = record d { window_list = l }

-- A window that leaves the front of the list `p ∷ rest`, behind `before`.
destroy-IsSound :
    (d : Desktop) (p : ℕ) (rest hs : List ℕ)
    → IsSound (with_list d (p ∷ rest)) hs
    → IsSound (with_list (destroy_window d p) rest) hs
unfolding destroy_window free_window
destroy-IsSound d p rest hs s =
    let a : (d.allocated p && not (d.windows p).destroyed) ≡ true =
      sym (s.alive p) ∙ ground arith in
    let nz : (p == 0) ≡ false = ground (arith, s.no_null) in
    elim (Bool-cases ((d.windows p).refcount == 0)) [
      | inl e ↦
          rw (e, nz, destroy_window)
            (record {
              no_null = ground (arith, s.no_null);
              alive = λ q. ground (arith, s.alive q, s.distinct.0);
              distinct = s.distinct.1;
              counted = λ q h. ground (arith, s.counted q);
              held = λ q h. ground (arith, s.held q, s.counted p);
              kept = λ q h z. ground (arith, s.kept q);
              dragged = ground (arith, s.dragged);
              good = ground (arith, s.good);
            })
      | inr e ↦
          rw (e, destroy_window)
            (record {
              no_null = s.no_null;
              alive = λ q. ground (arith, s.alive q, s.distinct.0);
              distinct = s.distinct.1;
              counted = λ q h. ground (arith, s.counted q);
              held = λ q h. s.held q h;
              kept = λ q h z. ground (arith, s.kept q, s.counted p);
              dragged = ground (arith, s.dragged);
              good = s.good;
            })
    ]

-- The order of the list does not matter.
pub IsSound-list :
    (d : Desktop) (l l' hs : List ℕ)
    → ((q : ℕ) → count q l ≡ count q l')
    → IsSound (with_list d l) hs
    → IsSound (with_list d l') hs
IsSound-list d l l' hs e s = record {
  no_null = s.no_null;
  alive = λ q. sym (has-of_count q l l' (e q)) ∙ s.alive q;
  distinct = Distinct-of_count l' (λ q. omega (arith, e q, Distinct-count-le q l s.distinct));
  counted = s.counted;
  held = s.held;
  kept = s.kept;
  dragged =
      let m = has-of_count d.dragging_window l l' (e d.dragging_window) in rw (sym m) s.dragged;
  good = s.good;
}

count-middle : (q p : ℕ) (xs ys : List ℕ) → count q (p ∷ (xs ++ ys)) ≡ count q (xs ++ (p ∷ ys))
count-middle q p xs ys = ground (arith, count-append q xs ys, count-append q xs (p ∷ ys))

destroy_loop-IsSound :
    (curr kept : List ℕ) (pid : ℕ) (d : Desktop) (hs : List ℕ)
    → IsSound (with_list d (curr ++ kept)) hs
    → let r = destroy_loop curr pid d in IsSound (with_list r.1 (r.0 ++ kept)) hs
unfolding destroy_loop
destroy_loop-IsSound [] kept pid d hs s = s
destroy_loop-IsSound (p ∷ curr) kept pid d hs s =
    elim (Bool-cases ((d.windows p).owner_pid == pid)) [
      | inl e ↦
          rw (e, destroy_loop)
            (destroy_loop-IsSound curr kept pid (destroy_window d p) hs
              (destroy-IsSound d p (curr ++ kept) hs s))
      | inr e ↦
          let s' =
            IsSound-list d (p ∷ (curr ++ kept)) (curr ++ (p ∷ kept)) hs
              (λ q. count-middle q p curr kept) s in
          let r = destroy_loop curr pid d in
          rw (e, destroy_loop)
            (IsSound-list r.1 (r.0 ++ (p ∷ kept)) (p ∷ (r.0 ++ kept)) hs
              (λ q. sym (count-middle q p r.0 kept))
              (destroy_loop-IsSound curr (p ∷ kept) pid d hs s'))
    ]

pub destroy_by_pid-IsSound :
    (d : Desktop) (pid : ℕ) (hs : List ℕ) → IsSound d hs → IsSound (window_destroy_by_pid d pid) hs
unfolding window_destroy_by_pid
destroy_by_pid-IsSound d pid hs s =
    let r = destroy_loop d.window_list pid d in
    let t =
      destroy_loop-IsSound d.window_list [] pid d hs
        (subst (λ l. IsSound (with_list d l) hs) (sym (append-nil d.window_list)) s) in
    subst (λ l. IsSound (with_list r.1 l) hs) (append-nil r.0) t
