-- ===== src/Window/Snapshots.antt =====
-- Snapshots of the windows, taken and given back: what src/kernel/window.c holds between the two parts of a
-- call.
use zoho_os_chatbot.Base.{
  ℕ, zero, suc, ◌+◌, ◌^◌, ◌<◌, ◌≤◌, ◌≡◌, refl, ap, ◌∙◌, Bool, true, false, ◌&&◌, ◌||◌, List, [],
  ◌∷◌, ◌++◌, arith, ◌==◌, if◌then◌else◌, has, count, length, take, Distinct, All, test_bit,
  count-append, Distinct-count-le, take-Distinct,
}
use mathlib.Core.Path.{subst}
use zoho_os_chatbot.Window.Manager.{Desktop, snapshot_loop, max_snapshots, retain_window}
use zoho_os_chatbot.Window.Update.{
  Pointer, Hit, no_hit, moved, begin_update, begin_draw, find_window_hit,
}
use zoho_os_chatbot.Window.Lifetime.{IsSound, IsSound-count, Same, Same-IsSound, snapshot-IsSound}
use zoho_os_chatbot.Window.Interaction.{find_window_hit-held}
use zoho_os_chatbot.Window.Calls.{Pending, updating, drawing, held_of, references, World}

-- The windows that a pending update acts on are among those that it holds.
abbrev pub IsPending : Pending → Type 0
IsPending (updating u) =
    Distinct u.held
    × (((u.press.win == 0) || has u.press.win u.held) ≡ true)
    × (((u.move.win == 0) || has u.move.win u.held) ≡ true)
IsPending (drawing held) = Distinct held

pub record IsSafe (w : World) : Type 0 where
  pub sound : IsSound w.desktop (references w.pending)
  pub pending : All IsPending w.pending

IsPending-Distinct : (c : Pending) → IsPending c → Distinct (held_of c)
IsPending-Distinct (updating u) h = h.0
IsPending-Distinct (drawing held) h = h

-- Each CPU holds a window once at most.
count-references-le :
    (p : ℕ) (cs : List Pending) → All IsPending cs → count p (references cs) ≤ length cs
count-references-le p [] h = omega arith
count-references-le p (c ∷ cs) (h, hs) = omega (
  arith,
  count-append p (held_of c) (references cs),
  Distinct-count-le p (held_of c) (IsPending-Distinct c h),
  count-references-le p cs hs,
)

count-references-append :
    (p : ℕ) (bs cs : List Pending)
    → count p (references (bs ++ cs)) ≡ count p (references bs) + count p (references cs)
count-references-append p [] cs = omega arith
count-references-append p (b ∷ bs) cs = omega (
  arith,
  count-append p (held_of b) (references (bs ++ cs)),
  count-append p (held_of b) (references bs),
  count-references-append p bs cs,
)

-- A CPU's references stand in front as well as anywhere.
count-references-middle :
    (p : ℕ) (bs : List Pending) (c : Pending) (cs : List Pending)
    → count p (references (bs ++ (c ∷ cs))) ≡ count p (held_of c ++ references (bs ++ cs))
count-references-middle p bs c cs = omega (
  arith,
  count-references-append p bs (c ∷ cs),
  count-references-append p bs cs,
  count-append p (held_of c) (references cs),
  count-append p (held_of c) (references (bs ++ cs)),
)

All-append {ℓ κ} :
    {A : Type ℓ} (P : A → Type κ) (xs ys : List A) → All P (xs ++ ys) → All P xs × All P ys
All-append P [] ys h = (tt, h)
All-append P (x ∷ xs) ys (h, hs) = let r = All-append P xs ys hs in ((h, r.0), r.1)

All-join {ℓ κ} :
    {A : Type ℓ} (P : A → Type κ) (xs ys : List A) → All P xs → All P ys → All P (xs ++ ys)
All-join P [] ys h k = k
All-join P (x ∷ xs) ys (h, hs) k = (h, All-join P xs ys hs k)

-- The windows of a snapshot are the first ones of the list.
snapshot-take :
    (room : ℕ) (curr : List ℕ) (d : Desktop) → (snapshot_loop room curr d).0 ≡ take room curr
unfolding snapshot_loop
snapshot-take zero curr d = refl
snapshot-take (suc room) [] d = refl
snapshot-take (suc room) (p ∷ curr) d =
    ap (λ l. p ∷ l) (snapshot-take room curr (retain_window d p))

All-has {κ} : (P : ℕ → Type κ) (xs : List ℕ) → ((p : ℕ) → has p xs ≡ true → P p) → All P xs
All-has P [] h = tt
All-has P (x ∷ xs) h = (h x (ground arith), All-has P xs (λ p e. h p (ground (arith, e))))

-- A snapshot of the whole list, between calls.
start-IsSound :
    (d : Desktop) (cs : List Pending)
    → IsSound d (references cs)
    → All IsPending cs
    → length cs < 2 ^ 31
    → let r = snapshot_loop max_snapshots d.window_list d in
      IsSound r.2 (r.0 ++ references cs) × Distinct r.0
start-IsSound d cs s h l =
    let listed =
      All-has (λ p. d.allocated p ≡ true) d.window_list (λ p e. ground (arith, s.alive p, e)) in
    (
      snapshot-IsSound max_snapshots d.window_list d (references cs) s listed
          (λ p. omega (arith, count-references-le p cs h)),
      rw (snapshot-take max_snapshots d.window_list d)
          (take-Distinct max_snapshots d.window_list s.distinct),
    )

-- Only the list of rectangles and the cursor change.
start-Same :
    (d : Desktop) (m : Pointer)
    → Same d (
        if d.cursor_initialized
        then d
        else record d { cursor_initialized = true; cursor_x = m.mx; cursor_y = m.my })
start-Same d m = go d.cursor_initialized
  where
    go :
        (b : Bool)
        → Same d (
            if b
            then d
            else record d { cursor_initialized = true; cursor_x = m.mx; cursor_y = m.my })
    go true = record {
      allocated = refl;
      list = refl;
      bad_free = refl;
      dragging = refl;
      destroyed = λ p. refl;
      refcount = λ p. refl;
    }
    go false = record {
      allocated = refl;
      list = refl;
      bad_free = refl;
      dragging = refl;
      destroyed = λ p. refl;
      refcount = λ p. refl;
    }

hit_or_none :
    (b : Bool) (h : Hit) (held : List ℕ)
    → ((h.win == 0) || has h.win held) ≡ true
    → (((if b then h else no_hit).win == 0) || has (if b then h else no_hit).win held) ≡ true
hit_or_none true h held e = e
hit_or_none false h held e = refl

pub begin_update-IsSafe :
    (w : World) (m : Pointer)
    → IsSafe w
    → length w.pending < 2 ^ 31
    → IsSafe (record {
      desktop = (begin_update w.desktop m).1;
      pending = updating (begin_update w.desktop m).0 ∷ w.pending;
    })
unfolding begin_update
begin_update-IsSafe w m s l =
    let d = w.desktop in
    let d1 =
      if d.cursor_initialized
      then d
      else record d { cursor_initialized = true; cursor_x = m.mx; cursor_y = m.my } in
    let e = start-Same d m in
    let r =
      start-IsSound d1 w.pending (Same-IsSound d d1 (references w.pending) e s.sound) s.pending l in
    let v = snapshot_loop max_snapshots d1.window_list d1 in
    let h = find_window_hit-held v.0 v.1 m.mx m.my in
    let hit = find_window_hit v.0 v.1 m.mx m.my in
    record {
      sound = r.0;
      pending = (
        (
          r.1,
          hit_or_none (test_bit m.mb 0 && (d.dragging_window == 0)) hit v.0 h,
          hit_or_none (moved d m) hit v.0 h,
        ),
        s.pending,
      );
    }

pub begin_draw-IsSafe :
    (w : World)
    → IsSafe w
    → length w.pending < 2 ^ 31
    → IsSafe (record {
      desktop = (begin_draw w.desktop).1;
      pending = drawing (begin_draw w.desktop).0.0 ∷ w.pending;
    })
unfolding begin_draw
begin_draw-IsSafe w s l =
    let d = w.desktop in
    let d1 = record d { dirty = record d.dirty { count = 0 } } in
    let e : Same d d1 = record {
      allocated = refl;
      list = refl;
      bad_free = refl;
      dragging = refl;
      destroyed = λ p. refl;
      refcount = λ p. refl;
    } in
    let r =
      start-IsSound d1 w.pending (Same-IsSound d d1 (references w.pending) e s.sound) s.pending l in
    record { sound = r.0; pending = (r.1, s.pending) }

-- The references of a call that ends, in front of the others.
pub ended-IsSound :
    (w : World) (before : List Pending) (c : Pending) (after : List Pending)
    → w.pending ≡ before ++ (c ∷ after)
    → IsSafe w
    → IsSound w.desktop (held_of c ++ references (before ++ after))
      × IsPending c
      × All IsPending (before ++ after)
ended-IsSound w before c after e s =
    let t = subst (All IsPending) e s.pending in
    let t' = All-append IsPending before (c ∷ after) t in
    (
      IsSound-count w.desktop (references w.pending) (held_of c ++ references (before ++ after))
          (λ p. ap (λ l. count p (references l)) e ∙ count-references-middle p before c after)
          s.sound,
      t'.1.0,
      All-join IsPending before after t'.0 t'.1.1,
    )
