-- ===== src/Window/Interaction.antt =====
-- The user's actions in `window_update` of src/kernel/window.c keep the windows' lifetimes in order.
use zoho_os_chatbot.Base.{
  ℕ, ◌≡◌, refl, sym, ◌∙◌, Bool, true, false, not, ◌&&◌, ◌||◌, List, [], ◌∷◌, ◌++◌, arith, ◌==◌,
  if◌then◌else◌, Bool-cases, inl, inr, has, remove, test_bit, has-count, has-append, has-remove_ne,
  has-remove_self, remove-Distinct,
}
use zoho_os_chatbot.Window.{pop_event}
use zoho_os_chatbot.Window.Spans.{Option-cases}
use zoho_os_chatbot.Window.Dirty.{i32_sub, Rect}
use zoho_os_chatbot.Window.Manager.{
  Window, Desktop, set_window, queue, Snapshot, release_refs, window_set_owner, window_set_buffer,
  window_pop_event, window_get_by_id, pop_from,
}
use zoho_os_chatbot.Window.Update.{
  Pointer, Updating, find_window_hit, start_drag, send_event, press, drag, buttons, move_pointer,
  apply_update, finish_update, click, motion, moved, cursor_rect, head_of,
}
use zoho_os_chatbot.Window.Lifetime.{IsSound, Same-IsSound, held-allocated, release_refs-IsSound}

pub queue-IsSound : (d : Desktop) (r : Rect) (hs : List ℕ) → IsSound d hs → IsSound (queue d r) hs
queue-IsSound d r hs = Same-IsSound d (queue d r) hs (record {
  allocated = refl;
  list = refl;
  bad_free = refl;
  dragging = refl;
  destroyed = λ p. refl;
  refcount = λ p. refl;
})

-- A window's other fields may change.
pub set_window-IsSound :
    (d : Desktop) (p : ℕ) (win : Window) (hs : List ℕ)
    → win.destroyed ≡ (d.windows p).destroyed
    → win.refcount ≡ (d.windows p).refcount
    → IsSound d hs
    → IsSound (set_window d p win) hs
set_window-IsSound d p win hs e f = Same-IsSound d (set_window d p win) hs (record {
  allocated = refl;
  list = refl;
  bad_free = refl;
  dragging = refl;
  destroyed = λ q. ground arith;
  refcount = λ q. ground arith;
})

pub set_owner-IsSound :
    (d : Desktop) (p pid : ℕ) (hs : List ℕ) → IsSound d hs → IsSound (window_set_owner d p pid) hs
unfolding window_set_owner
set_owner-IsSound d p pid hs s = elim (Bool-cases ((p == 0) || (d.windows p).destroyed)) [
  | inl e ↦ rw (e, window_set_owner) s
  | inr e ↦ rw (e, window_set_owner) (set_window-IsSound d p _ hs refl refl s)
]

pub set_buffer-IsSound :
    (d : Desktop) (p buffer : ℕ) (hs : List ℕ)
    → IsSound d hs
    → IsSound (window_set_buffer d p buffer) hs
unfolding window_set_buffer
set_buffer-IsSound d p buffer hs s = elim (Bool-cases ((p == 0) || (d.windows p).destroyed)) [
  | inl e ↦ rw (e, window_set_buffer) s
  | inr e ↦
      rw (e, window_set_buffer) (queue-IsSound _ _ hs (set_window-IsSound d p _ hs refl refl s))
]

pop_from-IsSound : (d : Desktop) (p : ℕ) (hs : List ℕ) → IsSound d hs → IsSound (pop_from d p).1 hs
pop_from-IsSound d p hs s = elim (Option-cases (pop_event (d.windows p).ring).0) [
  | inl e ↦ rw (e, pop_from) s
  | inr (x, e) ↦ rw (e, pop_from) (set_window-IsSound d p _ hs refl refl s)
]

pub pop_event-IsSound :
    (d : Desktop) (id : ℕ) (hs : List ℕ) → IsSound d hs → IsSound (window_pop_event d id).1 hs
unfolding window_pop_event
pop_event-IsSound d id hs s = elim (Option-cases (window_get_by_id d id)) [
  | inl e ↦ rw (e, window_pop_event) s
  | inr (p, e) ↦ rw (e, window_pop_event) (pop_from-IsSound d p hs s)
]

send_event-IsSound :
    (d : Desktop) (m : Pointer) (p type payload : ℕ) (hs : List ℕ)
    → IsSound d hs
    → IsSound (send_event d m p type payload) hs
unfolding send_event
send_event-IsSound d m p type payload hs = set_window-IsSound d p _ hs refl refl

start_drag-IsSound :
    (d : Desktop) (m : Pointer) (p : ℕ) (hs : List ℕ)
    → has p d.window_list ≡ true
    → IsSound d hs
    → IsSound (start_drag d m p) hs
unfolding start_drag
start_drag-IsSound d m p hs h s =
    let x = i32_sub m.mx (d.windows p).place.x in
    let y = i32_sub m.my (d.windows p).place.y in
    let begun : IsSound (record d { dragging_window = p; drag_off_x = x; drag_off_y = y }) hs =
      record {
        no_null = s.no_null;
        alive = s.alive;
        distinct = s.distinct;
        counted = s.counted;
        held = s.held;
        kept = s.kept;
        dragged = ground (arith, h);
        good = s.good;
      } in
    elim (Bool-cases ((p == head_of d.window_list) || not (has p d.window_list))) [
      | inl e ↦ rw (e, start_drag) begun
      | inr e ↦
          rw (e, start_drag)
            (queue-IsSound _ _ hs (
              queue-IsSound _ _ hs (record {
                no_null = s.no_null;
                alive = λ q. raised q ∙ s.alive q;
                distinct = (
                  has-remove_self p d.window_list s.distinct,
                  remove-Distinct p d.window_list s.distinct,
                );
                counted = s.counted;
                held = s.held;
                kept = s.kept;
                dragged = ground arith;
                good = s.good;
              })))
    ]
  where
    raised : (q : ℕ) → has q (p ∷ remove p d.window_list) ≡ has q d.window_list
    raised q = elim (Bool-cases (q == p)) [
      | inl e ↦ rw e (ground (arith, h))
      | inr e ↦ rw e (has-remove_ne p q d.window_list (λ z. ground arith))
    ]

undragged-IsSound :
    (d : Desktop) (hs : List ℕ) → IsSound d hs → IsSound (record d { dragging_window = 0 }) hs
undragged-IsSound d hs s = record {
  no_null = s.no_null;
  alive = s.alive;
  distinct = s.distinct;
  counted = s.counted;
  held = s.held;
  kept = s.kept;
  dragged = refl;
  good = s.good;
}

drag-IsSound : (d : Desktop) (m : Pointer) (hs : List ℕ) → IsSound d hs → IsSound (drag d m) hs
unfolding drag
drag-IsSound d m hs s = elim (Bool-cases (d.windows d.dragging_window).destroyed) [
  | inl e ↦ rw (e, drag) (undragged-IsSound d hs s)
  | inr e ↦
      rw (e, drag)
        (queue-IsSound _ _ hs
          (queue-IsSound _ _ hs (set_window-IsSound d d.dragging_window _ hs (sym e) refl s)))
]

press-IsSound :
    (d : Desktop) (u : Updating) (hs : List ℕ)
    → IsSound d hs
    → ((u.press.win == 0) || has u.press.win hs) ≡ true
    → IsSound (press d u) hs
unfolding press
press-IsSound d u hs s h =
    let p = u.press.win in
    elim (Bool-cases ((p == 0) || (d.windows p).destroyed)) [
      | inl e ↦ rw (e, press) s
      | inr e ↦
          let a = held-allocated d p hs s (has-count p hs (ground arith)) in
          elim (Bool-cases u.press.in_title) [
            | inl t ↦
                rw (e, t, press) (start_drag-IsSound d u.pointer p hs (ground (arith, s.alive p)) s)
            | inr t ↦ elim (Bool-cases (u.press.in_body && not (test_bit d.last_mb 0))) [
              | inl b ↦ rw (e, t, b, press) (send_event-IsSound d u.pointer p click 1 hs s)
              | inr b ↦ rw (e, t, b, press) s
            ]
          ]
    ]

buttons-IsSound :
    (d : Desktop) (u : Updating) (hs : List ℕ)
    → IsSound d hs
    → ((u.press.win == 0) || has u.press.win hs) ≡ true
    → IsSound (buttons d u) hs
unfolding buttons
buttons-IsSound d u hs s h = elim (Bool-cases (test_bit u.pointer.mb 0)) [
  | inl e ↦ elim (Bool-cases (d.dragging_window == 0)) [
    | inl f ↦ rw (e, f, buttons) (press-IsSound d u hs s h)
    | inr f ↦ rw (e, f, buttons) (drag-IsSound d u.pointer hs s)
  ]
  | inr e ↦ rw (e, buttons) (undragged-IsSound d hs s)
]

move_pointer-IsSound :
    (d : Desktop) (u : Updating) (hs : List ℕ) → IsSound d hs → IsSound (move_pointer d u) hs
unfolding move_pointer
move_pointer-IsSound d u hs s =
    let m = u.pointer in
    let d' = queue (queue d (cursor_rect d.cursor_x d.cursor_y)) (cursor_rect m.mx m.my) in
    let s' =
      queue-IsSound _ (cursor_rect m.mx m.my) hs
        (queue-IsSound d (cursor_rect d.cursor_x d.cursor_y) hs s) in
    let p = u.move.win in
    elim (Bool-cases (not (moved d m))) [
      | inl e ↦ rw (e, move_pointer) s
      | inr e ↦ elim (Bool-cases (not (p == 0) && u.move.in_body && not (d.windows p).destroyed)) [
        | inl f ↦ rw (e, f, move_pointer) (send_event-IsSound d' m p motion 0 hs s')
        | inr f ↦ rw (e, f, move_pointer) s'
      ]
    ]

-- Only positions and buttons of the mouse change.
moved_to-IsSound :
    (d : Desktop) (m : Pointer) (hs : List ℕ)
    → IsSound d hs
    → IsSound
        (record d {
          cursor_x = m.mx;
          cursor_y = m.my;
          last_mb = m.mb;
          last_mx = m.mx;
          last_my = m.my;
        })
        hs
moved_to-IsSound d m hs = Same-IsSound d _ hs (record {
  allocated = refl;
  list = refl;
  bad_free = refl;
  dragging = refl;
  destroyed = λ p. refl;
  refcount = λ p. refl;
})

apply_update-IsSound :
    (d : Desktop) (u : Updating) (hs : List ℕ)
    → IsSound d hs
    → ((u.press.win == 0) || has u.press.win hs) ≡ true
    → IsSound (apply_update d u) hs
unfolding apply_update
apply_update-IsSound d u hs s h =
    moved_to-IsSound _ u.pointer hs
      (move_pointer-IsSound _ u hs (buttons-IsSound _ u hs (shown u.was_initialized) h))
  where
    shown :
        (b : Bool) → IsSound (if b then d else queue d (cursor_rect u.pointer.mx u.pointer.my)) hs
    shown true = s
    shown false = queue-IsSound d _ hs s

-- The second part of an update, with the references that its first part took.
pub finish_update-IsSound :
    (d : Desktop) (u : Updating) (hs : List ℕ)
    → IsSound d (u.held ++ hs)
    → ((u.press.win == 0) || has u.press.win u.held) ≡ true
    → IsSound (finish_update d u) hs
unfolding finish_update
finish_update-IsSound d u hs s h =
    let found : ((u.press.win == 0) || has u.press.win (u.held ++ hs)) ≡ true =
      ground (arith, has-append u.press.win u.held hs) in
    let d' = release_refs (apply_update d u) u.held in
    let s' =
      release_refs-IsSound (apply_update d u) u.held hs
        (apply_update-IsSound d u (u.held ++ hs) s found) in
    elim (Bool-cases (not (d'.dragging_window == 0) && (d'.windows d'.dragging_window).destroyed)) [
      | inl e ↦ rw (e, finish_update) (undragged-IsSound d' hs s')
      | inr e ↦ rw (e, finish_update) s'
    ]

-- A window that is hit is one of the snapshot.
pub find_window_hit-held :
    (held : List ℕ) (snaps : List Snapshot) (mx my : ℕ)
    → let p = (find_window_hit held snaps mx my).win in ((p == 0) || has p held) ≡ true
unfolding find_window_hit
find_window_hit-held [] snaps mx my = refl
find_window_hit-held (p ∷ held) [] mx my = refl
find_window_hit-held (p ∷ held) (s ∷ snaps) mx my =
    ground (arith, find_window_hit-held held snaps mx my)
