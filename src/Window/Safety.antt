-- ===== src/Window/Safety.antt =====
-- Every order of calls of src/kernel/window.c keeps the windows' lifetimes in order.
use zoho_os_chatbot.Base.{
  ℕ, ◌≡◌, refl, true, false, ◌||◌, List, [], ◌++◌, arith, ◌==◌, has, All, count-has, has-count,
}
use zoho_os_chatbot.Window.Manager.{Desktop, window_init}
use zoho_os_chatbot.Window.Lifetime.{
  IsSound, create-IsSound, destroy_by_pid-IsSound, release_refs-IsSound,
}
use zoho_os_chatbot.Window.Interaction.{
  queue-IsSound, set_window-IsSound, set_owner-IsSound, set_buffer-IsSound, pop_event-IsSound,
  finish_update-IsSound,
}
use zoho_os_chatbot.Window.Calls.{
  updating, drawing, references, World, Step, create, destroy, set_owner, set_buffer, pop, mark,
  start_update, end_update, start_draw, end_draw, Reach, here, next,
}
use zoho_os_chatbot.Window.Snapshots.{
  IsPending, IsSafe, begin_update-IsSafe, begin_draw-IsSafe, ended-IsSound,
}

Step-IsSafe : (w w' : World) → Step w w' → IsSafe w → IsSafe w'
Step-IsSafe w w' (create p place bg z a e) s = rw e (record {
  sound = create-IsSound w.desktop p place bg (references w.pending) s.sound z a;
  pending = s.pending;
})
Step-IsSafe w w' (destroy pid e) s = rw e (record {
  sound = destroy_by_pid-IsSound w.desktop pid (references w.pending) s.sound;
  pending = s.pending;
})
Step-IsSafe w w' (set_owner p pid live e) s = rw e (record {
  sound = set_owner-IsSound w.desktop p pid (references w.pending) s.sound;
  pending = s.pending;
})
Step-IsSafe w w' (set_buffer p buffer live e) s = rw e (record {
  sound = set_buffer-IsSound w.desktop p buffer (references w.pending) s.sound;
  pending = s.pending;
})
Step-IsSafe w w' (pop id e) s = rw e (record {
  sound = pop_event-IsSound w.desktop id (references w.pending) s.sound;
  pending = s.pending;
})
Step-IsSafe w w' (mark p r live e) s = rw e (record {
  sound =
      queue-IsSound _ r (references w.pending)
        (set_window-IsSound w.desktop p _ (references w.pending) refl refl s.sound);
  pending = s.pending;
})
Step-IsSafe w w' (start_update m i l e) s = rw e (begin_update-IsSafe w m s l)
Step-IsSafe w w' (end_update before u after e f) s =
    let t = ended-IsSound w before (updating u) after e s in
    rw f (record {
      sound = finish_update-IsSound w.desktop u (references (before ++ after)) t.0 t.1.1;
      pending = t.2;
    })
Step-IsSafe w w' (start_draw c l e) s = rw e (begin_draw-IsSafe w s l)
Step-IsSafe w w' (end_draw before held after e f) s =
    let t = ended-IsSound w before (drawing held) after e s in
    rw f (record {
      sound = release_refs-IsSound w.desktop held (references (before ++ after)) t.0;
      pending = t.2;
    })

Reach-IsSafe : {w w' : World} → IsSafe w → Reach w w' → IsSafe w'
Reach-IsSafe s here = s
Reach-IsSafe s (next {t} {u} r st) = Step-IsSafe t u st (Reach-IsSafe s r)

used-IsSound :
    (d : Desktop) (hs : List ℕ) (p : ℕ)
    → IsSound d hs
    → (has p d.window_list || has p hs) ≡ d.allocated p
used-IsSound d hs p s =
    ground (arith, s.alive p, s.held p, s.kept p, count-has p hs, has-count p hs)

-- No window has been created, and no call is pending.
abbrev pub start : Desktop → World
start d = record { desktop = window_init d; pending = [] }

start-IsSafe :
    (d : Desktop)
    → ((p : ℕ) → d.allocated p ≡ false)
    → d.bad_free ≡ false
    → d.dragging_window ≡ 0
    → IsSafe (start d)
unfolding window_init
start-IsSafe d a b z = record {
  sound = record {
    no_null = a 0;
    alive = λ p. rw (a p) refl;
    distinct = tt;
    counted = λ p h. absurd (cc (a p));
    held = λ p h. refl;
    kept = λ p h. absurd (cc (a p));
    dragged = rw z refl;
    good = b;
  };
  pending = tt;
}

-- After any calls by any CPUs, in any order, from a desktop without windows, if `kmalloc` gave each new
-- window memory that no other one had, and never NULL, the callers of `window_set_owner`,
-- `window_set_buffer` and `window_mark_dirty` passed NULL or a window that was allocated, and fewer
-- than 2^31 updates and drawings were under way at once: no window was freed twice or without having
-- been allocated; the windows in the list, the window that is dragged, those of all snapshots and
-- those that a pending update acts on are allocated; and every window that is allocated is in the
-- list, or some CPU still holds it, so that none is lost.
pub no_use_after_free :
    (d : Desktop) (w : World)
    → ((p : ℕ) → d.allocated p ≡ false)
    → d.bad_free ≡ false
    → d.dragging_window ≡ 0
    → Reach (start d) w
    → (w.desktop.bad_free ≡ false)
      × ((p : ℕ)
          → (has p w.desktop.window_list || has p (references w.pending)) ≡ w.desktop.allocated p)
      × (((w.desktop.dragging_window == 0) || has w.desktop.dragging_window w.desktop.window_list)
          ≡ true)
      × All IsPending w.pending
no_use_after_free d w a b z r =
    let s = Reach-IsSafe (start-IsSafe d a b z) r in
    (
      s.sound.good,
      λ p. used-IsSound w.desktop (references w.pending) p s.sound,
      s.sound.dragged,
      s.pending,
    )
