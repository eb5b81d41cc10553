-- ===== src/Window/Tests.antt =====
-- Rectangles near the edges of a screen, and two CPUs that create, update and destroy a window.
use zoho_os_chatbot.Base.{
  ℕ, ◌-◌, ◌*◌, ◌^◌, ◌<◌, ◌≡◌, refl, [], ◌∷◌, arith, ◌==◌, true, false, has, All, ◌||◌, test_bit,
}
use zoho_os_chatbot.Window.{GuiEvent}
use zoho_os_chatbot.Window.Dirty.{
  Place, rect_union, Rect, Dirty, rect_intersect, merge_loop, add_rect, queue_dirty_rect,
}
use zoho_os_chatbot.Window.Manager.{
  Desktop, window_init, window_create, window_destroy_by_pid, snapshot_loop, retain_window,
  destroy_loop, destroy_window, free_window, release_refs, release_window,
}
use zoho_os_chatbot.Window.Update.{
  Pointer, begin_update, finish_update, apply_update, move_pointer, buttons, press, find_window_hit,
}
use zoho_os_chatbot.Window.Calls.{
  World, updating, references, here, next, create, destroy, start_update, end_update,
}
use zoho_os_chatbot.Window.Snapshots.{IsPending}
use zoho_os_chatbot.Window.Safety.{start, no_use_after_free}
use zoho_os_chatbot.Window.Spans.{screen, Shows}
use zoho_os_chatbot.Window.Coverage.{IsDirty, Covers, queue_dirty_rect_lem}

abbrev event : ℕ → GuiEvent
event n = record { type = n; x = 0; y = 0; payload = 0 }

abbrev rect : ℕ → ℕ → ℕ → ℕ → Rect
rect x y w h = record { x = x; y = y; w = w; h = h }

abbrev one_dirty : Dirty
one_dirty = record { rects = λ i. rect 100 100 50 50; count = 1 }

one_dirty-IsDirty : IsDirty 1024 768 (omega arith) (omega arith) one_dirty
unfolding IsDirty
one_dirty-IsDirty = (omega arith, λ i l. (omega arith, omega arith, omega arith, omega arith))

-- A rectangle whose left edge is 5 pixels off the screen.
queue_dirty_rect_lem_example :
    let new = queue_dirty_rect one_dirty (screen 1024 768) (rect (2 ^ 32 - 5) 90 110 20) in
    IsDirty 1024 768 (omega arith) (omega arith) new
    × ((px py : ℕ)
        → px < 1024
        → py < 768
        → Shows (rect (2 ^ 32 - 5) 90 110 20) px py
        → Covers 1024 768 (omega arith) (omega arith) new.rects new.count px py)
    × (1 < 32
        → (px py : ℕ) → Covers 1024 768 (omega arith) (omega arith) one_dirty.rects 1 px py
        → Covers 1024 768 (omega arith) (omega arith) new.rects new.count px py)
queue_dirty_rect_lem_example =
    queue_dirty_rect_lem 1024 768 (omega arith) (omega arith) one_dirty
      (rect (2 ^ 32 - 5) 90 110 20) one_dirty-IsDirty (omega arith) (omega arith)

-- A full list forgets all rectangles but the first.
abbrev full : Dirty
full = record { rects = λ i. rect (20 * i) 0 10 10; count = 32 }

full_forgets : (queue_dirty_rect full (screen 1024 768) (rect 0 700 10 10)).count ≡ 1
unfolding queue_dirty_rect rect_intersect add_rect merge_loop
full_forgets = refl

-- A desktop before the first call.
abbrev blank : Desktop
blank = record {
  windows = λ p. record {
    id = 0;
    place = record { x = 0; y = 0; w = 0; h = 0 };
    title_color = 0;
    bg_color = 0;
    buffer = 0;
    owner_pid = 0;
    dirty = false;
    destroyed = false;
    refcount = 0;
    ring = record { event_queue = λ i. event 0; event_head = 0; event_tail = 0 };
  };
  allocated = λ p. false;
  bad_free = false;
  freed_buffers = [];
  window_list = [];
  next_window_id = 1;
  dirty = record { rects = λ i. rect 0 0 0 0; count = 0 };
  screen = rect 0 0 1024 768;
  cursor_x = 0;
  cursor_y = 0;
  cursor_initialized = false;
  dragging_window = 0;
  drag_off_x = 0;
  drag_off_y = 0;
  last_mb = 0;
  last_mx = 0;
  last_my = 0;
}

-- A window is made, an update begins with the mouse on its title, and the window's process exits
-- before the update ends.
abbrev corner : Place
corner = record { x = 100; y = 100; w = 200; h = 150 }

abbrev mouse : Pointer
mouse = record { mx = 150; my = 110; mb = 1 }

abbrev created : World
created = record (start blank) {
  desktop = window_create (start blank).desktop 0x1000 corner 0xFFFFFFFF;
}

abbrev begun : World
begun = record {
  desktop = (begin_update created.desktop mouse).1;
  pending = updating (begin_update created.desktop mouse).0 ∷ [];
}

abbrev exited : World
exited = record begun { desktop = window_destroy_by_pid begun.desktop 0 }

abbrev ended : World
ended = record {
  desktop = finish_update exited.desktop (begin_update created.desktop mouse).0;
  pending = [];
}

-- The update still holds the window when its process has exited; it frees it, and drags nothing.
freed_last :
    (exited.desktop.allocated 0x1000 ≡ true)
    × (ended.desktop.allocated 0x1000 ≡ false)
    × (ended.desktop.dragging_window ≡ 0)
    × (ended.desktop.bad_free ≡ false)
unfolding window_init window_create begin_update window_destroy_by_pid finish_update snapshot_loop
    retain_window find_window_hit destroy_loop destroy_window free_window apply_update move_pointer
    buttons press release_refs release_window queue_dirty_rect rect_intersect add_rect merge_loop
    rect_union test_bit
freed_last = (refl, refl, refl, refl)

no_use_after_free_example :
    (ended.desktop.bad_free ≡ false)
    × ((p : ℕ)
        → (has p ended.desktop.window_list || has p (references ended.pending))
          ≡ ended.desktop.allocated p)
    × (((ended.desktop.dragging_window == 0)
          || has ended.desktop.dragging_window ended.desktop.window_list)
        ≡ true)
    × All IsPending ended.pending
unfolding window_init window_create
no_use_after_free_example =
    no_use_after_free blank ended (λ p. refl) refl refl
      (next
        (next
          (next (next here (create 0x1000 corner 0xFFFFFFFF (λ e. omega arith) refl refl))
            (start_update mouse refl (omega arith) refl))
          (destroy 0 refl))
        (end_update [] (begin_update created.desktop mouse).0 [] refl refl))
