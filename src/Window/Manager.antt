-- ===== src/Window/Manager.antt =====
-- The windows of src/kernel/window.c: the records behind pointers, the list from the top window to the
-- bottom one, the references that snapshots hold, and what is freed. `window_list` and its `next`
-- pointers are a list of addresses.
use zoho_os_chatbot.Base.{
  ℕ, zero, suc, ◌+◌, ◌-◌, Bool, true, false, not, ◌&&◌, ◌||◌, Option, none, some, List, [], ◌∷◌,
  ◌==◌, if◌then◌else◌, u32, update,
}
use zoho_os_chatbot.Window.{GuiEvent, Ring, pop_event}
use zoho_os_chatbot.Window.Dirty.{Rect, Dirty, Place, queue_dirty_rect, window_outer_rect}

-- `window_t`
pub record Window : Type 0 where
  pub id : ℕ
  pub place : Place
  pub title_color : ℕ
  pub bg_color : ℕ
  pub buffer : ℕ
  pub owner_pid : ℕ
  pub dirty : Bool
  pub destroyed : Bool
  pub refcount : ℕ
  pub ring : Ring

-- The static variables, with the heap as far as windows go: which addresses hold a window, and
-- whether one was freed that did not, and the buffers that were freed with their windows.
pub record Desktop : Type 0 where
  pub windows : ℕ → Window
  pub allocated : ℕ → Bool
  pub bad_free : Bool
  pub freed_buffers : List ℕ
  pub window_list : List ℕ
  pub next_window_id : ℕ
  pub dirty : Dirty
  pub screen : Rect
  pub cursor_x : ℕ
  pub cursor_y : ℕ
  pub cursor_initialized : Bool
  pub dragging_window : ℕ
  pub drag_off_x : ℕ
  pub drag_off_y : ℕ
  pub last_mb : ℕ
  pub last_mx : ℕ
  pub last_my : ℕ

abbrev pub set_window : Desktop → ℕ → Window → Desktop
set_window d p win = record d { windows = update d.windows p win }

abbrev pub queue : Desktop → Rect → Desktop
queue d r = record d { dirty = queue_dirty_rect d.dirty d.screen r }

abbrev pub outer : Desktop → ℕ → Rect
outer d p = window_outer_rect (d.windows p).place

-- `free_window`
unfoldable pub free_window : Desktop → ℕ → Desktop
free_window d p = if p == 0 then d else record d {
  allocated = update d.allocated p false;
  bad_free = d.bad_free || not (d.allocated p);
  freed_buffers =
      if (d.windows p).buffer == 0 then d.freed_buffers else (d.windows p).buffer ∷ d.freed_buffers;
}

unfoldable pub retain_window : Desktop → ℕ → Desktop
retain_window d p =
    let win = d.windows p in
    if p == 0 then d else set_window d p (record win { refcount = u32 (win.refcount + 1) })

unfoldable pub release_window : Desktop → ℕ → Desktop
release_window d p =
    let win = d.windows p in
    let left = win.refcount - 1 in
    let d' = set_window d p (record win { refcount = left }) in
    if (p == 0) || (win.refcount == 0)
    then d
    else if win.destroyed && (left == 0)
    then free_window d' p
    else d'

-- `window_snapshot_t`
pub record Snapshot : Type 0 where
  pub place : Place
  pub title_color : ℕ
  pub bg_color : ℕ
  pub buffer : ℕ

-- `snapshot_window_list`: the places left in the arrays, and the windows from `curr` on. The
-- references, the snapshots and the new state.
unfoldable pub snapshot_loop : ℕ → List ℕ → Desktop → List ℕ × List Snapshot × Desktop
snapshot_loop zero curr d = ([], [], d)
snapshot_loop (suc room) [] d = ([], [], d)
snapshot_loop (suc room) (p ∷ curr) d =
    let win = d.windows p in
    let snap : Snapshot = record {
      place = win.place;
      title_color = win.title_color;
      bg_color = win.bg_color;
      buffer = win.buffer;
    } in
    let rest = snapshot_loop room curr (retain_window d p) in (p ∷ rest.0, snap ∷ rest.1, rest.2)

abbrev pub max_snapshots : ℕ
max_snapshots = 16

unfoldable pub release_refs : Desktop → List ℕ → Desktop
release_refs d [] = d
release_refs d (p ∷ held) = release_refs (release_window d p) held

-- `window_init`; `kmalloc` and `kfree` have not been called.
unfoldable pub window_init : Desktop → Desktop
window_init d =
    queue
      (record d {
        window_list = [];
        dirty = record d.dirty { count = 0 };
        cursor_initialized = false;
      })
      d.screen

-- `window_create`, where `kmalloc` returns `p`; the result is `p`.
unfoldable pub window_create : Desktop → ℕ → Place → ℕ → Desktop
window_create d p place bg =
    let win : Window = record {
      id = d.next_window_id;
      place = place;
      title_color = 0xFF555555;
      bg_color = bg;
      buffer = 0;
      owner_pid = 0;
      dirty = true;
      destroyed = false;
      refcount = 0;
      ring = record (d.windows p).ring { event_head = 0; event_tail = 0 };
    } in
    queue
      (record d {
        windows = update d.windows p win;
        allocated = update d.allocated p true;
        window_list = p ∷ d.window_list;
        next_window_id = u32 (d.next_window_id + 1);
      })
      (window_outer_rect place)

-- The search of `window_get_by_id` and `window_pop_event`: the first window of the id, if that is not
-- destroyed.
unfoldable pub get_by_id : (ℕ → Window) → ℕ → List ℕ → Option ℕ
get_by_id ws id [] = none
get_by_id ws id (p ∷ ps) = elim ((ws p).id == id) [
  | true ↦ if (ws p).destroyed then none else some p
  | false ↦ get_by_id ws id ps
]

unfoldable pub window_get_by_id : Desktop → ℕ → Option ℕ
window_get_by_id d id = get_by_id d.windows id d.window_list

unfoldable pub window_set_owner : Desktop → ℕ → ℕ → Desktop
window_set_owner d p pid =
    let win = d.windows p in
    if (p == 0) || win.destroyed then d else set_window d p (record win { owner_pid = pid })

unfoldable pub window_set_buffer : Desktop → ℕ → ℕ → Desktop
window_set_buffer d p buffer =
    let win = d.windows p in
    if (p == 0) || win.destroyed
    then d
    else queue (set_window d p (record win { buffer = buffer; dirty = true }))
        (window_outer_rect win.place)

-- `window_pop_event`: no window of the id is the result -1, no event the result 0.
pub data PopResult : Type 0 where
  no_window : PopResult
  no_event : PopResult
  event : GuiEvent → PopResult

abbrev pub pop_from : Desktop → ℕ → PopResult × Desktop
pop_from d p =
    let win = d.windows p in
    let r = pop_event win.ring in
    elim r.0 [
      | none ↦ (no_event, d)
      | some e ↦ (event e, set_window d p (record win { ring = r.1 }))
    ]

unfoldable pub window_pop_event : Desktop → ℕ → PopResult × Desktop
window_pop_event d id = elim (window_get_by_id d id) [
  | none ↦ (no_window, d)
  | some p ↦ pop_from d p
]

-- `window_destroy_by_pid` for one window that leaves the list.
unfoldable pub destroy_window : Desktop → ℕ → Desktop
destroy_window d p =
    let win = d.windows p in
    let d' =
      queue
        (record d {
          dragging_window = if d.dragging_window == p then 0 else d.dragging_window;
          windows = update d.windows p (record win { destroyed = true });
        })
        (window_outer_rect win.place) in
    if win.refcount == 0 then free_window d' p else d'

-- Its loop: the windows from `curr` on; the windows that stay, and the new state.
unfoldable pub destroy_loop : List ℕ → ℕ → Desktop → List ℕ × Desktop
destroy_loop [] pid d = ([], d)
destroy_loop (p ∷ curr) pid d = elim ((d.windows p).owner_pid == pid) [
  | true ↦ destroy_loop curr pid (destroy_window d p)
  | false ↦ let rest = destroy_loop curr pid d in (p ∷ rest.0, rest.1)
]

unfoldable pub window_destroy_by_pid : Desktop → ℕ → Desktop
window_destroy_by_pid d pid =
    let r = destroy_loop d.window_list pid d in record r.1 { window_list = r.0 }
