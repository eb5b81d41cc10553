-- ===== src/Window/Update.antt =====
-- `window_update` and `window_draw_all` of src/kernel/window.c. Both take a snapshot under the lock,
-- let go of it, and take it again: other calls come between their two parts, which are functions of
-- their own here. Coordinates are residues modulo 2 ^ 32.
use zoho_os_chatbot.Base.{
  ℕ, ◌+◌, Bool, true, false, not, ◌&&◌, ◌||◌, List, [], ◌∷◌, ◌==◌, if◌then◌else◌, u32, test_bit,
  has, remove,
}
use zoho_os_chatbot.Window.{GuiEvent, push_event}
use zoho_os_chatbot.Window.Dirty.{Rect, Place, i32_lt, i32_sub, window_outer_rect, title_height}
use zoho_os_chatbot.Window.Manager.{
  Desktop, set_window, queue, outer, Snapshot, snapshot_loop, max_snapshots, release_refs,
}

-- The mouse's position and buttons.
pub record Pointer : Type 0 where
  pub mx : ℕ
  pub my : ℕ
  pub mb : ℕ

-- `window_hit_t`; `win` is 0 for no window.
pub record Hit : Type 0 where
  pub win : ℕ
  pub local_x : ℕ
  pub local_y : ℕ
  pub in_title : Bool
  pub in_body : Bool

abbrev pub no_hit : Hit
no_hit = record { win = 0; local_x = 0; local_y = 0; in_title = false; in_body = false }

-- The window on the screen has the point.
abbrev pub contains : Place → ℕ → ℕ → Bool
contains s mx my =
    not (i32_lt mx s.x || not (i32_lt mx (u32 (s.x + s.w))))
    && not (i32_lt my s.y || not (i32_lt my (u32 (s.y + s.h))))

abbrev pub hit_at : ℕ → Place → ℕ → ℕ → Hit
hit_at p s mx my =
    if i32_lt my (u32 (s.y + title_height))
    then record {
      win = p;
      local_x = i32_sub mx s.x;
      local_y = i32_sub my s.y;
      in_title = true;
      in_body = false;
    }
    else record {
      win = p;
      local_x = i32_sub mx s.x;
      local_y = i32_sub (i32_sub my s.y) title_height;
      in_title = false;
      in_body = true;
    }

unfoldable pub find_window_hit : List ℕ → List Snapshot → ℕ → ℕ → Hit
find_window_hit [] snaps mx my = no_hit
find_window_hit (p ∷ held) [] mx my = no_hit
find_window_hit (p ∷ held) (s ∷ snaps) mx my =
    if contains s.place mx my then hit_at p s.place mx my else find_window_hit held snaps mx my

abbrev pub cursor_rect : ℕ → ℕ → Rect
cursor_rect x y = record { x = x; y = y; w = 10; h = 15 }

-- What `window_update` keeps while it does not have the lock.
pub record Updating : Type 0 where
  pub pointer : Pointer
  pub held : List ℕ
  pub press : Hit
  pub move : Hit
  pub was_initialized : Bool

-- Nothing has changed since the last update.
abbrev pub is_idle : Desktop → Pointer → Bool
is_idle d m =
    d.cursor_initialized
    && (d.dragging_window == 0)
    && (m.mx == d.last_mx)
    && (m.my == d.last_my)
    && (m.mb == d.last_mb)

abbrev pub moved : Desktop → Pointer → Bool
moved d m = not (m.mx == d.last_mx) || not (m.my == d.last_my)

-- The first part, if `is_idle` is false.
unfoldable pub begin_update : Desktop → Pointer → Updating × Desktop
begin_update d m =
    let d1 =
      if d.cursor_initialized
      then d
      else record d { cursor_initialized = true; cursor_x = m.mx; cursor_y = m.my } in
    let s = snapshot_loop max_snapshots d1.window_list d1 in
    let hit = find_window_hit s.0 s.1 m.mx m.my in
    (
      record {
        pointer = m;
        held = s.0;
        press = if test_bit m.mb 0 && (d.dragging_window == 0) then hit else no_hit;
        move = if moved d m then hit else no_hit;
        was_initialized = d.cursor_initialized;
      },
      s.2,
    )

abbrev pub head_of : List ℕ → ℕ
head_of [] = 0
head_of (p ∷ ps) = p

-- A drag begins: the window comes to the top.
unfoldable pub start_drag : Desktop → Pointer → ℕ → Desktop
start_drag d m p =
    let place = (d.windows p).place in
    let d' = record d {
      dragging_window = p;
      drag_off_x = i32_sub m.mx place.x;
      drag_off_y = i32_sub m.my place.y;
    } in
    if (p == head_of d.window_list) || not (has p d.window_list)
    then d'
    else queue (queue (record d' { window_list = p ∷ remove p d.window_list }) (outer d p))
        (outer d p)

abbrev pub click : ℕ
click = 1

abbrev pub motion : ℕ
motion = 2

-- An event of this type at the point, for the window.
unfoldable pub send_event : Desktop → Pointer → ℕ → ℕ → ℕ → Desktop
send_event d m p type payload =
    let win = d.windows p in
    let e : GuiEvent = record {
      type = type;
      x = i32_sub m.mx win.place.x;
      y = i32_sub (i32_sub m.my win.place.y) title_height;
      payload = payload;
    } in
    set_window d p (record win { ring = push_event win.ring e })

unfoldable pub press : Desktop → Updating → Desktop
press d u =
    let p = u.press.win in
    if (p == 0) || (d.windows p).destroyed
    then d
    else if u.press.in_title
    then start_drag d u.pointer p
    else if u.press.in_body && not (test_bit d.last_mb 0)
    then send_event d u.pointer p click 1
    else d

unfoldable pub drag : Desktop → Pointer → Desktop
drag d m =
    let p = d.dragging_window in
    let win = d.windows p in
    let place : Place = record win.place {
      x = i32_sub m.mx d.drag_off_x;
      y = i32_sub m.my d.drag_off_y;
    } in
    if win.destroyed
    then record d { dragging_window = 0 }
    else queue
        (queue (set_window d p (record win { place = place; dirty = true }))
          (window_outer_rect win.place))
        (window_outer_rect place)

unfoldable pub buttons : Desktop → Updating → Desktop
buttons d u =
    if test_bit u.pointer.mb 0
    then (if d.dragging_window == 0 then press d u else drag d u.pointer)
    else record d { dragging_window = 0 }

unfoldable pub move_pointer : Desktop → Updating → Desktop
move_pointer d u =
    let m = u.pointer in
    let d' = queue (queue d (cursor_rect d.cursor_x d.cursor_y)) (cursor_rect m.mx m.my) in
    let p = u.move.win in
    if not (moved d m)
    then d
    else if not (p == 0) && u.move.in_body && not (d.windows p).destroyed
    then send_event d' m p motion 0
    else d'

-- The second part, up to the release of the references.
unfoldable pub apply_update : Desktop → Updating → Desktop
apply_update d u =
    let m = u.pointer in
    let d1 = if u.was_initialized then d else queue d (cursor_rect m.mx m.my) in
    record (move_pointer (buttons d1 u) u) {
      cursor_x = m.mx;
      cursor_y = m.my;
      last_mb = m.mb;
      last_mx = m.mx;
      last_my = m.my;
    }

-- The end of both: the references are released; in `window_update` a destroyed window is not dragged.
unfoldable pub finish_update : Desktop → Updating → Desktop
finish_update d u =
    let d' = release_refs (apply_update d u) u.held in
    let p = d'.dragging_window in
    if not (p == 0) && (d'.windows p).destroyed then record d' { dragging_window = 0 } else d'

-- The first part of `window_draw_all`, if `dirty_count` is not 0: the snapshot, and the rectangles
-- to draw.
unfoldable pub begin_draw : Desktop → (List ℕ × List Snapshot × (ℕ → Rect) × ℕ) × Desktop
begin_draw d =
    let s =
      snapshot_loop max_snapshots d.window_list
        (record d { dirty = record d.dirty { count = 0 } }) in
    ((s.0, s.1, d.dirty.rects, d.dirty.count), s.2)
