-- ===== src/Window.antt =====
-- The windows of src/kernel/window.c, and here the event ring of one: 16 slots, of which 15 hold
-- events. Manager and Update have the list and its calls, Dirty the rectangles to draw.
pub mod Manager
pub mod Update
pub mod Lifetime
pub mod Interaction
pub mod Calls
pub mod Snapshots
pub mod Safety
pub mod Dirty
pub mod Spans
pub mod Coverage
pub mod Events
mod Tests
use zoho_os_chatbot.Base.{ℕ, ◌+◌, ◌%◌, ◌^◌, Option, none, some, ◌==◌, if◌then◌else◌, update}

-- `gui_event_t`, its field `data` renamed.
pub record GuiEvent : Type 0 where
  pub type : ℕ
  pub x : ℕ
  pub y : ℕ
  pub payload : ℕ

-- The fields of `window_t` that the ring uses.
pub record Ring : Type 0 where
  pub event_queue : ℕ → GuiEvent
  pub event_head : ℕ
  pub event_tail : ℕ

abbrev pub slots : ℕ
slots = 16

-- `window_push_event`; a full ring drops the event.
pub push_event : Ring → GuiEvent → Ring
push_event r event =
    let next = (r.event_tail + 1) % slots in
    if next == r.event_head
    then r
    else record r { event_queue = update r.event_queue r.event_tail event; event_tail = next }

-- The part of `window_pop_event` on the window that was found; `none` is the result 0.
pub pop_event : Ring → Option GuiEvent × Ring
pop_event r =
    if r.event_head == r.event_tail
    then (none, r)
    else (some (r.event_queue r.event_head), record r { event_head = (r.event_head + 1) % slots })
