-- ===== src/Window/Calls.antt =====
-- The calls of src/kernel/window.c in any order, by any number of CPUs: `window_update` and
-- `window_draw_all` each as two steps, between which other calls come.
use zoho_os_chatbot.Base.{
  ℕ, ◌^◌, ◌<◌, ◌≡◌, ◌≢◌, true, false, List, [], ◌∷◌, ◌++◌, length, ◌||◌, ◌==◌,
}
use zoho_os_chatbot.Window.Dirty.{Rect, Place}
use zoho_os_chatbot.Window.Manager.{
  Desktop, set_window, queue, window_create, window_destroy_by_pid, window_set_owner,
  window_set_buffer, window_pop_event, release_refs,
}
use zoho_os_chatbot.Window.Update.{
  Pointer, Updating, is_idle, begin_update, finish_update, begin_draw,
}

-- What a CPU has when it is between the two parts of a call.
pub data Pending : Type 0 where
  updating : Updating → Pending
  drawing : List ℕ → Pending

abbrev pub held_of : Pending → List ℕ
held_of (updating u) = u.held
held_of (drawing held) = held

-- All references.
abbrev pub references : List Pending → List ℕ
references [] = []
references (c ∷ cs) = held_of c ++ references cs

pub record World : Type 0 where
  pub desktop : Desktop
  pub pending : List Pending

-- What callers pass as a window: NULL, or one that is allocated.
abbrev pub IsPassed : World → ℕ → Type 0
IsPassed w p = ((p == 0) || w.desktop.allocated p) ≡ true

-- `kmalloc` gives memory for each new window, as `window_create` does not test its result.
pub data Step (w w' : World) : Type 0 where
  create :
      (p : ℕ) (place : Place) (bg : ℕ)
      → p ≢ 0
      → w.desktop.allocated p ≡ false
      → w' ≡ record w { desktop = window_create w.desktop p place bg }
      → Step w w'
  destroy : (pid : ℕ) → w' ≡ record w { desktop = window_destroy_by_pid w.desktop pid } → Step w w'
  set_owner :
      (p pid : ℕ)
      → IsPassed w p
      → w' ≡ record w { desktop = window_set_owner w.desktop p pid }
      → Step w w'
  set_buffer :
      (p buffer : ℕ)
      → IsPassed w p
      → w' ≡ record w { desktop = window_set_buffer w.desktop p buffer }
      → Step w w'
  pop : (id : ℕ) → w' ≡ record w { desktop = (window_pop_event w.desktop id).1 } → Step w w'
  mark :
      (p : ℕ) (r : Rect)
      → IsPassed w p
      → w' ≡ record w {
        desktop = queue (set_window w.desktop p (record (w.desktop.windows p) { dirty = true })) r;
      }
      → Step w w'
  start_update :
      (m : Pointer)
      → is_idle w.desktop m ≡ false
      → length w.pending < 2 ^ 31
      → w' ≡ record {
        desktop = (begin_update w.desktop m).1;
        pending = updating (begin_update w.desktop m).0 ∷ w.pending;
      }
      → Step w w'
  end_update :
      (before : List Pending) (u : Updating) (after : List Pending)
      → w.pending ≡ before ++ (updating u ∷ after)
      → w' ≡ record { desktop = finish_update w.desktop u; pending = before ++ after }
      → Step w w'
  start_draw :
      w.desktop.dirty.count ≢ 0
      → length w.pending < 2 ^ 31
      → w' ≡ record {
        desktop = (begin_draw w.desktop).1;
        pending = drawing (begin_draw w.desktop).0.0 ∷ w.pending;
      }
      → Step w w'
  end_draw :
      (before : List Pending) (held : List ℕ) (after : List Pending)
      → w.pending ≡ before ++ (drawing held ∷ after)
      → w' ≡ record { desktop = release_refs w.desktop held; pending = before ++ after }
      → Step w w'

pub data Reach (w : World) : World → Type 0 where
  here : Reach w w
  next : {t u : World} → Reach w t → Step t u → Reach w u
