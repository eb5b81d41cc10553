-- ===== src/Window/Events.antt =====
-- The event ring of src/kernel/window.c as a bounded queue.
use zoho_os_chatbot.Base.{
  ℕ, ◌+◌, ◌%◌, ◌<◌, ◌≡◌, ◌≢◌, refl, ap, ◌∙◌, false, none, some, List, [], ◌∷◌, ◌++◌, arith, ◌==◌,
  update, length,
}
use zoho_os_chatbot.Window.{GuiEvent, Ring, slots, push_event, pop_event}

-- The slots from `i` on hold the events.
abbrev pub Holds : (ℕ → GuiEvent) → ℕ → List GuiEvent → Type 0
Holds q i [] = Unit
Holds q i (e ∷ es) = (q i ≡ e) × Holds q ((i + 1) % slots) es

-- The ring stands for the queue `es`, oldest event first.
pub record IsRing (r : Ring) (es : List GuiEvent) : Type 0 where
  pub small : r.event_head < slots
  pub fits : length es < slots
  pub tail : r.event_tail ≡ (r.event_head + length es) % slots
  pub holds : Holds r.event_queue r.event_head es

-- A write at a slot that the events do not reach keeps them.
Holds-update :
    (q : ℕ → GuiEvent) (i : ℕ) (es : List GuiEvent) (j : ℕ) (e : GuiEvent)
    → i < slots
    → ((k : ℕ) → k < length es → (i + k) % slots ≢ j)
    → Holds q i es
    → Holds (update q j e) i es
Holds-update q i [] j e b h w = tt
Holds-update q i (x ∷ es) j e b h w =
    let ne : i ≢ j = λ z. h 0 (omega arith) (omega arith) in
    (
      ground (arith, w.0),
      Holds-update q ((i + 1) % slots) es j e (omega arith)
          (λ k l z. h (k + 1) (omega arith) (omega arith)) w.1,
    )

Holds-snoc :
    (q : ℕ → GuiEvent) (i : ℕ) (es : List GuiEvent) (e : GuiEvent)
    → i < slots
    → length es < slots
    → Holds q i es
    → q ((i + length es) % slots) ≡ e
    → Holds q i (es ++ (e ∷ []))
Holds-snoc q i [] e b l w h = (let z : i ≡ (i + 0) % slots = omega arith in ap q z ∙ h, tt)
Holds-snoc q i (x ∷ es) e b l w h =
    let z : ((i + 1) % slots + length es) % slots ≡ (i + length (x ∷ es)) % slots = omega arith in
    (w.0, Holds-snoc q ((i + 1) % slots) es e (omega arith) (omega arith) w.1 (ap q z ∙ h))

length-snoc : (es : List GuiEvent) (e : GuiEvent) → length (es ++ (e ∷ [])) ≡ length es + 1
length-snoc [] e = refl
length-snoc (x ∷ es) e = omega (arith, length-snoc es e)

-- A push onto fewer than 15 events appends the event; onto 15 it changes nothing.
pub push_event_refines :
    (r : Ring) (es : List GuiEvent) (e : GuiEvent)
    → IsRing r es
    → (length es + 1 < slots → IsRing (push_event r e) (es ++ (e ∷ [])))
      × (length es + 1 ≡ slots → push_event r e ≡ r)
unfolding push_event
push_event_refines r es e v = (λ h. room h, λ h. ground (arith, v.tail, v.small))
  where
    room : length es + 1 < slots → IsRing (push_event r e) (es ++ (e ∷ []))
    room h =
        let free : ((r.event_tail + 1) % slots == r.event_head) ≡ false =
          ground (arith, v.tail, v.small) in
        rw free (record {
          small = v.small;
          fits = omega (arith, length-snoc es e);
          tail = omega (arith, length-snoc es e, v.tail);
          holds =
              Holds-snoc (update r.event_queue r.event_tail e) r.event_head es e v.small v.fits
                (Holds-update r.event_queue r.event_head es r.event_tail e v.small
                  (λ k l z. omega (arith, v.tail, v.small, v.fits)) v.holds)
                (ground (arith, v.tail));
        })

-- What a pop gives for the queue.
abbrev pub Popped : Ring → List GuiEvent → Type 0
Popped r [] = pop_event r ≡ (none, r)
Popped r (e ∷ es) = ((pop_event r).0 ≡ some e) × IsRing (pop_event r).1 es

-- A pop of the empty queue gives nothing and changes nothing; else it gives the oldest event and
-- leaves the rest.
pub pop_event_refines : (r : Ring) (es : List GuiEvent) → IsRing r es → Popped r es
unfolding pop_event
pop_event_refines r [] v = ground (arith, v.tail, v.small)
pop_event_refines r (e ∷ es) v =
    let busy : (r.event_head == r.event_tail) ≡ false = ground (arith, v.tail, v.small, v.fits) in
    rw busy (
      ap some v.holds.0,
      record {
        small = omega arith;
        fits = omega (arith, v.fits);
        tail = omega (arith, v.tail);
        holds = v.holds.1;
      },
    )
