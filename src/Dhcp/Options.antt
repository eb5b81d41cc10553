-- ===== src/Dhcp/Options.antt =====
-- The loop over the options of a reply in src/kernel/dhcp.c against the list of options that the
-- memory holds.
use zoho_os_chatbot.Base.{
  ℕ, zero, suc, ◌+◌, ◌*◌, ◌<◌, ◌≤◌, ◌≡◌, ◌≢◌, refl, ap, ◌∙◌, true, false, not, ◌&&◌, inl, inr, ◌⊎◌,
  List, [], ◌∷◌, All, length, get_or, ltb, ◌==◌, if◌then◌else◌, arith, Bool-cases,
}
use zoho_os_chatbot.Dhcp.{opt_msg_type, opt_server, opt_end, Parsed, read_option, parse_options}
use zoho_os_chatbot.Net.Wire.{Bytes}

pub record Entry : Type 0 where
  pub type : ℕ
  pub bytes : List ℕ

-- No end mark, a message type has a byte, and a server's address has four.
pub record IsEntry (e : Entry) : Type 0 where
  pub proper : e.type ≢ opt_end
  pub message : e.type ≡ opt_msg_type → 1 ≤ length e.bytes
  pub address : e.type ≡ opt_server → 4 ≤ length e.bytes

-- The memory holds the bytes from `i` on; the options, each with its type and its length; and the
-- index behind them.
abbrev pub Stores : Bytes → ℕ → List ℕ → Type 0
Stores d i [] = i ≡ i
Stores d i (x ∷ xs) = (d i ≡ x) × Stores d (suc i) xs

abbrev pub Written : Bytes → ℕ → List Entry → Type 0
Written d i [] = i ≡ i
Written d i (e ∷ es) =
    (d i ≡ e.type)
    × (d (i + 1) ≡ length e.bytes)
    × Stores d (i + 2) e.bytes
    × Written d (i + 2 + length e.bytes) es

abbrev pub end_of : ℕ → List Entry → ℕ
end_of i [] = i
end_of i (e ∷ es) = end_of (i + 2 + length e.bytes) es

-- What the options say: the last message type, and the last server.
unfoldable pub note_entry : Entry → Parsed → Parsed
note_entry e p =
    if e.type == opt_msg_type
    then record p { msg_type = get_or e.bytes 0 0 }
    else if e.type == opt_server
    then record p {
      server = record {
        b0 = get_or e.bytes 0 0;
        b1 = get_or e.bytes 1 0;
        b2 = get_or e.bytes 2 0;
        b3 = get_or e.bytes 3 0;
      };
    }
    else p

unfoldable pub note_entries : List Entry → Parsed → Parsed
unfolding note_entry
note_entries [] p = p
note_entries (e ∷ es) p = note_entries es (note_entry e p)

pub end_of-length : (i : ℕ) (es : List Entry) → i + 2 * length es ≤ end_of i es
end_of-length i [] = omega arith
end_of-length i (e ∷ es) = omega (arith, end_of-length (i + 2 + length e.bytes) es)

Stores-one : (d : Bytes) (i : ℕ) (xs : List ℕ) → 1 ≤ length xs → Stores d i xs → d i ≡ get_or xs 0 0
Stores-one d i [] h s = absurd (omega arith)
Stores-one d i (x ∷ xs) h s = s.0

Stores-four :
    (d : Bytes) (i : ℕ) (xs : List ℕ)
    → 4 ≤ length xs
    → Stores d i xs
    → (d i ≡ get_or xs 0 0)
      × (d (i + 1) ≡ get_or xs 1 0)
      × (d (i + 2) ≡ get_or xs 2 0)
      × (d (i + 3) ≡ get_or xs 3 0)
Stores-four d i (a ∷ b ∷ c ∷ e ∷ xs) h s = (
  s.0,
  ap (λ n. d n) (omega arith) ∙ s.1.0,
  ap (λ n. d n) (omega arith) ∙ s.1.1.0,
  ap (λ n. d n) (omega arith) ∙ s.1.1.1.0,
)
Stores-four d i [] h s = absurd (omega arith)
Stores-four d i (a ∷ []) h s = absurd (omega arith)
Stores-four d i (a ∷ b ∷ []) h s = absurd (omega arith)
Stores-four d i (a ∷ b ∷ c ∷ []) h s = absurd (omega arith)

read_option-note :
    (d : Bytes) (i : ℕ) (e : Entry) (p : Parsed)
    → IsEntry e
    → d i ≡ e.type
    → Stores d (i + 2) e.bytes
    → read_option d i p ≡ note_entry e p
unfolding note_entry
read_option-note d i e p g t s =
    elim (Bool-cases (e.type == opt_msg_type)) as (λ _. read_option d i p ≡ note_entry e p) [
      | inl y ↦
          let q : e.type ≡ opt_msg_type = ground arith in
          let one = Stores-one d (i + 2) e.bytes (g.message q) s in rw (t, y, one) refl
      | inr n ↦
          rw (t, n)
            (elim (Bool-cases (e.type == opt_server)) [
              | inl y ↦
                  let q : e.type ≡ opt_server = ground arith in
                  let (a, b, c, f) = Stores-four d (i + 2) e.bytes (g.address q) s in
                  rw (y, a, b, c, f) refl
              | inr z ↦ rw z refl
            ])
    ]

-- The loop over options that the memory holds, which end at an end mark or with the packet, of which
-- none is an end mark itself, each message type has a byte and each server four: given as
-- many rounds as there are options and one more, it returns, with the last message type and the
-- last server among them, whatever follows.
pub parse_options_lem :
    (es : List Entry) (fuel : ℕ) (d : Bytes) (len i : ℕ) (p : Parsed)
    → All IsEntry es
    → Written d i es
    → end_of i es ≤ len
    → (end_of i es ≡ len) ⊎ (d (end_of i es) ≡ opt_end)
    → length es < fuel
    → parse_options fuel d len i p ≡ note_entries es p
unfolding parse_options note_entries
parse_options_lem es zero d len i p g w b e f = absurd (omega arith)
parse_options_lem [] (suc fuel) d len i p g w b (inl e) f =
    let z : (ltb i len && not (d i == opt_end)) ≡ false = ground arith in rw (parse_options, z) refl
parse_options_lem [] (suc fuel) d len i p g w b (inr e) f =
    let z : (ltb i len && not (d i == opt_end)) ≡ false = ground arith in rw (parse_options, z) refl
parse_options_lem (x ∷ es) (suc fuel) d len i p g w b e f =
    let (t, l, s, rest) = w in
    let before = end_of-length i (x ∷ es) in
    let on : (ltb i len && not (d i == opt_end)) ≡ true = ground (arith, g.0.proper, before) in
    rw (parse_options, on, l, read_option-note d i x p g.0 t s)
      (parse_options_lem es fuel d len (i + 2 + length x.bytes) (note_entry x p) g.1 rest b e
        (omega arith))
