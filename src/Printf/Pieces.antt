-- ===== src/Printf/Pieces.antt =====
-- What a format stands for: its pieces, the characters of each, and what `convert` of
-- src/kernel/printf.c does for a piece.
use zoho_os_chatbot.Base.{
  ℕ, zero, suc, ◌-◌, ◌%◌, ◌^◌, ◌<◌, ◌≤◌, ◌≡◌, ◌≢◌, ◌⊎◌, refl, sym, ap, ap₂, ◌∙◌, List, [], ◌∷◌,
  ◌++◌, append_assoc, arith, ltb, ◌==◌, Bool, true, false, some, if◌then◌else◌, length, take,
  get_or, All, Bool-cases, inl, inr, length-append, take-short,
}
use zoho_os_chatbot.Printf.{
  Chars, Arg, number, text, Format, buf_size, room, itoa, put_string, put_number, put_signed,
  next_number, next_text, convert,
}
use zoho_os_chatbot.Printf.Number.{string_at, itoa-Spells, Numeral, Spells-Numeral}
use zoho_os_chatbot.Printf.Output.{put_loop_lem}

-- A character of the format, or a percent sign with the character behind it and its argument.
pub data Piece : Type 0 where
  literal : ℕ → Piece
  character : ℕ → Piece
  string : List ℕ → Piece
  signed : ℕ → Piece
  unsigned : ℕ → Piece
  hex : ℕ → Piece
  pointer : ℕ → Piece
  other : ℕ → Piece

abbrev pub chars_of : List ℕ → Chars
chars_of xs k = get_or xs k 0

abbrev pub spec_char : Piece → ℕ
spec_char (literal c) = c
spec_char (character n) = b'c'
spec_char (string xs) = b's'
spec_char (signed n) = b'd'
spec_char (unsigned n) = b'u'
spec_char (hex n) = b'x'
spec_char (pointer n) = b'p'
spec_char (other c) = c

abbrev pub is_literal : Piece → Bool
is_literal (literal c) = true
is_literal (character n) = false
is_literal (string xs) = false
is_literal (signed n) = false
is_literal (unsigned n) = false
is_literal (hex n) = false
is_literal (pointer n) = false
is_literal (other c) = false

-- The piece in front of the rest of a format.
abbrev pub format_of : Piece → List ℕ → List ℕ
format_of p rest = if is_literal p then spec_char p ∷ rest else b'%' ∷ spec_char p ∷ rest

abbrev pub arg_of : Piece → List Arg → List Arg
arg_of (literal c) args = args
arg_of (character n) args = number n ∷ args
arg_of (string xs) args = text (chars_of xs) ∷ args
arg_of (signed n) args = number n ∷ args
arg_of (unsigned n) args = number n ∷ args
arg_of (hex n) args = number n ∷ args
arg_of (pointer n) args = number n ∷ args
arg_of (other c) args = args

-- No piece is the end of the format, and a number has 64 bits.
abbrev pub IsProper : Piece → Type 0
IsProper (literal c) = (c ≢ 0) × (c ≢ b'%')
IsProper (character n) = Unit
IsProper (string xs) = All (λ c. c ≢ 0) xs
IsProper (signed n) = n < 2 ^ 64
IsProper (unsigned n) = n < 2 ^ 64
IsProper (hex n) = n < 2 ^ 64
IsProper (pointer n) = n < 2 ^ 64
IsProper (other c) =
    (c ≢ 0) × (c ≢ b'c') × (c ≢ b's') × (c ≢ b'd') × (c ≢ b'u') × (c ≢ b'x') × (c ≢ b'p')

-- The text `xs` is what the piece stands for; a number is signed in two's complement.
abbrev pub Renders : Piece → List ℕ → Type 0
Renders (literal c) xs = xs ≡ c ∷ []
Renders (character n) xs = xs ≡ n % 256 ∷ []
Renders (string s) xs = xs ≡ s
Renders (signed n) xs =
    ((n < 2 ^ 63) × Numeral 10 n xs)
    ⊎ ((2 ^ 63 ≤ n) × (ds : List ℕ) × (xs ≡ b'-' ∷ ds) × Numeral 10 (2 ^ 64 - n) ds)
Renders (unsigned n) xs = Numeral 10 n xs
Renders (hex n) xs = Numeral 16 n xs
Renders (pointer n) xs = Numeral 16 n xs
Renders (other c) xs = xs ≡ c ∷ []

-- The state behind a piece that stands for `xs`.
pub record Converted (p : Piece) (size : ℕ) (f : Format) (args : List Arg) : Type 0 where
  pub xs : List ℕ
  pub buf : Chars
  pub renders : Renders p xs
  pub step :
      convert size (spec_char p) f
      ≡ some (record { out = take (room size) (f.out ++ xs); args = args; buf = buf })

-- A number written behind `out`.
record Put (size base n : ℕ) (f : Format) : Type 0 where
  xs : List ℕ
  buf : Chars
  numeral : Numeral base n xs
  put :
      put_number size base n f
      ≡ record { out = take (room size) (f.out ++ xs); args = f.args; buf = buf }

put_number_lem :
    (size base n : ℕ) (f : Format)
    → (base ≡ 10) ⊎ (base ≡ 16)
    → n < 2 ^ 64
    → length f.out ≤ room size
    → Put size base n f
unfolding put_number put_string
put_number_lem size base n f b h u =
    let buf = itoa n f.buf base in
    let s = itoa-Spells base n f.buf b h in
    record {
      xs = string_at buf_size buf;
      buf = buf;
      numeral = Spells-Numeral base n buf s;
      put =
          ap (λ o. record f { out = o; buf = buf })
            (put_loop_lem (room size) size s.m buf_size buf f.out (omega (arith, s.short)) s.digits
              s.end u (omega arith));
    }

string_at-chars_of :
    (xs : List ℕ) → All (λ c. c ≢ 0) xs → string_at (suc (length xs)) (chars_of xs) ≡ xs
unfolding string_at
string_at-chars_of [] a = refl
string_at-chars_of (x ∷ xs) (h, a) =
    let some_char : (x == 0) ≡ false = ground arith in
    rw (some_char, string_at) (ap (λ l. x ∷ l) (string_at-chars_of xs a))

chars_of-nonzero : (xs : List ℕ) → All (λ c. c ≢ 0) xs → (k : ℕ) → k < length xs → chars_of xs k ≢ 0
chars_of-nonzero [] a k h = absurd (omega arith)
chars_of-nonzero (x ∷ xs) (h, a) zero l = h
chars_of-nonzero (x ∷ xs) (h, a) (suc k) l = chars_of-nonzero xs a k (omega arith)

chars_of-end : (xs : List ℕ) → chars_of xs (length xs) ≡ 0
chars_of-end [] = refl
chars_of-end (x ∷ xs) = chars_of-end xs

put_one :
    (size c : ℕ) (out : List ℕ)
    → length out < room size
    → out ++ (c ∷ []) ≡ take (room size) (out ++ (c ∷ []))
put_one size c out h =
    sym (take-short (room size) (out ++ (c ∷ [])) (omega (arith, length-append out (c ∷ []))))

convert_other :
    (c size : ℕ) (f : Format)
    → IsProper (other c)
    → convert size c f ≡ some (record f { out = f.out ++ (c ∷ []) })
unfolding convert
convert_other c size f h = ground arith

pub convert_lem :
    (p : Piece) (size : ℕ) (f : Format) (args : List Arg)
    → IsProper p
    → is_literal p ≡ false
    → f.args ≡ arg_of p args
    → length f.out < room size
    → Converted p size f args
unfolding convert next_number next_text put_string put_signed
convert_lem (literal c) size f args h l a u = absurd cc
convert_lem (character n) size f args h l a u = record {
  xs = n % 256 ∷ [];
  buf = f.buf;
  renders = refl;
  step = rw a (
      ap (λ o. some (record { out = o; args = args; buf = f.buf }))
        (put_one size (n % 256) f.out u));
}
convert_lem (string xs) size f args h l a u = record {
  xs = xs;
  buf = f.buf;
  renders = refl;
  step = rw a (
      ap (λ o. some (record { out = o; args = args; buf = f.buf }))
        (put_loop_lem (room size) size (length xs) (suc (length xs)) (chars_of xs) f.out
            (omega arith) (chars_of-nonzero xs h) (chars_of-end xs) (omega arith) (omega arith)
          ∙ ap (λ l. take (room size) (f.out ++ l)) (string_at-chars_of xs h)));
}
convert_lem (signed n) size f args h l a u = elim (Bool-cases (ltb n (2 ^ 63))) [
  | inl e ↦
      let w = put_number_lem size 10 n (record f { args = args }) (inl refl) h (omega arith) in
      record {
        xs = w.xs;
        buf = w.buf;
        renders = inl (ground arith, w.numeral);
        step = rw (a, e) (ap (λ g. some g) w.put);
      }
  | inr e ↦
      let minus = f.out ++ (b'-' ∷ []) in
      let w =
        put_number_lem size 10 (2 ^ 64 - n) (record f { out = minus; args = args }) (inl refl)
          (ground arith) (omega (arith, length-append f.out (b'-' ∷ []))) in
      record {
        xs = b'-' ∷ w.xs;
        buf = w.buf;
        renders = inr (ground arith, w.xs, refl, w.numeral);
        step =
            rw (a, e)
              (ap (λ g. some g) w.put
                ∙ ap (λ o. some (record { out = take (room size) o; args = args; buf = w.buf }))
                    (append_assoc f.out (b'-' ∷ []) w.xs));
      }
]
convert_lem (unsigned n) size f args h l a u =
    let w = put_number_lem size 10 n (record f { args = args }) (inl refl) h (omega arith) in
    record { xs = w.xs; buf = w.buf; renders = w.numeral; step = rw a (ap (λ g. some g) w.put) }
convert_lem (hex n) size f args h l a u =
    let w = put_number_lem size 16 n (record f { args = args }) (inr refl) h (omega arith) in
    record { xs = w.xs; buf = w.buf; renders = w.numeral; step = rw a (ap (λ g. some g) w.put) }
convert_lem (pointer n) size f args h l a u =
    let w = put_number_lem size 16 n (record f { args = args }) (inr refl) h (omega arith) in
    record { xs = w.xs; buf = w.buf; renders = w.numeral; step = rw a (ap (λ g. some g) w.put) }
convert_lem (other c) size f args h l a u = record {
  xs = c ∷ [];
  buf = f.buf;
  renders = refl;
  step =
      convert_other c size f h
      ∙ ap₂ (λ o r. some (record { out = o; args = r; buf = f.buf })) (put_one size c f.out u) a;
}
