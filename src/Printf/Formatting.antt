-- ===== src/Printf/Formatting.antt =====
-- `vsnprintf` of src/kernel/printf.c against what its format stands for.
use zoho_os_chatbot.Base.{
  ℕ, ◌-◌, ◌<◌, ◌≤◌, ◌≡◌, ◌≢◌, refl, sym, ap, ◌∙◌, List, [], ◌∷◌, ◌++◌, append-nil, append_assoc,
  arith, ltb, true, false, some, length, take, All, Bool-cases, inl, inr, length-append,
  length-take, take-take_append, take-append, take-short,
}
use zoho_os_chatbot.Printf.{Chars, Arg, Format, room, convert, format_loop, vsnprintf, ◌>>=◌}
use zoho_os_chatbot.Printf.Pieces.{
  Piece, literal, character, string, signed, unsigned, hex, pointer, other, is_literal, spec_char,
  format_of, arg_of, IsProper, Renders, convert_lem,
}

-- The format of pieces, followed by its final 0 and by other memory, and their arguments.
abbrev pub format_string : List Piece → List ℕ → List ℕ
format_string [] behind = 0 ∷ behind
format_string (p ∷ ps) behind = format_of p (format_string ps behind)

abbrev pub arguments : List Piece → List Arg
arguments [] = []
arguments (p ∷ ps) = arg_of p (arguments ps)

-- The text of all pieces.
pub data Rendered : List Piece → List ℕ → Type 0 where
  nothing : Rendered [] []
  join :
      {p : Piece} {ps : List Piece} (xs ys : List ℕ)
      → Renders p xs
      → Rendered ps ys
      → Rendered (p ∷ ps) (xs ++ ys)

format_end :
    (size : ℕ) (behind : List ℕ) (f : Format) → format_loop size (0 ∷ behind) f ≡ some f.out
unfolding format_loop
format_end size [] f = refl
format_end size (d ∷ rest) f = refl

format_full :
    (size c : ℕ) (rest : List ℕ) (f : Format)
    → ltb (length f.out) (room size) ≡ false
    → format_loop size (c ∷ rest) f ≡ some f.out
unfolding format_loop
format_full size c [] f e = ground arith
format_full size c (d ∷ rest) f e = ground arith

format_literal :
    (size c : ℕ) (rest : List ℕ) (f : Format)
    → c ≢ 0
    → c ≢ b'%'
    → ltb (length f.out) (room size) ≡ true
    → format_loop size (c ∷ rest) f ≡ format_loop size rest (record f { out = f.out ++ (c ∷ []) })
unfolding format_loop
format_literal size c [] f z p e = ground arith
format_literal size c (d ∷ rest) f z p e = ground arith

format_percent :
    (size c : ℕ) (rest : List ℕ) (f : Format)
    → ltb (length f.out) (room size) ≡ true
    → format_loop size (b'%' ∷ c ∷ rest) f ≡ (convert size c f >>= format_loop size rest)
unfolding format_loop
format_percent size c rest f e = rw (e, format_loop) refl

format_full_piece :
    (size : ℕ) (p : Piece) (rest : List ℕ) (f : Format)
    → ltb (length f.out) (room size) ≡ false
    → format_loop size (format_of p rest) f ≡ some f.out
format_full_piece size p rest f e = elim (Bool-cases (is_literal p)) [
  | inl l ↦ rw l (format_full size (spec_char p) rest f e)
  | inr l ↦ rw l (format_full size b'%' (spec_char p ∷ rest) f e)
]

literal-Renders : (p : Piece) → is_literal p ≡ true → Renders p (spec_char p ∷ [])
literal-Renders (literal c) e = refl
literal-Renders (character n) e = absurd cc
literal-Renders (string xs) e = absurd cc
literal-Renders (signed n) e = absurd cc
literal-Renders (unsigned n) e = absurd cc
literal-Renders (hex n) e = absurd cc
literal-Renders (pointer n) e = absurd cc
literal-Renders (other c) e = refl

literal-IsProper :
    (p : Piece) → is_literal p ≡ true → IsProper p → (spec_char p ≢ 0) × (spec_char p ≢ b'%')
literal-IsProper (literal c) e h = h
literal-IsProper (character n) e h = absurd cc
literal-IsProper (string xs) e h = absurd cc
literal-IsProper (signed n) e h = absurd cc
literal-IsProper (unsigned n) e h = absurd cc
literal-IsProper (hex n) e h = absurd cc
literal-IsProper (pointer n) e h = absurd cc
literal-IsProper (other c) e h = absurd cc

literal-arg_of : (p : Piece) (args : List Arg) → is_literal p ≡ true → arg_of p args ≡ args
literal-arg_of (literal c) args e = refl
literal-arg_of (character n) args e = absurd cc
literal-arg_of (string xs) args e = absurd cc
literal-arg_of (signed n) args e = absurd cc
literal-arg_of (unsigned n) args e = absurd cc
literal-arg_of (hex n) args e = absurd cc
literal-arg_of (pointer n) args e = absurd cc
literal-arg_of (other c) args e = refl

-- Every list of pieces stands for a text.
render : (ps : List Piece) → All IsProper ps → (xs : List ℕ) × Rendered ps xs
render [] a = ([], nothing)
render (p ∷ ps) (h, a) =
    let (ys, r) = render ps a in
    elim (Bool-cases (is_literal p)) [
      | inl e ↦ ((spec_char p ∷ []) ++ ys, join (spec_char p ∷ []) ys (literal-Renders p e) r)
      | inr e ↦
          let w =
            convert_lem p 2 (record { out = []; args = arg_of p []; buf = λ k. 0 }) [] h e refl
              (omega arith) in
          (w.xs ++ ys, join w.xs ys w.renders r)
    ]

ltb-less : (n m : ℕ) → ltb n m ≡ true → n < m
ltb-less n m h = ground arith

pub record Formatted (size : ℕ) (ps : List Piece) (behind : List ℕ) (f : Format) : Type 0 where
  pub xs : List ℕ
  pub rendered : Rendered ps xs
  pub result : format_loop size (format_string ps behind) f ≡ some (take (room size) (f.out ++ xs))

format_loop_lem :
    (size : ℕ) (ps : List Piece) (behind : List ℕ) (f : Format)
    → All IsProper ps
    → f.args ≡ arguments ps
    → length f.out ≤ room size
    → Formatted size ps behind f
format_loop_lem size [] behind f a e u = record {
  xs = [];
  rendered = nothing;
  result =
      format_end size behind f
      ∙ ap (λ o. some o)
          (sym (ap (take (room size)) (append-nil f.out) ∙ take-short (room size) f.out u));
}
format_loop_lem size (p ∷ ps) behind f (h, a) e u =
    elim (Bool-cases (ltb (length f.out) (room size))) [
      | inr full ↦
          let (xs, r) = render (p ∷ ps) (h, a) in
          record {
            xs = xs;
            rendered = r;
            result =
                format_full_piece size p (format_string ps behind) f full
                ∙ ap (λ o. some o) (sym (take-append (room size) f.out xs (ground arith)));
          }
      | inl more ↦ elim (Bool-cases (is_literal p)) [
        | inl l ↦
            let c = spec_char p in
            let proper = literal-IsProper p l h in
            let w =
              format_loop_lem size ps behind (record f { out = f.out ++ (c ∷ []) }) a
                (e ∙ literal-arg_of p (arguments ps) l)
                (omega (arith, ltb-less _ _ more, length-append f.out (c ∷ []))) in
            record {
              xs = (c ∷ []) ++ w.xs;
              rendered = join (c ∷ []) w.xs (literal-Renders p l) w.rendered;
              result = rw l (
                  format_literal size c (format_string ps behind) f proper.0 proper.1 more
                  ∙ w.result
                  ∙ ap (λ o. some (take (room size) o)) (append_assoc f.out (c ∷ []) w.xs));
            }
        | inr l ↦
            let v = convert_lem p size f (arguments ps) h l e (ltb-less _ _ more) in
            let g : Format = record {
              out = take (room size) (f.out ++ v.xs);
              args = arguments ps;
              buf = v.buf;
            } in
            let w =
              format_loop_lem size ps behind g a refl
                (omega (arith, length-take (room size) (f.out ++ v.xs))) in
            record {
              xs = v.xs ++ w.xs;
              rendered = join v.xs w.xs v.renders w.rendered;
              result = rw l (
                  format_percent size (spec_char p) (format_string ps behind) f more
                  ∙ ap (λ o. o >>= format_loop size (format_string ps behind)) v.step
                  ∙ w.result
                  ∙ ap (λ o. some o)
                      (take-take_append (room size) (f.out ++ v.xs) w.xs
                        ∙ ap (take (room size)) (append_assoc f.out v.xs w.xs)));
            }
      ]
    ]

-- For a buffer of `size` characters, which is 1 at least, and a format of proper pieces with their
-- arguments, `vsnprintf` returns, whatever the memory behind the format and in `buf` is: it writes the
-- first `size - 1` characters of a text that the pieces stand for, so that the final 0 fits too.
-- Numbers among it are written in digits of their base, without leading zeros but for 0, which has one
-- digit, and the digits spell the argument: in decimal, with a minus sign when it is negative in two's
-- complement, or in hexadecimal.
pub vsnprintf_lem :
    (size : ℕ) (ps : List Piece) (behind : List ℕ) (buf : Chars)
    → 0 < size
    → All IsProper ps
    → (xs : List ℕ) × Rendered ps xs
      × (vsnprintf size (format_string ps behind) (arguments ps) buf ≡ some (take (size - 1) xs))
      × (length (take (size - 1) xs) < size)
unfolding vsnprintf
vsnprintf_lem size ps behind buf z a =
    let w =
      format_loop_lem size ps behind (record { out = []; args = arguments ps; buf = buf }) a refl
        (omega arith) in
    let fits : room size ≡ size - 1 = ground arith in
    (
      w.xs,
      w.rendered,
      w.result ∙ ap (λ n. some (take n w.xs)) fits,
      omega (arith, length-take (size - 1) w.xs),
    )
