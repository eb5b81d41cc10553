-- ===== src/Printf/Tests.antt =====
-- Formats with numbers, a string and unknown conversions.
use zoho_os_chatbot.Base.{
  ℕ, ◌<◌, ◌≡◌, refl, some, List, [], ◌∷◌, arith, length, take, All, ◌-◌, ◌^◌,
}
use zoho_os_chatbot.Printf.{
  Chars, strlen, swap_loop, reverse, digit_loop, itoa, next_number, next_text, put_loop, put_string,
  put_number, put_signed, convert, format_loop, vsnprintf,
}
use zoho_os_chatbot.Printf.Pieces.{Piece, literal, string, signed, hex, other, IsProper}
use zoho_os_chatbot.Printf.Formatting.{format_string, arguments, Rendered, vsnprintf_lem}

-- `%s=%d(%x%!`
abbrev pieces : List Piece
pieces =
    string (b'n' ∷ [])
    ∷ literal b'='
    ∷ signed (2 ^ 64 - 42)
    ∷ literal b'('
    ∷ hex 255
    ∷ other b'!'
    ∷ []

abbrev buf : Chars
buf k = 7

-- n=-42(ff! in a buffer of 20 characters, and n=-4 in one of 5.
roomy :
    vsnprintf 20 (format_string pieces []) (arguments pieces) buf
    ≡ some (b'n' ∷ b'=' ∷ b'-' ∷ b'4' ∷ b'2' ∷ b'(' ∷ b'f' ∷ b'f' ∷ b'!' ∷ [])
unfolding vsnprintf format_loop convert next_number next_text put_string put_signed put_number
    put_loop itoa digit_loop reverse swap_loop strlen
roomy = refl

tight :
    vsnprintf 5 (format_string pieces []) (arguments pieces) buf
    ≡ some (b'n' ∷ b'=' ∷ b'-' ∷ b'4' ∷ [])
unfolding vsnprintf format_loop convert next_number next_text put_string put_signed put_number
    put_loop itoa digit_loop reverse swap_loop strlen
tight = refl

-- A percent sign at the end takes the final 0 as its conversion, and reading goes on behind it.
trailing_percent :
    vsnprintf 20 (b'%' ∷ 0 ∷ b'k' ∷ b'e' ∷ b'y' ∷ 0 ∷ []) [] buf
    ≡ some (0 ∷ b'k' ∷ b'e' ∷ b'y' ∷ [])
unfolding vsnprintf format_loop convert next_number next_text put_string put_signed put_number
    put_loop itoa digit_loop reverse swap_loop strlen
trailing_percent = refl

pieces-IsProper : All IsProper pieces
pieces-IsProper = (
  (λ e. omega arith, tt),
  (
    (λ e. omega arith, λ e. omega arith),
    (
      omega arith,
      (
        (λ e. omega arith, λ e. omega arith),
        (
          omega arith,
          (
            (
              λ e. omega arith,
              λ e. omega arith,
              λ e. omega arith,
              λ e. omega arith,
              λ e. omega arith,
              λ e. omega arith,
              λ e. omega arith,
            ),
            tt,
          ),
        ),
      ),
    ),
  ),
)

vsnprintf_lem_example :
    (xs : List ℕ) × Rendered pieces xs
    × (vsnprintf 5 (format_string pieces []) (arguments pieces) buf ≡ some (take (5 - 1) xs))
    × (length (take (5 - 1) xs) < 5)
vsnprintf_lem_example = vsnprintf_lem 5 pieces [] buf (omega arith) pieces-IsProper
