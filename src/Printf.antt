-- ===== src/Printf.antt =====
-- Formatted output: src/kernel/printf.c. Memory maps an address to a character.
mod Digits
mod Number
mod Output
mod Pieces
mod Formatting
mod Tests
use zoho_os_chatbot.Base.{
  ℕ, zero, suc, ◌+◌, ◌-◌, ◌*◌, ◌/◌, ◌%◌, ◌^◌, true, false, Option, none, some, List, [], ◌∷◌, ◌++◌,
  ltb, ◌==◌, if◌then◌else◌, length, update, ◌||◌, not,
}

abbrev pub Chars : Type 0
Chars = ℕ → ℕ

-- The number of characters before the first 0, looked for in `fuel` of them.
unfoldable pub strlen : ℕ → Chars → ℕ
strlen zero s = 0
strlen (suc fuel) s = elim (s 0 == 0) [ true ↦ 0 | false ↦ suc (strlen fuel (λ k. s (suc k))) ]

-- The loop of `reverse`: the rounds left, the string, `i` and `j`.
unfoldable pub swap_loop : ℕ → Chars → ℕ → ℕ → Chars
swap_loop zero s i j = s
swap_loop (suc fuel) s i j = elim (ltb i j) [
  | true ↦ swap_loop fuel (update (update s i (s j)) j (s i)) (suc i) (j - 1)
  | false ↦ s
]

-- `buf` of `vsnprintf` has 65 characters.
abbrev pub buf_size : ℕ
buf_size = 65

unfoldable pub reverse : Chars → Chars
reverse s = swap_loop buf_size s 0 (strlen buf_size s - 1)

abbrev pub digit : ℕ → ℕ
digit rem = if ltb 9 rem then rem - 10 + b'a' else rem + b'0'

-- The loop of `itoa`: the rounds left, `n`, `base`, the string and `i`.
unfoldable pub digit_loop : ℕ → ℕ → ℕ → Chars → ℕ → Chars × ℕ
digit_loop zero n base s i = (s, i)
digit_loop (suc fuel) n base s i = elim (n == 0) [
  | true ↦ (s, i)
  | false ↦ digit_loop fuel (n / base) base (update s i (digit (n % base))) (suc i)
]

unfoldable pub itoa : ℕ → Chars → ℕ → Chars
itoa n s base =
    let (t, i) = if n == 0 then (update s 0 b'0', 1) else digit_loop 64 n base s 0 in
    reverse (update t i 0)

infixl 5 ◌>>=◌
abbrev pub ◌>>=◌ {ℓ κ} : {A : Type ℓ} {B : Type κ} → Option A → (A → Option B) → Option B
none >>= f = none
some a >>= f = f a

-- The variable arguments: numbers of 64 bits, and strings.
pub data Arg : Type 0 where
  number : ℕ → Arg
  text : Chars → Arg

unfoldable pub next_number : List Arg → Option (ℕ × List Arg)
next_number (number n ∷ args) = some (n, args)
next_number _ = none

unfoldable pub next_text : List Arg → Option (Chars × List Arg)
next_text (text s ∷ args) = some (s, args)
next_text _ = none

-- `size - 1` of type `size_t`.
abbrev pub room : ℕ → ℕ
room size = if size == 0 then 2 ^ 64 - 1 else size - 1

-- `while (*s != '\0' && i < size - 1) str[i++] = *s++;`, where `i` is the length of `out`.
unfoldable pub put_loop : ℕ → ℕ → Chars → List ℕ → List ℕ
put_loop zero size s out = out
put_loop (suc fuel) size s out = elim (s 0 == 0) [
  | true ↦ out
  | false ↦ elim (ltb (length out) (room size)) [
    | true ↦ put_loop fuel size (λ k. s (suc k)) (out ++ (s 0 ∷ []))
    | false ↦ out
  ]
]

unfoldable pub put_string : ℕ → Chars → List ℕ → List ℕ
put_string size s out = put_loop (room size) size s out

-- What has been written, the arguments left and `buf`.
pub record Format : Type 0 where
  pub out : List ℕ
  pub args : List Arg
  pub buf : Chars

unfoldable pub put_number : ℕ → ℕ → ℕ → Format → Format
put_number size base n f =
    let buf = itoa n f.buf base in record f { out = put_string size buf f.out; buf = buf }

unfoldable pub put_signed : ℕ → ℕ → Format → Format
put_signed size n f =
    if ltb n (2 ^ 63)
    then put_number size 10 n f
    else put_number size 10 (2 ^ 64 - n) (record f { out = f.out ++ (b'-' ∷ []) })

abbrev with_number : (ℕ → Format → Format) → Format → Option Format
with_number put f = do (n, args) ← next_number f.args; some (put n (record f { args = args }))

-- The `switch` on the character behind a percent sign.
unfoldable pub convert : ℕ → ℕ → Format → Option Format
convert size c f =
    if c == b'c'
    then with_number (λ n g. record g { out = g.out ++ (n % 256 ∷ []) }) f
    else if c == b's'
    then (do
      (s, args) ← next_text f.args
      some (record f { out = put_string size s f.out; args = args }))
    else if c == b'd'
    then with_number (put_signed size) f
    else if c == b'u'
    then with_number (put_number size 10) f
    else if (c == b'x') || (c == b'p')
    then with_number (put_number size 16) f
    else some (record f { out = f.out ++ (c ∷ []) })

-- The loop of `vsnprintf`, over the memory from the format on; `none` when it reads behind that
-- memory, or an argument that is not there.
unfoldable pub format_loop : ℕ → List ℕ → Format → Option (List ℕ)
format_loop size [] f = none
format_loop size (c ∷ []) f =
    if (c == 0) || not (ltb (length f.out) (room size)) then some f.out else none
format_loop size (c ∷ d ∷ rest) f = elim ((c == 0) || not (ltb (length f.out) (room size))) [
  | true ↦ some f.out
  | false ↦ elim (c == b'%') [
    | true ↦ (do g ← convert size d f; format_loop size rest g)
    | false ↦ format_loop size (d ∷ rest) (record f { out = f.out ++ (c ∷ []) })
  ]
]

-- The characters in front of the final 0; their number is the result of the function.
unfoldable pub vsnprintf : ℕ → List ℕ → List Arg → Chars → Option (List ℕ)
vsnprintf size format args buf =
    format_loop size format (record { out = []; args = args; buf = buf })
