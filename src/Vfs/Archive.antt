-- ===== src/Vfs/Archive.antt =====
-- `tar_find_file` of src/kernel/tar.c against the list of files that an archive holds.
use zoho_os_chatbot.Base.{
  ℕ, zero, suc, ◌+◌, ◌-◌, ◌*◌, ◌/◌, ◌%◌, ◌^◌, ◌<◌, ◌≤◌, ◌≡◌, ◌≢◌, refl, sym, ap, ◌∙◌, Bool, true,
  false, ◌||◌, ◌&&◌, Option, none, some, List, [], ◌∷◌, arith, ltb, ◌==◌, if◌then◌else◌, u32,
  length, get_or, All, Bool-cases, inl, inr,
}
use mathlib.Core.Path.{subst}
use native.Mathlib.Nat.{div-div-eq-div-mul}
use zoho_os_chatbot.Vfs.{Bytes, Disk, cached_read_sector}
use zoho_os_chatbot.Vfs.Writing.{IsCoherent, cache_lem}
use zoho_os_chatbot.Vfs.Tar.{
  octal_loop, octal_to_int, strcmp, size_field, next_header, find_loop, max_headers, tar_find_file,
}

-- A string in memory: its characters, which are not 0, and a 0.
pub record IsString (s : Bytes) (xs : List ℕ) : Type 0 where
  pub nonzero : All (λ c. c ≢ 0) xs
  pub chars : (k : ℕ) → k ≤ length xs → s k ≡ get_or xs k 0

abbrev pub same : List ℕ → List ℕ → Bool
same [] [] = true
same [] (y ∷ ys) = false
same (x ∷ xs) [] = false
same (x ∷ xs) (y ∷ ys) = (x == y) && same xs ys

IsString-tail :
    (s : Bytes) (x : ℕ) (xs : List ℕ) → IsString s (x ∷ xs) → IsString (λ k. s (suc k)) xs
IsString-tail s x xs h = record {
  nonzero = h.nonzero.1;
  chars = λ k l. h.chars (suc k) (omega arith);
}

strcmp_lem :
    (fuel : ℕ) (s t : Bytes) (xs ys : List ℕ)
    → length xs < fuel
    → IsString s xs
    → IsString t ys
    → ((strcmp fuel s t).0 == (strcmp fuel s t).1) ≡ same xs ys
unfolding strcmp
strcmp_lem zero s t xs ys l h g = absurd (omega arith)
strcmp_lem (suc fuel) s t [] [] l h g =
    ground (arith, h.chars 0 (omega arith), g.chars 0 (omega arith))
strcmp_lem (suc fuel) s t [] (y ∷ ys) l h g =
    ground (arith, h.chars 0 (omega arith), g.chars 0 (omega arith), g.nonzero.0)
strcmp_lem (suc fuel) s t (x ∷ xs) [] l h g =
    ground (arith, h.chars 0 (omega arith), g.chars 0 (omega arith), h.nonzero.0)
strcmp_lem (suc fuel) s t (x ∷ xs) (y ∷ ys) l h g = ground (
  arith,
  h.chars 0 (omega arith),
  g.chars 0 (omega arith),
  h.nonzero.0,
  strcmp_lem fuel (λ k. s (suc k)) (λ k. t (suc k)) xs ys (omega arith) (IsString-tail s x xs h)
      (IsString-tail t y ys g),
)

-- The field holds `n` in eleven octal digits.
abbrev pub IsOctal : Bytes → ℕ → Type 0
IsOctal f n = (k : ℕ) → k < 11 → f k ≡ b'0' + n / 8 ^ (10 - k) % 8

pow : (j : ℕ) → 8 ^ suc j ≡ 8 ^ j * 8
pow j = omega arith

div-le : (n k : ℕ) → n / k ≤ n
div-le n k = omega arith

octal_loop_lem :
    (j : ℕ) (f : Bytes) (n : ℕ)
    → n < 2 ^ 32
    → ((k : ℕ) → k < j → f k ≡ b'0' + n / 8 ^ (j - suc k) % 8)
    → octal_loop j f (n / 8 ^ j) ≡ n
unfolding octal_loop
octal_loop_lem zero f n b h = omega arith
octal_loop_lem (suc j) f n b h =
    let q = n / 8 ^ j in
    let first : f 0 ≡ b'0' + q % 8 =
      h 0 (omega arith) ∙ ap (λ e. b'0' + n / 8 ^ e % 8) (omega arith) in
    let digit : (ltb (f 0) b'0' || ltb b'7' (f 0)) ≡ false = ground arith in
    let high : n / 8 ^ suc j ≡ q / 8 =
      ap (λ p. n / p) (pow j) ∙ sym (div-div-eq-div-mul n (8 ^ j) 8) in
    let small : q ≤ n = div-le n (8 ^ j) in
    let next : u32 (n / 8 ^ suc j * 8 + (f 0 - b'0')) ≡ q = omega arith in
    rw (digit, octal_loop, next)
      (octal_loop_lem j (λ k. f (suc k)) n b
        (λ k l. h (suc k) (omega arith) ∙ ap (λ e. b'0' + n / 8 ^ e % 8) (omega arith)))

-- A field of eleven octal digits is read as the number that it holds, if that has 32 bits.
pub octal_to_int_lem : (f : Bytes) (n : ℕ) → n < 2 ^ 32 → IsOctal f n → octal_to_int f ≡ n
unfolding octal_to_int
octal_to_int_lem f n b h =
    ap (octal_loop 11 f) (omega arith)
    ∙ octal_loop_lem 11 f n b (λ k l. h k l ∙ ap (λ e. b'0' + n / 8 ^ e % 8) (omega arith))

-- A file of an archive, and the header that describes it.
pub record Entry : Type 0 where
  pub name : List ℕ
  pub size : ℕ

pub record IsHeader (b : Bytes) (e : Entry) : Type 0 where
  pub name : IsString b e.name
  pub named : 0 < length e.name
  pub short : length e.name < 100
  pub size : IsOctal (size_field b) e.size
  pub small : e.size + 511 < 2 ^ 32

abbrev pub sectors_of : Entry → ℕ
sectors_of e = 1 + (e.size + 511) / 512

-- The sectors from `lba` on hold the entries, and then a header without a name; no header lies behind
-- the sector `limit`.
abbrev pub IsArchive : (ℕ → Bytes) → ℕ → ℕ → List Entry → Type 0
IsArchive ss limit lba [] = (lba ≤ limit) × (ss lba 0 ≡ 0)
IsArchive ss limit lba (e ∷ es) =
    (lba ≤ limit) × IsHeader (ss lba) e × IsArchive ss limit (lba + sectors_of e) es

-- The first file of this name: the sector of its contents and its size.
abbrev pub find : List Entry → List ℕ → ℕ → Option (ℕ × ℕ)
find [] name lba = none
find (e ∷ es) name lba =
    if same e.name name then some (lba + 1, e.size) else find es name (lba + sectors_of e)

archive-le :
    (ss : ℕ → Bytes) (limit lba : ℕ) (es : List Entry) → IsArchive ss limit lba es → lba ≤ limit
archive-le ss limit lba [] a = a.0
archive-le ss limit lba (e ∷ es) a = a.0

-- What a search leaves: its result, and the disk as it was, with a coherent cache.
abbrev pub Searched : Option (ℕ × ℕ) → Disk → Option (ℕ × ℕ) × Disk → Type 0
Searched found d r = (r.0 ≡ found) × (r.1.sectors ≡ d.sectors) × IsCoherent r.1

first-nonzero : (b : Bytes) (e : Entry) → IsHeader b e → b 0 ≢ 0
first-nonzero b e h = go e.name h.name h.named
  where
    go : (xs : List ℕ) → IsString b xs → 0 < length xs → b 0 ≢ 0
    go [] s p = absurd (omega arith)
    go (x ∷ xs) s p = λ z. s.nonzero.0 (sym (s.chars 0 (omega arith)) ∙ z)

header-next :
    (b : Bytes) (e : Entry) (lba : ℕ)
    → IsHeader b e
    → lba + sectors_of e < 2 ^ 32
    → next_header b lba ≡ lba + sectors_of e
header-next b e lba h l =
    let size : octal_to_int (size_field b) ≡ e.size =
      octal_to_int_lem (size_field b) e.size (omega (arith, h.small)) h.size in
    rw size (omega (arith, h.small))

find_loop_lem :
    (fuel : ℕ) (d : Disk) (start lba : ℕ) (t : Bytes) (name : List ℕ) (es : List Entry)
    → IsCoherent d
    → IsString t name
    → start + 20000 < 2 ^ 32
    → IsArchive d.sectors (start + 20000) lba es
    → start + 20000 < lba + fuel
    → Searched (find es name lba) d (find_loop fuel d start t lba)
unfolding find_loop
find_loop_lem zero d start lba t name es c s b a f =
    absurd (omega (arith, archive-le d.sectors (start + 20000) lba es a))
find_loop_lem (suc fuel) d start lba t name [] c s b a f =
    let r = cache_lem d lba (λ k. 0) c in
    let z : ((cached_read_sector d lba).0 0 == 0) ≡ true = rw (r.0, a.1) refl in
    rw (z, find_loop) (refl, r.1, r.2)
find_loop_lem (suc fuel) d start lba t name (e ∷ es) c s b (l, h, a) f =
    let r = cache_lem d lba (λ k. 0) c in
    let got = (cached_read_sector d lba).0 in
    let z : (got 0 == 0) ≡ false = rw r.0 (ground (arith, first-nonzero (d.sectors lba) e h)) in
    let cmp : ((strcmp 512 got t).0 == (strcmp 512 got t).1) ≡ same e.name name =
      rw r.0 (strcmp_lem 512 (d.sectors lba) t e.name name (omega (arith, h.short)) h.name s) in
    let reach = archive-le d.sectors (start + 20000) (lba + sectors_of e) es a in
    let next : next_header got lba ≡ lba + sectors_of e =
      rw r.0 (header-next (d.sectors lba) e lba h (omega arith)) in
    let size : octal_to_int (size_field got) ≡ e.size =
      rw r.0
        (octal_to_int_lem (size_field (d.sectors lba)) e.size (omega (arith, h.small)) h.size) in
    let inside : ltb (u32 (start + 20000)) (next_header got lba) ≡ false = rw next (ground arith) in
    elim (Bool-cases (same e.name name)) [
      | inl y ↦ rw (z, cmp, y, size, find_loop) (ap (λ k. some (k, e.size)) (omega arith), r.1, r.2)
      | inr n ↦
          let rest =
            find_loop_lem fuel (cached_read_sector d lba).1 start (lba + sectors_of e) t name es r.2
              s b (subst (λ ss. IsArchive ss (start + 20000) (lba + sectors_of e) es) (sym r.1) a)
              (omega arith) in
          rw (z, cmp, n, inside, next, find_loop) (rest.0, rest.1 ∙ r.1, rest.2)
    ]

-- On an archive whose headers lie within 20000 sectors of its start, and with a coherent cache,
-- `tar_find_file` ends within its rounds and returns the sector and the size of the first file of the
-- name, or -1 if there is none. The disk is as it was, and the cache coherent. Names have fewer than
-- 100 characters, and sizes are so far below 2 ^ 32 that rounding them up does not wrap.
pub tar_find_file_lem :
    (d : Disk) (start : ℕ) (t : Bytes) (name : List ℕ) (es : List Entry)
    → IsCoherent d
    → IsString t name
    → start + 20000 < 2 ^ 32
    → IsArchive d.sectors (start + 20000) start es
    → Searched (find es name start) d (tar_find_file d start t)
unfolding tar_find_file
tar_find_file_lem d start t name es c s b a =
    find_loop_lem max_headers d start start t name es c s b a (omega arith)
