-- ===== src/Text.antt =====
-- Go's `strings` package, as far as the program uses it, over texts as lists of code points.
-- A byte of a Go string that is no part of valid UTF-8 stands as a code above 0x10ffff.
pub mod Equal
pub mod Lines
pub mod Trim
pub mod Find
pub mod Positions
pub mod Decimal
use Prim.Native.Char.{code}
use Prim.Native.String.{String}
use vitis.Prelude.{
  ℕ, zero, suc, ◌+◌, ◌/◌, ◌%◌, Bool, true, false, not, ◌&&◌, ◌||◌, List, [], ◌∷◌, ◌++◌, Option,
  none, some, leb, ◌==◌, if◌then◌else◌,
}

abbrev pub Text : Type 0
Text = List ℕ

-- The code points of a literal.
abbrev pub codes : String → Text
codes String.[] = []
codes (String.◌∷◌ c s) = code c ∷ codes s

-- `==` on strings.
abbrev pub equal : Text → Text → Bool
equal [] [] = true
equal (x ∷ xs) (y ∷ ys) = x == y && equal xs ys
equal _ _ = false

abbrev pub is_empty : Text → Bool
is_empty [] = true
is_empty (_ ∷ _) = false

-- `slices.Contains` on strings.
abbrev pub contains_text : List Text → Text → Bool
contains_text [] t = false
contains_text (x ∷ xs) t = equal x t || contains_text xs t

-- Put `c` in front of the first line.
abbrev pub cons_head : ℕ → List Text → List Text
cons_head c [] = (c ∷ []) ∷ []
cons_head c (l ∷ ls) = (c ∷ l) ∷ ls

-- `strings.Split(s, sep)` for a separator of one character.
unfoldable pub split : ℕ → Text → List Text
split sep [] = [] ∷ []
split sep (c ∷ cs) = if c == sep then [] ∷ split sep cs else cons_head c (split sep cs)

-- `strings.Join(lines, sep)` for a separator of one character.
unfoldable pub join : ℕ → List Text → Text
join sep [] = []
join sep (l ∷ []) = l
join sep (l ∷ m ∷ ls) = l ++ (sep ∷ join sep (m ∷ ls))

-- `strings.TrimLeft`, with the cut set as a test.
unfoldable pub trim_left : (ℕ → Bool) → Text → Text
trim_left cut [] = []
trim_left cut (c ∷ cs) = if cut c then trim_left cut cs else c ∷ cs

-- Drop `c` if nothing is left behind it.
abbrev pub keep_unless : Bool → ℕ → Text → Text
keep_unless true c [] = []
keep_unless true c (d ∷ t) = c ∷ d ∷ t
keep_unless false c t = c ∷ t

-- `strings.TrimRight`, with the cut set as a test.
unfoldable pub trim_right : (ℕ → Bool) → Text → Text
trim_right cut [] = []
trim_right cut (c ∷ cs) = keep_unless (cut c) c (trim_right cut cs)

-- `unicode.IsSpace`.
unfoldable pub is_space : ℕ → Bool
is_space c =
    (leb 9 c && leb c 13)
    || c == 32
    || c == 0x85
    || c == 0xa0
    || c == 0x1680
    || (leb 0x2000 c && leb c 0x200a)
    || c == 0x2028
    || c == 0x2029
    || c == 0x202f
    || c == 0x205f
    || c == 0x3000

-- `strings.TrimSpace`.
unfoldable pub trim_space : Text → Text
unfolding trim_left trim_right is_space
trim_space t = trim_right is_space (trim_left is_space t)

-- `strings.HasPrefix`.
unfoldable pub has_prefix : Text → Text → Bool
has_prefix t [] = true
has_prefix [] (_ ∷ _) = false
has_prefix (c ∷ t) (p ∷ ps) = c == p && has_prefix t ps

-- `strings.HasSuffix(s, "\n")` and other suffixes of one character.
unfoldable pub ends_with : ℕ → Text → Bool
ends_with c [] = false
ends_with c (x ∷ []) = x == c
ends_with c (_ ∷ x ∷ xs) = ends_with c (x ∷ xs)

-- `strings.Index`; `none` for -1.
unfoldable pub index : Text → Text → Option ℕ
unfolding has_prefix
index [] pat = if is_empty pat then some 0 else none
index (c ∷ t) pat =
    if has_prefix (c ∷ t) pat
    then some 0
    else elim (index t pat) [ none ↦ none | some i ↦ some (suc i) ]

-- `strings.Contains`.
unfoldable pub contains : Text → Text → Bool
unfolding index
contains t pat = elim (index t pat) [ none ↦ false | some _ ↦ true ]

-- Decimal digits, least significant first, as the fuel lasts.
unfoldable pub digits_onto : ℕ → ℕ → Text → Text
digits_onto zero n acc = acc
digits_onto (suc f) n acc =
    let more = digits_onto f (n / 10) ((b'0' + n % 10) ∷ acc) in
    if leb 10 n then more else (b'0' + n) ∷ acc

-- `%d` of a number that is not negative. A number is at least its count of digits.
unfoldable pub itoa : ℕ → Text
unfolding digits_onto
itoa n = digits_onto (suc n) n []
