-- ===== src/Terminal/Screen/Params.antt =====
-- internal/terminal/screen.go: the numbers of a control sequence, and `clamp`.
use vitis.Prelude.{
  ℕ, ◌-◌, Bool, true, false, ◌&&◌, Option, none, some, [], ◌∷◌, ℤ, pos, negsuc, ltb_ℤ, two63, ltb,
  leb, ◌==◌, if◌then◌else◌,
}
use vitis.Text.{Text, trim_left}
use vitis.Text.Decimal.{read}

pub all_digits : Text → Bool
all_digits [] = true
all_digits (c ∷ t) = leb b'0' c && leb c b'9' && all_digits t

-- The digits after the sign; `none` is the error of `strconv.Atoi`.
pub atoi_digits : Bool → Text → Option ℤ
unfolding all_digits read
atoi_digits negative [] = none
atoi_digits negative (c ∷ t) =
    let n = read 0 (c ∷ t) in
    if all_digits (c ∷ t)
    then if negative
      then if ltb two63 n then none else some (if n == 0 then pos 0 else negsuc (n - 1))
      else if ltb n two63
      then some (pos n)
      else none
    else none

-- `strconv.Atoi`
unfoldable pub atoi : Text → Option ℤ
unfolding atoi_digits
atoi [] = none
atoi (c ∷ t) =
    if c == b'-'
    then atoi_digits true t
    else if c == b'+'
    then atoi_digits false t
    else atoi_digits false (c ∷ t)

-- What stands before the first `;`.
unfoldable pub before_semicolon : Text → Text
before_semicolon [] = []
before_semicolon (c ∷ t) = if c == b';' then [] else c ∷ before_semicolon t

-- What stands after it; empty where there is none.
unfoldable pub after_semicolon : Text → Text
after_semicolon [] = []
after_semicolon (c ∷ t) = let rest = after_semicolon t in if c == b';' then t else rest

unfoldable pub or_default : ℤ → Option ℤ → ℤ
or_default def none = def
or_default def (some (pos n)) = if n == 0 then def else pos n
or_default def (some (negsuc n)) = negsuc n

-- `parseOne`: a number that is missing, unreadable or zero is the default.
unfoldable pub parse_one : Text → ℤ → ℤ
unfolding atoi before_semicolon or_default
parse_one params def = or_default def (atoi (before_semicolon (trim_left (λ c. c == b'?') params)))

unfoldable pub positive_or : ℕ → Option ℤ → ℕ
positive_or def (some (pos n)) = if ltb 0 n then n else def
positive_or def (some (negsuc n)) = def
positive_or def none = def

-- `parseTwo`
unfoldable pub parse_two : Text → ℕ → ℕ → ℕ × ℕ
unfolding atoi before_semicolon after_semicolon positive_or
parse_two params def_a def_b = (
  positive_or def_a (atoi (before_semicolon params)),
  positive_or def_b (atoi (after_semicolon params)),
)

unfoldable pub clamp : ℤ → ℤ → ℤ → ℤ
clamp v lo hi = if ltb_ℤ v lo then lo else if ltb_ℤ hi v then hi else v
