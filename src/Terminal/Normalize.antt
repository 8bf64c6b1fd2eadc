-- ===== src/Terminal/Normalize.antt =====
-- internal/terminal/ansi.go: `NormalizePTYText`. Its loops are one pass over the bytes, whose mode is
-- the loop that reads the byte.
use vitis.Prelude.{ℕ, Bool, false, not, ◌&&◌, ◌||◌, [], ◌∷◌, ◌++◌, leb, ◌==◌, if◌then◌else◌}
use vitis.Text.{Text}

-- `escaped` is behind an ESC; `csi` and `osc` are the inner loops, and `osc_escaped` is behind an ESC
-- in the latter.
pub data Mode : Type 0 where
  text escaped csi osc osc_escaped : Mode

abbrev pub esc : ℕ
esc = 0x1b

unfoldable pub is_letter : ℕ → Bool
is_letter c = (leb b'A' c && leb c b'Z') || (leb b'a' c && leb c b'z')

-- What is written of a byte that is none of the special ones.
unfoldable pub is_visible : ℕ → Bool
is_visible c = c == 9 || c == 10 || (leb 0x20 c && not (c == 0x7f))

abbrev pub starts_with_newline : Text → Bool
starts_with_newline [] = false
starts_with_newline (c ∷ _) = c == 10

-- A byte in the outer loop, with what follows it: the next mode, and what is written.
unfoldable pub in_text : ℕ → Text → Mode × Text
unfolding is_visible
in_text c rest =
    if c == esc
    then (escaped, [])
    else if c == 13
    then (text, if starts_with_newline rest then [] else 10 ∷ [])
    else if c == 0
    then (text, [])
    else (text, if is_visible c then c ∷ [] else [])

unfoldable pub in_osc : ℕ → Mode
in_osc c = if c == 7 then text else if c == esc then osc_escaped else osc

unfoldable pub step : Mode → ℕ → Text → Mode × Text
unfolding in_text in_osc is_letter
step text c rest = in_text c rest
step escaped c rest = (if c == b'[' then csi else if c == b']' then osc else text, [])
step csi c rest = (if is_letter c then text else csi, [])
step osc c rest = (in_osc c, [])
step osc_escaped c rest = (if c == b'\\' then text else in_osc c, [])

unfoldable pub scan : Mode → Text → Text
unfolding step
scan mode [] = []
scan mode (c ∷ cs) = let s = step mode c cs in s.1 ++ scan s.0 cs

-- `strings.ReplaceAll(s, "\r\n", "\n")`
unfoldable pub replace_crlf : Text → Text
replace_crlf [] = []
replace_crlf (c ∷ cs) =
    let rest = replace_crlf cs in if c == 13 && starts_with_newline cs then rest else c ∷ rest

-- `NormalizePTYText`
unfoldable pub normalize_pty_text : Text → Text
unfolding scan replace_crlf
normalize_pty_text raw = replace_crlf (scan text raw)
