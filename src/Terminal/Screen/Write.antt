-- ===== src/Terminal/Screen/Write.antt =====
-- internal/terminal/screen.go: `Write`, `Lines` and `Content`. The loop over the bytes is one pass
-- whose mode is what the loop does with the next byte; nothing is kept from one call to the next.
use vitis.Prelude.{
  ℕ, zero, suc, ◌+◌, ◌-◌, ◌*◌, Bool, false, ◌&&◌, ◌||◌, Option, none, some, List, [], ◌∷◌, ◌++◌,
  map, ℤ, pos, ltb, leb, leb_ℤ, add_int, sub_int, if◌then◌else◌, ◌==◌,
}
use vitis.Text.{Text, is_empty, trim_right, join}
use vitis.Terminal.Screen.Grid.{Screen, ◌>>=◌, is_positive}
use vitis.Terminal.Screen.Scroll.{do_scroll_up, write_rune}
use vitis.Terminal.Screen.Csi.{handle_csi}

-- `csi` has the parameter bytes read so far; `skip k` passes over `k` bytes after the next one.
pub data Mode : Type 0 where
  text escaped osc : Mode
  csi : Text → Mode
  skip : ℕ → Mode

abbrev pub skipping : ℕ → Mode
skipping zero = text
skipping (suc k) = skip k

abbrev in_range : ℕ → ℕ → ℕ → Bool
in_range lo hi c = leb lo c && leb c hi

abbrev is_tail : ℕ → Bool
is_tail = in_range 0x80 0xBF

-- `utf8.DecodeRune`: a rune and its size; `none` is `RuneError` with size 1.
unfoldable pub decode_two : ℕ → Text → Option (ℕ × ℕ)
decode_two c (d ∷ t) =
    if in_range 0xC2 0xDF c && is_tail d then some ((c - 0xC0) * 64 + (d - 0x80), 2) else none
decode_two c [] = none

unfoldable pub decode_three : ℕ → Text → Option (ℕ × ℕ)
decode_three c (d ∷ e ∷ t) =
    let lo = if c == 0xE0 then 0xA0 else 0x80 in
    let hi = if c == 0xED then 0x9F else 0xBF in
    if in_range 0xE0 0xEF c && in_range lo hi d && is_tail e
    then some ((c - 0xE0) * 4096 + (d - 0x80) * 64 + (e - 0x80), 3)
    else none
decode_three c _ = none

unfoldable pub decode_four : ℕ → Text → Option (ℕ × ℕ)
decode_four c (d ∷ e ∷ f ∷ t) =
    let lo = if c == 0xF0 then 0x90 else 0x80 in
    let hi = if c == 0xF4 then 0x8F else 0xBF in
    if in_range 0xF0 0xF4 c && in_range lo hi d && is_tail e && is_tail f
    then some ((c - 0xF0) * 262144 + (d - 0x80) * 4096 + (e - 0x80) * 64 + (f - 0x80), 4)
    else none
decode_four c _ = none

unfoldable pub decode_rune : ℕ → Text → Option (ℕ × ℕ)
unfolding decode_two decode_three decode_four
decode_rune c rest =
    if ltb c 0x80
    then some (c, 1)
    else if ltb c 0xE0
    then decode_two c rest
    else if ltb c 0xF0
    then decode_three c rest
    else decode_four c rest

abbrev starts : ℕ → Text → Bool
starts c [] = false
starts c (d ∷ _) = d == c

-- Two numbers are equal, as Go compares them.
abbrev equal_int : ℤ → ℤ → Bool
equal_int a b = leb_ℤ a b && leb_ℤ b a

unfoldable pub line_feed : Screen → Option Screen
unfolding do_scroll_up
line_feed s =
    if is_positive s.height && equal_int s.cur_row (pos s.scroll_bot)
    then do_scroll_up (pos 1) s
    else some (record s { cur_row = add_int s.cur_row (pos 1) })

unfoldable pub backspace : Screen → Screen
backspace s = if is_positive s.cur_col then record s { cur_col = sub_int s.cur_col (pos 1) } else s

unfoldable pub put_rune : Option (ℕ × ℕ) → Screen → Option Screen
unfolding write_rune
put_rune none s = some s
put_rune (some (r, _)) s = write_rune r s

-- A byte outside of any sequence. BEL, NUL, SO, SI, SOH and STX are below the space too.
unfoldable pub in_text : ℕ → Text → Screen → Option Screen
unfolding line_feed backspace put_rune decode_rune
in_text c rest s =
    if c == 0x1b
    then some s
    else if c == 13
    then some (record s { cur_col = pos 0 })
    else if c == 10
    then line_feed s
    else if c == 8
    then some (backspace s)
    else if ltb c 0x20
    then some s
    else put_rune (decode_rune c rest) s

-- What a byte does to the screen.
unfoldable pub act : Mode → ℕ → Text → Screen → Option Screen
unfolding in_text handle_csi
act text c rest s = in_text c rest s
act (csi params) c rest s = if ltb c 0x40 then some s else handle_csi params c s
act escaped c rest s = some s
act osc c rest s = some s
act (skip k) c rest s = some s

-- How many bytes of a rune come after its first one.
abbrev rune_tail : Option (ℕ × ℕ) → ℕ
rune_tail none = 0
rune_tail (some (_, size)) = size - 1

-- The mode after a byte. A character set designation has one byte after the bracket.
unfoldable pub next_mode : Mode → ℕ → Text → Mode
unfolding decode_rune
next_mode text c rest =
    if c == 0x1b
    then escaped
    else if ltb c 0x20
    then text
    else skipping (rune_tail (decode_rune c rest))
next_mode escaped c rest =
    if c == b'['
    then csi []
    else if c == b']'
    then osc
    else if c == b'(' || c == b')'
    then skip 0
    else text
next_mode (csi params) c rest = if ltb c 0x40 then csi (params ++ c ∷ []) else text
next_mode osc c rest =
    if c == 7 then text else if c == 0x1b && starts b'\\' rest then skip 0 else osc
next_mode (skip k) c rest = skipping k

-- The loop of `Write`.
unfoldable pub write_from : Mode → Text → Screen → Option Screen
unfolding act next_mode
write_from mode [] s = some s
write_from mode (c ∷ cs) s = act mode c cs s >>= write_from (next_mode mode c cs) cs

-- `Write`
unfoldable pub write : Text → Screen → Option Screen
unfolding write_from
write bytes s = write_from text bytes s

abbrev keep_line : Text → List Text → List Text
keep_line line [] = if is_empty line then [] else line ∷ []
keep_line line (next ∷ rest) = line ∷ next ∷ rest

unfoldable pub drop_empty_end : List Text → List Text
drop_empty_end [] = []
drop_empty_end (line ∷ rest) = keep_line line (drop_empty_end rest)

-- `Lines`, on code points
unfoldable pub lines : Screen → List Text
unfolding drop_empty_end
lines s = drop_empty_end (map (trim_right (λ c. c == b' ')) s.rows)

-- `Content`
unfoldable pub content : Screen → Text
unfolding lines
content s = join 10 (lines s)
