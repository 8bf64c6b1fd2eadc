-- ===== src/Terminal/Screen/Csi.antt =====
-- internal/terminal/screen.go: `handleCSI`, one function for each control sequence.
use vitis.Prelude.{
  ℕ, ◌+◌, ◌-◌, Bool, false, ◌||◌, Option, none, some, List, ◌++◌, map, ℤ, pos, negsuc, min, leb,
  ltb_ℤ, length, take, drop, add_int, sub_int, if◌then◌else◌, pos_part, ◌==◌,
}
use vitis.Text.{Text}
use vitis.Terminal.Screen.Params.{parse_one, parse_two, clamp}
use vitis.Terminal.Screen.Grid.{
  Screen, ◌>>=◌, index, update, erase_line, erase_cells, erase_row, erase_rows, blank_line, rounds,
  is_positive,
}
use vitis.Terminal.Screen.Scroll.{with_rows, do_scroll_up, do_scroll_down}

abbrev pub max_int : ℤ → ℤ → ℤ
max_int a b = if ltb_ℤ a b then b else a

abbrev pub min_int : ℤ → ℤ → ℤ
min_int a b = if ltb_ℤ b a then b else a

-- `H`, `f`
unfoldable pub move_to : Text → Screen → Screen
unfolding parse_two clamp sub_int
move_to params s =
    let at = parse_two params 1 1 in
    record s {
      cur_row = clamp (pos (at.0 - 1)) (pos 0) (pos 65535);
      cur_col = clamp (pos (at.1 - 1)) (pos 0) (pos (s.cols - 1));
    }

-- `A`
unfoldable pub cursor_up : ℤ → Screen → Screen
cursor_up n s = record s { cur_row = max_int (pos 0) (sub_int s.cur_row n) }

-- `B`
unfoldable pub cursor_down : ℤ → Screen → Screen
cursor_down n s = record s { cur_row = add_int s.cur_row n }

-- `C`
unfoldable pub cursor_right : ℤ → Screen → Screen
cursor_right n s = record s { cur_col = min_int (pos (s.cols - 1)) (add_int s.cur_col n) }

-- `D`
unfoldable pub cursor_left : ℤ → Screen → Screen
cursor_left n s = record s { cur_col = max_int (pos 0) (sub_int s.cur_col n) }

-- `E`
unfoldable pub next_line : ℤ → Screen → Screen
next_line n s = record s { cur_col = pos 0; cur_row = add_int s.cur_row n }

-- `F`
unfoldable pub previous_line : ℤ → Screen → Screen
previous_line n s = record s { cur_col = pos 0; cur_row = max_int (pos 0) (sub_int s.cur_row n) }

-- `G`
unfoldable pub to_column : ℤ → Screen → Screen
unfolding clamp
to_column n s = record s { cur_col = clamp (sub_int n (pos 1)) (pos 0) (pos (s.cols - 1)) }

-- `d`
unfoldable pub to_row : ℤ → Screen → Screen
unfolding clamp
to_row n s = record s { cur_row = clamp (sub_int n (pos 1)) (pos 0) (pos 65535) }

-- `s` and `u`
unfoldable pub save_cursor : Screen → Screen
save_cursor s = record s { saved_row = s.cur_row; saved_col = s.cur_col }

unfoldable pub restore_cursor : Screen → Screen
restore_cursor s = record s { cur_row = s.saved_row; cur_col = s.saved_col }

-- `r`
unfoldable pub with_margins : ℕ → ℕ → ℕ → Screen → Screen
with_margins h top bot s = record s {
  scroll_top = if leb bot top then 0 else top;
  scroll_bot = if leb bot top then h - 1 else bot;
  cur_row = pos 0;
  cur_col = pos 0;
}

unfoldable pub set_margins : Text → Screen → Screen
unfolding parse_two clamp with_margins
set_margins params s =
    let h = pos_part s.height in
    let margins = parse_two params 1 h in
    let line = λ (m : ℕ). pos_part (clamp (pos (m - 1)) (pos 0) (pos (h - 1))) in
    if is_positive s.height then with_margins h (line margins.0) (line margins.1) s else s

abbrev is_num : ℤ → ℕ → Bool
is_num (pos n) k = n == k
is_num (negsuc n) k = false

-- The number of rounds of `for j := 0; j <= col; j++`.
abbrev pub cells_to : ℤ → ℕ
cells_to (pos col) = col + 1
cells_to (negsuc col) = 0

-- `line[from:]`, of which the start must lie in the line.
unfoldable pub tail_from : ℤ → Text → Option Text
tail_from (pos k) line = if leb k (length line) then some (drop k line) else none
tail_from (negsuc k) line = none

-- `copy(line[col:], line[end:])`, which stops at the end of the shorter one.
unfoldable pub copy_left : ℤ → ℤ → Text → Option Text
unfolding tail_from
copy_left col end line = tail_from col line >>= λ dst. tail_from end line >>= λ src.
    some (take (pos_part col) line ++ (take (length dst) src ++ drop (length src) dst))

module _ (s : Screen) where
  abbrev row_exists : Bool
  row_exists = ltb_ℤ s.cur_row (pos (length s.rows))

  -- From the cursor to the end of its line, or from the start of the line to the cursor.
  unfoldable pub erase_to_end : List Text → Option (List Text)
  unfolding erase_cells
  erase_to_end rows = erase_cells (rounds s.cur_col (pos s.cols)) s.cur_row s.cur_col rows

  unfoldable pub erase_to_cursor : List Text → Option (List Text)
  unfolding erase_cells
  erase_to_cursor rows = erase_cells (min (cells_to s.cur_col) s.cols) s.cur_row (pos 0) rows

  -- `J` with 0 and 1
  unfoldable pub erase_below : Option (List Text)
  unfolding erase_rows erase_to_end
  erase_below =
      if row_exists
      then erase_to_end s.rows
        >>= erase_rows (rounds (add_int s.cur_row (pos 1)) (pos (length s.rows)))
            (add_int s.cur_row (pos 1))
      else some s.rows

  unfoldable pub erase_above : Option (List Text)
  unfolding erase_rows erase_to_cursor
  erase_above = erase_rows (min (pos_part s.cur_row) (length s.rows)) (pos 0) s.rows >>= λ rows.
      if row_exists then erase_to_cursor rows else some rows

  -- `J`
  unfoldable pub display_rows : ℤ → Option (List Text)
  unfolding erase_below erase_above blank_line
  display_rows n =
      if is_num n 0
      then erase_below
      else if is_num n 1
      then erase_above
      else if is_num n 2 || is_num n 3
      then some (map blank_line s.rows)
      else some s.rows

  -- `K`
  unfoldable pub line_rows : ℤ → Option (List Text)
  unfolding erase_to_end erase_to_cursor erase_row
  line_rows n =
      if row_exists
      then if is_num n 0
        then erase_to_end s.rows
        else if is_num n 1
        then erase_to_cursor s.rows
        else if is_num n 2
        then erase_row s.cur_row s.rows
        else some s.rows
      else some s.rows

  unfoldable pub deleted_line : ℤ → Text → Option Text
  unfolding copy_left erase_line
  deleted_line n line =
      let blank = max_int (pos 0) (sub_int (pos s.cols) n) in
      copy_left s.cur_col (min_int (add_int s.cur_col n) (pos s.cols)) line
      >>= erase_line (rounds blank (pos s.cols)) blank

  -- `P`
  unfoldable pub deleted_rows : ℤ → Option (List Text)
  unfolding index update deleted_line
  deleted_rows n =
      if row_exists
      then (index s.rows s.cur_row >>= deleted_line n >>= update s.rows s.cur_row)
      else some s.rows

abbrev keep_rows : Screen → Option (List Text) → Option Screen
keep_rows s rows = rows >>= λ r. some (with_rows s r)

-- The sequences that take one number and move the cursor.
unfoldable pub moved : ℕ → ℤ → Screen → Option Screen
unfolding cursor_up cursor_down cursor_right cursor_left next_line previous_line to_column to_row
moved final n s =
    if final == b'A'
    then some (cursor_up n s)
    else if final == b'B'
    then some (cursor_down n s)
    else if final == b'C'
    then some (cursor_right n s)
    else if final == b'D'
    then some (cursor_left n s)
    else if final == b'E'
    then some (next_line n s)
    else if final == b'F'
    then some (previous_line n s)
    else if final == b'G'
    then some (to_column n s)
    else if final == b'd'
    then some (to_row n s)
    else none

-- The others.
unfoldable pub edited : Text → ℕ → Screen → Option Screen
unfolding parse_one display_rows line_rows deleted_rows save_cursor restore_cursor set_margins
    do_scroll_up do_scroll_down
edited params final s =
    if final == b'J'
    then keep_rows s (display_rows s (parse_one params (pos 0)))
    else if final == b'K'
    then keep_rows s (line_rows s (parse_one params (pos 0)))
    else if final == b'P'
    then keep_rows s (deleted_rows s (parse_one params (pos 1)))
    else if final == b's'
    then some (save_cursor s)
    else if final == b'u'
    then some (restore_cursor s)
    else if final == b'r'
    then some (set_margins params s)
    else if final == b'S'
    then do_scroll_up (parse_one params (pos 1)) s
    else if final == b'T'
    then do_scroll_down (parse_one params (pos 1)) s
    else some s

-- `handleCSI`
unfoldable pub handle_csi : Text → ℕ → Screen → Option Screen
unfolding move_to parse_one moved edited
handle_csi params final s =
    if final == b'H' || final == b'f'
    then some (move_to params s)
    else elim (moved final (parse_one params (pos 1)) s) [
      | some s' ↦ some s'
      | none ↦ edited params final s
    ]
