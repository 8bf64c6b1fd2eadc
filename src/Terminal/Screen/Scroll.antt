-- ===== src/Terminal/Screen/Scroll.antt =====
-- internal/terminal/screen.go: scrolling and the writing of a rune.
use vitis.Prelude.{
  ℕ, zero, suc, ◌+◌, ◌-◌, Bool, ◌&&◌, ◌||◌, Option, some, List, ℤ, pos, negsuc, min, ltb_ℤ, leb_ℤ,
  get_elem?, add_int, if◌then◌else◌, pos_part,
}
use vitis.Text.{Text}
use vitis.Terminal.Screen.Grid.{Screen, ◌>>=◌, set_nth, set_cell, ensure_row, blanks}

-- `for i := 0; i < count; i++ { rows[at+i] = rows[at+i+n] }`
unfoldable pub move_up : ℕ → ℕ → ℕ → List Text → Option (List Text)
unfolding set_nth
move_up zero at n rows = some rows
move_up (suc count) at n rows =
    get_elem? rows (at + n) >>= λ line. set_nth rows at line >>= move_up count (at + 1) n

-- `for i := count - 1; i >= 0; i-- { rows[at+i+n] = rows[at+i] }`
unfoldable pub move_down : ℕ → ℕ → ℕ → List Text → Option (List Text)
unfolding set_nth
move_down zero at n rows = some rows
move_down (suc count) at n rows = get_elem? rows (at + count) >>= λ line.
    set_nth rows (at + count + n) line >>= move_down count at n

-- `for i := 0; i < count; i++ { rows[at+i] = newBlankRow() }`
unfoldable pub expose : ℕ → ℕ → ℕ → List Text → Option (List Text)
unfolding set_nth blanks
expose cols zero at rows = some rows
expose cols (suc count) at rows = set_nth rows at (blanks cols) >>= expose cols count (at + 1)

unfoldable pub region_size : Screen → ℕ
region_size s = s.scroll_bot + 1 - s.scroll_top

abbrev pub with_rows : Screen → List Text → Screen
with_rows s rows = record s { rows = rows }

-- Nothing is scrolled by less than a line, nor on a screen of height 0.
unfoldable pub no_scroll : ℤ → Screen → Bool
no_scroll n s = leb_ℤ n (pos 0) || leb_ℤ s.height (pos 0) && leb_ℤ (pos 0) s.height

-- The two loops of `doScrollUp`, on the rows up to the bottom of the region.
unfoldable pub scroll_up_rows : ℕ → ℕ → ℕ → ℕ → List Text → Option (List Text)
unfolding move_up expose
scroll_up_rows cols top size n rows =
    move_up (size - n) top n rows >>= expose cols n (top + (size - n))

unfoldable pub scroll_down_rows : ℕ → ℕ → ℕ → ℕ → List Text → Option (List Text)
unfolding move_down expose
scroll_down_rows cols top size n rows = move_down (size - n) top n rows >>= expose cols n top

-- `doScrollUp`
unfoldable pub do_scroll_up : ℤ → Screen → Option Screen
unfolding scroll_up_rows region_size ensure_row no_scroll
do_scroll_up n s =
    if no_scroll n s
    then some s
    else scroll_up_rows s.cols s.scroll_top (region_size s) (min (pos_part n) (region_size s))
        (ensure_row s.cols (pos s.scroll_bot) s.rows)
      >>= λ rows. some (with_rows s rows)

-- `doScrollDown`
unfoldable pub do_scroll_down : ℤ → Screen → Option Screen
unfolding scroll_down_rows region_size ensure_row no_scroll
do_scroll_down n s =
    if no_scroll n s
    then some s
    else scroll_down_rows s.cols s.scroll_top (region_size s) (min (pos_part n) (region_size s))
        (ensure_row s.cols (pos s.scroll_bot) s.rows)
      >>= λ rows. some (with_rows s rows)

-- The cursor goes one cell on, and to the next row at the end of a line.
unfoldable pub advance : Screen → Screen
advance s =
    let col = add_int s.cur_col (pos 1) in
    if leb_ℤ (pos s.cols) col
    then record s { cur_col = pos 0; cur_row = add_int s.cur_row (pos 1) }
    else record s { cur_col = col }

abbrev pub not_below_zero : ℤ → ℤ
not_below_zero (pos n) = pos n
not_below_zero (negsuc n) = pos 0

-- The rows with a rune at the cursor, if that is in a column of the screen.
unfoldable pub written_rows : ℤ → ℕ → Screen → Option (List Text)
unfolding ensure_row set_cell
written_rows row r s =
    let rows = ensure_row s.cols row s.rows in
    if leb_ℤ (pos 0) s.cur_col && ltb_ℤ s.cur_col (pos s.cols)
    then set_cell row s.cur_col r rows
    else some rows

unfoldable pub write_rune_at : ℤ → ℕ → Screen → Option Screen
unfolding written_rows advance
write_rune_at row r s =
    written_rows row r s >>= λ rows. some (advance (record s { rows = rows; cur_row = row }))

-- `writeRune`
unfoldable pub write_rune : ℕ → Screen → Option Screen
unfolding write_rune_at
write_rune r s = write_rune_at (not_below_zero s.cur_row) r s
