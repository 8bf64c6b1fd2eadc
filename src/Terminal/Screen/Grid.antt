-- ===== src/Terminal/Screen/Grid.antt =====
-- internal/terminal/screen.go: `Screen`, and reads and writes of its rows. Coordinates are Go `int`s,
-- which a control sequence can make negative; `none` is the panic of an index out of range.
use vitis.Prelude.{
  ℕ, zero, suc, ◌+◌, ◌-◌, Bool, Option, none, some, List, [], ◌∷◌, ◌++◌, map, ℤ, pos, negsuc,
  pos_part, neg_part, length, get_elem?, ltb_ℤ, add_int, if◌then◌else◌,
}
use vitis.Text.{Text}

infixl 5 ◌>>=◌
abbrev pub ◌>>=◌ {ℓ κ} : {A : Type ℓ} {B : Type κ} → Option A → (A → Option B) → Option B
none >>= f = none
some a >>= f = f a

-- `scroll_top` and `scroll_bot` are clamped when they are set, so they are numbers.
pub record Screen : Type 0 where
  pub cols : ℕ
  pub height : ℤ
  pub rows : List Text
  pub cur_row : ℤ
  pub cur_col : ℤ
  pub saved_row : ℤ
  pub saved_col : ℤ
  pub scroll_top : ℕ
  pub scroll_bot : ℕ

abbrev pub is_positive : ℤ → Bool
is_positive h = ltb_ℤ (pos 0) h

-- `NewScreen`
unfoldable pub new_screen : ℤ → ℤ → Screen
new_screen cols height = record {
  cols = if is_positive cols then pos_part cols else 80;
  height = height;
  rows = [];
  cur_row = pos 0;
  cur_col = pos 0;
  saved_row = pos 0;
  saved_col = pos 0;
  scroll_top = 0;
  scroll_bot = if is_positive height then pos_part height - 1 else 0;
}

module _ {ℓ} {A : Type ℓ} where
  -- `l[i]`
  unfoldable pub index : List A → ℤ → Option A
  index l (pos i) = get_elem? l i
  index l (negsuc i) = none

  unfoldable pub set_nth : List A → ℕ → A → Option (List A)
  set_nth [] i v = none
  set_nth (x ∷ xs) zero v = some (v ∷ xs)
  set_nth (x ∷ xs) (suc i) v = set_nth xs i v >>= λ ys. some (x ∷ ys)

  -- `l[i] = v`
  unfoldable pub update : List A → ℤ → A → Option (List A)
  unfolding set_nth
  update l (pos i) v = set_nth l i v
  update l (negsuc i) v = none

unfoldable pub blanks : ℕ → Text
blanks zero = []
blanks (suc n) = b' ' ∷ blanks n

unfoldable pub blank_rows : ℕ → ℕ → List Text
unfolding blanks
blank_rows cols zero = []
blank_rows cols (suc n) = blanks cols ∷ blank_rows cols n

-- `ensureRow`
unfoldable pub ensure_row : ℕ → ℤ → List Text → List Text
unfolding blank_rows
ensure_row cols (pos row) rows = rows ++ blank_rows cols (row + 1 - length rows)
ensure_row cols (negsuc _) rows = rows

-- `rows[row][col] = r`
unfoldable pub set_cell : ℤ → ℤ → ℕ → List Text → Option (List Text)
unfolding index update
set_cell row col r rows =
    index rows row >>= λ line. update line col r >>= λ line'. update rows row line'

-- The `count` cells of a line from `col` on are blanked.
unfoldable pub erase_line : ℕ → ℤ → Text → Option Text
unfolding update
erase_line zero col line = some line
erase_line (suc n) col line = update line col b' ' >>= λ l. erase_line n (add_int col (pos 1)) l

-- The same in a row, which is indexed only if there is a cell to blank.
unfoldable pub erase_cells : ℕ → ℤ → ℤ → List Text → Option (List Text)
unfolding index update erase_line
erase_cells zero row col rows = some rows
erase_cells (suc n) row col rows =
    index rows row >>= λ line. erase_line (suc n) col line >>= λ line'. update rows row line'

unfoldable pub blank_line : Text → Text
blank_line line = map (λ (c : ℕ). b' ') line

-- `for j := range rows[row] { rows[row][j] = ' ' }`
unfoldable pub erase_row : ℤ → List Text → Option (List Text)
unfolding index update blank_line
erase_row row rows = index rows row >>= λ line. update rows row (blank_line line)

unfoldable pub erase_rows : ℕ → ℤ → List Text → Option (List Text)
unfolding erase_row
erase_rows zero row rows = some rows
erase_rows (suc n) row rows = erase_row row rows >>= λ r. erase_rows n (add_int row (pos 1)) r

-- The number of rounds of `for j := a; j < b; j++`.
abbrev pub rounds : ℤ → ℤ → ℕ
rounds a b = pos_part b + neg_part a - (pos_part a + neg_part b)
