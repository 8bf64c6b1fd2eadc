-- ===== src/Terminal/Screen/Valid.antt =====
-- What a screen keeps: rows of one width, and a cursor and a scroll region that lie on it.
use vitis.Prelude.{
  ℕ, ◌+◌, ◌-◌, ◌≤◌, ◌<◌, ◌≡◌, refl, inl, inr, List, ℤ, pos, pos_part, two63, add_int, sub_int,
  sub_ℕ, add_int_small, length, min, All, arith, Bool-cases,
}
use vitis.Text.{Text}
use vitis.Terminal.Screen.Params.{parse_two, clamp}
use vitis.Terminal.Screen.Grid.{Screen, new_screen, is_positive}
use vitis.Terminal.Screen.Csi.{
  max_int, min_int, save_cursor, restore_cursor, with_margins, set_margins,
}
use vitis.Terminal.Screen.Kept.{IsWide}

-- The most that one sequence may move the cursor.
abbrev pub leap : ℕ
leap = 65535

abbrev pub two62 : ℕ
two62 = 4611686018427387904

-- A screen of `w` columns, of fewer than `two62` lines, whose cursor, also the saved one, is in one of the first `b + 1` rows.
pub record IsValid (w b : ℕ) (s : Screen) : Type 0 where
  pub columns : s.cols ≡ w
  pub wide : All (IsWide w) s.rows
  pub short : length s.rows ≤ b + 1 + pos_part s.height
  pub tall : pos_part s.height < two62
  pub row : ℕ
  pub at_row : s.cur_row ≡ pos row
  pub row_le : row ≤ b
  pub col : ℕ
  pub at_col : s.cur_col ≡ pos col
  pub col_lt : col < w
  pub kept_row : ℕ
  pub at_kept_row : s.saved_row ≡ pos kept_row
  pub kept_row_le : kept_row ≤ b
  pub kept_col : ℕ
  pub at_kept_col : s.saved_col ≡ pos kept_col
  pub kept_col_lt : kept_col < w
  pub margins : s.scroll_top ≤ s.scroll_bot
  pub on_screen : s.scroll_bot ≤ pos_part s.height - 1

pub sub_int_small : (a b : ℕ) → a < two63 → b < two63 → sub_int (pos a) (pos b) ≡ sub_ℕ a b
unfolding sub_int
sub_int_small a b h k = ground arith

pub floor_lem :
    (a b : ℕ) → a < two63 → b < two63 → max_int (pos 0) (sub_int (pos a) (pos b)) ≡ pos (a - b)
floor_lem a b h k = rw (sub_int_small a b h k) (ground arith)

pub ceiling_lem :
    (m a b : ℕ) → a + b < two63 → min_int (pos m) (add_int (pos a) (pos b)) ≡ pos (min m (a + b))
ceiling_lem m a b h = rw (add_int_small a b h) (ground arith)

pub clamp_lem : (n m : ℕ) → clamp (pos n) (pos 0) (pos m) ≡ pos (min n m)
unfolding clamp
clamp_lem n m = ground arith

pub clamp_pred :
    (n m : ℕ) → n < two63 → clamp (sub_int (pos n) (pos 1)) (pos 0) (pos m) ≡ pos (min (n - 1) m)
unfolding clamp
clamp_pred n m h = rw (sub_int_small n 1 h (omega arith)) (ground arith)

line_le : (m h : ℕ) → pos_part (clamp (pos (m - 1)) (pos 0) (pos (h - 1))) ≤ h - 1
line_le m h = rw clamp_lem (omega arith)

module _ (w b : ℕ) (s : Screen) (v : IsValid w b s) where
  -- Another cursor, and a later bound.
  pub cursor-IsValid :
      (b' r c : ℕ) (x y : ℤ)
      → b ≤ b'
      → r ≤ b'
      → c < w
      → x ≡ pos r
      → y ≡ pos c
      → IsValid w b' (record s { cur_row = x; cur_col = y })
  cursor-IsValid b' r c x y later hr hc er ec = record {
    columns = v.columns;
    wide = v.wide;
    short = omega (arith, v.short);
    tall = v.tall;
    row = r;
    at_row = er;
    row_le = hr;
    col = c;
    at_col = ec;
    col_lt = hc;
    kept_row = v.kept_row;
    at_kept_row = v.at_kept_row;
    kept_row_le = omega (arith, v.kept_row_le);
    kept_col = v.kept_col;
    at_kept_col = v.at_kept_col;
    kept_col_lt = v.kept_col_lt;
    margins = v.margins;
    on_screen = v.on_screen;
  }

  pub IsValid-later : (b' : ℕ) → b ≤ b' → IsValid w b' s
  IsValid-later b' later =
      cursor-IsValid b' v.row v.col s.cur_row s.cur_col later (omega (arith, v.row_le)) v.col_lt
        v.at_row v.at_col

  -- Other rows, as many or fewer than the bound allows.
  pub rows-IsValid :
      (rows : List Text)
      → All (IsWide w) rows
      → length rows ≤ b + 1 + pos_part s.height
      → IsValid w b (record s { rows = rows })
  rows-IsValid rows wide short = record {
    columns = v.columns;
    wide = wide;
    short = short;
    tall = v.tall;
    row = v.row;
    at_row = v.at_row;
    row_le = v.row_le;
    col = v.col;
    at_col = v.at_col;
    col_lt = v.col_lt;
    kept_row = v.kept_row;
    at_kept_row = v.at_kept_row;
    kept_row_le = v.kept_row_le;
    kept_col = v.kept_col;
    at_kept_col = v.at_kept_col;
    kept_col_lt = v.kept_col_lt;
    margins = v.margins;
    on_screen = v.on_screen;
  }

  pub save_cursor-IsValid : IsValid w b (save_cursor s)
  unfolding save_cursor
  save_cursor-IsValid = record {
    columns = v.columns;
    wide = v.wide;
    short = v.short;
    tall = v.tall;
    row = v.row;
    at_row = v.at_row;
    row_le = v.row_le;
    col = v.col;
    at_col = v.at_col;
    col_lt = v.col_lt;
    kept_row = v.row;
    at_kept_row = v.at_row;
    kept_row_le = v.row_le;
    kept_col = v.col;
    at_kept_col = v.at_col;
    kept_col_lt = v.col_lt;
    margins = v.margins;
    on_screen = v.on_screen;
  }

  pub restore_cursor-IsValid : IsValid w b (restore_cursor s)
  unfolding restore_cursor
  restore_cursor-IsValid =
      cursor-IsValid b v.kept_row v.kept_col s.saved_row s.saved_col (omega arith) v.kept_row_le
        v.kept_col_lt v.at_kept_row v.at_kept_col

  margins-IsValid :
      (top bot h : ℕ)
      → h ≡ pos_part s.height
      → bot ≤ h - 1
      → top ≤ h - 1
      → IsValid w b (with_margins h top bot s)
  unfolding with_margins
  margins-IsValid top bot h e hb ht = record {
    columns = v.columns;
    wide = v.wide;
    short = v.short;
    tall = v.tall;
    row = 0;
    at_row = refl;
    row_le = omega arith;
    col = 0;
    at_col = refl;
    col_lt = omega (arith, v.col_lt);
    kept_row = v.kept_row;
    at_kept_row = v.at_kept_row;
    kept_row_le = v.kept_row_le;
    kept_col = v.kept_col;
    at_kept_col = v.at_kept_col;
    kept_col_lt = v.kept_col_lt;
    margins = ground arith;
    on_screen = ground arith;
  }

  pub set_margins-IsValid : (params : Text) → IsValid w b (set_margins params s)
  unfolding set_margins
  set_margins-IsValid params = elim (Bool-cases (is_positive s.height)) [
    | inl p ↦ rw p (
        let h = pos_part s.height in
        let m = parse_two params 1 h in margins-IsValid _ _ h refl (line_le m.1 h) (line_le m.0 h))
    | inr n ↦ rw n v
  ]

-- A new screen has no row, and its cursor is at the origin.
pub new_screen-IsValid :
    (w : ℕ) (height : ℤ) → 0 < w → pos_part height < two62 → IsValid w 0 (new_screen (pos w) height)
unfolding new_screen
new_screen-IsValid w height wide_enough low = record {
  columns = ground arith;
  wide = tt;
  short = omega arith;
  tall = low;
  row = 0;
  at_row = refl;
  row_le = omega arith;
  col = 0;
  at_col = refl;
  col_lt = wide_enough;
  kept_row = 0;
  at_kept_row = refl;
  kept_row_le = omega arith;
  kept_col = 0;
  at_kept_col = refl;
  kept_col_lt = wide_enough;
  margins = omega arith;
  on_screen = ground arith;
}
