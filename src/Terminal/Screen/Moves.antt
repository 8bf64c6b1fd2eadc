-- ===== src/Terminal/Screen/Moves.antt =====
-- The sequences that move the cursor keep a screen valid.
use vitis.Prelude.{
  ℕ, ◌+◌, ◌-◌, ◌≤◌, ◌<◌, ◌≡◌, refl, Option, none, some, pos, add_int_small, min, ◌==◌, arith,
  if◌then◌else◌, inl, inr, ◌⊎◌,
}
use vitis.Text.{Text}
use vitis.Terminal.Screen.Params.{parse_two}
use vitis.Terminal.Screen.Grid.{Screen}
use vitis.Terminal.Screen.Csi.{
  move_to, cursor_up, cursor_down, cursor_right, cursor_left, next_line, previous_line, to_column,
  to_row, moved,
}
use vitis.Terminal.Screen.Returns.{Returns, chosen}
use vitis.Terminal.Screen.Valid.{
  IsValid, cursor-IsValid, leap, two62, clamp_lem, clamp_pred, floor_lem, ceiling_lem,
}

abbrev pub MovesOrNot : ℕ → ℕ → Option Screen → Type 0
MovesOrNot w b r = (r ≡ none) ⊎ Returns r (IsValid w b)

module _ (w b : ℕ) (s : Screen) (v : IsValid w b s) where
  module _ (n : ℕ) (modest : n ≤ leap) (room : b < two62) (narrow : w < two62) where
    abbrev pub bound : ℕ
    bound = b + leap

    pub move_to-IsValid : (params : Text) → IsValid w bound (move_to params s)
    unfolding move_to
    move_to-IsValid params =
        let at = parse_two params 1 1 in
        cursor-IsValid w b s v bound (min (at.0 - 1) 65535) (min (at.1 - 1) (s.cols - 1)) _ _
          (omega arith) (omega arith) (omega (arith, v.columns, v.col_lt))
          (clamp_lem (at.0 - 1) 65535) (clamp_lem (at.1 - 1) (s.cols - 1))

    cursor_up-IsValid : IsValid w bound (cursor_up (pos n) s)
    unfolding cursor_up
    cursor_up-IsValid =
        cursor-IsValid w b s v bound (v.row - n) v.col _ s.cur_col (omega arith)
          (omega (arith, v.row_le)) v.col_lt
          (rw v.at_row (floor_lem v.row n (omega (arith, v.row_le)) (omega arith))) v.at_col

    cursor_down-IsValid : IsValid w bound (cursor_down (pos n) s)
    unfolding cursor_down
    cursor_down-IsValid =
        cursor-IsValid w b s v bound (v.row + n) v.col _ s.cur_col (omega arith)
          (omega (arith, v.row_le)) v.col_lt
          (rw v.at_row (add_int_small v.row n (omega (arith, v.row_le)))) v.at_col

    cursor_right-IsValid : IsValid w bound (cursor_right (pos n) s)
    unfolding cursor_right
    cursor_right-IsValid =
        cursor-IsValid w b s v bound v.row (min (s.cols - 1) (v.col + n)) s.cur_row _ (omega arith)
          (omega (arith, v.row_le)) (omega (arith, v.columns, v.col_lt)) v.at_row
          (rw v.at_col (ceiling_lem (s.cols - 1) v.col n (omega (arith, v.col_lt))))

    cursor_left-IsValid : IsValid w bound (cursor_left (pos n) s)
    unfolding cursor_left
    cursor_left-IsValid =
        cursor-IsValid w b s v bound v.row (v.col - n) s.cur_row _ (omega arith)
          (omega (arith, v.row_le)) (omega (arith, v.col_lt)) v.at_row
          (rw v.at_col (floor_lem v.col n (omega (arith, v.col_lt)) (omega arith)))

    next_line-IsValid : IsValid w bound (next_line (pos n) s)
    unfolding next_line
    next_line-IsValid =
        cursor-IsValid w b s v bound (v.row + n) 0 _ (pos 0) (omega arith) (omega (arith, v.row_le))
          (omega (arith, v.col_lt)) (rw v.at_row (add_int_small v.row n (omega (arith, v.row_le))))
          refl

    previous_line-IsValid : IsValid w bound (previous_line (pos n) s)
    unfolding previous_line
    previous_line-IsValid =
        cursor-IsValid w b s v bound (v.row - n) 0 _ (pos 0) (omega arith) (omega (arith, v.row_le))
          (omega (arith, v.col_lt))
          (rw v.at_row (floor_lem v.row n (omega (arith, v.row_le)) (omega arith))) refl

    to_column-IsValid : IsValid w bound (to_column (pos n) s)
    unfolding to_column
    to_column-IsValid =
        cursor-IsValid w b s v bound v.row (min (n - 1) (s.cols - 1)) s.cur_row _ (omega arith)
          (omega (arith, v.row_le)) (omega (arith, v.columns, v.col_lt)) v.at_row
          (clamp_pred n (s.cols - 1) (omega arith))

    to_row-IsValid : IsValid w bound (to_row (pos n) s)
    unfolding to_row
    to_row-IsValid =
        cursor-IsValid w b s v bound (min (n - 1) 65535) v.col _ s.cur_col (omega arith)
          (omega arith) v.col_lt (clamp_pred n 65535 (omega arith)) v.at_col

    -- None of them fails, and the other finals are left to `edited`.
    pub moved-IsValid : (final : ℕ) → MovesOrNot w bound (moved final (pos n) s)
    unfolding moved
    moved-IsValid final = one b'A' cursor_up-IsValid (
        one b'B' cursor_down-IsValid (
          one b'C' cursor_right-IsValid (
            one b'D' cursor_left-IsValid (
              one b'E' next_line-IsValid (
                one b'F' previous_line-IsValid
                  (one b'G' to_column-IsValid (one b'd' to_row-IsValid (inl refl))))))))
      where
        one :
            {s' : Screen} {rest : Option Screen} (c : ℕ)
            → IsValid w bound s'
            → MovesOrNot w bound rest
            → MovesOrNot w bound (if final == c then some s' else rest)
        one c here there = chosen (MovesOrNot w bound) (final == c) (inr (_, refl, here)) there
