-- ===== src/Terminal/Screen/Edits.antt =====
-- The sequences that change the rows keep a screen valid, and never fail on a valid one.
use vitis.Prelude.{
  ℕ, suc, ◌+◌, ◌-◌, ◌≤◌, ◌<◌, ◌≡◌, refl, ap, ◌∙◌, inl, inr, true, Option, none, some, List, [], ◌∷◌,
  map, ℤ, pos, pos_part, two63, add_int, add_int_small, length, min, ltb_ℤ, ◌==◌, All, arith,
  if◌then◌else◌, Bool-cases,
}
use vitis.Text.{Text}
use vitis.Terminal.Screen.Params.{parse_one}
use vitis.Terminal.Screen.Grid.{
  Screen, ◌>>=◌, index, update, ensure_row, erase_line, erase_row, erase_rows, blank_line, rounds,
}
use vitis.Terminal.Screen.Scroll.{
  do_scroll_up, do_scroll_down, no_scroll, region_size, scroll_up_rows, scroll_down_rows, with_rows,
}
use vitis.Terminal.Screen.Csi.{
  min_int, erase_to_end, erase_to_cursor, erase_below, erase_above, display_rows, line_rows,
  deleted_rows, deleted_line, copy_left, edited,
}
use vitis.Terminal.Screen.Returns.{Returns, Returns-bind, chosen}
use vitis.Terminal.Screen.Kept.{
  IsWide, Keeps, Keeps-refl, ensure_row-IsWide, ensure_row-lt, length-ensure_row, row-Returns,
  erase_line-Returns, erase_cells-Returns, erase_row-Returns, erase_rows-Returns, copy_left-Returns,
  length-blank_line, scroll_up_rows-Returns, scroll_down_rows-Returns, Keeps-trans,
}
use vitis.Terminal.Screen.Valid.{
  IsValid, leap, two62, rows-IsValid, floor_lem, save_cursor-IsValid, restore_cursor-IsValid,
  set_margins-IsValid,
}

blanked-IsWide :
    (w : ℕ) (rows : List Text) → All (IsWide w) rows → Keeps w rows (map blank_line rows)
blanked-IsWide w [] a = (refl, tt)
blanked-IsWide w (x ∷ xs) a =
    let r = blanked-IsWide w xs a.1 in (ap suc r.0, (length-blank_line x ∙ a.0, r.1))

end_lem :
    (m a n : ℕ) → a + n < two63 → min_int (add_int (pos a) (pos n)) (pos m) ≡ pos (min (a + n) m)
end_lem m a n h = rw (add_int_small a n h) (ground arith)

bind_assoc :
    {A B C : Type 0} (m : Option A) (f : A → Option B) (g : B → Option C)
    → (m >>= f >>= g) ≡ (m >>= λ a. f a >>= g)
bind_assoc none f g = refl
bind_assoc (some a) f g = refl

module _ (w b : ℕ) (s : Screen) (v : IsValid w b s) (room : b < two62) (narrow : w < two62) where
  -- The cursor's row is there if it is above the end.
  row_lt : ltb_ℤ s.cur_row (pos (length s.rows)) ≡ true → v.row < length s.rows
  row_lt h = let e = rw v.at_row at h in ground arith

  few : length s.rows < two63
  few = omega (arith, v.short, v.tall)

  erase_to_end-Returns : v.row < length s.rows → Returns (erase_to_end s s.rows) (Keeps w s.rows)
  unfolding erase_to_end
  erase_to_end-Returns h =
      rw (v.at_row, v.at_col, v.columns)
        (erase_cells-Returns w s.rows v.wide (w + 0 - (v.col + 0)) v.row v.col h
          (omega (arith, v.col_lt)) (omega arith))

  erase_to_cursor-Returns :
      (rows : List Text)
      → All (IsWide w) rows
      → v.row < length rows
      → Returns (erase_to_cursor s rows) (Keeps w rows)
  unfolding erase_to_cursor
  erase_to_cursor-Returns rows wide h =
      rw (v.at_row, v.at_col, v.columns)
        (erase_cells-Returns w rows wide (min (v.col + 1) w) v.row 0 h (omega arith) (omega arith))

  erase_below-Returns : Returns (erase_below s) (Keeps w s.rows)
  unfolding erase_below
  erase_below-Returns = elim (Bool-cases (ltb_ℤ s.cur_row (pos (length s.rows)))) [
    | inr n ↦ rw n (s.rows, refl, Keeps-refl w s.rows v.wide)
    | inl y ↦ rw y (
        let h = row_lt y in
        Returns-bind (Keeps w s.rows) (Keeps w s.rows) (erase_to_end s s.rows)
          (λ l.
            erase_rows (rounds (add_int s.cur_row (pos 1)) (pos (length s.rows)))
              (add_int s.cur_row (pos 1)) l)
          (erase_to_end-Returns h)
          (λ l p.
            rw (v.at_row, add_int_small v.row 1 (omega (arith, v.row_le)))
              (let x =
                  erase_rows-Returns w (length s.rows + 0 - (v.row + 1 + 0)) (v.row + 1) l p.1
                    (omega (arith, p.0)) (omega (arith, p.0, few)) in
                (x.0, x.1, Keeps-trans w s.rows l x.0 p x.2))))
  ]

  erase_above-Returns : Returns (erase_above s) (Keeps w s.rows)
  unfolding erase_above
  erase_above-Returns =
      Returns-bind (Keeps w s.rows) (Keeps w s.rows)
        (erase_rows (min (pos_part s.cur_row) (length s.rows)) (pos 0) s.rows)
        (λ rows.
          if ltb_ℤ s.cur_row (pos (length s.rows)) then erase_to_cursor s rows else some rows)
        (erase_rows-Returns w (min (pos_part s.cur_row) (length s.rows)) 0 s.rows v.wide
          (omega arith) few)
        (λ l p. elim (Bool-cases (ltb_ℤ s.cur_row (pos (length s.rows)))) [
          | inr n ↦ rw n (l, refl, p)
          | inl y ↦ rw y (
              let h = row_lt y in
              let x = erase_to_cursor-Returns l p.1 (omega (arith, p.0)) in
              (x.0, x.1, Keeps-trans w s.rows l x.0 p x.2))
        ])

  display_rows-Returns : (n : ℤ) → Returns (display_rows s n) (Keeps w s.rows)
  unfolding display_rows
  display_rows-Returns n = chosen Kept _ erase_below-Returns (
      chosen Kept _ erase_above-Returns (
        chosen Kept _ (map blank_line s.rows, refl, blanked-IsWide w s.rows v.wide)
          (s.rows, refl, Keeps-refl w s.rows v.wide)))
    where
      Kept : Option (List Text) → Type 0
      Kept r = Returns r (Keeps w s.rows)

  line_rows-Returns : (n : ℤ) → Returns (line_rows s n) (Keeps w s.rows)
  unfolding line_rows
  line_rows-Returns n = elim (Bool-cases (ltb_ℤ s.cur_row (pos (length s.rows)))) [
    | inr off ↦ rw off (s.rows, refl, Keeps-refl w s.rows v.wide)
    | inl y ↦ rw y (
        let h = row_lt y in
        let whole : Returns (erase_row s.cur_row s.rows) (Keeps w s.rows) =
          rw v.at_row (erase_row-Returns w s.rows v.wide v.row h) in
        chosen Kept _ (erase_to_end-Returns h) (
          chosen Kept _ (erase_to_cursor-Returns s.rows v.wide h)
            (chosen Kept _ whole (s.rows, refl, Keeps-refl w s.rows v.wide))))
  ]
    where
      Kept : Option (List Text) → Type 0
      Kept r = Returns r (Keeps w s.rows)

  -- A line that loses `n` cells at the cursor.
  deleted_line-Returns :
      (n : ℕ) (line : Text)
      → n ≤ leap
      → IsWide w line
      → Returns (deleted_line s (pos n) line) (IsWide w)
  unfolding deleted_line
  deleted_line-Returns n line modest p =
      rw
        (
          v.at_col,
          v.columns,
          end_lem w v.col n (omega (arith, v.col_lt)),
          floor_lem w n (omega arith) (omega arith),
        )
        (Returns-bind (λ l. length l ≡ length line) (IsWide w)
          (copy_left (pos v.col) (pos (min (v.col + n) w)) line)
          (λ l. erase_line (w + 0 - (w - n + 0)) (pos (w - n)) l)
          (copy_left-Returns v.col (min (v.col + n) w) line (omega (arith, v.col_lt, p))
            (omega (arith, p)) (omega (arith, v.col_lt)))
          (λ l q.
            let x =
              erase_line-Returns (w + 0 - (w - n + 0)) (w - n) l (omega (arith, q, p))
                (omega (arith, q, p)) in
            (x.0, x.1, x.2 ∙ q ∙ p)))

  deleted_rows-Returns : (n : ℕ) → n ≤ leap → Returns (deleted_rows s (pos n)) (Keeps w s.rows)
  unfolding deleted_rows
  deleted_rows-Returns n modest = elim (Bool-cases (ltb_ℤ s.cur_row (pos (length s.rows)))) [
    | inr off ↦ rw off (s.rows, refl, Keeps-refl w s.rows v.wide)
    | inl y ↦ rw y (
        let h = row_lt y in
        rw
          (
            v.at_row,
            bind_assoc (index s.rows (pos v.row)) (deleted_line s (pos n))
                (update s.rows (pos v.row)),
          )
          (row-Returns w s.rows v.wide v.row (deleted_line s (pos n)) h
            (λ line p. deleted_line-Returns n line modest p)))
  ]

  -- Rows of which there are as many as before keep the screen valid.
  kept-IsValid :
      (r : Option (List Text))
      → Returns r (Keeps w s.rows)
      → Returns (r >>= λ rows. some (with_rows s rows)) (IsValid w b)
  kept-IsValid r k =
      Returns-bind (Keeps w s.rows) (IsValid w b) r (λ rows. some (with_rows s rows)) k
        (λ rows q.
          (with_rows s rows, refl, rows-IsValid w b s v rows q.1 (omega (arith, q.0, v.short))))

  module _ (n : ℤ) where
    abbrev pub ensured : List Text
    ensured = ensure_row s.cols (pos s.scroll_bot) s.rows

    abbrev by : ℕ
    by = min (pos_part n) (region_size s)

    abbrev Within : List Text → Type 0
    Within rows = All (IsWide w) rows × (length rows ≤ b + 1 + pos_part s.height)

    pub ensured-IsWide : All (IsWide w) ensured
    ensured-IsWide = rw v.columns (ensure_row-IsWide w s.scroll_bot s.rows v.wide)

    pub ensured_long : s.scroll_top + region_size s ≤ length ensured
    unfolding region_size
    ensured_long = rw v.columns (omega (arith, ensure_row-lt w s.scroll_bot s.rows, v.margins))

    ensured_short : length ensured ≤ b + 1 + pos_part s.height
    ensured_short =
        rw v.columns (omega (arith, length-ensure_row w s.scroll_bot s.rows, v.short, v.on_screen))

    scrolled-IsValid :
        (r : Option (List Text))
        → Returns r (Keeps w ensured)
        → Returns (r >>= λ rows. some (with_rows s rows)) (IsValid w b)
    scrolled-IsValid r k =
        Returns-bind (Keeps w ensured) (IsValid w b) r (λ rows. some (with_rows s rows)) k
          (λ rows q. (
            with_rows s rows,
            refl,
            rows-IsValid w b s v rows q.1 (omega (arith, q.0, ensured_short)),
          ))

    abbrev Scrolled : Option Screen → Type 0
    Scrolled r = Returns r (IsValid w b)

    pub do_scroll_up-IsValid : Scrolled (do_scroll_up n s)
    unfolding do_scroll_up
    do_scroll_up-IsValid =
        chosen Scrolled (no_scroll n s) (s, refl, v) (scrolled-IsValid _ (up s.cols v.columns))
      where
        up :
            (c : ℕ)
            → c ≡ w
            → Returns (scroll_up_rows c s.scroll_top (region_size s) by ensured) (Keeps w ensured)
        up c e = rw e (
            scroll_up_rows-Returns w s.scroll_top (region_size s) by ensured ensured-IsWide
              (omega arith) ensured_long)

    pub do_scroll_down-IsValid : Scrolled (do_scroll_down n s)
    unfolding do_scroll_down
    do_scroll_down-IsValid =
        chosen Scrolled (no_scroll n s) (s, refl, v) (scrolled-IsValid _ (down s.cols v.columns))
      where
        down :
            (c : ℕ)
            → c ≡ w
            → Returns (scroll_down_rows c s.scroll_top (region_size s) by ensured) (Keeps w ensured)
        down c e = rw e (
            scroll_down_rows-Returns w s.scroll_top (region_size s) by ensured ensured-IsWide
              (omega arith) ensured_long)

  -- The sequences that do not move the cursor by a number, with a first number that is small.
  pub edited-IsValid :
      (params : Text) (final n : ℕ)
      → parse_one params (pos 1) ≡ pos n
      → n ≤ leap
      → Returns (edited params final s) (IsValid w b)
  unfolding edited
  edited-IsValid params final n e modest =
      chosen Good (final == b'J') (kept-IsValid _ (display_rows-Returns (parse_one params (pos 0))))
        (chosen Good (final == b'K') (kept-IsValid _ (line_rows-Returns (parse_one params (pos 0))))
          (chosen Good (final == b'P') (kept-IsValid _ deleted) (
            chosen Good (final == b's') (_, refl, save_cursor-IsValid w b s v)
              (chosen Good (final == b'u') (_, refl, restore_cursor-IsValid w b s v)
                (chosen Good (final == b'r') (_, refl, set_margins-IsValid w b s v params)
                  (chosen Good (final == b'S') (do_scroll_up-IsValid (parse_one params (pos 1))) (
                    chosen Good (final == b'T') (do_scroll_down-IsValid (parse_one params (pos 1)))
                      (s, refl, v))))))))
    where
      Good : Option Screen → Type 0
      Good r = Returns r (IsValid w b)

      deleted : Returns (deleted_rows s (parse_one params (pos 1))) (Keeps w s.rows)
      deleted = rw e (deleted_rows-Returns n modest)
