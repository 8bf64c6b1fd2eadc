-- ===== src/Terminal/Screen/Sound.antt =====
-- A stream whose control sequences have small numbers never makes the screen fail.
use vitis.Prelude.{
  ℕ, ◌+◌, ◌-◌, ◌*◌, ◌≤◌, ◌<◌, ◌≡◌, refl, ◌∙◌, inl, inr, false, ◌||◌, Option, none, some, List, [],
  ◌∷◌, pos, pos_part, add_int, add_int_small, length, ltb, leb_ℤ, ◌==◌, All, arith, Bool-cases,
}
use vitis.Text.{Text}
use vitis.Terminal.Screen.Params.{parse_one}
use vitis.Terminal.Screen.Grid.{Screen, ensure_row, set_cell, is_positive}
use vitis.Terminal.Screen.Scroll.{advance, written_rows, write_rune_at, write_rune}
use vitis.Terminal.Screen.Csi.{handle_csi, edited}
use vitis.Terminal.Screen.Write.{
  Mode, text, escaped, osc, csi, skip, line_feed, backspace, put_rune, in_text, act, next_mode,
  write_from, write, decode_rune,
}
use vitis.Terminal.Screen.Returns.{Returns, Returns-bind, chosen}
use vitis.Terminal.Screen.Kept.{
  IsWide, Keeps, ensure_row-IsWide, ensure_row-lt, length-ensure_row, set_cell-Returns,
}
use vitis.Terminal.Screen.Valid.{
  IsValid, leap, two62, rows-IsValid, IsValid-later, cursor-IsValid, sub_int_small,
}
use vitis.Terminal.Screen.Moves.{moved-IsValid, move_to-IsValid, MovesOrNot}
use vitis.Terminal.Screen.Edits.{edited-IsValid, do_scroll_up-IsValid}

-- The first number of the sequence, with 1 where there is none, is not negative and not large.
abbrev pub IsModest : Text → Type 0
IsModest params = (n : ℕ) × (parse_one params (pos 1) ≡ pos n) × (n ≤ leap)

-- If the byte ends a control sequence, that is modest.
abbrev pub EndsModest : Mode → ℕ → Type 0
EndsModest (csi params) c = ltb c 0x40 ≡ false → IsModest params
EndsModest _ c = Unit {0}

-- Every control sequence that ends in the stream is modest.
abbrev pub AllModest : Mode → Text → Type 0
AllModest mode [] = Unit {0}
AllModest mode (c ∷ cs) = EndsModest mode c × AllModest (next_mode mode c cs) cs

module _ (w b : ℕ) (s : Screen) (v : IsValid w b s) (room : b < two62) (narrow : w < two62) where
  abbrev bound : ℕ
  bound = b + leap

  abbrev Good : Option Screen → Type 0
  Good r = Returns r (IsValid w bound)

  later : {s' : Screen} {r : Option Screen} → r ≡ some s' → IsValid w b s' → Good r
  later {s'} e g = (s', e, IsValid-later w b s' g bound (omega arith))

  handle_csi-IsValid :
      (params : Text) (final : ℕ) → IsModest params → Good (handle_csi params final s)
  unfolding handle_csi
  handle_csi-IsValid params final (n, e, modest) =
      chosen Good (final == b'H' || final == b'f')
        (_, refl, move_to-IsValid w b s v n modest room narrow params)
        (rw e (split (moved-IsValid w b s v n modest room narrow final)))
    where
      others : Good (edited params final s)
      others = let r = edited-IsValid w b s v room narrow params final n e modest in later r.1 r.2

      split :
          {m : Option Screen}
          → MovesOrNot w bound m
          → Good (elim m [ some s' ↦ some s' | none ↦ edited params final s ])
      split (inl nothing) = rw nothing others
      split (inr (s', found, good)) = rw found (s', refl, good)

  line_feed-IsValid : Good (line_feed s)
  unfolding line_feed
  line_feed-IsValid =
      chosen Good _ (let r = do_scroll_up-IsValid w b s v room narrow (pos 1) in later r.1 r.2) (
        _,
        refl,
        cursor-IsValid w b s v bound (v.row + 1) v.col _ s.cur_col (omega arith)
            (omega (arith, v.row_le)) v.col_lt
            (rw v.at_row (add_int_small v.row 1 (omega (arith, v.row_le)))) v.at_col,
      )

  backspace-IsValid : IsValid w b (backspace s)
  unfolding backspace
  backspace-IsValid = elim (Bool-cases (is_positive s.cur_col)) [
    | inr off ↦ rw off v
    | inl on ↦ rw on (
        let above = rw v.at_col at on in
        cursor-IsValid w b s v b v.row (v.col - 1) s.cur_row _ (omega arith) v.row_le
          (omega (arith, v.col_lt)) v.at_row
          (rw v.at_col
            (sub_int_small v.col 1 (omega (arith, v.col_lt)) (omega arith) ∙ ground arith)))
  ]

  advance-IsValid : IsValid w bound (advance s)
  unfolding advance
  advance-IsValid =
      let e : add_int s.cur_col (pos 1) ≡ pos (v.col + 1) =
        rw v.at_col (add_int_small v.col 1 (omega (arith, v.col_lt))) in
      elim (Bool-cases (leb_ℤ (pos s.cols) (add_int s.cur_col (pos 1)))) [
        | inl y ↦ rw y (
            cursor-IsValid w b s v bound (v.row + 1) 0 (add_int s.cur_row (pos 1)) (pos 0)
              (omega arith) (omega (arith, v.row_le)) (omega (arith, v.col_lt))
              (rw v.at_row (add_int_small v.row 1 (omega (arith, v.row_le)))) refl)
        | inr n ↦
            let inside = rw (e, v.columns) at n in
            rw n (
              cursor-IsValid w b s v bound v.row (v.col + 1) s.cur_row (add_int s.cur_col (pos 1))
                (omega arith) (omega (arith, v.row_le)) (ground arith) v.at_row e)
      ]

module _ (w b : ℕ) (s : Screen) (v : IsValid w b s) (room : b < two62) (narrow : w < two62) where
  abbrev ensured : List Text
  ensured = ensure_row s.cols (pos v.row) s.rows

  written_rows-Returns : (r : ℕ) → Returns (written_rows (pos v.row) r s) (Keeps w ensured)
  unfolding written_rows
  written_rows-Returns r =
      chosen (λ (x : Option (List Text)). Returns x (Keeps w ensured)) _ cell
        (ensured, refl, (refl, wide))
    where
      wide : All (IsWide w) ensured
      wide = rw v.columns (ensure_row-IsWide w v.row s.rows v.wide)

      long : v.row < length ensured
      long = rw v.columns (ensure_row-lt w v.row s.rows)

      cell : Returns (set_cell (pos v.row) s.cur_col r ensured) (Keeps w ensured)
      cell = rw v.at_col (set_cell-Returns w ensured wide v.row v.col r long v.col_lt)

  -- A valid screen takes every rune.
  write_rune-IsValid : (r : ℕ) → Returns (write_rune r s) (IsValid w (b + leap))
  unfolding write_rune write_rune_at
  write_rune-IsValid r = rw v.at_row (
      Returns-bind (Keeps w ensured) (IsValid w (b + leap)) (written_rows (pos v.row) r s)
        (λ rows. some (advance (record s { rows = rows; cur_row = pos v.row })))
        (written_rows-Returns r)
        (λ rows p. (
          _,
          refl,
          advance-IsValid w b (record s { rows = rows; cur_row = pos v.row }) (at_cursor rows p)
              room narrow,
        )))
    where
      short : length ensured ≤ b + 1 + pos_part s.height
      short = rw v.columns (omega (arith, length-ensure_row w v.row s.rows, v.short, v.row_le))

      at_cursor :
          (rows : List Text)
          → Keeps w ensured rows
          → IsValid w b (record s { rows = rows; cur_row = pos v.row })
      at_cursor rows p =
          cursor-IsValid w b (record s { rows = rows })
            (rows-IsValid w b s v rows p.1 (omega (arith, p.0, short))) b v.row v.col (pos v.row)
            s.cur_col (omega arith) v.row_le v.col_lt refl v.at_col

  put_rune-IsValid : (o : Option (ℕ × ℕ)) → Returns (put_rune o s) (IsValid w (b + leap))
  unfolding put_rune
  put_rune-IsValid none = (s, refl, IsValid-later w b s v (b + leap) (omega arith))
  put_rune-IsValid (some (r, k)) = write_rune-IsValid r

  in_text-IsValid : (c : ℕ) (rest : Text) → Returns (in_text c rest s) (IsValid w (b + leap))
  unfolding in_text
  in_text-IsValid c rest =
      chosen Good' (c == 0x1b) (s, refl, same)
        (chosen Good' (c == 13) (_, refl, home)
          (chosen Good' (c == 10) (line_feed-IsValid w b s v room narrow) (
            chosen Good' (c == 8) (_, refl, back)
              (chosen Good' (ltb c 0x20) (s, refl, same) (put_rune-IsValid (decode_rune c rest))))))
    where
      Good' : Option Screen → Type 0
      Good' r = Returns r (IsValid w (b + leap))

      same : IsValid w (b + leap) s
      same = IsValid-later w b s v (b + leap) (omega arith)

      home : IsValid w (b + leap) (record s { cur_col = pos 0 })
      home =
          cursor-IsValid w b s v (b + leap) v.row 0 s.cur_row (pos 0) (omega arith)
            (omega (arith, v.row_le)) (omega (arith, v.col_lt)) v.at_row refl

      back : IsValid w (b + leap) (backspace s)
      back =
          IsValid-later w b (backspace s) (backspace-IsValid w b s v room narrow) (b + leap)
            (omega arith)

  act-IsValid :
      (mode : Mode) (c : ℕ) (rest : Text)
      → EndsModest mode c
      → Returns (act mode c rest s) (IsValid w (b + leap))
  unfolding act
  act-IsValid text c rest m = in_text-IsValid c rest
  act-IsValid (csi params) c rest m = elim (Bool-cases (ltb c 0x40)) [
    | inl y ↦ rw y (s, refl, IsValid-later w b s v (b + leap) (omega arith))
    | inr n ↦ rw n (handle_csi-IsValid w b s v room narrow params c (m n))
  ]
  act-IsValid escaped c rest m = (s, refl, IsValid-later w b s v (b + leap) (omega arith))
  act-IsValid osc c rest m = (s, refl, IsValid-later w b s v (b + leap) (omega arith))
  act-IsValid (skip k) c rest m = (s, refl, IsValid-later w b s v (b + leap) (omega arith))

-- The most that a stream may move the cursor down.
abbrev pub reach : ℕ → Text → ℕ
reach b [] = b
reach b (c ∷ cs) = reach (b + leap) cs

reach_lem : (b : ℕ) (bytes : Text) → reach b bytes ≡ b + leap * length bytes
reach_lem b [] = omega arith
reach_lem b (c ∷ cs) = omega (arith, reach_lem (b + leap) cs)

write_from-IsValid :
    (w : ℕ) (bytes : Text) (mode : Mode) (b : ℕ) (s : Screen)
    → w < two62
    → b + leap * length bytes < two62
    → AllModest mode bytes
    → IsValid w b s
    → Returns (write_from mode bytes s) (IsValid w (reach b bytes))
unfolding write_from
write_from-IsValid w [] mode b s narrow room m v = (s, refl, v)
write_from-IsValid w (c ∷ cs) mode b s narrow room m v =
    Returns-bind (IsValid w (b + leap)) (IsValid w (reach (b + leap) cs)) (act mode c cs s)
      (write_from (next_mode mode c cs) cs) (act-IsValid w b s v (omega arith) narrow mode c cs m.0)
      (λ s' v'.
        write_from-IsValid w cs (next_mode mode c cs) (b + leap) s' narrow (omega arith) m.1 v')

-- A valid screen of fewer than `two62` columns takes any stream of bytes whose control sequences are
-- all modest, and in which the rows that the stream can reach stay below `two62`: `write` does not
-- panic, and the screen that it leaves is valid again, with rows of the same width and the cursor
-- on one of its columns.
pub write-IsValid :
    (w b : ℕ) (bytes : Text) (s : Screen)
    → w < two62
    → b + leap * length bytes < two62
    → AllModest text bytes
    → IsValid w b s
    → Returns (write bytes s) (IsValid w (b + leap * length bytes))
unfolding write
write-IsValid w b bytes s narrow room m v =
    rw (← reach_lem b bytes) (write_from-IsValid w bytes text b s narrow room m v)
