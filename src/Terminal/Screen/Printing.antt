-- ===== src/Terminal/Screen/Printing.antt =====
-- A plain line that is written to a new screen, and read back.
use vitis.Prelude.{
  ℕ, zero, suc, ◌+◌, ◌-◌, ◌≤◌, ◌<◌, ◌≡◌, refl, ap, sym, ◌∙◌, ◌&&◌, true, some, [], ◌∷◌, ◌++◌,
  append_assoc, append-nil, ℤ, pos, pos_part, add_int_small, length, length-append, ltb, leb, ◌==◌,
  All, arith, if◌then◌else◌,
}
use vitis.Text.{Text, is_empty, trim_right, join}
use vitis.Text.Trim.{trim_right-concat}
use vitis.Terminal.Screen.Grid.{
  Screen, ◌>>=◌, is_positive, new_screen, index, set_nth, update, set_cell, ensure_row, blanks,
  blank_rows,
}
use vitis.Terminal.Screen.Scroll.{written_rows, write_rune_at, write_rune, advance}
use vitis.Terminal.Screen.Write.{
  text, in_text, put_rune, decode_rune, act, next_mode, write_from, write, lines, drop_empty_end,
  content,
}
use vitis.Terminal.Screen.Valid.{two62}

-- A byte that is printed as it is.
abbrev pub IsPlain : ℕ → Type 0
IsPlain c = (0x20 ≤ c) × (c < 0x80)

set_nth_middle : (p q : Text) (x v : ℕ) → set_nth (p ++ (x ∷ q)) (length p) v ≡ some (p ++ (v ∷ q))
unfolding set_nth
set_nth_middle [] q x v = refl
set_nth_middle (y ∷ p) q x v = rw (set_nth_middle p q x v)

module _ (height : ℤ) (bot w : ℕ) (narrow : w < two62) where
  -- One row, with the text `p` and `k` blanks, and the cursor behind the text.
  abbrev printed : Text → ℕ → Screen
  printed p k = record {
    cols = w;
    height = height;
    rows = (p ++ blanks k) ∷ [];
    cur_row = pos 0;
    cur_col = pos (length p);
    saved_row = pos 0;
    saved_col = pos 0;
    scroll_top = 0;
    scroll_bot = bot;
  }

  module _ (c : ℕ) where
    advance-printed :
        (p : Text) (k : ℕ) (line : Text)
        → length p + 2 + k ≡ w
        → line ≡ (p ++ c ∷ []) ++ blanks (suc k)
        → advance (record (printed p (suc (suc k))) { rows = line ∷ [] })
          ≡ printed (p ++ c ∷ []) (suc k)
    unfolding advance
    advance-printed p k line fits e =
        rw (add_int_small (length p) 1 (omega arith)) (ground (arith, length-append p (c ∷ [])))

    write_rune-printed :
        (p : Text) (k : ℕ)
        → length p + 2 + k ≡ w
        → write_rune c (printed p (suc (suc k))) ≡ some (printed (p ++ c ∷ []) (suc k))
    unfolding write_rune write_rune_at written_rows set_cell ensure_row index update set_nth blanks
    write_rune-printed p k fits =
        rw (inside, set_nth_middle p (b' ' ∷ blanks k) b' ' c)
          (ap some (
            advance-printed p k (p ++ (c ∷ b' ' ∷ blanks k)) fits
              (sym (append_assoc p (c ∷ []) (b' ' ∷ blanks k)))))
      where
        inside : (leb 0 (length p + 0) && ltb (length p + 0) (w + 0)) ≡ true
        inside = ground arith

    -- The first character makes the row.
    write_rune_empty :
        write_rune c (record (printed [] w) { rows = [] }) ≡ write_rune c (printed [] w)
    unfolding write_rune write_rune_at written_rows ensure_row blank_rows
    write_rune_empty = refl

    in_text_plain : (rest : Text) (s : Screen) → IsPlain c → in_text c rest s ≡ write_rune c s
    unfolding in_text put_rune decode_rune
    in_text_plain rest s plain = ground arith

    next_mode_plain : (rest : Text) → IsPlain c → next_mode text c rest ≡ text
    unfolding next_mode decode_rune
    next_mode_plain rest plain = ground arith

  write_from_plain :
      (c : ℕ) (t : Text) (s : Screen)
      → IsPlain c
      → write_from text (c ∷ t) s ≡ (write_rune c s >>= write_from text t)
  unfolding write_from act
  write_from_plain c t s plain = rw (next_mode_plain c t plain, in_text_plain c t s plain) refl

  write_from-printed :
      (t p : Text) (j k : ℕ)
      → All IsPlain t
      → j ≡ length t + suc k
      → length p + j ≡ w
      → write_from text t (printed p j) ≡ some (printed (p ++ t) (suc k))
  unfolding write_from
  write_from-printed [] p j k plain e fits =
      rw append-nil (let e' : j ≡ suc k = omega arith in ap (λ n. some (printed p n)) e')
  write_from-printed (c ∷ t) p j k plain e fits =
      let e' : j ≡ suc (suc (length t + k)) = omega arith in
      rw e' (
        write_from_plain c t (printed p (suc (suc (length t + k)))) plain.0
        ∙ ap (λ r. r >>= write_from text t) (write_rune-printed c p (length t + k) (omega arith))
        ∙ write_from-printed t (p ++ c ∷ []) (suc (length t + k)) k plain.1 (omega arith)
            (omega (arith, length-append p (c ∷ [])))
        ∙ ap (λ q. some (printed q (suc k))) (append_assoc p (c ∷ []) t))

trim_right-blanks :
    (p : Text) (k : ℕ) → trim_right (λ c. c == b' ') (p ++ blanks k) ≡ trim_right (λ c. c == b' ') p
unfolding blanks
trim_right-blanks p zero = rw append-nil refl
trim_right-blanks p (suc k) =
    ap (trim_right (λ c. c == b' ')) (sym (append_assoc p (b' ' ∷ []) (blanks k)))
    ∙ trim_right-blanks (p ++ b' ' ∷ []) k
    ∙ trim_right-concat (λ c. c == b' ') p b' ' refl

join_kept : (line : Text) → join 10 (if is_empty line then [] else line ∷ []) ≡ line
unfolding join
join_kept [] = refl
join_kept (c ∷ line) = refl

-- What `Content` shows of a screen with one row.
content_one :
    (s : Screen) (line : Text) → s.rows ≡ line ∷ [] → content s ≡ trim_right (λ c. c == b' ') line
unfolding content lines drop_empty_end join
content_one s line e = rw e (join_kept (trim_right (λ c. c == b' ') line))

first_bot : ℤ → ℕ
first_bot height = if is_positive height then pos_part height - 1 else 0

new_screen_lem :
    (height : ℤ) (w : ℕ) (narrow : w < two62)
    → 0 < w
    → new_screen (pos w) height
      ≡ record (printed height (first_bot height) w narrow [] w) { rows = [] }
unfolding new_screen first_bot
new_screen_lem height w narrow h = ground arith

-- A line of plain characters that is shorter than the screen is wide, written to a new screen of any
-- height, is what the screen shows, without the blanks at its end.
pub content-write :
    (height : ℤ) (w : ℕ) (t : Text)
    → w < two62
    → length t < w
    → All IsPlain t
    → (s : Screen) × (write t (new_screen (pos w) height) ≡ some s)
      × (content s ≡ trim_right (λ c. c == b' ') t)
unfolding write
content-write height w [] narrow short plain = (
  new_screen (pos w) height,
  unfold write_from in refl,
  unfold new_screen content join trim_right in refl,
)
content-write height w (c ∷ t) narrow short plain =
    let bot = first_bot height in
    let k = w - length t - 2 in
    let all =
      write_from-printed height bot w narrow (c ∷ t) [] w k plain (omega arith) (omega arith) in
    (
      printed height bot w narrow (c ∷ t) (suc k),
      ap (write_from text (c ∷ t)) (new_screen_lem height w narrow (omega arith))
          ∙ write_from_plain height bot w narrow c t
              (record (printed height bot w narrow [] w) { rows = [] }) plain.0
          ∙ ap (λ r. r >>= write_from text t) (write_rune_empty height bot w narrow c)
          ∙ sym
              (write_from_plain height bot w narrow c t (printed height bot w narrow [] w) plain.0)
          ∙ all,
      content_one (printed height bot w narrow (c ∷ t) (suc k)) ((c ∷ t) ++ blanks (suc k)) refl
          ∙ trim_right-blanks (c ∷ t) (suc k),
    )
