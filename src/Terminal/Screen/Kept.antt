-- ===== src/Terminal/Screen/Kept.antt =====
-- What the writes to the rows of a screen keep: the number of rows and the width of each.
use vitis.Prelude.{
  ℕ, zero, suc, ◌+◌, ◌-◌, ◌≤◌, ◌<◌, ◌≡◌, refl, ap, ◌∙◌, Option, some, List, [], ◌∷◌, ◌++◌, pos,
  two63, add_int, add_int_small, length, take, drop, get_elem?, All, All-append, length-append,
  length-take, length-drop, arith, le→leb,
}
use vitis.Text.{Text}
use vitis.Terminal.Screen.Grid.{
  ◌>>=◌, index, set_nth, update, blanks, blank_rows, ensure_row, set_cell, erase_line, erase_cells,
  blank_line, erase_row, erase_rows,
}
use vitis.Terminal.Screen.Scroll.{move_up, move_down, expose, scroll_up_rows, scroll_down_rows}
use vitis.Terminal.Screen.Csi.{tail_from, copy_left}
use vitis.Terminal.Screen.Returns.{
  Returns, Returns-bind, Alike, get_elem?-Returns, set_nth-Returns, index-Returns, update-Returns,
}

abbrev Always : ℕ → Type 0
Always c = Unit {0}

All-Always : (l : Text) → All Always l
All-Always [] = tt
All-Always (c ∷ l) = (tt, All-Always l)

-- A cell of a line.
pub put-Returns :
    (line : Text) (i v : ℕ)
    → i < length line
    → Returns (update line (pos i) v) (λ l. length l ≡ length line)
put-Returns line i v h =
    let r = update-Returns Always line i v h (All-Always line) tt in (r.0, r.1, r.2.0)

pub length-blanks : (n : ℕ) → length (blanks n) ≡ n
unfolding blanks
length-blanks zero = refl
length-blanks (suc n) = ap suc (length-blanks n)

pub erase_line-Returns :
    (n c : ℕ) (line : Text)
    → c + n ≤ length line
    → length line < two63
    → Returns (erase_line n (pos c) line) (λ l. length l ≡ length line)
unfolding erase_line
erase_line-Returns zero c line h k = (line, refl, refl)
erase_line-Returns (suc n) c line h k =
    Returns-bind (λ l. length l ≡ length line) (λ l. length l ≡ length line)
      (update line (pos c) b' ') (λ l. erase_line n (add_int (pos c) (pos 1)) l)
      (put-Returns line c b' ' (omega arith))
      (λ l e. rw (add_int_small c 1 (omega arith)) (
        let r = erase_line-Returns n (c + 1) l (omega (arith, e)) (omega (arith, e)) in
        (r.0, r.1, r.2 ∙ e)))

pub length-blank_line : (line : Text) → length (blank_line line) ≡ length line
unfolding blank_line
length-blank_line [] = refl
length-blank_line (c ∷ line) = ap suc (length-blank_line line)

pub copy_left-Returns :
    (c e : ℕ) (line : Text)
    → c ≤ length line
    → e ≤ length line
    → c ≤ e
    → Returns (copy_left (pos c) (pos e) line) (λ l. length l ≡ length line)
unfolding copy_left tail_from
copy_left-Returns c e line hc he h =
    rw (le→leb c (length line) hc, le→leb e (length line) he)
      (
        take c line ++ (take (length dst) src ++ drop (length src) dst),
        refl,
        omega (
          arith,
          length-append (take c line) (take (length dst) src ++ drop (length src) dst),
          length-append (take (length dst) src) (drop (length src) dst),
          length-take c line,
          length-take (length dst) src,
          length-drop (length src) dst,
          length-drop c line,
          length-drop e line,
        ),
      )
  where
    dst : Text
    dst = drop c line

    src : Text
    src = drop e line

module _ (w : ℕ) where
  abbrev pub IsWide : Text → Type 0
  IsWide l = length l ≡ w

  -- As many rows, each of the width.
  abbrev pub Keeps : List Text → List Text → Type 0
  Keeps rows rows' = Alike IsWide rows rows'

  pub blank_rows-IsWide : (n : ℕ) → All IsWide (blank_rows w n)
  unfolding blank_rows
  blank_rows-IsWide zero = tt
  blank_rows-IsWide (suc n) = (length-blanks w, blank_rows-IsWide n)

  pub length-blank_rows : (n : ℕ) → length (blank_rows w n) ≡ n
  unfolding blank_rows
  length-blank_rows zero = refl
  length-blank_rows (suc n) = ap suc (length-blank_rows n)

  pub ensure_row-IsWide :
      (r : ℕ) (rows : List Text) → All IsWide rows → All IsWide (ensure_row w (pos r) rows)
  unfolding ensure_row
  ensure_row-IsWide r rows a =
      All-append IsWide rows (blank_rows w (r + 1 - length rows)) a (blank_rows-IsWide _)

  pub ensure_row-lt : (r : ℕ) (rows : List Text) → r < length (ensure_row w (pos r) rows)
  unfolding ensure_row
  ensure_row-lt r rows = omega (
    arith,
    length-append rows (blank_rows w (r + 1 - length rows)),
    length-blank_rows (r + 1 - length rows),
  )

  pub length-ensure_row :
      (r : ℕ) (rows : List Text)
      → length (ensure_row w (pos r) rows) ≡ length rows + (r + 1 - length rows)
  unfolding ensure_row
  length-ensure_row r rows = omega (
    arith,
    length-append rows (blank_rows w (r + 1 - length rows)),
    length-blank_rows (r + 1 - length rows),
  )

  module _ (rows : List Text) (wide : All IsWide rows) where
    pub Keeps-refl : Keeps rows rows
    Keeps-refl = (refl, wide)

    -- A row is read, changed and written back.
    pub row-Returns :
        (r : ℕ) (f : Text → Option Text)
        → r < length rows
        → ((line : Text) → IsWide line → Returns (f line) IsWide)
        → Returns
            (index rows (pos r) >>= λ line. f line >>= λ line'. update rows (pos r) line')
            (Keeps rows)
    row-Returns r f h k =
        Returns-bind IsWide (Keeps rows) (index rows (pos r))
          (λ line. f line >>= λ line'. update rows (pos r) line')
          (index-Returns IsWide rows r h wide)
          (λ line p.
            Returns-bind IsWide (Keeps rows) (f line) (λ line'. update rows (pos r) line')
              (k line p) (λ line' q. update-Returns IsWide rows r line' h wide q))

    pub set_cell-Returns :
        (r c v : ℕ)
        → r < length rows
        → c < w
        → Returns (set_cell (pos r) (pos c) v rows) (Keeps rows)
    unfolding set_cell
    set_cell-Returns r c v h k =
        row-Returns r (λ line. update line (pos c) v) h
          (λ line p. let x = put-Returns line c v (omega (arith, p)) in (x.0, x.1, x.2 ∙ p))

    pub erase_cells-Returns :
        (n r c : ℕ)
        → r < length rows
        → c + n ≤ w
        → w < two63
        → Returns (erase_cells n (pos r) (pos c) rows) (Keeps rows)
    unfolding erase_cells
    erase_cells-Returns zero r c h k small = (rows, refl, Keeps-refl)
    erase_cells-Returns (suc n) r c h k small =
        row-Returns r (λ line. erase_line (suc n) (pos c) line) h
          (λ line p.
            let x = erase_line-Returns (suc n) c line (omega (arith, p)) (omega (arith, p)) in
            (x.0, x.1, x.2 ∙ p))

    pub erase_row-Returns :
        (r : ℕ) → r < length rows → Returns (erase_row (pos r) rows) (Keeps rows)
    unfolding erase_row
    erase_row-Returns r h =
        row-Returns r (λ line. some (blank_line line)) h
          (λ line p. (blank_line line, refl, length-blank_line line ∙ p))

  pub Keeps-trans : (a b c : List Text) → Keeps a b → Keeps b c → Keeps a c
  Keeps-trans a b c p q = (q.0 ∙ p.0, q.1)

  pub erase_rows-Returns :
      (n r : ℕ) (rows : List Text)
      → All IsWide rows
      → r + n ≤ length rows
      → length rows < two63
      → Returns (erase_rows n (pos r) rows) (Keeps rows)
  unfolding erase_rows
  erase_rows-Returns zero r rows wide h small = (rows, refl, Keeps-refl rows wide)
  erase_rows-Returns (suc n) r rows wide h small =
      Returns-bind (Keeps rows) (Keeps rows) (erase_row (pos r) rows)
        (λ l. erase_rows n (add_int (pos r) (pos 1)) l)
        (erase_row-Returns rows wide r (omega arith))
        (λ l p. rw (add_int_small r 1 (omega arith)) (
          let x = erase_rows-Returns n (r + 1) l p.1 (omega (arith, p.0)) (omega (arith, p.0)) in
          (x.0, x.1, Keeps-trans rows l x.0 p x.2)))

  pub move_up-Returns :
      (count at n : ℕ) (rows : List Text)
      → All IsWide rows
      → at + count + n ≤ length rows
      → Returns (move_up count at n rows) (Keeps rows)
  unfolding move_up
  move_up-Returns zero at n rows wide h = (rows, refl, Keeps-refl rows wide)
  move_up-Returns (suc count) at n rows wide h =
      Returns-bind IsWide (Keeps rows) (get_elem? rows (at + n))
        (λ line. set_nth rows at line >>= move_up count (at + 1) n)
        (get_elem?-Returns IsWide rows (at + n) (omega arith) wide)
        (λ line p.
          Returns-bind (Keeps rows) (Keeps rows) (set_nth rows at line) (move_up count (at + 1) n)
            (set_nth-Returns IsWide rows at line (omega arith) wide p)
            (λ l q.
              let x = move_up-Returns count (at + 1) n l q.1 (omega (arith, q.0)) in
              (x.0, x.1, Keeps-trans rows l x.0 q x.2)))

  pub move_down-Returns :
      (count at n : ℕ) (rows : List Text)
      → All IsWide rows
      → at + count + n ≤ length rows
      → Returns (move_down count at n rows) (Keeps rows)
  unfolding move_down
  move_down-Returns zero at n rows wide h = (rows, refl, Keeps-refl rows wide)
  move_down-Returns (suc count) at n rows wide h =
      Returns-bind IsWide (Keeps rows) (get_elem? rows (at + count))
        (λ line. set_nth rows (at + count + n) line >>= move_down count at n)
        (get_elem?-Returns IsWide rows (at + count) (omega arith) wide)
        (λ line p.
          Returns-bind (Keeps rows) (Keeps rows) (set_nth rows (at + count + n) line)
            (move_down count at n)
            (set_nth-Returns IsWide rows (at + count + n) line (omega arith) wide p)
            (λ l q.
              let x = move_down-Returns count at n l q.1 (omega (arith, q.0)) in
              (x.0, x.1, Keeps-trans rows l x.0 q x.2)))

  pub expose-Returns :
      (count at : ℕ) (rows : List Text)
      → All IsWide rows
      → at + count ≤ length rows
      → Returns (expose w count at rows) (Keeps rows)
  unfolding expose
  expose-Returns zero at rows wide h = (rows, refl, Keeps-refl rows wide)
  expose-Returns (suc count) at rows wide h =
      Returns-bind (Keeps rows) (Keeps rows) (set_nth rows at (blanks w)) (expose w count (at + 1))
        (set_nth-Returns IsWide rows at (blanks w) (omega arith) wide (length-blanks w))
        (λ l q.
          let x = expose-Returns count (at + 1) l q.1 (omega (arith, q.0)) in
          (x.0, x.1, Keeps-trans rows l x.0 q x.2))

  module _ (top size n : ℕ) (rows : List Text) (wide : All IsWide rows) (few : n ≤ size)
      (inside : top + size ≤ length rows) where
    pub scroll_up_rows-Returns : Returns (scroll_up_rows w top size n rows) (Keeps rows)
    unfolding scroll_up_rows
    scroll_up_rows-Returns =
        Returns-bind (Keeps rows) (Keeps rows) (move_up (size - n) top n rows)
          (expose w n (top + (size - n))) (move_up-Returns (size - n) top n rows wide (omega arith))
          (λ l q.
            let x = expose-Returns n (top + (size - n)) l q.1 (omega (arith, q.0)) in
            (x.0, x.1, Keeps-trans rows l x.0 q x.2))

    pub scroll_down_rows-Returns : Returns (scroll_down_rows w top size n rows) (Keeps rows)
    unfolding scroll_down_rows
    scroll_down_rows-Returns =
        Returns-bind (Keeps rows) (Keeps rows) (move_down (size - n) top n rows) (expose w n top)
          (move_down-Returns (size - n) top n rows wide (omega arith))
          (λ l q.
            let x = expose-Returns n top l q.1 (omega (arith, q.0)) in
            (x.0, x.1, Keeps-trans rows l x.0 q x.2))
