-- ===== src/Terminal/Screen/Shift.antt =====
-- Where each row goes when the scroll region is scrolled.
use vitis.Prelude.{
  ℕ, zero, suc, ◌+◌, ◌-◌, ◌≤◌, ◌<◌, ◌≡◌, refl, ℤ, pos_part, min, Bool, not, false, ◌&&◌, Option,
  none, some, List, [], ◌∷◌, length, get_elem?, leb, ltb, ◌==◌, All, arith, if◌then◌else◌,
}
use vitis.Text.{Text}
use vitis.Terminal.Screen.Valid.{IsValid, two62}
use vitis.Terminal.Screen.Edits.{ensured, ensured-IsWide, ensured_long}
use vitis.Terminal.Screen.Grid.{Screen, ◌>>=◌, set_nth, blanks}
use vitis.Terminal.Screen.Scroll.{
  move_up, move_down, expose, scroll_up_rows, scroll_down_rows, do_scroll_up, do_scroll_down,
  no_scroll, region_size, with_rows,
}
use vitis.Terminal.Screen.Returns.{Returns}
use vitis.Terminal.Screen.Kept.{IsWide, scroll_up_rows-Returns, scroll_down_rows-Returns}

bind_inv {ℓ} :
    {A B : Type ℓ} (m : Option A) (f : A → Option B) {b : B}
    → (m >>= f) ≡ some b
    → (a : A) × (m ≡ some a) × (f a ≡ some b)
bind_inv none f h = absurd (cc)
bind_inv (some a) f h = (a, refl, h)

set_nth_get :
    (l : List Text) (i k : ℕ) (v : Text) {l' : List Text}
    → set_nth l i v ≡ some l'
    → get_elem? l' k ≡ (if k == i then some v else get_elem? l k)
unfolding set_nth
set_nth_get [] i k v h = absurd (cc)
set_nth_get (x ∷ xs) zero zero v h = ground arith
set_nth_get (x ∷ xs) zero (suc k) v h = ground arith
set_nth_get (x ∷ xs) (suc i) zero v h =
    let (ys, set, e) = bind_inv (set_nth xs i v) _ h in ground (arith, e)
set_nth_get (x ∷ xs) (suc i) (suc k) v h =
    let (ys, set, e) = bind_inv (set_nth xs i v) _ h in ground (arith, e, set_nth_get xs i k v set)

-- What row `k` holds after the rows from `at` on, `count` of them, were overwritten by the rows that
-- `source` gives.
abbrev Moved : (ℕ → ℕ) → ℕ → ℕ → List Text → List Text → Type 0
Moved source at count rows rows' =
    (k : ℕ)
    → get_elem? rows' k
      ≡ (if leb at k && ltb k (at + count) then get_elem? rows (source k) else get_elem? rows k)

move_up-Moved :
    (count at n : ℕ) (rows : List Text) {rows' : List Text}
    → move_up count at n rows ≡ some rows'
    → Moved (λ k. k + n) at count rows rows'
unfolding move_up
move_up-Moved zero at n rows h k = ground arith
move_up-Moved (suc count) at n rows h k =
    let (line, found, h1) = bind_inv (get_elem? rows (at + n)) _ h in
    let (rows1, set, h2) = bind_inv (set_nth rows at line) _ h1 in
    ground (
      arith,
      move_up-Moved count (at + 1) n rows1 h2 k,
      set_nth_get rows at k line set,
      set_nth_get rows at (k + n) line set,
    )

move_down-Moved :
    (count at n : ℕ) (rows : List Text) {rows' : List Text}
    → move_down count at n rows ≡ some rows'
    → Moved (λ k. k - n) (at + n) count rows rows'
unfolding move_down
move_down-Moved zero at n rows h k = ground arith
move_down-Moved (suc count) at n rows h k =
    let (line, found, h1) = bind_inv (get_elem? rows (at + count)) _ h in
    let (rows1, set, h2) = bind_inv (set_nth rows (at + count + n) line) _ h1 in
    ground (
      arith,
      move_down-Moved count at n rows1 h2 k,
      set_nth_get rows (at + count + n) k line set,
      set_nth_get rows (at + count + n) (k - n) line set,
    )

expose_get :
    (cols count at : ℕ) (rows : List Text) {rows' : List Text} (k : ℕ)
    → expose cols count at rows ≡ some rows'
    → get_elem? rows' k
      ≡ (if leb at k && ltb k (at + count) then some (blanks cols) else get_elem? rows k)
unfolding expose
expose_get cols zero at rows k h = ground arith
expose_get cols (suc count) at rows k h =
    let (rows1, set, h1) = bind_inv (set_nth rows at (blanks cols)) _ h in
    ground
      (arith, expose_get cols count (at + 1) rows1 k h1, set_nth_get rows at k (blanks cols) set)

module _ (w top size n : ℕ) (rows : List Text) where
  abbrev region_has : ℕ → Bool
  region_has k = leb top k && ltb k (top + size)

  -- Row `k` after the region went up, and down, by `n` lines.
  abbrev pub after_up : ℕ → Option Text
  after_up k =
      if not (region_has k)
      then get_elem? rows k
      else if ltb (k + n) (top + size)
      then get_elem? rows (k + n)
      else some (blanks w)

  abbrev pub after_down : ℕ → Option Text
  after_down k =
      if not (region_has k)
      then get_elem? rows k
      else if leb (top + n) k
      then get_elem? rows (k - n)
      else some (blanks w)

  module _ (wide : All (IsWide w) rows) (few : n ≤ size) (inside : top + size ≤ length rows) where
    pub scroll_up_rows_get :
        Returns (scroll_up_rows w top size n rows) (λ r. (k : ℕ) → get_elem? r k ≡ after_up k)
    unfolding scroll_up_rows
    scroll_up_rows_get =
        let (r, e, _) = scroll_up_rows-Returns w top size n rows wide few inside in
        let (m, first, second) = bind_inv (move_up (size - n) top n rows) _ e in
        (
          r,
          e,
          λ k. ground (
            arith,
            move_up-Moved (size - n) top n rows first k,
            expose_get w n (top + (size - n)) m k second,
          ),
        )

    pub scroll_down_rows_get :
        Returns (scroll_down_rows w top size n rows) (λ r. (k : ℕ) → get_elem? r k ≡ after_down k)
    unfolding scroll_down_rows
    scroll_down_rows_get =
        let (r, e, _) = scroll_down_rows-Returns w top size n rows wide few inside in
        let (m, first, second) = bind_inv (move_down (size - n) top n rows) _ e in
        (
          r,
          e,
          λ k.
              ground (
                arith,
                move_down-Moved (size - n) top n rows first k,
                expose_get w n top m k second,
              ),
        )

-- Only the rows are others, and row `k` of them is given by `row`.
abbrev pub HasRows : Screen → (ℕ → Option Text) → Screen → Type 0
HasRows s row s' = (s' ≡ with_rows s s'.rows) × ((k : ℕ) → get_elem? s'.rows k ≡ row k)

module _ (w b : ℕ) (s : Screen) (v : IsValid w b s) (room : b < two62) (narrow : w < two62) (n : ℤ)
    (scrolls : no_scroll n s ≡ false) where
  abbrev before : List Text
  before = ensured w b s v room narrow n

  abbrev by : ℕ
  by = min (pos_part n) (region_size s)

  -- A valid screen scrolls up by at least a line: the rows above and below the scroll region stay, a
  -- row of the region goes up by that many lines, or by the size of the region if that is less, and
  -- the lines that it leaves at the bottom of the region are blank; the cursor stays.
  pub do_scroll_up-HasRows :
      Returns (do_scroll_up n s) (HasRows s (after_up w s.scroll_top (region_size s) by before))
  unfolding do_scroll_up
  do_scroll_up-HasRows =
      rw scrolls (let (r, e, at) = up s.cols v.columns in (with_rows s r, rw e, (refl, at)))
    where
      up :
          (c : ℕ)
          → c ≡ w
          → Returns
              (scroll_up_rows c s.scroll_top (region_size s) by before)
              (λ r. (k : ℕ) → get_elem? r k ≡ after_up w s.scroll_top (region_size s) by before k)
      up c e = rw e (
          scroll_up_rows_get w s.scroll_top (region_size s) by before
            (ensured-IsWide w b s v room narrow n) (omega arith)
            (ensured_long w b s v room narrow n))

  -- The same downwards: a row of the region goes down, and the lines at its top are blank.
  pub do_scroll_down-HasRows :
      Returns (do_scroll_down n s) (HasRows s (after_down w s.scroll_top (region_size s) by before))
  unfolding do_scroll_down
  do_scroll_down-HasRows =
      rw scrolls (let (r, e, at) = down s.cols v.columns in (with_rows s r, rw e, (refl, at)))
    where
      down :
          (c : ℕ)
          → c ≡ w
          → Returns
              (scroll_down_rows c s.scroll_top (region_size s) by before)
              (λ r. (k : ℕ) → get_elem? r k ≡ after_down w s.scroll_top (region_size s) by before k)
      down c e = rw e (
          scroll_down_rows_get w s.scroll_top (region_size s) by before
            (ensured-IsWide w b s v room narrow n) (omega arith)
            (ensured_long w b s v room narrow n))
