-- ===== src/Examples/Screens.antt =====
-- Runs of the screen, and the theorems about it at concrete inputs.
use vitis.Prelude.{
  ◌+◌, ◌*◌, ◌≡◌, refl, Option, none, some, [], ◌∷◌, ◌++◌, ℤ, pos, add_int, sub_int, length, arith,
  false, min, ◌==◌,
}
use vitis.Text.{Text, codes, join, trim_left, trim_right}
use vitis.Terminal.Screen.Params.{parse_one}
use vitis.Terminal.Screen.Grid.{Screen, new_screen, ◌>>=◌, ensure_row}
use vitis.Terminal.Screen.Scroll.{do_scroll_up, no_scroll, region_size}
use vitis.Terminal.Screen.Write.{text, write, content, next_mode}
use vitis.Terminal.Screen.Returns.{Returns}
use vitis.Terminal.Screen.Valid.{IsValid, new_screen-IsValid, rows-IsValid, leap}
use vitis.Terminal.Screen.Sound.{write-IsValid, AllModest}
use vitis.Terminal.Screen.Shift.{do_scroll_up-HasRows, HasRows, after_up}
use vitis.Terminal.Screen.Printing.{content-write}

-- What a screen shows after some bytes; `none` is a panic.
shown : ℤ → ℤ → Text → Option Text
unfolding new_screen write content add_int sub_int join trim_left trim_right
shown c h bytes = write bytes (new_screen c h) >>= λ s. some (content s)

positioned :
    shown (pos 10) (pos 0) (codes "hello" ++ (27 ∷ codes "[2;3Hab"))
    ≡ some (codes "hello" ++ (10 ∷ codes "  ab"))
unfolding shown
positioned = refl

scrolled :
    shown (pos 4) (pos 2) (codes "abcde" ++ (10 ∷ codes "f"))
    ≡ some (codes "e" ++ (10 ∷ codes " f"))
unfolding shown
scrolled = refl

decoded : shown (pos 10) (pos 0) (0xE4 ∷ 0xB8 ∷ 0xAD ∷ []) ≡ some (0x4E2D ∷ [])
unfolding shown
decoded = refl

deleted :
    shown (pos 10) (pos 0) (codes "abcdef" ++ (27 ∷ codes "[3G") ++ (27 ∷ codes "[2P"))
    ≡ some (codes "abef")
unfolding shown
deleted = refl

-- A terminal would keep "ab", which is left of the cursor.
deleted_too_far :
    shown (pos 10) (pos 0) (codes "abcdef" ++ (27 ∷ codes "[3G") ++ (27 ∷ codes "[20P")) ≡ some []
unfolding shown
deleted_too_far = refl

-- A negative number takes the cursor off the screen, and the next erasure panics.
negative_row : shown (pos 4) (pos 0) (codes "ab" ++ (27 ∷ codes "[-5B") ++ (27 ∷ codes "[K")) ≡ none
unfolding shown
negative_row = refl

-- So does a number that overflows the column.
overflowing_column :
    shown (pos 10) (pos 0) (codes "a" ++ (27 ∷ codes "[9223372036854775807C") ++ (27 ∷ codes "[K"))
    ≡ none
unfolding shown
overflowing_column = refl

abbrev start : Screen
start = new_screen (pos 10) (pos 3)

start-IsValid : IsValid 10 0 start
start-IsValid = new_screen-IsValid 10 (pos 3) (omega arith) (omega arith)

abbrev stream : Text
stream = codes "hi" ++ (27 ∷ codes "[2Bx")

stream-AllModest : AllModest text stream
unfolding next_mode parse_one trim_left
stream-AllModest =
    (tt, (tt, (tt, (tt, (λ early. absurd (cc), (λ last. (2, refl, omega arith), (tt, tt)))))))

write-IsValid_example : Returns (write stream start) (IsValid 10 (0 + leap * length stream))
write-IsValid_example =
    write-IsValid 10 0 stream start (omega arith) (omega arith) stream-AllModest start-IsValid

abbrev two_rows : Screen
two_rows = record start { rows = codes "0123456789" ∷ codes "abcdefghij" ∷ [] }

two_rows-IsValid : IsValid 10 0 two_rows
two_rows-IsValid =
    rows-IsValid 10 0 start start-IsValid two_rows.rows (refl, (refl, tt))
      (unfold new_screen in omega arith)

two_rows_scroll : no_scroll (pos 1) two_rows ≡ false
unfolding new_screen no_scroll
two_rows_scroll = refl

do_scroll_up-HasRows_example : Returns (do_scroll_up (pos 1) two_rows) (
    HasRows two_rows (
      after_up 10 two_rows.scroll_top
        (region_size two_rows)
        (min 1 (region_size two_rows))
        (ensure_row two_rows.cols (pos two_rows.scroll_bot) two_rows.rows)))
do_scroll_up-HasRows_example =
    do_scroll_up-HasRows 10 0 two_rows two_rows-IsValid (omega arith) (omega arith) (pos 1)
      two_rows_scroll

content-write_example :
    (s : Screen) × (write (codes "ok  ") (new_screen (pos 10) (pos 3)) ≡ some s)
    × (content s ≡ trim_right (λ c. c == b' ') (codes "ok  "))
content-write_example =
    content-write (pos 3) 10 (codes "ok  ") (omega arith) (omega arith) (omega arith)
