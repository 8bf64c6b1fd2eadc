-- ===== src/Store/Limits.antt =====
-- A line that the scanner does not take.
use vitis.Prelude.{
  ℕ, ◌≤◌, ◌≡◌, refl, ap, ◌∙◌, sym, false, some, List, [], ◌∷◌, ◌++◌, append-nil, append_assoc, ℤ,
  length, leb, le→leb, arith,
}
use vitis.Text.{Text}
use vitis.Text.Lines.{Free}
use vitis.Model.Session.{SessionTurn}
use vitis.Store.Disk.{Disk, read_file}
use vitis.Store.Lines.{lines_of}
use vitis.Store.Records.{Coding, ok, err, scan_failed, line_of, scan_lines, peek_jsonl}
use vitis.Store.File.{Store, turn_path, append_turn, peek_turns, default_line_limit}
use vitis.Store.Changed.{IsOpen, append_jsonl-Changed}
use vitis.Store.Kept.{HoldsLog, AreLines, log_text, lines_of-line_of}

module _ {A : Type 0} (c : Coding A) (limit : ℕ) where
  -- Lines that scan, and one that is too long.
  scan_lines_too_long :
      (ls : List Text) (xs : List A) (l : Text)
      → AreLines c limit ls xs
      → limit ≤ length l
      → scan_lines c limit (ls ++ l ∷ []) ≡ err scan_failed
  unfolding scan_lines
  scan_lines_too_long [] xs l h long = rw (le→leb limit (length l) long) refl
  scan_lines_too_long (m ∷ ls) [] l h long = absurd h
  scan_lines_too_long (m ∷ ls) (x ∷ xs) l h long =
      let short : leb limit (length m) ≡ false = ground arith in
      rw (short, h.0.2, scan_lines_too_long ls xs l h.1 long) refl

  lines_of_too_long :
      (ls : List Text) (xs : List A) (l : Text)
      → AreLines c limit ls xs
      → Free 10 l
      → lines_of (log_text ls ++ line_of l) ≡ ls ++ l ∷ []
  unfolding lines_of
  lines_of_too_long [] xs l h free =
      ap lines_of (sym (append-nil (line_of l))) ∙ lines_of-line_of l [] free
  lines_of_too_long (m ∷ ls) [] l h free = absurd h
  lines_of_too_long (m ∷ ls) (x ∷ xs) l h free =
      ap lines_of (append_assoc (line_of m) (log_text ls) (line_of l))
      ∙ lines_of-line_of m (log_text ls ++ line_of l) h.0.0
      ∙ ap (◌∷◌ m) (lines_of_too_long ls xs l h.1 free)

-- On a disk that denies nothing, `append_turn` accepts a turn whose line has 65536 bytes or more, and
-- then, whatever turns the session had, every peek of its turns is the scanner's error.
pub peek_turns_too_long :
    (store : Store) (d : Disk) (t : SessionTurn) (xs : List SessionTurn) (l : Text) (n : ℤ)
    → IsOpen d
    → HoldsLog store.turn default_line_limit (turn_path t.session_id) d xs
    → store.turn.encode t ≡ some l
    → Free 10 l
    → default_line_limit ≤ length l
    → (d' : Disk) × (append_turn store t d ≡ (ok tt, d'))
      × (peek_turns store t.session_id n d' ≡ err scan_failed)
unfolding append_turn peek_turns peek_jsonl read_file
peek_turns_too_long store d t xs l n o (ls, e, h) coded free long =
    let path = turn_path t.session_id in
    let (d', ends, ch) = append_jsonl-Changed store.turn path d o.allows o.has_turns t l coded in
    (
      d',
      ends,
      rw
          (
            ch.denied_same,
            o.allows,
            ch.at,
            e,
            lines_of_too_long store.turn default_line_limit ls xs l h free,
            scan_lines_too_long store.turn default_line_limit ls xs l h long,
          )
          refl,
    )
