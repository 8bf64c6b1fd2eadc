-- ===== src/Store/Kept.antt =====
-- What a file holds: a record, or the lines of a log.
use vitis.Prelude.{
  ℕ, false, Option, none, some, List, [], ◌∷◌, ◌++◌, append_assoc, append-nil, ◌≡◌, refl, sym, ap,
  ◌∙◌, arith, ℤ, length, leb, ◌<◌,
}
use vitis.Text.{Text, cons_head}
use vitis.Text.Lines.{Free}
use vitis.Store.Disk.{Access, FilePath, Disk, find, text_of, opened, read_file}
use vitis.Store.Lines.{lines_of, drop_cr}
use vitis.Store.Records.{
  Coding, ok, err, line_of, read_json, get_json, scan_lines, peek_jsonl, peek_opened, sorted_last,
  sort_onto, last_of, read_failed,
}

-- The record that a file holds; no file holds none.
abbrev pub Holds : {A : Type 0} → Coding A → FilePath → Disk → Option A → Type 0
Holds c path d none = find path d.files ≡ none
Holds c path d (some x) = (t : Text) × (find path d.files ≡ some t) × (c.decode t ≡ some x)

-- A line that scans, below the limit, to the record.
abbrev pub IsLine : {A : Type 0} → Coding A → ℕ → Text → A → Type 0
IsLine c limit l x = Free 10 l × (length l < limit) × (c.decode (drop_cr l) ≡ some x)

abbrev pub AreLines : {A : Type 0} → Coding A → ℕ → List Text → List A → Type 0
AreLines c limit [] [] = Unit {0}
AreLines c limit (l ∷ ls) (x ∷ xs) = IsLine c limit l x × AreLines c limit ls xs
AreLines c limit _ _ = ⊥

abbrev pub log_text : List Text → Text
log_text [] = []
log_text (l ∷ ls) = line_of l ++ log_text ls

-- The log of a file; no file is an empty log.
abbrev pub HoldsLog : {A : Type 0} → Coding A → ℕ → FilePath → Disk → List A → Type 0
HoldsLog c limit path d xs =
    (ls : List Text) × (text_of (find path d.files) ≡ log_text ls) × AreLines c limit ls xs

pub lines_of-line_of :
    (l rest : Text) → Free 10 l → lines_of (line_of l ++ rest) ≡ l ∷ lines_of rest
unfolding lines_of
lines_of-line_of [] rest free = refl
lines_of-line_of (c ∷ l) rest free = rw free.0 (ap (cons_head c) (lines_of-line_of l rest free.1))

log_text-append : (ls : List Text) (l : Text) → log_text (ls ++ l ∷ []) ≡ log_text ls ++ line_of l
log_text-append [] l = append-nil (line_of l)
log_text-append (k ∷ ls) l =
    ap (◌++◌ (line_of k)) (log_text-append ls l)
    ∙ sym (append_assoc (line_of k) (log_text ls) (line_of l))

module _ {A : Type 0} (c : Coding A) (limit : ℕ) where
  lines_of-log_text :
      (ls : List Text) (xs : List A) → AreLines c limit ls xs → lines_of (log_text ls) ≡ ls
  unfolding lines_of
  lines_of-log_text [] [] h = refl
  lines_of-log_text [] (x ∷ xs) h = absurd h
  lines_of-log_text (l ∷ ls) [] h = absurd h
  lines_of-log_text (l ∷ ls) (x ∷ xs) h =
      lines_of-line_of l (log_text ls) h.0.0 ∙ ap (◌∷◌ l) (lines_of-log_text ls xs h.1)

  scan_lines-AreLines :
      (ls : List Text) (xs : List A) → AreLines c limit ls xs → scan_lines c limit ls ≡ ok xs
  unfolding scan_lines
  scan_lines-AreLines [] [] h = refl
  scan_lines-AreLines [] (x ∷ xs) h = absurd h
  scan_lines-AreLines (l ∷ ls) [] h = absurd h
  scan_lines-AreLines (l ∷ ls) (x ∷ xs) h =
      let short : leb limit (length l) ≡ false = ground arith in
      rw (short, h.0.2, scan_lines-AreLines ls xs h.1) refl

  AreLines-append :
      (ls : List Text) (xs : List A) (l : Text) (x : A)
      → AreLines c limit ls xs
      → IsLine c limit l x
      → AreLines c limit (ls ++ l ∷ []) (xs ++ x ∷ [])
  AreLines-append [] [] l x h k = (k, tt)
  AreLines-append [] (y ∷ ys) l x h k = absurd h
  AreLines-append (m ∷ ls) [] l x h k = absurd h
  AreLines-append (m ∷ ls) (y ∷ ys) l x h k = (h.0, AreLines-append ls ys l x h.1 k)

  -- A log with one more line.
  pub HoldsLog-append :
      (path : FilePath) (d d' : Disk) (xs : List A) (l : Text) (x : A)
      → HoldsLog c limit path d xs
      → find path d'.files ≡ some (text_of (find path d.files) ++ line_of l)
      → IsLine c limit l x
      → HoldsLog c limit path d' (xs ++ x ∷ [])
  HoldsLog-append path d d' xs l x (ls, e, h) found k = (
    ls ++ l ∷ [],
    ap text_of found ∙ ap (λ z. z ++ line_of l) e ∙ sym (log_text-append ls l),
    AreLines-append ls xs l x h k,
  )

  pub HoldsLog-same :
      (path : FilePath) (d d' : Disk) (xs : List A)
      → HoldsLog c limit path d xs
      → find path d'.files ≡ find path d.files
      → HoldsLog c limit path d' xs
  HoldsLog-same path d d' xs (ls, e, h) found = (ls, ap text_of found ∙ e, h)

  module _ (index : A → ℤ) (n : ℤ) where
    last_of-nil : last_of c index n [] ≡ []
    unfolding last_of
    last_of-nil = ground arith

    peek_opened-text :
        (o : Option Text)
        → peek_opened c index limit n (opened o)
          ≡ sorted_last c index n (scan_lines c limit (lines_of (text_of o)))
    peek_opened-text none =
        unfold lines_of scan_lines sort_onto in ap (λ (l : List A). ok l) (sym last_of-nil)
    peek_opened-text (some t) = refl

  module _ (path : FilePath) (d : Disk)
      (allows : (x : Access) (p : FilePath) → d.denied x p ≡ false) where
    -- What is peeked of a log.
    pub peek_jsonl-HoldsLog :
        (index : A → ℤ) (n : ℤ) (xs : List A)
        → HoldsLog c limit path d xs
        → peek_jsonl c index limit n path d ≡ ok (last_of c index n (sort_onto c index [] xs))
    unfolding peek_jsonl read_file
    peek_jsonl-HoldsLog index n xs (ls, e, k) = rw allows (
        peek_opened-text index n (find path d.files)
        ∙ ap (λ t. sorted_last c index n (scan_lines c limit (lines_of t))) e
        ∙ ap (λ l. sorted_last c index n (scan_lines c limit l)) (lines_of-log_text ls xs k)
        ∙ ap (sorted_last c index n) (scan_lines-AreLines ls xs k))

module _ {A : Type 0} (c : Coding A) (path : FilePath) where
  pub Holds-same :
      (d d' : Disk) (o : Option A)
      → Holds c path d o
      → find path d'.files ≡ find path d.files
      → Holds c path d' o
  Holds-same d d' none h found = found ∙ h
  Holds-same d d' (some x) (t, e, k) found = (t, found ∙ e, k)

  module _ (d : Disk) (allows : (x : Access) (p : FilePath) → d.denied x p ≡ false) where
    pub get_json-Holds : (o : Option A) → Holds c path d o → get_json c path d ≡ ok o
    unfolding get_json read_file
    get_json-Holds none h = rw (allows, h) refl
    get_json-Holds (some x) (t, e, k) = rw (allows, e, k) refl

    pub read_json-none : Holds c path d none → read_json c path d ≡ err read_failed
    unfolding read_json read_file
    read_json-none h = rw (allows, h) refl

    pub read_json-some : (x : A) → Holds c path d (some x) → read_json c path d ≡ ok x
    unfolding read_json read_file
    read_json-some x (t, e, k) = rw (allows, e, k) refl
