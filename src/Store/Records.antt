-- ===== src/Store/Records.antt =====
-- internal/store/file: the parts that sessions and conversations share. JSON is a parameter, a
-- coding of each type of record; `none` is an error of the package.
use vitis.Prelude.{
  ℕ, Bool, true, false, ◌&&◌, Option, none, some, List, [], ◌∷◌, ◌++◌, ℤ, pos, pos_part, length,
  drop, leb, ltb, ltb_ℤ, ◌-◌, if◌then◌else◌,
}
use vitis.Text.{Text}
use vitis.Store.Disk.{
  Disk, FilePath, json_tmp, Opened, absent, failed, content, read_file, write_file, rename_file,
  remove_file, open_append, append_text,
}
use vitis.Store.Lines.{lines_of, drop_cr}

pub data StoreError : Type 0 where
  missing_log_path mkdir_failed read_failed unmarshal_failed marshal_failed temp_failed : StoreError
  rename_failed open_failed append_failed decode_failed scan_failed list_failed : StoreError

pub data Result {ℓ} (A : Type ℓ) : Type ℓ where
  ok : A → Result A
  err : StoreError → Result A

-- `json.Marshal`, `json.MarshalIndent` and `json.Unmarshal` at a type.
pub record Coding (A : Type 0) : Type 0 where
  pub encode : A → Option Text
  pub encode_indent : A → Option Text
  pub decode : Text → Option A

abbrev pub Done : Type 0
Done = Result (Unit {0}) × Disk

-- The outcome of the rename, after which the temporary file is removed in any case.
abbrev pub renamed : FilePath → Bool × Disk → Done
renamed tmp (true, d) = (ok tt, remove_file tmp d)
renamed tmp (false, d) = (err rename_failed, remove_file tmp d)

abbrev pub written : FilePath → FilePath → Bool × Disk → Done
written tmp path (true, d) = renamed tmp (rename_file tmp path d)
written tmp path (false, d) = (err temp_failed, d)

abbrev appended : Bool × Disk → Done
appended (true, d) = (ok tt, d)
appended (false, d) = (err append_failed, d)

abbrev pub line_of : Text → Text
line_of t = t ++ 10 ∷ []

module _ {A : Type 0} (c : Coding A) where
  abbrev write_encoded : FilePath → Option Text → Disk → Done
  write_encoded path none d = (err marshal_failed, d)
  write_encoded path (some t) d =
      let tmp = record path { ext = json_tmp } in written tmp path (write_file tmp t d)

  -- `writeJSONAtomic`
  unfoldable pub write_json_atomic : FilePath → A → Disk → Done
  unfolding write_file rename_file remove_file
  write_json_atomic path value d = write_encoded path (c.encode_indent value) d

  abbrev decoded_or : StoreError → Option A → Result A
  decoded_or e none = err e
  decoded_or e (some a) = ok a

  abbrev read_opened : Opened → Result A
  read_opened absent = err read_failed
  read_opened failed = err read_failed
  read_opened (content t) = decoded_or unmarshal_failed (c.decode t)

  -- `readJSON`
  unfoldable pub read_json : FilePath → Disk → Result A
  unfolding read_file
  read_json path d = read_opened (read_file path d)

  abbrev append_encoded : FilePath → Option Text → Disk → Done
  append_encoded path none d = (err marshal_failed, d)
  append_encoded path (some t) d = appended (append_text path (line_of t) d)

  abbrev append_opened : FilePath → A → Bool × Disk → Done
  append_opened path value (false, d) = (err open_failed, d)
  append_opened path value (true, d) = append_encoded path (c.encode value) d

  -- `appendJSONL`
  unfoldable pub append_jsonl : FilePath → A → Disk → Done
  unfolding open_append append_text
  append_jsonl path value d = append_opened path value (open_append path d)

  abbrev rewritten : FilePath → (A → A) → Result A → Disk → Done
  rewritten path change (err e) d = (err e, d)
  rewritten path change (ok a) d = write_json_atomic path (change a) d

  -- A record is read, changed and written back.
  unfoldable pub update_json : FilePath → (A → A) → Disk → Done
  unfolding read_json write_json_atomic
  update_json path change d = rewritten path change (read_json path d) d

  abbrev cons_result : A → Result (List A) → Result (List A)
  cons_result a (ok as') = ok (a ∷ as')
  cons_result a (err e) = err e

  abbrev decode_next : Option A → Result (List A) → Result (List A)
  decode_next none rest = err decode_failed
  decode_next (some a) rest = cons_result a rest

  -- The loop over the lines of a scanner that takes lines shorter than `limit` bytes.
  unfoldable pub scan_lines : ℕ → List Text → Result (List A)
  unfolding drop_cr
  scan_lines limit [] = ok []
  scan_lines limit (l ∷ ls) =
      let rest = scan_lines limit ls in
      if leb limit (length l) then err scan_failed else decode_next (c.decode (drop_cr l)) rest

  module _ (index : A → ℤ) where
    unfoldable pub insert_by_index : A → List A → List A
    insert_by_index x [] = x ∷ []
    insert_by_index x (y ∷ ys) =
        let later = insert_by_index x ys in
        if ltb_ℤ (index x) (index y) then x ∷ y ∷ ys else y ∷ later

    -- `sort.Slice` by the index, which says nothing of the order of equal ones; here the later of
    -- two comes later.
    unfoldable pub sort_onto : List A → List A → List A
    unfolding insert_by_index
    sort_onto sorted [] = sorted
    sort_onto sorted (x ∷ xs) = sort_onto (insert_by_index x sorted) xs

    -- `turns[len(turns)-lastN:]`
    unfoldable pub last_of : ℤ → List A → List A
    last_of n l =
        if ltb_ℤ (pos 0) n && ltb (pos_part n) (length l) then drop (length l - pos_part n) l else l

    abbrev pub sorted_last : ℤ → Result (List A) → Result (List A)
    sorted_last n (err e) = err e
    sorted_last n (ok l) = ok (last_of n (sort_onto [] l))

    abbrev pub peek_opened : ℕ → ℤ → Opened → Result (List A)
    peek_opened limit n absent = ok []
    peek_opened limit n failed = err open_failed
    peek_opened limit n (content t) = sorted_last n (scan_lines limit (lines_of t))

    -- The turns of a file, at most the last `n` by index.
    unfoldable pub peek_jsonl : ℕ → ℤ → FilePath → Disk → Result (List A)
    unfolding read_file lines_of scan_lines sort_onto last_of
    peek_jsonl limit n path d = peek_opened limit n (read_file path d)

  abbrev or_absent : Opened → Result (Option A)
  or_absent absent = ok none
  or_absent failed = err read_failed
  or_absent (content t) = elim (c.decode t) [ none ↦ err unmarshal_failed | some a ↦ ok (some a) ]

  -- `GetSession`, `GetConversation`
  unfoldable pub get_json : FilePath → Disk → Result (Option A)
  unfolding read_file
  get_json path d = or_absent (read_file path d)
