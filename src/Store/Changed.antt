-- ===== src/Store/Changed.antt =====
-- What the writes of the store leave on a disk that denies nothing.
use vitis.Prelude.{true, false, some, ◌++◌, ◌≡◌, refl, ap, ◌∙◌, arith}
use vitis.Text.{Text}
use vitis.Store.Disk.{
  json_tmp, FilePath, Files, Access, Disk, same, same_ext, find, erase, put, write_file,
  rename_file, remove_file, open_append, append_text, text_of, sessions, turns, raw,
}
use vitis.Store.Find.{same_refl, find-erase, find-put}
use vitis.Store.Records.{
  Coding, ok, Done, line_of, written, renamed, write_json_atomic, append_jsonl,
}

-- Nothing is denied, and the directories that `new_store` makes are there.
pub record IsOpen (d : Disk) : Type 0 where
  pub allows : (x : Access) (p : FilePath) → d.denied x p ≡ false
  pub has_sessions : d.made sessions ≡ true
  pub has_turns : d.made turns ≡ true
  pub has_raw : d.made raw ≡ true

-- `path` has the content `t`, no other file is another but temporary ones, and the disk stays open.
pub record Changed (path : FilePath) (t : Text) (d d' : Disk) : Type 0 where
  pub at : find path d'.files ≡ some t
  pub elsewhere :
      (p : FilePath)
      → same path p ≡ false
      → same_ext p.ext json_tmp ≡ false
      → find p d'.files ≡ find p d.files
  pub made_same : d'.made ≡ d.made
  pub denied_same : d'.denied ≡ d.denied

pub Changed-IsOpen :
    (path : FilePath) (t : Text) (d d' : Disk) → Changed path t d d' → IsOpen d → IsOpen d'
Changed-IsOpen path t d d' c o = record {
  allows = λ x p. rw c.denied_same (o.allows x p);
  has_sessions = rw c.made_same o.has_sessions;
  has_turns = rw c.made_same o.has_turns;
  has_raw = rw c.made_same o.has_raw;
}

-- A call ends well and leaves a disk of which `P` holds.
abbrev pub EndsWell : Done → (Disk → Type 0) → Type 0
EndsWell r P = (d' : Disk) × (r ≡ (ok tt, d')) × P d'

abbrev pub tmp_of : FilePath → FilePath
tmp_of path = record path { ext = json_tmp }

tmp_apart : (path p : FilePath) → same_ext p.ext json_tmp ≡ false → same (tmp_of path) p ≡ false
tmp_apart path p h = ground arith

module _ (d : Disk) (allows : (x : Access) (p : FilePath) → d.denied x p ≡ false) where
  write_file_open :
      (p : FilePath) (t : Text)
      → d.made p.dir ≡ true
      → write_file p t d ≡ (true, record d { files = put p t d.files })
  unfolding write_file
  write_file_open p t made = rw (allows, made) refl

  rename_file_open :
      (from to : FilePath) (t : Text)
      → find from d.files ≡ some t
      → rename_file from to d ≡ (true, record d { files = put to t (erase from d.files) })
  unfolding rename_file
  rename_file_open from to t found = rw (allows, found) refl

  remove_file_open : (p : FilePath) → remove_file p d ≡ record d { files = erase p d.files }
  unfolding remove_file
  remove_file_open p = rw allows refl

  open_append_open :
      (p : FilePath)
      → d.made p.dir ≡ true
      → open_append p d ≡ (true, record d { files = put p (text_of (find p d.files)) d.files })
  unfolding open_append
  open_append_open p made = rw (allows, made) refl

  append_text_open :
      (p : FilePath) (t : Text)
      → append_text p t d
        ≡ (true, record d { files = put p (text_of (find p d.files) ++ t) d.files })
  unfolding append_text
  append_text_open p t = rw allows refl

find-put_self : (p : FilePath) (t : Text) (files : Files) → find p (put p t files) ≡ some t
find-put_self p t files = find-put p p t files ∙ rw (same_refl p) refl

find-put_ne :
    (p q : FilePath) (t : Text) (files : Files)
    → same q p ≡ false
    → find p (put q t files) ≡ find p files
find-put_ne p q t files h = find-put p q t files ∙ rw h refl

find-erase_ne :
    (p q : FilePath) (files : Files) → same q p ≡ false → find p (erase q files) ≡ find p files
find-erase_ne p q files h = find-erase p q files ∙ rw h refl

module _ {A : Type 0} (c : Coding A) (path : FilePath) (d : Disk)
    (allows : (x : Access) (p : FilePath) → d.denied x p ≡ false)
    (made : d.made path.dir ≡ true) where
  pub write_json_atomic-Changed :
      (x : A) (t : Text)
      → same_ext path.ext json_tmp ≡ false
      → c.encode_indent x ≡ some t
      → EndsWell (write_json_atomic c path x d) (Changed path t d)
  unfolding write_json_atomic
  write_json_atomic-Changed x t plain e = (
    d3,
    rw e steps,
    record {
      at =
          find-erase_ne path tmp (put path t (erase tmp (put tmp t d.files)))
            (tmp_apart path path plain)
          ∙ find-put_self path t (erase tmp (put tmp t d.files));
      elsewhere = λ p h k.
          find-erase_ne p tmp (put path t (erase tmp (put tmp t d.files))) (tmp_apart path p k)
          ∙ find-put_ne p path t (erase tmp (put tmp t d.files)) h
          ∙ find-erase_ne p tmp (put tmp t d.files) (tmp_apart path p k)
          ∙ find-put_ne p tmp t d.files (tmp_apart path p k);
      made_same = refl;
      denied_same = refl;
    },
  )
    where
      tmp : FilePath
      tmp = record path { ext = json_tmp }

      d1 : Disk
      d1 = record d { files = put tmp t d.files }

      d2 : Disk
      d2 = record d { files = put path t (erase tmp (put tmp t d.files)) }

      d3 : Disk
      d3 = record d { files = erase tmp (put path t (erase tmp (put tmp t d.files))) }

      steps : written tmp path (write_file tmp t d) ≡ (ok tt, d3)
      steps =
          ap (written tmp path) (write_file_open d allows tmp t made)
          ∙ ap (renamed tmp) (rename_file_open d1 allows tmp path t (find-put_self tmp t d.files))
          ∙ ap (λ z. (ok tt, z)) (remove_file_open d2 allows tmp)

  pub append_jsonl-Changed :
      (x : A) (t : Text)
      → c.encode x ≡ some t
      → EndsWell
          (append_jsonl c path x d)
          (Changed path (text_of (find path d.files) ++ line_of t) d)
  unfolding append_jsonl
  append_jsonl-Changed x t e =
      let old = text_of (find path d.files) in
      let d1 : Disk = record d { files = put path old d.files } in
      let found : text_of (find path d1.files) ≡ old =
        ap text_of (find-put_self path old d.files) in
      let d2 : Disk = record d {
        files = put path (text_of (find path d1.files) ++ line_of t) d1.files;
      } in
      (
        d2,
        rw (open_append_open d allows path made, e, append_text_open d1 allows path (line_of t))
            refl,
        record {
          at =
              find-put_self path (text_of (find path d1.files) ++ line_of t) d1.files
              ∙ ap (λ z. some (z ++ line_of t)) found;
          elsewhere = λ p h k.
              find-put_ne p path (text_of (find path d1.files) ++ line_of t) d1.files h
              ∙ find-put_ne p path old d.files h;
          made_same = refl;
          denied_same = refl;
        },
      )
