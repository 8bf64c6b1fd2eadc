-- ===== src/Store/Find.antt =====
-- What is found in the files after a write, a rename and a removal.
use vitis.Prelude.{
  Bool, true, false, none, some, [], ◌∷◌, ◌≡◌, refl, sym, ap, ◌∙◌, ◌↔◌, inl, inr, arith, Bool-cases,
  if◌then◌else◌,
}
use vitis.Text.{Text}
use vitis.Text.Equal.{equal_iff}
use vitis.Store.Disk.{
  Dir, sessions, turns, raw, conversations, Ext, json, json_tmp, jsonl, FilePath, Files, same,
  same_dir, same_ext, find, erase, put,
}

same_dir_iff : (a b : Dir) → (same_dir a b ≡ true) ↔ (a ≡ b)
same_dir_iff sessions b = ground arith
same_dir_iff turns b = ground arith
same_dir_iff raw b = ground arith
same_dir_iff conversations b = ground arith

same_ext_iff : (a b : Ext) → (same_ext a b ≡ true) ↔ (a ≡ b)
same_ext_iff json b = ground arith
same_ext_iff json_tmp b = ground arith
same_ext_iff jsonl b = ground arith

pub same_iff : (p q : FilePath) → (same p q ≡ true) ↔ (p ≡ q)
same_iff p q =
    ground (arith, same_dir_iff p.dir q.dir, equal_iff p.id q.id, same_ext_iff p.ext q.ext)

pub same_refl : (p : FilePath) → same p p ≡ true
same_refl p = (same_iff p p).1 refl

same_left : (r q p : FilePath) → same r q ≡ true → same r p ≡ same q p
same_left r q p h = ap (λ x. same x p) ((same_iff r q).0 h)

same_right : (r q p : FilePath) → same r p ≡ true → same q p ≡ true → same r q ≡ true
same_right r q p h k = (same_iff r q).1 ((same_iff r p).0 h ∙ sym ((same_iff q p).0 k))

find-skip :
    (p r : FilePath) (t : Text) (files : Files)
    → find p ((r, t) ∷ files) ≡ (if same r p then some t else find p files)
unfolding find
find-skip p r t files = refl

-- One entry, by the three tests on its path.
erase_one :
    (p q r : FilePath) (t : Text) (files : Files)
    → find p (erase q files) ≡ (if same q p then none else find p files)
    → (rq qp rp : Bool) → same r q ≡ rq
    → same q p ≡ qp
    → same r p ≡ rp
    → find p (if same r q then erase q files else (r, t) ∷ erase q files)
      ≡ (if same q p then none else (if same r p then some t else find p files))
erase_one p q r t files ih true true rp e f g = rw (e, f) (ih ∙ rw f refl)
erase_one p q r t files ih true false true e f g = absurd (cc (same_left r q p e))
erase_one p q r t files ih true false false e f g = rw (e, f, g) (ih ∙ rw f refl)
erase_one p q r t files ih false true true e f g = absurd (cc (same_right r q p g f))
erase_one p q r t files ih false true false e f g =
    rw (e, f) (find-skip p r t (erase q files) ∙ rw g (ih ∙ rw f refl))
erase_one p q r t files ih false false true e f g =
    rw (e, f) (find-skip p r t (erase q files) ∙ rw g refl)
erase_one p q r t files ih false false false e f g =
    rw (e, f) (find-skip p r t (erase q files) ∙ rw g (ih ∙ rw f refl))

pub find-erase :
    (p q : FilePath) (files : Files)
    → find p (erase q files) ≡ (if same q p then none else find p files)
unfolding find erase
find-erase p q [] = elim (Bool-cases (same q p)) [ inl e ↦ rw e refl | inr e ↦ rw e refl ]
find-erase p q ((r, t) ∷ files) =
    erase_one p q r t files (find-erase p q files) (same r q) (same q p) (same r p) refl refl refl

pub find-put :
    (p q : FilePath) (t : Text) (files : Files)
    → find p (put q t files) ≡ (if same q p then some t else find p files)
unfolding put
find-put p q t files = find-skip p q t (erase q files) ∙ elim (Bool-cases (same q p)) [
  | inl e ↦ rw e refl
  | inr e ↦ rw e (find-erase p q files ∙ rw e refl)
]
