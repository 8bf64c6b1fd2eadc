-- ===== src/Store/Families.antt =====
-- Files that are named by ids, and what a write to one of them leaves of the others.
use vitis.Prelude.{
  ℕ, false, Option, some, List, [], ◌∷◌, ◌++◌, ◌≡◌, refl, sym, ap, ◌∙◌, inl, inr, arith, Bool-cases,
  subst,
}
use vitis.Text.{Text, equal}
use vitis.Text.Equal.{equal_iff}
use vitis.Store.Disk.{Disk, FilePath, json_tmp, same, same_ext, find, text_of}
use vitis.Store.Records.{Coding, line_of}
use vitis.Store.File.{session_path, turn_path, conversation_path, conversation_turn_path}
use vitis.Store.Changed.{Changed}
use vitis.Store.Kept.{IsLine, Holds, HoldsLog, HoldsLog-append, HoldsLog-same, Holds-same}
use vitis.Store.Spec.{set_at}

-- Files that are named by ids: a family of paths of one kind.
pub record IsFamily (path : Text → FilePath) : Type 0 where
  pub apart : (k id : Text) → equal k id ≡ false → same (path k) (path id) ≡ false
  pub proper : (id : Text) → same_ext (path id).ext json_tmp ≡ false

module _ {A : Type 0} (c : Coding A) (path : Text → FilePath) (family : IsFamily path)
    (d d' : Disk) where
  -- A record that is written under an id.
  pub Holds-set_at :
      (k t : Text) (x : A) (m : Text → Option A)
      → Changed (path k) t d d'
      → c.decode t ≡ some x
      → ((id : Text) → Holds c (path id) d (m id))
      → (id : Text) → Holds c (path id) d' (set_at k (some x) m id)
  Holds-set_at k t x m ch e h id = elim (Bool-cases (equal k id)) [
    | inl y ↦ rw y (t, ap (λ j. find (path j) d'.files) (sym ((equal_iff k id).0 y)) ∙ ch.at, e)
    | inr n ↦ rw n (
        Holds-same c (path id) d d' (m id) (h id)
          (ch.elsewhere (path id) (family.apart k id n) (family.proper id)))
  ]

  pub HoldsLog-set_at :
      (limit : ℕ) (k l : Text) (x : A) (m : Text → List A)
      → Changed (path k) (text_of (find (path k) d.files) ++ line_of l) d d'
      → ((id : Text) → HoldsLog c limit (path id) d (m id))
      → IsLine c limit l x
      → (id : Text) → HoldsLog c limit (path id) d' (set_at k (m k ++ x ∷ []) m id)
  HoldsLog-set_at limit k l x m ch h line id = elim (Bool-cases (equal k id)) [
    | inl y ↦ rw y (
        subst (λ j. HoldsLog c limit (path j) d' (m k ++ x ∷ [])) ((equal_iff k id).0 y)
          (HoldsLog-append c limit (path k) d d' (m k) l x (h k) ch.at line))
    | inr n ↦ rw n (
        HoldsLog-same c limit (path id) d d' (m id) (h id)
          (ch.elsewhere (path id) (family.apart k id n) (family.proper id)))
  ]

  -- A write to another kind of file.
  pub Holds-elsewhere :
      (p : FilePath) (t : Text) (m : Text → Option A)
      → Changed p t d d'
      → ((id : Text) → same p (path id) ≡ false)
      → ((id : Text) → Holds c (path id) d (m id))
      → (id : Text) → Holds c (path id) d' (m id)
  Holds-elsewhere p t m ch other h id =
      Holds-same c (path id) d d' (m id) (h id)
        (ch.elsewhere (path id) (other id) (family.proper id))

  pub HoldsLog-elsewhere :
      (limit : ℕ) (p : FilePath) (t : Text) (m : Text → List A)
      → Changed p t d d'
      → ((id : Text) → same p (path id) ≡ false)
      → ((id : Text) → HoldsLog c limit (path id) d (m id))
      → (id : Text) → HoldsLog c limit (path id) d' (m id)
  HoldsLog-elsewhere limit p t m ch other h id =
      HoldsLog-same c limit (path id) d d' (m id) (h id)
        (ch.elsewhere (path id) (other id) (family.proper id))

pub session_path-IsFamily : IsFamily session_path
session_path-IsFamily = record { apart = λ k id n. rw n refl; proper = λ id. refl }

pub turn_path-IsFamily : IsFamily turn_path
turn_path-IsFamily = record { apart = λ k id n. rw n refl; proper = λ id. refl }

pub conversation_path-IsFamily : IsFamily conversation_path
conversation_path-IsFamily = record { apart = λ k id n. rw n refl; proper = λ id. refl }

pub conversation_turn_path-IsFamily : IsFamily conversation_turn_path
conversation_turn_path-IsFamily = record { apart = λ k id n. rw n refl; proper = λ id. refl }

-- The other extension keeps the two kinds of files of a conversation apart.
pub log_apart : (k id : Text) → same (conversation_path k) (conversation_turn_path id) ≡ false
log_apart k id = ground arith

pub doc_apart : (k id : Text) → same (conversation_turn_path k) (conversation_path id) ≡ false
doc_apart k id = ground arith
