-- ===== src/Text/Equal.antt =====
-- The Boolean tests on texts, and equality and membership.
use vitis.Prelude.{true, false, List, [], ◌∷◌, ◌≡◌, ◌≢◌, ◌↔◌, inl, inr, refl, arith, Bool-cases}
use vitis.Text.{Text, equal, contains_text, is_empty}

pub equal_iff : (a b : Text) → (equal a b ≡ true) ↔ (a ≡ b)
equal_iff (x ∷ a) (y ∷ b) = ground (arith, equal_iff a b)
equal_iff _ _ = ground arith

pub equal_refl : (a : Text) → equal a a ≡ true
equal_refl a = (equal_iff a a).1 refl

pub equal-false : (a b : Text) → equal a b ≡ false → a ≢ b
equal-false a b h e = ground (arith, equal_iff a b)

pub ne_equal : (a b : Text) → a ≢ b → equal a b ≡ false
ne_equal a b h = ground (arith, equal_iff a b)

pub is_empty_iff : (a : Text) → (is_empty a ≡ true) ↔ (a ≡ [])
is_empty_iff [] = ground arith
is_empty_iff (c ∷ a) = ground arith

-- Membership as a type that can be taken apart.
pub data In (t : Text) : List Text → Type 0 where
  here : {x : Text} {xs : List Text} → x ≡ t → In t (x ∷ xs)
  there : {x : Text} {xs : List Text} → In t xs → In t (x ∷ xs)

pub In-contains_text : (xs : List Text) (t : Text) → contains_text xs t ≡ true → In t xs
In-contains_text [] t h = absurd (cc)
In-contains_text (x ∷ xs) t h = elim (Bool-cases (equal x t)) [
  | inl e ↦ here ((equal_iff x t).0 e)
  | inr n ↦ there (In-contains_text xs t (rw n at h))
]

pub contains_text-In : {t : Text} {xs : List Text} → In t xs → contains_text xs t ≡ true
contains_text-In {t} (here {x} e) = rw ((equal_iff x t).1 e)
contains_text-In {t} (there {x} {xs} m) = ground (arith, contains_text-In m)
