-- ===== src/Text/Positions.antt =====
-- Where a pattern stands in a text: positions, parts and what stands at them.
use vitis.Prelude.{
  ℕ, zero, suc, ◌+◌, ◌≤◌, ◌<◌, ◌-◌, true, List, [], ◌∷◌, ◌++◌, some, ◌≡◌, ◌≢◌, inl, inr, refl, sym,
  ap, subst, ◌∙◌, arith, length, take, drop, get_elem?, length-drop, All, Bool-cases, if◌then◌else◌,
}
use vitis.Text.{Text, has_prefix}
use vitis.Text.Find.{IsAt}

abbrev no_bytes : Text
no_bytes = []

drop-nil : (n : ℕ) → drop n no_bytes ≡ no_bytes
drop-nil zero = refl
drop-nil (suc n) = refl

pub drop-drop : (m n k : ℕ) (t : Text) → k ≡ m + n → drop n (drop m t) ≡ drop k t
drop-drop zero n k t e = ap (λ x. drop x t) (omega arith)
drop-drop (suc m) n k [] e = drop-nil n ∙ sym (drop-nil k)
drop-drop (suc m) n zero (x ∷ t) e = absurd (omega arith)
drop-drop (suc m) n (suc k) (x ∷ t) e = drop-drop m n k t (omega arith)

has_prefix-le : (t p : Text) → has_prefix t p ≡ true → length p ≤ length t
unfolding has_prefix
has_prefix-le t [] h = omega arith
has_prefix-le [] (q ∷ p) h = absurd (cc)
has_prefix-le (c ∷ t) (q ∷ p) h = omega (arith, has_prefix-le t p (ground arith))

pub IsAt-le : (buf marker : Text) (j : ℕ) → IsAt buf j marker → length marker ≤ length buf - j
IsAt-le buf marker j h =
    subst (λ n. length marker ≤ n) (length-drop j buf) (has_prefix-le (drop j buf) marker h)

pub get_elem?-lt : (t : Text) (n : ℕ) → n < length t → (c : ℕ) × (get_elem? t n ≡ some c)
get_elem?-lt [] n h = absurd (omega arith)
get_elem?-lt (c ∷ t) zero h = (c, refl)
get_elem?-lt (c ∷ t) (suc n) h = get_elem?-lt t n (omega arith)

pub get_elem?-has_prefix :
    (t p : Text) (n : ℕ) {c : ℕ}
    → has_prefix t p ≡ true
    → get_elem? p n ≡ some c
    → get_elem? t n ≡ some c
unfolding has_prefix
get_elem?-has_prefix t [] n h g = absurd (cc)
get_elem?-has_prefix [] (q ∷ p) n h g = absurd (cc)
get_elem?-has_prefix (x ∷ t) (q ∷ p) zero h g = ground arith
get_elem?-has_prefix (x ∷ t) (q ∷ p) (suc n) h g = get_elem?-has_prefix t p n (ground arith) g

pub get_elem?-drop : (a n k : ℕ) (t : Text) → k ≡ a + n → get_elem? (drop a t) n ≡ get_elem? t k
get_elem?-drop zero n k t e = ap (get_elem? t) (omega arith)
get_elem?-drop (suc a) n k [] e = refl
get_elem?-drop (suc a) n zero (x ∷ t) e = absurd (omega arith)
get_elem?-drop (suc a) n (suc k) (x ∷ t) e = get_elem?-drop a n k t (omega arith)

pub get_elem?-All :
    (P : ℕ → Type 0) (t : Text) (n : ℕ) {c : ℕ} → All P t → get_elem? t n ≡ some c → P c
get_elem?-All P [] n a g = absurd (cc)
get_elem?-All P (x ∷ t) zero {c} a g = subst P (inside g) a.0
  where
    inside : some x ≡ some c → x ≡ c
    inside h = cc
get_elem?-All P (x ∷ t) (suc n) a g = get_elem?-All P t n a.1 g

pub take-suc :
    (t : Text) (k : ℕ) {c : ℕ} → get_elem? t k ≡ some c → take (suc k) t ≡ take k t ++ c ∷ []
take-suc [] k g = absurd (cc)
take-suc (x ∷ t) zero {c} g = ap (λ y. y ∷ []) (inside g)
  where
    inside : some x ≡ some c → x ≡ c
    inside h = cc
take-suc (x ∷ t) (suc k) g = ap (◌∷◌ x) (take-suc t k g)

pub length_positive : (t : Text) → t ≢ [] → 1 ≤ length t
length_positive [] f = absurd (f refl)
length_positive (c ∷ t) f = omega arith

pub take-append : (a t : Text) → take (length a) (a ++ t) ≡ a
take-append [] t = refl
take-append (c ∷ a) t = ap (◌∷◌ c) (take-append a t)

pub drop-append : (a t : Text) → drop (length a) (a ++ t) ≡ t
drop-append [] t = refl
drop-append (c ∷ a) t = drop-append a t

pub drop-append_le : (i : ℕ) (a t : Text) → i ≤ length a → drop i (a ++ t) ≡ drop i a ++ t
drop-append_le zero a t h = refl
drop-append_le (suc i) [] t h = absurd (omega arith)
drop-append_le (suc i) (c ∷ a) t h = drop-append_le i a t (omega arith)

pub has_prefix_extend : (t u p : Text) → has_prefix t p ≡ true → has_prefix (t ++ u) p ≡ true
unfolding has_prefix
has_prefix_extend t u [] h = has_prefix_nil (t ++ u)
  where
    has_prefix_nil : (x : Text) → has_prefix x [] ≡ true
    has_prefix_nil x = refl
has_prefix_extend [] u (q ∷ p) h = absurd (cc)
has_prefix_extend (c ∷ t) u (q ∷ p) h = ground (arith, has_prefix_extend t u p)

pub has_prefix_rest :
    (t a b : Text) → has_prefix t (a ++ b) ≡ true → has_prefix (drop (length a) t) b ≡ true
unfolding has_prefix
has_prefix_rest t [] b h = h
has_prefix_rest [] (q ∷ a) b h = absurd (cc)
has_prefix_rest (c ∷ t) (q ∷ a) b h = has_prefix_rest t a b (ground arith)

-- The positions, counted from `n`, at which the pattern stands.
unfoldable pub occurrences : ℕ → Text → Text → List ℕ
unfolding has_prefix
occurrences n pat [] = []
occurrences n pat (c ∷ t) =
    let rest = occurrences (suc n) pat t in if has_prefix (c ∷ t) pat then n ∷ rest else rest

pub occurrences-All :
    (P : ℕ → Type 0) (n : ℕ) (pat t : Text) (j : ℕ)
    → pat ≢ []
    → All P (occurrences n pat t)
    → IsAt t j pat
    → P (n + j)
unfolding occurrences has_prefix
occurrences-All P n [] t j f a at = absurd (f refl)
occurrences-All P n (q ∷ pat) [] zero f a at = absurd (cc)
occurrences-All P n (q ∷ pat) [] (suc j) f a at = absurd (cc)
occurrences-All P n (q ∷ pat) (c ∷ t) zero f a at = subst P (omega arith) (rw at at a).0
occurrences-All P n (q ∷ pat) (c ∷ t) (suc j) f a at =
    subst P {x = suc n + j} (omega arith) (occurrences-All P (suc n) (q ∷ pat) t j f tail at)
  where
    tail : All P (occurrences (suc n) (q ∷ pat) t)
    tail = elim (Bool-cases (has_prefix (c ∷ t) (q ∷ pat))) [
      | inl y ↦ (rw y at a).1
      | inr m ↦ rw m at a
    ]
