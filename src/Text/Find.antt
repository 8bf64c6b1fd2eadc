-- ===== src/Text/Find.antt =====
-- What `strings.Index` finds.
use vitis.Prelude.{
  true-ne-false, ℕ, zero, suc, ◌≤◌, ◌<◌, true, false, [], ◌∷◌, ◌++◌, none, some, ◌≡◌, inl, inr,
  refl, sym, subst, ◌∙◌, arith, length, drop, Bool-cases, Option-cases,
}
use vitis.Text.{Text, index, contains, has_prefix}
use vitis.Text.Trim.{has_prefix-append}

-- The pattern stands at position `i`.
abbrev pub IsAt : Text → ℕ → Text → Type 0
IsAt t i pat = has_prefix (drop i t) pat ≡ true

index-step :
    (c : ℕ) (t pat : Text) {i : ℕ}
    → has_prefix (c ∷ t) pat ≡ false
    → index (c ∷ t) pat ≡ some i
    → (j : ℕ) × (i ≡ suc j) × (index t pat ≡ some j)
unfolding index
index-step c t pat n h = elim (Option-cases (index t pat)) [
  | inl e ↦ absurd (cc (rw (n, index) at h, e))
  | inr (j, e) ↦ (j, ground arith, e)
]

index-head :
    (c : ℕ) (t pat : Text) {i : ℕ}
    → has_prefix (c ∷ t) pat ≡ true
    → index (c ∷ t) pat ≡ some i
    → 0 ≡ i
unfolding index
index-head c t pat y h = cc (rw y at h)

index-nil : (pat : Text) {i : ℕ} → index [] pat ≡ some i → (pat ≡ []) × (0 ≡ i)
unfolding index
index-nil [] h = (refl, cc)
index-nil (p ∷ ps) h = absurd (cc)

-- The position found holds the pattern.
pub index-IsAt : (t pat : Text) {i : ℕ} → index t pat ≡ some i → IsAt t i pat
unfolding has_prefix
index-IsAt [] pat h =
    let (e, z) = index-nil pat h in
    subst (λ k. IsAt [] k pat) z (subst (λ p. IsAt [] 0 p) (sym e) refl)
index-IsAt (c ∷ t) pat h = elim (Bool-cases (has_prefix (c ∷ t) pat)) [
  | inl y ↦ subst (λ k. IsAt (c ∷ t) k pat) (index-head c t pat y h) y
  | inr n ↦
      let (j, e, f) = index-step c t pat n h in
      subst (λ k. IsAt (c ∷ t) k pat) (sym e) (index-IsAt t pat f)
]

-- No earlier position does.
pub index-first :
    (t pat : Text) {i : ℕ} (j : ℕ)
    → index t pat ≡ some i
    → j < i
    → has_prefix (drop j t) pat ≡ false
index-first [] pat {i} j h l = absurd (omega (arith, (index-nil pat h).1))
index-first (c ∷ t) pat {i} zero h l = elim (Bool-cases (has_prefix (c ∷ t) pat)) [
  | inl y ↦ absurd (omega (arith, index-head c t pat y h))
  | inr n ↦ n
]
index-first (c ∷ t) pat {i} (suc j) h l = elim (Bool-cases (has_prefix (c ∷ t) pat)) [
  | inl y ↦ absurd (omega (arith, index-head c t pat y h))
  | inr n ↦ let (k, e, f) = index-step c t pat n h in index-first t pat j f (omega arith)
]

index-none_tail : (c : ℕ) (t pat : Text) → index (c ∷ t) pat ≡ none → index t pat ≡ none
unfolding index
index-none_tail c t pat h = ground arith

-- Where nothing is found, no position holds the pattern.
pub index-none :
    (t pat : Text) (j : ℕ) → index t pat ≡ none → j ≤ length t → has_prefix (drop j t) pat ≡ false
unfolding index has_prefix
index-none [] [] j h l = absurd (cc)
index-none [] (p ∷ ps) zero h l = refl
index-none [] (p ∷ ps) (suc j) h l = refl
index-none (c ∷ t) pat zero h l = elim (Bool-cases (has_prefix (c ∷ t) pat)) [
  | inl y ↦ absurd (cc (rw y at h))
  | inr n ↦ n
]
index-none (c ∷ t) pat (suc j) h l = index-none t pat j (index-none_tail c t pat h) (omega arith)

drop-append : (a t : Text) → drop (length a) (a ++ t) ≡ t
drop-append [] t = refl
drop-append (x ∷ a) t = drop-append a t

length-le_append : (a t : Text) → length a ≤ length (a ++ t)
length-le_append [] t = omega arith
length-le_append (x ∷ a) t = omega (arith, length-le_append a t)

-- A text contains what stands in its middle.
pub contains-middle : (a pat b : Text) → contains (a ++ (pat ++ b)) pat ≡ true
unfolding contains
contains-middle a pat b = elim (Option-cases (index (a ++ (pat ++ b)) pat)) [
  | inr (i, e) ↦ rw (e, contains)
  | inl e ↦ absurd (
      true-ne-false (
        sym (has_prefix-append pat b)
        ∙ subst (λ t. has_prefix t pat ≡ false) (drop-append a (pat ++ b))
            (index-none (a ++ (pat ++ b)) pat (length a) e (length-le_append a (pat ++ b)))))
]
