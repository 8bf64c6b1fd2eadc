-- ===== src/Text/Trim.antt =====
-- What trimming and prefix tests do to a text.
use vitis.Prelude.{
  ℕ, Bool, true, false, [], ◌∷◌, ◌++◌, ◌≡◌, inl, inr, refl, ap, arith, drop, length, All,
  Bool-cases,
}
use vitis.Text.{Text, is_space, trim_left, trim_right, trim_space, has_prefix}

abbrev pub AllCut : (ℕ → Bool) → Text → Type 0
AllCut cut = All (λ c. cut c ≡ true)

-- A text does not start with a character of the cut set.
abbrev pub Starts : (ℕ → Bool) → Text → Type 0
Starts cut [] = Unit
Starts cut (c ∷ _) = cut c ≡ false

module _ (cut : ℕ → Bool) where
  pub trim_left-splits : (t : Text) → (ws : Text) × AllCut cut ws × (t ≡ ws ++ trim_left cut t)
  unfolding trim_left
  trim_left-splits [] = ([], tt, refl)
  trim_left-splits (c ∷ cs) = elim (Bool-cases (cut c)) [
    | inl y ↦ let (ws, all, e) = trim_left-splits cs in (c ∷ ws, (y, all), rw y (ap (◌∷◌ c) e))
    | inr n ↦ ([], tt, rw n)
  ]

  pub trim_left-append : (ws t : Text) → AllCut cut ws → trim_left cut (ws ++ t) ≡ trim_left cut t
  unfolding trim_left
  trim_left-append [] t h = refl
  trim_left-append (c ∷ ws) t h = rw h.0 (trim_left-append ws t h.1)

  pub trim_left-Starts : (t : Text) → Starts cut t → trim_left cut t ≡ t
  unfolding trim_left
  trim_left-Starts [] h = refl
  trim_left-Starts (c ∷ t) h = rw h

  -- One more character of the cut set at the end changes nothing.
  pub trim_right-concat :
      (t : Text) (c : ℕ) → cut c ≡ true → trim_right cut (t ++ c ∷ []) ≡ trim_right cut t
  unfolding trim_right
  trim_right-concat [] c h = rw h
  trim_right-concat (x ∷ t) c h = rw (trim_right-concat t c h)

  pub trim_right_idem : (t : Text) → trim_right cut (trim_right cut t) ≡ trim_right cut t
  unfolding trim_right
  trim_right_idem [] = refl
  trim_right_idem (c ∷ t) = ground (arith, trim_right_idem t)

pub trim_both-concat :
    (cut : ℕ → Bool) (t : Text) (c : ℕ)
    → cut c ≡ true
    → trim_right cut (trim_left cut (t ++ c ∷ [])) ≡ trim_right cut (trim_left cut t)
unfolding trim_left trim_right
trim_both-concat cut [] c h = rw h
trim_both-concat cut (x ∷ t) c h = elim (Bool-cases (cut x)) [
  | inl y ↦ rw y (trim_both-concat cut t c h)
  | inr n ↦ rw n (trim_right-concat cut (x ∷ t) c h)
]

pub trim_space-concat :
    (t : Text) (c : ℕ) → is_space c ≡ true → trim_space (t ++ c ∷ []) ≡ trim_space t
unfolding trim_space
trim_space-concat = trim_both-concat is_space

pub has_prefix-drop : (t p : Text) → has_prefix t p ≡ true → t ≡ p ++ drop (length p) t
unfolding has_prefix
has_prefix-drop t [] h = refl
has_prefix-drop [] (q ∷ p) h = absurd (cc)
has_prefix-drop (c ∷ t) (q ∷ p) h = ground (arith, has_prefix-drop t p)

pub has_prefix-append : (p t : Text) → has_prefix (p ++ t) p ≡ true
unfolding has_prefix
has_prefix-append [] t = ground arith
has_prefix-append (q ∷ p) t = ground (arith, has_prefix-append p t)
