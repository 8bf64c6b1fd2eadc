-- ===== src/Text/Lines.antt =====
-- Splitting and joining lines.
use vitis.Prelude.{
  ℕ, false, List, [], ◌∷◌, ◌++◌, ◌≡◌, inl, inr, refl, sym, ap, ◌∙◌, arith, All, Bool-cases, ◌==◌,
  ==_iff,
}
use vitis.Text.{Text, split, join, cons_head}

-- No character of the line is the separator.
abbrev pub Free : ℕ → Text → Type 0
Free sep = All (λ c. (c == sep) ≡ false)

cons_head-Free :
    (sep c : ℕ) (ls : List Text)
    → (c == sep) ≡ false
    → All (Free sep) ls
    → All (Free sep) (cons_head c ls)
cons_head-Free sep c [] n h = ((n, tt), tt)
cons_head-Free sep c (l ∷ ls) n h = ((n, h.0), h.1)

pub split-Free : (sep : ℕ) (s : Text) → All (Free sep) (split sep s)
unfolding split
split-Free sep [] = (tt, tt)
split-Free sep (c ∷ cs) = elim (Bool-cases (c == sep)) [
  | inl y ↦ rw y (tt, split-Free sep cs)
  | inr n ↦ rw n (cons_head-Free sep c (split sep cs) n (split-Free sep cs))
]

-- A line with no separator in it, then a separator, then a text.
pub split-line : (sep : ℕ) (l s : Text) → Free sep l → split sep (l ++ (sep ∷ s)) ≡ l ∷ split sep s
unfolding split
split-line sep [] s h = ground arith
split-line sep (c ∷ l) s h = rw h.0 (ap (cons_head c) (split-line sep l s h.1))

pub split-last : (sep : ℕ) (l : Text) → Free sep l → split sep l ≡ l ∷ []
unfolding split
split-last sep [] h = refl
split-last sep (c ∷ l) h = rw h.0 (ap (cons_head c) (split-last sep l h.1))

pub split-join :
    (sep : ℕ) (l : Text) (ls : List Text)
    → All (Free sep) (l ∷ ls)
    → split sep (join sep (l ∷ ls)) ≡ l ∷ ls
unfolding join
split-join sep l [] h = split-last sep l h.0
split-join sep l (m ∷ ls) h =
    split-line sep l (join sep (m ∷ ls)) h.0 ∙ ap (◌∷◌ l) (split-join sep m ls h.1)

join-cons_head :
    (sep c : ℕ) (l : Text) (ls : List Text)
    → join sep (cons_head c (l ∷ ls)) ≡ c ∷ join sep (l ∷ ls)
unfolding join
join-cons_head sep c l [] = refl
join-cons_head sep c l (m ∷ ls) = refl

join-nil : (sep : ℕ) (l : Text) (ls : List Text) → join sep ([] ∷ l ∷ ls) ≡ sep ∷ join sep (l ∷ ls)
unfolding join
join-nil sep l ls = refl

join_one : (sep : ℕ) (l : Text) → join sep (l ∷ []) ≡ l
unfolding join
join_one sep l = refl

-- A text splits into at least one line.
pub split-cons : (sep : ℕ) (s : Text) → (l : Text) × (ls : List Text) × (split sep s ≡ l ∷ ls)
unfolding split
split-cons sep [] = ([], [], refl)
split-cons sep (c ∷ cs) = elim (Bool-cases (c == sep)) [
  | inl y ↦ ([], split sep cs, rw y)
  | inr n ↦ let (l, ls, e) = split-cons sep cs in (c ∷ l, ls, rw n (ap (cons_head c) e))
]

pub join-split : (sep : ℕ) (s : Text) → join sep (split sep s) ≡ s
unfolding split
join-split sep [] = join_one sep []
join-split sep (c ∷ cs) =
    let (l, ls, e) = split-cons sep cs in
    let rest = ap (join sep) (sym e) ∙ join-split sep cs in
    elim (Bool-cases (c == sep)) [
      | inl y ↦ rw (y, e) (join-nil sep l ls ∙ ap (◌∷◌ sep) rest ∙ ground (arith, ==_iff c sep))
      | inr n ↦ rw (n, e) (join-cons_head sep c l ls ∙ ap (◌∷◌ c) rest)
    ]
