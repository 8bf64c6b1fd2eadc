-- ===== src/Cli/Fuel.antt =====
-- converse_npeer.go: the fuel of `pairs_from` against the length of the text.
use vitis.Prelude.{
  ℕ, zero, suc, ◌-◌, ◌≤◌, ◌<◌, Bool, ◌||◌, List, [], ◌∷◌, Option, none, some, ◌⊎◌, inl, inr, ◌≡◌,
  refl, ap, ◌==◌, if◌then◌else◌, length, Bool-cases, arith,
}
use vitis.Text.{Text, is_empty, trim_left, trim_space}
use vitis.Cli.Pairs.{
  KvPair, KvError, empty_key, expected_equals, is_skipped, read_key, read_bareword, read_quoted,
  read_value, prepend, put, is_escape, after_value, with_value, with_key, next_pair, pairs_from,
}

length-trim_left : (cut : ℕ → Bool) (t : Text) → length (trim_left cut t) ≤ length t
unfolding trim_left
length-trim_left cut [] = omega arith
length-trim_left cut (c ∷ t) = elim (Bool-cases (cut c)) [
  | inl y ↦ rw y (omega (arith, length-trim_left cut t))
  | inr n ↦ rw n (omega arith)
]

length-read_key : (t : Text) → length (read_key t).1 ≤ length t
unfolding read_key
length-read_key [] = omega arith
length-read_key (c ∷ t) = elim (Bool-cases (c == b'=' || c == b',')) [
  | inl y ↦ rw y (omega arith)
  | inr n ↦ rw n (omega (arith, length-read_key t))
]

length-read_bareword : (t : Text) → length (read_bareword t).1 ≤ length t
unfolding read_bareword
length-read_bareword [] = omega arith
length-read_bareword (c ∷ t) = elim (Bool-cases (c == b',')) [
  | inl y ↦ rw y (omega arith)
  | inr n ↦ rw n (omega (arith, length-read_bareword t))
]

-- What a value leaves, if it is read, is not longer.
abbrev Within : ℕ → Option (Text × Text) → Type 0
Within n none = Unit
Within n (some (value, rest)) = length rest ≤ n

prepend-Within :
    (n m c : ℕ) (o : Option (Text × Text)) → n ≤ m → Within n o → Within m (prepend c o)
prepend-Within n m c none l h = tt
prepend-Within n m c (some (value, rest)) l h = omega arith

read_quoted-Within : (t : Text) → Within (length t) (read_quoted t)
unfolding read_quoted
read_quoted-Within [] = tt
read_quoted-Within (c ∷ []) = elim (Bool-cases (c == b'"')) [
  | inl y ↦ rw y (omega arith)
  | inr n ↦ rw n tt
]
read_quoted-Within (c ∷ d ∷ t) = elim (Bool-cases (is_escape c d)) [
  | inl y ↦ rw y (
      prepend-Within (length t) (suc (suc (length t))) d (read_quoted t) (omega arith)
        (read_quoted-Within t))
  | inr n ↦ rw n (elim (Bool-cases (c == b'"')) [
    | inl y ↦ rw y (omega arith)
    | inr m ↦ rw m (
        prepend-Within (suc (length t)) (suc (suc (length t))) c (read_quoted (d ∷ t)) (omega arith)
          (read_quoted-Within (d ∷ t)))
  ])
]

read_value-Within : (t : Text) → Within (length t) (read_value t)
read_value-Within [] = omega arith
read_value-Within (c ∷ t) = elim (Bool-cases (c == b'"')) [
  | inl y ↦ rw y (widen (read_quoted t) (read_quoted-Within t))
  | inr n ↦ rw n (length-read_bareword (c ∷ t))
]
  where
    widen : (o : Option (Text × Text)) → Within (length t) o → Within (suc (length t)) o
    widen none h = tt
    widen (some (value, rest)) h = omega arith

-- Two continuations agree on what is shorter than `n`.
abbrev Agree : ℕ → (Text → KvError ⊎ List KvPair) → (Text → KvError ⊎ List KvPair) → Type 0
Agree n k l = (u : Text) → length u < n → k u ≡ l u

module _ (k l : Text → KvError ⊎ List KvPair) where
  after_value-Agree :
      (n : ℕ) (key value rest : Text)
      → Agree n k l
      → length rest ≤ n
      → after_value k key value rest ≡ after_value l key value rest
  after_value-Agree n key value [] a h = refl
  after_value-Agree n key value (c ∷ cs) a h = elim (Bool-cases (c == b',')) [
    | inl y ↦ rw y (ap (put (record { key = key; value = value })) (a cs (omega arith)))
    | inr m ↦ rw m
  ]

  with_value-Agree :
      (n : ℕ) (key : Text) (o : Option (Text × Text))
      → Agree n k l
      → Within n o
      → with_value k key o ≡ with_value l key o
  with_value-Agree n key none a h = refl
  with_value-Agree n key (some (value, rest)) a h = after_value-Agree n key value rest a h

  with_key-Agree :
      (n at : ℕ) (key rest : Text)
      → Agree n k l
      → length rest ≤ suc n
      → with_key k at (key, rest) ≡ with_key l at (key, rest)
  with_key-Agree n at key [] a h = refl
  with_key-Agree n at key (c ∷ cs) a h =
      ap
        (λ x.
          if c == b'='
          then (if is_empty (trim_space key) then inl empty_key else x)
          else inl (expected_equals at))
        (with_value-Agree n (trim_space key) (read_value cs) a
          (widen (read_value cs) (read_value-Within cs)))
    where
      widen : (o : Option (Text × Text)) → Within (length cs) o → Within n o
      widen none w = tt
      widen (some (value, rest)) w = omega arith

  next_pair-Agree :
      (n size : ℕ) (t : Text)
      → Agree n k l
      → length t ≤ suc n
      → next_pair k size t ≡ next_pair l size t
  next_pair-Agree n size [] a h = refl
  next_pair-Agree n size (c ∷ cs) a h =
      with_key-Agree n (size - length (c ∷ cs)) (read_key (c ∷ cs)).0 (read_key (c ∷ cs)).1 a
        (omega (arith, length-read_key (c ∷ cs)))

-- More fuel than the text is long gives the same list.
pub pairs_from_enough :
    (f g size : ℕ) (t : Text)
    → length t < f
    → length t < g
    → pairs_from f size t ≡ pairs_from g size t
unfolding pairs_from
pairs_from_enough zero g size t h i = absurd (omega arith)
pairs_from_enough (suc f) zero size t h i = absurd (omega arith)
pairs_from_enough (suc f) (suc g) size t h i =
    next_pair-Agree (pairs_from f size) (pairs_from g size) (length t) size (trim_left is_skipped t)
      (λ u l. pairs_from_enough f g size u (omega arith) (omega arith))
      (omega (arith, length-trim_left is_skipped t))
