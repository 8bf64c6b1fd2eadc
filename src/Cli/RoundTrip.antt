-- ===== src/Cli/RoundTrip.antt =====
-- converse_npeer.go: `parseKeyValueList` and a printer that quotes every value.
use vitis.Prelude.{
  ℕ, zero, suc, ◌-◌, ◌≤◌, true, false, ◌||◌, List, [], ◌∷◌, ◌++◌, some, ◌⊎◌, inl, inr, ◌≡◌, ◌≢◌,
  refl, ap, ◌∙◌, ◌==◌, if◌then◌else◌, length, length-append, All, Bool-cases, arith,
}
use vitis.Text.{Text, is_empty, is_space, trim_left, trim_right, trim_space}
use vitis.Cli.Pairs.{
  put, read_value, empty_key, KvPair, KvError, is_skipped, read_key, read_quoted, prepend,
  after_value, with_value, with_key, next_pair, pairs_from, parse_key_value_list,
}

-- The value with a backslash before each quote and backslash.
unfoldable pub escape : Text → Text
escape [] = []
escape (c ∷ cs) = if c == b'"' || c == b'\\' then b'\\' ∷ c ∷ escape cs else c ∷ escape cs

abbrev pub print_then : KvPair → Text → Text
print_then p rest = p.key ++ (b'=' ∷ b'"' ∷ (escape p.value ++ (b'"' ∷ rest)))

-- The pairs, with commas between.
unfoldable pub print_pairs : List KvPair → Text
unfolding escape
print_pairs [] = []
print_pairs (p ∷ []) = print_then p []
print_pairs (p ∷ q ∷ ps) = print_then p (b',' ∷ print_pairs (q ∷ ps))

-- A character of a key: neither '=' nor ',' nor white space.
abbrev pub IsKeyChar : ℕ → Type 0
IsKeyChar c = ((c == b'=' || c == b',') ≡ false) × (is_space c ≡ false)

abbrev pub IsKey : Text → Type 0
IsKey key = (key ≢ []) × All IsKeyChar key

abbrev pub AreKeys : List KvPair → Type 0
AreKeys = All (λ p. IsKey p.key)

read_quoted-plain :
    (c : ℕ) (t : Text)
    → (c == b'"') ≡ false
    → (c == b'\\') ≡ false
    → read_quoted (c ∷ t) ≡ prepend c (read_quoted t)
unfolding read_quoted
read_quoted-plain c [] q b = rw q
read_quoted-plain c (n ∷ t) q b = rw b (rw q)

read_quoted_end : (t : Text) → read_quoted (b'"' ∷ t) ≡ some ([], t)
unfolding read_quoted
read_quoted_end [] = refl
read_quoted_end (n ∷ t) = refl

read_quoted-escaped :
    (c : ℕ) (t : Text)
    → (c == b'"' || c == b'\\') ≡ true
    → read_quoted (b'\\' ∷ c ∷ t) ≡ prepend c (read_quoted t)
unfolding read_quoted
read_quoted-escaped c t h = rw h

read_quoted-escape : (v rest : Text) → read_quoted (escape v ++ (b'"' ∷ rest)) ≡ some (v, rest)
unfolding escape
read_quoted-escape [] rest = read_quoted_end rest
read_quoted-escape (c ∷ v) rest = elim (Bool-cases (c == b'"' || c == b'\\')) [
  | inl y ↦ rw y (
      read_quoted-escaped c (escape v ++ (b'"' ∷ rest)) y
      ∙ ap (prepend c) (read_quoted-escape v rest))
  | inr n ↦ rw n (
      read_quoted-plain c (escape v ++ (b'"' ∷ rest)) (ground arith) (ground arith)
      ∙ ap (prepend c) (read_quoted-escape v rest))
]

read_key-append :
    (key t : Text) → All IsKeyChar key → read_key (key ++ (b'=' ∷ t)) ≡ (key, b'=' ∷ t)
unfolding read_key
read_key-append [] t h = refl
read_key-append (c ∷ key) t h = rw h.0.0 (rw (read_key-append key t h.1))

trim_right_self : (key : Text) → All IsKeyChar key → trim_right is_space key ≡ key
unfolding trim_right
trim_right_self [] h = refl
trim_right_self (c ∷ key) h = rw h.0.1 (ap (◌∷◌ c) (trim_right_self key h.1))

trim_space_self : (key : Text) → All IsKeyChar key → trim_space key ≡ key
unfolding trim_space trim_left
trim_space_self [] h = refl
trim_space_self (c ∷ key) h = rw h.0.1 (trim_right_self (c ∷ key) h)

not_skipped : (c : ℕ) → is_space c ≡ false → is_skipped c ≡ false
unfolding is_space is_skipped
not_skipped c h = ground arith

trim_left_self : (key t : Text) → IsKey key → trim_left is_skipped (key ++ t) ≡ key ++ t
unfolding trim_left
trim_left_self [] t (f, h) = absurd (f refl)
trim_left_self (c ∷ key) t (f, h) = rw (not_skipped c h.0.1)

next_pair_key :
    (next : Text → KvError ⊎ List KvPair) (size : ℕ) (key t : Text)
    → IsKey key
    → next_pair next size (key ++ (b'=' ∷ t)) ≡ with_value next key (read_value t)
next_pair_key next size [] t (f, h) = absurd (f refl)
next_pair_key next size (c ∷ key) t (f, h) =
    ap (with_key next (size - length (c ∷ key ++ (b'=' ∷ t)))) (read_key-append (c ∷ key) t h)
    ∙ ap (λ k. if is_empty k then inl empty_key else with_value next k (read_value t))
        (trim_space_self (c ∷ key) h)

-- One round of the loop reads one printed pair.
pairs_from-print_then :
    (fuel size : ℕ) (p : KvPair) (rest : Text)
    → IsKey p.key
    → pairs_from (suc fuel) size (print_then p rest)
      ≡ after_value (pairs_from fuel size) p.key p.value rest
unfolding pairs_from
pairs_from-print_then fuel size p rest k =
    ap (next_pair (pairs_from fuel size) size)
      (trim_left_self p.key (b'=' ∷ b'"' ∷ (escape p.value ++ (b'"' ∷ rest))) k)
    ∙ next_pair_key (pairs_from fuel size) size p.key (b'"' ∷ (escape p.value ++ (b'"' ∷ rest))) k
    ∙ ap (with_value (pairs_from fuel size) p.key) (read_quoted-escape p.value rest)

pairs_from-print_pairs :
    (fuel size : ℕ) (ps : List KvPair)
    → AreKeys ps
    → length ps ≤ fuel
    → pairs_from (suc fuel) size (print_pairs ps) ≡ inr ps
unfolding print_pairs pairs_from
pairs_from-print_pairs fuel size [] h l = refl
pairs_from-print_pairs fuel size (p ∷ []) h l = pairs_from-print_then fuel size p [] h.0
pairs_from-print_pairs zero size (p ∷ q ∷ ps) h l = absurd (omega arith)
pairs_from-print_pairs (suc fuel) size (p ∷ q ∷ ps) h l =
    pairs_from-print_then (suc fuel) size p (b',' ∷ print_pairs (q ∷ ps)) h.0
    ∙ ap (put p) (pairs_from-print_pairs fuel size (q ∷ ps) h.1 (omega arith))

length-print_pairs : (ps : List KvPair) → length ps ≤ length (print_pairs ps)
unfolding print_pairs pairs_from
length-print_pairs [] = omega arith
length-print_pairs (p ∷ []) =
    omega (arith, length-append p.key (b'=' ∷ b'"' ∷ (escape p.value ++ (b'"' ∷ []))))
length-print_pairs (p ∷ q ∷ ps) = omega (
  arith,
  length-append p.key (b'=' ∷ b'"' ∷ (escape p.value ++ (b'"' ∷ b',' ∷ print_pairs (q ∷ ps)))),
  length-append (escape p.value) (b'"' ∷ b',' ∷ print_pairs (q ∷ ps)),
  length-print_pairs (q ∷ ps),
)

-- The pairs are read back, whatever the values are: commas, quotes and backslashes in them do not
-- matter. The keys are not empty and have neither '=' nor ',' nor white space.
pub parse_key_value_list-print_pairs :
    (ps : List KvPair) → AreKeys ps → parse_key_value_list (print_pairs ps) ≡ inr ps
unfolding parse_key_value_list
parse_key_value_list-print_pairs ps h =
    pairs_from-print_pairs (length (print_pairs ps)) (length (print_pairs ps)) ps h
      (length-print_pairs ps)
