-- ===== src/Cli/Pairs.antt =====
-- converse_npeer.go: `parseKeyValueList`. An error has what its message shows, but for the text of
-- the whole flag; its position counts characters, where the code counts bytes.
use vitis.Prelude.{
  ℕ, zero, suc, ◌-◌, Bool, ◌&&◌, ◌||◌, List, [], ◌∷◌, Option, none, some, ◌⊎◌, inl, inr, ◌==◌,
  if◌then◌else◌, length,
}
use vitis.Text.{Text, is_empty, trim_left, trim_space}

-- `kvPair`
pub record KvPair : Type 0 where
  pub key : Text
  pub value : Text

pub data KvError : Type 0 where
  expected_equals : ℕ → KvError
  empty_key : KvError
  unterminated : Text → KvError
  expected_comma : Text → KvError

unfoldable pub is_skipped : ℕ → Bool
is_skipped c = c == 32 || c == 9

-- What stands before the next '=' or ',', and the rest from there.
unfoldable pub read_key : Text → Text × Text
read_key [] = ([], [])
read_key (c ∷ cs) =
    let (key, rest) = read_key cs in
    if c == b'=' || c == b',' then ([], c ∷ cs) else (c ∷ key, rest)

-- What stands before the next ',', and the rest from there.
unfoldable pub read_bareword : Text → Text × Text
read_bareword [] = ([], [])
read_bareword (c ∷ cs) =
    let (word, rest) = read_bareword cs in if c == b',' then ([], c ∷ cs) else (c ∷ word, rest)

abbrev pub prepend : ℕ → Option (Text × Text) → Option (Text × Text)
prepend c none = none
prepend c (some (value, rest)) = some (c ∷ value, rest)

abbrev pub is_escape : ℕ → ℕ → Bool
is_escape c next = c == b'\\' && (next == b'"' || next == b'\\')

-- Behind an opening quote: the value, and what follows the closing quote; `none` without one.
unfoldable pub read_quoted : Text → Option (Text × Text)
read_quoted [] = none
read_quoted (c ∷ []) = if c == b'"' then some ([], []) else none
read_quoted (c ∷ next ∷ cs) =
    let escaped = prepend next (read_quoted cs) in
    let plain = prepend c (read_quoted (next ∷ cs)) in
    if is_escape c next then escaped else if c == b'"' then some ([], next ∷ cs) else plain

-- A value, and what follows it.
abbrev pub trimmed : Text × Text → Text × Text
trimmed (word, rest) = (trim_space word, rest)

abbrev pub read_value : Text → Option (Text × Text)
read_value [] = some ([], [])
read_value (c ∷ cs) = if c == b'"' then read_quoted cs else some (trimmed (read_bareword (c ∷ cs)))

abbrev pub put : KvPair → KvError ⊎ List KvPair → KvError ⊎ List KvPair
put p (inl e) = inl e
put p (inr ps) = inr (p ∷ ps)

-- Behind a value: the end, or a comma and the rest of the list.
abbrev pub after_value : (Text → KvError ⊎ List KvPair) → Text → Text → Text → KvError ⊎ List KvPair
after_value rest key value [] = inr (record { key = key; value = value } ∷ [])
after_value rest key value (c ∷ cs) =
    if c == b','
    then put (record { key = key; value = value }) (rest cs)
    else inl (expected_comma key)

abbrev pub with_value :
    (Text → KvError ⊎ List KvPair) → Text → Option (Text × Text) → KvError ⊎ List KvPair
with_value rest key none = inl (unterminated key)
with_value rest key (some (value, cs)) = after_value rest key value cs

-- Behind a key, which starts at `at`.
abbrev pub with_key : (Text → KvError ⊎ List KvPair) → ℕ → Text × Text → KvError ⊎ List KvPair
with_key rest at (key, []) = inl (expected_equals at)
with_key rest at (key, c ∷ cs) =
    if c == b'='
    then (if is_empty (trim_space key)
        then inl empty_key
        else with_value rest (trim_space key) (read_value cs))
    else inl (expected_equals at)

abbrev pub next_pair : (Text → KvError ⊎ List KvPair) → ℕ → Text → KvError ⊎ List KvPair
next_pair rest size [] = inr []
next_pair rest size (c ∷ cs) = with_key rest (size - length (c ∷ cs)) (read_key (c ∷ cs))

-- The loop, as the fuel lasts; `size` is the length of the whole.
unfoldable pub pairs_from : ℕ → ℕ → Text → KvError ⊎ List KvPair
unfolding is_skipped read_key read_quoted read_bareword trim_space trim_left
pairs_from zero size rest = inr []
pairs_from (suc fuel) size rest = next_pair (pairs_from fuel size) size (trim_left is_skipped rest)

-- `parseKeyValueList`. Each round of its loop consumes a character at least.
unfoldable pub parse_key_value_list : Text → KvError ⊎ List KvPair
unfolding pairs_from
parse_key_value_list raw = pairs_from (suc (length raw)) (length raw) raw
