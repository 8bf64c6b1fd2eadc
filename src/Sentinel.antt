-- ===== src/Sentinel.antt =====
-- internal/terminator/sentinel.go: the terminator that watches the turns for a token. The two text
-- functions stand here; the subscriber loop is Sentinel/Watch.
pub mod OwnLine
pub mod Strip
pub mod Watch
use vitis.Prelude.{ℕ, Bool, true, false, List, [], ◌∷◌, if◌then◌else◌, ◌||◌, ◌==◌, length}
use vitis.Text.{Text, codes, equal, is_empty, split, join, trim_space, trim_right}

abbrev pub default_sentinel : Text
default_sentinel = codes "<<END>>"

-- `NewSentinel`'s token, and the token that `StripSentinel` looks for.
abbrev pub token_or_default : Text → Text
token_or_default token = if is_empty token then default_sentinel else token

-- The test of both loops on a line.
unfoldable pub is_token_line : Text → Text → Bool
unfolding trim_space
is_token_line token line = equal (trim_space line) token

unfoldable pub any_token_line : Text → List Text → Bool
unfolding is_token_line
any_token_line token [] = false
any_token_line token (l ∷ ls) = is_token_line token l || any_token_line token ls

-- `containsOnOwnLine`
unfoldable pub contains_on_own_line : Text → Text → Bool
unfolding any_token_line split
contains_on_own_line s token =
    if is_empty token then false else any_token_line token (split b'\n' s)

-- The loop of `StripSentinel`, up to its `break`.
unfoldable pub lines_before : Text → List Text → List Text
unfolding is_token_line
lines_before token [] = []
lines_before token (l ∷ ls) =
    let rest = lines_before token ls in if is_token_line token l then [] else l ∷ rest

-- The cut set " \t\r\n".
unfoldable pub is_end_space : ℕ → Bool
is_end_space c = c == 32 || c == 9 || c == 13 || c == 10

-- `StripSentinel`
unfoldable pub strip_sentinel : Text → Text → Text
unfolding split lines_before join trim_right is_end_space
strip_sentinel response token =
    let lines = split b'\n' response in
    let out = lines_before (token_or_default token) lines in
    if length out == length lines then response else trim_right is_end_space (join b'\n' out)
