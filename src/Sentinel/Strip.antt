-- ===== src/Sentinel/Strip.antt =====
-- sentinel.go: what `StripSentinel` leaves of a response.
use vitis.Prelude.{
  ◌≤◌, true, false, List, [], ◌∷◌, ◌++◌, ◌≡◌, inl, inr, refl, arith, All, Bool-cases, ◌==◌, length,
  length-append, ==_iff,
}
use vitis.Text.{Text, split, join, trim_right, trim_space, is_empty}
use vitis.Text.Lines.{Free, split-Free, split-join}
use vitis.Sentinel.{
  token_or_default, is_token_line, any_token_line, contains_on_own_line, lines_before, is_end_space,
  strip_sentinel,
}
use vitis.Sentinel.OwnLine.{any_token_line-trim_right}

lines_before-any :
    (token : Text) (ls : List Text) → any_token_line token (lines_before token ls) ≡ false
unfolding any_token_line lines_before
lines_before-any token [] = refl
lines_before-any token (l ∷ ls) = ground (arith, lines_before-any token ls)

lines_before-le : (token : Text) (ls : List Text) → length (lines_before token ls) ≤ length ls
unfolding lines_before
lines_before-le token [] = omega arith
lines_before-le token (l ∷ ls) = ground (arith, lines_before-le token ls)

lines_before_self :
    (token : Text) (ls : List Text) → any_token_line token ls ≡ false → lines_before token ls ≡ ls
unfolding any_token_line lines_before
lines_before_self token [] h = refl
lines_before_self token (l ∷ ls) h = ground (arith, lines_before_self token ls)

lines_before-full :
    (token : Text) (ls : List Text)
    → length (lines_before token ls) ≡ length ls
    → any_token_line token ls ≡ false
unfolding any_token_line lines_before
lines_before-full token [] h = refl
lines_before-full token (l ∷ ls) h = ground (arith, lines_before-full token ls)

lines_before-All :
    (P : Text → Type 0) (token : Text) (ls : List Text) → All P ls → All P (lines_before token ls)
unfolding lines_before
lines_before-All P token [] h = tt
lines_before-All P token (l ∷ ls) h = elim (Bool-cases (is_token_line token l)) [
  | inl y ↦ rw y tt
  | inr n ↦ rw n (h.0, lines_before-All P token ls h.1)
]

lines_before-cut :
    (token : Text) (pre : List Text) (l : Text) (post : List Text)
    → any_token_line token pre ≡ false
    → is_token_line token l ≡ true
    → lines_before token (pre ++ (l ∷ post)) ≡ pre
unfolding any_token_line lines_before
lines_before-cut token [] l post h t = rw t
lines_before-cut token (p ∷ pre) l post h t = ground (arith, lines_before-cut token pre l post)

token_or_default-ne : (token : Text) → is_empty (token_or_default token) ≡ false
token_or_default-ne [] = refl
token_or_default-ne (c ∷ t) = refl

nil_not_token : (token : Text) → is_empty token ≡ false → any_token_line token ([] ∷ []) ≡ false
unfolding any_token_line trim_space trim_right
nil_not_token [] h = absurd (cc)
nil_not_token (c ∷ t) h = refl

joined_clean :
    (token : Text) (out : List Text)
    → is_empty token ≡ false
    → All (Free b'\n') out
    → any_token_line token out ≡ false
    → any_token_line token (split b'\n' (join b'\n' out)) ≡ false
joined_clean token [] t f h = unfold split join in nil_not_token token t
joined_clean token (l ∷ ls) t f h = rw (split-join b'\n' l ls f) h

-- The result of `StripSentinel` never holds the token on a line of its own.
pub strip_sentinel-clean :
    (response token : Text)
    → contains_on_own_line (strip_sentinel response token) (token_or_default token) ≡ false
unfolding strip_sentinel contains_on_own_line
strip_sentinel-clean response token =
    let t = token_or_default token in
    let ls = split b'\n' response in
    elim (Bool-cases (length (lines_before t ls) == length ls)) [
      | inl y ↦
          rw (y, token_or_default-ne token)
            (lines_before-full t ls ((==_iff (length (lines_before t ls)) (length ls)).0 y))
      | inr n ↦
          rw (n, token_or_default-ne token)
            (any_token_line-trim_right t (join b'\n' (lines_before t ls)) (
              joined_clean t (lines_before t ls) (token_or_default-ne token)
                (lines_before-All (Free b'\n') t ls (split-Free b'\n' response))
                (lines_before-any t ls)))
    ]

-- A response without the token on a line of its own is returned as it is.
pub strip_sentinel_unchanged :
    (response token : Text)
    → contains_on_own_line response (token_or_default token) ≡ false
    → strip_sentinel response token ≡ response
unfolding strip_sentinel contains_on_own_line
strip_sentinel_unchanged response token h =
    let t = token_or_default token in
    let ls = split b'\n' response in
    let same = lines_before_self t ls (rw (token_or_default-ne token) at h) in
    rw same (rw ((==_iff (length ls) (length ls)).1 refl))

-- From the first line that holds the token alone, everything is cut off; what stands before is
-- kept, with the blank characters at its end trimmed.
pub strip_sentinel_cut :
    (token : Text) (pre : List Text) (l : Text) (post : List Text)
    → All (Free b'\n') (pre ++ (l ∷ post))
    → any_token_line (token_or_default token) pre ≡ false
    → is_token_line (token_or_default token) l ≡ true
    → strip_sentinel (join b'\n' (pre ++ (l ∷ post))) token
      ≡ trim_right is_end_space (join b'\n' pre)
unfolding strip_sentinel
strip_sentinel_cut token pre l post f h t = rw (split-parts pre f) (
    rw (lines_before-cut (token_or_default token) pre l post h t)
      (ground (arith, length-append pre (l ∷ post))))
  where
    split-parts :
        (pre : List Text)
        → All (Free b'\n') (pre ++ (l ∷ post))
        → split b'\n' (join b'\n' (pre ++ (l ∷ post))) ≡ pre ++ (l ∷ post)
    split-parts [] f = split-join b'\n' l post f
    split-parts (p ∷ pre) f = split-join b'\n' p (pre ++ (l ∷ post)) f
