-- ===== src/Sentinel/OwnLine.antt =====
-- The test for a token line, read one character at a time, so that trimming the end of a text is
-- seen to add no token line.
use vitis.Prelude.{
  ℕ, Bool, true, false, ◌||◌, List, [], ◌∷◌, ◌++◌, ◌≡◌, inl, inr, refl, sym, ap, ◌∙◌, arith,
  Bool-cases, ◌==◌, if◌then◌else◌, append_assoc, append-nil,
}
use vitis.Text.{Text, split, trim_right, is_space, cons_head, keep_unless}
use vitis.Text.Lines.{split-cons}
use vitis.Text.Trim.{trim_space-concat}
use vitis.Sentinel.{is_token_line, any_token_line, is_end_space}

own_from : Text → Text → Text → Bool
own_from token acc [] = is_token_line token acc
own_from token acc (c ∷ cs) =
    let fresh = own_from token [] cs in
    let longer = own_from token (acc ++ c ∷ []) cs in
    if c == b'\n' then is_token_line token acc || fresh else longer

abbrev in_front : Text → List Text → List Text
in_front acc [] = acc ∷ []
in_front acc (l ∷ ls) = (acc ++ l) ∷ ls

in_front-cons_head :
    (acc : Text) (c : ℕ) (ls : List Text)
    → in_front acc (cons_head c ls) ≡ in_front (acc ++ c ∷ []) ls
in_front-cons_head acc c [] = refl
in_front-cons_head acc c (l ∷ ls) = rw append_assoc

in_front-nil : (s : Text) → in_front [] (split b'\n' s) ≡ split b'\n' s
in_front-nil s = let (l, ls, e) = split-cons b'\n' s in rw e

own_from-any :
    (token acc s : Text)
    → any_token_line token (in_front acc (split b'\n' s)) ≡ own_from token acc s
unfolding own_from split any_token_line
own_from-any token acc [] = rw append-nil (ground arith)
own_from-any token acc (c ∷ cs) = elim (Bool-cases (c == b'\n')) [
  | inl y ↦ rw y (rw append-nil (ground (arith, own_from-any token [] cs, in_front-nil cs)))
  | inr n ↦ rw n (rw in_front-cons_head (own_from-any token (acc ++ c ∷ []) cs))
]

end_space-is_space : (c : ℕ) → is_end_space c ≡ true → is_space c ≡ true
unfolding is_end_space is_space
end_space-is_space c h = ground arith

is_token_line-concat :
    (token acc : Text) (c : ℕ)
    → is_end_space c ≡ true
    → is_token_line token (acc ++ c ∷ []) ≡ is_token_line token acc
unfolding is_token_line
is_token_line-concat token acc c h = rw (trim_space-concat acc c (end_space-is_space c h))

newline-is_end_space : (c : ℕ) → (c == b'\n') ≡ true → is_end_space c ≡ true
unfolding is_end_space
newline-is_end_space c h = ground arith

-- One character in front of a trimmed text `t`, where `t` adds nothing to `cs`.
own_from_step :
    (token acc : Text) (c : ℕ) (t cs : Text)
    → (own_from token [] t ≡ true → own_from token [] cs ≡ true)
    → (own_from token (acc ++ c ∷ []) t ≡ true → own_from token (acc ++ c ∷ []) cs ≡ true)
    → own_from token acc (keep_unless (is_end_space c) c t) ≡ true
    → own_from token acc (c ∷ cs) ≡ true
unfolding own_from
own_from_step token acc c [] cs f g h =
    ground (arith, is_token_line-concat token acc c, newline-is_end_space c)
own_from_step token acc c (d ∷ t) cs f g h = ground (arith, newline-is_end_space c)

own_from-trim_right :
    (token acc s : Text)
    → own_from token acc (trim_right is_end_space s) ≡ true
    → own_from token acc s ≡ true
unfolding trim_right
own_from-trim_right token acc [] h = h
own_from-trim_right token acc (c ∷ cs) h =
    own_from_step token acc c (trim_right is_end_space cs) cs (own_from-trim_right token [] cs)
      (own_from-trim_right token (acc ++ c ∷ []) cs) h

-- Trimming the end of a text adds no token line.
pub any_token_line-trim_right :
    (token s : Text)
    → any_token_line token (split b'\n' s) ≡ false
    → any_token_line token (split b'\n' (trim_right is_end_space s)) ≡ false
any_token_line-trim_right token s h =
    elim (Bool-cases (any_token_line token (split b'\n' (trim_right is_end_space s)))) [
      | inl y ↦ absurd (
          cc (
            own_from-trim_right token [] s (rw (← own_any token (trim_right is_end_space s)) y),
            own_any token s,
          ))
      | inr n ↦ n
    ]
  where
    own_any : (token s : Text) → any_token_line token (split b'\n' s) ≡ own_from token [] s
    own_any token s = ap (any_token_line token) (sym (in_front-nil s)) ∙ own_from-any token [] s
