-- ===== src/Envelope/Tokens.antt =====
-- marker.go: the characters of a marker token, and the bytes behind it.
use vitis.Prelude.{
  ℕ, ◌+◌, ◌*◌, ◌/◌, ◌%◌, ◌<◌, false, List, [], ◌∷◌, ◌≡◌, refl, sym, ap, ap₂, subst, ◌∙◌, arith, All,
  some, length,
}
use mathlib.Core.List.{append_cancel_left}
use vitis.Text.{Text, is_space}
use vitis.Envelope.Marker.{marker_prefix, hex_digit, encode_hex, new_marker_token}

abbrev pub AreBytes : List ℕ → Type 0
AreBytes = All (λ b. b < 256)

hex_digit-injective : (a b : ℕ) → a < 16 → b < 16 → hex_digit a ≡ hex_digit b → a ≡ b
unfolding hex_digit
hex_digit-injective a b ha hb e = ground arith

byte_parts : (a b : ℕ) → a / 16 ≡ b / 16 → a % 16 ≡ b % 16 → a ≡ b
byte_parts a b h k = omega arith

head_of : ℕ → Text → ℕ
head_of d [] = d
head_of d (c ∷ _) = c

abbrev tail_of : Text → Text
tail_of [] = []
tail_of (_ ∷ t) = t

encode_hex-injective :
    (xs ys : List ℕ) → AreBytes xs → AreBytes ys → encode_hex xs ≡ encode_hex ys → xs ≡ ys
unfolding encode_hex head_of
encode_hex-injective [] [] hx hy e = refl
encode_hex-injective [] (y ∷ ys) hx hy e = absurd (cc)
encode_hex-injective (x ∷ xs) [] hx hy e = absurd (cc)
encode_hex-injective (x ∷ xs) (y ∷ ys) hx hy e =
    ap₂ ◌∷◌
      (byte_parts x y
        (hex_digit-injective (x / 16) (y / 16) (omega arith) (omega arith) (ap (head_of 0) e))
        (hex_digit-injective (x % 16) (y % 16) (omega arith) (omega arith)
          (ap (λ t. head_of 0 (tail_of t)) e)))
      (encode_hex-injective xs ys hx.1 hy.1 (ap (λ t. tail_of (tail_of t)) e))

-- Two turns have the same marker token only if the same random bytes were drawn for both.
pub new_marker_token-injective :
    (xs ys : List ℕ)
    → AreBytes xs
    → AreBytes ys
    → new_marker_token (some xs) ≡ new_marker_token (some ys)
    → xs ≡ ys
unfolding new_marker_token
new_marker_token-injective xs ys hx hy e =
    encode_hex-injective xs ys hx hy
      (append_cancel_left marker_prefix (encode_hex xs) (encode_hex ys) (inside e))
  where
    inside : {a b : Text} → some a ≡ some b → a ≡ b
    inside h = cc

hex_digit-not_space : (n : ℕ) → n < 16 → is_space (hex_digit n) ≡ false
unfolding hex_digit is_space
hex_digit-not_space n h = ground arith

-- No character is white space.
abbrev pub IsWord : Text → Type 0
IsWord = All (λ c. is_space c ≡ false)

encode_hex-IsWord : (xs : List ℕ) → AreBytes xs → IsWord (encode_hex xs)
unfolding encode_hex
encode_hex-IsWord [] h = tt
encode_hex-IsWord (x ∷ xs) h = (
  hex_digit-not_space (x / 16) (omega arith),
  (hex_digit-not_space (x % 16) (omega arith), encode_hex-IsWord xs h.1),
)

length-encode_hex : (xs : List ℕ) → length (encode_hex xs) ≡ length xs * 2
unfolding encode_hex
length-encode_hex [] = refl
length-encode_hex (x ∷ xs) = omega (arith, length-encode_hex xs)

-- A token is one word: the prefix and two hexadecimal digits for each random byte.
pub new_marker_token-IsWord :
    (xs : List ℕ) {token : Text}
    → AreBytes xs
    → new_marker_token (some xs) ≡ some token
    → IsWord token × (length token ≡ 9 + length xs * 2)
unfolding new_marker_token is_space
new_marker_token-IsWord xs {token} h e = (
  subst IsWord (inside e) (
    refl,
    (refl, (refl, (refl, (refl, (refl, (refl, (refl, (refl, encode_hex-IsWord xs h)))))))),
  ),
  sym (ap length (inside e)) ∙ omega (arith, length-encode_hex xs),
)
  where
    inside : {a b : Text} → some a ≡ some b → a ≡ b
    inside h = cc
