-- ===== src/Model/PeerId.antt =====
-- internal/model/peer_id.go. The pattern of an id, ^[a-z][a-z0-9_-]{0,31}$, as a test.
use vitis.Prelude.{
  ℕ, ◌≤◌, Bool, true, false, ◌&&◌, ◌||◌, [], ◌∷◌, Option, none, some, ◌≡◌, ◌↔◌, refl, arith, leb,
  ◌==◌, if◌then◌else◌, length, All,
}
use vitis.Text.{Text, codes}

abbrev pub PeerId : Type 0
PeerId = Text

unfoldable pub is_lower : ℕ → Bool
is_lower c = leb b'a' c && leb c b'z'

-- [a-z0-9_-]
unfoldable pub is_id_char : ℕ → Bool
unfolding is_lower
is_id_char c = is_lower c || (leb b'0' c && leb c b'9') || c == b'_' || c == b'-'

unfoldable pub all_id_chars : Text → Bool
unfolding is_id_char
all_id_chars [] = true
all_id_chars (c ∷ cs) = is_id_char c && all_id_chars cs

unfoldable pub matches_peer_id : Text → Bool
unfolding is_lower all_id_chars
matches_peer_id [] = false
matches_peer_id (c ∷ cs) = is_lower c && leb (length cs) 31 && all_id_chars cs

-- `ErrInvalidPeerID`.
abbrev pub err_invalid_peer_id : Text
err_invalid_peer_id = codes "invalid peer id: must match ^[a-z][a-z0-9_-]{0,31}$"

-- `PeerID.Validate`; `none` for a nil error.
unfoldable pub validate : PeerId → Option Text
unfolding matches_peer_id
validate p = if matches_peer_id p then none else some err_invalid_peer_id

-- What the pattern says.
pub record IsPeerId (p : Text) : Type 0 where
  pub first : ℕ
  pub rest : Text
  pub splits : p ≡ first ∷ rest
  pub lower : is_lower first ≡ true
  pub chars : All (λ c. is_id_char c ≡ true) rest
  pub short : length rest ≤ 31

pub all_id_chars_iff : (t : Text) → (all_id_chars t ≡ true) ↔ All (λ c. is_id_char c ≡ true) t
unfolding all_id_chars
all_id_chars_iff [] = ((λ _. tt), (λ _. refl))
all_id_chars_iff (c ∷ cs) = ground (arith, all_id_chars_iff cs)

pub matches_peer_id-IsPeerId : (p : Text) → matches_peer_id p ≡ true → IsPeerId p
unfolding matches_peer_id
matches_peer_id-IsPeerId [] h = absurd (cc)
matches_peer_id-IsPeerId (c ∷ cs) h = record {
  first = c;
  rest = cs;
  splits = refl;
  lower = ground arith;
  chars = (all_id_chars_iff cs).0 (ground arith);
  short = ground arith;
}

pub IsPeerId-matches_peer_id : (p : Text) → IsPeerId p → matches_peer_id p ≡ true
unfolding matches_peer_id
IsPeerId-matches_peer_id p v =
    rw v.splits (ground (arith, (all_id_chars_iff v.rest).1 v.chars, v.lower, v.short))
