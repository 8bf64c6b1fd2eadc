-- ===== src/Envelope/Marker.antt =====
-- internal/conversation/marker.go: the token that ends a turn. The random bytes are an argument; a
-- failure of crypto/rand panics, which is `none`.
use vitis.Prelude.{
  ℕ, ◌+◌, ◌/◌, ◌%◌, ◌-◌, Bool, true, false, ◌||◌, List, [], ◌∷◌, ◌++◌, Option, none, some, ltb,
  if◌then◌else◌, take,
}
use vitis.Text.{Text, codes, is_empty, index, contains}

abbrev pub marker_prefix : Text
marker_prefix = codes "TURN_END_"

abbrev pub marker_suffix_bytes : ℕ
marker_suffix_bytes = 6

unfoldable pub hex_digit : ℕ → ℕ
hex_digit n = if ltb n 10 then b'0' + n else b'a' + (n - 10)

-- `hex.EncodeToString`
unfoldable pub encode_hex : List ℕ → Text
unfolding hex_digit
encode_hex [] = []
encode_hex (b ∷ bs) = hex_digit (b / 16) ∷ hex_digit (b % 16) ∷ encode_hex bs

-- `NewMarkerToken` on what `rand.Read` gave for the six bytes.
unfoldable pub new_marker_token : Option (List ℕ) → Option Text
unfolding encode_hex
new_marker_token none = none
new_marker_token (some bytes) = some (marker_prefix ++ encode_hex bytes)

-- `ContainsMarker`
unfoldable pub contains_marker : Text → Text → Bool
unfolding contains
contains_marker body token = if is_empty body || is_empty token then false else contains body token

abbrev pub cut_at : Text → Option ℕ → Text × Bool
cut_at body none = (body, false)
cut_at body (some i) = (take i body, true)

-- `StripMarkerAndAfter`
unfoldable pub strip_marker_and_after : Text → Text → Text × Bool
unfolding index
strip_marker_and_after body token =
    if is_empty token then (body, false) else cut_at body (index body token)
