-- ===== src/Examples/Envelopes.antt =====
-- Marker tokens, and the envelopes of a conversation.
use vitis.Prelude.{ℕ, ◌+◌, ◌*◌, true, List, [], ◌∷◌, ◌++◌, some, ◌≡◌, refl, length, take, arith}
use vitis.Text.{Text, codes}
use vitis.Envelope.{build_envelope_turn1, build_envelope_turn_n}
use vitis.Envelope.Marker.{new_marker_token, contains_marker, strip_marker_and_after}
use vitis.Envelope.Tokens.{AreBytes, IsWord, new_marker_token-injective, new_marker_token-IsWord}
use vitis.Envelope.Bodies.{IsFirst, contains_marker-build_envelope, strip_marker_and_after-IsFirst}
use vitis.Examples.Toy.{talk}

abbrev bytes : List ℕ
bytes = 0 ∷ 17 ∷ 255 ∷ 9 ∷ 10 ∷ 160 ∷ []

bytes-AreBytes : AreBytes bytes
bytes-AreBytes =
    (omega arith, (omega arith, (omega arith, (omega arith, (omega arith, (omega arith, tt))))))

token_of : new_marker_token (some bytes) ≡ some (codes "TURN_END_0011ff090aa0")
unfolding new_marker_token
token_of = refl

new_marker_token-injective_example : bytes ≡ bytes
new_marker_token-injective_example =
    new_marker_token-injective bytes bytes bytes-AreBytes bytes-AreBytes refl

new_marker_token-IsWord_example :
    IsWord (codes "TURN_END_0011ff090aa0")
    × (length (codes "TURN_END_0011ff090aa0") ≡ 9 + length bytes * 2)
new_marker_token-IsWord_example = new_marker_token-IsWord bytes bytes-AreBytes token_of

strip_marker_and_after-IsFirst_example :
    (i : ℕ) × (rest : Text) × (take i (codes "yes END no END") ≡ codes "yes ")
    × (codes "yes END no END" ≡ codes "yes " ++ (codes "END" ++ rest))
    × IsFirst (codes "yes END no END") (codes "END") i
unfolding strip_marker_and_after
strip_marker_and_after-IsFirst_example =
    strip_marker_and_after-IsFirst (codes "yes END no END") (codes "END") (λ e. cc) refl

contains_marker-build_envelope_example :
    (contains_marker (build_envelope_turn1 (talk 3) (codes "a") (codes "END")).body (codes "END")
      ≡ true)
    × (contains_marker
          (build_envelope_turn_n (talk 3) 2 (codes "a") (codes "hi") (codes "END")).body
          (codes "END")
        ≡ true)
contains_marker-build_envelope_example =
    contains_marker-build_envelope (talk 3) 2 (codes "a") (codes "hi") (codes "END") (λ e. cc)
