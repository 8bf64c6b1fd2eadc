-- ===== src/Envelope/Bodies.antt =====
-- envelope.go and marker.go: the marker in an envelope's body, and where a body is cut at one.
use vitis.Prelude.{
  ℕ, zero, suc, ◌≤◌, not_leb→lt, leb, leb→le, true, [], ◌∷◌, ◌++◌, Option, none, some, ◌≡◌, ◌≢◌,
  inl, inr, refl, sym, ap, ap₂, subst, ◌∙◌, append_assoc, length, take, drop, Bool-cases,
}
use vitis.Text.{Text, codes, index, contains, is_empty, has_prefix}
use vitis.Text.Equal.{is_empty_iff}
use vitis.Text.Trim.{has_prefix-drop}
use vitis.Text.Find.{index-IsAt, index-first, contains-middle}
use vitis.Model.Conversation.{Conversation, PeerSlot}
use vitis.Envelope.{
  seed_for, seed_label, render_body, header, closed_content, instruction, build_envelope_turn1,
  build_envelope_turn_n,
}
use vitis.Envelope.Marker.{contains_marker, cut_at, strip_marker_and_after}

pub take-drop : (i : ℕ) (t : Text) → t ≡ take i t ++ drop i t
take-drop zero t = refl
take-drop (suc i) [] = refl
take-drop (suc i) (c ∷ t) = ap (◌∷◌ c) (take-drop i t)

cut_at-found :
    (body : Text) (o : Option ℕ) {pre : Text}
    → cut_at body o ≡ (pre, true)
    → (i : ℕ) × (o ≡ some i) × (take i body ≡ pre)
cut_at-found body none h = absurd (cc)
cut_at-found body (some i) h = (i, refl, ap (λ x. x.0) h)

-- The token stands at no position before `i`.
abbrev pub IsFirst : Text → Text → ℕ → Type 0
IsFirst body token i = (j : ℕ) → has_prefix (drop j body) token ≡ true → i ≤ j

pub index-IsFirst : (body token : Text) {i : ℕ} → index body token ≡ some i → IsFirst body token i
index-IsFirst body token {i} e j h = elim (Bool-cases (leb i j)) [
  | inl y ↦ leb→le i j y
  | inr n ↦ absurd (cc (h, index-first body token j e (not_leb→lt i j n)))
]

-- Where the cut reports a token, the body is what is kept, the token and a rest, and the token
-- stands at no earlier position.
pub strip_marker_and_after-IsFirst :
    (body token : Text) {pre : Text}
    → token ≢ []
    → strip_marker_and_after body token ≡ (pre, true)
    → (i : ℕ) × (rest : Text) × (take i body ≡ pre)
      × (body ≡ pre ++ (token ++ rest))
      × IsFirst body token i
unfolding strip_marker_and_after
strip_marker_and_after-IsFirst body token {pre} f h = elim (Bool-cases (is_empty token)) [
  | inl y ↦ absurd (f ((is_empty_iff token).0 y))
  | inr n ↦
      let (i, e, t) = cut_at-found body (index body token) (rw n at h) in
      (
        i,
        drop (length token) (drop i body),
        t,
        take-drop i body
            ∙ ap₂ ◌++◌ t (has_prefix-drop (drop i body) token (index-IsAt body token e)),
        index-IsFirst body token e,
      )
]

-- The text ends with `rest`.
abbrev EndsWith : Text → Text → Type 0
EndsWith rest t = (a : Text) × (t ≡ a ++ rest)

EndsWith-append : (a t : Text) {rest : Text} → EndsWith rest t → EndsWith rest (a ++ t)
EndsWith-append a t {rest} (b, e) = (a ++ b, ap (◌++◌ a) e ∙ sym (append_assoc a b rest))

contains-EndsWith : (marker rest t : Text) → EndsWith (marker ++ rest) t → contains t marker ≡ true
contains-EndsWith marker rest t (a, e) =
    subst (λ x. contains x marker ≡ true) (sym e) (contains-middle a marker rest)

instruction-EndsWith :
    (marker : Text) → EndsWith (marker ++ codes " on its own line.\n") (instruction marker)
instruction-EndsWith marker = (codes "When you finish your reply, output the token ", refl)

render_body-EndsWith :
    (id : Text) (n cap : ℕ) (label content marker : Text)
    → EndsWith (marker ++ codes " on its own line.\n") (render_body id n cap label content marker)
unfolding render_body
render_body-EndsWith id n cap label content marker = EndsWith-append (header id n cap label) _ (
    EndsWith-append (closed_content content) _
      (EndsWith-append (b'\n' ∷ []) _ (instruction-EndsWith marker)))

contains_marker-EndsWith :
    (marker rest t : Text)
    → marker ≢ []
    → EndsWith (marker ++ rest) t
    → contains_marker t marker ≡ true
unfolding contains_marker contains index
contains_marker-EndsWith [] rest t f h = absurd (f refl)
contains_marker-EndsWith (c ∷ m) rest [] f h = absurd (cc (contains-EndsWith (c ∷ m) rest [] h))
contains_marker-EndsWith (c ∷ m) rest (x ∷ t) f h = contains-EndsWith (c ∷ m) rest (x ∷ t) h

-- Whatever the turn, the envelope tells the peer the marker that it carries as its token.
pub contains_marker-build_envelope :
    (conv : Conversation) (n : ℕ) (slot : PeerSlot) (previous marker : Text)
    → marker ≢ []
    → (contains_marker (build_envelope_turn1 conv slot marker).body marker ≡ true)
      × (contains_marker (build_envelope_turn_n conv n slot previous marker).body marker ≡ true)
unfolding build_envelope_turn1 build_envelope_turn_n
contains_marker-build_envelope conv n slot previous marker f = (
  contains_marker-EndsWith marker _ _ f (
      EndsWith-append (build_envelope_turn1 conv slot marker).briefing _ (
        EndsWith-append (codes "\n\n") _
          (render_body-EndsWith conv.id 1 conv.max_turns seed_label (seed_for conv slot) marker))),
  contains_marker-EndsWith marker _ _ f
      (render_body-EndsWith conv.id n conv.max_turns (codes "peer-" ++ slot) previous marker),
)
