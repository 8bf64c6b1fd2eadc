-- ===== src/Bus/Topics.antt =====
-- bus.go: the topics of a conversation, compared.
use vitis.Prelude.{true-ne-false, ℕ, true, false, [], ◌∷◌, ◌++◌, ◌≡◌, ◌≢◌, ◌↔◌, refl, sym, ap, ◌∙◌}
use mathlib.Core.List.{append_cancel_left, append_cancel_right}
use vitis.Text.{Text, ends_with, codes}
use vitis.Bus.{topic_turn, topic_control}

ends_with-append :
    (c : ℕ) (xs : Text) (y : ℕ) (ys : Text) → ends_with c (xs ++ (y ∷ ys)) ≡ ends_with c (y ∷ ys)
unfolding ends_with
ends_with-append c [] y ys = refl
ends_with-append c (x ∷ []) y ys = refl
ends_with-append c (x ∷ z ∷ xs) y ys = ends_with-append c (z ∷ xs) y ys

turn_end : (id : Text) → ends_with b'n' (topic_turn id) ≡ true
unfolding topic_turn ends_with
turn_end id = ends_with-append b'n' (codes "conv/" ++ id) b'/' (codes "turn")

control_end : (id : Text) → ends_with b'n' (topic_control id) ≡ false
unfolding topic_control ends_with
control_end id = ends_with-append b'n' (codes "conv/" ++ id) b'/' (codes "control")

-- A turn topic is no control topic, whatever the conversations, and two conversations share neither.
pub topics_apart :
    (a b : Text)
    → (topic_turn a ≢ topic_control b)
      × ((topic_turn a ≡ topic_turn b) ↔ (a ≡ b))
      × ((topic_control a ≡ topic_control b) ↔ (a ≡ b))
topics_apart a b = (
  λ e. absurd (true-ne-false (sym (turn_end a) ∙ ap (ends_with b'n') e ∙ control_end b)),
  (turn_inj, ap topic_turn),
  (control_inj, ap topic_control),
)
  where
    turn_inj : topic_turn a ≡ topic_turn b → a ≡ b
    turn_inj e = append_cancel_right a b (codes "/turn") (
        append_cancel_left (codes "conv/") (a ++ codes "/turn") (b ++ codes "/turn")
          (unfold topic_turn in e))

    control_inj : topic_control a ≡ topic_control b → a ≡ b
    control_inj e = append_cancel_right a b (codes "/control") (
        append_cancel_left (codes "conv/") (a ++ codes "/control") (b ++ codes "/control")
          (unfold topic_control in e))
