-- ===== src/Policy/Spans.antt =====
-- The longest run of id characters.
use vitis.Prelude.{true, [], ◌∷◌, ◌++◌, ◌≡◌, inl, inr, refl, ap, All, Bool-cases}
use vitis.Text.{Text}
use vitis.Text.Trim.{Starts}
use vitis.Model.PeerId.{is_id_char}
use vitis.Policy.{span_id}

pub span_id-splits : (t : Text) → t ≡ (span_id t).0 ++ (span_id t).1
unfolding span_id
span_id-splits [] = refl
span_id-splits (c ∷ cs) = elim (Bool-cases (is_id_char c)) [
  | inl y ↦ rw y (ap (◌∷◌ c) (span_id-splits cs))
  | inr n ↦ rw n
]

pub span_id-append :
    (id rest : Text)
    → All (λ c. is_id_char c ≡ true) id
    → Starts is_id_char rest
    → span_id (id ++ rest) ≡ (id, rest)
unfolding span_id
span_id-append [] [] h s = refl
span_id-append [] (c ∷ cs) h s = rw s
span_id-append (c ∷ id) rest h s = rw (h.0, span_id-append id rest h.1 s)
