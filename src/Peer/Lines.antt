-- ===== src/Peer/Lines.antt =====
-- Lines of a buffer: what stands before and behind a position.
use vitis.Prelude.{
  ℕ, ◌+◌, false, ◌&&◌, [], ◌∷◌, ◌++◌, ◌≡◌, inl, inr, refl, sym, ap, ap₂, ◌∙◌, arith, ◌==◌, length,
  take, drop, append_assoc, append-nil, Bool-cases,
}
use vitis.Text.{Text, codes}
use vitis.Text.Lines.{Free}
use vitis.Text.Positions.{drop-drop, take-append, drop-append}
use vitis.Peer.{is_horizontal_whitespace, line_start, line_end, is_anchored}
use vitis.Peer.Marked.{line_start-concat}

pub line_start-newline : (line t : Text) → line_start line (t ++ b'\n' ∷ []) ≡ []
unfolding line_start
line_start-newline line [] = refl
line_start-newline line (c ∷ t) = elim (Bool-cases (c == b'\n')) [
  | inl y ↦ rw y (line_start-newline [] t)
  | inr n ↦ rw n (line_start-newline (line ++ c ∷ []) t)
]

pub line_start-append :
    (line t u : Text) → Free b'\n' u → line_start line (t ++ u) ≡ line_start line t ++ u
line_start-append line t [] f =
    ap (line_start line) (append-nil t) ∙ sym (append-nil (line_start line t))
line_start-append line t (c ∷ u) f =
    ap (line_start line) (sym (append_assoc t (c ∷ []) u))
    ∙ line_start-append line (t ++ c ∷ []) u f.1
    ∙ ap (λ x. x ++ u) (line_start-concat line t c f.0)
    ∙ append_assoc (line_start line t) (c ∷ []) u

horizontal-append :
    (t u : Text) → is_horizontal_whitespace u ≡ false → is_horizontal_whitespace (t ++ u) ≡ false
unfolding is_horizontal_whitespace
horizontal-append [] u h = h
horizontal-append (c ∷ t) u h = ground (arith, horizontal-append t u h)

abbrev pub told : Text
told = codes "output the token "

pub is_anchored_at :
    (a marker b : Text) (i : ℕ)
    → i ≡ length a
    → is_anchored (a ++ (marker ++ b)) marker i
      ≡ (is_horizontal_whitespace (line_start [] a) && is_horizontal_whitespace (line_end b))
unfolding is_anchored
is_anchored_at a marker b i e =
    ap₂ (λ x y. is_horizontal_whitespace (line_start [] x) && is_horizontal_whitespace (line_end y))
      (ap (λ n. take n (a ++ (marker ++ b))) e ∙ take-append a (marker ++ b))
      (sym (
          drop-drop (length a) (length marker) (i + length marker) (a ++ (marker ++ b))
            (omega arith))
        ∙ ap (drop (length marker)) (drop-append a (marker ++ b))
        ∙ drop-append marker b)

pub line_start-told :
    (before : Text) → is_horizontal_whitespace (line_start [] (before ++ told)) ≡ false
unfolding is_horizontal_whitespace
line_start-told before =
    ap is_horizontal_whitespace (
      line_start-append [] before told (
        refl,
        (
          refl,
          (
            refl,
            (
              refl,
              (
                refl,
                (
                  refl,
                  (
                    refl,
                    (
                      refl,
                      (refl, (refl, (refl, (refl, (refl, (refl, (refl, (refl, (refl, tt))))))))),
                    ),
                  ),
                ),
              ),
            ),
          ),
        ),
      ))
    ∙ horizontal-append (line_start [] before) told refl
