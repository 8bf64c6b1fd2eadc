-- ===== src/Peer/Anchor.antt =====
-- persistent.go: `findLineAnchoredMarker` against the occurrences that stand alone on their line, told
-- by the parts of the buffer.
use vitis.Prelude.{
  ℕ, ◌+◌, ◌≤◌, Bool, true, ◌&&◌, [], ◌∷◌, ◌++◌, some, ◌≡◌, ◌≢◌, ◌⊎◌, inl, inr, refl, sym, ap, ap₂,
  ◌∙◌, arith, ◌==◌, length, take, drop, append-nil, append_assoc, All, Bool-cases, length-take,
  ==_iff,
}
use vitis.Text.{Text, has_prefix}
use vitis.Text.Lines.{Free}
use vitis.Text.Trim.{has_prefix-drop, has_prefix-append}
use vitis.Text.Positions.{IsAt-le, drop-append, drop-drop, length_positive}
use vitis.Envelope.Tokens.{IsWord}
use vitis.Envelope.Bodies.{take-drop}
use vitis.Peer.{
  is_horizontal, is_horizontal_whitespace, line_start, line_end, from_newline, is_anchored,
  find_line_anchored_marker,
}
use vitis.Peer.Marked.{
  IsMarked, find_line_anchored_marker-IsMarked, find_line_anchored_marker_least,
}
use vitis.Peer.Lines.{is_anchored_at, line_start-append, line_start-newline}

-- A space, a tab or a carriage return.
abbrev pub IsBlankChar : ℕ → Type 0
IsBlankChar c = (c ≡ 32) ⊎ (c ≡ 9) ⊎ (c ≡ 13)

-- The start of the buffer, or behind a newline.
abbrev pub EndsLine : Text → Type 0
EndsLine t = (t ≡ []) ⊎ ((s : Text) × (t ≡ s ++ 10 ∷ []))

-- The end of the buffer, or before a newline.
abbrev pub StartsLine : Text → Type 0
StartsLine t = (t ≡ []) ⊎ ((s : Text) × (t ≡ 10 ∷ s))

-- The marker stands at `i`, with nothing but blanks around it on its line.
pub record IsAnchored (buf marker : Text) (i : ℕ) : Type 0 where
  pub above : Text
  pub left : Text
  pub right : Text
  pub below : Text
  pub parts : buf ≡ (above ++ left) ++ (marker ++ (right ++ below))
  pub place : i ≡ length (above ++ left)
  pub ends_line : EndsLine above
  pub blank_left : All IsBlankChar left
  pub blank_right : All IsBlankChar right
  pub starts_line : StartsLine below

horizontal-blank : (t : Text) → is_horizontal_whitespace t ≡ true → All IsBlankChar t
unfolding is_horizontal_whitespace is_horizontal
horizontal-blank [] h = tt
horizontal-blank (c ∷ t) h = (ground arith, horizontal-blank t (ground arith))

blank-horizontal : (t : Text) → All IsBlankChar t → is_horizontal_whitespace t ≡ true
unfolding is_horizontal_whitespace is_horizontal
blank-horizontal [] b = refl
blank-horizontal (c ∷ t) b = ground (arith, b.0, blank-horizontal t b.1)

blank-Free : (t : Text) → All IsBlankChar t → Free b'\n' t
blank-Free [] b = tt
blank-Free (c ∷ t) b = (ground (arith, b.0), blank-Free t b.1)

line_end-parts : (t : Text) → t ≡ line_end t ++ from_newline t
unfolding line_end from_newline
line_end-parts [] = refl
line_end-parts (c ∷ t) = elim (Bool-cases (c == b'\n')) [
  | inl y ↦ rw y refl
  | inr n ↦ rw n (ap (◌∷◌ c) (line_end-parts t))
]

from_newline-StartsLine : (t : Text) → StartsLine (from_newline t)
unfolding from_newline
from_newline-StartsLine [] = inl refl
from_newline-StartsLine (c ∷ t) = elim (Bool-cases (c == b'\n')) [
  | inl y ↦ rw y (inr (t, ap (λ x. x ∷ t) ((==_iff c b'\n').0 y)))
  | inr n ↦ rw n (from_newline-StartsLine t)
]

-- The rest of a line begins behind a whole number of lines.
line_start-parts :
    (above line t : Text)
    → EndsLine above
    → (a : Text) × (above ++ (line ++ t) ≡ a ++ line_start line t) × EndsLine a
unfolding line_start
line_start-parts above line [] e = (above, ap (λ x. above ++ x) (append-nil line), e)
line_start-parts above line (c ∷ t) e = elim (Bool-cases (c == b'\n')) [
  | inl y ↦
      let next : Text = (above ++ line) ++ 10 ∷ [] in
      let (a, same, e') = line_start-parts next [] t (inr (above ++ line, refl)) in
      let whole : above ++ (line ++ (c ∷ t)) ≡ next ++ t =
        ap (λ x. above ++ (line ++ (x ∷ t))) ((==_iff c b'\n').0 y)
        ∙ sym (append_assoc above line (10 ∷ t))
        ∙ sym (append_assoc (above ++ line) (10 ∷ []) t) in
      rw y (a, whole ∙ same, e')
  | inr n ↦
      let (a, same, e') = line_start-parts above (line ++ c ∷ []) t e in
      rw n (a, ap (λ x. above ++ x) (sym (append_assoc line (c ∷ []) t)) ∙ same, e')
]

both : (x y : Bool) → (x && y) ≡ true → (x ≡ true) × (y ≡ true)
both x y h = ground arith

IsMarked-IsAnchored :
    (buf marker : Text) (i : ℕ) → marker ≢ [] → IsMarked buf marker i → IsAnchored buf marker i
unfolding is_anchored
IsMarked-IsAnchored buf marker i given m =
    let (a, top, ends) = line_start-parts [] [] (take i buf) (inl refl) in
    let rest : Text = drop (length marker) (drop i buf) in
    let left : Text = line_start [] (take i buf) in
    let whole : buf ≡ take i buf ++ (marker ++ rest) =
      take-drop i buf ∙ ap (λ x. take i buf ++ x) (has_prefix-drop (drop i buf) marker m.at) in
    let (blank, blank') =
      both (is_horizontal_whitespace left)
        (is_horizontal_whitespace (line_end (drop (i + length marker) buf))) m.alone in
    let behind : rest ≡ drop (i + length marker) buf =
      drop-drop i (length marker) (i + length marker) buf refl in
    record {
      above = a;
      left = left;
      right = line_end rest;
      below = from_newline rest;
      parts = whole ∙ ap₂ (λ x y. x ++ (marker ++ y)) top (line_end-parts rest);
      place = omega (
        arith,
        length-take i buf,
        ap length top,
        IsAt-le buf marker i m.at,
        length_positive marker given,
      );
      ends_line = ends;
      blank_left = horizontal-blank left blank;
      blank_right =
          horizontal-blank (line_end rest)
            (ap (λ x. is_horizontal_whitespace (line_end x)) behind ∙ blank');
      starts_line = from_newline-StartsLine rest;
    }

EndsLine-line_start : (t : Text) → EndsLine t → line_start [] t ≡ []
unfolding line_start
EndsLine-line_start t (inl e) = ap (line_start []) e
EndsLine-line_start t (inr (s, e)) = ap (line_start []) e ∙ line_start-newline [] s

line_end-append : (t u : Text) → Free b'\n' t → StartsLine u → line_end (t ++ u) ≡ t
unfolding line_end
line_end-append [] u f (inl e) = ap line_end e
line_end-append [] u f (inr (s, e)) = ap line_end e
line_end-append (c ∷ t) u f l = rw f.0 (ap (◌∷◌ c) (line_end-append t u f.1 l))

IsAnchored-IsMarked : (buf marker : Text) (i : ℕ) → IsAnchored buf marker i → IsMarked buf marker i
IsAnchored-IsMarked buf marker i a =
    let before : Text = a.above ++ a.left in
    let behind : Text = a.right ++ a.below in
    let here : drop i buf ≡ marker ++ behind =
      ap₂ drop a.place a.parts ∙ drop-append before (marker ++ behind) in
    let start : line_start [] before ≡ a.left =
      line_start-append [] a.above a.left (blank-Free a.left a.blank_left)
      ∙ ap (λ x. x ++ a.left) (EndsLine-line_start a.above a.ends_line) in
    let end : line_end behind ≡ a.right =
      line_end-append a.right a.below (blank-Free a.right a.blank_right) a.starts_line in
    record {
      at = ap (λ x. has_prefix x marker) here ∙ has_prefix-append marker behind;
      alone =
          ap (λ x. is_anchored x marker i) a.parts
          ∙ is_anchored_at before marker behind i a.place
          ∙ ap₂ (λ x y. is_horizontal_whitespace x && is_horizontal_whitespace y) start end
          ∙ ap₂ ◌&&◌ (blank-horizontal a.left a.blank_left)
              (blank-horizontal a.right a.blank_right);
    }

found_given :
    (buf marker : Text) {i : ℕ} → find_line_anchored_marker buf marker ≡ some i → marker ≢ []
unfolding find_line_anchored_marker
found_given buf marker h e = absurd (cc (ap (find_line_anchored_marker buf) e, h))

-- What `findLineAnchoredMarker` finds is an occurrence of the marker, behind the start of the buffer
-- or a newline and before its end or a newline, with nothing but spaces, tabs and carriage returns
-- between.
pub find_line_anchored_marker-IsAnchored :
    (buf marker : Text) {i : ℕ}
    → find_line_anchored_marker buf marker ≡ some i
    → IsAnchored buf marker i
find_line_anchored_marker-IsAnchored buf marker {i} h =
    IsMarked-IsAnchored buf marker i (found_given buf marker h)
      (find_line_anchored_marker-IsMarked buf marker h)

-- For a marker that is one word, `findLineAnchoredMarker` finds an occurrence alone on its line if
-- there is one, and none stands before it.
pub find_line_anchored_marker-le :
    (buf marker : Text) (j : ℕ)
    → IsWord marker
    → marker ≢ []
    → IsAnchored buf marker j
    → (i : ℕ) × (find_line_anchored_marker buf marker ≡ some i) × IsAnchored buf marker i × (i ≤ j)
find_line_anchored_marker-le buf marker j w f a =
    let (i, e, m, le) =
      find_line_anchored_marker_least buf marker j w f (IsAnchored-IsMarked buf marker j a) in
    (i, e, IsMarked-IsAnchored buf marker i f m, le)
