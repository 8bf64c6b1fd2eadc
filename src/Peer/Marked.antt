-- ===== src/Peer/Marked.antt =====
-- persistent.go: the loop of `findLineAnchoredMarker` over the occurrences that pass its test.
use vitis.Prelude.{
  ℕ, zero, suc, ◌+◌, ◌≤◌, ◌<◌, ◌-◌, true, false, [], ◌∷◌, ◌++◌, none, some, ◌≡◌, ◌≢◌, inl, inr,
  refl, sym, subst, ◌∙◌, arith, ◌==◌, leb, leb→le, not_leb→lt, length, take, drop, get_elem?,
  length-drop, Bool-cases, Option-cases, if◌then◌else◌,
}
use vitis.Text.{Text, index, is_empty, is_space, has_prefix}
use vitis.Text.Equal.{is_empty_iff}
use vitis.Text.Find.{IsAt, index-IsAt, index-none}
use vitis.Text.Positions.{
  drop-drop, IsAt-le, get_elem?-lt, get_elem?-has_prefix, get_elem?-drop, get_elem?-All, take-suc,
  length_positive,
}
use vitis.Envelope.Tokens.{IsWord}
use vitis.Envelope.Bodies.{index-IsFirst}
use vitis.Peer.{
  is_horizontal, is_horizontal_whitespace, line_start, is_anchored, anchored_from,
  find_line_anchored_marker,
}

-- The marker stands at `i`, and the code's test finds it alone on its line.
pub record IsMarked (buf marker : Text) (i : ℕ) : Type 0 where
  pub at : IsAt buf i marker
  pub alone : is_anchored buf marker i ≡ true

pub line_start-concat :
    (line t : Text) (c : ℕ)
    → (c == b'\n') ≡ false
    → line_start line (t ++ c ∷ []) ≡ line_start line t ++ c ∷ []
unfolding line_start
line_start-concat line [] c n = rw n
line_start-concat line (x ∷ t) c n = elim (Bool-cases (x == b'\n')) [
  | inl y ↦ rw y (line_start-concat [] t c n)
  | inr m ↦ rw m (line_start-concat (line ++ x ∷ []) t c n)
]

horizontal-concat :
    (t : Text) (c : ℕ) → is_horizontal c ≡ false → is_horizontal_whitespace (t ++ c ∷ []) ≡ false
unfolding is_horizontal_whitespace
horizontal-concat [] c n = rw n
horizontal-concat (x ∷ t) c n = ground (arith, horizontal-concat t c n)

not_space-parts : (c : ℕ) → is_space c ≡ false → ((c == b'\n') ≡ false) × (is_horizontal c ≡ false)
unfolding is_space is_horizontal
not_space-parts c h = ground arith

-- Behind a character that is not white space, nothing stands alone on its line.
not_anchored :
    (buf marker : Text) (k : ℕ) {c : ℕ}
    → get_elem? buf k ≡ some c
    → is_space c ≡ false
    → is_anchored buf marker (suc k) ≡ false
unfolding is_anchored
not_anchored buf marker k {c} g s =
    let (n, h) = not_space-parts c s in
    rw (take-suc buf k g) (
      rw (line_start-concat [] (take k buf) c n)
        (rw (horizontal-concat (line_start [] (take k buf)) c h)))

-- Inside an occurrence of a word, no other stands alone on its line.
overlap :
    (buf marker : Text) (a j : ℕ)
    → IsWord marker
    → IsAt buf a marker
    → a < j
    → j < a + length marker
    → is_anchored buf marker j ≡ false
overlap buf marker a zero w at l u = absurd (omega arith)
overlap buf marker a (suc k) w at l u =
    let (c, g) = get_elem?-lt marker (k - a) (omega arith) in
    not_anchored buf marker k
      (sym (get_elem?-drop a (k - a) k buf (omega arith))
        ∙ get_elem?-has_prefix (drop a buf) marker (k - a) at g)
      (get_elem?-All (λ x. is_space x ≡ false) marker (k - a) w g)

anchored_from_step :
    (fuel offset : ℕ) (buf marker : Text) {rel : ℕ}
    → index (drop offset buf) marker ≡ some rel
    → anchored_from (suc fuel) offset buf marker ≡ (
        if is_anchored buf marker (offset + rel)
        then some (offset + rel)
        else anchored_from fuel (offset + rel + length marker) buf marker)
unfolding anchored_from
anchored_from_step fuel offset buf marker e = rw (e, anchored_from)

anchored_from_end :
    (fuel offset : ℕ) (buf marker : Text)
    → index (drop offset buf) marker ≡ none
    → anchored_from (suc fuel) offset buf marker ≡ none
unfolding anchored_from
anchored_from_end fuel offset buf marker e = rw (e, anchored_from)

anchored_from-IsMarked :
    (fuel offset : ℕ) (buf marker : Text) {i : ℕ}
    → anchored_from fuel offset buf marker ≡ some i
    → IsMarked buf marker i
unfolding anchored_from
anchored_from-IsMarked zero offset buf marker h = absurd (cc)
anchored_from-IsMarked (suc fuel) offset buf marker {i} h =
    elim (Option-cases (index (drop offset buf) marker)) [
      | inl n ↦ absurd (cc (h, anchored_from_end fuel offset buf marker n))
      | inr (rel, e) ↦ elim (Bool-cases (is_anchored buf marker (offset + rel))) [
        | inl y ↦
            let step : anchored_from (suc fuel) offset buf marker ≡ some (offset + rel) =
              anchored_from_step fuel offset buf marker e ∙ rw y in
            subst (IsMarked buf marker) {x = offset + rel} {y = i} (cc) (record {
              at =
                  subst (λ t. has_prefix t marker ≡ true)
                    (drop-drop offset rel (offset + rel) buf refl)
                    (index-IsAt (drop offset buf) marker e);
              alone = y;
            })
        | inr n ↦
            let step : anchored_from (suc fuel) offset buf marker
                ≡ anchored_from fuel (offset + rel + length marker) buf marker =
              anchored_from_step fuel offset buf marker e ∙ rw n in
            anchored_from-IsMarked fuel (offset + rel + length marker) buf marker (sym step ∙ h)
      ]
    ]

-- The loop comes to an anchored occurrence that lies before it, or to an earlier one.
anchored_from-le :
    (fuel offset : ℕ) (buf marker : Text) (j : ℕ)
    → IsWord marker
    → 1 ≤ length marker
    → length buf < fuel + offset
    → offset ≤ j
    → IsMarked buf marker j
    → (i : ℕ) × (anchored_from fuel offset buf marker ≡ some i) × (i ≤ j)
unfolding anchored_from
anchored_from-le zero offset buf marker j w ne f l a =
    absurd (omega (arith, IsAt-le buf marker j a.at))
anchored_from-le (suc fuel) offset buf marker j w ne f l a =
    let here : has_prefix (drop (j - offset) (drop offset buf)) marker ≡ true =
      subst (λ t. has_prefix t marker ≡ true)
        (sym (drop-drop offset (j - offset) j buf (omega arith))) a.at in
    elim (Option-cases (index (drop offset buf) marker)) [
      | inl n ↦ absurd (
          cc (
            here,
            index-none (drop offset buf) marker (j - offset) n
                (omega (arith, length-drop offset buf, IsAt-le buf marker j a.at)),
          ))
      | inr (rel, e) ↦
          let first : rel ≤ j - offset =
            index-IsFirst (drop offset buf) marker e (j - offset) here in
          let found : IsAt buf (offset + rel) marker =
            subst (λ t. has_prefix t marker ≡ true) (drop-drop offset rel (offset + rel) buf refl)
              (index-IsAt (drop offset buf) marker e) in
          elim (Bool-cases (is_anchored buf marker (offset + rel))) [
            | inl y ↦
                (offset + rel, anchored_from_step fuel offset buf marker e ∙ rw y, omega arith)
            | inr n ↦
                let apart : offset + rel ≢ j = λ same. cc (n, a.alone) in
                let past : offset + rel + length marker ≤ j =
                  elim (Bool-cases (leb (offset + rel + length marker) j)) [
                    | inl y ↦ leb→le _ _ y
                    | inr m ↦ absurd (
                        cc (
                          a.alone,
                          overlap buf marker (offset + rel) j w found (omega (arith, apart))
                              (not_leb→lt _ _ m),
                        ))
                  ] in
                let (i, r, le) =
                  anchored_from-le fuel (offset + rel + length marker) buf marker j w ne
                    (omega arith) past a in
                (i, anchored_from_step fuel offset buf marker e ∙ rw n r, le)
          ]
    ]

-- What is found is an occurrence that passes.
pub find_line_anchored_marker-IsMarked :
    (buf marker : Text) {i : ℕ}
    → find_line_anchored_marker buf marker ≡ some i
    → IsMarked buf marker i
unfolding find_line_anchored_marker
find_line_anchored_marker-IsMarked buf marker h = elim (Bool-cases (is_empty marker)) [
  | inl y ↦ absurd (cc (rw y at h))
  | inr n ↦ anchored_from-IsMarked (suc (length buf)) 0 buf marker (rw n at h)
]

-- For a marker that is one word, an occurrence that passes is found if there is one, and none before it.
pub find_line_anchored_marker_least :
    (buf marker : Text) (j : ℕ)
    → IsWord marker
    → marker ≢ []
    → IsMarked buf marker j
    → (i : ℕ) × (find_line_anchored_marker buf marker ≡ some i) × IsMarked buf marker i × (i ≤ j)
unfolding find_line_anchored_marker
find_line_anchored_marker_least buf marker j w f a = elim (Bool-cases (is_empty marker)) [
  | inl y ↦ absurd (f ((is_empty_iff marker).0 y))
  | inr n ↦
      let (i, e, le) =
        anchored_from-le (suc (length buf)) 0 buf marker j w (length_positive marker f)
          (omega arith) (omega arith) a in
      (i, rw n e, anchored_from-IsMarked (suc (length buf)) 0 buf marker e, le)
]
