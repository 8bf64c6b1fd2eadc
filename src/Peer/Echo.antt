-- ===== src/Peer/Echo.antt =====
-- persistent.go: a turn over a terminal that echoes its input, so that the buffer holds the envelope,
-- the reply and the marker.
use vitis.Prelude.{
  true-ne-false, ℕ, ◌+◌, ◌≤◌, Bool, true, false, ◌&&◌, List, [], ◌∷◌, ◌++◌, none, some, ◌≡◌, ◌≢◌,
  ◌⊎◌, inl, inr, refl, sym, ap, ap₂, subst, ◌∙◌, arith, ltb, le→not_ltb, length, length-append,
  take, drop, append_assoc, All, Bool-cases, Option-cases,
}
use vitis.Text.{Text, codes, index, is_empty, has_prefix, trim_left, trim_right}
use vitis.Text.Equal.{is_empty_iff}
use vitis.Text.Trim.{trim_both-concat, has_prefix-append}
use vitis.Text.Find.{IsAt, index-IsAt, index-none}
use vitis.Text.Positions.{
  drop-drop, length_positive, take-append, drop-append, drop-append_le, has_prefix_extend,
  has_prefix_rest, occurrences, occurrences-All,
}
use vitis.Envelope.Tokens.{IsWord}
use vitis.Envelope.Bodies.{index-IsFirst}
use vitis.Peer.{
  is_horizontal_whitespace, line_start, line_end, is_anchored, find_line_anchored_marker, is_blank,
  bytes_index, reply_after, skip_echo, strip_envelope_echo, from_newline,
}
use vitis.Peer.Marked.{IsMarked, find_line_anchored_marker_least}
use vitis.Peer.Turns.{converse_turn_found}
use vitis.Peer.Persistent.{PersistentProcess, Wake, replied, pump, unread, converse_turn}
use vitis.Peer.Lines.{line_start-newline, told, is_anchored_at, line_start-told}

abbrev pub own_line : Text
own_line = codes " on its own line.\n"

-- What the terminal shows before the marker: the envelope, which ends with the instruction, and the
-- reply.
abbrev pub shown : Text → Text → Text → Text
shown before marker reply = (before ++ (told ++ (marker ++ own_line))) ++ (reply ++ b'\n' ∷ [])

abbrev pub instructed_at : Text → ℕ
instructed_at before = length before + 17

module _ (before marker reply after : Text) where
  -- The marker stands in the instruction and behind the reply, and nowhere else.
  abbrev pub Twice : Type 0
  Twice =
      occurrences 0 marker (shown before marker reply ++ (marker ++ after))
      ≡ instructed_at before ∷ length (shown before marker reply) ∷ []

  module _ (word : IsWord marker) (given : marker ≢ [])
      (blank : is_horizontal_whitespace (line_end after) ≡ true) (twice : Twice) where
    abbrev buffer : Text
    buffer = shown before marker reply ++ (marker ++ after)

    places :
        (j : ℕ)
        → IsAt buffer j marker
        → (j ≡ instructed_at before) ⊎ (j ≡ length (shown before marker reply))
    places j at =
        subst (λ k. (k ≡ instructed_at before) ⊎ (k ≡ length (shown before marker reply)))
          {x = 0 + j} (omega arith)
          (occurrences-All
            (λ k. (k ≡ instructed_at before) ⊎ (k ≡ length (shown before marker reply))) 0 marker
            buffer j given
            (subst
              (All (λ k. (k ≡ instructed_at before) ⊎ (k ≡ length (shown before marker reply))))
              (sym twice) (inl refl, (inr refl, tt)))
            at)

    shown_line : line_start [] (shown before marker reply) ≡ []
    shown_line =
        ap (line_start [])
          (sym (append_assoc (before ++ (told ++ (marker ++ own_line))) reply (b'\n' ∷ [])))
        ∙ line_start-newline [] ((before ++ (told ++ (marker ++ own_line))) ++ reply)

    marker-IsMarked : IsMarked buffer marker (length (shown before marker reply))
    unfolding is_horizontal_whitespace
    marker-IsMarked = record {
      at =
          subst (λ t. has_prefix t marker ≡ true)
            (sym (drop-append (shown before marker reply) (marker ++ after)))
            (has_prefix-append marker after);
      alone =
          is_anchored_at (shown before marker reply) marker after
            (length (shown before marker reply)) refl
          ∙ ap₂ (λ x y. is_horizontal_whitespace x && y) shown_line blank;
    }

    abbrev remainder : Text
    remainder = own_line ++ ((reply ++ b'\n' ∷ []) ++ (marker ++ after))

    regrouped : buffer ≡ (before ++ told) ++ (marker ++ remainder)
    regrouped =
        append_assoc (before ++ (told ++ (marker ++ own_line))) (reply ++ b'\n' ∷ [])
          (marker ++ after)
        ∙ append_assoc before (told ++ (marker ++ own_line))
            ((reply ++ b'\n' ∷ []) ++ (marker ++ after))
        ∙ ap (λ x. before ++ (told ++ x))
            (append_assoc marker own_line ((reply ++ b'\n' ∷ []) ++ (marker ++ after)))
        ∙ sym (append_assoc before told (marker ++ remainder))

    instruction_not_anchored : is_anchored buffer marker (instructed_at before) ≡ false
    instruction_not_anchored =
        ap (λ t. is_anchored t marker (instructed_at before)) regrouped
        ∙ is_anchored_at (before ++ told) marker _ (instructed_at before)
            (omega (arith, length-append before told))
        ∙ and_false _ (line_start-told before)
      where
        and_false : {x : Bool} (y : Bool) → x ≡ false → (x && y) ≡ false
        and_false {x} y h = ground arith

    marker_found :
        find_line_anchored_marker buffer marker ≡ some (length (shown before marker reply))
    marker_found =
        let (i, e, a, le) =
          find_line_anchored_marker_least buffer marker (length (shown before marker reply)) word
            given marker-IsMarked in
        elim (places i a.at) [
          | inl x ↦ absurd (cc (a.alone, instruction_not_anchored, x))
          | inr x ↦ e ∙ ap some x
        ]

    abbrev tail : Text
    tail = own_line ++ (reply ++ b'\n' ∷ [])

    parts : shown before marker reply ≡ before ++ ((told ++ marker) ++ tail)
    parts =
        append_assoc before (told ++ (marker ++ own_line)) (reply ++ b'\n' ∷ [])
        ∙ ap (λ x. before ++ (told ++ x)) (append_assoc marker own_line (reply ++ b'\n' ∷ []))

    length-shown :
        length (shown before marker reply) ≡ length before + (17 + length marker + length tail)
    length-shown =
        ap length parts
        ∙ omega (
          arith,
          length-append before ((told ++ marker) ++ tail),
          length-append (told ++ marker) tail,
          length-append told marker,
        )

    needle_here :
        has_prefix (drop (length before) (shown before marker reply)) (told ++ marker) ≡ true
    needle_here =
        subst (λ t. has_prefix (drop (length before) t) (told ++ marker) ≡ true) (sym parts)
          (subst (λ t. has_prefix t (told ++ marker) ≡ true)
            (sym (drop-append before ((told ++ marker) ++ tail)))
            (has_prefix-append (told ++ marker) tail))

    needle_marker :
        (i : ℕ)
        → i ≤ length before
        → IsAt (shown before marker reply) i (told ++ marker)
        → IsAt buffer (i + 17) marker
    needle_marker i le at =
        let inner : has_prefix (drop (i + 17) (shown before marker reply)) marker ≡ true =
          subst (λ t. has_prefix t marker ≡ true)
            (drop-drop i 17 (i + 17) (shown before marker reply) refl)
            (has_prefix_rest (drop i (shown before marker reply)) told marker at) in
        subst (λ t. has_prefix t marker ≡ true)
          (sym (
            drop-append_le (i + 17) (shown before marker reply) (marker ++ after)
              (omega (arith, length-shown))))
          (has_prefix_extend (drop (i + 17) (shown before marker reply)) (marker ++ after) marker
            inner)

    needle_found : index (shown before marker reply) (told ++ marker) ≡ some (length before)
    needle_found = elim (Option-cases (index (shown before marker reply) (told ++ marker))) [
      | inl n ↦ absurd (
          true-ne-false (
            sym needle_here
            ∙ index-none (shown before marker reply) (told ++ marker) (length before) n
                (omega (arith, length-shown))))
      | inr (i, e) ↦
          let first : i ≤ length before =
            index-IsFirst (shown before marker reply) (told ++ marker) e (length before)
              needle_here in
          elim (places (i + 17)
            (needle_marker i first (index-IsAt (shown before marker reply) (told ++ marker) e))) [
              | inl x ↦ e ∙ ap some (omega (arith, x))
              | inr x ↦ absurd (omega (arith, x, length-shown))
            ]
    ]

    behind_needle :
        drop (length before + length (told ++ marker)) (shown before marker reply) ≡ tail
    behind_needle =
        ap (drop (length before + length (told ++ marker))) parts
        ∙ sym (
            drop-drop (length before) (length (told ++ marker))
              (length before + length (told ++ marker)) _ refl)
        ∙ ap (drop (length (told ++ marker))) (drop-append before ((told ++ marker) ++ tail))
        ∙ drop-append (told ++ marker) tail

    reply_behind : reply_after tail ≡ trim_right is_blank (trim_left is_blank reply)
    unfolding from_newline is_blank
    reply_behind = trim_both-concat is_blank reply b'\n' blank_newline
      where
        blank_newline : is_blank b'\n' ≡ true
        blank_newline = refl

    shown_nonempty : is_empty (shown before marker reply) ≡ false
    shown_nonempty = elim (Bool-cases (is_empty (shown before marker reply))) [
      | inr n ↦ n
      | inl y ↦
          absurd (
            omega (arith, length-shown, ap length ((is_empty_iff (shown before marker reply)).0 y)))
    ]

    echo_stripped :
        strip_envelope_echo (shown before marker reply) marker
        ≡ trim_right is_blank (trim_left is_blank reply)
    unfolding strip_envelope_echo bytes_index
    echo_stripped = rw shown_nonempty (
        rw long_enough (
          ap (skip_echo (shown before marker reply) (told ++ marker)) needle_found
          ∙ ap reply_after behind_needle
          ∙ reply_behind))
      where
        long_enough : ltb (length (shown before marker reply)) (length (told ++ marker)) ≡ false
        long_enough =
            le→not_ltb (length (shown before marker reply)) (length (told ++ marker))
              (omega (arith, length-shown, length-append told marker))

  -- A turn that finds the echoed envelope, the reply and the marker ends at once with the reply, its
  -- blanks trimmed at both ends, and keeps nothing of the output. The marker is one word, and stands
  -- in the envelope's last instruction and behind the reply, alone on its line, and nowhere else.
  pub converse_turn_echo :
      (w : Wake) (ws : List Wake) (p : PersistentProcess)
      → IsWord marker
      → marker ≢ []
      → is_horizontal_whitespace (line_end after) ≡ true
      → Twice
      → unread (pump w.events p) ≡ shown before marker reply ++ (marker ++ after)
      → converse_turn marker none (w ∷ ws) p ≡ (
        record (pump w.events p) { buffer = []; cursor = 0 },
        some (replied (trim_right is_blank (trim_left is_blank reply))),
      )
  converse_turn_echo w ws p word given blank twice u =
      converse_turn_found marker w ws p (given_not_empty marker given)
        (omega (
          arith,
          ap length u,
          length-append (shown before marker reply) (marker ++ after),
          length-append marker after,
          length_positive marker given,
        ))
        (ap (λ t. find_line_anchored_marker t marker) u ∙ marker_found word given blank twice)
      ∙ ap (λ t. (record (pump w.events p) { buffer = []; cursor = 0 }, some (replied t)))
          (ap (λ t. strip_envelope_echo (take (length (shown before marker reply)) t) marker) u
            ∙ ap (λ t. strip_envelope_echo t marker)
                (take-append (shown before marker reply) (marker ++ after))
            ∙ echo_stripped word given blank twice)
    where
      given_not_empty : (m : Text) → m ≢ [] → is_empty m ≡ false
      given_not_empty [] f = absurd (f refl)
      given_not_empty (c ∷ m) f = refl
