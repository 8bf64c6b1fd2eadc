-- ===== src/Terminal/Tail.antt =====
-- transcript.go: a transcript against all that was appended to it.
use vitis.Prelude.{
  ℕ, ◌-◌, ◌≤◌, List, [], ◌∷◌, ◌++◌, ◌≡◌, inl, inr, refl, sym, ap, ◌∙◌, subst, arith, ltb,
  le→not_ltb, not_ltb→le, length, length-append, length-drop, drop, append-nil, append_assoc,
  Bool-cases,
}
use vitis.Text.{Text, is_empty}
use vitis.Text.Equal.{is_empty_iff}
use vitis.Text.Positions.{drop-drop, drop-append_le}
use vitis.Terminal.Transcript.{StreamEvent, Transcript, new_transcript, last_bytes, append}

last_bytes-drop : (n : ℕ) (t : Text) → last_bytes n t ≡ drop (length t - n) t
unfolding last_bytes
last_bytes-drop n t = elim (Bool-cases (ltb n (length t))) [
  | inl y ↦ rw y
  | inr m ↦
      rw m
        (ap (λ k. drop k t) {x = 0} {y = length t - n} (omega (arith, not_ltb→le n (length t) m)))
]

-- The end of an end is the end.
last_bytes-append :
    (n : ℕ) (a b : Text) → last_bytes n (last_bytes n a ++ b) ≡ last_bytes n (a ++ b)
last_bytes-append n a b =
    let k : ℕ = length a - n in
    let joined : last_bytes n a ++ b ≡ drop k (a ++ b) =
      ap (λ x. x ++ b) (last_bytes-drop n a) ∙ sym (drop-append_le k a b (omega arith)) in
    ap (last_bytes n) joined
    ∙ last_bytes-drop n (drop k (a ++ b))
    ∙ drop-drop k (length (drop k (a ++ b)) - n) (length (a ++ b) - n) (a ++ b)
        (omega (arith, length-drop k (a ++ b), length-append a b))
    ∙ sym (last_bytes-drop n (a ++ b))

length-last_bytes : (n : ℕ) (t : Text) → length (last_bytes n t) ≤ n
length-last_bytes n t = omega (arith, ap length (last_bytes-drop n t), length-drop (length t - n) t)

-- The transcript of the bytes `all`.
pub record IsTranscript (all : Text) (t : Transcript) : Type 0 where
  pub full : t.full_raw ≡ all
  pub ends_with_all : t.tail ≡ last_bytes t.tail_capacity all
  pub counted : t.bytes_seen ≡ length all
  pub bounded : length t.tail ≤ t.tail_capacity

pub append-IsTranscript :
    (all : Text) (e : StreamEvent) (t : Transcript)
    → IsTranscript all t
    → IsTranscript (all ++ e.data_of) (append e t)
unfolding append
append-IsTranscript all e t i = elim (Bool-cases (is_empty e.data_of)) [
  | inl y ↦
      let nothing : all ++ e.data_of ≡ all =
        ap (λ x. all ++ x) ((is_empty_iff e.data_of).0 y) ∙ append-nil all in
      rw y (subst (λ x. IsTranscript x t) (sym nothing) i)
  | inr n ↦ rw n (record {
    full = ap (λ x. x ++ e.data_of) i.full;
    ends_with_all =
        ap (λ x. last_bytes t.tail_capacity (x ++ e.data_of)) i.ends_with_all
        ∙ last_bytes-append t.tail_capacity all e.data_of;
    counted = omega (arith, i.counted, length-append all e.data_of);
    bounded = length-last_bytes t.tail_capacity (t.tail ++ e.data_of);
  })
]

-- The events, appended one after the other.
unfoldable pub append_all : List StreamEvent → Transcript → Transcript
unfolding append
append_all [] t = t
append_all (e ∷ es) t = append_all es (append e t)

unfoldable pub bytes_of : List StreamEvent → Text
bytes_of [] = []
bytes_of (e ∷ es) = e.data_of ++ bytes_of es

appended_all-IsTranscript :
    (all : Text) (es : List StreamEvent) (t : Transcript)
    → IsTranscript all t
    → IsTranscript (all ++ bytes_of es) (append_all es t)
unfolding append_all bytes_of
appended_all-IsTranscript all [] t i = subst (λ x. IsTranscript x t) (sym (append-nil all)) i
appended_all-IsTranscript all (e ∷ es) t i =
    subst (λ x. IsTranscript x (append_all es (append e t)))
      (append_assoc all e.data_of (bytes_of es))
      (appended_all-IsTranscript (all ++ e.data_of) es (append e t) (append-IsTranscript all e t i))

last_bytes-nil : (n : ℕ) → last_bytes n [] ≡ []
unfolding last_bytes
last_bytes-nil n = rw (le→not_ltb n 0 (omega arith))

pub new_transcript-IsTranscript : (capacity : ℕ) → IsTranscript [] (new_transcript capacity)
unfolding new_transcript
new_transcript-IsTranscript capacity = record {
  full = refl;
  ends_with_all = sym (last_bytes-nil (new_transcript capacity).tail_capacity);
  counted = refl;
  bounded = omega arith;
}

-- However the output is cut into events, a transcript holds all of it, its tail is the last bytes of
-- it up to the capacity, and the count of the bytes is right.
pub append_all-IsTranscript :
    (capacity : ℕ) (es : List StreamEvent)
    → IsTranscript (bytes_of es) (append_all es (new_transcript capacity))
append_all-IsTranscript capacity es =
    appended_all-IsTranscript [] es (new_transcript capacity) (new_transcript-IsTranscript capacity)
