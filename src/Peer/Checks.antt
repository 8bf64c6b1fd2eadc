-- ===== src/Peer/Checks.antt =====
-- persistent.go: one check of `ConverseTurn`.
use vitis.Prelude.{
  ℕ, Bool, true, false, List, [], ◌∷◌, Option, none, some, ◌≡◌, ◌⊎◌, inl, inr, refl, sym, ap, ltb,
  length, take, Bool-cases,
}
use vitis.Text.{Text}
use vitis.Peer.{find_line_anchored_marker, strip_envelope_echo}
use vitis.Peer.Anchor.{IsAnchored, find_line_anchored_marker-IsAnchored}
use vitis.Peer.Persistent.{
  max_buffer_bytes, PersistentProcess, pump, Wake, Answer, replied, unread, ended, scanned,
  or_await, check,
}

-- The process after the events of the wake-ups.
abbrev pub pump_all : List Wake → PersistentProcess → PersistentProcess
pump_all [] p = p
pump_all (w ∷ ws) p = pump_all ws (pump w.events p)

-- The reply `r` was cut from what was unread in `p`, at a marker alone on its line.
pub record IsReply (marker : Text) (p : PersistentProcess) (r : Text) : Type 0 where
  pub at : ℕ
  pub found : find_line_anchored_marker (unread p) marker ≡ some at
  pub anchored : IsAnchored (unread p) marker at
  pub cut : r ≡ strip_envelope_echo (take at (unread p)) marker

pub pair_parts : {A B : Type 0} {x y : A × B} → x ≡ y → (x.0 ≡ y.0) × (x.1 ≡ y.1)
pair_parts h = (ap (λ x. x.0) h, ap (λ x. x.1) h)

ended_replied :
    (p : PersistentProcess) (ctx_err : Option Text) (late : Bool) {r : Text}
    → ended p ctx_err late ≡ some (replied r)
    → ⊥
ended_replied p (some e) late h = elim (Bool-cases p.exited) [
  | inl y ↦ cc (rw y at h)
  | inr n ↦ cc (rw n at h)
]
ended_replied p none true h = elim (Bool-cases p.exited) [
  | inl y ↦ cc (rw y at h)
  | inr n ↦ cc (rw n at h)
]
ended_replied p none false h = elim (Bool-cases p.exited) [
  | inl y ↦ cc (rw y at h)
  | inr n ↦ cc (rw n at h)
]

ended_waits :
    (p : PersistentProcess) (ctx_err : Option Text) (late : Bool)
    → ended p ctx_err late ≡ none
    → (p.exited ≡ false) × (ctx_err ≡ none) × (late ≡ false)
ended_waits p (some e) late h = elim (Bool-cases p.exited) [
  | inl y ↦ absurd (cc (rw y at h))
  | inr n ↦ absurd (cc (rw n at h))
]
ended_waits p none true h = elim (Bool-cases p.exited) [
  | inl y ↦ absurd (cc (rw y at h))
  | inr n ↦ absurd (cc (rw n at h))
]
ended_waits p none false h = elim (Bool-cases p.exited) [
  | inl y ↦ absurd (cc (rw y at h))
  | inr n ↦ (n, refl, refl)
]

scanned_replied :
    (p : PersistentProcess) (marker : Text) (o : Option ℕ) (after : Option Answer)
    {q : PersistentProcess} {r : Text}
    → (after ≡ some (replied r) → ⊥)
    → scanned p marker o after ≡ (q, some (replied r))
    → (i : ℕ) × (o ≡ some i)
      × (r ≡ strip_envelope_echo (take i (unread p)) marker)
      × (q.buffer ≡ [])
      × (q.cursor ≡ 0)
scanned_replied p marker none after f h =
    elim (Bool-cases (ltb max_buffer_bytes (length (unread p)))) [
      | inl y ↦ absurd (cc (pair_parts (rw y at h)).1)
      | inr n ↦ absurd (f (pair_parts (rw n at h)).1)
    ]
scanned_replied p marker (some i) after {q} {r} f h = (
  i,
  refl,
  inside (pair_parts h).1,
  ap (λ x. x.buffer) (sym (pair_parts h).0),
  ap (λ x. x.cursor) (sym (pair_parts h).0),
)
  where
    inside : {a b : Text} → some (replied a) ≡ some (replied b) → b ≡ a
    inside e = cc

scanned_waits :
    (p : PersistentProcess) (marker : Text) (o : Option ℕ) (after : Option Answer)
    → (scanned p marker o after).1 ≡ none
    → ((scanned p marker o after).0 ≡ p) × (after ≡ none)
scanned_waits p marker none after h = elim (Bool-cases (ltb max_buffer_bytes (length (unread p)))) [
  | inl y ↦ absurd (cc (rw y at h))
  | inr n ↦ rw n (refl, rw n at h)
]
scanned_waits p marker (some i) after h = absurd (cc)

pub check_replied :
    (marker : Text) (ctx_err : Option Text) (late : Bool) (p : PersistentProcess)
    {q : PersistentProcess} {r : Text}
    → check marker ctx_err late p ≡ (q, some (replied r))
    → IsReply marker p r × (q.buffer ≡ []) × (q.cursor ≡ 0)
unfolding check
check_replied marker ctx_err late p h = elim (Bool-cases (ltb p.cursor (length p.buffer))) [
  | inr n ↦ absurd (ended_replied p ctx_err late (pair_parts (rw n at h)).1)
  | inl y ↦
      let (i, e, cut, empty, start) =
        scanned_replied p marker (find_line_anchored_marker (unread p) marker)
          (ended p ctx_err late) (ended_replied p ctx_err late) (rw y at h) in
      (
        record {
          at = i;
          found = e;
          anchored = find_line_anchored_marker-IsAnchored (unread p) marker e;
          cut = cut;
        },
        empty,
        start,
      )
]

pub check_waits :
    (marker : Text) (ctx_err : Option Text) (late : Bool) (p : PersistentProcess)
    → (check marker ctx_err late p).1 ≡ none
    → ((check marker ctx_err late p).0 ≡ p) × (p.exited ≡ false) × (ctx_err ≡ none) × (late ≡ false)
unfolding check
check_waits marker ctx_err late p h = elim (Bool-cases (ltb p.cursor (length p.buffer))) [
  | inr n ↦ let (x, c, l) = ended_waits p ctx_err late (rw n at h) in rw n (refl, x, c, l)
  | inl y ↦
      let (same, e) = scanned_waits p marker _ _ (rw y at h) in
      let (x, c, l) = ended_waits p ctx_err late e in (rw y same, x, c, l)
]

pub or_await-replied :
    (rest : PersistentProcess → PersistentProcess × Option Answer)
    (o : PersistentProcess × Option Answer) {q : PersistentProcess} {r : Text}
    → or_await rest o ≡ (q, some (replied r))
    → (o ≡ (q, some (replied r))) ⊎ ((o.1 ≡ none) × (rest o.0 ≡ (q, some (replied r))))
or_await-replied rest (p, some a) h = inl h
or_await-replied rest (p, none) h = inr (refl, h)
