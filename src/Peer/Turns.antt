-- ===== src/Peer/Turns.antt =====
-- persistent.go: how `ConverseTurn` ends, and where its reply comes from.
use vitis.Prelude.{
  ℕ, ◌≤◌, Bool, true, false, List, [], ◌∷◌, ◌++◌, Option, none, some, ◌≡◌, ◌≢◌, ◌⊎◌, inl, inr, refl,
  ap, subst, ◌∙◌, arith, lt→ltb, length-drop, if◌then◌else◌, length, take, Bool-cases, Option-cases,
}
use vitis.Text.{Text, is_empty}
use vitis.Peer.{find_line_anchored_marker, strip_envelope_echo}
use vitis.Peer.Persistent.{
  empty_marker, write_failed, PersistentProcess, pump, Wake, Answer, replied, unread, ended,
  scanned, or_await, check, await, converse_turn,
}
use vitis.Peer.Checks.{IsReply, pump_all, pair_parts, check_replied, check_waits, or_await-replied}

-- The process after the events of the wake-ups that were seen.
pub record Cut (marker : Text) (wakes : List Wake) (p q : PersistentProcess) (r : Text)
    : Type 0 where
  pub seen : List Wake
  pub unseen : List Wake
  pub split : wakes ≡ seen ++ unseen
  pub reply : IsReply marker (pump_all seen p) r
  pub emptied : q.buffer ≡ []
  pub restarted : q.cursor ≡ 0

await_replied :
    (marker : Text) (wakes : List Wake) (p : PersistentProcess) {q : PersistentProcess} {r : Text}
    → await marker wakes p ≡ (q, some (replied r))
    → Cut marker wakes p q r
unfolding await
await_replied marker [] p h = absurd (cc (pair_parts h).1)
await_replied marker (w ∷ ws) p {q} {r} h =
    elim (or_await-replied (await marker ws) (check marker w.ctx_err w.late (pump w.events p)) h) [
      | inl e ↦
          let (reply, empty, start) = check_replied marker w.ctx_err w.late (pump w.events p) e in
          record {
            seen = w ∷ [];
            unseen = ws;
            split = refl;
            reply = reply;
            emptied = empty;
            restarted = start;
          }
      | inr (waits, e) ↦
          let (same, _, _, _) = check_waits marker w.ctx_err w.late (pump w.events p) waits in
          let c =
            await_replied marker ws (pump w.events p)
              (subst (λ x. await marker ws x ≡ (q, some (replied r))) same e) in
          record {
            seen = w ∷ c.seen;
            unseen = c.unseen;
            split = ap (◌∷◌ w) c.split;
            reply = c.reply;
            emptied = c.emptied;
            restarted = c.restarted;
          }
    ]

-- A reply was cut at a marker alone on its line, out of what was unread behind some of the wake-ups,
-- and nothing of the output is kept for the next turn.
pub converse_turn-Cut :
    (marker : Text) (write_err : Option Text) (wakes : List Wake) (p : PersistentProcess)
    {q : PersistentProcess} {r : Text}
    → converse_turn marker write_err wakes p ≡ (q, some (replied r))
    → Cut marker wakes p q r
unfolding converse_turn
converse_turn-Cut marker none wakes p h = elim (Bool-cases (is_empty marker)) [
  | inl y ↦ absurd (cc (pair_parts (rw y at h)).1)
  | inr n ↦ await_replied marker wakes p (rw n at h)
]
converse_turn-Cut marker (some e) wakes p h = elim (Bool-cases (is_empty marker)) [
  | inl y ↦ absurd (cc (pair_parts (rw y at h)).1)
  | inr n ↦ absurd (cc (pair_parts (rw n at h)).1)
]

-- The process has exited, the context has ended, or the deadline has passed.
abbrev pub Ends : Wake → PersistentProcess → Type 0
Ends w p = ((pump w.events p).exited ≡ true) ⊎ ((w.ctx_err ≢ none) ⊎ (w.late ≡ true))

or_await-none :
    (rest : PersistentProcess → PersistentProcess × Option Answer)
    (o : PersistentProcess × Option Answer)
    → (or_await rest o).1 ≡ none
    → (o.1 ≡ none) × ((rest o.0).1 ≡ none)
or_await-none rest (p, some a) h = absurd (cc)
or_await-none rest (p, none) h = (refl, h)

await_waits :
    (marker : Text) (w : Wake) (pre post : List Wake) (p : PersistentProcess)
    → Ends w (pump_all pre p)
    → (await marker (pre ++ w ∷ post) p).1 ≡ none
    → ⊥
unfolding await
await_waits marker w [] post p ends h =
    let (_, x, c, l) =
      check_waits marker w.ctx_err w.late (pump w.events p)
        (or_await-none (await marker post) (check marker w.ctx_err w.late (pump w.events p)) h).0 in
    elim ends [ inl e ↦ cc (e, x) | inr (inl f) ↦ f c | inr (inr t) ↦ cc (t, l) ]
await_waits marker w (v ∷ pre) post p ends h =
    let (waits, rest) =
      or_await-none (await marker (pre ++ w ∷ post))
        (check marker v.ctx_err v.late (pump v.events p)) h in
    let same = (check_waits marker v.ctx_err v.late (pump v.events p) waits).0 in
    await_waits marker w pre post (pump v.events p) ends
      (subst (λ x. (await marker (pre ++ w ∷ post) x).1 ≡ none) same rest)

-- `ConverseTurn` does not wait on behind a wake-up that finds the process exited, the context ended
-- or the deadline passed.
pub converse_turn-Ends :
    (marker : Text) (write_err : Option Text) (w : Wake) (pre post : List Wake)
    (p : PersistentProcess)
    → Ends w (pump_all pre p)
    → (a : Answer) × ((converse_turn marker write_err (pre ++ w ∷ post) p).1 ≡ some a)
unfolding converse_turn
converse_turn-Ends marker (some e) w pre post p ends = elim (Bool-cases (is_empty marker)) [
  | inl y ↦ (empty_marker, rw y)
  | inr n ↦ (write_failed e, rw n)
]
converse_turn-Ends marker none w pre post p ends = elim (Bool-cases (is_empty marker)) [
  | inl y ↦ (empty_marker, rw y)
  | inr n ↦ elim (Option-cases (await marker (pre ++ w ∷ post) p).1) [
    | inl waits ↦ absurd (await_waits marker w pre post p ends waits)
    | inr (a, e) ↦ (a, rw n e)
  ]
]

check_found :
    (marker : Text) (ctx_err : Option Text) (late : Bool) (p : PersistentProcess) {i : ℕ}
    → 1 ≤ length (unread p)
    → find_line_anchored_marker (unread p) marker ≡ some i
    → check marker ctx_err late p ≡ (
      record p { buffer = []; cursor = 0 },
      some (replied (strip_envelope_echo (take i (unread p)) marker)),
    )
unfolding check
check_found marker ctx_err late p h e =
    rw (lt→ltb p.cursor (length p.buffer) (omega (arith, length-drop p.cursor p.buffer)))
      (ap (λ o. scanned p marker o (ended p ctx_err late)) e)

-- A turn whose first check finds the marker is over.
pub converse_turn_found :
    (marker : Text) (w : Wake) (ws : List Wake) (p : PersistentProcess) {i : ℕ}
    → is_empty marker ≡ false
    → 1 ≤ length (unread (pump w.events p))
    → find_line_anchored_marker (unread (pump w.events p)) marker ≡ some i
    → converse_turn marker none (w ∷ ws) p ≡ (
      record (pump w.events p) { buffer = []; cursor = 0 },
      some (replied (strip_envelope_echo (take i (unread (pump w.events p))) marker)),
    )
unfolding converse_turn await
converse_turn_found marker w ws p n h e =
    ap (λ b. if b then (p, some empty_marker) else await marker (w ∷ ws) p) n
    ∙ ap (or_await (await marker ws)) (check_found marker w.ctx_err w.late (pump w.events p) h e)
