-- ===== src/Peer/Script.antt =====
-- mock.go: the order in which the script is read.
use vitis.Prelude.{
  ℕ, zero, suc, ◌+◌, ◌≤◌, ◌<◌, true, false, List, [], ◌∷◌, ◌++◌, map, Option, none, some, get_elem?,
  length, drop, take, ◌≡◌, refl, sym, ap, ◌∙◌, subst, arith, append_assoc, append-nil, All, not,
  if◌then◌else◌,
}
use vitis.Text.{Text, codes}
use vitis.Model.Conversation.{Envelope}
use vitis.Peer.Scripted.{
  Scripted, Reply, turn, failed, Waiting, read_script, deliver_locked, deliver, deliver_each,
  or_wait, or_script_error, exhausted,
}

-- A peer that would answer: started, not stopped, and without an error in its script.
pub record IsAnswering (p : Scripted) : Type 0 where
  pub begun : p.started ≡ true
  pub unstopped : p.stopped ≡ false
  pub faultless : p.script.err ≡ none

get_elem?-drop :
    {A : Type 0} (xs : List A) (n : ℕ)
    → n < length xs
    → (x : A) × (get_elem? xs n ≡ some x) × (drop n xs ≡ x ∷ drop (suc n) xs)
get_elem?-drop [] n h = absurd (omega arith)
get_elem?-drop (x ∷ xs) zero h = (x, refl, refl)
get_elem?-drop (x ∷ xs) (suc n) h = get_elem?-drop xs n (omega arith)

-- One delivery within the script.
locked_lem :
    (env : Envelope) (now : ℕ) (p : Scripted) (resp : Text)
    → IsAnswering p
    → get_elem? p.script.responses p.count ≡ some resp
    → deliver_locked env now p ≡ read_script p env now (some resp)
unfolding deliver_locked
locked_lem env now p resp i found =
    let read = read_script p env now (get_elem? p.script.responses p.count) in
    let unstarted = failed (codes "mock peer: deliver before start") in
    let ended = failed (codes "mock peer: deliver after stop") in
    let rest = or_script_error p p.script.err read in
    ap (λ b. if not b then (p, unstarted) else if p.stopped then (p, ended) else rest) i.begun
    ∙ ap (λ b. if b then (p, ended) else rest) i.unstopped
    ∙ ap (λ e. or_script_error p e read) i.faultless
    ∙ ap (read_script p env now) found

deliver_lem :
    (c : Waiting) (env : Envelope) (now : ℕ) (p : Scripted) (resp : Text)
    → IsAnswering p
    → c.ctx_err ≡ none
    → get_elem? p.script.responses p.count ≡ some resp
    → deliver c env now p ≡ read_script p env now (some resp)
unfolding deliver
deliver_lem c env now p resp i alive found =
    ap
      (λ e. elim e [ some e ↦ (p, failed e) | none ↦ or_wait c.end_err (deliver_locked env now p) ])
      alive
    ∙ ap (or_wait c.end_err) (locked_lem env now p resp i found)

-- The response of a turn.
unfoldable pub response_of : Reply → Option Text
response_of (turn t) = some t.response
response_of (failed e) = none
response_of exhausted = none

abbrev pub envelopes_of : List (Waiting × Envelope × ℕ) → List Envelope
envelopes_of calls = map (λ c. c.1) calls

-- The state and the replies of deliveries within the script.
pub record IsRead (calls : List (Waiting × Envelope × ℕ)) (p : Scripted) (r : Scripted × List Reply)
    : Type 0 where
  pub in_order :
      map response_of r.1 ≡ map some (take (length calls) (drop p.count p.script.responses))
  pub counted : r.0.count ≡ p.count + length calls
  pub remembered : r.0.history ≡ p.history ++ envelopes_of calls
  pub answering : IsAnswering r.0

-- A started peer that is not stopped and whose script has no error answers deliveries, as many as it
-- has responses left and under contexts that last, with the next responses of its script in order,
-- and remembers their envelopes.
pub deliver_each-IsRead :
    (calls : List (Waiting × Envelope × ℕ)) (p : Scripted)
    → IsAnswering p
    → All (λ c. c.0.ctx_err ≡ none) calls
    → p.count + length calls ≤ length p.script.responses
    → IsRead calls p (deliver_each calls p)
unfolding deliver_each response_of
deliver_each-IsRead [] p i alive room = record {
  in_order = refl;
  counted = omega arith;
  remembered = sym (append-nil p.history);
  answering = i;
}
deliver_each-IsRead ((c, env, now) ∷ calls) p i alive room =
    let (resp, found, rest) = get_elem?-drop p.script.responses p.count (omega arith) in
    let next = read_script p env now (some resp) in
    let later =
      deliver_each-IsRead calls next.0
        (record { begun = i.begun; unstopped = i.unstopped; faultless = i.faultless }) alive.1
        (omega arith) in
    let read : IsRead ((c, env, now) ∷ calls) p
        ((deliver_each calls next.0).0, next.1 ∷ (deliver_each calls next.0).1) =
      record {
        in_order =
            ap (λ l. some resp ∷ l) later.in_order
            ∙ sym (ap (λ l. map some (take (suc (length calls)) l)) rest);
        counted = omega (arith, later.counted);
        remembered = later.remembered ∙ append_assoc p.history (env ∷ []) (envelopes_of calls);
        answering = later.answering;
      } in
    subst
      (λ r.
        IsRead ((c, env, now) ∷ calls) p
          ((deliver_each calls r.0).0, r.1 ∷ (deliver_each calls r.0).1))
      (sym (deliver_lem c env now p resp i alive.0 found)) read
