-- ===== src/Peer/Scripted.antt =====
-- internal/peer/mock/mock.go: `Transport`, the peer that answers by a script. An error is its text.
use vitis.Prelude.{
  ℕ, suc, Bool, true, false, List, [], ◌∷◌, ◌++◌, Option, none, some, get_elem?, not, if◌then◌else◌,
}
use vitis.Text.{Text, codes}
use vitis.Model.Conversation.{ConversationTurn, Envelope, PeerSlot, unset}

pub record Script : Type 0 where
  pub responses : List Text
  pub err : Option Text
  pub start_err : Option Text

pub record Scripted : Type 0 where
  pub script : Script
  pub count : ℕ
  pub started : Bool
  pub stopped : Bool
  pub stop_calls : ℕ
  pub conversation_id : Text
  pub slot : PeerSlot
  pub history : List Envelope

-- `New`
unfoldable pub new : Script → Scripted
new script = record {
  script = script;
  count = 0;
  started = false;
  stopped = false;
  stop_calls = 0;
  conversation_id = [];
  slot = [];
  history = [];
}

-- `Start`
unfoldable pub start : Text → PeerSlot → Scripted → Scripted × Option Text
start conversation_id slot p = elim p.script.start_err [
  | some e ↦ (p, some e)
  | none ↦
      if p.started
      then (p, some (codes "mock peer: already started"))
      else (record p { started = true; conversation_id = conversation_id; slot = slot }, none)
]

-- `exhausted` is that the script has no more responses.
pub data Reply : Type 0 where
  turn : ConversationTurn → Reply
  exhausted : Reply
  failed : Text → Reply

unfoldable pub turn_with : Scripted → Envelope → ℕ → Text → ConversationTurn
turn_with p env now resp = record {
  conversation_id = p.conversation_id;
  index = env.turn_index;
  from = p.slot;
  from_id = [];
  to_id = [];
  reason = unset;
  next_id_parsed = none;
  fallback_used = false;
  envelope = env.body;
  response = resp;
  marker_token = env.marker_token;
  started_at = now;
  ended_at = now;
  warnings = [];
}

abbrev pub read_script : Scripted → Envelope → ℕ → Option Text → Scripted × Reply
read_script p env now none = (p, exhausted)
read_script p env now (some resp) = (
  record p { count = suc p.count; history = p.history ++ env ∷ [] },
  turn (turn_with p env now resp),
)

abbrev pub or_script_error : Scripted → Option Text → Scripted × Reply → Scripted × Reply
or_script_error p none rest = rest
or_script_error p (some e) rest = (record p { script = record p.script { err = none } }, failed e)

-- `deliverLocked`
unfoldable pub deliver_locked : Envelope → ℕ → Scripted → Scripted × Reply
unfolding turn_with
deliver_locked env now p =
    if not p.started
    then (p, failed (codes "mock peer: deliver before start"))
    else if p.stopped
    then (p, failed (codes "mock peer: deliver after stop"))
    else or_script_error p p.script.err
        (read_script p env now (get_elem? p.script.responses p.count))

-- What `Deliver` finds of the context: its error at the call, and the one that ends a wait.
pub record Waiting : Type 0 where
  pub ctx_err : Option Text
  pub end_err : Text

abbrev pub or_wait : Text → Scripted × Reply → Scripted × Reply
or_wait end_err (p, exhausted) = (p, failed end_err)
or_wait end_err (p, turn t) = (p, turn t)
or_wait end_err (p, failed e) = (p, failed e)

-- `Deliver`; behind the script it waits for the context's end.
unfoldable pub deliver : Waiting → Envelope → ℕ → Scripted → Scripted × Reply
unfolding deliver_locked
deliver c env now p = elim c.ctx_err [
  | some e ↦ (p, failed e)
  | none ↦ or_wait c.end_err (deliver_locked env now p)
]

-- `Stop`
unfoldable pub stop : Scripted → Scripted
stop p = record p { stopped = true; stop_calls = suc p.stop_calls }

-- Envelopes delivered one after the other, each with its context and its time, and the replies.
unfoldable pub deliver_each : List (Waiting × Envelope × ℕ) → Scripted → Scripted × List Reply
unfolding deliver
deliver_each [] p = (p, [])
deliver_each ((c, env, now) ∷ calls) p =
    let r = deliver c env now p in let rest = deliver_each calls r.0 in (rest.0, r.1 ∷ rest.1)
