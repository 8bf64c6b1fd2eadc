-- ===== src/Peer/Transport.antt =====
-- internal/peer/provider/provider.go: `Transport`. A call of the spawner gives its error; a time is a
-- count of nanoseconds. The confidences of a turn are left out.
use vitis.Prelude.{ℕ, ℤ, pos, leb_ℤ, Bool, false, List, [], Option, none, some, if◌then◌else◌}
use vitis.Text.{Text}
use vitis.Model.Conversation.{ConversationTurn, Envelope, PeerSlot, unset}
use vitis.Terminal.Normalize.{normalize_pty_text}
use vitis.Peer.Persistent.{
  PersistentProcess, PumpEvent, Wake, Answer, replied, empty_marker, write_failed, overflowed,
  process_exited, context_ended, timed_out, new_persistent_process, converse_turn, close,
}

pub record Transport : Type 0 where
  pub per_turn_timeout : ℤ
  pub process : Option PersistentProcess
  pub conversation_id : Text
  pub slot : PeerSlot

-- `New`: five minutes for a timeout that is not positive.
unfoldable pub new : ℤ → Transport
new timeout = record {
  per_turn_timeout = if leb_ℤ timeout (pos 0) then pos 300000000000 else timeout;
  process = none;
  conversation_id = [];
  slot = [];
}

pub data StartError : Type 0 where
  already_started : StartError
  spawn_failed : PeerSlot → Text → StartError

-- `Start`
unfoldable pub start : Option Text → Text → PeerSlot → Transport → Transport × Option StartError
unfolding new_persistent_process
start spawn_err conversation_id slot t = elim t.process [
  | some p ↦ (t, some already_started)
  | none ↦ elim spawn_err [
    | some e ↦ (t, some (spawn_failed slot e))
    | none ↦ (
      record t {
        process = some new_persistent_process;
        conversation_id = conversation_id;
        slot = slot;
      },
      none,
    )
  ]
]

pub data Delivery : Type 0 where
  turn : ConversationTurn → Delivery
  failed : Answer → Delivery
  before_start : Delivery
  waits : Delivery

-- The two reads of the clock, what the write of the envelope gives, and the wake-ups of the wait.
pub record Exchange : Type 0 where
  pub write_err : Option Text
  pub wakes : List Wake
  pub started_at : ℕ
  pub ended_at : ℕ

-- The turn of a reply.
unfoldable pub turn_with : Transport → Envelope → Exchange → Text → ConversationTurn
unfolding normalize_pty_text
turn_with t env x resp = record {
  conversation_id = t.conversation_id;
  index = env.turn_index;
  from = t.slot;
  from_id = [];
  to_id = [];
  reason = unset;
  next_id_parsed = none;
  fallback_used = false;
  envelope = env.body;
  response = normalize_pty_text resp;
  marker_token = env.marker_token;
  started_at = x.started_at;
  ended_at = x.ended_at;
  warnings = [];
}

abbrev pub delivered :
    Transport → Envelope → Exchange → PersistentProcess × Option Answer → Transport × Delivery
delivered t env x (q, none) = (record t { process = some q }, waits)
delivered t env x (q, some (replied resp)) =
    (record t { process = some q }, turn (turn_with t env x resp))
delivered t env x (q, some empty_marker) = (record t { process = some q }, failed empty_marker)
delivered t env x (q, some (write_failed e)) =
    (record t { process = some q }, failed (write_failed e))
delivered t env x (q, some (overflowed n)) = (record t { process = some q }, failed (overflowed n))
delivered t env x (q, some (process_exited code)) =
    (record t { process = some q }, failed (process_exited code))
delivered t env x (q, some (context_ended e)) =
    (record t { process = some q }, failed (context_ended e))
delivered t env x (q, some timed_out) = (record t { process = some q }, failed timed_out)

abbrev pub deliver_to :
    Transport → Envelope → Exchange → Option PersistentProcess → Transport × Delivery
deliver_to t env x none = (t, before_start)
deliver_to t env x (some p) =
    delivered t env x (converse_turn env.marker_token x.write_err x.wakes p)

-- `Deliver`
unfoldable pub deliver : Envelope → Exchange → Transport → Transport × Delivery
unfolding converse_turn turn_with
deliver env x t = deliver_to t env x t.process

-- `Stop`, with whether it terminates a process.
unfoldable pub stop : List PumpEvent → Transport → Transport × Bool
unfolding close
stop events t = elim t.process [
  | none ↦ (t, false)
  | some p ↦ (record t { process = none }, (close events p).1)
]
