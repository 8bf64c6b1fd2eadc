-- ===== src/Model/Conversation.antt =====
-- internal/model/conversation.go. String enumerations are data types with a case `other` for any
-- other string. Times are nanosecond counts. The two confidence floats of a turn are left out: no
-- code modelled here reads or writes them.
use vitis.Prelude.{ℕ, Bool, List, Option, if◌then◌else◌}
use vitis.Text.{Text, codes, equal}
use vitis.Model.PeerId.{PeerId}

pub data ConversationStatus : Type 0 where
  running completed_sentinel completed_judge max_turns_hit : ConversationStatus
  peer_crashed peer_blocked timeout interrupted error : ConversationStatus
  other : Text → ConversationStatus

abbrev pub PeerSlot : Type 0
PeerSlot = Text

abbrev pub slot_a : PeerSlot
slot_a = codes "a"

abbrev pub slot_b : PeerSlot
slot_b = codes "b"

-- `PeerSlot.Other`
unfoldable pub other_slot : PeerSlot → PeerSlot
other_slot s = if equal s slot_a then slot_b else slot_a

-- `PeerIDFromSlot`: a conversion of one string type to the other.
abbrev pub peer_id_from_slot : PeerSlot → PeerId
peer_id_from_slot s = s

pub record PeerSpec : Type 0 where
  pub uri : Text
  pub options : List (Text × Text)

pub record PeerParticipant : Type 0 where
  pub id : PeerId
  pub spec : PeerSpec

pub data TurnReason : Type 0 where
  unset opener addressed fallback_roundrobin end : TurnReason
  other : Text → TurnReason

pub record TerminatorSpec : Type 0 where
  pub kind : Text
  pub sentinel : Text
  pub judge_uri : Text

pub record Conversation : Type 0 where
  pub id : Text
  pub schema_version : ℕ
  pub created_at : ℕ
  pub ended_at : Option ℕ
  pub status : ConversationStatus
  pub max_turns : ℕ
  pub per_turn_timeout : ℕ
  pub overall_timeout : ℕ
  pub terminator : TerminatorSpec
  pub peers : List PeerParticipant
  pub seeds : List (PeerId × Text)
  pub opener_id : PeerId
  pub peer_a : PeerSpec
  pub peer_b : PeerSpec
  pub seed_a : Text
  pub seed_b : Text
  pub opener : PeerSlot
  pub turns_consumed : ℕ
  pub reply_style : Text

pub record ConversationPatch : Type 0 where
  pub status : Option ConversationStatus
  pub ended_at : Option ℕ
  pub turns_consumed : Option ℕ

pub record ConversationTurn : Type 0 where
  pub conversation_id : Text
  pub index : ℕ
  pub from : PeerSlot
  pub from_id : PeerId
  pub to_id : PeerId
  pub reason : TurnReason
  pub next_id_parsed : Option PeerId
  pub fallback_used : Bool
  pub envelope : Text
  pub response : Text
  pub marker_token : Text
  pub started_at : ℕ
  pub ended_at : ℕ
  pub warnings : List Text

pub data VerdictDecision : Type 0 where
  continue terminate : VerdictDecision
  other : Text → VerdictDecision

pub record Verdict : Type 0 where
  pub conversation_id : Text
  pub decision : VerdictDecision
  pub reason : Text
  pub status : ConversationStatus

pub record Envelope : Type 0 where
  pub conversation_id : Text
  pub turn_index : ℕ
  pub max_turns : ℕ
  pub from : PeerSlot
  pub from_id : PeerId
  pub to_id : PeerId
  pub body : Text
  pub marker_token : Text
  pub include_briefing : Bool
  pub briefing : Text
