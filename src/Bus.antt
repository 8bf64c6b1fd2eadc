-- ===== src/Bus.antt =====
-- internal/bus/bus.go: messages and topics. The in-process implementation is Bus/Inproc.
pub mod Inproc
pub mod Delivery
pub mod Topics
pub mod Invariant
pub mod Cancelling
pub mod Closing
pub mod Reach
use vitis.Prelude.{ℕ, List, [], ◌∷◌, ◌++◌, Option}
use vitis.Text.{Text, codes}
use vitis.Model.Conversation.{ConversationStatus, PeerSlot, Verdict}
use vitis.Model.PeerId.{PeerId}

pub data MessageKind : Type 0 where
  envelope turn control : MessageKind

pub record BusMessage : Type 0 where
  pub conversation_id : Text
  pub topic : Text
  pub kind : MessageKind
  pub payload : Text
  pub timestamp : ℕ

pub data ControlKind : Type 0 where
  verdict peer_crashed peer_blocked finalize : ControlKind
  other : Text → ControlKind

pub record ControlMsg : Type 0 where
  pub conversation_id : Text
  pub kind : ControlKind
  pub slot : PeerSlot
  pub reason : Text
  pub status : ConversationStatus
  pub detail : Text
  pub verdict_of : Option Verdict

unfoldable pub topic_envelope_in : Text → PeerSlot → Text
topic_envelope_in id slot = codes "conv/" ++ (id ++ (codes "/peer-" ++ (slot ++ codes "/in")))

unfoldable pub topic_envelope_in_id : Text → PeerId → Text
topic_envelope_in_id id peer = codes "conv/" ++ (id ++ (codes "/peer/" ++ (peer ++ codes "/in")))

unfoldable pub topic_turn : Text → Text
topic_turn id = codes "conv/" ++ (id ++ codes "/turn")

unfoldable pub topic_control : Text → Text
topic_control id = codes "conv/" ++ (id ++ codes "/control")
