-- ===== src/Broker.antt =====
-- internal/conversation/broker.go: what the broker is built from, its results, and the world that
-- it drives. The children follow the file: Peers starts and stops the transports, Round is one turn
-- of the loop, Run the whole. The rest prove.
pub mod Peers
pub mod Round
pub mod Run
pub mod Finish
pub mod Turns
pub mod Alive
pub mod Starting
pub mod Totality
pub mod Routing
pub mod Alternation
pub mod Exchange
use vitis.Prelude.{
  ℕ, Bool, true, false, List, [], ◌∷◌, Option, none, some, ◌&&◌, not, if◌then◌else◌,
}
use vitis.Text.{Text, codes}
use vitis.Model.PeerId.{PeerId}
use vitis.Model.Conversation.{
  Conversation, ConversationPatch, ConversationTurn, Envelope, PeerSlot, PeerSpec, slot_a, slot_b,
}
use vitis.Bus.{BusMessage, ControlMsg}
use vitis.Policy.{TurnPolicy}
use vitis.Policy as Policy

-- An error of `Deliver`, with whether it is a context's cancellation or deadline.
pub record DeliverError : Type 0 where
  pub text : Text
  pub is_context : Bool

pub data Delivered : Type 0 where
  replied : ConversationTurn → Delivered
  failed : DeliverError → Delivered

pub data Subscribed : Type 0 where
  subscription : ℕ → Subscribed
  refused : Text → Subscribed

pub data Marshalled : Type 0 where
  payload : Text → Marshalled
  unmarshallable : Text → Marshalled

-- What one select of the control drain yields: a message, the closed channel, or the timer and the
-- default case.
pub data Drained : Type 0 where
  message : BusMessage → Drained
  ended idle : Drained

-- The interfaces that the broker calls: the store, the bus, the terminator, the transports, the
-- context, the clock and the entropy. Each takes the state of the world and returns the next; an
-- error is its text, and `none` is no error.
pub record Env : Type 1 where
  pub World : Type 0
  pub Transport : Type 0
  pub now : World → World × ℕ
  pub rand_read : World → World × Option (List ℕ)
  pub ctx_done : World → World × Bool
  pub create_conversation : Conversation → World → World × Option Text
  pub update_conversation : Text → ConversationPatch → World → World × Option Text
  pub append_turn : ConversationTurn → World → World × Option Text
  pub publish : Text → BusMessage → World → World × Option Text
  pub subscribe : Text → World → World × Subscribed
  pub unsubscribe : ℕ → World → World
  pub drain : ℕ → World → World × List Drained
  pub terminator_start : Conversation → World → World × Option Text
  pub terminator_stop : World → World
  pub peer_start : Transport → PeerSpec → Text → PeerSlot → World → World × Option Text
  pub peer_deliver : Transport → Envelope → World → World × Delivered
  pub peer_stop : Transport → World → World
  pub marshal_turn : ConversationTurn → Marshalled
  pub unmarshal_control : Text → Option ControlMsg

-- `BrokerDeps`, less what is in `Env`; a nil transport or policy is `none`.
pub record BrokerDeps (T : Type 0) : Type 0 where
  pub conversation : Conversation
  pub peer_a : Option T
  pub peer_b : Option T
  pub policy : Option TurnPolicy
  pub peers_by_id : List (PeerId × T)
  pub peer_order : List PeerId

-- `NewBroker`'s default.
abbrev pub policy_or_default : Option TurnPolicy → TurnPolicy
policy_or_default none = Policy.next
policy_or_default (some p) = p

pub record FinalResult : Type 0 where
  pub conversation : Conversation
  pub turns : List ConversationTurn
  pub terminator_note : Text
  pub warnings : List Text

abbrev pub is_nil {ℓ} : {A : Type ℓ} → List A → Bool
is_nil [] = true
is_nil (_ ∷ _) = false

-- `len(b.deps.PeersByID) > 0`
abbrev pub is_n_peer : {T : Type 0} → BrokerDeps T → Bool
is_n_peer d = not (is_nil d.peers_by_id)

-- `peerIDs`
unfoldable pub peer_ids : {T : Type 0} → BrokerDeps T → List PeerId
peer_ids d = if is_n_peer d && not (is_nil d.peer_order) then d.peer_order else slot_a ∷ slot_b ∷ []
