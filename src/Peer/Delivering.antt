-- ===== src/Peer/Delivering.antt =====
-- provider.go: the turns that `Deliver` returns.
use vitis.Prelude.{Option, none, some, ◌≡◌, refl}
use vitis.Text.{Text}
use vitis.Model.Conversation.{ConversationTurn, Envelope}
use vitis.Terminal.Normalize.{normalize_pty_text}
use vitis.Terminal.Visible.{IsVisible, normalize_pty_text-IsVisible}
use vitis.Peer.Persistent.{
  PersistentProcess, Answer, replied, empty_marker, write_failed, overflowed, process_exited,
  context_ended, timed_out, converse_turn,
}
use vitis.Peer.Turns.{Cut, converse_turn-Cut}
use vitis.Peer.Transport.{
  Transport, Delivery, Exchange, turn, failed, before_start, waits, turn_with, delivered,
  deliver_to, deliver,
}

-- A turn that the transport `t` returned for an envelope, with the transport `t'` after it.
pub record IsTurnOf (t t' : Transport) (env : Envelope) (x : Exchange) (c : ConversationTurn)
    : Type 0 where
  pub process : PersistentProcess
  pub left : PersistentProcess
  pub reply : Text
  pub ran : t.process ≡ some process
  pub runs : t'.process ≡ some left
  pub cut : Cut env.marker_token x.wakes process left reply
  pub normal : c.response ≡ normalize_pty_text reply
  pub visible : IsVisible c.response
  pub same_conversation : c.conversation_id ≡ t.conversation_id
  pub same_slot : c.from ≡ t.slot
  pub same_index : c.index ≡ env.turn_index
  pub same_marker : c.marker_token ≡ env.marker_token

unfoldable pub Returned : Transport → Envelope → Exchange → Transport × Delivery → Type 0
Returned t env x (t', turn c) = IsTurnOf t t' env x c
Returned t env x (t', failed e) = Unit
Returned t env x (t', before_start) = t.process ≡ none
Returned t env x (t', waits) = Unit

module _ (t : Transport) (env : Envelope) (x : Exchange) where
  delivered-Returned :
      (p : PersistentProcess) (r : PersistentProcess × Option Answer)
      → t.process ≡ some p
      → converse_turn env.marker_token x.write_err x.wakes p ≡ r
      → Returned t env x (delivered t env x r)
  unfolding Returned turn_with
  delivered-Returned p (q, some (replied resp)) h e = record {
    process = p;
    left = q;
    reply = resp;
    ran = h;
    runs = refl;
    cut = converse_turn-Cut env.marker_token x.write_err x.wakes p e;
    normal = refl;
    visible = (normalize_pty_text-IsVisible resp).0;
    same_conversation = refl;
    same_slot = refl;
    same_index = refl;
    same_marker = refl;
  }
  delivered-Returned p (q, none) h e = tt
  delivered-Returned p (q, some empty_marker) h e = tt
  delivered-Returned p (q, some (write_failed m)) h e = tt
  delivered-Returned p (q, some (overflowed n)) h e = tt
  delivered-Returned p (q, some (process_exited code)) h e = tt
  delivered-Returned p (q, some (context_ended m)) h e = tt
  delivered-Returned p (q, some timed_out) h e = tt

  deliver_to-Returned :
      (p : Option PersistentProcess) → t.process ≡ p → Returned t env x (deliver_to t env x p)
  unfolding Returned
  deliver_to-Returned none h = h
  deliver_to-Returned (some p) h =
      delivered-Returned p (converse_turn env.marker_token x.write_err x.wakes p) h refl

-- A turn that `Deliver` returns is of a process that runs: its response is the normal form of a
-- reply that was cut out of the process's unread output at the envelope's marker, and is visible; it
-- has the transport's conversation and slot and the envelope's index and marker; and the process that
-- stays has nothing left to read. A transport is called unstarted only if it has no process.
pub deliver-Returned :
    (env : Envelope) (x : Exchange) (t : Transport) → Returned t env x (deliver env x t)
unfolding deliver
deliver-Returned env x t = deliver_to-Returned t env x t.process refl
