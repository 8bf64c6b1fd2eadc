-- ===== src/Broker/Exchange.antt =====
-- broker.go: who a turn is from and to, in a conversation of several peers.
use vitis.Prelude.{
  ◌≤◌, true, List, [], ◌∷◌, ◌≡◌, ◌≢◌, sym, subst, ◌∙◌, ap, length, none, some, All, All-append,
}
use vitis.Text.{Text}
use vitis.Text.Equal.{In}
use vitis.Model.PeerId.{PeerId}
use vitis.Model.Conversation.{ConversationTurn, PeerSlot, TerminatorSpec}
use vitis.Policy.{next}
use vitis.Policy.RoundRobin.{Distinct}
use vitis.Policy.Contract.{next-In, next-ne}
use vitis.Broker.{Env, BrokerDeps, FinalResult, is_n_peer, peer_ids, policy_or_default}
use vitis.Broker.Round.{mark, next_response, next_slot}
use vitis.Broker.Run.{returned, opener_slot, run}
use vitis.Broker.Alive.{peer_ids-ne_nil}
use vitis.Broker.Finish.{IsDecided}
use vitis.Broker.Turns.{Log, empty, more}
use vitis.Broker.Routing.{run-Logged}

-- The turn goes from one of the peers to another.
pub record IsExchange (peers : List PeerId) (u : ConversationTurn) : Type 0 where
  pub from_declared : In u.from_id peers
  pub to_declared : In u.to_id peers
  pub apart : u.to_id ≢ u.from_id

module _ (env : Env) where
  open env use {World, Transport}

  module _ (deps : BrokerDeps Transport) (many : is_n_peer deps ≡ true)
      (default : deps.policy ≡ none) (distinct : Distinct (peer_ids deps))
      (two : 2 ≤ length (peer_ids deps)) where
    decided-IsExchange :
        (spec : TerminatorSpec) (before : List ConversationTurn) (active : PeerSlot)
        (u : ConversationTurn)
        → In active (peer_ids deps)
        → IsDecided (policy_or_default deps.policy) (peer_ids deps) spec before active u
        → IsExchange (peer_ids deps) u
    unfolding mark
    decided-IsExchange spec before active u m d = record {
      from_declared = subst (λ x. In x (peer_ids deps)) (sym from) m;
      to_declared =
          subst (λ x. In x (peer_ids deps)) (sym on)
            (next-In active response (peer_ids deps) (peer_ids-ne_nil deps) chosen);
      apart =
          λ e. next-ne active response (peer_ids deps) distinct two m chosen (sym on ∙ e ∙ from);
    }
      where
        response : Text
        response = next_response spec d.reply.response

        from : u.from_id ≡ active
        from = ap (λ x. x.from_id) d.kept

        on : u.to_id ≡ d.decision.next
        on = ap (λ x. x.to_id) d.kept

        chosen : next active (next_response spec d.reply.response) (peer_ids deps) ≡ some d.decision
        chosen =
            subst
              (λ p.
                policy_or_default p active (next_response spec d.reply.response) (peer_ids deps)
                ≡ some d.decision)
              default d.decided

    Log-IsExchange :
        (spec : TerminatorSpec) (opener : PeerSlot) {ts : List ConversationTurn} {e : PeerSlot}
        → In opener (peer_ids deps)
        → Log env deps spec opener ts e
        → All (IsExchange (peer_ids deps)) ts × In e (peer_ids deps)
    unfolding next_slot
    Log-IsExchange spec opener o empty = (tt, o)
    Log-IsExchange spec opener o (more {ts} {us} {e} {e'} l u d cut to) =
        let (all, m) = Log-IsExchange spec opener o l in
        let x = decided-IsExchange spec ts e u m d in
        (
          subst (All (IsExchange (peer_ids deps))) (sym cut)
              (All-append (IsExchange (peer_ids deps)) ts (u ∷ []) all (x, tt)),
          subst (λ y. In y (peer_ids deps)) (sym (to ∙ ap (λ b. next_slot b u.to_id) many))
              x.to_declared,
        )

    -- Among several distinct peers under the default policy, with a declared opener, every turn of a
    -- result goes from a declared peer to another declared one.
    pub run-IsExchange :
        (w : World) {r : FinalResult} {w' : World}
        → In (opener_slot deps deps.conversation) (peer_ids deps)
        → deps.conversation.turns_consumed ≡ 0
        → run env deps w ≡ returned r w'
        → All (IsExchange (peer_ids deps)) r.turns
    run-IsExchange w o z h =
        (Log-IsExchange deps.conversation.terminator (opener_slot deps deps.conversation) o
          (run-Logged env deps w z h).log).0
