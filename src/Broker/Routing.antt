-- ===== src/Broker/Routing.antt =====
-- What `Run` returns: the log, the count and the cap.
use vitis.Prelude.{
  ℕ, suc, List, [], ◌≡◌, inl, inr, refl, sym, subst, ◌∙◌, ap, arith, length, Option, Option-cases,
}
use vitis.Text.{Text}
use vitis.Model.Conversation.{Conversation, ConversationStatus}
use vitis.Envelope.Marker.{new_marker_token}
use vitis.Broker.{Env, BrokerDeps, FinalResult, Subscribed, subscription, refused}
use vitis.Broker.Peers.{Started, started, start_failed, start_panicked}
use vitis.Broker.Round.{finalize}
use vitis.Broker.Run.{
  Outcome, returned, crashed, out_of_fuel, deferred, return_of, converse, subscribed, terminated,
  with_peers, opener_slot, run,
}
use vitis.Broker.Turns.{Log, empty, IsLogged, loop-IsLogged}

module _ (env : Env) where
  open env use {World, Transport}

  deferred-returned :
      (stop : World → World) (o : Outcome World) {r : FinalResult} {w : World}
      → deferred env stop o ≡ returned r w
      → (v : World) × (o ≡ returned r v)
  deferred-returned stop (returned q v) h = (v, cc)
  deferred-returned stop crashed h = absurd (cc)
  deferred-returned stop out_of_fuel h = absurd (cc)

  module _ (deps : BrokerDeps Transport) where
    -- The log of `r` begins with the opener and keeps to the rules of `deps`.
    abbrev pub Logged : Conversation → FinalResult → Type 0
    Logged conv = IsLogged env deps conv.terminator (opener_slot deps conv) conv.max_turns

    nothing-Logged :
        (conv : Conversation) (r : FinalResult)
        → r.turns ≡ []
        → r.conversation.turns_consumed ≡ 0
        → Logged conv r
    nothing-Logged conv r e z = record {
      last = opener_slot deps conv;
      log =
          subst
            (λ ts. Log env deps conv.terminator (opener_slot deps conv) ts (opener_slot deps conv))
            (sym e) empty;
      settled = z ∙ sym (ap length e);
      bounded = omega (arith, ap length e);
    }

    -- A `finalize` before the loop.
    early-Logged :
        (conv : Conversation) (warnings : List Text) (status : ConversationStatus) (note : Text)
        (w : World) {r : FinalResult} {w' : World}
        → conv.turns_consumed ≡ 0
        → return_of env (finalize env conv [] warnings status note w) ≡ returned r w'
        → Logged conv r
    unfolding finalize
    early-Logged conv warnings status note w {r} z h =
        nothing-Logged conv r (ground arith) (ground arith)

    converse-Logged :
        (ctl : ℕ) (conv : Conversation) (warnings : List Text) (w : World) (bytes : Option (List ℕ))
        {r : FinalResult} {w' : World}
        → converse env deps ctl conv warnings w bytes ≡ returned r w'
        → Logged conv r
    converse-Logged ctl conv warnings w bytes h = elim (Option-cases (new_marker_token bytes)) [
      | inl n ↦ absurd (cc (rw (n, converse) at h))
      | inr (m, e) ↦
          loop-IsLogged env deps conv.terminator (opener_slot deps conv) conv.max_turns
            (suc conv.max_turns) ctl _ w
            (record { log = empty; same_spec = refl; same_cap = refl; room = omega arith })
            (rw (e, converse) at h)
    ]

    subscribed-Logged :
        (conv : Conversation) (warnings : List Text) (w : World) (sub : Subscribed)
        {r : FinalResult} {w' : World}
        → conv.turns_consumed ≡ 0
        → subscribed env deps conv warnings w sub ≡ returned r w'
        → Logged conv r
    subscribed-Logged conv warnings w (refused e) z h = early-Logged conv warnings _ _ w z h
    subscribed-Logged conv warnings w (subscription ctl) z h =
        converse-Logged ctl conv warnings _ _ (deferred-returned _ _ h).1

    with_peers-Logged :
        (conv : Conversation) (warnings : List Text) (o : Started World) {r : FinalResult}
        {w' : World}
        → conv.turns_consumed ≡ 0
        → with_peers env deps conv warnings o ≡ returned r w'
        → Logged conv r
    unfolding terminated
    with_peers-Logged conv warnings start_panicked z h = absurd (cc)
    with_peers-Logged conv warnings (start_failed w e) z h = early-Logged conv warnings _ _ w z h
    with_peers-Logged conv warnings (started w) z h =
        subscribed-Logged conv _ _ _ z (deferred-returned _ _ (deferred-returned _ _ h).1).1

    -- Whatever `Run` returns, its turns follow one another from the opener on, each stamped with its
    -- speaker and with the policy's decision on its response, and the next speaker is the one that
    -- the decision names. The count of turns is the length of the log, and the log is at most as long
    -- as the cap, or has one turn for a cap of 0. The conversation starts with no turn counted.
    pub run-Logged :
        (w : World) {r : FinalResult} {w' : World}
        → deps.conversation.turns_consumed ≡ 0
        → run env deps w ≡ returned r w'
        → Logged deps.conversation r
    unfolding run opener_slot
    run-Logged w z h = with_peers-Logged _ _ _ z h
