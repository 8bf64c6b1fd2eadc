-- ===== src/Broker/Totality.antt =====
-- broker.go: the fuel of the loop of `Run`, and the panics of `Run`, for a broker that is set up with a
-- transport for each declared peer.
use vitis.Prelude.{
  ℕ, zero, suc, ◌+◌, ◌<◌, max, List, [], ◌∷◌, ◌++◌, ◌≡◌, refl, sym, subst, ◌∙◌, ap, arith, length,
  length-append, some,
}
use vitis.Text.{Text}
use vitis.Model.Conversation.{Conversation, ConversationStatus, ConversationTurn}
use vitis.Policy.{Decision, next}
use vitis.Policy.Contract.{next-In}
use vitis.Envelope.Marker.{new_marker_token}
use vitis.Broker.{
  Env, BrokerDeps, FinalResult, Subscribed, subscription, refused, is_n_peer, peer_ids,
  policy_or_default,
}
use vitis.Broker.Peers.{Started, started, start_failed, start_panicked}
use vitis.Broker.Round.{
  Loop, Round, finished, again, panicked, finalize, next_slot, next_response, mark, round,
}
use vitis.Broker.Run.{
  Outcome, returned, go_on, loop, deferred, return_of, converse, subscribed, terminated, with_peers,
  opener_slot, run,
}
use vitis.Broker.Finish.{
  Turned, stops, replies, crashes, Closes, ends, goes_on, breaks, round-Turned, IsDecided,
}
use vitis.Broker.Alive.{IsReady, IsAlive, IsServed, round-IsAlive, peer_ids-ne_nil}
use vitis.Broker.Starting.{IsBegun, start_all_peers-IsBegun}

mark-to_id :
    {u : ConversationTurn} (t : ConversationTurn) (d : Decision) → u ≡ mark t d → u.to_id ≡ d.next
unfolding mark
mark-to_id t d e = ap (λ x. x.to_id) e

module _ (env : Env) where
  open env use {World, Transport, ctx_done, rand_read, drain, peer_deliver, peer_start}

  module _ (deps : BrokerDeps Transport) (ready : IsReady env deps) where
    -- The state at the head of the loop: a speaker with a transport, and fuel for the turns left.
    record HasFuel (cap fuel : ℕ) (s : Loop) : Type 0 where
      speaker : IsServed env deps ready s.active
      same_cap : s.conv.max_turns ≡ cap
      room : length s.turns < max 1 cap
      fuelled : cap < length s.turns + fuel

    abbrev GoesOn : ℕ → ℕ → Round World → Type 0
    GoesOn cap fuel (finished r w) = Unit {0}
    GoesOn cap fuel (again s w) = HasFuel cap fuel s
    GoesOn cap fuel panicked = ⊥

    decided-IsServed :
        (s : Loop) {u : ConversationTurn}
        → IsDecided
            (policy_or_default deps.policy)
            (peer_ids deps)
            s.conv.terminator
            s.turns
            s.active
            u
        → IsServed env deps ready (next_slot (is_n_peer deps) u.to_id)
    decided-IsServed s {u} v =
        let chosen : next s.active (next_response s.conv.terminator v.reply.response)
              (peer_ids deps)
            ≡ some v.decision =
          subst
            (λ p.
              policy_or_default p s.active (next_response s.conv.terminator v.reply.response)
                (peer_ids deps)
              ≡ some v.decision)
            ready.default_policy v.decided in
        subst (λ x. IsServed env deps ready (next_slot (is_n_peer deps) x))
          (sym (mark-to_id _ v.decision v.kept))
          (ready.served v.decision.next (next-In _ _ _ (peer_ids-ne_nil deps) chosen))

    closed-GoesOn :
        (cap fuel : ℕ) (s : Loop) (u : ConversationTurn) {n : ℕ} {o : Round World}
        → HasFuel cap (suc fuel) s
        → IsServed env deps ready (next_slot (is_n_peer deps) u.to_id)
        → IsAlive env o
        → Closes env
            (s.turns ++ u ∷ [])
            (next_slot (is_n_peer deps) u.to_id)
            (record s.conv { turns_consumed = n })
            o
        → GoesOn cap fuel o
    closed-GoesOn cap fuel s u f v alive (ends e settled) = tt
    closed-GoesOn cap fuel s u f v alive (goes_on {s = t} e a c h) = record {
      speaker = subst (IsServed env deps ready) (sym a) v;
      same_cap = ap (λ x. x.max_turns) c ∙ f.same_cap;
      room = omega (arith, ap length e, h, f.same_cap);
      fuelled = omega (arith, ap length e, length-append s.turns (u ∷ []), f.fuelled);
    }
    closed-GoesOn cap fuel s u f v alive breaks = alive

    Turned-GoesOn :
        (cap fuel : ℕ) (s : Loop) {o : Round World}
        → HasFuel cap (suc fuel) s
        → IsAlive env o
        → Turned env deps s o
        → GoesOn cap fuel o
    Turned-GoesOn cap fuel s f alive (stops e settled) = tt
    Turned-GoesOn cap fuel s f alive (replies u d c) =
        closed-GoesOn cap fuel s u f (decided-IsServed s d) alive c
    Turned-GoesOn cap fuel s f alive crashes = alive

    abbrev Returns : Outcome World → Type 0
    Returns o = (r : FinalResult) × (w : World) × (o ≡ returned r w)

    go_on-Returns :
        (cap fuel : ℕ) (rest : Loop → World → Outcome World) (o : Round World)
        → GoesOn cap fuel o
        → ((s : Loop) (w : World) → HasFuel cap fuel s → Returns (rest s w))
        → Returns (go_on env rest o)
    go_on-Returns cap fuel rest (finished r w) g further = (r, w, refl)
    go_on-Returns cap fuel rest (again s w) g further = further s w g
    go_on-Returns cap fuel rest panicked g further = absurd g

    loop-Returns :
        (cap fuel ctl : ℕ) (s : Loop) (w : World)
        → HasFuel cap fuel s
        → Returns (loop env deps fuel ctl s w)
    unfolding loop
    loop-Returns cap zero ctl s w f = absurd (omega (arith, f.room, f.fuelled))
    loop-Returns cap (suc fuel) ctl s w f =
        go_on-Returns cap fuel (loop env deps fuel ctl) (round env deps ctl s w)
          (Turned-GoesOn cap fuel s f (round-IsAlive env deps ready ctl s w f.speaker)
            (round-Turned env deps ctl s w))
          (λ t v g. loop-Returns cap fuel ctl t v g)

    deferred-Returns :
        (stop : World → World) (o : Outcome World) → Returns o → Returns (deferred env stop o)
    deferred-Returns stop o (r, w, e) = (r, stop w, ap (deferred env stop) e)

    early-Returns :
        (conv : Conversation) (warnings : List Text) (status : ConversationStatus) (note : Text)
        (w : World)
        → Returns (return_of env (finalize env conv [] warnings status note w))
    unfolding finalize
    early-Returns conv warnings status note w = (_, _, refl)

    converse-Returns :
        (ctl : ℕ) (conv : Conversation) (warnings : List Text) (w : World) (bytes : List ℕ)
        → IsServed env deps ready (opener_slot deps conv)
        → Returns (converse env deps ctl conv warnings w (some bytes))
    unfolding new_marker_token
    converse-Returns ctl conv warnings w bytes v =
        loop-Returns conv.max_turns (suc conv.max_turns) ctl _ w
          (record { speaker = v; same_cap = refl; room = omega arith; fuelled = omega arith })

    subscribed-Returns :
        (conv : Conversation) (warnings : List Text) (w : World) (sub : Subscribed)
        → IsServed env deps ready (opener_slot deps conv)
        → Returns (subscribed env deps conv warnings w sub)
    subscribed-Returns conv warnings w (refused e) v = early-Returns conv warnings _ _ w
    subscribed-Returns conv warnings w (subscription ctl) v = deferred-Returns _ _ (
        rw (ready.entropy w).1
          (converse-Returns ctl conv warnings (rand_read w).0 (ready.entropy w).0 v))

    with_peers-Returns :
        (conv : Conversation) (warnings : List Text) (o : Started World)
        → IsBegun env o
        → IsServed env deps ready (opener_slot deps conv)
        → Returns (with_peers env deps conv warnings o)
    unfolding terminated IsBegun
    with_peers-Returns conv warnings start_panicked b v = absurd b
    with_peers-Returns conv warnings (start_failed w e) b v = early-Returns conv warnings _ e w
    with_peers-Returns conv warnings (started w) b v =
        deferred-Returns _ _ (deferred-Returns _ _ (subscribed-Returns conv _ _ _ v))

    -- `Run` returns a result whatever the store, the bus, the peers, the terminator and the context
    -- do: the loop ends within its fuel, and nothing panics. The broker has the default policy and a
    -- transport for its opener and for each declared peer, and the entropy source answers.
    pub run_total :
        (w : World) → (r : FinalResult) × (w' : World) × (run env deps w ≡ returned r w')
    unfolding run opener_slot
    run_total w =
        with_peers-Returns _ _ _ (start_all_peers-IsBegun env deps ready _ _) ready.opener_served
