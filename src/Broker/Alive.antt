-- ===== src/Broker/Alive.antt =====
-- broker.go: the panics of one turn, for a broker that is set up with a transport for each peer.
use vitis.Prelude.{
  ℕ, false, List, [], ◌≡◌, ◌≢◌, inl, inr, arith, leb, none, some, Bool-cases, Option-cases, not,
  ◌&&◌,
}
use vitis.Text.{Text}
use vitis.Text.Equal.{In}
use vitis.Model.PeerId.{PeerId}
use vitis.Model.Conversation.{ConversationTurn, PeerSlot}
use vitis.Policy.{Decision}
use vitis.Policy.Contract.{next-Answers}
use vitis.Envelope.Marker.{new_marker_token}
use vitis.Broker.{
  Env, BrokerDeps, Delivered, replied, failed, Drained, is_n_peer, is_nil, peer_ids,
  policy_or_default,
}
use vitis.Broker.Peers.{transport_for}
use vitis.Broker.Round.{
  Loop, Round, panicked, finalize, first_end, drain_control_timed, next_slot, next_response, stamp,
  after_policy, after_drain, to_next, after_reply, after_deliver, deliver_failed, round,
}
use vitis.Broker.Run.{opener_slot}

pub peer_ids-ne_nil : {T : Type 0} (d : BrokerDeps T) → peer_ids d ≢ []
unfolding peer_ids
peer_ids-ne_nil d h = elim (Bool-cases (is_n_peer d && not (is_nil d.peer_order))) [
  | inl y ↦ ground (arith, rw y at h)
  | inr n ↦ cc (rw n at h)
]

module _ (env : Env) where
  open env use {World, Transport, ctx_done, rand_read, drain, peer_deliver, peer_start}

  -- The broker is set up as `vitis converse` sets it up, and the entropy source answers.
  pub record IsReady (deps : BrokerDeps Transport) : Type 0 where
    pub default_policy : deps.policy ≡ none
    pub entropy : (w : World) → (bytes : List ℕ) × ((rand_read w).1 ≡ some bytes)
    pub opener_served :
        (t : Transport) × (transport_for deps (opener_slot deps deps.conversation) ≡ some t)
    pub served :
        (id : PeerId)
        → In id (peer_ids deps)
        → (t : Transport) × (transport_for deps (next_slot (is_n_peer deps) id) ≡ some t)
    pub slots_filled : is_n_peer deps ≡ false → (deps.peer_a ≢ none) × (deps.peer_b ≢ none)

  abbrev pub IsAlive : Round World → Type 0
  IsAlive panicked = ⊥
  IsAlive _ = Unit

  module _ (deps : BrokerDeps Transport) (ready : IsReady deps) where
    to_next-IsAlive :
        (s : Loop) (d : Decision) (response : Text) (w : World) (bytes : List ℕ)
        → IsAlive (to_next env deps s d response w (some bytes))
    unfolding new_marker_token
    to_next-IsAlive s d response w bytes = tt

    after_drain-IsAlive :
        (s : Loop) (d : Decision) (response : Text) (w : World) (drained : List Drained)
        → IsAlive (after_drain env deps s d response w drained)
    unfolding finalize
    after_drain-IsAlive s d response w drained =
        elim (Option-cases (first_end (drain_control_timed env drained))) [
          | inl n ↦
              rw (n, after_drain)
                (rw (ready.entropy w).1
                  (to_next-IsAlive s d response (rand_read w).0 (ready.entropy w).0))
          | inr (end, e) ↦ rw (e, after_drain) tt
        ]

    after_policy-IsAlive :
        (ctl : ℕ) (s : Loop) (d : Decision) (response : Text) (w : World)
        → IsAlive (after_policy env deps ctl s d response w)
    unfolding after_policy finalize
    after_policy-IsAlive ctl s d response w =
        elim (Bool-cases (leb s.conv.max_turns s.conv.turns_consumed)) [
          | inl y ↦ rw y tt
          | inr n ↦ rw n (elim (Bool-cases (ctx_done w).1) [
            | inl y ↦ rw y tt
            | inr m ↦ rw m (after_drain-IsAlive s d response _ _)
          ])
        ]

    pub policy_decides :
        (current : PeerSlot) (response : Text)
        → (d : Decision) × (policy_or_default deps.policy current response (peer_ids deps) ≡ some d)
    policy_decides current response =
        let (d, e, a) = next-Answers current response (peer_ids deps) (peer_ids-ne_nil deps) in
        (d, simp ready.default_policy e)

    after_reply-IsAlive :
        (ctl : ℕ) (s : Loop) (reply : ConversationTurn) (w : World)
        → IsAlive (after_reply env deps ctl s (stamp s.active s.turns reply) w)
    after_reply-IsAlive ctl s reply w =
        let (d, e) = policy_decides s.active (next_response s.conv.terminator reply.response) in
        unfold after_reply in rw (e, after_reply) (after_policy-IsAlive ctl _ d _ _)

    after_deliver-IsAlive :
        (ctl : ℕ) (s : Loop) (w : World) (answer : Delivered)
        → IsAlive (after_deliver env deps ctl s w answer)
    unfolding finalize
    after_deliver-IsAlive ctl s w (failed e) = elim (Bool-cases e.is_context) [
      | inl y ↦ rw (y, deliver_failed) tt
      | inr n ↦ rw (n, deliver_failed) tt
    ]
    after_deliver-IsAlive ctl s w (replied t) = after_reply-IsAlive ctl s t w

    abbrev pub IsServed : PeerSlot → Type 0
    IsServed slot = (t : Transport) × (transport_for deps slot ≡ some t)

    pub round-IsAlive :
        (ctl : ℕ) (s : Loop) (w : World) → IsServed s.active → IsAlive (round env deps ctl s w)
    unfolding round finalize
    round-IsAlive ctl s w (t, e) = elim (Bool-cases (ctx_done w).1) [
      | inl y ↦ rw y tt
      | inr n ↦
          rw (n, e) (after_deliver-IsAlive ctl s _ (peer_deliver t s.envelope (ctx_done w).0).1)
    ]
