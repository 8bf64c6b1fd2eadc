-- ===== src/Broker/Finish.antt =====
-- How one turn of the loop ends: a relation that covers every branch of `round`.
use vitis.Prelude.{
  ℕ, zero, suc, ◌<◌, List, [], ◌∷◌, ◌++◌, Option, some, ◌≡◌, inl, inr, refl, leb, length,
  Bool-cases, Option-cases, not_leb→lt,
}
use vitis.Text.{Text}
use vitis.Model.Conversation.{
  Conversation, ConversationStatus, ConversationTurn, PeerSlot, TerminatorSpec,
}
use vitis.Policy.{Decision, TurnPolicy}
use vitis.Model.PeerId.{PeerId}
use vitis.Envelope.Marker.{new_marker_token}
use vitis.Broker.{
  Env, BrokerDeps, FinalResult, Delivered, replied, failed, Drained, is_n_peer, peer_ids,
  policy_or_default,
}
use vitis.Broker.Peers.{transport_for}
use vitis.Broker.Round.{
  Loop, Round, finished, again, panicked, finalize, consumed_or, first_end, drain_control_timed,
  next_slot, next_response, mark, stamp, after_policy, after_drain, to_next, after_reply,
  after_deliver, deliver_failed, counted, round,
}

-- The count of turns in a result is the length of its log.
abbrev pub IsSettled : FinalResult → Type 0
IsSettled r = r.conversation.turns_consumed ≡ length r.turns

-- `u` is the record that the broker keeps of a reply of `active`: the turn `t` that the transport
-- gave, stamped, with the policy's decision `d` on its response written into it.
pub record IsDecided (policy : TurnPolicy) (ids : List PeerId) (spec : TerminatorSpec)
    (before : List ConversationTurn) (active : PeerSlot) (u : ConversationTurn) : Type 0 where
  pub reply : ConversationTurn
  pub decision : Decision
  pub kept : u ≡ mark (stamp active before reply) decision
  pub decided : policy active (next_response spec reply.response) ids ≡ some decision

module _ (env : Env) where
  open env use {World, Transport, ctx_done, rand_read, drain, peer_deliver}

  -- What `finalize` and the branches behind the policy make of the log `turns`.
  pub data Closes (turns : List ConversationTurn) (next : PeerSlot) (conv : Conversation)
      : Round World → Type 0 where
    ends :
        {r : FinalResult} {w : World}
        → r.turns ≡ turns
        → IsSettled r
        → Closes turns next conv (finished r w)
    goes_on :
        {s : Loop} {w : World}
        → s.turns ≡ turns
        → s.active ≡ next
        → s.conv ≡ conv
        → length turns < conv.max_turns
        → Closes turns next conv (again s w)
    breaks : Closes turns next conv panicked

  settled :
      (n : ℕ) (turns : List ConversationTurn)
      → n ≡ length turns
      → consumed_or n (length turns) ≡ length turns
  settled zero turns h = refl
  settled (suc n) turns h = h

  finalize-Closes :
      (conv : Conversation) (turns : List ConversationTurn) (warnings : List Text)
      (status : ConversationStatus) (note : Text) (w : World) {next : PeerSlot}
      → conv.turns_consumed ≡ length turns
      → Closes turns next conv (finalize env conv turns warnings status note w)
  unfolding finalize
  finalize-Closes conv turns warnings status note w h =
      ends refl (settled conv.turns_consumed turns h)

  module _ (deps : BrokerDeps Transport) where
    to_next-Closes :
        (s : Loop) (d : Decision) (response : Text) (w : World) (bytes : Option (List ℕ))
        → length s.turns < s.conv.max_turns
        → Closes s.turns
            (next_slot (is_n_peer deps) d.next)
            s.conv
            (to_next env deps s d response w bytes)
    to_next-Closes s d response w bytes h = elim (Option-cases (new_marker_token bytes)) [
      | inl n ↦ rw (n, to_next) breaks
      | inr (m, e) ↦ rw (e, to_next) (goes_on refl refl refl h)
    ]

    after_drain-Closes :
        (s : Loop) (d : Decision) (response : Text) (w : World) (drained : List Drained)
        → s.conv.turns_consumed ≡ length s.turns
        → length s.turns < s.conv.max_turns
        → Closes s.turns
            (next_slot (is_n_peer deps) d.next)
            s.conv
            (after_drain env deps s d response w drained)
    after_drain-Closes s d response w drained c h =
        elim (Option-cases (first_end (drain_control_timed env drained))) [
          | inl n ↦
              rw (n, after_drain) (to_next-Closes s d response (rand_read w).0 (rand_read w).1 h)
          | inr (end, e) ↦
              rw (e, after_drain) (finalize-Closes s.conv s.turns s.warnings end.0 end.1 w c)
        ]

    after_policy-Closes :
        (ctl : ℕ) (s : Loop) (d : Decision) (response : Text) (w : World)
        → s.conv.turns_consumed ≡ length s.turns
        → Closes s.turns
            (next_slot (is_n_peer deps) d.next)
            s.conv
            (after_policy env deps ctl s d response w)
    unfolding after_policy
    after_policy-Closes ctl s d response w c =
        elim (Bool-cases (leb s.conv.max_turns s.conv.turns_consumed)) [
          | inl y ↦ rw y (finalize-Closes s.conv s.turns s.warnings _ _ w c)
          | inr n ↦ rw n (elim (Bool-cases (ctx_done w).1) [
            | inl y ↦ rw y (finalize-Closes s.conv s.turns s.warnings _ _ (ctx_done w).0 c)
            | inr m ↦ rw m (after_drain-Closes s d response _ _ c (rw c at (not_leb→lt _ _ n)))
          ])
        ]

    abbrev pub Decides :
        TerminatorSpec → List ConversationTurn → PeerSlot → ConversationTurn → Type 0
    Decides = IsDecided (policy_or_default deps.policy) (peer_ids deps)

    -- What a turn of the loop makes of its state: an end with the log as it was, or one decided turn
    -- more, or a panic.
    pub data Turned (s : Loop) : Round World → Type 0 where
      stops :
          {r : FinalResult} {w : World} → r.turns ≡ s.turns → IsSettled r → Turned s (finished r w)
      replies :
          {o : Round World} (u : ConversationTurn)
          → Decides s.conv.terminator s.turns s.active u
          → Closes
              (s.turns ++ u ∷ [])
              (next_slot (is_n_peer deps) u.to_id)
              (record s.conv { turns_consumed = length (s.turns ++ u ∷ []) })
              o
          → Turned s o
      crashes : Turned s panicked

    stop-Turned :
        (s : Loop) (status : ConversationStatus) (note : Text) (w : World)
        → Turned s (finalize env (counted env deps s) s.turns s.warnings status note w)
    unfolding finalize
    stop-Turned s status note w = stops refl (settled (length s.turns) s.turns refl)

    after_reply-Turned :
        (ctl : ℕ) (s : Loop) (reply : ConversationTurn) (w : World)
        → Turned s (after_reply env deps ctl s (stamp s.active s.turns reply) w)
    unfolding after_reply mark
    after_reply-Turned ctl s reply w =
        elim (Option-cases (
          policy_or_default deps.policy s.active (next_response s.conv.terminator reply.response)
            (peer_ids deps))) [
              | inl n ↦ rw (n, after_reply) crashes
              | inr (d, e) ↦
                  rw (e, after_reply)
                    (replies (mark (stamp s.active s.turns reply) d)
                      (record { reply = reply; decision = d; kept = refl; decided = e })
                      (after_policy-Closes ctl _ d _ _ refl))
            ]

    after_deliver-Turned :
        (ctl : ℕ) (s : Loop) (w : World) (answer : Delivered)
        → Turned s (after_deliver env deps ctl s w answer)
    after_deliver-Turned ctl s w (failed e) = elim (Bool-cases e.is_context) [
      | inl y ↦ rw (y, deliver_failed) (stop-Turned s _ _ w)
      | inr n ↦ rw (n, deliver_failed) (stop-Turned s _ _ w)
    ]
    after_deliver-Turned ctl s w (replied t) = after_reply-Turned ctl s t w

    -- Every branch of one turn of the loop.
    pub round-Turned : (ctl : ℕ) (s : Loop) (w : World) → Turned s (round env deps ctl s w)
    unfolding round
    round-Turned ctl s w = elim (Bool-cases (ctx_done w).1) [
      | inl y ↦ rw y (stop-Turned s _ _ (ctx_done w).0)
      | inr n ↦ rw n (elim (Option-cases (transport_for deps s.active)) [
        | inl m ↦ rw m crashes
        | inr (t, e) ↦
            rw e (after_deliver-Turned ctl s _ (peer_deliver t s.envelope (ctx_done w).0).1)
      ])
    ]
