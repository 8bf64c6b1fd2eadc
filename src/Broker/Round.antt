-- ===== src/Broker/Round.antt =====
-- broker.go: one turn of the loop of `Run`, with `publishTurn`, `drainControlTimed` and `finalize`.
use vitis.Prelude.{
  ℕ, zero, suc, ◌+◌, Bool, true, false, List, [], ◌∷◌, ◌++◌, Option, none, some, leb, if◌then◌else◌,
  length,
}
use vitis.Text.{Text, codes}
use vitis.Model.PeerId.{PeerId}
use vitis.Model.Conversation.{
  Conversation, ConversationPatch, ConversationStatus, ConversationTurn, Envelope, PeerSlot,
  TerminatorSpec, TurnReason, Verdict, VerdictDecision, opener, addressed, fallback_roundrobin,
  max_turns_hit, interrupted, error, peer_crashed, peer_blocked, terminate, peer_id_from_slot,
}
use vitis.Bus.{BusMessage, ControlMsg, ControlKind, turn, verdict, topic_turn}
use vitis.Bus as Bus
use vitis.Policy.{Decision}
use vitis.Sentinel.{strip_sentinel}
use vitis.Envelope.{is_sentinel_kind, build_envelope_turn_n}
use vitis.Envelope.Marker.{new_marker_token}
use vitis.Broker.{
  Env, BrokerDeps, FinalResult, DeliverError, Delivered, replied, failed, Marshalled, payload,
  unmarshallable, Drained, message, ended, idle, is_n_peer, peer_ids, policy_or_default,
}
use vitis.Broker.Peers.{transport_for, slot_from_peer_id}

-- `warnings = append(warnings, fmt.Sprintf(label+"%v", err))` for an error.
abbrev pub warn : Text → Option Text → List Text → List Text
warn label none ws = ws
warn label (some e) ws = ws ++ (label ++ e) ∷ []

-- The variables of the loop.
pub record Loop : Type 0 where
  pub conv : Conversation
  pub turns : List ConversationTurn
  pub warnings : List Text
  pub active : PeerSlot
  pub envelope : Envelope

-- How one turn of the loop ends: `Run` returns, the loop goes on, or a panic.
pub data Round (W : Type 0) : Type 0 where
  finished : FinalResult → W → Round W
  again : Loop → W → Round W
  panicked : Round W

-- The turn as it is stored and published: `FromID`, and the opener's reason.
abbrev pub first_reason : List ConversationTurn → TurnReason → TurnReason
first_reason [] reason = opener
first_reason (_ ∷ _) reason = reason

abbrev pub stamp : PeerSlot → List ConversationTurn → ConversationTurn → ConversationTurn
stamp active turns t = record t {
  from_id = peer_id_from_slot active;
  reason = first_reason turns t.reason;
}

abbrev pub reason_after : TurnReason → Bool → TurnReason
reason_after opener fallback = opener
reason_after _ true = fallback_roundrobin
reason_after _ false = addressed

abbrev pub or_parsed : Option PeerId → Option PeerId → Option PeerId
or_parsed none old = old
or_parsed (some p) old = some p

-- The writes to `last` after the policy has run.
unfoldable pub mark : ConversationTurn → Decision → ConversationTurn
mark t d = record t {
  to_id = d.next;
  reason = reason_after t.reason d.fallback_used;
  fallback_used = d.fallback_used;
  next_id_parsed = or_parsed d.parsed t.next_id_parsed;
}

-- The response that the policy and the next peer see.
unfoldable pub next_response : TerminatorSpec → Text → Text
unfolding strip_sentinel
next_response spec response =
    if is_sentinel_kind spec then strip_sentinel response spec.sentinel else response

-- The slot that speaks next, from the policy's id.
unfoldable pub next_slot : Bool → PeerId → PeerSlot
unfolding slot_from_peer_id
next_slot true id = id
next_slot false id = slot_from_peer_id id

abbrev is_terminate : VerdictDecision → Bool
is_terminate terminate = true
is_terminate _ = false

-- A verdict ends the conversation if it is there and says so.
abbrev pub end_of_verdict : Option Verdict → Option (ConversationStatus × Text)
end_of_verdict none = none
end_of_verdict (some v) = if is_terminate v.decision then some (v.status, v.reason) else none

-- The body of the switch on `ctl.Kind`.
unfoldable pub end_of_kind : ControlKind → ControlMsg → Option (ConversationStatus × Text)
end_of_kind verdict ctl = end_of_verdict ctl.verdict_of
end_of_kind Bus.peer_crashed ctl =
    some (peer_crashed, codes "peer " ++ (ctl.slot ++ (codes " crashed: " ++ ctl.detail)))
end_of_kind Bus.peer_blocked ctl =
    some (peer_blocked, codes "peer " ++ (ctl.slot ++ (codes " blocked: " ++ ctl.detail)))
end_of_kind _ ctl = none

abbrev pub end_of : ControlMsg → Option (ConversationStatus × Text)
unfolding end_of_kind
end_of ctl = end_of_kind ctl.kind ctl

abbrev or_else {ℓ} : {A : Type ℓ} → Option A → Option A → Option A
or_else (some a) b = some a
or_else none b = b

-- The loop over the drained messages.
unfoldable pub first_end : List ControlMsg → Option (ConversationStatus × Text)
unfolding end_of_kind
first_end [] = none
first_end (ctl ∷ ctls) = or_else (end_of ctl) (first_end ctls)

-- The repair of a count that is still 0 in `finalize`.
abbrev pub consumed_or : ℕ → ℕ → ℕ
consumed_or zero n = n
consumed_or (suc m) n = suc m

module _ (env : Env) where
  open env use {
    World, Transport, now, rand_read, ctx_done, update_conversation, append_turn, publish, drain,
    peer_deliver, marshal_turn, unmarshal_control,
  }

  -- `finalize`
  unfoldable pub finalize :
      Conversation
      → List ConversationTurn
      → List Text
      → ConversationStatus
      → Text
      → World
      → Round World
  finalize conv turns warnings status note w =
      let clock = now w in
      let consumed = consumed_or conv.turns_consumed (length turns) in
      let patch : ConversationPatch = record {
        status = some status;
        ended_at = some clock.1;
        turns_consumed = some consumed;
      } in
      let updated = update_conversation conv.id patch clock.0 in
      finished
        (record {
          conversation = record conv {
            status = status;
            ended_at = some clock.1;
            turns_consumed = consumed;
          };
          turns = turns;
          terminator_note = note;
          warnings = warn (codes "store update_conversation: ") updated.1 warnings;
        })
        updated.0

  abbrev publish_payload : ConversationTurn → Marshalled → World → World × Option Text
  publish_payload t (unmarshallable e) w = (w, some e)
  publish_payload t (payload p) w =
      let clock = now w in
      publish (topic_turn t.conversation_id)
        (record {
          conversation_id = t.conversation_id;
          topic = topic_turn t.conversation_id;
          kind = turn;
          payload = p;
          timestamp = clock.1;
        })
        clock.0

  -- `publishTurn`
  unfoldable pub publish_turn : ConversationTurn → World → World × Option Text
  publish_turn t w = publish_payload t (marshal_turn t) w

  abbrev decoded : Option ControlMsg → List ControlMsg → List ControlMsg
  decoded none rest = rest
  decoded (some ctl) rest = ctl ∷ rest

  -- `drainControlTimed` on what its selects yield: messages up to the first that is none.
  unfoldable pub drain_control_timed : List Drained → List ControlMsg
  drain_control_timed [] = []
  drain_control_timed (message m ∷ rest) =
      decoded (unmarshal_control m.payload) (drain_control_timed rest)
  drain_control_timed (ended ∷ rest) = []
  drain_control_timed (idle ∷ rest) = []

  module _ (deps : BrokerDeps Transport) where
    -- The envelope for the next speaker; `NewMarkerToken` may panic.
    abbrev pub to_next : Loop → Decision → Text → World → Option (List ℕ) → Round World
    to_next s d response w bytes = elim (new_marker_token bytes) [
      | none ↦ panicked
      | some marker ↦
          again
            (record s {
              active = next_slot (is_n_peer deps) d.next;
              envelope =
                  build_envelope_turn_n s.conv (s.conv.turns_consumed + 1) s.active response marker;
            })
            w
    ]

    abbrev pub after_drain : Loop → Decision → Text → World → List Drained → Round World
    after_drain s d response w drained = elim (first_end (drain_control_timed drained)) [
      | none ↦ let entropy = rand_read w in to_next s d response entropy.0 entropy.1
      | some end ↦ finalize s.conv s.turns s.warnings end.0 end.1 w
    ]

    -- Behind the policy: the cap on turns, the context, the control messages.
    unfoldable pub after_policy : ℕ → Loop → Decision → Text → World → Round World
    unfolding finalize drain_control_timed first_end next_slot new_marker_token
    after_policy ctl s d response w =
        if leb s.conv.max_turns s.conv.turns_consumed
        then finalize s.conv s.turns s.warnings max_turns_hit (codes "max turns reached") w
        else let c = ctx_done w in
          if c.1
          then finalize s.conv s.turns s.warnings interrupted (codes "context cancelled") c.0
          else let drained = drain ctl c.0 in after_drain s d response drained.0 drained.1

    -- The turn `t` is stored and published, and the policy decides who is next.
    unfoldable pub after_reply : ℕ → Loop → ConversationTurn → World → Round World
    unfolding publish_turn next_response mark
    after_reply ctl s t w =
        let stored = append_turn t w in
        let sent = publish_turn t stored.0 in
        let warnings =
          warn (codes "publish turn: ") sent.1
            (warn (codes "store append_turn: ") stored.1 s.warnings) in
        let response = next_response s.conv.terminator t.response in
        elim (policy_or_default deps.policy t.from_id response (peer_ids deps)) [
          | none ↦ panicked
          | some d ↦
              let turns = s.turns ++ mark t d ∷ [] in
              after_policy ctl
                (record s {
                  conv = record s.conv { turns_consumed = length turns };
                  turns = turns;
                  warnings = warnings;
                })
                d response sent.0
        ]

    abbrev pub counted : Loop → Conversation
    counted s = record s.conv { turns_consumed = length s.turns }

    abbrev pub deliver_failed : Loop → DeliverError → World → Round World
    deliver_failed s e w =
        if e.is_context
        then finalize (counted s) s.turns s.warnings interrupted e.text w
        else finalize (counted s) s.turns s.warnings error
            (codes "peer " ++ (s.active ++ (codes " deliver: " ++ e.text))) w

    abbrev pub after_deliver : ℕ → Loop → World → Delivered → Round World
    after_deliver ctl s w (failed e) = deliver_failed s e w
    after_deliver ctl s w (replied t) = after_reply ctl s (stamp s.active s.turns t) w

    -- The body of the loop.
    unfoldable pub round : ℕ → Loop → World → Round World
    unfolding finalize after_reply transport_for
    round ctl s w =
        let c = ctx_done w in
        if c.1
        then finalize (counted s) s.turns s.warnings interrupted (codes "context cancelled") c.0
        else elim (transport_for deps s.active) [
          | none ↦ panicked
          | some t ↦
              let answer = peer_deliver t s.envelope c.0 in after_deliver ctl s answer.0 answer.1
        ]
