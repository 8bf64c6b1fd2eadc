-- ===== src/Broker/Run.antt =====
-- broker.go: `Run`. The loop has fuel; `Run` gives it one unit more than the cap of turns. The cap is
-- a natural number, for which `make` is taken to have room.
use vitis.Prelude.{ℕ, zero, suc, ◌||◌, List, [], ◌∷◌, ◌++◌, Option, none, some, if◌then◌else◌}
use vitis.Text.{Text, codes, equal, is_empty}
use vitis.Model.PeerId.{PeerId}
use vitis.Model.Conversation.{Conversation, PeerSlot, running, error, slot_a, slot_b}
use vitis.Bus.{topic_control}
use vitis.Envelope.{build_envelope_turn1}
use vitis.Envelope.Marker.{new_marker_token}
use vitis.Broker.{Env, BrokerDeps, FinalResult, Subscribed, subscription, refused, is_n_peer}
use vitis.Broker.Peers.{
  Started, started, start_failed, start_panicked, start_all_peers, stop_all_peers,
}
use vitis.Broker.Round.{Loop, Round, finished, again, panicked, warn, finalize, round}

abbrev pub first_id : List PeerId → PeerId
first_id [] = []
first_id (p ∷ _) = p

-- The opener's slot.
unfoldable pub opener_slot : {T : Type 0} → BrokerDeps T → Conversation → PeerSlot
opener_slot d conv =
    if is_n_peer d
    then (if is_empty conv.opener_id then first_id d.peer_order else conv.opener_id)
    else (if equal conv.opener slot_a || equal conv.opener slot_b then conv.opener else slot_a)

-- How `Run` ends.
pub data Outcome (W : Type 0) : Type 0 where
  returned : FinalResult → W → Outcome W
  crashed : Outcome W
  out_of_fuel : Outcome W

module _ (env : Env) where
  open env use {
    World, Transport, now, rand_read, create_conversation, subscribe, unsubscribe, terminator_start,
    terminator_stop,
  }

  -- A deferred call, made where `Run` returns.
  abbrev pub deferred : (World → World) → Outcome World → Outcome World
  deferred stop (returned r w) = returned r (stop w)
  deferred stop crashed = crashed
  deferred stop out_of_fuel = out_of_fuel

  -- A `return b.finalize(…)` of `Run` itself.
  abbrev pub return_of : Round World → Outcome World
  return_of (finished r w) = returned r w
  return_of (again s w) = out_of_fuel
  return_of panicked = crashed

  -- What follows one turn of the loop, with the rest of the loop given.
  abbrev pub go_on : (Loop → World → Outcome World) → Round World → Outcome World
  go_on rest (finished r w) = returned r w
  go_on rest (again s w) = rest s w
  go_on rest panicked = crashed

  module _ (deps : BrokerDeps Transport) where
    -- The loop of `Run`.
    unfoldable pub loop : ℕ → ℕ → Loop → World → Outcome World
    unfolding round
    loop zero ctl s w = out_of_fuel
    loop (suc fuel) ctl s w = go_on (loop fuel ctl) (round env deps ctl s w)

    -- The first envelope, and the loop.
    abbrev pub converse : ℕ → Conversation → List Text → World → Option (List ℕ) → Outcome World
    converse ctl conv warnings w bytes = elim (new_marker_token bytes) [
      | none ↦ crashed
      | some marker ↦
          loop (suc conv.max_turns) ctl
            (record {
              conv = conv;
              turns = [];
              warnings = warnings;
              active = opener_slot deps conv;
              envelope = build_envelope_turn1 conv (opener_slot deps conv) marker;
            })
            w
    ]

    abbrev pub subscribed : Conversation → List Text → World → Subscribed → Outcome World
    subscribed conv warnings w (refused e) =
        return_of (finalize env conv [] warnings error (codes "control subscribe: " ++ e) w)
    subscribed conv warnings w (subscription ctl) =
        let entropy = rand_read w in
        deferred (unsubscribe ctl) (converse ctl conv warnings entropy.0 entropy.1)

    -- From the start of the terminator on.
    unfoldable pub terminated : Conversation → List Text → World → Outcome World
    unfolding loop finalize opener_slot new_marker_token
    terminated conv warnings w =
        let begun = terminator_start conv w in
        let control = subscribe (topic_control conv.id) begun.0 in
        deferred terminator_stop
          (subscribed conv (warn (codes "terminator start: ") begun.1 warnings) control.0 control.1)

    abbrev pub with_peers : Conversation → List Text → Started World → Outcome World
    with_peers conv warnings start_panicked = crashed
    with_peers conv warnings (start_failed w e) =
        return_of (finalize env conv [] warnings error e w)
    with_peers conv warnings (started w) =
        deferred (stop_all_peers env deps) (terminated conv warnings w)

    -- `Run`
    unfoldable pub run : World → Outcome World
    unfolding terminated start_all_peers stop_all_peers
    run w =
        let clock = now w in
        let conv = record deps.conversation { status = running; created_at = clock.1 } in
        let created = create_conversation conv clock.0 in
        with_peers conv (warn (codes "store create_conversation: ") created.1 [])
          (start_all_peers env deps conv created.0)
