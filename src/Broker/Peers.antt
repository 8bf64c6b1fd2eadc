-- ===== src/Broker/Peers.antt =====
-- broker.go: `transportFor`, `startAllPeers`, `stopAllPeers`, `stopPeerIDs`, `specForPeerID` and
-- `slotFromPeerID`. Calling a nil transport panics.
use vitis.Prelude.{List, [], ◌∷◌, ◌++◌, Option, none, some, if◌then◌else◌}
use vitis.Text.{Text, codes, equal}
use vitis.Model.PeerId.{PeerId}
use vitis.Model.Conversation.{Conversation, PeerParticipant, PeerSlot, PeerSpec, slot_a, slot_b}
use vitis.Broker.{Env, BrokerDeps, is_n_peer}

-- `slotFromPeerID`
unfoldable pub slot_from_peer_id : PeerId → PeerSlot
slot_from_peer_id id = if equal id slot_b then slot_b else slot_a

-- A read of `PeersByID`.
unfoldable pub transport_of : {T : Type 0} → PeerId → List (PeerId × T) → Option T
transport_of id [] = none
transport_of id ((k, t) ∷ m) = if equal k id then some t else transport_of id m

abbrev pub or_slot : {T : Type 0} → BrokerDeps T → PeerSlot → Option T → Option T
or_slot d slot (some t) = some t
or_slot d slot none = if equal slot slot_a then d.peer_a else d.peer_b

-- `transportFor`: in N-peer mode an id that is missing falls through to the slots.
unfoldable pub transport_for : {T : Type 0} → BrokerDeps T → PeerSlot → Option T
unfolding transport_of
transport_for d slot =
    or_slot d slot (if is_n_peer d then transport_of slot d.peers_by_id else none)

unfoldable pub spec_in : PeerId → List PeerParticipant → Option PeerSpec
spec_in id [] = none
spec_in id (p ∷ ps) = if equal p.id id then some p.spec else spec_in id ps

abbrev pub or_legacy : Conversation → PeerId → Option PeerSpec → PeerSpec
or_legacy conv id (some spec) = spec
or_legacy conv id none =
    if equal id slot_a
    then conv.peer_a
    else if equal id slot_b
    then conv.peer_b
    else record { uri = []; options = [] }

-- `specForPeerID`
unfoldable pub spec_for_peer_id : Conversation → PeerId → PeerSpec
unfolding spec_in
spec_for_peer_id conv id = or_legacy conv id (spec_in id conv.peers)

-- How `startAllPeers` ends: started, an error, or a call of a nil transport.
pub data Started (W : Type 0) : Type 0 where
  started : W → Started W
  start_failed : W → Text → Started W
  start_panicked : Started W

module _ (env : Env) where
  open env use {World, Transport, peer_start, peer_stop}

  abbrev stop_found : Option Transport → World → World
  stop_found none w = w
  stop_found (some t) w = peer_stop t w

  -- `stopPeerIDs`, and the loop of `stopAllPeers`.
  unfoldable pub stop_peer_ids : List (PeerId × Transport) → List PeerId → World → World
  unfolding transport_of
  stop_peer_ids peers [] w = w
  stop_peer_ids peers (id ∷ ids) w = stop_peer_ids peers ids (stop_found (transport_of id peers) w)

  -- `stopAllPeers`; it runs only behind a `startAllPeers` that called both legacy transports.
  unfoldable pub stop_all_peers : BrokerDeps Transport → World → World
  unfolding stop_peer_ids
  stop_all_peers d w =
      if is_n_peer d
      then stop_peer_ids d.peers_by_id d.peer_order w
      else stop_found d.peer_b (stop_found d.peer_a w)

  abbrev missing_error : PeerId → Text
  missing_error id =
      codes "peer " ++ (id ++ codes " declared in PeerOrder but missing from PeersByID")

  -- The loop of `startAllPeers` over the order; `begun` holds the ids started so far. The calls of
  -- one round wait until they are read.
  unfoldable pub start_order :
      BrokerDeps Transport → Conversation → List PeerId → List PeerId → World → Started World
  unfolding transport_of spec_for_peer_id stop_peer_ids
  start_order d conv begun [] w = started w
  start_order d conv begun (id ∷ ids) w = elim (transport_of id d.peers_by_id) [
    | none ↦ start_failed (stop_peer_ids d.peers_by_id begun w) (missing_error id)
    | some t ↦
        let r = peer_start t (spec_for_peer_id conv id) conv.id id w in
        let rest = start_order d conv (begun ++ id ∷ []) ids r.0 in
        elim r.1 [
          | none ↦ rest
          | some e ↦
              start_failed (stop_peer_ids d.peers_by_id begun r.0)
                (codes "peer " ++ (id ++ (codes " start: " ++ e)))
        ]
  ]

  abbrev pub start_b : Transport → Transport → Conversation → World → Started World
  start_b a b conv w =
      let r = peer_start b conv.peer_b conv.id slot_b w in
      elim r.1 [
        | none ↦ started r.0
        | some e ↦ start_failed (peer_stop a r.0) (codes "peer B start: " ++ e)
      ]

  abbrev pub start_legacy :
      Option Transport → Option Transport → Conversation → World → Started World
  start_legacy none b conv w = start_panicked
  start_legacy (some a) none conv w =
      let r = peer_start a conv.peer_a conv.id slot_a w in
      elim r.1 [ none ↦ start_panicked | some e ↦ start_failed r.0 (codes "peer A start: " ++ e) ]
  start_legacy (some a) (some b) conv w =
      let r = peer_start a conv.peer_a conv.id slot_a w in
      elim r.1 [
        | none ↦ start_b a b conv r.0
        | some e ↦ start_failed r.0 (codes "peer A start: " ++ e)
      ]

  -- `startAllPeers`
  unfoldable pub start_all_peers : BrokerDeps Transport → Conversation → World → Started World
  unfolding start_order
  start_all_peers d conv w =
      if is_n_peer d
      then start_order d conv [] d.peer_order w
      else start_legacy d.peer_a d.peer_b conv w
