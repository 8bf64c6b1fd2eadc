-- ===== src/Broker/Starting.antt =====
-- broker.go: how `startAllPeers` ends, for a broker with a transport for each declared peer.
use vitis.Prelude.{
  List, [], ◌∷◌, ◌++◌, ◌≡◌, ◌≢◌, ◌⊎◌, inl, inr, refl, Option, none, some, Bool-cases, Option-cases,
}
use vitis.Text.{Text}
use vitis.Model.PeerId.{PeerId}
use vitis.Model.Conversation.{Conversation, slot_a, slot_b}
use vitis.Broker.{Env, BrokerDeps, is_n_peer}
use vitis.Broker.Peers.{
  Started, start_panicked, start_all_peers, start_order, start_legacy, start_b, transport_of,
  spec_for_peer_id,
}
use vitis.Broker.Alive.{IsReady}

module _ (env : Env) where
  open env use {World, Transport, ctx_done, rand_read, drain, peer_deliver, peer_start}

  unfoldable pub IsBegun : Started World → Type 0
  IsBegun start_panicked = ⊥
  IsBegun _ = Unit

  module _ (deps : BrokerDeps Transport) (ready : IsReady env deps) where
    start_order-IsBegun :
        (conv : Conversation) (begun ids : List PeerId) (w : World)
        → IsBegun (start_order env deps conv begun ids w)
    unfolding start_order IsBegun
    start_order-IsBegun conv begun [] w = tt
    start_order-IsBegun conv begun (id ∷ ids) w =
        elim (Option-cases (transport_of id deps.peers_by_id)) [
          | inl n ↦ rw (n, start_order) tt
          | inr (t, e) ↦
              let answer = peer_start t (spec_for_peer_id conv id) conv.id id w in
              rw (e, start_order)
                (elim (Option-cases answer.1) [
                  | inl n ↦ rw n (start_order-IsBegun conv (begun ++ id ∷ []) ids answer.0)
                  | inr (x, f) ↦ rw f tt
                ])
        ]

    start_legacy-IsBegun :
        (conv : Conversation) (a b : Option Transport) (w : World)
        → a ≢ none
        → b ≢ none
        → IsBegun (start_legacy env a b conv w)
    unfolding IsBegun
    start_legacy-IsBegun conv none b w f g = absurd (f refl)
    start_legacy-IsBegun conv (some a) none w f g = absurd (g refl)
    start_legacy-IsBegun conv (some a) (some b) w f g =
        let first = peer_start a conv.peer_a conv.id slot_a w in
        elim (Option-cases first.1) [
          | inl n ↦
              rw (n, start_legacy)
                (both (Option-cases (peer_start b conv.peer_b conv.id slot_b first.0).1))
          | inr (e, h) ↦ rw (h, start_legacy) tt
        ]
      where
        both :
            ((peer_start b conv.peer_b conv.id slot_b
                  (peer_start a conv.peer_a conv.id slot_a w).0).1
                ≡ none)
              ⊎ ((e : Text) × ((peer_start b conv.peer_b conv.id slot_b
                      (peer_start a conv.peer_a conv.id slot_a w).0).1
                    ≡ some e))
            → IsBegun (start_b env a b conv (peer_start a conv.peer_a conv.id slot_a w).0)
        both (inl n) = rw (n, start_b) tt
        both (inr (e, h)) = rw (h, start_b) tt

    pub start_all_peers-IsBegun :
        (conv : Conversation) (w : World) → IsBegun (start_all_peers env deps conv w)
    unfolding start_all_peers IsBegun
    start_all_peers-IsBegun conv w = elim (Bool-cases (is_n_peer deps)) [
      | inl y ↦ rw y (start_order-IsBegun conv [] deps.peer_order w)
      | inr n ↦ rw n (
          start_legacy-IsBegun conv deps.peer_a deps.peer_b w (ready.slots_filled n).0
            (ready.slots_filled n).1)
    ]
