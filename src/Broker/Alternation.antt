-- ===== src/Broker/Alternation.antt =====
-- broker.go: the order of the speakers in a conversation of two peers.
use vitis.Prelude.{
  false, List, [], ◌∷◌, ◌++◌, ◌≡◌, ◌≢◌, ◌⊎◌, inl, inr, refl, sym, subst, ◌∙◌, ap, ap₂, arith, none,
  some, Bool-cases,
}
use vitis.Text.{Text, equal}
use vitis.Text.Equal.{In, here, there, equal_iff, equal-false}
use vitis.Model.Conversation.{
  Conversation, ConversationTurn, PeerSlot, TerminatorSpec, other_slot, slot_a, slot_b,
}
use vitis.Policy.{Decision, next}
use vitis.Policy.Contract.{next-In, next-ne}
use vitis.Broker.{Env, BrokerDeps, FinalResult, is_n_peer, peer_ids, policy_or_default}
use vitis.Broker.Peers.{slot_from_peer_id}
use vitis.Broker.Round.{mark, next_response, next_slot}
use vitis.Broker.Run.{returned, opener_slot, run}
use vitis.Broker.Finish.{IsDecided}
use vitis.Broker.Turns.{Log, empty, more}
use vitis.Broker.Routing.{run-Logged}

-- The first turn is by `s` and goes to the other slot, and so on.
abbrev pub Alternates : PeerSlot → List ConversationTurn → Type 0
Alternates s [] = Unit
Alternates s (t ∷ ts) = (t.from_id ≡ s) × (t.to_id ≡ other_slot s) × Alternates (other_slot s) ts

-- Who speaks behind the turns.
after : PeerSlot → List ConversationTurn → PeerSlot
after s [] = s
after s (t ∷ ts) = after (other_slot s) ts

after-concat :
    (s : PeerSlot) (ts : List ConversationTurn) (u : ConversationTurn)
    → after s (ts ++ u ∷ []) ≡ other_slot (after s ts)
unfolding after
after-concat s [] u = refl
after-concat s (t ∷ ts) u = after-concat (other_slot s) ts u

Alternates-concat :
    (s : PeerSlot) (ts : List ConversationTurn) (u : ConversationTurn)
    → Alternates s ts
    → u.from_id ≡ after s ts
    → u.to_id ≡ other_slot (after s ts)
    → Alternates s (ts ++ u ∷ [])
unfolding after
Alternates-concat s [] u h f t = (f, t, tt)
Alternates-concat s (x ∷ ts) u h f t = (h.0, h.1, Alternates-concat (other_slot s) ts u h.2 f t)

abbrev IsSlot : PeerSlot → Type 0
IsSlot s = (s ≡ slot_a) ⊎ (s ≡ slot_b)

other_slot-IsSlot : (s : PeerSlot) → IsSlot s → IsSlot (other_slot s)
unfolding other_slot
other_slot-IsSlot s (inl e) = inr (rw e)
other_slot-IsSlot s (inr e) = inl (rw e)

In-IsSlot : {id : PeerSlot} → In id (slot_a ∷ slot_b ∷ []) → IsSlot id
In-IsSlot (here e) = inl (sym e)
In-IsSlot (there (here e)) = inr (sym e)
In-IsSlot (there (there m)) = elim m [ ]

slots_apart : slot_a ≢ slot_b
slots_apart = equal-false slot_a slot_b refl

IsSlot-In : {s : PeerSlot} → IsSlot s → In s (slot_a ∷ slot_b ∷ [])
IsSlot-In (inl e) = here (sym e)
IsSlot-In (inr e) = there (here (sym e))

-- Of two slots, the one that is not `s` is the other.
other_of_ne : (s id : PeerSlot) → IsSlot s → IsSlot id → id ≢ s → id ≡ other_slot s
unfolding other_slot
other_of_ne s id (inl e) (inl f) n = absurd (n (f ∙ sym e))
other_of_ne s id (inl e) (inr f) n = rw e f
other_of_ne s id (inr e) (inl f) n = rw e f
other_of_ne s id (inr e) (inr f) n = absurd (n (f ∙ sym e))

slot_from_IsSlot : (s : PeerSlot) → IsSlot s → slot_from_peer_id s ≡ s
unfolding slot_from_peer_id
slot_from_IsSlot s (inl e) = rw e
slot_from_IsSlot s (inr e) = rw e

slot_next : (s : PeerSlot) → IsSlot s → next_slot false s ≡ s
unfolding next_slot
slot_next s v = slot_from_IsSlot s v

next-other :
    (s : PeerSlot) (response : Text) {d : Decision}
    → IsSlot s
    → next s response (slot_a ∷ slot_b ∷ []) ≡ some d
    → d.next ≡ other_slot s
next-other s response {d} v h =
    other_of_ne s d.next v (In-IsSlot (next-In s response (slot_a ∷ slot_b ∷ []) (λ e. cc) h)) (
      next-ne s response (slot_a ∷ slot_b ∷ []) ((slots_apart, tt), (tt, tt)) (omega arith)
        (IsSlot-In v) h)

module _ (env : Env) where
  open env use {World, Transport}

  module _ (deps : BrokerDeps Transport) (two : deps.peers_by_id ≡ [])
      (default : deps.policy ≡ none) where
    two_ids : peer_ids deps ≡ slot_a ∷ slot_b ∷ []
    unfolding peer_ids
    two_ids = simp two

    not_n_peer : is_n_peer deps ≡ false
    not_n_peer = simp two

    opener-IsSlot : (conv : Conversation) → IsSlot (opener_slot deps conv)
    unfolding opener_slot
    opener-IsSlot conv = rw not_n_peer (elim (Bool-cases (equal conv.opener slot_a)) [
      | inl y ↦ rw y (inl ((equal_iff _ _).0 y))
      | inr n ↦ rw n (elim (Bool-cases (equal conv.opener slot_b)) [
        | inl y ↦ rw y (inr ((equal_iff _ _).0 y))
        | inr m ↦ rw m (inl refl)
      ])
    ])

    module _ (spec : TerminatorSpec) where
      decided_other :
          (before : List ConversationTurn) (active : PeerSlot) (u : ConversationTurn)
          → IsSlot active
          → IsDecided (policy_or_default deps.policy) (peer_ids deps) spec before active u
          → (u.from_id ≡ active) × (u.to_id ≡ other_slot active)
      unfolding mark
      decided_other before active u v d =
          (ap (λ x. x.from_id) d.kept, ap (λ x. x.to_id) d.kept ∙ next-other active _ v chosen)
        where
          chosen :
              next active (next_response spec d.reply.response) (slot_a ∷ slot_b ∷ [])
              ≡ some d.decision
          chosen =
              subst (λ x. next active (next_response spec d.reply.response) x ≡ some d.decision)
                two_ids
                (subst
                  (λ p.
                    policy_or_default p active (next_response spec d.reply.response) (peer_ids deps)
                    ≡ some d.decision)
                  default d.decided)

      Log-Alternates :
          (opener : PeerSlot) {ts : List ConversationTurn} {e : PeerSlot}
          → IsSlot opener
          → Log env deps spec opener ts e
          → Alternates opener ts × (e ≡ after opener ts) × IsSlot e
      unfolding after
      Log-Alternates opener o empty = (tt, refl, o)
      Log-Alternates opener o (more {ts} {us} {e} {e'} l u d cut to) =
          let (alt, at, slot) = Log-Alternates opener o l in
          let (from, on) = decided_other ts e u slot d in
          let moved =
            to
            ∙ ap₂ next_slot not_n_peer on
            ∙ slot_next (other_slot e) (other_slot-IsSlot e slot) in
          (
            subst (Alternates opener) (sym cut)
                (Alternates-concat opener ts u alt (from ∙ at) (on ∙ ap other_slot at)),
            moved ∙ ap other_slot at ∙ sym (after-concat opener ts u) ∙ ap (after opener) (sym cut),
            subst IsSlot (sym moved) (other_slot-IsSlot e slot),
          )

    -- In a conversation of two peers with the default policy the turns alternate strictly from the
    -- opener on: each is by the slot that the one before went to, and goes to the other slot.
    pub run-Alternates :
        (w : World) {r : FinalResult} {w' : World}
        → deps.conversation.turns_consumed ≡ 0
        → run env deps w ≡ returned r w'
        → Alternates (opener_slot deps deps.conversation) r.turns
    run-Alternates w z h =
        (Log-Alternates deps.conversation.terminator (opener_slot deps deps.conversation)
          (opener-IsSlot deps.conversation) (run-Logged env deps w z h).log).0
