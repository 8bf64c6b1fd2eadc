-- ===== src/Store/Compat.antt =====
-- internal/store/v1compat/reader.go: conversations and turns of the first version, read as those of
-- the second. Decoding is a parameter.
use vitis.Prelude.{
  ℕ, Bool, false, Option, none, some, List, [], ◌∷◌, ltb, leb, if◌then◌else◌, ◌≡◌, refl, ap₂, inl,
  inr, Bool-cases,
}
use vitis.Text.{Text, equal, is_empty}
use vitis.Model.PeerId.{PeerId}
use vitis.Model.Conversation.{Conversation, ConversationTurn, TurnReason, slot_a, slot_b}

-- `Detect`; `head` is the schema version that the head of the document decodes to.
unfoldable pub detect : (Text → Option ℕ) → Text → Bool
detect head t = elim (head t) [ none ↦ false | some version ↦ ltb version 2 ]

unfoldable pub upgraded : Conversation → Conversation
upgraded c = record c {
  schema_version = 2;
  peers = record { id = slot_a; spec = c.peer_a } ∷ record { id = slot_b; spec = c.peer_b } ∷ [];
  seeds = (slot_a, c.seed_a) ∷ (slot_b, c.seed_b) ∷ [];
  opener_id = if is_empty c.opener then slot_a else c.opener;
}

unfoldable pub upgrade_decoded : Conversation → Conversation
unfolding upgraded
upgrade_decoded c = if leb 2 c.schema_version then c else upgraded c

-- `UpgradeConversation`; `none` is the error of the decoding.
unfoldable pub upgrade_conversation : (Text → Option Conversation) → Text → Option Conversation
unfolding upgrade_decoded
upgrade_conversation decode t = elim (decode t) [ none ↦ none | some c ↦ some (upgrade_decoded c) ]

-- `UpgradeTurns`: the peer that is told, by the one that speaks.
unfoldable pub told_id : PeerId → PeerId → PeerId
told_id from old = if equal from slot_a then slot_b else if equal from slot_b then slot_a else old

abbrev upgraded_reason : Bool → TurnReason → TurnReason
upgraded_reason first TurnReason.unset = if first then TurnReason.opener else TurnReason.addressed
upgraded_reason first r = r

unfoldable pub upgrade_from : Bool → List ConversationTurn → List ConversationTurn
unfolding told_id
upgrade_from first [] = []
upgrade_from first (t ∷ ts) =
    record t {
      from_id = t.from;
      to_id = told_id t.from t.to_id;
      reason = upgraded_reason first t.reason;
    }
    ∷ upgrade_from false ts

unfoldable pub upgrade_turns : List ConversationTurn → List ConversationTurn
unfolding upgrade_from
upgrade_turns ts = upgrade_from Bool.true ts

-- A second upgrade changes nothing.
upgrade_decoded_idem : (c : Conversation) → upgrade_decoded (upgrade_decoded c) ≡ upgrade_decoded c
unfolding upgrade_decoded
upgrade_decoded_idem c = elim (Bool-cases (leb 2 c.schema_version)) [
  | inl y ↦ rw (y, y) refl
  | inr n ↦ rw n refl
]

reason_idem :
    (first : Bool) (r : TurnReason)
    → upgraded_reason first (upgraded_reason first r) ≡ upgraded_reason first r
reason_idem Bool.true TurnReason.unset = refl
reason_idem false TurnReason.unset = refl
reason_idem first TurnReason.opener = refl
reason_idem first TurnReason.addressed = refl
reason_idem first TurnReason.fallback_roundrobin = refl
reason_idem first TurnReason.end = refl
reason_idem first (TurnReason.other t) = refl

told_id_idem : (from old : PeerId) → told_id from (told_id from old) ≡ told_id from old
unfolding told_id
told_id_idem from old = elim (Bool-cases (equal from slot_a)) [
  | inl y ↦ rw y refl
  | inr n ↦ elim (Bool-cases (equal from slot_b)) [
    | inl y ↦ rw (n, y) refl
    | inr m ↦ rw (n, m) refl
  ]
]

upgrade_from_idem :
    (first : Bool) (ts : List ConversationTurn)
    → upgrade_from first (upgrade_from first ts) ≡ upgrade_from first ts
unfolding upgrade_from
upgrade_from_idem first [] = refl
upgrade_from_idem first (t ∷ ts) =
    ap₂ ◌∷◌
      (ap₂ (λ (id : PeerId) (r : TurnReason). record t { from_id = t.from; to_id = id; reason = r })
        (told_id_idem t.from t.to_id) (reason_idem first t.reason))
      (upgrade_from_idem false ts)

-- Turns that were upgraded once stay as they are when they are upgraded again.
upgrade_turns_idem :
    (ts : List ConversationTurn) → upgrade_turns (upgrade_turns ts) ≡ upgrade_turns ts
unfolding upgrade_turns
upgrade_turns_idem ts = upgrade_from_idem Bool.true ts
