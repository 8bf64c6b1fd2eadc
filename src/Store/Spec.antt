-- ===== src/Store/Spec.antt =====
-- What the store promises: records by id that are set and patched, and logs by id that grow.
use vitis.Prelude.{ℕ, Option, none, some, List, [], ◌∷◌, ◌++◌, ◌≡◌, length, ◌<◌, if◌then◌else◌}
use vitis.Text.{Text, equal}
use vitis.Text.Lines.{Free}
use vitis.Model.Session.{Session, SessionPatch, SessionTurn}
use vitis.Model.Conversation.{Conversation, ConversationPatch, ConversationTurn}
use vitis.Store.Disk.{Disk}
use vitis.Store.Lines.{drop_cr}
use vitis.Store.Records.{Coding, Result, ok, err, read_failed, Done}
use vitis.Store.File
use vitis.Store.File.{
  Store, patched_session, patched_conversation, stamp_schema_version, default_line_limit,
  conversation_line_limit,
}

-- The operations that change what is stored.
pub data StoreOp : Type 0 where
  create_session : Session → StoreOp
  update_session : Text → SessionPatch → StoreOp
  append_turn : SessionTurn → StoreOp
  create_conversation : Conversation → StoreOp
  update_conversation : Text → ConversationPatch → StoreOp
  append_conversation_turn : ConversationTurn → StoreOp

pub record Contents : Type 0 where
  pub sessions : Text → Option Session
  pub turns : Text → List SessionTurn
  pub conversations : Text → Option Conversation
  pub conversation_turns : Text → List ConversationTurn

-- A map that is changed at a key.
abbrev pub set_at {ℓ} : {V : Type ℓ} → Text → V → (Text → V) → Text → V
set_at k v m id = if equal k id then v else m id

abbrev pub patched_with {ℓ} :
    {V : Type ℓ}
    → Text
    → (V → V)
    → (Text → Option V)
    → Option V
    → Result (Unit {0}) × (Text → Option V)
patched_with k change m none = (err read_failed, m)
patched_with k change m (some v) = (ok tt, set_at k (some (change v)) m)

unfoldable pub promised : StoreOp → Contents → Result (Unit {0}) × Contents
unfolding patched_session patched_conversation stamp_schema_version
promised (create_session s) a = (ok tt, record a { sessions = set_at s.id (some s) a.sessions })
promised (update_session id p) a =
    let r = patched_with id (patched_session p) a.sessions (a.sessions id) in
    (r.0, record a { sessions = r.1 })
promised (append_turn t) a =
    (ok tt, record a { turns = set_at t.session_id (a.turns t.session_id ++ t ∷ []) a.turns })
promised (create_conversation c) a = (
  ok tt,
  record a { conversations = set_at c.id (some (stamp_schema_version c)) a.conversations },
)
promised (update_conversation id p) a =
    let r = patched_with id (patched_conversation p) a.conversations (a.conversations id) in
    (r.0, record a { conversations = r.1 })
promised (append_conversation_turn t) a = (
  ok tt,
  record a {
    conversation_turns =
        set_at t.conversation_id (a.conversation_turns t.conversation_id ++ t ∷ [])
          a.conversation_turns;
  },
)

unfoldable pub promised_all : List StoreOp → Contents → List (Result (Unit {0})) × Contents
unfolding promised
promised_all [] a = ([], a)
promised_all (op ∷ ops) a =
    let first = promised op a in let rest = promised_all ops first.1 in (first.0 ∷ rest.0, rest.1)

module _ (store : Store) where
  unfoldable pub perform : StoreOp → Disk → Done
  perform (create_session s) d = File.create_session store s d
  perform (update_session id p) d = File.update_session store id p d
  perform (append_turn t) d = File.append_turn store t d
  perform (create_conversation c) d = File.create_conversation store c d
  perform (update_conversation id p) d = File.update_conversation store id p d
  perform (append_conversation_turn t) d = File.append_conversation_turn store t d

  unfoldable pub perform_all : List StoreOp → Disk → List (Result (Unit {0})) × Disk
  unfolding perform
  perform_all [] d = ([], d)
  perform_all (op ∷ ops) d =
      let first = perform op d in let rest = perform_all ops first.1 in (first.0 ∷ rest.0, rest.1)

  -- The coding of the record round-trips.
  abbrev pub IsCoded : {A : Type 0} → Coding A → A → Type 0
  IsCoded c x = (t : Text) × (c.encode_indent x ≡ some t) × (c.decode t ≡ some x)

  -- So does the coding of a line, which is one line and below the limit of the scanner.
  abbrev pub IsCodedLine : {A : Type 0} → Coding A → ℕ → A → Type 0
  IsCodedLine c limit x =
      (t : Text) × (c.encode x ≡ some t)
      × Free 10 t
      × (length t < limit)
      × (c.decode (drop_cr t) ≡ some x)

  -- What an operation writes is coded well.
  abbrev pub Fits : StoreOp → Contents → Type 0
  Fits (create_session s) a = IsCoded store.session s
  Fits (update_session id p) a =
      (s : Session) → a.sessions id ≡ some s → IsCoded store.session (patched_session p s)
  Fits (append_turn t) a = IsCodedLine store.turn default_line_limit t
  Fits (create_conversation c) a = IsCoded store.conversation (stamp_schema_version c)
  Fits (update_conversation id p) a =
      (c : Conversation)
      → a.conversations id ≡ some c
      → IsCoded store.conversation (patched_conversation p c)
  Fits (append_conversation_turn t) a =
      IsCodedLine store.conversation_turn conversation_line_limit t

  abbrev pub AllFit : List StoreOp → Contents → Type 0
  AllFit [] a = Unit {0}
  AllFit (op ∷ ops) a = Fits op a × AllFit ops (promised op a).1
