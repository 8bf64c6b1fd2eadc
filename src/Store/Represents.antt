-- ===== src/Store/Represents.antt =====
-- A disk that holds given contents, and the writes that keep it so.
use vitis.Prelude.{true, none, some, [], ◌∷◌, ◌++◌, ◌≡◌, refl, inl, inr, ◌⊎◌}
use vitis.Text.{Text}
use vitis.Model.Session.{Session, SessionTurn}
use vitis.Model.Conversation.{Conversation, ConversationTurn}
use vitis.Store.Disk.{Disk, find, text_of, conversations}
use vitis.Store.Records.{line_of}
use vitis.Store.File.{
  Store, session_path, turn_path, conversation_path, conversation_turn_path, default_line_limit,
  conversation_line_limit,
}
use vitis.Store.Changed.{Changed, Changed-IsOpen, IsOpen}
use vitis.Store.Kept.{IsLine, Holds, HoldsLog}
use vitis.Store.Families.{
  session_path-IsFamily, turn_path-IsFamily, conversation_path-IsFamily,
  conversation_turn_path-IsFamily, log_apart, doc_apart, Holds-set_at, HoldsLog-set_at,
  Holds-elsewhere, HoldsLog-elsewhere,
}
use vitis.Store.Spec.{Contents, set_at}

-- The disk holds the contents.
pub record Represents (store : Store) (d : Disk) (a : Contents) : Type 0 where
  pub is_open : IsOpen d
  pub shelf : ((id : Text) → a.conversations id ≡ none) ⊎ (d.made conversations ≡ true)
  pub sessions : (id : Text) → Holds store.session (session_path id) d (a.sessions id)
  pub turns : (id : Text) → HoldsLog store.turn default_line_limit (turn_path id) d (a.turns id)
  pub conversations :
      (id : Text) → Holds store.conversation (conversation_path id) d (a.conversations id)
  pub conversation_turns :
      (id : Text)
      → HoldsLog store.conversation_turn conversation_line_limit
          (conversation_turn_path id)
          d
          (a.conversation_turns id)

module _ (store : Store) (d : Disk) (a : Contents) (r : Represents store d a) where
  pub session_written :
      (k t : Text) (x : Session) (d' : Disk)
      → Changed (session_path k) t d d'
      → store.session.decode t ≡ some x
      → Represents store d' (record a { sessions = set_at k (some x) a.sessions })
  session_written k t x d' ch e = record {
    shelf = elim r.shelf [ inl none' ↦ inl none' | inr m ↦ inr (rw ch.made_same m) ];
    is_open = Changed-IsOpen (session_path k) t d d' ch r.is_open;
    sessions =
        Holds-set_at store.session session_path session_path-IsFamily d d' k t x a.sessions ch e
          r.sessions;
    turns =
        HoldsLog-elsewhere store.turn turn_path turn_path-IsFamily d d' default_line_limit
          (session_path k) t a.turns ch (λ id. refl) r.turns;
    conversations =
        Holds-elsewhere store.conversation conversation_path conversation_path-IsFamily d d'
          (session_path k) t a.conversations ch (λ id. refl) r.conversations;
    conversation_turns =
        HoldsLog-elsewhere store.conversation_turn conversation_turn_path
          conversation_turn_path-IsFamily d d' conversation_line_limit (session_path k) t
          a.conversation_turns ch (λ id. refl) r.conversation_turns;
  }

  pub turn_written :
      (k l : Text) (x : SessionTurn) (d' : Disk)
      → Changed (turn_path k) (text_of (find (turn_path k) d.files) ++ line_of l) d d'
      → IsLine store.turn default_line_limit l x
      → Represents store d' (record a { turns = set_at k (a.turns k ++ x ∷ []) a.turns })
  turn_written k l x d' ch e =
      let t = text_of (find (turn_path k) d.files) ++ line_of l in
      record {
        shelf = elim r.shelf [ inl none' ↦ inl none' | inr m ↦ inr (rw ch.made_same m) ];
        is_open = Changed-IsOpen (turn_path k) t d d' ch r.is_open;
        sessions =
            Holds-elsewhere store.session session_path session_path-IsFamily d d' (turn_path k) t
              a.sessions ch (λ id. refl) r.sessions;
        turns =
            HoldsLog-set_at store.turn turn_path turn_path-IsFamily d d' default_line_limit k l x
              a.turns ch r.turns e;
        conversations =
            Holds-elsewhere store.conversation conversation_path conversation_path-IsFamily d d'
              (turn_path k) t a.conversations ch (λ id. refl) r.conversations;
        conversation_turns =
            HoldsLog-elsewhere store.conversation_turn conversation_turn_path
              conversation_turn_path-IsFamily d d' conversation_line_limit (turn_path k) t
              a.conversation_turns ch (λ id. refl) r.conversation_turns;
      }

  pub conversation_written :
      (k t : Text) (x : Conversation) (d' : Disk)
      → Changed (conversation_path k) t d d'
      → store.conversation.decode t ≡ some x
      → d.made conversations ≡ true
      → Represents store d' (record a { conversations = set_at k (some x) a.conversations })
  conversation_written k t x d' ch e m = record {
    shelf = inr (rw ch.made_same m);
    is_open = Changed-IsOpen (conversation_path k) t d d' ch r.is_open;
    sessions =
        Holds-elsewhere store.session session_path session_path-IsFamily d d' (conversation_path k)
          t a.sessions ch (λ id. refl) r.sessions;
    turns =
        HoldsLog-elsewhere store.turn turn_path turn_path-IsFamily d d' default_line_limit
          (conversation_path k) t a.turns ch (λ id. refl) r.turns;
    conversations =
        Holds-set_at store.conversation conversation_path conversation_path-IsFamily d d' k t x
          a.conversations ch e r.conversations;
    conversation_turns =
        HoldsLog-elsewhere store.conversation_turn conversation_turn_path
          conversation_turn_path-IsFamily d d' conversation_line_limit (conversation_path k) t
          a.conversation_turns ch (log_apart k) r.conversation_turns;
  }

  pub conversation_turn_written :
      (k l : Text) (x : ConversationTurn) (d' : Disk)
      → Changed
          (conversation_turn_path k)
          (text_of (find (conversation_turn_path k) d.files) ++ line_of l)
          d
          d'
      → IsLine store.conversation_turn conversation_line_limit l x
      → d.made conversations ≡ true
      → Represents store d' (record a {
        conversation_turns = set_at k (a.conversation_turns k ++ x ∷ []) a.conversation_turns;
      })
  conversation_turn_written k l x d' ch e m =
      let t = text_of (find (conversation_turn_path k) d.files) ++ line_of l in
      record {
        shelf = inr (rw ch.made_same m);
        is_open = Changed-IsOpen (conversation_turn_path k) t d d' ch r.is_open;
        sessions =
            Holds-elsewhere store.session session_path session_path-IsFamily d d'
              (conversation_turn_path k) t a.sessions ch (λ id. refl) r.sessions;
        turns =
            HoldsLog-elsewhere store.turn turn_path turn_path-IsFamily d d' default_line_limit
              (conversation_turn_path k) t a.turns ch (λ id. refl) r.turns;
        conversations =
            Holds-elsewhere store.conversation conversation_path conversation_path-IsFamily d d'
              (conversation_turn_path k) t a.conversations ch (doc_apart k) r.conversations;
        conversation_turns =
            HoldsLog-set_at store.conversation_turn conversation_turn_path
              conversation_turn_path-IsFamily d d' conversation_line_limit k l x
              a.conversation_turns ch r.conversation_turns e;
      }
