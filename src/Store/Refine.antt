-- ===== src/Store/Refine.antt =====
-- The file store keeps its promise: each operation and each query follows the maps of Spec.
use vitis.Prelude.{true, ◌||◌, some, List, [], ◌∷◌, ◌≡◌, refl, ap₂, inl, inr, Option-cases, ℤ, pos}
use vitis.Text.{Text}
use vitis.Model.Session.{Session, SessionPatch, SessionTurn}
use vitis.Model.Conversation.{Conversation, ConversationPatch, ConversationTurn}
use vitis.Store.Disk.{Disk, same_dir, mkdir_all, conversations}
use vitis.Store.Records.{Result, ok, Done, update_json, sort_onto, last_of}
use vitis.Store.File
use vitis.Store.File.{
  Store, session_path, turn_path, conversation_path, conversation_turn_path, patched_session,
  patched_conversation, stamp_schema_version, default_line_limit, conversation_line_limit,
}
use vitis.Store.Changed.{write_json_atomic-Changed, append_jsonl-Changed}
use vitis.Store.Kept.{get_json-Holds, read_json-none, read_json-some, peek_jsonl-HoldsLog}
use vitis.Store.Spec.{
  StoreOp, create_session, update_session, append_turn, create_conversation, update_conversation,
  append_conversation_turn, Contents, promised, promised_all, perform, perform_all, IsCoded,
  IsCodedLine, Fits, AllFit,
}
use vitis.Store.Represents.{
  Represents, session_written, turn_written, conversation_written, conversation_turn_written,
}

-- An operation says what is promised, and leaves a disk that holds the promised contents.
abbrev Agrees : Store → Done → Result (Unit {0}) × Contents → Type 0
Agrees store done p = (done.0 ≡ p.0) × Represents store done.1 p.1

module _ (store : Store) (d : Disk) (a : Contents) (r : Represents store d a) where
  made_dir : Represents store (record d { made = λ e. same_dir e conversations || d.made e }) a
  made_dir = record {
    is_open = record {
      allows = r.is_open.allows;
      has_sessions = r.is_open.has_sessions;
      has_turns = r.is_open.has_turns;
      has_raw = r.is_open.has_raw;
    };
    shelf = inr refl;
    sessions = r.sessions;
    turns = r.turns;
    conversations = r.conversations;
    conversation_turns = r.conversation_turns;
  }

  create_session-Agrees :
      (s : Session)
      → IsCoded store store.session s
      → Agrees store (File.create_session store s d) (promised (create_session s) a)
  unfolding File.create_session promised
  create_session-Agrees s (t, e, k) =
      let (d', ends, ch) =
        write_json_atomic-Changed store.session (session_path s.id) d r.is_open.allows
          r.is_open.has_sessions s t refl e in
      rw ends (refl, session_written store d a r s.id t s d' ch k)

  update_session-Agrees :
      (id : Text) (p : SessionPatch)
      → ((s : Session) → a.sessions id ≡ some s → IsCoded store store.session (patched_session p s))
      → Agrees store (File.update_session store id p d) (promised (update_session id p) a)
  unfolding File.update_session update_json promised
  update_session-Agrees id p fits = elim (Option-cases (a.sessions id)) [
    | inl none' ↦
        let missing = rw none' at (r.sessions id) in
        rw
          (
            read_json-none store.session (session_path id) d r.is_open.allows missing,
            none',
            promised,
          )
          (refl, r)
    | inr (s, found) ↦
        let there = rw found at (r.sessions id) in
        let (t, e, k) = fits s found in
        let (d', ends, ch) =
          write_json_atomic-Changed store.session (session_path id) d r.is_open.allows
            r.is_open.has_sessions (patched_session p s) t refl e in
        rw
          (
            read_json-some store.session (session_path id) d r.is_open.allows s there,
            found,
            ends,
            promised,
          )
          (refl, session_written store d a r id t (patched_session p s) d' ch k)
  ]

  append_turn-Agrees :
      (x : SessionTurn)
      → IsCodedLine store store.turn default_line_limit x
      → Agrees store (File.append_turn store x d) (promised (append_turn x) a)
  unfolding File.append_turn promised
  append_turn-Agrees x (l, e, free, short, dec) =
      let (d', ends, ch) =
        append_jsonl-Changed store.turn (turn_path x.session_id) d r.is_open.allows
          r.is_open.has_turns x l e in
      rw ends (refl, turn_written store d a r x.session_id l x d' ch (free, short, dec))

-- `MkdirAll` comes before the conversations' writes.
module _ (store : Store) (d : Disk) (a : Contents) (r : Represents store d a) where
  abbrev made_disk : Disk
  made_disk = record d { made = λ e. same_dir e conversations || d.made e }

  mkdir_all_open : mkdir_all conversations d ≡ (true, made_disk)
  unfolding mkdir_all
  mkdir_all_open = rw r.is_open.allows refl

  create_conversation-Agrees :
      (c : Conversation)
      → IsCoded store store.conversation (stamp_schema_version c)
      → Agrees store (File.create_conversation store c d) (promised (create_conversation c) a)
  unfolding File.create_conversation promised
  create_conversation-Agrees c (t, e, k) =
      let r' = made_dir store d a r in
      let (d', ends, ch) =
        write_json_atomic-Changed store.conversation (conversation_path c.id) made_disk
          r'.is_open.allows refl (stamp_schema_version c) t refl e in
      rw (mkdir_all_open, ends)
        (
          refl,
          conversation_written store made_disk a r' c.id t (stamp_schema_version c) d' ch k refl,
        )

  append_conversation_turn-Agrees :
      (x : ConversationTurn)
      → IsCodedLine store store.conversation_turn conversation_line_limit x
      → Agrees store
          (File.append_conversation_turn store x d)
          (promised (append_conversation_turn x) a)
  unfolding File.append_conversation_turn promised
  append_conversation_turn-Agrees x (l, e, free, short, dec) =
      let r' = made_dir store d a r in
      let (d', ends, ch) =
        append_jsonl-Changed store.conversation_turn (conversation_turn_path x.conversation_id)
          made_disk r'.is_open.allows refl x l e in
      rw (mkdir_all_open, ends)
        (
          refl,
          conversation_turn_written store made_disk a r' x.conversation_id l x d' ch
              (free, short, dec) refl,
        )

  update_conversation-Agrees :
      (id : Text) (p : ConversationPatch)
      → ((c : Conversation)
          → a.conversations id ≡ some c
          → IsCoded store store.conversation (patched_conversation p c))
      → Agrees store (File.update_conversation store id p d) (promised (update_conversation id p) a)
  unfolding File.update_conversation update_json promised
  update_conversation-Agrees id p fits = elim (Option-cases (a.conversations id)) [
    | inl none' ↦
        let missing = rw none' at (r.conversations id) in
        rw
          (
            read_json-none store.conversation (conversation_path id) d r.is_open.allows missing,
            none',
            promised,
          )
          (refl, r)
    | inr (c, found) ↦
        let there = rw found at (r.conversations id) in
        let made : d.made conversations ≡ true = elim r.shelf [
          | inl nothing ↦ absurd (cc (nothing id))
          | inr m ↦ m
        ] in
        let (t, e, k) = fits c found in
        let (d', ends, ch) =
          write_json_atomic-Changed store.conversation (conversation_path id) d r.is_open.allows
            made (patched_conversation p c) t refl e in
        rw
          (
            read_json-some store.conversation (conversation_path id) d r.is_open.allows c there,
            found,
            ends,
            promised,
          )
          (refl, conversation_written store d a r id t (patched_conversation p c) d' ch k made)
  ]

-- Each operation.
perform-Agrees :
    (store : Store) (op : StoreOp) (d : Disk) (a : Contents)
    → Represents store d a
    → Fits store op a
    → Agrees store (perform store op d) (promised op a)
unfolding perform
perform-Agrees store (create_session s) d a r fits = create_session-Agrees store d a r s fits
perform-Agrees store (update_session id p) d a r fits = update_session-Agrees store d a r id p fits
perform-Agrees store (append_turn t) d a r fits = append_turn-Agrees store d a r t fits
perform-Agrees store (create_conversation c) d a r fits =
    create_conversation-Agrees store d a r c fits
perform-Agrees store (update_conversation id p) d a r fits =
    update_conversation-Agrees store d a r id p fits
perform-Agrees store (append_conversation_turn t) d a r fits =
    append_conversation_turn-Agrees store d a r t fits

pub perform_all-Represents :
    (store : Store) (ops : List StoreOp) (d : Disk) (a : Contents)
    → Represents store d a
    → AllFit store ops a
    → ((perform_all store ops d).0 ≡ (promised_all ops a).0)
      × Represents store (perform_all store ops d).1 (promised_all ops a).1
unfolding perform_all promised_all
perform_all-Represents store [] d a r fits = (refl, r)
perform_all-Represents store (op ∷ ops) d a r fits =
    let (said, r') = perform-Agrees store op d a r fits.0 in
    let (rest, r'') =
      perform_all-Represents store ops (perform store op d).1 (promised op a).1 r' fits.1 in
    (ap₂ ◌∷◌ said rest, r'')

-- Each query on a disk that holds the contents.
pub record Answers (store : Store) (d : Disk) (a : Contents) : Type 0 where
  pub session : (id : Text) → File.get_session store id d ≡ ok (a.sessions id)
  pub conversation : (id : Text) → File.get_conversation store id d ≡ ok (a.conversations id)
  pub turns :
      (id : Text) (n : ℤ)
      → File.peek_turns store id n d
        ≡ ok (
            last_of store.turn
              (λ t. t.index)
              n
              (sort_onto store.turn (λ t. t.index) [] (a.turns id)))
  pub conversation_turns :
      (id : Text) (n : ℤ)
      → File.peek_conversation_turns store id n d
        ≡ ok (
            last_of store.conversation_turn
              (λ t. pos t.index)
              n
              (sort_onto store.conversation_turn (λ t. pos t.index) [] (a.conversation_turns id)))

Represents-Answers :
    (store : Store) (d : Disk) (a : Contents) → Represents store d a → Answers store d a
unfolding File.get_session File.get_conversation File.peek_turns File.peek_conversation_turns
Represents-Answers store d a r = record {
  session = λ id.
      get_json-Holds store.session (session_path id) d r.is_open.allows (a.sessions id)
        (r.sessions id);
  conversation = λ id.
      get_json-Holds store.conversation (conversation_path id) d r.is_open.allows
        (a.conversations id) (r.conversations id);
  turns = λ id n.
      peek_jsonl-HoldsLog store.turn default_line_limit (turn_path id) d r.is_open.allows
        (λ t. t.index) n (a.turns id) (r.turns id);
  conversation_turns = λ id n.
      peek_jsonl-HoldsLog store.conversation_turn conversation_line_limit
        (conversation_turn_path id) d r.is_open.allows (λ t. pos t.index) n
        (a.conversation_turns id) (r.conversation_turns id);
}

-- On a disk that denies nothing and holds some contents, any sequence of operations that writes
-- records and lines which its coding and its scanner read back answers as the maps of Spec do, each
-- operation with its success or its error; then each getter and each peek, at every id, returns
-- what the maps have then, the turns sorted by index and cut to the last ones.
pub perform_all_refines :
    (store : Store) (ops : List StoreOp) (d : Disk) (a : Contents)
    → Represents store d a
    → AllFit store ops a
    → ((perform_all store ops d).0 ≡ (promised_all ops a).0)
      × Answers store (perform_all store ops d).1 (promised_all ops a).1
perform_all_refines store ops d a r fits =
    let (said, r') = perform_all-Represents store ops d a r fits in
    (said, Represents-Answers store (perform_all store ops d).1 (promised_all ops a).1 r')
