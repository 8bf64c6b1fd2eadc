-- ===== src/Store/File.antt =====
-- internal/store/file/file_store.go, and the two getters of file_store_list.go. The mutex makes each
-- operation one step on the disk. Base64 and the printing of times are parts of the coding of an
-- event.
use vitis.Prelude.{
  ℕ, Bool, true, false, not, ◌||◌, Option, none, some, List, ℤ, pos, length, ltb, ◌==◌,
  if◌then◌else◌,
}
use vitis.Text.{Text, is_empty}
use vitis.Model.Session.{Session, SessionPatch, SessionTurn, StoredStreamEvent}
use vitis.Model.Conversation.{Conversation, ConversationPatch, ConversationTurn}
use vitis.Store.Disk.{Disk, sessions, turns, raw, conversations, FilePath, json, jsonl, mkdir_all}
use vitis.Store.Records.{
  Coding, Result, ok, err, mkdir_failed, missing_log_path, Done, write_json_atomic, append_jsonl,
  update_json, peek_jsonl, get_json,
}

-- The codings of what the store keeps, and whether it keeps raw events.
pub record Store : Type 0 where
  pub debug_raw : Bool
  pub session : Coding Session
  pub turn : Coding SessionTurn
  pub event : Coding StoredStreamEvent
  pub conversation : Coding Conversation
  pub conversation_turn : Coding ConversationTurn

abbrev pub session_path : Text → FilePath
session_path id = record { dir = sessions; id = id; ext = json }

abbrev pub turn_path : Text → FilePath
turn_path id = record { dir = turns; id = id; ext = jsonl }

abbrev pub raw_path : Text → FilePath
raw_path id = record { dir = raw; id = id; ext = jsonl }

abbrev pub conversation_path : Text → FilePath
conversation_path id = record { dir = conversations; id = id; ext = json }

abbrev pub conversation_turn_path : Text → FilePath
conversation_turn_path id = record { dir = conversations; id = id; ext = jsonl }

-- What follows a `MkdirAll`.
abbrev after_mkdir : Bool × Disk → (Disk → Done) → Done
after_mkdir (true, d) k = k d
after_mkdir (false, d) k = (err mkdir_failed, d)

-- `New`, which makes three of the directories
unfoldable pub new_store : Text → Disk → Done
unfolding mkdir_all
new_store root d =
    if is_empty root
    then (err missing_log_path, d)
    else after_mkdir (mkdir_all sessions d) (λ d.
      after_mkdir (mkdir_all turns d) (λ d. after_mkdir (mkdir_all raw d) (λ d. (ok tt, d))))

abbrev or_old {ℓ} : {A : Type ℓ} → Option A → A → A
or_old none old = old
or_old (some a) old = a

abbrev or_kept {ℓ} : {A : Type ℓ} → Option A → Option A → Option A
or_kept none old = old
or_kept (some a) old = some a

-- The fields that a patch sets.
unfoldable pub patched_session : SessionPatch → Session → Session
patched_session p s = record s {
  status = or_old p.status s.status;
  ended_at = or_kept p.ended_at s.ended_at;
  duration_ms = or_kept p.duration_ms s.duration_ms;
  exit_code = or_kept p.exit_code s.exit_code;
  parser_confidence = or_kept p.parser_confidence s.parser_confidence;
  observation_confidence = or_kept p.observation_confidence s.observation_confidence;
  auth_mode = or_old p.auth_mode s.auth_mode;
  blocked_reason = or_kept p.blocked_reason s.blocked_reason;
  bytes_captured = or_kept p.bytes_captured s.bytes_captured;
  warnings = or_old p.warnings s.warnings;
  terminal_cols = or_kept p.terminal_cols s.terminal_cols;
  terminal_rows = or_kept p.terminal_rows s.terminal_rows;
}

unfoldable pub patched_conversation : ConversationPatch → Conversation → Conversation
patched_conversation p c = record c {
  status = or_old p.status c.status;
  ended_at = or_kept p.ended_at c.ended_at;
  turns_consumed = or_old p.turns_consumed c.turns_consumed;
}

-- `stampSchemaVersion`
unfoldable pub stamp_schema_version : Conversation → Conversation
stamp_schema_version c =
    if not (c.schema_version == 0)
    then c
    else if ltb 0 (length c.peers) || ltb 0 (length c.seeds) || not (is_empty c.opener_id)
    then record c { schema_version = 2 }
    else c

-- `bufio.MaxScanTokenSize`
abbrev pub default_line_limit : ℕ
default_line_limit = 65536

abbrev pub conversation_line_limit : ℕ
conversation_line_limit = 1048576

module _ (store : Store) where
  unfoldable pub create_session : Session → Disk → Done
  unfolding write_json_atomic
  create_session s d = write_json_atomic store.session (session_path s.id) s d

  unfoldable pub update_session : Text → SessionPatch → Disk → Done
  unfolding update_json patched_session
  update_session id patch d = update_json store.session (session_path id) (patched_session patch) d

  unfoldable pub append_turn : SessionTurn → Disk → Done
  unfolding append_jsonl
  append_turn t d = append_jsonl store.turn (turn_path t.session_id) t d

  unfoldable pub peek_turns : Text → ℤ → Disk → Result (List SessionTurn)
  unfolding peek_jsonl
  peek_turns id n d = peek_jsonl store.turn (λ t. t.index) default_line_limit n (turn_path id) d

  unfoldable pub append_stream_event : StoredStreamEvent → Disk → Done
  unfolding append_jsonl
  append_stream_event e d =
      if not store.debug_raw
      then (ok tt, d)
      else append_jsonl store.event (raw_path e.session_id) e d

  unfoldable pub create_conversation : Conversation → Disk → Done
  unfolding mkdir_all write_json_atomic stamp_schema_version
  create_conversation c d =
      after_mkdir (mkdir_all conversations d)
        (write_json_atomic store.conversation (conversation_path c.id) (stamp_schema_version c))

  unfoldable pub update_conversation : Text → ConversationPatch → Disk → Done
  unfolding update_json patched_conversation
  update_conversation id patch d =
      update_json store.conversation (conversation_path id) (patched_conversation patch) d

  unfoldable pub append_conversation_turn : ConversationTurn → Disk → Done
  unfolding mkdir_all append_jsonl
  append_conversation_turn t d =
      after_mkdir (mkdir_all conversations d)
        (append_jsonl store.conversation_turn (conversation_turn_path t.conversation_id) t)

  unfoldable pub peek_conversation_turns : Text → ℤ → Disk → Result (List ConversationTurn)
  unfolding peek_jsonl
  peek_conversation_turns id n d =
      peek_jsonl store.conversation_turn (λ t. pos t.index) conversation_line_limit n
        (conversation_turn_path id) d

  unfoldable pub get_session : Text → Disk → Result (Option Session)
  unfolding get_json
  get_session id d = get_json store.session (session_path id) d

  unfoldable pub get_conversation : Text → Disk → Result (Option Conversation)
  unfolding get_json
  get_conversation id d = get_json store.conversation (conversation_path id) d
