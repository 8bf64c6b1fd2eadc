-- ===== src/Model/Session.antt =====
-- internal/model/session.go, status.go, turn.go, events.go and filters.go: the records of a
-- single-shot run. Times are nanosecond counts; a float is its 64-bit pattern, which the code only
-- copies.
use vitis.Prelude.{ℕ, Bool, true, false, List, Option, ℤ}
use vitis.Text.{Text}
use vitis.Model.Conversation.{ConversationStatus}

pub data RunStatus : Type 0 where
  running completed blocked_on_input permission_prompt auth_required rate_limited : RunStatus
  interrupted timeout partial crashed failed : RunStatus
  other : Text → RunStatus

-- `RunStatus.IsTerminal`
unfoldable pub is_terminal : RunStatus → Bool
is_terminal running = false
is_terminal (other _) = false
is_terminal _ = true

abbrev pub Float64 : Type 0
Float64 = ℕ

pub record Session : Type 0 where
  pub id : Text
  pub provider : Text
  pub status : RunStatus
  pub started_at : ℕ
  pub ended_at : Option ℕ
  pub duration_ms : Option ℤ
  pub exit_code : Option ℤ
  pub parser_confidence : Option Float64
  pub observation_confidence : Option Float64
  pub auth_mode : Text
  pub blocked_reason : Option Text
  pub bytes_captured : Option ℤ
  pub warnings : List Text
  pub terminal_cols : Option ℤ
  pub terminal_rows : Option ℤ

-- `warnings` is `none` for a nil slice.
pub record SessionPatch : Type 0 where
  pub status : Option RunStatus
  pub ended_at : Option ℕ
  pub duration_ms : Option ℤ
  pub exit_code : Option ℤ
  pub parser_confidence : Option Float64
  pub observation_confidence : Option Float64
  pub auth_mode : Option Text
  pub blocked_reason : Option Text
  pub bytes_captured : Option ℤ
  pub warnings : Option (List Text)
  pub terminal_cols : Option ℤ
  pub terminal_rows : Option ℤ

-- `Turn`
pub record SessionTurn : Type 0 where
  pub session_id : Text
  pub index : ℤ
  pub role : Text
  pub content : Text
  pub created_at : ℕ

pub record SessionFilter : Type 0 where
  pub status : Option RunStatus
  pub limit : ℤ
  pub offset : ℤ

pub record ConversationFilter : Type 0 where
  pub status : Option ConversationStatus
  pub limit : ℤ
  pub offset : ℤ

pub data StreamEventKind : Type 0 where
  stdin pty : StreamEventKind
  other : Text → StreamEventKind

pub record StoredStreamEvent : Type 0 where
  pub session_id : Text
  pub timestamp : ℕ
  pub kind : StreamEventKind
  pub bytes : Text
