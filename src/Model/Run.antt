-- ===== src/Model/Run.antt =====
-- internal/model/result.go and errors.go, and the data of internal/adapter/adapter.go: what a
-- single-shot run is asked for, what it gives, and what an adapter tells of a transcript.
use vitis.Prelude.{ℤ, Bool, List, Option}
use vitis.Text.{Text}
use vitis.Model.Session.{RunStatus, SessionTurn, Float64}

pub record RunRequest : Type 0 where
  pub provider : Text
  pub prompt : Text
  pub prompt_file : Text
  pub timeout_sec : ℤ
  pub cwd : Text
  pub env_file : Text
  pub log_backend : Text
  pub log_path : Text
  pub database_url : Text
  pub peek_last : ℤ
  pub debug_raw : Bool
  pub terminal_cols : ℤ
  pub terminal_rows : ℤ
  pub home_dir : Text
  pub model : Text
  pub reasoning_effort : Text

pub data ErrorCode : Type 0 where
  config spawn prompt_io timeout extract store runtime provider input not_found internal : ErrorCode

pub record RunError : Type 0 where
  pub code : ErrorCode
  pub message : Text

pub record ResultMeta : Type 0 where
  pub duration_ms : ℤ
  pub exit_code : Option ℤ
  pub parser_confidence : Float64
  pub observation_confidence : Float64
  pub bytes_captured : ℤ
  pub blocked_reason : Option Text
  pub warnings : List Text

pub record RunResult : Type 0 where
  pub session_id : Text
  pub provider : Text
  pub status : RunStatus
  pub response : Text
  pub peek : List SessionTurn
  pub meta : ResultMeta
  pub error : Option RunError

-- A map of environment variables, as an association list in which the first entry counts.
abbrev pub EnvVars : Type 0
EnvVars = List (Text × Text)

pub record SpawnSpec : Type 0 where
  pub command : Text
  pub args : List Text
  pub env : EnvVars
  pub cwd : Text
  pub home_dir : Text
  pub terminal_cols : ℤ
  pub terminal_rows : ℤ
  pub prompt_in_args : Bool

pub record TranscriptObservation : Type 0 where
  pub status : RunStatus
  pub terminal : Bool
  pub confidence : Float64
  pub reason : Text
  pub evidence : List Text

pub record ExtractionResult : Type 0 where
  pub response : Text
  pub parser_confidence : Float64
  pub notes : List Text

-- `LastWriteMs` is never set.
pub record CompletionContext : Type 0 where
  pub raw_tail : Text
  pub normalized_tail : Text
  pub elapsed_ms : ℤ
  pub idle_ms : ℤ
  pub exit_code : Option ℤ
  pub bytes_seen : ℤ

-- `Adapter`
pub record Adapter : Type 0 where
  pub id : Text
  pub build_spawn_spec : Text → EnvVars → Text → ℤ → ℤ → Text → SpawnSpec
  pub format_prompt : Text → Text
  pub observe : CompletionContext → Option TranscriptObservation
  pub extract_response : Text → Text → ExtractionResult
