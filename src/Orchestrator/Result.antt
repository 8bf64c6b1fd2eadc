-- ===== src/Orchestrator/Result.antt =====
-- orchestrator.go: what `Run` computes without a call: its defaults and its results.
use vitis.Prelude.{
  ℕ, ℤ, pos, sub_nat, Bool, true, false, List, [], ◌∷◌, ◌++◌, Option, none, some, leb_ℤ,
  if◌then◌else◌,
}
use vitis.Text.{Text, codes, is_empty}
use vitis.Model.Session.{
  Session, SessionPatch, SessionTurn, RunStatus, blocked_on_input, permission_prompt, auth_required,
  rate_limited,
}
use vitis.Model.Run.{RunRequest, RunResult, RunError, Adapter, EnvVars, ExtractionResult}
use vitis.Orchestrator.Completion.{CompletionResult, milliseconds}
use vitis.Orchestrator.Config.{Failure, set_var}

-- `Dependencies`, less what is in `Env`; the flags are that the runtime and the store are not nil.
pub record Dependencies : Type 0 where
  pub adapters : Option (List (Text × Adapter))
  pub has_runtime : Bool
  pub has_store : Bool

-- How `Run` ends; `waiting` is that the completion loop waits for more than its selects yield.
pub data Answer : Type 0 where
  result : RunResult → Answer
  refused : Failure → Answer
  waiting : Answer

abbrev or_default_ℤ : ℤ → ℤ → ℤ
or_default_ℤ n d = if leb_ℤ n (pos 0) then d else n

-- The defaults at the head of `Run`.
unfoldable pub defaults : RunRequest → RunRequest
defaults q = record q {
  provider = if is_empty q.provider then codes "claude-code" else q.provider;
  timeout_sec = or_default_ℤ q.timeout_sec (pos 600);
  peek_last = or_default_ℤ q.peek_last (pos 10);
  terminal_cols = or_default_ℤ q.terminal_cols (pos 80);
  terminal_rows = or_default_ℤ q.terminal_rows (pos 24);
}

-- The statuses that `assembleResult` gives a reason for.
unfoldable pub is_blocked : RunStatus → Bool
is_blocked blocked_on_input = true
is_blocked permission_prompt = true
is_blocked auth_required = true
is_blocked rate_limited = true
is_blocked _ = false

-- `append([]string(nil), notes...)`, which is nil for no notes.
abbrev pub copied : List Text → Option (List Text)
copied [] = none
copied (n ∷ ns) = some (n ∷ ns)

abbrev pub empty_patch : SessionPatch
empty_patch = record {
  status = none;
  ended_at = none;
  duration_ms = none;
  exit_code = none;
  parser_confidence = none;
  observation_confidence = none;
  auth_mode = none;
  blocked_reason = none;
  bytes_captured = none;
  warnings = none;
  terminal_cols = none;
  terminal_rows = none;
}

-- `assembleResult`, at the time `ended_at`.
unfoldable pub assemble_result :
    Session → CompletionResult → ExtractionResult → ℕ → RunResult × SessionPatch
unfolding milliseconds is_blocked
assemble_result session r extraction ended_at =
    let obs = r.observation in
    let duration = milliseconds (sub_nat ended_at session.started_at) in
    let reason : Option Text = if is_blocked obs.status then some obs.reason else none in
    (
      record {
        session_id = session.id;
        provider = session.provider;
        status = obs.status;
        response = extraction.response;
        peek = [];
        meta = record {
          duration_ms = duration;
          exit_code = r.exit_code;
          parser_confidence = extraction.parser_confidence;
          observation_confidence = obs.confidence;
          bytes_captured = pos r.transcript.bytes_seen;
          blocked_reason = reason;
          warnings = obs.evidence ++ extraction.notes;
        };
        error = none;
      },
      record empty_patch {
        status = some obs.status;
        ended_at = some ended_at;
        duration_ms = some duration;
        exit_code = r.exit_code;
        parser_confidence = some extraction.parser_confidence;
        observation_confidence = some obs.confidence;
        bytes_captured = some (pos r.transcript.bytes_seen);
        warnings = copied extraction.notes;
        blocked_reason = reason;
      },
    )

-- The result of `resultWithError`.
abbrev pub error_result : Text → Text → RunStatus → RunError → List SessionTurn → RunResult
error_result session_id name status e peek = record {
  session_id = session_id;
  provider = name;
  status = status;
  response = [];
  peek = peek;
  meta = record {
    duration_ms = pos 0;
    exit_code = none;
    parser_confidence = 0;
    observation_confidence = 0;
    bytes_captured = pos 0;
    blocked_reason = none;
    warnings = [];
  };
  error = some e;
}

abbrev pub turn_of : Session → ℤ → Text → Text → ℕ → SessionTurn
turn_of session index role text at = record {
  session_id = session.id;
  index = index;
  role = role;
  content = text;
  created_at = at;
}

abbrev set_unless_empty : Text → Text → EnvVars → EnvVars
set_unless_empty k v env = if is_empty v then env else set_var k v env

-- The environment that the adapter is given.
unfoldable pub run_vars : RunRequest → EnvVars → EnvVars
unfolding set_var
run_vars q env =
    set_unless_empty (codes "VITIS_REASONING_EFFORT") q.reasoning_effort
      (set_unless_empty (codes "VITIS_MODEL") q.model env)
