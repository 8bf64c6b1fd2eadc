-- ===== src/Orchestrator/Run.antt =====
-- orchestrator.go: `Run`, one function for each stretch between two calls that may fail, the last
-- stretch first.
use vitis.Prelude.{
  ℕ, pos, List, [], ◌++◌, Option, none, some, ◌&&◌, if◌then◌else◌, ◌⊎◌, inl, inr, sub_nat,
}
use vitis.Text.{Text, codes, is_empty}
use vitis.Model.Session.{Session, SessionTurn, RunStatus, running, failed}
use vitis.Model.Run.{
  RunRequest, RunResult, RunError, ErrorCode, SpawnSpec, Adapter, EnvVars, ExtractionResult,
  prompt_io, internal,
}
use vitis.Model.Run as Code
use vitis.Terminal.Transcript.{normalized}
use vitis.Orchestrator.{Call, answer, fault, Env}
use vitis.Orchestrator.Completion.{CompletionResult, milliseconds, wait_for_completion}
use vitis.Orchestrator.Config.{
  Failure, plain, run_failure, resolve_prompt, load_env_file, get_adapter,
}
use vitis.Orchestrator.Result.{
  Dependencies, Answer, result, refused, waiting, defaults, assemble_result, error_result,
  empty_patch, turn_of, run_vars,
}

abbrev pub stopped_with : ErrorCode → Text → Answer
stopped_with code e = refused (run_failure code e)

module _ (env : Env) where
  open env use {
    World, Process, now, user_home_dir, new_session_id, spawn, write, terminate, selects,
    create_session, update_session, append_turn, peek_turns,
  }

  -- What `Run` has when the process is there.
  pub record Job : Type 0 where
    pub request : RunRequest
    pub adapter : Adapter
    pub prompt : Text
    pub session : Session
    pub spec : SpawnSpec
    pub process : Process

  abbrev pub peeked : RunResult → World × Call (List SessionTurn) → World × Answer
  peeked r (w, fault e) = (w, stopped_with Code.store e)
  peeked r (w, answer turns) = (w, result (record r { peek = turns }))

  abbrev pub updated : Job → RunResult → World × Option Text → World × Answer
  updated j r (w, some e) = (w, stopped_with Code.store e)
  updated j r (w, none) = peeked r (peek_turns j.session.id j.request.peek_last w)

  -- From `assembleResult` on.
  unfoldable pub assembled : Job → CompletionResult → ExtractionResult → World → World × Answer
  unfolding assemble_result
  assembled j c extraction w =
      let clock = now w in
      let both = assemble_result j.session c extraction clock.1 in
      updated j both.0 (update_session j.session.id both.1 clock.0)

  abbrev pub answered :
      Job → CompletionResult → ExtractionResult → World × Option Text → World × Answer
  answered j c extraction (w, some e) = (w, stopped_with Code.store e)
  answered j c extraction (w, none) = assembled j c extraction w

  -- The assistant's turn.
  abbrev pub said : Job → CompletionResult → ExtractionResult → World → World × Answer
  said j c extraction w =
      let clock = now w in
      answered j c extraction (
        append_turn (turn_of j.session (pos 1) (codes "assistant") extraction.response clock.1)
          clock.0)

  -- From `ExtractResponse` on.
  unfoldable pub extracted : Job → CompletionResult → World → World × Answer
  unfolding assembled normalized
  extracted j c w =
      let extraction = j.adapter.extract_response c.transcript.full_raw (normalized c.transcript) in
      if is_empty extraction.response then assembled j c extraction w else said j c extraction w

  abbrev pub completed : Job → World × Option CompletionResult → World × Answer
  completed j (w, none) = (w, waiting)
  completed j (w, some c) = extracted j c w

  -- `waitForCompletionLoop` and what follows it.
  unfoldable pub watched : Job → World → World × Answer
  unfolding wait_for_completion extracted
  watched j w = completed j (
      wait_for_completion env j.session.id j.process j.adapter j.request.debug_raw
        j.request.timeout_sec w)

  -- `resultWithError`
  abbrev pub result_with_error :
      Job → RunStatus → RunError → World × Call (List SessionTurn) → World × Answer
  result_with_error j status e (w, fault f) = (w, refused (plain f))
  result_with_error j status e (w, answer turns) =
      (w, result (error_result j.session.id j.request.provider status e turns))

  -- A prompt that cannot be written; an error of the update is dropped.
  unfoldable pub unprompted : Job → Text → World → World × Answer
  unfolding milliseconds
  unprompted j e w =
      let clock = now w in
      let patch = record empty_patch {
        status = some failed;
        ended_at = some clock.1;
        duration_ms = some (milliseconds (sub_nat clock.1 j.session.started_at));
      } in
      let stored = update_session j.session.id patch clock.0 in
      result_with_error j failed (record { code = prompt_io; message = e })
        (peek_turns j.session.id j.request.peek_last stored.0)

  abbrev pub prompted : Job → World × Option Text → World × Answer
  prompted j (w, some e) = unprompted j e w
  prompted j (w, none) = watched j w

  abbrev pub asked : Job → World × Option Text → World × Answer
  asked j (w, some e) = (w, stopped_with Code.store e)
  asked j (w, none) =
      if j.spec.prompt_in_args
      then watched j w
      else prompted j (write j.process (j.adapter.format_prompt j.prompt) w)

  -- The user's turn.
  abbrev pub created : Job → World × Option Text → World × Answer
  created j (w, some e) =
      (terminate j.process 500 w, stopped_with Code.store (codes "create session: " ++ e))
  created j (w, none) =
      let clock = now w in
      asked j (append_turn (turn_of j.session (pos 0) (codes "user") j.prompt clock.1) clock.0)

  module _ (q : RunRequest) (adapter : Adapter) (prompt : Text) where
    abbrev pub spawned : Session → SpawnSpec → World × Call Process → World × Answer
    spawned session spec (w, fault e) = (w, stopped_with Code.spawn e)
    spawned session spec (w, answer process) =
        created
          (record {
            request = q;
            adapter = adapter;
            prompt = prompt;
            session = session;
            spec = spec;
            process = process;
          })
          (create_session session w)

    -- The session of `buildSession`.
    abbrev pub session_of : Text → ℕ → Session
    session_of id at = record {
      id = id;
      provider = q.provider;
      status = running;
      started_at = at;
      ended_at = none;
      duration_ms = none;
      exit_code = none;
      parser_confidence = none;
      observation_confidence = none;
      auth_mode = codes "unknown";
      blocked_reason = none;
      bytes_captured = none;
      warnings = [];
      terminal_cols = some q.terminal_cols;
      terminal_rows = some q.terminal_rows;
    }

    -- `buildSession`, and the process.
    abbrev pub identified : EnvVars → Text → World × Call Text → World × Answer
    identified vars home (w, fault e) = (w, stopped_with internal e)
    identified vars home (w, answer id) =
        let clock = now w in
        let spec =
          adapter.build_spawn_spec q.cwd vars home q.terminal_cols q.terminal_rows prompt in
        spawned (session_of id clock.1) spec (spawn spec clock.0)

    abbrev home_or_empty : Call Text → Text
    home_or_empty (fault e) = []
    home_or_empty (answer home) = home

    abbrev pub configured : World × Call EnvVars → World × Answer
    configured (w, fault e) = (w, stopped_with Code.config e)
    configured (w, answer vars) =
        let found = user_home_dir w in
        if is_empty q.home_dir
        then identified (run_vars q vars) (home_or_empty found.1) (new_session_id found.0)
        else identified (run_vars q vars) q.home_dir (new_session_id w)

  abbrev pub adapted : RunRequest → Text → World → Call Adapter → World × Answer
  adapted q prompt w (fault e) = (w, stopped_with Code.provider e)
  adapted q prompt w (answer adapter) = configured q adapter prompt (load_env_file env q.env_file w)

  abbrev pub resolved :
      List (Text × Adapter) → RunRequest → World × (Text ⊎ Failure) → World × Answer
  resolved adapters q (w, inr f) = (w, refused f)
  resolved adapters q (w, inl prompt) = adapted q prompt w (get_adapter q.provider adapters)

  abbrev pub missing : World → World × Answer
  missing w = (w, stopped_with internal (codes "missing orchestrator dependencies"))

  abbrev pub with_adapters :
      Dependencies → RunRequest → World → Option (List (Text × Adapter)) → World × Answer
  with_adapters deps q w none = missing w
  with_adapters deps q w (some adapters) =
      if deps.has_runtime && deps.has_store
      then resolved adapters (defaults q) (resolve_prompt env (defaults q) w)
      else missing w

  -- `Run`
  unfoldable pub run : Dependencies → RunRequest → World → World × Answer
  unfolding watched unprompted resolve_prompt load_env_file get_adapter defaults run_vars
  run deps q w = with_adapters deps q w deps.adapters
