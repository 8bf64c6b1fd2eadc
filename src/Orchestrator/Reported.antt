-- ===== src/Orchestrator/Reported.antt =====
-- orchestrator.go: the result of `Run` against the session that it leaves in the store.
use vitis.Prelude.{
  ℕ, ℤ, pos, Bool, true, false, List, [], Option, none, some, ◌≡◌, ◌⊎◌, inl, inr, refl,
  if◌then◌else◌, Bool-cases, ◌&&◌,
}
use vitis.Text.{Text, codes, is_empty}
use vitis.Model.Session.{Session, SessionPatch, SessionTurn, failed}
use vitis.Model.Run.{
  RunRequest, RunResult, SpawnSpec, Adapter, EnvVars, ExtractionResult, prompt_io,
}
use vitis.Terminal.Transcript.{normalized}
use vitis.Orchestrator.{Call, answer, fault, Env}
use vitis.Orchestrator.Completion.{CompletionResult, wait_for_completion}
use vitis.Orchestrator.Config.{Failure, get_adapter, load_env_file, resolve_prompt}
use vitis.Orchestrator.Result.{
  Dependencies, Answer, result, refused, waiting, is_blocked, assemble_result, defaults, turn_of,
}
use vitis.Orchestrator.Run.{
  Job, peeked, updated, assembled, answered, extracted, completed, watched, result_with_error,
  unprompted, prompted, asked, created, spawned, identified, configured, adapted, resolved, said,
  missing, session_of, with_adapters, run,
}

module _ (env : Env) where
  open env use {World, Process, now, append_turn, write, create_session, update_session, peek_turns}

  -- A run to its end, with the world that it leaves.
  pub record WasStored (w : World) (r : RunResult) : Type 0 where
    pub before : World
    pub after : World
    pub patch : SessionPatch
    pub last : ℤ
    pub stores : update_session r.session_id patch before ≡ (after, none)
    pub peeks : peek_turns r.session_id last after ≡ (w, answer r.peek)
    pub faultless : r.error ≡ none
    pub same_status : patch.status ≡ some r.status
    pub same_duration : patch.duration_ms ≡ some r.meta.duration_ms
    pub same_code : patch.exit_code ≡ r.meta.exit_code
    pub same_parser : patch.parser_confidence ≡ some r.meta.parser_confidence
    pub same_observation : patch.observation_confidence ≡ some r.meta.observation_confidence
    pub same_bytes : patch.bytes_captured ≡ some r.meta.bytes_captured
    pub same_reason : patch.blocked_reason ≡ r.meta.blocked_reason
    pub blocked : is_blocked r.status ≡ true → (t : Text) × (r.meta.blocked_reason ≡ some t)
    pub unblocked : is_blocked r.status ≡ false → r.meta.blocked_reason ≡ none

  -- A run whose prompt could not be written.
  pub record WasUnprompted (w : World) (r : RunResult) : Type 0 where
    pub after : World
    pub last : ℤ
    pub message : Text
    pub peeks : peek_turns r.session_id last after ≡ (w, answer r.peek)
    pub fails : r.status ≡ failed
    pub faulty : r.error ≡ some (record { code = prompt_io; message = message })
    pub silent : r.response ≡ []

  unfoldable pub IsReported : World × Answer → Type 0
  IsReported (w, result r) = WasStored w r ⊎ WasUnprompted w r
  IsReported (w, refused f) = Unit
  IsReported (w, waiting) = Unit

  if-IsReported :
      (b : Bool) (x y : World × Answer)
      → IsReported x
      → IsReported y
      → IsReported (if b then x else y)
  if-IsReported true x y hx hy = hx
  if-IsReported false x y hx hy = hy

  module _ (j : Job env) where
    module _ (c : CompletionResult) (e : ExtractionResult) (at : ℕ) (before after : World) where
      peeked-IsReported :
          update_session j.session.id (assemble_result j.session c e at).1 before ≡ (after, none)
          → (x : World × Call (List SessionTurn))
          → peek_turns j.session.id j.request.peek_last after ≡ x
          → IsReported (peeked env (assemble_result j.session c e at).0 x)
      unfolding IsReported assemble_result
      peeked-IsReported stored (w, fault f) h = tt
      peeked-IsReported stored (w, answer turns) h = inl (record {
        before = before;
        after = after;
        patch = (assemble_result j.session c e at).1;
        last = j.request.peek_last;
        stores = stored;
        peeks = h;
        faultless = refl;
        same_status = refl;
        same_duration = refl;
        same_code = refl;
        same_parser = refl;
        same_observation = refl;
        same_bytes = refl;
        same_reason = refl;
        blocked = λ y. (c.observation.reason, rw y refl);
        unblocked = λ n. rw n refl;
      })

    updated-IsReported :
        (c : CompletionResult) (e : ExtractionResult) (at : ℕ) (before : World)
        → (x : World × Option Text)
        → update_session j.session.id (assemble_result j.session c e at).1 before ≡ x
        → IsReported (updated env j (assemble_result j.session c e at).0 x)
    unfolding IsReported assemble_result
    updated-IsReported c e at before (w, some f) h = tt
    updated-IsReported c e at before (w, none) h =
        peeked-IsReported c e at before w h (peek_turns j.session.id j.request.peek_last w) refl

    assembled-IsReported :
        (c : CompletionResult) (e : ExtractionResult) (w : World)
        → IsReported (assembled env j c e w)
    unfolding assembled
    assembled-IsReported c e w = updated-IsReported c e _ _ _ refl

    answered-IsReported :
        (c : CompletionResult) (e : ExtractionResult) (x : World × Option Text)
        → IsReported (answered env j c e x)
    unfolding IsReported
    answered-IsReported c e (w, some f) = tt
    answered-IsReported c e (w, none) = assembled-IsReported c e w

    said-IsReported :
        (c : CompletionResult) (e : ExtractionResult) (w : World) → IsReported (said env j c e w)
    said-IsReported c e w =
        let turn = turn_of j.session (pos 1) (codes "assistant") e.response (now w).1 in
        answered-IsReported c e (append_turn turn (now w).0)

    extracted-IsReported : (c : CompletionResult) (w : World) → IsReported (extracted env j c w)
    unfolding extracted normalized
    extracted-IsReported c w =
        let e = j.adapter.extract_response c.transcript.full_raw (normalized c.transcript) in
        if-IsReported (is_empty e.response) (assembled env j c e w) (said env j c e w)
          (assembled-IsReported c e w) (said-IsReported c e w)

    completed-IsReported : (x : World × Option CompletionResult) → IsReported (completed env j x)
    unfolding IsReported
    completed-IsReported (w, none) = tt
    completed-IsReported (w, some c) = extracted-IsReported c w

    watched-IsReported : (w : World) → IsReported (watched env j w)
    unfolding watched
    watched-IsReported w = completed-IsReported (
        wait_for_completion env j.session.id j.process j.adapter j.request.debug_raw
          j.request.timeout_sec w)

    result_with_error-IsReported :
        (m : Text) (after : World) (x : World × Call (List SessionTurn))
        → peek_turns j.session.id j.request.peek_last after ≡ x
        → IsReported (result_with_error env j failed (record { code = prompt_io; message = m }) x)
    unfolding IsReported
    result_with_error-IsReported m after (w, fault f) h = tt
    result_with_error-IsReported m after (w, answer turns) h = inr (record {
      after = after;
      last = j.request.peek_last;
      message = m;
      peeks = h;
      fails = refl;
      faulty = refl;
      silent = refl;
    })

    prompted-IsReported : (x : World × Option Text) → IsReported (prompted env j x)
    unfolding unprompted
    prompted-IsReported (w, none) = watched-IsReported w
    prompted-IsReported (w, some e) = result_with_error-IsReported e _ _ refl

    asked-IsReported : (x : World × Option Text) → IsReported (asked env j x)
    unfolding IsReported
    asked-IsReported (w, some e) = tt
    asked-IsReported (w, none) =
        if-IsReported j.spec.prompt_in_args (watched env j w)
          (prompted env j (write j.process (j.adapter.format_prompt j.prompt) w))
          (watched-IsReported w)
          (prompted-IsReported (write j.process (j.adapter.format_prompt j.prompt) w))

    created-IsReported : (x : World × Option Text) → IsReported (created env j x)
    unfolding IsReported
    created-IsReported (w, some e) = tt
    created-IsReported (w, none) =
        let turn = turn_of j.session (pos 0) (codes "user") j.prompt (now w).1 in
        asked-IsReported (append_turn turn (now w).0)

  module _ (q : RunRequest) (adapter : Adapter) (prompt : Text) where
    spawned-IsReported :
        (session : Session) (spec : SpawnSpec) (x : World × Call Process)
        → IsReported (spawned env q adapter prompt session spec x)
    unfolding IsReported
    spawned-IsReported session spec (w, fault e) = tt
    spawned-IsReported session spec (w, answer process) =
        created-IsReported _ (create_session session w)

    identified-IsReported :
        (vars : EnvVars) (home : Text) (x : World × Call Text)
        → IsReported (identified env q adapter prompt vars home x)
    unfolding IsReported
    identified-IsReported vars home (w, fault e) = tt
    identified-IsReported vars home (w, answer id) =
        let spec =
          adapter.build_spawn_spec q.cwd vars home q.terminal_cols q.terminal_rows prompt in
        spawned-IsReported (session_of env q adapter prompt id (now w).1) spec
          (env.spawn spec (now w).0)

    configured-IsReported :
        (x : World × Call EnvVars) → IsReported (configured env q adapter prompt x)
    unfolding IsReported
    configured-IsReported (w, fault e) = tt
    configured-IsReported (w, answer vars) = elim (Bool-cases (is_empty q.home_dir)) [
      | inl y ↦ rw y (identified-IsReported _ _ _)
      | inr n ↦ rw n (identified-IsReported _ _ _)
    ]

  adapted-IsReported :
      (q : RunRequest) (prompt : Text) (w : World) (x : Call Adapter)
      → IsReported (adapted env q prompt w x)
  unfolding IsReported
  adapted-IsReported q prompt w (fault e) = tt
  adapted-IsReported q prompt w (answer adapter) =
      configured-IsReported q adapter prompt (load_env_file env q.env_file w)

  resolved-IsReported :
      (adapters : List (Text × Adapter)) (q : RunRequest) (x : World × (Text ⊎ Failure))
      → IsReported (resolved env adapters q x)
  unfolding IsReported
  resolved-IsReported adapters q (w, inr f) = tt
  resolved-IsReported adapters q (w, inl prompt) =
      adapted-IsReported q prompt w (get_adapter q.provider adapters)

  missing-IsReported : (w : World) → IsReported (missing env w)
  unfolding IsReported
  missing-IsReported w = tt

  with_adapters-IsReported :
      (deps : Dependencies) (q : RunRequest) (w : World) (x : Option (List (Text × Adapter)))
      → IsReported (with_adapters env deps q w x)
  with_adapters-IsReported deps q w none = missing-IsReported w
  with_adapters-IsReported deps q w (some adapters) =
      if-IsReported (deps.has_runtime && deps.has_store)
        (resolved env adapters (defaults q) (resolve_prompt env (defaults q) w)) (missing env w)
        (resolved-IsReported adapters (defaults q) (resolve_prompt env (defaults q) w))
        (missing-IsReported w)

  -- Each result of `Run` is of one of two kinds. A run to its end has stored, without an error, a
  -- patch with the result's status, duration, exit code, confidences, count of bytes and reason, of
  -- which it has one exactly if the status is blocked, and its turns are what a peek at the session
  -- then returned. A run whose prompt could not be written failed with that error and no response.
  pub run-IsReported :
      (deps : Dependencies) (q : RunRequest) (w : World) → IsReported (run env deps q w)
  unfolding run
  run-IsReported deps q w = with_adapters-IsReported deps q w deps.adapters
