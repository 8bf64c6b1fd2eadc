-- ===== src/Orchestrator/Completion.antt =====
-- completion_loop.go: `waitForCompletionLoop`, as a function of what its selects yield.
use vitis.Prelude.{
  ℕ, suc, ℤ, pos, negsuc, sub_nat, ◌/◌, Bool, true, false, List, [], ◌∷◌, Option, none, some,
  if◌then◌else◌,
}
use vitis.Text.{Text, codes}
use vitis.Model.Session.{
  Float64, RunStatus, timeout, permission_prompt, StreamEventKind, StoredStreamEvent,
}
use vitis.Model.Run.{Adapter, TranscriptObservation, CompletionContext}
use vitis.Terminal.Transcript.{
  StreamEvent, Transcript, new_transcript, append, record_exit, tail_normalized, idle_since,
}
use vitis.Orchestrator.{Woken, cancelled, output_closed, done_closed, output, exited, ticked, Env}

pub record CompletionResult : Type 0 where
  pub observation : TranscriptObservation
  pub transcript : Transcript
  pub exit_code : Option ℤ

-- The variables of the loop; `output_open` is that `outputCh` is not nil.
pub record Loop : Type 0 where
  pub transcript : Transcript
  pub exit_code : Option ℤ
  pub output_open : Bool

unfoldable pub new_loop : Loop
unfolding new_transcript
new_loop = record { transcript = new_transcript 65536; exit_code = none; output_open = true }

-- The result that the loop returns with an observation.
abbrev pub ending : TranscriptObservation → Loop → CompletionResult
ending o s = record { observation = o; transcript = s.transcript; exit_code = s.exit_code }

-- `Duration.Milliseconds`, of nanoseconds; it rounds towards zero.
unfoldable pub milliseconds : ℤ → ℤ
milliseconds (pos n) = pos (n / 1000000)
milliseconds (negsuc n) = sub_nat 0 (suc n / 1000000)

-- The bits of 1.0
abbrev pub one : Float64
one = 4607182418800017408

abbrev pub timeout_observation : TranscriptObservation
timeout_observation = record {
  status = timeout;
  terminal = true;
  confidence = one;
  reason = codes "context deadline exceeded";
  evidence = codes "timeout" ∷ [];
}

-- What `Observe` is asked about.
unfoldable pub context_of : ℕ → ℕ → ℕ → Transcript → Option ℤ → CompletionContext
unfolding tail_normalized idle_since milliseconds
context_of start since idle t exit_code = record {
  raw_tail = t.tail;
  normalized_tail = tail_normalized t;
  elapsed_ms = milliseconds (sub_nat since start);
  idle_ms = milliseconds (idle_since idle t);
  exit_code = exit_code;
  bytes_seen = pos t.bytes_seen;
}

abbrev pub is_permission_prompt : RunStatus → Bool
is_permission_prompt permission_prompt = true
is_permission_prompt _ = false

unfoldable pub with_exit : ℤ → Loop → Loop
unfolding record_exit
with_exit code s = record s { exit_code = some code; transcript = record_exit code s.transcript }

pub data Step : Type 0 where
  goes_on : Loop → Step
  stops : CompletionResult → Step

module _ (env : Env) where
  open env use {World, Process, write, terminate, append_stream_event}

  -- The parameters of the loop.
  pub record Watched : Type 0 where
    pub session_id : Text
    pub process : Process
    pub adapter : Adapter
    pub debug_raw : Bool
    pub start : ℕ

module _ (env : Env) (p : Watched env) where
  open env use {World, write, terminate, append_stream_event}

  abbrev stored : StreamEventKind → StreamEvent → StoredStreamEvent
  stored kind event = record {
    session_id = p.session_id;
    timestamp = event.timestamp;
    kind = kind;
    bytes = event.data_of;
  }

  -- An output event; the channel that is nil yields none.
  unfoldable pub hear : StreamEventKind → StreamEvent → Loop → World → World × Step
  unfolding append
  hear kind event s w =
      if s.output_open
      then (
        if p.debug_raw then append_stream_event (stored kind event) w else w,
        goes_on (record s { transcript = append event s.transcript }),
      )
      else (w, goes_on s)

  -- What follows an observation; a permission prompt that does not end the run is confirmed.
  unfoldable pub observed : Option TranscriptObservation → Loop → World → World × Step
  observed none s w = (w, goes_on s)
  observed (some o) s w =
      if o.terminal
      then (w, stops (ending o s))
      else (if is_permission_prompt o.status then (write p.process (13 ∷ []) w).0 else w, goes_on s)

  -- One round of the loop.
  unfoldable pub step : Woken → Loop → World → World × Step
  unfolding hear observed context_of with_exit
  step cancelled s w = (terminate p.process 5000 w, stops (ending timeout_observation s))
  step (output kind event) s w = hear kind event s w
  step output_closed s w = (w, goes_on (record s { output_open = false }))
  step (exited code) s w = (w, goes_on (with_exit code s))
  step done_closed s w = (w, goes_on (with_exit (pos 0) s))
  step (ticked since idle) s w =
      observed (p.adapter.observe (context_of p.start since idle s.transcript s.exit_code)) s w

  abbrev pub step_then :
      (Loop → World → World × Option CompletionResult)
      → World × Step
      → World × Option CompletionResult
  step_then rest (w, goes_on s) = rest s w
  step_then rest (w, stops r) = (w, some r)

  -- The loop, for the selects given; `none` is that it waits on.
  unfoldable pub wait : List Woken → Loop → World → World × Option CompletionResult
  unfolding step
  wait [] s w = (w, none)
  wait (e ∷ es) s w = step_then (wait es) (step e s w)

module _ (env : Env) where
  open env use {World, Process, now, selects}

  -- `waitForCompletionLoop`, under a context that ends after the given number of seconds.
  unfoldable pub wait_for_completion :
      Text → Process → Adapter → Bool → ℤ → World → World × Option CompletionResult
  unfolding wait new_loop
  wait_for_completion session_id process adapter debug_raw timeout_sec w =
      let clock = now w in
      let woken = selects process timeout_sec clock.0 in
      wait env
        (record {
          session_id = session_id;
          process = process;
          adapter = adapter;
          debug_raw = debug_raw;
          start = clock.1;
        })
        woken.1 new_loop woken.0
