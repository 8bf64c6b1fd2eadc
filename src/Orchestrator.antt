-- ===== src/Orchestrator.antt =====
-- internal/orchestrator: what a single-shot run is built from. Completion is completion_loop.go and
-- Run is orchestrator.go; the rest prove.
pub mod Completion
pub mod Stops
pub mod Exits
pub mod Config
pub mod Result
pub mod Run
pub mod Reported
use vitis.Prelude.{ℕ, ℤ, List, Option}
use vitis.Text.{Text}
use vitis.Model.Session.{Session, SessionPatch, SessionTurn, StoredStreamEvent, StreamEventKind}
use vitis.Model.Run.{SpawnSpec}
use vitis.Terminal.Transcript.{StreamEvent}

-- What the select of the completion loop yields: the context's end, an output event or the closed
-- output channel, an exit's code or the closed channel of exits, and a tick with the times at which
-- the elapsed and the idle time are taken.
pub data Woken : Type 0 where
  cancelled output_closed done_closed : Woken
  output : StreamEventKind → StreamEvent → Woken
  exited : ℤ → Woken
  ticked : ℕ → ℕ → Woken

-- The result of a call that may fail, with the text of its error.
pub data Call (A : Type 0) : Type 0 where
  answer : A → Call A
  fault : Text → Call A

-- The interfaces that a run calls: the files, the home directory, the entropy, the runtime and its
-- processes, the store, and the clock. `selects` is what the selects of one completion loop yield
-- under a context that ends after the given number of seconds.
pub record Env : Type 1 where
  pub World : Type 0
  pub Process : Type 0
  pub now : World → World × ℕ
  pub read_file : Text → World → World × Call Text
  pub user_home_dir : World → World × Call Text
  pub new_session_id : World → World × Call Text
  pub spawn : SpawnSpec → World → World × Call Process
  pub write : Process → Text → World → World × Option Text
  pub terminate : Process → ℕ → World → World
  pub selects : Process → ℤ → World → World × List Woken
  pub create_session : Session → World → World × Option Text
  pub update_session : Text → SessionPatch → World → World × Option Text
  pub append_turn : SessionTurn → World → World × Option Text
  pub peek_turns : Text → ℤ → World → World × Call (List SessionTurn)
  pub append_stream_event : StoredStreamEvent → World → World
