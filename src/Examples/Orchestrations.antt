-- ===== src/Examples/Orchestrations.antt =====
-- Single-shot runs on concrete inputs. The world is the store: its turns and its last patch.
use vitis.Prelude.{ℕ, ℤ, pos, true, false, List, [], ◌∷◌, ◌++◌, Option, none, some, ◌≡◌, refl}
use vitis.Text.{Text, codes, has_prefix}
use vitis.Model.Session.{SessionPatch, SessionTurn, completed, permission_prompt, pty}
use vitis.Model.Run.{RunRequest, Adapter, TranscriptObservation}
use vitis.Terminal.Tail.{new_transcript-IsTranscript}
use vitis.Orchestrator.{Woken, cancelled, done_closed, output, exited, ticked, answer, Env}
use vitis.Orchestrator.Completion.{
  CompletionResult, Watched, new_loop, wait, one, ending, with_exit,
}
use vitis.Orchestrator.Config.{clean, read_lines}
use vitis.Orchestrator.Result.{Dependencies, Answer, result}
use vitis.Orchestrator.Run.{run}
use vitis.Orchestrator.Stops.{Ends, wait_lem}
use vitis.Orchestrator.Exits.{exit_code_lost, exit_free}
use vitis.Orchestrator.Reported.{IsReported, run-IsReported}

record Desk : Type 0 where
  turns : List SessionTurn
  patch : Option SessionPatch
  typed : Text

-- An agent that prints, asks for a permission, is answered with Enter, prints and exits.
abbrev script : List Woken
script =
    output pty (record { timestamp = 5; data_of = codes "hi" })
    ∷ ticked 1000000 2000000
    ∷ output pty (record { timestamp = 7; data_of = codes "!" })
    ∷ exited (pos 3)
    ∷ done_closed
    ∷ ticked 3000000 3000000
    ∷ []

abbrev ends : TranscriptObservation
ends = record {
  status = completed;
  terminal = true;
  confidence = one;
  reason = codes "exit";
  evidence = [];
}

abbrev seen_by : Option ℤ → Option TranscriptObservation
seen_by none = some (record {
  status = permission_prompt;
  terminal = false;
  confidence = one;
  reason = codes "asks";
  evidence = [];
})
seen_by (some code) = some ends

abbrev agent : Adapter
agent = record {
  id = codes "claude-code";
  build_spawn_spec = λ cwd vars home cols rows prompt. record {
    command = codes "claude";
    args = [];
    env = vars;
    cwd = cwd;
    home_dir = home;
    terminal_cols = cols;
    terminal_rows = rows;
    prompt_in_args = false;
  };
  format_prompt = λ t. t ++ 13 ∷ [];
  observe = λ c. seen_by c.exit_code;
  extract_response = λ raw text. record { response = text; parser_confidence = one; notes = [] };
}

abbrev desk : Env
desk = record {
  World = Desk;
  Process = ℕ;
  now = λ w. (w, 0);
  read_file = λ path w. (w, answer (codes "A=1\n# note\n B = 2 \nA=3"));
  user_home_dir = λ w. (w, answer (codes "/home/u"));
  new_session_id = λ w. (w, answer (codes "s1"));
  spawn = λ spec w. (w, answer 0);
  write = λ p t w. (record w { typed = w.typed ++ t }, none);
  terminate = λ p ms w. w;
  selects = λ p secs w. (w, script);
  create_session = λ s w. (w, none);
  update_session = λ id p w. (record w { patch = some p }, none);
  append_turn = λ t w. (record w { turns = w.turns ++ t ∷ [] }, none);
  peek_turns = λ id n w. (w, answer w.turns);
  append_stream_event = λ e w. w;
}

abbrev watch : Watched desk
watch = record {
  session_id = codes "s1";
  process = 0;
  adapter = agent;
  debug_raw = false;
  start = 0;
}

abbrev fresh : Desk
fresh = record { turns = []; patch = none; typed = [] }

abbrev request : RunRequest
request = record {
  provider = [];
  prompt = codes "go";
  prompt_file = [];
  timeout_sec = pos 0;
  cwd = [];
  env_file = codes "vars";
  log_backend = [];
  log_path = [];
  database_url = [];
  peek_last = pos 0;
  debug_raw = false;
  terminal_cols = pos 0;
  terminal_rows = pos 0;
  home_dir = [];
  model = [];
  reasoning_effort = [];
}

abbrev deps : Dependencies
deps = record {
  adapters = some ((codes "claude-code", agent) ∷ []);
  has_runtime = true;
  has_store = true;
}

clean_path : clean (codes "/a/./b//../../../c") ≡ codes "/c"
unfolding clean has_prefix
clean_path = refl

clean_up : clean (codes "../x/../..") ≡ codes "../.."
unfolding clean has_prefix
clean_up = refl

read_vars :
    read_lines (codes "A=1" ∷ codes "# note" ∷ codes " B = 2 " ∷ codes "A=3" ∷ []) []
    ≡ answer ((codes "A", codes "3") ∷ (codes "B", codes "2") ∷ [])
unfolding read_lines has_prefix
read_vars = refl

abbrev response_of : Answer → Option (Text × Option ℤ)
response_of (result r) = some (r.response, r.meta.exit_code)
response_of _ = none

-- The prompt and one Enter are typed, and the exit's code is lost.
run_typed : (run desk deps request fresh).0.typed ≡ codes "go\r\r"
unfolding run
run_typed = refl

run_response : response_of (run desk deps request fresh).1 ≡ some (codes "hi!", some (pos 0))
unfolding run
run_response = refl

wait_lem_example :
    Ends desk watch [] true none
      (script ++ cancelled ∷ [])
      (wait desk watch (script ++ cancelled ∷ []) new_loop fresh).1
wait_lem_example = wait_lem desk watch (script ++ cancelled ∷ []) fresh

run-IsReported_example : IsReported desk (run desk deps request fresh)
run-IsReported_example = run-IsReported desk deps request fresh

abbrev lost : CompletionResult
lost = ending ends (with_exit (pos 0) (with_exit (pos 3) new_loop))

exit_code_lost_example : lost.exit_code ≡ some (pos 0)
unfolding wait new_loop with_exit exit_free
exit_code_lost_example =
    exit_code_lost desk watch (pos 3) [] new_loop (ticked 0 0 ∷ []) fresh lost
      (new_transcript-IsTranscript 65536) refl refl
