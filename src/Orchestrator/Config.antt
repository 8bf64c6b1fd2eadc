-- ===== src/Orchestrator/Config.antt =====
-- internal/util/env.go and internal/adapter/registry.go, and `resolvePrompt` of orchestrator.go.
-- `filepath.Clean` is that of Unix; the quotes
-- of `%q` are left out of the messages, and a file is read in one step.
use vitis.Prelude.{
  Bool, List, [], ◌∷◌, ◌++◌, Option, none, some, ◌==◌, ◌&&◌, ◌||◌, not, if◌then◌else◌, ◌⊎◌, inl,
  inr, length, leb,
}
use vitis.Text.{Text, codes, equal, is_empty, split, join, contains, has_prefix, trim_space}
use vitis.Store.Lines.{lines_of, drop_cr}
use vitis.Model.Run.{RunRequest, RunError, ErrorCode, config, input, Adapter, EnvVars}
use vitis.Orchestrator.{Call, answer, fault, Env}

abbrev pub dot_dot : Text
dot_dot = 46 ∷ 46 ∷ []

-- One element of a path onto the elements before it, the last first. A `..` takes the last away; at
-- the root it is nothing, and above a relative path it stays.
unfoldable pub onto : Bool → Text → List Text → List Text
onto rooted e [] =
    if is_empty e || equal e (46 ∷ []) || (rooted && equal e dot_dot) then [] else e ∷ []
onto rooted e (top ∷ kept) =
    if is_empty e || equal e (46 ∷ [])
    then top ∷ kept
    else if equal e dot_dot && not (equal top dot_dot)
    then kept
    else e ∷ top ∷ kept

unfoldable pub all_onto : Bool → List Text → List Text → List Text
unfolding onto
all_onto rooted kept [] = kept
all_onto rooted kept (e ∷ es) = all_onto rooted (onto rooted e kept) es

abbrev pub reverse_onto : List Text → List Text → List Text
reverse_onto done [] = done
reverse_onto done (e ∷ es) = reverse_onto (e ∷ done) es

-- `filepath.Clean`
unfoldable pub clean : Text → Text
unfolding all_onto split join
clean path =
    let rooted = has_prefix path (47 ∷ []) in
    let joined = join 47 (reverse_onto [] (all_onto rooted [] (split 47 path))) in
    if rooted then 47 ∷ joined else if is_empty joined then 46 ∷ [] else joined

-- `strings.Contains(filepath.Clean(path), "..")`
unfoldable pub climbs : Text → Bool
unfolding clean contains
climbs path = contains (clean path) dot_dot

-- An assignment to an entry of a map.
unfoldable pub set_var : Text → Text → EnvVars → EnvVars
set_var k v [] = (k, v) ∷ []
set_var k v ((k', v') ∷ m) =
    let rest = set_var k v m in if equal k k' then (k, v) ∷ m else (k', v') ∷ rest

-- `strings.Cut` at the first sign of equality.
abbrev pub cut_equals : Text → Option (Text × Text)
cut_equals [] = none
cut_equals (c ∷ cs) =
    if c == 61
    then some ([], cs)
    else elim (cut_equals cs) [ none ↦ none | some (k, v) ↦ some (c ∷ k, v) ]

abbrev pub with_line : Text → Option (Text × Text) → EnvVars → Call EnvVars
with_line line none env = fault (codes "invalid env line " ++ line)
with_line line (some (k, v)) env = answer (set_var (trim_space k) (trim_space v) env)

-- One line, without the white space around it.
unfoldable pub read_line : Text → EnvVars → Call EnvVars
unfolding set_var trim_space
read_line line env =
    if is_empty line || has_prefix line (35 ∷ [])
    then answer env
    else with_line line (cut_equals line) env

-- The scanner's loop; a line of 65536 bytes or more is its error.
unfoldable pub read_lines : List Text → EnvVars → Call EnvVars
unfolding read_line drop_cr trim_space
read_lines [] env = answer env
read_lines (l ∷ ls) env =
    if leb 65536 (length l)
    then fault (codes "scan env file: bufio.Scanner: token too long")
    else elim (read_line (trim_space (drop_cr l)) env) [
      | fault e ↦ fault e
      | answer env' ↦ read_lines ls env'
    ]

-- `Registry.Register`, of an adapter for an id; `Registry.Get`.
unfoldable pub register : Adapter → List (Text × Adapter) → List (Text × Adapter)
register item [] = (item.id, item) ∷ []
register item ((k, a) ∷ m) =
    let rest = register item m in if equal item.id k then (item.id, item) ∷ m else (k, a) ∷ rest

unfoldable pub get_adapter : Text → List (Text × Adapter) → Call Adapter
get_adapter id [] = fault (codes "unknown provider " ++ id)
get_adapter id ((k, a) ∷ m) = let rest = get_adapter id m in if equal id k then answer a else rest

-- An error of the orchestrator: a `RunError`, or another with its text.
pub data Failure : Type 0 where
  run_error : RunError → Failure
  plain : Text → Failure

abbrev pub run_failure : ErrorCode → Text → Failure
run_failure code message = run_error (record { code = code; message = message })

module _ (env : Env) where
  open env use {World, read_file}

  abbrev file_prompt : World × Call Text → World × (Text ⊎ Failure)
  file_prompt (w, fault e) = (w, inr (run_failure input (codes "read prompt file: " ++ e)))
  file_prompt (w, answer bytes) = (w, inl bytes)

  -- `resolvePrompt`
  unfoldable pub resolve_prompt : RunRequest → World → World × (Text ⊎ Failure)
  unfolding climbs
  resolve_prompt q w =
      if not (is_empty q.prompt) && not (is_empty q.prompt_file)
      then (
        w,
        inr (run_failure config (codes "exactly one of --prompt or --prompt-file must be set")),
      )
      else if not (is_empty q.prompt)
      then (w, inl q.prompt)
      else if is_empty q.prompt_file
      then (w, inr (run_failure config (codes "missing prompt input")))
      else if climbs q.prompt_file
      then (w, inr (plain (codes "prompt-file path must not contain '..': " ++ q.prompt_file)))
      else file_prompt (read_file q.prompt_file w)

  abbrev scanned_env : World × Call Text → World × Call EnvVars
  scanned_env (w, fault e) = (w, fault (codes "open env file: " ++ e))
  scanned_env (w, answer bytes) = (w, read_lines (lines_of bytes) [])

  -- `LoadEnvFile`
  unfoldable pub load_env_file : Text → World → World × Call EnvVars
  unfolding read_lines lines_of climbs
  load_env_file path w =
      if is_empty path
      then (w, answer [])
      else if climbs path
      then (w, fault (codes "env-file path must not contain '..': " ++ path))
      else scanned_env (read_file path w)
