-- ===== src/Adapters.antt =====
-- internal/adapter/claudecode/adapter.go and internal/adapter/codex/adapter.go: the commands of the
-- adapters. `getenv` is `os.Getenv`, empty for a variable that is not set.
use vitis.Prelude.{ℕ, ℤ, Bool, true, false, List, [], ◌∷◌, ◌++◌, ◌==◌, ◌||◌, if◌then◌else◌}
use vitis.Text.{Text, codes, is_empty, is_space, trim_space, trim_right, cons_head}
use vitis.Model.Run.{EnvVars, SpawnSpec}
use vitis.Cli.Wiring.{option_of}

-- `firstNonEmpty`
unfoldable pub first_non_empty : List Text → Text
unfolding trim_space
first_non_empty [] = []
first_non_empty (v ∷ vs) = if is_empty (trim_space v) then first_non_empty vs else v

-- A metacharacter of the shell, or a newline.
unfoldable pub is_unsafe : ℕ → Bool
is_unsafe c =
    c == b';' || c == b'&' || c == b'|' || c == b'$' || c == 96 || c == b'(' || c == b')' || c == 10

-- `validateExecutable` finds one.
unfoldable pub any_unsafe : Text → Bool
unfolding is_unsafe
any_unsafe [] = false
any_unsafe (c ∷ cs) = is_unsafe c || any_unsafe cs

-- The override of a binary, unless it is empty or unsafe.
unfoldable pub binary_or : Text → Text → Text
unfolding any_unsafe
binary_or default override =
    if is_empty override then default else if any_unsafe override then default else override

unfoldable pub split_spaces : Text → List Text
unfolding is_space
split_spaces [] = [] ∷ []
split_spaces (c ∷ cs) =
    let rest = split_spaces cs in if is_space c then [] ∷ rest else cons_head c rest

unfoldable pub non_empty : List Text → List Text
non_empty [] = []
non_empty (l ∷ ls) = if is_empty l then non_empty ls else l ∷ non_empty ls

-- `strings.Fields`
unfoldable pub fields : Text → List Text
unfolding split_spaces non_empty
fields t = non_empty (split_spaces t)

-- The flag with its value, unless that is empty.
abbrev pub flag : Text → Text → List Text
flag name value = if is_empty value then [] else name ∷ value ∷ []

module _ (getenv : Text → Text) where
  unfoldable pub set_in : Text → EnvVars → Text
  unfolding first_non_empty option_of
  set_in name env = first_non_empty (option_of name env ∷ getenv name ∷ [])

  -- `ResolveCommand` of package claudecode
  unfoldable pub claude_command : EnvVars → Text × List Text
  unfolding set_in binary_or fields
  claude_command env = (
    binary_or (codes "claude") (set_in (codes "VITIS_CLAUDE_BINARY") env),
    fields (set_in (codes "VITIS_CLAUDE_ARGS") env),
  )

  -- `ResolveCommand` of package codex
  unfoldable pub codex_command : EnvVars → Text × List Text
  unfolding set_in binary_or fields
  codex_command env =
      let args = set_in (codes "VITIS_CODEX_ARGS") env in
      (
        binary_or (codes "codex") (set_in (codes "VITIS_CODEX_BINARY") env),
        if is_empty args
            then codes "exec" ∷ codes "--full-auto" ∷ codes "--skip-git-repo-check" ∷ []
            else fields args,
      )

  -- `BuildSpawnSpec` of package claudecode
  unfoldable pub claude_spawn_spec : Text → EnvVars → Text → ℤ → ℤ → Text → SpawnSpec
  unfolding claude_command option_of
  claude_spawn_spec cwd env home cols rows prompt =
      let resolved = claude_command env in
      record {
        command = resolved.0;
        args = resolved.1 ++ flag (codes "--model") (option_of (codes "VITIS_MODEL") env);
        env = env;
        cwd = cwd;
        home_dir = home;
        terminal_cols = cols;
        terminal_rows = rows;
        prompt_in_args = false;
      }

  -- The flags of package codex.
  abbrev pub codex_flags : EnvVars → List Text
  codex_flags env =
      flag (codes "--model") (option_of (codes "VITIS_MODEL") env)
      ++ flag (codes "--reasoning-effort") (option_of (codes "VITIS_REASONING_EFFORT") env)

  -- `BuildSpawnSpec` of package codex
  unfoldable pub codex_spawn_spec : Text → EnvVars → Text → ℤ → ℤ → Text → SpawnSpec
  unfolding codex_command option_of
  codex_spawn_spec cwd env home cols rows prompt =
      let resolved = codex_command env in
      record {
        command = resolved.0;
        args = resolved.1 ++ (codex_flags env ++ prompt ∷ []);
        env = env;
        cwd = cwd;
        home_dir = home;
        terminal_cols = cols;
        terminal_rows = rows;
        prompt_in_args = true;
      }

-- `FormatPrompt` of package claudecode, and of package codex
unfoldable pub claude_format_prompt : Text → Text
unfolding trim_right
claude_format_prompt raw = trim_right (λ c. c == 10) raw ++ 10 ∷ []

unfoldable pub codex_format_prompt : Text → Text
codex_format_prompt raw = raw ++ 10 ∷ []
