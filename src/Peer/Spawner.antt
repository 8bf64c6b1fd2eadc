-- ===== src/Peer/Spawner.antt =====
-- internal/peer/provider/spawner.go: what a peer's process is spawned with. The environment of the
-- broker's own process, its working directory, and the adapters that only tests register are
-- parameters. Warnings on dropped variables are left out.
use vitis.Prelude.{
  pos, false, List, [], ◌∷◌, Option, none, some, drop, ◌||◌, if◌then◌else◌, ◌⊎◌, inl, inr,
}
use vitis.Text.{Text, codes, equal, is_empty, contains_text, has_prefix}
use vitis.Model.Conversation.{PeerSpec}
use vitis.Model.Run.{EnvVars, SpawnSpec}
use vitis.Cli.Specs.{set_option}
use vitis.Cli.Wiring.{option_of}
use vitis.Adapters.{claude_spawn_spec, codex_command, codex_flags}

abbrev pub allowed_env_keys : List Text
allowed_env_keys =
    codes "ANTHROPIC_API_KEY"
    ∷ codes "OPENAI_API_KEY"
    ∷ codes "MOCK_RESPONSE"
    ∷ codes "MOCK_SENTINEL_AT_TURN"
    ∷ codes "MOCK_DELAY_MS"
    ∷ []

-- The option with its prefix, four characters long, taken off, if it may be forwarded.
unfoldable pub forward : Text → Text → EnvVars → EnvVars
unfolding has_prefix set_option
forward k v env =
    if has_prefix k (codes "env_")
    then (if contains_text allowed_env_keys (drop 4 k) then set_option (drop 4 k) v env else env)
    else env

-- The loop of `buildPeerEnv`, in one of the orders that ranging over the map may take.
unfoldable pub forward_all : List (Text × Text) → EnvVars → EnvVars
unfolding forward
forward_all [] env = env
forward_all ((k, v) ∷ options) env = forward_all options (forward k v env)

abbrev pub set_if_given : Text → Text → EnvVars → EnvVars
set_if_given k v env = if is_empty v then env else set_option k v env

-- `buildPeerEnv`
unfoldable pub build_peer_env : List (Text × Text) → EnvVars
unfolding forward_all option_of set_option
build_peer_env options =
    set_if_given (codes "VITIS_REASONING_EFFORT") (option_of (codes "reasoning-effort") options) (
      set_if_given (codes "VITIS_MODEL") (option_of (codes "model") options)
        (forward_all options []))

pub data SpawnError : Type 0 where
  unsupported_uri : Text → SpawnError
  unknown_provider : Text → SpawnError

abbrev pub or_given : Text → Text → Text
or_given value default = if is_empty value then default else value

-- The adapters that are told apart by the id.
pub data Provider : Type 0 where
  claude codex : Provider
  other : Provider

abbrev pub provider_of : Text → Provider
provider_of id =
    if equal id (codes "claude-code") || equal id (codes "claudecode")
    then claude
    else if equal id (codes "codex")
    then codex
    else other

-- `registered` has the specs of the adapters that tests register.
module _ (getenv : Text → Text) (getwd : Text)
    (registered : Text → Option (List (Text × Text) → Text → EnvVars → Text → SpawnSpec)) where
  -- The interactive form of codex.
  unfoldable pub codex_peer_spec : Text → EnvVars → Text → SpawnSpec
  unfolding codex_command option_of
  codex_peer_spec cwd env home = record {
    command = (codex_command getenv env).0;
    args = codex_flags getenv env;
    env = env;
    cwd = cwd;
    home_dir = home;
    terminal_cols = pos 80;
    terminal_rows = pos 24;
    prompt_in_args = false;
  }

  abbrev pub spec_by :
      Provider → Text → List (Text × Text) → Text → Text → EnvVars → SpawnError ⊎ SpawnSpec
  spec_by claude id options cwd home env =
      inr (claude_spawn_spec getenv cwd env home (pos 80) (pos 24) [])
  spec_by codex id options cwd home env = inr (codex_peer_spec cwd env home)
  spec_by other id options cwd home env = elim (registered id) [
    | none ↦ inl (unknown_provider id)
    | some build ↦ inr (build options cwd env home)
  ]

  -- `buildPersistentSpawnSpec`; the prefix has nine characters.
  unfoldable pub build_persistent_spawn_spec : PeerSpec → SpawnError ⊎ SpawnSpec
  unfolding claude_spawn_spec codex_peer_spec build_peer_env option_of has_prefix
  build_persistent_spawn_spec spec =
      if has_prefix spec.uri (codes "provider:")
      then spec_by (provider_of (drop 9 spec.uri)) (drop 9 spec.uri) spec.options
          (or_given (option_of (codes "cwd") spec.options) getwd)
          (or_given (option_of (codes "home") spec.options) (getenv (codes "HOME")))
          (build_peer_env spec.options)
      else inl (unsupported_uri spec.uri)

  -- What the spawner of `NewTerminalSpawner` gives the runtime.
  unfoldable pub spec_to_spawn : PeerSpec → SpawnError ⊎ SpawnSpec
  unfolding build_persistent_spawn_spec
  spec_to_spawn spec = elim (build_persistent_spawn_spec spec) [
    | inl e ↦ inl e
    | inr s ↦ inr (record s { prompt_in_args = false })
  ]
