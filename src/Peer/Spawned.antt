-- ===== src/Peer/Spawned.antt =====
-- spawner.go: the spec that a peer's process is spawned with, against the peer's flags and the
-- environment of the broker. The runtime adds the spec's variables to the broker's own.
use vitis.Prelude.{
  false, List, [], ◌++◌, Option, none, ◌≡◌, ◌⊎◌, inl, inr, refl, ap, ◌∙◌, subst, Bool-cases, drop,
}
use vitis.Text.{Text, codes, equal, has_prefix}
use vitis.Text.Equal.{equal_iff}
use vitis.Text.Trim.{has_prefix-drop}
use vitis.Model.Conversation.{PeerSpec}
use vitis.Model.Run.{EnvVars, SpawnSpec}
use vitis.Cli.Wiring.{option_of}
use vitis.Adapters.{fields, flag, set_in, claude_command, claude_spawn_spec, codex_command}
use vitis.Peer.Spawner.{
  build_peer_env, SpawnError, unsupported_uri, Provider, claude, codex, other, provider_of,
  codex_peer_spec, spec_by, build_persistent_spawn_spec, spec_to_spawn,
}
use vitis.Peer.Commands.{
  IsPlain, IsFlag, flag-IsFlag, claude_default, codex_default, no_fields, set_in-broker,
  command-broker,
}
use vitis.Peer.Vars.{HasKeys, build_peer_env-HasKeys, model_entry, effort_entry, foreign_entry}

-- The words of the broker's own arguments for claude; none where they are blank.
abbrev pub OwnWords : (Text → Text) → List Text → Type 0
OwnWords getenv words = (words ≡ []) ⊎ (words ≡ fields (getenv (codes "VITIS_CLAUDE_ARGS")))

-- Claude: its arguments are the broker's own and the peer's model.
pub record IsClaude (getenv : Text → Text) (peer : PeerSpec) (s : SpawnSpec) : Type 0 where
  pub named : (peer.uri ≡ codes "provider:claude-code") ⊎ (peer.uri ≡ codes "provider:claudecode")
  pub own_command :
      (s.command ≡ codes "claude") ⊎ (s.command ≡ getenv (codes "VITIS_CLAUDE_BINARY"))
  pub words : List Text
  pub model : List Text
  pub own_words : OwnWords getenv words
  pub is_model : IsFlag (codes "--model") (option_of (codes "model") peer.options) model
  pub all_args : s.args ≡ words ++ model

-- Codex: its arguments are the peer's model and effort.
pub record IsCodex (getenv : Text → Text) (peer : PeerSpec) (s : SpawnSpec) : Type 0 where
  pub named : peer.uri ≡ codes "provider:codex"
  pub own_command : (s.command ≡ codes "codex") ⊎ (s.command ≡ getenv (codes "VITIS_CODEX_BINARY"))
  pub model : List Text
  pub effort : List Text
  pub is_model : IsFlag (codes "--model") (option_of (codes "model") peer.options) model
  pub is_effort :
      IsFlag (codes "--reasoning-effort") (option_of (codes "reasoning-effort") peer.options) effort
  pub all_args : s.args ≡ model ++ effort

-- What the runtime is given for a peer.
pub record IsConfined (getenv : Text → Text) (peer : PeerSpec) (s : SpawnSpec) : Type 0 where
  pub plain_command : IsPlain s.command
  pub known_keys : HasKeys s.env
  pub kind : IsClaude getenv peer s ⊎ IsCodex getenv peer s
  pub asked_later : s.prompt_in_args ≡ false

unfoldable pub Confines : (Text → Text) → PeerSpec → SpawnError ⊎ SpawnSpec → Type 0
Confines getenv peer (inl e) = Unit
Confines getenv peer (inr s) = IsConfined getenv peer s

module _ (getenv : Text → Text) (getwd : Text)
    (registered : Text → Option (List (Text × Text) → Text → EnvVars → Text → SpawnSpec))
    (untested : (id : Text) → registered id ≡ none) (peer : PeerSpec) where
  -- Which provider an id is.
  abbrev IsNamed : Provider → Type 0
  IsNamed claude =
      (peer.uri ≡ codes "provider:claude-code") ⊎ (peer.uri ≡ codes "provider:claudecode")
  IsNamed codex = peer.uri ≡ codes "provider:codex"
  IsNamed other = Unit

  provider_of-IsNamed : (id : Text) → peer.uri ≡ codes "provider:" ++ id → IsNamed (provider_of id)
  provider_of-IsNamed id u = elim (Bool-cases (equal id (codes "claude-code"))) [
    | inl y ↦ rw y (inl (u ∙ ap (λ x. codes "provider:" ++ x) ((equal_iff id _).0 y)))
    | inr n ↦ elim (Bool-cases (equal id (codes "claudecode"))) [
      | inl y ↦ rw (n, y) (inr (u ∙ ap (λ x. codes "provider:" ++ x) ((equal_iff id _).0 y)))
      | inr m ↦ elim (Bool-cases (equal id (codes "codex"))) [
        | inl y ↦ rw (n, m, y) (u ∙ ap (λ x. codes "provider:" ++ x) ((equal_iff id _).0 y))
        | inr k ↦ rw (n, m, k) tt
      ]
    ]
  ]

  abbrev peer_env : EnvVars
  peer_env = build_peer_env peer.options

  own_words : OwnWords getenv (fields (set_in getenv (codes "VITIS_CLAUDE_ARGS") peer_env))
  own_words =
      let name : Text = codes "VITIS_CLAUDE_ARGS" in
      elim (set_in-broker getenv name peer_env (foreign_entry name peer.options refl refl refl)) [
        | inl e ↦ inl (ap fields e ∙ no_fields)
        | inr e ↦ inr (ap fields e)
      ]

  model_flag :
      IsFlag
        (codes "--model")
        (option_of (codes "model") peer.options)
        (flag (codes "--model") (option_of (codes "VITIS_MODEL") peer_env))
  model_flag =
      subst
        (λ v.
          IsFlag (codes "--model") v
            (flag (codes "--model") (option_of (codes "VITIS_MODEL") peer_env)))
        (model_entry peer.options) (flag-IsFlag (codes "--model") _)

  effort_flag :
      IsFlag
        (codes "--reasoning-effort")
        (option_of (codes "reasoning-effort") peer.options)
        (flag (codes "--reasoning-effort") (option_of (codes "VITIS_REASONING_EFFORT") peer_env))
  effort_flag =
      subst
        (λ v.
          IsFlag (codes "--reasoning-effort") v (
            flag (codes "--reasoning-effort")
              (option_of (codes "VITIS_REASONING_EFFORT") peer_env)))
        (effort_entry peer.options) (flag-IsFlag (codes "--reasoning-effort") _)

  claude_command_lem :
      IsPlain (claude_command getenv peer_env).0
      × (((claude_command getenv peer_env).0 ≡ codes "claude")
          ⊎ ((claude_command getenv peer_env).0 ≡ getenv (codes "VITIS_CLAUDE_BINARY")))
  unfolding claude_command
  claude_command_lem =
      command-broker getenv (codes "claude") (codes "VITIS_CLAUDE_BINARY") peer_env
        (foreign_entry (codes "VITIS_CLAUDE_BINARY") peer.options refl refl refl) claude_default

  codex_command_lem :
      IsPlain (codex_command getenv peer_env).0
      × (((codex_command getenv peer_env).0 ≡ codes "codex")
          ⊎ ((codex_command getenv peer_env).0 ≡ getenv (codes "VITIS_CODEX_BINARY")))
  unfolding codex_command
  codex_command_lem =
      command-broker getenv (codes "codex") (codes "VITIS_CODEX_BINARY") peer_env
        (foreign_entry (codes "VITIS_CODEX_BINARY") peer.options refl refl refl) codex_default

  spec_by-Confines :
      (p : Provider) (id cwd home : Text)
      → IsNamed p
      → Confines getenv peer (spec_by getenv getwd registered p id peer.options cwd home peer_env)
  unfolding Confines claude_spawn_spec codex_peer_spec claude_command
  spec_by-Confines claude id cwd home n = record {
    plain_command = claude_command_lem.0;
    known_keys = build_peer_env-HasKeys peer.options;
    kind = inl (record {
      named = n;
      own_command = claude_command_lem.1;
      words = fields (set_in getenv (codes "VITIS_CLAUDE_ARGS") peer_env);
      model = flag (codes "--model") (option_of (codes "VITIS_MODEL") peer_env);
      own_words = own_words;
      is_model = model_flag;
      all_args = refl;
    });
    asked_later = refl;
  }
  spec_by-Confines codex id cwd home n = record {
    plain_command = codex_command_lem.0;
    known_keys = build_peer_env-HasKeys peer.options;
    kind = inr (record {
      named = n;
      own_command = codex_command_lem.1;
      model = flag (codes "--model") (option_of (codes "VITIS_MODEL") peer_env);
      effort =
          flag (codes "--reasoning-effort") (option_of (codes "VITIS_REASONING_EFFORT") peer_env);
      is_model = model_flag;
      is_effort = effort_flag;
      all_args = refl;
    });
    asked_later = refl;
  }
  spec_by-Confines other id cwd home n = rw (untested id, Confines) tt

  to_spawn-Confines :
      (x : SpawnError ⊎ SpawnSpec)
      → Confines getenv peer x
      → Confines getenv peer
          (elim x [ inl e ↦ inl e | inr s ↦ inr (record s { prompt_in_args = false }) ])
  unfolding Confines
  to_spawn-Confines (inl e) c = tt
  to_spawn-Confines (inr s) c = record {
    plain_command = c.plain_command;
    known_keys = c.known_keys;
    kind = elim c.kind [
      | inl a ↦ inl (record {
        named = a.named;
        own_command = a.own_command;
        words = a.words;
        model = a.model;
        own_words = a.own_words;
        is_model = a.is_model;
        all_args = a.all_args;
      })
      | inr b ↦ inr (record {
        named = b.named;
        own_command = b.own_command;
        model = b.model;
        effort = b.effort;
        is_model = b.is_model;
        is_effort = b.is_effort;
        all_args = b.all_args;
      })
    ];
    asked_later = refl;
  }

  refused_lem : (e : SpawnError) → Confines getenv peer (inl e)
  unfolding Confines
  refused_lem e = tt

  built-Confines : Confines getenv peer (build_persistent_spawn_spec getenv getwd registered peer)
  unfolding build_persistent_spawn_spec
  built-Confines = elim (Bool-cases (has_prefix peer.uri (codes "provider:"))) [
    | inr n ↦ rw n (refused_lem (unsupported_uri peer.uri))
    | inl y ↦ rw y (
        spec_by-Confines (provider_of (drop 9 peer.uri)) _ _ _
          (provider_of-IsNamed (drop 9 peer.uri) (has_prefix-drop peer.uri (codes "provider:") y)))
  ]

  -- With no adapter registered by a test, a peer is refused, or it is spawned by the spec of its
  -- provider. The command is the default or the one of the broker's own environment, and has no
  -- metacharacter of the shell. The spec adds no variable to the environment but those of the list and
  -- the two of the model. The arguments are, for claude, the words of the broker's own arguments, or
  -- none of them, and the peer's model, and, for codex, the peer's model and reasoning effort; there is
  -- no other, so neither a prompt nor the subcommand of codex. The prompt is left to be written.
  pub spec_to_spawn-Confines : Confines getenv peer (spec_to_spawn getenv getwd registered peer)
  unfolding spec_to_spawn
  spec_to_spawn-Confines =
      to_spawn-Confines (build_persistent_spawn_spec getenv getwd registered peer) built-Confines
