-- ===== src/Peer/Commands.antt =====
-- The commands and flags of the adapters: `ResolveCommand` and `BuildSpawnSpec` of packages claudecode
-- and codex, with what a peer's own environment leaves to the broker's.
use vitis.Prelude.{
  ℕ, ◌≢◌, false, List, [], ◌∷◌, ◌≡◌, ◌⊎◌, inl, inr, refl, ap, ◌∙◌, All, Bool-cases, arith,
}
use vitis.Text.{Text, codes, is_empty, trim_space}
use vitis.Text.Equal.{is_empty_iff}
use vitis.Model.Run.{EnvVars}
use vitis.Cli.Wiring.{option_of}
use vitis.Adapters.{is_unsafe, any_unsafe, binary_or, fields, flag, first_non_empty, set_in}

-- The characters that no command may have.
abbrev pub shell_chars : Text
shell_chars = codes ";&|$`()\n"

abbrev pub IsPlain : Text → Type 0
IsPlain t = All (λ c. All (λ u. c ≢ u) shell_chars) t

-- The arguments of a flag: none without a value, or else the name and the value.
abbrev pub IsFlag : Text → Text → List Text → Type 0
IsFlag name value args = ((value ≡ []) × (args ≡ [])) ⊎ ((value ≢ []) × (args ≡ name ∷ value ∷ []))

unsafe_apart : (c : ℕ) → is_unsafe c ≡ false → All (λ u. c ≢ u) shell_chars
unfolding is_unsafe
unsafe_apart c h = ground arith

safe-IsPlain : (t : Text) → any_unsafe t ≡ false → IsPlain t
unfolding any_unsafe
safe-IsPlain [] h = tt
safe-IsPlain (c ∷ t) h = (unsafe_apart c (ground arith), safe-IsPlain t (ground arith))

pub flag-IsFlag : (name value : Text) → IsFlag name value (flag name value)
flag-IsFlag name value = elim (Bool-cases (is_empty value)) [
  | inl y ↦ rw y (inl ((is_empty_iff value).0 y, refl))
  | inr n ↦ rw n (inr (λ e. absurd (cc (n, (is_empty_iff value).1 e)), refl))
]

binary_or-cases :
    (default override : Text)
    → any_unsafe default ≡ false
    → IsPlain (binary_or default override)
      × ((binary_or default override ≡ default) ⊎ (binary_or default override ≡ override))
unfolding binary_or
binary_or-cases default override h = elim (Bool-cases (is_empty override)) [
  | inl y ↦ rw y (safe-IsPlain default h, inl refl)
  | inr n ↦ elim (Bool-cases (any_unsafe override)) [
    | inl y ↦ rw (n, y) (safe-IsPlain default h, inl refl)
    | inr m ↦ rw (n, m) (safe-IsPlain override m, inr refl)
  ]
]

pub claude_default : any_unsafe (codes "claude") ≡ false
unfolding any_unsafe
claude_default = refl

pub codex_default : any_unsafe (codes "codex") ≡ false
unfolding any_unsafe
codex_default = refl

pub no_fields : fields [] ≡ []
unfolding fields
no_fields = refl

no_binary : (default : Text) → binary_or default [] ≡ default
unfolding binary_or
no_binary default = refl

module _ (getenv : Text → Text) where
  -- A variable that the peer's own environment has not is the broker's, or counts as empty.
  pub set_in-broker :
      (name : Text) (env : EnvVars)
      → option_of name env ≡ []
      → (set_in getenv name env ≡ []) ⊎ (set_in getenv name env ≡ getenv name)
  unfolding set_in first_non_empty trim_space
  set_in-broker name env e = rw e (elim (Bool-cases (is_empty (trim_space (getenv name)))) [
    | inl y ↦ rw y (inl refl)
    | inr n ↦ rw n (inr refl)
  ])

  -- The command is the default, or what the broker's environment has for it.
  pub command-broker :
      (default name : Text) (env : EnvVars)
      → option_of name env ≡ []
      → any_unsafe default ≡ false
      → IsPlain (binary_or default (set_in getenv name env))
        × ((binary_or default (set_in getenv name env) ≡ default)
            ⊎ (binary_or default (set_in getenv name env) ≡ getenv name))
  command-broker default name env e h =
      let (plain, which) = binary_or-cases default (set_in getenv name env) h in
      (
        plain,
        elim which [
          | inl d ↦ inl d
          | inr o ↦ elim (set_in-broker name env e) [
            | inl x ↦ inl (ap (binary_or default) x ∙ no_binary default)
            | inr x ↦ inr (o ∙ x)
          ]
        ],
      )
