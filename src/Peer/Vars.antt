-- ===== src/Peer/Vars.antt =====
-- spawner.go: the environment of a peer's spec, by its keys and by its entries.
use vitis.Prelude.{
  false, List, [], ◌∷◌, ◌≡◌, inl, inr, refl, All, Bool-cases, drop, sym, ap, ◌∙◌, true,
}
use vitis.Text.{Text, codes, equal, is_empty, has_prefix, contains_text}
use vitis.Text.Equal.{In, here, there, In-contains_text, equal_iff, is_empty_iff}
use vitis.Model.Run.{EnvVars}
use vitis.Cli.Specs.{set_option}
use vitis.Cli.Wiring.{option_of}
use vitis.Peer.Spawner.{allowed_env_keys, forward, forward_all, set_if_given, build_peer_env}

-- The variables that a peer's process may be given.
abbrev pub peer_env_keys : List Text
peer_env_keys = codes "VITIS_MODEL" ∷ codes "VITIS_REASONING_EFFORT" ∷ allowed_env_keys

unfoldable pub HasKeys : EnvVars → Type 0
HasKeys env = All (λ kv. In kv.0 peer_env_keys) env

set_option-HasKeys :
    (k v : Text) (m : EnvVars) → In k peer_env_keys → HasKeys m → HasKeys (set_option k v m)
unfolding HasKeys set_option
set_option-HasKeys k v [] i h = (i, tt)
set_option-HasKeys k v ((k', v') ∷ m) i h = elim (Bool-cases (equal k' k)) [
  | inl y ↦ rw y (h.0, h.1)
  | inr n ↦ rw n (h.0, set_option-HasKeys k v m i h.1)
]

forward-HasKeys : (k v : Text) (env : EnvVars) → HasKeys env → HasKeys (forward k v env)
unfolding forward
forward-HasKeys k v env h = elim (Bool-cases (has_prefix k (codes "env_"))) [
  | inr n ↦ rw n h
  | inl y ↦ elim (Bool-cases (contains_text allowed_env_keys (drop 4 k))) [
    | inr n ↦ rw (y, n) h
    | inl a ↦
        rw (y, a)
          (set_option-HasKeys (drop 4 k) v env
            (there (there (In-contains_text allowed_env_keys (drop 4 k) a))) h)
  ]
]

forward_all-HasKeys :
    (options : List (Text × Text)) (env : EnvVars) → HasKeys env → HasKeys (forward_all options env)
unfolding forward_all
forward_all-HasKeys [] env h = h
forward_all-HasKeys ((k, v) ∷ options) env h =
    forward_all-HasKeys options (forward k v env) (forward-HasKeys k v env h)

set_if_given-HasKeys :
    (k v : Text) (env : EnvVars) → In k peer_env_keys → HasKeys env → HasKeys (set_if_given k v env)
set_if_given-HasKeys k v env i h = elim (Bool-cases (is_empty v)) [
  | inl y ↦ rw y h
  | inr n ↦ rw n (set_option-HasKeys k v env i h)
]

no_keys : HasKeys []
unfolding HasKeys
no_keys = tt

pub build_peer_env-HasKeys : (options : List (Text × Text)) → HasKeys (build_peer_env options)
unfolding build_peer_env
build_peer_env-HasKeys options =
    set_if_given-HasKeys (codes "VITIS_REASONING_EFFORT") _ _ (there (here refl)) (
      set_if_given-HasKeys (codes "VITIS_MODEL") _ _ (here refl)
        (forward_all-HasKeys options [] no_keys))

other_entry :
    (k' k v : Text) (m : EnvVars)
    → equal k' k ≡ false
    → option_of k (set_option k' v m) ≡ option_of k m
unfolding set_option option_of
other_entry k' k v [] n = rw n refl
other_entry k' k v ((a, b) ∷ m) n = elim (Bool-cases (equal a k')) [
  | inl y ↦
      let apart : equal a k ≡ false = ap (λ x. equal x k) ((equal_iff a k').0 y) ∙ n in
      rw y (rw apart refl)
  | inr z ↦
      rw z (elim (Bool-cases (equal a k)) [
        | inl y ↦ rw y refl
        | inr x ↦ rw x (other_entry k' k v m n)
      ])
]

own_entry : (k v : Text) (m : EnvVars) → option_of k (set_option k v m) ≡ v
unfolding set_option option_of
own_entry k v [] = rw ((equal_iff k k).1 refl) refl
own_entry k v ((a, b) ∷ m) = elim (Bool-cases (equal a k)) [
  | inl y ↦ rw y (rw y refl)
  | inr n ↦ rw n (rw n (own_entry k v m))
]

-- A variable that may not be forwarded.
abbrev pub IsForeign : Text → Type 0
IsForeign k = contains_text allowed_env_keys k ≡ false

foreign_apart :
    (a k : Text) → contains_text allowed_env_keys a ≡ true → IsForeign k → equal a k ≡ false
foreign_apart a k y n = elim (Bool-cases (equal a k)) [
  | inr z ↦ z
  | inl e ↦ absurd (cc (ap (contains_text allowed_env_keys) ((equal_iff a k).0 e), y, n))
]

forward-foreign :
    (k a v : Text) (env : EnvVars) → IsForeign k → option_of k (forward a v env) ≡ option_of k env
unfolding forward
forward-foreign k a v env n = elim (Bool-cases (has_prefix a (codes "env_"))) [
  | inr z ↦ rw z refl
  | inl y ↦ elim (Bool-cases (contains_text allowed_env_keys (drop 4 a))) [
    | inr z ↦ rw (y, z) refl
    | inl x ↦ rw (y, x) (other_entry (drop 4 a) k v env (foreign_apart (drop 4 a) k x n))
  ]
]

forward_all-foreign :
    (k : Text) (options : List (Text × Text)) (env : EnvVars)
    → IsForeign k
    → option_of k (forward_all options env) ≡ option_of k env
unfolding forward_all
forward_all-foreign k [] env n = refl
forward_all-foreign k ((a, v) ∷ options) env n =
    forward_all-foreign k options (forward a v env) n ∙ forward-foreign k a v env n

unset : (k : Text) → option_of k [] ≡ []
unfolding option_of
unset k = refl

set_if_given-other :
    (k' k v : Text) (env : EnvVars)
    → equal k' k ≡ false
    → option_of k (set_if_given k' v env) ≡ option_of k env
set_if_given-other k' k v env n = elim (Bool-cases (is_empty v)) [
  | inl y ↦ rw y refl
  | inr z ↦ rw z (other_entry k' k v env n)
]

set_if_given-own :
    (k v : Text) (env : EnvVars) → option_of k env ≡ [] → option_of k (set_if_given k v env) ≡ v
set_if_given-own k v env e = elim (Bool-cases (is_empty v)) [
  | inl y ↦ rw y (e ∙ sym ((is_empty_iff v).0 y))
  | inr z ↦ rw z (own_entry k v env)
]

-- The two variables of the model have the options, and no other is set but by forwarding.
pub model_entry :
    (options : List (Text × Text))
    → option_of (codes "VITIS_MODEL") (build_peer_env options) ≡ option_of (codes "model") options
unfolding build_peer_env
model_entry options =
    let k : Text = codes "VITIS_MODEL" in
    let model : Text = option_of (codes "model") options in
    set_if_given-other (codes "VITIS_REASONING_EFFORT") k
      (option_of (codes "reasoning-effort") options) (set_if_given k model (forward_all options []))
      refl
    ∙ set_if_given-own k model (forward_all options [])
        (forward_all-foreign k options [] refl ∙ unset k)

pub effort_entry :
    (options : List (Text × Text))
    → option_of (codes "VITIS_REASONING_EFFORT") (build_peer_env options)
      ≡ option_of (codes "reasoning-effort") options
unfolding build_peer_env
effort_entry options =
    let k : Text = codes "VITIS_REASONING_EFFORT" in
    set_if_given-own k (option_of (codes "reasoning-effort") options) _ (
      set_if_given-other (codes "VITIS_MODEL") k (option_of (codes "model") options)
        (forward_all options []) refl
      ∙ forward_all-foreign k options [] refl
      ∙ unset k)

pub foreign_entry :
    (k : Text) (options : List (Text × Text))
    → IsForeign k
    → equal (codes "VITIS_MODEL") k ≡ false
    → equal (codes "VITIS_REASONING_EFFORT") k ≡ false
    → option_of k (build_peer_env options) ≡ []
unfolding build_peer_env
foreign_entry k options n m r =
    set_if_given-other (codes "VITIS_REASONING_EFFORT") k
      (option_of (codes "reasoning-effort") options) _ r
    ∙ set_if_given-other (codes "VITIS_MODEL") k (option_of (codes "model") options)
        (forward_all options []) m
    ∙ forward_all-foreign k options [] n
    ∙ unset k
