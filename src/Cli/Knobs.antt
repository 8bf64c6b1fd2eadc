-- ===== src/Cli/Knobs.antt =====
-- internal/cli/converse.go and converse_npeer_run.go: the checks of the flags that both modes of
-- `converse` share, and the exit codes. A refusal is exit code 2 with a message on the error output;
-- `stat` tells of a path whether it is a directory, and `none` for an error.
use vitis.Prelude.{
  ℕ, ◌*◌, ◌/◌, ◌-◌, ℤ, pos, pos_part, neg_part, ltb_ℤ, wrap64, two63, sub_ℕ, Bool, true, false, not,
  ◌&&◌, ◌||◌, Option, none, some, ◌⊎◌, inl, inr, if◌then◌else◌, ◌+◌,
}
use vitis.Text.{Text, codes, equal, is_empty}
use vitis.Model.Conversation.{
  ConversationStatus, completed_sentinel, completed_judge, max_turns_hit, interrupted,
}
use vitis.Envelope.Style.{is_valid_style}
use vitis.Orchestrator.Config.{clean}

pub record Knobs : Type 0 where
  pub max_turns : ℤ
  pub terminator_kind : Text
  pub per_turn_timeout : ℤ
  pub overall_timeout : ℤ
  pub bus_kind : Text
  pub log_backend : Text
  pub working_dir : Text
  pub reply_style : Text

pub data Refusal : Type 0 where
  no_peers no_seed two_seeds bad_opener : Refusal
  bad_terminator bad_bus bad_backend bad_style : Refusal
  bad_max_turns bad_per_turn bad_overall would_overflow : Refusal
  no_directory not_directory : Refusal

-- The next check, or its refusal.
abbrev pub or_refuse : {A : Type 0} → Bool → Refusal → Refusal ⊎ A → Refusal ⊎ A
or_refuse fails e rest = if fails then inl e else rest

abbrev pub is_outside : ℕ → ℤ → Bool
is_outside most n = ltb_ℤ n (pos 1) || ltb_ℤ (pos most) n

-- The product of two Go ints.
unfoldable pub mul_int : ℤ → ℤ → ℤ
unfolding wrap64
mul_int a b = wrap64 (
    sub_ℕ (pos_part a * pos_part b + neg_part a * neg_part b)
      (pos_part a * neg_part b + neg_part a * pos_part b))

-- The guard of the product; the quotient of math.MaxInt is taken of a positive number.
unfoldable pub overflows : ℤ → ℤ → Bool
overflows turns timeout =
    ltb_ℤ (pos 0) turns
    && ltb_ℤ (pos 0) timeout
    && ltb_ℤ (pos ((two63 - 1) / pos_part turns)) timeout

-- The overall timeout, by default that of all turns.
unfoldable pub overall_of : ℤ → ℤ → ℤ → Refusal ⊎ ℤ
unfolding overflows mul_int
overall_of turns timeout overall = or_refuse (ltb_ℤ (pos 86400) overall) bad_overall (
    if not (ltb_ℤ overall (pos 0)) && not (ltb_ℤ (pos 0) overall)
    then or_refuse (overflows turns timeout) would_overflow (inr (mul_int turns timeout))
    else inr overall)

unfoldable pub backends_of : {A : Type 0} → Knobs → Refusal ⊎ A → Refusal ⊎ A
unfolding is_valid_style
backends_of k rest = or_refuse (not (equal k.terminator_kind (codes "sentinel"))) bad_terminator (
    or_refuse (not (equal k.bus_kind (codes "inproc"))) bad_bus (
      or_refuse (not (equal k.log_backend (codes "file"))) bad_backend
        (or_refuse (not (is_valid_style k.reply_style)) bad_style rest)))

-- The checks of `runNPeerConverse`.
unfoldable pub check_npeer : Knobs → Refusal ⊎ ℤ
unfolding backends_of overall_of
check_npeer k = backends_of k (
    or_refuse (is_outside 500 k.max_turns) bad_max_turns (
      or_refuse (is_outside 3600 k.per_turn_timeout) bad_per_turn
        (overall_of k.max_turns k.per_turn_timeout k.overall_timeout)))

-- The flags of the two-peer mode.
pub record Pair : Type 0 where
  pub peer_a : Text
  pub peer_b : Text
  pub seed : Text
  pub seed_a : Text
  pub seed_b : Text
  pub opener : Text

-- The checks of `ConverseCommand` in the two-peer mode.
unfoldable pub check_pair : Pair → Knobs → Refusal ⊎ ℤ
unfolding backends_of overall_of
check_pair p k = or_refuse (is_empty p.peer_a || is_empty p.peer_b) no_peers (
    or_refuse (is_empty p.seed && (is_empty p.seed_a || is_empty p.seed_b)) no_seed (
      or_refuse (not (is_empty p.seed) && (not (is_empty p.seed_a) || not (is_empty p.seed_b)))
        two_seeds
        (or_refuse (not (equal p.opener (codes "a")) && not (equal p.opener (codes "b"))) bad_opener
          (or_refuse (is_outside 500 k.max_turns) bad_max_turns (
            backends_of k (
              or_refuse (is_outside 3600 k.per_turn_timeout) bad_per_turn
                (overall_of k.max_turns k.per_turn_timeout k.overall_timeout)))))))

-- The working directory, cleaned.
unfoldable pub check_directory : (Text → Option Bool) → Text → Refusal ⊎ Text
unfolding clean
check_directory stat dir = if is_empty dir then inr dir else elim (stat (clean dir)) [
  | none ↦ inl no_directory
  | some false ↦ inl not_directory
  | some true ↦ inr (clean dir)
]

-- The exit code of a conversation that has ended.
unfoldable pub exit_code_of : ConversationStatus → ℕ
exit_code_of completed_sentinel = 0
exit_code_of completed_judge = 0
exit_code_of max_turns_hit = 0
exit_code_of interrupted = 0
exit_code_of _ = 1
