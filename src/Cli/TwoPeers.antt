-- ===== src/Cli/TwoPeers.antt =====
-- internal/cli/converse.go: the conversation and the broker's dependencies of the two-peer mode.
use vitis.Prelude.{List, [], ◌∷◌, none, some, if◌then◌else◌, ◌&&◌, not}
use vitis.Text.{Text, codes, is_empty}
use vitis.Model.Conversation.{Conversation, running}
use vitis.Broker.{BrokerDeps}
use vitis.Cli.Specs.{set_option}
use vitis.Cli.Wiring.{Settings, option_of}
use vitis.Cli.Knobs.{Pair}

-- `mergeOptions`
unfoldable pub merge_options : List (Text × Text) → Text → List (Text × Text)
unfolding set_option option_of
merge_options options dir =
    if not (is_empty dir) && is_empty (option_of (codes "cwd") options)
    then set_option (codes "cwd") dir options
    else options

-- `converseFirstNonEmpty`
unfoldable pub first_given : List Text → Text
first_given [] = []
first_given (v ∷ vs) = if is_empty v then first_given vs else v

unfoldable pub pair_conversation :
    Settings → Pair → List (Text × Text) → List (Text × Text) → Conversation
unfolding merge_options first_given
pair_conversation s p a_options b_options = record {
  id = s.id;
  schema_version = 0;
  created_at = s.created_at;
  ended_at = none;
  status = running;
  max_turns = s.max_turns;
  per_turn_timeout = s.per_turn_timeout;
  overall_timeout = s.overall_timeout;
  terminator = record { kind = codes "sentinel"; sentinel = s.sentinel; judge_uri = [] };
  peers = [];
  seeds = [];
  opener_id = [];
  peer_a = record { uri = p.peer_a; options = merge_options a_options s.working_directory };
  peer_b = record { uri = p.peer_b; options = merge_options b_options s.working_directory };
  seed_a = first_given (p.seed_a ∷ p.seed ∷ []);
  seed_b = first_given (p.seed_b ∷ p.seed ∷ []);
  opener = p.opener;
  turns_consumed = 0;
  reply_style = s.reply_style;
}

-- `a` and `b` are the two transports.
module _ {T : Type 0} (a b : T) where
  unfoldable pub pair_deps :
      Settings → Pair → List (Text × Text) → List (Text × Text) → BrokerDeps T
  unfolding pair_conversation
  pair_deps s p a_options b_options = record {
    conversation = pair_conversation s p a_options b_options;
    peer_a = some a;
    peer_b = some b;
    policy = none;
    peers_by_id = [];
    peer_order = [];
  }
