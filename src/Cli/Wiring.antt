-- ===== src/Cli/Wiring.antt =====
-- internal/cli/converse_npeer_run.go: the conversation and the broker's dependencies that are made of
-- an accepted configuration. The id, the clock and the transports of package provider are arguments;
-- what is read of the other flags is a record.
use vitis.Prelude.{ℕ, List, [], ◌∷◌, none, map, if◌then◌else◌}
use vitis.Text.{Text, codes, equal, is_empty}
use vitis.Model.PeerId.{PeerId}
use vitis.Model.Conversation.{Conversation, PeerParticipant, PeerSpec, running}
use vitis.Broker.{BrokerDeps}
use vitis.Cli.Specs.{NPeerConfig, set_option, to_v2_conversation}

pub record Settings : Type 0 where
  pub id : Text
  pub created_at : ℕ
  pub max_turns : ℕ
  pub per_turn_timeout : ℕ
  pub overall_timeout : ℕ
  pub sentinel : Text
  pub working_directory : Text
  pub reply_style : Text

-- `m[key]`, empty where the key is missing.
unfoldable pub option_of : Text → List (Text × Text) → Text
option_of key [] = []
option_of key ((k, v) ∷ m) = if equal k key then v else option_of key m

-- The working directory of a peer that has none.
abbrev pub with_cwd : Text → PeerParticipant → PeerParticipant
with_cwd dir p =
    if is_empty (option_of (codes "cwd") p.spec.options)
    then record {
      id = p.id;
      spec = record { uri = p.spec.uri; options = set_option (codes "cwd") dir p.spec.options };
    }
    else p

unfoldable pub inject_cwd : Text → List PeerParticipant → List PeerParticipant
unfolding option_of set_option
inject_cwd dir peers = if is_empty dir then peers else map (with_cwd dir) peers

abbrev pub no_spec : PeerSpec
no_spec = record { uri = []; options = [] }

unfoldable pub npeer_conversation : Settings → NPeerConfig → Conversation
unfolding inject_cwd to_v2_conversation
npeer_conversation s c = record {
  id = s.id;
  schema_version = 2;
  created_at = s.created_at;
  ended_at = none;
  status = running;
  max_turns = s.max_turns;
  per_turn_timeout = s.per_turn_timeout;
  overall_timeout = s.overall_timeout;
  terminator = record { kind = codes "sentinel"; sentinel = s.sentinel; judge_uri = [] };
  peers = inject_cwd s.working_directory (to_v2_conversation c).0;
  seeds = (to_v2_conversation c).1;
  opener_id = c.opener_id;
  peer_a = no_spec;
  peer_b = no_spec;
  seed_a = [];
  seed_b = [];
  opener = [];
  turns_consumed = 0;
  reply_style = s.reply_style;
}

module _ {T : Type 0} (new_transport : PeerId → T) where
  unfoldable pub npeer_deps : Settings → NPeerConfig → BrokerDeps T
  unfolding npeer_conversation
  npeer_deps s c =
      let conv = npeer_conversation s c in
      record {
        conversation = conv;
        peer_a = none;
        peer_b = none;
        policy = none;
        peers_by_id = map (λ p. (p.id, new_transport p.id)) conv.peers;
        peer_order = map (λ p. p.id) conv.peers;
      }
