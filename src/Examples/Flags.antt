-- ===== src/Examples/Flags.antt =====
-- The --peer flags of a conversation.
use vitis.Prelude.{All, List, [], ◌∷◌, inl, inr, ◌≡◌, refl, arith}
use vitis.Text.{Text, codes, is_space}
use vitis.Model.PeerId.{validate}
use vitis.Cli.Pairs.{KvPair, parse_key_value_list, pairs_from, expected_comma}
use vitis.Cli.RoundTrip.{print_pairs, AreKeys, parse_key_value_list-print_pairs}
use vitis.Cli.Fuel.{pairs_from_enough}
use vitis.Cli.Specs.{NPeerConfig, parse_n_peer_specs}
use vitis.Cli.Wiring.{Settings, npeer_deps}
use vitis.Cli.Runs.{run_accepted, run_accepted-IsExchange}
use vitis.Broker.{FinalResult}
use vitis.Broker.Run.{run, returned}
use vitis.Broker.Exchange.{IsExchange}
use vitis.Examples.Toy.{Toy, toy, dialogue}
use vitis.Cli.Accepted.{IsAccepted, parse_n_peer_specs-IsAccepted}

abbrev pairs : List KvPair
pairs =
    record { key = codes "id"; value = codes "ann" }
    ∷ record { key = codes "seed"; value = codes "say \"hi, bob\" \\o/" }
    ∷ []

pairs-AreKeys : AreKeys pairs
unfolding is_space
pairs-AreKeys = (
  ((λ e. cc), ((refl, refl), ((refl, refl), tt))),
  (((λ e. cc), ((refl, refl), ((refl, refl), ((refl, refl), ((refl, refl), tt))))), tt),
)

printed : print_pairs pairs ≡ codes "id=\"ann\",seed=\"say \\\"hi, bob\\\" \\\\o/\""
unfolding print_pairs
printed = refl

parse_key_value_list-print_pairs_example : parse_key_value_list (print_pairs pairs) ≡ inr pairs
parse_key_value_list-print_pairs_example = parse_key_value_list-print_pairs pairs pairs-AreKeys

no_comma : parse_key_value_list (codes "id=\"ann\"x") ≡ inl (expected_comma (codes "id"))
unfolding parse_key_value_list
no_comma = refl

pairs_from_enough_example : pairs_from 20 6 (codes "id=ann") ≡ pairs_from 7 6 (codes "id=ann")
pairs_from_enough_example = pairs_from_enough 20 7 6 (codes "id=ann") (omega arith) (omega arith)

abbrev flags : List Text
flags = codes "id=ann,provider=mock" ∷ codes "id=a, provider=codex ,seed=\"go, a\"" ∷ []

abbrev config : NPeerConfig
config = record {
  peers =
      record { id = codes "ann"; provider = codes "mock"; seed = codes "hello"; options = [] }
      ∷ record { id = codes "a"; provider = codes "codex"; seed = codes "go, a"; options = [] }
      ∷ [];
  opener_id = codes "ann";
}

-- The opener "a" is read as the default, though a peer of that name is declared.
opener_ignored : parse_n_peer_specs flags (codes "hello") (codes "a") ≡ inr config
unfolding parse_n_peer_specs validate
opener_ignored = refl

parse_n_peer_specs-IsAccepted_example : IsAccepted 2 config
parse_n_peer_specs-IsAccepted_example =
    parse_n_peer_specs-IsAccepted flags (codes "hello") (codes "a") opener_ignored

abbrev settings : Settings
settings = record {
  id = codes "c1";
  created_at = 0;
  max_turns = 3;
  per_turn_timeout = 60;
  overall_timeout = 600;
  sentinel = [];
  working_directory = codes "/tmp";
  reply_style = [];
}

run_accepted_example :
    (r : FinalResult) × (w : Toy) × (run toy (npeer_deps (λ id. 0) settings config) dialogue
      ≡ returned r w)
run_accepted_example =
    run_accepted toy (λ id. 0) settings flags (codes "hello") (codes "a") dialogue
      (λ w. (1 ∷ 2 ∷ 3 ∷ 4 ∷ 5 ∷ 6 ∷ [], refl)) opener_ignored

abbrev outcome :
    (r : FinalResult) × (w : Toy) × (run toy (npeer_deps (λ id. 0) settings config) dialogue
      ≡ returned r w)
outcome =
    run_accepted toy (λ id. 0) settings flags (codes "hello") (codes "a") dialogue
      (λ w. (1 ∷ 2 ∷ 3 ∷ 4 ∷ 5 ∷ 6 ∷ [], refl)) opener_ignored

run_accepted-IsExchange_example : All (IsExchange (codes "ann" ∷ codes "a" ∷ [])) outcome.0.turns
run_accepted-IsExchange_example =
    run_accepted-IsExchange toy (λ id. 0) settings flags (codes "hello") (codes "a") dialogue
      opener_ignored outcome.2
