-- ===== src/Examples/Conversations.antt =====
-- A conversation of two peers with a cap of three turns.
use vitis.Prelude.{List, [], ◌∷◌, ◌≡◌, refl, map}
use vitis.Text.{Text, codes}
use vitis.Policy.{next}
use vitis.Broker.{FinalResult, peer_ids}
use vitis.Broker.Round.{after_policy}
use vitis.Broker.Run.{Outcome, returned, run, opener_slot}
use vitis.Broker.Totality.{run_total}
use vitis.Broker.Routing.{Logged, run-Logged}
use vitis.Broker.Alternation.{Alternates, run-Alternates}
use vitis.Examples.Toy.{Toy, toy, two_peers, talk, dialogue, two_peers-IsReady}

speakers : Outcome Toy → List (Text × Text)
speakers (returned r w) = map (λ t. (t.from_id, t.to_id)) r.turns
speakers _ = []

speakers-run :
    speakers (run toy (two_peers 3) dialogue)
    ≡ (codes "b", codes "a") ∷ (codes "a", codes "b") ∷ (codes "b", codes "a") ∷ []
unfolding speakers run next peer_ids after_policy
speakers-run = refl

run_total_example : (r : FinalResult) × (w : Toy) × (run toy (two_peers 3) dialogue ≡ returned r w)
run_total_example = run_total toy (two_peers 3) two_peers-IsReady dialogue

abbrev result : FinalResult
result = (run_total toy (two_peers 3) two_peers-IsReady dialogue).0

run-Logged_example : Logged toy (two_peers 3) (talk 3) result
run-Logged_example =
    run-Logged toy (two_peers 3) dialogue refl
      (run_total toy (two_peers 3) two_peers-IsReady dialogue).2

run-Alternates_example : Alternates (opener_slot (two_peers 3) (talk 3)) result.turns
run-Alternates_example =
    run-Alternates toy (two_peers 3) refl refl dialogue refl
      (run_total toy (two_peers 3) two_peers-IsReady dialogue).2
