-- ===== src/Examples/Buses.antt =====
-- A bus with room for two messages, and two subscriptions.
use vitis.Prelude.{
  true, [], ◌∷◌, ◌++◌, none, some, ◌≡◌, ◌≢◌, ◌↔◌, refl, take, map, if◌then◌else◌, arith,
}
use vitis.Text.{Text, codes}
use vitis.Text.Equal.{ne_equal}
use vitis.Bus.{BusMessage, turn, topic_turn, topic_control}
use vitis.Bus.Inproc.{
  Bus, new, subscribe, publish, cancel, close, subs_of, mem, deliver, close_subscription,
  err_publish_closed,
}
use vitis.Bus.Delivery.{Once, publish-deliver, cancel-publish, publish_each, publish_each-take}
use vitis.Bus.Invariant.{IsValid}
use vitis.Bus.Cancelling.{IsHandle}
use vitis.Bus.Closing.{close_lem}
use vitis.Bus.Reach.{Reach, made, stepped, subscribes, cancels, Reach-IsValid}
use vitis.Bus.Topics.{topics_apart}

abbrev turns : Text
turns = codes "conv/c1/turn"

abbrev note : Text → BusMessage
note t = record {
  conversation_id = codes "c1";
  topic = turns;
  kind = turn;
  payload = t;
  timestamp = 3;
}

abbrev two : Bus
two = (subscribe (codes "conv/c1/control") (subscribe turns (new (2 ∷ []))).0).0

third_dropped :
    map
      (λ m. m.payload)
      ((publish_each turns (note (codes "x") ∷ note (codes "y") ∷ note (codes "z") ∷ []) two).store
        0).buffered
    ≡ codes "x" ∷ codes "y" ∷ []
unfolding publish_each publish subscribe new
third_dropped = refl

two-Reach : Reach (2 ∷ []) two
two-Reach = stepped (stepped made (subscribes turns)) (subscribes (codes "conv/c1/control"))

two-IsHandle : IsHandle turns 0 two
unfolding subscribe new subs_of mem
two-IsHandle t n = rw (ne_equal turns t n) (ground arith)

Reach-IsValid_example : IsValid (cancel turns 0 two)
unfolding cancel
Reach-IsValid_example = Reach-IsValid (stepped two-Reach (cancels turns 0 two-IsHandle))

publish-deliver_example : (publish turns (note (codes "x")) two).0.store 0 ≡ (
    if mem 0 (subs_of turns two.subs)
    then deliver two.buffer_size (note (codes "x")) (two.store 0)
    else two.store 0)
unfolding subscribe new subs_of
publish-deliver_example =
    publish-deliver turns (note (codes "x")) two 0 refl ((Reach-IsValid two-Reach).once turns)

topics_apart_example :
    (topic_turn (codes "c1") ≢ topic_control (codes "c2"))
    × ((topic_turn (codes "c1") ≡ topic_turn (codes "c2")) ↔ (codes "c1" ≡ codes "c2"))
    × ((topic_control (codes "c1") ≡ topic_control (codes "c2")) ↔ (codes "c1" ≡ codes "c2"))
topics_apart_example = topics_apart (codes "c1") (codes "c2")

two-Once : Once (subs_of turns two.subs)
two-Once = (Reach-IsValid two-Reach).once turns

cancel-publish_example :
    (publish turns (note (codes "x")) (cancel turns 0 two)).0.store 0
    ≡ close_subscription (two.store 0)
cancel-publish_example = cancel-publish turns 0 (note (codes "x")) two two-Once

publish_each-take_example :
    ((publish_each turns (note (codes "x") ∷ note (codes "y") ∷ note (codes "z") ∷ []) two).store
      0).buffered
    ≡ take two.buffer_size
        ((two.store 0).buffered ++ note (codes "x") ∷ note (codes "y") ∷ note (codes "z") ∷ [])
unfolding subscribe new subs_of mem
publish_each-take_example =
    publish_each-take turns (note (codes "x") ∷ note (codes "y") ∷ note (codes "z") ∷ []) two 0 refl
      two-Once refl refl (omega arith)

close_lem_example :
    (((close two).store 0).closed ≡ true)
    × (((close two).store 1).buffered ≡ (two.store 1).buffered)
    × (publish turns (note (codes "x")) (close two) ≡ (close two, some err_publish_closed))
    × (subscribe turns (close two) ≡ (close two, none))
    × (close (close two) ≡ close two)
unfolding subscribe new subs_of mem
close_lem_example = close_lem two turns turns 0 1 (note (codes "x")) refl refl
