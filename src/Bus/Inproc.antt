-- ===== src/Bus/Inproc.antt =====
-- internal/bus/inproc/inproc.go. A subscription is its channel: what is buffered, and whether it is
-- closed. The subscriptions lie in a store by their number, which stands for the pointer; a topic
-- lists the numbers. The locks make each operation one step.
use vitis.Prelude.{
  ℕ, suc, Bool, true, false, List, [], ◌∷◌, ◌++◌, Option, none, some, ◌==◌, ltb, if◌then◌else◌,
  length,
}
use vitis.Text.{Text, codes, equal}
use vitis.Bus.{BusMessage}

pub record Subscription : Type 0 where
  pub buffered : List BusMessage
  pub closed : Bool

-- `subs` holds the lists of the map, `store` every subscription ever made, `fresh` the next number.
pub record Bus : Type 0 where
  pub closed : Bool
  pub buffer_size : ℕ
  pub subs : List (Text × List ℕ)
  pub store : ℕ → Subscription
  pub fresh : ℕ

abbrev pub default_buffer_size : ℕ
default_buffer_size = 64

abbrev pub no_subscription : Subscription
no_subscription = record { buffered = []; closed = true }

-- `New` with the options given as the sizes of `WithBufferSize`; a size that is not positive is
-- ignored.
unfoldable pub with_buffer_size : ℕ → Bus → Bus
with_buffer_size n b = if ltb 0 n then record b { buffer_size = n } else b

unfoldable pub apply_options : List ℕ → Bus → Bus
unfolding with_buffer_size
apply_options [] b = b
apply_options (n ∷ ns) b = apply_options ns (with_buffer_size n b)

unfoldable pub new : List ℕ → Bus
unfolding apply_options
new opts = apply_options opts (record {
  closed = false;
  buffer_size = default_buffer_size;
  subs = [];
  store = λ _. no_subscription;
  fresh = 0;
})

-- `b.subs[topic]`, empty where the key is missing.
unfoldable pub subs_of : Text → List (Text × List ℕ) → List ℕ
subs_of t [] = []
subs_of t ((k, ids) ∷ m) = if equal k t then ids else subs_of t m

-- `b.subs[topic] = ids`
unfoldable pub set_subs : Text → List ℕ → List (Text × List ℕ) → List (Text × List ℕ)
set_subs t ids [] = (t, ids) ∷ []
set_subs t ids ((k, js) ∷ m) = if equal k t then (k, ids) ∷ m else (k, js) ∷ set_subs t ids m

abbrev pub update : (ℕ → Subscription) → ℕ → Subscription → ℕ → Subscription
update f n s m = if n == m then s else f m

-- `subscription.deliver`: dropped when closed or when the channel is full.
unfoldable pub deliver : ℕ → BusMessage → Subscription → Subscription
deliver size msg s =
    if s.closed
    then s
    else if ltb (length s.buffered) size
    then record s { buffered = s.buffered ++ msg ∷ [] }
    else s

unfoldable pub close_subscription : Subscription → Subscription
close_subscription s = record s { closed = true }

-- The loop of `Publish`.
unfoldable pub deliver_all : ℕ → BusMessage → List ℕ → (ℕ → Subscription) → ℕ → Subscription
unfolding deliver
deliver_all size msg [] f = f
deliver_all size msg (i ∷ is) f = deliver_all size msg is (update f i (deliver size msg (f i)))

-- `none` is a nil error.
abbrev pub err_publish_closed : Text
err_publish_closed = codes "inproc bus: publish on closed bus"

abbrev pub err_subscribe_closed : Text
err_subscribe_closed = codes "inproc bus: subscribe on closed bus"

unfoldable pub publish : Text → BusMessage → Bus → Bus × Option Text
unfolding subs_of deliver_all
publish topic msg b =
    if b.closed
    then (b, some err_publish_closed)
    else (record b { store = deliver_all b.buffer_size msg (subs_of topic b.subs) b.store }, none)

-- The number of the new subscription, or `none` with the error on a closed bus.
unfoldable pub subscribe : Text → Bus → Bus × Option ℕ
unfolding subs_of set_subs
subscribe topic b = if b.closed then (b, none) else (
  record b {
    subs = set_subs topic (subs_of topic b.subs ++ b.fresh ∷ []) b.subs;
    store = update b.store b.fresh (record { buffered = []; closed = false });
    fresh = suc b.fresh;
  },
  some b.fresh,
)

-- The first occurrence is taken out of the list.
unfoldable pub remove : ℕ → List ℕ → List ℕ
remove n [] = []
remove n (i ∷ is) = if i == n then is else i ∷ remove n is

-- `b.subs[topic] = append(list[:i], list[i+1:]...)` only where the subscription is in the list.
unfoldable pub mem : ℕ → List ℕ → Bool
mem n [] = false
mem n (i ∷ is) = if i == n then true else mem n is

-- The function that `Subscribe` returns, for the subscription `n` on `topic`.
unfoldable pub cancel : Text → ℕ → Bus → Bus
unfolding subs_of set_subs remove mem close_subscription
cancel topic n b = record b {
  subs =
      if mem n (subs_of topic b.subs)
      then set_subs topic (remove n (subs_of topic b.subs)) b.subs
      else b.subs;
  store = update b.store n (close_subscription (b.store n));
}

unfoldable pub close_all : List ℕ → (ℕ → Subscription) → ℕ → Subscription
unfolding close_subscription
close_all [] f = f
close_all (i ∷ is) f = close_all is (update f i (close_subscription (f i)))

unfoldable pub close_topics : List (Text × List ℕ) → (ℕ → Subscription) → ℕ → Subscription
unfolding close_all
close_topics [] f = f
close_topics ((_, ids) ∷ m) f = close_topics m (close_all ids f)

-- `Close`
unfoldable pub close : Bus → Bus
unfolding close_topics
close b =
    if b.closed
    then b
    else record b { closed = true; subs = []; store = close_topics b.subs b.store }

-- A subscriber's receive on its channel.
pub data Received : Type 0 where
  message : BusMessage → Received
  ended empty : Received

abbrev pub receive_from : List BusMessage → Bool → Received
receive_from (m ∷ _) closed = message m
receive_from [] true = ended
receive_from [] false = empty

abbrev pub rest_of : List BusMessage → List BusMessage
rest_of [] = []
rest_of (_ ∷ ms) = ms

unfoldable pub receive : ℕ → Bus → Bus × Received
receive n b =
    let s = b.store n in
    (
      record b { store = update b.store n (record s { buffered = rest_of s.buffered }) },
      receive_from s.buffered s.closed,
    )
