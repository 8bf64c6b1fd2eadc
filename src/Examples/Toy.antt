-- ===== src/Examples/Toy.antt =====
-- A world for the broker: the replies that the peers are still to give, and the turns stored.
use vitis.Prelude.{ℕ, false, List, [], ◌∷◌, ◌++◌, none, some, ◌≡◌, refl, subst}
use vitis.Text.{Text, codes}
use vitis.Text.Equal.{In, here, there}
use vitis.Model.PeerId.{PeerId}
use vitis.Model.Conversation.{
  Conversation, ConversationTurn, PeerSpec, TerminatorSpec, running, unset, slot_a, slot_b,
}
use vitis.Broker.{
  Env, BrokerDeps, Delivered, replied, failed, subscription, payload, idle, peer_ids,
}
use vitis.Broker.Peers.{transport_for}
use vitis.Broker.Run.{opener_slot}
use vitis.Broker.Round.{next_slot}
use vitis.Broker.Alive.{IsReady}

pub record Toy : Type 0 where
  pub script : List Text
  pub stored : List ConversationTurn

abbrev pub reply_of : Text → ConversationTurn
reply_of response = record {
  conversation_id = codes "c1";
  index = 1;
  from = slot_a;
  from_id = [];
  to_id = [];
  reason = unset;
  next_id_parsed = none;
  fallback_used = false;
  envelope = [];
  response = response;
  marker_token = [];
  started_at = 0;
  ended_at = 0;
  warnings = [];
}

abbrev pub say : List Text → List ConversationTurn → Toy × Delivered
say [] kept = (
  record { script = []; stored = kept },
  failed (record { text = codes "no more replies"; is_context = false }),
)
say (t ∷ ts) kept = (record { script = ts; stored = kept }, replied (reply_of t))

-- The transports are numbered.
abbrev pub toy : Env
toy = record {
  World = Toy;
  Transport = ℕ;
  now = λ w. (w, 7);
  rand_read = λ w. (w, some (1 ∷ 2 ∷ 3 ∷ 4 ∷ 5 ∷ 6 ∷ []));
  ctx_done = λ w. (w, false);
  create_conversation = λ c w. (w, none);
  update_conversation = λ id p w. (w, none);
  append_turn = λ t w. (record w { stored = w.stored ++ t ∷ [] }, none);
  publish = λ topic m w. (w, none);
  subscribe = λ topic w. (w, subscription 0);
  unsubscribe = λ n w. w;
  drain = λ n w. (w, idle ∷ []);
  terminator_start = λ c w. (w, none);
  terminator_stop = λ w. w;
  peer_start = λ t spec id slot w. (w, none);
  peer_deliver = λ t e w. say w.script w.stored;
  peer_stop = λ t w. w;
  marshal_turn = λ t. payload t.response;
  unmarshal_control = λ p. none;
}

abbrev pub no_spec : PeerSpec
no_spec = record { uri = []; options = [] }

abbrev pub end_sentinel : TerminatorSpec
end_sentinel = record { kind = codes "sentinel"; sentinel = codes "<<END>>"; judge_uri = [] }

abbrev pub talk : ℕ → Conversation
talk cap = record {
  id = codes "c1";
  schema_version = 1;
  created_at = 0;
  ended_at = none;
  status = running;
  max_turns = cap;
  per_turn_timeout = 60;
  overall_timeout = 600;
  terminator = end_sentinel;
  peers = [];
  seeds = [];
  opener_id = [];
  peer_a = no_spec;
  peer_b = no_spec;
  seed_a = codes "hi a";
  seed_b = codes "hi b";
  opener = slot_b;
  turns_consumed = 0;
  reply_style = [];
}

abbrev pub two_peers : ℕ → BrokerDeps ℕ
two_peers cap = record {
  conversation = talk cap;
  peer_a = some 0;
  peer_b = some 1;
  policy = none;
  peers_by_id = [];
  peer_order = [];
}

abbrev pub dialogue : Toy
dialogue = record {
  script = codes "one" ∷ codes "two\n<<NEXT: b>>" ∷ codes "three" ∷ codes "four" ∷ [];
  stored = [];
}

served_two :
    (id : PeerId)
    → In id (slot_a ∷ slot_b ∷ [])
    → (t : ℕ) × (transport_for (two_peers 3) (next_slot false id) ≡ some t)
unfolding transport_for next_slot
served_two id (here e) =
    (0, subst (λ x. transport_for (two_peers 3) (next_slot false x) ≡ some 0) e refl)
served_two id (there (here e)) =
    (1, subst (λ x. transport_for (two_peers 3) (next_slot false x) ≡ some 1) e refl)
served_two id (there (there m)) = elim m [ ]

pub two_peers-IsReady : IsReady toy (two_peers 3)
unfolding peer_ids transport_for opener_slot
two_peers-IsReady = record {
  default_policy = refl;
  entropy = λ w. (1 ∷ 2 ∷ 3 ∷ 4 ∷ 5 ∷ 6 ∷ [], refl);
  opener_served = (1, refl);
  served = served_two;
  slots_filled = λ h. ((λ e. cc), (λ e. cc));
}
