-- ===== src/Cli/Runs.antt =====
-- converse_npeer_run.go: the run of a conversation that the --peer flags declare.
use vitis.Prelude.{
  ℕ, ◌≤◌, true, false, not, List, [], ◌∷◌, some, inl, inr, ◌≡◌, refl, sym, ap, ap₂, subst, ◌∙◌,
  arith, map, length, All, Bool-cases, true-ne-false,
}
use vitis.Text.{Text, codes, equal, is_empty}
use vitis.Text.Equal.{equal_iff, In, here, there}
use vitis.Model.PeerId.{PeerId}
use vitis.Model.Conversation.{Conversation, PeerParticipant}
use vitis.Broker.{Env, BrokerDeps, FinalResult, peer_ids, is_n_peer, is_nil}
use vitis.Broker.Peers.{transport_of, transport_for, or_slot}
use vitis.Broker.Round.{next_slot}
use vitis.Broker.Run.{returned, opener_slot, first_id, run}
use vitis.Broker.Totality.{run_total}
use vitis.Broker.Exchange.{IsExchange, run-IsExchange}
use vitis.Policy.RoundRobin.{Distinct}
use vitis.Cli.Specs.{NPeerConfig, PeerDecl, participant, parse_n_peer_specs, to_v2_conversation}
use vitis.Cli.Declared.{ids}
use vitis.Cli.Accepted.{parse_n_peer_specs-IsAccepted}
use vitis.Cli.Wiring.{Settings, with_cwd, inject_cwd, option_of, npeer_conversation, npeer_deps}

id_with_cwd : (dir : Text) (p : PeerParticipant) → (with_cwd dir p).id ≡ p.id
id_with_cwd dir p = elim (Bool-cases (is_empty (option_of (codes "cwd") p.spec.options))) [
  | inl y ↦ rw y
  | inr n ↦ rw n
]

map-with_cwd :
    (dir : Text) (ps : List PeerParticipant)
    → map (λ p. p.id) (map (with_cwd dir) ps) ≡ map (λ p. p.id) ps
map-with_cwd dir [] = refl
map-with_cwd dir (p ∷ ps) = ap₂ ◌∷◌ (id_with_cwd dir p) (map-with_cwd dir ps)

map-participant : (ps : List PeerDecl) → map (λ p. p.id) (map participant ps) ≡ ids ps
map-participant [] = refl
map-participant (p ∷ ps) = ap (◌∷◌ p.id) (map-participant ps)

map-inject_cwd :
    (dir : Text) (ps : List PeerParticipant)
    → map (λ p. p.id) (inject_cwd dir ps) ≡ map (λ p. p.id) ps
unfolding inject_cwd
map-inject_cwd dir ps = elim (Bool-cases (is_empty dir)) [
  | inl y ↦ rw y
  | inr n ↦ rw n (map-with_cwd dir ps)
]

transport_for_found :
    {T : Type 0} (d : BrokerDeps T) (id : PeerId) {t : T}
    → is_n_peer d ≡ true
    → transport_of id d.peers_by_id ≡ some t
    → transport_for d id ≡ some t
unfolding transport_for
transport_for_found d id n e = rw n (ap (or_slot d id) e)

In-not_nil : {x : PeerId} {xs : List PeerId} → In x xs → is_nil xs ≡ false
In-not_nil (here e) = refl
In-not_nil (there m) = refl

first_id-In : {x : PeerId} {xs : List PeerId} → In x xs → In (first_id xs) xs
first_id-In (here e) = here refl
first_id-In (there m) = here refl

peer_ids_ordered :
    {T : Type 0} (d : BrokerDeps T) {x : PeerId}
    → is_n_peer d ≡ true
    → In x d.peer_order
    → peer_ids d ≡ d.peer_order
unfolding peer_ids
peer_ids_ordered d n m = rw n (rw (In-not_nil m))

opener_slot-In :
    {T : Type 0} (d : BrokerDeps T) (conv : Conversation)
    → is_n_peer d ≡ true
    → In conv.opener_id d.peer_order
    → In (opener_slot d conv) d.peer_order
unfolding opener_slot
opener_slot-In d conv n m =
    rw n (elim (Bool-cases (is_empty conv.opener_id)) [
      | inl y ↦ rw y (first_id-In m)
      | inr k ↦ rw k m
    ])

module _ {T : Type 0} (new_transport : PeerId → T) where
  abbrev entries : List PeerParticipant → List (PeerId × T)
  entries = map (λ p. (p.id, new_transport p.id))

  transport_of-In :
      (id : PeerId) (ps : List PeerParticipant)
      → In id (map (λ p. p.id) ps)
      → transport_of id (entries ps) ≡ some (new_transport id)
  unfolding transport_of
  transport_of-In id [] m = elim m [ ]
  transport_of-In id (p ∷ ps) (here e) =
      rw ((equal_iff p.id id).1 e) (ap (λ x. some (new_transport x)) e)
  transport_of-In id (p ∷ ps) (there m) = elim (Bool-cases (equal p.id id)) [
    | inl y ↦ rw y (ap (λ x. some (new_transport x)) ((equal_iff p.id id).0 y))
    | inr n ↦ rw n (transport_of-In id ps m)
  ]

  peer_order_ids :
      (s : Settings) (c : NPeerConfig) → (npeer_deps new_transport s c).peer_order ≡ ids c.peers
  unfolding npeer_deps npeer_conversation to_v2_conversation
  peer_order_ids s c =
      map-inject_cwd s.working_directory (map participant c.peers) ∙ map-participant c.peers

  ids-npeer :
      (ps : List PeerParticipant) (id : PeerId)
      → In id (map (λ p. p.id) ps)
      → is_nil (entries ps) ≡ false
  ids-npeer [] id m = elim m [ ]
  ids-npeer (p ∷ ps) id m = refl

  module _ (s : Settings) (c : NPeerConfig) (opener : In c.opener_id (ids c.peers)) where
    npeer : is_n_peer (npeer_deps new_transport s c) ≡ true
    unfolding npeer_deps
    npeer = ap not (
        ids-npeer (npeer_conversation s c).peers c.opener_id
          (subst (In c.opener_id) (sym (peer_order_ids s c)) opener))

    served :
        (id : PeerId)
        → In id (ids c.peers)
        → transport_for (npeer_deps new_transport s c) id ≡ some (new_transport id)
    unfolding npeer_deps
    served id m = transport_for_found (npeer_deps new_transport s c) id npeer (
        transport_of-In id (npeer_conversation s c).peers
          (subst (In id) (sym (peer_order_ids s c)) m))

    opener_ordered : In c.opener_id (npeer_deps new_transport s c).peer_order
    opener_ordered = subst (In c.opener_id) (sym (peer_order_ids s c)) opener

    -- The ids that the policy chooses among are the declared ones.
    pub peer_ids-npeer_deps : peer_ids (npeer_deps new_transport s c) ≡ ids c.peers
    peer_ids-npeer_deps =
        peer_ids_ordered (npeer_deps new_transport s c) npeer opener_ordered ∙ peer_order_ids s c

    opener_declared :
        In
          (opener_slot (npeer_deps new_transport s c) (npeer_deps new_transport s c).conversation)
          (ids c.peers)
    unfolding npeer_deps npeer_conversation
    opener_declared =
        subst
          (In (
            opener_slot (npeer_deps new_transport s c) (npeer_deps new_transport s c).conversation))
          (peer_order_ids s c)
          (opener_slot-In (npeer_deps new_transport s c) (npeer_deps new_transport s c).conversation
            npeer opener_ordered)

module _ (env : Env) where
  open env use {World, Transport, rand_read}

  -- A conversation whose --peer flags are accepted runs to a result, whatever the store, the bus, the
  -- peers, the terminator and the context answer, if the entropy source answers.
  pub run_accepted :
      (new_transport : PeerId → Transport) (s : Settings) (raw_peers : List Text)
      (broadcast_seed opener : Text) {c : NPeerConfig} (w : World)
      → ((v : World) → (bytes : List ℕ) × ((rand_read v).1 ≡ some bytes))
      → parse_n_peer_specs raw_peers broadcast_seed opener ≡ inr c
      → (r : FinalResult) × (w' : World) × (run env (npeer_deps new_transport s c) w
          ≡ returned r w')
  unfolding npeer_deps next_slot
  run_accepted new_transport s raw_peers broadcast_seed opener {c} w entropy h =
      let a = parse_n_peer_specs-IsAccepted raw_peers broadcast_seed opener h in
      run_total env (npeer_deps new_transport s c)
        (record {
          default_policy = refl;
          entropy = entropy;
          opener_served = (
            new_transport _,
            served new_transport s c a.opener_declared _
                (opener_declared new_transport s c a.opener_declared),
          );
          served = λ id m. (
            new_transport id,
            subst
                (λ b.
                  transport_for (npeer_deps new_transport s c) (next_slot b id)
                  ≡ some (new_transport id))
                (sym (npeer new_transport s c a.opener_declared))
                (served new_transport s c a.opener_declared id
                  (subst (In id) (peer_ids-npeer_deps new_transport s c a.opener_declared) m)),
          );
          slots_filled =
              λ e. absurd (true-ne-false (sym (npeer new_transport s c a.opener_declared) ∙ e));
        })
        w

  -- In a result of a conversation whose --peer flags are accepted, every turn goes from a declared
  -- peer to another declared one.
  pub run_accepted-IsExchange :
      (new_transport : PeerId → Transport) (s : Settings) (raw_peers : List Text)
      (broadcast_seed opener : Text) {c : NPeerConfig} (w : World) {r : FinalResult} {w' : World}
      → parse_n_peer_specs raw_peers broadcast_seed opener ≡ inr c
      → run env (npeer_deps new_transport s c) w ≡ returned r w'
      → All (IsExchange (ids c.peers)) r.turns
  unfolding npeer_deps npeer_conversation
  run_accepted-IsExchange new_transport s raw_peers broadcast_seed opener {c} w {r} h e =
      let a = parse_n_peer_specs-IsAccepted raw_peers broadcast_seed opener h in
      let deps : BrokerDeps Transport = npeer_deps new_transport s c in
      let same : peer_ids deps ≡ ids c.peers =
        peer_ids-npeer_deps new_transport s c a.opener_declared in
      subst (λ x. All (IsExchange x) r.turns) same
        (run-IsExchange env deps (npeer new_transport s c a.opener_declared) refl
          (subst Distinct (sym same) a.distinct)
          (subst (λ x. 2 ≤ length x) (sym same) (two_ids c.peers a.two_or_more)) w
          (subst (In (opener_slot deps deps.conversation)) (sym same)
            (opener_declared new_transport s c a.opener_declared))
          refl e)
    where
      two_ids : (ps : List PeerDecl) → 2 ≤ length ps → 2 ≤ length (ids ps)
      two_ids [] l = absurd (omega arith)
      two_ids (p ∷ []) l = absurd (omega arith)
      two_ids (p ∷ q ∷ ps) l = omega arith
