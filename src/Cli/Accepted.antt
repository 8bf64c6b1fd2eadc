-- ===== src/Cli/Accepted.antt =====
-- converse_npeer.go: the configurations that `parseNPeerSpecs` accepts.
use vitis.Prelude.{
  ℕ, suc, ◌+◌, ◌≤◌, false, ◌||◌, List, [], ◌∷◌, ◌++◌, none, ◌⊎◌, inl, inr, ◌≡◌, ◌≢◌, refl, sym, ap,
  ap₂, subst, ◌∙◌, ltb, not_ltb→le, length, length-append, All, All-append, Bool-cases, arith,
}
use mathlib.Core.Sum.{inr-injective}
use vitis.Text.{Text, codes, equal, is_empty, contains_text}
use vitis.Text.Equal.{In, here, In-contains_text, equal-false}
use vitis.Model.PeerId.{PeerId, validate}
use vitis.Policy.RoundRobin.{Distinct}
use vitis.Cli.Specs.{
  PeerDecl, SpecError, parse_peer_spec, NPeerConfig, max_n_peers, NPeerError, bad_spec,
  duplicate_id, missing_seed, Declared, count_errors, seeded, seed_errors, declare, declare_all,
  first_peer, choose_opener, joined, parse_n_peer_specs,
}
use vitis.Cli.Declared.{ids, IsDeclared, not_empty, parse_peer_spec-IsDeclared}

-- What the broker may rely on.
pub record IsAccepted (count : ℕ) (c : NPeerConfig) : Type 0 where
  pub all_kept : length c.peers ≡ count
  pub two_or_more : 2 ≤ length c.peers
  pub at_most : length c.peers ≤ max_n_peers
  pub distinct : Distinct (ids c.peers)
  pub declared : All IsDeclared c.peers
  pub seeds_given : All (λ p. p.seed ≢ []) c.peers
  pub opener_declared : In c.opener_id (ids c.peers)

-- The loop's state when `count` flags have been read: nothing is lost unless there is an error.
record IsBuilt (start : List NPeerError) (count : ℕ) (d : Declared) : Type 0 where
  seen_ids : d.seen ≡ ids d.peers
  distinct : Distinct d.seen
  declared : All IsDeclared d.peers
  clean : (d.errs ≢ []) ⊎ ((start ≡ []) × (length d.peers ≡ count) × All (λ p. p.seed ≢ []) d.peers)

concat_ne : (es : List NPeerError) (e : NPeerError) → es ++ e ∷ [] ≢ []
concat_ne [] e h = cc
concat_ne (x ∷ es) e h = cc

append_ne : (es fs : List NPeerError) → es ≢ [] → es ++ fs ≢ []
append_ne [] fs f h = f refl
append_ne (x ∷ es) fs f h = cc

not_seen : (x : PeerId) (xs : List PeerId) → contains_text xs x ≡ false → All (λ q. q ≢ x) xs
not_seen x [] h = tt
not_seen x (y ∷ xs) h = (equal-false y x (ground arith), not_seen x xs (ground arith))

Distinct-concat :
    (x : PeerId) (xs : List PeerId) → Distinct xs → All (λ q. q ≢ x) xs → Distinct (xs ++ x ∷ [])
Distinct-concat x [] d a = (tt, tt)
Distinct-concat x (y ∷ xs) d a =
    (All-append (λ q. y ≢ q) xs (x ∷ []) d.0 (a.0, tt), Distinct-concat x xs d.1 a.1)

ids-concat : (ps : List PeerDecl) (p : PeerDecl) → ids (ps ++ p ∷ []) ≡ ids ps ++ p.id ∷ []
ids-concat [] p = refl
ids-concat (q ∷ ps) p = ap (◌∷◌ q.id) (ids-concat ps p)

seeded_same :
    (b : Text) (pd : PeerDecl) → ((seeded b pd).id ≡ pd.id) × ((seeded b pd).provider ≡ pd.provider)
seeded_same b pd = elim (Bool-cases (is_empty pd.seed)) [
  | inl y ↦ rw y (refl, refl)
  | inr n ↦ rw n (refl, refl)
]

-- A flag with an error.
failed-IsBuilt :
    {start : List NPeerError} {count : ℕ} (d : Declared) (e : NPeerError)
    → IsBuilt start count d
    → IsBuilt start (suc count) (record d { errs = d.errs ++ e ∷ [] })
failed-IsBuilt d e b = record {
  seen_ids = b.seen_ids;
  distinct = b.distinct;
  declared = b.declared;
  clean = inl (concat_ne d.errs e);
}

-- A flag that declares a peer.
added-IsBuilt :
    {start : List NPeerError} {count : ℕ} (d : Declared) (pd : PeerDecl)
    → contains_text d.seen pd.id ≡ false
    → IsDeclared pd
    → IsBuilt start count d
    → IsBuilt start (suc count) (record {
      errs = d.errs ++ seed_errors pd;
      seen = d.seen ++ pd.id ∷ [];
      peers = d.peers ++ pd ∷ [];
    })
added-IsBuilt d pd n g b = record {
  seen_ids = ap (λ x. x ++ pd.id ∷ []) b.seen_ids ∙ sym (ids-concat d.peers pd);
  distinct = Distinct-concat pd.id d.seen b.distinct (not_seen pd.id d.seen n);
  declared = All-append IsDeclared d.peers (pd ∷ []) b.declared (g, tt);
  clean = elim b.clean [
    | inl f ↦ inl (append_ne d.errs (seed_errors pd) f)
    | inr (s, l, a) ↦ elim (Bool-cases (is_empty pd.seed)) [
      | inl y ↦ inl (rw y (concat_ne d.errs (missing_seed pd.id)))
      | inr m ↦ inr (
        s,
        length-append d.peers (pd ∷ []) ∙ omega (arith, l),
        All-append (λ p. p.seed ≢ []) d.peers (pd ∷ []) a (not_empty pd.seed m, tt),
      )
    ]
  ];
}

declare-IsBuilt :
    {start : List NPeerError} {count : ℕ} (b : Text) (o : SpecError ⊎ PeerDecl) (d : Declared)
    → ((pd : PeerDecl) → o ≡ inr pd → IsDeclared pd)
    → IsBuilt start count d
    → IsBuilt start (suc count) (declare b o d)
unfolding declare
declare-IsBuilt b (inl e) d g i = failed-IsBuilt d (bad_spec e) i
declare-IsBuilt {start} {count} b (inr pd) d g i = elim (Bool-cases (contains_text d.seen pd.id)) [
  | inl y ↦ rw y (failed-IsBuilt d (duplicate_id pd.id) i)
  | inr n ↦
      let (same_id, same_provider) = seeded_same b pd in
      let good : IsDeclared (seeded b pd) = (
        subst (λ x. validate x ≡ none) (sym same_id) (g pd refl).0,
        subst (λ x. x ≢ []) (sym same_provider) (g pd refl).1,
      ) in
      let added =
        added-IsBuilt d (seeded b pd) (subst (λ x. contains_text d.seen x ≡ false) (sym same_id) n)
          good i in
      rw n (
        subst
          (λ x. IsBuilt start (suc count) (record {
            errs = d.errs ++ seed_errors (seeded b pd);
            seen = d.seen ++ x ∷ [];
            peers = d.peers ++ seeded b pd ∷ [];
          }))
          same_id added)
]

declare_all-IsBuilt :
    {start : List NPeerError} (b : Text) (raws : List Text) {count : ℕ} (d : Declared)
    → IsBuilt start count d
    → IsBuilt start (count + length raws) (declare_all b raws d)
unfolding declare_all
declare_all-IsBuilt {start} b [] {count} d i = subst (λ n. IsBuilt start n d) (omega arith) i
declare_all-IsBuilt {start} b (raw ∷ raws) {count} d i =
    subst (λ n. IsBuilt start n (declare_all b raws (declare b (parse_peer_spec raw) d)))
      (omega arith)
      (declare_all-IsBuilt b raws (declare b (parse_peer_spec raw) d)
        (declare-IsBuilt b (parse_peer_spec raw) d (λ pd h. parse_peer_spec-IsDeclared raw h) i))

start-IsBuilt :
    (start : List NPeerError) → IsBuilt start 0 (record { errs = start; seen = []; peers = [] })
start-IsBuilt [] = record {
  seen_ids = refl;
  distinct = tt;
  declared = tt;
  clean = inr (refl, refl, tt);
}
start-IsBuilt (e ∷ es) = record {
  seen_ids = refl;
  distinct = tt;
  declared = tt;
  clean = inl (λ h. cc);
}

joined_ok :
    (opener : PeerId) (peers : List PeerDecl) (errs : List NPeerError) {c : NPeerConfig}
    → joined opener peers errs ≡ inr c
    → (errs ≡ []) × (c.peers ≡ peers) × (c.opener_id ≡ opener)
joined_ok opener peers [] {c} h =
    let same = sym (inr-injective (record { peers = peers; opener_id = opener }) c h) in
    (refl, ap (λ x. x.peers) same, ap (λ x. x.opener_id) same)
joined_ok opener peers (e ∷ es) h = absurd (cc)

nil_parts : (es fs : List NPeerError) → es ++ fs ≡ [] → (es ≡ []) × (fs ≡ [])
nil_parts [] fs h = (refl, h)
nil_parts (e ∷ es) fs h = absurd (cc)

count_in_range : (n : ℕ) → count_errors n ≡ [] → (2 ≤ n) × (n ≤ max_n_peers)
count_in_range n h = elim (Bool-cases (ltb n 2)) [
  | inl y ↦ absurd (cc (rw y at h))
  | inr m ↦ elim (Bool-cases (ltb max_n_peers n)) [
    | inl y ↦ absurd (cc (rw (m, y) at h))
    | inr k ↦ (not_ltb→le n 2 m, not_ltb→le max_n_peers n k)
  ]
]

first_peer-In : (ps : List PeerDecl) → 2 ≤ length ps → In (first_peer ps) (ids ps)
first_peer-In [] h = absurd (omega arith)
first_peer-In (p ∷ ps) h = here refl

choose_opener_clean : (opener : Text) (d : Declared) → (choose_opener opener d).1 ≡ [] → d.errs ≡ []
unfolding choose_opener
choose_opener_clean opener d h = elim (Bool-cases (is_empty opener || equal opener (codes "a"))) [
  | inl y ↦ rw y at h
  | inr n ↦ (nil_parts d.errs _ (rw n at h)).0
]

-- The opener that is chosen without an error is a declared one.
choose_opener-In :
    (opener : Text) (d : Declared)
    → 2 ≤ length d.peers
    → d.seen ≡ ids d.peers
    → (choose_opener opener d).1 ≡ []
    → In (choose_opener opener d).0 (ids d.peers)
unfolding choose_opener
choose_opener-In opener d two same h =
    elim (Bool-cases (is_empty opener || equal opener (codes "a"))) [
      | inl y ↦ rw y (first_peer-In d.peers two)
      | inr n ↦ elim (Bool-cases (contains_text d.seen opener)) [
        | inl y ↦ rw n (subst (In opener) same (In-contains_text d.seen opener y))
        | inr m ↦ absurd (cc (rw m at (nil_parts d.errs _ (rw n at h)).1))
      ]
    ]

-- A configuration that is accepted has as many peers as there are flags, from 2 to 16; their ids are
-- valid and distinct, each has a provider and a seed, and the opener is one of them.
pub parse_n_peer_specs-IsAccepted :
    (raw_peers : List Text) (broadcast_seed opener : Text) {c : NPeerConfig}
    → parse_n_peer_specs raw_peers broadcast_seed opener ≡ inr c
    → IsAccepted (length raw_peers) c
unfolding parse_n_peer_specs
parse_n_peer_specs-IsAccepted raw_peers broadcast_seed opener {c} h =
    let start = count_errors (length raw_peers) in
    let d = declare_all broadcast_seed raw_peers (record { errs = start; seen = []; peers = [] }) in
    let b : IsBuilt start (0 + length raw_peers) d =
      declare_all-IsBuilt broadcast_seed raw_peers (record { errs = start; seen = []; peers = [] })
        (start-IsBuilt start) in
    let (no_errs, same_peers, same_opener) =
      joined_ok (choose_opener opener d).0 d.peers (choose_opener opener d).1 h in
    elim b.clean [
      | inl f ↦ absurd (f (choose_opener_clean opener d no_errs))
      | inr (ok, count, seeds) ↦
          let (two, most) = count_in_range (length raw_peers) ok in
          let all : length d.peers ≡ length raw_peers = omega (arith, count) in
          subst (IsAccepted (length raw_peers))
            {x = record { peers = d.peers; opener_id = (choose_opener opener d).0 }}
            (ap₂ (λ x y. record { peers = x; opener_id = y }) (sym same_peers) (sym same_opener))
            (record {
              all_kept = all;
              two_or_more = omega (arith, all, two);
              at_most = omega (arith, all, most);
              distinct = subst Distinct b.seen_ids b.distinct;
              declared = b.declared;
              seeds_given = seeds;
              opener_declared =
                  choose_opener-In opener d (omega (arith, all, two)) b.seen_ids no_errs;
            })
    ]
