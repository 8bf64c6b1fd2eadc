-- ===== src/Cli/Specs.antt =====
-- converse_npeer.go: `parsePeerSpec`, `parseNPeerSpecs` and `toV2Conversation`. The map of options is
-- its list of entries, and the set of ids that were seen is a list. An error has what its message
-- shows, but for the text of the flag.
use vitis.Prelude.{
  ℕ, ◌||◌, List, [], ◌∷◌, ◌++◌, Option, none, some, ◌⊎◌, inl, inr, ltb, map, if◌then◌else◌, length,
}
use vitis.Text.{Text, codes, equal, is_empty, contains_text}
use vitis.Model.PeerId.{PeerId, validate}
use vitis.Model.Conversation.{PeerParticipant}
use vitis.Cli.Pairs.{KvPair, KvError, parse_key_value_list}

-- `peerDecl`
pub record PeerDecl : Type 0 where
  pub id : PeerId
  pub provider : Text
  pub seed : Text
  pub options : List (Text × Text)

pub data SpecError : Type 0 where
  malformed : KvError → SpecError
  unknown_key : Text → SpecError
  missing_id : SpecError
  invalid_id : PeerId → Text → SpecError
  missing_provider : PeerId → SpecError

abbrev pub allowed_peer_keys : List Text
allowed_peer_keys =
    codes "id"
    ∷ codes "provider"
    ∷ codes "seed"
    ∷ codes "model"
    ∷ codes "reasoning-effort"
    ∷ codes "cwd"
    ∷ codes "home"
    ∷ []

-- `m[key] = value`
unfoldable pub set_option : Text → Text → List (Text × Text) → List (Text × Text)
set_option key value [] = (key, value) ∷ []
set_option key value ((k, v) ∷ m) =
    if equal k key then (k, value) ∷ m else (k, v) ∷ set_option key value m

-- The switch on the key.
unfoldable pub set_key : Text → Text → PeerDecl → PeerDecl
unfolding set_option
set_key key value pd =
    if equal key (codes "id")
    then record pd { id = value }
    else if equal key (codes "provider")
    then record pd { provider = value }
    else if equal key (codes "seed")
    then record pd { seed = value }
    else record pd { options = set_option key value pd.options }

-- The loop over the pairs.
unfoldable pub set_keys : List KvPair → PeerDecl → SpecError ⊎ PeerDecl
unfolding set_key
set_keys [] pd = inr pd
set_keys (kv ∷ kvs) pd =
    let rest = set_keys kvs (set_key kv.key kv.value pd) in
    if contains_text allowed_peer_keys kv.key then rest else inl (unknown_key kv.key)

abbrev pub checked_id : PeerDecl → Option Text → SpecError ⊎ PeerDecl
checked_id pd (some e) = inl (invalid_id pd.id e)
checked_id pd none = if is_empty pd.provider then inl (missing_provider pd.id) else inr pd

abbrev pub checked : SpecError ⊎ PeerDecl → SpecError ⊎ PeerDecl
checked (inl e) = inl e
checked (inr pd) = if is_empty pd.id then inl missing_id else checked_id pd (validate pd.id)

abbrev pub no_decl : PeerDecl
no_decl = record { id = []; provider = []; seed = []; options = [] }

abbrev pub spec_of : KvError ⊎ List KvPair → SpecError ⊎ PeerDecl
spec_of (inl e) = inl (malformed e)
spec_of (inr kvs) = checked (set_keys kvs no_decl)

-- `parsePeerSpec`
unfoldable pub parse_peer_spec : Text → SpecError ⊎ PeerDecl
unfolding set_keys parse_key_value_list
parse_peer_spec raw = spec_of (parse_key_value_list raw)

-- `nPeerConfig`
pub record NPeerConfig : Type 0 where
  pub peers : List PeerDecl
  pub opener_id : PeerId

abbrev pub max_n_peers : ℕ
max_n_peers = 16

pub data NPeerError : Type 0 where
  too_few too_many : ℕ → NPeerError
  bad_spec : SpecError → NPeerError
  duplicate_id missing_seed : PeerId → NPeerError
  unknown_opener : Text → NPeerError

-- What the loop over the flags gathers.
pub record Declared : Type 0 where
  pub errs : List NPeerError
  pub seen : List PeerId
  pub peers : List PeerDecl

abbrev pub count_errors : ℕ → List NPeerError
count_errors n =
    (if ltb n 2 then too_few n ∷ [] else []) ++ (if ltb max_n_peers n then too_many n ∷ [] else [])

abbrev pub seeded : Text → PeerDecl → PeerDecl
seeded broadcast_seed pd = if is_empty pd.seed then record pd { seed = broadcast_seed } else pd

abbrev pub seed_errors : PeerDecl → List NPeerError
seed_errors pd = if is_empty pd.seed then missing_seed pd.id ∷ [] else []

-- The body of the loop.
unfoldable pub declare : Text → SpecError ⊎ PeerDecl → Declared → Declared
declare broadcast_seed (inl e) d = record d { errs = d.errs ++ bad_spec e ∷ [] }
declare broadcast_seed (inr pd) d =
    if contains_text d.seen pd.id
    then record d { errs = d.errs ++ duplicate_id pd.id ∷ [] }
    else record {
      errs = d.errs ++ seed_errors (seeded broadcast_seed pd);
      seen = d.seen ++ pd.id ∷ [];
      peers = d.peers ++ seeded broadcast_seed pd ∷ [];
    }

unfoldable pub declare_all : Text → List Text → Declared → Declared
unfolding declare parse_peer_spec
declare_all broadcast_seed [] d = d
declare_all broadcast_seed (raw ∷ raws) d =
    declare_all broadcast_seed raws (declare broadcast_seed (parse_peer_spec raw) d)

abbrev pub first_peer : List PeerDecl → PeerId
first_peer [] = []
first_peer (p ∷ _) = p.id

-- The opener, and the errors with its own.
unfoldable pub choose_opener : Text → Declared → PeerId × List NPeerError
choose_opener opener d =
    if is_empty opener || equal opener (codes "a") then (first_peer d.peers, d.errs) else (
      opener,
      d.errs ++ (if contains_text d.seen opener then [] else unknown_opener opener ∷ []),
    )

abbrev pub joined : PeerId → List PeerDecl → List NPeerError → List NPeerError ⊎ NPeerConfig
joined opener_id peers [] = inr (record { peers = peers; opener_id = opener_id })
joined opener_id peers (e ∷ es) = inl (e ∷ es)

-- `parseNPeerSpecs`
unfoldable pub parse_n_peer_specs : List Text → Text → Text → List NPeerError ⊎ NPeerConfig
unfolding declare_all choose_opener
parse_n_peer_specs raw_peers broadcast_seed opener =
    let d =
      declare_all broadcast_seed raw_peers
        (record { errs = count_errors (length raw_peers); seen = []; peers = [] }) in
    let chosen = choose_opener opener d in joined chosen.0 d.peers chosen.1

abbrev pub participant : PeerDecl → PeerParticipant
participant p = record {
  id = p.id;
  spec = record { uri = codes "provider:" ++ p.provider; options = p.options };
}

-- `toV2Conversation`: the peers, and the entries of the map of seeds.
unfoldable pub to_v2_conversation : NPeerConfig → List PeerParticipant × List (PeerId × Text)
to_v2_conversation c = (map participant c.peers, map (λ p. (p.id, p.seed)) c.peers)
