-- ===== src/Cli/Declared.antt =====
-- converse_npeer.go: the flags that `parsePeerSpec` accepts.
use vitis.Prelude.{
  false, List, [], ◌∷◌, Option, none, some, ◌⊎◌, inl, inr, ◌≡◌, ◌≢◌, refl, sym, subst, map,
  Bool-cases,
}
use mathlib.Core.Sum.{inr-injective}
use vitis.Text.{Text, is_empty}
use vitis.Model.PeerId.{PeerId, validate}
use vitis.Cli.Pairs.{KvPair, KvError, parse_key_value_list}
use vitis.Cli.Specs.{
  PeerDecl, SpecError, set_keys, checked, checked_id, spec_of, no_decl, parse_peer_spec,
}

abbrev pub ids : List PeerDecl → List PeerId
ids = map (λ p. p.id)

-- A declared peer with a valid id and a provider.
abbrev pub IsDeclared : PeerDecl → Type 0
IsDeclared p = (validate p.id ≡ none) × (p.provider ≢ [])

pub not_empty : (t : Text) → is_empty t ≡ false → t ≢ []
not_empty [] h f = cc
not_empty (c ∷ t) h f = cc

checked_id-IsDeclared :
    (pd : PeerDecl) (o : Option Text) {q : PeerDecl}
    → o ≡ validate pd.id
    → checked_id pd o ≡ inr q
    → IsDeclared q
checked_id-IsDeclared pd (some e) v h = absurd (cc)
checked_id-IsDeclared pd none {q} v h = elim (Bool-cases (is_empty pd.provider)) [
  | inl y ↦ absurd (cc (rw y at h))
  | inr n ↦ subst IsDeclared (inr-injective pd q (rw n at h)) (sym v, not_empty pd.provider n)
]

checked-IsDeclared : (o : SpecError ⊎ PeerDecl) {q : PeerDecl} → checked o ≡ inr q → IsDeclared q
checked-IsDeclared (inl e) h = absurd (cc)
checked-IsDeclared (inr pd) h = elim (Bool-cases (is_empty pd.id)) [
  | inl y ↦ absurd (cc (rw y at h))
  | inr n ↦ checked_id-IsDeclared pd (validate pd.id) refl (rw n at h)
]

spec_of-IsDeclared : (o : KvError ⊎ List KvPair) {q : PeerDecl} → spec_of o ≡ inr q → IsDeclared q
spec_of-IsDeclared (inl e) h = absurd (cc)
spec_of-IsDeclared (inr kvs) h = checked-IsDeclared (set_keys kvs no_decl) h

-- A flag that is accepted declares a peer with a valid id and a provider.
pub parse_peer_spec-IsDeclared :
    (raw : Text) {pd : PeerDecl} → parse_peer_spec raw ≡ inr pd → IsDeclared pd
unfolding parse_peer_spec
parse_peer_spec-IsDeclared raw h = spec_of-IsDeclared (parse_key_value_list raw) h
