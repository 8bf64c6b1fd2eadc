-- ===== src/Policy/Contract.antt =====
-- addressed.go: the contract of `AddressedPolicy.Next` with the broker.
use vitis.Prelude.{
  ◌≤◌, true, false, List, [], ◌∷◌, Option, none, some, ◌≡◌, ◌≢◌, ◌⊎◌, ◌↔◌, inl, inr, refl, sym,
  subst, ◌∙◌, arith, length, Bool-cases,
}
use vitis.Text.{Text}
use vitis.Text.Equal.{equal-false, ne_equal, In, In-contains_text, contains_text-In}
use vitis.Model.PeerId.{PeerId}
use vitis.Policy.{Decision, is_addressed, parse_next_trailer, round_robin_after, next}
use vitis.Policy.Trailer.{HasTrailer, parse_next_trailer_iff}
use vitis.Policy.RoundRobin.{
  Distinct, round_robin_after-In, round_robin_after_total, round_robin_after-ne,
}

-- The trailer of a reply names another declared peer.
pub record Addresses (current : PeerId) (reply : Text) (peers : List PeerId) (id : PeerId)
    : Type 0 where
  pub trailer : HasTrailer reply id
  pub other : id ≢ current
  pub declared : In id peers

-- What a decision says of the reply that it answers: it records the id of the trailer, and it takes
-- the peer that the trailer addresses, or falls back where the trailer addresses none.
pub record Answers (current : PeerId) (reply : Text) (peers : List PeerId) (d : Decision)
    : Type 0 where
  pub parsed_iff : (id : PeerId) → (d.parsed ≡ some id) ↔ HasTrailer reply id
  pub choice :
      ((d.fallback_used ≡ false) × Addresses current reply peers d.next)
      ⊎ ((d.fallback_used ≡ true)
          × (round_robin_after current peers ≡ some d.next)
          × ((id : PeerId) → ¬ Addresses current reply peers id))

is_addressed-true :
    (parsed : Option PeerId) (current : PeerId) (peers : List PeerId)
    → is_addressed parsed current peers ≡ true
    → (id : PeerId) × (parsed ≡ some id) × (id ≢ current) × In id peers
unfolding is_addressed
is_addressed-true none current peers h = absurd (cc)
is_addressed-true (some id) current peers h =
    (id, refl, equal-false id current (ground arith), In-contains_text peers id (ground arith))

is_addressed_intro :
    {id current : PeerId} {peers : List PeerId}
    → id ≢ current
    → In id peers
    → is_addressed (some id) current peers ≡ true
unfolding is_addressed
is_addressed_intro {id} {current} n m = rw (ne_equal id current n) (contains_text-In m)

-- With a peer declared, `Next` does not panic. It goes to the peer that the trailer names if that
-- is another declared one, and to the round robin otherwise; the parsed id is recorded either way.
pub next-Answers :
    (current : PeerId) (reply : Text) (peers : List PeerId)
    → peers ≢ []
    → (d : Decision) × (next current reply peers ≡ some d) × Answers current reply peers d
unfolding next
next-Answers current reply peers f =
    elim (Bool-cases (is_addressed (parse_next_trailer reply) current peers)) [
      | inl y ↦
          let (id, e, n, m) = is_addressed-true _ current peers y in
          let t = (parse_next_trailer_iff reply id).0 e in
          (
            record { next = id; parsed = some id; fallback_used = false },
            rw y (rw e),
            record {
              parsed_iff = λ j. (
                (λ h. (parse_next_trailer_iff reply j).0 (e ∙ h)),
                (λ h. sym e ∙ (parse_next_trailer_iff reply j).1 h),
              );
              choice = inl (refl, record { trailer = t; other = n; declared = m });
            },
          )
      | inr n ↦
          let (q, r) = round_robin_after_total current peers f in
          (
            record { next = q; parsed = parse_next_trailer reply; fallback_used = true },
            rw n (rw r),
            record {
              parsed_iff = parse_next_trailer_iff reply;
              choice = inr (
                refl,
                r,
                λ j a.
                    let e = (parse_next_trailer_iff reply j).1 a.trailer in
                    absurd (cc (is_addressed_intro a.other a.declared, rw e at n)),
              );
            },
          )
    ]

pub Answers-next :
    (current : PeerId) (reply : Text) (peers : List PeerId) {d : Decision}
    → peers ≢ []
    → next current reply peers ≡ some d
    → Answers current reply peers d
Answers-next current reply peers {d} f h =
    let (d', e, a) = next-Answers current reply peers f in
    subst (Answers current reply peers) {x = d'} {y = d} (cc) a

-- The chosen peer is a declared one.
pub next-In :
    (current : PeerId) (reply : Text) (peers : List PeerId) {d : Decision}
    → peers ≢ []
    → next current reply peers ≡ some d
    → In d.next peers
next-In current reply peers {d} f h = elim (Answers-next current reply peers f h).choice [
  | inl (_, a) ↦ a.declared
  | inr (_, r, _) ↦ round_robin_after-In current peers r
]

-- With two distinct peers or more, nobody is chosen to answer itself.
pub next-ne :
    (current : PeerId) (reply : Text) (peers : List PeerId) {d : Decision}
    → Distinct peers
    → 2 ≤ length peers
    → In current peers
    → next current reply peers ≡ some d
    → d.next ≢ current
next-ne current reply [] dist two m h = absurd (omega arith)
next-ne current reply (p ∷ ps) {d} dist two m h =
    elim (Answers-next current reply (p ∷ ps) (λ e. cc) h).choice [
      | inl (_, a) ↦ a.other
      | inr (_, r, _) ↦ round_robin_after-ne (p ∷ ps) current dist two m r
    ]
