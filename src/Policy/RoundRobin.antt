-- ===== src/Policy/RoundRobin.antt =====
-- roundrobin.go: `roundRobinAfter` by positions, and over distinct peers.
use vitis.Prelude.{
  ℕ, zero, suc, ◌+◌, ◌%◌, ◌≤◌, ◌<◌, true, false, List, [], ◌∷◌, some, ◌≡◌, ◌≢◌, ◌⊎◌, inl, inr, refl,
  sym, ap, subst, ◌∙◌, arith, length, get_elem?, All, Bool-cases, ltb, not_ltb→le, if◌then◌else◌,
}
use native.Mathlib.Nat.{mod-eq_of_lt, mod_self}
use vitis.Text.{equal}
use vitis.Text.Equal.{equal_iff, ne_equal, equal-false, In, here, there}
use vitis.Model.PeerId.{PeerId}
use vitis.Policy.{after_in, round_robin_after}

-- No id is declared twice.
abbrev pub Distinct : List PeerId → Type 0
Distinct [] = Unit
Distinct (p ∷ ps) = All (λ q. p ≢ q) ps × Distinct ps

pub All-In {κ} : (P : PeerId → Type κ) {x : PeerId} {xs : List PeerId} → All P xs → In x xs → P x
All-In P h (here e) = subst P e h.0
All-In P h (there m) = All-In P h.1 m

pub get_elem?-In : (xs : List PeerId) (i : ℕ) {x : PeerId} → get_elem? xs i ≡ some x → In x xs
get_elem?-In [] i h = absurd (cc)
get_elem?-In (y ∷ xs) zero h = here (cc)
get_elem?-In (y ∷ xs) (suc i) h = there (get_elem?-In xs i h)

after_in-In :
    (current first : PeerId) (ps : List PeerId) → In (after_in current first ps) (first ∷ ps)
unfolding after_in
after_in-In current first [] = here refl
after_in-In current first (p ∷ []) = here refl
after_in-In current first (p ∷ q ∷ ps) = elim (Bool-cases (equal p current)) [
  | inl y ↦ rw y (there (there (here refl)))
  | inr n ↦ rw n (weaken (after_in-In current first (q ∷ ps)))
]
  where
    weaken : {x : PeerId} → In x (first ∷ q ∷ ps) → In x (first ∷ p ∷ q ∷ ps)
    weaken (here e) = here e
    weaken (there m) = there (there m)

pub round_robin_after-In :
    (current : PeerId) (peers : List PeerId) {q : PeerId}
    → round_robin_after current peers ≡ some q
    → In q peers
unfolding round_robin_after
round_robin_after-In current [] h = absurd (cc)
round_robin_after-In current (p ∷ ps) {q} h =
    subst (λ x. In x (p ∷ ps)) (cc) (merge (after_in-In current p (p ∷ ps)))
  where
    merge : {x : PeerId} → In x (p ∷ p ∷ ps) → In x (p ∷ ps)
    merge (here e) = here e
    merge (there m) = m

pub round_robin_after_total :
    (current : PeerId) (peers : List PeerId)
    → peers ≢ []
    → (q : PeerId) × (round_robin_after current peers ≡ some q)
unfolding round_robin_after
round_robin_after_total current [] h = absurd (h refl)
round_robin_after_total current (p ∷ ps) h = (after_in current p (p ∷ ps), refl)

after_in_lem :
    (ps : List PeerId) (current first : PeerId) (i : ℕ)
    → Distinct ps
    → get_elem? ps i ≡ some current
    → some (after_in current first ps)
      ≡ (if ltb (i + 1) (length ps) then get_elem? ps (i + 1) else some first)
unfolding after_in
after_in_lem [] current first i d h = absurd (cc)
after_in_lem (p ∷ []) current first zero d h = refl
after_in_lem (p ∷ []) current first (suc i) d h = absurd (cc)
after_in_lem (p ∷ q ∷ ps) current first zero d h = ground (arith, equal_iff p current)
after_in_lem (p ∷ q ∷ ps) current first (suc i) d h =
    let apart = All-In (λ x. p ≢ x) d.0 (get_elem?-In (q ∷ ps) i h) in
    rw (ne_equal p current apart) (ground (arith, after_in_lem (q ∷ ps) current first i d.1 h))

get_elem?-lt : (xs : List PeerId) (i : ℕ) {x : PeerId} → get_elem? xs i ≡ some x → i < length xs
get_elem?-lt [] i h = absurd (cc)
get_elem?-lt (y ∷ xs) zero h = omega arith
get_elem?-lt (y ∷ xs) (suc i) h = omega (arith, get_elem?-lt xs i h)

-- In a list of distinct peers the peer at position i is followed by the one at (i + 1) mod n.
pub round_robin_after_lem :
    (peers : List PeerId) (current : PeerId) (i : ℕ)
    → Distinct peers
    → get_elem? peers i ≡ some current
    → round_robin_after current peers ≡ get_elem? peers ((i + 1) % length peers)
unfolding round_robin_after
round_robin_after_lem [] current i d h = absurd (cc)
round_robin_after_lem (p ∷ ps) current i d h =
    after_in_lem (p ∷ ps) current p i d h ∙ wrap (Bool-cases (ltb (i + 1) (length (p ∷ ps))))
  where
    wrap :
        (ltb (i + 1) (length (p ∷ ps)) ≡ true) ⊎ (ltb (i + 1) (length (p ∷ ps)) ≡ false)
        → (if ltb (i + 1) (length (p ∷ ps)) then get_elem? (p ∷ ps) (i + 1) else some p)
          ≡ get_elem? (p ∷ ps) ((i + 1) % length (p ∷ ps))
    wrap (inl y) = rw y (ap (get_elem? (p ∷ ps)) (sym (mod-eq_of_lt (ground arith))))
    wrap (inr n) =
        let last : i + 1 ≡ length (p ∷ ps) =
          omega (arith, get_elem?-lt (p ∷ ps) i h, not_ltb→le (i + 1) (length (p ∷ ps)) n) in
        rw n (rw last (rw mod_self))

after_in_self :
    (ps : List PeerId) (current first : PeerId)
    → Distinct ps
    → In current ps
    → after_in current first ps ≡ current
    → first ≡ current
unfolding after_in
after_in_self [] current first d m e = e
after_in_self (p ∷ []) current first d m e = e
after_in_self (p ∷ q ∷ ps) current first d m e = elim (Bool-cases (equal p current)) [
  | inl y ↦ absurd (d.0.0 ((equal_iff p current).0 y ∙ sym (rw y at e)))
  | inr n ↦ after_in_self (q ∷ ps) current first d.1 (later m n) (rw n at e)
]
  where
    later : In current (p ∷ q ∷ ps) → equal p current ≡ false → In current (q ∷ ps)
    later (here x) n = absurd (equal-false p current n x)
    later (there m) n = m

-- With two distinct peers or more, the turn passes on to somebody else.
pub round_robin_after-ne :
    (peers : List PeerId) (current : PeerId) {q : PeerId}
    → Distinct peers
    → 2 ≤ length peers
    → In current peers
    → round_robin_after current peers ≡ some q
    → q ≢ current
unfolding round_robin_after after_in
round_robin_after-ne [] current d l m h e = absurd (cc)
round_robin_after-ne (p ∷ []) current d l m h e = absurd (omega arith)
round_robin_after-ne (p ∷ r ∷ ps) current {q} d l m h e =
    let same = after_in_self (p ∷ r ∷ ps) current p d m (cc) in
    d.0.0 (same ∙ sym (ground (arith, equal_iff p current)))
