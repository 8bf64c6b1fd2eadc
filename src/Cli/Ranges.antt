-- ===== src/Cli/Ranges.antt =====
-- The numbers that an accepted `converse` runs with.
use vitis.Prelude.{
  ℕ, ◌*◌, ◌≤◌, ◌-◌, ◌/◌, ℤ, pos, negsuc, ltb_ℤ, Bool, true, false, not, ◌&&◌, ◌⊎◌, inl, inr, ◌≡◌,
  ◌≢◌, refl, arith, Bool-cases, sym, ap, ◌∙◌, subst, two63, wrap64,
}
use native.Mathlib.Nat.{mul-le-mul, mul_comm, le-div_iff_mul-le}
use vitis.Cli.Knobs.{
  Knobs, Refusal, or_refuse, is_outside, mul_int, overflows, overall_of, backends_of, check_pair,
  Pair, bad_overall, would_overflow, bad_max_turns, bad_per_turn, bad_bus, bad_backend, bad_style,
  bad_terminator, no_peers, no_seed, two_seeds, bad_opener,
}

or_refuse-inr :
    {A : Type 0} (fails : Bool) (e : Refusal) (rest : Refusal ⊎ A) (a : A)
    → or_refuse fails e rest ≡ inr a
    → (fails ≡ false) × (rest ≡ inr a)
or_refuse-inr true e rest a h = absurd (cc h)
or_refuse-inr false e rest a h = (refl, h)

inr-injective : {A : Type 0} {x y : A} → Path (Refusal ⊎ A) (inr x) (inr y) → x ≡ y
inr-injective h = cc h

is_outside-false :
    (most : ℕ) (n : ℤ) → is_outside most n ≡ false → (k : ℕ) × (n ≡ pos k) × (1 ≤ k) × (k ≤ most)
is_outside-false most (pos k) h = (k, refl, ground arith, ground arith)
is_outside-false most (negsuc k) h = absurd (ground arith)

product-le : (a b : ℕ) → a ≤ 500 → b ≤ 3600 → a * b ≤ 1800000
product-le a b h k = mul-le-mul h k

mul_int_small : (a b : ℕ) → a * b ≤ 1800000 → mul_int (pos a) (pos b) ≡ pos (a * b)
unfolding mul_int wrap64
mul_int_small a b h = ground arith

room : (a b : ℕ) → 1 ≤ a → a * b ≤ 1800000 → b ≤ (two63 - 1) / a
room a b h i = (le-div_iff_mul-le (omega arith)).1 (omega (arith, mul_comm a b))

overflows_small : (a b : ℕ) → 1 ≤ a → a * b ≤ 1800000 → overflows (pos a) (pos b) ≡ false
unfolding overflows
overflows_small a b h i = ground (arith, room a b h i)

zero_of : (n : ℤ) → (not (ltb_ℤ n (pos 0)) && not (ltb_ℤ (pos 0) n)) ≡ true → n ≡ pos 0
zero_of (pos n) h = ap pos (ground arith)
zero_of (negsuc n) h = absurd (ground arith)

-- The overall timeout `t` of `n` turns of at most `timeout` seconds, where `asked` was asked for.
unfoldable pub IsOverall : ℕ → ℕ → ℤ → ℤ → Type 0
IsOverall n timeout asked t =
    ((asked ≡ pos 0) × (t ≡ pos (n * timeout))) ⊎ ((t ≡ asked) × (ltb_ℤ (pos 86400) t ≡ false))

-- The numbers of an accepted `converse`.
pub record InRange (k : Knobs) (t : ℤ) : Type 0 where
  pub turns : ℕ
  pub timeout : ℕ
  pub same_turns : k.max_turns ≡ pos turns
  pub same_timeout : k.per_turn_timeout ≡ pos timeout
  pub some_turns : 1 ≤ turns
  pub few_turns : turns ≤ 500
  pub some_seconds : 1 ≤ timeout
  pub few_seconds : timeout ≤ 3600
  pub overall : IsOverall turns timeout k.overall_timeout t

module _ (turns timeout : ℕ) (few : turns * timeout ≤ 1800000) (asked t : ℤ) where
  overall_of-IsOverall :
      overall_of (pos turns) (pos timeout) asked ≡ inr t → IsOverall turns timeout asked t
  unfolding overall_of IsOverall
  overall_of-IsOverall h =
      let (allowed, chosen) = or_refuse-inr (ltb_ℤ (pos 86400) asked) bad_overall _ t h in
      elim (Bool-cases (not (ltb_ℤ asked (pos 0)) && not (ltb_ℤ (pos 0) asked))) [
        | inl z ↦
            let (_, product) =
              or_refuse-inr (overflows (pos turns) (pos timeout)) would_overflow _ t
                (rw z at chosen) in
            inl (zero_of asked z, sym (inr-injective product) ∙ mul_int_small turns timeout few)
        | inr n ↦
            let same : t ≡ asked = sym (inr-injective (rw n at chosen)) in
            inr (same, ap (ltb_ℤ (pos 86400)) same ∙ allowed)
      ]

backends_of-inr :
    {A : Type 0} (k : Knobs) (rest : Refusal ⊎ A) (a : A)
    → backends_of k rest ≡ inr a
    → rest ≡ inr a
unfolding backends_of
backends_of-inr k rest a h =
    let a1 = (or_refuse-inr _ bad_terminator _ a h).1 in
    let a2 = (or_refuse-inr _ bad_bus _ a a1).1 in
    let a3 = (or_refuse-inr _ bad_backend _ a a2).1 in (or_refuse-inr _ bad_style rest a a3).1

numbers-InRange :
    (k : Knobs) (t : ℤ)
    → is_outside 500 k.max_turns ≡ false
    → is_outside 3600 k.per_turn_timeout ≡ false
    → overall_of k.max_turns k.per_turn_timeout k.overall_timeout ≡ inr t
    → InRange k t
numbers-InRange k t h i o =
    let (n, same, some_turns, few_turns) = is_outside-false 500 k.max_turns h in
    let (s, same', some_seconds, few_seconds) = is_outside-false 3600 k.per_turn_timeout i in
    let o' : overall_of (pos n) (pos s) k.overall_timeout ≡ inr t =
      subst (λ x. overall_of x (pos s) k.overall_timeout ≡ inr t) same
        (subst (λ x. overall_of k.max_turns x k.overall_timeout ≡ inr t) same' o) in
    record {
      turns = n;
      timeout = s;
      same_turns = same;
      same_timeout = same';
      some_turns = some_turns;
      few_turns = few_turns;
      some_seconds = some_seconds;
      few_seconds = few_seconds;
      overall =
          overall_of-IsOverall n s (product-le n s few_turns few_seconds) k.overall_timeout t o';
    }

-- The two-peer mode runs with the same numbers.
pub check_pair-InRange : (p : Pair) (k : Knobs) (t : ℤ) → check_pair p k ≡ inr t → InRange k t
unfolding check_pair
check_pair-InRange p k t h =
    let h1 = (or_refuse-inr _ no_peers _ t h).1 in
    let h2 = (or_refuse-inr _ no_seed _ t h1).1 in
    let h3 = (or_refuse-inr _ two_seeds _ t h2).1 in
    let h4 = (or_refuse-inr _ bad_opener _ t h3).1 in
    let (turns, h5) = or_refuse-inr _ bad_max_turns _ t h4 in
    let (timeout, h6) = or_refuse-inr _ bad_per_turn _ t (backends_of-inr k _ t h5) in
    numbers-InRange k t turns timeout h6

-- Behind the other checks, the guard against an overflow refuses nothing.
overall_of-ne :
    (turns timeout : ℕ) (asked : ℤ)
    → 1 ≤ turns
    → turns ≤ 500
    → timeout ≤ 3600
    → overall_of (pos turns) (pos timeout) asked ≢ inl would_overflow
unfolding overall_of
overall_of-ne turns timeout asked some few short h =
    let none_over = overflows_small turns timeout some (product-le turns timeout few short) in
    elim (Bool-cases (ltb_ℤ (pos 86400) asked)) [
      | inl y ↦ absurd (cc (rw y at h))
      | inr n ↦ elim (Bool-cases (not (ltb_ℤ asked (pos 0)) && not (ltb_ℤ (pos 0) asked))) [
        | inl z ↦ absurd (cc (rw (n, z, none_over) at h))
        | inr m ↦ absurd (cc (rw (n, m) at h))
      ]
    ]
