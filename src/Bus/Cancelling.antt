-- ===== src/Bus/Cancelling.antt =====
-- inproc.go: the invariant of the bus and the cancel function of a subscription.
use vitis.Prelude.{
  true-ne-false, ℕ, ◌≤◌, true, false, List, [], ◌∷◌, ◌≡◌, ◌≢◌, inl, inr, refl, sym, ◌∙◌, subst,
  arith, length, Bool-cases, ◌==◌, ==_iff, if◌then◌else◌,
}
use vitis.Text.{Text, equal}
use vitis.Text.Equal.{equal_iff, equal-false}
use vitis.Bus.Inproc.{Bus, subs_of, update, close_subscription, remove, mem, cancel}
use vitis.Bus.Delivery.{Once, remove-Once, remove-mem, subs_of-set_subs}
use vitis.Bus.Invariant.{IsValid}

remove-mem_of : (n k : ℕ) (is : List ℕ) → mem k (remove n is) ≡ true → mem k is ≡ true
unfolding mem remove
remove-mem_of n k [] h = h
remove-mem_of n k (i ∷ is) h = ground (arith, remove-mem_of n k is)

-- `n` was made by a `Subscribe` on `topic`: no other topic lists it.
abbrev pub IsHandle : Text → ℕ → Bus → Type 0
IsHandle topic n b = (t : Text) → topic ≢ t → mem n (subs_of t b.subs) ≡ false

module _ (topic : Text) (n : ℕ) (b : Bus) (v : IsValid b) where
  cancel-subs :
      (t : Text)
      → subs_of t (cancel topic n b).subs ≡ (
          if mem n (subs_of topic b.subs)
          then (if equal topic t then remove n (subs_of topic b.subs) else subs_of t b.subs)
          else subs_of t b.subs)
  unfolding cancel
  cancel-subs t = elim (Bool-cases (mem n (subs_of topic b.subs))) [
    | inl y ↦ rw y (subs_of-set_subs topic t (remove n (subs_of topic b.subs)) b.subs)
    | inr m ↦ rw m
  ]

  cancel-Once : (t : Text) → Once (subs_of t (cancel topic n b).subs)
  cancel-Once t = rw (cancel-subs t) (elim (Bool-cases (mem n (subs_of topic b.subs))) [
    | inr m ↦ rw m (v.once t)
    | inl y ↦ rw y (elim (Bool-cases (equal topic t)) [
      | inl z ↦ rw z (remove-Once n (subs_of topic b.subs) (v.once topic))
      | inr m ↦ rw m (v.once t)
    ])
  ])

  cancel-listed :
      (t : Text) (k : ℕ)
      → mem k (subs_of t (cancel topic n b).subs) ≡ true
      → mem k (subs_of t b.subs) ≡ true
  cancel-listed t k h = elim (Bool-cases (mem n (subs_of topic b.subs))) [
    | inr m ↦ rw m at (rw (cancel-subs t) at h)
    | inl y ↦ elim (Bool-cases (equal topic t)) [
      | inl z ↦
          subst (λ x. mem k (subs_of x b.subs) ≡ true) ((equal_iff topic t).0 z)
            (remove-mem_of n k (subs_of topic b.subs) (rw z at (rw y at (rw (cancel-subs t) at h))))
      | inr m ↦ rw m at (rw y at (rw (cancel-subs t) at h))
    ]
  ]

  -- The cancelled subscription is listed nowhere.
  cancel-unlisted :
      IsHandle topic n b → (t : Text) → mem n (subs_of t (cancel topic n b).subs) ≡ false
  cancel-unlisted own t = elim (Bool-cases (equal topic t)) [
    | inr m ↦ elim (Bool-cases (mem n (subs_of t (cancel topic n b).subs))) [
      | inl y ↦ absurd (true-ne-false (sym (cancel-listed t n y) ∙ own t (equal-false topic t m)))
      | inr k ↦ k
    ]
    | inl z ↦ rw (cancel-subs t) (elim (Bool-cases (mem n (subs_of topic b.subs))) [
      | inl y ↦ rw (y, z) (remove-mem n (subs_of topic b.subs) (v.once topic))
      | inr m ↦ rw m (subst (λ x. mem n (subs_of x b.subs) ≡ false) ((equal_iff topic t).0 z) m)
    ])
  ]

  cancel-store :
      (k : ℕ) → (cancel topic n b).store k ≡ update b.store n (close_subscription (b.store n)) k
  unfolding cancel
  cancel-store k = refl

  cancel-rest :
      ((cancel topic n b).closed ≡ b.closed)
      × ((cancel topic n b).buffer_size ≡ b.buffer_size)
      × ((cancel topic n b).fresh ≡ b.fresh)
  unfolding cancel
  cancel-rest = (refl, refl, refl)

  cancel-live :
      IsHandle topic n b
      → (t : Text) (k : ℕ) → mem k (subs_of t (cancel topic n b).subs) ≡ true
      → ((cancel topic n b).store k).closed ≡ false
  cancel-live own t k h = rw (cancel-store k) (elim (Bool-cases (n == k)) [
    | inl y ↦ absurd (
        true-ne-false (
          sym h
          ∙ subst (λ x. mem x (subs_of t (cancel topic n b).subs) ≡ false) ((==_iff n k).0 y)
              (cancel-unlisted own t)))
    | inr m ↦ rw m (v.live t k (cancel-listed t k h))
  ])

  cancel-capped :
      (k : ℕ) → length ((cancel topic n b).store k).buffered ≤ (cancel topic n b).buffer_size
  unfolding close_subscription
  cancel-capped k = rw (cancel-store k) (
      rw (cancel-rest.1)
        (elim (Bool-cases (n == k)) [ inl y ↦ rw y (v.capped n) | inr m ↦ rw m (v.capped k) ]))

  pub cancel-IsValid : IsHandle topic n b → IsValid (cancel topic n b)
  unfolding mem remove
  cancel-IsValid own = record {
    once = cancel-Once;
    numbered = λ t k h. rw (cancel-rest.2) (v.numbered t k (cancel-listed t k h));
    live = cancel-live own;
    capped = cancel-capped;
    emptied = λ h t. rw (cancel-subs t) (empty_lists t (v.emptied (sym cancel-rest.0 ∙ h)));
  }
    where
      empty_lists :
          (t : Text)
          → ((u : Text) → subs_of u b.subs ≡ [])
          → (if mem n (subs_of topic b.subs)
              then (if equal topic t then remove n (subs_of topic b.subs) else subs_of t b.subs)
              else subs_of t b.subs)
            ≡ []
      empty_lists t e = simp (e topic, e t, mem, remove)
