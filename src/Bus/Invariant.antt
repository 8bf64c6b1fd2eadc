-- ===== src/Bus/Invariant.antt =====
-- inproc.go: the invariant of the bus between its operations.
use vitis.Prelude.{
  ℕ, suc, ◌≤◌, ◌<◌, true, false, List, [], ◌∷◌, ◌++◌, none, some, ◌≡◌, ◌⊎◌, inl, inr, refl, sym,
  ◌∙◌, ap, subst, arith, length, Bool-cases, ◌==◌, ==_iff, if◌then◌else◌,
}
use vitis.Text.{Text, equal}
use vitis.Text.Equal.{equal_iff}
use vitis.Bus.{BusMessage}
use vitis.Bus.Inproc.{
  Bus, Subscription, new, apply_options, with_buffer_size, subs_of, update, deliver, deliver_all,
  publish, subscribe, mem, err_publish_closed,
}
use vitis.Bus.Delivery.{Once, mem-false-append, subs_of-set_subs, deliver-le, deliver-closed}

-- The lists hold open subscriptions, once each; no buffer is over its size; a closed bus lists none.
pub record IsValid (b : Bus) : Type 0 where
  pub once : (t : Text) → Once (subs_of t b.subs)
  pub numbered : (t : Text) (n : ℕ) → mem n (subs_of t b.subs) ≡ true → n < b.fresh
  pub live : (t : Text) (n : ℕ) → mem n (subs_of t b.subs) ≡ true → (b.store n).closed ≡ false
  pub capped : (n : ℕ) → length (b.store n).buffered ≤ b.buffer_size
  pub emptied : b.closed ≡ true → (t : Text) → subs_of t b.subs ≡ []

apply_options-keeps :
    (opts : List ℕ) (b : Bus)
    → ((apply_options opts b).subs ≡ b.subs)
      × ((apply_options opts b).store ≡ b.store)
      × ((apply_options opts b).closed ≡ b.closed)
unfolding apply_options
apply_options-keeps [] b = (refl, refl, refl)
apply_options-keeps (n ∷ ns) b =
    let (s, t, c) = apply_options-keeps ns (with_buffer_size n b) in
    (s ∙ ground arith, t ∙ ground arith, c ∙ ground arith)

-- A new bus is well-formed.
pub new-IsValid : (opts : List ℕ) → IsValid (new opts)
unfolding new subs_of mem
new-IsValid opts =
    let (s, t, c) = apply_options-keeps opts _ in
    record {
      once = λ u. subst (λ x. Once (subs_of u x)) (sym s) tt;
      numbered = λ u n h. absurd (cc (ap (λ x. mem n (subs_of u x)) s, h));
      live = λ u n h. absurd (cc (ap (λ x. mem n (subs_of u x)) s, h));
      capped =
          λ n. subst (λ f. length (f n).buffered ≤ (new opts).buffer_size) (sym t) (omega arith);
      emptied = λ h u. absurd (cc (c, h));
    }

deliver_all-closed :
    (size : ℕ) (msg : BusMessage) (ids : List ℕ) (f : ℕ → Subscription) (n : ℕ)
    → (deliver_all size msg ids f n).closed ≡ (f n).closed
unfolding deliver_all
deliver_all-closed size msg [] f n = refl
deliver_all-closed size msg (i ∷ ids) f n =
    deliver_all-closed size msg ids _ n ∙ elim (Bool-cases (i == n)) [
      | inl y ↦ rw y (deliver-closed size msg (f i) ∙ ap (λ x. (f x).closed) ((==_iff i n).0 y))
      | inr m ↦ rw m
    ]

deliver_all-capped :
    (size : ℕ) (msg : BusMessage) (ids : List ℕ) (f : ℕ → Subscription)
    → ((n : ℕ) → length (f n).buffered ≤ size)
    → (n : ℕ) → length (deliver_all size msg ids f n).buffered ≤ size
unfolding deliver_all
deliver_all-capped size msg [] f h n = h n
deliver_all-capped size msg (i ∷ ids) f h n = deliver_all-capped size msg ids _ (λ k. one k) n
  where
    one : (k : ℕ) → length (update f i (deliver size msg (f i)) k).buffered ≤ size
    one k = elim (Bool-cases (i == k)) [
      | inl y ↦ rw y (deliver-le size msg (f i) (h i))
      | inr m ↦ rw m (h k)
    ]

-- A closed bus refuses to publish and to subscribe, and neither changes it.
pub publish_closed :
    (topic : Text) (msg : BusMessage) (b : Bus)
    → b.closed ≡ true
    → publish topic msg b ≡ (b, some err_publish_closed)
unfolding publish
publish_closed topic msg b h = simp h

pub subscribe_closed : (topic : Text) (b : Bus) → b.closed ≡ true → subscribe topic b ≡ (b, none)
unfolding subscribe
subscribe_closed topic b h = simp h

pub publish-IsValid :
    (topic : Text) (msg : BusMessage) (b : Bus) → IsValid b → IsValid (publish topic msg b).0
unfolding publish
publish-IsValid topic msg b v = elim (Bool-cases b.closed) [
  | inl y ↦ subst IsValid (sym (ap (λ x. x.0) (publish_closed topic msg b y))) v
  | inr n ↦
      rw (n, publish)
        (record {
          once = v.once;
          numbered = v.numbered;
          live = λ t k h.
              deliver_all-closed b.buffer_size msg (subs_of topic b.subs) b.store k ∙ v.live t k h;
          capped = deliver_all-capped b.buffer_size msg (subs_of topic b.subs) b.store v.capped;
          emptied = λ h. absurd (cc h);
        })
]

fresh_unlisted : (b : Bus) (t : Text) → IsValid b → mem b.fresh (subs_of t b.subs) ≡ false
fresh_unlisted b t v = elim (Bool-cases (mem b.fresh (subs_of t b.subs))) [
  | inl y ↦ absurd (omega (arith, v.numbered t b.fresh y))
  | inr n ↦ n
]

Once-concat : (is : List ℕ) (n : ℕ) → Once is → mem n is ≡ false → Once (is ++ n ∷ [])
unfolding mem
Once-concat [] n o h = (refl, tt)
Once-concat (i ∷ is) n o h =
    (mem-false-append i is (n ∷ []) o.0 (ground arith), Once-concat is n o.1 (ground arith))

mem-concat : (k n : ℕ) (is : List ℕ) → mem k (is ++ n ∷ []) ≡ true → (mem k is ≡ true) ⊎ (n ≡ k)
unfolding mem
mem-concat k n [] h = inr (ground arith)
mem-concat k n (i ∷ is) h = elim (Bool-cases (i == k)) [
  | inl y ↦ inl (rw y)
  | inr m ↦ elim (mem-concat k n is (rw m at h)) [ inl a ↦ inl (rw m a) | inr e ↦ inr e ]
]

module _ (topic : Text) (b : Bus) (v : IsValid b) (open_ : b.closed ≡ false) where
  -- What the subscriber's list holds, and the others.
  listed :
      (t : Text)
      → subs_of t (subscribe topic b).0.subs
        ≡ (if equal topic t then subs_of topic b.subs ++ b.fresh ∷ [] else subs_of t b.subs)
  unfolding subscribe
  listed t = rw open_ (subs_of-set_subs topic t (subs_of topic b.subs ++ b.fresh ∷ []) b.subs)

  subscribe-Once : (t : Text) → Once (subs_of t (subscribe topic b).0.subs)
  subscribe-Once t = rw (listed t) (elim (Bool-cases (equal topic t)) [
    | inl y ↦
        rw y (Once-concat (subs_of topic b.subs) b.fresh (v.once topic) (fresh_unlisted b topic v))
    | inr n ↦ rw n (v.once t)
  ])

  subscribe-listed :
      (t : Text) (n : ℕ)
      → mem n (subs_of t (subscribe topic b).0.subs) ≡ true
      → (mem n (subs_of t b.subs) ≡ true) ⊎ (b.fresh ≡ n)
  subscribe-listed t n h = elim (Bool-cases (equal topic t)) [
    | inl y ↦ elim (mem-concat n b.fresh (subs_of topic b.subs) (rw y at (rw (listed t) at h))) [
      | inl a ↦ inl (subst (λ x. mem n (subs_of x b.subs) ≡ true) ((equal_iff topic t).0 y) a)
      | inr e ↦ inr e
    ]
    | inr m ↦ inl (rw m at (rw (listed t) at h))
  ]

  subscribe-fresh : (subscribe topic b).0.fresh ≡ suc b.fresh
  unfolding subscribe
  subscribe-fresh = rw open_

  subscribe-store :
      (n : ℕ)
      → (subscribe topic b).0.store n
        ≡ update b.store b.fresh (record { buffered = []; closed = false }) n
  unfolding subscribe
  subscribe-store n = rw open_

  subscribe-rest :
      ((subscribe topic b).0.closed ≡ false) × ((subscribe topic b).0.buffer_size ≡ b.buffer_size)
  unfolding subscribe
  subscribe-rest = ground arith

  pub subscribe-IsValid : IsValid (subscribe topic b).0
  subscribe-IsValid = record {
    once = subscribe-Once;
    numbered = λ t n h. rw subscribe-fresh (elim (subscribe-listed t n h) [
      | inl a ↦ omega (arith, v.numbered t n a)
      | inr e ↦ omega arith
    ]);
    live = λ t n h. ap (λ s. s.closed) (subscribe-store n) ∙ elim (subscribe-listed t n h) [
      | inl a ↦ ground (arith, v.live t n a)
      | inr e ↦ ground arith
    ];
    capped = λ n. rw (subscribe-rest.1) (rw (subscribe-store n) (ground (arith, v.capped n)));
    emptied = λ h t. absurd (cc (h, subscribe-rest.0));
  }
