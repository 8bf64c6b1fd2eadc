-- ===== src/Bus/Closing.antt =====
-- inproc.go: the invariant of the bus, `Close` and receives; what `Close` leaves behind.
use vitis.Prelude.{
  ℕ, ◌≤◌, true, false, List, [], ◌∷◌, none, some, ◌≡◌, inl, inr, refl, sym, ◌∙◌, ap, subst, arith,
  length, Bool-cases, ◌==◌, ==_iff, if◌then◌else◌,
}
use vitis.Text.{Text, equal}
use vitis.Bus.{BusMessage}
use vitis.Bus.Inproc.{
  Bus, Subscription, subs_of, publish, subscribe, mem, close_all, close_topics, close, receive,
  rest_of, err_publish_closed,
}
use vitis.Bus.Invariant.{IsValid, publish_closed, subscribe_closed}

-- The state of a subscription after `close` of the listed ones: its buffer is as it was, and it is
-- closed if it is listed.
close_all-closed :
    (ids : List ℕ) (f : ℕ → Subscription) (n : ℕ)
    → (close_all ids f n).closed ≡ (if mem n ids then true else (f n).closed)
unfolding close_all mem
close_all-closed [] f n = refl
close_all-closed (i ∷ ids) f n = elim (Bool-cases (i == n)) [
  | inl y ↦ rw y (
      close_all-closed ids _ n
      ∙ rw y (elim (Bool-cases (mem n ids)) [ inl a ↦ rw a | inr a ↦ rw a ]))
  | inr m ↦ rw m (close_all-closed ids _ n ∙ rw m)
]

close_all-buffered :
    (ids : List ℕ) (f : ℕ → Subscription) (n : ℕ) → (close_all ids f n).buffered ≡ (f n).buffered
unfolding close_all
close_all-buffered [] f n = refl
close_all-buffered (i ∷ ids) f n = close_all-buffered ids _ n ∙ elim (Bool-cases (i == n)) [
  | inl y ↦ rw y (ap (λ x. (f x).buffered) ((==_iff i n).0 y))
  | inr m ↦ rw m
]

close_topics-buffered :
    (m : List (Text × List ℕ)) (f : ℕ → Subscription) (n : ℕ)
    → (close_topics m f n).buffered ≡ (f n).buffered
unfolding close_topics
close_topics-buffered [] f n = refl
close_topics-buffered ((k, ids) ∷ m) f n = close_topics-buffered m _ n ∙ close_all-buffered ids f n

close_topics-stays :
    (m : List (Text × List ℕ)) (f : ℕ → Subscription) (n : ℕ)
    → (f n).closed ≡ true
    → (close_topics m f n).closed ≡ true
unfolding close_topics
close_topics-stays [] f n h = h
close_topics-stays ((k, ids) ∷ m) f n h =
    close_topics-stays m _ n
      (close_all-closed ids f n ∙ elim (Bool-cases (mem n ids)) [ inl y ↦ rw y | inr m ↦ rw m h ])

close_topics-closed :
    (m : List (Text × List ℕ)) (f : ℕ → Subscription) (t : Text) (n : ℕ)
    → mem n (subs_of t m) ≡ true
    → (close_topics m f n).closed ≡ true
unfolding close_topics subs_of mem
close_topics-closed [] f t n h = absurd (cc)
close_topics-closed ((k, ids) ∷ m) f t n h = elim (Bool-cases (equal k t)) [
  | inl y ↦ close_topics-stays m _ n (close_all-closed ids f n ∙ rw (rw y at h))
  | inr d ↦ close_topics-closed m _ t n (rw d at h)
]

close_store :
    (b : Bus) → b.closed ≡ false → (n : ℕ) → (close b).store n ≡ close_topics b.subs b.store n
unfolding close
close_store b h n = rw h

closed-close : (b : Bus) → b.closed ≡ false → (close b).closed ≡ true
unfolding close
closed-close b h = rw h

close_closed : (b : Bus) → b.closed ≡ true → close b ≡ b
unfolding close
close_closed b h = simp h

pub close-IsValid : (b : Bus) → IsValid b → IsValid (close b)
unfolding close subs_of mem
close-IsValid b v = elim (Bool-cases b.closed) [
  | inl y ↦ subst IsValid (sym (close_closed b y)) v
  | inr n ↦
      rw (n, close)
        (record {
          once = λ t. tt;
          numbered = λ t k h. absurd (cc h);
          live = λ t k h. absurd (cc h);
          capped = λ k.
              subst (λ x. length x ≤ b.buffer_size) (sym (close_topics-buffered b.subs b.store k))
                (v.capped k);
          emptied = λ h t. refl;
        })
]

rest_of-le : (ms : List BusMessage) (n : ℕ) → length ms ≤ n → length (rest_of ms) ≤ n
rest_of-le [] n h = h
rest_of-le (m ∷ ms) n h = omega arith

pub receive-IsValid : (n : ℕ) (b : Bus) → IsValid b → IsValid (receive n b).0
unfolding receive
receive-IsValid n b v = record {
  once = v.once;
  numbered = v.numbered;
  live = λ t k h. elim (Bool-cases (n == k)) [
    | inl y ↦ rw y (ap (λ x. (b.store x).closed) ((==_iff n k).0 y) ∙ v.live t k h)
    | inr m ↦ rw m (v.live t k h)
  ];
  capped = λ k. elim (Bool-cases (n == k)) [
    | inl y ↦ rw y (rest_of-le (b.store n).buffered b.buffer_size (v.capped n))
    | inr m ↦ rw m (v.capped k)
  ];
  emptied = v.emptied;
}

-- `Close` on an open bus closes each listed subscription, loses nothing that is buffered, and refuses
-- what comes after; a second `Close` changes nothing.
pub close_lem :
    (b : Bus) (t topic : Text) (n k : ℕ) (msg : BusMessage)
    → b.closed ≡ false
    → mem n (subs_of t b.subs) ≡ true
    → (((close b).store n).closed ≡ true)
      × (((close b).store k).buffered ≡ (b.store k).buffered)
      × (publish topic msg (close b) ≡ (close b, some err_publish_closed))
      × (subscribe topic (close b) ≡ (close b, none))
      × (close (close b) ≡ close b)
close_lem b t topic n k msg h listed =
    let is_closed = closed-close b h in
    (
      rw (close_store b h n) (close_topics-closed b.subs b.store t n listed),
      rw (close_store b h k) (close_topics-buffered b.subs b.store k),
      publish_closed topic msg (close b) is_closed,
      subscribe_closed topic (close b) is_closed,
      close_closed (close b) is_closed,
    )
