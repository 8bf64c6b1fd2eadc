-- ===== src/Bus/Delivery.antt =====
-- inproc.go: who gets a message, in which order, and when it is dropped.
use vitis.Prelude.{
  ℕ, zero, suc, ◌≤◌, true, false, List, [], ◌∷◌, ◌++◌, ◌≡◌, inl, inr, refl, sym, ◌∙◌, ap, ap₂,
  subst, take, append-nil, append_assoc, not_ltb→le, arith, length, length-append, Bool-cases, ◌==◌,
  ==_iff, ltb, if◌then◌else◌,
}
use vitis.Text.{Text, equal}
use vitis.Text.Equal.{equal_iff, equal_refl}
use vitis.Bus.{BusMessage}
use vitis.Bus.Inproc.{
  Bus, Subscription, subs_of, set_subs, deliver, deliver_all, close_subscription, publish, remove,
  mem, cancel,
}

-- No number stands twice.
abbrev pub Once : List ℕ → Type 0
Once [] = Unit
Once (i ∷ is) = (mem i is ≡ false) × Once is

deliver_all-skip :
    (size : ℕ) (msg : BusMessage) (ids : List ℕ) (f : ℕ → Subscription) (n : ℕ)
    → mem n ids ≡ false
    → deliver_all size msg ids f n ≡ f n
unfolding deliver_all mem
deliver_all-skip size msg [] f n h = refl
deliver_all-skip size msg (i ∷ ids) f n h = elim (Bool-cases (i == n)) [
  | inl y ↦ absurd (cc (rw y at h))
  | inr m ↦ deliver_all-skip size msg ids _ n (rw m at h) ∙ rw m
]

deliver_all-Once :
    (size : ℕ) (msg : BusMessage) (ids : List ℕ) (f : ℕ → Subscription) (n : ℕ)
    → Once ids
    → mem n ids ≡ true
    → deliver_all size msg ids f n ≡ deliver size msg (f n)
unfolding deliver_all mem
deliver_all-Once size msg [] f n o h = absurd (cc)
deliver_all-Once size msg (i ∷ ids) f n o h = elim (Bool-cases (i == n)) [
  | inl y ↦
      let same : i ≡ n = (==_iff i n).0 y in
      deliver_all-skip size msg ids _ n (subst (λ x. mem x ids ≡ false) same o.0)
      ∙ rw y (ap (λ x. deliver size msg (f x)) same)
  | inr m ↦ deliver_all-Once size msg ids _ n o.1 (rw m at h) ∙ rw m
]

-- A message on an open bus reaches each subscription of its topic once, behind what is buffered
-- there, unless that is closed or full; every other subscription is left as it is.
pub publish-deliver :
    (topic : Text) (msg : BusMessage) (b : Bus) (n : ℕ)
    → b.closed ≡ false
    → Once (subs_of topic b.subs)
    → (publish topic msg b).0.store n
      ≡ (if mem n (subs_of topic b.subs) then deliver b.buffer_size msg (b.store n) else b.store n)
unfolding publish
publish-deliver topic msg b n open_ o = rw open_ (elim (Bool-cases (mem n (subs_of topic b.subs))) [
  | inl y ↦ rw y (deliver_all-Once b.buffer_size msg (subs_of topic b.subs) b.store n o y)
  | inr m ↦ rw m (deliver_all-skip b.buffer_size msg (subs_of topic b.subs) b.store n m)
])

pub subs_of-set_subs :
    (t u : Text) (ids : List ℕ) (m : List (Text × List ℕ))
    → subs_of u (set_subs t ids m) ≡ (if equal t u then ids else subs_of u m)
unfolding subs_of set_subs
subs_of-set_subs t u ids [] = refl
subs_of-set_subs t u ids ((k, js) ∷ m) =
    ground (arith, equal_iff k t, equal_iff t u, equal_iff k u, subs_of-set_subs t u ids m)

pub mem-append : (n : ℕ) (is js : List ℕ) → mem n js ≡ true → mem n (is ++ js) ≡ true
unfolding mem
mem-append n [] js h = h
mem-append n (i ∷ is) js h = ground (arith, mem-append n is js)

pub mem_one : (n : ℕ) → mem n (n ∷ []) ≡ true
unfolding mem
mem_one n = ground arith

pub mem-false-append :
    (n : ℕ) (is js : List ℕ) → mem n is ≡ false → mem n js ≡ false → mem n (is ++ js) ≡ false
unfolding mem
mem-false-append n [] js h k = k
mem-false-append n (i ∷ is) js h k = ground (arith, mem-false-append n is js)

pub remove-mem : (n : ℕ) (is : List ℕ) → Once is → mem n (remove n is) ≡ false
unfolding mem remove
remove-mem n [] o = refl
remove-mem n (i ∷ is) o = elim (Bool-cases (i == n)) [
  | inl y ↦ rw y (subst (λ x. mem x is ≡ false) ((==_iff i n).0 y) o.0)
  | inr m ↦ rw m (rw m (remove-mem n is o.1))
]

pub remove-mem_other : (n k : ℕ) (is : List ℕ) → mem k is ≡ false → mem k (remove n is) ≡ false
unfolding mem remove
remove-mem_other n k [] h = refl
remove-mem_other n k (i ∷ is) h = ground (arith, remove-mem_other n k is)

pub remove-Once : (n : ℕ) (is : List ℕ) → Once is → Once (remove n is)
unfolding remove
remove-Once n [] o = tt
remove-Once n (i ∷ is) o = elim (Bool-cases (i == n)) [
  | inl y ↦ rw y o.1
  | inr m ↦ rw m (remove-mem_other n i is o.0, remove-Once n is o.1)
]

publish-skip :
    (topic : Text) (msg : BusMessage) (b : Bus) (n : ℕ)
    → mem n (subs_of topic b.subs) ≡ false
    → (publish topic msg b).0.store n ≡ b.store n
unfolding publish
publish-skip topic msg b n h = elim (Bool-cases b.closed) [
  | inl y ↦ rw y
  | inr m ↦ rw m (deliver_all-skip b.buffer_size msg (subs_of topic b.subs) b.store n h)
]

cancel-mem :
    (topic : Text) (n : ℕ) (b : Bus)
    → Once (subs_of topic b.subs)
    → mem n (subs_of topic (cancel topic n b).subs) ≡ false
unfolding cancel
cancel-mem topic n b o = elim (Bool-cases (mem n (subs_of topic b.subs))) [
  | inl y ↦ rw y (rw subs_of-set_subs (rw equal_refl (remove-mem n (subs_of topic b.subs) o)))
  | inr m ↦ rw m m
]

cancel-store :
    (topic : Text) (n : ℕ) (b : Bus) → (cancel topic n b).store n ≡ close_subscription (b.store n)
unfolding cancel
cancel-store topic n b = ground arith

-- After its cancel a subscription is closed, and no later message on its topic reaches it.
pub cancel-publish :
    (topic : Text) (n : ℕ) (msg : BusMessage) (b : Bus)
    → Once (subs_of topic b.subs)
    → (publish topic msg (cancel topic n b)).0.store n ≡ close_subscription (b.store n)
cancel-publish topic n msg b o =
    publish-skip topic msg (cancel topic n b) n (cancel-mem topic n b o) ∙ cancel-store topic n b

-- The messages, published one after the other.
unfoldable pub publish_each : Text → List BusMessage → Bus → Bus
publish_each topic [] b = b
publish_each topic (m ∷ ms) b = publish_each topic ms (publish topic m b).0

take-all : (size : ℕ) (xs : List BusMessage) → length xs ≤ size → take size xs ≡ xs
take-all zero [] h = refl
take-all zero (x ∷ xs) h = absurd (omega arith)
take-all (suc n) [] h = refl
take-all (suc n) (x ∷ xs) h = ap (◌∷◌ x) (take-all n xs (omega arith))

take-full : (size : ℕ) (xs ys : List BusMessage) → length xs ≡ size → take size (xs ++ ys) ≡ xs
take-full zero [] ys h = refl
take-full zero (x ∷ xs) ys h = absurd (omega arith)
take-full (suc n) [] ys h = absurd (omega arith)
take-full (suc n) (x ∷ xs) ys h = ap (◌∷◌ x) (take-full n xs ys (omega arith))

take-deliver :
    (size : ℕ) (s : Subscription) (m : BusMessage) (ms : List BusMessage)
    → s.closed ≡ false
    → length s.buffered ≤ size
    → take size ((deliver size m s).buffered ++ ms) ≡ take size (s.buffered ++ (m ∷ ms))
unfolding deliver
take-deliver size s m ms c h = rw c (elim (Bool-cases (ltb (length s.buffered) size)) [
  | inl y ↦ rw y (ap (take size) append_assoc_one)
  | inr n ↦
      let full : length s.buffered ≡ size = omega (arith, not_ltb→le (length s.buffered) size n) in
      rw n (take-full size s.buffered ms full ∙ sym (take-full size s.buffered (m ∷ ms) full))
])
  where
    append_assoc_one : (s.buffered ++ m ∷ []) ++ ms ≡ s.buffered ++ (m ∷ ms)
    append_assoc_one = rw append_assoc

pub deliver-le :
    (size : ℕ) (m : BusMessage) (s : Subscription)
    → length s.buffered ≤ size
    → length (deliver size m s).buffered ≤ size
unfolding deliver
deliver-le size m s h = ground (arith, length-append s.buffered (m ∷ []))

pub deliver-closed :
    (size : ℕ) (m : BusMessage) (s : Subscription) → (deliver size m s).closed ≡ s.closed
unfolding deliver
deliver-closed size m s = ground arith

-- Publishing writes to the subscriptions alone.
pub publish-keeps :
    (topic : Text) (m : BusMessage) (b : Bus)
    → ((publish topic m b).0.subs ≡ b.subs)
      × ((publish topic m b).0.closed ≡ b.closed)
      × ((publish topic m b).0.buffer_size ≡ b.buffer_size)
      × ((publish topic m b).0.fresh ≡ b.fresh)
unfolding publish
publish-keeps topic m b = ground arith

-- A subscriber that does not read finds the messages of its topic in the order in which they were
-- published, the first of them up to the size of its buffer; what comes later is dropped.
pub publish_each-take :
    (topic : Text) (ms : List BusMessage) (b : Bus) (n : ℕ)
    → b.closed ≡ false
    → Once (subs_of topic b.subs)
    → mem n (subs_of topic b.subs) ≡ true
    → (b.store n).closed ≡ false
    → length (b.store n).buffered ≤ b.buffer_size
    → ((publish_each topic ms b).store n).buffered ≡ take b.buffer_size ((b.store n).buffered ++ ms)
unfolding publish_each
publish_each-take topic [] b n c o i d h =
    sym (rw append-nil (take-all b.buffer_size (b.store n).buffered h))
publish_each-take topic (m ∷ ms) b n c o i d h =
    let got : (publish topic m b).0.store n ≡ deliver b.buffer_size m (b.store n) =
      publish-deliver topic m b n c o ∙ rw i in
    let (ks, kc, kb, kf) = publish-keeps topic m b in
    publish_each-take topic ms (publish topic m b).0 n (kc ∙ c)
      (subst (λ x. Once (subs_of topic x)) (sym ks) o) (ap (λ x. mem n (subs_of topic x)) ks ∙ i)
      (ap (λ s. s.closed) got ∙ deliver-closed b.buffer_size m (b.store n) ∙ d)
      (subst (λ k. length ((publish topic m b).0.store n).buffered ≤ k) (sym kb)
        (subst (λ s. length s.buffered ≤ b.buffer_size) (sym got)
          (deliver-le b.buffer_size m (b.store n) h)))
    ∙ ap₂ (λ k s. take k (s.buffered ++ ms)) kb got
    ∙ take-deliver b.buffer_size (b.store n) m ms d h
