-- ===== src/Bus/Reach.antt =====
-- inproc.go: the buses that a program can come to.
use vitis.Prelude.{ℕ, List, inl, inr, Bool-cases, subst, sym, ap}
use vitis.Text.{Text}
use vitis.Bus.{BusMessage}
use vitis.Bus.Inproc.{Bus, new, publish, subscribe, cancel, close, receive}
use vitis.Bus.Invariant.{IsValid, new-IsValid, publish-IsValid, subscribe-IsValid, subscribe_closed}
use vitis.Bus.Cancelling.{IsHandle, cancel-IsValid}
use vitis.Bus.Closing.{close-IsValid, receive-IsValid}

-- One operation, by anyone; the locks make it atomic.
pub data Step (b : Bus) : Bus → Type 0 where
  publishes : (topic : Text) (msg : BusMessage) → Step b (publish topic msg b).0
  subscribes : (topic : Text) → Step b (subscribe topic b).0
  cancels : (topic : Text) (n : ℕ) → IsHandle topic n b → Step b (cancel topic n b)
  closes : Step b (close b)
  receives : (n : ℕ) → Step b (receive n b).0

pub data Reach (opts : List ℕ) : Bus → Type 0 where
  made : Reach opts (new opts)
  stepped : {b c : Bus} → Reach opts b → Step b c → Reach opts c

Step-IsValid : {b c : Bus} → Step b c → IsValid b → IsValid c
Step-IsValid {b} (publishes topic msg) v = publish-IsValid topic msg b v
Step-IsValid {b} (subscribes topic) v = elim (Bool-cases b.closed) [
  | inl y ↦ subst IsValid (sym (ap (λ x. x.0) (subscribe_closed topic b y))) v
  | inr n ↦ subscribe-IsValid topic b v n
]
Step-IsValid {b} (cancels topic n own) v = cancel-IsValid topic n b v own
Step-IsValid {b} closes v = close-IsValid b v
Step-IsValid {b} (receives n) v = receive-IsValid n b v

-- In every order of publishing, subscribing, cancelling, receiving and closing, each subscription is
-- listed once and is open while it is listed, no buffer grows over its size, and a closed bus lists
-- nothing. A cancel gives up a subscription that only its own topic lists.
pub Reach-IsValid : {opts : List ℕ} {b : Bus} → Reach opts b → IsValid b
Reach-IsValid {opts} made = new-IsValid opts
Reach-IsValid (stepped r s) = Step-IsValid s (Reach-IsValid r)
