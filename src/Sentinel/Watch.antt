-- ===== src/Sentinel/Watch.antt =====
-- sentinel.go: `loop`, the subscriber on the turns. What its select yields is a list of events; the
-- JSON coding of turns and control messages is an argument. `Start` and `Stop` are `start`, `stop`.
use vitis.Prelude.{
  true-ne-false, ℕ, suc, true, List, [], ◌∷◌, Option, none, some, ◌≡◌, ◌≢◌, ◌⊎◌, inl, inr, refl,
  sym, ◌∙◌, ap, length, Bool-cases, Option-cases, if◌then◌else◌,
}
use vitis.Text.{Text, codes}
use vitis.Model.Conversation.{
  ConversationStatus, ConversationTurn, Verdict, terminate, completed_sentinel,
}
use vitis.Bus.{BusMessage, ControlMsg, control, topic_control, verdict}
use vitis.Sentinel.{contains_on_own_line, strip_sentinel, token_or_default}
use vitis.Sentinel.Strip.{strip_sentinel-clean, strip_sentinel_unchanged}

-- What one select yields: the context's end, the closed channel, or a message; `at` is the clock
-- when a verdict on it is published.
pub data WatchEvent : Type 0 where
  cancelled closed : WatchEvent
  received : BusMessage → ℕ → WatchEvent

abbrev pub verdict_on : Text → Verdict
verdict_on conversation_id = record {
  conversation_id = conversation_id;
  decision = terminate;
  reason = codes "sentinel token observed";
  status = completed_sentinel;
}

abbrev pub verdict_msg : Text → ControlMsg
verdict_msg conversation_id = record {
  conversation_id = conversation_id;
  kind = verdict;
  slot = [];
  reason = [];
  status = ConversationStatus.other [];
  detail = [];
  verdict_of = some (verdict_on conversation_id);
}

module _ (unmarshal_turn : Text → Option ConversationTurn)
    (marshal_control : ControlMsg → Option Text) where
  abbrev announce : Text → ℕ → Option Text → List BusMessage → List BusMessage
  announce id at none rest = rest
  announce id at (some payload) rest =
      record {
        conversation_id = id;
        topic = topic_control id;
        kind = control;
        payload = payload;
        timestamp = at;
      }
      ∷ rest

  abbrev judge : Text → Text → ℕ → Option ConversationTurn → List BusMessage → List BusMessage
  judge id token at none rest = rest
  judge id token at (some t) rest =
      if contains_on_own_line t.response token
      then announce id at (marshal_control (verdict_msg id)) rest
      else rest

  -- The messages that `loop` publishes on the control topic.
  unfoldable pub watch : Text → Text → List WatchEvent → List BusMessage
  unfolding contains_on_own_line topic_control
  watch id token [] = []
  watch id token (cancelled ∷ events) = []
  watch id token (closed ∷ events) = []
  watch id token (received m at ∷ events) =
      judge id token at (unmarshal_turn m.payload) (watch id token events)

  -- The turn of a message stands between others, is decoded, and carries the token alone on a line.
  abbrev pub Carries : Text → BusMessage → Type 0
  Carries token m =
      (t : ConversationTurn) × (unmarshal_turn m.payload ≡ some t)
      × (contains_on_own_line t.response token ≡ true)

  abbrev pub AllCarry : Text → List (BusMessage × ℕ) → Type 0
  AllCarry token [] = Unit
  AllCarry token ((m, at) ∷ ms) = Carries token m × AllCarry token ms

  abbrev pub events_of : List (BusMessage × ℕ) → List WatchEvent
  events_of [] = []
  events_of ((m, at) ∷ ms) = received m at ∷ events_of ms

  -- The loop publishes a verdict for every turn that carries the token, and not for the first alone.
  pub length-watch :
      (id token : Text) (ms : List (BusMessage × ℕ)) {payload : Text}
      → marshal_control (verdict_msg id) ≡ some payload
      → AllCarry token ms
      → length (watch id token (events_of ms)) ≡ length ms
  unfolding watch
  length-watch id token [] e all = refl
  length-watch id token ((m, at) ∷ ms) e ((t, u, c), all) =
      rw (u, judge) (rw (c, e) (ap suc (length-watch id token ms e all)))

  -- For a turn that it decodes, the loop publishes a verdict exactly if the broker would cut the
  -- response before it passes it on.
  pub watch-strip_sentinel :
      (id token : Text) (m : BusMessage) (at : ℕ) (events : List WatchEvent) {t : ConversationTurn}
      {payload : Text}
      → unmarshal_turn m.payload ≡ some t
      → marshal_control (verdict_msg id) ≡ some payload
      → (strip_sentinel t.response token ≡ t.response
          × (watch id (token_or_default token) (received m at ∷ events)
              ≡ watch id (token_or_default token) events))
        ⊎ ((strip_sentinel t.response token ≢ t.response)
            × (length (watch id (token_or_default token) (received m at ∷ events))
                ≡ suc (length (watch id (token_or_default token) events))))
  unfolding watch
  watch-strip_sentinel id token m at events {t} u e =
      elim (Bool-cases (contains_on_own_line t.response (token_or_default token))) [
        | inl y ↦ inr (
          (λ same. true-ne-false (
              sym y
              ∙ ap (λ r. contains_on_own_line r (token_or_default token)) (sym same)
              ∙ strip_sentinel-clean t.response token)),
          rw (u, judge) (rw (y, e)),
        )
        | inr n ↦ inl (strip_sentinel_unchanged t.response token n, rw (u, judge) (rw n))
      ]

-- `Sentinel` between `Start` and `Stop`: `running` is the subscription that `cancel` would give up.
pub record Sentinel : Type 0 where
  pub token : Text
  pub running : Option ℕ

-- `NewSentinel`
unfoldable pub new_sentinel : Text → Sentinel
new_sentinel token = record { token = token_or_default token; running = none }

-- A subscription's number, or the bus's error.
pub data Attempt : Type 0 where
  subscribed : ℕ → Attempt
  failed : Text → Attempt

module _ {B : Type 0} (subscribe : B → B × Attempt) (cancel : ℕ → B → B) where
  abbrev started : Sentinel → B × Attempt → Sentinel × B × Option Text
  started s (b, subscribed n) = (record s { running = some n }, b, none)
  started s (b, failed e) = (s, b, some e)

  abbrev start_from : Option ℕ → Sentinel → B → Sentinel × B × Option Text
  start_from (some n) s b = (s, b, none)
  start_from none s b = started s (subscribe b)

  -- `Start`; a second one does nothing.
  unfoldable pub start : Sentinel → B → Sentinel × B × Option Text
  start s b = start_from s.running s b

  abbrev stop_from : Option ℕ → Sentinel → B → Sentinel × B
  stop_from none s b = (s, b)
  stop_from (some n) s b = (record s { running = none }, cancel n b)

  -- `Stop`; it returns when the loop has ended.
  unfoldable pub stop : Sentinel → B → Sentinel × B
  stop s b = stop_from s.running s b

  -- `Stop` is safe to call twice, and gives up the one subscription that `Start` made.
  pub stop_twice : (s : Sentinel) (b : B) → stop (stop s b).0 (stop s b).1 ≡ stop s b
  unfolding stop
  stop_twice s b = elim (Option-cases s.running) [
    | inl n ↦ rw (n, stop_from)
    | inr (i, e) ↦ rw (e, stop_from)
  ]
