-- ===== src/Examples/Sentinels.antt =====
-- Responses that end a conversation.
use vitis.Prelude.{suc, ◌≢◌, ◌⊎◌, length, Option, some, false, [], ◌∷◌, ◌≡◌, refl, arith}
use vitis.Text.{Text, codes, join, trim_right}
use vitis.Sentinel.{
  contains_on_own_line, strip_sentinel, token_or_default, any_token_line, is_end_space,
}
use vitis.Sentinel.Watch.{
  stop, stop_twice, subscribed, watch, events_of, received, closed, length-watch,
  watch-strip_sentinel,
}
use vitis.Model.Conversation.{ConversationTurn}
use vitis.Bus.{BusMessage, ControlMsg, turn}
use vitis.Examples.Toy.{reply_of}
use vitis.Sentinel.Strip.{strip_sentinel-clean, strip_sentinel_unchanged, strip_sentinel_cut}

abbrev farewell : Text
farewell = codes "bye \n  <<END>> \nrest"

farewell_cut : strip_sentinel farewell [] ≡ codes "bye"
unfolding strip_sentinel
farewell_cut = refl

strip_sentinel-clean_example :
    contains_on_own_line (strip_sentinel farewell []) (token_or_default []) ≡ false
strip_sentinel-clean_example = strip_sentinel-clean farewell []

strip_sentinel_unchanged_example :
    strip_sentinel (codes "no <<END>> here") [] ≡ codes "no <<END>> here"
unfolding contains_on_own_line
strip_sentinel_unchanged_example = strip_sentinel_unchanged (codes "no <<END>> here") [] refl

strip_sentinel_cut_example :
    strip_sentinel (join b'\n' (codes "bye " ∷ codes "  <<END>> " ∷ codes "rest" ∷ [])) []
    ≡ trim_right is_end_space (join b'\n' (codes "bye " ∷ []))
unfolding any_token_line
strip_sentinel_cut_example =
    strip_sentinel_cut [] (codes "bye " ∷ []) (codes "  <<END>> ") (codes "rest" ∷ [])
      (ground arith) refl refl

-- A coding of turns that keeps the response alone, and one of control messages that keeps the id.
abbrev decode : Text → Option ConversationTurn
decode t = some (reply_of t)

abbrev encode : ControlMsg → Option Text
encode m = some m.conversation_id

abbrev told : Text → BusMessage
told t = record {
  conversation_id = codes "c1";
  topic = codes "conv/c1/turn";
  kind = turn;
  payload = t;
  timestamp = 3;
}

length-watch_example :
    length (
      watch decode encode
        (codes "c1")
        (codes "<<END>>")
        (events_of decode encode ((told farewell, 4) ∷ (told farewell, 5) ∷ [])))
    ≡ 2
unfolding contains_on_own_line
length-watch_example =
    length-watch decode encode (codes "c1") (codes "<<END>>")
      ((told farewell, 4) ∷ (told farewell, 5) ∷ []) refl
      ((reply_of farewell, refl, refl), ((reply_of farewell, refl, refl), tt))

watch-strip_sentinel_example :
    ((strip_sentinel farewell [] ≡ farewell)
      × (watch decode encode
            (codes "c1")
            (token_or_default [])
            (received (told farewell) 4 ∷ closed ∷ [])
          ≡ watch decode encode (codes "c1") (token_or_default []) (closed ∷ [])))
    ⊎ ((strip_sentinel farewell [] ≢ farewell)
        × (length (
              watch decode encode
                (codes "c1")
                (token_or_default [])
                (received (told farewell) 4 ∷ closed ∷ []))
            ≡ suc (length (watch decode encode (codes "c1") (token_or_default []) (closed ∷ [])))))
watch-strip_sentinel_example =
    watch-strip_sentinel decode encode (codes "c1") [] (told farewell) 4 (closed ∷ []) refl refl

-- The bus is the list of the subscriptions given up.
stop_twice_example :
    stop
      (λ b. (b, subscribed 5))
      (λ n b. n ∷ b)
      (stop
        (λ b. (b, subscribed 5))
        (λ n b. n ∷ b)
        (record { token = codes "<<END>>"; running = some 5 })
        []).0
      (stop
        (λ b. (b, subscribed 5))
        (λ n b. n ∷ b)
        (record { token = codes "<<END>>"; running = some 5 })
        []).1
    ≡ stop
        (λ b. (b, subscribed 5))
        (λ n b. n ∷ b)
        (record { token = codes "<<END>>"; running = some 5 })
        []
stop_twice_example =
    stop_twice (λ b. (b, subscribed 5)) (λ n b. n ∷ b)
      (record { token = codes "<<END>>"; running = some 5 }) []
