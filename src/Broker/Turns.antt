-- ===== src/Broker/Turns.antt =====
-- broker.go: the log of a conversation, turn by turn, as the loop of `Run` builds it.
use vitis.Prelude.{
  ℕ, zero, suc, ◌≤◌, ◌<◌, max, List, [], ◌∷◌, ◌++◌, ◌≡◌, refl, sym, subst, ◌∙◌, ap, arith, length,
  length-append,
}
use vitis.Model.Conversation.{ConversationTurn, PeerSlot, TerminatorSpec}
use vitis.Broker.{Env, BrokerDeps, FinalResult, is_n_peer}
use vitis.Broker.Round.{Loop, Round, finished, again, panicked, next_slot}
use vitis.Broker.Run.{Outcome, returned, go_on, loop}
use vitis.Broker.Finish.{
  IsSettled, Closes, ends, goes_on, breaks, Decides, Turned, stops, replies, crashes, round-Turned,
}

module _ (env : Env) where
  open env use {World, Transport}

  module _ (deps : BrokerDeps Transport) (spec : TerminatorSpec) (opener : PeerSlot) where
    -- `Log ts e`: the turns `ts` follow one another from the opener on, and `e` is to speak next.
    pub data Log : List ConversationTurn → PeerSlot → Type 0 where
      empty : Log [] opener
      more :
          {ts us : List ConversationTurn} {e e' : PeerSlot}
          → Log ts e
          → (u : ConversationTurn) → Decides env deps spec ts e u
          → us ≡ ts ++ u ∷ []
          → e' ≡ next_slot (is_n_peer deps) u.to_id
          → Log us e'

    module _ (cap : ℕ) where
      -- What holds at the head of the loop.
      pub record LoopInv (s : Loop) : Type 0 where
        pub log : Log s.turns s.active
        pub same_spec : s.conv.terminator ≡ spec
        pub same_cap : s.conv.max_turns ≡ cap
        pub room : length s.turns < max 1 cap

      -- What holds of a result of the loop.
      pub record IsLogged (r : FinalResult) : Type 0 where
        pub last : PeerSlot
        pub log : Log r.turns last
        pub settled : IsSettled r
        pub bounded : length r.turns ≤ max 1 cap

      abbrev RoundOk : ℕ → Round World → Type 0
      RoundOk n (finished r w) = IsLogged r
      RoundOk n (again s w) = LoopInv s × (length s.turns ≡ suc n)
      RoundOk n panicked = Unit {0}

      closed-RoundOk :
          (s : Loop) (u : ConversationTurn) {next : PeerSlot} {n : ℕ} {o : Round World}
          → LoopInv s
          → Log (s.turns ++ u ∷ []) next
          → Closes env (s.turns ++ u ∷ []) next (record s.conv { turns_consumed = n }) o
          → RoundOk (length s.turns) o
      closed-RoundOk s u {next} inv l (ends {r} e settled) = record {
        last = next;
        log = subst (λ ts. Log ts next) (sym e) l;
        settled = settled;
        bounded = omega (arith, ap length e, length-append s.turns (u ∷ []), inv.room);
      }
      closed-RoundOk s u inv l (goes_on {s = t} e a c h) = (
        record {
          log = subst (λ ts. Log ts t.active) (sym e) (subst (Log (s.turns ++ u ∷ [])) (sym a) l);
          same_spec = ap (λ x. x.terminator) c ∙ inv.same_spec;
          same_cap = ap (λ x. x.max_turns) c ∙ inv.same_cap;
          room = omega (arith, ap length e, h, inv.same_cap);
        },
        ap length e ∙ omega (arith, length-append s.turns (u ∷ [])),
      )
      closed-RoundOk s u inv l breaks = tt

      Turned-RoundOk :
          (s : Loop) {o : Round World}
          → LoopInv s
          → Turned env deps s o
          → RoundOk (length s.turns) o
      Turned-RoundOk s inv (stops {r} e settled) = record {
        last = s.active;
        log = subst (λ ts. Log ts s.active) (sym e) inv.log;
        settled = settled;
        bounded = omega (arith, ap length e, inv.room);
      }
      Turned-RoundOk s inv (replies u d c) =
          closed-RoundOk s u inv
            (more inv.log u (subst (λ x. Decides env deps x s.turns s.active u) inv.same_spec d)
              refl refl)
            c
      Turned-RoundOk s inv crashes = tt

      go_on-IsLogged :
          (rest : Loop → World → Outcome World) (o : Round World) (n : ℕ) {r : FinalResult}
          {w' : World}
          → RoundOk n o
          → ((s : Loop) (w : World) → LoopInv s → rest s w ≡ returned r w' → IsLogged r)
          → go_on env rest o ≡ returned r w'
          → IsLogged r
      go_on-IsLogged rest (finished q w) n ok further h = subst IsLogged {x = q} (cc) ok
      go_on-IsLogged rest (again s w) n ok further h = further s w ok.0 h
      go_on-IsLogged rest panicked n ok further h = absurd (cc)

      pub loop-IsLogged :
          (fuel ctl : ℕ) (s : Loop) (w : World) {r : FinalResult} {w' : World}
          → LoopInv s
          → loop env deps fuel ctl s w ≡ returned r w'
          → IsLogged r
      unfolding loop
      loop-IsLogged zero ctl s w inv h = absurd (cc)
      loop-IsLogged (suc fuel) ctl s w inv h =
          go_on-IsLogged (loop env deps fuel ctl) _ _
            (Turned-RoundOk s inv (round-Turned env deps ctl s w))
            (λ t v j. loop-IsLogged fuel ctl t v j) h
