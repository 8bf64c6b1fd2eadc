-- ===== src/Orchestrator/Exits.antt =====
-- completion_loop.go, lines 61-66, behind the channel of internal/terminal/process.go, lines 109-110,
-- which has the exit's code once and is closed then.
use vitis.Prelude.{
  ℤ, pos, Bool, true, false, List, [], ◌∷◌, ◌++◌, Option, some, ◌≡◌, inl, inr, refl, sym, ap, ◌∙◌,
}
use vitis.Text.{Text}
use vitis.Terminal.Tail.{IsTranscript}
use vitis.Orchestrator.{Woken, cancelled, output_closed, done_closed, output, exited, ticked, Env}
use vitis.Orchestrator.Completion.{Loop, CompletionResult, Watched, with_exit, step, wait}
use vitis.Orchestrator.Stops.{last_exit, Ends, wait-Ends, record_exit-IsTranscript}

-- No exit's code is received.
unfoldable pub exit_free : List Woken → Bool
exit_free [] = true
exit_free (exited code ∷ es) = false
exit_free (_ ∷ es) = exit_free es

last_exit-zero :
    (before after : List Woken)
    → exit_free (before ++ after) ≡ true
    → last_exit (some (pos 0)) before ≡ some (pos 0)
unfolding last_exit exit_free
last_exit-zero [] after h = refl
last_exit-zero (cancelled ∷ es) after h = last_exit-zero es after h
last_exit-zero (output_closed ∷ es) after h = last_exit-zero es after h
last_exit-zero (done_closed ∷ es) after h = last_exit-zero es after h
last_exit-zero (output kind e ∷ es) after h = last_exit-zero es after h
last_exit-zero (exited code ∷ es) after h = absurd (cc h)
last_exit-zero (ticked since idle ∷ es) after h = last_exit-zero es after h

module _ (env : Env) (p : Watched env) where
  open env use {World}

  ended-zero :
      (all : Text) (heard : Bool) (es : List Woken) (out : Option CompletionResult)
      → exit_free es ≡ true
      → (r : CompletionResult) → out ≡ some r
      → Ends env p all heard (some (pos 0)) es out
      → r.exit_code ≡ some (pos 0)
  unfolding Ends
  ended-zero all heard es out h r e (inl (n, _)) = absurd (cc (e, n))
  ended-zero all heard es out h r e (inr (r', e', s)) =
      let same : some r ≡ some r' = sym e ∙ e' in
      let same_code : r.exit_code ≡ r'.exit_code = cc same in
      same_code
      ∙ s.exits
      ∙ last_exit-zero s.before (s.cause ∷ s.after) (ap exit_free (sym s.splits) ∙ h)

  -- In any state of the loop in which `all` was heard: once the exit's code, whichever it is, and
  -- then the closing of the channel are received, with no further code, every result has the code 0.
  pub exit_code_lost :
      (code : ℤ) (all : Text) (s : Loop) (es : List Woken) (w : World) (r : CompletionResult)
      → IsTranscript all s.transcript
      → exit_free es ≡ true
      → (wait env p (exited code ∷ done_closed ∷ es) s w).1 ≡ some r
      → r.exit_code ≡ some (pos 0)
  unfolding wait step with_exit
  exit_code_lost code all s es w r i h e =
      ended-zero all s.output_open es (wait env p es (with_exit (pos 0) (with_exit code s)) w).1 h r
        e
        (wait-Ends env p es all (with_exit (pos 0) (with_exit code s)) w (
          record_exit-IsTranscript all (pos 0) _
            (record_exit-IsTranscript all code s.transcript i)))
