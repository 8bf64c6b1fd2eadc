-- ===== src/Orchestrator/Stops.antt =====
-- completion_loop.go: how the completion loop ends, told from the selects alone.
use vitis.Prelude.{
  ℕ, ℤ, pos, Bool, true, false, List, [], ◌∷◌, ◌++◌, Option, none, some, ◌≡◌, ◌⊎◌, inl, inr, refl,
  sym, ap, ◌∙◌, subst, append-nil, append_assoc, if◌then◌else◌, Bool-cases,
}
use vitis.Text.{Text}
use vitis.Model.Session.{StreamEventKind}
use vitis.Model.Run.{TranscriptObservation}
use vitis.Terminal.Transcript.{StreamEvent, Transcript, append, record_exit}
use vitis.Terminal.Tail.{IsTranscript, append-IsTranscript, new_transcript-IsTranscript}
use vitis.Orchestrator.{Woken, cancelled, output_closed, done_closed, output, exited, ticked, Env}
use vitis.Orchestrator.Completion.{
  Loop, CompletionResult, ending, new_loop, timeout_observation, context_of, with_exit, hear,
  observed, step, step_then, wait, Watched,
}

-- The bytes of the output events, up to the closed channel.
unfoldable pub printed : Bool → List Woken → Text
printed live [] = []
printed live (output kind e ∷ es) = (if live then e.data_of else []) ++ printed live es
printed live (output_closed ∷ es) = printed false es
printed live (_ ∷ es) = printed live es

-- The exit code last received; a closed channel counts as 0.
unfoldable pub last_exit : Option ℤ → List Woken → Option ℤ
last_exit c [] = c
last_exit c (exited code ∷ es) = last_exit (some code) es
last_exit c (done_closed ∷ es) = last_exit (some (pos 0)) es
last_exit c (_ ∷ es) = last_exit c es

unfoldable pub cancels : List Woken → Bool
cancels [] = false
cancels (cancelled ∷ es) = true
cancels (_ ∷ es) = cancels es

pub record_exit-IsTranscript :
    (all : Text) (code : ℤ) (t : Transcript)
    → IsTranscript all t
    → IsTranscript all (record_exit code t)
unfolding record_exit
record_exit-IsTranscript all code t i = record {
  full = i.full;
  ends_with_all = i.ends_with_all;
  counted = i.counted;
  bounded = i.bounded;
}

module _ (env : Env) (p : Watched env) where
  open env use {World}

  -- Why a result was returned at a select.
  unfoldable pub HasReason : Woken → CompletionResult → Type 0
  unfolding context_of
  HasReason cancelled r = r.observation ≡ timeout_observation
  HasReason (ticked since idle) r =
      (p.adapter.observe (context_of p.start since idle r.transcript r.exit_code)
        ≡ some r.observation)
      × (r.observation.terminal ≡ true)
  HasReason _ r = ⊥

  -- A result of the loop over `es`, where `all` was heard and `code` received before.
  pub record Stopped (all : Text) (live : Bool) (code : Option ℤ) (es : List Woken)
      (r : CompletionResult) : Type 0 where
    pub before : List Woken
    pub cause : Woken
    pub after : List Woken
    pub splits : es ≡ before ++ cause ∷ after
    pub lasts : cancels before ≡ false
    pub hears : IsTranscript (all ++ printed live before) r.transcript
    pub exits : r.exit_code ≡ last_exit code before
    pub has_reason : HasReason cause r

  unfoldable pub Ends : Text → Bool → Option ℤ → List Woken → Option CompletionResult → Type 0
  Ends all live code es out =
      ((out ≡ none) × (cancels es ≡ false))
      ⊎ ((r : CompletionResult) × (out ≡ some r) × Stopped all live code es r)

  module _ (ev : Woken) (all all' : Text) (live live' : Bool) (code code' : Option ℤ)
      (same_text : (x : List Woken) → all' ++ printed live' x ≡ all ++ printed live (ev ∷ x))
      (same_code : (x : List Woken) → last_exit code' x ≡ last_exit code (ev ∷ x))
      (same_end : (x : List Woken) → cancels (ev ∷ x) ≡ cancels x) where
    -- A select that goes on is one more before the cause.
    one_more :
        (es : List Woken) (out : Option CompletionResult)
        → Ends all' live' code' es out
        → Ends all live code (ev ∷ es) out
    unfolding Ends
    one_more es out (inl (e, n)) = inl (e, same_end es ∙ n)
    one_more es out (inr (r, e, s)) = inr (
      r,
      e,
      record {
        before = ev ∷ s.before;
        cause = s.cause;
        after = s.after;
        splits = ap (λ x. ev ∷ x) s.splits;
        lasts = same_end s.before ∙ s.lasts;
        hears = subst (λ x. IsTranscript x r.transcript) (same_text s.before) s.hears;
        exits = s.exits ∙ same_code s.before;
        has_reason = s.has_reason;
      },
    )

  -- The result of the loop, made at a select that stops it.
  at_once :
      (all : Text) (s : Loop) (ev : Woken) (es : List Woken) (o : TranscriptObservation)
      → IsTranscript all s.transcript
      → HasReason ev (ending o s)
      → Ends all s.output_open s.exit_code (ev ∷ es) (some (ending o s))
  unfolding Ends printed last_exit cancels
  at_once all s ev es o i reason = inr (
    ending o s,
    refl,
    record {
      before = [];
      cause = ev;
      after = es;
      splits = refl;
      lasts = refl;
      hears = subst (λ x. IsTranscript x s.transcript) (sym (append-nil all)) i;
      exits = refl;
      has_reason = reason;
    },
  )

  observed-Ends :
      (since idle : ℕ) (es : List Woken) (all : Text) (s : Loop) (w : World)
      → IsTranscript all s.transcript
      → ((w' : World) → Ends all s.output_open s.exit_code es (wait env p es s w').1)
      → (o : Option TranscriptObservation)
      → p.adapter.observe (context_of p.start since idle s.transcript s.exit_code) ≡ o
      → Ends all s.output_open s.exit_code
          (ticked since idle ∷ es)
          (step_then env p (wait env p es) (observed env p o s w)).1
  unfolding observed HasReason printed last_exit cancels context_of
  observed-Ends since idle es all s w i rest none e =
      one_more (ticked since idle) all all s.output_open s.output_open s.exit_code s.exit_code
        (λ x. refl) (λ x. refl) (λ x. refl) es (wait env p es s w).1 (rest w)
  observed-Ends since idle es all s w i rest (some o) e = elim (Bool-cases o.terminal) [
    | inl y ↦ simp y (at_once all s (ticked since idle) es o i (e, y))
    | inr n ↦ rw n (
        one_more (ticked since idle) all all s.output_open s.output_open s.exit_code s.exit_code
          (λ x. refl) (λ x. refl) (λ x. refl) es (wait env p es s _).1 (rest _))
  ]

  heard-Ends :
      (kind : StreamEventKind) (e : StreamEvent) (es : List Woken) (all : Text) (s : Loop)
      (w : World)
      → IsTranscript all s.transcript
      → ((all' : Text) (s' : Loop) (w' : World)
          → IsTranscript all' s'.transcript
          → Ends all' s'.output_open s'.exit_code es (wait env p es s' w').1)
      → Ends all s.output_open s.exit_code
          (output kind e ∷ es)
          (step_then env p (wait env p es) (hear env p kind e s w)).1
  unfolding hear printed last_exit cancels
  heard-Ends kind e es all s w i rest = elim (Bool-cases s.output_open) [
    | inl y ↦ rw y (
        one_more (output kind e) all (all ++ e.data_of) true true s.exit_code s.exit_code
          (λ x. append_assoc all e.data_of (printed true x)) (λ x. refl) (λ x. refl) es _
          (rest (all ++ e.data_of)
            (record s { transcript = append e s.transcript; output_open = true }) _
            (append-IsTranscript all e s.transcript i)))
    | inr n ↦ rw n (
        one_more (output kind e) all all false false s.exit_code s.exit_code (λ x. refl) (λ x. refl)
          (λ x. refl) es _ (rest all (record s { output_open = false }) w i))
  ]

  pub wait-Ends :
      (es : List Woken) (all : Text) (s : Loop) (w : World)
      → IsTranscript all s.transcript
      → Ends all s.output_open s.exit_code es (wait env p es s w).1
  unfolding Ends wait step printed last_exit cancels HasReason with_exit
  wait-Ends [] all s w i = inl (refl, refl)
  wait-Ends (cancelled ∷ es) all s w i = at_once all s cancelled es timeout_observation i refl
  wait-Ends (output kind e ∷ es) all s w i = heard-Ends kind e es all s w i (wait-Ends es)
  wait-Ends (output_closed ∷ es) all s w i =
      one_more output_closed all all s.output_open false s.exit_code s.exit_code (λ x. refl)
        (λ x. refl) (λ x. refl) es _ (wait-Ends es all (record s { output_open = false }) w i)
  wait-Ends (exited code ∷ es) all s w i =
      one_more (exited code) all all s.output_open s.output_open s.exit_code (some code) (λ x. refl)
        (λ x. refl) (λ x. refl) es _
        (wait-Ends es all (with_exit code s) w (record_exit-IsTranscript all code s.transcript i))
  wait-Ends (done_closed ∷ es) all s w i =
      one_more done_closed all all s.output_open s.output_open s.exit_code (some (pos 0))
        (λ x. refl) (λ x. refl) (λ x. refl) es _
        (wait-Ends es all (with_exit (pos 0) s) w
          (record_exit-IsTranscript all (pos 0) s.transcript i))
  wait-Ends (ticked since idle ∷ es) all s w i =
      observed-Ends since idle es all s w i (λ w'. wait-Ends es all s w' i)
        (p.adapter.observe (context_of p.start since idle s.transcript s.exit_code)) refl

  -- Whatever the selects yield, the loop waits on, and then no context has ended, or it returns, at
  -- the first end of the context with the timeout, or at a tick with the terminal observation that
  -- the adapter makes there. Its transcript then holds the output heard before, with its last 65536
  -- bytes as the tail, and its exit code is the one last received before, 0 for a closed channel.
  pub wait_lem : (es : List Woken) (w : World) → Ends [] true none es (wait env p es new_loop w).1
  unfolding new_loop
  wait_lem es w = wait-Ends es [] new_loop w (new_transcript-IsTranscript 65536)
