-- ===== src/Execution/Ending.antt =====
-- The interleavings of the stop requests with the one goroutine that finishes an execution
-- (internal/bed/manager/execution.go): every stop comes from another goroutine.
use hostel.Base.{
  ℕ, ◌≡◌, refl, sym, ap, ◌∙◌, subst, String, Bool, true, false, not, Option, none, some, Bool-cases,
  inl, inr, if◌then◌else◌, arith,
}
use hostel.Execution.State.{Execution, ExecutionResult, ProcessOutcome, TerminationCause}
use hostel.Execution.Terminal.{
  is_some, request_stop, close_stop_done, claim_finish, settle_cause, publish_result, close_done,
  result_of,
}

-- Where the finishing goroutine stands: the process runs, the finish is claimed, the result is
-- published, the waiters are woken.
pub data Finisher : Type 0 where
  running : Finisher
  claimed : Option TerminationCause → Finisher
  published : Finisher
  woken : Finisher

-- What the goroutine was told of the process, and whether a stop was accepted and has yet to signal.
pub record World : Type 0 where
  pub execution : Execution
  pub finisher : Finisher
  pub signalling : Bool

pub record Told : Type 0 where
  pub outcome : Option ProcessOutcome
  pub failure : Option String
  pub close_failure : Option String

module _ (told : Told) where
  pub data Step : World → World → Type 0 where
    stops :
        {w : World} (cause : TerminationCause) (e : Execution)
        → request_stop w.execution cause ≡ some e
        → Step w (record w { execution = e; signalling = true })
    signals :
        {w : World} (e : Execution)
        → w.signalling ≡ true
        → close_stop_done w.execution ≡ some e
        → Step w (record w { execution = e; signalling = false })
    claims :
        {w : World}
        → w.finisher ≡ running
        → Step w (record w {
          execution = (claim_finish w.execution).1;
          finisher = claimed (claim_finish w.execution).0;
        })
    publishes :
        {w : World} (claim : Option TerminationCause) (cause : TerminationCause) (now : ℕ)
        → w.finisher ≡ claimed claim
        → (is_some claim ≡ true → w.execution.stop_done ≡ true)
        → settle_cause claim told.outcome told.failure ≡ some cause
        → Step w (record w {
          execution =
              publish_result told.close_failure w.execution told.outcome told.failure cause now;
          finisher = published;
        })
    wakes :
        {w : World} (e : Execution)
        → w.finisher ≡ published
        → close_done w.execution ≡ some e
        → Step w (record w { execution = e; finisher = woken })

  pub data Run (a : World) : World → Type 0 where
    here : Run a a
    next : {b c : World} → Run a b → Step b c → Run a c

  pub Run-append : {a b c : World} → Run a b → Run b c → Run a c
  Run-append ab here = ab
  Run-append ab (next bc step) = next (Run-append ab bc) step

  -- The published result has the cause that the stop cause and the process settle.
  abbrev pub IsPublished : Execution → Type 0
  IsPublished e =
      (r : ExecutionResult) × (e.result ≡ some r)
      × (settle_cause e.stop_cause told.outcome told.failure ≡ some r.cause)
      × (e.stop_done ≡ is_some e.stop_cause)

  abbrev pub StandsAt : Finisher → Execution → Type 0
  StandsAt running e = (e.result ≡ none) × (e.done ≡ false) × (e.finishing ≡ false)
  StandsAt (claimed claim) e =
      (e.result ≡ none)
      × (e.done ≡ false)
      × (e.finishing ≡ not (is_some claim))
      × (claim ≡ e.stop_cause)
  StandsAt published e = IsPublished e × (e.done ≡ false)
  StandsAt woken e = IsPublished e × (e.done ≡ true)

  pub record IsSound (w : World) : Type 0 where
    pub stands : StandsAt w.finisher w.execution
    pub pending : w.signalling ≡ true → is_some w.execution.stop_cause ≡ true
    pub signalled :
        w.execution.stop_done ≡ (if w.signalling then false else is_some w.execution.stop_cause)

  request_stop-eq-some :
      (e e' : Execution) (cause : TerminationCause)
      → request_stop e cause ≡ some e'
      → (e.result ≡ none)
        × (e.finishing ≡ false)
        × (e.stop_cause ≡ none)
        × (record e { stop_cause = some cause } ≡ e')
  unfolding request_stop
  request_stop-eq-some e e' cause done = ground arith

  stops-StandsAt :
      (f : Finisher) (e e' : Execution) (cause : TerminationCause)
      → request_stop e cause ≡ some e'
      → StandsAt f e
      → StandsAt f e'
  stops-StandsAt running e e' cause done at =
      subst (StandsAt running) (request_stop-eq-some e e' cause done).3 at
  stops-StandsAt (claimed claim) e e' cause done at =
      absurd (ground (arith, request_stop-eq-some e e' cause done))
  stops-StandsAt published e e' cause done at =
      absurd (ground (arith, (at.0).1, request_stop-eq-some e e' cause done))
  stops-StandsAt woken e e' cause done at =
      absurd (ground (arith, (at.0).1, request_stop-eq-some e e' cause done))

  close_stop_done-eq-some :
      (e e' : Execution)
      → close_stop_done e ≡ some e'
      → (e.stop_done ≡ false) × (record e { stop_done = true } ≡ e')
  unfolding close_stop_done
  close_stop_done-eq-some e e' done = ground arith

  signals-StandsAt :
      (f : Finisher) (e e' : Execution)
      → close_stop_done e ≡ some e'
      → is_some e.stop_cause ≡ true
      → StandsAt f e
      → StandsAt f e'
  signals-StandsAt running e e' done pending at =
      subst (StandsAt running) (close_stop_done-eq-some e e' done).1 at
  signals-StandsAt (claimed claim) e e' done pending at =
      subst (StandsAt (claimed claim)) (close_stop_done-eq-some e e' done).1 at
  signals-StandsAt published e e' done pending at =
      absurd (ground (arith, (at.0).3, close_stop_done-eq-some e e' done))
  signals-StandsAt woken e e' done pending at =
      absurd (ground (arith, (at.0).3, close_stop_done-eq-some e e' done))

  claims-StandsAt :
      (e : Execution)
      → StandsAt running e
      → StandsAt (claimed (claim_finish e).0) (claim_finish e).1
  unfolding claim_finish
  claims-StandsAt e at = ground (arith, at)

  claim_finish-keeps :
      (e : Execution)
      → ((claim_finish e).1.stop_cause ≡ e.stop_cause)
        × ((claim_finish e).1.stop_done ≡ e.stop_done)
  unfolding claim_finish
  claim_finish-keeps e = ground arith

  publish_result-IsPublished :
      (e : Execution) (claim : Option TerminationCause) (cause : TerminationCause) (now : ℕ)
      (signalling : Bool)
      → claim ≡ e.stop_cause
      → (is_some claim ≡ true → e.stop_done ≡ true)
      → e.stop_done ≡ (if signalling then false else is_some e.stop_cause)
      → settle_cause claim told.outcome told.failure ≡ some cause
      → IsPublished (publish_result told.close_failure e told.outcome told.failure cause now)
  unfolding publish_result
  publish_result-IsPublished e claim cause now signalling same waited signalled settled = (
    result_of e told.outcome told.failure cause now,
    refl,
    subst (λ c. settle_cause c told.outcome told.failure ≡ some cause) same settled,
    elim (Bool-cases (is_some claim)) [
      | inl stopped ↦ waited stopped ∙ sym stopped ∙ ap is_some same
      | inr free ↦ ground (arith, ap is_some same)
    ],
  )

  close_done-eq-some : (e e' : Execution) → close_done e ≡ some e' → record e { done = true } ≡ e'
  unfolding close_done
  close_done-eq-some e e' done = ground arith

  Step-IsSound : {a b : World} → Step a b → IsSound a → IsSound b
  Step-IsSound {a} (stops cause e done) sound =
      let (no_result, open_yet, unstopped, same) = request_stop-eq-some a.execution e cause done in
      record {
        stands = stops-StandsAt a.finisher a.execution e cause done sound.stands;
        pending = λ pending. ap (λ x. is_some x.stop_cause) (sym same);
        signalled = ap (λ x. x.stop_done) (sym same) ∙ sound.signalled ∙ ground (arith, unstopped);
      }
  Step-IsSound {a} (signals e pending done) sound =
      let (unsignalled, same) = close_stop_done-eq-some a.execution e done in
      let stopped = sound.pending pending in
      record {
        stands = signals-StandsAt a.finisher a.execution e done stopped sound.stands;
        pending = λ pending. ap (λ x. is_some x.stop_cause) (sym same) ∙ stopped;
        signalled =
            ap (λ x. x.stop_done) (sym same) ∙ sym stopped ∙ ap (λ x. is_some x.stop_cause) same;
      }
  Step-IsSound {a} (claims at) sound =
      let (same_cause, same_done) = claim_finish-keeps a.execution in
      let stands = subst (λ f. StandsAt f a.execution) at sound.stands in
      record {
        stands = claims-StandsAt a.execution stands;
        pending = λ pending. ap is_some same_cause ∙ sound.pending pending;
        signalled =
            same_done
            ∙ sound.signalled
            ∙ ap (λ c. if a.signalling then false else is_some c) (sym same_cause);
      }
  Step-IsSound {a} (publishes claim cause now at waited settled) sound =
      let stands = subst (λ f. StandsAt f a.execution) at sound.stands in
      record {
        stands = (
          publish_result-IsPublished a.execution claim cause now a.signalling stands.3 waited
              sound.signalled settled,
          unfold publish_result in stands.1,
        );
        pending = unfold publish_result in sound.pending;
        signalled = unfold publish_result in sound.signalled;
      }
  Step-IsSound {a} (wakes e at done) sound =
      let same = close_done-eq-some a.execution e done in
      let stands = subst (λ f. StandsAt f a.execution) at sound.stands in
      record {
        stands = (subst IsPublished same stands.0, ap (λ x. x.done) (sym same));
        pending = λ pending. ap (λ x. is_some x.stop_cause) (sym same) ∙ sound.pending pending;
        signalled =
            subst (λ x. x.stop_done ≡ (if a.signalling then false else is_some x.stop_cause)) same
              sound.signalled;
      }

  pub Run-IsSound : {a b : World} → Run a b → IsSound a → IsSound b
  Run-IsSound here sound = sound
  Run-IsSound (next run step) sound = Step-IsSound step (Run-IsSound run sound)

  Step-keeps_cause :
      {a b : World} (cause : TerminationCause)
      → Step a b
      → a.execution.stop_cause ≡ some cause
      → b.execution.stop_cause ≡ some cause
  Step-keeps_cause {a} cause (stops other e done) had =
      absurd (ground (arith, request_stop-eq-some a.execution e other done))
  Step-keeps_cause {a} cause (signals e pending done) had =
      ap (λ x. x.stop_cause) (sym (close_stop_done-eq-some a.execution e done).1) ∙ had
  Step-keeps_cause {a} cause (claims at) had = (claim_finish-keeps a.execution).0 ∙ had
  Step-keeps_cause {a} cause (publishes claim other now at waited settled) had =
      unfold publish_result in had
  Step-keeps_cause {a} cause (wakes e at done) had =
      ap (λ x. x.stop_cause) (sym (close_done-eq-some a.execution e done)) ∙ had

  pub Run-keeps_cause :
      {a b : World} (cause : TerminationCause)
      → Run a b
      → a.execution.stop_cause ≡ some cause
      → b.execution.stop_cause ≡ some cause
  Run-keeps_cause cause here had = had
  Run-keeps_cause cause (next run step) had =
      Step-keeps_cause cause step (Run-keeps_cause cause run had)
