-- ===== src/Execution/Causes.antt =====
-- Who owns the terminal cause of an execution of internal/bed/manager/execution.go, and that it ends.
use hostel.Base.{
  ℕ, ◌≡◌, ◌≢◌, refl, sym, ap, ◌∙◌, subst, String, true, false, ◌||◌, Option, none, some, Bool-cases,
  inl, inr, if◌then◌else◌, arith,
}
use hostel.Execution.State.{
  Execution, ExecutionMode, ExecutionResult, ProcessOutcome, TerminationCause, preparation_failed,
  exited, signaled, lost, natural, external_signal, executor_lost, new_execution,
}
use hostel.Execution.Terminal.{
  is_some, cause_of_kind, request_stop, close_stop_done, claim_finish, settle_cause, close_done,
}
use hostel.Execution.Ending.{
  World, Told, Step, stops, signals, claims, publishes, wakes, Run, here, next, Run-append, IsSound,
  IsPublished, StandsAt, Run-IsSound, Run-keeps_cause, Finisher, running, claimed, published, woken,
}

abbrev pub started : String → String → String → ExecutionMode → String → String → ℕ → World
started id pillow bed_id mode executor_id backend now = record {
  execution = new_execution id pillow bed_id mode executor_id backend now;
  finisher = running;
  signalling = false;
}

-- A world reached from the start of an execution.
unfoldable pub IsReached : Told → World → Type 0
IsReached told w =
    (id pillow bed_id executor_id backend : String) × (mode : ExecutionMode) × (now : ℕ) × Run told
      (started id pillow bed_id mode executor_id backend now) w

IsReached-IsSound : (told : Told) (w : World) → IsReached told w → IsSound told w
unfolding IsReached
IsReached-IsSound told w (id, pillow, bed_id, executor_id, backend, mode, now, run) =
    Run-IsSound told run
      (record { stands = (refl, refl, refl); pending = λ pending. ground arith; signalled = refl })

StandsAt-IsPublished :
    (told : Told) (f : Finisher) (e : Execution) (r : ExecutionResult)
    → StandsAt told f e
    → e.result ≡ some r
    → IsPublished told e
StandsAt-IsPublished told running e r at done = absurd (ground (arith, at))
StandsAt-IsPublished told (claimed claim) e r at done = absurd (ground (arith, at))
StandsAt-IsPublished told published e r at done = at.0
StandsAt-IsPublished told woken e r at done = at.0

-- The cause of a result, by the accepted stop, the preparation failure and the process outcome.
pub record IsCauseOf (told : Told) (stop : Option TerminationCause) (cause : TerminationCause)
    : Type 0 where
  stopped : (c : TerminationCause) → stop ≡ some c → cause ≡ c
  unprepared :
      (failure : String) → stop ≡ none → told.failure ≡ some failure → cause ≡ preparation_failed
  ended :
      (outcome : ProcessOutcome)
      → stop ≡ none
      → told.failure ≡ none
      → told.outcome ≡ some outcome
      → (outcome.kind ≡ exited → cause ≡ natural)
        × (outcome.kind ≡ signaled → cause ≡ external_signal)
        × (outcome.kind ≡ lost → cause ≡ executor_lost)

settled-IsCauseOf :
    (told : Told) (stop : Option TerminationCause) (cause : TerminationCause)
    → settle_cause stop told.outcome told.failure ≡ some cause
    → IsCauseOf told stop cause
unfolding settle_cause
settled-IsCauseOf told stop cause settled = record {
  stopped = λ c had. ground (arith, had, settled);
  unprepared = λ failure free broken. ground (arith, free, broken, settled);
  ended = λ outcome free fine had. (
    λ k. ground (arith, free, fine, had, k, settled),
    λ k. ground (arith, free, fine, had, k, settled),
    λ k. ground (arith, free, fine, had, k, settled),
  );
}

-- In every interleaving of stop requests with the end of the process, a published result has the
-- cause of the stop that was accepted, whatever failed or ended beside it, and the stop's signal was
-- delivered before. Without an accepted stop the cause is a failed preparation, and without that the
-- natural end, the external signal or the lost executor that the outcome tells. No later stop is
-- accepted.
pub Run-owns_cause :
    (told : Told) (w : World) (r : ExecutionResult) (cause : TerminationCause)
    → IsReached told w
    → w.execution.result ≡ some r
    → IsCauseOf told w.execution.stop_cause r.cause
      × (w.execution.stop_done ≡ is_some w.execution.stop_cause)
      × (request_stop w.execution cause ≡ none)
unfolding request_stop
Run-owns_cause told w r cause reached done =
    let sound = IsReached-IsSound told w reached in
    let (r', done', settled, signalled) =
      StandsAt-IsPublished told w.finisher w.execution r sound.stands done in
    let same : some r' ≡ some r = sym done' ∙ done in
    (
      settled-IsCauseOf told w.execution.stop_cause r.cause (ground (arith, settled, same)),
      signalled,
      ground arith,
    )

accepted_cause :
    (e e' : Execution) (cause : TerminationCause)
    → request_stop e cause ≡ some e'
    → e'.stop_cause ≡ some cause
unfolding request_stop
accepted_cause e e' cause done = ground arith

stopped_cause :
    (stop : Option TerminationCause) (outcome : Option ProcessOutcome) (failure : Option String)
    {cause settled : TerminationCause}
    → stop ≡ some cause
    → settle_cause stop outcome failure ≡ some settled
    → settled ≡ cause
unfolding settle_cause
stopped_cause none outcome failure had done = absurd (ground arith)
stopped_cause (some stop) outcome failure had done = ground arith

-- Once RequestStop has accepted a cause, every result that is published afterwards has that cause.
pub request_stop-final :
    (told : Told) (w w' : World) (e : Execution) (cause : TerminationCause) (r : ExecutionResult)
    → IsReached told w
    → request_stop w.execution cause ≡ some e
    → Run told (record w { execution = e; signalling = true }) w'
    → w'.execution.result ≡ some r
    → r.cause ≡ cause
request_stop-final told w w' e cause r reached accepted run done =
    let sound =
      Run-IsSound told (next here (stops cause e accepted)) (IsReached-IsSound told w reached) in
    let (r', done', settled, signalled) =
      StandsAt-IsPublished told w'.finisher w'.execution r (Run-IsSound told run sound).stands
        done in
    let kept = Run-keeps_cause told cause run (accepted_cause w.execution e cause accepted) in
    let same : some r' ≡ some r = sym done' ∙ done in
    let stopped = stopped_cause (w'.execution.stop_cause) told.outcome told.failure kept settled in
    ground (arith, same, stopped)

settle_cause_total :
    (claim : Option TerminationCause) (outcome : Option ProcessOutcome) (failure : Option String)
    → (is_some outcome || is_some failure) ≡ true
    → (cause : TerminationCause) × (settle_cause claim outcome failure ≡ some cause)
settle_cause_total (some cause) outcome failure known = (cause, unfold settle_cause in refl)
settle_cause_total none outcome (some e) known = (preparation_failed, unfold settle_cause in refl)
settle_cause_total none (some outcome) none known =
    (cause_of_kind outcome.kind, unfold settle_cause in refl)
settle_cause_total none none none known = absurd (ground arith)

module _ (told : Told) (known : (is_some told.outcome || is_some told.failure) ≡ true) where
  -- Some steps lead to a result and woken waiters.
  abbrev Finishes : World → Type 0
  Finishes w =
      (w' : World) × Run told w w'
      × (w'.execution.done ≡ true)
      × ((r : ExecutionResult) × (w'.execution.result ≡ some r))

  Step-first : {w w' : World} → Step told w w' → Finishes w' → Finishes w
  Step-first step (w2, run, woken_up, result) =
      (w2, Run-append told (next here step) run, woken_up, result)

  published-Finishes : (w : World) → w.finisher ≡ published → IsSound told w → Finishes w
  published-Finishes w at sound =
      let ((r, done, settled, signalled), undone) =
        subst (λ f. StandsAt told f w.execution) at sound.stands in
      (
        _,
        next here (
            wakes {w = w} (record w.execution { done = true }) at
              (unfold close_done in ground arith)),
        refl,
        (r, done),
      )

  claimed-Finishes :
      (w : World) (claim : Option TerminationCause)
      → w.finisher ≡ claimed claim
      → w.signalling ≡ false
      → IsSound told w
      → Finishes w
  claimed-Finishes w claim at quiet sound =
      let (cause, settled) = settle_cause_total claim told.outcome told.failure known in
      let stands = subst (λ f. StandsAt told f w.execution) at sound.stands in
      let waited : is_some claim ≡ true → w.execution.stop_done ≡ true = λ stopped.
        sound.signalled
        ∙ ap (λ s. if s then false else is_some w.execution.stop_cause) quiet
        ∙ sym (ap is_some stands.3)
        ∙ stopped in
      let step = publishes claim cause 0 at waited settled in
      Step-first step (published-Finishes _ refl (Run-IsSound told (next here step) sound))

  running-Finishes :
      (w : World) → w.finisher ≡ running → w.signalling ≡ false → IsSound told w → Finishes w
  running-Finishes w at quiet sound =
      let step = claims at in
      Step-first step (
        claimed-Finishes _ (claim_finish w.execution).0 refl quiet
          (Run-IsSound told (next here step) sound))

  quiet-Finishes : (w : World) → w.signalling ≡ false → IsSound told w → Finishes w
  quiet-Finishes w quiet sound = by_stage w.finisher refl
    where
      by_stage : (f : Finisher) → w.finisher ≡ f → Finishes w
      by_stage running at = running-Finishes w at quiet sound
      by_stage (claimed claim) at = claimed-Finishes w claim at quiet sound
      by_stage published at = published-Finishes w at sound
      by_stage woken at =
          let ((r, done, settled, signalled), woken_up) =
            subst (λ f. StandsAt told f w.execution) at sound.stands in
          (w, here, woken_up, (r, done))

  sound-Finishes : (w : World) → IsSound told w → Finishes w
  sound-Finishes w sound = elim (Bool-cases w.signalling) [
    | inr quiet ↦ quiet-Finishes w quiet sound
    | inl pending ↦
        let step =
          signals {w = w} (record w.execution { stop_done = true }) pending
            (unfold close_stop_done in ground (arith, sound.signalled)) in
        Step-first step (quiet-Finishes _ refl (Run-IsSound told (next here step) sound))
  ]

-- No step that is due is a panic: a stop that was accepted finds the channel of its signal open, the
-- finishing goroutine finds a cause to publish, and the channel of the waiters open to wake them.
pub record NoPanic (told : Told) (w : World) : Type 0 where
  signal_open : w.signalling ≡ true → close_stop_done w.execution ≢ none
  cause_known :
      (claim : Option TerminationCause)
      → w.finisher ≡ claimed claim
      → settle_cause claim told.outcome told.failure ≢ none
  done_open : w.finisher ≡ published → close_done w.execution ≢ none

sound-NoPanic :
    (told : Told) (w : World)
    → (is_some told.outcome || is_some told.failure) ≡ true
    → IsSound told w
    → NoPanic told w
unfolding close_stop_done close_done
sound-NoPanic told w known sound = record {
  signal_open = λ pending broken. ground (arith, sound.signalled, pending, broken);
  cause_known = λ claim at broken.
      let (cause, settled) = settle_cause_total claim told.outcome told.failure known in
      ground (arith, settled, broken);
  done_open = λ at broken.
      let stands = subst (λ f. StandsAt told f w.execution) at sound.stands in
      ground (arith, stands.1, broken);
}

-- From every reachable state of an execution whose process has an outcome or failed to be prepared
-- some steps lead to a result and awake waiters. In every such state no channel is closed twice and
-- no missing outcome is read: an accepted stop can still signal, a claimed finish has a cause, and a
-- published one can still wake its waiters.
pub Run-can_finish :
    (told : Told) (w : World)
    → IsReached told w
    → (is_some told.outcome || is_some told.failure) ≡ true
    → ((w' : World) × Run told w w'
        × (w'.execution.done ≡ true)
        × ((r : ExecutionResult) × (w'.execution.result ≡ some r)))
      × NoPanic told w
Run-can_finish told w reached known =
    let sound = IsReached-IsSound told w reached in
    (sound-Finishes told known w sound, sound-NoPanic told w known sound)
