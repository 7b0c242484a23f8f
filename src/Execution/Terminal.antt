-- ===== src/Execution/Terminal.antt =====
-- internal/bed/manager/execution.go: how an execution ends. RequestStop holds `e.mu` while it records
-- its cause and signals after it; finishResult claims the finish under the lock, waits for the
-- signal of a stop that came first, and publishes the result under the lock.
use hostel.Base.{ℕ, String, Bool, true, false, not, ◌||◌, Option, none, some, if◌then◌else◌}
use hostel.Execution.State.{
  Execution, ExecutionLog, ExecutionMode, ExecutionResult, ProcessOutcome, ProcessOutcomeKind,
  exited, signaled, lost, TerminationCause, preparation_failed, natural, external_signal,
  executor_lost,
}

abbrev pub is_some {ℓ} : {A : Type ℓ} → Option A → Bool
is_some none = false
is_some (some a) = true

-- requestStop up to its signal: none is the answer false.
unfoldable pub request_stop : Execution → TerminationCause → Option Execution
request_stop e cause =
    if is_some e.result || (e.finishing || is_some e.stop_cause)
    then none
    else some (record e { stop_cause = some cause })

-- `close(e.stopDone)`, which panics on a closed channel: none.
unfoldable pub close_stop_done : Execution → Option Execution
close_stop_done e = if e.stop_done then none else some (record e { stop_done = true })

-- claimFinish: with a cause comes the channel to wait on.
unfoldable pub claim_finish : Execution → Option TerminationCause × Execution
claim_finish e = elim e.stop_cause [
  | none ↦ (none, record e { finishing = true })
  | some cause ↦ (some cause, e)
]

abbrev pub cause_of_kind : ProcessOutcomeKind → TerminationCause
cause_of_kind exited = natural
cause_of_kind signaled = external_signal
cause_of_kind lost = executor_lost

-- The cause that finishResult settles on; none is its dereference of a nil outcome.
unfoldable pub settle_cause :
    Option TerminationCause → Option ProcessOutcome → Option String → Option TerminationCause
settle_cause (some cause) outcome failure = some cause
settle_cause none outcome (some failure) = some preparation_failed
settle_cause none (some outcome) none = some (cause_of_kind outcome.kind)
settle_cause none none none = none

-- An error of Close is kept unless the log has one.
abbrev pub close_log : Option String → ExecutionLog → ExecutionLog
close_log none log = record log { is_writing = false }
close_log (some e) log = elim log.failure [
  | none ↦ record log { is_writing = false; failure = some e }
  | some old ↦ record log { is_writing = false }
]

abbrev map_log : Option String → Option ExecutionLog → Option ExecutionLog
map_log close_failure none = none
map_log close_failure (some log) = some (close_log close_failure log)

abbrev pub result_of :
    Execution → Option ProcessOutcome → Option String → TerminationCause → ℕ → ExecutionResult
result_of e outcome failure cause finished_at = record {
  pillow = e.pillow;
  execution_id = e.id;
  bed_id = e.bed_id;
  mode = e.mode;
  executor_id = e.executor_id;
  executor_backend = e.executor_backend;
  started_at = e.started_at;
  finished_at = finished_at;
  process = outcome;
  failure = failure;
  cause = cause;
}

-- The locked part of finishResult; `close_failure` is what closing the log file returns.
unfoldable pub publish_result :
    Option String
    → Execution
    → Option ProcessOutcome
    → Option String
    → TerminationCause
    → ℕ
    → Execution
publish_result close_failure e outcome failure cause finished_at = record e {
  finished_at = some finished_at;
  log = map_log close_failure e.log;
  result = some (result_of e outcome failure cause finished_at);
  finishing = false;
}

-- `close(e.done)`, which panics on a closed channel: none.
unfoldable pub close_done : Execution → Option Execution
close_done e = if e.done then none else some (record e { done = true })

pub record ExecutionStatus : Type 0 where
  pub pillow : String
  pub id : String
  pub bed_id : String
  pub mode : ExecutionMode
  pub executor_id : String
  pub executor_backend : String
  pub running : Bool
  pub started_at : ℕ
  pub finished_at : Option ℕ
  pub result : Option ExecutionResult

-- Status
unfoldable pub status : Execution → ExecutionStatus
status e = record {
  pillow = e.pillow;
  id = e.id;
  bed_id = e.bed_id;
  mode = e.mode;
  executor_id = e.executor_id;
  executor_backend = e.executor_backend;
  running = not (is_some e.result);
  started_at = e.started_at;
  finished_at = e.finished_at;
  result = e.result;
}
