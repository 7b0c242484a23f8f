-- ===== src/Execution/State.antt =====
-- internal/bed/manager/execution.go and execution_log.go: the records. A text is the list of its
-- bytes; the channels are whether they are closed. The trace span, the context and the callbacks are
-- left out.
use hostel.Base.{ℕ, String, Bool, false, Option, none, List, []}

pub data ExecutionMode : Type 0 where
  foreground background session main : ExecutionMode

pub data TerminationCause : Type 0 where
  preparation_failed output_failure natural timeout client_canceled interrupted : TerminationCause
  main_stop bed_teardown daemon_shutdown external_signal oom executor_lost : TerminationCause

pub data OutputStream : Type 0 where
  stdout stderr : OutputStream

pub record ExecutionOutput : Type 0 where
  pub sequence : ℕ
  pub stream : OutputStream
  pub text : List ℕ

-- internal/bed/executor/executor.go
pub data ProcessOutcomeKind : Type 0 where
  exited signaled lost : ProcessOutcomeKind

pub record ProcessOutcome : Type 0 where
  pub kind : ProcessOutcomeKind
  pub exit_code : ℕ
  pub signal : ℕ
  pub core_dumped : Bool
  pub message : String
  pub detail : String

pub record ExecutionResult : Type 0 where
  pub pillow : String
  pub execution_id : String
  pub bed_id : String
  pub mode : ExecutionMode
  pub executor_id : String
  pub executor_backend : String
  pub started_at : ℕ
  pub finished_at : ℕ
  pub process : Option ProcessOutcome
  pub failure : Option String
  pub cause : TerminationCause

pub record ExecutionLog : Type 0 where
  pub path : String
  pub is_writing : Bool
  pub failure : Option String

pub record Execution : Type 0 where
  pub pillow : String
  pub content : String
  pub log : Option ExecutionLog
  pub id : String
  pub bed_id : String
  pub mode : ExecutionMode
  pub executor_id : String
  pub executor_backend : String
  pub stop_done : Bool
  pub finishing : Bool
  pub started_at : ℕ
  pub finished_at : Option ℕ
  pub result : Option ExecutionResult
  pub stop_cause : Option TerminationCause
  pub output : List ExecutionOutput
  pub output_bytes : ℕ
  pub truncated : Bool
  pub next_output : ℕ
  pub dropped : ℕ
  pub done : Bool

abbrev pub output_budget : ℕ
output_budget = 65536

abbrev pub output_fragments : ℕ
output_fragments = 1024

abbrev pub history_limit : ℕ
history_limit = 1024

-- newExecution
abbrev pub new_execution :
    String → String → String → ExecutionMode → String → String → ℕ → Execution
new_execution id pillow bed_id mode executor_id executor_backend now = record {
  pillow = pillow;
  content = "";
  log = none;
  id = id;
  bed_id = bed_id;
  mode = mode;
  executor_id = executor_id;
  executor_backend = executor_backend;
  stop_done = false;
  finishing = false;
  started_at = now;
  finished_at = none;
  result = none;
  stop_cause = none;
  output = [];
  output_bytes = 0;
  truncated = false;
  next_output = 0;
  dropped = 0;
  done = false;
}
