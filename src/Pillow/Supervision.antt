-- ===== src/Pillow/Supervision.antt =====
-- internal/bed/pillow/supervision.go and groupReadiness of manager.go. One turn of the loop of
-- supervise is a function of the result of its last attempt to run and of what ends its wait; logging
-- and the process are outside.
use hostel.Base.{
  zero, String, Option, none, some, ◌==◌, string_eq, ℕ, suc, ◌+◌, ◌-◌, ◌^◌, min, Bool, true, false,
  not, ◌&&◌, ◌||◌, List, [], ◌∷◌, if◌then◌else◌, ltb, leb, nat_eq,
}

pub data RestartPolicy : Type 0 where
  never_restart on_failure always_restart : RestartPolicy

-- The last is the empty kind, of a run that ended before its process did.
pub data OutcomeKind : Type 0 where
  process_exited process_signaled process_lost no_outcome : OutcomeKind

-- What `run` returns: an explicit restart, whether there is an error, and the process's outcome.
pub record RunResult : Type 0 where
  pub explicit : Bool
  pub has_error : Bool
  pub kind : OutcomeKind
  pub exit_code_zero : Bool

-- What the loop does next: run again with the counter, wait and run again, or rest in a phase.
pub data Decision : Type 0 where
  again : ℕ → Decision
  backoff : ℕ → ℕ → Decision
  failed completed : Decision

-- retryPortConflict, for the ports of a spec with their names and whether they are dynamic; none is
-- an error that is no port conflict.
unfoldable pub retry_port_conflict : Option String → List (String × Bool) → Bool
retry_port_conflict none ports = false
retry_port_conflict (some name) [] = false
retry_port_conflict (some name) ((port, dynamic) ∷ ports) =
    let rest = retry_port_conflict (some name) ports in if port == name then dynamic else rest

-- One attempt to run: the name of the port that conflicted, where its error is a port conflict.
pub record Attempt : Type 0 where
  pub conflict : Option String
  pub result : RunResult

-- The attempts of one turn from `attempt` on, with `left` more after it: the result of the last.
unfoldable pub last_run : List (String × Bool) → (ℕ → Attempt) → ℕ → ℕ → RunResult
last_run ports runs zero attempt = (runs attempt).result
last_run ports runs (suc left) attempt =
    let next = last_run ports runs left (suc attempt) in
    if retry_port_conflict (runs attempt).conflict ports then next else (runs attempt).result

-- What ends the wait of a backoff.
pub data Wake : Type 0 where
  timer_fires restart_asked context_done : Wake

-- One turn: whether the context has ended when its runs have, the attempts to run by their number,
-- what ends the wait where it comes to one, and whether an explicit restart or the context ends the rest.
pub record Turn : Type 0 where
  pub canceled : Bool
  pub runs : ℕ → Attempt
  pub wake : Wake
  pub resumed : Bool

-- What the loop does, in order: its decisions, the explicit restarts that end a wait or a rest, and
-- the end of the loop in the phase "stopped".
pub data Event : Type 0 where
  decided : Decision → Event
  restarted stopped : Event

abbrev is_exited : OutcomeKind → Bool
is_exited process_exited = true
is_exited _ = false

abbrev pub is_lost : OutcomeKind → Bool
is_lost process_lost = true
is_lost _ = false

abbrev pub is_failure : RunResult → Bool
is_failure r = r.has_error || not (is_exited r.kind) || not (r.exit_code_zero)

abbrev pub restarts_after : RestartPolicy → Bool → Bool
restarts_after always_restart failure = true
restarts_after on_failure failure = failure
restarts_after never_restart failure = false

abbrev pub is_automatic : RestartPolicy → RunResult → Bool
is_automatic policy r = restarts_after policy (is_failure r) || is_lost r.kind

-- min(1<<min(restarts-1, 5), 30) seconds, for a positive counter
unfoldable pub backoff_seconds : ℕ → ℕ
backoff_seconds restarts = min (2 ^ min (restarts - 1) 5) 30

-- One turn of supervise after its run.
unfoldable pub decide : RestartPolicy → ℕ → ℕ → RunResult → Decision
decide policy max_restarts restarts r =
    if r.explicit
    then again 0
    else if is_automatic policy r && ltb restarts max_restarts
    then backoff (suc restarts) (backoff_seconds (suc restarts))
    else if is_failure r
    then failed
    else completed

-- supervise over its turns, for a Pillow with these ports, with at most three attempts to run in each. Where the context ends a wait, the next run returns at once.
unfoldable pub supervise : List (String × Bool) → RestartPolicy → ℕ → ℕ → List Turn → List Event
supervise ports policy max_restarts restarts [] = []
supervise ports policy max_restarts restarts (t ∷ ts) =
    if t.canceled
    then stopped ∷ []
    else elim (decide policy max_restarts restarts (last_run ports t.runs 2 0)) [
      | again n ↦ decided (again n) ∷ supervise ports policy max_restarts n ts
      | backoff n seconds ↦ decided (backoff n seconds) ∷ (elim t.wake [
        | timer_fires ↦ supervise ports policy max_restarts n ts
        | restart_asked ↦ restarted ∷ supervise ports policy max_restarts 0 ts
        | context_done ↦ stopped ∷ []
      ])
      | failed ↦
          decided failed
          ∷ (if t.resumed
              then restarted ∷ supervise ports policy max_restarts 0 ts
              else stopped ∷ [])
      | completed ↦
          decided completed
          ∷ (if t.resumed
              then restarted ∷ supervise ports policy max_restarts 0 ts
              else stopped ∷ [])
    ]

pub record Probe : Type 0 where
  pub success_threshold : ℕ
  pub failure_threshold : ℕ

pub record ReadinessTracker : Type 0 where
  pub ready : Bool
  pub successes : ℕ
  pub failures : ℕ

pub record ReadinessResult : Type 0 where
  pub is_ready : Bool
  pub reason : String

abbrev pub fresh_tracker : ReadinessTracker
fresh_tracker = record { ready = false; successes = 0; failures = 0 }

abbrev pub thresholds : Option Probe → Probe
thresholds none = record { success_threshold = 1; failure_threshold = 1 }
thresholds (some p) = p

unfoldable pub track : ReadinessTracker → Bool → Probe → ReadinessTracker
track s true p =
    let n = min (s.successes + 1) p.success_threshold in
    record { ready = leb p.success_threshold n || s.ready; successes = n; failures = 0 }
track s false p =
    let n = min (s.failures + 1) p.failure_threshold in
    record { ready = not (leb p.failure_threshold n) && s.ready; successes = 0; failures = n }

-- readinessTracker.observe
unfoldable pub observe :
    ReadinessTracker → ReadinessResult → Option Probe → ReadinessTracker × ReadinessResult
observe s result probe =
    let s' = track s result.is_ready (thresholds probe) in
    (
      s',
      if s'.ready
          then record { is_ready = true; reason = "" }
          else if result.is_ready
          then record { is_ready = false; reason = "ReadinessSuccessThresholdPending" }
          else result,
    )

pub data PillowPhase : Type 0 where
  starting running stopping stopped_phase backing_off failed_phase completed_phase prepared :
      PillowPhase

pub record Pillow : Type 0 where
  pub name : String
  pub required : Bool
  pub ready : Bool
  pub phase : PillowPhase

abbrev pub is_terminal : PillowPhase → Bool
is_terminal failed_phase = true
is_terminal stopped_phase = true
is_terminal completed_phase = true
is_terminal _ = false

-- The loop of groupReadiness.
unfoldable pub scan_records : Bool → List Pillow → Bool × String
scan_records ready [] = (ready, "")
scan_records ready (r ∷ rs) =
    let waiting = scan_records false rs in
    let rest = scan_records ready rs in
    if r.required && not r.ready
    then (if is_terminal r.phase then (false, r.name) else waiting)
    else rest

-- groupReadiness
unfoldable pub group_readiness : Bool → List Pillow → Bool × String
group_readiness is_stopped records = scan_records (not is_stopped) records

abbrev pub is_running : PillowPhase → Bool
is_running running = true
is_running _ = false

-- Manager.update: a write to a Pillow's status, after which only a running one is ready.
unfoldable pub update_pillow : Pillow → (Pillow → Pillow) → Pillow
update_pillow r fn = let s = fn r in if is_running s.phase then s else record s { ready = false }
