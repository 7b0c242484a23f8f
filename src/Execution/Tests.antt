-- ===== src/Execution/Tests.antt =====
-- A command that is stopped by its timeout, its output, and a registry with it.
use hostel.Base.{
  ℕ, ◌≤◌, ◌≡◌, ◌∷◌, refl, String, Bool, true, false, Option, none, some, List, [], ℤ, string_eq,
  arith, pos, length,
}
use hostel.Base.GoMap.{lookup, delete}
use hostel.Execution.State.{
  Execution, ExecutionOutput, ExecutionResult, timeout, client_canceled, foreground, stdout, stderr,
  exited, new_execution, output_budget, output_fragments, history_limit,
}
use hostel.Execution.Output.{append_output, evict, clip, release_output, logs, start_of}
use hostel.Execution.Terminal.{
  is_some, request_stop, close_stop_done, claim_finish, settle_cause, publish_result, result_of,
}
use hostel.Execution.Ending.{
  World, Told, stops, signals, claims, publishes, Run, here, next, Run-append, running, published,
}
use hostel.Execution.Causes.{
  started, IsCauseOf, NoPanic, IsReached, Run-owns_cause, request_stop-final, Run-can_finish,
}
use hostel.Execution.Pages.{CacheOp, write, release, run_cache, written, Shows, run_cache_refines}
use hostel.Execution.Registry.{
  ExecutionRegistry, RemoveResult, remove_done, remove_log, prune, prune_loop, prune_one,
  prune_finished,
}
use hostel.Execution.Tally.{tally, is_hot, is_native_record}
use hostel.Execution.Retention.{prune_hot_bound, prune_native_bound}
use hostel.Execution.Protected.{prune-keeps}

abbrev ops : List CacheOp
ops = write stdout (104 ∷ 105 ∷ []) ∷ release ∷ write stderr (33 ∷ []) ∷ []

run_cache_refines_example :
    (e : Execution) × (run_cache (new_execution "exec-1" "" "bed" foreground "x" "local" 7) ops
      ≡ some e)
    × (e.output_bytes ≤ output_budget)
    × (length e.output ≤ output_fragments)
    × ((cursor : ℤ) → Shows (written [] ops) e cursor)
run_cache_refines_example = run_cache_refines "exec-1" "" "bed" foreground "x" "local" 7 ops

abbrev numbers : List ExecutionOutput → List ℕ
numbers [] = []
numbers (x ∷ xs) = x.sequence ∷ numbers xs

abbrev page : Option Execution → Option (List ℕ × ℤ × Bool)
page none = none
page (some e) =
    some (numbers (logs e (pos 0)).output, (logs e (pos 0)).next, (logs e (pos 0)).truncated)

-- After the release the page has the last fragment alone and says so.
released_page :
    page (run_cache (new_execution "exec-1" "" "bed" foreground "x" "local" 7) ops)
    ≡ some (1 ∷ [], pos 1, true)
unfolding append_output evict clip release_output logs start_of
released_page = refl

abbrev told : Told
told = record {
  outcome = some (record {
    kind = exited;
    exit_code = 137;
    signal = 0;
    core_dumped = false;
    message = "";
    detail = "";
  });
  failure = none;
  close_failure = none;
}

abbrev fresh : Execution
fresh = new_execution "exec-1" "" "bed" foreground "x" "local" 7

abbrev timed_out : Execution
timed_out = record fresh { stop_cause = some timeout }

abbrev killed : Execution
killed = record timed_out { stop_done = true }

abbrev result : ExecutionResult
result = result_of killed told.outcome none timeout 9

abbrev finished_run : Execution
finished_run = record killed { finished_at = some 9; result = some result }

abbrev at_start : World
at_start = started "exec-1" "" "bed" foreground "x" "local" 7

at_start-IsReached : IsReached told at_start
unfolding IsReached
at_start-IsReached = ("exec-1", "", "bed", "x", "local", foreground, 7, here)

accepted : request_stop fresh timeout ≡ some timed_out
unfolding request_stop
accepted = refl

abbrev stopping : World
stopping = record { execution = timed_out; finisher = running; signalling = true }

abbrev over : World
over = record { execution = finished_run; finisher = published; signalling = false }

to_end : Run told stopping over
unfolding close_stop_done claim_finish publish_result settle_cause
to_end =
    next (next (next here (signals killed refl refl)) (claims refl))
      (publishes (some timeout) timeout 9 refl (λ stopped. refl) refl)

over-IsReached : IsReached told over
unfolding IsReached
over-IsReached = (
  "exec-1",
  "",
  "bed",
  "x",
  "local",
  foreground,
  7,
  Run-append told (next here (stops timeout timed_out accepted)) to_end,
)

Run-owns_cause_example :
    IsCauseOf told (some timeout) timeout
    × (true ≡ true)
    × (request_stop finished_run client_canceled ≡ none)
Run-owns_cause_example = Run-owns_cause told over result client_canceled over-IsReached refl

request_stop-final_example : timeout ≡ timeout
request_stop-final_example =
    request_stop-final told at_start over timed_out timeout result at_start-IsReached accepted
      to_end refl

Run-can_finish_example :
    ((w' : World) × Run told at_start w'
      × (w'.execution.done ≡ true)
      × ((r : ExecutionResult) × (w'.execution.result ≡ some r)))
    × NoPanic told at_start
Run-can_finish_example = Run-can_finish told at_start at_start-IsReached refl

abbrev running_one : Execution
running_one = new_execution "exec-2" "" "bed" foreground "x" "local" 8

abbrev registry : ExecutionRegistry
registry = record {
  executions = ("exec-1", finished_run) ∷ ("exec-2", running_one) ∷ [];
  order = "exec-1" ∷ "exec-2" ∷ [];
}

-- A clock two days on, by which the finished execution has expired.
abbrev clock : String → ℕ
clock id = 172800000000000

abbrev remove : String → RemoveResult
remove path = remove_done

cleaned :
    (id : String) (e : Execution)
    → lookup id registry.executions ≡ some e
    → is_some e.result ≡ true
    → remove_log remove e ≡ true
unfolding lookup remove_log
cleaned id e at done = ground arith

pruned_order : (prune clock remove registry).order ≡ "exec-2" ∷ []
unfolding prune prune_loop prune_one prune_finished lookup delete remove_log
pruned_order = refl

running_there : lookup "exec-2" registry.executions ≡ some running_one
unfolding lookup
running_there = refl

prune-keeps_example :
    (e' : Execution) × (lookup "exec-2" (prune clock remove registry).executions ≡ some e')
    × (release_output e' ≡ release_output running_one)
    × (running_one.result ≡ none → e' ≡ running_one)
prune-keeps_example =
    prune-keeps clock remove registry "exec-2" running_one running_there
      (λ done. absurd (ground (arith, done)))

prune_hot_bound_example :
    tally is_hot (prune clock remove registry).executions (prune clock remove registry).order
    ≤ history_limit
prune_hot_bound_example = prune_hot_bound clock remove registry

prune_native_bound_example :
    tally is_native_record
      (prune clock remove registry).executions
      (prune clock remove registry).order
    ≤ history_limit
prune_native_bound_example = prune_native_bound clock remove registry cleaned
