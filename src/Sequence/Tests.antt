-- ===== src/Sequence/Tests.antt =====
-- A stop sequence of two hooks; the second one fails once.
use hostel.Base.{
  ℕ, ◌<◌, ◌≡◌, refl, String, Bool, true, false, not, List, [], ◌∷◌, arith, ltb, ◌==◌, nat_eq,
  length,
}
use hostel.Base.GoMap.{to_nat}
use hostel.Base.Result.{ok}
use hostel.Sequence.Run.{Phase, stop_phase, Sequence, new_sequence, run, run_hooks}
use hostel.Sequence.Progress.{Runs, here, next, successes, Runs-order, run_complete}

abbrev never : ℕ → Bool
never calls = false

abbrev second_call_fails : Phase → String → ℕ → ℕ → Bool
second_call_fails phase participant bed calls = not (calls == 1)

abbrev hooks : List String
hooks = "network" ∷ "volumes" ∷ []

abbrev interrupted : Sequence
interrupted = (run never second_call_fails 7 (new_sequence stop_phase hooks)).0

abbrev interrupted_log : List (ℕ × Bool)
interrupted_log = (1, false) ∷ (0, true) ∷ []

logged : interrupted.log ≡ interrupted_log
unfolding run run_hooks
logged = refl

first_run : Runs (new_sequence stop_phase hooks) interrupted
first_run = next never second_call_fails 7 here

Runs-order_example : successes 0 ((0, true) ∷ []) ≡ to_nat (ltb 0 1)
Runs-order_example =
    Runs-order stop_phase hooks interrupted [] ((0, true) ∷ []) 1 false 0 first_run logged

second_run : (run never second_call_fails 7 interrupted).1 ≡ ok tt
unfolding run run_hooks
second_run = refl

still_two : 0 < length interrupted.participants
unfolding run run_hooks
still_two = omega arith

run_complete_example : successes 0 (run never second_call_fails 7 interrupted).0.log ≡ 1
run_complete_example =
    run_complete stop_phase hooks interrupted never second_call_fails 7 0 first_run second_run
      still_two
