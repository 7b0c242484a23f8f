-- ===== src/Pillow/Tests.antt =====
-- A process that fails until its budget of two restarts is spent, and a probe with thresholds.
use hostel.Base.{
  ℕ, String, Bool, none, some, if◌then◌else◌, ◌==◌, nat_eq, string_eq, suc, ◌+◌, ◌≤◌, ◌≡◌, ◌↔◌,
  refl, true, false, not, ◌&&◌, ◌||◌, List, [], ◌∷◌, leb, any, arith,
}
use hostel.Pillow.Supervision.{
  on_failure, RunResult, Wake, timer_fires, restart_asked, context_done, Turn, Attempt, last_run,
  retry_port_conflict, no_outcome, decided, restarted, stopped, process_exited, supervise, decide,
  backoff_seconds, backoff, failed, Probe, Pillow, running, starting, group_readiness,
}
use hostel.Pillow.Budget.{IsWithin, waits, supervise-budget, group_readiness-exact}
use hostel.Pillow.Hysteresis.{tracked, streak, tracked-turns}

abbrev crash : RunResult
crash = record {
  explicit = false;
  has_error = false;
  kind = process_exited;
  exit_code_zero = false;
}

abbrev unstarted : RunResult
unstarted = record { explicit = false; has_error = true; kind = no_outcome; exit_code_zero = true }

abbrev web_ports : List (String × Bool)
web_ports = ("web", true) ∷ []

-- The first attempt meets a port conflict, the second runs and crashes.
abbrev crash_runs : ℕ → Attempt
crash_runs attempt = record {
  conflict = if attempt == 0 then some "web" else none;
  result = if attempt == 0 then unstarted else crash;
}

abbrev crash_then : Wake → Turn
crash_then wake = record { canceled = false; runs = crash_runs; wake = wake; resumed = true }

-- The first wait ends by its timer, the second by an explicit restart, the third by the timer, and
-- the fourth by the end of the context.
abbrev crashes : List Turn
crashes =
    crash_then timer_fires
    ∷ crash_then restart_asked
    ∷ crash_then timer_fires
    ∷ crash_then context_done
    ∷ []

spent :
    supervise web_ports on_failure 2 0 crashes
    ≡ decided (backoff 1 1)
      ∷ decided (backoff 2 2)
      ∷ restarted
      ∷ decided (backoff 1 1)
      ∷ decided (backoff 2 2)
      ∷ stopped
      ∷ []
unfolding supervise decide backoff_seconds last_run retry_port_conflict
spent = refl

resumed :
    supervise web_ports on_failure 1 1 (crash_then timer_fires ∷ crash_then timer_fires ∷ [])
    ≡ decided failed ∷ restarted ∷ decided (backoff 1 1) ∷ []
unfolding supervise decide backoff_seconds last_run retry_port_conflict
resumed = refl

supervise-budget_example :
    IsWithin 2 0 (supervise web_ports on_failure 2 0 crashes)
    × (waits (supervise web_ports on_failure 2 0 crashes) + 0 ≤ 2)
supervise-budget_example = supervise-budget web_ports on_failure 2 0 crashes (omega arith)

abbrev server : Pillow
server = record { name = "server"; required = true; ready = true; phase = running }

abbrev helper : Pillow
helper = record { name = "helper"; required = false; ready = false; phase = starting }

group_readiness-exact_example :
    ((group_readiness false (server ∷ helper ∷ [])).0 ≡ true)
    ↔ ((false ≡ false) × (any (λ r. r.required && not r.ready) (server ∷ helper ∷ []) ≡ false))
group_readiness-exact_example = group_readiness-exact false (server ∷ helper ∷ [])

abbrev twice : Probe
twice = record { success_threshold = 2; failure_threshold = 3 }

tracked-turns_example :
    ((tracked twice (true ∷ true ∷ [])).ready
      ≡ (leb 2 (suc (streak true (true ∷ []))) || (tracked twice (true ∷ [])).ready))
    × ((tracked twice (false ∷ true ∷ [])).ready
        ≡ (not (leb 3 (suc (streak false (true ∷ [])))) && (tracked twice (true ∷ [])).ready))
tracked-turns_example = tracked-turns twice (true ∷ [])
