-- ===== src/Pillow/Hysteresis.antt =====
-- readinessTracker of internal/bed/pillow/supervision.go over the history of one execution.
use hostel.Base.{ℕ, suc, ◌≡◌, min, Bool, true, false, not, ◌&&◌, ◌||◌, List, [], ◌∷◌, leb, arith}
use hostel.Pillow.Supervision.{Probe, ReadinessTracker, fresh_tracker, track}

-- How many of the results, the latest first, equal `b` before the first that does not.
abbrev pub streak : Bool → List Bool → ℕ
streak b [] = 0
streak true (true ∷ rs) = suc (streak true rs)
streak true (false ∷ rs) = 0
streak false (false ∷ rs) = suc (streak false rs)
streak false (true ∷ rs) = 0

-- The tracker of one execution after its results, the latest first.
unfoldable pub tracked : Probe → List Bool → ReadinessTracker
tracked p [] = fresh_tracker
tracked p (r ∷ rs) = let s = tracked p rs in track s r p

tracked-streaks :
    (p : Probe) (rs : List Bool)
    → ((tracked p rs).successes ≡ min (streak true rs) p.success_threshold)
      × ((tracked p rs).failures ≡ min (streak false rs) p.failure_threshold)
unfolding tracked track
tracked-streaks p [] = (omega arith, omega arith)
tracked-streaks p (true ∷ rs) = let h = tracked-streaks p rs in (omega (arith, h), omega arith)
tracked-streaks p (false ∷ rs) = let h = tracked-streaks p rs in (omega arith, omega (arith, h))

-- For every history of probe results of one execution: a success makes it ready, or leaves it so,
-- exactly if it was ready or the streak of successes reaches the success threshold; a failure leaves
-- it ready exactly if it was and the streak of failures is below the failure threshold.
pub tracked-turns :
    (p : Probe) (rs : List Bool)
    → ((tracked p (true ∷ rs)).ready
        ≡ (leb p.success_threshold (suc (streak true rs)) || (tracked p rs).ready))
      × ((tracked p (false ∷ rs)).ready
          ≡ (not (leb p.failure_threshold (suc (streak false rs))) && (tracked p rs).ready))
unfolding tracked track
tracked-turns p rs = let h = tracked-streaks p rs in (ground (arith, h), ground (arith, h))
