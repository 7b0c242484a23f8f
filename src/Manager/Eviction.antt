-- ===== src/Manager/Eviction.antt =====
-- beginEvictionLocked (internal/bed/manager/lifecycle_state.go), the critical sections of
-- evictResidentBed (eviction.go) and the last one of finishRetirement (manager.go).
use hostel.Base.{
  ℕ, String, Bool, true, false, not, ◌||◌, Option, none, some, if◌then◌else◌, ltb, ◌==◌, string_eq,
  nat_eq,
}
use hostel.Base.GoMap.{lookup, insert, delete}
use hostel.Base.Result.{Result, ok, ◌>>◌, return_if}
use hostel.Manager.State.{
  Manager, Error, bed_unavailable, resident, evicting, is_resident, set_bed, is_current,
  retained_until, set_lifecycle, after, sub_one,
}

abbrev pub not_due : Option ℕ → ℕ → Bool
not_due none until = false
not_due (some cutoff) until = until == 0 || after until cutoff

-- beginEvictionLocked with `stopPillows`: whether the eviction started, and the manager after it.
unfoldable pub begin_eviction : Manager → ℕ → Option ℕ → ℕ → Result Error (Bool × Manager)
begin_eviction m a cutoff now =
    let b = m.heap a in
    let status = record b.lifecycle {
      phase = evicting;
      ready = false;
      reason = "StoppingPillows";
      updated_at = now;
    } in
    do
      return_if (m.closed || not (is_current m a) || b.purging) bed_unavailable
      ok (
          if not (is_resident b.lifecycle.phase) || ltb 0 b.inflight
          then (false, m)
          else if not_due cutoff (retained_until b)
          then (false, m)
          else (true, set_bed m a (set_lifecycle b status)))

-- The last critical section of evictResidentBed, after the final snapshot; `sequence` is the
-- activity counter that was read when the eviction began.
unfoldable pub commit_eviction : Manager → ℕ → ℕ → Option Manager
commit_eviction m a sequence =
    let b = m.heap a in
    if m.closed || not (is_current m a) || ltb 0 b.inflight || not (b.activity_seq == sequence)
    then none
    else some (record m {
      retirements = insert b.name a m.retirements;
      beds = delete b.name m.beds;
      resident_beds = sub_one m.resident_beds;
    })

-- The write of the deferred resume of an eviction that did not commit: the Bed is admitted again.
-- Its test that the Bed is still current was made in an earlier section.
unfoldable pub resume_bed : Manager → ℕ → ℕ → Manager
resume_bed m a now =
    let b = m.heap a in
    set_bed m a (
      set_lifecycle b
        (record b.lifecycle { phase = resident; ready = false; reason = ""; updated_at = now }))

-- pillowsChanged
unfoldable pub pillows_changed : Manager → ℕ → Bool → ℕ → Manager
pillows_changed m a ready now =
    let b = m.heap a in
    let reason : String = if ready then "Initialized" else "RequiredPillowUnavailable" in
    if is_resident b.lifecycle.phase
    then set_bed m a (record b {
      lifecycle = record b.lifecycle { ready = ready; reason = reason; updated_at = now };
    })
    else m

is_retiring : Manager → ℕ → Bool
is_retiring m a = elim (lookup (m.heap a).name m.retirements) [ none ↦ false | some c ↦ c == a ]

-- finishRetirement, once the runtime and the local tree are gone
unfoldable pub finish_retirement : Manager → ℕ → Manager
unfolding is_retiring
finish_retirement m a =
    if is_retiring m a then record m { retirements = delete (m.heap a).name m.retirements } else m
