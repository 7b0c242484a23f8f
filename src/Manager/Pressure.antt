-- ===== src/Manager/Pressure.antt =====
-- The bed-count signals of internal/bed/manager/manager.go. The int64 product of a limit and the
-- percentage is taken not to wrap, which it does not for limits below 2^56.
use hostel.Base.{ℕ, ◌+◌, ◌*◌, ◌/◌, Bool, true, false, ◌&&◌, ◌||◌, if◌then◌else◌, ltb, leb}

-- bedPressureThreshold, on ℕ: exact where `limit * percent + 99` is below 2^63.
unfoldable pub bed_pressure_threshold : ℕ → ℕ → ℕ
bed_pressure_threshold limit percent =
    if leb limit 0 || leb percent 0 then 0 else (limit * percent + 99) / 100

-- bedPressureForCounts
unfoldable pub bed_pressure_for_counts : ℕ → ℕ → ℕ → ℕ → ℕ → Bool
bed_pressure_for_counts percent max_pinned max_beds occupied pinned =
    let pinned_threshold = bed_pressure_threshold max_pinned percent in
    let occupied_threshold = bed_pressure_threshold max_beds percent in
    if leb percent 0
    then false
    else if ltb 0 pinned_threshold && leb pinned_threshold pinned
    then true
    else ltb 0 occupied_threshold && leb occupied_threshold occupied
