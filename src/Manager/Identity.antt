-- ===== src/Manager/Identity.antt =====
-- publishInitializedBed (internal/bed/manager/initialization.go) and the section of purgeOwned
-- (purge.go) that takes a Bed out of service.
use hostel.Base.{
  ℕ, String, Bool, true, false, not, ◌||◌, Option, none, some, if◌then◌else◌, string_eq, nat_eq,
}
use hostel.Base.GoMap.{lookup, insert, delete}
use hostel.Manager.State.{
  Manager, resident, set_bed, pinned, set_lifecycle, keepalive, add_one, sub_one,
}

abbrev pub is_some {ℓ} : {A : Type ℓ} → Option A → Bool
is_some none = false
is_some (some _) = true

-- publishInitializedBed, where the initialization is still the current one (`wanted`); `ready` is
-- the verdict of the Pillows.
unfoldable pub publish : Manager → ℕ → Bool → Bool → ℕ → Option Manager
publish m a wanted ready now =
    let b = m.heap a in
    let status = record b.lifecycle {
      phase = resident;
      ready = ready;
      reason = if ready then "Initialized" else "RequiredPillowUnavailable";
      updated_at = now;
    } in
    let b' = set_lifecycle (keepalive b now) status in
    let m' = set_bed m a b' in
    if m.closed || not wanted || is_some (lookup b.name m.beds)
    then none
    else some (record m' {
      beds = insert b.name a m.beds;
      resident_beds = add_one m.resident_beds;
      pinned_beds = if pinned b' then add_one m.pinned_beds else m.pinned_beds;
    })

-- The entry of the map, the counters and the purging mark.
unfoldable pub claim : Manager → String → ℕ → Manager
claim m id a =
    let b = record (m.heap a) { purging = true } in
    record (set_bed m a b) {
      retirements = insert id a m.retirements;
      beds = delete id m.beds;
      resident_beds = sub_one m.resident_beds;
      pinned_beds = if pinned b then sub_one m.pinned_beds else m.pinned_beds;
    }

-- purgeOwned takes the Bed of this name out of service.
unfoldable pub claim_purge : Manager → String → Manager
claim_purge m id = elim (lookup id m.beds) [ none ↦ m | some a ↦ claim m id a ]
