-- ===== src/Users/Probing.antt =====
-- The probe of Acquire in internal/bed/privilege/bed_user_allocator.go.
use native.Mathlib.Nat.{mod-add-mod, mod-eq_of_lt, mod-lt, add-mod_right}
use hostel.Base.{
  ℕ, zero, suc, ◌+◌, ◌-◌, ◌%◌, ◌≤◌, ◌<◌, ◌≡◌, refl, sym, ap, ◌∙◌, subst, String, inl, inr, none,
  some, Bool-cases, Option-cases, leb, ◌==◌, nat_eq, string_eq, arith,
}
use hostel.Base.GoMap.{lookup}
use hostel.Base.Result.{Result, ok, err}
use hostel.Users.Allocator.{
  BedUser, BedUserAllocator, Error, exhausted, new_bed_user, assigned, probe,
}

-- From any start, some offset below `slots` reaches the slot `r`.
pub offset_reaches :
    (start slots r : ℕ) → r < slots → (i : ℕ) × (i < slots) × ((start + i) % slots ≡ r)
offset_reaches start slots r h =
    let s = start % slots in
    let below : s < slots = mod-lt start (omega arith) in
    elim (Bool-cases (leb s r)) [
      | inl near ↦
          let sum : s + (r - s) ≡ r = ground arith in
          (
            r - s,
            ground arith,
            sym (mod-add-mod start slots (r - s)) ∙ ap (λ x. x % slots) sum ∙ mod-eq_of_lt h,
          )
      | inr far ↦
          let sum : s + (r + slots - s) ≡ r + slots = ground arith in
          (
            r + slots - s,
            ground arith,
            sym (mod-add-mod start slots (r + slots - s))
                ∙ ap (λ x. x % slots) sum
                ∙ add-mod_right r slots
                ∙ mod-eq_of_lt h,
          )
    ]

pub new_bed_user_plain :
    (uid : ℕ) → 0 < uid → new_bed_user uid uid ≡ ok (record { uid = uid; gid = uid })
unfolding new_bed_user
new_bed_user_plain uid positive = ground arith

-- What the probe from `offset` on with `n` slots left answers: either all of them are owned, or a
-- user of the range that nobody owns is assigned.
abbrev pub ProbeOutcome :
    ℕ → ℕ → ℕ → ℕ → BedUserAllocator → String → Result Error (BedUser × BedUserAllocator) → Type 0
ProbeOutcome n offset start slots a bed_id (err e) =
    (e ≡ exhausted)
    × ((i : ℕ)
        → offset ≤ i
        → i < offset + n
        → (owner : String) × (lookup (a.uid_min + (start + i) % slots) a.owner_uid ≡ some owner))
ProbeOutcome n offset start slots a bed_id (ok r) =
    (uid : ℕ) × (a.uid_min ≤ uid)
    × (uid < a.uid_min + slots)
    × (lookup uid a.owner_uid ≡ none)
    × (r.0.uid ≡ uid)
    × (r.0.gid ≡ uid)
    × (r.1 ≡ assigned a bed_id (r.0) uid)

weaken :
    (n offset start slots : ℕ) (a : BedUserAllocator) (bed_id owner : String)
    (r : Result Error (BedUser × BedUserAllocator))
    → lookup (a.uid_min + (start + offset) % slots) a.owner_uid ≡ some owner
    → ProbeOutcome n (suc offset) start slots a bed_id r
    → ProbeOutcome (suc n) offset start slots a bed_id r
weaken n offset start slots a bed_id owner (ok r) owned outcome = outcome
weaken n offset start slots a bed_id owner (err e) owned outcome = (
  outcome.0,
  λ i low high. elim (Bool-cases (offset == i)) [
    | inl same ↦
        let equal : offset ≡ i = ground arith in
        (
          owner,
          subst (λ j. lookup (a.uid_min + (start + j) % slots) a.owner_uid ≡ some owner) equal
              owned,
        )
    | inr other ↦ outcome.1 i (ground arith) (omega arith)
  ],
)

pub probe-outcome :
    (n offset start slots : ℕ) (a : BedUserAllocator) (bed_id : String)
    → 0 < a.uid_min
    → 0 < slots
    → ProbeOutcome n offset start slots a bed_id (probe n offset start slots a bed_id)
unfolding probe
probe-outcome zero offset start slots a bed_id low positive =
    (refl, λ i above below. absurd (omega arith))
probe-outcome (suc n) offset start slots a bed_id low positive =
    let uid = a.uid_min + (start + offset) % slots in
    let in_range = mod-lt (start + offset) positive in
    elim (Option-cases (lookup uid a.owner_uid)) [
      | inr (owner, owned) ↦
          rw (owned, probe)
            (weaken n offset start slots a bed_id owner (probe n (suc offset) start slots a bed_id)
              owned (probe-outcome n (suc offset) start slots a bed_id low positive))
      | inl free ↦
          rw (free, new_bed_user_plain uid (omega arith), probe)
            (uid, omega arith, omega arith, free, refl, refl, refl)
    ]
