-- ===== src/Users/Exhaustion.antt =====
-- When Acquire of internal/bed/privilege/bed_user_allocator.go succeeds and when it does not.
use hostel.Base.{
  ℕ, ◌+◌, ◌-◌, ◌%◌, ◌≤◌, ◌≡◌, ◌↔◌, sym, ap, ◌∙◌, subst, String, inl, inr, none, some, Option-cases,
  nat_eq, string_eq, arith,
}
use hostel.Base.GoMap.{lookup}
use hostel.Base.Result.{ok, err, Result-cases}
use hostel.Users.Allocator.{BedUser, BedUserAllocator, exhausted, probe, acquire}
use hostel.Users.Probing.{ProbeOutcome, probe-outcome, offset_reaches}
use hostel.Users.OneToOne.{IsValid}
use hostel.Users.Assignment.{slots, acquire_probes, acquire_known}

module _ (stable_slot : String → ℕ → ℕ) where
  -- The probe gives up exactly on a full range.
  acquire_full :
      (a : BedUserAllocator) (bed_id : String)
      → IsValid a
      → (acquire stable_slot (some a) bed_id ≡ err exhausted) ↔ (
          (lookup bed_id a.by_bed ≡ none)
          × ((uid : ℕ)
              → a.uid_min ≤ uid
              → uid ≤ a.uid_max
              → (owner : String) × (lookup uid a.owner_uid ≡ some owner)))
  acquire_full a bed_id valid = elim (Option-cases (lookup bed_id a.by_bed)) [
    | inr (known_user, known) ↦
        let answer = acquire_known stable_slot a bed_id known_user valid.per_bed known in
        ((λ failed. absurd (cc (failed, answer))), (λ h. absurd (cc (h.0, known))))
    | inl absent ↦
        let start = stable_slot bed_id (slots a) in
        let outcome = probe-outcome (slots a) 0 start (slots a) a bed_id valid.low (omega arith) in
        let by_probe = acquire_probes stable_slot a bed_id valid.per_bed absent in
        elim (Result-cases (probe (slots a) 0 start (slots a) a bed_id)) [
          | inl (out, found) ↦
              let (uid, from, to, free, own, gid, equal) =
                subst (ProbeOutcome (slots a) 0 start (slots a) a bed_id) found outcome in
              (
                (λ failed. absurd (ground arith)),
                (λ h.
                    let owned = h.1 uid from (omega (arith, valid.high)) in
                    absurd (cc (owned.1, free))),
              )
          | inr (e, failed) ↦
              let (cause, all) =
                subst (ProbeOutcome (slots a) 0 start (slots a) a bed_id) failed outcome in
              (
                (λ h. (
                  absent,
                  λ uid from to.
                      let (i, below, hit) =
                        offset_reaches start (slots a) (uid - a.uid_min) (omega arith) in
                      let there : a.uid_min + (start + i) % slots a ≡ uid = omega (arith, hit) in
                      let (owner, owned) = all i (omega arith) (omega arith) in
                      (owner, ap (λ k. lookup k a.owner_uid) (sym there) ∙ owned),
                )),
                (λ h. ground arith),
              )
        ]
  ]

  acquire_free :
      (a : BedUserAllocator) (bed_id : String) (uid : ℕ)
      → IsValid a
      → lookup bed_id a.by_bed ≡ none
      → a.uid_min ≤ uid
      → uid ≤ a.uid_max
      → lookup uid a.owner_uid ≡ none
      → (user : BedUser) × (a' : BedUserAllocator) × (acquire stable_slot (some a) bed_id
          ≡ ok (user, some a'))
  acquire_free a bed_id uid valid absent from to unowned =
      let start = stable_slot bed_id (slots a) in
      let outcome = probe-outcome (slots a) 0 start (slots a) a bed_id valid.low (omega arith) in
      let by_probe = acquire_probes stable_slot a bed_id valid.per_bed absent in
      elim (Result-cases (probe (slots a) 0 start (slots a) a bed_id)) [
        | inl (out, found) ↦ (out.0, out.1, ground (arith, by_probe, found))
        | inr (e, failed) ↦
            let (cause, all) =
              subst (ProbeOutcome (slots a) 0 start (slots a) a bed_id) failed outcome in
            let exhaustion : acquire stable_slot (some a) bed_id ≡ err exhausted =
              ground (arith, by_probe, failed, cause) in
            let (owner, owned) = ((acquire_full a bed_id valid).0 exhaustion).1 uid from to in
            absurd (cc (owned, unowned))
      ]

  -- On an allocator that keeps the two maps inverse, Acquire for any Bed and any hash reports the
  -- exhaustion exactly if the Bed has no user and every user id of the range is owned. It succeeds in
  -- every other case: a Bed that has a user gets that user and leaves the allocator as it is, and a
  -- Bed without one gets a user where some id of the range is not owned.
  pub acquire_exhausted :
      (a : BedUserAllocator) (bed_id : String)
      → IsValid a
      → ((acquire stable_slot (some a) bed_id ≡ err exhausted) ↔ (
          (lookup bed_id a.by_bed ≡ none)
          × ((uid : ℕ)
              → a.uid_min ≤ uid
              → uid ≤ a.uid_max
              → (owner : String) × (lookup uid a.owner_uid ≡ some owner))))
        × ((user : BedUser)
            → lookup bed_id a.by_bed ≡ some user
            → acquire stable_slot (some a) bed_id ≡ ok (user, some a))
        × ((uid : ℕ)
            → lookup bed_id a.by_bed ≡ none
            → a.uid_min ≤ uid
            → uid ≤ a.uid_max
            → lookup uid a.owner_uid ≡ none
            → (user : BedUser) × (a' : BedUserAllocator) × (acquire stable_slot (some a) bed_id
                ≡ ok (user, some a')))
  acquire_exhausted a bed_id valid = (
    acquire_full a bed_id valid,
    λ user known. acquire_known stable_slot a bed_id user valid.per_bed known,
    λ uid absent from to unowned. acquire_free a bed_id uid valid absent from to unowned,
  )
