-- ===== src/Users/Assignment.antt =====
-- Runs of internal/bed/privilege/bed_user_allocator.go, and what the Bed manager asks of it.
use hostel.Base.{
  ℕ, ◌+◌, ◌-◌, ◌≤◌, ◌<◌, ◌≡◌, ◌≢◌, refl, sym, ap, ◌∙◌, subst, String, ◌||◌, inl, inr, Option, none,
  some, Bool-cases, Option-cases, ltb, nat_eq, string_eq, arith,
}
use hostel.Base.GoMap.{lookup}
use hostel.Base.Result.{Result, ok, err, Result-cases}
use hostel.Users.Allocator.{
  BedUser, BedUserAllocator, Error, new_per_bed, assigned, reserve, probe, acquire, release,
}
use hostel.Users.Probing.{ProbeOutcome, probe-outcome, new_bed_user_plain}
use hostel.Users.OneToOne.{IsValid, new_per_bed-IsValid, assigned-IsValid, release-IsValid}

abbrev pub slots : BedUserAllocator → ℕ
slots a = a.uid_max - a.uid_min + 1

module _ (stable_slot : String → ℕ → ℕ) where
  pub data Step (a : BedUserAllocator) : BedUserAllocator → Type 0 where
    acquires :
        (bed_id : String) (user : BedUser) (a' : BedUserAllocator)
        → acquire stable_slot (some a) bed_id ≡ ok (user, some a')
        → Step a a'
    reserves :
        (bed_id : String) (uid : ℕ) (a' : BedUserAllocator)
        → reserve a bed_id uid ≡ ok a'
        → Step a a'
    releases : (bed_id : String) → Step a (release a bed_id)

  pub data Run (a : BedUserAllocator) : BedUserAllocator → Type 0 where
    here : Run a a
    next : {b c : BedUserAllocator} → Run a b → Step b c → Run a c

  -- A Bed without a user goes through the probe.
  pub acquire_probes :
      (a : BedUserAllocator) (bed_id : String)
      → a.fixed ≡ none
      → lookup bed_id a.by_bed ≡ none
      → (let r = probe (slots a) 0 (stable_slot bed_id (slots a)) (slots a) a bed_id in
          acquire stable_slot (some a) bed_id
          ≡ elim r [ err e ↦ err e | ok out ↦ ok (out.0, some (out.1)) ])
  unfolding acquire
  acquire_probes a bed_id per_bed absent = ground arith

  pub acquire_known :
      (a : BedUserAllocator) (bed_id : String) (user : BedUser)
      → a.fixed ≡ none
      → lookup bed_id a.by_bed ≡ some user
      → acquire stable_slot (some a) bed_id ≡ ok (user, some a)
  unfolding acquire
  acquire_known a bed_id user per_bed known = ground arith

  acquired_same :
      {r : Result Error (BedUser × Option BedUserAllocator)}
      {p : Result Error (BedUser × BedUserAllocator)} {out : BedUser × BedUserAllocator}
      {user : BedUser} {a' : BedUserAllocator}
      → r ≡ elim p [ err e ↦ err e | ok out ↦ ok (out.0, some (out.1)) ]
      → p ≡ ok out
      → r ≡ ok (user, some a')
      → out.1 ≡ a'
  acquired_same by_probe found done = ground arith

  probe_failed :
      {r : Result Error (BedUser × Option BedUserAllocator)}
      {p : Result Error (BedUser × BedUserAllocator)} {e : Error}
      {out : BedUser × Option BedUserAllocator}
      → r ≡ elim p [ err e ↦ err e | ok out ↦ ok (out.0, some (out.1)) ]
      → p ≡ err e
      → r ≢ ok out
  probe_failed by_probe failed done = ground arith

  acquire-IsValid :
      (a a' : BedUserAllocator) (bed_id : String) (user : BedUser)
      → acquire stable_slot (some a) bed_id ≡ ok (user, some a')
      → IsValid a
      → IsValid a'
  acquire-IsValid a a' bed_id user done valid = elim (Option-cases (lookup bed_id a.by_bed)) [
    | inr (known_user, known) ↦
        let same : a ≡ a' = ground (arith, acquire_known a bed_id known_user valid.per_bed known) in
        subst IsValid same valid
    | inl absent ↦
        let start = stable_slot bed_id (slots a) in
        let outcome = probe-outcome (slots a) 0 start (slots a) a bed_id valid.low (omega arith) in
        let by_probe = acquire_probes a bed_id valid.per_bed absent in
        elim (Result-cases (probe (slots a) 0 start (slots a) a bed_id)) [
          | inl (out, found) ↦
              let (uid, from, to, free, own, gid, equal) =
                subst (ProbeOutcome (slots a) 0 start (slots a) a bed_id) found outcome in
              let same : out.1 ≡ a' = acquired_same by_probe found done in
              subst IsValid (sym equal ∙ same)
                (assigned-IsValid a bed_id (out.0) uid absent free own gid from (omega arith) valid)
          | inr (e, failed) ↦ absurd (probe_failed by_probe failed done)
        ]
  ]

  reserve-IsValid :
      (a a' : BedUserAllocator) (bed_id : String) (uid : ℕ)
      → reserve a bed_id uid ≡ ok a'
      → IsValid a
      → IsValid a'
  unfolding reserve
  reserve-IsValid a a' bed_id uid done valid =
      elim (Bool-cases (ltb uid a.uid_min || ltb a.uid_max uid)) [
        | inl outside ↦
            let same : a ≡ a' = ground (arith, valid.per_bed) in subst IsValid same valid
        | inr inside ↦ elim (Option-cases (lookup bed_id a.by_bed)) [
          | inr (user, known) ↦
              let same : a ≡ a' = ground (arith, valid.per_bed) in subst IsValid same valid
          | inl absent ↦
              let plain = new_bed_user_plain uid (ground (arith, valid.low)) in
              elim (Option-cases (lookup uid a.owner_uid)) [
                | inl free ↦
                    let same : assigned a bed_id (record { uid = uid; gid = uid }) uid ≡ a' =
                      ground (arith, valid.per_bed) in
                    subst IsValid same (
                      assigned-IsValid a bed_id (record { uid = uid; gid = uid }) uid absent free
                        refl refl (ground arith) (ground arith) valid)
                | inr (owner, owned) ↦
                    let (user, theirs, equal) = valid.held uid owner owned in
                    absurd (ground (arith, valid.per_bed, string_eq.same_iff owner bed_id))
              ]
        ]
      ]

  Step-IsValid : {a a' : BedUserAllocator} → Step a a' → IsValid a → IsValid a'
  Step-IsValid {a} (acquires bed_id user c done) valid = acquire-IsValid a c bed_id user done valid
  Step-IsValid {a} (reserves bed_id uid c done) valid = reserve-IsValid a c bed_id uid done valid
  Step-IsValid {a} (releases bed_id) valid = release-IsValid a bed_id valid

  pub Run-IsValid : {a a' : BedUserAllocator} → Run a a' → IsValid a → IsValid a'
  Run-IsValid here valid = valid
  Run-IsValid (next run step) valid = Step-IsValid step (Run-IsValid run valid)

  -- In every state that any sequence of acquisitions, releases and noted identities reaches from a
  -- new allocator of a range, two Beds with the same user id are the same Bed, and the user of every
  -- Bed is in the range, is not root, and has the group of the same number.
  pub Run-one_to_one :
      (uid_min uid_max : ℕ) (a a' : BedUserAllocator) (bed other : String) (user theirs : BedUser)
      → new_per_bed uid_min uid_max ≡ ok a
      → Run a a'
      → lookup bed a'.by_bed ≡ some user
      → lookup other a'.by_bed ≡ some theirs
      → (user.uid ≡ theirs.uid → bed ≡ other)
        × (a'.uid_min ≤ user.uid)
        × (user.uid ≤ a'.uid_max)
        × (0 < user.uid)
        × (user.gid ≡ user.uid)
  Run-one_to_one uid_min uid_max a a' bed other user theirs made run mine yours =
      let valid = Run-IsValid run (new_per_bed-IsValid uid_min uid_max a made) in
      let own = valid.owned bed user mine in
      let own' = valid.owned other theirs yours in
      (
        (λ same.
            let name : some bed ≡ some other =
              sym own.0 ∙ ap (λ k. lookup k a'.owner_uid) same ∙ own'.0 in
            ground arith),
        own.2,
        own.3,
        omega (arith, valid.low, own.2),
        own.1,
      )
