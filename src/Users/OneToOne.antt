-- ===== src/Users/OneToOne.antt =====
-- The two maps of internal/bed/privilege/bed_user_allocator.go against each other.
use hostel.Base.{
  ℕ, ◌≤◌, ◌<◌, ◌≡◌, refl, sym, ap, ◌∙◌, subst, String, ◌||◌, inl, inr, none, some, Bool-cases,
  Option-cases, ltb, ◌==◌, nat_eq, string_eq, nat_beq_iff, arith,
}
use hostel.Base.GoMap.{lookup, insert, lookup-insert, lookup-delete}
use hostel.Base.Result.{ok}
use hostel.Users.Allocator.{
  BedUser, BedUserAllocator, new_per_bed, empty_allocator, assigned, release,
}

pub record IsValid (a : BedUserAllocator) : Type 0 where
  pub per_bed : a.fixed ≡ none
  pub low : 0 < a.uid_min
  pub high : a.uid_min ≤ a.uid_max
  pub owned :
      (bed_id : String) (user : BedUser)
      → lookup bed_id a.by_bed ≡ some user
      → (lookup user.uid a.owner_uid ≡ some bed_id)
        × (user.gid ≡ user.uid)
        × (a.uid_min ≤ user.uid)
        × (user.uid ≤ a.uid_max)
  pub held :
      (uid : ℕ) (bed_id : String)
      → lookup uid a.owner_uid ≡ some bed_id
      → (user : BedUser) × (lookup bed_id a.by_bed ≡ some user) × (user.uid ≡ uid)

pub new_per_bed-IsValid :
    (uid_min uid_max : ℕ) (a : BedUserAllocator) → new_per_bed uid_min uid_max ≡ ok a → IsValid a
unfolding new_per_bed lookup
new_per_bed-IsValid uid_min uid_max a made =
    elim (Bool-cases (uid_min == 0 || ltb uid_max uid_min)) [
      | inl bad ↦ let none_made = rw bad at made in absurd (cc none_made)
      | inr good ↦
          let some_made = rw good at made in
          let same : empty_allocator uid_min uid_max ≡ a = ground arith in
          subst IsValid same (record {
            per_bed = refl;
            low = ground arith;
            high = ground arith;
            owned = λ bed_id user found. ground arith;
            held = λ uid bed_id found. ground arith;
          })
    ]

pub assigned-IsValid :
    (a : BedUserAllocator) (bed_id : String) (user : BedUser) (uid : ℕ)
    → lookup bed_id a.by_bed ≡ none
    → lookup uid a.owner_uid ≡ none
    → user.uid ≡ uid
    → user.gid ≡ uid
    → a.uid_min ≤ uid
    → uid ≤ a.uid_max
    → IsValid a
    → IsValid (assigned a bed_id user uid)
assigned-IsValid a bed_id user uid absent free own_uid own_gid from to valid = record {
  per_bed = valid.per_bed;
  low = valid.low;
  high = valid.high;
  owned = λ b u found.
      let found' = lookup-insert bed_id b user a.by_bed in
      elim (Bool-cases (bed_id == b)) [
        | inl same ↦
            let equal : user ≡ u = ground arith in
            let mine = lookup-insert uid user.uid bed_id a.owner_uid in
            subst
              (λ w.
                (lookup w.uid (insert uid bed_id a.owner_uid) ≡ some b)
                × (w.gid ≡ w.uid)
                × (a.uid_min ≤ w.uid)
                × (w.uid ≤ a.uid_max))
              equal
              (
                ground (arith, nat_beq_iff uid user.uid, string_eq.same_iff bed_id b),
                own_gid ∙ sym own_uid,
                omega arith,
                omega arith,
              )
        | inr other ↦
            let old = valid.owned b u (ground arith) in
            let theirs = lookup-insert uid u.uid bed_id a.owner_uid in
            (
              elim (Bool-cases (uid == u.uid)) [
                | inl clash ↦
                    let equal : u.uid ≡ uid = ground arith in
                    absurd (cc (old.0, free, ap (λ k. lookup k a.owner_uid) equal))
                | inr distinct ↦ ground arith
              ],
              old.1,
              old.2,
              old.3,
            )
      ];
  held = λ n b found.
      let found' = lookup-insert uid n bed_id a.owner_uid in
      elim (Bool-cases (uid == n)) [
        | inl same ↦
            let mine = lookup-insert bed_id b user a.by_bed in
            (user, ground (arith, string_eq.same_iff bed_id b), ground arith)
        | inr other ↦
            let (u, known, equal) = valid.held n b (ground arith) in
            let theirs = lookup-insert bed_id b user a.by_bed in
            (
              u,
              elim (Bool-cases (bed_id == b)) [
                | inl clash ↦
                    let equal' : b ≡ bed_id = ground (arith, string_eq.same_iff bed_id b) in
                    absurd (cc (known, absent, ap (λ k. lookup k a.by_bed) equal'))
                | inr distinct ↦ ground arith
              ],
              equal,
            )
      ];
}

pub release-IsValid :
    (a : BedUserAllocator) (bed_id : String) → IsValid a → IsValid (release a bed_id)
unfolding release
release-IsValid a bed_id valid = elim (Option-cases (lookup bed_id a.by_bed)) [
  | inl absent ↦ rw (valid.per_bed, absent, release) valid
  | inr (user, known) ↦
      let mine = valid.owned bed_id user known in
      rw (valid.per_bed, known, release)
        (record {
          per_bed = valid.per_bed;
          low = valid.low;
          high = valid.high;
          owned = λ b u found.
              let found' = lookup-delete bed_id b a.by_bed in
              let still : lookup b a.by_bed ≡ some u = ground arith in
              let old = valid.owned b u still in
              let gone = lookup-delete user.uid u.uid a.owner_uid in
              (
                elim (Bool-cases (user.uid == u.uid)) [
                  | inl clash ↦
                      let equal : user.uid ≡ u.uid = ground arith in
                      let name : some bed_id ≡ some b =
                        sym mine.0 ∙ ap (λ k. lookup k a.owner_uid) equal ∙ old.0 in
                      absurd (ground (arith, string_eq.same_iff bed_id b))
                  | inr distinct ↦ ground arith
                ],
                old.1,
                old.2,
                old.3,
              );
          held = λ n b found.
              let found' = lookup-delete user.uid n a.owner_uid in
              let still : lookup n a.owner_uid ≡ some b = ground arith in
              let (u, own, equal) = valid.held n b still in
              let gone = lookup-delete bed_id b a.by_bed in
              (
                u,
                elim (Bool-cases (bed_id == b)) [
                  | inl clash ↦
                      let name : bed_id ≡ b = ground (arith, string_eq.same_iff bed_id b) in
                      let same : some user ≡ some u =
                        sym known ∙ ap (λ k. lookup k a.by_bed) name ∙ own in
                      let uid : user.uid ≡ u.uid =
                        ap (λ o. elim o [ none ↦ 0 | some w ↦ w.uid ]) same in
                      absurd (ground arith)
                  | inr distinct ↦ ground arith
                ],
                equal,
              );
        })
]
