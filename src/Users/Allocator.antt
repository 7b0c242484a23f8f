-- ===== src/Users/Allocator.antt =====
-- internal/bed/privilege/bed_user_allocator.go: the allocator of Unix users to Beds, each operation
-- under `a.mu`. The slot that the FNV hash of a Bed's id gives is a parameter.
use hostel.Base.{
  ℕ, zero, suc, ◌+◌, ◌-◌, ◌%◌, String, Bool, false, not, ◌||◌, Option, none, some, [],
  if◌then◌else◌, ltb, ◌==◌, nat_eq, string_eq,
}
use hostel.Base.GoMap.{GoMap, lookup, insert, delete}
use hostel.Base.Result.{Result, ok, err}

pub record BedUser : Type 0 where
  pub uid : ℕ
  pub gid : ℕ

pub data Error : Type 0 where
  invalid_range root_user conflicting_uid uid_owned exhausted not_configured : Error

pub record BedUserAllocator : Type 0 where
  pub fixed : Option BedUser
  pub uid_min : ℕ
  pub uid_max : ℕ
  pub by_bed : GoMap String BedUser
  pub owner_uid : GoMap ℕ String

-- NewBedUser; the ids are those of the range, which are not negative.
unfoldable pub new_bed_user : ℕ → ℕ → Result Error BedUser
new_bed_user uid gid =
    if uid == 0 || gid == 0 then err root_user else ok (record { uid = uid; gid = gid })

abbrev pub empty_allocator : ℕ → ℕ → BedUserAllocator
empty_allocator uid_min uid_max = record {
  fixed = none;
  uid_min = uid_min;
  uid_max = uid_max;
  by_bed = [];
  owner_uid = [];
}

-- NewPerBedUserAllocator
unfoldable pub new_per_bed : ℕ → ℕ → Result Error BedUserAllocator
new_per_bed uid_min uid_max =
    if uid_min == 0 || ltb uid_max uid_min
    then err invalid_range
    else ok (empty_allocator uid_min uid_max)

-- NewFixedBedUserAllocator
abbrev pub new_fixed : BedUser → BedUserAllocator
new_fixed user = record (empty_allocator 0 0) { fixed = some user }

abbrev pub assigned : BedUserAllocator → String → BedUser → ℕ → BedUserAllocator
assigned a bed_id user uid = record a {
  by_bed = insert bed_id user a.by_bed;
  owner_uid = insert uid bed_id a.owner_uid;
}

abbrev is_owned_by_other : Option String → String → Bool
is_owned_by_other none bed_id = false
is_owned_by_other (some owner) bed_id = not (owner == bed_id)

-- reserveLocked: an identity that a Bed brings along is noted.
unfoldable pub reserve : BedUserAllocator → String → ℕ → Result Error BedUserAllocator
reserve a bed_id uid = elim a.fixed [
  | some user ↦ ok a
  | none ↦ if ltb uid a.uid_min || ltb a.uid_max uid then ok a else elim (lookup bed_id a.by_bed) [
    | some user ↦ if user.uid == uid then ok a else err conflicting_uid
    | none ↦
        if is_owned_by_other (lookup uid a.owner_uid) bed_id
        then err uid_owned
        else elim (new_bed_user uid uid) [
          | err e ↦ err e
          | ok user ↦ ok (assigned a bed_id user uid)
        ]
  ]
]

-- The probe of Acquire over the offsets from `offset` on, of which `n` are left.
unfoldable pub probe :
    ℕ → ℕ → ℕ → ℕ → BedUserAllocator → String → Result Error (BedUser × BedUserAllocator)
probe zero offset start slots a bed_id = err exhausted
probe (suc n) offset start slots a bed_id =
    let uid = a.uid_min + (start + offset) % slots in
    let rest = probe n (suc offset) start slots a bed_id in
    elim (lookup uid a.owner_uid) [
      | some owner ↦ rest
      | none ↦ elim (new_bed_user uid uid) [
        | err e ↦ err e
        | ok user ↦ ok (user, assigned a bed_id user uid)
      ]
    ]

-- Acquire; none is the nil allocator. `stable_slot` is stableBedUserSlot.
unfoldable pub acquire :
    (String → ℕ → ℕ)
    → Option BedUserAllocator
    → String
    → Result Error (BedUser × Option BedUserAllocator)
acquire stable_slot none bed_id = err not_configured
acquire stable_slot (some a) bed_id = elim a.fixed [
  | some user ↦ ok (user, some a)
  | none ↦ elim (lookup bed_id a.by_bed) [
    | some user ↦ ok (user, some a)
    | none ↦
        let slots = a.uid_max - a.uid_min + 1 in
        elim (probe slots 0 (stable_slot bed_id slots) slots a bed_id) [
          | err e ↦ err e
          | ok (user, a') ↦ ok (user, some a')
        ]
  ]
]

-- Release
unfoldable pub release : BedUserAllocator → String → BedUserAllocator
release a bed_id = elim a.fixed [
  | some user ↦ a
  | none ↦ elim (lookup bed_id a.by_bed) [
    | none ↦ a
    | some user ↦ record a {
      by_bed = delete bed_id a.by_bed;
      owner_uid = delete user.uid a.owner_uid;
    }
  ]
]
