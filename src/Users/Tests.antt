-- ===== src/Users/Tests.antt =====
-- Acquisitions from a range of two users.
use hostel.Base.{ℕ, ◌≤◌, ◌<◌, ◌≡◌, ◌↔◌, refl, String, none, some, string_eq, nat_eq}
use hostel.Base.GoMap.{lookup, insert}
use hostel.Base.Result.{ok, err}
use hostel.Users.Allocator.{
  BedUser, BedUserAllocator, exhausted, new_per_bed, empty_allocator, assigned, acquire, probe,
  new_bed_user,
}
use hostel.Users.OneToOne.{IsValid, new_per_bed-IsValid}
use hostel.Users.Exhaustion.{acquire_exhausted}
use hostel.Users.Assignment.{Run, here, next, acquires, Run-one_to_one, Run-IsValid}

-- Every Bed starts at the second user.
abbrev slot : String → ℕ → ℕ
slot bed_id slots = 1

abbrev agent : String
agent = "agent"

abbrev shell : String
shell = "shell"

abbrev user_at : ℕ → BedUser
user_at uid = record { uid = uid; gid = uid }

abbrev none_assigned : BedUserAllocator
none_assigned = empty_allocator 2000 2001

abbrev one_assigned : BedUserAllocator
one_assigned = assigned none_assigned "agent" (user_at 2001) 2001

abbrev two_assigned : BedUserAllocator
two_assigned = assigned one_assigned "shell" (user_at 2000) 2000

made : new_per_bed 2000 2001 ≡ ok none_assigned
unfolding new_per_bed
made = refl

first_acquired : acquire slot (some none_assigned) "agent" ≡ ok (user_at 2001, some one_assigned)
unfolding acquire probe new_bed_user lookup insert
first_acquired = refl

second_acquired : acquire slot (some one_assigned) "shell" ≡ ok (user_at 2000, some two_assigned)
unfolding acquire probe new_bed_user lookup insert
second_acquired = refl

both : Run slot none_assigned two_assigned
both =
    next (next here (acquires "agent" (user_at 2001) one_assigned first_acquired))
      (acquires "shell" (user_at 2000) two_assigned second_acquired)

agent_held : lookup "agent" two_assigned.by_bed ≡ some (user_at 2001)
unfolding lookup insert
agent_held = refl

shell_held : lookup "shell" two_assigned.by_bed ≡ some (user_at 2000)
unfolding lookup insert
shell_held = refl

Run-one_to_one_example :
    ((user_at 2001).uid ≡ (user_at 2000).uid → agent ≡ shell)
    × (2000 ≤ 2001)
    × (2001 ≤ 2001)
    × (0 < 2001)
    × ((user_at 2001).gid ≡ 2001)
Run-one_to_one_example =
    Run-one_to_one slot 2000 2001 none_assigned two_assigned agent shell (user_at 2001)
      (user_at 2000) made both agent_held shell_held

two_assigned-IsValid : IsValid two_assigned
two_assigned-IsValid = Run-IsValid slot both (new_per_bed-IsValid 2000 2001 none_assigned made)

acquire_exhausted_example :
    ((acquire slot (some two_assigned) "third" ≡ err exhausted) ↔ (
      (lookup "third" two_assigned.by_bed ≡ none)
      × ((uid : ℕ)
          → 2000 ≤ uid
          → uid ≤ 2001
          → (owner : String) × (lookup uid two_assigned.owner_uid ≡ some owner))))
    × ((user : BedUser)
        → lookup "third" two_assigned.by_bed ≡ some user
        → acquire slot (some two_assigned) "third" ≡ ok (user, some two_assigned))
    × ((uid : ℕ)
        → lookup "third" two_assigned.by_bed ≡ none
        → 2000 ≤ uid
        → uid ≤ 2001
        → lookup uid two_assigned.owner_uid ≡ none
        → (user : BedUser) × (a' : BedUserAllocator) × (acquire slot (some two_assigned) "third"
            ≡ ok (user, some a')))
acquire_exhausted_example = acquire_exhausted slot two_assigned "third" two_assigned-IsValid

third_exhausted : acquire slot (some two_assigned) "third" ≡ err exhausted
unfolding acquire probe new_bed_user lookup insert
third_exhausted = refl
