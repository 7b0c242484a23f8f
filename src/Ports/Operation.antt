-- ===== src/Ports/Operation.antt =====
-- The exported operations of PortManager and PortAllocation (internal/host/network/ports.go), each
-- under `m.mu`. What net.Listen answers at the n-th attempt of one call is an argument: Reserve
-- closes the listener at once, Listen keeps it.
use hostel.Base.{
  List, map, ℕ, zero, suc, ◌+◌, ◌-◌, String, Bool, true, false, not, ◌||◌, Option, none, some, [],
  if◌then◌else◌, ◌==◌, string_eq, nat_eq,
}
use hostel.Base.GoMap.{lookup, insert, delete}
use hostel.Base.Result.{Result, ok, err}
use hostel.Ports.State.{
  PortManager, PortAllocation, PortState, reserved, listening, Error, closed, ports_exhausted,
  listener_failed, bad_address, Net,
}
use hostel.Ports.Reserve.{reserve}

-- What the trial listener of Reserve met: it could be opened and closed, the address is in use, or
-- another failure.
pub data Probe : Type 0 where
  usable in_use broken : Probe

abbrev pub is_usable : Probe → Bool
is_usable usable = true
is_usable _ = false

abbrev pub is_in_use : Probe → Bool
is_in_use in_use = true
is_in_use _ = false

unfoldable pub address_at : PortManager → ℕ → String
address_at m a = elim (lookup a m.allocations) [ none ↦ "" | some x ↦ x.address ]

unfoldable pub drop : PortManager → ℕ → PortManager
drop m a = record m { allocations = delete a m.allocations }

module _ (net : Net) where
  unfoldable pub attempts : PortManager → String → ℕ
  attempts m address = elim (net.split_host_port address) [
    | none ↦ 1
    | some parts ↦ if parts.1 == "0" then m.last - m.first + 1 else 1
  ]

  -- The loop of Reserve; `probe` answers at the attempts that are left.
  unfoldable pub reserve_loop :
      ℕ
      → (ℕ → String → Probe)
      → String
      → String
      → String
      → PortManager
      → PortManager × Result Error ℕ
  reserve_loop zero probe owner scope address m = (m, err ports_exhausted)
  reserve_loop (suc n) probe owner scope address m =
      let step = reserve net m owner scope address in
      elim step.1 [
        | err e ↦ (step.0, err e)
        | ok a ↦
            let answer = probe n (address_at step.0 a) in
            let dropped = drop step.0 a in
            let rest = reserve_loop n probe owner scope address dropped in
            if not (scope == "") || is_usable answer
            then (step.0, ok a)
            else if is_in_use answer
            then rest
            else (dropped, err listener_failed)
      ]

  -- PortManager.Reserve
  unfoldable pub reserve_port :
      (ℕ → String → Probe) → PortManager → String → String → String → PortManager × Result Error ℕ
  reserve_port probe m owner scope address =
      reserve_loop (attempts m address) probe owner scope address m

  unfoldable pub opened : PortManager → ℕ → ℕ → PortManager
  opened m a listener = elim (lookup a m.allocations) [
    | none ↦ m
    | some x ↦ record m {
      allocations =
          insert a (record x { listener = some listener; state = listening }) m.allocations;
    }
  ]

  -- The loop of Listen on a resolved address; `bind` gives the listener that was opened.
  unfoldable pub listen_loop :
      ℕ
      → Bool
      → (ℕ → String → Option ℕ)
      → String
      → String
      → PortManager
      → PortManager × Result Error ℕ
  listen_loop zero any_port bind owner address m = (m, err ports_exhausted)
  listen_loop (suc n) any_port bind owner address m =
      let step = reserve net m owner "" address in
      elim step.1 [
        | err e ↦ (step.0, err e)
        | ok a ↦
            let dropped = drop step.0 a in
            let rest = listen_loop n any_port bind owner address dropped in
            elim (bind n (address_at step.0 a)) [
              | some listener ↦ (opened step.0 a listener, ok a)
              | none ↦ if any_port then rest else (dropped, err listener_failed)
            ]
      ]

  -- PortManager.Listen; `resolved` is the answer of net.ResolveTCPAddr.
  unfoldable pub listen :
      (ℕ → String → Option ℕ) → PortManager → String → Option String → PortManager × Result Error ℕ
  listen bind m owner none = (m, err bad_address)
  listen bind m owner (some address) = elim (net.split_host_port address) [
    | none ↦ (m, err bad_address)
    | some parts ↦ listen_loop (attempts m address) (parts.1 == "0") bind owner address m
  ]

abbrev pub set_state : PortManager → ℕ → PortAllocation → PortState → PortManager
set_state m a x s = record m { allocations = insert a (record x { state = s }) m.allocations }

-- PortAllocation.Confirm
unfoldable pub confirm : PortManager → ℕ → PortManager × Result Error (Unit {0})
confirm m a = elim (lookup a m.allocations) [
  | none ↦ (m, err closed)
  | some x ↦ (set_state m a x listening, ok tt)
]

-- PortAllocation.Unconfirm
unfoldable pub unconfirm : PortManager → ℕ → PortManager
unconfirm m a = elim (lookup a m.allocations) [
  | none ↦ m
  | some x ↦ elim x.listener [ none ↦ set_state m a x reserved | some l ↦ m ]
]

-- PortAllocation.Release; `shut` tells of a listener whether its Close succeeds or finds it closed.
unfoldable pub release : (ℕ → Bool) → PortManager → ℕ → PortManager × Result Error (Unit {0})
release shut m a = elim (lookup a m.allocations) [
  | none ↦ (m, ok tt)
  | some x ↦ elim x.listener [
    | none ↦ (drop m a, ok tt)
    | some l ↦ if shut l then (drop m a, ok tt) else (m, err listener_failed)
  ]
]

-- PortManager.Close; the errors of the listeners are only joined.
unfoldable pub close : PortManager → PortManager
close m = record m { closed = true; allocations = [] }

-- PortManager.Status: owner, scope, address and state of every allocation
unfoldable pub statuses : PortManager → List (String × String × String × PortState)
statuses m =
    map (λ (e : ℕ × PortAllocation). ((e.1).owner, (e.1).scope, (e.1).address, (e.1).state))
      m.allocations
