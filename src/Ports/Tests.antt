-- ===== src/Ports/Tests.antt =====
-- Runs of the port manager on concrete requests.
use hostel.Base.{
  [], ◌∷◌, ℕ, ◌≤◌, ◌<◌, ◌≡◌, ◌↔◌, refl, String, true, false, none, some, pos, if◌then◌else◌, ◌==◌,
  nat_eq, string_eq, any, arith,
}
use hostel.Base.GoMap.{lookup, insert, delete}
use hostel.Base.Result.{ok, err}
use hostel.Ports.State.{
  PortManager, PortAllocation, Net, new_port_manager, empty_manager, ports_exhausted,
}
use hostel.Ports.Reserve.{
  reserve, parse_request, try_ports, overlapping_hosts, conflicts, requested,
}
use hostel.Ports.Operation.{
  Probe, usable, in_use, drop, address_at, reserve_port, reserve_loop, attempts,
}
use hostel.Ports.Invariant.{IsValid}
use hostel.Ports.Safety.{here, next, reserves}
use hostel.Ports.Ownership.{Run-exclusive, reserve_exhausted, new_port_manager-IsValid}
use hostel.Ports.Atomic.{reserve_port-effect, ReserveEffect}

-- A parser that knows the two addresses of the tests.
abbrev loopback : Net
loopback = record {
  split_host_port = λ s.
      if s == "127.0.0.1:0"
      then some ("127.0.0.1", "0")
      else if s == "10.0.0.1:0"
      then some ("10.0.0.1", "0")
      else none;
  join_host_port = λ host port. host;
  atoi = λ s. if s == "0" then some (pos 0) else none;
  Addr = ℕ;
  addr_eq = nat_eq;
  zero_addr = 0;
  parse_addr = λ s. if s == "127.0.0.1" then some 1 else if s == "10.0.0.1" then some 2 else none;
  unmap = λ x. x;
  is_4 = λ x. true;
  is_unspecified = λ x. false;
}

-- The first port is in use by another process, the second is free.
abbrev second_free : ℕ → String → Probe
second_free n address = if n == 1 then in_use else usable

abbrev pool : PortManager
pool = empty_manager 9000 9001

made : new_port_manager 9000 9001 ≡ some pool
unfolding new_port_manager
made = refl

abbrev once : PortManager
once = (reserve_port loopback second_free pool "agent" "" "127.0.0.1:0").0

abbrev twice : PortManager
twice = (reserve_port loopback second_free once "agent" "" "10.0.0.1:0").0

abbrev on_loopback : PortAllocation
on_loopback = requested loopback "agent" "" "127.0.0.1" 9001

abbrev on_bridge : PortAllocation
on_bridge = requested loopback "agent" "" "10.0.0.1" 9001

loopback_held : lookup 1 twice.allocations ≡ some on_loopback
unfolding reserve_port attempts reserve_loop reserve parse_request try_ports drop insert delete
    lookup address_at overlapping_hosts
loopback_held = refl

bridge_held : lookup 3 twice.allocations ≡ some on_bridge
unfolding reserve_port attempts reserve_loop reserve parse_request try_ports drop insert delete
    lookup address_at overlapping_hosts
bridge_held = refl

Run-exclusive_example :
    (overlapping_hosts loopback "127.0.0.1" "10.0.0.1" ≡ false) × (0 < 9001) × (9001 ≤ 65535)
Run-exclusive_example =
    Run-exclusive loopback 9000 9001 pool twice 1 3 on_loopback on_bridge made
      (next (next here (reserves second_free "agent" "" "127.0.0.1:0"))
        (reserves second_free "agent" "" "10.0.0.1:0"))
      loopback_held bridge_held (omega arith) refl refl

pool-IsValid : IsValid loopback pool
pool-IsValid = new_port_manager-IsValid loopback 9000 9001 pool made

reserve_port-effect_example :
    let r = reserve_port loopback second_free pool "agent" "" "127.0.0.1:0" in
    ReserveEffect loopback second_free "agent" "" pool r.0 r.1
reserve_port-effect_example =
    reserve_port-effect loopback second_free pool "agent" "" "127.0.0.1:0" pool-IsValid

-- Both ports of the pool are held on the loopback address.
abbrev full : PortManager
full = record pool {
  allocations =
      (0, requested loopback "agent" "" "127.0.0.1" 9000)
      ∷ (1, requested loopback "agent" "" "127.0.0.1" 9001)
      ∷ [];
  fresh = 2;
}

any_loopback : parse_request loopback full "agent" "127.0.0.1:0" ≡ ok ("127.0.0.1", 0)
unfolding parse_request
any_loopback = refl

reserve_exhausted_example :
    (((reserve loopback full "agent" "" "127.0.0.1:0").1 ≡ err ports_exhausted) ↔ (
      (p : ℕ)
      → 9000 ≤ p
      → p ≤ 9001
      → any (conflicts loopback "" "127.0.0.1" p) full.allocations ≡ true))
    × ((p : ℕ)
        → 9000 ≤ p
        → p ≤ 9001
        → any (conflicts loopback "" "127.0.0.1" p) full.allocations ≡ false
        → (a : ℕ) × ((reserve loopback full "agent" "" "127.0.0.1:0").1 ≡ ok a))
reserve_exhausted_example =
    reserve_exhausted loopback full "agent" "" "127.0.0.1:0" "127.0.0.1" (omega arith, omega arith)
      any_loopback

full-exhausted : (reserve loopback full "agent" "" "127.0.0.1:0").1 ≡ err ports_exhausted
unfolding reserve parse_request try_ports overlapping_hosts
full-exhausted = refl
