-- ===== src/Mappings/Tests.antt =====
-- One mapping of a Bed that is published on the shared network and released.
use hostel.Base.{
  ℕ, ◌≡◌, refl, String, true, false, none, some, [], ◌∷◌, if◌then◌else◌, ◌==◌, nat_eq, string_eq,
  pos, arith,
}
use hostel.Base.GoMap.{lookup, insert, delete}
use hostel.Base.Result.{ok}
use hostel.Ports.State.{PortManager, PortAllocation, Net, listening, empty_manager}
use hostel.Ports.Reserve.{reserve, parse_request, try_ports, overlapping_hosts}
use hostel.Ports.Operation.{
  drop, release as release_port, Probe, usable, in_use, address_at, reserve_port, reserve_loop,
  attempts, confirm,
}
use hostel.Mappings.Composed.{Run, here, next, reserves, publishes, Run-honest}
use hostel.Mappings.State.{
  PillowPort, PortMapping, PortMappings, mapping_listening, mapping_stopping, new_port_mappings,
}
use hostel.Mappings.Operation.{
  withdraw, withdraw_live, forget, free_mapping, release_mapping, check_released, new_mapping,
  reserve_mapping, publish_mapping, publish_confirmed, find_port,
}
use hostel.Mappings.Release.{IsReleased, release_mapping-IsReleased}

abbrev web : PillowPort
web = record {
  name = "web";
  protocol = "http";
  container_port = 8080;
  dynamic = false;
  publish = true;
}

abbrev published : PortMapping
published =
    let fresh = new_mapping 7 web "app" "" 0 8080 "127.0.0.1:8080" in
    record fresh { status = record fresh.status { host_port = 8080; state = mapping_listening } }

abbrev held : PortAllocation
held = record {
  owner = "bed/port/web";
  scope = "";
  address = "0.0.0.0:8080";
  state = listening;
  host = "0.0.0.0";
  port = 8080;
  listener = none;
}

abbrev one_mapping : PortMappings
one_mapping = record {
  ports = record (empty_manager 9000 9100) { allocations = (0, held) ∷ []; fresh = 1 };
  beds = (7, (("web", 0) ∷ [])) ∷ [];
  objects = (0, published) ∷ [];
  fresh = 1;
}

abbrev after_release : PortMappings
after_release = (release_mapping (λ l. true) one_mapping 0 published).0

released_now : release_mapping (λ l. true) one_mapping 0 published ≡ (after_release, ok tt)
unfolding release_mapping free_mapping withdraw withdraw_live forget release_port drop lookup insert
    delete
released_now = refl

nothing_left : check_released after_release 7 ≡ ok tt
unfolding release_mapping free_mapping withdraw withdraw_live forget release_port drop lookup insert
    delete check_released
nothing_left = refl

release_mapping-IsReleased_example : IsReleased one_mapping after_release 0 published
release_mapping-IsReleased_example =
    release_mapping-IsReleased (λ l. true) one_mapping after_release 0 published released_now

-- A parser that knows the addresses of the tests.
abbrev three_hosts : Net
three_hosts = record {
  split_host_port = λ s.
      if s == "127.0.0.1:0"
      then some ("127.0.0.1", "0")
      else if s == "10.0.0.1:0"
      then some ("10.0.0.1", "0")
      else if s == "0.0.0.0:0"
      then some ("0.0.0.0", "0")
      else none;
  join_host_port = λ host port.
      if port == 0
      then (if host == "127.0.0.1"
          then "127.0.0.1:0"
          else if host == "0.0.0.0"
          then "0.0.0.0:0"
          else host)
      else host;
  atoi = λ s. if s == "0" then some (pos 0) else none;
  Addr = ℕ;
  addr_eq = nat_eq;
  zero_addr = 0;
  parse_addr = λ s.
      if s == "127.0.0.1"
      then some 1
      else if s == "10.0.0.1"
      then some 2
      else if s == "0.0.0.0"
      then some 3
      else none;
  unmap = λ x. x;
  is_4 = λ x. true;
  is_unspecified = λ x. x == 3;
}

abbrev second_free : ℕ → String → Probe
second_free n address = if n == 1 then in_use else usable

abbrev pool : PortManager
pool = empty_manager 9000 9001

abbrev outer : PillowPort
outer = record {
  name = "web";
  protocol = "tcp";
  container_port = 0;
  dynamic = true;
  publish = true;
}

abbrev opened_registry : PortMappings
opened_registry =
    (reserve_mapping three_hosts second_free (new_port_mappings pool) 7 (outer ∷ []) "bed/port/web"
      "web" "app" "" "127.0.0.1").0

abbrev opened_mapping : PortMapping
opened_mapping = new_mapping 7 outer "app" "" 1 9001 "127.0.0.1"

opened_there : lookup 0 opened_registry.objects ≡ some opened_mapping
unfolding reserve_mapping find_port reserve_port attempts reserve_loop reserve parse_request
    try_ports drop insert delete lookup address_at overlapping_hosts
opened_there = refl

abbrev public : PortMappings
public =
    (publish_mapping three_hosts (λ n a. none) none opened_registry 0 opened_mapping
      "bed/port/web/publish").0

abbrev public_mapping : PortMapping
public_mapping = record opened_mapping {
  status = record opened_mapping.status { host_port = 9001; state = mapping_listening };
}

public_there : lookup 0 public.objects ≡ some public_mapping
unfolding publish_mapping publish_confirmed confirm reserve_mapping find_port reserve_port attempts
    reserve_loop reserve parse_request try_ports drop insert delete lookup address_at
    overlapping_hosts
public_there = refl

to_public : Run three_hosts (new_port_mappings pool) public
to_public =
    next (next here (reserves second_free 7 (outer ∷ []) "bed/port/web" "web" "app" "" "127.0.0.1"))
      (publishes (λ n a. none) none 0 opened_mapping "bed/port/web/publish" opened_there)

Run-honest_example : mapping_listening ≡ mapping_listening
Run-honest_example =
    Run-honest three_hosts pool public 0 public_mapping to_public public_there (omega arith)

-- The public mapping after its Withdraw, which frees then.
abbrev withdrawn : PortMappings
withdrawn = ((withdraw (λ l. true) public 0 public_mapping).0).0

abbrev withdrawn_mapping : PortMapping
withdrawn_mapping = record public_mapping {
  status = record public_mapping.status { host_port = 0; state = mapping_stopping };
}

abbrev freed : PortMappings
freed = ((free_mapping (λ l. true) withdrawn 0 withdrawn_mapping).0).0
