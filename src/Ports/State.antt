-- ===== src/Ports/State.antt =====
-- The types of internal/host/network/ports.go, and what it calls of the packages net, netip and
-- strconv, as a parameter. An allocation is named by its address: `m.allocations` maps it to the
-- object, which no operation writes to once it has left the map.
use hostel.Base.{
  ltb, if◌then◌else◌, [], ℕ, ℤ, String, Bool, false, ◌||◌, Option, none, some, HasEq, nat_eq,
  string_eq,
}
use hostel.Base.GoMap.{GoMap}

pub data PortState : Type 0 where
  reserved listening : PortState

pub data Error : Type 0 where
  closed bad_address not_literal invalid_request ports_exhausted listener_failed : Error

pub record PortAllocation : Type 0 where
  pub owner : String
  pub scope : String
  pub address : String
  pub state : PortState
  pub host : String
  pub port : ℕ
  pub listener : Option ℕ

pub record PortManager : Type 0 where
  pub first : ℕ
  pub last : ℕ
  pub next : ℕ
  pub closed : Bool
  pub allocations : GoMap ℕ PortAllocation
  -- the address of the next object
  pub fresh : ℕ

-- What the code calls of net, netip and strconv. `zero_addr` is `netip.Addr{}`.
pub record Net : Type 1 where
  pub split_host_port : String → Option (String × String)
  pub join_host_port : String → ℕ → String
  pub atoi : String → Option ℤ
  pub Addr : Type 0
  pub addr_eq : HasEq Addr
  pub zero_addr : Addr
  pub parse_addr : String → Option Addr
  pub unmap : Addr → Addr
  pub is_4 : Addr → Bool
  pub is_unspecified : Addr → Bool

abbrev pub empty_manager : ℕ → ℕ → PortManager
empty_manager first last = record {
  first = first;
  last = last;
  next = first;
  closed = false;
  allocations = [];
  fresh = 0;
}

-- NewPortManager, none for an invalid range
unfoldable pub new_port_manager : ℕ → ℕ → Option PortManager
new_port_manager first last =
    if ltb first 1 || ltb 65535 last || ltb last first
    then none
    else some (empty_manager first last)
