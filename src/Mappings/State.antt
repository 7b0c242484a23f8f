-- ===== src/Mappings/State.antt =====
-- internal/bed/network/port_mappings.go: the registry and its objects. A mapping and a Bed are named by
-- their addresses; an allocation of the port manager and the allocation that a forwarder listens on
-- are those of hostel.Ports.
use hostel.Base.{ℕ, String, Bool, Option, [], nat_eq, string_eq}
use hostel.Base.GoMap.{GoMap}
use hostel.Ports.State.{PortManager, Error as PortError}

-- bed.PillowPort
pub record PillowPort : Type 0 where
  pub name : String
  pub protocol : String
  pub container_port : ℕ
  pub dynamic : Bool
  pub publish : Bool

pub data MappingState : Type 0 where
  mapping_reserved mapping_listening mapping_stopping mapping_released : MappingState

pub data NetworkMode : Type 0 where
  shared private_network : NetworkMode

pub record PortMappingStatus : Type 0 where
  pub name : String
  pub protocol : String
  pub pillow : String
  pub execution_id : String
  pub network : NetworkMode
  pub state : MappingState
  pub bed_port : ℕ
  pub host_port : ℕ
  pub reason : String

pub record PortMapping : Type 0 where
  pub bed : ℕ
  pub spec : PillowPort
  pub allocation : ℕ
  pub port : ℕ
  pub forward : Option ℕ
  pub probe_address : String
  pub status : PortMappingStatus

pub record PortMappings : Type 0 where
  pub ports : PortManager
  pub beds : GoMap ℕ (GoMap String ℕ)
  -- the objects by address, and the address of the next
  pub objects : GoMap ℕ PortMapping
  pub fresh : ℕ

pub data MappingError : Type 0 where
  undeclared already_allocated not_reserved still_owned : MappingError
  port_failed : PortError → MappingError

-- NewPortMappings
abbrev pub new_port_mappings : PortManager → PortMappings
new_port_mappings ports = record { ports = ports; beds = []; objects = []; fresh = 0 }
