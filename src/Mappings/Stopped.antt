-- ===== src/Mappings/Stopped.antt =====
-- A port mapping of internal/bed/network/port_mappings.go after its Withdraw.
use hostel.Base.{nat_eq, string_eq}
use hostel.Ports.Operation.{release as release_port}
use hostel.Mappings.Keeps.{Keeps}
