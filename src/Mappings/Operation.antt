-- ===== src/Mappings/Operation.antt =====
-- internal/bed/network/port_mappings.go: the operations, on a port manager that is there. Withdraw and
-- Release hold only the mapping's lock while the forwarder closes; they are one step each here, as the
-- mapping has one owner.
use hostel.Base.{
  ℕ, suc, String, Bool, true, false, not, ◌&&◌, Option, none, some, List, [], ◌∷◌, if◌then◌else◌,
  ◌==◌, nat_eq, string_eq, length,
}
use hostel.Base.GoMap.{GoMap, lookup, insert, delete}
use hostel.Base.Result.{Result, ok, err}
use hostel.Ports.State.{PortManager, Net}
use hostel.Ports.Operation.{Probe, reserve_port, listen, confirm, release as release_port}
use hostel.Mappings.State.{
  PillowPort, mapping_reserved, mapping_listening, mapping_stopping, mapping_released, NetworkMode,
  shared, private_network, PortMapping, PortMappings, MappingError, undeclared, already_allocated,
  not_reserved, still_owned, port_failed,
}

-- b.Spec().NetworkPorts() searched for the name; a port without a name is none
unfoldable pub find_port : String → List PillowPort → Option PillowPort
find_port name [] = none
find_port name (s ∷ rest) =
    if s.name == name then (if s.name == "" then none else some s) else find_port name rest

-- m.beds[b]
abbrev pub names_of : PortMappings → ℕ → GoMap String ℕ
names_of m bed = elim (lookup bed m.beds) [ none ↦ [] | some names ↦ names ]

abbrev pub port_of : PortManager → ℕ → ℕ
port_of ports a = elim (lookup a ports.allocations) [ none ↦ 0 | some x ↦ x.port ]

abbrev pub set_mapping : PortMappings → ℕ → PortMapping → PortMappings
set_mapping m p mapping = record m { objects = insert p mapping m.objects }

abbrev pub new_mapping : ℕ → PillowPort → String → String → ℕ → ℕ → String → PortMapping
new_mapping bed spec pillow scope allocation port probe_address = record {
  bed = bed;
  spec = spec;
  allocation = allocation;
  port = port;
  forward = none;
  probe_address = probe_address;
  status = record {
    name = spec.name;
    protocol = spec.protocol;
    pillow = pillow;
    execution_id = "";
    network = if scope == "" then shared else private_network;
    state = mapping_reserved;
    bed_port = port;
    host_port = 0;
    reason = "";
  };
}

-- The host that Reserve asks the port manager for.
abbrev pub listen_host : String → PillowPort → String
listen_host scope spec = if scope == "" && not spec.publish then "127.0.0.1" else "0.0.0.0"

abbrev pub is_private : NetworkMode → Bool
is_private shared = false
is_private private_network = true

module _ (net : Net) where
  -- PortMappings.Reserve: the new object's address; `owner` is the Bed's and the port's name.
  unfoldable pub reserve_mapping :
      (ℕ → String → Probe)
      → PortMappings
      → ℕ
      → List PillowPort
      → String
      → String
      → String
      → String
      → String
      → PortMappings × Result MappingError ℕ
  reserve_mapping probe m bed declared owner name pillow scope host =
      elim (find_port name declared) [
        | none ↦ (m, err undeclared)
        | some spec ↦ elim (lookup name (names_of m bed)) [
          | some p ↦ (m, err already_allocated)
          | none ↦
              let asked =
                reserve_port net probe m.ports owner scope
                  (net.join_host_port (listen_host scope spec) spec.container_port) in
              elim asked.1 [
                | err e ↦ (record m { ports = asked.0 }, err (port_failed e))
                | ok a ↦
                    let port = port_of asked.0 a in
                    (
                      record {
                        ports = asked.0;
                        beds = insert bed (insert name m.fresh (names_of m bed)) m.beds;
                        objects =
                            insert m.fresh
                              (new_mapping bed spec pillow scope a port
                                (net.join_host_port host port))
                              m.objects;
                        fresh = suc m.fresh;
                      },
                      ok m.fresh,
                    )
              ]
        ]
      ]

  -- Publish after its Confirm: the mapping listens, through a forwarder on a private network.
  -- `bind` and `resolved` are the kernel's and net's answers to NewTCPForwarder.
  unfoldable pub publish_confirmed :
      (ℕ → String → Option ℕ)
      → Option String
      → PortMappings
      → ℕ
      → PortMapping
      → String
      → PortMappings × Result MappingError (Unit {0})
  publish_confirmed bind resolved m p mapping owner =
      if not mapping.spec.publish
      then (
        set_mapping m p
            (record mapping { status = record mapping.status { state = mapping_listening } }),
        ok tt,
      )
      else if is_private mapping.status.network
      then (let opened = listen net bind m.ports owner resolved in
          elim opened.1 [
            | err e ↦ (record m { ports = opened.0 }, err (port_failed e))
            | ok f ↦ (
              set_mapping (record m { ports = opened.0 }) p
                  (record mapping {
                    forward = some f;
                    status = record mapping.status {
                      host_port = port_of opened.0 f;
                      state = mapping_listening;
                    };
                  }),
              ok tt,
            )
          ])
      else (
        set_mapping m p (record mapping {
          status = record mapping.status { host_port = mapping.port; state = mapping_listening };
        }),
        ok tt,
      )

  -- Publish
  unfoldable pub publish_mapping :
      (ℕ → String → Option ℕ)
      → Option String
      → PortMappings
      → ℕ
      → PortMapping
      → String
      → PortMappings × Result MappingError (Unit {0})
  publish_mapping bind resolved m p mapping owner = elim mapping.status.state [
    | mapping_reserved ↦
        let confirmed = confirm m.ports mapping.allocation in
        elim confirmed.1 [
          | err e ↦ (m, err (port_failed e))
          | ok done ↦
              publish_confirmed bind resolved (record m { ports = confirmed.0 }) p mapping owner
        ]
    | mapping_listening ↦ (m, err not_reserved)
    | mapping_stopping ↦ (m, err not_reserved)
    | mapping_released ↦ (m, err not_reserved)
  ]

-- Bind
abbrev pub bind_mapping : PortMappings → ℕ → PortMapping → String → PortMappings
bind_mapping m p mapping execution =
    set_mapping m p (record mapping { status = record mapping.status { execution_id = execution } })

-- Withdraw of a mapping that is not released, with the mapping that it leaves: TCPForwarder.Close
-- releases the forwarder's allocation.
unfoldable pub withdraw_live :
    (ℕ → Bool)
    → PortMappings
    → ℕ
    → PortMapping
    → (PortMappings × PortMapping) × Result MappingError (Unit {0})
withdraw_live shut m p mapping =
    let stopping : PortMapping = record mapping {
      status = record mapping.status { state = mapping_stopping; host_port = 0 };
    } in
    elim mapping.forward [
      | none ↦ ((set_mapping m p stopping, stopping), ok tt)
      | some f ↦
          let ended = release_port shut m.ports f in
          elim ended.1 [
            | err e ↦ (
              (set_mapping (record m { ports = ended.0 }) p stopping, stopping),
              err (port_failed e),
            )
            | ok done ↦
                let cleared : PortMapping = record stopping { forward = none } in
                ((set_mapping (record m { ports = ended.0 }) p cleared, cleared), ok tt)
          ]
    ]

-- Withdraw
unfoldable pub withdraw :
    (ℕ → Bool)
    → PortMappings
    → ℕ
    → PortMapping
    → (PortMappings × PortMapping) × Result MappingError (Unit {0})
withdraw shut m p mapping = elim mapping.status.state [
  | mapping_released ↦ ((m, mapping), ok tt)
  | mapping_reserved ↦ withdraw_live shut m p mapping
  | mapping_listening ↦ withdraw_live shut m p mapping
  | mapping_stopping ↦ withdraw_live shut m p mapping
]

-- The end of Release, under the registry's lock.
unfoldable pub forget : PortMappings → ℕ → PortMapping → PortMappings
forget m p mapping =
    let names = names_of m mapping.bed in
    elim (lookup mapping.spec.name names) [
      | none ↦ m
      | some registered ↦
          if registered == p
          then (let left = delete mapping.spec.name names in
              record m {
                beds =
                    if length left == 0
                    then delete mapping.bed m.beds
                    else insert mapping.bed left m.beds;
              })
          else m
    ]

-- The middle of Release, under the mapping's lock: what the allocation's Release and the state become.
unfoldable pub free_mapping :
    (ℕ → Bool)
    → PortMappings
    → ℕ
    → PortMapping
    → (PortMappings × PortMapping) × Result MappingError (Unit {0})
free_mapping shut m p mapping =
    let freed = release_port shut m.ports mapping.allocation in
    elim freed.1 [
      | err e ↦ ((record m { ports = freed.0 }, mapping), err (port_failed e))
      | ok done ↦
          let gone : PortMapping = record mapping {
            status = record mapping.status { state = mapping_released };
          } in
          ((set_mapping (record m { ports = freed.0 }) p gone, gone), ok tt)
    ]

-- Release: its three locked sections withdraw, free_mapping and forget, one after the other. Their
-- interleavings with other operations are those of Composed.
unfoldable pub release_mapping :
    (ℕ → Bool) → PortMappings → ℕ → PortMapping → PortMappings × Result MappingError (Unit {0})
release_mapping shut m p mapping =
    let withdrawn = withdraw shut m p mapping in
    elim withdrawn.1 [
      | err e ↦ ((withdrawn.0).0, err e)
      | ok done ↦
          let freed = free_mapping shut (withdrawn.0).0 p (withdrawn.0).1 in
          elim freed.1 [
            | err e ↦ ((freed.0).0, err e)
            | ok done ↦ (forget (freed.0).0 p (freed.0).1, ok tt)
          ]
    ]

-- CheckReleased
unfoldable pub check_released : PortMappings → ℕ → Result MappingError (Unit {0})
check_released m bed = if length (names_of m bed) == 0 then ok tt else err still_owned
