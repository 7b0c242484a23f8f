-- ===== src/Mappings/Composed.antt =====
-- The mappings of internal/bed/network/port_mappings.go over the ports of internal/host/network/ports.go,
-- in every order of their operations.
use hostel.Base.{
  ℕ, ◌≡◌, ◌≢◌, String, Bool, Option, some, List, nat_eq, string_eq, inl, inr, ◌⊎◌, arith,
}
use hostel.Base.GoMap.{lookup}
use hostel.Ports.State.{PortManager, Net}
use hostel.Ports.Operation.{Probe}
use hostel.Ports.Safety as port_runs
use hostel.Mappings.State.{
  PillowPort, mapping_listening, mapping_stopping, mapping_released, PortMapping, PortMappings,
  new_port_mappings,
}
use hostel.Mappings.Operation.{
  reserve_mapping, publish_mapping, bind_mapping, withdraw, free_mapping, forget,
}
use hostel.Mappings.Follows.{
  IsHonest, AllHonest, ports-Follows, set_mapping-Follows, withdraw-Leaves, free_mapping-Follows,
  forget-Follows, reserve_mapping-Follows, publish_mapping-Follows, Follows,
}

module _ (net : Net) where
  -- The locked sections of the operations; a mapping is used by the address that Reserve gave.
  pub data Step (m : PortMappings) : PortMappings → Type 0 where
    reserves :
        (probe : ℕ → String → Probe) (bed : ℕ) (declared : List PillowPort)
        (owner name pillow scope host : String)
        → Step m (reserve_mapping net probe m bed declared owner name pillow scope host).0
    binds :
        (p : ℕ) (mapping : PortMapping) (execution : String)
        → lookup p m.objects ≡ some mapping
        → Step m (bind_mapping m p mapping execution)
    publishes :
        (bind : ℕ → String → Option ℕ) (resolved : Option String) (p : ℕ) (mapping : PortMapping)
        (owner : String)
        → lookup p m.objects ≡ some mapping
        → Step m (publish_mapping net bind resolved m p mapping owner).0
    withdraws :
        (shut : ℕ → Bool) (p : ℕ) (mapping : PortMapping)
        → lookup p m.objects ≡ some mapping
        → Step m ((withdraw shut m p mapping).0).0
    -- Release after its Withdraw, which leaves a mapping that is stopping or released; no operation
    -- takes a mapping back from there.
    frees :
        (shut : ℕ → Bool) (p : ℕ) (mapping : PortMapping)
        → lookup p m.objects ≡ some mapping
        → (mapping.status.state ≡ mapping_stopping) ⊎ (mapping.status.state ≡ mapping_released)
        → Step m ((free_mapping shut m p mapping).0).0
    forgets :
        (p : ℕ) (mapping : PortMapping)
        → lookup p m.objects ≡ some mapping
        → Step m (forget m p mapping)
    -- Another user of the port manager.
    others :
        (ports : PortManager)
        → port_runs.Step net m.ports ports
        → Step m (record m { ports = ports })

  pub data Run (a : PortMappings) : PortMappings → Type 0 where
    here : Run a a
    next : {b c : PortMappings} → Run a b → Step b c → Run a c

  pub unreported :
      (mapping : PortMapping)
      → IsHonest mapping
      → (mapping.status.state ≡ mapping_stopping) ⊎ (mapping.status.state ≡ mapping_released)
      → mapping.status.host_port ≡ 0
  unreported mapping (inl zero) over = zero
  unreported mapping (inr listening) (inl over) = absurd (cc (listening, over))
  unreported mapping (inr listening) (inr over) = absurd (cc (listening, over))

  pub Run-append : {a b c : PortMappings} → Run a b → Run b c → Run a c
  Run-append ab here = ab
  Run-append ab (next bc step) = next (Run-append ab bc) step

  Step-Follows : (m m' : PortMappings) → Step m m' → AllHonest m → Follows net m m'
  Step-Follows m m' (reserves probe bed declared owner name pillow scope host) all =
      reserve_mapping-Follows net probe m bed declared owner name pillow scope host
  Step-Follows m m' (binds p mapping execution at) all =
      set_mapping-Follows net m p _ (all p mapping at)
  Step-Follows m m' (publishes bind resolved p mapping owner at) all =
      publish_mapping-Follows net bind resolved m p mapping owner
  Step-Follows m m' (withdraws shut p mapping at) all =
      (withdraw-Leaves net shut m p mapping (all p mapping at)).0
  Step-Follows m m' (frees shut p mapping at over) all =
      free_mapping-Follows net shut m p mapping (unreported mapping (all p mapping at) over)
  Step-Follows m m' (forgets p mapping at) all = forget-Follows net m p mapping
  Step-Follows m m' (others ports step) all = ports-Follows net m ports

  Run-Follows : (m m' : PortMappings) → Run m m' → Follows net m m'
  Run-Follows m m' here all = all
  Run-Follows m m' (next {b = b} run step) all =
      let before = Run-Follows m b run all in Step-Follows b m' step before before

  none-AllHonest : (ports : PortManager) → AllHonest (new_port_mappings ports)
  unfolding lookup
  none-AllHonest ports p mapping at = absurd (ground arith)

  pub Run-AllHonest :
      (ports : PortManager) (m : PortMappings) → Run (new_port_mappings ports) m → AllHonest m
  Run-AllHonest ports m run = Run-Follows (new_port_mappings ports) m run (none-AllHonest ports)

  -- In every interleaving of the operations' locked sections, beside any other use of the port
  -- manager, a mapping that reports a host port is listening.
  pub Run-honest :
      (ports : PortManager) (m : PortMappings) (p : ℕ) (mapping : PortMapping)
      → Run (new_port_mappings ports) m
      → lookup p m.objects ≡ some mapping
      → mapping.status.host_port ≢ 0
      → mapping.status.state ≡ mapping_listening
  Run-honest ports m p mapping run at reports = elim (Run-AllHonest ports m run p mapping at) [
    | inl none_reported ↦ absurd (reports none_reported)
    | inr listening ↦ listening
  ]
