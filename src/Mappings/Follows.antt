-- ===== src/Mappings/Follows.antt =====
-- What each operation of internal/bed/network/port_mappings.go does to the reported host ports.
use hostel.Base.{
  ℕ, suc, ◌≡◌, refl, sym, ap, ◌∙◌, subst, String, Bool, Option, none, some, List, if◌then◌else◌,
  ◌==◌, nat_eq, string_eq, inl, inr, ◌⊎◌, arith, Bool-cases, Option-cases,
}
use hostel.Base.GoMap.{GoMap, lookup, insert, lookup-insert}
use hostel.Base.Result.{Result-cases}
use hostel.Ports.State.{PortManager, Net}
use hostel.Ports.Operation.{Probe, reserve_port, listen, confirm, release as release_port}
use hostel.Mappings.State.{
  PillowPort, mapping_listening, mapping_stopping, PortMapping, PortMappings,
}
use hostel.Mappings.Release.{withdraw-ways, forget-Forgotten, released}
use hostel.Mappings.Operation.{
  find_port, names_of, listen_host, new_mapping, port_of, set_mapping, reserve_mapping,
  publish_mapping, publish_confirmed, is_private, withdraw, withdraw_live, free_mapping, forget,
}

abbrev pub IsHonest : PortMapping → Type 0
IsHonest mapping = (mapping.status.host_port ≡ 0) ⊎ (mapping.status.state ≡ mapping_listening)

abbrev pub AllHonest : PortMappings → Type 0
AllHonest m = (p : ℕ) (mapping : PortMapping) → lookup p m.objects ≡ some mapping → IsHonest mapping

insert-IsHonest :
    (objects : GoMap ℕ PortMapping) (p : ℕ) (new : PortMapping)
    → ((q : ℕ) (x : PortMapping) → lookup q objects ≡ some x → IsHonest x)
    → IsHonest new
    → (q : ℕ) (x : PortMapping) → lookup q (insert p new objects) ≡ some x
    → IsHonest x
insert-IsHonest objects p new all own q x at = elim (Bool-cases (p == q)) [
  | inl here ↦
      let same : some new ≡ some x =
        ap (λ b. if b then some new else lookup q objects) (sym here)
        ∙ sym (lookup-insert p q new objects)
        ∙ at in
      let one : new ≡ x = ground (arith, same) in subst IsHonest one own
  | inr off ↦ all q x (
      ap (λ b. if b then some new else lookup q objects) (sym off)
      ∙ sym (lookup-insert p q new objects)
      ∙ at)
]

module _ (net : Net) where
  -- An operation keeps the mappings honest.
  abbrev pub Follows : PortMappings → PortMappings → Type 0
  Follows m m' = AllHonest m → AllHonest m'

  pub Follows-trans : (a b c : PortMappings) → Follows a b → Follows b c → Follows a c
  Follows-trans a b c ab bc all = bc (ab all)

  pub ports-Follows :
      (m : PortMappings) (ports : PortManager) → Follows m (record m { ports = ports })
  ports-Follows m ports all = all

  pub set_mapping-Follows :
      (m : PortMappings) (p : ℕ) (new : PortMapping)
      → IsHonest new
      → Follows m (set_mapping m p new)
  set_mapping-Follows m p new own = (λ all. insert-IsHonest m.objects p new all own)

  -- An operation's result: the registry and the mapping that it leaves.
  abbrev pub Leaves : PortMappings → PortMappings × PortMapping → Type 0
  Leaves m out = Follows m out.0 × ((out.1).status.host_port ≡ 0)

  set-Leaves :
      (m : PortMappings) (ports : PortManager) (p : ℕ) (new : PortMapping)
      → new.status.host_port ≡ 0
      → Leaves m (set_mapping (record m { ports = ports }) p new, new)
  set-Leaves m ports p new own = (
    Follows-trans m (record m { ports = ports }) (set_mapping (record m { ports = ports }) p new)
        (ports-Follows m ports) (set_mapping-Follows (record m { ports = ports }) p new (inl own)),
    own,
  )

  stopping : PortMapping → PortMapping
  stopping mapping = record mapping {
    status = record mapping.status { state = mapping_stopping; host_port = 0 };
  }

  withdraw_live-Leaves :
      (shut : ℕ → Bool) (m : PortMappings) (p : ℕ) (mapping : PortMapping)
      → Leaves m (withdraw_live shut m p mapping).0
  unfolding withdraw_live stopping
  withdraw_live-Leaves shut m p mapping = elim (Option-cases mapping.forward) [
    | inl without ↦ rw without (set_mapping-Follows m p _ (inl refl), refl)
    | inr (f, at) ↦
        let ended = release_port shut m.ports f in
        elim (Result-cases ended.1) [
          | inr (e, failed) ↦
              let same : ◌≡◌ {A = PortMappings × PortMapping}
                  (
                    set_mapping (record m { ports = ended.0 }) p (stopping mapping),
                    stopping mapping,
                  )
                  (withdraw_live shut m p mapping).0 =
                ground (arith, at, failed) in
              subst (Leaves m) same (set-Leaves m ended.0 p (stopping mapping) refl)
          | inl (done, fine) ↦
              let cleared : PortMapping = record (stopping mapping) { forward = none } in
              let same : ◌≡◌ {A = PortMappings × PortMapping}
                  (set_mapping (record m { ports = ended.0 }) p cleared, cleared)
                  (withdraw_live shut m p mapping).0 =
                ground (arith, at, fine) in
              subst (Leaves m) same (set-Leaves m ended.0 p cleared refl)
        ]
  ]

  pub withdraw-Leaves :
      (shut : ℕ → Bool) (m : PortMappings) (p : ℕ) (mapping : PortMapping)
      → IsHonest mapping
      → Leaves m (withdraw shut m p mapping).0
  withdraw-Leaves shut m p mapping own = elim (withdraw-ways shut m p mapping) [
    | inl live ↦ subst (λ o. Leaves m o.0) (sym live) (withdraw_live-Leaves shut m p mapping)
    | inr (ended, was) ↦ subst (λ o. Leaves m o.0) (sym ended) (((λ all. all)), ground (arith, was))
  ]

  pub forget-Follows :
      (m : PortMappings) (p : ℕ) (mapping : PortMapping) → Follows m (forget m p mapping)
  forget-Follows m p mapping =
      let out = forget-Forgotten m p mapping in
      (λ all q x at. all q x (ap (λ objects. lookup q objects) (sym out.same_objects) ∙ at))

  pub free_mapping-Follows :
      (shut : ℕ → Bool) (m : PortMappings) (p : ℕ) (mapping : PortMapping)
      → mapping.status.host_port ≡ 0
      → Follows m ((free_mapping shut m p mapping).0).0
  unfolding free_mapping
  free_mapping-Follows shut m p mapping unreported =
      let freed = release_port shut m.ports mapping.allocation in
      let out = ((free_mapping shut m p mapping).0).0 in
      let after = record m { ports = freed.0 } in
      let ports = ports-Follows m freed.0 in
      elim (Result-cases freed.1) [
        | inr (e, failed) ↦
            let same : after ≡ out = ground (arith, failed) in subst (Follows m) same ports
        | inl (done, good) ↦
            let same : set_mapping after p (released mapping) ≡ out = ground (arith, good) in
            subst (Follows m) same (
              Follows-trans m after (set_mapping after p (released mapping)) ports
                (set_mapping-Follows after p (released mapping) (inl unreported)))
      ]

  pub reserve_mapping-Follows :
      (probe : ℕ → String → Probe) (m : PortMappings) (bed : ℕ) (declared : List PillowPort)
      (owner name pillow scope host : String)
      → Follows m (reserve_mapping net probe m bed declared owner name pillow scope host).0
  unfolding reserve_mapping
  reserve_mapping-Follows probe m bed declared owner name pillow scope host =
      let out = (reserve_mapping net probe m bed declared owner name pillow scope host).0 in
      elim (Option-cases (find_port name declared)) [
        | inl absent ↦
            let same : m ≡ out = ground (arith, absent) in subst (Follows m) same ((λ all. all))
        | inr (spec, found) ↦ elim (Option-cases (lookup name (names_of m bed))) [
          | inr (p, taken) ↦
              let same : m ≡ out = ground (arith, found, taken) in
              subst (Follows m) same ((λ all. all))
          | inl free ↦
              let address = net.join_host_port (listen_host scope spec) spec.container_port in
              let asked = reserve_port net probe m.ports owner scope address in
              elim (Result-cases asked.1) [
                | inr (e, failed) ↦
                    let same : record m { ports = asked.0 } ≡ out =
                      ground (arith, found, free, failed) in
                    subst (Follows m) same (ports-Follows m asked.0)
                | inl (a, fine) ↦
                    let port = port_of asked.0 a in
                    let new =
                      new_mapping bed spec pillow scope a port (net.join_host_port host port) in
                    let reached : PortMappings = record {
                      ports = asked.0;
                      beds = insert bed (insert name m.fresh (names_of m bed)) m.beds;
                      objects = insert m.fresh new m.objects;
                      fresh = suc m.fresh;
                    } in
                    let same : reached ≡ out = ground (arith, found, free, fine) in
                    subst (Follows m) same
                      ((λ all. insert-IsHonest m.objects m.fresh new all (inl refl)))
              ]
        ]
      ]

  publish_confirmed-Follows :
      (bind : ℕ → String → Option ℕ) (resolved : Option String) (m : PortMappings) (p : ℕ)
      (mapping : PortMapping) (owner : String)
      → Follows m (publish_confirmed net bind resolved m p mapping owner).0
  unfolding publish_confirmed
  publish_confirmed-Follows bind resolved m p mapping owner =
      let out = (publish_confirmed net bind resolved m p mapping owner).0 in
      elim (Bool-cases mapping.spec.publish) [
        | inr internal ↦ rw internal (set_mapping-Follows m p _ (inr refl))
        | inl published ↦ elim (Bool-cases (is_private mapping.status.network)) [
          | inr on_host ↦ rw (published, on_host) (set_mapping-Follows m p _ (inr refl))
          | inl apart ↦
              let opened = listen net bind m.ports owner resolved in
              let ports = ports-Follows m opened.0 in
              elim (Result-cases opened.1) [
                | inr (e, failed) ↦
                    let same : record m { ports = opened.0 } ≡ out =
                      ground (arith, published, apart, failed) in
                    subst (Follows m) same ports
                | inl (f, fine) ↦
                    let new : PortMapping = record mapping {
                      forward = some f;
                      status = record mapping.status {
                        host_port = port_of opened.0 f;
                        state = mapping_listening;
                      };
                    } in
                    let after = record m { ports = opened.0 } in
                    let same : set_mapping after p new ≡ out =
                      ground (arith, published, apart, fine) in
                    subst (Follows m) same (
                      Follows-trans m after (set_mapping after p new) ports
                        (set_mapping-Follows after p new (inr refl)))
              ]
        ]
      ]

  pub publish_ways :
      (bind : ℕ → String → Option ℕ) (resolved : Option String) (m : PortMappings) (p : ℕ)
      (mapping : PortMapping) (owner : String)
      → let after = record m { ports = (confirm m.ports mapping.allocation).0 } in
        let out = (publish_mapping net bind resolved m p mapping owner).0 in
        (out ≡ m) ⊎ (out ≡ (publish_confirmed net bind resolved after p mapping owner).0)
  unfolding publish_mapping
  publish_ways bind resolved m p mapping owner = ground arith

  pub publish_mapping-Follows :
      (bind : ℕ → String → Option ℕ) (resolved : Option String) (m : PortMappings) (p : ℕ)
      (mapping : PortMapping) (owner : String)
      → Follows m (publish_mapping net bind resolved m p mapping owner).0
  unfolding publish_mapping
  publish_mapping-Follows bind resolved m p mapping owner =
      let confirmed = confirm m.ports mapping.allocation in
      let after = record m { ports = confirmed.0 } in
      let out = (publish_mapping net bind resolved m p mapping owner).0 in
      elim (publish_ways bind resolved m p mapping owner) [
        | inl same ↦ subst (Follows m) (sym same) ((λ all. all))
        | inr same ↦ subst (Follows m) (sym same) (
            Follows-trans m after (publish_confirmed net bind resolved after p mapping owner).0
              (ports-Follows m confirmed.0)
              (publish_confirmed-Follows bind resolved after p mapping owner))
      ]
