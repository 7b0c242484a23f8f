-- ===== src/Mappings/Release.antt =====
-- What Release of internal/bed/network/port_mappings.go gives back.
use hostel.Base.{
  ℕ, ◌≡◌, ◌≢◌, refl, sym, ap, ◌∙◌, subst, String, Bool, Option, none, some, [], if◌then◌else◌, ◌==◌,
  nat_eq, string_eq, nat_beq_iff, inl, inr, ◌⊎◌, arith, Bool-cases, Option-cases, length,
}
use hostel.Base.GoMap.{lookup, delete, lookup-insert, lookup-delete}
use hostel.Base.Result.{Result, ok, Result-cases}
use hostel.Ports.State.{PortManager}
use hostel.Ports.Operation.{drop, release as release_port}
use hostel.Mappings.State.{mapping_released, PortMapping, PortMappings, MappingError}
use hostel.Mappings.Operation.{
  names_of, set_mapping, withdraw, withdraw_live, free_mapping, forget, release_mapping,
}

release_port_gone :
    (shut : ℕ → Bool) (ports ports' : PortManager) (a : ℕ)
    → release_port shut ports a ≡ (ports', ok tt)
    → lookup a ports'.allocations ≡ none
unfolding release_port drop
release_port_gone shut ports ports' a done =
    ground (arith, lookup-delete a a ports.allocations, nat_beq_iff a a)

-- What a Withdraw that succeeds leaves of its mapping.
record Withdrawn (m m' : PortMappings) (p : ℕ) (mapping left : PortMapping) : Type 0 where
  same_allocation : left.allocation ≡ mapping.allocation
  same_bed : left.bed ≡ mapping.bed
  same_spec : left.spec ≡ mapping.spec
  same_beds : m'.beds ≡ m.beds

withdraw_live-Withdrawn :
    (shut : ℕ → Bool) (m m' : PortMappings) (p : ℕ) (mapping left : PortMapping)
    → withdraw_live shut m p mapping ≡ ((m', left), ok tt)
    → Withdrawn m m' p mapping left
unfolding withdraw_live
withdraw_live-Withdrawn shut m m' p mapping left done = record {
  same_allocation = ground arith;
  same_bed = ground arith;
  same_spec = ground arith;
  same_beds = ground arith;
}

pub withdraw-ways :
    (shut : ℕ → Bool) (m : PortMappings) (p : ℕ) (mapping : PortMapping)
    → (withdraw shut m p mapping ≡ withdraw_live shut m p mapping)
      ⊎ ((withdraw shut m p mapping ≡ ((m, mapping), ok tt))
          × (mapping.status.state ≡ mapping_released))
unfolding withdraw
withdraw-ways shut m p mapping = ground arith

withdraw-Withdrawn :
    (shut : ℕ → Bool) (m m' : PortMappings) (p : ℕ) (mapping left : PortMapping)
    → withdraw shut m p mapping ≡ ((m', left), ok tt)
    → Withdrawn m m' p mapping left
withdraw-Withdrawn shut m m' p mapping left done = elim (withdraw-ways shut m p mapping) [
  | inl live ↦ withdraw_live-Withdrawn shut m m' p mapping left (sym live ∙ done)
  | inr (ended, was) ↦
      let same : ◌≡◌ {A = (PortMappings × PortMapping) × Result MappingError (Unit {0})}
          ((m, mapping), ok tt) ((m', left), ok tt) =
        sym ended ∙ done in
      let one : mapping ≡ left = ap (λ r. (r.0).1) same in
      record {
        same_allocation = ap (λ x. x.allocation) (sym one);
        same_bed = ap (λ x. x.bed) (sym one);
        same_spec = ap (λ x. x.spec) (sym one);
        same_beds = ap (λ r. ((r.0).0).beds) (sym same);
      }
]

-- The registry without the mapping.
pub record Forgotten (m m' : PortMappings) (p : ℕ) (mapping : PortMapping) : Type 0 where
  pub unregistered : lookup mapping.spec.name (names_of m' mapping.bed) ≢ some p
  pub same_ports : m'.ports ≡ m.ports
  pub same_objects : m'.objects ≡ m.objects
  pub others : (bed : ℕ) → mapping.bed ≢ bed → names_of m' bed ≡ names_of m bed

nothing_at : (name : String) → ◌≡◌ {A = Option ℕ} (lookup name []) none
unfolding lookup
nothing_at name = refl

unregistered_after :
    (m : PortMappings) (p : ℕ) (mapping : PortMapping)
    → lookup mapping.spec.name (names_of (forget m p mapping) mapping.bed) ≢ some p
unfolding forget
unregistered_after m p mapping still =
    let name = mapping.spec.name in
    let names = names_of m mapping.bed in
    elim (Option-cases (lookup name names)) [
      | inl absent ↦ absurd (ground (arith, absent))
      | inr (registered, at) ↦ elim (Bool-cases (registered == p)) [
        | inr other ↦ absurd (ground (arith, at, other, nat_beq_iff registered p))
        | inl mine ↦ elim (Bool-cases (length (delete name names) == 0)) [
          | inl last ↦ absurd (
              ground (
                arith,
                nothing_at name,
                at,
                mine,
                last,
                lookup-delete mapping.bed mapping.bed m.beds,
                nat_beq_iff mapping.bed mapping.bed,
              ))
          | inr more ↦ absurd (
              ground (
                arith,
                at,
                mine,
                more,
                lookup-insert mapping.bed mapping.bed (delete name names) m.beds,
                nat_beq_iff mapping.bed mapping.bed,
                lookup-delete name name names,
                string_eq.same_iff name name,
              ))
        ]
      ]
    ]

pub forget-Forgotten :
    (m : PortMappings) (p : ℕ) (mapping : PortMapping) → Forgotten m (forget m p mapping) p mapping
unfolding forget
forget-Forgotten m p mapping = record {
  unregistered = unregistered_after m p mapping;
  same_ports = ground arith;
  same_objects = ground arith;
  others = λ bed apart. ground (
    arith,
    lookup-delete mapping.bed bed m.beds,
    nat_beq_iff mapping.bed bed,
    lookup-insert mapping.bed bed (delete mapping.spec.name (names_of m mapping.bed)) m.beds,
  );
}

-- What a Release that succeeds leaves.
pub record IsReleased (m m' : PortMappings) (p : ℕ) (mapping : PortMapping) : Type 0 where
  pub freed : lookup mapping.allocation m'.ports.allocations ≡ none
  pub unregistered : lookup mapping.spec.name (names_of m' mapping.bed) ≢ some p
  pub others : (bed : ℕ) → mapping.bed ≢ bed → names_of m' bed ≡ names_of m bed
  pub gone :
      (left : PortMapping) × (lookup p m'.objects ≡ some left)
      × (left.status.state ≡ mapping_released)

abbrev pub released : PortMapping → PortMapping
released left = record left { status = record left.status { state = mapping_released } }

released_from :
    (shut : ℕ → Bool) (m m1 m' : PortMappings) (p : ℕ) (mapping left : PortMapping)
    (ports : PortManager)
    → Withdrawn m m1 p mapping left
    → release_port shut m1.ports left.allocation ≡ (ports, ok tt)
    → forget (set_mapping (record m1 { ports = ports }) p (released left)) p (released left) ≡ m'
    → IsReleased m m' p mapping
released_from shut m m1 m' p mapping left ports kept freed same =
    let before = set_mapping (record m1 { ports = ports }) p (released left) in
    let out = forget-Forgotten before p (released left) in
    subst (λ x. IsReleased m x p mapping) same
      (record {
        freed =
            subst (λ a. lookup a (forget before p (released left)).ports.allocations ≡ none)
              kept.same_allocation
              (ap (λ x. lookup left.allocation x.allocations) out.same_ports
                ∙ release_port_gone shut m1.ports ports left.allocation freed);
        unregistered = λ still. out.unregistered (
            ap (λ s. lookup s.name (names_of (forget before p (released left)) left.bed))
              kept.same_spec
            ∙ ap (λ b. lookup mapping.spec.name (names_of (forget before p (released left)) b))
                kept.same_bed
            ∙ still);
        others = λ bed apart.
            out.others bed (λ one. apart (sym kept.same_bed ∙ one))
            ∙ ap (λ beds. elim (lookup bed beds) [ none ↦ [] | some names ↦ names ]) kept.same_beds;
        gone = (
          released left,
          ap (λ objects. lookup p objects) out.same_objects
              ∙ lookup-insert p p (released left) m1.objects
              ∙ ap (λ b. if b then some (released left) else lookup p m1.objects)
                  ((nat_beq_iff p p).1 refl),
          refl,
        );
      })

-- Release of a port mapping that succeeds, with no other section between its own, has given its port
-- back to the port manager, left the mapping in the released state, taken it out of the registry of
-- its Bed under its name, and left the mappings of every other Bed registered as they were.
pub release_mapping-IsReleased :
    (shut : ℕ → Bool) (m m' : PortMappings) (p : ℕ) (mapping : PortMapping)
    → release_mapping shut m p mapping ≡ (m', ok tt)
    → IsReleased m m' p mapping
unfolding release_mapping free_mapping
release_mapping-IsReleased shut m m' p mapping done =
    let withdrawn = withdraw shut m p mapping in
    elim (Result-cases withdrawn.1) [
      | inr (e, failed) ↦ absurd (ground (arith, failed))
      | inl (one, fine) ↦
          let m1 = (withdrawn.0).0 in
          let left = (withdrawn.0).1 in
          let kept =
            withdraw-Withdrawn shut m m1 p mapping left (ap (λ r. (withdrawn.0, r)) fine) in
          let freed = release_port shut m1.ports left.allocation in
          elim (Result-cases freed.1) [
            | inr (e, failed) ↦ absurd (ground (arith, fine, failed))
            | inl (two, good) ↦
                released_from shut m m1 m' p mapping left freed.0 kept (ap (λ r. (freed.0, r)) good)
                  (ground (arith, fine, good))
          ]
    ]
