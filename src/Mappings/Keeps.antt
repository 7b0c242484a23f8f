-- ===== src/Mappings/Keeps.antt =====
-- What one locked section of internal/bed/network/port_mappings.go may do to the mappings.
use hostel.Base.{
  ℕ, suc, ◌<◌, ◌≡◌, ◌≢◌, refl, sym, ap, ◌∙◌, subst, false, some, ◌==◌, nat_eq, nat_beq_iff,
  string_eq, inl, inr, ◌⊎◌, arith, Bool-cases,
}
use hostel.Base.GoMap.{lookup, insert, lookup-insert}
use hostel.Ports.State.{PortManager}
use hostel.Mappings.State.{mapping_stopping, mapping_released, PortMapping, PortMappings}
use hostel.Mappings.Operation.{set_mapping}

-- The states that Withdraw and Release leave.
abbrev pub IsOver : PortMapping → Type 0
IsOver mapping =
    (mapping.status.state ≡ mapping_stopping) ⊎ (mapping.status.state ≡ mapping_released)

-- The addresses in use are below the next one.
abbrev pub AllBelow : PortMappings → Type 0
AllBelow m = (q : ℕ) (x : PortMapping) → lookup q m.objects ≡ some x → q < m.fresh

-- The second registry has the same addresses in use, and only the mapping at `p` may differ.
pub record Touches (p : ℕ) (m m' : PortMappings) : Type 0 where
  pub same_fresh : m'.fresh ≡ m.fresh
  pub elsewhere : (q : ℕ) → p ≢ q → lookup q m'.objects ≡ lookup q m.objects

abbrev pub StaysOver : PortMappings → PortMappings → Type 0
StaysOver m m' =
    (q : ℕ) (x : PortMapping)
    → lookup q m.objects ≡ some x
    → IsOver x
    → (x' : PortMapping) × (lookup q m'.objects ≡ some x') × IsOver x'

-- What every section does.
abbrev pub Keeps : PortMappings → PortMappings → Type 0
Keeps m m' = AllBelow m → AllBelow m' × StaysOver m m'

pub same-Keeps : (m m' : PortMappings) → m'.objects ≡ m.objects → m'.fresh ≡ m.fresh → Keeps m m'
same-Keeps m m' objects fresh below = (
  λ q x at. subst (λ n. q < n) (sym fresh) (below q x (ap (λ o. lookup q o) (sym objects) ∙ at)),
  λ q x at over. (x, ap (λ o. lookup q o) objects ∙ at, over),
)

pub set-Touches :
    (m : PortMappings) (ports : PortManager) (p : ℕ) (new : PortMapping)
    → Touches p m (set_mapping (record m { ports = ports }) p new)
set-Touches m ports p new = record {
  same_fresh = refl;
  elsewhere = λ q apart. ground (arith, lookup-insert p q new m.objects, nat_beq_iff p q);
}

pub refl-Touches :
    (p : ℕ) (m : PortMappings) (ports : PortManager) → Touches p m (record m { ports = ports })
refl-Touches p m ports = record { same_fresh = refl; elsewhere = λ q apart. refl }

-- A section on the mapping at `p`, where it stays over if it was.
pub touched-Keeps :
    (m m' : PortMappings) (p : ℕ) (old : PortMapping)
    → Touches p m m'
    → lookup p m.objects ≡ some old
    → (IsOver old → (x' : PortMapping) × (lookup p m'.objects ≡ some x') × IsOver x')
    → Keeps m m'
touched-Keeps m m' p old touches held own below = (
  λ q x at.
      subst (λ n. q < n) (sym touches.same_fresh)
        (elim (Bool-cases (p == q)) [
          | inl one ↦ subst (λ k. k < m.fresh) ((nat_beq_iff p q).0 one) (below p old held)
          | inr two ↦
              let apart : p ≢ q = λ one. ground (arith, two, nat_beq_iff p q, one) in
              below q x (sym (touches.elsewhere q apart) ∙ at)
        ]),
  λ q x at over. elim (Bool-cases (p == q)) [
    | inl one ↦
        let p_is_q = (nat_beq_iff p q).0 one in
        let same : some old ≡ some x = sym held ∙ ap (λ k. lookup k m.objects) p_is_q ∙ at in
        let mine : old ≡ x = ground (arith, same) in
        let (x', there, ended) = own (subst IsOver (sym mine) over) in
        (x', ap (λ k. lookup k m'.objects) (sym p_is_q) ∙ there, ended)
    | inr two ↦
        let apart : p ≢ q = λ one. ground (arith, two, nat_beq_iff p q, one) in
        (x, touches.elsewhere q apart ∙ at, over)
  ],
)

pub set-Keeps :
    (m : PortMappings) (ports : PortManager) (p : ℕ) (old new : PortMapping)
    → lookup p m.objects ≡ some old
    → (IsOver old → IsOver new)
    → Keeps m (set_mapping (record m { ports = ports }) p new)
set-Keeps m ports p old new held own =
    touched-Keeps m (set_mapping (record m { ports = ports }) p new) p old
      (set-Touches m ports p new) held
      (λ over. (new, ground (arith, lookup-insert p p new m.objects, nat_beq_iff p p), own over))

pub ports-Keeps : (m : PortMappings) (ports : PortManager) → Keeps m (record m { ports = ports })
ports-Keeps m ports = same-Keeps m (record m { ports = ports }) refl refl

-- A new mapping takes the next address.
pub fresh-Keeps :
    (m m' : PortMappings) (new : PortMapping)
    → m'.objects ≡ insert m.fresh new m.objects
    → m'.fresh ≡ suc m.fresh
    → Keeps m m'
fresh-Keeps m m' new objects fresh below = (
  λ q x at. elim (Bool-cases (m.fresh == q)) [
    | inl one ↦ omega (arith, fresh, (nat_beq_iff m.fresh q).0 one)
    | inr two ↦
        let old : lookup q m.objects ≡ some x =
          ground (arith, two, lookup-insert m.fresh q new m.objects, objects, at) in
        omega (arith, fresh, below q x old)
  ],
  λ q x at over.
      let apart : (m.fresh == q) ≡ false = ground (arith, below q x at, nat_beq_iff m.fresh q) in
      (x, ground (arith, apart, lookup-insert m.fresh q new m.objects, objects, at), over),
)
