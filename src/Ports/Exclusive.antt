-- ===== src/Ports/Exclusive.antt =====
-- The overlap of live allocations (internal/host/network/ports.go) under the moves of the manager: a
-- new allocation, and a dropped one.
use hostel.Base.{
  ℕ, ◌≤◌, ◌<◌, ◌≡◌, ◌≢◌, ◌∙◌, subst, String, Bool, false, inl, inr, some, Bool-cases, ◌==◌, nat_eq,
  string_eq, nat_beq_iff, any, arith, [], ◌∷◌,
}
use hostel.Base.GoMap.{GoMap, lookup, insert, delete, lookup-insert, lookup-delete}
use hostel.Ports.State.{PortAllocation, Net}
use hostel.Ports.Reserve.{conflicts, overlapping_hosts, address_of}

any-lookup :
    (p : ℕ × PortAllocation → Bool) (m : GoMap ℕ PortAllocation) (a : ℕ) (x : PortAllocation)
    → any p m ≡ false
    → lookup a m ≡ some x
    → p (a, x) ≡ false
unfolding lookup
any-lookup p [] a x h found = ground arith
any-lookup p ((b, y) ∷ m) a x h found = ground (arith, any-lookup p m a x)

module _ (net : Net) where
  pub overlapping_hosts_comm :
      (a b : String) → overlapping_hosts net a b ≡ overlapping_hosts net b a
  unfolding overlapping_hosts
  overlapping_hosts_comm a b =
      let x = address_of net a in
      let y = address_of net b in ground (arith, net.addr_eq.same_iff x y, net.addr_eq.same_iff y x)

  -- The allocations of `m` under the addresses `a` and `b` do not conflict.
  abbrev pub IsApart : GoMap ℕ PortAllocation → Type 0
  IsApart m =
      (a b : ℕ) (x y : PortAllocation)
      → lookup a m ≡ some x
      → lookup b m ≡ some y
      → a ≢ b
      → conflicts net x.scope x.host x.port (b, y) ≡ false

  abbrev pub InRange : ℕ → GoMap ℕ PortAllocation → Type 0
  InRange fresh m =
      (a : ℕ) (x : PortAllocation)
      → lookup a m ≡ some x
      → (a < fresh) × (0 < x.port) × (x.port ≤ 65535)

  conflicts_comm :
      (a b : ℕ) (x y : PortAllocation)
      → conflicts net x.scope x.host x.port (b, y) ≡ conflicts net y.scope y.host y.port (a, x)
  conflicts_comm a b x y = ground (
    overlapping_hosts_comm x.host y.host,
    string_eq.same_iff x.scope y.scope,
    string_eq.same_iff y.scope x.scope,
    arith,
  )

  pub insert-IsApart :
      (m : GoMap ℕ PortAllocation) (fresh : ℕ) (x : PortAllocation)
      → any (conflicts net x.scope x.host x.port) m ≡ false
      → IsApart m
      → IsApart (insert fresh x m)
  insert-IsApart m fresh x free apart a b y z left right distinct =
      let left' = lookup-insert fresh a x m in
      let right' = lookup-insert fresh b x m in
      elim (Bool-cases (fresh == a)) [
        | inl p ↦ elim (Bool-cases (fresh == b)) [
          | inl q ↦ absurd (distinct (ground (arith, nat_beq_iff fresh a, nat_beq_iff fresh b)))
          | inr q ↦
              let same : x ≡ y = ground arith in
              let found =
                any-lookup (conflicts net x.scope x.host x.port) m b z free (ground arith) in
              subst (λ w. conflicts net w.scope w.host w.port (b, z) ≡ false) same found
        ]
        | inr p ↦ elim (Bool-cases (fresh == b)) [
          | inl q ↦
              let same : x ≡ z = ground arith in
              let found =
                any-lookup (conflicts net x.scope x.host x.port) m a y free (ground arith) in
              subst (λ w. conflicts net y.scope y.host y.port (b, w) ≡ false) same
                (conflicts_comm a b y x ∙ found)
          | inr q ↦ apart a b y z (ground arith) (ground arith) distinct
        ]
      ]

  pub delete-IsApart : (m : GoMap ℕ PortAllocation) (k : ℕ) → IsApart m → IsApart (delete k m)
  delete-IsApart m k apart a b x y left right distinct =
      let left' = lookup-delete k a m in
      let right' = lookup-delete k b m in apart a b x y (ground arith) (ground arith) distinct
