-- ===== src/Ports/Candidates.antt =====
-- The round robin of reserve over the pool (internal/host/network/ports.go).
use hostel.Base.{
  ap, sym, ◌∙◌, ℕ, zero, suc, ◌+◌, ◌-◌, ◌≤◌, ◌<◌, ◌≡◌, refl, String, true, false, inl, inr, none,
  Bool-cases, if◌then◌else◌, ltb, ◌==◌, nat_eq, any, arith,
}
use hostel.Base.GoMap.{insert}
use hostel.Base.Result.{Result, ok, err}
use hostel.Ports.State.{PortManager, PortAllocation, reserved, Error, ports_exhausted, Net}
use hostel.Ports.Reserve.{conflicts, try_ports, requested}

-- The cursor of the round robin stands in the pool.
abbrev pub HasCursor : PortManager → Type 0
HasCursor m = (m.first ≤ m.next) × (m.next ≤ m.last)

-- The two managers differ in their cursors at most, and the second has its own in the pool.
abbrev pub IsUntouched : PortManager → PortManager → Type 0
IsUntouched m m' =
    (m'.allocations ≡ m.allocations)
    × (m'.fresh ≡ m.fresh)
    × (m'.first ≡ m.first)
    × (m'.last ≡ m.last)
    × (m'.closed ≡ m.closed)
    × HasCursor m'

module _ (net : Net) (owner scope host : String) (port : ℕ) where
  -- The second manager has one more allocation, at the address that was fresh: it has the requested
  -- port or one of the pool, and no earlier allocation conflicts with it.
  abbrev pub IsReserved : PortManager → PortManager → ℕ → Type 0
  IsReserved m m' a =
      (x : PortAllocation) × (x.owner ≡ owner)
      × (x.scope ≡ scope)
      × (x.host ≡ host)
      × (x.address ≡ net.join_host_port host x.port)
      × (x.state ≡ reserved)
      × (x.listener ≡ none)
      × (0 < port → x.port ≡ port)
      × (port ≡ 0 → (m.first ≤ x.port) × (x.port ≤ m.last))
      × (any (conflicts net scope host x.port) m.allocations ≡ false)
      × (a ≡ m.fresh)
      × (m'.allocations ≡ insert m.fresh x m.allocations)
      × (m'.fresh ≡ suc m.fresh)
      × (m'.first ≡ m.first)
      × (m'.last ≡ m.last)
      × (m'.closed ≡ m.closed)
      × HasCursor m'

  abbrev pub Outcome : PortManager → PortManager → Result Error ℕ → Type 0
  Outcome m m' (err e) = (e ≡ ports_exhausted) × IsUntouched m m'
  Outcome m m' (ok a) = IsReserved m m' a

  pub try_ports-Outcome :
      (n : ℕ) (m : PortManager)
      → HasCursor m
      → (let r = try_ports net n owner scope host port m in Outcome m r.0 r.1)
  unfolding try_ports
  try_ports-Outcome zero m h = (refl, (refl, refl, refl, refl, refl, h))
  try_ports-Outcome (suc n) m h = elim (Bool-cases (port == 0)) [
    | inl pool ↦
        let after : ℕ = if ltb m.last (m.next + 1) then m.first else m.next + 1 in
        let h' : HasCursor (record m { next = after }) = ground arith in
        elim (Bool-cases (any (conflicts net scope host m.next) m.allocations)) [
          | inl taken ↦ rw (pool, taken) (try_ports-Outcome n (record m { next = after }) h')
          | inr free ↦
              rw (pool, free)
                (
                  requested net owner scope host m.next,
                  refl,
                  refl,
                  refl,
                  refl,
                  refl,
                  refl,
                  (λ p. ground arith),
                  (λ z. h),
                  free,
                  refl,
                  refl,
                  refl,
                  refl,
                  refl,
                  refl,
                  h',
                )
        ]
    | inr fixed ↦ elim (Bool-cases (any (conflicts net scope host port) m.allocations)) [
      | inl taken ↦ rw (fixed, taken) (try_ports-Outcome n m h)
      | inr free ↦
          rw (fixed, free)
            (
              requested net owner scope host port,
              refl,
              refl,
              refl,
              refl,
              refl,
              refl,
              (λ p. refl),
              (λ z. ground arith),
              free,
              refl,
              refl,
              refl,
              refl,
              refl,
              refl,
              h,
            )
    ]
  ]

-- The i-th candidate from the cursor on, for i below the size of the pool.
abbrev pub nth_candidate : PortManager → ℕ → ℕ
nth_candidate m i =
    if ltb m.last (m.next + i) then m.next + i - (m.last - m.first + 1) else m.next + i

abbrev advanced : PortManager → PortManager
advanced m = record m { next = if ltb m.last (m.next + 1) then m.first else m.next + 1 }

nth_candidate-advanced :
    (m : PortManager) (i : ℕ)
    → HasCursor m
    → suc i < m.last - m.first + 1
    → nth_candidate (advanced m) i ≡ nth_candidate m (suc i)
nth_candidate-advanced m i h below = ground arith

nth_candidate_zero : (m : PortManager) → HasCursor m → m.next ≡ nth_candidate m 0
nth_candidate_zero m h = ground arith

module _ (net : Net) (owner scope host : String) where
  -- Where the loop gives up after `n` candidates, each of them is taken.
  pub try_ports_exhausted :
      (n : ℕ) (m : PortManager)
      → HasCursor m
      → n ≤ m.last - m.first + 1
      → (try_ports net n owner scope host 0 m).1 ≡ err ports_exhausted
      → (i : ℕ) → i < n
      → any (conflicts net scope host (nth_candidate m i)) m.allocations ≡ true
  unfolding try_ports
  try_ports_exhausted zero m h bound failed i below = ground arith
  try_ports_exhausted (suc n) m h bound failed i below =
      elim (Bool-cases (any (conflicts net scope host m.next) m.allocations)) [
        | inl taken ↦
            let later =
              try_ports_exhausted n (advanced m) (ground arith) (omega arith)
                (rw taken at failed) in
            elim i
                as (λ i.
                  i < suc n
                  → any (conflicts net scope host (nth_candidate m i)) m.allocations ≡ true) [
                    | zero ↦ λ b.
                        ap (λ p. any (conflicts net scope host p) m.allocations)
                          (sym (nth_candidate_zero m h))
                        ∙ taken
                    | suc j ↦ λ b.
                        ap (λ p. any (conflicts net scope host p) m.allocations)
                          (sym (nth_candidate-advanced m j h (omega arith)))
                        ∙ later j (omega arith)
                  ]
              below
        | inr free ↦ let impossible = rw free at failed in cc
      ]

-- Every port of the pool is a candidate.
pub nth_candidate_covers :
    (m : PortManager) (p : ℕ)
    → HasCursor m
    → m.first ≤ p
    → p ≤ m.last
    → (i : ℕ) × (i < m.last - m.first + 1) × (nth_candidate m i ≡ p)
nth_candidate_covers m p h low high = (
  if ltb p m.next then p + (m.last - m.first + 1) - m.next else p - m.next,
  ground arith,
  ground arith,
)
