-- ===== src/Ports/Atomic.antt =====
-- What one call of PortManager.Reserve (internal/host/network/ports.go) leaves.
use hostel.Base.{
  ℕ, zero, suc, ◌≤◌, ◌≡◌, refl, sym, ap, ◌∙◌, String, true, not, ◌||◌, inl, inr, none, some, [],
  Bool-cases, Option-cases, ◌==◌, nat_eq, string_eq, nat_beq_iff, arith,
}
use hostel.Base.GoMap.{lookup, insert, lookup-insert, delete-insert_new}
use hostel.Base.Result.{Result, ok, err, Result-cases}
use hostel.Ports.State.{PortManager, PortAllocation, reserved, Error, closed, Net}
use hostel.Ports.Reserve.{reserve, parse_request}
use hostel.Ports.Operation.{
  Probe, is_usable, is_in_use, address_at, drop, reserve_loop, reserve_port, attempts,
}
use hostel.Ports.Invariant.{IsValid, reserve-ok, reserve-err, reserve-IsValid, drop-IsValid}

module _ (net : Net) where
  fresh_unused : (m : PortManager) → IsValid net m → lookup m.fresh m.allocations ≡ none
  fresh_unused m valid = elim (Option-cases (lookup m.fresh m.allocations)) [
    | inl absent ↦ absent
    | inr (x, found) ↦ absurd (ground (arith, valid.live m.fresh x found))
  ]

  address_found :
      (m : PortManager) (a : ℕ) (x : PortAllocation)
      → lookup a m.allocations ≡ some x
      → address_at m a ≡ x.address
  unfolding address_at
  address_found m a x found = rw (found, address_at)

  dropped_new :
      (m' m : PortManager) (a : ℕ) (x : PortAllocation)
      → m'.allocations ≡ insert m.fresh x m.allocations
      → a ≡ m.fresh
      → lookup m.fresh m.allocations ≡ none
      → (drop m' a).allocations ≡ m.allocations
  unfolding drop
  dropped_new m' m a x grown new unused =
      rw (grown, new) (delete-insert_new m.fresh x m.allocations unused)

  drop_later : (m : PortManager) (a n : ℕ) → n ≤ m.fresh → n ≤ (drop m a).fresh
  unfolding drop
  drop_later m a n h = h

  -- Where the call fails, the allocations are as before. Where it returns the allocation `a`, this
  -- is a new address with the owner and the scope of the request, and a candidate in the carrier's
  -- namespace passed its trial listener.
  abbrev pub ReserveEffect :
      (ℕ → String → Probe) → String → String → PortManager → PortManager → Result Error ℕ → Type 0
  ReserveEffect probe owner scope m m' (err e) = m'.allocations ≡ m.allocations
  ReserveEffect probe owner scope m m' (ok a) =
      (x : PortAllocation) × (m.fresh ≤ a)
      × (m'.allocations ≡ insert a x m.allocations)
      × (x.owner ≡ owner)
      × (x.scope ≡ scope)
      × (x.state ≡ reserved)
      × (scope ≡ "" → (n : ℕ) × (is_usable (probe n x.address) ≡ true))

  weaken :
      (probe : ℕ → String → Probe) (owner scope : String) (m dropped m' : PortManager)
      (r : Result Error ℕ)
      → dropped.allocations ≡ m.allocations
      → m.fresh ≤ dropped.fresh
      → ReserveEffect probe owner scope dropped m' r
      → ReserveEffect probe owner scope m m' r
  weaken probe owner scope m dropped m' (err e) same later effect = effect ∙ same
  weaken probe owner scope m dropped m' (ok a) same later effect = (
    effect.0,
    omega arith,
    effect.2 ∙ ap (insert a effect.0) same,
    effect.3,
    effect.4,
    effect.5,
    effect.6,
  )

  reserve_loop-effect :
      (n : ℕ) (probe : ℕ → String → Probe) (owner scope address : String) (m : PortManager)
      → IsValid net m
      → (let r = reserve_loop net n probe owner scope address m in
          ReserveEffect probe owner scope m r.0 r.1)
  unfolding reserve_loop
  reserve_loop-effect zero probe owner scope address m valid = refl
  reserve_loop-effect (suc n) probe owner scope address m valid =
      let step = reserve net m owner scope address in
      let valid' = reserve-IsValid net m owner scope address valid in
      elim (Result-cases step.1) [
        | inl (a, done) ↦
            let (request, parsed, taken) =
              reserve-ok net m owner scope address a valid.cursor done in
            let x = taken.0 in
            let dropped = drop-IsValid net step.0 a valid' in
            let unused = fresh_unused m valid in
            let found : lookup a step.0.allocations ≡ some x =
              rw (taken.11, taken.10)
                (ground (
                  arith,
                  lookup-insert m.fresh m.fresh x m.allocations,
                  nat_beq_iff m.fresh m.fresh,
                )) in
            let located : address_at step.0 a ≡ x.address = address_found step.0 a x found in
            let restored : (drop step.0 a).allocations ≡ m.allocations =
              dropped_new step.0 m a x (taken.11) (taken.10) unused in
            let later : m.fresh ≤ (drop step.0 a).fresh =
              drop_later step.0 a m.fresh (ground arith) in
            elim (Bool-cases (not (scope == "") || is_usable (probe n (address_at step.0 a)))) [
              | inl accepted ↦
                  rw (done, accepted, reserve_loop)
                    (
                      x,
                      ground arith,
                      rw (taken.10) (taken.11),
                      taken.1,
                      taken.2,
                      taken.5,
                      (λ carrier.
                          (n, rw (sym located) (ground (arith, string_eq.same_iff scope "")))),
                    )
              | inr refused ↦ elim (Bool-cases (is_in_use (probe n (address_at step.0 a)))) [
                | inl busy ↦
                    let rest =
                      reserve_loop-effect n probe owner scope address (drop step.0 a) dropped in
                    let r = reserve_loop net n probe owner scope address (drop step.0 a) in
                    rw (done, refused, busy, reserve_loop)
                      (weaken probe owner scope m (drop step.0 a) r.0 r.1 restored later rest)
                | inr broken ↦ rw (done, refused, broken, reserve_loop) restored
              ]
            ]
        | inr (e, failed) ↦
            rw (failed, reserve_loop)
              (reserve-err net m owner scope address e valid.cursor failed).0
      ]

  -- Reserve on a well-formed manager: a failure leaves the allocations as they were; a success adds
  -- one allocation at a new address, with the owner and the scope of the request and not yet
  -- listening, and in the carrier's own scope its address passed a trial listener.
  pub reserve_port-effect :
      (probe : ℕ → String → Probe) (m : PortManager) (owner scope address : String)
      → IsValid net m
      → (let r = reserve_port net probe m owner scope address in
          ReserveEffect probe owner scope m r.0 r.1)
  unfolding reserve_port
  reserve_port-effect probe m owner scope address valid =
      reserve_loop-effect (attempts net m address) probe owner scope address m valid

  IsShut : PortManager → Type 0
  IsShut m = (m.closed ≡ true) × (m.allocations ≡ [])

  reserve_shut :
      (m : PortManager) (owner scope address : String)
      → m.closed ≡ true
      → reserve net m owner scope address ≡ (m, err closed)
  unfolding reserve parse_request
  reserve_shut m owner scope address shut = rw shut
