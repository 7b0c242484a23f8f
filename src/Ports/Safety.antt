-- ===== src/Ports/Safety.antt =====
-- Runs of the port manager: any sequence of operations of any callers, each under `m.mu`.
use hostel.Base.{
  [], ℕ, zero, suc, ◌≤◌, ◌<◌, ◌≡◌, refl, sym, ap, ◌∙◌, subst, String, Bool, true, not, ◌||◌, inl,
  inr, Option, none, some, Bool-cases, Option-cases, ◌==◌, nat_eq, string_eq, nat_beq_iff, arith,
}
use hostel.Base.GoMap.{lookup, insert, lookup-insert}
use hostel.Base.Result.{Result-cases}
use hostel.Ports.State.{PortManager, PortAllocation, listening, reserved, Net}
use hostel.Ports.Reserve.{reserve}
use hostel.Ports.Operation.{
  Probe, is_usable, is_in_use, address_at, drop, reserve_loop, reserve_port, attempts, opened,
  listen_loop, listen, confirm, unconfirm, release, close,
}
use hostel.Ports.Invariant.{IsValid, reserve-IsValid, drop-IsValid}

pub lookup_empty : (a : ℕ) → lookup {V = PortAllocation} a [] ≡ none
unfolding lookup
lookup_empty a = refl

module _ (net : Net) where
  replaced :
      (m : PortManager) (a : ℕ) (x x' : PortAllocation)
      → lookup a m.allocations ≡ some x
      → x'.scope ≡ x.scope
      → x'.host ≡ x.host
      → x'.port ≡ x.port
      → (b : ℕ) (y : PortAllocation) → lookup b (insert a x' m.allocations) ≡ some y
      → (z : PortAllocation) × (lookup b m.allocations ≡ some z)
        × (z.scope ≡ y.scope)
        × (z.host ≡ y.host)
        × (z.port ≡ y.port)
  replaced m a x x' known scope host port b y found =
      let found' = lookup-insert a b x' m.allocations in
      elim (Bool-cases (a == b)) [
        | inl same ↦
            let equal : x' ≡ y = ground arith in
            (
              x,
              ground (arith, nat_beq_iff a b),
              sym scope ∙ ap (λ w. w.scope) equal,
              sym host ∙ ap (λ w. w.host) equal,
              sym port ∙ ap (λ w. w.port) equal,
            )
        | inr other ↦ (y, ground arith, refl, refl, refl)
      ]

  -- A write to a live object that keeps its scope, host and port.
  replace-IsValid :
      (m : PortManager) (a : ℕ) (x x' : PortAllocation)
      → lookup a m.allocations ≡ some x
      → x'.scope ≡ x.scope
      → x'.host ≡ x.host
      → x'.port ≡ x.port
      → IsValid net m
      → IsValid net (record m { allocations = insert a x' m.allocations })
  replace-IsValid m a x x' known scope host port valid = record {
    low = valid.low;
    high = valid.high;
    cursor = valid.cursor;
    live = λ b y found.
        let (z, old, s, h, p) = replaced m a x x' known scope host port b y found in
        subst (λ q. (b < m.fresh) × (0 < q) × (q ≤ 65535)) p (valid.live b z old);
    apart = λ b c y y' left right distinct.
        let (z, old, s, h, p) = replaced m a x x' known scope host port b y left in
        let (z', old', s', h', p') = replaced m a x x' known scope host port c y' right in
        rw (sym s, sym h, sym p, sym s', sym h', sym p') (valid.apart b c z z' old old' distinct);
  }

  reserve_loop-IsValid :
      (n : ℕ) (probe : ℕ → String → Probe) (owner scope address : String) (m : PortManager)
      → IsValid net m
      → IsValid net (reserve_loop net n probe owner scope address m).0
  unfolding reserve_loop
  reserve_loop-IsValid zero probe owner scope address m valid = valid
  reserve_loop-IsValid (suc n) probe owner scope address m valid =
      let step = reserve net m owner scope address in
      let valid' = reserve-IsValid net m owner scope address valid in
      elim (Result-cases step.1) [
        | inl (a, done) ↦
            let dropped = drop-IsValid net step.0 a valid' in
            let answer = probe n (address_at step.0 a) in
            elim (Bool-cases (not (scope == "") || is_usable answer)) [
              | inl accepted ↦ rw (done, accepted, reserve_loop) valid'
              | inr refused ↦ elim (Bool-cases (is_in_use answer)) [
                | inl busy ↦
                    rw (done, refused, busy, reserve_loop)
                      (reserve_loop-IsValid n probe owner scope address (drop step.0 a) dropped)
                | inr broken ↦ rw (done, refused, broken, reserve_loop) dropped
              ]
            ]
        | inr (e, failed) ↦ rw (failed, reserve_loop) valid'
      ]

  opened-IsValid :
      (m : PortManager) (a listener : ℕ) → IsValid net m → IsValid net (opened net m a listener)
  unfolding opened
  opened-IsValid m a listener valid = elim (Option-cases (lookup a m.allocations)) [
    | inl absent ↦ rw (absent, opened) valid
    | inr (x, known) ↦
        rw (known, opened)
          (replace-IsValid m a x (record x { listener = some listener; state = listening }) known
            refl refl refl valid)
  ]

  listen_loop-IsValid :
      (n : ℕ) (any_port : Bool) (bind : ℕ → String → Option ℕ) (owner address : String)
      (m : PortManager)
      → IsValid net m
      → IsValid net (listen_loop net n any_port bind owner address m).0
  unfolding listen_loop
  listen_loop-IsValid zero any_port bind owner address m valid = valid
  listen_loop-IsValid (suc n) any_port bind owner address m valid =
      let step = reserve net m owner "" address in
      let valid' = reserve-IsValid net m owner "" address valid in
      elim (Result-cases step.1) [
        | inl (a, done) ↦
            let dropped = drop-IsValid net step.0 a valid' in
            elim (Option-cases (bind n (address_at step.0 a))) [
              | inl refused ↦ elim (Bool-cases any_port) [
                | inl more ↦
                    rw (done, refused, more, listen_loop)
                      (listen_loop-IsValid n true bind owner address (drop step.0 a) dropped)
                | inr fixed ↦ rw (done, refused, fixed, listen_loop) dropped
              ]
              | inr (l, bound) ↦ rw (done, bound, listen_loop) (opened-IsValid step.0 a l valid')
            ]
        | inr (e, failed) ↦ rw (failed, listen_loop) valid'
      ]

  -- One operation of some caller.
  pub data Step (m : PortManager) : PortManager → Type 0 where
    reserves :
        (probe : ℕ → String → Probe) (owner scope address : String)
        → Step m (reserve_port net probe m owner scope address).0
    listens :
        (bind : ℕ → String → Option ℕ) (owner : String) (resolved : Option String)
        → Step m (listen net bind m owner resolved).0
    confirms : (a : ℕ) → Step m (confirm m a).0
    unconfirms : (a : ℕ) → Step m (unconfirm m a)
    releases : (shut : ℕ → Bool) (a : ℕ) → Step m (release shut m a).0
    closes : Step m (close m)

  pub data Run (m : PortManager) : PortManager → Type 0 where
    here : Run m m
    next : {m' m'' : PortManager} → Run m m' → Step m' m'' → Run m m''

  Step-IsValid : {m m' : PortManager} → Step m m' → IsValid net m → IsValid net m'
  unfolding reserve_port listen confirm unconfirm release close
  Step-IsValid {m} (reserves probe owner scope address) valid =
      reserve_loop-IsValid (attempts net m address) probe owner scope address m valid
  Step-IsValid {m} (listens bind owner none) valid = valid
  Step-IsValid {m} (listens bind owner (some address)) valid =
      elim (Option-cases (net.split_host_port address)) [
        | inl bad ↦ rw (bad, listen) valid
        | inr (parts, good) ↦
            rw (good, listen)
              (listen_loop-IsValid (attempts net m address) (parts.1 == "0") bind owner address m
                valid)
      ]
  Step-IsValid {m} (confirms a) valid = elim (Option-cases (lookup a m.allocations)) [
    | inl absent ↦ rw (absent, confirm) valid
    | inr (x, known) ↦
        rw (known, confirm)
          (replace-IsValid m a x (record x { state = listening }) known refl refl refl valid)
  ]
  Step-IsValid {m} (unconfirms a) valid = elim (Option-cases (lookup a m.allocations)) [
    | inl absent ↦ rw (absent, unconfirm) valid
    | inr (x, known) ↦ elim (Option-cases x.listener) [
      | inl unbound ↦
          rw (known, unbound, unconfirm)
            (replace-IsValid m a x (record x { state = reserved }) known refl refl refl valid)
      | inr (l, bound) ↦ rw (known, bound, unconfirm) valid
    ]
  ]
  Step-IsValid {m} (releases shut a) valid = elim (Option-cases (lookup a m.allocations)) [
    | inl absent ↦ rw (absent, release) valid
    | inr (x, known) ↦ elim (Option-cases x.listener) [
      | inl unbound ↦ rw (known, unbound, release) (drop-IsValid net m a valid)
      | inr (l, bound) ↦ elim (Bool-cases (shut l)) [
        | inl done ↦ rw (known, bound, done, release) (drop-IsValid net m a valid)
        | inr failed ↦ rw (known, bound, failed, release) valid
      ]
    ]
  ]
  Step-IsValid {m} closes valid = record {
    low = valid.low;
    high = valid.high;
    cursor = valid.cursor;
    live = λ a x found. absurd (cc (lookup_empty a, found));
    apart = λ a b x y left right distinct. absurd (cc (lookup_empty a, left));
  }

  pub Run-IsValid : {m m' : PortManager} → Run m m' → IsValid net m → IsValid net m'
  Run-IsValid here valid = valid
  Run-IsValid (next run step) valid = Step-IsValid step (Run-IsValid run valid)
