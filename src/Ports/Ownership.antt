-- ===== src/Ports/Ownership.antt =====
-- What the callers of internal/host/network/ports.go rely on.
use hostel.Base.{
  ℕ, ◌+◌, ◌-◌, ◌≤◌, ◌<◌, ◌≡◌, ◌≢◌, ◌↔◌, refl, sym, ap, ◌∙◌, subst, String, true, false, false, ◌||◌,
  inl, inr, some, Bool-cases, ltb, nat_eq, string_eq, nat_beq_iff, any, arith,
}
use hostel.Base.GoMap.{lookup}
use hostel.Base.Result.{ok, err, Result-cases}
use hostel.Ports.State.{
  PortManager, PortAllocation, ports_exhausted, Net, new_port_manager, empty_manager,
}
use hostel.Ports.Reserve.{conflicts, reserve, overlapping_hosts, parse_request}
use hostel.Ports.Candidates.{HasCursor, Outcome, try_ports_exhausted, nth_candidate_covers}
use hostel.Ports.Invariant.{IsValid, reserve_parsed, count_of, reserve-Outcome}
use hostel.Ports.Safety.{Run, Run-IsValid, lookup_empty}

module _ (net : Net) where
  pub new_port_manager-IsValid :
      (first last : ℕ) (m : PortManager) → new_port_manager first last ≡ some m → IsValid net m
  unfolding new_port_manager
  new_port_manager-IsValid first last m made =
      elim (Bool-cases (ltb first 1 || ltb 65535 last || ltb last first)) [
        | inl bad ↦ let none_made = rw bad at made in absurd (cc none_made)
        | inr good ↦
            let some_made = rw good at made in
            let same : empty_manager first last ≡ m = ground arith in
            subst (IsValid net) same (record {
              low = ground arith;
              high = ground arith;
              cursor = ground arith;
              live = λ a x found. absurd (cc (lookup_empty a, found));
              apart = λ a b x y left right distinct. absurd (cc (lookup_empty a, left));
            })
      ]

  -- In every state that any sequence of operations reaches from a new manager, two live allocations
  -- of one scope on one port have hosts that do not overlap, and every port is between 1 and 65535.
  pub Run-exclusive :
      (first last : ℕ) (m m' : PortManager) (a b : ℕ) (x y : PortAllocation)
      → new_port_manager first last ≡ some m
      → Run net m m'
      → lookup a m'.allocations ≡ some x
      → lookup b m'.allocations ≡ some y
      → a ≢ b
      → x.scope ≡ y.scope
      → x.port ≡ y.port
      → (overlapping_hosts net x.host y.host ≡ false) × (0 < x.port) × (x.port ≤ 65535)
  Run-exclusive first last m m' a b x y made run left right distinct scope port =
      let valid = Run-IsValid net run (new_port_manager-IsValid first last m made) in
      let apart = valid.apart b a y x right left (λ e. distinct (sym e)) in
      (
        ground (arith, string_eq.same_iff x.scope y.scope, nat_beq_iff x.port y.port),
        (valid.live a x left).1,
        (valid.live a x left).2,
      )

  -- The loop gives up exactly on a full pool.
  reserve_full :
      (m : PortManager) (owner scope address host : String)
      → HasCursor m
      → parse_request net m owner address ≡ ok (host, 0)
      → ((reserve net m owner scope address).1 ≡ err ports_exhausted) ↔ (
          (p : ℕ)
          → m.first ≤ p
          → p ≤ m.last
          → any (conflicts net scope host p) m.allocations ≡ true)
  unfolding count_of
  reserve_full m owner scope address host h parsed =
      let outcome = reserve-Outcome net m owner scope address (host, 0) h parsed in
      (
        (λ failed p low high.
            let (i, below, hit) = nth_candidate_covers m p h low high in
            let loop = reserve_parsed net m owner scope address (host, 0) parsed in
            subst (λ q. any (conflicts net scope host q) m.allocations ≡ true) hit
              (try_ports_exhausted net owner scope host (m.last - m.first + 1) m h (omega arith)
                (sym (ap (λ r. r.1) loop) ∙ failed) i below)),
        (λ full. elim (Result-cases (reserve net m owner scope address).1) [
          | inl (a, done) ↦
              let reserved =
                subst (Outcome net owner scope host 0 m (reserve net m owner scope address).0) done
                  outcome in
              let found = full reserved.0.port (reserved.8 refl).0 (reserved.8 refl).1 in
              absurd (cc (found, reserved.9))
          | inr (e, failed) ↦
              failed
              ∙ ap err
                  (subst (Outcome net owner scope host 0 m (reserve net m owner scope address).0)
                    failed outcome).0
        ]),
      )

  -- On a manager whose round-robin cursor stands in its pool, a valid request for any port of the pool
  -- reports the exhaustion exactly if every port of the pool is taken for its scope and host. Where
  -- one of them is free the request succeeds, so that it fails in no other case and with no other
  -- error.
  pub reserve_exhausted :
      (m : PortManager) (owner scope address host : String)
      → HasCursor m
      → parse_request net m owner address ≡ ok (host, 0)
      → (((reserve net m owner scope address).1 ≡ err ports_exhausted) ↔ (
          (p : ℕ)
          → m.first ≤ p
          → p ≤ m.last
          → any (conflicts net scope host p) m.allocations ≡ true))
        × ((p : ℕ)
            → m.first ≤ p
            → p ≤ m.last
            → any (conflicts net scope host p) m.allocations ≡ false
            → (a : ℕ) × ((reserve net m owner scope address).1 ≡ ok a))
  reserve_exhausted m owner scope address host h parsed =
      let exact = reserve_full m owner scope address host h parsed in
      let outcome = reserve-Outcome net m owner scope address (host, 0) h parsed in
      (
        exact,
        λ p low high free. elim (Result-cases (reserve net m owner scope address).1) [
          | inl reserved ↦ reserved
          | inr (e, failed) ↦
              let cause =
                subst (Outcome net owner scope host 0 m (reserve net m owner scope address).0)
                  failed outcome in
              let taken = exact.0 (failed ∙ ap err cause.0) p low high in absurd (cc (taken, free))
        ],
      )
