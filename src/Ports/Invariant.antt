-- ===== src/Ports/Invariant.antt =====
-- Well-formed port managers (internal/host/network/ports.go), and reserve on them.
use hostel.Base.{
  ℕ, suc, ◌+◌, ◌-◌, ◌≤◌, ◌<◌, ◌≡◌, refl, ap, subst, String, false, inl, inr, Bool-cases,
  if◌then◌else◌, ◌==◌, nat_eq, string_eq, nat_beq_iff, any, arith,
}
use hostel.Base.GoMap.{insert, lookup-insert, lookup-delete}
use hostel.Base.Result.{ok, err, Result-cases}
use hostel.Ports.State.{PortManager, PortAllocation, Error, Net}
use hostel.Ports.Reserve.{conflicts, reserve, parse_request, try_ports}
use hostel.Ports.Operation.{drop}
use hostel.Ports.Candidates.{HasCursor, IsUntouched, IsReserved, Outcome, try_ports-Outcome}
use hostel.Ports.Exclusive.{IsApart, InRange, insert-IsApart, delete-IsApart}

module _ (net : Net) where
  pub record IsValid (m : PortManager) : Type 0 where
    pub low : 0 < m.first
    pub high : m.last ≤ 65535
    pub cursor : HasCursor m
    pub live : InRange net m.fresh m.allocations
    pub apart : IsApart net m.allocations

  pub parse_request-port :
      (m : PortManager) (owner address host : String) (port : ℕ)
      → parse_request net m owner address ≡ ok (host, port)
      → port ≤ 65535
  unfolding parse_request
  parse_request-port m owner address host port h = ground arith

  unfoldable pub count_of : PortManager → ℕ → ℕ
  count_of m port = if port == 0 then m.last - m.first + 1 else 1

  pub reserve_parsed :
      (m : PortManager) (owner scope address : String) (request : String × ℕ)
      → parse_request net m owner address ≡ ok request
      → reserve net m owner scope address
        ≡ try_ports net (count_of m request.1) owner scope request.0 request.1 m
  unfolding reserve count_of
  reserve_parsed m owner scope address request parsed = rw (parsed, reserve)

  reserve_unparsed :
      (m : PortManager) (owner scope address : String) (e : Error)
      → parse_request net m owner address ≡ err e
      → reserve net m owner scope address ≡ (m, err e)
  unfolding reserve
  reserve_unparsed m owner scope address e parsed = rw (parsed, reserve)

  -- Where the checks pass, the loop decides.
  pub reserve-Outcome :
      (m : PortManager) (owner scope address : String) (request : String × ℕ)
      → HasCursor m
      → parse_request net m owner address ≡ ok request
      → (let r = reserve net m owner scope address in
          Outcome net owner scope request.0 request.1 m r.0 r.1)
  reserve-Outcome m owner scope address request h parsed =
      rw (reserve_parsed m owner scope address request parsed)
        (try_ports-Outcome net owner scope request.0 request.1 (count_of m request.1) m h)

  pub reserve-ok :
      (m : PortManager) (owner scope address : String) (a : ℕ)
      → HasCursor m
      → (reserve net m owner scope address).1 ≡ ok a
      → (request : String × ℕ) × (parse_request net m owner address ≡ ok request)
        × IsReserved net owner scope request.0 request.1 m (reserve net m owner scope address).0 a
  reserve-ok m owner scope address a h done =
      elim (Result-cases (parse_request net m owner address)) [
        | inl (request, parsed) ↦ (
          request,
          parsed,
          subst
              (Outcome net owner scope request.0 request.1 m (reserve net m owner scope address).0)
              done (reserve-Outcome m owner scope address request h parsed),
        )
        | inr (e, parsed) ↦
            let failed = reserve_unparsed m owner scope address e parsed in
            absurd (cc (ap (λ r. r.1) failed, done))
      ]

  pub reserve-err :
      (m : PortManager) (owner scope address : String) (e : Error)
      → HasCursor m
      → (reserve net m owner scope address).1 ≡ err e
      → IsUntouched m (reserve net m owner scope address).0
  reserve-err m owner scope address e h done =
      elim (Result-cases (parse_request net m owner address)) [
        | inl (request, parsed) ↦
            (subst
              (Outcome net owner scope request.0 request.1 m (reserve net m owner scope address).0)
              done (reserve-Outcome m owner scope address request h parsed)).1
        | inr (f, parsed) ↦
            rw (reserve_unparsed m owner scope address f parsed) (refl, refl, refl, refl, refl, h)
      ]

  insert-InRange :
      (m : PortManager) (x : PortAllocation)
      → 0 < x.port
      → x.port ≤ 65535
      → InRange net m.fresh m.allocations
      → InRange net (suc m.fresh) (insert m.fresh x m.allocations)
  insert-InRange m x low high live a y found =
      let found' = lookup-insert m.fresh a x m.allocations in
      elim (Bool-cases (m.fresh == a)) [
        | inl same ↦
            let equal : x ≡ y = ground arith in
            (
              ground (arith, nat_beq_iff m.fresh a),
              subst (λ w. 0 < w.port) equal low,
              subst (λ w. w.port ≤ 65535) equal high,
            )
        | inr other ↦ ground (arith, live a y)
      ]

  IsReserved-IsValid :
      {m m' : PortManager} {owner scope host : String} {port a : ℕ}
      → port ≤ 65535
      → IsReserved net owner scope host port m m' a
      → IsValid m
      → IsValid m'
  IsReserved-IsValid {m} {m'} {owner} {scope} {host} {port} bound reserved valid =
      let x = reserved.0 in
      let in_range : (0 < x.port) × (x.port ≤ 65535) = ground arith in
      let free : any (conflicts net x.scope x.host x.port) m.allocations ≡ false =
        rw (reserved.2, reserved.3) (reserved.9) in
      record {
        low = ground arith;
        high = ground arith;
        cursor = reserved.16;
        live = rw (reserved.11, reserved.12) (insert-InRange m x in_range.0 in_range.1 valid.live);
        apart = rw (reserved.11) (insert-IsApart net m.allocations m.fresh x free valid.apart);
      }

  IsUntouched-IsValid : {m m' : PortManager} → IsUntouched m m' → IsValid m → IsValid m'
  IsUntouched-IsValid same valid = record {
    low = ground arith;
    high = ground arith;
    cursor = same.5;
    live = rw (same.0, same.1) valid.live;
    apart = rw (same.0) valid.apart;
  }

  pub reserve-IsValid :
      (m : PortManager) (owner scope address : String)
      → IsValid m
      → IsValid (reserve net m owner scope address).0
  reserve-IsValid m owner scope address valid =
      elim (Result-cases (reserve net m owner scope address).1) [
        | inl (a, done) ↦
            let (request, parsed, reserved) =
              reserve-ok m owner scope address a valid.cursor done in
            IsReserved-IsValid (parse_request-port m owner address request.0 request.1 parsed)
              reserved valid
        | inr (e, failed) ↦
            IsUntouched-IsValid (reserve-err m owner scope address e valid.cursor failed) valid
      ]

  pub drop-IsValid : (m : PortManager) (a : ℕ) → IsValid m → IsValid (drop m a)
  unfolding drop
  drop-IsValid m a valid = record {
    low = valid.low;
    high = valid.high;
    cursor = valid.cursor;
    live = λ b y found. valid.live b y (ground (arith, lookup-delete a b m.allocations));
    apart = delete-IsApart net m.allocations a valid.apart;
  }
