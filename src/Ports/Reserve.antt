-- ===== src/Ports/Reserve.antt =====
-- PortManager.reserve and overlappingHosts (internal/host/network/ports.go).
use hostel.Base.{
  ℕ, zero, suc, ◌+◌, ◌-◌, String, Bool, true, false, not, ◌&&◌, ◌||◌, Option, none, some,
  if◌then◌else◌, ltb, ◌==◌, nat_eq, string_eq, is_negative, magnitude, any,
}
use hostel.Base.GoMap.{insert}
use hostel.Base.Result.{Result, ok, err, ◌>>=◌, ◌>>◌, return_if}
use hostel.Ports.State.{
  PortManager, PortAllocation, reserved, Error, closed, bad_address, not_literal, invalid_request,
  ports_exhausted, Net,
}

-- A Go result `(value, err)` whose error is not read further.
abbrev pub or_error {ℓ} : {A : Type ℓ} → Option A → Error → Result Error A
or_error none e = err e
or_error (some a) e = ok a

module _ (net : Net) where
  -- The first result of netip.ParseAddr, unmapped; the zero value where it fails.
  abbrev pub address_of : String → net.Addr
  address_of host = net.unmap (elim (net.parse_addr host) [ none ↦ net.zero_addr | some x ↦ x ])

  unfoldable pub overlapping_hosts : String → String → Bool
  overlapping_hosts a b =
      let x = address_of a in
      let y = address_of b in
      (a == "" || b == "" || a == "::" || b == "::")
      || (net.addr_eq.same x y
          || ((net.is_4 x && net.is_4 y || not (net.is_4 x) && not (net.is_4 y))
              && (net.is_unspecified x || net.is_unspecified y)))

  abbrev pub conflicts : String → String → ℕ → ℕ × PortAllocation → Bool
  conflicts scope host candidate (a, x) =
      x.scope == scope && (x.port == candidate && overlapping_hosts x.host host)

  abbrev pub requested : String → String → String → ℕ → PortAllocation
  requested owner scope host candidate = record {
    owner = owner;
    scope = scope;
    address = net.join_host_port host candidate;
    state = reserved;
    host = host;
    port = candidate;
    listener = none;
  }

  -- The loop of reserve over `n` candidates; `port` 0 takes the candidates from the pool.
  unfoldable pub try_ports :
      ℕ → String → String → String → ℕ → PortManager → PortManager × Result Error ℕ
  try_ports zero owner scope host port m = (m, err ports_exhausted)
  try_ports (suc n) owner scope host port m =
      let candidate = if port == 0 then m.next else port in
      let after : ℕ = if ltb m.last (m.next + 1) then m.first else m.next + 1 in
      let m' = if port == 0 then record m { next = after } else m in
      let rest = try_ports n owner scope host port m' in
      if any (conflicts scope host candidate) m'.allocations then rest else (
        record m' {
          allocations = insert m.fresh (requested owner scope host candidate) m'.allocations;
          fresh = suc m.fresh;
        },
        ok m.fresh,
      )

  -- The checks before the loop: the host and the port of a request.
  unfoldable pub parse_request : PortManager → String → String → Result Error (String × ℕ)
  parse_request m owner address = do
    return_if m.closed closed
    parts ← or_error (net.split_host_port address) bad_address
    return_if
        (not (parts.0 == "") && (elim (net.parse_addr parts.0) [ none ↦ true | some x ↦ false ]))
        not_literal
    port ← or_error (net.atoi parts.1) invalid_request
    return_if (is_negative port || ltb 65535 (magnitude port) || owner == "") invalid_request
    ok (parts.0, magnitude port)

  unfoldable pub reserve : PortManager → String → String → String → PortManager × Result Error ℕ
  reserve m owner scope address = elim (parse_request m owner address) [
    | err e ↦ (m, err e)
    | ok request ↦
        let count = if request.1 == 0 then m.last - m.first + 1 else 1 in
        try_ports count owner scope request.0 request.1 m
  ]
