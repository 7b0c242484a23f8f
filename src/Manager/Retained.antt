-- ===== src/Manager/Retained.antt =====
-- The retention deadline (internal/bed/manager/renew.go, CollectExpired) and the bed-count pressure
-- signal of manager.go.
use hostel.Base.{
  ℕ, ◌+◌, ◌*◌, ◌≤◌, ◌<◌, ◌≡◌, ◌↔◌, ◌⊎◌, refl, String, Bool, true, false, ◌&&◌, Option, none, some,
  List, [], ◌∷◌, arith, ◌==◌, nat_eq, string_eq, any, ltb, leb, inl, inr, subst, Option-cases,
  eq_iff,
}
use hostel.Base.GoMap.{GoMap, lookup, IsMap}
use hostel.Base.Result.{ok}
use hostel.Manager.State.{Manager, ManagedBed, keepalive, retained_until, retention_deadline}
use hostel.Manager.Retention.{Timestamp, renew_expiration, is_expired, stale, stale_among}
use hostel.Manager.Pressure.{bed_pressure_threshold, bed_pressure_for_counts}

-- A renewal that succeeds reports a deadline that is not before the previous one and, where the Bed
-- has an idle TTL: without a timestamp, not before one TTL from now, where now is not the zero time;
-- with one that is later than the TTL after the zero time, not before it. Where
-- the Bed has no TTL the answer is the zero time, whatever timestamp was asked for.
pub renew_expiration-extends :
    (m : Manager) (a : ℕ) (expires_at : Option Timestamp) (now : ℕ) (m' : Manager) (deadline : ℕ)
    → renew_expiration m a expires_at now ≡ ok (m', deadline)
    → let b = m.heap a in
      (retained_until b ≤ deadline)
      × (0 < b.idle_ttl → 0 < now → expires_at ≡ none → now + b.idle_ttl ≤ deadline)
      × ((t : Timestamp)
          → 0 < b.idle_ttl
          → b.idle_ttl < t.instant
          → expires_at ≡ some t
          → t.instant ≤ deadline)
      × (b.idle_ttl ≡ 0 → deadline ≡ 0)
unfolding renew_expiration retained_until retention_deadline keepalive
renew_expiration-extends m a none now m' deadline e =
    (ground arith, λ p q s. ground arith, λ t p q s. cc, λ z. ground arith)
renew_expiration-extends m a (some x) now m' deadline e =
    (ground arith, λ p q s. cc, λ t p q s. ground arith, λ z. ground arith)

reached_iff :
    (limit percent count : ℕ)
    → (ltb 0 (bed_pressure_threshold limit percent)
          && leb (bed_pressure_threshold limit percent) count
        ≡ true)
      ↔ ((0 < percent) × (0 < limit) × (limit * percent ≤ count * 100))
unfolding bed_pressure_threshold
reached_iff limit percent count =
    let positive : 0 < limit → 0 < percent → 0 < limit * percent = λ p q. grind arith in
    (λ h. ground (arith, h), λ h. ground (arith, h, positive h.1 h.0))

-- The count at which a dimension of `limit` Beds is under pressure is its percentage, rounded up;
-- the signal is up exactly if pressure is configured and either the pinned Beds reach that share of
-- the pinned reference or the occupied Beds reach that share of the cap, a limit of 0 being none.
pub bed_pressure_watermark :
    (percent max_pinned max_beds occupied pinned : ℕ)
    → (bed_pressure_for_counts percent max_pinned max_beds occupied pinned ≡ true) ↔ (
        (0 < percent)
        × (((0 < max_pinned) × (max_pinned * percent ≤ pinned * 100))
            ⊎ ((0 < max_beds) × (max_beds * percent ≤ occupied * 100))))
unfolding bed_pressure_for_counts
bed_pressure_watermark percent max_pinned max_beds occupied pinned =
    let p = reached_iff max_pinned percent pinned in
    let o = reached_iff max_beds percent occupied in
    (λ h. ground (arith, p.0, o.0, h), λ h. ground (arith, p.1, o.1, h))

listed : String → List String → Bool
listed id = any (λ k. k == id)

stale_among-listed :
    (heap : ℕ → ManagedBed) (now : ℕ) (id : String) (beds : GoMap String ℕ)
    → IsMap beds
    → listed id (stale_among heap beds now)
      ≡ elim (lookup id beds) [ none ↦ false | some a ↦ is_expired (heap a) now ]
unfolding stale_among listed lookup
stale_among-listed heap now id [] u = refl
stale_among-listed heap now id ((k, a) ∷ beds) u =
    ground (arith, stale_among-listed heap now id beds u.1, u.0, eq_iff k id)

is_expired_iff :
    (b : ManagedBed) (now : ℕ)
    → (is_expired b now ≡ true) ↔ (
        (0 < b.idle_ttl)
        × (0 < b.lifecycle.keepalive_at)
        × (b.lifecycle.keepalive_at + b.idle_ttl ≤ now))
unfolding is_expired retained_until retention_deadline
is_expired_iff b now = (λ h. ground arith, λ h. ground arith)

-- Where every name stands in the map once, idle collection goes on to evict exactly the names of the
-- Beds that have an idle TTL and a retention clock and whose clock and TTL together are not after the
-- time of the scan: a Bed without a TTL is never collected.
pub stale-exact :
    (m : Manager) (now : ℕ) (id : String)
    → IsMap m.beds
    → (any (λ k. k == id) (stale m now) ≡ true) ↔ (
        (a : ℕ) × (lookup id m.beds ≡ some a)
        × (0 < (m.heap a).idle_ttl)
        × (0 < (m.heap a).lifecycle.keepalive_at)
        × ((m.heap a).lifecycle.keepalive_at + (m.heap a).idle_ttl ≤ now))
unfolding stale listed
stale-exact m now id u =
    let exact = stale_among-listed m.heap now id m.beds u in
    elim (Option-cases (lookup id m.beds)) [
      | inl absent ↦ (
        (λ h. absurd (ground (arith, exact, absent, h))),
        (λ h. let (c, there, ttl, clock, late) = h in absurd (cc (there, absent))),
      )
      | inr (a, known) ↦ (
        (λ h.
            let (ttl, clock, late) =
              (is_expired_iff (m.heap a) now).0 (ground (arith, exact, known, h)) in
            (a, known, ttl, clock, late)),
        (λ h.
            let (c, there, ttl, clock, late) = h in
            let same : c ≡ a = ground (arith, known, there) in
            let due_then = (is_expired_iff (m.heap c) now).1 (ttl, clock, late) in
            let expired = subst (λ x. is_expired (m.heap x) now ≡ true) same due_then in
            ground (arith, exact, known, expired)),
      )
    ]
