-- ===== src/Manager/Retention.antt =====
-- internal/bed/manager/renew.go and the scan of CollectExpired in manager.go.
use hostel.Base.{
  ℕ, ◌-◌, String, Bool, false, not, ◌&&◌, ◌||◌, Option, none, some, List, [], ◌∷◌, if◌then◌else◌,
  ltb, leb, ◌==◌, nat_eq,
}
use hostel.Base.GoMap.{GoMap}
use hostel.Base.Result.{Result, ok, ◌>>◌, return_if}
use hostel.Manager.State.{
  Manager, ManagedBed, Error, bed_unavailable, invalid_expiration, is_resident, set_bed, is_current,
  keepalive, retained_until, after,
}

-- A time.Time with its location: the instant, and what its own calendar and clock show, both in
-- nanoseconds since the zero time.
pub record Timestamp : Type 0 where
  pub instant : ℕ
  pub local : ℕ

-- 10000-01-01T00:00:00 in nanoseconds since the zero time: `Year()`, which reads the time's own
-- calendar, is above 9999 from there on.
abbrev pub year_10000 : ℕ
year_10000 = 315_537_897_600_000_000_000

abbrev pub bad_expiration : Option Timestamp → ℕ → Bool
bad_expiration none now = false
bad_expiration (some t) now = not (after t.instant now) || leb year_10000 t.local

abbrev pub renewal_base : Option Timestamp → ℕ → ℕ → ℕ
renewal_base none ttl now = now
renewal_base (some t) ttl now = if ltb 0 ttl then t.instant - ttl else now

-- RenewExpiration: the manager after it, and the effective deadline.
unfoldable pub renew_expiration : Manager → ℕ → Option Timestamp → ℕ → Result Error (Manager × ℕ)
renew_expiration m a expires_at now =
    let b = m.heap a in
    do
      return_if
          (m.closed || not (is_current m a) || b.purging || not (is_resident b.lifecycle.phase))
          bed_unavailable
      return_if (bad_expiration expires_at now) invalid_expiration
      let b' = keepalive b (renewal_base expires_at b.idle_ttl now)
      ok (set_bed m a b', retained_until b')

-- `!retainUntil.IsZero() && !retainUntil.After(now)`
unfoldable pub is_expired : ManagedBed → ℕ → Bool
is_expired b now = let until = retained_until b in not (until == 0) && not (after until now)

unfoldable pub stale_among : (ℕ → ManagedBed) → GoMap String ℕ → ℕ → List String
stale_among heap [] now = []
stale_among heap ((id, a) ∷ beds) now =
    let rest = stale_among heap beds now in if is_expired (heap a) now then id ∷ rest else rest

-- The names that CollectExpired goes on to evict.
unfoldable pub stale : Manager → ℕ → List String
unfolding stale_among
stale m now = stale_among m.heap m.beds now
