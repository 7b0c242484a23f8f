-- ===== src/Manager/Accounting.antt =====
-- The critical sections of internal/bed/manager against the counters of the manager.
use hostel.Base.{
  ℕ, ◌+◌, String, ◌≡◌, refl, true, false, Option, none, some, ◌∷◌, arith, Bool-cases, inl, inr,
  if◌then◌else◌,
}
use hostel.Base.Result.{ok}
use hostel.Manager.State.{
  Manager, ManagedBed, OperationKind, set_bed, is_current, pinned, adjust_pinned, keepalive, touch,
}
use hostel.Manager.Operation.{
  touch_bed, begin_operation, begun, finish_operation, ended, open_session, close_session,
  clamp_timeout,
}
use hostel.Manager.Retention.{Timestamp, renew_expiration, renewal_base}
use hostel.Manager.Persist.{prepare_snapshot, commit_watermark}
use hostel.Manager.Counts.{
  IsCounted, update_self, set_bed-IsCounted, set_bed-IsCounted_stale, adjust_pinned-IsCounted,
}

-- What a write does not touch.
pub keepalive-name : (b : ManagedBed) (t : ℕ) → (keepalive b t).name ≡ b.name
unfolding keepalive
keepalive-name b t = ground arith

pub keepalive-pinned : (b : ManagedBed) (t : ℕ) → pinned (keepalive b t) ≡ pinned b
unfolding keepalive pinned
keepalive-pinned b t = ground arith

touch-name : (b : ManagedBed) (t : ℕ) → (touch b t).name ≡ b.name
unfolding touch keepalive
touch-name b t = ground arith

ended-name : (b : ManagedBed) (k : OperationKind) (t : ℕ) → (ended b k t).name ≡ b.name
unfolding ended keepalive
ended-name b k t = ground arith

pub touch_bed-IsCounted : (m : Manager) (a now : ℕ) → IsCounted m → IsCounted (touch_bed m a now)
unfolding touch_bed
touch_bed-IsCounted m a now v = elim (Bool-cases (is_current m a)) [
  | inl c ↦ rw c (adjust_pinned-IsCounted m a (touch (m.heap a) now) (touch-name _ now) c v)
  | inr c ↦ rw c v
]

set_bed-is_current :
    (m : Manager) (a : ℕ) (b : ManagedBed)
    → b.name ≡ (m.heap a).name
    → is_current (set_bed m a b) a ≡ is_current m a
unfolding is_current set_bed
set_bed-is_current m a b n = ground (arith, update_self m.heap a b)

-- A write to the Bed followed by its adjustment, where the Bed is still current.
adjust_current :
    (m : Manager) (a : ℕ) (b : ManagedBed)
    → b.name ≡ (m.heap a).name
    → IsCounted m
    → IsCounted (
        if is_current (set_bed m a b) a
        then adjust_pinned (set_bed m a b) a (pinned (m.heap a))
        else set_bed m a b)
adjust_current m a b n v = elim (Bool-cases (is_current m a)) [
  | inl c ↦ rw (set_bed-is_current m a b n, c) (adjust_pinned-IsCounted m a b n c v)
  | inr c ↦ rw (set_bed-is_current m a b n, c) (set_bed-IsCounted_stale m a b n c v)
]

pub begun-name : (b : ManagedBed) (k : OperationKind) (t : ℕ) → (begun b k t).name ≡ b.name
unfolding begun
begun-name b k t = refl

-- What an admitted operation has passed, and the manager that it leaves.
pub begin_operation-eq-ok :
    (m : Manager) (a : ℕ) (kind : OperationKind) (timeout now : ℕ) (m' : Manager)
    → begin_operation m a kind timeout now ≡ ok m'
    → let n = adjust_pinned (set_bed m a (begun (m.heap a) kind now)) a (pinned (m.heap a)) in
      (is_current m a ≡ true)
      × (m.closed ≡ false)
      × (m' ≡ set_bed n a (keepalive (n.heap a) (now + clamp_timeout timeout)))
unfolding begin_operation
begin_operation-eq-ok m a kind timeout now m' e = ground arith

pub begin_operation-IsCounted :
    (m : Manager) (a : ℕ) (kind : OperationKind) (timeout now : ℕ) (m' : Manager)
    → begin_operation m a kind timeout now ≡ ok m'
    → IsCounted m
    → IsCounted m'
begin_operation-IsCounted m a kind timeout now m' e v =
    let (c, _, after) = begin_operation-eq-ok m a kind timeout now m' e in
    let n = adjust_pinned (set_bed m a (begun (m.heap a) kind now)) a (pinned (m.heap a)) in
    rw after (
      set_bed-IsCounted n a (keepalive (n.heap a) (now + clamp_timeout timeout))
        (keepalive-name _ _) (keepalive-pinned _ _)
        (adjust_pinned-IsCounted m a (begun (m.heap a) kind now) (begun-name _ kind now) c v))

pub finish_operation-IsCounted :
    (m : Manager) (a : ℕ) (kind : OperationKind) (now : ℕ)
    → IsCounted m
    → IsCounted (finish_operation m a kind now)
unfolding finish_operation
finish_operation-IsCounted m a kind now v =
    adjust_current m a (ended (m.heap a) kind now) (ended-name _ kind now) v

abbrev pub opened : ManagedBed → String → ℕ → ManagedBed
opened b id now = let b' = touch b now in record b' { sessions = id ∷ b'.sessions }

pub open_session-eq-ok :
    (m : Manager) (a : ℕ) (id : String) (now : ℕ) (m' : Manager)
    → open_session m a id now ≡ ok m'
    → (is_current m a ≡ true)
      × (m' ≡ adjust_pinned (set_bed m a (opened (m.heap a) id now)) a (pinned (m.heap a)))
unfolding open_session
open_session-eq-ok m a id now m' e = ground arith

pub open_session-IsCounted :
    (m : Manager) (a : ℕ) (id : String) (now : ℕ) (m' : Manager)
    → open_session m a id now ≡ ok m'
    → IsCounted m
    → IsCounted m'
open_session-IsCounted m a id now m' e v =
    let (c, after) = open_session-eq-ok m a id now m' e in
    rw after (adjust_pinned-IsCounted m a (opened (m.heap a) id now) (touch-name _ now) c v)

pub close_session-IsCounted :
    (m : Manager) (a : ℕ) (id : String) → IsCounted m → IsCounted (close_session m a id)
unfolding close_session
close_session-IsCounted m a id v = set_bed-IsCounted m a _ refl (unfold pinned in refl) v

pub renew_expiration-eq-ok :
    (m : Manager) (a : ℕ) (expires_at : Option Timestamp) (now : ℕ) (r : Manager × ℕ)
    → renew_expiration m a expires_at now ≡ ok r
    → (is_current m a ≡ true)
      × (r.0 ≡ set_bed m a (keepalive (m.heap a) (renewal_base expires_at (m.heap a).idle_ttl now)))
unfolding renew_expiration
renew_expiration-eq-ok m a none now r e = ground arith
renew_expiration-eq-ok m a (some t) now r e = ground arith

pub renew_expiration-IsCounted :
    (m : Manager) (a : ℕ) (expires_at : Option Timestamp) (now : ℕ) (r : Manager × ℕ)
    → renew_expiration m a expires_at now ≡ ok r
    → IsCounted m
    → IsCounted r.0
renew_expiration-IsCounted m a expires_at now r e v =
    rw ((renew_expiration-eq-ok m a expires_at now r e).1)
      (set_bed-IsCounted m a _ (keepalive-name _ _) (keepalive-pinned _ _) v)

pub commit_watermark-IsCounted :
    (m : Manager) (a watermark : ℕ) → IsCounted m → IsCounted (commit_watermark m a watermark)
unfolding commit_watermark
commit_watermark-IsCounted m a watermark v =
    adjust_current m a (record (m.heap a) { persisted_at = watermark }) refl v

pub prepare_snapshot-IsCounted :
    (m : Manager) (a generation : ℕ) (r : Manager × ℕ)
    → prepare_snapshot m a generation ≡ r
    → IsCounted m
    → IsCounted r.0
unfolding prepare_snapshot
prepare_snapshot-IsCounted m a generation r e v = rw (← e) (
    set_bed-IsCounted m a (record (m.heap a) { generation = generation }) refl
      (unfold pinned in refl) v)
