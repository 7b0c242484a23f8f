-- ===== src/Manager/Effects.antt =====
-- What each critical section does to the activity watermarks of the Beds.
use hostel.Base.{
  ℕ, ◌+◌, String, ◌≡◌, refl, Bool, true, false, Option, some, arith, Bool-cases, Option-cases, inl,
  inr, ◌⊎◌, if◌then◌else◌, ◌==◌, nat_eq, string_eq,
}
use hostel.Base.GoMap.{lookup}
use hostel.Base.Result.{ok}
use hostel.Manager.State.{
  Manager, ManagedBed, OperationKind, set_bed, is_current, pinned, adjust_pinned, keepalive, touch,
  set_lifecycle, update, add_one, is_resident,
}
use hostel.Manager.Operation.{
  touch_bed, begin_operation, begun, finish_operation, ended, open_session, close_session,
  clamp_timeout,
}
use hostel.Manager.Retention.{Timestamp, renew_expiration}
use hostel.Manager.Eviction.{
  begin_eviction, commit_eviction, resume_bed, pillows_changed, finish_retirement,
}
use hostel.Manager.Persist.{prepare_snapshot, commit_watermark}
use hostel.Manager.Identity.{publish, claim, claim_purge}
use hostel.Manager.Accounting.{
  begin_operation-eq-ok, open_session-eq-ok, renew_expiration-eq-ok, opened,
}
use hostel.Manager.Membership.{
  commit_eviction-eq-some, begin_eviction-eq-ok, publish-eq-some, published_bed,
}

-- Activity is counted, or nothing that durability rests on has moved.
abbrev pub IsCalm : ManagedBed → ManagedBed → Type 0
IsCalm b b' =
    (b'.activity_seq ≡ b.activity_seq)
    × (b'.last_active_at ≡ b.last_active_at)
    × (b'.persisted_at ≡ b.persisted_at)

abbrev pub Effect : ManagedBed → ManagedBed → Type 0
Effect b b' = (b'.activity_seq ≡ add_one b.activity_seq) ⊎ IsCalm b b'

abbrev pub Effects : Manager → Manager → Type 0
Effects m m' = (x : ℕ) → Effect (m.heap x) (m'.heap x)

pub Effects-refl : (m : Manager) → Effects m m
Effects-refl m x = inr (refl, refl, refl)

set_bed-Effects :
    (m : Manager) (a : ℕ) (b : ManagedBed) → Effect (m.heap a) b → Effects m (set_bed m a b)
unfolding set_bed update
set_bed-Effects m a b e x = elim (Bool-cases (x == a)) [
  | inl at ↦ ground (arith, at, e)
  | inr off ↦ ground (arith, off)
]

pub adjust_pinned-heap : (m : Manager) (a : ℕ) (was : Bool) → (adjust_pinned m a was).heap ≡ m.heap
unfolding adjust_pinned
adjust_pinned-heap m a was = ground arith

touch-Effect : (b : ManagedBed) (now : ℕ) → Effect b (touch b now)
unfolding touch keepalive
touch-Effect b now = ground arith

keepalive-IsCalm : (b : ManagedBed) (t : ℕ) → IsCalm b (keepalive b t)
unfolding keepalive
keepalive-IsCalm b t = ground arith

then_calm : (b c d : ManagedBed) → Effect b c → IsCalm c d → Effect b d
then_calm b c d e f = ground arith

set_bed-IsCalm :
    (m : Manager) (a : ℕ) (b : ManagedBed)
    → IsCalm (m.heap a) b
    → (x : ℕ) → IsCalm (m.heap x) ((set_bed m a b).heap x)
unfolding set_bed update
set_bed-IsCalm m a b e x = elim (Bool-cases (x == a)) [
  | inl at ↦ ground (arith, at, e)
  | inr off ↦ ground (arith, off)
]

ended-Effect : (b : ManagedBed) (k : OperationKind) (now : ℕ) → Effect b (ended b k now)
unfolding ended keepalive
ended-Effect b k now = ground arith

-- A write to a Bed and the adjustment of the pinned counter, done or not.
adjusted-Effects :
    (m : Manager) (a : ℕ) (b : ManagedBed) (was : Bool)
    → Effect (m.heap a) b
    → Effects m (adjust_pinned (set_bed m a b) a was)
adjusted-Effects m a b was e x =
    rw (adjust_pinned-heap (set_bed m a b) a was) (set_bed-Effects m a b e x)

adjusted_if-Effects :
    (m : Manager) (a : ℕ) (b : ManagedBed) (was c : Bool)
    → Effect (m.heap a) b
    → Effects m (if c then adjust_pinned (set_bed m a b) a was else set_bed m a b)
adjusted_if-Effects m a b was true e = adjusted-Effects m a b was e
adjusted_if-Effects m a b was false e = set_bed-Effects m a b e

pub touch_bed-Effects : (m : Manager) (a now : ℕ) → Effects m (touch_bed m a now)
unfolding touch_bed
touch_bed-Effects m a now = elim (Bool-cases (is_current m a)) [
  | inl c ↦ rw c (adjusted-Effects m a _ _ (touch-Effect _ now))
  | inr c ↦ rw c (Effects-refl m)
]

pub begin_operation-Effects :
    (m : Manager) (a : ℕ) (kind : OperationKind) (timeout now : ℕ) (m' : Manager)
    → begin_operation m a kind timeout now ≡ ok m'
    → Effects m m'
begin_operation-Effects m a kind timeout now m' e x =
    let n = adjust_pinned (set_bed m a (begun (m.heap a) kind now)) a (pinned (m.heap a)) in
    rw ((begin_operation-eq-ok m a kind timeout now m' e).2) (
      then_calm (m.heap x) (n.heap x)
        ((set_bed n a (keepalive (n.heap a) (now + clamp_timeout timeout))).heap x)
        (adjusted-Effects m a (begun (m.heap a) kind now) _ (unfold begun in inl refl) x)
        (set_bed-IsCalm n a _ (keepalive-IsCalm _ _) x))

pub finish_operation-Effects :
    (m : Manager) (a : ℕ) (kind : OperationKind) (now : ℕ)
    → Effects m (finish_operation m a kind now)
unfolding finish_operation
finish_operation-Effects m a kind now =
    adjusted_if-Effects m a (ended (m.heap a) kind now) (pinned (m.heap a)) _ (ended-Effect _ _ _)

pub open_session-Effects :
    (m : Manager) (a : ℕ) (id : String) (now : ℕ) (m' : Manager)
    → open_session m a id now ≡ ok m'
    → Effects m m'
open_session-Effects m a id now m' e =
    rw ((open_session-eq-ok m a id now m' e).1)
      (adjusted-Effects m a (opened (m.heap a) id now) _ (touch-Effect (m.heap a) now))

pub close_session-Effects : (m : Manager) (a : ℕ) (id : String) → Effects m (close_session m a id)
unfolding close_session
close_session-Effects m a id = set_bed-Effects m a _ (inr (refl, refl, refl))

pub renew_expiration-Effects :
    (m : Manager) (a : ℕ) (expires_at : Option Timestamp) (now : ℕ) (r : Manager × ℕ)
    → renew_expiration m a expires_at now ≡ ok r
    → Effects m r.0
renew_expiration-Effects m a expires_at now r e =
    rw ((renew_expiration-eq-ok m a expires_at now r e).1)
      (set_bed-Effects m a _ (inr (keepalive-IsCalm _ _)))

pub prepare_snapshot-Effects :
    (m : Manager) (a generation : ℕ) (r : Manager × ℕ)
    → prepare_snapshot m a generation ≡ r
    → Effects m r.0
unfolding prepare_snapshot
prepare_snapshot-Effects m a generation r e =
    rw (← e)
      (set_bed-Effects m a (record (m.heap a) { generation = generation }) (inr (refl, refl, refl)))

pub begin_eviction-Effects :
    (m : Manager) (a : ℕ) (cutoff : Option ℕ) (now : ℕ) (m' : Manager)
    → begin_eviction m a cutoff now ≡ ok (true, m')
    → Effects m m'
begin_eviction-Effects m a cutoff now m' e =
    rw (begin_eviction-eq-ok m a cutoff now m' e)
      (set_bed-Effects m a _ (inr (unfold set_lifecycle in (refl, refl, refl))))

pub commit_eviction-Effects :
    (m : Manager) (a sequence : ℕ) (m' : Manager)
    → commit_eviction m a sequence ≡ some m'
    → Effects m m'
commit_eviction-Effects m a sequence m' e =
    rw ((commit_eviction-eq-some m a sequence m' e).3) (Effects-refl m)

pub resume_bed-Effects : (m : Manager) (a now : ℕ) → Effects m (resume_bed m a now)
unfolding resume_bed set_lifecycle
resume_bed-Effects m a now = set_bed-Effects m a _ (inr (refl, refl, refl))

pub pillows_changed-Effects :
    (m : Manager) (a : ℕ) (ready : Bool) (now : ℕ) → Effects m (pillows_changed m a ready now)
unfolding pillows_changed
pillows_changed-Effects m a ready now = elim (Bool-cases (is_resident (m.heap a).lifecycle.phase)) [
  | inl c ↦ rw c (set_bed-Effects m a _ (inr (refl, refl, refl)))
  | inr c ↦ rw c (Effects-refl m)
]

pub finish_retirement-Effects : (m : Manager) (a : ℕ) → Effects m (finish_retirement m a)
unfolding finish_retirement
finish_retirement-Effects m a x = ground arith

pub publish-Effects :
    (m : Manager) (a : ℕ) (wanted ready : Bool) (now : ℕ) (m' : Manager)
    → publish m a wanted ready now ≡ some m'
    → Effects m m'
publish-Effects m a wanted ready now m' e = rw ((publish-eq-some m a wanted ready now m' e).1) (
    set_bed-Effects m a (published_bed (m.heap a) ready now)
      (unfold set_lifecycle in inr (keepalive-IsCalm (m.heap a) now)))

pub claim_purge-Effects : (m : Manager) (id : String) → Effects m (claim_purge m id)
unfolding claim_purge claim
claim_purge-Effects m id = elim (Option-cases (lookup id m.beds)) [
  | inl e ↦ rw (e, claim_purge) (Effects-refl m)
  | inr (a, e) ↦ rw (e, claim_purge) (set_bed-Effects m a _ (inr (refl, refl, refl)))
]

-- The end of a snapshot moves only the watermark of its Bed.
pub commit_watermark-heap :
    (m : Manager) (a watermark x : ℕ)
    → (commit_watermark m a watermark).heap x
      ≡ update m.heap a (record (m.heap a) { persisted_at = watermark }) x
unfolding commit_watermark set_bed
commit_watermark-heap m a watermark x =
    let b = record (m.heap a) { persisted_at = watermark } in
    elim (Bool-cases (is_current (set_bed m a b) a)) [
      | inl c ↦ rw (c, adjust_pinned-heap (set_bed m a b) a (pinned (m.heap a)))
      | inr c ↦ rw c
    ]
