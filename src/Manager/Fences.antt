-- ===== src/Manager/Fences.antt =====
-- Admission against eviction in internal/bed/manager: who may start on a Bed, what a started
-- operation promises, and what the admission fence of an eviction refuses.
use hostel.Base.{
  List, ◌∷◌, ◌++◌, String, nat_beq_iff, ℕ, suc, ◌+◌, ◌≤◌, ◌<◌, ◌≡◌, ◌≢◌, refl, true, false, Option,
  none, some, arith, ap, ◌∙◌, nat_eq, string_eq,
}
use hostel.Base.GoMap.{to_nat}
use hostel.Manager.World.{World, Run, next, begins, IsFresh, Run-append}
use hostel.Manager.Inflight.{Run-inflight, outstanding, outstanding-split}
use hostel.Base.Result.{ok, err}
use hostel.Manager.State.{
  Manager, ManagedBed, OperationKind, kind_eq, bed_unavailable, resource_pressure, set_bed, pinned,
  adjust_pinned, keepalive, is_resident, retained_until, retention_deadline, set_lifecycle,
}
use hostel.Manager.Operation.{
  begin_operation, open_session, begun, max_operation_timeout, clamp_timeout, admit_unpinned,
}
use hostel.Manager.Retention.{Timestamp, renew_expiration, is_expired}
use hostel.Manager.Eviction.{begin_eviction}
use hostel.Manager.Effects.{adjust_pinned-heap}
use hostel.Manager.Membership.{set_bed_self, fenced_bed, begin_eviction-eq-ok}
use hostel.Manager.Accounting.{begin_operation-eq-ok}

keepalive_at-ge : (b : ManagedBed) (t : ℕ) → t ≤ (keepalive b t).lifecycle.keepalive_at
unfolding keepalive
keepalive_at-ge b t = ground arith

busy-not-fenced :
    (m : Manager) (a : ℕ) (cutoff : Option ℕ) (now : ℕ) (m' : Manager)
    → 0 < (m.heap a).inflight
    → begin_eviction m a cutoff now ≢ ok (true, m')
unfolding begin_eviction
busy-not-fenced m a none now m' busy e = ground arith
busy-not-fenced m a (some t) now m' busy e = ground arith

began :
    (m : Manager) (a : ℕ) (kind : OperationKind) (timeout now : ℕ) (m' : Manager)
    → begin_operation m a kind timeout now ≡ ok m'
    → m'.heap a ≡ keepalive (begun (m.heap a) kind now) (now + clamp_timeout timeout)
began m a kind timeout now m' e =
    let b = begun (m.heap a) kind now in
    let n = adjust_pinned (set_bed m a b) a (pinned (m.heap a)) in
    let at : n.heap a ≡ b =
      ap (λ (h : ℕ → ManagedBed). h a) (adjust_pinned-heap (set_bed m a b) a (pinned (m.heap a)))
      ∙ set_bed_self m a b in
    rw ((begin_operation-eq-ok m a kind timeout now m' e).2)
      (set_bed_self n a (keepalive (n.heap a) (now + clamp_timeout timeout)) ∙ rw at)

clamp_bounds :
    (timeout : ℕ) → (0 < clamp_timeout timeout) × (clamp_timeout timeout ≤ max_operation_timeout)
unfolding clamp_timeout
clamp_bounds timeout = ground arith

-- A Bed with an operation that has begun and not finished counts it in flight.
unfinished-busy :
    {v w : World} {n : ℕ} (before after : List (ℕ × OperationKind)) (a : ℕ) (kind : OperationKind)
    → IsFresh v
    → Run v n w
    → w.operations ≡ before ++ ((a, kind) ∷ after)
    → 0 < (w.manager.heap a).inflight
unfinished-busy before after a kind fresh run there = omega (
  arith,
  Run-inflight a fresh run
      ∙ ap (outstanding a) there
      ∙ outstanding-split a a kind before after
      ∙ ap (λ b. to_nat b + outstanding a (before ++ after)) ((nat_beq_iff a a).1 refl),
)

-- An admitted operation counts itself and its activity, and extends the retention clock to the end of
-- its timeout, which is positive and at most two hours: with an idle TTL the Bed is not due before
-- timeout and TTL have passed. No eviction passes the fence in the state after it, whatever its cutoff;
-- and where the manager was reached from a fresh one, none passes in any state that any interleaving
-- of other sections reaches afterwards, until the operation finishes, whatever other operations of the
-- Bed finish meanwhile.
pub begin_operation-holds :
    (w : World) (a : ℕ) (kind : OperationKind) (timeout now : ℕ) (m' : Manager)
    → begin_operation w.manager a kind timeout now ≡ ok m'
    → let b = m'.heap a in
      (b.inflight ≡ suc (w.manager.heap a).inflight)
      × (b.last_active_at ≡ now)
      × (now + clamp_timeout timeout ≤ b.lifecycle.keepalive_at)
      × (0 < clamp_timeout timeout)
      × (clamp_timeout timeout ≤ max_operation_timeout)
      × (0 < b.idle_ttl → now + clamp_timeout timeout + b.idle_ttl ≤ retained_until b)
      × ((cutoff : Option ℕ) (later : ℕ) (m'' : Manager)
          → begin_eviction m' a cutoff later ≢ ok (true, m''))
      × ((v x : World) (n k : ℕ) (before after : List (ℕ × OperationKind))
          → IsFresh v
          → Run v n w
          → Run (record w { manager = m'; operations = (a, kind) ∷ w.operations }) k x
          → x.operations ≡ before ++ ((a, kind) ∷ after)
          → (cutoff : Option ℕ) (later : ℕ) (m'' : Manager)
          → begin_eviction x.manager a cutoff later ≢ ok (true, m''))
unfolding retained_until retention_deadline
begin_operation-holds w a kind timeout now m' e =
    let m = w.manager in
    let at = began m a kind timeout now m' e in
    let (pos, cap) = clamp_bounds timeout in
    let alive = keepalive_at-ge (begun (m.heap a) kind now) (now + clamp_timeout timeout) in
    let busy : (m'.heap a).inflight ≡ suc (m.heap a).inflight =
      rw at (unfold keepalive begun in ground arith) in
    (
      busy,
      rw at (unfold keepalive begun in ground arith),
      rw at alive,
      pos,
      cap,
      ground (arith, pos, ap (λ (b : ManagedBed). b.lifecycle.keepalive_at) at, alive),
      λ cutoff later m'' h. busy-not-fenced m' a cutoff later m'' (omega (arith, busy)) h,
      λ v x n k before after fresh run rest there cutoff later m'' h.
          busy-not-fenced x.manager a cutoff later m''
            (unfinished-busy before after a kind fresh
              (Run-append (next run (begins a kind timeout now m' e)) rest).1 there)
            h,
    )

ungated : (m : Manager) (b : ManagedBed) → 0 < b.inflight → admit_unpinned m b ≡ ok tt
unfolding admit_unpinned pinned
ungated m b busy = ground arith

begin_operation-ungated :
    (m : Manager) (a : ℕ) (kind : OperationKind) (timeout now : ℕ) (reason : String)
    → 0 < (m.heap a).inflight
    → begin_operation m a kind timeout now ≢ err (resource_pressure reason)
unfolding begin_operation
begin_operation-ungated m a kind timeout now reason busy e =
    ground (arith, ungated m (m.heap a) busy, e)

open_session-ungated :
    (m : Manager) (a : ℕ) (id : String) (now : ℕ) (reason : String)
    → 0 < (m.heap a).inflight
    → open_session m a id now ≢ err (resource_pressure reason)
unfolding open_session
open_session-ungated m a id now reason busy e = ground (arith, ungated m (m.heap a) busy, e)

-- In every world that any interleaving of critical sections reaches from a fresh manager, the resource
-- gate refuses neither a further operation nor a session on a Bed that has an operation which has
-- begun and not finished, whatever the gate decides by then.
pub Run-ungated :
    {v w : World} {n : ℕ} (before after : List (ℕ × OperationKind)) (a : ℕ) (kind : OperationKind)
    → IsFresh v
    → Run v n w
    → w.operations ≡ before ++ ((a, kind) ∷ after)
    → ((other : OperationKind) (timeout now : ℕ) (reason : String)
        → begin_operation w.manager a other timeout now ≢ err (resource_pressure reason))
      × ((id : String) (now : ℕ) (reason : String)
          → open_session w.manager a id now ≢ err (resource_pressure reason))
Run-ungated {w = w} before after a kind fresh run there =
    let busy = unfinished-busy before after a kind fresh run there in
    (
      λ other timeout now reason. begin_operation-ungated w.manager a other timeout now reason busy,
      λ id now reason. open_session-ungated w.manager a id now reason busy,
    )

fenced_at :
    (m : Manager) (a : ℕ) (cutoff : Option ℕ) (now : ℕ) (m' : Manager)
    → begin_eviction m a cutoff now ≡ ok (true, m')
    → m'.heap a ≡ fenced_bed (m.heap a) now
fenced_at m a cutoff now m' e =
    rw (begin_eviction-eq-ok m a cutoff now m' e) (set_bed_self m a (fenced_bed (m.heap a) now))

not_resident-refused :
    (m : Manager) (a : ℕ) (kind : OperationKind) (timeout now : ℕ)
    → is_resident (m.heap a).lifecycle.phase ≡ false
    → begin_operation m a kind timeout now ≡ err bed_unavailable
unfolding begin_operation
not_resident-refused m a kind timeout now h = ground arith

not_resident-unrenewed :
    (m : Manager) (a : ℕ) (expires_at : Option Timestamp) (now : ℕ)
    → is_resident (m.heap a).lifecycle.phase ≡ false
    → renew_expiration m a expires_at now ≡ err bed_unavailable
unfolding renew_expiration
not_resident-unrenewed m a expires_at now h = ground arith

due :
    (m : Manager) (a cutoff now : ℕ) (m' : Manager)
    → begin_eviction m a (some cutoff) now ≡ ok (true, m')
    → is_expired (m.heap a) cutoff ≡ true
unfolding begin_eviction is_expired
due m a cutoff now m' e = ground arith

fence-idle :
    (m : Manager) (a : ℕ) (cutoff : Option ℕ) (now : ℕ) (m' : Manager)
    → begin_eviction m a cutoff now ≡ ok (true, m')
    → (m.heap a).inflight ≡ 0
unfolding begin_eviction
fence-idle m a none now m' e = ground arith
fence-idle m a (some t) now m' e = ground arith

-- An eviction passes the fence only on a Bed with no operation in flight, and idle collection only
-- where the retention deadline is set and not after the cutoff. Behind the fence every operation of
-- every kind is refused, control operations included, and no renewal can take the Bed back.
pub begin_eviction-closes :
    (m : Manager) (a : ℕ) (cutoff : Option ℕ) (now : ℕ) (m' : Manager)
    → begin_eviction m a cutoff now ≡ ok (true, m')
    → ((m.heap a).inflight ≡ 0)
      × ((t : ℕ) → cutoff ≡ some t → is_expired (m.heap a) t ≡ true)
      × ((kind : OperationKind) (timeout later : ℕ)
          → begin_operation m' a kind timeout later ≡ err bed_unavailable)
      × ((expires_at : Option Timestamp) (later : ℕ)
          → renew_expiration m' a expires_at later ≡ err bed_unavailable)
begin_eviction-closes m a cutoff now m' e =
    let at = fenced_at m a cutoff now m' e in
    let shut : is_resident (m'.heap a).lifecycle.phase ≡ false =
      rw at (unfold set_lifecycle in refl) in
    (
      fence-idle m a cutoff now m' e,
      λ t same. due m a t now m' (rw same at e),
      λ kind timeout later. not_resident-refused m' a kind timeout later shut,
      λ expires_at later. not_resident-unrenewed m' a expires_at later shut,
    )
