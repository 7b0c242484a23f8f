-- ===== src/Manager/Operation.antt =====
-- internal/bed/manager/operation.go and session.go: admission of operations and sessions, and their
-- ends. Each function is one critical section under `m.mu` then `b.mu`; `now` is its `time.Now()`.
-- The wake-up of the store loop (RequestStoreSync) changes nothing of this state.
use hostel.Base.{
  ℕ, suc, ◌+◌, ◌-◌, String, not, ◌&&◌, ◌||◌, none, some, List, [], ◌∷◌, if◌then◌else◌, ltb, leb,
  ◌==◌, string_eq,
}
use hostel.Base.GoMap.{lookup, insert, delete}
use hostel.Base.Result.{Result, ok, ◌>>◌, return_if}
use hostel.Manager.State.{
  Manager, ManagedBed, OperationKind, control, checkpoint, kind_eq, Error, bed_unavailable,
  resource_pressure, is_resident, has_main_processes, set_bed, is_current, pinned, adjust_pinned,
  keepalive, touch, add_one,
}

-- Nanoseconds.
abbrev pub default_operation_timeout : ℕ
default_operation_timeout = 300_000_000_000

abbrev pub max_operation_timeout : ℕ
max_operation_timeout = 7_200_000_000_000

unfoldable pub clamp_timeout : ℕ → ℕ
clamp_timeout timeout =
    let t = if leb timeout 0 then default_operation_timeout else timeout in
    if ltb max_operation_timeout t then max_operation_timeout else t

-- touchBed
unfoldable pub touch_bed : Manager → ℕ → ℕ → Manager
touch_bed m a now =
    let b = m.heap a in
    if is_current m a then adjust_pinned (set_bed m a (touch b now)) a (pinned b) else m

-- resourceAdmissionErrorLocked
unfoldable pub resource_admission_error : Manager → Result Error (Unit {0})
resource_admission_error m =
    return_if (not m.admission.allowed) (resource_pressure m.admission.reason)

-- The admission that an operation and a session share from the pinned test on.
unfoldable pub admit_unpinned : Manager → ManagedBed → Result Error (Unit {0})
admit_unpinned m b = if pinned b then ok tt else resource_admission_error m

-- `m[kind]` of a counter map, 0 where the key is missing
abbrev pub inflight_of : OperationKind → ManagedBed → ℕ
unfolding lookup
inflight_of kind b = elim (lookup kind b.inflight_by_kind) [ none ↦ 0 | some n ↦ n ]

-- What BeginOperation writes into the Bed before the pinned counter is adjusted.
unfoldable pub begun : ManagedBed → OperationKind → ℕ → ManagedBed
begun b kind now = record b {
  last_active_at = now;
  activity_seq = add_one b.activity_seq;
  inflight = suc b.inflight;
  inflight_by_kind = insert kind (suc (inflight_of kind b)) b.inflight_by_kind;
}

-- BeginOperation
unfoldable pub begin_operation : Manager → ℕ → OperationKind → ℕ → ℕ → Result Error Manager
begin_operation m a kind timeout now =
    let b = m.heap a in
    do
      return_if (not (is_current m a) || m.closed) bed_unavailable
      return_if (not (is_resident b.lifecycle.phase)) bed_unavailable
      return_if (has_main_processes b.spec && not b.lifecycle.ready && not (kind == control))
          bed_unavailable
      admit_unpinned m b
      let m' = adjust_pinned (set_bed m a (begun b kind now)) a (pinned b)
      ok (set_bed m' a (keepalive (m'.heap a) (now + clamp_timeout timeout)))

-- What the returned function writes into the Bed.
unfoldable pub ended : ManagedBed → OperationKind → ℕ → ManagedBed
ended b kind now =
    let n = inflight_of kind b in
    let c = record b {
      inflight = if ltb 0 b.inflight then b.inflight - 1 else b.inflight;
      inflight_by_kind =
          if ltb 1 n
          then insert kind (n - 1) b.inflight_by_kind
          else delete kind b.inflight_by_kind;
    } in
    let d =
      if kind == checkpoint
      then c
      else record c { last_active_at = now; activity_seq = add_one c.activity_seq } in
    keepalive d now

-- The function that BeginOperation returns; `sync.Once` makes it run once.
unfoldable pub finish_operation : Manager → ℕ → OperationKind → ℕ → Manager
finish_operation m a kind now =
    let b = m.heap a in
    let m' = set_bed m a (ended b kind now) in
    if is_current m' a then adjust_pinned m' a (pinned b) else m'

-- OpenSession; `id` is the generated session ID.
unfoldable pub open_session : Manager → ℕ → String → ℕ → Result Error Manager
open_session m a id now =
    let b = m.heap a in
    do
      return_if (not (is_current m a) || m.closed) bed_unavailable
      return_if
          (has_main_processes b.spec
            && (not (is_resident b.lifecycle.phase) || not b.lifecycle.ready))
          bed_unavailable
      admit_unpinned m b
      let b' = touch b now
      ok (adjust_pinned (set_bed m a (record b' { sessions = id ∷ b'.sessions })) a (pinned b))

abbrev pub remove : String → List String → List String
remove k [] = []
remove k (x ∷ xs) = let rest = remove k xs in if x == k then rest else x ∷ rest

-- Session.Close
unfoldable pub close_session : Manager → ℕ → String → Manager
close_session m a id =
    let b = m.heap a in set_bed m a (record b { sessions = remove id b.sessions })
