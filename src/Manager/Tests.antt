-- ===== src/Manager/Tests.antt =====
-- One Bed from its publication to its eviction, and the theorems of the manager there.
use hostel.Base.{
  List, ◌++◌, ℕ, suc, ◌+◌, ◌≤◌, ◌<◌, ◌≡◌, ◌↔◌, ◌⊎◌, ◌*◌, ◌%◌, ◌≢◌, length, refl, String, true,
  false, Option, none, some, [], ◌∷◌, arith, string_eq, nat_eq, any, ◌==◌,
}
use hostel.Base.GoMap.{IsMap, lookup, insert, delete, count}
use hostel.Base.Result.{Result, ok, err}
use hostel.Manager.State.{
  Manager, ManagedBed, initializing, exec, u64, pinned, adjust_pinned, set_bed, is_current,
  keepalive, set_lifecycle, bed_unavailable, resource_pressure, OperationKind, retained_until,
  retention_deadline,
}
use hostel.Manager.Operation.{
  begin_operation, open_session, begun, admit_unpinned, clamp_timeout, max_operation_timeout,
}
use hostel.Manager.Retention.{Timestamp, renew_expiration, stale, is_expired, stale_among}
use hostel.Manager.Eviction.{begin_eviction, commit_eviction}
use hostel.Manager.Persist.{prepare_snapshot, commit_watermark}
use hostel.Manager.Identity.{publish}
use hostel.Manager.World.{
  World, begins, publishes, fences, uploads, snapshots, Run, here, next, IsFresh, fenced, uploading,
  snapshotted, assign,
}
use hostel.Manager.Safety.{commit_eviction-durable, Run-counters}
use hostel.Manager.Inflight.{Run-inflight, outstanding}
use hostel.Manager.Pressure.{bed_pressure_for_counts}
use hostel.Manager.Counts.{Keyed, pinned_at}
use hostel.Manager.Fences.{begin_operation-holds, begin_eviction-closes, Run-ungated}
use hostel.Manager.Retained.{renew_expiration-extends, stale-exact, bed_pressure_watermark}

abbrev value {ℓ κ} : {E : Type ℓ} {A : Type κ} → Result E A → A → A
value (ok a) d = a
value (err e) d = d

abbrev or_else {ℓ} : {A : Type ℓ} → Option A → A → A
or_else (some a) d = a
or_else none d = d

abbrev private_bed : ManagedBed
private_bed = record {
  name = "agent";
  spec = record { store_is_noop = false; commands = [] };
  lifecycle = record {
    keepalive_at = 0;
    phase = initializing;
    ready = false;
    reason = "";
    updated_at = 0;
  };
  last_active_at = 10;
  idle_ttl = 100;
  inflight = 0;
  inflight_by_kind = [];
  activity_seq = 7;
  generation = 1;
  persisted_at = 5;
  purging = false;
  sessions = [];
}

abbrev empty_manager : Manager
empty_manager = record {
  heap = λ _. private_bed;
  beds = [];
  retirements = [];
  closed = false;
  resident_beds = 0;
  pinned_beds = 0;
  max_beds = 4;
  max_pinned_beds = 4;
  pressure_percent = 80;
  admission = record { allowed = true; reason = "" };
}

abbrev start : World
start = record {
  manager = empty_manager;
  operations = [];
  persisting = λ _. none;
  evicting = λ _. none;
}

start-IsFresh : IsFresh start
start-IsFresh = record {
  no_beds = refl;
  none_resident = refl;
  none_pinned = refl;
  no_operations = refl;
  no_snapshots = λ _. refl;
  no_evictions = λ _. refl;
  idle = λ _. refl;
}

serving : Manager
unfolding publish keepalive set_lifecycle set_bed pinned lookup insert
serving = or_else (publish empty_manager 0 true true 20) empty_manager

closing : Manager
unfolding begin_eviction serving is_current set_bed set_lifecycle retained_until lookup
closing = (value (begin_eviction serving 0 none 30) (false, serving)).1

packing : Manager
unfolding prepare_snapshot closing set_bed
packing = (prepare_snapshot closing 0 2).0

packed : Manager
unfolding commit_watermark packing set_bed is_current pinned adjust_pinned lookup
packed = commit_watermark packing 0 10

gone : Manager
unfolding commit_eviction packed is_current insert delete lookup
gone = or_else (commit_eviction packed 0 7) packed

published : publish empty_manager 0 true true 20 ≡ some serving
unfolding serving
published = refl

did_fence : begin_eviction serving 0 none 30 ≡ ok (true, closing)
unfolding closing
did_fence = refl

did_prepare : prepare_snapshot closing 0 2 ≡ (packing, 10)
unfolding packing closing
did_prepare = refl

did_evict : commit_eviction packed 0 7 ≡ some gone
unfolding gone packed packing
did_evict = refl

abbrev at_first : World
at_first = record start { manager = serving }

abbrev at_fence : World
at_fence = record at_first {
  manager = closing;
  evicting = assign at_first.evicting 0 (some (fenced 7));
}

abbrev at_upload : World
at_upload = record at_fence {
  manager = packing;
  evicting = assign at_fence.evicting 0 (some (uploading 7 10));
}

abbrev at_commit : World
at_commit = record at_upload {
  manager = packed;
  evicting = assign at_upload.evicting 0 (some (snapshotted 7));
}

eviction-Run : Run start 4 at_commit
unfolding assign packed serving closing packing
eviction-Run =
    next
      (next
        (next (next here (publishes 0 true true 20 serving published))
          (fences 0 none 30 closing refl did_fence))
        (uploads 0 7 10 2 packing refl refl did_prepare))
      (snapshots 0 7 10 refl)

commit_eviction-durable_example :
    let b = packed.heap 0 in
    (b.inflight ≡ 0)
    × (b.last_active_at ≤ b.persisted_at)
    × (lookup b.name gone.beds ≡ none)
    × (lookup b.name gone.retirements ≡ some 0)
    × ((k : String) → (b.name == k) ≡ false → lookup k gone.beds ≡ lookup k packed.beds)
unfolding assign
commit_eviction-durable_example =
    commit_eviction-durable 0 7 gone start-IsFresh (omega arith) eviction-Run refl did_evict

Run-counters_example :
    (packed.pinned_beds ≡ count (pinned_at packed.heap) packed.beds % u64)
    × (packed.resident_beds ≡ length packed.beds % u64)
    × IsMap packed.beds
    × Keyed packed.heap packed.beds
Run-counters_example = Run-counters start-IsFresh (omega arith) eviction-Run

Run-inflight_example : (packed.heap 0).inflight ≡ outstanding 0 []
Run-inflight_example = Run-inflight 0 start-IsFresh eviction-Run

-- The Bed is pinned when it is published, and no longer once its data is stored.
counters_move : (serving.pinned_beds ≡ 1) × (packed.pinned_beds ≡ 0) × (gone.resident_beds ≡ 0)
unfolding serving packed gone
counters_move = (refl, refl, refl)

busy : Manager
unfolding begin_operation serving is_current lookup admit_unpinned set_bed begun clamp_timeout
    insert
busy = value (begin_operation serving 0 exec 60 40) serving

did_begin : begin_operation serving 0 exec 60 40 ≡ ok busy
unfolding busy
did_begin = refl

abbrev at_busy : World
at_busy = record at_first { manager = busy; operations = (0, exec) ∷ [] }

begin_operation-holds_example :
    let b = busy.heap 0 in
    (b.inflight ≡ suc (serving.heap 0).inflight)
    × (b.last_active_at ≡ 40)
    × (40 + clamp_timeout 60 ≤ b.lifecycle.keepalive_at)
    × (0 < clamp_timeout 60)
    × (clamp_timeout 60 ≤ max_operation_timeout)
    × (0 < b.idle_ttl → 40 + clamp_timeout 60 + b.idle_ttl ≤ retained_until b)
    × ((cutoff : Option ℕ) (later : ℕ) (m'' : Manager)
        → begin_eviction busy 0 cutoff later ≢ ok (true, m''))
    × ((v x : World) (n k : ℕ) (before after : List (ℕ × OperationKind))
        → IsFresh v
        → Run v n at_first
        → Run at_busy k x
        → x.operations ≡ before ++ ((0, exec) ∷ after)
        → (cutoff : Option ℕ) (later : ℕ) (m'' : Manager)
        → begin_eviction x.manager 0 cutoff later ≢ ok (true, m''))
begin_operation-holds_example = begin_operation-holds at_first 0 exec 60 40 busy did_begin

busy-Run : Run start 2 at_busy
busy-Run =
    next (next here (publishes 0 true true 20 serving published))
      (begins 0 exec 60 40 busy did_begin)

Run-ungated_example :
    ((other : OperationKind) (timeout now : ℕ) (reason : String)
      → begin_operation busy 0 other timeout now ≢ err (resource_pressure reason))
    × ((id : String) (now : ℕ) (reason : String)
        → open_session busy 0 id now ≢ err (resource_pressure reason))
Run-ungated_example = Run-ungated [] [] 0 exec start-IsFresh busy-Run refl

begin_eviction-closes_example :
    ((serving.heap 0).inflight ≡ 0)
    × ((t : ℕ) → none ≡ some t → is_expired (serving.heap 0) t ≡ true)
    × ((kind : OperationKind) (timeout later : ℕ)
        → begin_operation closing 0 kind timeout later ≡ err bed_unavailable)
    × ((expires_at : Option Timestamp) (later : ℕ)
        → renew_expiration closing 0 expires_at later ≡ err bed_unavailable)
begin_eviction-closes_example = begin_eviction-closes serving 0 none 30 closing did_fence

abbrev asked_deadline : ℕ
asked_deadline = 500

-- An instant that a clock of another zone shows one hour later.
abbrev asked : Timestamp
asked = record { instant = 500; local = 3_600_000_000_500 }

renewed : Manager
unfolding renew_expiration serving is_current lookup set_bed keepalive
renewed = (value (renew_expiration serving 0 (some asked) 40) (serving, 0)).0

did_renew : renew_expiration serving 0 (some asked) 40 ≡ ok (renewed, 500)
unfolding renewed retained_until retention_deadline
did_renew = refl

renew_expiration-extends_example :
    let b = serving.heap 0 in
    (retained_until b ≤ asked_deadline)
    × (0 < b.idle_ttl → 0 < 40 → some asked ≡ none → 40 + b.idle_ttl ≤ asked_deadline)
    × ((t : Timestamp)
        → 0 < b.idle_ttl
        → b.idle_ttl < t.instant
        → some asked ≡ some t
        → t.instant ≤ asked_deadline)
    × (b.idle_ttl ≡ 0 → asked_deadline ≡ 0)
renew_expiration-extends_example =
    renew_expiration-extends serving 0 (some asked) 40 renewed asked_deadline did_renew

serving-IsMap : IsMap serving.beds
unfolding serving lookup
serving-IsMap = (refl, tt)

stale-exact_example : (any (λ k. k == "agent") (stale serving 200) ≡ true) ↔ (
    (a : ℕ) × (lookup "agent" serving.beds ≡ some a)
    × (0 < (serving.heap a).idle_ttl)
    × (0 < (serving.heap a).lifecycle.keepalive_at)
    × ((serving.heap a).lifecycle.keepalive_at + (serving.heap a).idle_ttl ≤ 200))
stale-exact_example = stale-exact serving 200 "agent" serving-IsMap

serving-stale : stale serving 200 ≡ "agent" ∷ []
unfolding stale stale_among is_expired retained_until retention_deadline serving
serving-stale = refl

bed_pressure_watermark_example :
    (bed_pressure_for_counts 80 4 4 3 4 ≡ true)
    ↔ ((0 < 80) × (((0 < 4) × (4 * 80 ≤ 4 * 100)) ⊎ ((0 < 4) × (4 * 80 ≤ 3 * 100))))
bed_pressure_watermark_example = bed_pressure_watermark 80 4 4 3 4
