-- ===== src/Manager/Safety.antt =====
-- The counters and the commit of an eviction (internal/bed/manager) over every interleaving.
use hostel.Base.{
  ℕ, zero, suc, ◌≤◌, ◌<◌, ◌≡◌, true, false, none, some, String, ◌==◌, eq_iff, length, ◌%◌, arith,
  nat_eq, string_eq,
}
use hostel.Base.GoMap.{lookup, count, IsMap, lookup-insert, lookup-delete}
use hostel.Manager.State.{Manager, ManagedBed, u64, pinned}
use hostel.Manager.Operation.{touch_bed, finish_operation, close_session}
use hostel.Manager.Eviction.{commit_eviction, resume_bed, pillows_changed, finish_retirement}
use hostel.Manager.Identity.{claim_purge}
use hostel.Manager.World.{
  World, Step, touches, begins, finishes, opens, closes, renews, prepares, commits, gives_up,
  fences, uploads, snapshots, evicts, resumes, changes, publishes, purges, retires, samples,
  shuts_down, Run, here, next, IsFresh, snapshotted,
}
use hostel.Manager.Counts.{IsCounted, Keyed, pinned_at}
use hostel.Manager.Accounting.{
  touch_bed-IsCounted, begin_operation-IsCounted, finish_operation-IsCounted,
  open_session-IsCounted, close_session-IsCounted, renew_expiration-IsCounted,
  prepare_snapshot-IsCounted, commit_watermark-IsCounted,
}
use hostel.Manager.Membership.{
  begin_eviction-IsCounted, commit_eviction-IsCounted, commit_eviction-eq-some,
  resume_bed-IsCounted, pillows_changed-IsCounted, publish-IsCounted, claim_purge-IsCounted,
  finish_retirement-IsCounted,
}
use hostel.Manager.Effects.{
  Effects-refl, touch_bed-Effects, begin_operation-Effects, finish_operation-Effects,
  open_session-Effects, close_session-Effects, renew_expiration-Effects, commit_eviction-Effects,
  resume_bed-Effects, pillows_changed-Effects, publish-Effects, claim_purge-Effects,
  finish_retirement-Effects,
}
use hostel.Manager.Invariant.{
  AllStaged, IsStaged, quiet, restage, commits-staged, snapshots-staged, settled, fence-staged,
  hold-staged, upload-staged, drop-staged,
}

pub record Inv (n : ℕ) (w : World) : Type 0 where
  pub counted : IsCounted w.manager
  pub staged : AllStaged n w

unpinned : (b : ManagedBed) → b.inflight ≡ 0 → b.last_active_at ≤ b.persisted_at → pinned b ≡ false
unfolding pinned
unpinned b i d = ground arith

-- A Bed whose eviction commits holds no operation and no data that is newer than its snapshot.
commit-settled :
    (n : ℕ) (w : World) (a s : ℕ) (m : Manager)
    → n < u64
    → w.evicting a ≡ some (snapshotted s)
    → commit_eviction w.manager a s ≡ some m
    → AllStaged n w
    → (w.manager.heap a).last_active_at ≤ (w.manager.heap a).persisted_at
commit-settled n w a s m small e c h =
    let (_, _, same, _) = commit_eviction-eq-some w.manager a s m c in
    let staged : IsStaged n (w.manager.heap a) (some (snapshotted s)) (w.persisting a) =
      rw e at (h a) in
    settled n (w.manager.heap a) s small same staged.0

pub Step-IsCounted : (n : ℕ) (w x : World) → n < u64 → Step w x → Inv n w → IsCounted x.manager
Step-IsCounted n w x small (touches a now) v = touch_bed-IsCounted w.manager a now v.counted
Step-IsCounted n w x small (begins a k t now m e) v =
    begin_operation-IsCounted w.manager a k t now m e v.counted
Step-IsCounted n w x small (finishes p q a k now e) v =
    finish_operation-IsCounted w.manager a k now v.counted
Step-IsCounted n w x small (opens a id now m e) v =
    open_session-IsCounted w.manager a id now m e v.counted
Step-IsCounted n w x small (closes a id) v = close_session-IsCounted w.manager a id v.counted
Step-IsCounted n w x small (renews a t now d m e) v =
    renew_expiration-IsCounted w.manager a t now (m, d) e v.counted
Step-IsCounted n w x small (prepares a u g m p q e) v =
    prepare_snapshot-IsCounted w.manager a g (m, u) e v.counted
Step-IsCounted n w x small (commits a u p) v = commit_watermark-IsCounted w.manager a u v.counted
Step-IsCounted n w x small (gives_up a) v = v.counted
Step-IsCounted n w x small (fences a c now m p e) v =
    begin_eviction-IsCounted w.manager a c now m e v.counted
Step-IsCounted n w x small (uploads a s u g m p q e) v =
    prepare_snapshot-IsCounted w.manager a g (m, u) e v.counted
Step-IsCounted n w x small (snapshots a s u p) v =
    commit_watermark-IsCounted w.manager a u v.counted
Step-IsCounted n w x small (evicts a s m p e) v =
    let (_, idle, _, _) = commit_eviction-eq-some w.manager a s m e in
    commit_eviction-IsCounted w.manager a s m e
      (unpinned (w.manager.heap a) idle (commit-settled n w a s m small p e v.staged)) v.counted
Step-IsCounted n w x small (resumes a now) v = resume_bed-IsCounted w.manager a now v.counted
Step-IsCounted n w x small (changes a r now) v =
    pillows_changed-IsCounted w.manager a r now v.counted
Step-IsCounted n w x small (publishes a q r now m e) v =
    publish-IsCounted w.manager a q r now m e v.counted
Step-IsCounted n w x small (purges id) v = claim_purge-IsCounted w.manager id v.counted
Step-IsCounted n w x small (retires a) v = finish_retirement-IsCounted w.manager a v.counted
Step-IsCounted n w x small (samples d) v = record {
  keyed = v.counted.keyed;
  unique = v.counted.unique;
  pinned_ok = v.counted.pinned_ok;
  resident_ok = v.counted.resident_ok;
}
Step-IsCounted n w x small shuts_down v = record {
  keyed = v.counted.keyed;
  unique = v.counted.unique;
  pinned_ok = v.counted.pinned_ok;
  resident_ok = v.counted.resident_ok;
}

pub Step-AllStaged : (n : ℕ) (w x : World) → Step w x → AllStaged n w → AllStaged (suc n) x
Step-AllStaged n w x (touches a now) h =
    quiet n w (touch_bed w.manager a now) (touch_bed-Effects w.manager a now) h
Step-AllStaged n w x (begins a k t now m e) h =
    quiet n w m (begin_operation-Effects w.manager a k t now m e) h
Step-AllStaged n w x (finishes p q a k now e) h =
    quiet n w (finish_operation w.manager a k now) (finish_operation-Effects w.manager a k now) h
Step-AllStaged n w x (opens a id now m e) h =
    quiet n w m (open_session-Effects w.manager a id now m e) h
Step-AllStaged n w x (closes a id) h =
    quiet n w (close_session w.manager a id) (close_session-Effects w.manager a id) h
Step-AllStaged n w x (renews a t now d m e) h =
    quiet n w m (renew_expiration-Effects w.manager a t now (m, d) e) h
Step-AllStaged n w x (prepares a u g m p q e) h = hold-staged n w a u g m p q e h
Step-AllStaged n w x (commits a u p) h = commits-staged n w a u p h
Step-AllStaged n w x (gives_up a) h = drop-staged n w a h
Step-AllStaged n w x (fences a c now m p e) h = fence-staged n w a c now m e h
Step-AllStaged n w x (uploads a s u g m p q e) h = upload-staged n w a s u g m p q e h
Step-AllStaged n w x (snapshots a s u p) h = snapshots-staged n w a s u p h
Step-AllStaged n w x (evicts a s m p e) h =
    restage n w m a none (commit_eviction-Effects w.manager a s m e) tt h
Step-AllStaged n w x (resumes a now) h =
    restage n w (resume_bed w.manager a now) a none (resume_bed-Effects w.manager a now) tt h
Step-AllStaged n w x (changes a r now) h =
    quiet n w (pillows_changed w.manager a r now) (pillows_changed-Effects w.manager a r now) h
Step-AllStaged n w x (publishes a q r now m e) h =
    quiet n w m (publish-Effects w.manager a q r now m e) h
Step-AllStaged n w x (purges id) h =
    quiet n w (claim_purge w.manager id) (claim_purge-Effects w.manager id) h
Step-AllStaged n w x (retires a) h =
    quiet n w (finish_retirement w.manager a) (finish_retirement-Effects w.manager a) h
Step-AllStaged n w x (samples d) h =
    quiet n w (record w.manager { admission = d }) (Effects-refl w.manager) h
Step-AllStaged n w x shuts_down h =
    quiet n w (record w.manager { closed = true }) (Effects-refl w.manager) h

fresh-Inv : (w : World) → IsFresh w → Inv zero w
unfolding count
fresh-Inv w f = record {
  counted = record {
    keyed = rw (f.no_beds) tt;
    unique = rw (f.no_beds) tt;
    pinned_ok = rw (f.no_beds) (omega (arith, f.none_pinned));
    resident_ok = rw (f.no_beds) (omega (arith, f.none_resident));
  };
  staged = λ x. rw (f.no_evictions x) tt;
}

pub Run-Inv : {v w : World} {n : ℕ} → IsFresh v → n < u64 → Run v n w → Inv n w
Run-Inv {v} f small here = fresh-Inv v f
Run-Inv f small (next {n = n} {w = w} {x = x} r s) =
    let i = Run-Inv f (omega arith) r in
    record {
      counted = Step-IsCounted n w x (omega arith) s i;
      staged = Step-AllStaged n w x s i.staged;
    }

-- In every world that fewer than 2^64 critical sections reach from a fresh manager, in any
-- interleaving: if the last section of an eviction commits, the Bed has no operation in flight, its
-- latest activity is not after the watermark of its last successful snapshot, it is out of the map of
-- Beds and among the retirements, and every other name is bound as before.
pub commit_eviction-durable :
    {v w : World} {n : ℕ} (a sequence : ℕ) (m : Manager)
    → IsFresh v
    → n < u64
    → Run v n w
    → w.evicting a ≡ some (snapshotted sequence)
    → commit_eviction w.manager a sequence ≡ some m
    → let b = w.manager.heap a in
      (b.inflight ≡ 0)
      × (b.last_active_at ≤ b.persisted_at)
      × (lookup b.name m.beds ≡ none)
      × (lookup b.name m.retirements ≡ some a)
      × ((k : String) → (b.name == k) ≡ false → lookup k m.beds ≡ lookup k w.manager.beds)
commit_eviction-durable {w} {n} a sequence m f small r e c =
    let (_, idle, _, after) = commit_eviction-eq-some w.manager a sequence m c in
    let b = w.manager.heap a in
    (
      idle,
      commit-settled n w a sequence m small e c (Run-Inv f small r).staged,
      rw after (ground (arith, lookup-delete b.name b.name w.manager.beds, eq_iff b.name b.name)),
      rw after (
          ground
            (arith, lookup-insert b.name b.name a w.manager.retirements, eq_iff b.name b.name)),
      λ k other. rw after (ground (arith, lookup-delete b.name k w.manager.beds, other)),
    )

-- In every world that fewer than 2^64 critical sections reach from a fresh manager, in any
-- interleaving, the two atomic counters are exact: `pinnedBeds` is the number of Beds in the map that are
-- pinned, and `residentBeds` is the size of the map,
-- both modulo 2^64, and every name stands in the map once, at a Bed of that name.
pub Run-counters :
    {v w : World} {n : ℕ}
    → IsFresh v
    → n < u64
    → Run v n w
    → (w.manager.pinned_beds ≡ count (pinned_at w.manager.heap) w.manager.beds % u64)
      × (w.manager.resident_beds ≡ length w.manager.beds % u64)
      × IsMap w.manager.beds
      × Keyed w.manager.heap w.manager.beds
Run-counters f small r =
    let c = (Run-Inv f small r).counted in (c.pinned_ok, c.resident_ok, c.unique, c.keyed)
