-- ===== src/Manager/World.antt =====
-- The manager with the goroutines that act on it, as interleavings of their critical sections.
-- A step is one section under `m.mu`; between two steps of one goroutine any others may run. What a
-- goroutine remembers from one section to the next stands beside the manager: the outstanding
-- `finish` functions of BeginOperation, the watermark that a snapshot captured under `persistMu`, and
-- how far the eviction has come that holds `cleanupMu` of a Bed.
use hostel.Base.{
  ℕ, suc, String, ◌≡◌, Bool, true, false, Option, none, some, List, [], ◌∷◌, ◌++◌, if◌then◌else◌,
  ◌==◌, nat_eq,
}
use hostel.Base.Result.{ok}
use hostel.Manager.State.{Manager, OperationKind, AdmissionDecision}
use hostel.Manager.Operation.{
  touch_bed, begin_operation, finish_operation, open_session, close_session,
}
use hostel.Manager.Retention.{Timestamp, renew_expiration}
use hostel.Manager.Eviction.{
  begin_eviction, commit_eviction, resume_bed, pillows_changed, finish_retirement,
}
use hostel.Manager.Persist.{prepare_snapshot, commit_watermark}
use hostel.Manager.Identity.{publish, claim_purge}

-- How far evictResidentBed has come. Each stage keeps `sequence`, the activity counter that it read
-- at its fence; while it uploads it also holds `persistMu`, with the watermark of its snapshot.
pub data Stage : Type 0 where
  fenced : ℕ → Stage
  uploading : ℕ → ℕ → Stage
  snapshotted : ℕ → Stage

abbrev pub is_uploading : Option Stage → Bool
is_uploading (some (uploading s w)) = true
is_uploading _ = false

pub record World : Type 0 where
  pub manager : Manager
  pub operations : List (ℕ × OperationKind)
  pub persisting : ℕ → Option ℕ
  pub evicting : ℕ → Option Stage

unfoldable pub assign {ℓ} : {A : Type ℓ} → (ℕ → A) → ℕ → A → ℕ → A
assign f a v x = if x == a then v else f x

pub data Step (w : World) : World → Type 0 where
  touches : (a now : ℕ) → Step w (record w { manager = touch_bed w.manager a now })
  begins :
      (a : ℕ) (kind : OperationKind) (timeout now : ℕ) (m : Manager)
      → begin_operation w.manager a kind timeout now ≡ ok m
      → Step w (record w { manager = m; operations = (a, kind) ∷ w.operations })
  finishes :
      (before after : List (ℕ × OperationKind)) (a : ℕ) (kind : OperationKind) (now : ℕ)
      → w.operations ≡ before ++ ((a, kind) ∷ after)
      → Step w (record w {
        manager = finish_operation w.manager a kind now;
        operations = before ++ after;
      })
  opens :
      (a : ℕ) (id : String) (now : ℕ) (m : Manager)
      → open_session w.manager a id now ≡ ok m
      → Step w (record w { manager = m })
  closes : (a : ℕ) (id : String) → Step w (record w { manager = close_session w.manager a id })
  renews :
      (a : ℕ) (expires_at : Option Timestamp) (now deadline : ℕ) (m : Manager)
      → renew_expiration w.manager a expires_at now ≡ ok (m, deadline)
      → Step w (record w { manager = m })
  prepares :
      (a watermark generation : ℕ) (m : Manager)
      → w.persisting a ≡ none
      → is_uploading (w.evicting a) ≡ false
      → prepare_snapshot w.manager a generation ≡ (m, watermark)
      → Step w (record w { manager = m; persisting = assign w.persisting a (some watermark) })
  commits :
      (a watermark : ℕ)
      → w.persisting a ≡ some watermark
      → Step w (record w {
        manager = commit_watermark w.manager a watermark;
        persisting = assign w.persisting a none;
      })
  gives_up : (a : ℕ) → Step w (record w { persisting = assign w.persisting a none })
  fences :
      (a : ℕ) (cutoff : Option ℕ) (now : ℕ) (m : Manager)
      → w.evicting a ≡ none
      → begin_eviction w.manager a cutoff now ≡ ok (true, m)
      → Step w (record w {
        manager = m;
        evicting = assign w.evicting a (some (fenced (w.manager.heap a).activity_seq));
      })
  uploads :
      (a sequence watermark generation : ℕ) (m : Manager)
      → w.evicting a ≡ some (fenced sequence)
      → w.persisting a ≡ none
      → prepare_snapshot w.manager a generation ≡ (m, watermark)
      → Step w (record w {
        manager = m;
        evicting = assign w.evicting a (some (uploading sequence watermark));
      })
  snapshots :
      (a sequence watermark : ℕ)
      → w.evicting a ≡ some (uploading sequence watermark)
      → Step w (record w {
        manager = commit_watermark w.manager a watermark;
        evicting = assign w.evicting a (some (snapshotted sequence));
      })
  evicts :
      (a sequence : ℕ) (m : Manager)
      → w.evicting a ≡ some (snapshotted sequence)
      → commit_eviction w.manager a sequence ≡ some m
      → Step w (record w { manager = m; evicting = assign w.evicting a none })
  resumes :
      (a now : ℕ)
      → Step w
          (record w { manager = resume_bed w.manager a now; evicting = assign w.evicting a none })
  changes :
      (a : ℕ) (ready : Bool) (now : ℕ)
      → Step w (record w { manager = pillows_changed w.manager a ready now })
  publishes :
      (a : ℕ) (wanted ready : Bool) (now : ℕ) (m : Manager)
      → publish w.manager a wanted ready now ≡ some m
      → Step w (record w { manager = m })
  purges : (id : String) → Step w (record w { manager = claim_purge w.manager id })
  retires : (a : ℕ) → Step w (record w { manager = finish_retirement w.manager a })
  samples :
      (d : AdmissionDecision) → Step w (record w { manager = record w.manager { admission = d } })
  shuts_down : Step w (record w { manager = record w.manager { closed = true } })

-- `n` steps lead from the first world to the last.
pub data Run (v : World) : ℕ → World → Type 0 where
  here : Run v 0 v
  next : {n : ℕ} {w x : World} → Run v n w → Step w x → Run v (suc n) x

pub Run-append : {v w x : World} {n k : ℕ} → Run v n w → Run w k x → (total : ℕ) × Run v total x
Run-append {n = n} first here = (n, first)
Run-append first (next rest step) =
    let (total, run) = Run-append first rest in (suc total, next run step)

-- A manager as NewManager leaves it: no Bed is resident, and no Bed of the heap has been used.
pub record IsFresh (w : World) : Type 0 where
  pub no_beds : w.manager.beds ≡ []
  pub none_resident : w.manager.resident_beds ≡ 0
  pub none_pinned : w.manager.pinned_beds ≡ 0
  pub no_operations : w.operations ≡ []
  pub no_snapshots : (a : ℕ) → w.persisting a ≡ none
  pub no_evictions : (a : ℕ) → w.evicting a ≡ none
  pub idle : (a : ℕ) → (w.manager.heap a).inflight ≡ 0
