-- ===== src/Manager/Persist.antt =====
-- The critical sections of persistBed (internal/bed/manager/manager.go). `persistMu` is held from
-- the first to the last; the upload between them is outside the model.
use hostel.Base.{ℕ, Bool, true, false, not, ◌&&◌, if◌then◌else◌, ltb}
use hostel.Manager.State.{
  Manager, ManagedBed, Phase, evicting, set_bed, is_current, pinned, adjust_pinned, after,
}

-- "prepare_snapshot", its section under `b.mu`: the generation that the metadata file now holds is
-- noted, and the activity watermark is read.
unfoldable pub prepare_snapshot : Manager → ℕ → ℕ → Manager × ℕ
prepare_snapshot m a generation =
    let b = m.heap a in (set_bed m a (record b { generation = generation }), b.last_active_at)

-- "commit_watermark", after a successful upload
unfoldable pub commit_watermark : Manager → ℕ → ℕ → Manager
commit_watermark m a watermark =
    let b = m.heap a in
    let m' = set_bed m a (record b { persisted_at = watermark }) in
    if is_current m' a then adjust_pinned m' a (pinned b) else m'

abbrev pub is_evicting : Phase → Bool
is_evicting evicting = true
is_evicting _ = false

-- The test of persistDirty for a Bed with a durable store.
unfoldable pub is_dirty : ManagedBed → Bool
is_dirty b =
    after b.last_active_at b.persisted_at
    && not (ltb 0 b.inflight)
    && not (is_evicting b.lifecycle.phase)
    && not b.purging
