-- ===== src/Manager/Invariant.antt =====
-- What holds of every world that a run of critical sections reaches.
use hostel.Base.{
  ap, ℕ, suc, ◌+◌, ◌%◌, ◌≤◌, ◌<◌, ◌≡◌, refl, sym, true, false, Option, none, some, nat_beq_iff,
  arith, Bool-cases, inl, inr, ◌∙◌, ◌==◌, nat_eq, subst,
}
use hostel.Manager.State.{Manager, ManagedBed, u64, update}
use hostel.Manager.Persist.{commit_watermark, prepare_snapshot}
use hostel.Manager.Eviction.{begin_eviction}
use hostel.Base.Result.{ok}
use hostel.Manager.World.{World, Stage, fenced, uploading, snapshotted, is_uploading, assign}
use hostel.Manager.Counts.{update_self}
use hostel.Manager.Effects.{
  Effect, Effects, Effects-refl, commit_watermark-heap, prepare_snapshot-Effects,
  begin_eviction-Effects,
}

-- At most `n` activities were counted since the counter read `s`; if there was none, the last
-- activity is not after `x`.
abbrev pub Since : ℕ → ManagedBed → ℕ → ℕ → Type 0
Since n b s x =
    (k : ℕ) × (b.activity_seq % u64 ≡ (s + k) % u64) × (k ≤ n) × (k ≡ 0 → b.last_active_at ≤ x)

abbrev pub Held : ℕ → ManagedBed → ℕ → Option ℕ → Type 0
Held n b s none = Unit
Held n b s (some watermark) = Since n b s watermark

abbrev pub IsStaged : ℕ → ManagedBed → Option Stage → Option ℕ → Type 0
IsStaged n b none p = Unit
IsStaged n b (some (fenced s)) p = Since n b s b.last_active_at
IsStaged n b (some (uploading s w)) p = Since n b s w × (p ≡ none)
IsStaged n b (some (snapshotted s)) p = Since n b s b.persisted_at × Held n b s p

Since-Effect :
    (n : ℕ) (b b' : ManagedBed) (s x : ℕ) → Effect b b' → Since n b s x → Since (suc n) b' s x
Since-Effect n b b' s x (inl active) (k, e, le, h) =
    (suc k, omega arith, omega arith, λ z. absurd (omega arith))
Since-Effect n b b' s x (inr (q, l, p)) (k, e, le, h) =
    (k, omega arith, omega arith, λ z. omega (arith, h z))

Since-late : (n : ℕ) (b : ManagedBed) (s x : ℕ) → Since n b s x → Since n b s b.last_active_at
Since-late n b s x (k, e, le, h) = (k, e, le, λ z. omega arith)

Since-moved :
    (n : ℕ) (b b' : ManagedBed) (s : ℕ)
    → Effect b b'
    → Since n b s b.persisted_at
    → Since (suc n) b' s b'.persisted_at
Since-moved n b b' s (inl active) (k, e, le, h) =
    (suc k, omega arith, omega arith, λ z. absurd (omega arith))
Since-moved n b b' s (inr (q, l, p)) (k, e, le, h) =
    (k, omega arith, omega arith, λ z. omega (arith, h z))

Held-Effect :
    (n : ℕ) (b b' : ManagedBed) (s : ℕ) (p : Option ℕ)
    → Effect b b'
    → Held n b s p
    → Held (suc n) b' s p
Held-Effect n b b' s none e h = tt
Held-Effect n b b' s (some w) e h = Since-Effect n b b' s w e h

IsStaged-Effect :
    (n : ℕ) (b b' : ManagedBed) (st : Option Stage) (p : Option ℕ)
    → Effect b b'
    → IsStaged n b st p
    → IsStaged (suc n) b' st p
IsStaged-Effect n b b' none p e h = tt
IsStaged-Effect n b b' (some (fenced s)) p e h =
    Since-late (suc n) b' s b.last_active_at (Since-Effect n b b' s b.last_active_at e h)
IsStaged-Effect n b b' (some (uploading s w)) p e h = (Since-Effect n b b' s w e h.0, h.1)
IsStaged-Effect n b b' (some (snapshotted s)) p e h =
    (Since-moved n b b' s e h.0, Held-Effect n b b' s p e h.1)

abbrev pub AllStaged : ℕ → World → Type 0
AllStaged n w = (x : ℕ) → IsStaged n (w.manager.heap x) (w.evicting x) (w.persisting x)

pub quiet :
    (n : ℕ) (w : World) (m : Manager)
    → Effects w.manager m
    → AllStaged n w
    → AllStaged (suc n) (record w { manager = m })
quiet n w m e h x =
    IsStaged-Effect n (w.manager.heap x) (m.heap x) (w.evicting x) (w.persisting x) (e x) (h x)

assign_self {ℓ} : {A : Type ℓ} (f : ℕ → A) (a : ℕ) (v : A) → assign f a v a ≡ v
unfolding assign
assign_self f a v = ground arith

-- A reading of the three maps holds everywhere if it holds at the address written and elsewhere.
at_or_off : (P : ℕ → Type 0) (a : ℕ) → P a → ((x : ℕ) → (x == a) ≡ false → P x) → (x : ℕ) → P x
at_or_off P a here off x = elim (Bool-cases (x == a)) [
  | inl at ↦ subst P (sym ((nat_beq_iff x a).0 at)) here
  | inr away ↦ off x away
]

pub restage :
    (n : ℕ) (w : World) (m : Manager) (a : ℕ) (st : Option Stage)
    → Effects w.manager m
    → IsStaged (suc n) (m.heap a) st (w.persisting a)
    → AllStaged n w
    → AllStaged (suc n) (record w { manager = m; evicting = assign w.evicting a st })
unfolding assign
restage n w m a st e here h =
    at_or_off (λ x. IsStaged (suc n) (m.heap x) (assign w.evicting a st x) (w.persisting x)) a
      (rw (assign_self w.evicting a st) here) (λ x away. rw away (quiet n w m e h x))

pub rehold :
    (n : ℕ) (w : World) (m : Manager) (a : ℕ) (p : Option ℕ)
    → Effects w.manager m
    → IsStaged (suc n) (m.heap a) (w.evicting a) p
    → AllStaged n w
    → AllStaged (suc n) (record w { manager = m; persisting = assign w.persisting a p })
unfolding assign
rehold n w m a p e here h =
    at_or_off (λ x. IsStaged (suc n) (m.heap x) (w.evicting x) (assign w.persisting a p x)) a
      (rw (assign_self w.persisting a p) here) (λ x away. rw away (quiet n w m e h x))

-- The stages of a Bed at the critical sections of a snapshot.
IsStaged-drop :
    (n : ℕ) (b : ManagedBed) (st : Option Stage) (p : Option ℕ)
    → IsStaged n b st p
    → IsStaged n b st none
IsStaged-drop n b none p h = h
IsStaged-drop n b (some (fenced s)) p h = h
IsStaged-drop n b (some (uploading s w)) p h = (h.0, refl)
IsStaged-drop n b (some (snapshotted s)) p h = (h.0, tt)

IsStaged-hold :
    (n : ℕ) (b : ManagedBed) (st : Option Stage)
    → is_uploading st ≡ false
    → IsStaged n b st none
    → IsStaged n b st (some b.last_active_at)
IsStaged-hold n b none u h = h
IsStaged-hold n b (some (fenced s)) u h = h
IsStaged-hold n b (some (uploading s w)) u h = cc
IsStaged-hold n b (some (snapshotted s)) u h = (h.0, Since-late n b s b.persisted_at h.0)

IsStaged-commit :
    (n : ℕ) (b : ManagedBed) (st : Option Stage) (w : ℕ)
    → IsStaged n b st (some w)
    → IsStaged (suc n) (record b { persisted_at = w }) st none
IsStaged-commit n b none w h = tt
IsStaged-commit n b (some (fenced s)) w h =
    Since-Effect n b b s b.last_active_at (inr (refl, refl, refl)) h
IsStaged-commit n b (some (uploading s x)) w h = cc
IsStaged-commit n b (some (snapshotted s)) w h =
    (Since-Effect n b b s w (inr (refl, refl, refl)) h.1, tt)

watermark_off :
    (m : Manager) (a w x : ℕ) → (x == a) ≡ false → (commit_watermark m a w).heap x ≡ m.heap x
unfolding update
watermark_off m a w x away = commit_watermark-heap m a w x ∙ ground (arith, away)

watermark_at :
    (m : Manager) (a w : ℕ)
    → (commit_watermark m a w).heap a ≡ record (m.heap a) { persisted_at = w }
watermark_at m a w = commit_watermark-heap m a w a ∙ update_self m.heap a _

IsStaged-suc :
    (n : ℕ) (b : ManagedBed) (st : Option Stage) (p : Option ℕ)
    → IsStaged n b st p
    → IsStaged (suc n) b st p
IsStaged-suc n b st p h = IsStaged-Effect n b b st p (inr (refl, refl, refl)) h

-- The end of a snapshot by persistDirty or Checkpoint.
pub commits-staged :
    (n : ℕ) (w : World) (a watermark : ℕ)
    → w.persisting a ≡ some watermark
    → AllStaged n w
    → AllStaged (suc n) (record w {
      manager = commit_watermark w.manager a watermark;
      persisting = assign w.persisting a none;
    })
unfolding assign
commits-staged n w a watermark p h =
    at_or_off
      (λ x.
        IsStaged (suc n) ((commit_watermark w.manager a watermark).heap x) (w.evicting x)
          (assign w.persisting a none x))
      a
      (rw (assign_self w.persisting a none, watermark_at w.manager a watermark)
        (IsStaged-commit n (w.manager.heap a) (w.evicting a) watermark (rw p at (h a))))
      (λ x away.
        rw (away, watermark_off w.manager a watermark x away)
          (IsStaged-suc n (w.manager.heap x) (w.evicting x) (w.persisting x) (h x)))

-- The end of an eviction's own snapshot.
pub snapshots-staged :
    (n : ℕ) (w : World) (a s watermark : ℕ)
    → w.evicting a ≡ some (uploading s watermark)
    → AllStaged n w
    → AllStaged (suc n) (record w {
      manager = commit_watermark w.manager a watermark;
      evicting = assign w.evicting a (some (snapshotted s));
    })
unfolding assign
snapshots-staged n w a s watermark e h =
    let (since, free) : IsStaged n (w.manager.heap a) (some (uploading s watermark))
        (w.persisting a) =
      rw e at (h a) in
    at_or_off
      (λ x.
        IsStaged (suc n) ((commit_watermark w.manager a watermark).heap x)
          (assign w.evicting a (some (snapshotted s)) x) (w.persisting x))
      a
      (rw
        (assign_self w.evicting a (some (snapshotted s)), watermark_at w.manager a watermark, free)
        (
          Since-Effect n (w.manager.heap a) (w.manager.heap a) s watermark (inr (refl, refl, refl))
              since,
          tt,
        ))
      (λ x away.
        rw (away, watermark_off w.manager a watermark x away)
          (IsStaged-suc n (w.manager.heap x) (w.evicting x) (w.persisting x) (h x)))

-- Where the counter still reads `s`, no activity was counted, so the snapshot is of the latest data.
pub settled :
    (n : ℕ) (b : ManagedBed) (s : ℕ)
    → n < u64
    → b.activity_seq ≡ s
    → Since n b s b.persisted_at
    → b.last_active_at ≤ b.persisted_at
settled n b s small same (k, e, le, h) = h (omega arith)

watermark_latest :
    (m : Manager) (a generation watermark : ℕ) (m' : Manager)
    → prepare_snapshot m a generation ≡ (m', watermark)
    → watermark ≡ (m.heap a).last_active_at
unfolding prepare_snapshot
watermark_latest m a generation watermark m' e = sym (ap (λ (r : Manager × ℕ). r.1) e)

-- persistDirty or Checkpoint captures a watermark: the latest activity of the moment.
pub hold-staged :
    (n : ℕ) (w : World) (a watermark generation : ℕ) (m : Manager)
    → w.persisting a ≡ none
    → is_uploading (w.evicting a) ≡ false
    → prepare_snapshot w.manager a generation ≡ (m, watermark)
    → AllStaged n w
    → AllStaged
        (suc n)
        (record w { manager = m; persisting = assign w.persisting a (some watermark) })
hold-staged n w a watermark generation m p u e h =
    let seen = prepare_snapshot-Effects w.manager a generation (m, watermark) e in
    let b = w.manager.heap a in
    let staged : IsStaged n b (w.evicting a) none = rw p at (h a) in
    rehold n w m a (some watermark) seen
      (IsStaged-Effect n b (m.heap a) (w.evicting a) (some watermark) (seen a) (
        rw (watermark_latest w.manager a generation watermark m e)
          (IsStaged-hold n b (w.evicting a) u staged)))
      h

-- An eviction captures the watermark of its own snapshot.
pub upload-staged :
    (n : ℕ) (w : World) (a s watermark generation : ℕ) (m : Manager)
    → w.evicting a ≡ some (fenced s)
    → w.persisting a ≡ none
    → prepare_snapshot w.manager a generation ≡ (m, watermark)
    → AllStaged n w
    → AllStaged
        (suc n)
        (record w { manager = m; evicting = assign w.evicting a (some (uploading s watermark)) })
upload-staged n w a s watermark generation m st p e h =
    let seen = prepare_snapshot-Effects w.manager a generation (m, watermark) e in
    let b = w.manager.heap a in
    let since : IsStaged n b (some (fenced s)) (w.persisting a) = rw st at (h a) in
    restage n w m a (some (uploading s watermark)) seen
      (
        Since-Effect n b (m.heap a) s watermark (seen a)
            (rw (watermark_latest w.manager a generation watermark m e) since),
        p,
      )
      h

-- The fence reads the counter.
pub fence-staged :
    (n : ℕ) (w : World) (a : ℕ) (cutoff : Option ℕ) (now : ℕ) (m : Manager)
    → begin_eviction w.manager a cutoff now ≡ ok (true, m)
    → AllStaged n w
    → AllStaged (suc n) (record w {
      manager = m;
      evicting = assign w.evicting a (some (fenced (w.manager.heap a).activity_seq));
    })
fence-staged n w a cutoff now m e h =
    let seen = begin_eviction-Effects w.manager a cutoff now m e in
    let b = w.manager.heap a in
    let since : Since n b b.activity_seq b.last_active_at =
      (0, omega arith, omega arith, λ z. omega arith) in
    restage n w m a (some (fenced b.activity_seq)) seen
      (Since-late (suc n) (m.heap a) b.activity_seq b.last_active_at
        (Since-Effect n b (m.heap a) b.activity_seq b.last_active_at (seen a) since))
      h

pub drop-staged :
    (n : ℕ) (w : World) (a : ℕ)
    → AllStaged n w
    → AllStaged (suc n) (record w { persisting = assign w.persisting a none })
drop-staged n w a h =
    let b = w.manager.heap a in
    rehold n w w.manager a none (Effects-refl w.manager)
      (IsStaged-suc n b (w.evicting a) none
        (IsStaged-drop n b (w.evicting a) (w.persisting a) (h a)))
      h
