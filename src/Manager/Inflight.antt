-- ===== src/Manager/Inflight.antt =====
-- `inflight` of a Bed against the outstanding `finish` functions of BeginOperation.
use hostel.Base.{
  ℕ, ◌+◌, ◌-◌, ◌≡◌, refl, sym, String, Bool, true, List, [], ◌∷◌, ◌++◌, arith, inl, inr, ap, ◌∙◌,
  ◌==◌, nat_eq, string_eq, if◌then◌else◌, Bool-cases, nat_beq_iff, Option-cases,
}
use hostel.Base.GoMap.{lookup, to_nat}
use hostel.Base.Result.{ok}
use hostel.Manager.State.{
  Manager, ManagedBed, OperationKind, set_bed, is_current, pinned, adjust_pinned, keepalive, touch,
  set_lifecycle, update, is_resident,
}
use hostel.Manager.Operation.{
  touch_bed, begin_operation, begun, finish_operation, ended, open_session, close_session, remove,
  clamp_timeout,
}
use hostel.Manager.Eviction.{resume_bed, pillows_changed, finish_retirement}
use hostel.Manager.Persist.{prepare_snapshot, commit_watermark}
use hostel.Manager.Identity.{claim, claim_purge}
use hostel.Manager.World.{
  World, Step, touches, begins, finishes, opens, closes, renews, prepares, commits, gives_up,
  fences, uploads, snapshots, evicts, resumes, changes, publishes, purges, retires, samples,
  shuts_down, Run, here, next, IsFresh,
}
use hostel.Manager.Accounting.{
  begin_operation-eq-ok, open_session-eq-ok, renew_expiration-eq-ok, opened,
}
use hostel.Manager.Membership.{
  commit_eviction-eq-some, begin_eviction-eq-ok, publish-eq-some, fenced_bed, published_bed,
}
use hostel.Manager.Effects.{adjust_pinned-heap, commit_watermark-heap}

-- The outstanding operations of one Bed.
abbrev pub outstanding : ℕ → List (ℕ × OperationKind) → ℕ
outstanding a [] = 0
outstanding a ((b, k) ∷ ops) = to_nat (b == a) + outstanding a ops

pub outstanding-split :
    (a b : ℕ) (k : OperationKind) (xs ys : List (ℕ × OperationKind))
    → outstanding a (xs ++ ((b, k) ∷ ys)) ≡ to_nat (b == a) + outstanding a (xs ++ ys)
outstanding-split a b k [] ys = refl
outstanding-split a b k ((c, j) ∷ xs) ys = omega (arith, outstanding-split a b k xs ys)

abbrev SameInflight : Manager → Manager → Type 0
SameInflight m m' = (x : ℕ) → (m'.heap x).inflight ≡ (m.heap x).inflight

set_bed-inflight :
    (m : Manager) (a : ℕ) (b : ManagedBed)
    → b.inflight ≡ (m.heap a).inflight
    → SameInflight m (set_bed m a b)
unfolding set_bed update
set_bed-inflight m a b e x = elim (Bool-cases (x == a)) [
  | inl at ↦ ground (arith, at, e)
  | inr off ↦ ground (arith, off)
]

set_bed-inflight_at :
    (m : Manager) (a x : ℕ) (b : ManagedBed)
    → ((set_bed m a b).heap x).inflight ≡ (if x == a then b.inflight else (m.heap x).inflight)
unfolding set_bed update
set_bed-inflight_at m a x b = ground arith

adjusted-inflight : (m : Manager) (a : ℕ) (was : Bool) → SameInflight m (adjust_pinned m a was)
adjusted-inflight m a was x = rw (adjust_pinned-heap m a was)

keepalive-inflight : (b : ManagedBed) (t : ℕ) → (keepalive b t).inflight ≡ b.inflight
unfolding keepalive
keepalive-inflight b t = ground arith

touch-inflight : (b : ManagedBed) (t : ℕ) → (touch b t).inflight ≡ b.inflight
unfolding touch keepalive
touch-inflight b t = ground arith

ended-inflight :
    (b : ManagedBed) (k : OperationKind) (t : ℕ) → (ended b k t).inflight ≡ b.inflight - 1
unfolding ended keepalive
ended-inflight b k t = ground arith

touch_bed-inflight : (m : Manager) (a now : ℕ) → SameInflight m (touch_bed m a now)
unfolding touch_bed
touch_bed-inflight m a now x = elim (Bool-cases (is_current m a)) [
  | inl c ↦ rw c (
      adjusted-inflight (set_bed m a (touch (m.heap a) now)) a (pinned (m.heap a)) x
      ∙ set_bed-inflight m a _ (touch-inflight _ _) x)
  | inr c ↦ rw c
]

begin_operation-inflight :
    (m : Manager) (a : ℕ) (kind : OperationKind) (timeout now : ℕ) (m' : Manager)
    → begin_operation m a kind timeout now ≡ ok m'
    → (x : ℕ) → (m'.heap x).inflight ≡ to_nat (a == x) + (m.heap x).inflight
begin_operation-inflight m a kind timeout now m' e x =
    let n = adjust_pinned (set_bed m a (begun (m.heap a) kind now)) a (pinned (m.heap a)) in
    let first =
      adjusted-inflight (set_bed m a (begun (m.heap a) kind now)) a (pinned (m.heap a)) x in
    let last =
      set_bed-inflight n a (keepalive (n.heap a) (now + clamp_timeout timeout))
        (keepalive-inflight (n.heap a) (now + clamp_timeout timeout)) x in
    rw ((begin_operation-eq-ok m a kind timeout now m' e).2) (
      unfold begun in
      ground (
        arith,
        first,
        last,
        set_bed-inflight_at m a x (begun (m.heap a) kind now),
        nat_beq_iff x a,
        nat_beq_iff a x,
      ))

finish_operation-inflight :
    (m : Manager) (a : ℕ) (kind : OperationKind) (now x : ℕ)
    → ((finish_operation m a kind now).heap x).inflight ≡ (m.heap x).inflight - to_nat (a == x)
unfolding finish_operation
finish_operation-inflight m a kind now x =
    let b = ended (m.heap a) kind now in
    let at = set_bed-inflight_at m a x b in
    let less = ended-inflight (m.heap a) kind now in
    elim (Bool-cases (is_current (set_bed m a b) a)) [
      | inl c ↦ rw c (
          adjusted-inflight (set_bed m a b) a (pinned (m.heap a)) x
          ∙ ground (arith, at, less, nat_beq_iff x a, nat_beq_iff a x))
      | inr c ↦ rw c (ground (arith, at, less, nat_beq_iff x a, nat_beq_iff a x))
    ]

open_session-inflight :
    (m : Manager) (a : ℕ) (id : String) (now : ℕ) (m' : Manager)
    → open_session m a id now ≡ ok m'
    → SameInflight m m'
open_session-inflight m a id now m' e x = rw ((open_session-eq-ok m a id now m' e).1) (
    adjusted-inflight (set_bed m a (opened (m.heap a) id now)) a (pinned (m.heap a)) x
    ∙ set_bed-inflight m a (opened (m.heap a) id now) (touch-inflight (m.heap a) now) x)

commit_watermark-inflight : (m : Manager) (a u : ℕ) → SameInflight m (commit_watermark m a u)
unfolding update
commit_watermark-inflight m a u x = elim (Bool-cases (x == a)) [
  | inl at ↦
      ap (λ (b : ManagedBed). b.inflight) (commit_watermark-heap m a u x)
      ∙ ground (arith, at, nat_beq_iff x a)
  | inr off ↦ rw (commit_watermark-heap m a u x) (ground (arith, off))
]

resume_bed-inflight : (m : Manager) (a now : ℕ) → SameInflight m (resume_bed m a now)
unfolding resume_bed set_lifecycle
resume_bed-inflight m a now = set_bed-inflight m a _ refl

prepare_snapshot-inflight :
    (m : Manager) (a generation : ℕ) (r : Manager × ℕ)
    → prepare_snapshot m a generation ≡ r
    → SameInflight m r.0
unfolding prepare_snapshot
prepare_snapshot-inflight m a generation r e =
    rw (← e) (set_bed-inflight m a (record (m.heap a) { generation = generation }) refl)

pillows_changed-inflight :
    (m : Manager) (a : ℕ) (ready : Bool) (now : ℕ) → SameInflight m (pillows_changed m a ready now)
unfolding pillows_changed
pillows_changed-inflight m a ready now x =
    elim (Bool-cases (is_resident (m.heap a).lifecycle.phase)) [
      | inl c ↦ rw c (set_bed-inflight m a _ refl x)
      | inr c ↦ rw c
    ]

claim_purge-inflight : (m : Manager) (id : String) → SameInflight m (claim_purge m id)
unfolding claim_purge claim
claim_purge-inflight m id x = elim (Option-cases (lookup id m.beds)) [
  | inl e ↦ rw (e, claim_purge)
  | inr (a, e) ↦
      rw (e, claim_purge) (set_bed-inflight m a (record (m.heap a) { purging = true }) refl x)
]

abbrev Outstanding : World → Type 0
Outstanding w = (x : ℕ) → (w.manager.heap x).inflight ≡ outstanding x w.operations

same :
    (w : World) (m : Manager)
    → SameInflight w.manager m
    → Outstanding w
    → Outstanding (record w { manager = m })
same w m s h x = s x ∙ h x

Step-Outstanding : (w x : World) → Step w x → Outstanding w → Outstanding x
Step-Outstanding w x (touches a now) h =
    same w (touch_bed w.manager a now) (touch_bed-inflight w.manager a now) h
Step-Outstanding w x (begins a k t now m e) h = λ y.
    begin_operation-inflight w.manager a k t now m e y ∙ ap (λ (n : ℕ). to_nat (a == y) + n) (h y)
Step-Outstanding w x (finishes p q a k now e) h = λ y.
    let all : (w.manager.heap y).inflight ≡ to_nat (a == y) + outstanding y (p ++ q) =
      h y ∙ ap (outstanding y) e ∙ outstanding-split y a k p q in
    omega (arith, finish_operation-inflight w.manager a k now y, all)
Step-Outstanding w x (opens a id now m e) h =
    same w m (open_session-inflight w.manager a id now m e) h
Step-Outstanding w x (closes a id) h =
    same w (close_session w.manager a id)
      (unfold close_session in
        set_bed-inflight w.manager a
          (record (w.manager.heap a) { sessions = remove id (w.manager.heap a).sessions }) refl)
      h
Step-Outstanding w x (renews a t now d m e) h =
    same w m
      (λ y.
        rw ((renew_expiration-eq-ok w.manager a t now (m, d) e).1)
          (set_bed-inflight w.manager a _ (keepalive-inflight _ _) y))
      h
Step-Outstanding w x (prepares a u g m p q e) h =
    same w m (prepare_snapshot-inflight w.manager a g (m, u) e) h
Step-Outstanding w x (commits a u p) h =
    same w (commit_watermark w.manager a u) (commit_watermark-inflight w.manager a u) h
Step-Outstanding w x (gives_up a) h = h
Step-Outstanding w x (fences a c now m p e) h =
    same w m
      (λ y. rw (begin_eviction-eq-ok w.manager a c now m e) (
        set_bed-inflight w.manager a (fenced_bed (w.manager.heap a) now)
          (unfold set_lifecycle in refl) y))
      h
Step-Outstanding w x (uploads a s u g m p q e) h =
    same w m (prepare_snapshot-inflight w.manager a g (m, u) e) h
Step-Outstanding w x (snapshots a s u p) h =
    same w (commit_watermark w.manager a u) (commit_watermark-inflight w.manager a u) h
Step-Outstanding w x (evicts a s m p e) h =
    same w m (λ y. rw ((commit_eviction-eq-some w.manager a s m e).3)) h
Step-Outstanding w x (resumes a now) h =
    same w (resume_bed w.manager a now) (resume_bed-inflight w.manager a now) h
Step-Outstanding w x (changes a r now) h =
    same w (pillows_changed w.manager a r now) (pillows_changed-inflight w.manager a r now) h
Step-Outstanding w x (publishes a q r now m e) h =
    same w m
      (λ y. rw ((publish-eq-some w.manager a q r now m e).1) (
        set_bed-inflight w.manager a (published_bed (w.manager.heap a) r now)
          (unfold set_lifecycle in keepalive-inflight (w.manager.heap a) now) y))
      h
Step-Outstanding w x (purges id) h =
    same w (claim_purge w.manager id) (claim_purge-inflight w.manager id) h
Step-Outstanding w x (retires a) h =
    same w (finish_retirement w.manager a) (λ y. unfold finish_retirement in ground arith) h
Step-Outstanding w x (samples d) h = h
Step-Outstanding w x shuts_down h = h

-- In every world that any interleaving of critical sections reaches from a fresh manager, `inflight`
-- of every Bed is the number of its operations that have begun and not finished.
pub Run-inflight :
    {v w : World} {n : ℕ} (a : ℕ)
    → IsFresh v
    → Run v n w
    → (w.manager.heap a).inflight ≡ outstanding a w.operations
Run-inflight {v} a f here = f.idle a ∙ ap (outstanding a) (sym f.no_operations)
Run-inflight a f (next {w = w} {x = x} r s) = Step-Outstanding w x s (λ y. Run-inflight y f r) a
