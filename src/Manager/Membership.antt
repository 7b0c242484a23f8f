-- ===== src/Manager/Membership.antt =====
-- The counters of the manager where a Bed joins or leaves the map: publication, eviction, purge.
use hostel.Base.{
  ℕ, ◌+◌, ◌%◌, String, ◌≡◌, refl, Bool, true, false, Option, none, some, [], ◌∷◌, arith, string_eq,
  nat_eq, Bool-cases, Option-cases, inl, inr, length, ap, ◌∙◌, if◌then◌else◌,
}
use hostel.Base.GoMap.{
  GoMap, lookup, insert, delete, count, to_nat, insert-IsMap, delete-IsMap, count-insert_new,
  count-delete,
}
use hostel.Base.Result.{ok}
use hostel.Manager.State.{
  evicting, resident, LifecycleStatus, is_resident, Manager, ManagedBed, set_bed, is_current,
  pinned, keepalive, set_lifecycle, u64, add_one, sub_one,
}
use hostel.Manager.Eviction.{
  begin_eviction, commit_eviction, resume_bed, pillows_changed, finish_retirement,
}
use hostel.Manager.Identity.{publish, claim, claim_purge}
use hostel.Manager.Counts.{IsCounted, Keyed, pinned_at, update_self, set_bed-IsCounted}
use hostel.Manager.Accounting.{keepalive-name, keepalive-pinned}

length-count : (m : GoMap String ℕ) → length m ≡ count (λ _. true) m
unfolding count
length-count [] = refl
length-count ((j, c) ∷ m) = omega (arith, length-count m)

Keyed-delete :
    (h : ℕ → ManagedBed) (k : String) (m : GoMap String ℕ) → Keyed h m → Keyed h (delete k m)
unfolding delete
Keyed-delete h k [] v = tt
Keyed-delete h k ((j, c) ∷ m) v = ground (arith, Keyed-delete h k m v.1)

Keyed-insert :
    (h : ℕ → ManagedBed) (k : String) (a : ℕ) (m : GoMap String ℕ)
    → (h a).name ≡ k
    → Keyed h m
    → Keyed h (insert k a m)
unfolding insert
Keyed-insert h k a [] n v = (n, tt)
Keyed-insert h k a ((j, c) ∷ m) n v = ground (arith, Keyed-insert h k a m n v.1)

-- A Bed leaves the map, and both counters follow.
module _ (m : Manager) (k : String) (a : ℕ) (v : IsCounted m)
    (found : lookup k m.beds ≡ some a) where
  pub leave_resident : sub_one m.resident_beds ≡ length (delete k m.beds) % u64
  leave_resident = omega (
    arith,
    v.resident_ok,
    length-count m.beds,
    length-count (delete k m.beds),
    count-delete (λ _. true) k a m.beds v.unique found,
  )

  pub leave_count :
      count (pinned_at m.heap) (delete k m.beds) + to_nat (pinned (m.heap a))
      ≡ count (pinned_at m.heap) m.beds
  leave_count = count-delete (pinned_at m.heap) k a m.beds v.unique found

found_current :
    (m : Manager) (a : ℕ) → is_current m a ≡ true → lookup (m.heap a).name m.beds ≡ some a
unfolding is_current
found_current m a c = ground arith

-- What a committed eviction has checked, and the manager that it leaves.
pub commit_eviction-eq-some :
    (m : Manager) (a sequence : ℕ) (m' : Manager)
    → commit_eviction m a sequence ≡ some m'
    → (is_current m a ≡ true)
      × ((m.heap a).inflight ≡ 0)
      × ((m.heap a).activity_seq ≡ sequence)
      × (m' ≡ record m {
        retirements = insert (m.heap a).name a m.retirements;
        beds = delete (m.heap a).name m.beds;
        resident_beds = sub_one m.resident_beds;
      })
unfolding commit_eviction
commit_eviction-eq-some m a sequence m' e = ground arith

pub commit_eviction-IsCounted :
    (m : Manager) (a sequence : ℕ) (m' : Manager)
    → commit_eviction m a sequence ≡ some m'
    → pinned (m.heap a) ≡ false
    → IsCounted m
    → IsCounted m'
commit_eviction-IsCounted m a sequence m' e free v =
    let (c, _, _, after) = commit_eviction-eq-some m a sequence m' e in
    let found = found_current m a c in
    let k = (m.heap a).name in
    rw after (record {
      keyed = Keyed-delete m.heap k m.beds v.keyed;
      unique = delete-IsMap k m.beds v.unique;
      pinned_ok = omega (arith, v.pinned_ok, leave_count m k a v found, ap to_nat free);
      resident_ok = leave_resident m k a v found;
    })

-- The Bed that the admission fence leaves.
abbrev pub fenced_bed : ManagedBed → ℕ → ManagedBed
fenced_bed b now = set_lifecycle b (record b.lifecycle {
  phase = evicting;
  ready = false;
  reason = "StoppingPillows";
  updated_at = now;
})

pub begin_eviction-eq-ok :
    (m : Manager) (a : ℕ) (cutoff : Option ℕ) (now : ℕ) (m' : Manager)
    → begin_eviction m a cutoff now ≡ ok (true, m')
    → m' ≡ set_bed m a (fenced_bed (m.heap a) now)
unfolding begin_eviction
begin_eviction-eq-ok m a none now m' e = ground arith
begin_eviction-eq-ok m a (some t) now m' e = ground arith

set_lifecycle-pinned :
    (b : ManagedBed) (s : LifecycleStatus) → pinned (set_lifecycle b s) ≡ pinned b
unfolding set_lifecycle pinned
set_lifecycle-pinned b s = refl

set_lifecycle-name : (b : ManagedBed) (s : LifecycleStatus) → (set_lifecycle b s).name ≡ b.name
unfolding set_lifecycle
set_lifecycle-name b s = refl

pub begin_eviction-IsCounted :
    (m : Manager) (a : ℕ) (cutoff : Option ℕ) (now : ℕ) (m' : Manager)
    → begin_eviction m a cutoff now ≡ ok (true, m')
    → IsCounted m
    → IsCounted m'
begin_eviction-IsCounted m a cutoff now m' e v =
    rw (begin_eviction-eq-ok m a cutoff now m' e)
      (set_bed-IsCounted m a _ (set_lifecycle-name _ _) (set_lifecycle-pinned _ _) v)

pub resume_bed-IsCounted : (m : Manager) (a now : ℕ) → IsCounted m → IsCounted (resume_bed m a now)
unfolding resume_bed
resume_bed-IsCounted m a now v =
    set_bed-IsCounted m a _ (set_lifecycle-name _ _) (set_lifecycle-pinned _ _) v

pub pillows_changed-IsCounted :
    (m : Manager) (a : ℕ) (ready : Bool) (now : ℕ)
    → IsCounted m
    → IsCounted (pillows_changed m a ready now)
unfolding pillows_changed
pillows_changed-IsCounted m a ready now v =
    elim (Bool-cases (is_resident (m.heap a).lifecycle.phase)) [
      | inl c ↦ rw c (set_bed-IsCounted m a _ refl (unfold pinned in refl) v)
      | inr c ↦ rw c v
    ]

pub finish_retirement-IsCounted :
    (m : Manager) (a : ℕ) → IsCounted m → IsCounted (finish_retirement m a)
unfolding finish_retirement
finish_retirement-IsCounted m a v = ground arith

-- The Bed that publication leaves.
abbrev pub published_bed : ManagedBed → Bool → ℕ → ManagedBed
published_bed b ready now = set_lifecycle (keepalive b now) (record b.lifecycle {
  phase = resident;
  ready = ready;
  reason = if ready then "Initialized" else "RequiredPillowUnavailable";
  updated_at = now;
})

pub publish-eq-some :
    (m : Manager) (a : ℕ) (wanted ready : Bool) (now : ℕ) (m' : Manager)
    → publish m a wanted ready now ≡ some m'
    → let b = published_bed (m.heap a) ready now in
      (lookup (m.heap a).name m.beds ≡ none)
      × (m' ≡ record (set_bed m a b) {
        beds = insert (m.heap a).name a m.beds;
        resident_beds = add_one m.resident_beds;
        pinned_beds = if pinned b then add_one m.pinned_beds else m.pinned_beds;
      })
unfolding publish
publish-eq-some m a wanted ready now m' e = ground arith

more_if :
    (p : Bool) (x n n' : ℕ)
    → x ≡ n % u64
    → n' ≡ n + to_nat p
    → (if p then add_one x else x) ≡ n' % u64
more_if true x n n' h e = omega arith
more_if false x n n' h e = omega arith

less_if :
    (p : Bool) (x n n' : ℕ)
    → x ≡ n % u64
    → n' + to_nat p ≡ n
    → (if p then sub_one x else x) ≡ n' % u64
less_if true x n n' h e = omega arith
less_if false x n n' h e = omega arith

abbrev share_of : Manager → Bool → ℕ
share_of m p = count (pinned_at m.heap) m.beds + to_nat p

join-IsCounted :
    (m : Manager) (k : String) (a : ℕ) (p : Bool)
    → IsCounted m
    → lookup k m.beds ≡ none
    → (m.heap a).name ≡ k
    → pinned (m.heap a) ≡ p
    → IsCounted (record m {
      beds = insert k a m.beds;
      resident_beds = add_one m.resident_beds;
      pinned_beds = if p then add_one m.pinned_beds else m.pinned_beds;
    })
join-IsCounted m k a p v fresh named same =
    let grown = count-insert_new (pinned_at m.heap) k a m.beds fresh in
    record {
      keyed = Keyed-insert m.heap k a m.beds named v.keyed;
      unique = insert-IsMap k a m.beds v.unique;
      pinned_ok = more_if p _ _ _ v.pinned_ok (grown ∙ ap (share_of m) same);
      resident_ok = omega (
        arith,
        v.resident_ok,
        length-count m.beds,
        length-count (insert k a m.beds),
        count-insert_new (λ _. true) k a m.beds fresh,
      );
    }

leave-IsCounted :
    (m : Manager) (k : String) (a : ℕ) (p : Bool)
    → IsCounted m
    → lookup k m.beds ≡ some a
    → pinned (m.heap a) ≡ p
    → IsCounted (record m {
      retirements = insert k a m.retirements;
      beds = delete k m.beds;
      resident_beds = sub_one m.resident_beds;
      pinned_beds = if p then sub_one m.pinned_beds else m.pinned_beds;
    })
leave-IsCounted m k a p v found same = record {
  keyed = Keyed-delete m.heap k m.beds v.keyed;
  unique = delete-IsMap k m.beds v.unique;
  pinned_ok = less_if p _ _ _ v.pinned_ok (rw same at (leave_count m k a v found));
  resident_ok = leave_resident m k a v found;
}

pub set_bed_self : (m : Manager) (a : ℕ) (b : ManagedBed) → (set_bed m a b).heap a ≡ b
unfolding set_bed
set_bed_self m a b = update_self m.heap a b

pub publish-IsCounted :
    (m : Manager) (a : ℕ) (wanted ready : Bool) (now : ℕ) (m' : Manager)
    → publish m a wanted ready now ≡ some m'
    → IsCounted m
    → IsCounted m'
publish-IsCounted m a wanted ready now m' e v =
    let b = published_bed (m.heap a) ready now in
    let (fresh, after) = publish-eq-some m a wanted ready now m' e in
    let named : b.name ≡ (m.heap a).name = set_lifecycle-name _ _ ∙ keepalive-name (m.heap a) now in
    let same : pinned b ≡ pinned (m.heap a) =
      set_lifecycle-pinned _ _ ∙ keepalive-pinned (m.heap a) now in
    rw after (
      unfold set_bed in
      join-IsCounted (set_bed m a b) (m.heap a).name a (pinned b)
        (set_bed-IsCounted m a b named same v) fresh
        (ap (λ (t : ManagedBed). t.name) (set_bed_self m a b) ∙ named)
        (ap pinned (set_bed_self m a b)))

claim-IsCounted :
    (m : Manager) (id : String) (a : ℕ)
    → lookup id m.beds ≡ some a
    → IsCounted m
    → IsCounted (claim m id a)
unfolding claim set_bed
claim-IsCounted m id a found v =
    let b = record (m.heap a) { purging = true } in
    leave-IsCounted (set_bed m a b) id a (pinned b)
      (set_bed-IsCounted m a b refl (unfold pinned in refl) v) found
      (ap pinned (set_bed_self m a b))

pub claim_purge-IsCounted : (m : Manager) (id : String) → IsCounted m → IsCounted (claim_purge m id)
unfolding claim_purge
claim_purge-IsCounted m id v = elim (Option-cases (lookup id m.beds)) [
  | inl e ↦ rw (e, claim_purge) v
  | inr (a, e) ↦ rw (e, claim_purge) (claim-IsCounted m id a e v)
]
