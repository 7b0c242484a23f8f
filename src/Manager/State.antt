-- ===== src/Manager/State.antt =====
-- internal/bed/manager/bed.go, lifecycle_state.go and the counters of manager.go.
-- A `*managedBed` is an address of the heap; `m.beds` and `m.retirements` hold addresses, so
-- Go's `current == b` compares addresses. A time is a number, 0 the zero `time.Time`. A duration is
-- a number too: the code tests durations by `<= 0` only, which 0 stands for.
use hostel.Base.{
  ℕ, ◌+◌, ◌-◌, ◌%◌, ◌^◌, String, ◌≡◌, Bool, true, false, not, ◌&&◌, ◌||◌, none, some, List,
  if◌then◌else◌, ltb, leb, HasEq, ◌==◌, nat_eq, string_eq, any, length, nat_beq, arith, ◌↔◌,
}
use hostel.Base.GoMap.{GoMap, lookup}

pub data Phase : Type 0 where
  initializing resident evicting purging dormant failed : Phase

abbrev pub is_resident : Phase → Bool
is_resident resident = true
is_resident _ = false

pub data OperationKind : Type 0 where
  exec file browser mcp checkpoint control pillow : OperationKind

-- Kinds are strings in the code; only their equality matters.
abbrev pub kind_code : OperationKind → ℕ
kind_code exec = 0
kind_code file = 1
kind_code browser = 2
kind_code mcp = 3
kind_code checkpoint = 4
kind_code control = 5
kind_code pillow = 6

pub kind_iff : (a b : OperationKind) → (nat_beq (kind_code a) (kind_code b) ≡ true) ↔ (a ≡ b)
kind_iff a b = grind arith

instance abbrev pub kind_eq : HasEq OperationKind
kind_eq = record { same = λ a b. nat_beq (kind_code a) (kind_code b); same_iff = kind_iff }

-- What the manager reads of a Bed's Spec: whether its StoreKind is SyncNoop, and the command of each
-- declared Pillow.
pub record Spec : Type 0 where
  pub store_is_noop : Bool
  pub commands : List (List String)

abbrev pub has_main_processes : Spec → Bool
has_main_processes s = any (λ c. ltb 0 (length c)) s.commands

pub record LifecycleStatus : Type 0 where
  pub keepalive_at : ℕ
  pub phase : Phase
  pub ready : Bool
  pub reason : String
  pub updated_at : ℕ

pub record ManagedBed : Type 0 where
  pub name : String
  pub spec : Spec
  pub lifecycle : LifecycleStatus
  pub last_active_at : ℕ
  pub idle_ttl : ℕ
  pub inflight : ℕ
  pub inflight_by_kind : GoMap OperationKind ℕ
  pub activity_seq : ℕ  -- uint64
  pub generation : ℕ
  pub persisted_at : ℕ
  pub purging : Bool
  pub sessions : List String  -- the IDs of the open sessions

-- The cached verdict of resource admission: the reason of a refusal.
pub record AdmissionDecision : Type 0 where
  pub allowed : Bool
  pub reason : String

pub record Manager : Type 0 where
  pub heap : ℕ → ManagedBed
  pub beds : GoMap String ℕ
  pub retirements : GoMap String ℕ
  pub closed : Bool
  pub resident_beds : ℕ  -- int64, as its bit pattern
  pub pinned_beds : ℕ  -- int64, as its bit pattern
  pub max_beds : ℕ
  pub max_pinned_beds : ℕ
  pub pressure_percent : ℕ
  pub admission : AdmissionDecision

pub data Error : Type 0 where
  bed_unavailable bed_purging bed_limit invalid_expiration : Error
  resource_pressure : String → Error

abbrev pub u64 : ℕ
u64 = 2 ^ 64

-- uint64 `x++`, and `Add(1)` and `Add(-1)` of an atomic.Int64
abbrev pub add_one : ℕ → ℕ
add_one x = (x + 1) % u64

abbrev pub sub_one : ℕ → ℕ
sub_one x = (x + (u64 - 1)) % u64

unfoldable pub update : (ℕ → ManagedBed) → ℕ → ManagedBed → ℕ → ManagedBed
update h a b x = if x == a then b else h x

-- A write through a `*managedBed`.
unfoldable pub set_bed : Manager → ℕ → ManagedBed → Manager
unfolding update
set_bed m a b = record m { heap = update m.heap a b }

-- `current, ok := m.beds[b.Name]; ok && current == b`
unfoldable pub is_current : Manager → ℕ → Bool
unfolding lookup
is_current m a = elim (lookup (m.heap a).name m.beds) [ none ↦ false | some c ↦ c == a ]

-- `a.After(b)`
abbrev pub after : ℕ → ℕ → Bool
after a b = ltb b a

pub data_synced : ManagedBed → Bool
data_synced b = b.spec.store_is_noop || not (after b.last_active_at b.persisted_at)

-- pinnedLocked
unfoldable pub pinned : ManagedBed → Bool
unfolding data_synced
pinned b = ltb 0 b.inflight || not (data_synced b)

-- adjustPinnedLocked
unfoldable pub adjust_pinned : Manager → ℕ → Bool → Manager
adjust_pinned m a was_pinned =
    let is_pinned = pinned (m.heap a) in
    if not was_pinned && is_pinned
    then record m { pinned_beds = add_one m.pinned_beds }
    else if was_pinned && not is_pinned
    then record m { pinned_beds = sub_one m.pinned_beds }
    else m

-- setLifecycle changes the phase and readiness and keeps the retention clock.
unfoldable pub set_lifecycle : ManagedBed → LifecycleStatus → ManagedBed
set_lifecycle b next = record b {
  lifecycle = record next { keepalive_at = b.lifecycle.keepalive_at };
}

-- keepaliveLocked
unfoldable pub keepalive : ManagedBed → ℕ → ManagedBed
keepalive b base =
    if after base b.lifecycle.keepalive_at
    then record b { lifecycle = record b.lifecycle { keepalive_at = base } }
    else b

-- 0 is the zero time: no deadline.
unfoldable pub retention_deadline : ℕ → ℕ → ℕ
retention_deadline base ttl = if leb ttl 0 || base == 0 then 0 else base + ttl

unfoldable pub retained_until : ManagedBed → ℕ
retained_until b = retention_deadline b.lifecycle.keepalive_at b.idle_ttl

-- touchLocked
unfoldable pub touch : ManagedBed → ℕ → ManagedBed
touch b now =
    keepalive (record b { last_active_at = now; activity_seq = add_one b.activity_seq }) now
