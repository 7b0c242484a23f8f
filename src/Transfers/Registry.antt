-- ===== src/Transfers/Registry.antt =====
-- internal/bed/store/transfer.go: the registry of transfers, each call and each report of a transfer's
-- goroutine under `r.mu`. A run that is not finished stays under its key, so the key stands for the
-- goroutine's pointer to it.
use Prim.Native.String.{◌++◌ as str_append}
use hostel.Base.{
  ℕ, zero, suc, ◌+◌, String, Bool, true, false, not, ◌&&◌, ◌||◌, Option, none, some, [], ◌∷◌,
  if◌then◌else◌, ltb, leb, ◌==◌, nat_eq, string_eq,
}
use hostel.Base.GoMap.{GoMap, lookup, insert, delete, count}
use hostel.Base.Result.{Result, ok, err}
use hostel.Transfers.State.{
  TransferSync, omitted, copy, restic, other_sync, TransferEndpoint, TransferRequest, TransferState,
  running, succeeded, failed, canceled, Transfer, TransferRun, TransferRegistry, TransferError,
  unavailable, conflict, not_found, capacity, transfer_limit, transfer_history_limit,
  transfer_retention, validate_transfer,
}

-- bedID + "\x00" + req.ID
abbrev pub key_of : String → String → String
key_of bed_id id = str_append bed_id (str_append "\0" id)

abbrev pub is_running : TransferRun → Bool
is_running run = elim run.status.state [
  | running ↦ true
  | succeeded ↦ false
  | failed ↦ false
  | canceled ↦ false
]

abbrev pub sync_number : TransferSync → ℕ
sync_number omitted = 0
sync_number copy = 1
sync_number restic = 2
sync_number other_sync = 3

abbrev pub same_bool : Bool → Bool → Bool
same_bool true b = b
same_bool false b = not b

abbrev pub same_endpoint : TransferEndpoint → TransferEndpoint → Bool
same_endpoint a b = a.ref == b.ref && (a.kind == b.kind && (a.path == b.path && a.key == b.key))

-- Go's `==` on the struct.
unfoldable pub same_request : TransferRequest → TransferRequest → Bool
same_request a b =
    (a.parent_ref == b.parent_ref && sync_number a.sync == sync_number b.sync)
    && ((a.id == b.id && a.instance_id == b.instance_id)
        && ((same_endpoint a.source b.source && same_endpoint a.destination b.destination)
            && (same_bool a.overwrite b.overwrite && a.timeout == b.timeout)))

-- The run is kept in pruneLocked.
abbrev pub is_retained : ℕ → TransferRun → Bool
is_retained now run = elim run.status.finished_at [
  | none ↦ true
  | some at ↦ ltb now (at + transfer_retention)
]

-- pruneLocked
unfoldable pub prune_runs : ℕ → GoMap String TransferRun → GoMap String TransferRun
prune_runs now [] = []
prune_runs now ((key, run) ∷ rest) =
    let others = prune_runs now rest in if is_retained now run then (key, run) ∷ others else others

-- The scan of makeRoomLocked: the key and the time of the run that finished first.
unfoldable pub oldest : GoMap String TransferRun → Option (String × ℕ)
oldest [] = none
oldest ((key, run) ∷ rest) = elim run.status.finished_at [
  | none ↦ oldest rest
  | some finished ↦ elim (oldest rest) [
    | none ↦ some (key, finished)
    | some (other, at) ↦ if leb at finished then some (other, at) else some (key, finished)
  ]
]

-- The loop of makeRoomLocked, on fuel.
unfoldable pub make_room_loop : ℕ → GoMap String TransferRun → GoMap String TransferRun
make_room_loop zero runs = runs
make_room_loop (suc n) runs =
    if ltb (count (λ run. true) runs) transfer_history_limit
    then runs
    else elim (oldest runs) [ none ↦ runs | some (key, at) ↦ make_room_loop n (delete key runs) ]

-- makeRoomLocked; every round deletes a run, so there are no more rounds than runs.
unfoldable pub make_room : GoMap String TransferRun → GoMap String TransferRun
make_room runs = make_room_loop (count (λ run. true) runs) runs

abbrev pub new_run : String → TransferRequest → String → ℕ → TransferRun
new_run bed_id request instance_id now = record {
  request = request;
  status = record {
    ref = "";
    sync = request.sync;
    id = request.id;
    bed_id = bed_id;
    instance_id = instance_id;
    state = running;
    files = 0;
    bytes = 0;
    failure = "";
    started_at = now;
    finished_at = none;
  };
  has_cancel = true;
  is_stopped = false;
}

-- What the remote store, restic and the Bed answer to a new transfer.
pub record Answers : Type 0 where
  pub remote : Option TransferError
  pub restic_available : Option TransferError
  pub acquire : Option TransferError

abbrev is_restic : TransferSync → Bool
is_restic restic = true
is_restic omitted = false
is_restic copy = false
is_restic other_sync = false

-- The first error on the way to a new run.
abbrev pub admission_error : TransferSync → Answers → Option TransferError
admission_error sync answers = elim answers.remote [
  | some e ↦ some e
  | none ↦ elim (if is_restic sync then answers.restic_available else none) [
    | some e ↦ some e
    | none ↦ answers.acquire
  ]
]

-- StartTransfer for a key that has no run, after pruning.
unfoldable pub start_new :
    TransferRegistry
    → String
    → TransferRequest
    → Answers
    → ℕ
    → Result TransferError Transfer × TransferRegistry
start_new r bed_id request answers now =
    if leb transfer_limit (count is_running r.runs)
    then (err capacity, r)
    else elim (admission_error request.sync answers) [
      | some e ↦ (err e, r)
      | none ↦
          let run = new_run bed_id request r.instance_id now in
          (
            ok run.status,
            record r { runs = insert (key_of bed_id request.id) run (make_room r.runs) },
          )
    ]

-- StartTransfer with a request that is valid, from the lock on.
unfoldable pub start_valid :
    TransferRegistry
    → String
    → TransferRequest
    → Answers
    → ℕ
    → Result TransferError Transfer × TransferRegistry
start_valid r bed_id request answers now =
    let guarded = record request { instance_id = r.instance_id } in
    let pruned = record r { runs = prune_runs now r.runs } in
    if r.closed
    then (err unavailable, r)
    else if not (request.instance_id == "") && not (request.instance_id == r.instance_id)
    then (err conflict, r)
    else elim (lookup (key_of bed_id request.id) pruned.runs) [
      | some run ↦
          (if same_request run.request guarded then ok run.status else err conflict, pruned)
      | none ↦ start_new pruned bed_id guarded answers now
    ]

-- StartTransfer
unfoldable pub start_transfer :
    (String → Bool)
    → (String → Bool)
    → (String → Bool)
    → TransferRegistry
    → String
    → TransferRequest
    → Answers
    → ℕ
    → Result TransferError Transfer × TransferRegistry
start_transfer is_id is_ref is_key r bed_id request answers now =
    elim (validate_transfer is_id is_ref is_key request) [
      | err e ↦ (err e, r)
      | ok valid ↦ start_valid r bed_id valid answers now
    ]

abbrev pub at_key : TransferRegistry → String → (TransferRun → TransferRun) → TransferRegistry
at_key r key change = elim (lookup key r.runs) [
  | none ↦ r
  | some run ↦ record r { runs = insert key (change run) r.runs }
]

-- The callback `completed`.
unfoldable pub completed : ℕ → TransferRun → TransferRun
completed bytes run = record run {
  status = record run.status { files = suc run.status.files; bytes = run.status.bytes + bytes };
}

-- What a restic transfer from a Bed counts in the end.
unfoldable pub counted : ℕ → ℕ → TransferRun → TransferRun
counted files bytes run = record run { status = record run.status { files = files; bytes = bytes } }

-- How a transfer ends: its error's category, and whether it is a cancellation.
pub record Ending : Type 0 where
  pub ref : String
  pub failure : Option (String × Bool)

abbrev pub state_of : Option (String × Bool) → TransferState
state_of none = succeeded
state_of (some (message, is_canceled)) = if is_canceled then canceled else failed

abbrev message_of : String → Option (String × Bool) → String
message_of old none = old
message_of old (some (message, is_canceled)) = message

-- The end of the goroutine.
unfoldable pub finish_run : Ending → ℕ → TransferRun → TransferRun
finish_run ending now run = record run {
  status = record run.status {
    ref = ending.ref;
    state = state_of ending.failure;
    failure = message_of run.status.failure ending.failure;
    finished_at = some now;
  };
  is_stopped = true;
  has_cancel = false;
}

-- TransferStatus
unfoldable pub transfer_status :
    TransferRegistry → String → String → ℕ → Result TransferError Transfer × TransferRegistry
transfer_status r bed_id id now =
    let pruned = record r { runs = prune_runs now r.runs } in
    elim (lookup (key_of bed_id id) pruned.runs) [
      | none ↦ (err not_found, pruned)
      | some run ↦ (ok run.status, pruned)
    ]

-- `if run.cancel != nil { run.cancel() }`
abbrev pub stop_run : TransferRun → TransferRun
stop_run run = if run.has_cancel then record run { is_stopped = true } else run

-- CancelTransfer
unfoldable pub cancel_transfer :
    TransferRegistry
    → String
    → String
    → String
    → ℕ
    → Result TransferError Transfer × TransferRegistry
cancel_transfer r bed_id id instance_id now =
    let pruned = record r { runs = prune_runs now r.runs } in
    if not (instance_id == "") && not (instance_id == r.instance_id)
    then (err conflict, r)
    else elim (lookup (key_of bed_id id) pruned.runs) [
      | none ↦ (err not_found, pruned)
      | some run ↦ (ok run.status, at_key pruned (key_of bed_id id) stop_run)
    ]

-- The loop of StopTransfers.
unfoldable pub stop_runs : String → GoMap String TransferRun → GoMap String TransferRun
stop_runs bed_id [] = []
stop_runs bed_id ((key, run) ∷ rest) =
    (
      key,
      if is_running run && (bed_id == "" || run.status.bed_id == bed_id)
          then record run { is_stopped = true }
          else run,
    )
    ∷ stop_runs bed_id rest

-- StopTransfers up to its joins
unfoldable pub stop_transfers : TransferRegistry → String → TransferRegistry
unfolding stop_runs
stop_transfers r bed_id = record r {
  closed = r.closed || bed_id == "";
  runs = stop_runs bed_id r.runs;
}
