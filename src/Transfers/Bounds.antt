-- ===== src/Transfers/Bounds.antt =====
-- The limits of the registry of internal/bed/store/transfer.go in every order of its calls.
use hostel.Base.{
  ℕ, ◌≤◌, ◌<◌, ◌≡◌, refl, subst, String, Bool, true, false, not, ◌&&◌, none, some, [], ◌∷◌, leb,
  ◌==◌, string_eq, inl, inr, arith, Bool-cases, Option-cases,
}
use hostel.Base.GoMap.{
  lookup, insert, count, IsMap, to_nat, count-insert_new, count-insert_old, insert-IsMap,
}
use hostel.Base.Result.{Result-cases}
use hostel.Transfers.State.{
  TransferRequest, TransferRun, TransferRegistry, transfer_limit, transfer_history_limit,
  validate_transfer,
}
use hostel.Transfers.Registry.{
  is_running, is_retained, prune_runs, make_room, new_run, key_of, Answers, start_new, start_valid,
  start_transfer, completed, counted, finish_run, Ending, transfer_status, cancel_transfer,
  stop_transfers, stop_run, stop_runs, admission_error,
}
use hostel.Transfers.Room.{
  Runs, IsSettled, AllSettled, size, AllSettled-lookup, AllSettled-insert, make_room-HasRoom,
}

pub record IsBounded (runs : Runs) : Type 0 where
  pub active : count is_running runs ≤ transfer_limit
  pub records : size runs ≤ transfer_history_limit
  pub unique : IsMap runs
  pub settled : AllSettled runs

prune_runs_absent :
    (now : ℕ) (key : String) (runs : Runs)
    → lookup key runs ≡ none
    → lookup key (prune_runs now runs) ≡ none
unfolding prune_runs lookup
prune_runs_absent now key [] absent = refl
prune_runs_absent now key ((k, run) ∷ rest) absent = ground (arith, prune_runs_absent now key rest)

prune_runs-IsMap : (now : ℕ) (runs : Runs) → IsMap runs → IsMap (prune_runs now runs)
unfolding prune_runs
prune_runs-IsMap now [] unique = tt
prune_runs-IsMap now ((k, run) ∷ rest) unique = elim (Bool-cases (is_retained now run)) [
  | inl stays ↦ rw stays (prune_runs_absent now k rest unique.0, prune_runs-IsMap now rest unique.1)
  | inr goes ↦ rw goes (prune_runs-IsMap now rest unique.1)
]

prune_runs-AllSettled : (now : ℕ) (runs : Runs) → AllSettled runs → AllSettled (prune_runs now runs)
unfolding prune_runs
prune_runs-AllSettled now [] all = tt
prune_runs-AllSettled now ((k, run) ∷ rest) all = elim (Bool-cases (is_retained now run)) [
  | inl stays ↦ rw stays (all.0, prune_runs-AllSettled now rest all.1)
  | inr goes ↦ rw goes (prune_runs-AllSettled now rest all.1)
]

count-prune_runs :
    (now : ℕ) (p : TransferRun → Bool) (runs : Runs) → count p (prune_runs now runs) ≤ count p runs
unfolding prune_runs count
count-prune_runs now p [] = omega arith
count-prune_runs now p ((k, run) ∷ rest) = ground (arith, count-prune_runs now p rest)

pub prune_runs-IsBounded :
    (now : ℕ) (runs : Runs) → IsBounded runs → IsBounded (prune_runs now runs)
prune_runs-IsBounded now runs bound = record {
  active = omega (arith, count-prune_runs now is_running runs, bound.active);
  records = omega (arith, count-prune_runs now (λ run. true) runs, bound.records);
  unique = prune_runs-IsMap now runs bound.unique;
  settled = prune_runs-AllSettled now runs bound.settled;
}

-- A run is replaced by one that is settled and not newly running.
change-IsBounded :
    (key : String) (run changed : TransferRun) (runs : Runs)
    → lookup key runs ≡ some run
    → IsSettled changed
    → to_nat (is_running changed) ≤ to_nat (is_running run)
    → IsBounded runs
    → IsBounded (insert key changed runs)
change-IsBounded key run changed runs at settled calmer bound = record {
  active = omega (arith, count-insert_old is_running key changed run runs at, bound.active);
  records = omega (arith, count-insert_old (λ r. true) key changed run runs at, bound.records);
  unique = insert-IsMap key changed runs bound.unique;
  settled = AllSettled-insert key changed runs settled bound.settled;
}

start_new-IsBounded :
    (r : TransferRegistry) (bed_id : String) (request : TransferRequest) (answers : Answers)
    (now : ℕ)
    → lookup (key_of bed_id request.id) r.runs ≡ none
    → IsBounded r.runs
    → IsBounded (start_new r bed_id request answers now).1.runs
unfolding start_new
start_new-IsBounded r bed_id request answers now absent bound =
    elim (Bool-cases (leb transfer_limit (count is_running r.runs))) [
      | inl full ↦ rw full bound
      | inr free ↦ elim (Option-cases (admission_error request.sync answers)) [
        | inr (e, refused) ↦ rw (free, refused) bound
        | inl admitted ↦
            let has = make_room-HasRoom r.runs bound.unique bound.settled (ground arith) in
            rw (free, admitted)
              (let key = key_of bed_id request.id in
                let run = new_run bed_id request r.instance_id now in
                let gone = has.absent key absent in
                let more = count-insert_new is_running key run (make_room r.runs) gone in
                let grown = count-insert_new (λ x. true) key run (make_room r.runs) gone in
                let below : count is_running r.runs < transfer_limit = ground arith in
                record {
                  active = omega (arith, has.same_running);
                  records = omega (arith, has.room);
                  unique = insert-IsMap key run (make_room r.runs) has.unique;
                  settled = AllSettled-insert key run (make_room r.runs) refl has.settled;
                })
      ]
    ]

start_valid-IsBounded :
    (r : TransferRegistry) (bed_id : String) (request : TransferRequest) (answers : Answers)
    (now : ℕ)
    → IsBounded r.runs
    → IsBounded (start_valid r bed_id request answers now).1.runs
unfolding start_valid
start_valid-IsBounded r bed_id request answers now bound =
    let pruned = prune_runs-IsBounded now r.runs bound in
    elim (Bool-cases r.closed) [
      | inl shut ↦ rw shut bound
      | inr serving ↦
          elim (Bool-cases
            (not (request.instance_id == "") && not (request.instance_id == r.instance_id))) [
              | inl other ↦ rw (serving, other) bound
              | inr ours ↦
                  elim (Option-cases (lookup (key_of bed_id request.id) (prune_runs now r.runs))) [
                    | inr (run, known) ↦ rw (serving, ours, known) pruned
                    | inl absent ↦
                        rw (serving, ours, absent)
                          (start_new-IsBounded (record r { runs = prune_runs now r.runs }) bed_id
                            (record request { instance_id = r.instance_id }) answers now absent
                            pruned)
                  ]
            ]
    ]

pub start_transfer-IsBounded :
    (is_id is_ref is_key : String → Bool) (r : TransferRegistry) (bed_id : String)
    (request : TransferRequest) (answers : Answers) (now : ℕ)
    → IsBounded r.runs
    → IsBounded (start_transfer is_id is_ref is_key r bed_id request answers now).1.runs
unfolding start_transfer
start_transfer-IsBounded is_id is_ref is_key r bed_id request answers now bound =
    elim (Result-cases (validate_transfer is_id is_ref is_key request)) [
      | inr (e, refused) ↦
          let same : r ≡ (start_transfer is_id is_ref is_key r bed_id request answers now).1 =
            ground (arith, refused) in
          subst (λ x. IsBounded x.runs) same bound
      | inl (valid, fine) ↦
          let same : (start_valid r bed_id valid answers now).1
              ≡ (start_transfer is_id is_ref is_key r bed_id request answers now).1 =
            ground (arith, fine) in
          subst (λ x. IsBounded x.runs) same
            (start_valid-IsBounded r bed_id valid answers now bound)
    ]

-- The calls of the registry and the reports of the goroutines, which come while their run is running.
pub data Step (r : TransferRegistry) : TransferRegistry → Type 0 where
  starts :
      (is_id is_ref is_key : String → Bool) (bed_id : String) (request : TransferRequest)
      (answers : Answers) (now : ℕ)
      → Step r (start_transfer is_id is_ref is_key r bed_id request answers now).1
  copies :
      (key : String) (bytes : ℕ) (run : TransferRun)
      → lookup key r.runs ≡ some run
      → is_running run ≡ true
      → Step r (record r { runs = insert key (completed bytes run) r.runs })
  counts :
      (key : String) (files bytes : ℕ) (run : TransferRun)
      → lookup key r.runs ≡ some run
      → is_running run ≡ true
      → Step r (record r { runs = insert key (counted files bytes run) r.runs })
  finishes :
      (key : String) (ending : Ending) (now : ℕ) (run : TransferRun)
      → lookup key r.runs ≡ some run
      → is_running run ≡ true
      → Step r (record r { runs = insert key (finish_run ending now run) r.runs })
  reads : (bed_id id : String) (now : ℕ) → Step r (transfer_status r bed_id id now).1
  cancels :
      (bed_id id instance_id : String) (now : ℕ)
      → Step r (cancel_transfer r bed_id id instance_id now).1
  stops : (bed_id : String) → Step r (stop_transfers r bed_id)

pub data Run (r : TransferRegistry) : TransferRegistry → Type 0 where
  here : Run r r
  next : {a b : TransferRegistry} → Run r a → Step a b → Run r b

transfer_status-IsBounded :
    (r : TransferRegistry) (bed_id id : String) (now : ℕ)
    → IsBounded r.runs
    → IsBounded (transfer_status r bed_id id now).1.runs
unfolding transfer_status
transfer_status-IsBounded r bed_id id now bound =
    let same : prune_runs now r.runs ≡ (transfer_status r bed_id id now).1.runs = ground arith in
    subst IsBounded same (prune_runs-IsBounded now r.runs bound)

stop_run-IsSettled : (run : TransferRun) → IsSettled run → IsSettled (stop_run run)
stop_run-IsSettled run own = elim (Bool-cases run.has_cancel) [
  | inl can ↦ rw can own
  | inr past ↦ rw past own
]

stop_run_calm : (run : TransferRun) → to_nat (is_running (stop_run run)) ≤ to_nat (is_running run)
stop_run_calm run = elim (Bool-cases run.has_cancel) [
  | inl can ↦ rw can (omega arith)
  | inr past ↦ rw past (omega arith)
]

finish_run_done :
    (ending : Ending) (now : ℕ) (run : TransferRun) → is_running (finish_run ending now run) ≡ false
unfolding finish_run
finish_run_done ending now run = ground arith

cancel_transfer-IsBounded :
    (r : TransferRegistry) (bed_id id instance_id : String) (now : ℕ)
    → IsBounded r.runs
    → IsBounded (cancel_transfer r bed_id id instance_id now).1.runs
unfolding cancel_transfer
cancel_transfer-IsBounded r bed_id id instance_id now bound =
    let pruned = prune_runs-IsBounded now r.runs bound in
    elim (Bool-cases (not (instance_id == "") && not (instance_id == r.instance_id))) [
      | inl other ↦
          let same : r.runs ≡ (cancel_transfer r bed_id id instance_id now).1.runs =
            ground (arith, other) in
          subst IsBounded same bound
      | inr ours ↦ elim (Option-cases (lookup (key_of bed_id id) (prune_runs now r.runs))) [
        | inl absent ↦
            let same : prune_runs now r.runs
                ≡ (cancel_transfer r bed_id id instance_id now).1.runs =
              ground (arith, ours, absent) in
            subst IsBounded same pruned
        | inr (run, known) ↦
            let same : insert (key_of bed_id id) (stop_run run) (prune_runs now r.runs)
                ≡ (cancel_transfer r bed_id id instance_id now).1.runs =
              ground (arith, ours, known) in
            let own =
              AllSettled-lookup (key_of bed_id id) run (prune_runs now r.runs) pruned.settled
                known in
            subst IsBounded same (
              change-IsBounded (key_of bed_id id) run (stop_run run) (prune_runs now r.runs) known
                (stop_run-IsSettled run own) (stop_run_calm run) pruned)
      ]
    ]

stop_runs_absent :
    (bed_id key : String) (runs : Runs)
    → lookup key runs ≡ none
    → lookup key (stop_runs bed_id runs) ≡ none
unfolding stop_runs lookup
stop_runs_absent bed_id key [] absent = refl
stop_runs_absent bed_id key ((k, run) ∷ rest) absent =
    ground (arith, stop_runs_absent bed_id key rest)

stop_runs-IsBounded :
    (bed_id : String) (runs : Runs)
    → IsMap runs
    → AllSettled runs
    → (count is_running (stop_runs bed_id runs) ≡ count is_running runs)
      × (size (stop_runs bed_id runs) ≡ size runs)
      × IsMap (stop_runs bed_id runs)
      × AllSettled (stop_runs bed_id runs)
unfolding stop_runs count
stop_runs-IsBounded bed_id [] unique all = (refl, refl, tt, tt)
stop_runs-IsBounded bed_id ((k, run) ∷ rest) unique all =
    let (active, records, one, settled) = stop_runs-IsBounded bed_id rest unique.1 all.1 in
    (
      ground (arith, active),
      omega (arith, records),
      (stop_runs_absent bed_id k rest unique.0, one),
      (ground (arith, all.0), settled),
    )

Step-IsBounded : (r r' : TransferRegistry) → Step r r' → IsBounded r.runs → IsBounded r'.runs
unfolding completed counted stop_transfers finish_run
Step-IsBounded r r' (starts is_id is_ref is_key bed_id request answers now) bound =
    start_transfer-IsBounded is_id is_ref is_key r bed_id request answers now bound
Step-IsBounded r r' (copies key bytes run at busy) bound =
    change-IsBounded key run (completed bytes run) r.runs at
      (AllSettled-lookup key run r.runs bound.settled at) (omega arith) bound
Step-IsBounded r r' (counts key files bytes run at busy) bound =
    change-IsBounded key run (counted files bytes run) r.runs at
      (AllSettled-lookup key run r.runs bound.settled at) (omega arith) bound
Step-IsBounded r r' (finishes key ending now run at busy) bound =
    change-IsBounded key run (finish_run ending now run) r.runs at (finish_run_done ending now run)
      (ground (arith, finish_run_done ending now run)) bound
Step-IsBounded r r' (reads bed_id id now) bound = transfer_status-IsBounded r bed_id id now bound
Step-IsBounded r r' (cancels bed_id id instance_id now) bound =
    cancel_transfer-IsBounded r bed_id id instance_id now bound
Step-IsBounded r r' (stops bed_id) bound =
    let (active, records, unique, settled) =
      stop_runs-IsBounded bed_id r.runs bound.unique bound.settled in
    record {
      active = omega (arith, active, bound.active);
      records = omega (arith, records, bound.records);
      unique = unique;
      settled = settled;
    }

Run-IsBounded : (r r' : TransferRegistry) → Run r r' → IsBounded r.runs → IsBounded r'.runs
Run-IsBounded r r' here bound = bound
Run-IsBounded r r' (next {a = a} run step) bound =
    Step-IsBounded a r' step (Run-IsBounded r a run bound)

-- newTransferRegistry
abbrev pub new_registry : String → TransferRegistry
new_registry instance_id = record { instance_id = instance_id; runs = []; closed = false }

pub new_registry-IsBounded : (instance_id : String) → IsBounded (new_registry instance_id).runs
unfolding count
new_registry-IsBounded instance_id = record {
  active = omega arith;
  records = omega arith;
  unique = tt;
  settled = tt;
}

-- In every registry that any calls and reports reach, at most 4 transfers run and at most 1024 are
-- recorded, and a recorded transfer has a time of its end exactly if it does not run.
pub Run-bounds :
    (instance_id : String) (r : TransferRegistry) (key : String) (run : TransferRun)
    → Run (new_registry instance_id) r
    → lookup key r.runs ≡ some run
    → (count is_running r.runs ≤ transfer_limit)
      × (size r.runs ≤ transfer_history_limit)
      × IsSettled run
Run-bounds instance_id r key run steps at =
    let bound =
      Run-IsBounded (new_registry instance_id) r steps (new_registry-IsBounded instance_id) in
    (bound.active, bound.records, AllSettled-lookup key run r.runs bound.settled at)
