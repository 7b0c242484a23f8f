-- ===== src/Transfers/Retry.antt =====
-- A repeated StartTransfer of internal/bed/store/transfer.go.
use hostel.Base.{
  ℕ, ◌≡◌, refl, sym, ap, ◌∙◌, subst, String, Bool, true, false, not, ◌&&◌, some, [], ◌∷◌,
  if◌then◌else◌, leb, ◌==◌, nat_eq, string_eq, nat_beq_iff, inl, inr, arith, Bool-cases,
  Option-cases,
}
use hostel.Base.GoMap.{lookup, insert, count, lookup-insert}
use hostel.Base.Result.{Result, ok, Result-cases}
use hostel.Transfers.State.{
  TransferRequest, TransferEndpoint, TransferRun, Transfer, running, succeeded, failed, canceled,
  TransferRegistry, TransferError, transfer_limit, validate_transfer,
}
use hostel.Transfers.Registry.{
  is_running, is_retained, prune_runs, make_room, new_run, key_of, Answers, start_new, start_valid,
  start_transfer, admission_error, same_request, same_bool, same_endpoint, sync_number,
}
use hostel.Transfers.Room.{Runs, AllSettled, AllSettled-lookup}
use hostel.Transfers.Bounds.{IsBounded, start_transfer-IsBounded}

pub prune_runs_kept :
    (now : ℕ) (key : String) (run : TransferRun) (runs : Runs)
    → lookup key runs ≡ some run
    → is_retained now run ≡ true
    → lookup key (prune_runs now runs) ≡ some run
unfolding prune_runs lookup
prune_runs_kept now key run [] at stays = absurd (ground arith)
prune_runs_kept now key run ((k, first) ∷ rest) at stays = elim (Bool-cases (k == key)) [
  | inl here ↦
      let one : first ≡ run = ground (arith, here, at) in
      let kept : is_retained now first ≡ true = ap (is_retained now) one ∙ stays in
      rw kept
        (ap (λ b. if b then some first else lookup key (prune_runs now rest)) here ∙ ap some one)
  | inr off ↦
      let later =
        prune_runs_kept now key run rest
          (ap (λ b. if b then some first else lookup key rest) (sym off) ∙ at) stays in
      ground (arith, off, later)
]

same_endpoint_self : (e : TransferEndpoint) → same_endpoint e e ≡ true
same_endpoint_self e = ground (
  arith,
  string_eq.same_iff e.ref e.ref,
  string_eq.same_iff e.kind e.kind,
  string_eq.same_iff e.path e.path,
  string_eq.same_iff e.key e.key,
)

same_bool_self : (b : Bool) → same_bool b b ≡ true
same_bool_self true = refl
same_bool_self false = refl

same_request_self : (q : TransferRequest) → same_request q q ≡ true
unfolding same_request
same_request_self q = ground (
  arith,
  string_eq.same_iff q.parent_ref q.parent_ref,
  string_eq.same_iff q.id q.id,
  string_eq.same_iff q.instance_id q.instance_id,
  nat_beq_iff (sync_number q.sync) (sync_number q.sync),
  nat_beq_iff q.timeout q.timeout,
  same_endpoint_self q.source,
  same_endpoint_self q.destination,
  same_bool_self q.overwrite,
)

abbrev pub is_running_status : Transfer → Bool
is_running_status t = elim t.state [
  | running ↦ true
  | succeeded ↦ false
  | failed ↦ false
  | canceled ↦ false
]

-- What a start that succeeds has passed and leaves.
record Started (r : TransferRegistry) (bed_id : String) (q : TransferRequest) (t : Transfer)
    (r' : TransferRegistry) : Type 0 where
  serving : r'.closed ≡ false
  guard : (not (q.instance_id == "") && not (q.instance_id == r'.instance_id)) ≡ false
  run : TransferRun
  at : lookup (key_of bed_id q.id) r'.runs ≡ some run
  same : same_request run.request (record q { instance_id = r'.instance_id }) ≡ true
  status : run.status ≡ t

-- From what the code computes to what the caller was given.
given-Started :
    (r : TransferRegistry) (bed_id : String) (q : TransferRequest) (t given : Transfer)
    (r' reached : TransferRegistry)
    → ◌≡◌ {A = Result TransferError Transfer × TransferRegistry} (ok t, r') (ok given, reached)
    → Started r bed_id q t r'
    → Started r bed_id q given reached
given-Started r bed_id q t given r' reached same start =
    let told : ◌≡◌ {A = Result TransferError Transfer} (ok t) (ok given) = ap (λ p. p.0) same in
    let one : t ≡ given = ground (arith, told) in
    subst (λ x. Started r bed_id q given x) (ap (λ p. p.1) same)
      (subst (λ x. Started r bed_id q x r') one start)

start_new-Started :
    (r : TransferRegistry) (bed_id : String) (q : TransferRequest) (answers : Answers) (now : ℕ)
    (t : Transfer) (r' : TransferRegistry)
    → r.closed ≡ false
    → (not (q.instance_id == "") && not (q.instance_id == r.instance_id)) ≡ false
    → start_new r bed_id (record q { instance_id = r.instance_id }) answers now ≡ (ok t, r')
    → Started r bed_id q t r'
unfolding start_new
start_new-Started r bed_id q answers now t r' serving guard done =
    elim (Bool-cases (leb transfer_limit (count is_running r.runs))) [
      | inl full ↦ absurd (ground (arith, full))
      | inr free ↦ elim (Option-cases (admission_error q.sync answers)) [
        | inr (e, refused) ↦ absurd (ground (arith, free, refused))
        | inl admitted ↦
            let key = key_of bed_id q.id in
            let run = new_run bed_id (record q { instance_id = r.instance_id }) r.instance_id now in
            let reached : TransferRegistry = record r {
              runs = insert key run (make_room r.runs);
            } in
            let same : ◌≡◌ {A = Result TransferError Transfer × TransferRegistry}
                (ok run.status, reached) (ok t, r') =
              ground (arith, free, admitted, done) in
            given-Started r bed_id q run.status t reached r' same (record {
              serving = serving;
              guard = guard;
              run = run;
              at =
                  ground (
                    arith,
                    lookup-insert key key run (make_room r.runs),
                    string_eq.same_iff key key,
                  );
              same = same_request_self (record q { instance_id = r.instance_id });
              status = refl;
            })
      ]
    ]

start_valid-Started :
    (r : TransferRegistry) (bed_id : String) (q : TransferRequest) (answers : Answers) (now : ℕ)
    (t : Transfer) (r' : TransferRegistry)
    → start_valid r bed_id q answers now ≡ (ok t, r')
    → Started r bed_id q t r'
unfolding start_valid
start_valid-Started r bed_id q answers now t r' done = elim (Bool-cases r.closed) [
  | inl shut ↦ absurd (ground (arith, shut))
  | inr serving ↦
      elim (Bool-cases (not (q.instance_id == "") && not (q.instance_id == r.instance_id))) [
        | inl other ↦ absurd (ground (arith, serving, other))
        | inr guard ↦ elim (Option-cases (lookup (key_of bed_id q.id) (prune_runs now r.runs))) [
          | inl absent ↦
              let pruned : TransferRegistry = record r { runs = prune_runs now r.runs } in
              let went : start_new pruned bed_id (record q { instance_id = r.instance_id }) answers
                    now
                  ≡ (ok t, r') =
                ground (arith, serving, guard, absent) in
              let start = start_new-Started pruned bed_id q answers now t r' serving guard went in
              record {
                serving = start.serving;
                guard = start.guard;
                run = start.run;
                at = start.at;
                same = start.same;
                status = start.status;
              }
          | inr (run, known) ↦
              let pruned : TransferRegistry = record r { runs = prune_runs now r.runs } in
              elim (Bool-cases
                (same_request run.request (record q { instance_id = r.instance_id }))) [
                  | inr differs ↦ absurd (ground (arith, serving, guard, known, differs))
                  | inl agrees ↦
                      let same : ◌≡◌ {A = Result TransferError Transfer × TransferRegistry}
                          (ok run.status, pruned) (ok t, r') =
                        ground (arith, serving, guard, known, agrees, done) in
                      given-Started r bed_id q run.status t pruned r' same (record {
                        serving = serving;
                        guard = guard;
                        run = run;
                        at = known;
                        same = agrees;
                        status = refl;
                      })
                ]
        ]
      ]
]

-- The request again, while the run is there and not expired.
retry_valid :
    (r r' : TransferRegistry) (bed_id : String) (q : TransferRequest) (answers : Answers) (now : ℕ)
    (t : Transfer)
    → AllSettled r'.runs
    → Started r bed_id q t r'
    → is_running_status t ≡ true
    → start_valid r' bed_id q answers now ≡ (ok t, record r' { runs = prune_runs now r'.runs })
unfolding start_valid
retry_valid r r' bed_id q answers now t settled start busy =
    let own = AllSettled-lookup (key_of bed_id q.id) start.run r'.runs settled start.at in
    let kept =
      prune_runs_kept now (key_of bed_id q.id) start.run r'.runs start.at
        (ground (arith, own, start.status, busy)) in
    ground (arith, start.serving, start.guard, kept, start.same, start.status)

-- StartTransfer repeated with the same request, by whatever else it is met then, while the transfer
-- runs: it returns the same observation, and leaves the registry but for expired records.
pub start_transfer_twice :
    (is_id is_ref is_key : String → Bool) (r r' : TransferRegistry) (bed_id : String)
    (q : TransferRequest) (answers again : Answers) (now later : ℕ) (t : Transfer)
    → IsBounded r.runs
    → start_transfer is_id is_ref is_key r bed_id q answers now ≡ (ok t, r')
    → is_running_status t ≡ true
    → start_transfer is_id is_ref is_key r' bed_id q again later
      ≡ (ok t, record r' { runs = prune_runs later r'.runs })
unfolding start_transfer
start_transfer_twice is_id is_ref is_key r r' bed_id q answers again now later t bound done busy =
    elim (Result-cases (validate_transfer is_id is_ref is_key q)) [
      | inr (e, refused) ↦ absurd (ground (arith, refused))
      | inl (valid, fine) ↦
          let went : start_valid r bed_id valid answers now ≡ (ok t, r') = ground (arith, fine) in
          let start = start_valid-Started r bed_id valid answers now t r' went in
          let settled =
            subst (λ x. AllSettled x.runs) (ap (λ p. p.1) done)
              (start_transfer-IsBounded is_id is_ref is_key r bed_id q answers now bound).settled in
          let retried = retry_valid r r' bed_id valid again later t settled start busy in
          ground (arith, fine, retried)
    ]
