-- ===== src/Transfers/Tests.antt =====
-- One upload from a Bed, asked for twice.
use hostel.Base.{◌≤◌, ◌≡◌, refl, String, Bool, true, false, none, some, [], ◌∷◌, string_eq, arith}
use hostel.Base.GoMap.{lookup, insert, count}
use hostel.Base.Result.{ok}
use hostel.Transfers.State.{
  TransferRequest, omitted, copy, TransferRun, TransferRegistry, default_transfer_timeout,
  validate_transfer, validate_options, validate_endpoint, validate_refs, transfer_limit,
  transfer_history_limit,
}
use hostel.Transfers.Registry.{
  Answers, start_transfer, start_valid, start_new, prune_runs, make_room, make_room_loop, new_run,
  key_of, is_running,
}
use hostel.Transfers.Room.{size, IsSettled, HasRoom, make_room-HasRoom}
use hostel.Transfers.Bounds.{
  Run, here, next, starts, new_registry, new_registry-IsBounded, Run-bounds,
}
use hostel.Transfers.Retry.{start_transfer_twice}

abbrev any_text : String → Bool
any_text text = true

abbrev upload : TransferRequest
upload = record {
  parent_ref = "";
  sync = omitted;
  id = "t1";
  instance_id = "";
  source = record { ref = ""; kind = "bed"; path = "/a"; key = "" };
  destination = record { ref = ""; kind = "s3"; path = ""; key = "k" };
  overwrite = false;
  timeout = 0;
}

abbrev normal : TransferRequest
normal = record upload { sync = copy; instance_id = "i"; timeout = default_transfer_timeout }

abbrev free : Answers
free = record { remote = none; restic_available = none; acquire = none }

abbrev first_run : TransferRun
first_run = new_run "bed" normal "i" 5

abbrev one_run : TransferRegistry
one_run = record (new_registry "i") { runs = (key_of "bed" "t1", first_run) ∷ [] }

started :
    start_transfer any_text any_text any_text (new_registry "i") "bed" upload free 5
    ≡ (ok first_run.status, one_run)
unfolding start_transfer start_valid start_new validate_transfer validate_options validate_endpoint
    validate_refs lookup insert count prune_runs make_room make_room_loop
started = refl

start_transfer_twice_example :
    start_transfer any_text any_text any_text one_run "bed" upload free 9
    ≡ (ok first_run.status, record one_run { runs = prune_runs 9 one_run.runs })
start_transfer_twice_example =
    start_transfer_twice any_text any_text any_text (new_registry "i") one_run "bed" upload free
      free 5 9 first_run.status (new_registry-IsBounded "i") started refl

abbrev reached : TransferRegistry
reached = (start_transfer any_text any_text any_text (new_registry "i") "bed" upload free 5).1

uploading : Run (new_registry "i") reached
uploading = next here (starts any_text any_text any_text "bed" upload free 5)

upload_there : lookup (key_of "bed" "t1") reached.runs ≡ some first_run
unfolding start_transfer start_valid start_new validate_transfer validate_options validate_endpoint
    validate_refs lookup insert count prune_runs make_room make_room_loop
upload_there = refl

Run-bounds_example :
    (count is_running reached.runs ≤ transfer_limit)
    × (size reached.runs ≤ transfer_history_limit)
    × IsSettled first_run
Run-bounds_example = Run-bounds "i" reached (key_of "bed" "t1") first_run uploading upload_there

make_room-HasRoom_example : HasRoom one_run.runs (make_room one_run.runs)
make_room-HasRoom_example =
    make_room-HasRoom one_run.runs (unfold lookup in refl, tt) (refl, tt)
      (unfold count in omega arith)
