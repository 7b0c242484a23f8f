-- ===== src/Transfers/State.antt =====
-- internal/bed/store/transfer.go and sync/transfer.go: requests, their validation, and the records of
-- the registry. The two regular expressions and validTransferKey are parameters.
use hostel.Base.{
  ℕ, ◌*◌, ◌^◌, String, Bool, true, false, not, ◌&&◌, ◌||◌, Option, if◌then◌else◌, ltb, ◌==◌, nat_eq,
  string_eq,
}
use hostel.Base.GoMap.{GoMap}
use hostel.Base.Result.{Result, ok, err, ◌>>◌, return_if}

-- SyncKind, as far as a transfer reads it.
pub data TransferSync : Type 0 where
  omitted copy restic other_sync : TransferSync

pub record TransferEndpoint : Type 0 where
  pub ref : String
  pub kind : String
  pub path : String
  pub key : String

pub record TransferRequest : Type 0 where
  pub parent_ref : String
  pub sync : TransferSync
  pub id : String
  pub instance_id : String
  pub source : TransferEndpoint
  pub destination : TransferEndpoint
  pub overwrite : Bool
  pub timeout : ℕ

pub data TransferState : Type 0 where
  running succeeded failed canceled : TransferState

pub record Transfer : Type 0 where
  pub ref : String
  pub sync : TransferSync
  pub id : String
  pub bed_id : String
  pub instance_id : String
  pub state : TransferState
  pub files : ℕ
  pub bytes : ℕ
  pub failure : String
  pub started_at : ℕ
  pub finished_at : Option ℕ

-- The context's cancel function is nil once the run is done; `is_stopped` is whether it was called.
pub record TransferRun : Type 0 where
  pub request : TransferRequest
  pub status : Transfer
  pub has_cancel : Bool
  pub is_stopped : Bool

pub record TransferRegistry : Type 0 where
  pub instance_id : String
  pub runs : GoMap String TransferRun
  pub closed : Bool

pub data TransferError : Type 0 where
  invalid unavailable conflict not_found capacity : TransferError
  other_failure : String → TransferError

abbrev pub transfer_limit : ℕ
transfer_limit = 4

abbrev pub transfer_history_limit : ℕ
transfer_history_limit = 1024

-- Durations are in nanoseconds.
abbrev pub transfer_retention : ℕ
transfer_retention = 86400 * 10 ^ 9

abbrev pub default_transfer_timeout : ℕ
default_transfer_timeout = 300 * 10 ^ 9

abbrev pub max_transfer_timeout : ℕ
max_transfer_timeout = 7200 * 10 ^ 9

abbrev is_valid_sync : TransferSync → Bool
is_valid_sync copy = true
is_valid_sync restic = true
is_valid_sync omitted = false
is_valid_sync other_sync = false

abbrev pub normal_sync : TransferSync → TransferSync
normal_sync omitted = copy
normal_sync copy = copy
normal_sync restic = restic
normal_sync other_sync = other_sync

module _ (is_id is_ref is_key : String → Bool) where
  -- The switch over an endpoint's type.
  unfoldable pub validate_endpoint : TransferEndpoint → Result TransferError (Unit {0})
  validate_endpoint e =
      if e.kind == "bed"
      then return_if (e.path == "" || (not (e.key == "") || not (e.ref == ""))) invalid
      else if e.kind == "s3"
      then return_if (not (e.path == "") || not (is_key e.key)) invalid
      else err invalid

  -- The snapshot references of a copy, and of a restic transfer.
  unfoldable pub validate_refs : TransferSync → TransferRequest → Result TransferError (Unit {0})
  validate_refs restic r =
      return_if (not (r.destination.ref == "")) invalid
      >> (if r.source.kind == "s3"
          then return_if (not (is_ref r.source.ref) || not (r.parent_ref == "")) invalid
          else return_if (not (r.parent_ref == "") && not (is_ref r.parent_ref)) invalid)
  validate_refs sync r =
      return_if
        (not (r.source.ref == "") || (not (r.destination.ref == "") || not (r.parent_ref == "")))
        invalid

  -- ValidateTransfer
  unfoldable pub validate_options : TransferRequest → Result TransferError TransferRequest
  validate_options r =
      return_if (not (is_valid_sync (normal_sync r.sync))) invalid
      >> return_if (r.source.kind == r.destination.kind) invalid
      >> validate_endpoint r.source
      >> validate_endpoint r.destination
      >> validate_refs (normal_sync r.sync) r
      >> ok (record r { sync = normal_sync r.sync })

  abbrev pub timeout_of : ℕ → ℕ
  timeout_of timeout = if timeout == 0 then default_transfer_timeout else timeout

  -- validateTransfer
  unfoldable pub validate_transfer : TransferRequest → Result TransferError TransferRequest
  validate_transfer r = elim (validate_options r) [
    | err e ↦ err e
    | ok options ↦
        return_if (not (is_id r.id)) invalid
        >> return_if
            (ltb (timeout_of r.timeout) (10 ^ 6) || ltb max_transfer_timeout (timeout_of r.timeout))
            invalid
        >> ok (record options { timeout = timeout_of r.timeout })
  ]
