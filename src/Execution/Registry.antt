-- ===== src/Execution/Registry.antt =====
-- internal/bed/manager/execution.go and execution_log.go: the registry of executions, each call under
-- `r.mu`. The clock is read once for each execution that is looked at, and os.Remove is a parameter.
use hostel.Base.{
  ℕ, suc, ◌+◌, ◌*◌, ◌^◌, String, Bool, true, false, not, ◌&&◌, ◌||◌, Option, none, some, List, [],
  ◌∷◌, ◌++◌, if◌then◌else◌, ltb, leb, ◌==◌, string_eq,
}
use hostel.Base.GoMap.{GoMap, lookup, insert, delete}
use hostel.Execution.State.{
  Execution, ExecutionMode, foreground, background, session, main, TerminationCause, history_limit,
}
use hostel.Execution.Output.{release_output}
use hostel.Execution.Terminal.{is_some, request_stop, close_stop_done}

pub record ExecutionRegistry : Type 0 where
  pub executions : GoMap String Execution
  pub order : List String

abbrev pub is_background : ExecutionMode → Bool
is_background background = true
is_background foreground = false
is_background session = false
is_background main = false

abbrev is_main : ExecutionMode → Bool
is_main main = true
is_main foreground = false
is_main background = false
is_main session = false

-- The head of track and trackSession.
unfoldable pub track : ExecutionRegistry → Execution → ExecutionRegistry
track r e = record { executions = insert e.id e r.executions; order = r.order ++ (e.id ∷ []) }

-- Get
abbrev pub get : ExecutionRegistry → String → Option Execution
get r id = lookup id r.executions

-- RequestStop with its signal, the answer dropped.
unfoldable pub stop_now : Execution → TerminationCause → Execution
stop_now e cause = elim (request_stop e cause) [
  | none ↦ e
  | some stopped ↦ elim (close_stop_done stopped) [ none ↦ stopped | some signalled ↦ signalled ]
]

-- The section of killBed under `r.mu`: the executions of the Bed, by their ids.
unfoldable pub bed_executions : String → GoMap String Execution → List String
bed_executions bed_id [] = []
bed_executions bed_id ((id, e) ∷ rest) =
    let others = bed_executions bed_id rest in
    if e.bed_id == bed_id && not (is_main e.mode) then id ∷ others else others

-- The loop of killBed after it; each turn is a section of its own, and an execution that left the
-- registry in between is no longer part of it.
unfoldable pub stop_each :
    TerminationCause → List String → GoMap String Execution → GoMap String Execution
stop_each cause [] m = m
stop_each cause (id ∷ rest) m =
    stop_each cause rest (elim (lookup id m) [ none ↦ m | some e ↦ insert id (stop_now e cause) m ])

-- killBed where no other section comes between its own.
unfoldable pub kill_bed : ExecutionRegistry → String → TerminationCause → ExecutionRegistry
kill_bed r bed_id cause = record r {
  executions = stop_each cause (bed_executions bed_id r.executions) r.executions;
}

-- What os.Remove returns.
pub data RemoveResult : Type 0 where
  remove_done not_exist remove_failed : RemoveResult

-- removeLog: whether it returns nil.
unfoldable pub remove_log : (String → RemoveResult) → Execution → Bool
remove_log remove e = elim e.log [
  | none ↦ true
  | some log ↦
      if log.is_writing
      then false
      else elim (remove log.path) [ remove_done ↦ true | not_exist ↦ true | remove_failed ↦ false ]
]

-- 24 hours in nanoseconds.
abbrev pub day : ℕ
day = 86400 * 10 ^ 9

abbrev pub is_expired : ℕ → Execution → Bool
is_expired now e = elim e.finished_at [ none ↦ false | some at ↦ leb (at + day) now ]

-- The variables of prune's loop; `kept` stands in the order that it has after slices.Reverse.
pub record Pruning : Type 0 where
  pub native : ℕ
  pub hot : ℕ
  pub executions : GoMap String Execution
  pub kept : List String

module _ (now : String → ℕ) (remove : String → RemoveResult) where
  abbrev pub is_native : String → Execution → Bool
  is_native id e = not (is_background e.mode) && not (is_expired (now id) e)

  -- An execution that stays, with its cache or without.
  abbrev pub keep : String → Execution → Pruning → Pruning
  keep id e s = record s {
    hot = suc s.hot;
    executions =
        if ltb history_limit (suc s.hot)
        then insert id (release_output e) s.executions
        else s.executions;
    kept = id ∷ s.kept;
  }

  unfoldable pub prune_finished : String → Execution → Pruning → Pruning
  prune_finished id e s =
      let native = if is_native id e then suc s.native else s.native in
      let evict =
        is_expired (now id) e || (not (is_background e.mode) && ltb history_limit native) in
      if evict && remove_log remove e
      then record s { native = native; executions = delete id s.executions }
      else keep id e (record s { native = native })

  -- The body of prune's loop.
  unfoldable pub prune_one : String → Pruning → Pruning
  prune_one id s = elim (lookup id s.executions) [
    | none ↦ s
    | some e ↦ if is_some e.result then prune_finished id e s else record s { kept = id ∷ s.kept }
  ]

  -- From the end of `r.order` to its start.
  unfoldable pub prune_loop : List String → Pruning → Pruning
  prune_loop [] s = s
  prune_loop (id ∷ ids) s = prune_one id (prune_loop ids s)

  -- prune
  unfoldable pub prune : ExecutionRegistry → ExecutionRegistry
  prune r =
      let s =
        prune_loop r.order (record { native = 0; hot = 0; executions = r.executions; kept = [] }) in
      record { executions = s.executions; order = s.kept }

-- The loop of forgetBed.
forget_loop : String → List String → GoMap String Execution → GoMap String Execution × List String
forget_loop name [] executions = (executions, [])
forget_loop name (id ∷ ids) executions = elim (lookup id executions) [
  | none ↦ forget_loop name ids executions
  | some e ↦
      if e.bed_id == name
      then forget_loop name ids (delete id executions)
      else (let rest = forget_loop name ids executions in (rest.0, id ∷ rest.1))
]

-- forgetBed
unfoldable pub forget_bed : ExecutionRegistry → String → ExecutionRegistry
unfolding forget_loop
forget_bed r name =
    let out = forget_loop name r.order r.executions in record { executions = out.0; order = out.1 }
