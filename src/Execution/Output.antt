-- ===== src/Execution/Output.antt =====
-- internal/bed/manager/execution.go: the bounded output cache of an execution, each call under
-- `e.mu`. The counters are numbers of fragments. The cursor that a client names is an int64, whose
-- successor wraps around.
use hostel.Base.{
  ℕ, suc, ◌+◌, ◌-◌, ◌^◌, ℤ, pos, negsuc, Bool, true, false, ◌||◌, Option, none, some, List, [], ◌∷◌,
  ◌++◌, if◌then◌else◌, ltb, ◌==◌, nat_eq, length, drop,
}
use hostel.Execution.State.{
  Execution, ExecutionOutput, ExecutionResult, OutputStream, output_budget, output_fragments,
}

-- The last bytes of a fragment larger than the budget.
unfoldable pub clip : ExecutionOutput → ExecutionOutput
clip fragment =
    if ltb output_budget (length fragment.text)
    then record fragment { text = drop (length fragment.text - output_budget) fragment.text }
    else fragment

-- The loop of appendOutput over `e.output`. It would index an empty slice out of range: none.
unfoldable pub evict : List ExecutionOutput → Execution → Option Execution
evict [] e = if ltb output_budget e.output_bytes then none else some (record e { output = [] })
evict (first ∷ rest) e =
    let evicted = evict rest (record e {
      output_bytes = e.output_bytes - length first.text;
      dropped = suc e.dropped;
      truncated = true;
    }) in
    if ltb output_budget e.output_bytes || ltb output_fragments (length (first ∷ rest))
    then evicted
    else some (record e { output = first ∷ rest })

-- appendOutput
unfoldable pub append_output :
    Execution → OutputStream → List ℕ → Option (ExecutionOutput × Execution)
append_output e stream text =
    let fragment : ExecutionOutput = record {
      sequence = e.next_output;
      stream = stream;
      text = text;
    } in
    let retained = clip fragment in
    elim (evict (e.output ++ (retained ∷ [])) (record e {
      next_output = suc e.next_output;
      truncated = e.truncated || ltb output_budget (length text);
      output_bytes = e.output_bytes + length retained.text;
    })) [ none ↦ none | some e' ↦ some (fragment, e') ]

-- releaseOutput
unfoldable pub release_output : Execution → Execution
release_output e = record e {
  output = [];
  output_bytes = 0;
  dropped = e.next_output;
  truncated = e.truncated || ltb 0 e.next_output;
}

abbrev pub max_int64 : ℕ
max_int64 = 2 ^ 63 - 1

-- `start := cursor + 1; if cursor < 0 { start = 0 }`
unfoldable pub start_of : ℤ → ℤ
start_of (negsuc n) = pos 0
start_of (pos n) = if n == max_int64 then negsuc max_int64 else pos (suc n)

-- `start < bound`
abbrev is_before : ℤ → ℕ → Bool
is_before (negsuc n) bound = true
is_before (pos n) bound = ltb n bound

abbrev int_of : ℤ → ℕ
int_of (pos n) = n
int_of (negsuc n) = 0

-- `e.nextOutput - 1`
abbrev pub pred_of : ℕ → ℤ
pred_of n = if n == 0 then negsuc 0 else pos (n - 1)

abbrev is_running : Option ExecutionResult → Bool
is_running none = true
is_running (some result) = false

pub record LogPage : Type 0 where
  pub output : List ExecutionOutput
  pub next : ℤ
  pub running : Bool
  pub truncated : Bool

-- Logs
unfoldable pub logs : Execution → ℤ → LogPage
logs e cursor =
    let gap = is_before (start_of cursor) e.dropped in
    let start = if gap then e.dropped else int_of (start_of cursor) in
    record {
      output = if ltb start e.next_output then drop (start - e.dropped) e.output else [];
      next = pred_of e.next_output;
      running = is_running e.result;
      truncated = gap || e.truncated;
    }
