-- ===== src/Execution/Eviction.antt =====
-- The loop of appendOutput in internal/bed/manager/execution.go, in closed form.
use hostel.Base.{
  ℕ, zero, suc, ◌+◌, ◌-◌, ◌≤◌, ◌<◌, ◌≡◌, ◌⊎◌, inl, inr, true, ◌||◌, some, List, [], ◌∷◌, ◌++◌, ltb,
  length, drop, arith, Bool-cases,
}
use hostel.Execution.State.{Execution, ExecutionOutput, output_budget, output_fragments}
use hostel.Execution.Output.{evict}

-- The bytes that a list of fragments holds.
abbrev pub total : List ExecutionOutput → ℕ
total [] = 0
total (x ∷ xs) = length x.text + total xs

pub total-append : (xs ys : List ExecutionOutput) → total (xs ++ ys) ≡ total xs + total ys
total-append [] ys = omega arith
total-append (x ∷ xs) ys = omega (arith, total-append xs ys)

-- The fragments are over one of the two limits.
abbrev pub IsOver : List ExecutionOutput → Type 0
IsOver xs = (output_budget < total xs) ⊎ (output_fragments < length xs)

-- The loop's state after `k` rounds.
abbrev pub after : ℕ → List ExecutionOutput → Execution → Execution
after k xs e = record e {
  output = drop k xs;
  output_bytes = total (drop k xs);
  dropped = e.dropped + k;
  truncated = e.truncated || ltb 0 k;
}

-- The loop ends after the least number of rounds that brings the fragments within the limits.
pub record Fits (xs : List ExecutionOutput) (k : ℕ) : Type 0 where
  pub inside : k ≤ length xs
  pub bytes : total (drop k xs) ≤ output_budget
  pub fragments : length (drop k xs) ≤ output_fragments
  pub least : (j : ℕ) → j < k → IsOver (drop j xs)

least_after :
    (x : ExecutionOutput) (xs : List ExecutionOutput) (k : ℕ)
    → IsOver (x ∷ xs)
    → ((j : ℕ) → j < k → IsOver (drop j xs))
    → (j : ℕ) → j < suc k
    → IsOver (drop j (x ∷ xs))
least_after x xs k over rest zero h = over
least_after x xs k over rest (suc j) h = rest j (omega arith)

IsOver-test :
    (xs : List ExecutionOutput) (bytes : ℕ)
    → bytes ≡ total xs
    → (ltb output_budget bytes || ltb output_fragments (length xs)) ≡ true
    → IsOver xs
IsOver-test xs bytes equal test = ground arith

pub evict-least :
    (xs : List ExecutionOutput) (e : Execution)
    → e.output_bytes ≡ total xs
    → (k : ℕ) × Fits xs k × (evict xs e ≡ some (after k xs e))
unfolding evict
evict-least [] e equal = (
  0,
  record {
    inside = omega arith;
    bytes = omega arith;
    fragments = omega arith;
    least = λ j h. absurd (omega arith);
  },
  ground arith,
)
evict-least (x ∷ xs) e equal =
    elim (Bool-cases (ltb output_budget e.output_bytes || ltb output_fragments (length (x ∷ xs)))) [
      | inr inside ↦ (
        0,
        record {
          inside = omega arith;
          bytes = ground arith;
          fragments = ground arith;
          least = λ j h. absurd (omega arith);
        },
        ground arith,
      )
      | inl over ↦
          let (k, fits, evicted) =
            evict-least xs
              (record e {
                output_bytes = e.output_bytes - length x.text;
                dropped = suc e.dropped;
                truncated = true;
              })
              (omega arith) in
          (
            suc k,
            record {
              inside = omega (arith, fits.inside);
              bytes = fits.bytes;
              fragments = fits.fragments;
              least =
                  least_after x xs k (IsOver-test (x ∷ xs) e.output_bytes equal over) fits.least;
            },
            ground (arith, evicted),
          )
    ]
