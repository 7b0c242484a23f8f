-- ===== src/Execution/Tally.antt =====
-- The records that the loop of `prune` in internal/bed/manager/execution.go has kept, counted.
use hostel.Base.{
  ℕ, suc, ◌+◌, ◌≤◌, ◌≡◌, refl, ap, subst, String, Bool, true, false, not, ◌&&◌, Option, none, some,
  List, [], ◌∷◌, inl, inr, ltb, string_eq, arith, Bool-cases,
}
use hostel.Base.GoMap.{GoMap, lookup, insert, delete, lookup-insert, lookup-delete, to_nat}
use hostel.Execution.State.{Execution, ExecutionOutput, history_limit}
use hostel.Execution.Output.{release_output}
use hostel.Execution.Terminal.{is_some}
use hostel.Execution.Registry.{RemoveResult, Pruning, is_background, keep}

abbrev pub at_key : (Execution → Bool) → Option Execution → ℕ
at_key p none = 0
at_key p (some e) = to_nat (p e)

-- How many of the ids have an execution that passes a test.
abbrev pub tally : (Execution → Bool) → GoMap String Execution → List String → ℕ
tally p executions [] = 0
tally p executions (id ∷ ids) = at_key p (lookup id executions) + tally p executions ids

abbrev holds_output : List ExecutionOutput → Bool
holds_output [] = false
holds_output (x ∷ xs) = true

-- A finished execution whose fragments are in memory.
abbrev pub is_hot : Execution → Bool
is_hot e = is_some e.result && holds_output e.output

-- A finished foreground or session execution, or that of a main process.
abbrev pub is_native_record : Execution → Bool
is_native_record e = is_some e.result && not (is_background e.mode)

tally_mono :
    (p : Execution → Bool) (m m' : GoMap String Execution) (ids : List String)
    → ((id : String) → at_key p (lookup id m') ≤ at_key p (lookup id m))
    → tally p m' ids ≤ tally p m ids
tally_mono p m m' [] below = omega arith
tally_mono p m m' (id ∷ ids) below = omega (arith, below id, tally_mono p m m' ids below)

pub tally-delete :
    (p : Execution → Bool) (key : String) (m : GoMap String Execution) (ids : List String)
    → tally p (delete key m) ids ≤ tally p m ids
tally-delete p key m ids =
    tally_mono p m (delete key m) ids (λ id. ground (arith, lookup-delete key id m))

pub tally-release :
    (p : Execution → Bool) (key : String) (e : Execution) (m : GoMap String Execution)
    (ids : List String)
    → lookup key m ≡ some e
    → to_nat (p (release_output e)) ≤ to_nat (p e)
    → tally p (insert key (release_output e) m) ids ≤ tally p m ids
tally-release p key e m ids at less =
    tally_mono p m (insert key (release_output e) m) ids
      (λ id. ground (arith, lookup-insert key id (release_output e) m, string_eq.same_iff key id))

-- The map after an execution that stays, when the cache goes and when it stays.
pub keep_cold :
    (now : String → ℕ) (remove : String → RemoveResult) (id : String) (e : Execution) (s : Pruning)
    → ltb history_limit (suc s.hot) ≡ true
    → insert id (release_output e) s.executions ≡ (keep now remove id e s).executions
keep_cold now remove id e s cold = ground (arith, cold)

pub keep_warm :
    (now : String → ℕ) (remove : String → RemoveResult) (id : String) (e : Execution) (s : Pruning)
    → ltb history_limit (suc s.hot) ≡ false
    → s.executions ≡ (keep now remove id e s).executions
keep_warm now remove id e s warm = ground (arith, warm)

released_at :
    (p : Execution → Bool) (id : String) (e : Execution) (m : GoMap String Execution)
    → at_key p (lookup id (insert id (release_output e) m)) ≡ to_nat (p (release_output e))
released_at p id e m =
    ground (arith, lookup-insert id id (release_output e) m, string_eq.same_iff id id)

tally_released :
    (p : Execution → Bool) (id : String) (e : Execution) (m : GoMap String Execution)
    (ids : List String)
    → lookup id m ≡ some e
    → to_nat (p (release_output e)) ≤ to_nat (p e)
    → tally p (insert id (release_output e) m) (id ∷ ids)
      ≤ to_nat (p (release_output e)) + tally p m ids
tally_released p id e m ids at less =
    omega (arith, released_at p id e m, tally-release p id e m ids at less)

pub tally_stays :
    (p : Execution → Bool) (id : String) (e : Execution) (m : GoMap String Execution)
    (ids : List String)
    → lookup id m ≡ some e
    → tally p m (id ∷ ids) ≡ to_nat (p e) + tally p m ids
tally_stays p id e m ids at = ap (λ o. at_key p o + tally p m ids) at

pub tally-keep :
    (now : String → ℕ) (remove : String → RemoveResult) (p : Execution → Bool) (id : String)
    (e : Execution) (s : Pruning)
    → lookup id s.executions ≡ some e
    → to_nat (p (release_output e)) ≤ to_nat (p e)
    → tally p (keep now remove id e s).executions (id ∷ s.kept)
      ≤ to_nat (p e) + tally p s.executions s.kept
tally-keep now remove p id e s at less = elim (Bool-cases (ltb history_limit (suc s.hot))) [
  | inl cold ↦
      subst (λ m. tally p m (id ∷ s.kept) ≤ to_nat (p e) + tally p s.executions s.kept)
        (keep_cold now remove id e s cold)
        (omega (arith, tally_released p id e s.executions s.kept at less))
  | inr warm ↦
      subst (λ m. tally p m (id ∷ s.kept) ≤ to_nat (p e) + tally p s.executions s.kept)
        (keep_warm now remove id e s warm)
        (omega (arith, tally_stays p id e s.executions s.kept at))
]

hot_released : (e : Execution) → to_nat (is_hot (release_output e)) ≡ 0
unfolding release_output
hot_released e = ground arith

pub native_released : (e : Execution) → is_native_record (release_output e) ≡ is_native_record e
unfolding release_output
native_released e = refl

-- The loop's counters bound what it has kept.
pub record IsBounded (s : Pruning) : Type 0 where
  pub counted : tally is_hot s.executions s.kept ≤ s.hot
  pub limited : tally is_hot s.executions s.kept ≤ history_limit

pub keep-IsBounded :
    (now : String → ℕ) (remove : String → RemoveResult) (id : String) (e : Execution) (s : Pruning)
    → lookup id s.executions ≡ some e
    → IsBounded s
    → IsBounded (keep now remove id e s)
keep-IsBounded now remove id e s at bound = elim (Bool-cases (ltb history_limit (suc s.hot))) [
  | inl cold ↦
      let less : tally is_hot (keep now remove id e s).executions (id ∷ s.kept)
          ≤ tally is_hot s.executions s.kept =
        subst (λ m. tally is_hot m (id ∷ s.kept) ≤ tally is_hot s.executions s.kept)
          (keep_cold now remove id e s cold)
          (omega (
            arith,
            hot_released e,
            tally_released is_hot id e s.executions s.kept at (omega (arith, hot_released e)),
          )) in
      record { counted = omega (arith, bound.counted); limited = omega (arith, bound.limited) }
  | inr warm ↦
      let one : to_nat (is_hot e) ≤ 1 = ground arith in
      let more = tally-keep now remove is_hot id e s at (omega (arith, hot_released e)) in
      let room : suc s.hot ≤ history_limit = ground arith in
      record { counted = omega (arith, bound.counted); limited = omega (arith, bound.counted) }
]
