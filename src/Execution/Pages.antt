-- ===== src/Execution/Pages.antt =====
-- What a client reads with `Logs` of internal/bed/manager/execution.go after any writes and releases.
use hostel.Base.{
  ℕ, suc, ◌+◌, ◌-◌, ◌≤◌, ◌≡◌, refl, sym, ap, ◌∙◌, subst, ℤ, pos, negsuc, true, Option, none, some,
  List, [], ◌∷◌, ◌++◌, map, if◌then◌else◌, ltb, length, drop, inl, inr, ◌⊎◌, drop-drop, drop_all,
  map-drop, arith, Bool-cases, ◌==◌, nat_eq, String,
}
use hostel.Execution.State.{
  Execution, ExecutionMode, ExecutionOutput, OutputStream, new_execution, output_budget,
  output_fragments,
}
use hostel.Execution.Output.{
  clip, append_output, release_output, logs, start_of, max_int64, pred_of,
}
use hostel.Execution.Refine.{Represents, fragment, append_output_lem}

-- Writes of the two drains, and releases of the cache by the registry.
pub data CacheOp : Type 0 where
  write : OutputStream → List ℕ → CacheOp
  release : CacheOp

abbrev pub run_cache : Execution → List CacheOp → Option Execution
run_cache e [] = some e
run_cache e (release ∷ ops) = run_cache (release_output e) ops
run_cache e (write stream text ∷ ops) = elim (append_output e stream text) [
  | none ↦ none
  | some (out, e') ↦ run_cache e' ops
]

-- The log of everything written: fragments numbered from 0 that are never lost.
abbrev pub written : List ExecutionOutput → List CacheOp → List ExecutionOutput
written log [] = log
written log (release ∷ ops) = written log ops
written log (write stream text ∷ ops) =
    written (log ++ (fragment (length log) stream text ∷ [])) ops

pub release_output-Represents :
    (log : List ExecutionOutput) (e : Execution)
    → Represents log e
    → Represents log (release_output e)
unfolding release_output
release_output-Represents log e rep = record {
  numbered = rep.numbered;
  inside = omega (arith, rep.numbered);
  kept = sym (ap (map clip) (drop_all e.next_output log (omega (arith, rep.numbered))));
  counted = refl;
  bytes = omega arith;
  fragments = omega arith;
  whole = λ whole. (ground arith, (rep.whole (ground arith)).1);
}

slice :
    (log : List ExecutionOutput) (e : Execution) (start : ℕ)
    → Represents log e
    → e.dropped ≤ start
    → (if ltb start e.next_output then drop (start - e.dropped) e.output else [])
      ≡ map clip (drop start log)
slice log e start rep kept = elim (Bool-cases (ltb start e.next_output)) [
  | inl before ↦
      let shift : e.dropped + (start - e.dropped) ≡ start = omega arith in
      rw before (
        ap (drop (start - e.dropped)) rep.kept
        ∙ sym (map-drop clip (start - e.dropped) (drop e.dropped log))
        ∙ ap (map clip) (drop-drop (start - e.dropped) e.dropped log)
        ∙ ap (λ n. map clip (drop n log)) shift)
  | inr behind ↦
      let past : length log ≤ start = ground (arith, rep.numbered) in
      rw behind (sym (ap (map clip) (drop_all start log past)))
]

-- The first fragment that a cursor asks for: a negative successor of the cursor asks for all.
abbrev pub wanted : ℤ → ℕ
wanted (negsuc n) = 0
wanted (pos n) = if n == max_int64 then 0 else suc n

-- The first fragment of a page.
abbrev pub first : Execution → ℤ → ℕ
first e cursor = if ltb (wanted cursor) e.dropped then e.dropped else wanted cursor

-- A page's fragments are those of the log from the later of the wanted and the first kept, and a
-- page that is not marked truncated has every wanted one as it was written.
pub record Shows (log : List ExecutionOutput) (e : Execution) (cursor : ℤ) : Type 0 where
  pub from_kept : (logs e cursor).output ≡ map clip (drop (first e cursor) log)
  pub complete :
      ((logs e cursor).truncated ≡ true) ⊎ ((logs e cursor).output ≡ drop (wanted cursor) log)
  pub resume : (logs e cursor).next ≡ pred_of (length log)

from_kept :
    (log : List ExecutionOutput) (e : Execution) (cursor : ℤ)
    → Represents log e
    → (logs e cursor).output ≡ map clip (drop (first e cursor) log)
unfolding logs start_of
from_kept log e (negsuc n) rep = slice log e (first e (negsuc n)) rep (ground arith)
from_kept log e (pos n) rep = elim (Bool-cases (n == max_int64)) [
  | inl last ↦ rw last (
      slice log e e.dropped rep (omega arith)
      ∙ ap (λ k. map clip (drop k log)) (ground (arith, last)))
  | inr other ↦
      rw other (slice log e (if ltb (suc n) e.dropped then e.dropped else suc n) rep (ground arith))
]

complete :
    (log : List ExecutionOutput) (e : Execution) (cursor : ℤ)
    → Represents log e
    → ((logs e cursor).truncated ≡ true) ⊎ ((logs e cursor).output ≡ drop (wanted cursor) log)
unfolding logs
complete log e cursor rep = elim (Bool-cases e.truncated) [
  | inl cut ↦ inl (ground (arith, cut))
  | inr whole ↦
      let (none_dropped, plain) = rep.whole whole in
      let none_skipped : first e cursor ≡ wanted cursor = ground (arith, none_dropped) in
      inr (
        from_kept log e cursor rep
        ∙ ap (λ n. map clip (drop n log)) none_skipped
        ∙ map-drop clip (wanted cursor) log
        ∙ ap (drop (wanted cursor)) plain)
]

resume :
    (log : List ExecutionOutput) (e : Execution) (cursor : ℤ)
    → Represents log e
    → (logs e cursor).next ≡ pred_of (length log)
unfolding logs
resume log e cursor rep = ap pred_of rep.numbered

pub Represents-Shows :
    (log : List ExecutionOutput) (e : Execution) (cursor : ℤ)
    → Represents log e
    → Shows log e cursor
Represents-Shows log e cursor rep = record {
  from_kept = from_kept log e cursor rep;
  complete = complete log e cursor rep;
  resume = resume log e cursor rep;
}

module _ (ops : List CacheOp) where
  abbrev IsFaithful : (log : List ExecutionOutput) → Execution → Type 0
  IsFaithful log e =
      (e' : Execution) × (run_cache e ops ≡ some e') × Represents (written log ops) e'

run_cache-IsFaithful :
    (ops : List CacheOp) (log : List ExecutionOutput) (e : Execution)
    → Represents log e
    → IsFaithful ops log e
run_cache-IsFaithful [] log e rep = (e, refl, rep)
run_cache-IsFaithful (release ∷ ops) log e rep =
    run_cache-IsFaithful ops log (release_output e) (release_output-Represents log e rep)
run_cache-IsFaithful (write stream text ∷ ops) log e rep =
    let (k, e', appended, fits, kept, rep') = append_output_lem log e rep stream text in
    let (e2, ran, rep2) =
      run_cache-IsFaithful ops (log ++ (fragment (length log) stream text ∷ [])) e'
        (subst (λ n. Represents (log ++ (fragment n stream text ∷ [])) e') rep.numbered rep') in
    (e2, ap (λ r. elim r [ none ↦ none | some (out, e1) ↦ run_cache e1 ops ]) appended ∙ ran, rep2)

new_execution-Represents :
    (id pillow bed_id : String) (mode : ExecutionMode) (executor_id backend : String) (now : ℕ)
    → Represents [] (new_execution id pillow bed_id mode executor_id backend now)
new_execution-Represents id pillow bed_id mode executor_id backend now = record {
  numbered = refl;
  inside = omega arith;
  kept = refl;
  counted = refl;
  bytes = omega arith;
  fragments = omega arith;
  whole = λ whole. (refl, refl);
}

-- Every sequence of writes and cache releases on a new execution runs to its end, without an index
-- out of range, in a state with at most 64 KiB in at most 1024 fragments, where for every cursor
-- Logs gives the number of the last fragment written, and a page that is the log of everything
-- written from the first fragment that the cursor wants, or from the first kept if that is later, with
-- each fragment cut to its last 64 KiB: a page that is not marked truncated is exactly what was
-- written after the cursor.
pub run_cache_refines :
    (id pillow bed_id : String) (mode : ExecutionMode) (executor_id backend : String) (now : ℕ)
    (ops : List CacheOp)
    → (e : Execution) × (run_cache (new_execution id pillow bed_id mode executor_id backend now) ops
        ≡ some e)
      × (e.output_bytes ≤ output_budget)
      × (length e.output ≤ output_fragments)
      × ((cursor : ℤ) → Shows (written [] ops) e cursor)
run_cache_refines id pillow bed_id mode executor_id backend now ops =
    let fresh = new_execution-Represents id pillow bed_id mode executor_id backend now in
    let (e, ran, rep) =
      run_cache-IsFaithful ops [] (new_execution id pillow bed_id mode executor_id backend now)
        fresh in
    (e, ran, rep.bytes, rep.fragments, λ cursor. Represents-Shows (written [] ops) e cursor rep)
