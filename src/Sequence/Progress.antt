-- ===== src/Sequence/Progress.antt =====
-- The order of the hooks that Sequence.Run (internal/bed/lifecycle.go) calls, over repeated runs.
use hostel.Base.{
  ℕ, zero, suc, ◌+◌, ◌-◌, ◌≤◌, ◌<◌, ◌≡◌, refl, ap, ◌∙◌, subst, String, Bool, true, false, not, ◌&&◌,
  none, some, List, [], ◌∷◌, ◌++◌, ltb, ◌==◌, nat_eq, length, arith, inl, inr, Bool-cases,
  Option-cases, lt→ltb,
}
use hostel.Base.GoMap.{to_nat}
use hostel.Base.Result.{Result, ok}
use hostel.Sequence.Run.{
  Phase, Error, Sequence, new_sequence, is_known, get_elem?, run_hooks, run, belongs_to_other,
}

-- How often the hook at `p` succeeded.
abbrev pub successes : ℕ → List (ℕ × Bool) → ℕ
successes p [] = 0
successes p ((q, answer) ∷ log) = to_nat ((q == p) && answer) + successes p log

-- The log leads from the first participant to `next`: a success goes on, a failure stays.
abbrev IsFaithful : ℕ → List (ℕ × Bool) → Type 0
IsFaithful next [] = next ≡ 0
IsFaithful next ((p, true) ∷ log) = (next ≡ suc p) × IsFaithful p log
IsFaithful next ((p, false) ∷ log) = (next ≡ p) × IsFaithful p log

successes-IsFaithful :
    (q next : ℕ) (log : List (ℕ × Bool))
    → IsFaithful next log
    → successes q log ≡ to_nat (ltb q next)
successes-IsFaithful q next [] h = ground arith
successes-IsFaithful q next ((p, true) ∷ log) h = ground (arith, successes-IsFaithful q p log h.1)
successes-IsFaithful q next ((p, false) ∷ log) h = ground (arith, successes-IsFaithful q p log h.1)

suffix-IsFaithful :
    (next p : ℕ) (answer : Bool) (later before : List (ℕ × Bool))
    → IsFaithful next (later ++ ((p, answer) ∷ before))
    → IsFaithful p before
suffix-IsFaithful next p true [] before h = h.1
suffix-IsFaithful next p false [] before h = h.1
suffix-IsFaithful next p answer ((q, true) ∷ later) before h =
    suffix-IsFaithful q p answer later before h.1
suffix-IsFaithful next p answer ((q, false) ∷ later) before h =
    suffix-IsFaithful q p answer later before h.1

get_elem?-lt : (xs : List String) (i : ℕ) {x : String} → get_elem? xs i ≡ some x → i < length xs
get_elem?-lt [] i h = ground arith
get_elem?-lt (y ∷ ys) zero h = omega arith
get_elem?-lt (y ∷ ys) (suc i) h = omega (arith, get_elem?-lt ys i h)

get_elem?-none : (xs : List String) (i : ℕ) → get_elem? xs i ≡ none → length xs ≤ i
get_elem?-none [] i h = omega arith
get_elem?-none (y ∷ ys) zero h = ground arith
get_elem?-none (y ∷ ys) (suc i) h = omega (arith, get_elem?-none ys i h)

module _ (cancelled : ℕ → Bool) (hook : Phase → String → ℕ → ℕ → Bool) where
  -- What one run leaves: a faithful log, the same participants, and completion where it reports it.
  abbrev Advanced : Sequence → Sequence × Result Error (Unit {0}) → Type 0
  Advanced s r =
      IsFaithful r.0.next r.0.log
      × (r.0.participants ≡ s.participants)
      × (s.next ≤ r.0.next)
      × (r.1 ≡ ok tt → length s.participants ≤ r.0.next)

  run_hooks-Advanced :
      (n b : ℕ) (s : Sequence)
      → length s.participants ≤ s.next + n
      → IsFaithful s.next s.log
      → Advanced s (run_hooks cancelled hook n b s)
  unfolding run_hooks
  run_hooks-Advanced zero b s enough faithful = (faithful, refl, omega arith, λ done. omega arith)
  run_hooks-Advanced (suc n) b s enough faithful =
      elim (Option-cases (get_elem? s.participants s.next)) [
        | inl finished ↦
            rw (finished, run_hooks)
              (faithful, refl, omega arith, λ done. get_elem?-none s.participants s.next finished)
        | inr (p, found) ↦ elim (Bool-cases (cancelled s.calls)) [
          | inl stopped ↦
              rw (found, stopped, run_hooks) (faithful, refl, omega arith, λ done. absurd (cc done))
          | inr going ↦ elim (Bool-cases (not (is_known s.phase))) [
            | inl strange ↦
                rw (found, going, strange, run_hooks)
                  (faithful, refl, omega arith, λ done. absurd (cc done))
            | inr known ↦ elim (Bool-cases (hook s.phase p b s.calls)) [
              | inl succeeded ↦
                  let s' = record s {
                    next = suc s.next;
                    log = (s.next, true) ∷ s.log;
                    calls = suc s.calls;
                  } in
                  let rest = run_hooks-Advanced n b s' (omega arith) (refl, faithful) in
                  rw (found, going, known, succeeded, run_hooks)
                    (rest.0, rest.1, omega (arith, rest.2), rest.3)
              | inr failed ↦
                  rw (found, going, known, failed, run_hooks)
                    ((refl, faithful), refl, omega arith, λ done. absurd (cc done))
            ]
          ]
        ]
      ]

  run-Advanced :
      (b : ℕ) (s : Sequence) → IsFaithful s.next s.log → Advanced s (run cancelled hook b s)
  unfolding run
  run-Advanced b s faithful = elim (Bool-cases (belongs_to_other s.bed b)) [
    | inl foreign ↦ rw (foreign, run) (faithful, refl, omega arith, λ done. absurd (cc done))
    | inr own ↦
        rw (own, run)
          (run_hooks-Advanced (length s.participants - s.next) b (record s { bed = some b })
            (omega arith) faithful)
  ]

-- Any number of runs of one sequence, for any Beds; the hooks and the contexts of each answer as
-- they like.
pub data Runs (s : Sequence) : Sequence → Type 0 where
  here : Runs s s
  next :
      {s' : Sequence} (cancelled : ℕ → Bool) (hook : Phase → String → ℕ → ℕ → Bool) (b : ℕ)
      → Runs s s'
      → Runs s (run cancelled hook b s').0

Runs-IsFaithful :
    {s s' : Sequence} → Runs s s' → IsFaithful s.next s.log → IsFaithful s'.next s'.log
Runs-IsFaithful here faithful = faithful
Runs-IsFaithful (next {s'} cancelled hook b runs) faithful =
    (run-Advanced cancelled hook b s' (Runs-IsFaithful runs faithful)).0

-- After any number of runs of a new sequence, with any failures, cancellations and wrong Beds on the
-- way: whenever the hook at position `p` was called, each of the hooks before `p` had succeeded
-- exactly once by then, and neither that hook nor a later one had succeeded.
pub Runs-order :
    (phase : Phase) (participants : List String) (s : Sequence) (later before : List (ℕ × Bool))
    (p : ℕ) (answer : Bool) (q : ℕ)
    → Runs (new_sequence phase participants) s
    → s.log ≡ later ++ ((p, answer) ∷ before)
    → successes q before ≡ to_nat (ltb q p)
Runs-order phase participants s later before p answer q runs calls =
    let faithful = Runs-IsFaithful runs refl in
    successes-IsFaithful q p before
      (suffix-IsFaithful s.next p answer later before (subst (IsFaithful s.next) calls faithful))

-- Where a run reports success, after any number of runs before it, every participant's hook has
-- succeeded exactly once over all of them.
pub run_complete :
    (phase : Phase) (participants : List String) (s : Sequence) (cancelled : ℕ → Bool)
    (hook : Phase → String → ℕ → ℕ → Bool) (b q : ℕ)
    → Runs (new_sequence phase participants) s
    → (run cancelled hook b s).1 ≡ ok tt
    → q < length s.participants
    → successes q (run cancelled hook b s).0.log ≡ 1
run_complete phase participants s cancelled hook b q runs done below =
    let advanced = run-Advanced cancelled hook b s (Runs-IsFaithful runs refl) in
    let next = (run cancelled hook b s).0.next in
    let reached : ltb q next ≡ true = lt→ltb q next (omega (arith, advanced.3 done)) in
    successes-IsFaithful q next (run cancelled hook b s).0.log (advanced.0) ∙ ap to_nat reached
