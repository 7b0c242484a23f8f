-- ===== src/Execution/Protected.antt =====
-- What `prune` of internal/bed/manager/execution.go may not take away.
use hostel.Base.{
  ℕ, suc, ◌≡◌, refl, sym, ap, ◌∙◌, subst, String, Bool, true, false, ◌||◌, none, some, List, [],
  ◌∷◌, inl, inr, if◌then◌else◌, ltb, ◌==◌, string_eq, arith, Bool-cases,
}
use hostel.Base.GoMap.{GoMap, lookup, insert, lookup-insert, lookup-delete}
use hostel.Execution.State.{Execution, history_limit}
use hostel.Execution.Output.{release_output}
use hostel.Execution.Terminal.{is_some}
use hostel.Execution.Registry.{
  ExecutionRegistry, RemoveResult, Pruning, is_background, is_expired, prune_one, prune_loop, prune,
}
use hostel.Execution.Tally.{keep_cold, keep_warm}
use hostel.Execution.Retention.{
  Outcome, absent, runs, evicts, stays, is_evictable, native_after, prune_one-Outcome,
}

module _ (now : String → ℕ) (remove : String → RemoveResult) where
  -- The execution is in the map: with its cache, or finished and without.
  pub record IsThere (id : String) (e : Execution) (m : GoMap String Execution) : Type 0 where
    pub same : Execution
    pub at : lookup id m ≡ some same
    pub alike : release_output same ≡ release_output e
    pub untouched : e.result ≡ none → same ≡ e

  -- prune may not take it away.
  abbrev pub IsProtected : String → Execution → Type 0
  IsProtected id e =
      is_some e.result ≡ true → (is_background e.mode ≡ true) × (is_expired (now id) e ≡ false)

  protected_stays :
      (id : String) (f e : Execution) (s : Pruning)
      → release_output f ≡ release_output e
      → IsProtected id e
      → is_some f.result ≡ true
      → is_evictable now remove id f s ≡ false
  unfolding is_evictable native_after release_output
  protected_stays id f e s alike protected done =
      let same_result : f.result ≡ e.result = ap (λ x. x.result) alike in
      let same_mode : f.mode ≡ e.mode = ap (λ x. x.mode) alike in
      let same_finish : f.finished_at ≡ e.finished_at = ap (λ x. x.finished_at) alike in
      let (in_background, fresh) = protected (ap is_some (sym same_result) ∙ done) in
      ground (arith, in_background, fresh, same_mode, same_finish)

  found_same :
      (id key : String) (f same : Execution) (m : GoMap String Execution)
      → (id == key) ≡ true
      → lookup id m ≡ some f
      → lookup key m ≡ some same
      → f ≡ same
  found_same id key f same m equal at there =
      let key_is : id ≡ key = (string_eq.same_iff id key).0 equal in
      let one : some f ≡ some same = sym at ∙ ap (λ k. lookup k m) key_is ∙ there in ground arith

  release_output_twice : (e : Execution) → release_output (release_output e) ≡ release_output e
  unfolding release_output
  release_output_twice e =
      ap (λ b. record e { output = []; output_bytes = 0; dropped = e.next_output; truncated = b })
        (absorbs e.truncated (ltb 0 e.next_output))
    where
      absorbs : (a b : Bool) → ((a || b) || b) ≡ (a || b)
      absorbs a b = ground arith

  released-IsThere :
      (key id : String) (e f : Execution) (m : GoMap String Execution)
      → lookup id m ≡ some f
      → is_some f.result ≡ true
      → IsThere key e m
      → IsThere key e (insert id (release_output f) m)
  released-IsThere key id e f m at done there = elim (Bool-cases (id == key)) [
    | inl equal ↦
        let found = found_same id key f there.same m equal at there.at in
        let alike : release_output f ≡ release_output e = ap release_output found ∙ there.alike in
        record {
          same = release_output f;
          at =
              lookup-insert id key (release_output f) m
              ∙ ap (λ b. if b then some (release_output f) else lookup key m) equal;
          alike = release_output_twice f ∙ alike;
          untouched = λ running. absurd (
              ground
                (arith, ap (λ x. x.result) found, ap (λ x. x.result) (there.untouched running)));
        }
    | inr other ↦ record {
      same = there.same;
      at =
          lookup-insert id key (release_output f) m
          ∙ ap (λ b. if b then some (release_output f) else lookup key m) other
          ∙ there.at;
      alike = there.alike;
      untouched = there.untouched;
    }
  ]

  Outcome-IsThere :
      (key : String) (e : Execution) (id : String) (s s' : Pruning)
      → IsProtected key e
      → Outcome now remove id s s'
      → IsThere key e s.executions
      → IsThere key e s'.executions
  Outcome-IsThere key e id s s' protected (absent gone) there = there
  Outcome-IsThere key e id s s' protected (runs f at running) there = there
  Outcome-IsThere key e id s s' protected (evicts f at done out) there =
      elim (Bool-cases (id == key)) [
        | inl same ↦
            let found = found_same id key f there.same s.executions same at there.at in
            let alike = ap release_output found ∙ there.alike in
            let key_is : id ≡ key = (string_eq.same_iff id key).0 same in
            let stayed =
              protected_stays id f e s alike (subst (λ k. IsProtected k e) (sym key_is) protected)
                done in
            absurd (ground (arith, stayed))
        | inr other ↦ record {
          same = there.same;
          at =
              lookup-delete id key s.executions
              ∙ ap (λ b. if b then none else lookup key s.executions) other
              ∙ there.at;
          alike = there.alike;
          untouched = there.untouched;
        }
      ]
  Outcome-IsThere key e id s s' protected (stays f at done stay) there =
      elim (Bool-cases (ltb history_limit (suc s.hot))) [
        | inr warm ↦
            subst (IsThere key e)
              (keep_warm now remove id f (record s { native = native_after now remove id f s })
                warm)
              there
        | inl cold ↦
            subst (IsThere key e)
              (keep_cold now remove id f (record s { native = native_after now remove id f s })
                cold)
              (released-IsThere key id e f s.executions at done there)
      ]

  prune_loop-IsThere :
      (key : String) (e : Execution) (ids : List String) (s : Pruning)
      → IsProtected key e
      → IsThere key e s.executions
      → IsThere key e (prune_loop now remove ids s).executions
  unfolding prune_loop
  prune_loop-IsThere key e [] s protected there = there
  prune_loop-IsThere key e (id ∷ ids) s protected there =
      let rest = prune_loop now remove ids s in
      Outcome-IsThere key e id rest (prune_one now remove id rest) protected
        (prune_one-Outcome now remove id rest) (prune_loop-IsThere key e ids s protected there)

-- prune never takes an execution that runs, or a background command that has not expired, out of the
-- registry: a running one is untouched, and a finished one is the same up to its released output.
pub prune-keeps :
    (now : String → ℕ) (remove : String → RemoveResult) (r : ExecutionRegistry) (id : String)
    (e : Execution)
    → lookup id r.executions ≡ some e
    → (is_some e.result ≡ true → (is_background e.mode ≡ true) × (is_expired (now id) e ≡ false))
    → (e' : Execution) × (lookup id (prune now remove r).executions ≡ some e')
      × (release_output e' ≡ release_output e)
      × (e.result ≡ none → e' ≡ e)
unfolding prune
prune-keeps now remove r id e at protected =
    let there =
      prune_loop-IsThere now remove id e r.order
        (record { native = 0; hot = 0; executions = r.executions; kept = [] }) protected
        (record { same = e; at = at; alike = refl; untouched = λ running. refl }) in
    (there.same, there.at, there.alike, there.untouched)
