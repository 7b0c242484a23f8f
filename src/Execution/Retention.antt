-- ===== src/Execution/Retention.antt =====
-- How much `prune` of internal/bed/manager/execution.go leaves.
use hostel.Base.{
  ℕ, suc, ◌+◌, ◌≤◌, ◌≡◌, sym, ap, ◌∙◌, subst, String, Bool, true, false, not, ◌&&◌, ◌||◌, none,
  some, List, [], ◌∷◌, inl, inr, if◌then◌else◌, ltb, ◌==◌, string_eq, arith, Bool-cases,
  Option-cases,
}
use hostel.Base.GoMap.{GoMap, lookup, insert, delete, lookup-insert, lookup-delete, to_nat}
use hostel.Execution.State.{Execution, history_limit}
use hostel.Execution.Output.{release_output}
use hostel.Execution.Terminal.{is_some}
use hostel.Execution.Registry.{
  ExecutionRegistry, RemoveResult, Pruning, is_background, is_expired, is_native, remove_log, keep,
  prune_finished, prune_one, prune_loop, prune,
}
use hostel.Execution.Tally.{
  tally, is_hot, is_native_record, tally-delete, keep_cold, keep_warm, tally_stays, tally-keep,
  native_released, IsBounded, keep-IsBounded,
}

module _ (now : String → ℕ) (remove : String → RemoveResult) where
  unfoldable pub native_after : String → Execution → Pruning → ℕ
  native_after id e s = if is_native now remove id e then suc s.native else s.native

  -- prune's test of a finished execution.
  unfoldable pub is_evictable : String → Execution → Pruning → Bool
  is_evictable id e s =
      is_expired (now id) e
      || (not (is_background e.mode) && ltb history_limit (native_after id e s))

  -- The four ways through the body of the loop.
  pub data Outcome (id : String) (s : Pruning) : Pruning → Type 0 where
    absent : lookup id s.executions ≡ none → Outcome id s s
    runs :
        (e : Execution)
        → lookup id s.executions ≡ some e
        → e.result ≡ none
        → Outcome id s (record s { kept = id ∷ s.kept })
    evicts :
        (e : Execution)
        → lookup id s.executions ≡ some e
        → is_some e.result ≡ true
        → is_evictable id e s ≡ true
        → Outcome id s
            (record s { native = native_after id e s; executions = delete id s.executions })
    stays :
        (e : Execution)
        → lookup id s.executions ≡ some e
        → is_some e.result ≡ true
        → (is_evictable id e s && remove_log remove e) ≡ false
        → Outcome id s (keep now remove id e (record s { native = native_after id e s }))

  finished-Outcome :
      (id : String) (e : Execution) (s : Pruning)
      → lookup id s.executions ≡ some e
      → is_some e.result ≡ true
      → Outcome id s (prune_finished now remove id e s)
  unfolding prune_finished is_evictable native_after
  finished-Outcome id e s at done = elim (Bool-cases (is_evictable id e s && remove_log remove e)) [
    | inl out ↦
        let gone : record s { native = native_after id e s; executions = delete id s.executions }
            ≡ prune_finished now remove id e s =
          ap
            (λ b.
              if b
              then record s { native = native_after id e s; executions = delete id s.executions }
              else keep now remove id e (record s { native = native_after id e s }))
            (sym out) in
        subst (Outcome id s) gone (evicts e at done (ground (arith, out)))
    | inr stay ↦
        let kept : keep now remove id e (record s { native = native_after id e s })
            ≡ prune_finished now remove id e s =
          ap
            (λ b.
              if b
              then record s { native = native_after id e s; executions = delete id s.executions }
              else keep now remove id e (record s { native = native_after id e s }))
            (sym stay) in
        subst (Outcome id s) kept (stays e at done stay)
  ]

  pub prune_one-Outcome : (id : String) (s : Pruning) → Outcome id s (prune_one now remove id s)
  unfolding prune_one
  prune_one-Outcome id s = elim (Option-cases (lookup id s.executions)) [
    | inl gone ↦
        let same : s ≡ prune_one now remove id s = ground (arith, gone) in
        subst (Outcome id s) same (absent gone)
    | inr (e, at) ↦ elim (Option-cases e.result) [
      | inl running ↦
          let same : record s { kept = id ∷ s.kept } ≡ prune_one now remove id s =
            ground (arith, at, running) in
          subst (Outcome id s) same (runs e at running)
      | inr (r, done) ↦
          let same : prune_finished now remove id e s ≡ prune_one now remove id s =
            ground (arith, at, done) in
          subst (Outcome id s) same (finished-Outcome id e s at (ap is_some done))
    ]
  ]

  Outcome-IsBounded : (id : String) (s s' : Pruning) → Outcome id s s' → IsBounded s → IsBounded s'
  Outcome-IsBounded id s s' (absent gone) bound = bound
  Outcome-IsBounded id s s' (runs e at running) bound =
      let cold : to_nat (is_hot e) ≡ 0 = ground (arith, running) in
      let same = tally_stays is_hot id e s.executions s.kept at in
      record { counted = omega (arith, bound.counted); limited = omega (arith, bound.limited) }
  Outcome-IsBounded id s s' (evicts e at done out) bound =
      let less = tally-delete is_hot id s.executions s.kept in
      record { counted = omega (arith, bound.counted); limited = omega (arith, bound.limited) }
  Outcome-IsBounded id s s' (stays e at done stay) bound =
      keep-IsBounded now remove id e (record s { native = native_after id e s }) at
        (record { counted = bound.counted; limited = bound.limited })

  -- Every log file of a finished execution can be removed.
  abbrev pub IsClean : GoMap String Execution → Type 0
  IsClean m =
      (id : String) (e : Execution)
      → lookup id m ≡ some e
      → is_some e.result ≡ true
      → remove_log remove e ≡ true

  delete-IsClean : (key : String) (m : GoMap String Execution) → IsClean m → IsClean (delete key m)
  delete-IsClean key m clean id e at done = clean id e (ground (arith, lookup-delete key id m)) done

  release-IsClean :
      (key : String) (f : Execution) (m : GoMap String Execution)
      → lookup key m ≡ some f
      → IsClean m
      → IsClean (insert key (release_output f) m)
  unfolding release_output remove_log
  release-IsClean key f m found clean id e at done = elim (Bool-cases (key == id)) [
    | inr other ↦ clean id e (ground (arith, lookup-insert key id (release_output f) m, other)) done
    | inl same ↦
        let here : release_output f ≡ e =
          ground (arith, lookup-insert key id (release_output f) m, same) in
        ap (remove_log remove) (sym here)
        ∙ clean key f found (ap (λ x. is_some x.result) here ∙ done)
  ]

  keep-IsClean :
      (id : String) (e : Execution) (s : Pruning)
      → lookup id s.executions ≡ some e
      → IsClean s.executions
      → IsClean (keep now remove id e s).executions
  keep-IsClean id e s at clean = elim (Bool-cases (ltb history_limit (suc s.hot))) [
    | inr warm ↦ subst IsClean (keep_warm now remove id e s warm) clean
    | inl cold ↦
        subst IsClean (keep_cold now remove id e s cold)
          (release-IsClean id e s.executions at clean)
  ]

  -- With every log removed, the records that are not background commands are few.
  pub record IsNativeBounded (s : Pruning) : Type 0 where
    pub counted : tally is_native_record s.executions s.kept ≤ s.native
    pub limited : tally is_native_record s.executions s.kept ≤ history_limit
    pub clean : IsClean s.executions

  counts_native :
      (id : String) (e : Execution) (s : Pruning)
      → remove_log remove e ≡ true
      → (is_evictable id e s && remove_log remove e) ≡ false
      → s.native + to_nat (is_native_record e) ≤ native_after id e s
  unfolding native_after is_evictable
  counts_native id e s clean stay = ground (arith, clean)

  limits_native :
      (id : String) (e : Execution) (s : Pruning)
      → is_native_record e ≡ true
      → remove_log remove e ≡ true
      → (is_evictable id e s && remove_log remove e) ≡ false
      → native_after id e s ≤ history_limit
  unfolding native_after is_evictable
  limits_native id e s native clean stay = ground (arith, clean)

  Outcome-IsNativeBounded :
      (id : String) (s s' : Pruning) → Outcome id s s' → IsNativeBounded s → IsNativeBounded s'
  Outcome-IsNativeBounded id s s' (absent gone) bound = bound
  Outcome-IsNativeBounded id s s' (runs e at running) bound =
      let none_added : to_nat (is_native_record e) ≡ 0 = ground (arith, running) in
      let same = tally_stays is_native_record id e s.executions s.kept at in
      record {
        counted = omega (arith, bound.counted);
        limited = omega (arith, bound.limited);
        clean = bound.clean;
      }
  Outcome-IsNativeBounded id s s' (evicts e at done out) bound =
      let less = tally-delete is_native_record id s.executions s.kept in
      let more : s.native ≤ native_after id e s = unfold native_after in ground arith in
      record {
        counted = omega (arith, bound.counted);
        limited = omega (arith, bound.limited);
        clean = delete-IsClean id s.executions bound.clean;
      }
  Outcome-IsNativeBounded id s s' (stays e at done stay) bound =
      let clean = keep-IsClean id e (record s { native = native_after id e s }) at bound.clean in
      let more = counts_native id e s (bound.clean id e at done) stay in
      let grown =
        tally-keep now remove is_native_record id e (record s { native = native_after id e s }) at
          (omega (arith, ap to_nat (native_released e))) in
      elim (Bool-cases (is_native_record e)) [
        | inl native ↦
            let few = limits_native id e s native (bound.clean id e at done) stay in
            let one : to_nat (is_native_record e) ≡ 1 = ap to_nat native in
            record {
              counted = omega (arith, bound.counted);
              limited = omega (arith, bound.counted);
              clean = clean;
            }
        | inr other ↦
            let none_added : to_nat (is_native_record e) ≡ 0 = ap to_nat other in
            record {
              counted = omega (arith, bound.counted);
              limited = omega (arith, bound.limited);
              clean = clean;
            }
      ]

  prune_loop-IsBounded :
      (ids : List String) (s : Pruning) → IsBounded s → IsBounded (prune_loop now remove ids s)
  unfolding prune_loop
  prune_loop-IsBounded [] s bound = bound
  prune_loop-IsBounded (id ∷ ids) s bound =
      let rest = prune_loop now remove ids s in
      Outcome-IsBounded id rest (prune_one now remove id rest) (prune_one-Outcome id rest)
        (prune_loop-IsBounded ids s bound)

  prune_loop-IsNativeBounded :
      (ids : List String) (s : Pruning)
      → IsNativeBounded s
      → IsNativeBounded (prune_loop now remove ids s)
  unfolding prune_loop
  prune_loop-IsNativeBounded [] s bound = bound
  prune_loop-IsNativeBounded (id ∷ ids) s bound =
      let rest = prune_loop now remove ids s in
      Outcome-IsNativeBounded id rest (prune_one now remove id rest) (prune_one-Outcome id rest)
        (prune_loop-IsNativeBounded ids s bound)

-- After prune at most 1024 finished executions of the index have output in memory.
pub prune_hot_bound :
    (now : String → ℕ) (remove : String → RemoveResult) (r : ExecutionRegistry)
    → let r' = prune now remove r in tally is_hot r'.executions r'.order ≤ history_limit
unfolding prune
prune_hot_bound now remove r =
    (prune_loop-IsBounded now remove r.order
      (record { native = 0; hot = 0; executions = r.executions; kept = [] })
      (record { counted = omega arith; limited = omega arith })).limited

-- If the log file of every finished execution can be removed, after prune at most 1024 records of
-- the index are those of finished executions that are not background commands.
pub prune_native_bound :
    (now : String → ℕ) (remove : String → RemoveResult) (r : ExecutionRegistry)
    → ((id : String) (e : Execution)
        → lookup id r.executions ≡ some e
        → is_some e.result ≡ true
        → remove_log remove e ≡ true)
    → let r' = prune now remove r in tally is_native_record r'.executions r'.order ≤ history_limit
unfolding prune
prune_native_bound now remove r cleans =
    (prune_loop-IsNativeBounded now remove r.order
      (record { native = 0; hot = 0; executions = r.executions; kept = [] })
      (record { counted = omega arith; limited = omega arith; clean = cleans })).limited
