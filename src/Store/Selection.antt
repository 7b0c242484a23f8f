-- ===== src/Store/Selection.antt =====
-- The snapshot that `inspect` of internal/bed/store/sync/auto.go selects, by what the backends answer.
use hostel.Base.{
  ℕ, ◌≤◌, ◌<◌, ◌≡◌, ◌≢◌, refl, sym, ap, ◌∙◌, String, true, false, not, ◌&&◌, Option, none, some,
  List, [], ◌∷◌, if◌then◌else◌, ◌==◌, nat_beq, inl, inr, ◌↔◌, arith, Bool-cases, Option-cases,
}
use hostel.Base.GoMap.{GoMap, lookup, IsMap}
use hostel.Base.Result.{Result, ok, err}
use hostel.Store.Layout.{
  StoreLayout, layout_eq, SnapshotInfo, StoreError, inspect_failed, ambiguous, Stores,
}
use hostel.Store.Auto.{AutoState, find_ambiguous, conclude, collect, inspect}
use hostel.Store.Collect.{Stat, is_in, Collected, stat_of, collect-Collected}

none_ambiguous :
    (l other : StoreLayout) (g : ℕ) (info : SnapshotInfo) (m : GoMap StoreLayout SnapshotInfo)
    → find_ambiguous l g m ≡ none
    → other ≢ l
    → lookup other m ≡ some info
    → info.generation ≢ g
unfolding find_ambiguous lookup
none_ambiguous l other g info [] clear apart held same = absurd (ground arith)
none_ambiguous l other g info ((x, theirs) ∷ rest) clear apart held same =
    elim (Bool-cases (x == other)) [
      | inr off ↦
          none_ambiguous l other g info rest (ground (arith, clear)) apart
            (ap (λ b. if b then some theirs else lookup other rest) (sym off) ∙ held) same
      | inl at ↦
          let mine : theirs ≡ info = ground (arith, at, held) in
          let far : (x == l) ≡ false =
            ground (arith, (layout_eq.same_iff x other).0 at, apart, layout_eq.same_iff x l) in
          ground (arith, far, mine, same, clear)
    ]

some_ambiguous :
    (l other : StoreLayout) (g : ℕ) (m : GoMap StoreLayout SnapshotInfo)
    → find_ambiguous l g m ≡ some other
    → IsMap m
    → (other ≢ l) × ((info : SnapshotInfo) × (lookup other m ≡ some info) × (info.generation ≡ g))
unfolding find_ambiguous lookup
some_ambiguous l other g [] found unique = absurd (ground arith)
some_ambiguous l other g ((x, theirs) ∷ rest) found unique =
    elim (Bool-cases (not (x == l) && nat_beq theirs.generation g)) [
      | inl hit ↦
          let one : x ≡ other = ground (arith, hit, found) in
          (
            (λ same. ground (arith, hit, one, same, layout_eq.same_iff x l)),
            (theirs, ground (arith, layout_eq.same_iff x other, one), ground (arith, hit)),
          )
      | inr missed ↦
          let (apart, (info, held, same)) =
            some_ambiguous l other g rest (ground (arith, missed, found)) unique.1 in
          let off : (x == other) ≡ false =
            ground (arith, layout_eq.same_iff x other, unique.0, held) in
          (apart, (info, ap (λ b. if b then some theirs else lookup other rest) off ∙ held, same))
    ]

abbrev pub AllAnswer : Stat → List StoreLayout → Type 0
AllAnswer stat layouts =
    (l : StoreLayout) → is_in l layouts ≡ true → (o : Option SnapshotInfo) × (stat l ≡ ok o)

-- What inspect may answer, and when.
pub data Verdict (stat : Stat) (layouts : List StoreLayout)
    : Result StoreError (Option (StoreLayout × SnapshotInfo)) → Type 0 where
  fails :
      (l : StoreLayout) (e : StoreError)
      → is_in l layouts ≡ true
      → stat l ≡ err e
      → Verdict stat layouts (err inspect_failed)
  finds_none :
      ((l : StoreLayout) → is_in l layouts ≡ true → stat l ≡ ok none)
      → Verdict stat layouts (ok none)
  clashes :
      (l other : StoreLayout) (info theirs : SnapshotInfo)
      → AllAnswer stat layouts
      → other ≢ l
      → is_in l layouts ≡ true
      → is_in other layouts ≡ true
      → stat l ≡ ok (some info)
      → stat other ≡ ok (some theirs)
      → theirs.generation ≡ info.generation
      → ((x : StoreLayout) (i : SnapshotInfo)
          → is_in x layouts ≡ true
          → stat x ≡ ok (some i)
          → i.generation ≤ info.generation)
      → Verdict stat layouts (err (ambiguous l other info.generation))
  selects :
      (l : StoreLayout) (info : SnapshotInfo)
      → AllAnswer stat layouts
      → is_in l layouts ≡ true
      → stat l ≡ ok (some info)
      → ((x : StoreLayout) (i : SnapshotInfo)
          → is_in x layouts ≡ true
          → x ≢ l
          → stat x ≡ ok (some i)
          → i.generation < info.generation)
      → Verdict stat layouts (ok (some (l, info)))

module _ (stat : Stat) (layouts : List StoreLayout) (state : AutoState)
    (known : Collected stat layouts state) where
  none-Verdict : state.failed ≡ [] → state.selected ≡ none → Verdict stat layouts (ok none)
  none-Verdict clear nothing = finds_none (λ l within.
      let (o, at) = known.answered clear l within in
      elim (Option-cases o) [
        | inl empty ↦ at ∙ ap ok empty
        | inr (info, full) ↦
            absurd
              (ground (arith, known.to l info within (at ∙ ap ok full), known.unselected nothing l))
      ])

  some-Verdict :
      (l : StoreLayout) (info : SnapshotInfo)
      → state.failed ≡ []
      → state.selected ≡ some (l, info)
      → Verdict stat layouts (elim (find_ambiguous l info.generation state.by_layout) [
        | some other ↦ err (ambiguous l other info.generation)
        | none ↦ ok (some (l, info))
      ])
  some-Verdict l info clear chosen =
      let (within, at) = known.from l info (known.newest l info chosen) in
      elim (Option-cases (find_ambiguous l info.generation state.by_layout)) [
        | inl plain ↦ rw plain (
            selects l info (known.answered clear) within at (λ x i inside apart told.
              let held = known.to x i inside told in
              let apart_in =
                none_ambiguous l x info.generation i state.by_layout plain apart held in
              omega (arith, known.above l x info i chosen held)))
        | inr (other, clash) ↦
            let (apart, (theirs, held, same)) =
              some_ambiguous l other info.generation state.by_layout clash known.unique in
            let (inside, told) = known.from other theirs held in
            rw clash (
              clashes l other info theirs (known.answered clear) apart within inside at told same
                (λ x i near says. known.above l x info i chosen (known.to x i near says)))
      ]

  at_stage :
      (failed : List StoreLayout) (selected : Option (StoreLayout × SnapshotInfo))
      → state.failed ≡ failed
      → state.selected ≡ selected
      → Verdict stat layouts (conclude (record state { failed = failed; selected = selected }))
  unfolding conclude
  at_stage (l ∷ rest) selected broken chosen =
      let (within, (e, at)) = known.failed_at l rest broken in fails l e within at
  at_stage [] none clear nothing = none-Verdict clear nothing
  at_stage [] (some (l, info)) clear chosen = some-Verdict l info clear chosen

  conclude-Verdict : Verdict stat layouts (conclude state)
  conclude-Verdict = at_stage state.failed state.selected refl refl

-- The answer of inspect for any arrivals.
pub inspect-Verdict :
    {S : Type 0} (stores : Stores S) (arrivals : List StoreLayout) (remote : S) (bed_id : String)
    → Verdict (stat_of stores remote bed_id) arrivals (inspect stores arrivals remote bed_id)
unfolding inspect
inspect-Verdict stores arrivals remote bed_id =
    conclude-Verdict (stat_of stores remote bed_id) arrivals (collect stores arrivals remote bed_id)
      (collect-Collected stores arrivals remote bed_id)

module _ (stat : Stat) (xs ys : List StoreLayout)
    (same_members : (l : StoreLayout) → is_in l xs ≡ is_in l ys) where
  pub selects_same :
      (l : StoreLayout) (info : SnapshotInfo)
      (r : Result StoreError (Option (StoreLayout × SnapshotInfo)))
      → AllAnswer stat xs
      → is_in l xs ≡ true
      → stat l ≡ ok (some info)
      → ((x : StoreLayout) (i : SnapshotInfo)
          → is_in x xs ≡ true
          → x ≢ l
          → stat x ≡ ok (some i)
          → i.generation < info.generation)
      → Verdict stat ys r
      → r ≡ ok (some (l, info))
  selects_same l info r answers within at above (fails m e inside broken) =
      let (o, told) = answers m (same_members m ∙ inside) in absurd (ground (arith, told, broken))
  selects_same l info r answers within at above (finds_none nothing) =
      absurd (ground (arith, at, nothing l (sym (same_members l) ∙ within)))
  selects_same l info r answers within at above
        (clashes m other i theirs all apart in_m in_other at_m at_other same top) =
      elim (Bool-cases (m == l)) [
        | inr two ↦
            let apart_ml : m ≢ l = λ one. ground (arith, two, layout_eq.same_iff m l, one) in
            absurd (
              omega (
                arith,
                above m i (same_members m ∙ in_m) apart_ml at_m,
                top l info (sym (same_members l) ∙ within) at,
              ))
        | inl one ↦
            let m_is_l = (layout_eq.same_iff m l).0 one in
            let told : ok (some i) ≡ ok (some info) = sym at_m ∙ ap stat m_is_l ∙ at in
            let equal : i ≡ info = ground (arith, told) in
            absurd (
              omega (
                arith,
                above other theirs (same_members other ∙ in_other) (λ o. apart (o ∙ sym m_is_l))
                    at_other,
                ap (λ x. x.generation) equal,
              ))
      ]
  selects_same l info r answers within at above (selects m i all inside told below) =
      elim (Bool-cases (m == l)) [
        | inl one ↦
            let m_is_l = (layout_eq.same_iff m l).0 one in
            let equal : ok (some i) ≡ ok (some info) = sym told ∙ ap stat m_is_l ∙ at in
            ground (arith, equal, m_is_l)
        | inr two ↦
            let apart : m ≢ l = λ one. ground (arith, two, layout_eq.same_iff m l, one) in
            absurd (
              omega (
                arith,
                above m i (same_members m ∙ inside) apart told,
                below l info (sym (same_members l) ∙ within) (λ o. apart (sym o)) at,
              ))
      ]

  pub finds_none_same :
      (r : Result StoreError (Option (StoreLayout × SnapshotInfo)))
      → ((l : StoreLayout) → is_in l xs ≡ true → stat l ≡ ok none)
      → Verdict stat ys r
      → r ≡ ok none
  finds_none_same r nothing (fails m e inside broken) =
      absurd (ground (arith, broken, nothing m (same_members m ∙ inside)))
  finds_none_same r nothing (finds_none all) = refl
  finds_none_same r nothing (clashes m o i theirs all apart in_m in_o at_m at_o same top) =
      absurd (ground (arith, at_m, nothing m (same_members m ∙ in_m)))
  finds_none_same r nothing (selects m i all inside told below) =
      absurd (ground (arith, told, nothing m (same_members m ∙ inside)))

  Verdict-same :
      (r r' : Result StoreError (Option (StoreLayout × SnapshotInfo)))
      (out : Option (StoreLayout × SnapshotInfo))
      → Verdict stat xs r
      → Verdict stat ys r'
      → r ≡ ok out
      → r' ≡ ok out
  Verdict-same r r' out (fails l e within at) other done = absurd (ground arith)
  Verdict-same r r' out (clashes m o i theirs all apart in_m in_o at_m at_o same top) other done =
      absurd (ground arith)
  Verdict-same r r' out (selects l info all within at above) other done =
      selects_same l info r' all within at above other ∙ done
  Verdict-same r r' out (finds_none nothing) other done = finds_none_same r' nothing other ∙ done

-- Stat, Restore and Persist of internal/bed/store/sync/auto.go go by the same snapshot in whatever
-- order the backends answer: two orders of the same layouts succeed together, with the same choice.
pub inspect_order :
    {S : Type 0} (stores : Stores S) (arrivals others : List StoreLayout) (remote : S)
    (bed_id : String) (selected : Option (StoreLayout × SnapshotInfo))
    → ((l : StoreLayout) → is_in l arrivals ≡ is_in l others)
    → (inspect stores arrivals remote bed_id ≡ ok selected)
      ↔ (inspect stores others remote bed_id ≡ ok selected)
inspect_order stores arrivals others remote bed_id selected same =
    let stat = stat_of stores remote bed_id in
    let mine = inspect-Verdict stores arrivals remote bed_id in
    let theirs = inspect-Verdict stores others remote bed_id in
    (
      Verdict-same stat arrivals others same (inspect stores arrivals remote bed_id)
          (inspect stores others remote bed_id) selected mine theirs,
      Verdict-same stat others arrivals (λ l. sym (same l)) (inspect stores others remote bed_id)
          (inspect stores arrivals remote bed_id) selected theirs mine,
    )
