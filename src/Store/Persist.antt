-- ===== src/Store/Persist.antt =====
-- What a Persist of internal/bed/store/sync/auto.go that succeeds tells of the backends.
use hostel.Base.{
  ℕ, ◌<◌, ◌≡◌, ◌≢◌, refl, sym, ap, ◌∙◌, String, Bool, true, false, Option, none, some, List, ltb,
  ◌==◌, nat_eq, inl, inr, arith, Bool-cases, Option-cases,
}
use hostel.Base.Result.{Result, ok, Result-cases}
use hostel.Store.Layout.{
  StoreLayout, auto_kind, cas, pack, tar, restic, layout_eq, SnapshotInfo, StoreError, Stores,
}
use hostel.Store.Auto.{
  Auto, backends, inspect, persist, persist_selected, target, routed, layout_of,
}
use hostel.Store.Collect.{Stat, is_in, stat_of}
use hostel.Store.Selection.{
  AllAnswer, Verdict, fails, finds_none, clashes, selects, inspect-Verdict, selects_same,
  finds_none_same,
}

abbrev pub is_older : Option SnapshotInfo → ℕ → Bool
is_older none generation = true
is_older (some old) generation = ltb old.generation generation

-- Each of the layouts answered, with no snapshot of this generation or a later one.
abbrev pub AllOlder : Stat → List StoreLayout → ℕ → Type 0
AllOlder stat layouts generation =
    (l : StoreLayout)
    → is_in l layouts ≡ true
    → (o : Option SnapshotInfo) × (stat l ≡ ok o) × (is_older o generation ≡ true)

-- The layout is that of the only newest snapshot.
abbrev pub IsNewest : Stat → List StoreLayout → StoreLayout → SnapshotInfo → Type 0
IsNewest stat layouts l info =
    (is_in l layouts ≡ true)
    × (stat l ≡ ok (some info))
    × ((x : StoreLayout) (i : SnapshotInfo)
        → is_in x layouts ≡ true
        → x ≢ l
        → stat x ≡ ok (some i)
        → i.generation < info.generation)

-- Where an auto-routed Persist writes, by what the layouts answered and whether the files exceed the
-- threshold: to pack where there is no snapshot; to the layout of the newest one, except that one in
-- cas whose files exceed the threshold goes on in pack.
pub record IsRouted (stat : Stat) (layouts : List StoreLayout) (exceeds : Result StoreError Bool)
    (layout : StoreLayout) : Type 0 where
  pub first : ((l : StoreLayout) → is_in l layouts ≡ true → stat l ≡ ok none) → layout ≡ pack
  pub kept :
      (l : StoreLayout) (info : SnapshotInfo) → IsNewest stat layouts l info → l ≢ cas → layout ≡ l
  pub small :
      (info : SnapshotInfo) → IsNewest stat layouts cas info → exceeds ≡ ok false → layout ≡ cas
  pub grown :
      (info : SnapshotInfo) → IsNewest stat layouts cas info → exceeds ≡ ok true → layout ≡ pack

selected_older :
    (stat : Stat) (layouts : List StoreLayout) (generation : ℕ)
    (r : Result StoreError (Option (StoreLayout × SnapshotInfo)))
    (selected : Option (StoreLayout × SnapshotInfo))
    → Verdict stat layouts r
    → r ≡ ok selected
    → (elim selected [ none ↦ true | some (l, info) ↦ ltb info.generation generation ]) ≡ true
    → AllOlder stat layouts generation
selected_older stat layouts g r selected (fails m e within at) done newer l inside =
    absurd (ground arith)
selected_older stat layouts g r selected
      (clashes m o i j answers apart in_l in_o at_l at_o same top) done newer l inside =
    absurd (ground arith)
selected_older stat layouts g r selected (finds_none nothing) done newer l inside =
    (none, nothing l inside, refl)
selected_older stat layouts g r selected (selects m info answers within at above) done newer l
      inside =
    let chosen : some (m, info) ≡ selected = ground arith in
    let below : info.generation < g = ground (arith, chosen) in
    let (o, told) = answers l inside in
    elim (Option-cases o) [
      | inl empty ↦ (o, told, ground (arith, empty))
      | inr (i, full) ↦ elim (Bool-cases (l == m)) [
        | inl one ↦
            let l_is_m = (layout_eq.same_iff l m).0 one in
            let equal : ok (some info) ≡ ok o = sym at ∙ sym (ap stat l_is_m) ∙ told in
            (o, told, ground (arith, equal, full))
        | inr two ↦
            let apart : l ≢ m = λ one. ground (arith, two, layout_eq.same_iff l m, one) in
            let less = above l i inside apart (told ∙ ap ok full) in (o, told, ground (arith, full))
      ]
    ]

module _ {S : Type 0} (stores : Stores S) (arrivals : List StoreLayout) where
  -- What a Persist that succeeds did: its snapshot is newer than the selected one, and the layout it
  -- routes to has written.
  Persisted :
      Option (StoreLayout × SnapshotInfo)
      → Auto
      → Result StoreError Bool
      → S
      → S
      → String
      → String
      → ℕ
      → List String
      → Type 0
  Persisted selected s exceeds remote remote' bed_id dir generation roots =
      (layout : StoreLayout) × ((elim selected [
        | none ↦ true
        | some (l, info) ↦ ltb info.generation generation
      ])
        ≡ true)
      × (target (layout_of selected) exceeds s.kind ≡ ok layout)
      × (stores.persist layout remote bed_id dir generation roots ≡ ok remote')

  persist_selected-eq-ok :
      (selected : Option (StoreLayout × SnapshotInfo)) (s : Auto) (exceeds : Result StoreError Bool)
      (remote remote' : S) (bed_id dir : String) (generation : ℕ) (roots : List String)
      → persist_selected stores selected s exceeds remote bed_id dir generation roots ≡ ok remote'
      → Persisted selected s exceeds remote remote' bed_id dir generation roots
  unfolding persist_selected Persisted
  persist_selected-eq-ok none s exceeds remote remote' bed_id dir generation roots done =
      elim (Result-cases (target none exceeds s.kind)) [
        | inl (layout, to) ↦ (layout, refl, to, ground (arith, to))
        | inr (e, failed) ↦ absurd (ground (arith, failed))
      ]
  persist_selected-eq-ok (some (l, info)) s exceeds remote remote' bed_id dir generation roots
        done =
      elim (Result-cases (target (some l) exceeds s.kind)) [
        | inl (layout, to) ↦ (layout, ground (arith, to), to, ground (arith, to))
        | inr (e, failed) ↦ absurd (ground (arith, failed))
      ]

  persist-eq-ok :
      (s : Auto) (accepts : Bool) (exceeds : Result StoreError Bool) (remote remote' : S)
      (bed_id dir : String) (generation : ℕ) (roots : List String)
      → persist stores s arrivals accepts exceeds remote bed_id dir generation roots ≡ ok remote'
      → (selected : Option (StoreLayout × SnapshotInfo)) × (inspect stores arrivals remote bed_id
          ≡ ok selected)
        × Persisted selected s exceeds remote remote' bed_id dir generation roots
  unfolding persist
  persist-eq-ok s accepts exceeds remote remote' bed_id dir generation roots done =
      elim (Result-cases (inspect stores arrivals remote bed_id)) [
        | inr (e, failed) ↦ absurd (ground (arith, failed))
        | inl (selected, found) ↦
            let went : persist_selected stores selected s exceeds remote bed_id dir generation roots
                ≡ ok remote' =
              ground (arith, found) in
            (
              selected,
              found,
              persist_selected-eq-ok selected s exceeds remote remote' bed_id dir generation roots
                  went,
            )
      ]

target-auto :
    (selected : Option StoreLayout) (exceeds : Result StoreError Bool) (s : Auto)
    → s.kind ≡ auto_kind
    → target selected exceeds s.kind ≡ routed selected exceeds auto_kind
unfolding target
target-auto selected exceeds s auto = ap (λ kind. target selected exceeds kind) auto

routed_to :
    (l layout : StoreLayout) (exceeds : Result StoreError Bool)
    → routed (some l) exceeds auto_kind ≡ ok layout
    → (l ≢ cas → layout ≡ l)
      × (l ≡ cas → exceeds ≡ ok false → layout ≡ cas)
      × (l ≡ cas → exceeds ≡ ok true → layout ≡ pack)
unfolding routed
routed_to cas layout exceeds to = (
  (λ off. absurd (off refl)),
  (λ at small. ground (arith, small)),
  (λ at grown. ground (arith, grown)),
)
routed_to pack layout exceeds to = ((λ off. ground arith), (λ at. cc), (λ at. cc))
routed_to tar layout exceeds to = ((λ off. ground arith), (λ at. cc), (λ at. cc))
routed_to restic layout exceeds to = ((λ off. ground arith), (λ at. cc), (λ at. cc))

routed_first :
    (layout : StoreLayout) (exceeds : Result StoreError Bool)
    → routed none exceeds auto_kind ≡ ok layout
    → layout ≡ pack
unfolding routed
routed_first layout exceeds to = ground arith

module _ {S : Type 0} (stores : Stores S) (s : Auto) (arrivals : List StoreLayout)
    (same : (l : StoreLayout) → is_in l arrivals ≡ is_in l (backends s)) (remote : S)
    (bed_id : String) where
  answered : Stat
  answered = stat_of stores remote bed_id

  target-IsRouted :
      (selected : Option (StoreLayout × SnapshotInfo)) (exceeds : Result StoreError Bool)
      (layout : StoreLayout)
      → s.kind ≡ auto_kind
      → AllAnswer answered (backends s)
      → inspect stores arrivals remote bed_id ≡ ok selected
      → target (layout_of selected) exceeds s.kind ≡ ok layout
      → IsRouted answered (backends s) exceeds layout
  unfolding answered
  target-IsRouted selected exceeds layout auto answers found to =
      let verdict = inspect-Verdict stores arrivals remote bed_id in
      let members : (l : StoreLayout) → is_in l (backends s) ≡ is_in l arrivals =
        λ l. sym (same l) in
      let route : routed (layout_of selected) exceeds auto_kind ≡ ok layout =
        sym (target-auto (layout_of selected) exceeds s auto) ∙ to in
      let at_newest : (l : StoreLayout) (info : SnapshotInfo)
          → IsNewest (stat_of stores remote bed_id) (backends s) l info
          → routed (some l) exceeds auto_kind ≡ ok layout =
        λ l info newest.
          let chosen : selected ≡ some (l, info) = ground (
            arith,
            found,
            selects_same (stat_of stores remote bed_id) (backends s) arrivals members l info
                (inspect stores arrivals remote bed_id) answers newest.0 newest.1 newest.2 verdict,
          ) in
          ap (λ x. routed (layout_of x) exceeds auto_kind) (sym chosen) ∙ route in
      record {
        first = λ nothing.
            let chosen : selected ≡ none = ground (
              arith,
              found,
              finds_none_same (stat_of stores remote bed_id) (backends s) arrivals members
                  (inspect stores arrivals remote bed_id) nothing verdict,
            ) in
            routed_first layout exceeds
              (ap (λ x. routed (layout_of x) exceeds auto_kind) (sym chosen) ∙ route);
        kept = λ l info newest off. (routed_to l layout exceeds (at_newest l info newest)).0 off;
        small = λ info newest few.
            (routed_to cas layout exceeds (at_newest cas info newest)).1 refl few;
        grown = λ info newest many.
            (routed_to cas layout exceeds (at_newest cas info newest)).2 refl many;
      }

  -- Whatever the backends do, and in whatever order they answer: where a Persist succeeds, every
  -- backend answered, no layout holds a snapshot of the Bed of this generation or a later one, and the
  -- result is that of one write, of this generation, by the backend of one layout. With automatic
  -- routing that is pack for a first snapshot and the layout of the newest snapshot otherwise, except
  -- that a snapshot in cas goes on in pack where its files exceed the threshold.
  pub persist-AllOlder :
      (accepts : Bool) (exceeds : Result StoreError Bool) (remote' : S) (dir : String)
      (generation : ℕ) (roots : List String)
      → persist stores s arrivals accepts exceeds remote bed_id dir generation roots ≡ ok remote'
      → AllOlder (stat_of stores remote bed_id) (backends s) generation
        × ((layout : StoreLayout) × (stores.persist layout remote bed_id dir generation roots
              ≡ ok remote')
            × (s.kind ≡ auto_kind
                → IsRouted (stat_of stores remote bed_id) (backends s) exceeds layout))
  unfolding Persisted answered
  persist-AllOlder accepts exceeds remote' dir generation roots done =
      let (selected, found, (layout, newer, to, wrote)) =
        persist-eq-ok stores arrivals s accepts exceeds remote remote' bed_id dir generation roots
          done in
      let older =
        selected_older (stat_of stores remote bed_id) arrivals generation
          (inspect stores arrivals remote bed_id) selected
          (inspect-Verdict stores arrivals remote bed_id) found newer in
      let all : AllOlder (stat_of stores remote bed_id) (backends s) generation =
        λ l inside. older l (same l ∙ inside) in
      (
        all,
        (
          layout,
          wrote,
          λ auto.
              target-IsRouted selected exceeds layout auto
                (λ l inside. let (o, told, below) = all l inside in (o, told)) found to,
        ),
      )
