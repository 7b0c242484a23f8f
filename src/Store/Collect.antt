-- ===== src/Store/Collect.antt =====
-- What the loop of `inspect` in internal/bed/store/sync/auto.go knows after any results.
use hostel.Base.{
  ◌≤◌, ◌<◌, ◌≡◌, ◌≢◌, refl, sym, ap, ◌∙◌, subst, String, Bool, true, Option, none, some, List, [],
  ◌∷◌, if◌then◌else◌, ◌==◌, any, inl, inr, ◌⊎◌, arith, Bool-cases, Option-cases,
}
use hostel.Base.GoMap.{GoMap, lookup, insert, lookup-insert, IsMap, insert-IsMap}
use hostel.Base.Result.{Result, ok, err}
use hostel.Store.Layout.{StoreLayout, layout_eq, SnapshotInfo, StoreError, Stores}
use hostel.Store.Auto.{AutoState, new_state, is_newer, collect_one, collect}

abbrev pub is_in : StoreLayout → List StoreLayout → Bool
is_in layout layouts = any (λ x. x == layout) layouts

abbrev pub Stat : Type 0
Stat = StoreLayout → Result StoreError (Option SnapshotInfo)

-- The state holds what the seen layouts have answered, and selects a newest of them.
pub record Collected (stat : Stat) (seen : List StoreLayout) (state : AutoState) : Type 0 where
  pub answered :
      state.failed ≡ []
      → (layout : StoreLayout) → is_in layout seen ≡ true
      → (o : Option SnapshotInfo) × (stat layout ≡ ok o)
  pub failed_at :
      (layout : StoreLayout) (rest : List StoreLayout)
      → state.failed ≡ layout ∷ rest
      → (is_in layout seen ≡ true) × ((e : StoreError) × (stat layout ≡ err e))
  pub from :
      (layout : StoreLayout) (info : SnapshotInfo)
      → lookup layout state.by_layout ≡ some info
      → (is_in layout seen ≡ true) × (stat layout ≡ ok (some info))
  pub to :
      (layout : StoreLayout) (info : SnapshotInfo)
      → is_in layout seen ≡ true
      → stat layout ≡ ok (some info)
      → lookup layout state.by_layout ≡ some info
  pub unselected :
      state.selected ≡ none → (layout : StoreLayout) → lookup layout state.by_layout ≡ none
  pub newest :
      (layout : StoreLayout) (info : SnapshotInfo)
      → state.selected ≡ some (layout, info)
      → lookup layout state.by_layout ≡ some info
  pub above :
      (layout other : StoreLayout) (info theirs : SnapshotInfo)
      → state.selected ≡ some (layout, info)
      → lookup other state.by_layout ≡ some theirs
      → theirs.generation ≤ info.generation
  pub unique : IsMap state.by_layout

here_in : (l : StoreLayout) (seen : List StoreLayout) → is_in l (l ∷ seen) ≡ true
here_in l seen = ground arith

pub later_in :
    (l x : StoreLayout) (seen : List StoreLayout) → is_in l seen ≡ true → is_in l (x ∷ seen) ≡ true
later_in l x seen within = ground arith

in_cases :
    (l x : StoreLayout) (seen : List StoreLayout)
    → is_in l (x ∷ seen) ≡ true
    → (x ≡ l) ⊎ (is_in l seen ≡ true)
in_cases l x seen within = elim (Bool-cases (x == l)) [
  | inl same ↦ inl ((layout_eq.same_iff x l).0 same)
  | inr other ↦ inr (ground (arith, other))
]

insert_at :
    (x l : StoreLayout) (info : SnapshotInfo) (m : GoMap StoreLayout SnapshotInfo)
    → ((x ≡ l) × (lookup l (insert x info m) ≡ some info))
      ⊎ ((x ≢ l) × (lookup l (insert x info m) ≡ lookup l m))
insert_at x l info m = elim (Bool-cases (x == l)) [
  | inl same ↦ inl (
    (layout_eq.same_iff x l).0 same,
    lookup-insert x l info m ∙ ap (λ b. if b then some info else lookup l m) same,
  )
  | inr other ↦ inr (
    (λ same. ground (arith, (layout_eq.same_iff x l).1 same, other)),
    lookup-insert x l info m ∙ ap (λ b. if b then some info else lookup l m) other,
  )
]

module _ (stat : Stat) (layout : StoreLayout) (seen : List StoreLayout) (state : AutoState)
    (known : Collected stat seen state) where
  collect_failed :
      (e : StoreError)
      → stat layout ≡ err e
      → Collected stat (layout ∷ seen) (collect_one layout (err e) state)
  unfolding collect_one
  collect_failed e at = record {
    answered = λ clear. absurd (ground arith);
    failed_at = λ first rest same.
        (let one : layout ≡ first = ground (arith, same) in
          (
            subst (λ l. is_in l (layout ∷ seen) ≡ true) one (here_in layout seen),
            (e, ap stat (sym one) ∙ at),
          ));
    from = λ l info held.
        (later_in l layout seen (known.from l info held).0, (known.from l info held).1);
    to = λ l info within held. elim (in_cases l layout seen within) [
      | inr before ↦ known.to l info before held
      | inl one ↦ absurd (ground (arith, ap stat one, at, held))
    ];
    unselected = known.unselected;
    newest = known.newest;
    above = known.above;
    unique = known.unique;
  }

  collect_none :
      stat layout ≡ ok none → Collected stat (layout ∷ seen) (collect_one layout (ok none) state)
  unfolding collect_one
  collect_none at = record {
    answered = λ clear l within. elim (in_cases l layout seen within) [
      | inr before ↦ known.answered clear l before
      | inl one ↦ (none, ap stat (sym one) ∙ at)
    ];
    failed_at = λ first rest same. (
      later_in first layout seen (known.failed_at first rest same).0,
      (known.failed_at first rest same).1,
    );
    from = λ l info held.
        (later_in l layout seen (known.from l info held).0, (known.from l info held).1);
    to = λ l info within held. elim (in_cases l layout seen within) [
      | inr before ↦ known.to l info before held
      | inl one ↦ absurd (ground (arith, ap stat one, at, held))
    ];
    unselected = known.unselected;
    newest = known.newest;
    above = known.above;
    unique = known.unique;
  }

  collect_some :
      (info : SnapshotInfo)
      → stat layout ≡ ok (some info)
      → Collected stat (layout ∷ seen) (collect_one layout (ok (some info)) state)
  unfolding collect_one
  collect_some info at = record {
    answered = λ clear l within. elim (in_cases l layout seen within) [
      | inr before ↦ known.answered clear l before
      | inl one ↦ (some info, ap stat (sym one) ∙ at)
    ];
    failed_at = λ first rest same. (
      later_in first layout seen (known.failed_at first rest same).0,
      (known.failed_at first rest same).1,
    );
    from = λ l theirs held. elim (insert_at layout l info state.by_layout) [
      | inl (one, now) ↦
          let same_info : some info ≡ some theirs = sym now ∙ held in
          (
            subst (λ x. is_in x (layout ∷ seen) ≡ true) one (here_in layout seen),
            ap stat (sym one) ∙ at ∙ ap ok same_info,
          )
      | inr (other, now) ↦
          let before = known.from l theirs (sym now ∙ held) in
          (later_in l layout seen before.0, before.1)
    ];
    to = λ l theirs within held. elim (insert_at layout l info state.by_layout) [
      | inl (one, now) ↦ now ∙ ground (arith, sym at ∙ ap stat one ∙ held)
      | inr (other, now) ↦ elim (in_cases l layout seen within) [
        | inl one ↦ absurd (other one)
        | inr before ↦ now ∙ known.to l theirs before held
      ]
    ];
    unselected = λ nothing. absurd (ground arith);
    newest = λ l theirs chosen. elim (Bool-cases (is_newer info state.selected)) [
      | inl newer ↦
          let mine : (layout ≡ l) × (info ≡ theirs) = ground (arith, newer) in
          elim (insert_at layout l info state.by_layout) [
            | inl (one, now) ↦ now ∙ ap some mine.1
            | inr (other, now) ↦ absurd (other mine.0)
          ]
      | inr older ↦
          let before : state.selected ≡ some (l, theirs) = ground (arith, older) in
          let held = known.newest l theirs before in
          elim (insert_at layout l info state.by_layout) [
            | inr (other, now) ↦ now ∙ held
            | inl (one, now) ↦
                let told = sym at ∙ ap stat one ∙ (known.from l theirs held).1 in
                now ∙ ground (arith, told)
          ]
    ];
    above = λ l other theirs others chosen held. elim (Bool-cases (is_newer info state.selected)) [
      | inl newer ↦
          let mine : info ≡ theirs = ground (arith, newer) in
          elim (insert_at layout other info state.by_layout) [
            | inl (one, now) ↦
                let same_info : some info ≡ some others = sym now ∙ held in
                ground (arith, same_info, mine)
            | inr (apart, now) ↦ elim (Option-cases state.selected) [
              | inl nothing ↦ absurd (ground (arith, known.unselected nothing other, now))
              | inr ((first, old), was) ↦
                  let below = known.above first other old others was (sym now ∙ held) in
                  let less : old.generation < info.generation = ground (arith, newer, was) in
                  ground (arith, mine)
            ]
          ]
      | inr older ↦
          let before : state.selected ≡ some (l, theirs) = ground (arith, older) in
          elim (insert_at layout other info state.by_layout) [
            | inr (apart, now) ↦ known.above l other theirs others before (sym now ∙ held)
            | inl (one, now) ↦
                let same_info : some info ≡ some others = sym now ∙ held in
                ground (arith, same_info, before, older)
          ]
    ];
    unique = insert-IsMap layout info state.by_layout known.unique;
  }

new_state-Collected : (stat : Stat) → Collected stat [] new_state
new_state-Collected stat = record {
  answered = λ clear l within. absurd (ground arith);
  failed_at = λ l rest same. absurd (ground arith);
  from = λ l info held. absurd (unfold lookup in ground arith);
  to = λ l info within held. absurd (ground arith);
  unselected = λ nothing l. unfold lookup in refl;
  newest = λ l info chosen. absurd (ground arith);
  above = λ l other info theirs chosen held. absurd (ground arith);
  unique = tt;
}

collect_one-Collected :
    (stat : Stat) (layout : StoreLayout) (seen : List StoreLayout) (state : AutoState)
    (answer : Result StoreError (Option SnapshotInfo))
    → stat layout ≡ answer
    → Collected stat seen state
    → Collected stat (layout ∷ seen) (collect_one layout answer state)
collect_one-Collected stat layout seen state (err e) at known =
    collect_failed stat layout seen state known e at
collect_one-Collected stat layout seen state (ok none) at known =
    collect_none stat layout seen state known at
collect_one-Collected stat layout seen state (ok (some info)) at known =
    collect_some stat layout seen state known info at

-- A backend's answers at one remote state and Bed.
abbrev pub stat_of : {S : Type 0} → Stores S → S → String → Stat
stat_of stores remote bed_id layout = stores.stat layout remote bed_id

pub collect-Collected :
    {S : Type 0} (stores : Stores S) (arrivals : List StoreLayout) (remote : S) (bed_id : String)
    → Collected (stat_of stores remote bed_id) arrivals (collect stores arrivals remote bed_id)
unfolding collect
collect-Collected stores [] remote bed_id = new_state-Collected (stat_of stores remote bed_id)
collect-Collected stores (layout ∷ earlier) remote bed_id =
    collect_one-Collected (stat_of stores remote bed_id) layout earlier
      (collect stores earlier remote bed_id) (stores.stat layout remote bed_id) refl
      (collect-Collected stores earlier remote bed_id)
