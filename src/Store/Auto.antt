-- ===== src/Store/Auto.antt =====
-- internal/bed/store/sync/auto.go: the store that routes between the layouts. `arrivals` is the order
-- in which the goroutines of inspect send their results, `accepts` is whether newSnapshotFilter takes
-- the roots, and `exceeds` is what exceedsSnapshotFileThreshold finds.
use hostel.Base.{
  ℕ, String, Bool, true, false, not, ◌&&◌, Option, none, some, List, [], ◌∷◌, if◌then◌else◌, ltb,
  leb, nat_beq, ◌==◌, nat_eq,
}
use hostel.Base.GoMap.{GoMap, insert}
use hostel.Base.Result.{Result, ok, err}
use hostel.Store.Layout.{
  StoreLayout, cas, pack, tar, restic, Kind, noop_kind, auto_kind, cas_kind, pack_kind, tar_kind,
  restic_kind, copy_kind, layout_eq, SnapshotInfo, StoreError, conflict, inspect_failed, ambiguous,
  not_found, bad_volume_roots, delete_failed, Stores,
}

pub record Auto : Type 0 where
  pub kind : Kind
  pub has_restic : Bool

-- NewAuto
abbrev pub new_auto : Auto
new_auto = record { kind = auto_kind; has_restic = true }

-- WithKind
abbrev pub with_kind : Auto → Kind → Auto
with_kind s kind = record s { kind = kind }

-- backends
unfoldable pub backends : Auto → List StoreLayout
backends s = cas ∷ pack ∷ tar ∷ (if s.has_restic then restic ∷ [] else [])

-- autoState; the layouts whose Stat failed stand for inspectErr.
pub record AutoState : Type 0 where
  pub selected : Option (StoreLayout × SnapshotInfo)
  pub by_layout : GoMap StoreLayout SnapshotInfo
  pub failed : List StoreLayout

abbrev pub new_state : AutoState
new_state = record { selected = none; by_layout = []; failed = [] }

-- Whether a snapshot is selected over what was.
abbrev pub is_newer : SnapshotInfo → Option (StoreLayout × SnapshotInfo) → Bool
is_newer info none = true
is_newer info (some (layout, old)) = ltb old.generation info.generation

-- The body of the loop over the results.
unfoldable pub collect_one :
    StoreLayout → Result StoreError (Option SnapshotInfo) → AutoState → AutoState
collect_one layout (err e) state = record state { failed = layout ∷ state.failed }
collect_one layout (ok none) state = state
collect_one layout (ok (some info)) state = record state {
  by_layout = insert layout info state.by_layout;
  selected = if is_newer info state.selected then some (layout, info) else state.selected;
}

-- A layout other than the selected one with its generation.
unfoldable pub find_ambiguous :
    StoreLayout → ℕ → GoMap StoreLayout SnapshotInfo → Option StoreLayout
find_ambiguous selected generation [] = none
find_ambiguous selected generation ((layout, info) ∷ rest) =
    if not (layout == selected) && nat_beq info.generation generation
    then some layout
    else find_ambiguous selected generation rest

-- The end of inspect.
unfoldable pub conclude : AutoState → Result StoreError (Option (StoreLayout × SnapshotInfo))
conclude state = elim state.failed [
  | layout ∷ rest ↦ err inspect_failed
  | [] ↦ elim state.selected [
    | none ↦ ok none
    | some (layout, info) ↦ elim (find_ambiguous layout info.generation state.by_layout) [
      | some other ↦ err (ambiguous layout other info.generation)
      | none ↦ ok (some (layout, info))
    ]
  ]
]

-- The target of an auto-routed Persist.
unfoldable pub routed :
    Option StoreLayout → Result StoreError Bool → Kind → Result StoreError StoreLayout
routed (some cas) exceeds auto_kind = elim exceeds [
  | err e ↦ err e
  | ok true ↦ ok pack
  | ok false ↦ ok cas
]
routed (some layout) exceeds kind = ok layout
routed none exceeds kind = ok pack

-- The target of Persist, after the switch on the kind.
unfoldable pub target :
    Option StoreLayout → Result StoreError Bool → Kind → Result StoreError StoreLayout
target selected exceeds cas_kind = ok cas
target selected exceeds pack_kind = ok pack
target selected exceeds restic_kind = ok restic
target selected exceeds tar_kind = ok tar
target selected exceeds auto_kind = routed selected exceeds auto_kind
target selected exceeds noop_kind = routed selected exceeds noop_kind
target selected exceeds copy_kind = routed selected exceeds copy_kind

abbrev pub layout_of : Option (StoreLayout × SnapshotInfo) → Option StoreLayout
layout_of none = none
layout_of (some (layout, info)) = some layout

module _ {S : Type 0} (stores : Stores S) where
  -- The loop of inspect; the results stand with the last first.
  unfoldable pub collect : List StoreLayout → S → String → AutoState
  collect [] remote bed_id = new_state
  collect (layout ∷ earlier) remote bed_id =
      collect_one layout (stores.stat layout remote bed_id) (collect earlier remote bed_id)

  -- inspect, as the snapshot it selects
  unfoldable pub inspect :
      List StoreLayout → S → String → Result StoreError (Option (StoreLayout × SnapshotInfo))
  inspect arrivals remote bed_id = conclude (collect arrivals remote bed_id)

  -- Stat
  unfoldable pub stat : List StoreLayout → S → String → Result StoreError (Option SnapshotInfo)
  stat arrivals remote bed_id = elim (inspect arrivals remote bed_id) [
    | err e ↦ err e
    | ok none ↦ ok none
    | ok (some (layout, info)) ↦ ok (some info)
  ]

  -- Restore
  unfoldable pub restore : List StoreLayout → S → String → String → Result StoreError (Unit {0})
  restore arrivals remote bed_id dir = elim (inspect arrivals remote bed_id) [
    | err e ↦ err e
    | ok none ↦ err not_found
    | ok (some (layout, info)) ↦ stores.restore layout remote bed_id dir
  ]

  -- Persist after inspect
  unfoldable pub persist_selected :
      Option (StoreLayout × SnapshotInfo)
      → Auto
      → Result StoreError Bool
      → S
      → String
      → String
      → ℕ
      → List String
      → Result StoreError S
  persist_selected selected s exceeds remote bed_id dir generation roots =
      let next : Result StoreError S = elim (target (layout_of selected) exceeds s.kind) [
        | err e ↦ err e
        | ok layout ↦ stores.persist layout remote bed_id dir generation roots
      ] in
      elim selected [
        | none ↦ next
        | some (layout, info) ↦
            if leb generation info.generation
            then err (conflict layout info.generation generation)
            else next
      ]

  -- Persist
  unfoldable pub persist :
      Auto
      → List StoreLayout
      → Bool
      → Result StoreError Bool
      → S
      → String
      → String
      → ℕ
      → List String
      → Result StoreError S
  persist s arrivals accepts exceeds remote bed_id dir generation roots =
      if not accepts then err bad_volume_roots else elim (inspect arrivals remote bed_id) [
        | err e ↦ err e
        | ok selected ↦ persist_selected selected s exceeds remote bed_id dir generation roots
      ]

  -- The loop of Delete: every layout is deleted, whatever the others return.
  unfoldable pub delete_loop : List StoreLayout → S → String → Bool × S
  delete_loop [] remote bed_id = (false, remote)
  delete_loop (layout ∷ rest) remote bed_id =
      let deleted = stores.delete layout remote bed_id in
      let others = delete_loop rest deleted.1 bed_id in
      elim deleted.0 [ none ↦ others | some e ↦ (true, others.1) ]

  -- Delete
  unfoldable pub delete : Auto → S → String → Option StoreError × S
  delete s remote bed_id =
      let done = delete_loop (backends s) remote bed_id in
      (if done.0 then some delete_failed else none, done.1)
