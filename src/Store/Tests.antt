-- ===== src/Store/Tests.antt =====
-- Two layouts of one Bed over a store in memory.
use hostel.Base.{ℕ, ◌≡◌, ◌↔◌, ◌∙◌, refl, true, false, none, some, List, [], ◌∷◌}
use hostel.Base.GoMap.{GoMap, lookup, insert}
use hostel.Base.Result.{ok, err}
use hostel.Store.Layout.{
  StoreLayout, auto_kind, cas, pack, tar, restic, layout_eq, SnapshotInfo, conflict, Stores,
}
use hostel.Store.Auto.{
  new_auto, backends, inspect, collect, collect_one, conclude, find_ambiguous, persist,
  persist_selected, target, routed,
}
use hostel.Store.Collect.{is_in, stat_of}
use hostel.Store.Selection.{inspect_order}
use hostel.Store.Persist.{AllOlder, IsRouted, persist-AllOlder}

abbrev Memory : Type 0
Memory = GoMap StoreLayout SnapshotInfo

abbrev info_at : ℕ → SnapshotInfo
info_at generation = record { generation = generation; bytes = 0 }

abbrev in_memory : Stores Memory
in_memory = record {
  stat = λ layout remote bed_id. ok (lookup layout remote);
  restore = λ layout remote bed_id dir. ok tt;
  persist =
      λ layout remote bed_id dir generation roots. ok (insert layout (info_at generation) remote);
  delete = λ layout remote bed_id. (none, remote);
}

abbrev before : Memory
before = (cas, info_at 3) ∷ (tar, info_at 5) ∷ []

abbrev after_write : Memory
after_write = (cas, info_at 3) ∷ (tar, info_at 6) ∷ []

abbrev forward : List StoreLayout
forward = cas ∷ pack ∷ tar ∷ restic ∷ []

abbrev backward : List StoreLayout
backward = restic ∷ tar ∷ pack ∷ cas ∷ []

forward_all : (l : StoreLayout) → is_in l forward ≡ is_in l (backends new_auto)
unfolding backends
forward_all l = refl

reversed : (l : StoreLayout) → is_in l backward ≡ is_in l forward
reversed cas = refl
reversed pack = refl
reversed tar = refl
reversed restic = refl

backward_all : (l : StoreLayout) → is_in l backward ≡ is_in l (backends new_auto)
backward_all l = reversed l ∙ forward_all l

selected_tar : inspect in_memory backward before "bed" ≡ ok (some (tar, info_at 5))
unfolding inspect collect collect_one conclude find_ambiguous lookup insert
selected_tar = refl

written_tar :
    persist in_memory new_auto backward true (ok false) before "bed" "/bed" 6 [] ≡ ok after_write
unfolding persist persist_selected inspect collect collect_one conclude find_ambiguous target routed
    lookup insert
written_tar = refl

inspect_order_example :
    (inspect in_memory backward before "bed" ≡ ok (some (tar, info_at 5)))
    ↔ (inspect in_memory forward before "bed" ≡ ok (some (tar, info_at 5)))
inspect_order_example =
    inspect_order in_memory backward forward before "bed" (some (tar, info_at 5)) reversed

persist-AllOlder_example :
    AllOlder (stat_of in_memory before "bed") (backends new_auto) 6
    × ((layout : StoreLayout) × (in_memory.persist layout before "bed" "/bed" 6 [] ≡ ok after_write)
        × (auto_kind ≡ auto_kind
            → IsRouted (stat_of in_memory before "bed") (backends new_auto) (ok false) layout))
persist-AllOlder_example =
    persist-AllOlder in_memory new_auto backward backward_all before "bed" true (ok false)
      after_write "/bed" 6 [] written_tar

refused :
    persist in_memory new_auto backward true (ok false) before "bed" "/bed" 5 []
    ≡ err (conflict tar 5 5)
unfolding persist persist_selected inspect collect collect_one conclude find_ambiguous target routed
    lookup insert
refused = refl
