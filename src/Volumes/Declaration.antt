-- ===== src/Volumes/Declaration.antt =====
-- internal/bed/volumes.go, paths.go and room.go. The regular expression of volume names, Clean, IsAbs,
-- HasPrefix and the order of strings are parameters.
use Prim.Native.String.{◌++◌ as str_append}
use hostel.Base.{
  ℕ, String, Bool, true, false, not, ◌||◌, Option, none, some, List, [], ◌∷◌, if◌then◌else◌, ltb,
  ◌==◌, string_eq, any,
}
use hostel.Base.Result.{Result, ok, err, ◌>>◌, return_if}

-- VolumeSpec: the persistence of a managed volume, the path of a borrowed one.
pub record VolumeSpec : Type 0 where
  pub name : String
  pub managed : Option String
  pub host_path : Option String

-- Every refusal wraps ErrInvalidPaths.
pub data PathError : Type 0 where
  invalid_paths : PathError

-- What the code calls of regexp, path/filepath and strings.
pub record Paths : Type 0 where
  pub is_volume_name : String → Bool
  pub clean : String → String
  pub is_abs : String → Bool
  pub has_prefix : String → String → Bool
  pub is_before : String → String → Bool

abbrev pub is_some {ℓ} : {A : Type ℓ} → Option A → Bool
is_some none = false
is_some (some a) = true

abbrev pub is_persistence : Option String → Bool
is_persistence none = true
is_persistence (some persistence) = persistence == "none" || persistence == "sync"

abbrev pub is_synced : VolumeSpec → Bool
is_synced v = elim v.managed [ none ↦ false | some persistence ↦ persistence == "sync" ]

abbrev pub same_source : Bool → Bool → Bool
same_source true other = other
same_source false other = not other

module _ (lib : Paths) where
  -- PathsOverlap
  unfoldable pub paths_overlap : String → String → Bool
  paths_overlap a b =
      a == b
      || (a == "/"
          || (b == "/"
              || (lib.has_prefix a (str_append b "/") || lib.has_prefix b (str_append a "/"))))

  abbrev pub host_overlap : VolumeSpec → VolumeSpec → Bool
  host_overlap v other = elim v.host_path [
    | none ↦ false
    | some path ↦ elim other.host_path [ none ↦ false | some theirs ↦ paths_overlap path theirs ]
  ]

  abbrev pub cleaned : VolumeSpec → VolumeSpec
  cleaned v = elim v.host_path [
    | none ↦ v
    | some path ↦ record v { host_path = some (lib.clean path) }
  ]

  abbrev pub is_bad_host_path : VolumeSpec → Bool
  is_bad_host_path v = elim v.host_path [
    | none ↦ false
    | some path ↦ not (lib.is_abs path) || path == "/"
  ]

  -- The body of NormalizeVolumes' loop: `checked` are the volumes before, the last first.
  unfoldable pub normalize_volume : VolumeSpec → List VolumeSpec → Result PathError VolumeSpec
  normalize_volume v checked =
      return_if
        (not (lib.is_volume_name v.name)
          || (any (λ other. other.name == v.name) checked
              || same_source (is_some v.managed) (is_some v.host_path)))
        invalid_paths
      >> (return_if (is_bad_host_path (cleaned v)) invalid_paths
          >> (return_if (any (host_overlap (cleaned v)) checked) invalid_paths
              >> (return_if (not (is_persistence v.managed)) invalid_paths >> ok (cleaned v))))

  unfoldable pub normalize_loop :
      List VolumeSpec → List VolumeSpec → Result PathError (List VolumeSpec)
  normalize_loop [] checked = ok checked
  normalize_loop (v ∷ rest) checked = elim (normalize_volume v checked) [
    | err e ↦ err e
    | ok normal ↦ normalize_loop rest (normal ∷ checked)
  ]

  -- slices.SortFunc by name, as an insertion sort: the names are distinct
  unfoldable pub insert_volume : VolumeSpec → List VolumeSpec → List VolumeSpec
  insert_volume v [] = v ∷ []
  insert_volume v (first ∷ rest) =
      if lib.is_before v.name first.name then v ∷ first ∷ rest else first ∷ insert_volume v rest

  unfoldable pub sort_volumes : List VolumeSpec → List VolumeSpec
  sort_volumes [] = []
  sort_volumes (v ∷ rest) = insert_volume v (sort_volumes rest)

  -- NormalizeVolumes
  unfoldable pub normalize_volumes : List VolumeSpec → Result PathError (List VolumeSpec)
  normalize_volumes volumes = elim (normalize_loop volumes []) [
    | err e ↦ err e
    | ok checked ↦ ok (sort_volumes checked)
  ]

-- PersistentVolumes
unfoldable pub persistent_volumes : List VolumeSpec → List VolumeSpec
persistent_volumes [] = []
persistent_volumes (v ∷ rest) =
    let others = persistent_volumes rest in if is_synced v then v ∷ others else others

-- HasVolume
unfoldable pub has_volume : List VolumeSpec → String → Bool
has_volume volumes name = any (λ v. v.name == name) volumes

-- PersistentVolumeRoots
unfoldable pub persistent_volume_roots : List VolumeSpec → List String
persistent_volume_roots [] = []
persistent_volume_roots (v ∷ rest) =
    let others = persistent_volume_roots rest in
    if is_synced v then str_append "volumes/" v.name ∷ others else others

-- RoomType
pub data RoomType : Type 0 where
  suite room dorm unprepared : RoomType

-- Rank
abbrev pub rank : RoomType → ℕ
rank suite = 3
rank room = 2
rank dorm = 1
rank unprepared = 0

-- SummarizeRoom
abbrev pub summarize_room : RoomType → RoomType → RoomType
summarize_room files network = if ltb (rank network) (rank files) then network else files
