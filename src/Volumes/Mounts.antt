-- ===== src/Volumes/Mounts.antt =====
-- The mounts of declared volumes (internal/bed/volumes.go and paths.go): NormalizeMounts and
-- ValidateVolumeMounts. path.Clean and path.IsAbs agree with those of path/filepath on Linux.
use hostel.Base.{String, Bool, not, ◌||◌, List, [], ◌∷◌, if◌then◌else◌, ◌==◌, string_eq, any}
use hostel.Base.Result.{Result, ok, err, ◌>>◌, return_if}
use hostel.Volumes.Declaration.{VolumeSpec, PathError, invalid_paths, Paths, paths_overlap}

pub record VolumeMount : Type 0 where
  pub volume : String
  pub path : String
  pub read_only : Bool

-- What ValidateVolumeMounts reads of a Pillow.
pub record PillowMounts : Type 0 where
  pub name : String
  pub mounts : List VolumeMount

module _ (lib : Paths) where
  -- validateMountPath
  unfoldable pub validate_mount_path : String → Result PathError (Unit {0})
  validate_mount_path p =
      return_if (not (lib.is_abs p) || p == "/") invalid_paths
      >> return_if (any (paths_overlap lib p) ("/dev" ∷ "/proc" ∷ "/sys" ∷ "/.hostel" ∷ []))
          invalid_paths

  -- The body of NormalizeMounts' loop: `checked` are the mounts before, the last first.
  unfoldable pub normalize_mount : VolumeMount → List VolumeMount → Result PathError VolumeMount
  normalize_mount m checked =
      let path = lib.clean m.path in
      return_if
        (not (lib.is_volume_name m.volume) || any (λ other. other.volume == m.volume) checked)
        invalid_paths
      >> (validate_mount_path path
          >> (return_if (any (λ other. paths_overlap lib path other.path) checked) invalid_paths
              >> ok (record m { path = path })))

  unfoldable pub normalize_mount_loop :
      List VolumeMount → List VolumeMount → Result PathError (List VolumeMount)
  normalize_mount_loop [] checked = ok checked
  normalize_mount_loop (m ∷ rest) checked = elim (normalize_mount m checked) [
    | err e ↦ err e
    | ok normal ↦ normalize_mount_loop rest (normal ∷ checked)
  ]

  -- slices.SortFunc by path, as an insertion sort: the paths are distinct
  unfoldable pub insert_mount : VolumeMount → List VolumeMount → List VolumeMount
  insert_mount m [] = m ∷ []
  insert_mount m (first ∷ rest) =
      if lib.is_before m.path first.path then m ∷ first ∷ rest else first ∷ insert_mount m rest

  unfoldable pub sort_mounts : List VolumeMount → List VolumeMount
  sort_mounts [] = []
  sort_mounts (m ∷ rest) = insert_mount m (sort_mounts rest)

  -- NormalizeMounts
  unfoldable pub normalize_mounts : List VolumeMount → Result PathError (List VolumeMount)
  normalize_mounts mounts = elim (normalize_mount_loop mounts []) [
    | err e ↦ err e
    | ok checked ↦ ok (sort_mounts checked)
  ]

-- The closure `check` of ValidateVolumeMounts.
unfoldable pub check_mounts : List VolumeSpec → List VolumeMount → Result PathError (Unit {0})
check_mounts volumes [] = ok tt
check_mounts volumes (m ∷ rest) =
    return_if (not (any (λ v. v.name == m.volume) volumes)) invalid_paths
    >> check_mounts volumes rest

-- ValidateVolumeMounts
unfoldable pub validate_volume_mounts :
    List VolumeSpec → List PillowMounts → Result PathError (Unit {0})
validate_volume_mounts volumes [] = ok tt
validate_volume_mounts volumes (pillow ∷ rest) =
    check_mounts volumes pillow.mounts >> validate_volume_mounts volumes rest
