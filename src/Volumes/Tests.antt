-- ===== src/Volumes/Tests.antt =====
-- Declarations of a managed and of borrowed volumes.
use hostel.Base.{
  false, List, ◌≡◌, refl, String, true, not, ◌&&◌, none, some, [], ◌∷◌, if◌then◌else◌, ◌==◌,
  string_eq,
}
use hostel.Base.Result.{ok, err}
use hostel.Volumes.Declaration.{
  VolumeSpec, Paths, invalid_paths, paths_overlap, normalize_volume, normalize_loop, insert_volume,
  sort_volumes, normalize_volumes, persistent_volumes, has_volume, persistent_volume_roots,
  summarize_room, suite, room,
}
use hostel.Volumes.Mounts.{
  VolumeMount, PillowMounts, normalize_mounts, normalize_mount_loop, normalize_mount,
  validate_mount_path, sort_mounts, insert_mount, validate_volume_mounts, check_mounts,
}
use hostel.Volumes.Normal.{normalize_volumes-IsNormal, IsNormal}

abbrev small_paths : Paths
small_paths = record {
  is_volume_name = λ name. not (name == "");
  clean = λ path. if path == "/srv/b/" then "/srv/b" else path;
  is_abs = λ path. not (path == "srv");
  has_prefix = λ path prefix. path == "/srv/b/c" && prefix == "/srv/b/";
  is_before = λ name other. name == "a";
}

abbrev managed_a : VolumeSpec
managed_a = record { name = "a"; managed = some "sync"; host_path = none }

abbrev borrowed : String → String → VolumeSpec
borrowed name path = record { name = name; managed = none; host_path = some path }

normalized :
    normalize_volumes small_paths (borrowed "b" "/srv/b/" ∷ managed_a ∷ [])
    ≡ ok (managed_a ∷ borrowed "b" "/srv/b" ∷ [])
unfolding normalize_volumes normalize_loop normalize_volume sort_volumes insert_volume
normalized = refl

nested :
    normalize_volumes small_paths (borrowed "b" "/srv/b/" ∷ borrowed "c" "/srv/b/c" ∷ [])
    ≡ err invalid_paths
unfolding normalize_volumes normalize_loop normalize_volume paths_overlap
nested = refl

synced :
    persistent_volume_roots (persistent_volumes (managed_a ∷ borrowed "b" "/srv/b" ∷ []))
    ≡ "volumes/a" ∷ []
unfolding persistent_volumes persistent_volume_roots
synced = refl

known : has_volume (managed_a ∷ []) "a" ≡ true
unfolding has_volume
known = refl

weakest : summarize_room suite room ≡ room
weakest = refl

abbrev mount : String → String → VolumeMount
mount volume path = record { volume = volume; path = path; read_only = false }

abbrev shell : List VolumeMount → PillowMounts
shell mounts = record { name = "shell"; mounts = mounts }

mounted :
    normalize_mounts small_paths (mount "b" "/srv/b/" ∷ mount "c" "/srv/d" ∷ [])
    ≡ ok (mount "b" "/srv/b" ∷ mount "c" "/srv/d" ∷ [])
unfolding normalize_mounts normalize_mount_loop normalize_mount validate_mount_path paths_overlap
    sort_mounts insert_mount
mounted = refl

reserved : normalize_mounts small_paths (mount "b" "/proc" ∷ []) ≡ err invalid_paths
unfolding normalize_mounts normalize_mount_loop normalize_mount validate_mount_path paths_overlap
reserved = refl

granted : validate_volume_mounts (managed_a ∷ []) (shell (mount "a" "/data" ∷ []) ∷ []) ≡ ok tt
unfolding validate_volume_mounts check_mounts
granted = refl

unknown :
    validate_volume_mounts (managed_a ∷ []) (shell (mount "b" "/data" ∷ []) ∷ [])
    ≡ err invalid_paths
unfolding validate_volume_mounts check_mounts
unknown = refl

normalize_volumes-IsNormal_example : IsNormal small_paths (managed_a ∷ borrowed "b" "/srv/b" ∷ [])
normalize_volumes-IsNormal_example =
    normalize_volumes-IsNormal small_paths (borrowed "b" "/srv/b/" ∷ managed_a ∷ [])
      (managed_a ∷ borrowed "b" "/srv/b" ∷ []) normalized
