-- ===== src/Crds/Defaults/Collisions/MountPaths.antt =====
-- What the check on mount paths of crates/servarr-crds/src/v1alpha1/defaults.rs accepts, and what it
-- reports.
use servarr_operator.Prelude.{String, ◌≡◌, true, List, ◌++◌, map, contains, Bool}
use servarr_operator.Crds.Types.Persistence.{PvcVolume, NfsMount}
use servarr_operator.Crds.Defaults.Paths.{normalize_mount_path}
use servarr_operator.Crds.Defaults.Collisions.{PersistenceError, path_reserved, path_taken, Entry}

-- The normalized paths of the user's mounts, and of the operator's.
abbrev pub user_paths : List PvcVolume → List NfsMount → List String
user_paths volumes nfs_mounts =
    map (λ (v : PvcVolume). normalize_mount_path v.mount_path) volumes
    ++ map (λ (m : NfsMount). normalize_mount_path m.mount_path) nfs_mounts

abbrev pub operator_paths : List (String × String) → List String
operator_paths reserved = map (λ (r : String × String). normalize_mount_path r.0) reserved

-- A path that is reported as reserved is one of the operator's, and one that is reported as taken
-- is one of the user's.
abbrev pub IsPathBlamed : List String → List String → PersistenceError → Type 0
IsPathBlamed users operators (path_reserved name path) =
    contains (normalize_mount_path path) operators ≡ true
IsPathBlamed users operators (path_taken prior_name name path) =
    contains (normalize_mount_path path) users ≡ true
IsPathBlamed users operators _ = ⊥

abbrev is_operator_path : Entry → Bool
is_operator_path e = e.is_reserved
