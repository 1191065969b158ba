-- ===== src/Crds/Defaults/Collisions/VolumeNames.antt =====
-- What the check on volume names of crates/servarr-crds/src/v1alpha1/defaults.rs accepts, and what it
-- reports.
use servarr_operator.Prelude.{String, ◌≡◌, Bool, true, List, ◌++◌, map, ◌⧺◌, contains}
use servarr_operator.Crds.Types.Persistence.{PvcVolume, NfsMount}
use servarr_operator.Crds.Defaults.Collisions.{PersistenceError, name_reserved, name_taken, Named}

-- The names in the pod of the user's volumes and NFS mounts.
abbrev pub user_volumes : List PvcVolume → List NfsMount → List String
user_volumes volumes nfs_mounts =
    map (λ (v : PvcVolume). v.name) volumes ++ map (λ (m : NfsMount). "nfs-" ⧺ m.name) nfs_mounts

-- A name that is reported as reserved is one of the operator's, and one that is reported as taken
-- is one of the user's.
abbrev pub IsNameBlamed : List String → List String → PersistenceError → Type 0
IsNameBlamed users operators (name_reserved entry name) = contains name operators ≡ true
IsNameBlamed users operators (name_taken prior_entry entry name) = contains name users ≡ true
IsNameBlamed users operators _ = ⊥

abbrev is_operator_volume : Named → Bool
is_operator_volume e = e.is_reserved
