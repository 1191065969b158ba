-- ===== src/Crds/Defaults/Collisions.antt =====
-- `find_mount_path_collision`, `find_volume_name_collision`, the duplicate check on one override
-- and the `..` check of crates/servarr-crds/src/v1alpha1/defaults.rs.
pub mod Laws
pub mod Apart
pub mod Sides
pub mod MountPaths
pub mod VolumeNames
use servarr_operator.Prelude.{
  String, Bool, true, false, ◌||◌, Option, none, some, List, [], ◌∷◌, ◌++◌, contains, ◌⧺◌, Result,
  ok, err, ◌>>=◌, ◌>>◌, if◌then◌else◌,
}
use servarr_operator.Prelude.Repeats.{find_repeat}
use servarr_operator.Crds.Types.Persistence.{PvcVolume, NfsMount, PersistenceSpec}
use servarr_operator.Crds.Defaults.Paths.{normalize_mount_path, has_parent_segment}

-- The error texts of `resolve_persistence_for_spec`, with what they interpolate.
pub data PersistenceError : Type 0 where
  duplicate_volume duplicate_nfs_mount : String → PersistenceError
  -- The entry of the user, and the path that it wrote.
  path_reserved : String → String → PersistenceError
  -- The two entries, and the path of the later one.
  path_taken : String → String → String → PersistenceError
  -- The entry of the user, and the volume name.
  name_reserved : String → String → PersistenceError
  name_taken : String → String → String → PersistenceError
  parent_segment : String → PersistenceError

abbrev pub Checked : Type 0
Checked = Result PersistenceError (Unit {0})

-- What a loop that stops at a repeated key returns, by the error text for the two items.
abbrev pub conclude {ℓ} : {A : Type ℓ} → (A → A → PersistenceError) → Option (A × A) → Checked
conclude report none = ok tt
conclude report (some (prior, e)) = err (report prior e)

-- One mount: its path, its name, and whether the operator reserves it.
pub record Entry : Type 0 where
  pub mount_path : String
  pub name : String
  pub is_reserved : Bool

-- The error for an entry whose key a prior entry has.
path_collision : Entry → Entry → PersistenceError
path_collision prior e =
    if prior.is_reserved || e.is_reserved
    then (if prior.is_reserved
        then path_reserved e.name e.mount_path
        else path_reserved prior.name prior.mount_path)
    else path_taken prior.name e.name e.mount_path

abbrev pub volume_paths : List PvcVolume → List Entry
volume_paths [] = []
volume_paths (v ∷ vs) =
    record { mount_path = v.mount_path; name = v.name; is_reserved = false } ∷ volume_paths vs

abbrev pub mount_paths : List NfsMount → List Entry
mount_paths [] = []
mount_paths (m ∷ ms) =
    record { mount_path = m.mount_path; name = m.name; is_reserved = false } ∷ mount_paths ms

abbrev pub reserved_paths : List (String × String) → List Entry
reserved_paths [] = []
reserved_paths ((path, name) ∷ rs) =
    record { mount_path = path; name = name; is_reserved = true } ∷ reserved_paths rs

-- The chained iterator of `find_mount_path_collision`.
abbrev pub path_entries : List PvcVolume → List NfsMount → List (String × String) → List Entry
path_entries volumes nfs_mounts reserved =
    volume_paths volumes ++ (mount_paths nfs_mounts ++ reserved_paths reserved)

abbrev pub path_key : Entry → String
path_key e = normalize_mount_path e.mount_path

-- The loop of the check ends at the first entry whose key an earlier entry has.
unfoldable pub find_mount_path_collision :
    List PvcVolume → List NfsMount → List (String × String) → Checked
unfolding path_collision
find_mount_path_collision volumes nfs_mounts reserved =
    conclude path_collision (find_repeat path_key [] (path_entries volumes nfs_mounts reserved))

-- One pod volume: its name in the pod, the name to display, and whether it is reserved.
pub record Named : Type 0 where
  pub volume_name : String
  pub display_name : String
  pub is_reserved : Bool

abbrev pub volume_key : Named → String
volume_key e = e.volume_name

name_collision : Named → Named → PersistenceError
name_collision prior e =
    if prior.is_reserved || e.is_reserved
    then (if prior.is_reserved
        then name_reserved e.display_name e.volume_name
        else name_reserved prior.display_name e.volume_name)
    else name_taken prior.display_name e.display_name e.volume_name

abbrev pub volume_names : List PvcVolume → List Named
volume_names [] = []
volume_names (v ∷ vs) =
    record { volume_name = v.name; display_name = v.name; is_reserved = false } ∷ volume_names vs

-- An NFS mount is the pod volume `nfs-<name>`.
abbrev pub mount_names : List NfsMount → List Named
mount_names [] = []
mount_names (m ∷ ms) =
    record { volume_name = "nfs-" ⧺ m.name; display_name = m.name; is_reserved = false }
    ∷ mount_names ms

abbrev pub reserved_entries : List String → List Named
reserved_entries [] = []
reserved_entries (n ∷ ns) =
    record { volume_name = n; display_name = n; is_reserved = true } ∷ reserved_entries ns

abbrev pub name_entries : List PvcVolume → List NfsMount → List String → List Named
name_entries volumes nfs_mounts reserved_names =
    volume_names volumes ++ (mount_names nfs_mounts ++ reserved_entries reserved_names)

unfoldable pub find_volume_name_collision : List PvcVolume → List NfsMount → List String → Checked
unfolding name_collision
find_volume_name_collision volumes nfs_mounts reserved_names =
    conclude name_collision
      (find_repeat volume_key [] (name_entries volumes nfs_mounts reserved_names))

-- The two loops of `validate_no_duplicate_names_in_override`, over a set of the names seen.
abbrev pub pvc_name : PvcVolume → String
pvc_name v = v.name

abbrev pub mount_name : NfsMount → String
mount_name m = m.name

check_duplicate_volumes : List PvcVolume → Checked
check_duplicate_volumes volumes =
    conclude (λ prior v. duplicate_volume v.name) (find_repeat pvc_name [] volumes)

check_duplicate_mounts : List NfsMount → Checked
check_duplicate_mounts nfs_mounts =
    conclude (λ prior m. duplicate_nfs_mount m.name) (find_repeat mount_name [] nfs_mounts)

unfoldable pub validate_no_duplicate_names_in_override : PersistenceSpec → Checked
unfolding check_duplicate_volumes check_duplicate_mounts
validate_no_duplicate_names_in_override spec = do
  check_duplicate_volumes spec.volumes
  check_duplicate_mounts spec.nfs_mounts

unfoldable pub validate_no_parent_segment : String → Checked
validate_no_parent_segment path =
    if has_parent_segment path then err (parent_segment path) else ok tt
