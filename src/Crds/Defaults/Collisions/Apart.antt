-- ===== src/Crds/Defaults/Collisions/Apart.antt =====
-- When the checks on mount paths and on volume names of crates/servarr-crds/src/v1alpha1/defaults.rs
-- accept, by the paths and the names themselves.
use servarr_operator.Prelude.{
  String, ◌≡◌, ◌↔◌, refl, ap, sym, List, [], ◌∷◌, ◌++◌, map, ◌⧺◌, Distinct, ok, map-append,
}
use servarr_operator.Crds.Types.Persistence.{PvcVolume, NfsMount}
use servarr_operator.Crds.Defaults.Paths.{normalize_mount_path}
use servarr_operator.Crds.Defaults.Collisions.{
  path_key, path_entries, volume_paths, mount_paths, reserved_paths, volume_key, name_entries,
  volume_names, mount_names, reserved_entries, find_mount_path_collision,
  find_volume_name_collision,
}
use servarr_operator.Crds.Defaults.Collisions.Laws.{
  find_mount_path_collision-path_entries, find_volume_name_collision-name_entries,
}

-- The normalized container paths of a pod: of the volumes, of the NFS mounts, and of the
-- operator's own mounts.
abbrev pub pod_paths : List PvcVolume → List NfsMount → List (String × String) → List String
pod_paths volumes nfs_mounts reserved =
    map (λ (v : PvcVolume). normalize_mount_path v.mount_path) volumes
    ++ (map (λ (m : NfsMount). normalize_mount_path m.mount_path) nfs_mounts
        ++ map (λ (r : String × String). normalize_mount_path r.0) reserved)

-- The names of the volumes of a pod, an NFS mount being the volume `nfs-<name>`.
abbrev pub pod_volumes : List PvcVolume → List NfsMount → List String → List String
pod_volumes volumes nfs_mounts reserved_names =
    map (λ (v : PvcVolume). v.name) volumes
    ++ (map (λ (m : NfsMount). "nfs-" ⧺ m.name) nfs_mounts ++ reserved_names)

pub keys-volume_paths :
    (vs : List PvcVolume)
    → map path_key (volume_paths vs) ≡ map (λ (v : PvcVolume). normalize_mount_path v.mount_path) vs
keys-volume_paths [] = refl
keys-volume_paths (v ∷ vs) =
    ap (λ ks. normalize_mount_path v.mount_path ∷ ks) (keys-volume_paths vs)

pub keys-mount_paths :
    (ms : List NfsMount)
    → map path_key (mount_paths ms) ≡ map (λ (m : NfsMount). normalize_mount_path m.mount_path) ms
keys-mount_paths [] = refl
keys-mount_paths (m ∷ ms) = ap (λ ks. normalize_mount_path m.mount_path ∷ ks) (keys-mount_paths ms)

pub keys-reserved_paths :
    (rs : List (String × String))
    → map path_key (reserved_paths rs) ≡ map (λ (r : String × String). normalize_mount_path r.0) rs
keys-reserved_paths [] = refl
keys-reserved_paths ((path, name) ∷ rs) =
    ap (λ ks. normalize_mount_path path ∷ ks) (keys-reserved_paths rs)

keys-path_entries :
    (volumes : List PvcVolume) (nfs_mounts : List NfsMount) (reserved : List (String × String))
    → map path_key (path_entries volumes nfs_mounts reserved)
      ≡ pod_paths volumes nfs_mounts reserved
keys-path_entries volumes nfs_mounts reserved = rw (
  map-append path_key (volume_paths volumes) (mount_paths nfs_mounts ++ reserved_paths reserved),
  map-append path_key (mount_paths nfs_mounts) (reserved_paths reserved),
  keys-volume_paths volumes,
  keys-mount_paths nfs_mounts,
  keys-reserved_paths reserved,
)

pub keys-volume_names :
    (vs : List PvcVolume) → map volume_key (volume_names vs) ≡ map (λ (v : PvcVolume). v.name) vs
keys-volume_names [] = refl
keys-volume_names (v ∷ vs) = ap (λ ks. v.name ∷ ks) (keys-volume_names vs)

pub keys-mount_names :
    (ms : List NfsMount)
    → map volume_key (mount_names ms) ≡ map (λ (m : NfsMount). "nfs-" ⧺ m.name) ms
keys-mount_names [] = refl
keys-mount_names (m ∷ ms) = ap (λ ks. ("nfs-" ⧺ m.name) ∷ ks) (keys-mount_names ms)

pub keys-reserved_entries : (ns : List String) → map volume_key (reserved_entries ns) ≡ ns
keys-reserved_entries [] = refl
keys-reserved_entries (n ∷ ns) = ap (λ ks. n ∷ ks) (keys-reserved_entries ns)

keys-name_entries :
    (volumes : List PvcVolume) (nfs_mounts : List NfsMount) (reserved_names : List String)
    → map volume_key (name_entries volumes nfs_mounts reserved_names)
      ≡ pod_volumes volumes nfs_mounts reserved_names
keys-name_entries volumes nfs_mounts reserved_names = rw (
  map-append volume_key (volume_names volumes)
      (mount_names nfs_mounts ++ reserved_entries reserved_names),
  map-append volume_key (mount_names nfs_mounts) (reserved_entries reserved_names),
  keys-volume_names volumes,
  keys-mount_names nfs_mounts,
  keys-reserved_entries reserved_names,
)

-- The path check accepts exactly if the normalized container paths of the volumes, of the NFS
-- mounts and of the operator's own mounts are pairwise different, across the three lists too.
pub find_mount_path_collision_iff :
    (volumes : List PvcVolume) (nfs_mounts : List NfsMount) (reserved : List (String × String))
    → (find_mount_path_collision volumes nfs_mounts reserved ≡ ok tt)
      ↔ Distinct (pod_paths volumes nfs_mounts reserved)
find_mount_path_collision_iff volumes nfs_mounts reserved =
    rw (sym (keys-path_entries volumes nfs_mounts reserved))
      (find_mount_path_collision-path_entries volumes nfs_mounts reserved)

-- The name check accepts exactly if the names of the volumes, the names of the NFS mounts with
-- `nfs-` before them, and the operator's reserved names are pairwise different, across the three
-- lists too.
pub find_volume_name_collision_iff :
    (volumes : List PvcVolume) (nfs_mounts : List NfsMount) (reserved_names : List String)
    → (find_volume_name_collision volumes nfs_mounts reserved_names ≡ ok tt)
      ↔ Distinct (pod_volumes volumes nfs_mounts reserved_names)
find_volume_name_collision_iff volumes nfs_mounts reserved_names =
    rw (sym (keys-name_entries volumes nfs_mounts reserved_names))
      (find_volume_name_collision-name_entries volumes nfs_mounts reserved_names)
