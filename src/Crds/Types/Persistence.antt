-- ===== src/Crds/Types/Persistence.antt =====
-- `PvcVolume`, `NfsMount` and `PersistenceSpec` of crates/servarr-crds/src/v1alpha1/types.rs.
pub mod Merge
use servarr_operator.Prelude.{
  String, Bool, Option, List, [], ◌∷◌, ◌++◌, is_empty, contains, if◌then◌else◌,
}
use servarr_operator.Prelude.IndexMap.{IndexMap, insert}

pub record PvcVolume : Type 0 where
  pub name : String
  pub mount_path : String
  pub access_mode : String
  pub size : String
  pub storage_class : String
  pub existing_claim_name : Option String

pub record NfsMount : Type 0 where
  pub name : String
  pub server : String
  pub path : String
  pub mount_path : String
  pub read_only : Bool

pub record PersistenceSpec : Type 0 where
  pub volumes : List PvcVolume
  pub nfs_mounts : List NfsMount
  pub removed_default_volumes : List String

-- The loop `for m in mounts { nfs_map.insert(m.name.clone(), m.clone()) }`.
insert_mounts : IndexMap NfsMount → List NfsMount → IndexMap NfsMount
insert_mounts nfs_map [] = nfs_map
insert_mounts nfs_map (m ∷ ms) = insert_mounts (insert m.name m nfs_map) ms

-- `IndexMap::into_values`
abbrev into_values : IndexMap NfsMount → List NfsMount
into_values [] = []
into_values ((k, m) ∷ rest) = m ∷ into_values rest

-- The loop that pushes each name that is not there yet.
push_new : List String → List String → List String
push_new names [] = names
push_new names (n ∷ ns) = push_new (if contains n names then names else names ++ n ∷ []) ns

-- `self` wins, `base` is the fallback.
unfoldable pub merge_with : PersistenceSpec → PersistenceSpec → PersistenceSpec
unfolding insert_mounts push_new insert contains
merge_with self base = record {
  volumes = if is_empty self.volumes then base.volumes else self.volumes;
  nfs_mounts = into_values (insert_mounts (insert_mounts [] base.nfs_mounts) self.nfs_mounts);
  removed_default_volumes =
      push_new [] (base.removed_default_volumes ++ self.removed_default_volumes);
}
