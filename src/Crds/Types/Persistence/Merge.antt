-- ===== src/Crds/Types/Persistence/Merge.antt =====
-- Laws of `PersistenceSpec::merge_with` of crates/servarr-crds/src/v1alpha1/types.rs.
use servarr_operator.Prelude.{
  String, ◌≡◌, refl, ap, ◌∙◌, false, ◌||◌, Option, none, some, List, [], ◌∷◌, ◌++◌, ◌==◌, eq_iff,
  arith, contains, contains-append, Distinct, Distinct-concat, Bool-cases, or_option, if◌then◌else◌,
  inl, inr,
}
use servarr_operator.Prelude.IndexMap.{
  IndexMap, lookup, insert, keys, lookup-insert, lookup_absent, Distinct-insert,
}
use servarr_operator.Crds.Types.Persistence.{
  NfsMount, PersistenceSpec, insert_mounts, into_values, push_new, merge_with,
}

-- The last mount of that name in a list.
unfoldable pub find_mount : String → List NfsMount → Option NfsMount
find_mount name [] = none
find_mount name (m ∷ ms) = or_option (find_mount name ms) (if m.name == name then some m else none)

abbrev pub mount_names : List NfsMount → List String
mount_names [] = []
mount_names (m ∷ ms) = m.name ∷ mount_names ms

lookup-insert_mounts :
    (name : String) (nfs_map : IndexMap NfsMount) (ms : List NfsMount)
    → lookup name (insert_mounts nfs_map ms) ≡ or_option (find_mount name ms) (lookup name nfs_map)
unfolding insert_mounts find_mount
lookup-insert_mounts name nfs_map [] = refl
lookup-insert_mounts name nfs_map (m ∷ ms) = ground (
  arith,
  lookup-insert_mounts name (insert m.name m nfs_map) ms,
  lookup-insert m.name name m nfs_map,
)

-- Every key is the name of its mount.
abbrev Keyed : IndexMap NfsMount → Type 0
Keyed [] = Unit
Keyed ((k, m) ∷ rest) = (k ≡ m.name) × Keyed rest

insert-Keyed :
    (m : NfsMount) (nfs_map : IndexMap NfsMount) → Keyed nfs_map → Keyed (insert m.name m nfs_map)
unfolding insert
insert-Keyed m [] h = (refl, tt)
insert-Keyed m ((k, n) ∷ rest) h = elim (Bool-cases (k == m.name)) [
  | inl e ↦ rw e ((eq_iff k m.name).0 e, h.1)
  | inr e ↦ rw e (h.0, insert-Keyed m rest h.1)
]

insert_mounts-Keyed :
    (nfs_map : IndexMap NfsMount) (ms : List NfsMount)
    → Keyed nfs_map
    → Keyed (insert_mounts nfs_map ms)
unfolding insert_mounts
insert_mounts-Keyed nfs_map [] h = h
insert_mounts-Keyed nfs_map (m ∷ ms) h =
    insert_mounts-Keyed (insert m.name m nfs_map) ms (insert-Keyed m nfs_map h)

insert_mounts-Distinct :
    (nfs_map : IndexMap NfsMount) (ms : List NfsMount)
    → Distinct (keys nfs_map)
    → Distinct (keys (insert_mounts nfs_map ms))
unfolding insert_mounts
insert_mounts-Distinct nfs_map [] h = h
insert_mounts-Distinct nfs_map (m ∷ ms) h =
    insert_mounts-Distinct (insert m.name m nfs_map) ms (Distinct-insert m.name m nfs_map h)

mount_names-into_values :
    (nfs_map : IndexMap NfsMount) → Keyed nfs_map → mount_names (into_values nfs_map) ≡ keys nfs_map
mount_names-into_values [] h = refl
mount_names-into_values ((k, m) ∷ rest) h = cc (mount_names-into_values rest h.1, h.0)

find_mount_absent :
    (name : String) (ms : List NfsMount)
    → contains name (mount_names ms) ≡ false
    → find_mount name ms ≡ none
unfolding find_mount contains
find_mount_absent name [] h = refl
find_mount_absent name (m ∷ ms) h = ground (arith, find_mount_absent name ms)

find_mount-into_values :
    (name : String) (nfs_map : IndexMap NfsMount)
    → Keyed nfs_map
    → Distinct (keys nfs_map)
    → find_mount name (into_values nfs_map) ≡ lookup name nfs_map
unfolding find_mount lookup
find_mount-into_values name [] h d = refl
find_mount-into_values name ((k, m) ∷ rest) h d =
    ground
      (arith, find_mount-into_values name rest h.1 d.1, eq_iff k name, h.0, lookup_absent name rest)

push_new-contains :
    (a : String) (names new : List String)
    → contains a (push_new names new) ≡ (contains a names || contains a new)
unfolding push_new contains
push_new-contains a names [] = ground arith
push_new-contains a names (n ∷ ns) = elim (Bool-cases (contains n names)) [
  | inl e ↦ rw e (ground (arith, push_new-contains a names ns, eq_iff n a))
  | inr e ↦
      rw e
        (ground (arith, push_new-contains a (names ++ n ∷ []) ns, contains-append a names (n ∷ [])))
]

push_new-Distinct : (names new : List String) → Distinct names → Distinct (push_new names new)
unfolding push_new
push_new-Distinct names [] h = h
push_new-Distinct names (n ∷ ns) h = elim (Bool-cases (contains n names)) [
  | inl e ↦ rw e (push_new-Distinct names ns h)
  | inr e ↦ rw e (push_new-Distinct (names ++ n ∷ []) ns (Distinct-concat names n h e))
]

or_none :
    (name : String) (ms : List NfsMount)
    → or_option (find_mount name ms) (lookup name []) ≡ find_mount name ms
unfolding lookup
or_none name ms = ground arith

pub contains-nil : (a : String) → contains a [] ≡ false
unfolding contains
contains-nil a = refl

-- The NFS mounts of a merge have different names, and under each name stands the mount of the
-- override if it has one, else that of the base.
pub merge_with_mounts :
    (self base : PersistenceSpec) (name : String)
    → Distinct (mount_names (merge_with self base).nfs_mounts)
      × (find_mount name (merge_with self base).nfs_mounts
          ≡ or_option (find_mount name self.nfs_mounts) (find_mount name base.nfs_mounts))
unfolding merge_with
merge_with_mounts self base name =
    let low = insert_mounts [] base.nfs_mounts in
    let keyed =
      insert_mounts-Keyed low self.nfs_mounts (insert_mounts-Keyed [] base.nfs_mounts tt) in
    let distinct =
      insert_mounts-Distinct low self.nfs_mounts (insert_mounts-Distinct [] base.nfs_mounts tt) in
    (
      rw (mount_names-into_values _ keyed) distinct,
      find_mount-into_values name _ keyed distinct
          ∙ lookup-insert_mounts name low self.nfs_mounts
          ∙ ap (or_option (find_mount name self.nfs_mounts))
              (lookup-insert_mounts name [] base.nfs_mounts ∙ or_none name base.nfs_mounts),
    )

-- A name is removed by a merge exactly if one of the two layers removes it, and no name stands
-- twice in the list.
pub merge_with_tombstones :
    (self base : PersistenceSpec) (name : String)
    → Distinct (merge_with self base).removed_default_volumes
      × (contains name (merge_with self base).removed_default_volumes ≡ (
          contains name self.removed_default_volumes || contains name base.removed_default_volumes))
unfolding merge_with
merge_with_tombstones self base name = (
  push_new-Distinct [] (base.removed_default_volumes ++ self.removed_default_volumes) tt,
  ground (
    arith,
    push_new-contains name [] (base.removed_default_volumes ++ self.removed_default_volumes),
    contains-append name base.removed_default_volumes self.removed_default_volumes,
    contains-nil name,
  ),
)
