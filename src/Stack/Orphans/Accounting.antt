-- ===== src/Stack/Orphans/Accounting.antt =====
-- The buckets of the orphan cleanup of crates/servarr-operator/src/media_stack_controller.rs.
use servarr_operator.Prelude.{
  ℕ, ◌+◌, String, ◌≡◌, refl, ◌∙◌, Bool, false, not, ◌&&◌, Option, none, some, List, [], ◌∷◌, ◌++◌,
  map, arith, any, filter, contains, length, length-append, Bool-cases, inl, inr, Result, ok, err,
  if◌then◌else◌,
}
use servarr_operator.Crds.Defaults.Compiled.{AppImageDefaults}
use servarr_operator.Resources.Pvc.{ServarrApp, Pvc, BuildError, build_all}
use servarr_operator.Stack.Kube.{KubeError, is_kube_not_found, is_kube_permission_denied}
use servarr_operator.Stack.Orphans.{
  Claim, Cluster, Call, detach, delete_child, DetachFailureCause, forbidden, transient,
  StuckOrphans, nothing_stuck, stuck_len, name_any, owned_names, pvc_names, detach_pvc_owner_refs,
  fall_back, detach_claims, after_delete, conclude_orphan, clean_child, clean_children,
  cleanup_orphaned_children,
}
use servarr_operator.Stack.Orphans.Laws.{is_gone}

module _ (image_defaults : String → Option AppImageDefaults) (cluster : Cluster) where
  -- A failed patch, and one that was refused for lack of permission.
  abbrev pub is_failed : Option KubeError → Bool
  is_failed answer = not (is_gone answer)

  abbrev pub is_denied : Option KubeError → Bool
  is_denied none = false
  is_denied (some e) = not (is_kube_not_found e) && is_kube_permission_denied e

  -- The cause for a list of claims, read off all the answers at once.
  abbrev pub cause_of : String → List String → Option DetachFailureCause
  cause_of child_name names =
      if any (λ pvc. is_denied (cluster.patch child_name pvc)) names
      then some forbidden
      else if any (λ pvc. is_failed (cluster.patch child_name pvc)) names
      then some transient
      else none

  abbrev worse : Option DetachFailureCause → Option DetachFailureCause → Option DetachFailureCause
  worse (some forbidden) later = some forbidden
  worse (some transient) (some forbidden) = some forbidden
  worse (some transient) _ = some transient
  worse none later = later

  -- A delete that left nothing of the child.
  abbrev pub is_deleted : Call → Bool
  is_deleted (detach child_name pvc) = false
  is_deleted (delete_child child_name) = is_gone (cluster.delete child_name)

  abbrev pub deleted : List Call → ℕ
  deleted calls = length (filter is_deleted calls)

  deleted-append : (xs ys : List Call) → deleted (xs ++ ys) ≡ deleted xs + deleted ys
  deleted-append [] ys = omega arith
  deleted-append (x ∷ xs) ys = ground (arith, deleted-append xs ys)

  deleted-detach :
      (child_name : String) (names : List String) → deleted (map (detach child_name) names) ≡ 0
  deleted-detach child_name [] = refl
  deleted-detach child_name (pvc ∷ names) = deleted-detach child_name names

  deleted-fall_back :
      (child : ServarrApp) (r : Result KubeError (List Claim))
      → deleted (fall_back image_defaults cluster child r).1 ≡ 0
  unfolding detach_pvc_owner_refs
  deleted-fall_back child (err e) = refl
  deleted-fall_back child (ok list) = deleted-detach (name_any child) (owned_names child.uid list)

  deleted-detach_claims :
      (child : ServarrApp) (r : Result BuildError (List Pvc))
      → deleted (detach_claims image_defaults cluster child r).1 ≡ 0
  unfolding detach_pvc_owner_refs
  deleted-detach_claims child (ok pvcs) = deleted-detach (name_any child) (pvc_names pvcs)
  deleted-detach_claims child (err e) = deleted-fall_back child (cluster.list (name_any child))

  -- What is stuck and what is deleted after a step.
  abbrev total : StuckOrphans × List Call → ℕ
  total (stuck, calls) = stuck_len stuck + deleted calls

  after_delete_lem :
      (child_name : String) (answer : Option KubeError) (stuck : StuckOrphans)
      → stuck_len (after_delete image_defaults cluster child_name answer stuck)
          + (if is_gone answer then 1 else 0)
        ≡ stuck_len stuck + 1
  unfolding stuck_len
  after_delete_lem child_name none stuck = omega arith
  after_delete_lem child_name (some e) stuck =
      ground (arith, length-append stuck.delete_failed (child_name ∷ []))

  conclude_orphan-total :
      (child_name : String) (failure : Option DetachFailureCause) (calls : List Call)
      (stuck : StuckOrphans)
      → deleted calls ≡ 0
      → total (conclude_orphan image_defaults cluster child_name (failure, calls) stuck)
        ≡ stuck_len stuck + 1
  unfolding conclude_orphan stuck_len
  conclude_orphan-total child_name (some forbidden) calls stuck h =
      ground (arith, length-append stuck.forbidden_names (child_name ∷ []))
  conclude_orphan-total child_name (some transient) calls stuck h =
      ground (arith, length-append stuck.transient_names (child_name ∷ []))
  conclude_orphan-total child_name none calls stuck h = ground (
    arith,
    deleted-append calls (delete_child child_name ∷ []),
    after_delete_lem child_name (cluster.delete child_name) stuck,
  )

  module _ (desired_children : List String) where
    abbrev pub is_orphan : ServarrApp → Bool
    is_orphan child = not (contains (name_any child) desired_children)

    clean_child-total :
        (child : ServarrApp) (stuck : StuckOrphans)
        → total (clean_child image_defaults cluster desired_children child stuck)
          ≡ stuck_len stuck + (if is_orphan child then 1 else 0)
    unfolding clean_child
    clean_child-total child stuck = elim (Bool-cases (contains (name_any child) desired_children)) [
      | inl wanted ↦ rw wanted (omega arith)
      | inr orphan ↦ rw orphan (
          conclude_orphan-total (name_any child) _ _ stuck
            (deleted-detach_claims child (build_all image_defaults child)))
    ]

    clean_children-total :
        (existing : List ServarrApp) (stuck : StuckOrphans)
        → total (clean_children image_defaults cluster desired_children existing stuck)
          ≡ stuck_len stuck + length (filter is_orphan existing)
    unfolding clean_children
    clean_children-total [] stuck = omega arith
    clean_children-total (child ∷ children) stuck =
        let here = clean_child image_defaults cluster desired_children child stuck in
        let later =
          clean_children image_defaults cluster desired_children children
            (clean_child image_defaults cluster desired_children child stuck).0 in
        ground (
          arith,
          deleted-append here.1 later.1,
          clean_child-total child stuck,
          clean_children-total children
              (clean_child image_defaults cluster desired_children child stuck).0,
        )

    -- No orphan is lost: those that are reported as stuck and those whose delete succeeded, or
    -- found no child, are together as many as the existing children that the stack does not want.
    pub cleanup_orphaned_children_total :
        (existing : List ServarrApp)
        → stuck_len (cleanup_orphaned_children image_defaults cluster desired_children existing).0
            + deleted (cleanup_orphaned_children image_defaults cluster desired_children existing).1
          ≡ length (filter is_orphan existing)
    unfolding cleanup_orphaned_children stuck_len
    cleanup_orphaned_children_total existing =
        clean_children-total existing nothing_stuck ∙ omega arith
