-- ===== src/Stack/Orphans.antt =====
-- `cleanup_orphaned_children` of crates/servarr-operator/src/media_stack_controller.rs. The
-- Kubernetes API is a parameter: what it answers to each call for a child. Children of one
-- namespace have different names, so each call is made once.
pub mod Laws
pub mod Accounting
use servarr_operator.Prelude.{
  ℕ, ◌+◌, String, Bool, true, false, not, ◌&&◌, Option, none, some, List, [], ◌∷◌, ◌++◌, ◌==◌, map,
  any, filter, contains, length, is_empty, leb, unwrap_or, Result, ok, err, if◌then◌else◌,
}
use servarr_operator.Crds.Defaults.Compiled.{AppImageDefaults}
use servarr_operator.Resources.Pvc.{ServarrApp, Pvc, BuildError, build_all}
use servarr_operator.Stack.Kube.{KubeError, is_kube_not_found, is_kube_permission_denied}

-- A claim of the namespace: its name and the uids of its owner references.
pub record Claim : Type 0 where
  pub name : Option String
  pub owner_references : Option (List String)

pub record Cluster : Type 0 where
  -- The error of the patch that clears a claim's owner references, by child and claim.
  pub patch : String → String → Option KubeError
  -- The answer to the list of the namespace's claims, by child.
  pub list : String → Result KubeError (List Claim)
  -- The error of the delete of a child.
  pub delete : String → Option KubeError

-- The calls that change the cluster.
pub data Call : Type 0 where
  detach : String → String → Call
  delete_child : String → Call

pub data DetachFailureCause : Type 0 where
  forbidden transient : DetachFailureCause

unfoldable pub from_kube_error : KubeError → DetachFailureCause
unfolding is_kube_permission_denied
from_kube_error e = if is_kube_permission_denied e then forbidden else transient

abbrev rank : DetachFailureCause → ℕ
rank forbidden = 1
rank transient = 0

unfoldable pub most_severe : DetachFailureCause → DetachFailureCause → DetachFailureCause
most_severe self other = if leb (rank other) (rank self) then self else other

pub record StuckOrphans : Type 0 where
  pub forbidden_names : List String  -- `forbidden`
  pub transient_names : List String  -- `transient`
  pub delete_failed : List String

-- `StuckOrphans::default()`
abbrev pub nothing_stuck : StuckOrphans
nothing_stuck = record { forbidden_names = []; transient_names = []; delete_failed = [] }

-- `StuckOrphans::len`
unfoldable pub stuck_len : StuckOrphans → ℕ
stuck_len stuck =
    length stuck.forbidden_names + length stuck.transient_names + length stuck.delete_failed

-- `name_any`
abbrev pub name_any : ServarrApp → String
name_any child = unwrap_or child.name ""

abbrev owned_by : Option (List String) → Option String → Bool
owned_by _ none = false
owned_by none (some uid) = false
owned_by (some refs) (some uid) = any (λ r. r == uid) refs

unfoldable pub pvc_owned_by : Claim → Option String → Bool
pvc_owned_by pvc child_uid = owned_by pvc.owner_references child_uid

abbrev with_name : Option String → List String → List String
with_name none names = names
with_name (some name) names = name ∷ names

-- `filter_map(|pvc| pvc.metadata.name.as_deref())` over the claims that the child owns.
unfoldable pub owned_names : Option String → List Claim → List String
unfolding pvc_owned_by
owned_names child_uid [] = []
owned_names child_uid (pvc ∷ pvcs) =
    let later = owned_names child_uid pvcs in
    if pvc_owned_by pvc child_uid then with_name pvc.name later else later

-- The failure so far after one more answer.
unfoldable pub add_failure :
    Option DetachFailureCause → Option KubeError → Option DetachFailureCause
unfolding from_kube_error most_severe
add_failure failure none = failure
add_failure none (some e) = if is_kube_not_found e then none else some (from_kube_error e)
add_failure (some prev) (some e) =
    if is_kube_not_found e then some prev else some (most_severe prev (from_kube_error e))

abbrev pub pvc_names : List Pvc → List String
pvc_names pvcs = map (λ (p : Pvc). p.name) pvcs

module _ (image_defaults : String → Option AppImageDefaults) (cluster : Cluster) where
  -- The loop, with the failure so far.
  detach_from : String → Option DetachFailureCause → List String → Option DetachFailureCause
  unfolding add_failure
  detach_from child_name failure [] = failure
  detach_from child_name failure (pvc_name ∷ names) =
      detach_from child_name (add_failure failure (cluster.patch child_name pvc_name)) names

  unfoldable pub detach_pvc_owner_refs :
      String → List String → Option DetachFailureCause × List Call
  unfolding detach_from
  detach_pvc_owner_refs child_name names =
      (detach_from child_name none names, map (detach child_name) names)

  abbrev fall_back :
      ServarrApp → Result KubeError (List Claim) → Option DetachFailureCause × List Call
  fall_back child (ok list) = detach_pvc_owner_refs (name_any child) (owned_names child.uid list)
  fall_back child (err list_err) = (some (from_kube_error list_err), [])

  abbrev detach_claims :
      ServarrApp → Result BuildError (List Pvc) → Option DetachFailureCause × List Call
  detach_claims child (ok pvcs) = detach_pvc_owner_refs (name_any child) (pvc_names pvcs)
  detach_claims child (err e) = fall_back child (cluster.list (name_any child))

  -- The bucket of a child whose claims are detached, by the error of its delete.
  abbrev after_delete : String → Option KubeError → StuckOrphans → StuckOrphans
  after_delete child_name none stuck = stuck
  after_delete child_name (some e) stuck =
      if is_kube_not_found e
      then stuck
      else record stuck { delete_failed = stuck.delete_failed ++ child_name ∷ [] }

  -- What follows the detachment.
  conclude_orphan :
      String → Option DetachFailureCause × List Call → StuckOrphans → StuckOrphans × List Call
  conclude_orphan child_name (some forbidden, calls) stuck =
      (record stuck { forbidden_names = stuck.forbidden_names ++ child_name ∷ [] }, calls)
  conclude_orphan child_name (some transient, calls) stuck =
      (record stuck { transient_names = stuck.transient_names ++ child_name ∷ [] }, calls)
  conclude_orphan child_name (none, calls) stuck = (
    after_delete child_name (cluster.delete child_name) stuck,
    calls ++ delete_child child_name ∷ [],
  )

  -- One round of the loop.
  clean_child : List String → ServarrApp → StuckOrphans → StuckOrphans × List Call
  unfolding conclude_orphan detach_pvc_owner_refs owned_names build_all
  clean_child desired_children child stuck =
      if contains (name_any child) desired_children
      then (stuck, [])
      else conclude_orphan (name_any child) (detach_claims child (build_all image_defaults child))
          stuck

  clean_children : List String → List ServarrApp → StuckOrphans → StuckOrphans × List Call
  unfolding clean_child
  clean_children desired_children [] stuck = (stuck, [])
  clean_children desired_children (child ∷ children) stuck =
      let here = clean_child desired_children child stuck in
      let later =
        clean_children desired_children children (clean_child desired_children child stuck).0 in
      (later.0, here.1 ++ later.1)

  unfoldable pub cleanup_orphaned_children :
      List String → List ServarrApp → StuckOrphans × List Call
  unfolding clean_children
  cleanup_orphaned_children desired_children existing =
      clean_children desired_children existing nothing_stuck
