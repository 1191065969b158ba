-- ===== src/Stack/Reconcile.antt =====
-- `reconcile` of crates/servarr-operator/src/media_stack_controller.rs, from the effective NFS
-- server on. The objects of the in-cluster NFS server, the metrics and the metadata of the applied
-- children are left out.
pub mod Laws
use servarr_operator.Prelude.{
  ℕ, ◌+◌, String, Bool, true, false, not, ◌&&◌, Option, none, some, List, [], ◌∷◌, ◌++◌, ◌==◌,
  filter, map, is_empty, is_none, length, unwrap_or, ◌⧺◌, Result, ok, err, ◌>>=◌, if◌then◌else◌,
}
use servarr_operator.Prelude.Decimal.{show}
use servarr_operator.Prelude.Int.{ℤ, pos}
use servarr_operator.Prelude.Repeats.{find_repeat}
use servarr_operator.Crds.Condition.{Condition, ok_condition, fail_condition}
use servarr_operator.Crds.Defaults.Compiled.{AppImageDefaults}
use servarr_operator.Crds.Types.Nfs.{NfsServerSpec}
use servarr_operator.Crds.Stack.{StackApp, StackDefaults, child_name}
use servarr_operator.Crds.Stack.Status.{
  StackPhase, pending, rolling_out, ready_phase, degraded, StackAppStatus, MediaStackStatus,
  set_stack_condition,
}
use servarr_operator.Resources.Pvc.{ServarrApp}
use servarr_operator.Stack.Kube.{KubeError}
use servarr_operator.Stack.Orphans
use servarr_operator.Stack.Orphans.{Cluster, StuckOrphans, stuck_len, cleanup_orphaned_children}
use servarr_operator.Stack.Rollout.{
  Member, Tiers, Progress, start, expand_all, group_onto, roll, disabled_status, compute_phase,
  compute_blocked_since,
}

-- A `MediaStack` by what the handler reads of it.
pub record MediaStack : Type 0 where
  pub name : String
  pub namespace : String
  pub nfs : Option NfsServerSpec
  pub defaults : Option StackDefaults
  pub apps : List StackApp
  pub generation : Option ℤ
  pub status : Option MediaStackStatus

-- The answers of the Kubernetes API and the clock during one reconcile.
pub record World : Type 0 where
  pub cluster : Cluster
  -- The children that carry the stack's label.
  pub existing : Result KubeError (List ServarrApp)
  pub apply : String → Option KubeError
  pub is_ready : String → Bool
  pub patch_status : Option KubeError
  pub clock : ℕ → ℕ
  pub now : String

-- The status that is patched, the requeue in seconds, and the calls that delete and apply.
pub record Outcome : Type 0 where
  pub status : MediaStackStatus
  pub requeue : ℕ
  pub cleanup_calls : List Orphans.Call
  pub applied : List String

-- The NFS server with the pod's address, if it runs in the cluster.
unfoldable pub effective_nfs : Option NfsServerSpec → Option String → Option NfsServerSpec
effective_nfs (some nfs) (some ip) =
    if is_none nfs.external_server
    then some (record nfs { external_server = some ip; external_path = "" })
    else some nfs
effective_nfs nfs _ = nfs

abbrev empty_status : MediaStackStatus
empty_status = record {
  ready = false;
  phase = pending;
  current_tier = none;
  total_apps = 0;
  ready_apps = 0;
  app_statuses = [];
  conditions = [];
  observed_generation = pos 0;
  tier_blocked_since = none;
}

-- `patch_status(..).await?` before an outcome is returned.
abbrev patched : Option KubeError → Outcome → Result KubeError Outcome
patched none outcome = ok outcome
patched (some e) outcome = err e

-- The outcome for a spec that is not valid.
invalid : MediaStack → World → String → String → Result KubeError Outcome
invalid stack world reason message = patched world.patch_status (record {
  status =
      record (set_stack_condition (fail_condition "Valid" reason message world.now) empty_status) {
        observed_generation = unwrap_or stack.generation (pos 0);
      };
  requeue = 60;
  cleanup_calls = [];
  applied = [];
})

join : String → List String → String
join separator [] = ""
join separator (s ∷ []) = s
join separator (s ∷ next ∷ rest) = s ⧺ separator ⧺ join separator (next ∷ rest)

abbrev cause_text : List String → String → List String
cause_text names text =
    if is_empty names then [] else (show (length names) ⧺ text ⧺ join ", " names) ∷ []

unfoldable pub orphan_condition : StuckOrphans → String → Condition
unfolding join ok_condition fail_condition show
orphan_condition stuck now =
    if is_empty stuck.forbidden_names
      && (is_empty stuck.transient_names && is_empty stuck.delete_failed)
    then ok_condition "OrphanCleanupHealthy" "NoStuckOrphans"
        "no orphaned children awaiting PVC detach" now
    else fail_condition "OrphanCleanupHealthy" "PvcDetachFailed"
        (show (stuck_len stuck)
          ⧺ " orphaned child(ren) not yet cleaned up: "
          ⧺ join "; " (
              cause_text stuck.forbidden_names
                " awaiting a manual permission fix (will not self-resolve on retry): "
              ++ (cause_text stuck.transient_names " awaiting retry (may self-resolve): "
                  ++ cause_text stuck.delete_failed
                      " whose delete failed after a successful PVC detach (will retry next reconcile): ")))
        now

abbrev ratio : ℕ → ℕ → String
ratio ready_count total_apps = show ready_count ⧺ "/" ⧺ show total_apps

unfoldable pub ready_condition : StackPhase → ℕ → ℕ → Option ℕ → String → Condition
unfolding ok_condition fail_condition show
ready_condition ready_phase ready_count total_apps current_tier now =
    ok_condition "Ready" "AllAppsReady" (ratio ready_count total_apps ⧺ " apps ready") now
ready_condition rolling_out ready_count total_apps current_tier now =
    fail_condition "Ready" "RollingOut"
      (ratio ready_count total_apps
        ⧺ " apps ready, rolling out tier "
        ⧺ show (unwrap_or current_tier 0))
      now
ready_condition degraded ready_count total_apps current_tier now =
    fail_condition "Ready" "Degraded"
      (ratio ready_count total_apps ⧺ " apps ready (was fully ready)") now
ready_condition pending ready_count total_apps current_tier now =
    fail_condition "Ready" "Pending" "No apps ready yet" now

abbrev is_ready_phase : StackPhase → Bool
is_ready_phase ready_phase = true
is_ready_phase _ = false

abbrev prev_ready : Option MediaStackStatus → Bool
prev_ready none = false
prev_ready (some s) = is_ready_phase s.phase

abbrev prev_tier : Option MediaStackStatus → Option ℕ
prev_tier none = none
prev_tier (some s) = s.current_tier

abbrev prev_blocked : Option MediaStackStatus → Option String
prev_blocked none = none
prev_blocked (some s) = s.tier_blocked_since

abbrev prev_bypassed : Option MediaStackStatus → List String
prev_bypassed none = []
prev_bypassed (some s) =
    map (λ (a : StackAppStatus). a.name) (filter (λ a. a.bypassed) s.app_statuses)

disabled_statuses : String → List StackApp → List StackAppStatus
disabled_statuses stack_name [] = []
disabled_statuses stack_name (app ∷ apps) =
    let rest = disabled_statuses stack_name apps in
    if app.enabled then rest else disabled_status (child_name app stack_name) app ∷ rest

abbrev name_of : Member → String
name_of m = m.child_name

-- The status after a rollout.
unfoldable pub rollout_status : MediaStack → World → StuckOrphans → ℕ → Progress → MediaStackStatus
unfolding disabled_statuses orphan_condition ready_condition compute_phase ok_condition
rollout_status stack world stuck total_apps p =
    let phase = compute_phase p.ready_count total_apps (prev_ready stack.status) in
    set_stack_condition (ready_condition phase p.ready_count total_apps p.current_tier world.now) (
      set_stack_condition (orphan_condition stuck world.now) (
        set_stack_condition (ok_condition "Valid" "Valid" "Spec is valid" world.now) (record {
          ready = is_ready_phase phase;
          phase = phase;
          current_tier = p.current_tier;
          total_apps = total_apps;
          ready_apps = p.ready_count;
          app_statuses = p.app_statuses ++ disabled_statuses stack.name stack.apps;
          conditions = [];
          observed_generation = unwrap_or stack.generation (pos 0);
          tier_blocked_since =
              compute_blocked_since p total_apps (prev_tier stack.status)
                (prev_blocked stack.status) world.now;
        })))

module _ (image_defaults : String → Option AppImageDefaults)
    (parse_from_rfc3339 : String → Option ℕ) where
  -- The handler after the cleanup, with the orphans that are stuck.
  after_cleanup :
      MediaStack → World → List Member → StuckOrphans × List Orphans.Call → Result KubeError Outcome
  unfolding rollout_status
  after_cleanup stack world ms (stuck, calls) =
      roll world.apply world.is_ready parse_from_rfc3339 world.clock (prev_blocked stack.status)
        (prev_bypassed stack.status) (group_onto [] ms) start
      >>= λ p.
          let status = rollout_status stack world stuck (length ms) p in
          patched world.patch_status (record {
            status = status;
            requeue = if status.ready then 300 else 30;
            cleanup_calls = calls;
            applied = p.applied;
          })

  -- The handler once the apps are expanded.
  after_expansion : MediaStack → World → Result String (List Member) → Result KubeError Outcome
  unfolding after_cleanup invalid
  after_expansion stack world (err msg) = invalid stack world "InvalidSplit4k" msg
  after_expansion stack world (ok ms) = elim (find_repeat name_of [] ms) [
    | some (prior, m) ↦
        invalid stack world "DuplicateApp" ("Duplicate app+instance: " ⧺ m.child_name)
    | none ↦ world.existing >>= λ existing.
        after_cleanup stack world ms
          (cleanup_orphaned_children image_defaults world.cluster (map name_of ms) existing)
  ]

  -- `nfs_pod_ip` is what the reconciliation of the NFS server returned.
  unfoldable pub reconcile :
      MediaStack → World → Result KubeError (Option String) → Result KubeError Outcome
  unfolding after_expansion effective_nfs expand_all
  reconcile stack world nfs_pod_ip = nfs_pod_ip >>= λ ip.
      after_expansion stack world (
        expand_all stack.name stack.namespace stack.defaults (effective_nfs stack.nfs ip)
          stack.apps)
