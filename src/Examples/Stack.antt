-- ===== src/Examples/Stack.antt =====
-- The theorems on media stacks at concrete inputs.
use servarr_operator.Prelude.{
  ◌+◌, ◌⧺◌, String, ◌≡◌, ◌↔◌, ◌⊎◌, inr, refl, true, false, Option, none, some, List, [], ◌∷◌, ◌==◌,
  if◌then◌else◌, length, filter, map, All, Distinct, or_option, ok,
}
use servarr_operator.Crds.AppType
use servarr_operator.Crds.AppType.{sonarr, radarr, as_str}
use servarr_operator.Crds.Spec.{ServarrAppSpec}
use servarr_operator.Crds.Types.Workload.{EnvVar}
use servarr_operator.Crds.Types.Nfs.{NfsServerSpec}
use servarr_operator.Crds.Stack.{StackApp, merge_env, child_name, split4k_valid, to_servarr_spec}
use servarr_operator.Crds.Stack.Laws.{env_name, find_env, merge_env_lem}
use servarr_operator.Crds.Stack.Expand.{inject_nfs_mounts, four_k_app, is_split, expand}
use servarr_operator.Crds.Stack.Expand.Laws.{mounts_of}
use servarr_operator.Crds.Stack.Expand.FourK.{found_4k, expand_4k_mounts}
use servarr_operator.Crds.Types.Persistence.{NfsMount}
use servarr_operator.Crds.Types.Persistence.Merge.{find_mount}
use servarr_operator.Crds.Stack.Expand.Children.{expand_iff, Children, expand-Children}
use servarr_operator.Resources.Pvc.{ServarrApp}
use servarr_operator.Stack.Kube.{KubeError, api}
use servarr_operator.Stack.Orphans.{Cluster, stuck_len, cleanup_orphaned_children}
use servarr_operator.Stack.Orphans.Laws.{IsOnOrphan, cleanup_orphaned_children-IsOnOrphan}
use servarr_operator.Stack.Orphans.Accounting.{is_orphan, deleted, cleanup_orphaned_children_total}
use servarr_operator.Examples.Data.{image_defaults, override, spec_of}

abbrev pub stack_app : StackApp
stack_app = record {
  app = radarr;
  instance_label = none;
  enabled = true;
  image = none;
  uid = none;
  gid = none;
  security = none;
  service = none;
  service_name = none;
  gateway = none;
  resources = none;
  persistence = none;
  env = record { name = "TZ"; value = "UTC" } ∷ [];
  probes = none;
  scheduling = none;
  network_policy = none;
  network_policy_config = none;
  app_config = none;
  api_key_secret = none;
  api_health_check = none;
  backup = none;
  image_pull_secrets = none;
  pod_annotations = none;
  gpu = none;
  prowlarr_sync = none;
  seerr_sync = none;
  bazarr_sync = none;
  subgen_sync = none;
  maintainerr_sync = none;
  cleanuparr_sync = none;
  houndarr_sync = none;
  admin_credentials = none;
  split4k = some true;
  split4k_overrides = none;
}

abbrev pub nfs : NfsServerSpec
nfs = record {
  enabled = true;
  storage_size = "1Ti";
  storage_class = none;
  image = none;
  movies_path = "/movies";
  tv_path = "/tv";
  music_path = "/music";
  movies_4k_path = "/movies-4k";
  tv_4k_path = "/tv-4k";
  external_server = some "nas";
  external_path = "/volume1/";
}

abbrev path_of : NfsMount → String
path_of m = m.path

abbrev env : String → String → List EnvVar
env name value = record { name = name; value = value } ∷ []

merge_env_example :
    Distinct (map env_name (merge_env (env "TZ" "UTC") (env "TZ" "CET")))
    × (find_env "TZ" (merge_env (env "TZ" "UTC") (env "TZ" "CET"))
        ≡ or_option (find_env "TZ" (env "TZ" "CET")) (find_env "TZ" (env "TZ" "UTC")))
merge_env_example = merge_env_lem (env "TZ" "UTC") (env "TZ" "CET") "TZ"

expand_iff_example :
    ((children : List (String × ServarrAppSpec)) × (expand stack_app "stack" "media" none (some nfs)
        ≡ ok children))
    ↔ ((is_split stack_app.split4k ≡ false) ⊎ ((stack_app.app ≡ sonarr) ⊎ (stack_app.app ≡ radarr)))
expand_iff_example = expand_iff stack_app "stack" "media" none (some nfs)

abbrev expanded :
    (children : List (String × ServarrAppSpec)) × (expand stack_app "stack" "media" none (some nfs)
      ≡ ok children)
expanded = expand_iff_example.1 (inr (inr refl))

expand-Children_example : Children stack_app "stack" "media" none (some nfs) expanded.0
expand-Children_example =
    expand-Children stack_app "stack" "media" none (some nfs) expanded.0 expanded.1

abbrev base_child : String × ServarrAppSpec
base_child = (
  child_name stack_app "stack",
  inject_nfs_mounts (to_servarr_spec stack_app none) (some nfs) false "stack" "media",
)

abbrev four_k_child : String × ServarrAppSpec
four_k_child = (
  "stack-radarr-4k",
  inject_nfs_mounts (to_servarr_spec (four_k_app stack_app) none) (some nfs) true "stack" "media",
)

two_children :
    expand stack_app "stack" "media" none (some nfs) ≡ ok (base_child ∷ four_k_child ∷ [])
unfolding expand split4k_valid as_str ◌⧺◌
two_children = refl

expand_4k_mounts_example :
    find_mount "movies" (mounts_of four_k_child.1.persistence)
    ≡ or_option
        (find_mount "movies" (mounts_of (to_servarr_spec stack_app none).persistence))
        (found_4k nfs radarr (find_mount "movies" (mounts_of base_child.1.persistence)))
expand_4k_mounts_example =
    expand_4k_mounts stack_app "stack" "media" none nfs base_child four_k_child "movies" refl
      two_children

-- The 4K child mounts the 4K library where the other one mounts the movies.
four_k_path_run : map path_of (mounts_of four_k_child.1.persistence) ≡ "/volume1/movies-4k" ∷ []
unfolding inject_nfs_mounts to_servarr_spec four_k_app ◌⧺◌
four_k_path_run = refl

abbrev pub child : String → ServarrApp
child name = record {
  name = some name;
  uid = some "uid";
  spec = spec_of AppType.sonarr (some override) none;
}

abbrev pub existing : List ServarrApp
existing = child "stack-sonarr" ∷ child "stack-old" ∷ []

-- The patch of one claim is denied; all else succeeds.
abbrev answer : String → Option KubeError
answer pvc = if pvc == "stack-old-books" then some (api 403 false) else none

abbrev pub cluster : Cluster
cluster = record {
  patch = λ child_name pvc. answer pvc;
  list = λ child_name. ok [];
  delete = λ child_name. none;
}

cleanup_orphaned_children-IsOnOrphan_example :
    All
      (IsOnOrphan image_defaults cluster ("stack-sonarr" ∷ []) existing)
      (cleanup_orphaned_children image_defaults cluster ("stack-sonarr" ∷ []) existing).1
cleanup_orphaned_children-IsOnOrphan_example =
    cleanup_orphaned_children-IsOnOrphan image_defaults cluster ("stack-sonarr" ∷ []) existing

cleanup_orphaned_children_total_example :
    stuck_len (cleanup_orphaned_children image_defaults cluster ("stack-sonarr" ∷ []) existing).0
      + deleted image_defaults cluster
          (cleanup_orphaned_children image_defaults cluster ("stack-sonarr" ∷ []) existing).1
    ≡ length (filter (is_orphan image_defaults cluster ("stack-sonarr" ∷ [])) existing)
cleanup_orphaned_children_total_example =
    cleanup_orphaned_children_total image_defaults cluster ("stack-sonarr" ∷ []) existing
