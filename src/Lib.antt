-- ===== src/Lib.antt =====
-- Verification of the servarr operator, a Kubernetes operator for media applications.
--
-- The CRD crate (crates/servarr-crds) says what a `ServarrApp` is: its spec, the defaults of each
-- app type, and the resolution of a spec against them. The operator (crates/servarr-operator)
-- reconciles each app; the self-heal pass over a Transmission's torrents is the one that deletes
-- data.
--
-- Crds models crates/servarr-crds/src/v1alpha1:
--   Crds/AppType     `AppType` of spec.rs; Crds/Spec `ServarrAppSpec`; Crds/AppConfig app_config.rs
--   Crds/Types       types.rs; each `merge_with` is the method of that name on its type
--   Crds/Condition   status.rs
--   Crds/Defaults    defaults.rs: Paths the normalization of mount paths, Collisions the checks on
--                    paths and names (Sides for the user's and the operator's entries), Reserved the operator's own mounts, Resolve
--                    `resolve_persistence_for_spec`, Compiled `try_for_app` and `validate_all`
--   Crds/Stack       media_stack.rs: the merging of stack defaults; Expand `StackApp::expand`;
--                    Status `MediaStackStatus`
-- Resources/Pvc models the claims of crates/servarr-resources/src/pvc.rs and the names of common.rs.
-- Stack models crates/servarr-operator/src/media_stack_controller.rs, the reconciliation of a
-- stack: Orphans `cleanup_orphaned_children`, which detaches the claims of each unwanted child
-- before it deletes the child; Rollout the expansion and grouping of the apps, the loop over the
-- tiers with its timeout, and the phase; Reconcile the handler and the status; Kube the tests on
-- errors of crates/servarr-api/src/k8s.rs.
-- Throttle models crates/servarr-operator/src/controller/health_throttle.rs.
-- DownloadHealth models crates/servarr-operator/src/controller/download_health.rs and its
-- directory: the torrents with missing data, Remediate the verify-then-remove pass, Report the
-- event and the condition, Check the pass itself, which returns its calls in order.
-- Webhook models crates/servarr-operator/src/webhook.rs, the validating admission webhook: Rejection
-- its error texts, Rules the rules on single fields, Ssh and Names those on an SSH bastion, Volumes
-- those on persistence, Identity those on the app type and the instance, Validate `validate_spec`
-- with the handler, Quantity and Schedule the texts it reads; Namespace is the history of a
-- namespace whose requests are admitted one after the other, and Registry its abstract view.
-- Controller models parts of crates/servarr-operator/src/controller.rs: Notes `clamp_event_note`,
-- Drift `json_diff_paths` and `json_is_subset`; RpcPassword, controller/rpc_password.rs; and
-- Cleanup the removal from Seerr in controller/cleanup.rs.
-- Environment models crates/servarr-operator/src/env.rs and the webhook's configuration.
-- Prelude has what they share: tests, lists, texts, results, the insertion-ordered map, integers.
-- Examples applies the theorems to concrete inputs.
--
-- Numbers are natural numbers, and `ℤ` has the constructors `pos` and `negsuc` over them. Strings
-- are lists of characters; a text that is only shown stands as the code formats it. Logging and
-- metrics are left out. Errors carry what their text interpolates.
-- Parameters stand for what is not in the repository's sources: `chrono`'s parser of timestamps,
-- the table of image defaults that the build generates, the answers of a Transmission client to
-- each RPC and of the Kubernetes API to each call, the clock, the test of a fraction against 0,
-- serde's reading of a spec, the reading of a fraction, the parser of cron expressions, the hex
-- text of SHA-1, the random salt, the equality of two JSON numbers, and that of a port that is an
-- f64 with an integer.
-- The one bounded loop, the polling after a verify, has the code's own budget of 100 polls as its
-- fuel, and no answer after it. The fuel of a printed number is the number plus one, which is at
-- least its digits. A u64 product keeps its wrap-around as a remainder by 2 ^ 64.
-- Not modelled: the builders of Deployments and of the other resources, the synchronization of the
-- apps with each other, the clients of the apps' APIs but for their errors, and what only talks to
-- Kubernetes or serves HTTP, which has no result to state a property of.
pub mod Prelude
pub mod Crds
pub mod Environment
pub mod Controller
pub mod Throttle
pub mod Webhook
pub mod Resources
pub mod Stack
pub mod DownloadHealth
pub mod Examples
