-- ===== src/Stack/Kube.antt =====
-- The tests on `kube::Error` of crates/servarr-api/src/k8s.rs. An error is kept by what they read
-- of it: an API status by its code and whether its reason is `NotFound`, or an authentication
-- failure.
use servarr_operator.Prelude.{ℕ, Bool, true, false, ◌||◌, eqb}

pub data KubeError : Type 0 where
  api : ℕ → Bool → KubeError
  auth other : KubeError

unfoldable pub is_kube_not_found : KubeError → Bool
is_kube_not_found (api code reason_not_found) = eqb code 404 || reason_not_found
is_kube_not_found auth = false
is_kube_not_found other = false

unfoldable pub is_kube_permission_denied : KubeError → Bool
is_kube_permission_denied (api code reason_not_found) = eqb code 401 || eqb code 403
is_kube_permission_denied auth = true
is_kube_permission_denied other = false
