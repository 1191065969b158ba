-- ===== src/Crds/Defaults/Reserved.antt =====
-- What the operator mounts itself: `operator_reserved_mounts` and `operator_reserved_volume_names`
-- of crates/servarr-crds/src/v1alpha1/defaults.rs. Each `if` pushes onto the vector.
use servarr_operator.Prelude.{
  String, Bool, true, false, not, Option, some, List, [], ◌∷◌, ◌++◌, is_blank, is_empty, is_some,
  any, if◌then◌else◌,
}
use servarr_operator.Crds.AppType.{AppType, transmission, bazarr, unpackerr}
use servarr_operator.Crds.AppConfig.{AppConfig, SshMode, rsync, restricted_rsync}
use servarr_operator.Crds.Spec.{ServarrAppSpec}

-- The block on Transmission, by whether `admin_credentials` is set.
abbrev transmission_mounts : AppType → Bool → List (String × String)
transmission_mounts transmission has_admin =
    ("/watch", "watch")
    ∷ (if has_admin
        then ("/run/secrets/admin", "admin-credentials")
          ∷ ("/custom-cont-init.d/99-transmission-auth.sh", "scripts")
          ∷ []
        else [])
transmission_mounts _ has_admin = []

-- The blocks on the app's configuration: at most one of them applies.
abbrev config_mounts : Option AppConfig → List (String × String)
config_mounts (some (AppConfig.prowlarr pc)) =
    if is_empty pc.custom_definitions
    then []
    else ("/config/Definitions/Custom", "prowlarr-definitions") ∷ []
config_mounts (some (AppConfig.ssh_bastion sc)) =
    if any (λ u. not (is_blank u.public_keys)) sc.users
    then ("/etc/authorized_keys.src", "authorized-keys-src")
      ∷ ("/etc/authorized_keys", "authorized-keys")
      ∷ []
    else []
config_mounts _ = []

unfoldable pub operator_reserved_mounts : ServarrAppSpec → List (String × String)
operator_reserved_mounts spec =
    transmission_mounts spec.app (is_some spec.admin_credentials) ++ config_mounts spec.app_config

abbrev app_volume_names : AppType → List String
app_volume_names transmission = "scripts" ∷ []
app_volume_names bazarr = "bazarr-init-scripts" ∷ "bazarr-api-key" ∷ []
app_volume_names unpackerr = "unpackerr-init-scripts" ∷ []
app_volume_names _ = []

abbrev uses_rsync : SshMode → Bool
uses_rsync rsync = true
uses_rsync restricted_rsync = true
uses_rsync _ = false

abbrev config_volume_names : Option AppConfig → List String
config_volume_names (some (AppConfig.sabnzbd sc)) =
    (if sc.tar_unpack then "tar-unpack-scripts" ∷ [] else [])
    ++ (if is_empty sc.host_whitelist then [] else "sabnzbd-scripts" ∷ [])
config_volume_names (some (AppConfig.ssh_bastion sc)) =
    if any (λ u. uses_rsync u.mode) sc.users then "restricted-rsync" ∷ [] else []
config_volume_names _ = []

unfoldable pub operator_reserved_volume_names : ServarrAppSpec → List String
operator_reserved_volume_names spec =
    app_volume_names spec.app ++ config_volume_names spec.app_config
