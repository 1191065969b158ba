-- ===== src/Webhook/Ssh.antt =====
-- The rules of the webhook on an SSH bastion: `validate_ssh_shell_override`,
-- `validate_ssh_security_context` and `validate_ssh_bastion_inputs`.
pub mod Laws
use servarr_operator.Prelude.{
  String, Bool, true, false, not, ◌&&◌, Option, none, some, List, [], ◌∷◌, ◌++◌, ◌==◌, any, eqb,
  ◌-◌, ℕ, is_some, if◌then◌else◌,
}
use servarr_operator.Prelude.Chars.{is_lower}
use Prim.Native.Char.{Char, code}
use servarr_operator.Crds.AppConfig.{
  AppConfig, SshMode, SshUser, restricted_rsync, RestrictedRsyncConfig,
}
use servarr_operator.Crds.Spec.{ServarrAppSpec}
use servarr_operator.Crds.Types.Persistence.{PersistenceSpec}
use servarr_operator.Crds.Types.Workload.{SecurityProfile}
use servarr_operator.Webhook.Names.{
  is_valid_ssh_username, is_valid_allowed_path, is_valid_shell_path,
}
use servarr_operator.Webhook.Rejection.{
  Rejection, reject_if, each, shell_overridden, authorized_keys_read_only, chown_missing,
  username_invalid, allowed_path_invalid, shell_path_invalid,
}

-- A loop over the users of an SSH bastion.
abbrev pub each_user : (SshUser → List Rejection) → Option AppConfig → List Rejection
each_user body (some (AppConfig.ssh_bastion sc)) = each body sc.users
each_user body _ = []

abbrev pub is_restricted : SshMode → Bool
is_restricted restricted_rsync = true
is_restricted _ = false

abbrev pub check_shell_override : SshUser → List Rejection
check_shell_override user =
    reject_if (is_restricted user.mode && is_some user.shell) (shell_overridden user.name)

unfoldable pub validate_ssh_shell_override : ServarrAppSpec → List Rejection
validate_ssh_shell_override spec = each_user check_shell_override spec.app_config

-- `cap.to_uppercase() == text` for a text of ASCII capitals: the only characters that become
-- the capitals of CHOWN are those and their lower case.
abbrev upper_code : Char → ℕ
upper_code c = if is_lower c then code c - 32 else code c

abbrev pub same_upper : String → String → Bool
same_upper String.[] String.[] = true
same_upper (String.◌∷◌ c s) (String.◌∷◌ d t) = eqb (upper_code c) (code d) && same_upper s t
same_upper _ _ = false

-- `== Some(true)`
abbrev pub is_set : Option Bool → Bool
is_set (some b) = b
is_set none = false

abbrev pub lists_authorized_keys : Option PersistenceSpec → Bool
lists_authorized_keys none = false
lists_authorized_keys (some p) = any (λ v. v.name == "authorized-keys") p.volumes

abbrev pub check_security : Option SecurityProfile → Option PersistenceSpec → List Rejection
check_security none persistence = []
check_security (some sec) persistence =
    reject_if (is_set sec.read_only_root_filesystem && not (lists_authorized_keys persistence))
      authorized_keys_read_only
    ++ reject_if
        (is_set sec.run_as_non_root
          && not (any (λ cap. same_upper cap "CHOWN") sec.capabilities_add))
        chown_missing

abbrev pub check_bastion :
    Option AppConfig → Option SecurityProfile → Option PersistenceSpec → List Rejection
check_bastion (some (AppConfig.ssh_bastion sc)) security persistence =
    check_security security persistence
check_bastion _ security persistence = []

unfoldable pub validate_ssh_security_context : ServarrAppSpec → List Rejection
validate_ssh_security_context spec = check_bastion spec.app_config spec.security spec.persistence

abbrev pub check_paths : Option RestrictedRsyncConfig → List Rejection
check_paths none = []
check_paths (some rr) =
    each (λ path. reject_if (not (is_valid_allowed_path path)) (allowed_path_invalid path))
      rr.allowed_paths

abbrev pub check_shell : Option String → List Rejection
check_shell none = []
check_shell (some shell) = reject_if (not (is_valid_shell_path shell)) (shell_path_invalid shell)

abbrev pub check_user : SshUser → List Rejection
check_user user =
    reject_if (not (is_valid_ssh_username user.name)) (username_invalid user.name)
    ++ (check_paths user.restricted_rsync ++ check_shell user.shell)

unfoldable pub validate_ssh_bastion_inputs : ServarrAppSpec → List Rejection
validate_ssh_bastion_inputs spec = each_user check_user spec.app_config
