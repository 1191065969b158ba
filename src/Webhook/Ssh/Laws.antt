-- ===== src/Webhook/Ssh/Laws.antt =====
-- What the rules of the webhook on an SSH bastion accept.
use servarr_operator.Prelude.{
  String, ◌≡◌, ◌≢◌, ◌↔◌, iff_trans, ◌⊎◌, inl, inr, refl, Bool, true, false, not, ◌&&◌, Option, none,
  some, List, [], All, any, arith, is_some,
}
use servarr_operator.Crds.AppConfig.{
  AppConfig, SshMode, SshUser, restricted_rsync, RestrictedRsyncConfig,
}
use servarr_operator.Crds.Spec.{ServarrAppSpec}
use servarr_operator.Crds.Types.Persistence.{PersistenceSpec}
use servarr_operator.Crds.Types.Workload.{SecurityProfile}
use servarr_operator.Webhook.Names.{is_valid_allowed_path, is_valid_shell_path}
use servarr_operator.Webhook.Names.Laws.{IsUsername, is_valid_ssh_username_iff}
use servarr_operator.Webhook.Rejection.{
  Rejection, reject_if_iff, reject_unless_iff, both_iff, each_iff,
}
use servarr_operator.Webhook.Ssh.{
  each_user, is_restricted, check_shell_override, validate_ssh_shell_override, same_upper, is_set,
  lists_authorized_keys, check_security, check_bastion, validate_ssh_security_context, check_paths,
  check_shell, check_user, validate_ssh_bastion_inputs,
}

-- What holds of each user of an SSH bastion.
abbrev pub AllUsers : (SshUser → Type 0) → Option AppConfig → Type 0
AllUsers P (some (AppConfig.ssh_bastion sc)) = All P sc.users
AllUsers P _ = Unit

each_user_iff :
    {P : SshUser → Type 0} (body : SshUser → List Rejection)
    → ((user : SshUser) → (body user ≡ []) ↔ P user)
    → (c : Option AppConfig) → (each_user body c ≡ []) ↔ AllUsers P c
each_user_iff body one (some (AppConfig.ssh_bastion sc)) = each_iff body one sc.users
each_user_iff body one _ = (λ h. tt, λ h. refl)

-- A restricted user has no shell of its own.
abbrev pub KeepsShell : SshUser → Type 0
KeepsShell user = (user.mode ≢ restricted_rsync) ⊎ (user.shell ≡ none)

restricted_iff :
    (mode : SshMode) (shell : Option String)
    → ((is_restricted mode && is_some shell) ≡ false) ↔ ((mode ≢ restricted_rsync) ⊎ (shell ≡ none))
restricted_iff mode none = (λ h. inr refl, λ h. ground arith)
restricted_iff restricted_rsync (some s) =
    (λ h. ground arith, λ h. elim h [ inl other ↦ absurd (other refl) | inr e ↦ ground arith ])
restricted_iff _ (some s) = (λ h. inl (λ e. ground arith), λ h. refl)

pub validate_ssh_shell_override_iff :
    (spec : ServarrAppSpec)
    → (validate_ssh_shell_override spec ≡ []) ↔ AllUsers KeepsShell spec.app_config
unfolding validate_ssh_shell_override
validate_ssh_shell_override_iff spec =
    each_user_iff check_shell_override
      (λ user. iff_trans (reject_if_iff _ _) (restricted_iff user.mode user.shell)) spec.app_config

-- A read-only root needs the volume of authorized keys; a user that is not root needs CHOWN.
abbrev pub SecurityFits : Option SecurityProfile → Option PersistenceSpec → Type 0
SecurityFits none persistence = Unit
SecurityFits (some sec) persistence =
    ((is_set sec.read_only_root_filesystem ≡ false) ⊎ (lists_authorized_keys persistence ≡ true))
    × ((is_set sec.run_as_non_root ≡ false)
        ⊎ (any (λ cap. same_upper cap "CHOWN") sec.capabilities_add ≡ true))

abbrev pub BastionFits : Option AppConfig → Option SecurityProfile → Option PersistenceSpec → Type 0
BastionFits (some (AppConfig.ssh_bastion sc)) security persistence =
    SecurityFits security persistence
BastionFits _ security persistence = Unit

needs_iff : (a b : Bool) → ((a && not b) ≡ false) ↔ ((a ≡ false) ⊎ (b ≡ true))
needs_iff true true = (λ h. inr refl, λ h. refl)
needs_iff true false =
    (λ h. ground arith, λ h. elim h [ inl e ↦ ground arith | inr e ↦ ground arith ])
needs_iff false b = (λ h. inl refl, λ h. refl)

check_security_iff :
    (security : Option SecurityProfile) (persistence : Option PersistenceSpec)
    → (check_security security persistence ≡ []) ↔ SecurityFits security persistence
check_security_iff none persistence = (λ h. tt, λ h. refl)
check_security_iff (some sec) persistence =
    both_iff _ _ (iff_trans (reject_if_iff _ _) (needs_iff _ _))
      (iff_trans (reject_if_iff _ _) (needs_iff _ _))

check_bastion_iff :
    (c : Option AppConfig) (security : Option SecurityProfile)
    (persistence : Option PersistenceSpec)
    → (check_bastion c security persistence ≡ []) ↔ BastionFits c security persistence
check_bastion_iff (some (AppConfig.ssh_bastion sc)) security persistence =
    check_security_iff security persistence
check_bastion_iff _ security persistence = (λ h. tt, λ h. refl)

pub validate_ssh_security_context_iff :
    (spec : ServarrAppSpec)
    → (validate_ssh_security_context spec ≡ [])
      ↔ BastionFits spec.app_config spec.security spec.persistence
unfolding validate_ssh_security_context
validate_ssh_security_context_iff spec =
    check_bastion_iff spec.app_config spec.security spec.persistence

-- The texts of a user that reach a shell are safe.
abbrev pub PathsFit : Option RestrictedRsyncConfig → Type 0
PathsFit none = Unit
PathsFit (some rr) = All (λ path. is_valid_allowed_path path ≡ true) rr.allowed_paths

abbrev pub ShellFits : Option String → Type 0
ShellFits none = Unit
ShellFits (some shell) = is_valid_shell_path shell ≡ true

abbrev pub IsSafe : SshUser → Type 0
IsSafe user = IsUsername user.name × (PathsFit user.restricted_rsync × ShellFits user.shell)

check_paths_iff : (o : Option RestrictedRsyncConfig) → (check_paths o ≡ []) ↔ PathsFit o
check_paths_iff none = (λ h. tt, λ h. refl)
check_paths_iff (some rr) =
    each_iff _ (λ path. reject_unless_iff (is_valid_allowed_path path) _) rr.allowed_paths

check_shell_iff : (o : Option String) → (check_shell o ≡ []) ↔ ShellFits o
check_shell_iff none = (λ h. tt, λ h. refl)
check_shell_iff (some shell) = reject_unless_iff (is_valid_shell_path shell) _

check_user_iff : (user : SshUser) → (check_user user ≡ []) ↔ IsSafe user
check_user_iff user =
    both_iff _ _ (iff_trans (reject_unless_iff _ _) (is_valid_ssh_username_iff user.name))
      (both_iff _ _ (check_paths_iff user.restricted_rsync) (check_shell_iff user.shell))

pub validate_ssh_bastion_inputs_iff :
    (spec : ServarrAppSpec)
    → (validate_ssh_bastion_inputs spec ≡ []) ↔ AllUsers IsSafe spec.app_config
unfolding validate_ssh_bastion_inputs
validate_ssh_bastion_inputs_iff spec = each_user_iff check_user check_user_iff spec.app_config
