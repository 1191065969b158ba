-- ===== src/Webhook/Rules/Secrets.antt =====
-- What the rules of the webhook on admin credentials and backup schedules accept.
use servarr_operator.Prelude.{
  String, ◌≡◌, ◌≢◌, ◌↔◌, iff_trans, ◌⊎◌, refl, true, false, ◌&&◌, Option, none, some, [], ◌==◌,
  arith, is_blank, eq_iff,
}
use servarr_operator.Prelude.Chars.{trim}
use servarr_operator.Crds.AppType.{AppType}
use servarr_operator.Crds.Spec.{ServarrAppSpec}
use servarr_operator.Crds.Types.Sync.{BackupSpec, AdminCredentialsSpec}
use servarr_operator.Webhook.Schedule.{normalize_backup_schedule}
use servarr_operator.Webhook.Rules.{
  check_admin, validate_admin_credentials, derived_secret, derives_secret, check_derived,
  validate_admin_secret_not_derived, check_cron, check_schedule, validate_backup_schedule,
}
use servarr_operator.Webhook.Rejection.{reject_if_iff, unless_iff, blank_iff}

abbrev pub CredentialsFit : Option AdminCredentialsSpec → Type 0
CredentialsFit none = Unit
CredentialsFit (some ac) = ac.secret_name ≢ ""

check_admin_iff : (o : Option AdminCredentialsSpec) → (check_admin o ≡ []) ↔ CredentialsFit o
check_admin_iff none = (λ h. tt, λ h. refl)
check_admin_iff (some ac) = iff_trans (reject_if_iff _ _) (blank_iff ac.secret_name)

pub validate_admin_credentials_iff :
    (spec : ServarrAppSpec)
    → (validate_admin_credentials spec ≡ []) ↔ CredentialsFit spec.admin_credentials
unfolding validate_admin_credentials
validate_admin_credentials_iff spec = check_admin_iff spec.admin_credentials

-- A Transmission app does not name the Secret that is derived for it.
abbrev pub NotDerived : AppType → String → String → Type 0
NotDerived AppType.transmission secret app_name = secret ≢ derived_secret app_name
NotDerived _ secret app_name = Unit

abbrev pub SecretFits : AppType → Option AdminCredentialsSpec → Option String → Type 0
SecretFits app (some ac) (some app_name) = NotDerived app ac.secret_name app_name
SecretFits app _ _ = Unit

different_iff : (a b : String) → ((a == b) ≡ false) ↔ (a ≢ b)
different_iff a b = (λ h e. ground (arith, h, (eq_iff a b).1 e), λ h. ground (arith, h, eq_iff a b))

derived_iff :
    (app : AppType) (secret app_name : String)
    → ((derives_secret app && secret == derived_secret app_name) ≡ false)
      ↔ NotDerived app secret app_name
derived_iff AppType.transmission secret app_name = different_iff secret (derived_secret app_name)
derived_iff _ secret app_name = (λ h. tt, λ h. refl)

check_derived_iff :
    (app : AppType) (o : Option AdminCredentialsSpec) (app_name : Option String)
    → (check_derived app o app_name ≡ []) ↔ SecretFits app o app_name
check_derived_iff app (some ac) (some app_name) =
    iff_trans (reject_if_iff _ _) (derived_iff app ac.secret_name app_name)
check_derived_iff app (some ac) none = (λ h. tt, λ h. refl)
check_derived_iff app none app_name = (λ h. tt, λ h. refl)

pub validate_admin_secret_not_derived_iff :
    (spec : ServarrAppSpec) (app_name : Option String)
    → (validate_admin_secret_not_derived spec app_name ≡ [])
      ↔ SecretFits spec.app spec.admin_credentials app_name
unfolding validate_admin_secret_not_derived
validate_admin_secret_not_derived_iff spec app_name =
    check_derived_iff spec.app spec.admin_credentials app_name

-- A schedule is blank, or its normalized form is a cron expression.
abbrev pub ScheduleFits : (String → Option String) → Option BackupSpec → Type 0
ScheduleFits cron_error none = Unit
ScheduleFits cron_error (some backup) =
    (is_blank (trim backup.schedule) ≡ true)
    ⊎ (cron_error (normalize_backup_schedule backup.schedule) ≡ none)

check_cron_iff : (o : Option String) (s : String) → (check_cron o s ≡ []) ↔ (o ≡ none)
check_cron_iff none s = (λ h. refl, λ h. refl)
check_cron_iff (some e) s = (λ h. ground arith, λ h. ground arith)

check_schedule_iff :
    (cron_error : String → Option String) (o : Option BackupSpec)
    → (check_schedule cron_error o ≡ []) ↔ ScheduleFits cron_error o
check_schedule_iff cron_error none = (λ h. tt, λ h. refl)
check_schedule_iff cron_error (some backup) =
    unless_iff (is_blank (trim backup.schedule)) _ (check_cron_iff _ backup.schedule)

pub validate_backup_schedule_iff :
    (cron_error : String → Option String) (spec : ServarrAppSpec)
    → (validate_backup_schedule cron_error spec ≡ []) ↔ ScheduleFits cron_error spec.backup
unfolding validate_backup_schedule
validate_backup_schedule_iff cron_error spec = check_schedule_iff cron_error spec.backup
