-- ===== src/Controller/Cleanup.antt =====
-- The removal of an app from Seerr when it is deleted: `ApiError`'s classes, `seerr_remove_server`
-- and `finish_cleanup` of crates/servarr-operator/src/controller/cleanup.rs.
pub mod Laws
use servarr_operator.Prelude.{
  ℕ, String, Bool, true, false, not, ◌&&◌, Option, none, some, List, [], ◌∷◌, ◌==◌, eqb, Result, ok,
  err, ◌>>=◌, if◌then◌else◌,
}
use servarr_operator.Prelude.Chars.{between}
use servarr_operator.Prelude.Int.{ℤ}

-- `ApiError` of crates/servarr-api/src/client.rs; an HTTP error has its status.
pub data ApiError : Type 0 where
  request_error invalid_url invalid_api_key operation_failed : ApiError
  api_response : ℕ → ApiError

pub data CleanupSeverity : Type 0 where
  terminal transient : CleanupSeverity

pub data RetryOutlook : Type 0 where
  may_self_resolve needs_manual_fix : RetryOutlook

abbrev pub cleanup_severity : ApiError → CleanupSeverity
cleanup_severity (api_response status) = if eqb status 404 then terminal else transient
cleanup_severity _ = transient

abbrev pub retry_outlook : ApiError → RetryOutlook
retry_outlook (api_response status) =
    if between 400 499 status && not (eqb status 429) then needs_manual_fix else may_self_resolve
retry_outlook invalid_api_key = needs_manual_fix
retry_outlook invalid_url = needs_manual_fix
retry_outlook request_error = may_self_resolve
retry_outlook operation_failed = may_self_resolve

-- A failure by the API error that it comes from and its classes.
pub record CleanupFailure : Type 0 where
  pub cause : ApiError
  pub severity : CleanupSeverity
  pub outlook : RetryOutlook

-- `cleanup_map_err` and, for LIST calls, `cleanup_map_err_transient`.
abbrev pub cleanup_map_err : {A : Type 0} → Result ApiError A → Result CleanupFailure A
cleanup_map_err (ok a) = ok a
cleanup_map_err (err e) =
    err (record { cause = e; severity = cleanup_severity e; outlook = retry_outlook e })

abbrev pub cleanup_map_err_transient : {A : Type 0} → Result ApiError A → Result CleanupFailure A
cleanup_map_err_transient (ok a) = ok a
cleanup_map_err_transient (err e) =
    err (record { cause = e; severity = transient; outlook = retry_outlook e })

-- A server registered in Seerr; `same_port` compares its port, an f64, with the app's.
pub record SeerrServer (F : Type 0) : Type 0 where
  pub hostname : String
  pub port : F
  pub id : ℤ

pub record SeerrClient (F : Type 0) : Type 0 where
  pub list : Result ApiError (List (SeerrServer F))
  pub delete : ℤ → Result ApiError (Unit {0})

abbrev pub removed_server : Result CleanupFailure (Unit {0}) → Result CleanupFailure Bool
removed_server (ok done) = ok true
removed_server (err failure) = err failure

module _ {F : Type 0} (same_port : F → ℤ → Bool) where
  -- `existing.iter().find(..)`
  unfoldable pub find_server : String → ℤ → List (SeerrServer F) → Option (SeerrServer F)
  find_server app_hostname port [] = none
  find_server app_hostname port (s ∷ servers) =
      let later = find_server app_hostname port servers in
      if s.hostname == app_hostname && same_port s.port port then some s else later

  abbrev pub remove_found : SeerrClient F → Option (SeerrServer F) → Result CleanupFailure Bool
  remove_found client none = ok false
  remove_found client (some registered) =
      removed_server (cleanup_map_err (client.delete registered.id))

  unfoldable pub seerr_remove_server : SeerrClient F → String → ℤ → Result CleanupFailure Bool
  unfolding find_server
  seerr_remove_server client app_hostname port =
      cleanup_map_err_transient client.list >>= λ existing.
      remove_found client (find_server app_hostname port existing)

-- The result that decides on the finalizer, and whether the event CleanupFailed is published.
abbrev pub failed : CleanupSeverity → ApiError → Result ApiError (Unit {0}) × Bool
failed terminal cause = (ok tt, false)
failed transient cause = (err cause, true)

unfoldable pub finish_cleanup :
    {A : Type 0} → Result CleanupFailure A → Result ApiError (Unit {0}) × Bool
finish_cleanup (ok done) = (ok tt, false)
finish_cleanup (err failure) = failed failure.severity failure.cause
