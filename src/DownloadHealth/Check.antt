-- ===== src/DownloadHealth/Check.antt =====
-- `check_download_client_health` of crates/servarr-operator/src/controller/download_health.rs.
pub mod Laws
pub mod Healthy
use servarr_operator.Prelude.{
  ℕ, String, Bool, true, false, not, ◌&&◌, Option, none, some, List, [], ◌∷◌, ◌++◌, ◌==◌, length,
  is_empty, is_none, eqb, ltb, Result, ok, err, ◌⧺◌, if◌then◌else◌,
}
use servarr_operator.Prelude.Decimal.{show}
use servarr_operator.Crds.AppType.{AppType, transmission}
use servarr_operator.Crds.Types.Sync.{ApiHealthCheckSpec}
use servarr_operator.Crds.Spec.{ServarrAppSpec}
use servarr_operator.Crds.Condition.{Condition, ServarrAppStatus, ok_condition, unknown_condition}
use servarr_operator.Throttle.{is_destructive_poll_throttled}
use servarr_operator.DownloadHealth.{TorrentInfo, partition_unavailable_dirs, split_missing_hash}
use servarr_operator.DownloadHealth.Remediate.{
  Client, Call, RemediationOutcome, remediate_stale_torrents,
}
use servarr_operator.DownloadHealth.Report.{
  download_data_healthy, report_stale_torrents, build_download_health_condition,
}

-- The `spec` and the `status` of a `ServarrApp`.
pub record App : Type 0 where
  pub spec : ServarrAppSpec
  pub status : Option ServarrAppStatus

-- `TransmissionAccess` of crates/servarr-operator/src/controller/transmission_access.rs.
pub record Access (F : Type 0) : Type 0 where
  pub client : Client F
  pub credentials_incomplete : Bool
  pub credentials_error : Option String

find_type : String → List Condition → Option Condition
find_type condition_type [] = none
find_type condition_type (c ∷ cs) =
    if c.condition_type == condition_type then some c else find_type condition_type cs

abbrev condition_in : Option ServarrAppStatus → String → Option Condition
condition_in none condition_type = none
condition_in (some status) condition_type = find_type condition_type status.conditions

-- `current_condition` of crates/servarr-operator/src/controller.rs.
unfoldable pub current_condition : App → String → Option Condition
unfolding find_type
current_condition app condition_type = condition_in app.status condition_type

unfoldable pub download_health_unknown : String → String → String → Condition
unfolding unknown_condition
download_health_unknown reason message now =
    unknown_condition download_data_healthy reason message now

abbrev is_transmission : AppType → Bool
is_transmission transmission = true
is_transmission _ = false

-- What a pass returns, and the calls that it makes.
abbrev pub Pass : Type 0
Pass = Option Condition × List Call

-- The condition when a poll is throttled: a timestamp that cannot be read is repaired.
repaired : (String → Option ℕ) → Option Condition → String → Option Condition
repaired parse_from_rfc3339 none now = none
repaired parse_from_rfc3339 (some existing) now =
    if is_none (parse_from_rfc3339 existing.last_transition_time)
    then some (record existing { last_transition_time = now })
    else some existing

credentials_message : Option String → String
credentials_message (some category) = "adminCredentials could not be read: " ⧺ category
credentials_message none = "adminCredentials secret is missing username or password"

missing_hash_message : ℕ → String
missing_hash_message missing_hash =
    show missing_hash ⧺ " torrent(s) reporting missing data have no hashString"

module _ {F : Type 0} (is_zero : F → Bool) where
  -- The pass over the stale torrents, and the condition with torrents without a hash.
  remediate_and_report : Client F → List (TorrentInfo F) → ℕ → ℕ → Bool → String → Pass
  unfolding download_health_unknown missing_hash_message
  remediate_and_report client stale held_back missing_hash auto_remove now =
      let (outcome, calls) = remediate_stale_torrents is_zero client stale auto_remove in
      let condition = build_download_health_condition (length stale) held_back outcome now in
      (
        some (
            if ltb 0 missing_hash && condition.status == "True"
            then download_health_unknown "MissingHashString" (missing_hash_message missing_hash) now
            else condition),
        calls ++ report_stale_torrents stale outcome held_back,
      )

  -- What follows `torrent-get`.
  after_list : Client F → Result String (List (TorrentInfo F)) → Bool → String → Pass
  unfolding remediate_and_report download_health_unknown missing_hash_message ok_condition
  after_list client (err e) auto_remove now =
      (some (download_health_unknown "TorrentGetError" e now), [])
  after_list client (ok torrents) auto_remove now =
      let (candidates, held_back) = partition_unavailable_dirs torrents in
      let (stale, missing_hash) = split_missing_hash candidates in
      if is_empty stale && eqb held_back 0
      then (
        some (
            if ltb 0 missing_hash
            then download_health_unknown "MissingHashString" (missing_hash_message missing_hash) now
            else ok_condition download_data_healthy "NoStaleData"
                "No torrents reporting missing data" now),
        [],
      )
      else remediate_and_report client stale held_back missing_hash auto_remove now

  with_access : Option (Result String (Access F)) → Bool → String → Pass
  unfolding after_list credentials_message download_health_unknown
  with_access none auto_remove now = (
    some (
        download_health_unknown "ClientBuildError"
          "Transmission client was not resolved for this reconcile" now),
    [],
  )
  with_access (some (err e)) auto_remove now =
      (some (download_health_unknown "ClientBuildError" e now), [])
  with_access (some (ok access)) auto_remove now =
      if access.credentials_incomplete
      then (
        some (
            download_health_unknown "CredentialReadError"
              (credentials_message access.credentials_error) now),
        [],
      )
      else after_list access.client access.client.list_all auto_remove now

  enabled_pass :
      (String → Option ℕ)
      → App
      → ApiHealthCheckSpec
      → Option (Result String (Access F))
      → String
      → Pass
  unfolding repaired with_access
  enabled_pass parse_from_rfc3339 app health_check transmission_access now =
      let existing = current_condition app download_data_healthy in
      if is_destructive_poll_throttled parse_from_rfc3339 existing health_check.interval_seconds now
      then (repaired parse_from_rfc3339 existing now, [])
      else with_access transmission_access health_check.auto_remove_orphaned_torrents now

  checked_pass :
      (String → Option ℕ)
      → App
      → Option ApiHealthCheckSpec
      → Option (Result String (Access F))
      → String
      → Pass
  unfolding enabled_pass
  checked_pass parse_from_rfc3339 app none transmission_access now = (none, [])
  checked_pass parse_from_rfc3339 app (some health_check) transmission_access now =
      if health_check.enabled
      then enabled_pass parse_from_rfc3339 app health_check transmission_access now
      else (none, [])

  -- `now` is the time that `chrono_now` gives.
  unfoldable pub check_download_client_health :
      (String → Option ℕ) → App → Option (Result String (Access F)) → String → Pass
  unfolding checked_pass
  check_download_client_health parse_from_rfc3339 app transmission_access now =
      if is_transmission app.spec.app
      then checked_pass parse_from_rfc3339 app app.spec.api_health_check transmission_access now
      else (none, [])
