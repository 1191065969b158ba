-- ===== src/DownloadHealth/Check/Laws.antt =====
-- What `check_download_client_health` of
-- crates/servarr-operator/src/controller/download_health.rs may call, and when it reports health.
use mathlib.Core.Bool.{false≢true}
use servarr_operator.Prelude.{
  ℕ, String, ◌≡◌, ◌⊎◌, inl, inr, refl, Bool, true, false, ◌&&◌, Option, none, some, List, is_empty,
  eqb, All, All-append, All-map_le, Bool-cases, Result, ok, err, if◌then◌else◌,
}
use servarr_operator.Crds.AppType.{AppType, transmission}
use servarr_operator.Crds.Types.Sync.{ApiHealthCheckSpec}
use servarr_operator.Throttle.{is_destructive_poll_throttled}
use servarr_operator.DownloadHealth.{TorrentInfo, partition_unavailable_dirs, split_missing_hash}
use servarr_operator.DownloadHealth.Remediate.{Client, Call, publish, remediate_stale_torrents}
use servarr_operator.DownloadHealth.Remediate.Laws.{IsSafe, remediate_stale_torrents-IsSafe}
use servarr_operator.DownloadHealth.Report.{
  download_data_healthy, report_stale_torrents, report_stale_torrents-publish,
}
use servarr_operator.DownloadHealth.Check.{
  App, Access, Pass, current_condition, is_transmission, remediate_and_report, after_list,
  with_access, enabled_pass, checked_pass, check_download_client_health,
}

is_transmission_iff : (app : AppType) → is_transmission app ≡ true → app ≡ transmission
is_transmission_iff transmission h = refl
is_transmission_iff app h = absurd (false≢true h)

-- The calls of a pass that a test chooses.
All-if :
    (P : Call → Type 0) (x y : Pass) (b : Bool)
    → (b ≡ true → All P x.1)
    → (b ≡ false → All P y.1)
    → All P (if b then x else y).1
All-if P x y true f g = f refl
All-if P x y false f g = g refl

module _ {F : Type 0} where
  -- The torrents that a pass remediates, and the numbers held back and without a hash.
  abbrev pub stale_of : List (TorrentInfo F) → List (TorrentInfo F)
  stale_of torrents = (split_missing_hash (partition_unavailable_dirs torrents).0).0

  abbrev pub held_back_of : List (TorrentInfo F) → ℕ
  held_back_of torrents = (partition_unavailable_dirs torrents).1

  abbrev pub missing_hash_of : List (TorrentInfo F) → ℕ
  missing_hash_of torrents = (split_missing_hash (partition_unavailable_dirs torrents).0).1

module _ {F : Type 0} (is_zero : F → Bool) where
  -- An event, or an RPC that the pass over the stale torrents may make.
  abbrev pub IsStep : Client F → List (TorrentInfo F) → Bool → Call → Type 0
  IsStep client torrents auto_remove call =
      ((note : String) × (call ≡ publish note))
      ⊎ IsSafe is_zero client (stale_of torrents) auto_remove call

  remediate_and_report-IsStep :
      (client : Client F) (torrents : List (TorrentInfo F)) (auto_remove : Bool)
      (held_back missing_hash : ℕ) (now : String)
      → All
          (IsStep client torrents auto_remove)
          (remediate_and_report is_zero client
            (stale_of torrents)
            held_back
            missing_hash
            auto_remove
            now).1
  unfolding remediate_and_report
  remediate_and_report-IsStep client torrents auto_remove held_back missing_hash now =
      let pass = remediate_stale_torrents is_zero client (stale_of torrents) auto_remove in
      All-append (IsStep client torrents auto_remove) pass.1
        (report_stale_torrents (stale_of torrents) pass.0 held_back)
        (All-map_le (λ call. inr) pass.1
          (remediate_stale_torrents-IsSafe is_zero client (stale_of torrents) auto_remove))
        (report_stale_torrents-publish (IsStep client torrents auto_remove)
          (λ note. inl (note, refl)) (stale_of torrents) pass.0 held_back)

  -- A call after an answer `r` of `torrent-get`.
  abbrev AfterList : Client F → Result String (List (TorrentInfo F)) → Bool → Call → Type 0
  AfterList client r auto_remove call =
      (torrents : List (TorrentInfo F)) × (r ≡ ok torrents)
      × IsStep client torrents auto_remove call

  after_list-AfterList :
      (client : Client F) (r : Result String (List (TorrentInfo F))) (auto_remove : Bool)
      (now : String)
      → All (AfterList client r auto_remove) (after_list is_zero client r auto_remove now).1
  unfolding after_list
  after_list-AfterList client (err e) auto_remove now = tt
  after_list-AfterList client (ok torrents) auto_remove now =
      elim (Bool-cases (is_empty (stale_of torrents) && eqb (held_back_of torrents) 0)) [
        | inl quiet ↦ rw quiet tt
        | inr due ↦ rw due (
            All-map_le (λ call step. (torrents, refl, step)) _
              (remediate_and_report-IsStep client torrents auto_remove (held_back_of torrents)
                (missing_hash_of torrents) now))
      ]

  module _ (parse_from_rfc3339 : String → Option ℕ) (app : App)
      (transmission_access : Option (Result String (Access F))) (now : String) where
    -- A pass that is due: the app is a Transmission with an enabled health check, no poll is
    -- throttled, and the client and complete credentials were resolved.
    abbrev pub IsDue : ApiHealthCheckSpec → Access F → Type 0
    IsDue health_check access =
        (app.spec.app ≡ transmission)
        × (app.spec.api_health_check ≡ some health_check)
        × (health_check.enabled ≡ true)
        × (is_destructive_poll_throttled parse_from_rfc3339
              (current_condition app download_data_healthy) health_check.interval_seconds now
            ≡ false)
        × (transmission_access ≡ some (ok access))
        × (access.credentials_incomplete ≡ false)

    -- A call that a due pass makes after `torrent-get` gave its torrents.
    abbrev pub IsAllowed : Call → Type 0
    IsAllowed call =
        (health_check : ApiHealthCheckSpec) × (access : Access F) × IsDue health_check access
        × AfterList access.client access.client.list_all health_check.auto_remove_orphaned_torrents
            call

    with_access-AfterList :
        (transmission_access : Option (Result String (Access F))) (auto_remove : Bool)
        → All
            (λ call.
              (access : Access F) × (transmission_access ≡ some (ok access))
              × (access.credentials_incomplete ≡ false)
              × AfterList access.client access.client.list_all auto_remove call)
            (with_access is_zero transmission_access auto_remove now).1
    unfolding with_access
    with_access-AfterList none auto_remove = tt
    with_access-AfterList (some (err e)) auto_remove = tt
    with_access-AfterList (some (ok access)) auto_remove =
        All-if _ _ _ access.credentials_incomplete (λ incomplete. tt)
          (λ complete.
            All-map_le (λ call after. (access, refl, complete, after)) _
              (after_list-AfterList access.client access.client.list_all auto_remove now))

    enabled_pass-IsAllowed :
        (health_check : ApiHealthCheckSpec)
        → app.spec.app ≡ transmission
        → app.spec.api_health_check ≡ some health_check
        → health_check.enabled ≡ true
        → All IsAllowed
            (enabled_pass is_zero parse_from_rfc3339 app health_check transmission_access now).1
    unfolding enabled_pass
    enabled_pass-IsAllowed health_check kind check enabled =
        All-if _ _ _
          (is_destructive_poll_throttled parse_from_rfc3339
            (current_condition app download_data_healthy) health_check.interval_seconds now)
          (λ held. tt)
          (λ free.
            All-map_le
              (λ call (access, resolved, complete, after).
                (health_check, access, (kind, check, enabled, free, resolved, complete), after))
              _
              (with_access-AfterList transmission_access
                health_check.auto_remove_orphaned_torrents))

    checked_pass-IsAllowed :
        (check : Option ApiHealthCheckSpec)
        → app.spec.api_health_check ≡ check
        → app.spec.app ≡ transmission
        → All IsAllowed
            (checked_pass is_zero parse_from_rfc3339 app check transmission_access now).1
    unfolding checked_pass
    checked_pass-IsAllowed none set kind = tt
    checked_pass-IsAllowed (some health_check) set kind =
        All-if _ _ _ health_check.enabled
          (λ enabled. enabled_pass-IsAllowed health_check kind set enabled) (λ disabled. tt)

    -- Every call of a pass needs a due pass and an answered `torrent-get`; it is an event, or an RPC
    -- that is admissible for the torrents of that answer that miss data, are not held back for
    -- their directory, and have a hash.
    pub check_download_client_health-IsAllowed :
        All IsAllowed
          (check_download_client_health is_zero parse_from_rfc3339 app transmission_access now).1
    unfolding check_download_client_health
    check_download_client_health-IsAllowed =
        All-if _ _ _ (is_transmission app.spec.app)
          (λ is_one.
            checked_pass-IsAllowed app.spec.api_health_check refl
              (is_transmission_iff app.spec.app is_one))
          (λ other. tt)
