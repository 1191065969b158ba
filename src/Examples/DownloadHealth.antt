-- ===== src/Examples/DownloadHealth.antt =====
-- The theorems on the download health pass and its throttle at concrete inputs.
use servarr_operator.Prelude.{
  ℕ, ◌+◌, ◌≡◌, ◌↔◌, ◌⊎◌, refl, true, not, ◌&&◌, none, some, length, filter, All, ok,
}
use servarr_operator.Throttle.{fail_open, is_health_poll_throttled, is_destructive_poll_throttled}
use servarr_operator.Throttle.Laws.{InWindow, throttled_iff_InWindow}
use servarr_operator.DownloadHealth.{
  is_missing_data_torrent, is_confirmed_missing, dir_key, partition_unavailable_dirs,
}
use servarr_operator.DownloadHealth.Partition.{is_unavailable, partition_unavailable_dirs_lem}
use servarr_operator.DownloadHealth.Remediate.{classify_settled, remediate_stale_torrents}
use servarr_operator.DownloadHealth.Remediate.Laws.{
  IsSafe, hashes_where, has_data, has_no_progress, classify_settled_lem,
  remediate_stale_torrents-IsSafe,
}
use servarr_operator.DownloadHealth.Report.{
  accounted_for, build_download_health_condition, build_download_health_condition_true,
}
use servarr_operator.DownloadHealth.Check.{current_condition, check_download_client_health}
use servarr_operator.DownloadHealth.Check.Laws.{
  stale_of, held_back_of, missing_hash_of, IsDue, IsAllowed, check_download_client_health-IsAllowed,
}
use servarr_operator.DownloadHealth.Check.Healthy.{
  NothingWrong, IsReported, check_download_client_health_true,
}
use servarr_operator.Examples.Data.{
  condition, parse, torrents, is_zero, client, health_check, app, access, outcome,
}

throttled_iff_InWindow_example :
    ((is_destructive_poll_throttled parse (some (condition "Ready" "True")) (some 60) "t2" ≡ true)
      ↔ InWindow 1000000000 11000000000 (some 60))
    × ((is_health_poll_throttled parse (some (condition "Ready" "True")) (some 60) "t2" fail_open
          ≡ true)
        ↔ (((condition "Ready" "True").status ≡ "True")
            × InWindow 1000000000 11000000000 (some 60)))
throttled_iff_InWindow_example =
    throttled_iff_InWindow parse (condition "Ready" "True") (some 60) "t2" 1000000000 11000000000
      fail_open refl refl

partition_unavailable_dirs_example : partition_unavailable_dirs torrents ≡ (
  filter (λ t. is_missing_data_torrent t && not (is_unavailable (dir_key t) torrents)) torrents,
  length (filter (λ t. is_missing_data_torrent t && is_unavailable (dir_key t) torrents) torrents),
)
partition_unavailable_dirs_example = partition_unavailable_dirs_lem torrents

classify_settled_example :
    (classify_settled is_zero torrents ≡ record {
      confirmed_missing = hashes_where is_zero (is_confirmed_missing is_zero) torrents;
      with_data = hashes_where is_zero (has_data is_zero) torrents;
      unknown = hashes_where is_zero (has_no_progress is_zero) torrents;
    })
    × (length (classify_settled is_zero torrents).confirmed_missing
          + length (classify_settled is_zero torrents).with_data
          + length (classify_settled is_zero torrents).unknown
        ≡ length (hashes_where is_zero is_missing_data_torrent torrents))
classify_settled_example = classify_settled_lem is_zero torrents

remediate_stale_torrents_example :
    All
      (IsSafe is_zero client torrents true)
      (remediate_stale_torrents is_zero client torrents true).1
remediate_stale_torrents_example = remediate_stale_torrents-IsSafe is_zero client torrents true

build_download_health_condition_example :
    ((build_download_health_condition 2 0 outcome "t2").status ≡ "True") ↔ (
      (outcome.rpc_failure ≡ none)
      × (◌≡◌ {A = ℕ} 0 0)
      × ((accounted_for outcome ≡ 0) ⊎ (◌≡◌ {A = ℕ} 2 0)))
build_download_health_condition_example = build_download_health_condition_true 2 0 outcome "t2"

check_download_client_health-IsAllowed_example :
    All
      (IsAllowed is_zero parse app (some (ok access)) "t2")
      (check_download_client_health is_zero parse app (some (ok access)) "t2").1
check_download_client_health-IsAllowed_example =
    check_download_client_health-IsAllowed is_zero parse app (some (ok access)) "t2"

is_due : IsDue is_zero parse app (some (ok access)) "t2" health_check access
unfolding is_destructive_poll_throttled current_condition
is_due = (refl, refl, refl, refl, refl, refl)

check_download_client_health_true_example :
    IsReported
      (NothingWrong
        (length (stale_of torrents))
        (held_back_of torrents)
        (missing_hash_of torrents)
        (remediate_stale_torrents is_zero client (stale_of torrents) true).0)
      (check_download_client_health is_zero parse app (some (ok access)) "t2")
check_download_client_health_true_example =
    check_download_client_health_true is_zero parse app (some (ok access)) "t2" health_check access
      torrents is_due refl
