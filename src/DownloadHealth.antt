-- ===== src/DownloadHealth.antt =====
-- crates/servarr-operator/src/controller/download_health.rs: the detection of torrents whose data
-- went missing. A fraction of type `f64` is only compared with `0.0`: its type `F` and that test
-- are parameters.
pub mod Partition
pub mod Remediate
pub mod Report
pub mod Check
use servarr_operator.Prelude.{
  ℕ, suc, ◌+◌, String, Bool, true, false, not, ◌&&◌, ◌||◌, Option, none, some, List, [], ◌∷◌, ◌==◌,
  is_blank, leb, eqb, length, filter, contains, unwrap_or, if◌then◌else◌,
}
use servarr_operator.Prelude.Int.{ℤ, eqz}
use servarr_operator.Prelude.IndexMap.{IndexMap, lookup, insert}
use servarr_operator.Crds.Types.Nfs.{trim_end_slashes}

-- `TorrentInfo` of crates/servarr-api/src/transmission.rs.
pub record TorrentInfo (F : Type 0) : Type 0 where
  pub id : ℤ
  pub name : String
  pub error : Option ℤ
  pub error_string : String
  pub status : Option ℤ
  pub hash_string : String
  pub percent_done : Option F
  pub download_dir : String

abbrev pub tr_stat_local_error : ℕ
tr_stat_local_error = 3

abbrev pub tr_stat_stopped : ℕ
tr_stat_stopped = 0

abbrev pub min_torrents_for_dir_check : ℕ
min_torrents_for_dir_check = 2

-- `o == Some(n)`
abbrev pub is_code : Option ℤ → ℕ → Bool
is_code none n = false
is_code (some z) n = eqz z n

-- `entry(key).or_default()` with the two counts raised.
abbrev raise : Bool → Option (ℕ × ℕ) → ℕ × ℕ
raise erroring none = (1, if erroring then 1 else 0)
raise erroring (some (total, errors)) = (suc total, if erroring then suc errors else errors)

abbrev is_down : ℕ × ℕ → Bool
is_down (total, erroring) = leb min_torrents_for_dir_check total && eqb total erroring

-- The final `filter` and `map`.
down_dirs : IndexMap (ℕ × ℕ) → List String
down_dirs [] = []
down_dirs ((dir, counts) ∷ rest) =
    let later = down_dirs rest in if is_down counts then dir ∷ later else later

module _ {F : Type 0} where
  unfoldable pub is_missing_data_torrent : TorrentInfo F → Bool
  is_missing_data_torrent t = is_code t.error tr_stat_local_error

  abbrev is_zero_fraction : (F → Bool) → Option F → Bool
  is_zero_fraction is_zero none = false
  is_zero_fraction is_zero (some f) = is_zero f

  unfoldable pub is_confirmed_missing : (F → Bool) → TorrentInfo F → Bool
  is_confirmed_missing is_zero t =
      is_missing_data_torrent t && is_zero_fraction is_zero t.percent_done

  -- `CHECKING_STATUSES` are 1 and 2.
  unfoldable pub is_checking : TorrentInfo F → Bool
  is_checking t = is_code t.status 1 || is_code t.status 2

  unfoldable pub dir_key : TorrentInfo F → String
  dir_key t = trim_end_slashes t.download_dir

  unfoldable pub is_idle_stopped : TorrentInfo F → Bool
  is_idle_stopped t = is_code t.status tr_stat_stopped && is_code t.error 0

  -- The loop over the torrents, with its two `continue`s.
  count_torrent : IndexMap (ℕ × ℕ) → TorrentInfo F → IndexMap (ℕ × ℕ)
  count_torrent per_dir t =
      if is_blank (dir_key t) || is_idle_stopped t
      then per_dir
      else insert (dir_key t) (raise (is_missing_data_torrent t) (lookup (dir_key t) per_dir))
          per_dir

  count_dirs : IndexMap (ℕ × ℕ) → List (TorrentInfo F) → IndexMap (ℕ × ℕ)
  count_dirs per_dir [] = per_dir
  count_dirs per_dir (t ∷ ts) = count_dirs (count_torrent per_dir t) ts

  unfoldable pub unavailable_dirs : List (TorrentInfo F) → List String
  unfolding count_dirs count_torrent down_dirs
  unavailable_dirs torrents = down_dirs (count_dirs [] torrents)

  -- The stale torrents that are safe to remediate, and the number held back.
  unfoldable pub partition_unavailable_dirs : List (TorrentInfo F) → List (TorrentInfo F) × ℕ
  partition_unavailable_dirs torrents =
      let unavailable = unavailable_dirs torrents in
      let missing = filter is_missing_data_torrent torrents in
      (
        filter (λ t. not (contains (dir_key t) unavailable)) missing,
        length (filter (λ t. contains (dir_key t) unavailable) missing),
      )

  unfoldable pub split_missing_hash : List (TorrentInfo F) → List (TorrentInfo F) × ℕ
  split_missing_hash candidates = (
    filter (λ t. not (is_blank t.hash_string)) candidates,
    length (filter (λ t. is_blank t.hash_string) candidates),
  )
