-- ===== src/DownloadHealth/Remediate.antt =====
-- crates/servarr-operator/src/controller/download_health/remediate.rs. The Transmission client is
-- a parameter: what each of its calls answers, polls by their number.
pub mod Laws
use servarr_operator.Prelude.{
  ℕ, zero, suc, String, Bool, true, false, not, ◌&&◌, Option, none, some, List, [], ◌∷◌, ◌++◌, ◌==◌,
  map, is_empty, is_none, any, all, filter, Result, ok, err, if◌then◌else◌,
}
use servarr_operator.DownloadHealth.{
  TorrentInfo, is_missing_data_torrent, is_confirmed_missing, is_checking,
}

pub record Client (F : Type 0) : Type 0 where
  -- `torrent-get` over all torrents; an error by its log summary.
  pub list_all : Result String (List (TorrentInfo F))
  -- Whether `torrent-verify` succeeds.
  pub verify : List String → Bool
  -- The answer to the n-th poll by `torrent-get`.
  pub poll : ℕ → List String → Option (List (TorrentInfo F))
  -- Whether the RPC `torrent-remove` succeeds.
  pub remove : List String → Bool

-- The RPCs that change Transmission, and the events published.
pub data Call : Type 0 where
  torrent_verify torrent_remove : List String → Call
  publish : String → Call

pub record RemediationOutcome : Type 0 where
  pub removed : List String
  pub confirmed_orphaned : List String
  pub still_pending : List String
  pub settled_with_data : List String
  pub settled_unknown : List String
  pub rpc_failure : Option String

abbrev pub default_outcome : RemediationOutcome
default_outcome = record {
  removed = [];
  confirmed_orphaned = [];
  still_pending = [];
  settled_with_data = [];
  settled_unknown = [];
  rpc_failure = none;
}

pub record SettledBuckets : Type 0 where
  pub confirmed_missing : List String
  pub with_data : List String
  pub unknown : List String

abbrev pub verify_poll_attempts : ℕ
verify_poll_attempts = 100

rpc_failed_outcome : String → List String → List String → RemediationOutcome
rpc_failed_outcome op hashes already_checking = record default_outcome {
  still_pending = hashes ++ already_checking;
  rpc_failure = some op;
}

abbrev removal_outcome : Bool → List String → RemediationOutcome → RemediationOutcome
removal_outcome true still_erroring base = record base { removed = still_erroring }
removal_outcome false still_erroring base = record base {
  confirmed_orphaned = still_erroring;
  rpc_failure = some "torrent-remove";
}

module _ {F : Type 0} where
  abbrev pub hash_of : TorrentInfo F → String
  hash_of t = t.hash_string

  -- One round of the loop of `classify_settled`.
  classify_one : (F → Bool) → SettledBuckets → TorrentInfo F → SettledBuckets
  classify_one is_zero buckets t =
      if not (is_missing_data_torrent t)
      then buckets
      else if is_confirmed_missing is_zero t
      then record buckets { confirmed_missing = buckets.confirmed_missing ++ t.hash_string ∷ [] }
      else if is_none t.percent_done
      then record buckets { unknown = buckets.unknown ++ t.hash_string ∷ [] }
      else record buckets { with_data = buckets.with_data ++ t.hash_string ∷ [] }

  classify_from : (F → Bool) → SettledBuckets → List (TorrentInfo F) → SettledBuckets
  classify_from is_zero buckets [] = buckets
  classify_from is_zero buckets (t ∷ ts) = classify_from is_zero (classify_one is_zero buckets t) ts

  unfoldable pub classify_settled : (F → Bool) → List (TorrentInfo F) → SettledBuckets
  unfolding classify_from classify_one
  classify_settled is_zero settled =
      classify_from is_zero (record { confirmed_missing = []; with_data = []; unknown = [] })
        settled

  -- `poll_with_budget`, from the n-th poll on; an error names the RPC.
  unfoldable pub poll_with_budget :
      Client F → List String → ℕ → ℕ → Result String (List (TorrentInfo F))
  poll_with_budget client hashes zero n = ok []
  poll_with_budget client hashes (suc attempts) n =
      let later = poll_with_budget client hashes attempts (suc n) in
      elim (client.poll n hashes) [
        | some t ↦ if all (λ x. not (is_checking x)) t then ok t else later
        | none ↦ err "torrent-get"
      ]

  -- `torrent_remove` of crates/servarr-api/src/transmission.rs makes no RPC for no hashes.
  remove_hashes : Client F → List String → Bool × List Call
  remove_hashes client [] = (true, [])
  remove_hashes client (h ∷ hs) = (client.remove (h ∷ hs), torrent_remove (h ∷ hs) ∷ [])

  remove_confirmed : Client F → List String → RemediationOutcome → RemediationOutcome × List Call
  unfolding remove_hashes
  remove_confirmed client still_erroring base =
      let (removed, calls) = remove_hashes client still_erroring in
      (removal_outcome removed still_erroring base, calls)

  -- The hashes of the verified torrents that the settled list does not name.
  abbrev unsettled : List String → List (TorrentInfo F) → List String
  unsettled hashes settled = filter (λ h. not (any (λ t. t.hash_string == h) settled)) hashes

  abbrev base_outcome :
      List String → List String → List (TorrentInfo F) → SettledBuckets → RemediationOutcome
  base_outcome hashes already_checking settled buckets = record default_outcome {
    still_pending = unsettled hashes settled ++ already_checking;
    settled_with_data = buckets.with_data;
    settled_unknown = buckets.unknown;
  }

  -- What follows a poll.
  after_settle :
      (F → Bool)
      → Client F
      → List String
      → List String
      → Bool
      → Result String (List (TorrentInfo F))
      → RemediationOutcome × List Call
  unfolding rpc_failed_outcome remove_confirmed classify_settled
  after_settle is_zero client hashes already_checking auto_remove (err op) =
      (rpc_failed_outcome op hashes already_checking, [])
  after_settle is_zero client hashes already_checking auto_remove (ok settled) =
      let buckets = classify_settled is_zero settled in
      let base = base_outcome hashes already_checking settled buckets in
      if auto_remove
      then remove_confirmed client buckets.confirmed_missing base
      else (record base { confirmed_orphaned = buckets.confirmed_missing }, [])

  -- The pass over the hashes that are not being checked yet.
  verify_then_settle :
      (F → Bool) → Client F → List String → List String → Bool → RemediationOutcome × List Call
  unfolding after_settle rpc_failed_outcome
  verify_then_settle is_zero client hashes already_checking auto_remove =
      let settled = poll_with_budget client hashes verify_poll_attempts 0 in
      let (outcome, calls) =
        after_settle is_zero client hashes already_checking auto_remove settled in
      if client.verify hashes
      then (outcome, torrent_verify hashes ∷ calls)
      else (rpc_failed_outcome "torrent-verify" hashes already_checking, torrent_verify hashes ∷ [])

  unfoldable pub remediate_stale_torrents :
      (F → Bool) → Client F → List (TorrentInfo F) → Bool → RemediationOutcome × List Call
  unfolding verify_then_settle
  remediate_stale_torrents is_zero client stale auto_remove =
      let already_checking = map hash_of (filter is_checking stale) in
      let hashes = map hash_of (filter (λ t. not (is_checking t)) stale) in
      if is_empty hashes
      then (record default_outcome { still_pending = already_checking }, [])
      else verify_then_settle is_zero client hashes already_checking auto_remove
