-- ===== src/DownloadHealth/Report.antt =====
-- crates/servarr-operator/src/controller/download_health/report.rs: the event and the condition of
-- a self-heal pass.
use mathlib.Core.Bool.{false≢true}
use servarr_operator.Prelude.{
  ℕ, zero, suc, ◌+◌, ◌-◌, String, ◌≡◌, ◌↔◌, ◌⊎◌, inl, inr, refl, Bool, true, false, ◌&&◌, Option,
  none, some, List, [], ◌∷◌, arith, map, eq_iff, Bool-cases, is_empty, is_none, ltb, eqb, length,
  All, take, ◌⧺◌, if◌then◌else◌,
}
use servarr_operator.Prelude.Int.{ℤ}
use servarr_operator.Prelude.Decimal.{show, show_int}
use servarr_operator.Crds.Condition.{Condition, ok_condition, fail_condition, unknown_condition}
use servarr_operator.DownloadHealth.{TorrentInfo}
use servarr_operator.DownloadHealth.Remediate.{RemediationOutcome, Call, publish}

abbrev pub download_data_healthy : String
download_data_healthy = "DownloadDataHealthy"

abbrev max_ids_shown : ℕ
max_ids_shown = 20

-- `displayed.join(", ")`
join_comma : List String → String
join_comma [] = ""
join_comma (s ∷ []) = s
join_comma (s ∷ next ∷ rest) = s ⧺ ", " ⧺ join_comma (next ∷ rest)

ids_part : List ℤ → String
unfolding join_comma
ids_part ids =
    let truncated = length ids - max_ids_shown in
    let displayed = map show_int (take max_ids_shown ids) in
    if is_empty displayed
    then "none"
    else if ltb 0 truncated
    then join_comma displayed ⧺ " ...and " ⧺ show truncated ⧺ " more"
    else join_comma displayed

abbrev rpc_part : Option String → String
rpc_part none = ""
rpc_part (some op) = "; Transmission " ⧺ op ⧺ " failed, so no verify ran"

abbrev held_part : ℕ → String
held_part held_back =
    if ltb 0 held_back
    then "; " ⧺ show held_back ⧺ " held back, download directory may be unmounted"
    else ""

unfoldable pub build_stale_torrent_note : List ℤ → ℕ → RemediationOutcome → ℕ → String
unfolding ids_part
build_stale_torrent_note ids stale_count outcome held_back =
    show stale_count
    ⧺ " torrent(s) reporting missing data (ids: "
    ⧺ ids_part ids
    ⧺ "); "
    ⧺ show (length outcome.removed)
    ⧺ " removed as orphaned, "
    ⧺ show (length outcome.confirmed_orphaned)
    ⧺ " confirmed orphaned but not removed, "
    ⧺ show (length outcome.still_pending)
    ⧺ " pending verify, "
    ⧺ show (length outcome.settled_with_data)
    ⧺ " settled with data present, "
    ⧺ show (length outcome.settled_unknown)
    ⧺ " settled with unknown progress"
    ⧺ held_part held_back
    ⧺ rpc_part outcome.rpc_failure

-- The early return of `report_stale_torrents`.
abbrev nothing_to_report : RemediationOutcome → ℕ → Bool
nothing_to_report outcome held_back =
    is_empty outcome.removed
    && (is_empty outcome.confirmed_orphaned
        && (is_empty outcome.still_pending
            && (is_empty outcome.settled_with_data
                && (is_empty outcome.settled_unknown
                    && (is_none outcome.rpc_failure && eqb held_back 0)))))

at_most_one :
    (P : Call → Type 0)
    → ((note : String) → P (publish note))
    → (quiet : Bool) (note : String) → All P (if quiet then [] else publish note ∷ [])
at_most_one P p true note = tt
at_most_one P p false note = (p note, tt)

module _ {F : Type 0} where
  abbrev id_of : TorrentInfo F → ℤ
  id_of t = t.id

  unfoldable pub report_stale_torrents : List (TorrentInfo F) → RemediationOutcome → ℕ → List Call
  report_stale_torrents stale outcome held_back =
      if nothing_to_report outcome held_back
      then []
      else publish (build_stale_torrent_note (map id_of stale) (length stale) outcome held_back)
        ∷ []

  pub report_stale_torrents-publish :
      (P : Call → Type 0)
      → ((note : String) → P (publish note))
      → (stale : List (TorrentInfo F)) (outcome : RemediationOutcome) (held_back : ℕ)
      → All P (report_stale_torrents stale outcome held_back)
  unfolding report_stale_torrents
  report_stale_torrents-publish P p stale outcome held_back =
      at_most_one P p (nothing_to_report outcome held_back)
        (build_stale_torrent_note (map id_of stale) (length stale) outcome held_back)

unfoldable pub accounted_for : RemediationOutcome → ℕ
accounted_for outcome =
    length outcome.removed
    + length outcome.confirmed_orphaned
    + length outcome.still_pending
    + length outcome.settled_with_data
    + length outcome.settled_unknown

-- The condition when no RPC failed and nothing is held back; `-` stops at 0 as `saturating_sub`.
data_condition : ℕ → RemediationOutcome → String → Condition
unfolding accounted_for ok_condition fail_condition
data_condition stale_count outcome now =
    let recovered = stale_count - accounted_for outcome in
    if eqb recovered stale_count
    then ok_condition download_data_healthy "DataRecovered"
        (show stale_count ⧺ " torrent(s) recovered after verify") now
    else fail_condition download_data_healthy "MissingDataDetected"
        (show stale_count
          ⧺ " torrent(s) reporting missing data ("
          ⧺ show recovered
          ⧺ " recovered, "
          ⧺ show (length outcome.removed)
          ⧺ " removed, "
          ⧺ show (length outcome.confirmed_orphaned)
          ⧺ " confirmed orphaned but not removed, "
          ⧺ show (length outcome.still_pending)
          ⧺ " pending verify, "
          ⧺ show (length outcome.settled_with_data)
          ⧺ " settled with data present, "
          ⧺ show (length outcome.settled_unknown)
          ⧺ " settled with unknown progress)")
        now

held_condition : ℕ → RemediationOutcome → String → Condition
unfolding fail_condition
held_condition held_back outcome now =
    fail_condition download_data_healthy "DownloadDirUnavailable"
      (show held_back
        ⧺ " torrent(s) held back: every torrent in their download directory reports "
        ⧺ "missing data, so the directory may be unmounted. Removal is skipped for them only ("
        ⧺ show (length outcome.removed)
        ⧺ " removed, "
        ⧺ show (length outcome.confirmed_orphaned)
        ⧺ " confirmed orphaned but not removed, "
        ⧺ show (length outcome.still_pending)
        ⧺ " pending verify for the other torrents).")
      now

abbrev condition_by : Option String → ℕ → ℕ → RemediationOutcome → String → Condition
condition_by (some op) stale_count held_back outcome now =
    unknown_condition download_data_healthy "RemediationRpcError"
      ("Transmission " ⧺ op
        ⧺ " failed during the self-heal pass; the pass retries after intervalSeconds")
      now
condition_by none stale_count held_back outcome now =
    if ltb 0 held_back
    then held_condition held_back outcome now
    else data_condition stale_count outcome now

unfoldable pub build_download_health_condition : ℕ → ℕ → RemediationOutcome → String → Condition
unfolding held_condition data_condition unknown_condition
build_download_health_condition stale_count held_back outcome now =
    condition_by outcome.rpc_failure stale_count held_back outcome now

false_ne_true : ◌≡◌ {A = String} "False" "True" → ⊥
false_ne_true e = false≢true ((eq_iff "False" "True").1 e)

unknown_ne_true : ◌≡◌ {A = String} "Unknown" "True" → ⊥
unknown_ne_true e = false≢true ((eq_iff "Unknown" "True").1 e)

saturated : (s a : ℕ) → eqb (s - a) s ≡ true → (a ≡ 0) ⊎ (s ≡ 0)
saturated s a h = ground arith

data_status :
    (s : ℕ) (outcome : RemediationOutcome) (now : String)
    → ((data_condition s outcome now).status ≡ "True") ↔ ((accounted_for outcome ≡ 0) ⊎ (s ≡ 0))
unfolding data_condition
data_status s outcome now = elim (Bool-cases (eqb (s - accounted_for outcome) s)) [
  | inl e ↦ rw e (λ h. saturated s (accounted_for outcome) e, λ h. refl)
  | inr e ↦ rw e (λ h. absurd (false_ne_true h), λ h. ground arith)
]

status_by :
    (rpc : Option String) (s held_back : ℕ) (outcome : RemediationOutcome) (now : String)
    → ((condition_by rpc s held_back outcome now).status ≡ "True")
      ↔ ((rpc ≡ none) × (held_back ≡ 0) × ((accounted_for outcome ≡ 0) ⊎ (s ≡ 0)))
unfolding held_condition unknown_condition
status_by (some op) s held_back outcome now = (λ h. absurd (unknown_ne_true h), λ h. ground arith)
status_by none s zero outcome now =
    (λ h. (refl, refl, (data_status s outcome now).0 h), λ h. (data_status s outcome now).1 h.2)
status_by none s (suc k) outcome now =
    let positive : ltb 0 (suc k) ≡ true = ground arith in
    rw positive (λ h. absurd (false_ne_true h), λ h. absurd (omega arith))

-- The condition of a pass is `True` exactly if no RPC failed, no torrent is held back, and the
-- pass put none of the stale torrents into an outcome set, or there was none.
pub build_download_health_condition_true :
    (stale_count held_back : ℕ) (outcome : RemediationOutcome) (now : String)
    → ((build_download_health_condition stale_count held_back outcome now).status ≡ "True") ↔ (
        (outcome.rpc_failure ≡ none)
        × (held_back ≡ 0)
        × ((accounted_for outcome ≡ 0) ⊎ (stale_count ≡ 0)))
unfolding build_download_health_condition
build_download_health_condition_true stale_count held_back outcome now =
    status_by outcome.rpc_failure stale_count held_back outcome now
