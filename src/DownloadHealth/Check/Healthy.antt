-- ===== src/DownloadHealth/Check/Healthy.antt =====
-- When `check_download_client_health` of
-- crates/servarr-operator/src/controller/download_health.rs reports that the data is there.
use mathlib.Core.Bool.{false≢true}
use servarr_operator.Prelude.{
  ℕ, zero, suc, String, ◌≡◌, ◌↔◌, ◌⊎◌, inl, inr, refl, subst, sym, ◌∙◌, Bool, true, false, ◌&&◌,
  Option, none, some, List, [], ◌∷◌, ◌==◌, arith, length, is_empty, eqb, ltb, eq_iff, Bool-cases,
  Result, ok, if◌then◌else◌,
}
use servarr_operator.Crds.Types.Sync.{ApiHealthCheckSpec}
use servarr_operator.Crds.Condition.{Condition, ok_condition, unknown_condition}
use servarr_operator.DownloadHealth.{TorrentInfo}
use servarr_operator.DownloadHealth.Remediate.{Client, RemediationOutcome, remediate_stale_torrents}
use servarr_operator.DownloadHealth.Report.{
  download_data_healthy, build_download_health_condition, accounted_for,
  build_download_health_condition_true,
}
use servarr_operator.DownloadHealth.Check.{
  App, Access, Pass, download_health_unknown, missing_hash_message, remediate_and_report,
  after_list, with_access, enabled_pass, checked_pass, check_download_client_health,
}
use servarr_operator.DownloadHealth.Check.Laws.{stale_of, held_back_of, missing_hash_of, IsDue}

unknown_ne_true : (c : Condition) → c.status ≡ "Unknown" → c.status ≡ "True" → ⊥
unknown_ne_true c u t = false≢true ((eq_iff "Unknown" "True").1 (sym u ∙ t))

unknown_or_iff :
    (b : Bool) (P : Type 0) (unhealthy healthy : Condition)
    → unhealthy.status ≡ "Unknown"
    → ((healthy.status ≡ "True") ↔ P)
    → (((if b && healthy.status == "True" then unhealthy else healthy).status ≡ "True")
        ↔ ((b ≡ false) × P))
unknown_or_iff false P unhealthy healthy u h = (λ e. (refl, h.0 e), λ (e, p). h.1 p)
unknown_or_iff true P unhealthy healthy u h = elim (Bool-cases (healthy.status == "True")) [
  | inl e ↦
      simp e (λ t. absurd (unknown_ne_true unhealthy u t), λ (t, p). absurd (false≢true (sym t)))
  | inr e ↦ simp e (
    λ t. absurd (false≢true (sym e ∙ (eq_iff healthy.status "True").1 t)),
    λ (t, p). absurd (false≢true (sym t)),
  )
]

empty_of : {A : Type 0} (xs : List A) → is_empty xs ≡ true → xs ≡ []
empty_of [] h = refl
empty_of (x ∷ xs) h = absurd (false≢true h)

-- What a pass over so many stale torrents leaves when nothing is wrong.
abbrev pub NothingWrong : ℕ → ℕ → ℕ → RemediationOutcome → Type 0
NothingWrong stale_count held_back missing_hash outcome =
    (held_back ≡ 0)
    × (missing_hash ≡ 0)
    × (outcome.rpc_failure ≡ none)
    × ((accounted_for outcome ≡ 0) ⊎ (stale_count ≡ 0))

-- The condition of a pass is `True` exactly if nothing is wrong.
abbrev pub IsReported : Type 0 → Pass → Type 0
IsReported P pass =
    (condition : Condition) × (pass.0 ≡ some condition) × ((condition.status ≡ "True") ↔ P)

missing_or_iff :
    (missing_hash : ℕ) (P : Type 0) (unhealthy healthy : Condition)
    → unhealthy.status ≡ "Unknown"
    → ((healthy.status ≡ "True") ↔ P)
    → (((if ltb 0 missing_hash && healthy.status == "True" then unhealthy else healthy).status
          ≡ "True")
        ↔ ((missing_hash ≡ 0) × P))
missing_or_iff zero P unhealthy healthy u h =
    (λ e. (refl, ((unknown_or_iff false P unhealthy healthy u h).0 e).1), λ e. h.1 e.1)
missing_or_iff (suc k) P unhealthy healthy u h =
    let positive : ltb 0 (suc k) ≡ true = ground arith in
    rw positive (
      λ e. absurd (false≢true (sym ((unknown_or_iff true P unhealthy healthy u h).0 e).0)),
      λ e. absurd (omega arith),
    )

module _ {F : Type 0} (is_zero : F → Bool) where
  remediate_and_report-IsReported :
      (client : Client F) (stale : List (TorrentInfo F)) (held_back missing_hash : ℕ)
      (auto_remove : Bool) (now : String)
      → IsReported
          (NothingWrong
            (length stale)
            held_back
            missing_hash
            (remediate_stale_torrents is_zero client stale auto_remove).0)
          (remediate_and_report is_zero client stale held_back missing_hash auto_remove now)
  unfolding remediate_and_report download_health_unknown unknown_condition
  remediate_and_report-IsReported client stale held_back missing_hash auto_remove now =
      let outcome = (remediate_stale_torrents is_zero client stale auto_remove).0 in
      let built = build_download_health_condition_true (length stale) held_back outcome now in
      let P =
        (outcome.rpc_failure ≡ none)
        × (held_back ≡ 0)
        × ((accounted_for outcome ≡ 0) ⊎ (length stale ≡ 0)) in
      let unhealthy =
        download_health_unknown "MissingHashString" (missing_hash_message missing_hash) now in
      let healthy = build_download_health_condition (length stale) held_back outcome now in
      let whole = missing_or_iff missing_hash P unhealthy healthy refl built in
      (
        _,
        refl,
        (λ e. let w = whole.0 e in (w.1.1, w.0, w.1.0, w.1.2), λ n. whole.1 (n.1, (n.2, n.0, n.3))),
      )

  quiet-IsReported :
      (client : Client F) (missing_hash : ℕ) (auto_remove : Bool) (now : String)
      → ((if ltb 0 missing_hash
            then download_health_unknown "MissingHashString" (missing_hash_message missing_hash) now
            else ok_condition download_data_healthy "NoStaleData"
                "No torrents reporting missing data" now).status
          ≡ "True")
        ↔ NothingWrong 0 0 missing_hash (remediate_stale_torrents is_zero client [] auto_remove).0
  unfolding download_health_unknown unknown_condition ok_condition remediate_stale_torrents
  quiet-IsReported client zero auto_remove now = (λ e. (refl, refl, refl, inr refl), λ e. refl)
  quiet-IsReported client (suc k) auto_remove now =
      let positive : ltb 0 (suc k) ≡ true = ground arith in
      rw positive
        (λ e. absurd (false≢true ((eq_iff "Unknown" "True").1 e)), λ e. absurd (omega arith))

  after_list-IsReported :
      (client : Client F) (torrents : List (TorrentInfo F)) (auto_remove : Bool) (now : String)
      → IsReported
          (NothingWrong
            (length (stale_of torrents))
            (held_back_of torrents)
            (missing_hash_of torrents)
            (remediate_stale_torrents is_zero client (stale_of torrents) auto_remove).0)
          (after_list is_zero client (ok torrents) auto_remove now)
  unfolding after_list
  after_list-IsReported client torrents auto_remove now =
      elim (Bool-cases (is_empty (stale_of torrents) && eqb (held_back_of torrents) 0)) [
        | inl quiet ↦
            let no_stale : stale_of torrents ≡ [] = empty_of (stale_of torrents) (ground arith) in
            let none_held : held_back_of torrents ≡ 0 = ground arith in
            rw (no_stale, none_held)
              (_, refl, quiet-IsReported client (missing_hash_of torrents) auto_remove now)
        | inr due ↦ rw due (
            remediate_and_report-IsReported client (stale_of torrents) (held_back_of torrents)
              (missing_hash_of torrents) auto_remove now)
      ]

  module _ (parse_from_rfc3339 : String → Option ℕ) (app : App)
      (transmission_access : Option (Result String (Access F))) (now : String) where
    due_pass :
        (health_check : ApiHealthCheckSpec) (access : Access F)
        → IsDue is_zero parse_from_rfc3339 app transmission_access now health_check access
        → check_download_client_health is_zero parse_from_rfc3339 app transmission_access now
          ≡ after_list is_zero access.client access.client.list_all
              health_check.auto_remove_orphaned_torrents now
    unfolding check_download_client_health checked_pass enabled_pass with_access
    due_pass health_check access (kind, set, enabled, free, resolved, complete) =
        simp (kind, set, enabled, free, resolved, complete)

    -- A due pass whose `torrent-get` is answered returns a condition, and its status is `True`
    -- exactly if no torrent is held back, none with missing data lacks a hash, no RPC failed, and
    -- the pass put none of the stale torrents into an outcome set, or there was none.
    pub check_download_client_health_true :
        (health_check : ApiHealthCheckSpec) (access : Access F) (torrents : List (TorrentInfo F))
        → IsDue is_zero parse_from_rfc3339 app transmission_access now health_check access
        → access.client.list_all ≡ ok torrents
        → IsReported
            (NothingWrong
              (length (stale_of torrents))
              (held_back_of torrents)
              (missing_hash_of torrents)
              (remediate_stale_torrents is_zero access.client
                (stale_of torrents)
                health_check.auto_remove_orphaned_torrents).0)
            (check_download_client_health is_zero parse_from_rfc3339 app transmission_access now)
    check_download_client_health_true health_check access torrents due answered =
        rw (due_pass health_check access due) (
          subst
            (λ r.
              IsReported
                (NothingWrong (length (stale_of torrents)) (held_back_of torrents)
                  (missing_hash_of torrents)
                  (remediate_stale_torrents is_zero access.client (stale_of torrents)
                    health_check.auto_remove_orphaned_torrents).0)
                (after_list is_zero access.client r health_check.auto_remove_orphaned_torrents now))
            (sym answered)
            (after_list-IsReported access.client torrents health_check.auto_remove_orphaned_torrents
              now))
