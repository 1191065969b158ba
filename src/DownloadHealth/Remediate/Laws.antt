-- ===== src/DownloadHealth/Remediate/Laws.antt =====
-- What the verify-then-remove pass of
-- crates/servarr-operator/src/controller/download_health/remediate.rs may do to Transmission.
use mathlib.Core.List.{append-nil, append_assoc}
use servarr_operator.Prelude.{
  ℕ, zero, suc, ◌+◌, ◌≤◌, ◌<◌, String, ◌≡◌, ◌≢◌, ◌⊎◌, inl, inr, refl, ap, sym, ◌∙◌, subst, Bool,
  true, false, not, ◌&&◌, some, List, [], ◌∷◌, ◌++◌, map, arith, length, is_none, is_some, is_empty,
  all, filter, All, Bool-cases, Option-cases, Result, ok, err, ok-injective, if◌then◌else◌,
}
use servarr_operator.DownloadHealth.{
  TorrentInfo, is_missing_data_torrent, is_confirmed_missing, is_checking,
}
use servarr_operator.DownloadHealth.Remediate.{
  Client, Call, torrent_verify, torrent_remove, publish, RemediationOutcome, SettledBuckets,
  verify_poll_attempts, hash_of, classify_one, classify_from, classify_settled, poll_with_budget,
  remove_confirmed, base_outcome, after_settle, verify_then_settle, remediate_stale_torrents,
}

cons_ne_nil : {h : String} {hs : List String} → ◌≡◌ {A = List String} (h ∷ hs) [] → ⊥
cons_ne_nil e = cc

List-cases : (hs : List String) → (hs ≡ []) ⊎ (hs ≢ [])
List-cases [] = inl refl
List-cases (h ∷ hs) = inr cons_ne_nil

not_empty : (hs : List String) → hs ≢ [] → is_empty hs ≡ false
not_empty [] h = absurd (h refl)
not_empty (x ∷ xs) h = refl

err_ne_ok : {A : Type 0} {e : String} {a : A} → ◌≡◌ {A = Result String A} (err e) (ok a) → ⊥
err_ne_ok h = cc

module _ {F : Type 0} (is_zero : F → Bool) where
  -- The hashes of the torrents that a test selects.
  abbrev pub hashes_where : (TorrentInfo F → Bool) → List (TorrentInfo F) → List String
  hashes_where p ts = map hash_of (filter p ts)

  -- A local error with a known fraction that is not 0, and with no fraction.
  abbrev pub has_data : TorrentInfo F → Bool
  has_data t =
      is_missing_data_torrent t && (is_some t.percent_done && not (is_confirmed_missing is_zero t))

  abbrev pub has_no_progress : TorrentInfo F → Bool
  has_no_progress t = is_missing_data_torrent t && is_none t.percent_done

  abbrev picked : (TorrentInfo F → Bool) → TorrentInfo F → List String
  picked p t = if p t then t.hash_string ∷ [] else []

  hashes_where-cons :
      (p : TorrentInfo F → Bool) (t : TorrentInfo F) (ts : List (TorrentInfo F))
      → hashes_where p (t ∷ ts) ≡ picked p t ++ hashes_where p ts
  hashes_where-cons p t ts = ground arith

  classify_one_lem :
      (b : SettledBuckets) (t : TorrentInfo F)
      → classify_one is_zero b t ≡ record {
        confirmed_missing = b.confirmed_missing ++ picked (is_confirmed_missing is_zero) t;
        with_data = b.with_data ++ picked has_data t;
        unknown = b.unknown ++ picked has_no_progress t;
      }
  unfolding classify_one is_confirmed_missing
  classify_one_lem b t =
      ground (arith, append-nil b.confirmed_missing, append-nil b.with_data, append-nil b.unknown)

  classify_from_lem :
      (b : SettledBuckets) (ts : List (TorrentInfo F))
      → classify_from is_zero b ts ≡ record {
        confirmed_missing = b.confirmed_missing ++ hashes_where (is_confirmed_missing is_zero) ts;
        with_data = b.with_data ++ hashes_where has_data ts;
        unknown = b.unknown ++ hashes_where has_no_progress ts;
      }
  unfolding classify_from
  classify_from_lem b [] = simp append-nil
  classify_from_lem b (t ∷ ts) =
      classify_from_lem (classify_one is_zero b t) ts
      ∙ simp (classify_one_lem, hashes_where-cons, append_assoc)

  counts :
      (ts : List (TorrentInfo F))
      → length (hashes_where (is_confirmed_missing is_zero) ts)
          + length (hashes_where has_data ts)
          + length (hashes_where has_no_progress ts)
        ≡ length (hashes_where is_missing_data_torrent ts)
  unfolding is_confirmed_missing
  counts [] = refl
  counts (t ∷ ts) = ground (arith, counts ts)

  -- The three sets of a settled list: the confirmed-missing torrents, those with data, and those of
  -- unknown progress; together they have as many hashes as there are torrents with a local error.
  pub classify_settled_lem :
      (ts : List (TorrentInfo F))
      → (classify_settled is_zero ts ≡ record {
        confirmed_missing = hashes_where (is_confirmed_missing is_zero) ts;
        with_data = hashes_where has_data ts;
        unknown = hashes_where has_no_progress ts;
      })
        × (length (classify_settled is_zero ts).confirmed_missing
              + length (classify_settled is_zero ts).with_data
              + length (classify_settled is_zero ts).unknown
            ≡ length (hashes_where is_missing_data_torrent ts))
  unfolding classify_settled
  classify_settled_lem ts =
      let whole =
        classify_from_lem (record { confirmed_missing = []; with_data = []; unknown = [] }) ts in
      (whole, rw whole (counts ts))

  module _ (client : Client F) where
    -- The settled answer of one of the polls: all of them are made for the hashes given, and no
    -- torrent of it is being checked.
    abbrev pub Settled : List String → List (TorrentInfo F) → Type 0
    Settled hashes settled =
        (k : ℕ) × (k < verify_poll_attempts)
        × (client.poll k hashes ≡ some settled)
        × (all (λ t. not (is_checking t)) settled ≡ true)

    poll_with_budget-Settled :
        (hashes : List String) (attempts n : ℕ) (settled : List (TorrentInfo F))
        → attempts + n ≤ verify_poll_attempts
        → poll_with_budget client hashes attempts n ≡ ok settled
        → (settled ≡ []) ⊎ Settled hashes settled
    unfolding poll_with_budget
    poll_with_budget-Settled hashes zero n settled fits h = inl (sym (ok-injective h))
    poll_with_budget-Settled hashes (suc attempts) n settled fits h =
        elim (Option-cases (client.poll n hashes)) [
          | inl failed ↦ absurd (err_ne_ok (rw (failed, poll_with_budget) at h))
          | inr (t, answer) ↦
              let h' = rw (answer, poll_with_budget) at h in
              elim (Bool-cases (all (λ x. not (is_checking x)) t)) [
                | inl done ↦
                    let e : t ≡ settled = ok-injective (rw done at h') in
                    inr (
                      n,
                      omega arith,
                      answer ∙ ap some e,
                      subst (λ s. all (λ x. not (is_checking x)) s ≡ true) e done,
                    )
                | inr more ↦
                    poll_with_budget-Settled hashes attempts (suc n) settled (omega arith)
                      (rw more at h')
              ]
        ]

    -- What makes an RPC of the pass over `stale` admissible.
    abbrev pub IsSafe : List (TorrentInfo F) → Bool → Call → Type 0
    IsSafe stale auto_remove (torrent_verify hs) =
        (hs ≢ []) × (hs ≡ hashes_where (λ t. not (is_checking t)) stale)
    IsSafe stale auto_remove (torrent_remove hs) =
        (hs ≢ [])
        × (auto_remove ≡ true)
        × (client.verify (hashes_where (λ t. not (is_checking t)) stale) ≡ true)
        × (settled : List (TorrentInfo F)) × Settled (hashes_where (λ t. not (is_checking t)) stale)
            settled
        × (hs ≡ hashes_where (is_confirmed_missing is_zero) settled)
    IsSafe stale auto_remove (publish note) = ⊥

    module _ (stale : List (TorrentInfo F)) (already_checking : List String) where
      abbrev targets : List String
      targets = hashes_where (λ t. not (is_checking t)) stale

      remove_confirmed-IsSafe :
          (hs : List String) (base : RemediationOutcome)
          → client.verify targets ≡ true
          → (settled : List (TorrentInfo F)) → (settled ≡ []) ⊎ Settled targets settled
          → hs ≡ hashes_where (is_confirmed_missing is_zero) settled
          → All (IsSafe stale true) (remove_confirmed client hs base).1
      unfolding remove_confirmed
      remove_confirmed-IsSafe [] base v settled s e = tt
      remove_confirmed-IsSafe (h ∷ hs) base v settled (inl none_settled) e =
          absurd (cons_ne_nil (e ∙ ap (hashes_where (is_confirmed_missing is_zero)) none_settled))
      remove_confirmed-IsSafe (h ∷ hs) base v settled (inr s) e =
          ((cons_ne_nil, refl, v, settled, s, e), tt)

      after_settle-IsSafe :
          (auto_remove : Bool) (r : Result String (List (TorrentInfo F)))
          → client.verify targets ≡ true
          → ((settled : List (TorrentInfo F))
              → r ≡ ok settled
              → (settled ≡ []) ⊎ Settled targets settled)
          → All
              (IsSafe stale auto_remove)
              (after_settle is_zero client targets already_checking auto_remove r).1
      unfolding after_settle
      after_settle-IsSafe auto_remove (err op) v s = tt
      after_settle-IsSafe false (ok settled) v s = tt
      after_settle-IsSafe true (ok settled) v s =
          remove_confirmed-IsSafe _
            (base_outcome targets already_checking settled (classify_settled is_zero settled)) v
            settled (s settled refl)
            (ap (λ (b : SettledBuckets). b.confirmed_missing) (classify_settled_lem settled).0)

      verify_then_settle-IsSafe :
          (auto_remove : Bool)
          → targets ≢ []
          → All
              (IsSafe stale auto_remove)
              (verify_then_settle is_zero client targets already_checking auto_remove).1
      unfolding verify_then_settle
      verify_then_settle-IsSafe auto_remove some_targets =
          elim (Bool-cases (client.verify targets)) [
            | inl v ↦ rw v (
              (some_targets, refl),
              after_settle-IsSafe auto_remove _ v (λ settled.
                  poll_with_budget-Settled targets verify_poll_attempts 0 settled (omega arith)),
            )
            | inr v ↦ rw v ((some_targets, refl), tt)
          ]

    -- Every RPC of the pass is admissible. A verify names exactly the stale torrents that are not
    -- being checked, and at least one. A removal needs `auto_remove`, an accepted verify of those
    -- torrents, and one of the first 100 polls of them to have shown none being checked; it names
    -- exactly the torrents of that poll with a local error and no data, and at least one, so that
    -- no removal is unscoped.
    pub remediate_stale_torrents-IsSafe :
        (stale : List (TorrentInfo F)) (auto_remove : Bool)
        → All
            (IsSafe stale auto_remove)
            (remediate_stale_torrents is_zero client stale auto_remove).1
    unfolding remediate_stale_torrents
    remediate_stale_torrents-IsSafe stale auto_remove =
        elim (List-cases (hashes_where (λ t. not (is_checking t)) stale)) [
          | inl none_left ↦ rw none_left tt
          | inr some_left ↦ rw (not_empty _ some_left) (
              verify_then_settle-IsSafe stale (hashes_where is_checking stale) auto_remove
                some_left)
        ]
