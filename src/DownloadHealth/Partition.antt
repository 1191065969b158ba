-- ===== src/DownloadHealth/Partition.antt =====
-- The counting of directories in crates/servarr-operator/src/controller/download_health.rs agrees
-- with a reference definition by counts over the whole list.
use mathlib.Core.Path.{ap₂}
use servarr_operator.Prelude.{
  ℕ, ◌+◌, String, ◌≡◌, refl, ap, sym, ◌∙◌, Bool, true, false, not, ◌&&◌, ◌||◌, List, [], ◌∷◌, ◌==◌,
  eq_iff, arith, is_blank, leb, eqb, length, filter, contains, unwrap_or, Bool-cases, inl, inr,
  Distinct, if◌then◌else◌,
}
use servarr_operator.Prelude.IndexMap.{
  IndexMap, lookup, keys, lookup-insert, Distinct-insert, lookup_absent,
}
use servarr_operator.DownloadHealth.{
  TorrentInfo, is_missing_data_torrent, dir_key, is_idle_stopped, raise, count_torrent, count_dirs,
  is_down, down_dirs, unavailable_dirs, partition_unavailable_dirs, min_torrents_for_dir_check,
}

abbrev zeros : ℕ × ℕ
zeros = (0, 0)

abbrev entry : String → IndexMap (ℕ × ℕ) → ℕ × ℕ
entry d m = unwrap_or (lookup d m) zeros

contains-down_dirs :
    (d : String) (m : IndexMap (ℕ × ℕ))
    → Distinct (keys m)
    → contains d (down_dirs m) ≡ is_down (unwrap_or (lookup d m) zeros)
unfolding down_dirs contains lookup
contains-down_dirs d [] h = ground arith
contains-down_dirs d ((dir, counts) ∷ rest) h =
    ground (arith, contains-down_dirs d rest h.1, eq_iff dir d, lookup_absent dir rest h.0)

module _ {F : Type 0} where
  -- The torrents of a directory that are active, and those of them with a local error.
  abbrev is_active : String → TorrentInfo F → Bool
  is_active d t = dir_key t == d && not (is_idle_stopped t)

  abbrev pub active : String → List (TorrentInfo F) → ℕ
  active d ts = length (filter (is_active d) ts)

  abbrev pub erroring : String → List (TorrentInfo F) → ℕ
  erroring d ts = length (filter (λ t. is_active d t && is_missing_data_torrent t) ts)

  -- A named directory with two active torrents or more, each of them with a local error.
  abbrev pub is_unavailable : String → List (TorrentInfo F) → Bool
  is_unavailable d ts =
      not (is_blank d)
      && (leb min_torrents_for_dir_check (active d ts) && eqb (active d ts) (erroring d ts))

  count_torrent-Distinct :
      (m : IndexMap (ℕ × ℕ)) (t : TorrentInfo F)
      → Distinct (keys m)
      → Distinct (keys (count_torrent m t))
  unfolding count_torrent
  count_torrent-Distinct m t h = elim (Bool-cases (is_blank (dir_key t) || is_idle_stopped t)) [
    | inl skip ↦ rw skip h
    | inr count ↦ rw count (Distinct-insert (dir_key t) _ m h)
  ]

  count_dirs-Distinct :
      (m : IndexMap (ℕ × ℕ)) (ts : List (TorrentInfo F))
      → Distinct (keys m)
      → Distinct (keys (count_dirs m ts))
  unfolding count_dirs
  count_dirs-Distinct m [] h = h
  count_dirs-Distinct m (t ∷ ts) h =
      count_dirs-Distinct (count_torrent m t) ts (count_torrent-Distinct m t h)

  -- What one torrent adds to the counts of a directory.
  weight : String → TorrentInfo F → ℕ × ℕ
  weight d t = if is_active d t then (1, if is_missing_data_torrent t then 1 else 0) else (0, 0)

  entry-count_torrent :
      (d : String) (m : IndexMap (ℕ × ℕ)) (t : TorrentInfo F)
      → is_blank d ≡ false
      → (entry d (count_torrent m t)).0 ≡ (entry d m).0 + (weight d t).0
  unfolding count_torrent weight
  entry-count_torrent d m t h = ground (
    arith,
    eq_iff (dir_key t) d,
    lookup-insert (dir_key t) d (raise (is_missing_data_torrent t) (lookup (dir_key t) m)) m,
  )

  errors-count_torrent :
      (d : String) (m : IndexMap (ℕ × ℕ)) (t : TorrentInfo F)
      → is_blank d ≡ false
      → (entry d (count_torrent m t)).1 ≡ (entry d m).1 + (weight d t).1
  unfolding count_torrent weight
  errors-count_torrent d m t h = ground (
    arith,
    eq_iff (dir_key t) d,
    lookup-insert (dir_key t) d (raise (is_missing_data_torrent t) (lookup (dir_key t) m)) m,
  )

  total-count_dirs :
      (d : String) (m : IndexMap (ℕ × ℕ)) (ts : List (TorrentInfo F))
      → is_blank d ≡ false
      → (entry d (count_dirs m ts)).0 ≡ (entry d m).0 + active d ts
  unfolding count_dirs weight
  total-count_dirs d m [] h = omega arith
  total-count_dirs d m (t ∷ ts) h =
      ground (arith, total-count_dirs d (count_torrent m t) ts h, entry-count_torrent d m t h)

  errors-count_dirs :
      (d : String) (m : IndexMap (ℕ × ℕ)) (ts : List (TorrentInfo F))
      → is_blank d ≡ false
      → (entry d (count_dirs m ts)).1 ≡ (entry d m).1 + erroring d ts
  unfolding count_dirs weight
  errors-count_dirs d m [] h = omega arith
  errors-count_dirs d m (t ∷ ts) h =
      ground (arith, errors-count_dirs d (count_torrent m t) ts h, errors-count_torrent d m t h)

  -- Nothing is counted for the empty directory.
  blank-count_torrent :
      (d : String) (m : IndexMap (ℕ × ℕ)) (t : TorrentInfo F)
      → is_blank d ≡ true
      → lookup d (count_torrent m t) ≡ lookup d m
  unfolding count_torrent
  blank-count_torrent d m t b = ground (
    arith,
    eq_iff (dir_key t) d,
    lookup-insert (dir_key t) d (raise (is_missing_data_torrent t) (lookup (dir_key t) m)) m,
  )

  blank-count_dirs :
      (d : String) (m : IndexMap (ℕ × ℕ)) (ts : List (TorrentInfo F))
      → is_blank d ≡ true
      → lookup d (count_dirs m ts) ≡ lookup d m
  unfolding count_dirs
  blank-count_dirs d m [] b = refl
  blank-count_dirs d m (t ∷ ts) b =
      blank-count_dirs d (count_torrent m t) ts b ∙ blank-count_torrent d m t b

  pub contains-unavailable_dirs :
      (d : String) (ts : List (TorrentInfo F))
      → contains d (unavailable_dirs ts) ≡ is_unavailable d ts
  unfolding unavailable_dirs
  contains-unavailable_dirs d ts =
      contains-down_dirs d (count_dirs [] ts) (count_dirs-Distinct [] ts tt)
      ∙ elim (Bool-cases (is_blank d)) [
        | inl blank ↦ rw (blank-count_dirs d [] ts blank) (unfold lookup in rw blank)
        | inr named ↦
            unfold lookup in
            ground (arith, total-count_dirs d [] ts named, errors-count_dirs d [] ts named, named)
      ]

  filter_twice :
      (p q r : TorrentInfo F → Bool) (ts : List (TorrentInfo F))
      → ((t : TorrentInfo F) → r t ≡ (p t && q t))
      → filter q (filter p ts) ≡ filter r ts
  filter_twice p q r [] h = refl
  filter_twice p q r (t ∷ ts) h = ground (arith, h t, filter_twice p q r ts h)

  -- The torrents to remediate are those with a local error whose directory is not unavailable,
  -- in their order, and the number held back is that of the others with a local error: by the
  -- reference definition, which counts the active torrents of one directory over the whole list.
  pub partition_unavailable_dirs_lem :
      (ts : List (TorrentInfo F))
      → partition_unavailable_dirs ts ≡ (
        filter (λ t. is_missing_data_torrent t && not (is_unavailable (dir_key t) ts)) ts,
        length (filter (λ t. is_missing_data_torrent t && is_unavailable (dir_key t) ts) ts),
      )
  unfolding partition_unavailable_dirs
  partition_unavailable_dirs_lem ts =
      ap₂ (λ (stale : List (TorrentInfo F)) (held : List (TorrentInfo F)). (stale, length held))
        (filter_twice is_missing_data_torrent _ _ ts (λ t.
          ap (λ (b : Bool). is_missing_data_torrent t && not b)
            (sym (contains-unavailable_dirs (dir_key t) ts))))
        (filter_twice is_missing_data_torrent _ _ ts (λ t.
          ap (λ (b : Bool). is_missing_data_torrent t && b)
            (sym (contains-unavailable_dirs (dir_key t) ts))))
