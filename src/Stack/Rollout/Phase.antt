-- ===== src/Stack/Rollout/Phase.antt =====
-- The counts and the phase of the rollout of
-- crates/servarr-operator/src/media_stack_controller.rs.
use mathlib.Core.List.{append-nil, append_assoc}
use servarr_operator.Prelude.{
  ℕ, ◌≤◌, String, ◌≡◌, ◌↔◌, refl, ap, sym, ◌∙◌, Bool, true, not, ◌&&◌, Option, some, List, [], ◌∷◌,
  ◌++◌, map, arith, all, filter, filter-append, map-append, length-map, length, contains, ltb,
  Option-cases, Bool-cases, inl, inr, Result, ok, ok-injective, >>=-eq-ok,
}
use servarr_operator.Crds.Stack.Status.{ready_phase}
use servarr_operator.Stack.Kube.{KubeError}
use servarr_operator.Stack.Rollout.{
  Member, Tiers, Progress, start, waiting, observed, timed_out, note_app, apply_apps, step_tier,
  roll, compute_phase,
}
use servarr_operator.Stack.Rollout.Laws.{names, name_of, err_ne_ok}
use servarr_operator.Stack.Rollout.Statuses.{
  status_name, is_ready_status, ready_names, ready_of, ready_names-append, ready_of-append,
  ready_of-waiting, names-waiting, ready_names-waiting, ready_of-bypass, names-bypass,
  ready_names-bypass, all-ready_iff,
}

compute_phase_lem :
    (r total : ℕ) (was_ready : Bool)
    → (compute_phase r total was_ready ≡ ready_phase) ↔ ((1 ≤ total) × (r ≡ total))
unfolding compute_phase
compute_phase_lem r total was_ready =
    (λ e. (ground (arith, e), ground (arith, e)), λ (some_app, same). ground (arith, same))

module _ (apply : String → Option KubeError) (is_ready : String → Bool)
    (parse_from_rfc3339 : String → Option ℕ) (clock : ℕ → ℕ) (blocked_since : Option String)
    (bypassed : List String) where
  -- The ready count is that of the statuses, and the ready statuses are those of the applied
  -- children that were read back as ready.
  abbrev IsCounted : Progress → Type 0
  IsCounted p =
      (p.ready_count ≡ ready_of p.app_statuses)
      × (ready_names p.app_statuses ≡ filter is_ready p.applied)

  -- One more status for each of these children, in order, and a right count.
  abbrev Grows : Progress → Progress → List String → Type 0
  Grows p q later =
      IsCounted q × (map status_name q.app_statuses ≡ map status_name p.app_statuses ++ later)

  abbrev noted : ℕ → Member → Progress → Progress
  noted t m p = note_app apply is_ready parse_from_rfc3339 clock blocked_since bypassed t m p

  ready_names-observed :
      (t : ℕ) (m : Member) (was_bypassed : Bool)
      → ready_names (observed t m was_bypassed (is_ready m.child_name) ∷ [])
        ≡ filter is_ready (m.child_name ∷ [])
  ready_names-observed t m was_bypassed = ground arith

  noted-Grows :
      (t : ℕ) (m : Member) (p : Progress) → IsCounted p → Grows p (noted t m p) (m.child_name ∷ [])
  unfolding note_app
  noted-Grows t m p (count, ready) =
      let s = observed t m (contains m.child_name bypassed) (is_ready m.child_name) in
      (
        (
          ground (arith, ready_of-append p.app_statuses (s ∷ []), count),
          rw (
            ready_names-append p.app_statuses (s ∷ []),
            filter-append is_ready p.applied (m.child_name ∷ []),
            ready_names-observed t m (contains m.child_name bypassed),
            ready,
          ),
        ),
        map-append status_name p.app_statuses (s ∷ []),
      )

  apply_apps-Grows :
      (t : ℕ) (ms : List Member) (p q : Progress)
      → IsCounted p
      → apply_apps apply is_ready parse_from_rfc3339 clock blocked_since bypassed t ms p ≡ ok q
      → Grows p q (map name_of ms)
  unfolding apply_apps
  apply_apps-Grows t [] p q counted h =
      let e : q ≡ p = sym (ok-injective h) in
      rw e (counted, sym (append-nil (map status_name p.app_statuses)))
  apply_apps-Grows t (m ∷ ms) p q counted h = elim (Option-cases (apply m.child_name)) [
    | inr (e, failed) ↦ absurd (err_ne_ok (rw (failed, apply_apps) at h))
    | inl applied ↦
        let one = noted-Grows t m p counted in
        let more = apply_apps-Grows t ms (noted t m p) q one.0 (rw (applied, apply_apps) at h) in
        (
          more.0,
          more.1
              ∙ ap (λ (ns : List String). ns ++ map name_of ms) one.1
              ∙ append_assoc (map status_name p.app_statuses) (m.child_name ∷ []) (map name_of ms),
        )
  ]

  abbrev steps : ℕ → List Member → Progress → Result KubeError Progress
  steps t ms p = step_tier apply is_ready parse_from_rfc3339 clock blocked_since bypassed t ms p

  abbrev rolls : Tiers → Progress → Result KubeError Progress
  rolls tiers p = roll apply is_ready parse_from_rfc3339 clock blocked_since bypassed tiers p

  abbrev skipped : ℕ → List Member → Progress → Progress
  skipped t ms p = record p { app_statuses = p.app_statuses ++ map (waiting t) ms }

  skipped-Grows :
      (t : ℕ) (ms : List Member) (p : Progress)
      → IsCounted p
      → Grows p (skipped t ms p) (map name_of ms)
  skipped-Grows t ms p (count, ready) = (
    (
      ground (
        arith,
        count,
        ready_of-append p.app_statuses (map (waiting t) ms),
        ready_of-waiting t ms,
      ),
      ready_names-append p.app_statuses (map (waiting t) ms)
          ∙ ap (λ ns. ready_names p.app_statuses ++ ns) (ready_names-waiting t ms)
          ∙ append-nil (ready_names p.app_statuses)
          ∙ ready,
    ),
    map-append status_name p.app_statuses (map (waiting t) ms)
        ∙ ap (λ ns. map status_name p.app_statuses ++ ns) (names-waiting t ms),
  )

  step_tier-Grows :
      (t : ℕ) (ms : List Member) (p q : Progress)
      → IsCounted p
      → steps t ms p ≡ ok q
      → Grows p q (map name_of ms)
  unfolding step_tier
  step_tier-Grows t ms p q counted h = elim (Bool-cases (ltb 0 t && not p.all_previous_ready)) [
    | inr free ↦ apply_apps-Grows t ms (record p { current_tier = some t }) q counted (rw free at h)
    | inl blocked ↦
        elim (Bool-cases
          (timed_out apply is_ready parse_from_rfc3339 clock blocked_since bypassed t)) [
            | inr on_time ↦
                rw (sym (ok-injective (rw on_time at (rw blocked at h))))
                  (skipped-Grows t ms p counted)
            | inl late ↦
                let grown =
                  apply_apps-Grows t ms _ q
                    (
                      counted.0 ∙ sym (ready_of-bypass p.app_statuses),
                      ready_names-bypass p.app_statuses ∙ counted.1,
                    )
                    (rw late at (rw blocked at h)) in
                (
                  grown.0,
                  grown.1
                      ∙ ap (λ (ns : List String). ns ++ map name_of ms)
                          (names-bypass p.app_statuses),
                )
          ]
  ]

  roll-Grows :
      (tiers : Tiers) (p q : Progress)
      → IsCounted p
      → rolls tiers p ≡ ok q
      → Grows p q (names tiers)
  unfolding roll
  roll-Grows [] p q counted h =
      let e : q ≡ p = sym (ok-injective h) in
      rw e (counted, sym (append-nil (map status_name p.app_statuses)))
  roll-Grows ((t, ms) ∷ rest) p q counted h =
      let (mid, first, later) = >>=-eq-ok (steps t ms p) (rolls rest) h in
      let one = step_tier-Grows t ms p mid counted first in
      let more = roll-Grows rest mid q one.0 later in
      (
        more.0,
        more.1
            ∙ ap (λ (ns : List String). ns ++ names rest) one.1
            ∙ append_assoc (map status_name p.app_statuses) (map name_of ms) (names rest),
      )

  -- After a rollout that ends without an API error the statuses are those of the children of all
  -- tiers, one for each, by name and in the order of the rollout; the ready ones are those of the
  -- children that were applied and then read back as ready, in the order in which they were
  -- applied; and the phase is `Ready` exactly if there is a child and the status of each is ready,
  -- whatever the phase was before.
  pub roll_phase :
      (tiers : Tiers) (q : Progress) (was_ready : Bool)
      → rolls tiers start ≡ ok q
      → (map status_name q.app_statuses ≡ names tiers)
        × (ready_names q.app_statuses ≡ filter is_ready q.applied)
        × ((compute_phase q.ready_count (length (names tiers)) was_ready ≡ ready_phase)
            ↔ ((1 ≤ length (names tiers)) × (all is_ready_status q.app_statuses ≡ true)))
  roll_phase tiers q was_ready h =
      let grown = roll-Grows tiers start q (refl, refl) h in
      let total : length q.app_statuses ≡ length (names tiers) =
        sym (length-map status_name q.app_statuses) ∙ ap length grown.1 in
      let iff = all-ready_iff q.app_statuses in
      let phase = compute_phase_lem q.ready_count (length (names tiers)) was_ready in
      (
        grown.1,
        grown.0.1,
        (
          λ e.
              let found = phase.0 e in (found.0, iff.0 (ground (arith, grown.0.0, total, found.1))),
          λ done. phase.1 (done.0, grown.0.0 ∙ iff.1 done.1 ∙ total),
        ),
      )
