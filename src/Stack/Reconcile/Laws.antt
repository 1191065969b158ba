-- ===== src/Stack/Reconcile/Laws.antt =====
-- What one reconcile of crates/servarr-operator/src/media_stack_controller.rs may do.
use servarr_operator.Prelude.{
  ℕ, String, ◌≡◌, ◌⊎◌, inl, inr, refl, ap, sym, subst, false, Option, none, some, List, [], map,
  All, Distinct, Option-cases, Result, ok, err, ok-injective, >>=-eq-ok,
}
use servarr_operator.Prelude.Repeats.{find_repeat, find_repeat_iff}
use servarr_operator.Crds.Defaults.Compiled.{AppImageDefaults}
use servarr_operator.Crds.Stack.Status.{set_stack_condition}
use servarr_operator.Resources.Pvc.{ServarrApp}
use servarr_operator.Stack.Kube.{KubeError}
use servarr_operator.Stack.Orphans
use servarr_operator.Stack.Orphans.{StuckOrphans, cleanup_orphaned_children}
use servarr_operator.Stack.Orphans.Laws.{IsOnOrphan, cleanup_orphaned_children-IsOnOrphan}
use servarr_operator.Stack.Rollout.{Member, Progress, start, expand_all, group_onto, roll}
use servarr_operator.Stack.Reconcile.{
  MediaStack, World, Outcome, effective_nfs, patched, invalid, name_of, prev_blocked, prev_bypassed,
  after_cleanup, after_expansion, reconcile,
}

err_ne_ok : {e : KubeError} {o : Outcome} → ◌≡◌ {A = Result KubeError Outcome} (err e) (ok o) → ⊥
err_ne_ok h = cc

patched_lem :
    (failure : Option KubeError) (made o : Outcome) → patched failure made ≡ ok o → o ≡ made
patched_lem none made o h = sym (ok-injective h)
patched_lem (some e) made o h = absurd (err_ne_ok h)

-- A reconcile that touches no child and reports a stack that is not ready.
abbrev pub IsRefused : Outcome → Type 0
IsRefused o = (o.cleanup_calls ≡ []) × (o.applied ≡ []) × (o.status.ready ≡ false)

invalid-IsRefused :
    (stack : MediaStack) (world : World) (reason message : String) (o : Outcome)
    → invalid stack world reason message ≡ ok o
    → IsRefused o
unfolding invalid set_stack_condition
invalid-IsRefused stack world reason message o h =
    let e = patched_lem world.patch_status _ o h in
    (
      ap (λ (r : Outcome). r.cleanup_calls) e,
      ap (λ (r : Outcome). r.applied) e,
      ap (λ (r : Outcome). r.status.ready) e,
    )

module _ (image_defaults : String → Option AppImageDefaults)
    (parse_from_rfc3339 : String → Option ℕ) (stack : MediaStack) (world : World) where
  -- A reconcile of these children: their names are different, its deletes are on orphans, and it
  -- applied what the rollout of their tiers applies.
  abbrev pub IsRollout : List Member → Outcome → Type 0
  IsRollout ms o =
      Distinct (map name_of ms)
      × ((existing : List ServarrApp) × (world.existing ≡ ok existing)
          × All (IsOnOrphan image_defaults world.cluster (map name_of ms) existing) o.cleanup_calls)
      × ((p : Progress) × (roll world.apply world.is_ready parse_from_rfc3339 world.clock
              (prev_blocked stack.status) (prev_bypassed stack.status) (group_onto [] ms) start
            ≡ ok p)
          × (o.applied ≡ p.applied))

  after_cleanup_lem :
      (ms : List Member) (stuck : StuckOrphans) (calls : List Orphans.Call) (o : Outcome)
      → after_cleanup image_defaults parse_from_rfc3339 stack world ms (stuck, calls) ≡ ok o
      → (o.cleanup_calls ≡ calls)
        × ((p : Progress) × (roll world.apply world.is_ready parse_from_rfc3339 world.clock
                (prev_blocked stack.status)
                (prev_bypassed stack.status)
                (group_onto [] ms)
                start
              ≡ ok p)
            × (o.applied ≡ p.applied))
  unfolding after_cleanup
  after_cleanup_lem ms stuck calls o h =
      let (p, rolled, rest) = >>=-eq-ok _ _ h in
      let e = patched_lem world.patch_status _ o rest in
      (ap (λ (r : Outcome). r.cleanup_calls) e, (p, rolled, ap (λ (r : Outcome). r.applied) e))

  after_expansion_lem :
      (expanded : Result String (List Member)) (o : Outcome)
      → after_expansion image_defaults parse_from_rfc3339 stack world expanded ≡ ok o
      → IsRefused o ⊎ ((ms : List Member) × (expanded ≡ ok ms) × IsRollout ms o)
  unfolding after_expansion
  after_expansion_lem (err msg) o h = inl (invalid-IsRefused stack world _ _ o h)
  after_expansion_lem (ok ms) o h = elim (Option-cases (find_repeat name_of [] ms)) [
    | inr ((prior, m), repeated) ↦
        inl (invalid-IsRefused stack world _ _ o (rw (repeated, after_expansion) at h))
    | inl distinct ↦
        let (existing, listed, rest) =
          >>=-eq-ok world.existing _ (rw (distinct, after_expansion) at h) in
        let cleaned =
          cleanup_orphaned_children image_defaults world.cluster (map name_of ms) existing in
        let (calls, rolled) = after_cleanup_lem ms cleaned.0 cleaned.1 o rest in
        let safe =
          cleanup_orphaned_children-IsOnOrphan image_defaults world.cluster (map name_of ms)
            existing in
        inr (
          ms,
          refl,
          (
            (find_repeat_iff name_of ms).0 distinct,
            (
              existing,
              listed,
              subst (All (IsOnOrphan image_defaults world.cluster (map name_of ms) existing))
                  (sym calls) safe,
            ),
            rolled,
          ),
        )
  ]

  -- A reconcile that ends without an API error either touches no child and reports a stack that is
  -- not ready, or all enabled apps expand, to children with different names, it deletes only
  -- orphans of which all claims are detached, and it applies what the rollout of the children's
  -- tiers applies.
  pub reconcile_lem :
      (ip : Option String) (o : Outcome)
      → reconcile image_defaults parse_from_rfc3339 stack world (ok ip) ≡ ok o
      → IsRefused o
        ⊎ ((ms : List Member) × (expand_all stack.name stack.namespace stack.defaults
                (effective_nfs stack.nfs ip)
                stack.apps
              ≡ ok ms)
            × IsRollout ms o)
  unfolding reconcile
  reconcile_lem ip o h = after_expansion_lem _ o h
