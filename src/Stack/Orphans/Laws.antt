-- ===== src/Stack/Orphans/Laws.antt =====
-- What the orphan cleanup of crates/servarr-operator/src/media_stack_controller.rs may delete.
use servarr_operator.Prelude.{
  String, ◌≡◌, ◌⊎◌, inl, inr, refl, Bool, true, false, Option, none, some, List, [], ◌∷◌, map,
  contains, All, All-append, All-map_le, Bool-cases, Result, ok, err,
}
use servarr_operator.Crds.Defaults.Compiled.{AppImageDefaults}
use servarr_operator.Resources.Pvc.{ServarrApp, Pvc, BuildError, build_all}
use servarr_operator.Stack.Kube.{KubeError, is_kube_not_found}
use servarr_operator.Stack.Orphans.{
  Claim, Cluster, Call, detach, delete_child, DetachFailureCause, forbidden, transient,
  StuckOrphans, name_any, owned_names, add_failure, pvc_names, detach_from, detach_pvc_owner_refs,
  fall_back, detach_claims, conclude_orphan, clean_child, clean_children, cleanup_orphaned_children,
}

-- An answer that leaves nothing attached: a success, or that there is no such object.
abbrev pub IsGone : Option KubeError → Type 0
IsGone none = Unit
IsGone (some e) = is_kube_not_found e ≡ true

abbrev pub is_gone : Option KubeError → Bool
is_gone none = true
is_gone (some e) = is_kube_not_found e

abbrev pub Among : ServarrApp → List ServarrApp → Type 0
Among child [] = ⊥
Among child (first ∷ rest) = (child ≡ first) ⊎ Among child rest

some_ne_none :
    {cause : DetachFailureCause} → ◌≡◌ {A = Option DetachFailureCause} (some cause) none → ⊥
some_ne_none h = cc

add_failure-eq-none :
    (failure : Option DetachFailureCause) (answer : Option KubeError)
    → add_failure failure answer ≡ none
    → (failure ≡ none) × IsGone answer
unfolding add_failure
add_failure-eq-none none none h = (refl, tt)
add_failure-eq-none (some f) none h = (h, tt)
add_failure-eq-none none (some e) h = elim (Bool-cases (is_kube_not_found e)) [
  | inl gone ↦ (refl, gone)
  | inr failed ↦ absurd (some_ne_none (rw failed at h))
]
add_failure-eq-none (some prev) (some e) h = elim (Bool-cases (is_kube_not_found e)) [
  | inl gone ↦ absurd (some_ne_none (rw gone at h))
  | inr failed ↦ absurd (some_ne_none (rw failed at h))
]

module _ (image_defaults : String → Option AppImageDefaults) (cluster : Cluster) where
  -- The patch of each claim of that list left nothing attached.
  abbrev pub AllGone : String → List String → Type 0
  AllGone child_name names = All (λ pvc. IsGone (cluster.patch child_name pvc)) names

  detach_from-AllGone :
      (child_name : String) (failure : Option DetachFailureCause) (names : List String)
      → detach_from image_defaults cluster child_name failure names ≡ none
      → (failure ≡ none) × AllGone child_name names
  unfolding detach_from
  detach_from-AllGone child_name failure [] h = (h, tt)
  detach_from-AllGone child_name failure (pvc ∷ names) h =
      let (here, later) =
        detach_from-AllGone child_name (add_failure failure (cluster.patch child_name pvc)) names
          h in
      let (before, gone) = add_failure-eq-none failure (cluster.patch child_name pvc) here in
      (before, (gone, later))

  -- All the claims of a child are detached: those that its spec gives, or, if the spec cannot be
  -- resolved, those of the namespace that name its uid as an owner.
  abbrev pub IsDetached : ServarrApp → Type 0
  IsDetached child =
      ((pvcs : List Pvc) × (build_all image_defaults child ≡ ok pvcs)
        × AllGone (name_any child) (pvc_names pvcs))
      ⊎ ((e : BuildError) × (list : List Claim) × (build_all image_defaults child ≡ err e)
          × (cluster.list (name_any child) ≡ ok list)
          × AllGone (name_any child) (owned_names child.uid list))

  fall_back-AllGone :
      (child : ServarrApp) (r : Result KubeError (List Claim))
      → (fall_back image_defaults cluster child r).0 ≡ none
      → (list : List Claim) × (r ≡ ok list) × AllGone (name_any child) (owned_names child.uid list)
  unfolding detach_pvc_owner_refs
  fall_back-AllGone child (err e) h = absurd (some_ne_none h)
  fall_back-AllGone child (ok list) h =
      (list, refl, (detach_from-AllGone (name_any child) none (owned_names child.uid list) h).1)

  detach_claims-IsDetached :
      (child : ServarrApp) (r : Result BuildError (List Pvc))
      → build_all image_defaults child ≡ r
      → (detach_claims image_defaults cluster child r).0 ≡ none
      → IsDetached child
  unfolding detach_pvc_owner_refs
  detach_claims-IsDetached child (ok pvcs) built h =
      inl (pvcs, built, (detach_from-AllGone (name_any child) none (pvc_names pvcs) h).1)
  detach_claims-IsDetached child (err e) built h =
      let (list, listed, gone) = fall_back-AllGone child (cluster.list (name_any child)) h in
      inr (e, list, built, listed, gone)

  -- What a call does to an orphan: a detach of one of its claims, or a delete after all of them
  -- are detached.
  abbrev pub IsStepOn : ServarrApp → Call → Type 0
  IsStepOn child (detach name pvc) = name_any child ≡ name
  IsStepOn child (delete_child name) = (name_any child ≡ name) × IsDetached child

  detach_pvc_owner_refs-IsStepOn :
      (child : ServarrApp) (names : List String)
      → All (IsStepOn child) (map (detach (name_any child)) names)
  detach_pvc_owner_refs-IsStepOn child [] = tt
  detach_pvc_owner_refs-IsStepOn child (pvc ∷ names) =
      (refl, detach_pvc_owner_refs-IsStepOn child names)

  detach_claims-IsStepOn :
      (child : ServarrApp) (r : Result BuildError (List Pvc))
      → All (IsStepOn child) (detach_claims image_defaults cluster child r).1
  unfolding detach_pvc_owner_refs
  detach_claims-IsStepOn child (ok pvcs) = detach_pvc_owner_refs-IsStepOn child (pvc_names pvcs)
  detach_claims-IsStepOn child (err e) = fall_back-IsStepOn (cluster.list (name_any child))
    where
      fall_back-IsStepOn :
          (r : Result KubeError (List Claim))
          → All (IsStepOn child) (fall_back image_defaults cluster child r).1
      fall_back-IsStepOn (err e) = tt
      fall_back-IsStepOn (ok list) =
          detach_pvc_owner_refs-IsStepOn child (owned_names child.uid list)

  conclude_orphan-IsStepOn :
      (child : ServarrApp) (failure : Option DetachFailureCause) (calls : List Call)
      (stuck : StuckOrphans)
      → (failure ≡ none → IsDetached child)
      → All (IsStepOn child) calls
      → All
          (IsStepOn child)
          (conclude_orphan image_defaults cluster (name_any child) (failure, calls) stuck).1
  unfolding conclude_orphan
  conclude_orphan-IsStepOn child (some forbidden) calls stuck detached steps = steps
  conclude_orphan-IsStepOn child (some transient) calls stuck detached steps = steps
  conclude_orphan-IsStepOn child none calls stuck detached steps =
      All-append (IsStepOn child) calls _ steps ((refl, detached refl), tt)

  module _ (desired_children : List String) where
    -- A call on an orphan: a child that exists and that the stack does not want.
    abbrev pub IsOnOrphan : List ServarrApp → Call → Type 0
    IsOnOrphan existing call =
        (child : ServarrApp) × Among child existing
        × (contains (name_any child) desired_children ≡ false)
        × IsStepOn child call

    clean_child-IsStepOn :
        (child : ServarrApp) (stuck : StuckOrphans)
        → All
            (λ call. (contains (name_any child) desired_children ≡ false) × IsStepOn child call)
            (clean_child image_defaults cluster desired_children child stuck).1
    unfolding clean_child
    clean_child-IsStepOn child stuck =
        elim (Bool-cases (contains (name_any child) desired_children)) [
          | inl wanted ↦ rw wanted tt
          | inr orphan ↦ rw orphan (
              All-map_le (λ call step. (refl, step)) _
                (conclude_orphan-IsStepOn child _ _ stuck
                  (detach_claims-IsDetached child (build_all image_defaults child) refl)
                  (detach_claims-IsStepOn child (build_all image_defaults child))))
        ]

    clean_children-IsOnOrphan :
        (existing : List ServarrApp) (stuck : StuckOrphans)
        → All
            (IsOnOrphan existing)
            (clean_children image_defaults cluster desired_children existing stuck).1
    unfolding clean_children
    clean_children-IsOnOrphan [] stuck = tt
    clean_children-IsOnOrphan (child ∷ children) stuck =
        let here = clean_child image_defaults cluster desired_children child stuck in
        All-append (IsOnOrphan (child ∷ children)) here.1 _
          (All-map_le (λ call (orphan, step). (child, inl refl, orphan, step)) here.1
            (clean_child-IsStepOn child stuck))
          (All-map_le (λ call (c, among, orphan, step). (c, inr among, orphan, step)) _
            (clean_children-IsOnOrphan children
              (clean_child image_defaults cluster desired_children child stuck).0))

    -- Every call of the cleanup is on an existing child that the stack does not want, and a child
    -- is deleted only if all its claims are detached: the patch of each succeeded or found no
    -- claim. The claims are those that its spec gives, or, if the spec cannot be resolved, those
    -- of a list of the namespace that name its uid as an owner.
    pub cleanup_orphaned_children-IsOnOrphan :
        (existing : List ServarrApp)
        → All
            (IsOnOrphan existing)
            (cleanup_orphaned_children image_defaults cluster desired_children existing).1
    unfolding cleanup_orphaned_children
    cleanup_orphaned_children-IsOnOrphan existing = clean_children-IsOnOrphan existing _
