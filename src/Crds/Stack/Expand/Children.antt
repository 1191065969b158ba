-- ===== src/Crds/Stack/Expand/Children.antt =====
-- The children that `StackApp::expand` of crates/servarr-crds/src/v1alpha1/media_stack.rs gives.
use mathlib.Core.Bool.{false≢true}
use servarr_operator.Prelude.{
  String, ◌≡◌, ◌↔◌, ◌⊎◌, inl, inr, refl, ap, subst, sym, ◌∙◌, Bool, true, false, not, ◌&&◌, Option,
  none, some, List, [], ◌∷◌, ◌⧺◌, Result, ok, err, ok-injective, if◌then◌else◌,
}
use servarr_operator.Crds.AppType.{AppType, sonarr, radarr, as_str}
use servarr_operator.Crds.Spec.{ServarrAppSpec}
use servarr_operator.Crds.Types.Nfs.{NfsServerSpec, server_address}
use servarr_operator.Crds.Stack.{
  StackApp, StackDefaults, Split4kOverrides, child_name, split4k_valid, to_servarr_spec,
}
use servarr_operator.Crds.Stack.Expand.{
  media_mounts, inject_from, inject_nfs_mounts, override_4k, four_k_app, is_split, expand,
}
use servarr_operator.Crds.Stack.Expand.Laws.{add_mounts-IsInjected}

-- The app and the instance label that a spec has.
abbrev pub IsInstance : AppType → Option String → ServarrAppSpec → Type 0
IsInstance app label spec = (spec.app ≡ app) × (spec.instance_label ≡ label)

inject_from-IsInstance :
    (server : Option String) (nfs : NfsServerSpec) (is_4k : Bool) (spec : ServarrAppSpec)
    → IsInstance spec.app spec.instance_label (inject_from server nfs is_4k spec)
inject_from-IsInstance none nfs is_4k spec = (refl, refl)
inject_from-IsInstance (some server) nfs is_4k spec =
    let kept = (add_mounts-IsInjected (media_mounts nfs server is_4k spec.app) spec "").3 in
    (ap (λ (r : ServarrAppSpec). r.app) kept, ap (λ (r : ServarrAppSpec). r.instance_label) kept)

inject_nfs_mounts-IsInstance :
    (spec : ServarrAppSpec) (nfs : Option NfsServerSpec) (is_4k : Bool) (stack_name ns : String)
    → IsInstance spec.app spec.instance_label (inject_nfs_mounts spec nfs is_4k stack_name ns)
unfolding inject_nfs_mounts
inject_nfs_mounts-IsInstance spec none is_4k stack_name ns = (refl, refl)
inject_nfs_mounts-IsInstance spec (some nfs) is_4k stack_name ns =
    inject_from-IsInstance (server_address nfs stack_name ns) nfs is_4k spec

pub override_4k-app :
    (self : StackApp) (overrides : Option Split4kOverrides) (copy : StackApp)
    → ((override_4k self overrides copy).app ≡ copy.app)
      × ((override_4k self overrides copy).instance_label ≡ copy.instance_label)
override_4k-app self none copy = (refl, refl)
override_4k-app self (some overrides) copy = (refl, refl)

app_of_valid : (app : AppType) → split4k_valid app ≡ true → (app ≡ sonarr) ⊎ (app ≡ radarr)
unfolding split4k_valid
app_of_valid sonarr h = inl refl
app_of_valid radarr h = inr refl
app_of_valid app h = absurd (false≢true h)

valid_of_app : (app : AppType) → (app ≡ sonarr) ⊎ (app ≡ radarr) → split4k_valid app ≡ true
unfolding split4k_valid
valid_of_app app (inl e) = rw e
valid_of_app app (inr e) = rw e

-- The result of an expansion by its two tests.
abbrev pub expansion :
    Bool
    → Bool
    → String
    → (base four_k : String × ServarrAppSpec) → Result String (List (String × ServarrAppSpec))
expansion split valid message base four_k =
    if split && not valid then err message else ok (if split then base ∷ four_k ∷ [] else base ∷ [])

err_ne_ok :
    {message : String} {children : List (String × ServarrAppSpec)}
    → ◌≡◌ {A = Result String (List (String × ServarrAppSpec))} (err message) (ok children)
    → ⊥
err_ne_ok h = cc

pub expansion_cases :
    (split valid : Bool) (message : String) (base four_k : String × ServarrAppSpec)
    (children : List (String × ServarrAppSpec))
    → expansion split valid message base four_k ≡ ok children
    → ((split ≡ false) × (children ≡ base ∷ []))
      ⊎ ((split ≡ true) × (valid ≡ true) × (children ≡ base ∷ four_k ∷ []))
expansion_cases false valid message base four_k children h = inl (refl, sym (ok-injective h))
expansion_cases true true message base four_k children h = inr (refl, refl, sym (ok-injective h))
expansion_cases true false message base four_k children h = absurd (err_ne_ok h)

expansion_ok :
    (split valid : Bool) (message : String) (base four_k : String × ServarrAppSpec)
    → (split ≡ false) ⊎ (valid ≡ true)
    → (children : List (String × ServarrAppSpec)) × (expansion split valid message base four_k
        ≡ ok children)
expansion_ok split valid message base four_k (inl e) = rw e (base ∷ [], refl)
expansion_ok false valid message base four_k (inr e) = (base ∷ [], refl)
expansion_ok true valid message base four_k (inr e) = rw e (base ∷ four_k ∷ [], refl)

module _ (self : StackApp) (stack_name stack_namespace : String) (defaults : Option StackDefaults)
    (nfs : Option NfsServerSpec) where
  -- An app expands without an error exactly if it does not ask for a 4K instance, or is a Sonarr
  -- or a Radarr.
  pub expand_iff :
      ((children : List (String × ServarrAppSpec)) × (expand self stack_name stack_namespace
            defaults nfs
          ≡ ok children))
      ↔ ((is_split self.split4k ≡ false) ⊎ ((self.app ≡ sonarr) ⊎ (self.app ≡ radarr)))
  unfolding expand
  expand_iff = (
    λ (children, h).
        elim (expansion_cases (is_split self.split4k) (split4k_valid self.app) _ _ _ children h) [
          | inl (plain, e) ↦ inl plain
          | inr (split, valid, e) ↦ inr (app_of_valid self.app valid)
        ],
    λ asked.
        expansion_ok (is_split self.split4k) (split4k_valid self.app) _ _ _
          (elim asked [ inl plain ↦ inl plain | inr app ↦ inr (valid_of_app self.app app) ]),
  )

  base-IsInstance :
      IsInstance self.app self.instance_label
        (inject_nfs_mounts (to_servarr_spec self defaults) nfs false stack_name stack_namespace)
  unfolding to_servarr_spec
  base-IsInstance =
      inject_nfs_mounts-IsInstance (to_servarr_spec self defaults) nfs false stack_name
        stack_namespace

  four_k-IsInstance : IsInstance self.app (some "4k") (
      inject_nfs_mounts
        (to_servarr_spec (four_k_app self) defaults)
        nfs
        true
        stack_name
        stack_namespace)
  unfolding to_servarr_spec four_k_app
  four_k-IsInstance =
      let kept =
        inject_nfs_mounts-IsInstance (to_servarr_spec (four_k_app self) defaults) nfs true
          stack_name stack_namespace in
      let copy =
        override_4k-app self self.split4k_overrides
          (record self { instance_label = some "4k"; split4k = none }) in
      (kept.0 ∙ copy.0, kept.1 ∙ copy.1)

  -- The children of an app: its own, with its instance label, and after it the 4K one if the app
  -- asks for it; both are of the app's type.
  abbrev pub Children : List (String × ServarrAppSpec) → Type 0
  Children [] = ⊥
  Children (base ∷ []) =
      (is_split self.split4k ≡ false)
      × (base.0 ≡ child_name self stack_name)
      × IsInstance self.app self.instance_label base.1
  Children (base ∷ four_k ∷ []) =
      (is_split self.split4k ≡ true)
      × (base.0 ≡ child_name self stack_name)
      × IsInstance self.app self.instance_label base.1
      × (four_k.0 ≡ stack_name ⧺ "-" ⧺ as_str self.app ⧺ "-4k")
      × IsInstance self.app (some "4k") four_k.1
  Children (base ∷ four_k ∷ other ∷ rest) = ⊥

  -- An expansion gives the app's own child with its instance label, and after it, exactly if the
  -- app asks for it, the 4K child with the label `4k`; both are of the app's type.
  pub expand-Children :
      (children : List (String × ServarrAppSpec))
      → expand self stack_name stack_namespace defaults nfs ≡ ok children
      → Children children
  unfolding expand
  expand-Children children h =
      elim (expansion_cases (is_split self.split4k) (split4k_valid self.app) _ _ _ children h) [
        | inl (plain, e) ↦ subst Children (sym e) (plain, refl, base-IsInstance)
        | inr (split, valid, e) ↦
            subst Children (sym e) (split, refl, base-IsInstance, refl, four_k-IsInstance)
      ]
