-- ===== src/Crds/Stack/Expand/FourK.antt =====
-- The NFS mounts of the 4K child of `StackApp::expand` of
-- crates/servarr-crds/src/v1alpha1/media_stack.rs against those of the standard child.
use servarr_operator.Prelude.{
  String, ◌≡◌, refl, ap, subst, sym, ◌∙◌, inl, inr, true, false, Option, none, some, List, [], ◌∷◌,
  map, arith, or_option, ok,
}
use servarr_operator.Crds.AppType.{AppType, sonarr, radarr}
use servarr_operator.Crds.Spec.{ServarrAppSpec}
use servarr_operator.Crds.Types.Persistence.{NfsMount, PersistenceSpec}
use servarr_operator.Crds.Types.Persistence.Merge.{find_mount}
use servarr_operator.Crds.Types.Nfs.{NfsServerSpec, server_address, nfs_path}
use servarr_operator.Crds.Stack.{
  StackApp, StackDefaults, Split4kOverrides, split4k_valid, to_servarr_spec,
}
use servarr_operator.Crds.Stack.Expand.{
  media_mounts, inject_from, inject_nfs_mounts, override_4k, four_k_app, is_split, expand,
}
use servarr_operator.Crds.Stack.Expand.Laws.{mounts_of, add_mounts-IsInjected}
use servarr_operator.Crds.Stack.Expand.Children.{expansion_cases, override_4k-app}

-- The mount with the path on the server replaced by that of the 4K library.
abbrev pub served_4k : NfsServerSpec → AppType → NfsMount → NfsMount
served_4k nfs sonarr m = record m { path = nfs_path nfs nfs.tv_4k_path }
served_4k nfs radarr m = record m { path = nfs_path nfs nfs.movies_4k_path }
served_4k nfs _ m = m

abbrev pub found_4k : NfsServerSpec → AppType → Option NfsMount → Option NfsMount
found_4k nfs app none = none
found_4k nfs app (some m) = some (served_4k nfs app m)

media_mounts_4k :
    (nfs : NfsServerSpec) (server : String) (app : AppType)
    → media_mounts nfs server true app ≡ map (served_4k nfs app) (media_mounts nfs server false app)
unfolding media_mounts
media_mounts_4k nfs server sonarr = refl
media_mounts_4k nfs server radarr = refl
media_mounts_4k nfs server app = refl

name-served_4k :
    (nfs : NfsServerSpec) (app : AppType) (m : NfsMount) → (served_4k nfs app m).name ≡ m.name
name-served_4k nfs sonarr m = refl
name-served_4k nfs radarr m = refl
name-served_4k nfs app m = refl

find_mount-served_4k :
    (name : String) (nfs : NfsServerSpec) (app : AppType) (ms : List NfsMount)
    → find_mount name (map (served_4k nfs app) ms) ≡ found_4k nfs app (find_mount name ms)
unfolding find_mount
find_mount-served_4k name nfs app [] = refl
find_mount-served_4k name nfs app (m ∷ ms) =
    ground (arith, name-served_4k nfs app m, find_mount-served_4k name nfs app ms)

-- The persistence that the 4K overrides set.
abbrev pub override_persistence : Option Split4kOverrides → Option PersistenceSpec
override_persistence none = none
override_persistence (some overrides) = overrides.persistence

kept_persistence :
    (self copy : StackApp) (overrides : Option Split4kOverrides)
    → override_persistence overrides ≡ none
    → (override_4k self overrides copy).persistence ≡ copy.persistence
kept_persistence self copy none h = refl
kept_persistence self copy (some overrides) h = rw h

-- What the standard child and the 4K child find under a name, over the user's mounts.
abbrev FoundIn :
    NfsServerSpec
    → AppType
    → String
    → Option NfsMount
    → (base four_k : Option PersistenceSpec) → Type 0
FoundIn nfs app name user base four_k =
    find_mount name (mounts_of four_k)
    ≡ or_option user (found_4k nfs app (find_mount name (mounts_of base)))

below_user :
    (nfs : NfsServerSpec) (app : AppType) (user mount : Option NfsMount)
    → or_option user (found_4k nfs app mount)
      ≡ or_option user (found_4k nfs app (or_option user mount))
below_user nfs app none mount = refl
below_user nfs app (some m) mount = refl

inject_from-FoundIn :
    (server : Option String) (nfs : NfsServerSpec) (app : AppType) (name : String)
    (base four_k : ServarrAppSpec)
    → base.app ≡ app
    → four_k.app ≡ app
    → four_k.persistence ≡ base.persistence
    → FoundIn nfs app name
        (find_mount name (mounts_of base.persistence))
        (inject_from server nfs false base).persistence
        (inject_from server nfs true four_k).persistence
inject_from-FoundIn none nfs app name base four_k a b same =
    ap (λ p. find_mount name (mounts_of p)) same ∙ ground arith
inject_from-FoundIn (some server) nfs app name base four_k a b same =
    let user = find_mount name (mounts_of base.persistence) in
    let mounts = media_mounts nfs server false app in
    let low = (add_mounts-IsInjected (media_mounts nfs server false base.app) base name).0 in
    let high = (add_mounts-IsInjected (media_mounts nfs server true four_k.app) four_k name).0 in
    let low_app =
      low
      ∙ ap (λ (k : AppType). or_option user (find_mount name (media_mounts nfs server false k)))
          a in
    high
    ∙ ap
        (λ (p : Option PersistenceSpec).
          or_option (find_mount name (mounts_of p))
            (find_mount name (media_mounts nfs server true four_k.app)))
        same
    ∙ ap (λ (k : AppType). or_option user (find_mount name (media_mounts nfs server true k))) b
    ∙ ap (λ (ms : List NfsMount). or_option user (find_mount name ms))
        (media_mounts_4k nfs server app)
    ∙ ap (or_option user) (find_mount-served_4k name nfs app mounts)
    ∙ below_user nfs app user (find_mount name mounts)
    ∙ ap (λ (m : Option NfsMount). or_option user (found_4k nfs app m)) (sym low_app)

module _ (self : StackApp) (stack_name stack_namespace : String) (defaults : Option StackDefaults)
    (nfs : NfsServerSpec) where
  abbrev FourKMounts : String → List (String × ServarrAppSpec) → Type 0
  FourKMounts name (base ∷ four_k ∷ []) =
      FoundIn nfs self.app name
        (find_mount name (mounts_of (to_servarr_spec self defaults).persistence)) base.1.persistence
        four_k.1.persistence
  FourKMounts name _ = Unit

  same_user :
      override_persistence self.split4k_overrides ≡ none
      → (to_servarr_spec (four_k_app self) defaults).persistence
        ≡ (to_servarr_spec self defaults).persistence
  unfolding to_servarr_spec four_k_app
  same_user plain =
      ap
        (λ (p : Option PersistenceSpec).
          (to_servarr_spec (record self { persistence = p }) defaults).persistence)
        (kept_persistence self (record self { instance_label = some "4k"; split4k = none })
          self.split4k_overrides plain)

  kept_app :
      ((to_servarr_spec self defaults).app ≡ self.app)
      × ((to_servarr_spec (four_k_app self) defaults).app ≡ self.app)
  unfolding to_servarr_spec four_k_app
  kept_app = (
    refl,
    (override_4k-app self self.split4k_overrides
        (record self { instance_label = some "4k"; split4k = none })).0,
  )

  expand-FourKMounts :
      (children : List (String × ServarrAppSpec)) (name : String)
      → override_persistence self.split4k_overrides ≡ none
      → expand self stack_name stack_namespace defaults (some nfs) ≡ ok children
      → FourKMounts name children
  unfolding expand inject_nfs_mounts
  expand-FourKMounts children name plain h =
      elim (expansion_cases (is_split self.split4k) (split4k_valid self.app) _ _ _ children h) [
        | inl (one, e) ↦ subst (FourKMounts name) (sym e) tt
        | inr (split, valid, e) ↦ subst (FourKMounts name) (sym e) (
            inject_from-FoundIn (server_address nfs stack_name stack_namespace) nfs self.app name
              (to_servarr_spec self defaults) (to_servarr_spec (four_k_app self) defaults)
              kept_app.0 kept_app.1 (same_user plain))
      ]

  -- When an app of a stack with NFS settings expands to its own child and a 4K one, and the 4K
  -- overrides set no persistence, a mount name resolves in the 4K child to the user's mount if
  -- there is one, and else to the mount of the app's own child, if that has one, with only the path
  -- on the server replaced: by that of the 4K series for a Sonarr, of the 4K movies for a Radarr.
  pub expand_4k_mounts :
      (base four_k : String × ServarrAppSpec) (name : String)
      → override_persistence self.split4k_overrides ≡ none
      → expand self stack_name stack_namespace defaults (some nfs) ≡ ok (base ∷ four_k ∷ [])
      → find_mount name (mounts_of four_k.1.persistence)
        ≡ or_option
            (find_mount name (mounts_of (to_servarr_spec self defaults).persistence))
            (found_4k nfs self.app (find_mount name (mounts_of base.1.persistence)))
  expand_4k_mounts base four_k name plain h = expand-FourKMounts (base ∷ four_k ∷ []) name plain h
