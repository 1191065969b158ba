-- ===== src/Webhook/Registry.antt =====
-- A registry of identities, as the abstract view of a namespace: what each admitted request of
-- crates/servarr-operator/src/webhook.rs is on it.
use servarr_operator.Prelude.{
  map-append, String, ◌≡◌, ◌≢◌, ap, ◌∙◌, subst, List, [], ◌∷◌, ◌++◌, map, All, unwrap_or, Option,
}
use servarr_operator.Crds.AppType.{AppType}
use servarr_operator.Crds.Spec.{ServarrAppSpec}
use servarr_operator.Webhook.Identity.{instance_name}
use servarr_operator.Webhook.Identity.Laws.{SameIdentity, NoTwin}
use servarr_operator.Webhook.Validate.{Calls}
use servarr_operator.Webhook.Namespace.{
  Step, created, updated, deleted, created_apart, updated_same,
}

-- The app type and the instance.
abbrev pub Identity : Type 0
Identity = AppType × String

abbrev pub identity : ServarrAppSpec → Identity
identity spec = (spec.app, instance_name spec)

-- The changes of a registry: a new identity enters, nothing happens, or an identity leaves.
pub data Change : List Identity → List Identity → Type 0 where
  entered :
      (key : Identity) (keys : List Identity) → All (λ k. k ≢ key) keys → Change keys (key ∷ keys)
  unchanged : (keys : List Identity) → Change keys keys
  left :
      (before later : List Identity) (key : Identity)
      → Change (before ++ key ∷ later) (before ++ later)

fresh-NoTwin :
    (spec : ServarrAppSpec) (apps : List ServarrAppSpec)
    → NoTwin spec apps
    → All (λ k. k ≢ identity spec) (map identity apps)
fresh-NoTwin spec [] h = tt
fresh-NoTwin spec (app ∷ apps) h = (
  λ e. h.0 (ap (λ (k : Identity). k.0) e, ap (λ (k : Identity). k.1) e),
  fresh-NoTwin spec apps h.1,
)

identity-eq : (old spec : ServarrAppSpec) → SameIdentity old spec → identity old ≡ identity spec
identity-eq old spec (same_type, same_instance) =
    ap (λ (app : AppType). (app, instance_name old)) same_type
    ∙ ap (λ (o : Option String). (spec.app, unwrap_or o "")) same_instance

replaced :
    (before later : List ServarrAppSpec) (old spec : ServarrAppSpec)
    → SameIdentity old spec
    → map identity (before ++ old ∷ later) ≡ map identity (before ++ spec ∷ later)
replaced [] later old spec same =
    ap (λ (k : Identity). k ∷ map identity later) (identity-eq old spec same)
replaced (b ∷ before) later old spec same =
    ap (λ keys. identity b ∷ keys) (replaced before later old spec same)

-- Each change of a namespace that the webhook admits is a change of the registry of its identities:
-- a CREATE enters an identity that no app has, an UPDATE leaves the registry as it is, and a
-- deletion takes one identity out.
pub Step-Change :
    (calls : Calls) (a b : List ServarrAppSpec)
    → Step calls a b
    → Change (map identity a) (map identity b)
Step-Change calls _ _ (created apps request spec operation filled parsed admitted) =
    entered (identity spec) (map identity apps) (
      fresh-NoTwin spec apps
        (created_apart calls apps request spec operation filled parsed admitted))
Step-Change calls _ _
      (updated before later old spec request old_object operation given stored parsed admitted) =
    subst (Change (map identity (before ++ old ∷ later)))
      (replaced before later old spec (
        updated_same calls (before ++ old ∷ later) old spec request old_object operation given
          stored parsed admitted))
      (unchanged (map identity (before ++ old ∷ later)))
Step-Change calls _ _ (deleted before later app) =
    rw (map-append identity before (app ∷ later), map-append identity before later)
      (left (map identity before) (map identity later) (identity app))
