-- ===== src/Webhook/Namespace.antt =====
-- The apps of a namespace over a sequence of requests that the webhook of
-- crates/servarr-operator/src/webhook.rs admits, each checked against the apps that are there.
use servarr_operator.Prelude.{
  some_injective, String, ◌≡◌, sym, ◌∙◌, ap, false, true, Option, some, List, [], ◌∷◌, ◌++◌, ◌==◌,
  All-map_le, inl, inr, arith, is_blank, ok, unwrap_or, ok-injective, subst,
}
use servarr_operator.Crds.Spec.{ServarrAppSpec}
use servarr_operator.Crds.Types.Workload.{Value, get}
use servarr_operator.Webhook.Identity.{spec_in}
use servarr_operator.Webhook.Identity.Laws.{SameIdentity, SameKey, NoTwin, KeepsIdentity}
use servarr_operator.Webhook.Validate.{Calls, AdmissionRequest, parse_spec, validate_spec}
use servarr_operator.Webhook.Validate.Laws.{validate_spec_iff, CreateFits, UpdateFits}

-- The list of the apps is answered from the state.
abbrev pub answering : Calls → List ServarrAppSpec → Calls
answering calls apps = record calls { list_apps = λ namespace. ok apps }

-- One change of the namespace: a CREATE or an UPDATE that is admitted, or a deletion.
pub data Step (calls : Calls) : List ServarrAppSpec → List ServarrAppSpec → Type 0 where
  created :
      (apps : List ServarrAppSpec) (request : AdmissionRequest) (spec : ServarrAppSpec)
      → (request.operation == "CREATE") ≡ true
      → is_blank request.namespace ≡ false
      → parse_spec calls request.object ≡ ok spec
      → validate_spec (answering calls apps) request ≡ ok tt
      → Step calls apps (spec ∷ apps)
  updated :
      (before later : List ServarrAppSpec) (old spec : ServarrAppSpec) (request : AdmissionRequest)
      (old_object : Value)
      → (request.operation == "UPDATE") ≡ true
      → request.old_object ≡ some old_object
      → spec_in calls.from_value (get "spec" old_object) ≡ some old
      → parse_spec calls request.object ≡ ok spec
      → validate_spec (answering calls (before ++ old ∷ later)) request ≡ ok tt
      → Step calls (before ++ old ∷ later) (before ++ spec ∷ later)
  deleted :
      (before later : List ServarrAppSpec) (app : ServarrAppSpec)
      → Step calls (before ++ app ∷ later) (before ++ later)

-- The states that a namespace without apps reaches.
pub data Reachable (calls : Calls) : List ServarrAppSpec → Type 0 where
  began : Reachable calls []
  step : {a b : List ServarrAppSpec} → Reachable calls a → Step calls a b → Reachable calls b

-- No two apps have the same type and instance.
abbrev pub NoTwins : List ServarrAppSpec → Type 0
NoTwins [] = Unit
NoTwins (app ∷ apps) = NoTwin app apps × NoTwins apps

module _ (old spec : ServarrAppSpec) (same : SameIdentity old spec) where
  key_kept : (app : ServarrAppSpec) → SameKey app spec → SameKey app old
  key_kept app (same_type, same_instance) = (
    same_type ∙ sym same.0,
    same_instance ∙ ap (λ (o : Option String). unwrap_or o "") (sym same.1),
  )

  key_moved : (app : ServarrAppSpec) → SameKey spec app → SameKey old app
  key_moved app (same_type, same_instance) =
      (same.0 ∙ same_type, ap (λ (o : Option String). unwrap_or o "") same.1 ∙ same_instance)

  NoTwin-replace :
      (app : ServarrAppSpec) (before later : List ServarrAppSpec)
      → NoTwin app (before ++ old ∷ later)
      → NoTwin app (before ++ spec ∷ later)
  NoTwin-replace app [] later h = (λ k. h.0 (key_moved app k), h.1)
  NoTwin-replace app (b ∷ before) later h = (h.0, NoTwin-replace app before later h.1)

  NoTwins-replace :
      (before later : List ServarrAppSpec)
      → NoTwins (before ++ old ∷ later)
      → NoTwins (before ++ spec ∷ later)
  NoTwins-replace [] later h = (All-map_le (λ app apart k. apart (key_kept app k)) later h.0, h.1)
  NoTwins-replace (b ∷ before) later h =
      (NoTwin-replace b before later h.0, NoTwins-replace before later h.1)

NoTwin-delete :
    (app gone : ServarrAppSpec) (before later : List ServarrAppSpec)
    → NoTwin app (before ++ gone ∷ later)
    → NoTwin app (before ++ later)
NoTwin-delete app gone [] later h = h.1
NoTwin-delete app gone (b ∷ before) later h = (h.0, NoTwin-delete app gone before later h.1)

NoTwins-delete :
    (gone : ServarrAppSpec) (before later : List ServarrAppSpec)
    → NoTwins (before ++ gone ∷ later)
    → NoTwins (before ++ later)
NoTwins-delete gone [] later h = h.1
NoTwins-delete gone (b ∷ before) later h =
    (NoTwin-delete b gone before later h.0, NoTwins-delete gone before later h.1)

create_new :
    (calls : Calls) (apps : List ServarrAppSpec) (request : AdmissionRequest)
    (spec : ServarrAppSpec)
    → (request.operation == "CREATE") ≡ true
    → is_blank request.namespace ≡ false
    → CreateFits (answering calls apps) request spec
    → NoTwin spec apps
create_new calls apps request spec operation filled (inl other) =
    ground (arith, operation, filled, other)
create_new calls apps request spec operation filled (inr apart) = apart

update_same :
    (calls : Calls) (request : AdmissionRequest) (spec old : ServarrAppSpec) (old_object : Value)
    → (request.operation == "UPDATE") ≡ true
    → request.old_object ≡ some old_object
    → spec_in calls.from_value (get "spec" old_object) ≡ some old
    → UpdateFits calls request spec
    → SameIdentity old spec
update_same calls request spec old old_object operation given stored (inl other) =
    ground (arith, operation, other)
update_same calls request spec old old_object operation given stored (inr kept) =
    let (found, there, same) = subst (λ o. KeepsIdentity calls.from_value spec o) given kept in
    subst (λ (o : ServarrAppSpec). SameIdentity o spec) (some_injective (sym there ∙ stored)) same

-- An admitted CREATE has an identity of its own.
pub created_apart :
    (calls : Calls) (apps : List ServarrAppSpec) (request : AdmissionRequest)
    (spec : ServarrAppSpec)
    → (request.operation == "CREATE") ≡ true
    → is_blank request.namespace ≡ false
    → parse_spec calls request.object ≡ ok spec
    → validate_spec (answering calls apps) request ≡ ok tt
    → NoTwin spec apps
created_apart calls apps request spec operation filled parsed admitted =
    let (read, parse, fits) = (validate_spec_iff (answering calls apps) request).0 admitted in
    subst (λ s. NoTwin s apps) (ok-injective (sym parse ∙ parsed))
      (create_new calls apps request read operation filled fits.1.0)

-- An admitted UPDATE keeps the identity of the object that it replaces.
pub updated_same :
    (calls : Calls) (apps : List ServarrAppSpec) (old spec : ServarrAppSpec)
    (request : AdmissionRequest) (old_object : Value)
    → (request.operation == "UPDATE") ≡ true
    → request.old_object ≡ some old_object
    → spec_in calls.from_value (get "spec" old_object) ≡ some old
    → parse_spec calls request.object ≡ ok spec
    → validate_spec (answering calls apps) request ≡ ok tt
    → SameIdentity old spec
updated_same calls apps old spec request old_object operation given stored parsed admitted =
    let (read, parse, fits) = (validate_spec_iff (answering calls apps) request).0 admitted in
    subst (λ s. SameIdentity old s) (ok-injective (sym parse ∙ parsed))
      (update_same (answering calls apps) request read old old_object operation given stored
        fits.1.1.0)

NoTwins-Step : (calls : Calls) {a b : List ServarrAppSpec} → Step calls a b → NoTwins a → NoTwins b
NoTwins-Step calls (created apps request spec operation filled parsed admitted) h =
    (created_apart calls apps request spec operation filled parsed admitted, h)
NoTwins-Step calls
      (updated before later old spec request old_object operation given stored parsed admitted) h =
    NoTwins-replace old spec
      (updated_same calls (before ++ old ∷ later) old spec request old_object operation given stored
        parsed admitted)
      before later h
NoTwins-Step calls (deleted before later app) h = NoTwins-delete app before later h

-- Along any sequence of requests that the webhook admits, each CREATE in the namespace checked
-- against the apps that are there and each UPDATE against the object it replaces, and of deletions,
-- no two apps of a namespace that began empty have the same type and instance.
pub Reachable-NoTwins :
    (calls : Calls) (apps : List ServarrAppSpec) → Reachable calls apps → NoTwins apps
Reachable-NoTwins calls _ began = tt
Reachable-NoTwins calls _ (step {a = a} reached change) =
    NoTwins-Step calls change (Reachable-NoTwins calls a reached)
