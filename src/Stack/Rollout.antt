-- ===== src/Stack/Rollout.antt =====
-- The rollout by tiers in `reconcile` of
-- crates/servarr-operator/src/media_stack_controller.rs. The answers to the apply of a child and to
-- the read-back of its status are parameters, and so are the clock, read once at each tier, and the
-- parser of timestamps, in nanoseconds.
pub mod Laws
pub mod Statuses
pub mod Phase
use servarr_operator.Prelude.{
  ℕ, suc, ◌-◌, ◌/◌, String, Bool, true, false, not, ◌&&◌, ◌||◌, Option, none, some, List, [], ◌∷◌,
  ◌++◌, ◌==◌, map, filter, contains, length, leb, ltb, eqb, or_option, Result, ok, err, ◌>>=◌,
  if◌then◌else◌,
}
use servarr_operator.Crds.AppType.{AppType, as_str, tier}
use servarr_operator.Crds.Spec.{ServarrAppSpec}
use servarr_operator.Crds.Types.Nfs.{NfsServerSpec}
use servarr_operator.Crds.Stack.{StackApp, StackDefaults}
use servarr_operator.Crds.Stack.Expand.{expand}
use servarr_operator.Crds.Stack.Status.{
  StackPhase, pending, rolling_out, ready_phase, degraded, StackAppStatus, MediaStackStatus,
}
use servarr_operator.Stack.Kube.{KubeError}

-- One child to apply: the tuple of its name, spec, app type and tier.
pub record Member : Type 0 where
  pub child_name : String
  pub spec : ServarrAppSpec
  pub app_type : AppType
  pub member_tier : ℕ

abbrev members : AppType → List (String × ServarrAppSpec) → List Member
members app [] = []
members app ((name, spec) ∷ pairs) =
    record { child_name = name; spec = spec; app_type = spec.app; member_tier = tier app }
    ∷ members app pairs

-- The loop over the enabled apps; it ends at the first error.
unfoldable pub expand_all :
    String
    → String
    → Option StackDefaults
    → Option NfsServerSpec
    → List StackApp
    → Result String (List Member)
expand_all stack_name ns defaults nfs [] = ok []
expand_all stack_name ns defaults nfs (app ∷ apps) =
    let rest = expand_all stack_name ns defaults nfs apps in
    if app.enabled
    then (expand app stack_name ns defaults nfs >>= λ pairs.
        rest >>= λ later. ok (members app.app pairs ++ later))
    else rest

abbrev pub Tiers : Type 0
Tiers = List (ℕ × List Member)

-- `tiers.entry(tier).or_default().push(..)` on a map that is sorted by tier.
unfoldable pub push_tier : Member → Tiers → Tiers
push_tier m [] = (m.member_tier, m ∷ []) ∷ []
push_tier m ((t, ms) ∷ rest) =
    let later = push_tier m rest in
    if ltb m.member_tier t
    then (m.member_tier, m ∷ []) ∷ (t, ms) ∷ rest
    else if eqb m.member_tier t
    then (t, ms ++ m ∷ []) ∷ rest
    else (t, ms) ∷ later

unfoldable pub group_onto : Tiers → List Member → Tiers
unfolding push_tier
group_onto tiers [] = tiers
group_onto tiers (m ∷ ms) = group_onto (push_tier m tiers) ms

-- What the loop over the tiers keeps, with the children applied so far.
pub record Progress : Type 0 where
  pub app_statuses : List StackAppStatus
  pub ready_count : ℕ
  pub current_tier : Option ℕ
  pub all_previous_ready : Bool
  pub applied : List String

abbrev pub start : Progress
start = record {
  app_statuses = [];
  ready_count = 0;
  current_tier = none;
  all_previous_ready = true;
  applied = [];
}

abbrev tier_timeout_secs : ℕ
tier_timeout_secs = 300

abbrev nanos : ℕ
nanos = 1000000000

-- A tier that is skipped.
abbrev waiting : ℕ → Member → StackAppStatus
waiting t m = record {
  name = m.child_name;
  app_type = as_str m.app_type;
  tier = t;
  bypassed = false;
  ready = false;
  enabled = true;
}

-- A child that was applied; a bypass is cleared once it is ready.
abbrev observed : ℕ → Member → Bool → Bool → StackAppStatus
observed t m was_bypassed actual_ready = record {
  name = m.child_name;
  app_type = as_str m.app_type;
  tier = t;
  bypassed = was_bypassed && not actual_ready;
  ready = actual_ready;
  enabled = true;
}

abbrev bypass : StackAppStatus → StackAppStatus
bypass status =
    if not status.ready && not status.bypassed then record status { bypassed = true } else status

abbrev since_timed_out : Option ℕ → ℕ → Bool
since_timed_out none now = false
since_timed_out (some since) now = leb tier_timeout_secs ((now - since) / nanos)

abbrev parsed : (String → Option ℕ) → Option String → Option ℕ
parsed parse_from_rfc3339 none = none
parsed parse_from_rfc3339 (some s) = parse_from_rfc3339 s

module _ (apply : String → Option KubeError) (is_ready : String → Bool)
    (parse_from_rfc3339 : String → Option ℕ) (clock : ℕ → ℕ)
    (prev_tier_blocked_since : Option String) (prev_bypassed : List String) where
  -- Whether a timer of an earlier reconcile has run out when that tier is reached.
  unfoldable pub timed_out : ℕ → Bool
  timed_out t = since_timed_out (parsed parse_from_rfc3339 prev_tier_blocked_since) (clock t)

  -- The bookkeeping after the read-back of a child.
  note_app : ℕ → Member → Progress → Progress
  note_app t m p =
      let was_bypassed = contains m.child_name prev_bypassed in
      let actual_ready = is_ready m.child_name in
      record p {
        ready_count = if actual_ready then suc p.ready_count else p.ready_count;
        all_previous_ready =
            if not actual_ready && not was_bypassed then false else p.all_previous_ready;
        applied = p.applied ++ m.child_name ∷ [];
        app_statuses = p.app_statuses ++ observed t m was_bypassed actual_ready ∷ [];
      }

  -- The loop over the apps of a tier; a failed apply ends the reconcile.
  apply_apps : ℕ → List Member → Progress → Result KubeError Progress
  unfolding note_app
  apply_apps t [] p = ok p
  apply_apps t (m ∷ ms) p =
      let later = apply_apps t ms (note_app t m p) in
      elim (apply m.child_name) [ none ↦ later | some e ↦ err e ]

  step_tier : ℕ → List Member → Progress → Result KubeError Progress
  unfolding apply_apps timed_out
  step_tier t apps p =
      if ltb 0 t && not p.all_previous_ready
      then (if timed_out t
          then apply_apps t apps (record p {
            app_statuses = map bypass p.app_statuses;
            all_previous_ready = true;
            current_tier = some t;
          })
          else ok (record p { app_statuses = p.app_statuses ++ map (waiting t) apps }))
      else apply_apps t apps (record p { current_tier = some t })

  -- The loop over the tiers.
  unfoldable pub roll : Tiers → Progress → Result KubeError Progress
  unfolding step_tier
  roll [] p = ok p
  roll ((t, apps) ∷ tiers) p = step_tier t apps p >>= roll tiers

abbrev pub disabled_status : String → StackApp → StackAppStatus
disabled_status child_name app = record {
  name = child_name;
  app_type = as_str app.app;
  tier = tier app.app;
  bypassed = false;
  ready = false;
  enabled = false;
}

unfoldable pub compute_phase : ℕ → ℕ → Bool → StackPhase
compute_phase ready_count total_apps was_ready =
    if eqb total_apps 0
    then pending
    else if eqb ready_count total_apps
    then ready_phase
    else if was_ready && ltb ready_count total_apps
    then degraded
    else if ltb 0 ready_count
    then rolling_out
    else pending

abbrev same_tier : Option ℕ → Option ℕ → Bool
same_tier none none = true
same_tier (some a) (some b) = eqb a b
same_tier _ _ = false

unfoldable pub compute_blocked_since :
    Progress → ℕ → Option ℕ → Option String → String → Option String
compute_blocked_since p total_apps prev_current_tier prev_tier_blocked_since now =
    if eqb p.ready_count total_apps
    then none
    else if not (same_tier p.current_tier prev_current_tier)
    then some now
    else if not p.all_previous_ready
    then or_option prev_tier_blocked_since (some now)
    else none
