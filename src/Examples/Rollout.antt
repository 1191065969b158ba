-- ===== src/Examples/Rollout.antt =====
-- The theorems on the rollout of a media stack at concrete inputs.
use servarr_operator.Prelude.{
  ℕ, String, ◌≡◌, ◌≤◌, ◌↔◌, refl, Bool, true, false, Option, none, some, List, [], ◌∷◌, ◌==◌, all,
  contains, length, map, filter, ok,
}
use servarr_operator.Crds.AppType.{AppType, sonarr, transmission, tier, as_str}
use servarr_operator.Crds.Stack.Status.{StackAppStatus, ready_phase}
use servarr_operator.Stack.Kube.{KubeError}
use servarr_operator.Stack.Rollout.{
  Member, Progress, start, timed_out, roll, group_onto, compute_phase,
}
use servarr_operator.Stack.Rollout.Laws.{names, open_tiers, roll_gated, roll_timed_out}
use servarr_operator.Stack.Rollout.Statuses.{status_name, is_ready_status, ready_names}
use servarr_operator.Stack.Rollout.Phase.{roll_phase}
use servarr_operator.Examples.Data.{spec_of, parse}

abbrev member : String → AppType → Member
member name app = record {
  child_name = name;
  spec = spec_of app none none;
  app_type = app;
  member_tier = tier app;
}

abbrev wanted : List Member
wanted = member "stack-sonarr" sonarr ∷ member "stack-transmission" transmission ∷ []

abbrev accepted : String → Option KubeError
accepted name = none

-- Only the Sonarr is ready.
abbrev is_ready : String → Bool
is_ready name = name == "stack-sonarr"

abbrev clock : ℕ → ℕ
clock t = 400000000000

abbrev app_status : String → AppType → Bool → StackAppStatus
app_status name app ready = record {
  name = name;
  app_type = as_str app;
  tier = tier app;
  bypassed = false;
  ready = ready;
  enabled = true;
}

-- The rollout that waits for the Transmission.
abbrev held : Progress
held = record {
  app_statuses =
      app_status "stack-transmission" transmission false
      ∷ app_status "stack-sonarr" sonarr false
      ∷ [];
  ready_count = 0;
  current_tier = some 1;
  all_previous_ready = false;
  applied = "stack-transmission" ∷ [];
}

-- The rollout after the timeout.
abbrev advanced : Progress
advanced = record {
  app_statuses =
      record (app_status "stack-transmission" transmission false) { bypassed = true }
      ∷ app_status "stack-sonarr" sonarr true
      ∷ [];
  ready_count = 1;
  current_tier = some 2;
  all_previous_ready = true;
  applied = "stack-transmission" ∷ "stack-sonarr" ∷ [];
}

on_time : (t : ℕ) → timed_out accepted is_ready parse clock none [] t ≡ false
unfolding timed_out
on_time t = refl

late : (t : ℕ) → timed_out accepted is_ready parse clock (some "t1") [] t ≡ true
unfolding timed_out
late t = refl

held_run : roll accepted is_ready parse clock none [] (group_onto [] wanted) start ≡ ok held
unfolding roll timed_out group_onto tier contains
held_run = refl

advanced_run :
    roll accepted is_ready parse clock (some "t1") [] (group_onto [] wanted) start ≡ ok advanced
unfolding roll timed_out group_onto tier contains
advanced_run = refl

roll_gated_example :
    held.applied ≡ names (open_tiers accepted is_ready parse clock none [] (group_onto [] wanted))
roll_gated_example = roll_gated accepted is_ready parse clock none [] wanted held on_time held_run

roll_timed_out_example : advanced.applied ≡ names (group_onto [] wanted)
roll_timed_out_example =
    roll_timed_out accepted is_ready parse clock (some "t1") [] wanted advanced late advanced_run

roll_phase_example :
    (map status_name advanced.app_statuses ≡ names (group_onto [] wanted))
    × (ready_names advanced.app_statuses ≡ filter is_ready advanced.applied)
    × ((compute_phase advanced.ready_count (length (names (group_onto [] wanted))) false
          ≡ ready_phase)
        ↔ ((1 ≤ length (names (group_onto [] wanted)))
            × (all is_ready_status advanced.app_statuses ≡ true)))
roll_phase_example =
    roll_phase accepted is_ready parse clock (some "t1") [] (group_onto [] wanted) advanced false
      advanced_run
