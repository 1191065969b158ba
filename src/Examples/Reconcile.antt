-- ===== src/Examples/Reconcile.antt =====
-- The theorem on the reconcile of a media stack at a concrete input.
use servarr_operator.Prelude.{◌≡◌, ◌⊎◌, refl, none, some, List, [], ◌∷◌, ◌==◌, ok}
use servarr_operator.Prelude.Int.{pos}
use servarr_operator.Prelude.Repeats.{find_repeat}
use servarr_operator.Prelude.IndexMap.{lookup, insert}
use servarr_operator.Crds.AppType.{as_str, tier}
use servarr_operator.Crds.Stack.{child_name, split4k_valid}
use servarr_operator.Crds.Stack.Expand.{expand}
use servarr_operator.Stack.Rollout.{Member, expand_all, roll, group_onto}
use servarr_operator.Stack.Reconcile.{MediaStack, World, Outcome, effective_nfs, reconcile}
use servarr_operator.Stack.Reconcile.Laws.{IsRefused, IsRollout, reconcile_lem}
use servarr_operator.Examples.Data.{parse, image_defaults}
use servarr_operator.Examples.Stack.{stack_app, nfs, child, cluster}

-- One Radarr with its 4K instance, beside a child that is not wanted any more.
abbrev stack : MediaStack
stack = record {
  name = "stack";
  namespace = "media";
  nfs = some nfs;
  defaults = none;
  apps = stack_app ∷ [];
  generation = some (pos 3);
  status = none;
}

abbrev world : World
world = record {
  cluster = cluster;
  existing = ok (child "stack-radarr" ∷ child "stack-old" ∷ []);
  apply = λ name. none;
  is_ready = λ name. name == "stack-radarr";
  patch_status = none;
  clock = λ t. 400000000000;
  now = "t2";
}

run : (o : Outcome) × (reconcile image_defaults parse stack world (ok none) ≡ ok o)
unfolding reconcile expand split4k_valid find_repeat lookup insert child_name as_str roll group_onto
    tier
run = (_, refl)

reconcile_example :
    IsRefused run.0
    ⊎ ((ms : List Member) × (expand_all "stack" "media" none
            (effective_nfs (some nfs) none)
            (stack_app ∷ [])
          ≡ ok ms)
        × IsRollout image_defaults parse stack world ms run.0)
reconcile_example = reconcile_lem image_defaults parse stack world none run.0 run.1
