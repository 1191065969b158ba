-- ===== src/Crds/Stack/Status.antt =====
-- The status of a media stack: crates/servarr-crds/src/v1alpha1/media_stack.rs.
use servarr_operator.Prelude.{ℕ, String, Bool, Option, List}
use servarr_operator.Prelude.Int.{ℤ}
use servarr_operator.Crds.Condition.{Condition, put_condition}

pub data StackPhase : Type 0 where
  pending rolling_out ready_phase degraded : StackPhase

pub record StackAppStatus : Type 0 where
  pub name : String
  pub app_type : String
  pub tier : ℕ  -- u8
  pub bypassed : Bool
  pub ready : Bool
  pub enabled : Bool

-- The counts are `i32`s that are never negative.
pub record MediaStackStatus : Type 0 where
  pub ready : Bool
  pub phase : StackPhase
  pub current_tier : Option ℕ
  pub total_apps : ℕ
  pub ready_apps : ℕ
  pub app_statuses : List StackAppStatus
  pub conditions : List Condition
  pub observed_generation : ℤ
  pub tier_blocked_since : Option String

-- The body is that of `ServarrAppStatus::set_condition`.
unfoldable pub set_stack_condition : Condition → MediaStackStatus → MediaStackStatus
set_stack_condition cond self = record self { conditions = put_condition cond self.conditions }
