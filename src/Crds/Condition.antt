-- ===== src/Crds/Condition.antt =====
-- Conditions and the status of an app: crates/servarr-crds/src/v1alpha1/status.rs.
pub mod Laws
use servarr_operator.Prelude.{
  ℕ, String, Bool, true, false, Option, List, [], ◌∷◌, ◌++◌, ◌==◌, any, if◌then◌else◌,
}
use servarr_operator.Prelude.Int.{ℤ}

pub record Condition : Type 0 where
  pub condition_type : String
  pub status : String
  pub reason : String
  pub message : String
  pub last_transition_time : String

pub record BackupStatus : Type 0 where
  pub last_backup_time : Option String
  pub last_backup_result : Option String
  pub backup_count : ℕ

pub record ServarrAppStatus : Type 0 where
  pub ready : Bool
  pub ready_replicas : ℤ
  pub observed_generation : ℤ
  pub conditions : List Condition
  pub backup_status : Option BackupStatus

-- `Condition::ok`, `Condition::fail` and `Condition::unknown`; a message is already its text.
unfoldable pub ok_condition : String → String → String → String → Condition
ok_condition condition_type reason message now = record {
  condition_type = condition_type;
  status = "True";
  reason = reason;
  message = message;
  last_transition_time = now;
}

unfoldable pub fail_condition : String → String → String → String → Condition
fail_condition condition_type reason message now = record {
  condition_type = condition_type;
  status = "False";
  reason = reason;
  message = message;
  last_transition_time = now;
}

unfoldable pub unknown_condition : String → String → String → String → Condition
unknown_condition condition_type reason message now = record {
  condition_type = condition_type;
  status = "Unknown";
  reason = reason;
  message = message;
  last_transition_time = now;
}

-- `iter_mut().find(..)` with the condition found overwritten; the first one of the type.
overwrite : Condition → List Condition → List Condition
overwrite cond [] = []
overwrite cond (c ∷ cs) =
    if c.condition_type == cond.condition_type then cond ∷ cs else c ∷ overwrite cond cs

abbrev pub has_type : String → List Condition → Bool
has_type condition_type cs = any (λ c. c.condition_type == condition_type) cs

unfoldable pub put_condition : Condition → List Condition → List Condition
unfolding overwrite
put_condition cond conditions =
    if has_type cond.condition_type conditions
    then overwrite cond conditions
    else conditions ++ cond ∷ []

unfoldable pub set_condition : Condition → ServarrAppStatus → ServarrAppStatus
unfolding put_condition
set_condition cond self = record self { conditions = put_condition cond self.conditions }
