-- ===== src/Webhook/Schedule.antt =====
-- `normalize_backup_schedule` of crates/servarr-operator/src/controller.rs.
pub mod Laws
use servarr_operator.Prelude.{String, ◌⧺◌, eqb, length, if◌then◌else◌}
use servarr_operator.Prelude.Chars.{trim, split_whitespace}

unfoldable pub normalize_backup_schedule : String → String
unfolding trim split_whitespace ◌⧺◌
normalize_backup_schedule expr =
    let trimmed = trim expr in
    if eqb (length (split_whitespace trimmed)) 5 then "0 " ⧺ trimmed else trimmed
