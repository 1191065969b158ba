-- ===== src/Throttle.antt =====
-- crates/servarr-operator/src/controller/health_throttle.rs. `chrono` is a parameter: the parser
-- of timestamps, with an instant counted in nanoseconds from the earliest one.
pub mod Laws
use servarr_operator.Prelude.{
  ℕ, ◌*◌, ◌-◌, String, Bool, true, false, not, Option, none, some, ◌==◌, ltb, unwrap_or,
  if◌then◌else◌,
}
use servarr_operator.Crds.Condition.{Condition}

pub data CorruptTimestampPolicy : Type 0 where
  fail_open fail_closed : CorruptTimestampPolicy

-- `policy == CorruptTimestampPolicy::FailClosed`
abbrev is_fail_closed : CorruptTimestampPolicy → Bool
is_fail_closed fail_open = false
is_fail_closed fail_closed = true

abbrev pub default_health_check_interval_seconds : ℕ
default_health_check_interval_seconds = 60

abbrev pub nanos : ℕ
nanos = 1000000000

-- The comparison after both timestamps were parsed. The subtraction is exact where it is read.
abbrev within_window : Option ℕ → Option ℕ → ℕ → CorruptTimestampPolicy → Bool
within_window (some last) (some current) interval policy =
    if ltb current last then false else ltb (current - last) (interval * nanos)
within_window _ _ interval policy = is_fail_closed policy

module _ (parse_from_rfc3339 : String → Option ℕ) where
  unfoldable pub is_within_poll_window :
      Condition → Option ℕ → String → CorruptTimestampPolicy → Bool
  is_within_poll_window existing interval_seconds now policy =
      within_window (parse_from_rfc3339 existing.last_transition_time) (parse_from_rfc3339 now)
        (unwrap_or interval_seconds default_health_check_interval_seconds) policy

  unfoldable pub is_health_poll_throttled :
      Option Condition → Option ℕ → String → CorruptTimestampPolicy → Bool
  unfolding is_within_poll_window
  is_health_poll_throttled none interval_seconds now policy = false
  is_health_poll_throttled (some existing) interval_seconds now policy =
      if not (existing.status == "True")
      then false
      else is_within_poll_window existing interval_seconds now policy

  unfoldable pub is_destructive_poll_throttled : Option Condition → Option ℕ → String → Bool
  unfolding is_within_poll_window
  is_destructive_poll_throttled none interval_seconds now = false
  is_destructive_poll_throttled (some existing) interval_seconds now =
      is_within_poll_window existing interval_seconds now fail_closed
