-- ===== src/Throttle/Laws.antt =====
-- When the two gates of crates/servarr-operator/src/controller/health_throttle.rs hold a poll back.
use servarr_operator.Prelude.{
  ℕ, ◌+◌, ◌*◌, ◌≤◌, ◌<◌, String, ◌≡◌, ◌↔◌, inl, inr, true, false, Option, some, ◌==◌, eq_iff, arith,
  not, ltb, ◌-◌, sym, ◌∙◌, unwrap_or, Bool-cases, if◌then◌else◌,
}
use mathlib.Core.Bool.{false≢true}
use servarr_operator.Crds.Condition.{Condition}
use servarr_operator.Throttle.{
  CorruptTimestampPolicy, default_health_check_interval_seconds, nanos, is_within_poll_window,
  is_health_poll_throttled, is_destructive_poll_throttled,
}

-- The window of the code, by the two instants: the last transition is not in the future, and less
-- than the interval has passed since, where an unset interval is the default of 60 seconds.
abbrev pub InWindow : ℕ → ℕ → Option ℕ → Type 0
InWindow last current interval =
    (last ≤ current)
    × (current < last + unwrap_or interval default_health_check_interval_seconds * nanos)

window_iff :
    (last current w : ℕ)
    → ((if ltb current last then false else ltb (current - last) w) ≡ true)
      ↔ ((last ≤ current) × (current < last + w))
window_iff last current w = (λ h. (ground arith, ground arith), λ h. ground arith)

gated_iff :
    (status : String) (last current w : ℕ)
    → ((if not (status == "True")
          then false
          else if ltb current last
          then false
          else ltb (current - last) w)
        ≡ true)
      ↔ ((status ≡ "True") × ((last ≤ current) × (current < last + w)))
gated_iff status last current w = elim (Bool-cases (status == "True")) [
  | inl e ↦ rw e (
    λ h. ((eq_iff status "True").0 e, (window_iff last current w).0 h),
    λ h. (window_iff last current w).1 h.1,
  )
  | inr e ↦
      rw e (
        λ h. absurd (false≢true h),
        λ h. absurd (false≢true (sym e ∙ (eq_iff status "True").1 h.0)),
      )
]

module _ (parse_from_rfc3339 : String → Option ℕ) (existing : Condition) (interval : Option ℕ)
    (now : String) where
  -- With both timestamps readable, the destructive pass is held back exactly inside the window,
  -- whatever the status of the condition, and the read-only poll exactly inside the window of a
  -- condition with status `True`, under either policy. An unset interval counts as 60 seconds.
  pub throttled_iff_InWindow :
      (last current : ℕ) (policy : CorruptTimestampPolicy)
      → parse_from_rfc3339 existing.last_transition_time ≡ some last
      → parse_from_rfc3339 now ≡ some current
      → ((is_destructive_poll_throttled parse_from_rfc3339 (some existing) interval now ≡ true)
          ↔ InWindow last current interval)
        × ((is_health_poll_throttled parse_from_rfc3339 (some existing) interval now policy ≡ true)
            ↔ ((existing.status ≡ "True") × InWindow last current interval))
  unfolding is_health_poll_throttled is_destructive_poll_throttled
  throttled_iff_InWindow last current policy l c =
      rw (l, c, is_within_poll_window)
        (
          window_iff last current
              (unwrap_or interval default_health_check_interval_seconds * nanos),
          gated_iff existing.status last current
              (unwrap_or interval default_health_check_interval_seconds * nanos),
        )
