-- ===== src/Builtins/TimeRange.antt =====
-- The time range as a set of minutes of the day.
use ko_rkuma.Prelude.{ℕ, ◌+◌, ◌-◌, ◌%◌, ◌<◌, ◌≤◌, true, ◌≡◌, ◌↔◌, arith}
use ko_rkuma.Domain.{Event}
use ko_rkuma.Builtins.{event_utc_minutes, in_range}

-- The clock of the constraint shows a minute of a day.
pub event_utc_minutes-bound : (event : Event) → event_utc_minutes event < 1440
unfolding event_utc_minutes
event_utc_minutes-bound event = omega arith

-- A minute of the day is in a range exactly when the way from the start of the range to it, counted
-- forward around the clock, is no longer than the way from the start to the end. The range may
-- wrap around midnight, and both of its ends belong to it.
pub in_range_iff :
    (from_min to_min : ℕ) (event : Event)
    → from_min < 1440
    → to_min < 1440
    → (in_range from_min to_min (event_utc_minutes event) ≡ true)
      ↔ ((event_utc_minutes event + 1440 - from_min) % 1440 ≤ (to_min + 1440 - from_min) % 1440)
unfolding in_range
in_range_iff from_min to_min event f t =
    let bound = event_utc_minutes-bound event in ground (arith, f, t, bound)
