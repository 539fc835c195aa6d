-- ===== src/Schedule/Intervals.antt =====
-- The arithmetic of NextInterval.
use agent_chun_su.Base.{ℕ, ◌+◌, ◌*◌, ◌≤◌, ◌<◌, ◌≡◌, arith}
use agent_chun_su.Schedule.{Schedule, next_interval}

-- The next run is the first point of the schedule's grid after the given time: it lies after it, by
-- at most an interval if the schedule was due, and as many whole intervals as are counted as missed
-- lie between the due time and it.
pub next_interval_lem :
    (s : Schedule) (at : ℕ)
    → 0 < s.interval_ms
    → s.next_run_at ≤ at
    → (at < (next_interval s at).0)
      × ((next_interval s at).0 ≤ at + s.interval_ms)
      × ((next_interval s at).0 ≡ s.next_run_at + ((next_interval s at).1 + 1) * s.interval_ms)
unfolding next_interval
next_interval_lem s at positive due = ground arith

next_interval-early :
    (s : Schedule) (at : ℕ) → at < s.next_run_at → next_interval s at ≡ (s.next_run_at, 0)
unfolding next_interval
next_interval-early s at early = ground arith
