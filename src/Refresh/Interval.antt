-- ===== src/Refresh/Interval.antt =====
-- The interval between two resolutions, and where its computation wraps.
use port_forward_x.Prelude.{ℕ, ◌*◌, ◌^◌, ◌≤◌, ◌<◌, ◌≡◌, refl, ◌==◌, arith, if◌then◌else◌}
use port_forward_x.Refresh.{refresh_interval_ms}

-- Up to 71582 minutes the interval is the given number of minutes in milliseconds, with 10 minutes
-- for 0.
pub refresh_interval_exact :
    (minutes : ℕ)
    → minutes ≤ 71582
    → refresh_interval_ms minutes ≡ 60000 * (if minutes == 0 then 10 else minutes)
unfolding refresh_interval_ms
refresh_interval_exact minutes h = ground arith

-- For more than 71582 minutes the interval falls short of the given minutes: the product wraps.
pub refresh_interval_wraps :
    (minutes : ℕ) → 71582 < minutes → refresh_interval_ms minutes < 60000 * minutes
unfolding refresh_interval_ms
refresh_interval_wraps minutes h = ground arith

-- With 2 ^ 27 minutes the interval is 0: the target is resolved in every round.
refresh_interval_zero : refresh_interval_ms (2 ^ 27) ≡ 0
unfolding refresh_interval_ms
refresh_interval_zero = refl
