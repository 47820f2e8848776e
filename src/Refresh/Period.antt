-- ===== src/Refresh/Period.antt =====
-- When the target is resolved again.
use port_forward_x.Prelude.{List, ℕ, zero, suc, ◌+◌, ◌*◌, ◌/◌, ◌<◌, ◌≡◌, arith, ltb, if◌then◌else◌}
use port_forward_x.Config.{ForwardConfig}
use port_forward_x.System.{Os, Trace}
use port_forward_x.Endpoint.{ResolvedEndpoint}
use port_forward_x.Refresh.{RefreshState, refresh_interval_ms, resolver_round, resolver_rounds}

-- The rounds from one resolution to the next: the interval in rounds of 200 ms, rounded up, and one
-- at least.
abbrev pub period : ForwardConfig → ℕ
period config =
    let interval = refresh_interval_ms config.dns_refresh_interval_minutes in
    if ltb 200 interval then (interval + 199) / 200 else 1

module _ ⦃os : Os⦄ (config : ForwardConfig) (endpoints : List ResolvedEndpoint) (t : Trace) where
  abbrev at : ℕ → RefreshState
  at k = record { elapsed = 200 * k; target_endpoints = endpoints }

  quiet_round : (k : ℕ) → k + 1 < period config → resolver_round config (at k) t ≡ (at (k + 1), t)
  unfolding resolver_round
  quiet_round k h = ground arith

  quiet_rounds :
      (n k : ℕ) → k + n < period config → resolver_rounds n config (at k) t ≡ (at (k + n), t)
  unfolding resolver_rounds
  quiet_rounds zero k h = ground arith
  quiet_rounds (suc n) k h =
      rw (quiet_round k (omega arith)) (ground (arith, quiet_rounds n (k + 1) (omega arith)))

  -- After a resolution, rounds before the end of the period make no call and change only the elapsed
  -- time, which is 200 ms for each.
  pub resolver_rounds_quiet :
      (n : ℕ) → n < period config → resolver_rounds n config (at 0) t ≡ (at n, t)
  resolver_rounds_quiet n h = ground (arith, quiet_rounds n 0 (omega arith))
