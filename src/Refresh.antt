-- ===== src/Refresh.antt =====
-- src/net/forwarder.cpp: `Impl::ResolverLoop`, the thread that resolves the target again. A round of
-- its loop is a function; the thread makes rounds of 200 ms until it reads that the forwarder has
-- stopped.
pub mod Interval
pub mod Period
use port_forward_x.Prelude.{
  ℕ, zero, suc, ◌+◌, ◌*◌, ◌%◌, ◌^◌, Bool, List, ◌++◌, Option, some, ◌==◌, ltb, if◌then◌else◌, Text,
  codes, to_text,
}
use port_forward_x.Config.{ForwardConfig}
use port_forward_x.System.{Os, Sys}
use port_forward_x.System.Calls.{◌>>=◌, ◌>>◌, pure, print}
use port_forward_x.Endpoint.{ResolvedEndpoint, format_resolved_endpoint_list}
use port_forward_x.Platform.{text_of}
use port_forward_x.Targets.{Resolved, resolve_target_endpoints}

-- `std::this_thread::sleep_for` of a round
abbrev pub tick_ms : ℕ
tick_ms = 200

-- The interval in milliseconds: the product is of type `uint32_t`, and wraps.
unfoldable pub refresh_interval_ms : ℕ → ℕ
refresh_interval_ms minutes = (if minutes == 0 then 10 else minutes) * 60 % 2 ^ 32 * 1000 % 2 ^ 32

pub record RefreshState : Type 0 where
  pub elapsed : ℕ
  pub target_endpoints : List ResolvedEndpoint

-- The line that is printed after a resolution.
unfoldable pub refresh_message : ForwardConfig → Resolved → Text
refresh_message config r =
    let target = config.target_host ++ (codes ":" ++ to_text config.target_port) in
    if r.ok
    then codes "[dns] refresh ok: "
      ++ (target ++ (codes " -> " ++ format_resolved_endpoint_list r.target_endpoints))
    else codes "[dns] refresh failed for " ++ (target ++ (codes ", reason=" ++ text_of r.error))

module _ ⦃os : Os⦄ where
  -- The rest of a round once the interval has passed.
  unfoldable pub refresh : ForwardConfig → List ResolvedEndpoint → Sys RefreshState
  unfolding resolve_target_endpoints refresh_message
  refresh config endpoints = do
    r ← resolve_target_endpoints config endpoints (some (codes ""))
    print (refresh_message config r)
    pure (record { elapsed = 0; target_endpoints = r.target_endpoints })

  -- A round in which both reads of `running_` give true.
  unfoldable pub resolver_round : ForwardConfig → RefreshState → Sys RefreshState
  unfolding refresh
  resolver_round config s =
      if ltb (s.elapsed + tick_ms) (refresh_interval_ms config.dns_refresh_interval_minutes)
      then pure (record s { elapsed = s.elapsed + tick_ms })
      else refresh config s.target_endpoints

  unfoldable pub resolver_rounds : ℕ → ForwardConfig → RefreshState → Sys RefreshState
  resolver_rounds zero config s = pure s
  resolver_rounds (suc n) config s = resolver_round config s >>= resolver_rounds n config
