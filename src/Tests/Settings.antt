-- ===== src/Tests/Settings.antt =====
-- The theorems on the settings and on the refresh of the target at concrete inputs.
use port_forward_x.Prelude.{
  ◌*◌, ◌<◌, ◌≡◌, [], ◌∷◌, some, ◌&&◌, ◌==◌, map, arith, to_upper, if◌then◌else◌,
}
use port_forward_x.Config.{ForwardConfig, default_config, is_auto, ipv4_only, ipv6_only, udp}
use port_forward_x.Config.Names.{
  parse_address_family, address_family_to_string, parse_transport_protocol,
  transport_protocol_to_string, parse-print,
}
use port_forward_x.Config.Families.{
  effective_listen_family, effective_target_family, effective_families,
}
use port_forward_x.Targets.{resolve_target_endpoints}
use port_forward_x.Targets.Kept.{resolve_target_endpoints-Keeps, Keeps}
use port_forward_x.Refresh.{refresh_interval_ms, resolver_rounds}
use port_forward_x.Refresh.Interval.{refresh_interval_exact, refresh_interval_wraps}
use port_forward_x.Refresh.Period.{resolver_rounds_quiet}
use port_forward_x.Tests.Machine.{machine}
use port_forward_x.Tests.Network.{v4}

parse-print_example :
    (parse_address_family (address_family_to_string ipv6_only) ≡ ipv6_only)
    × (parse_address_family (map to_upper (address_family_to_string ipv6_only)) ≡ ipv6_only)
    × (parse_transport_protocol (transport_protocol_to_string udp) ≡ udp)
    × (parse_transport_protocol (map to_upper (transport_protocol_to_string udp)) ≡ udp)
parse-print_example = parse-print ipv6_only udp

abbrev client_config : ForwardConfig
client_config = record default_config { listen_family = ipv4_only; target_family = ipv6_only }

effective_families_example :
    (effective_listen_family client_config ≡ (
      if is_auto client_config.listen_family && is_auto client_config.target_family
      then client_config.family
      else client_config.listen_family))
    × (effective_target_family client_config ≡ (
        if is_auto client_config.listen_family && is_auto client_config.target_family
        then client_config.family
        else client_config.target_family))
effective_families_example = effective_families client_config

resolve_target_endpoints-Keeps_example :
    Keeps
      (v4 ∷ [])
      (some [])
      (resolve_target_endpoints ⦃os = machine⦄ client_config (v4 ∷ []) (some []) []).0
resolve_target_endpoints-Keeps_example =
    resolve_target_endpoints-Keeps ⦃os = machine⦄ client_config (v4 ∷ []) (some []) []

refresh_interval_exact_example : refresh_interval_ms 15 ≡ 60000 * (if 15 == 0 then 10 else 15)
refresh_interval_exact_example = refresh_interval_exact 15 (omega arith)

refresh_interval_wraps_example : refresh_interval_ms 71583 < 60000 * 71583
refresh_interval_wraps_example = refresh_interval_wraps 71583 (omega arith)

resolver_rounds_quiet_example :
    resolver_rounds ⦃os = machine⦄ 7 client_config
      (record { elapsed = 0; target_endpoints = v4 ∷ [] })
      []
    ≡ (record { elapsed = 1400; target_endpoints = v4 ∷ [] }, [])
unfolding refresh_interval_ms
resolver_rounds_quiet_example =
    resolver_rounds_quiet ⦃os = machine⦄ client_config (v4 ∷ []) [] 7 (omega arith)
