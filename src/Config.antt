-- ===== src/Config.antt =====
-- include/portforwardx/net/forward_config.hpp: the enumerations and the record of settings, and
-- from src/net/forwarder.cpp the reading and writing of their names and the choice of families.
pub mod Names
pub mod Families
use port_forward_x.Prelude.{ℕ, Bool, true, false, Text, [], codes}

pub data TransportProtocol : Type 0 where
  tcp udp : TransportProtocol

pub data AddressFamilyPreference : Type 0 where
  auto ipv4_only ipv6_only : AddressFamilyPreference

-- Ports are `uint16_t`, the interval and the time-out `uint32_t`; the backlog is an `int` that the
-- program leaves at 128.
pub record ForwardConfig : Type 0 where
  pub listen_host : Text
  pub listen_port : ℕ
  pub target_host : Text
  pub target_port : ℕ
  pub protocol : TransportProtocol
  pub family : AddressFamilyPreference
  pub listen_family : AddressFamilyPreference
  pub target_family : AddressFamilyPreference
  pub dns_refresh_interval_minutes : ℕ
  pub udp_session_idle_timeout_seconds : ℕ
  pub udp_debug : Bool
  pub backlog : ℕ

-- The defaults of the member initialisers.
abbrev pub default_config : ForwardConfig
default_config = record {
  listen_host = codes "::";
  listen_port = 0;
  target_host = [];
  target_port = 0;
  protocol = tcp;
  family = auto;
  listen_family = auto;
  target_family = auto;
  dns_refresh_interval_minutes = 10;
  udp_session_idle_timeout_seconds = 300;
  udp_debug = false;
  backlog = 128;
}

-- `a == auto`
abbrev pub is_auto : AddressFamilyPreference → Bool
is_auto auto = true
is_auto _ = false

-- `protocol == TransportProtocol::kUdp`
abbrev pub is_udp : TransportProtocol → Bool
is_udp udp = true
is_udp tcp = false
