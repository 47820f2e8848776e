-- ===== src/Main.antt =====
-- src/main.cpp: the settings that `main` makes of the options, and its refusals (exit code 1). The
-- options are as Boost parsed them, with its defaults put in; an option without a default may be
-- missing. A refusal has the first line of its message.
pub mod Modes
pub mod CommandLine
pub mod Run
pub mod Threads
pub mod Books
pub mod Exit
pub mod Idle
pub mod Shutdown
use port_forward_x.Prelude.{
  ℕ, ◌%◌, ◌^◌, Bool, true, false, ◌||◌, ◌++◌, Option, none, some, ltb, if◌then◌else◌, Text, codes,
  text_eq, to_text, lowered,
}
use port_forward_x.Config.{
  ForwardConfig, default_config, AddressFamilyPreference, auto, ipv4_only, ipv6_only, is_auto,
}
use port_forward_x.Config.Names.{parse_address_family}

pub record Options : Type 0 where
  pub mode : Text
  pub protocol : Text
  pub family : Text
  pub dns_refresh_min : ℕ
  pub udp_idle_timeout_sec : ℕ
  pub udp_debug : Bool
  pub listen_host : Text
  pub listen_port : Option ℕ
  pub target_host : Option Text
  pub target_port : Option ℕ
  pub public_listen_host : Text
  pub public_listen_port : Option ℕ
  pub lan_target_host : Text
  pub lan_target_port : Option ℕ
  pub local_listen_host : Text
  pub local_listen_port : Option ℕ
  pub server_ipv6_host : Option Text
  pub server_port : Option ℕ

pub data Checked (A : Type 0) : Type 0 where
  refused : Text → Checked A
  taken : A → Checked A

infixl 5 ◌>>=◌
abbrev pub ◌>>=◌ : {A B : Type 0} → Checked A → (A → Checked B) → Checked B
◌>>=◌ (refused message) f = refused message
◌>>=◌ (taken a) f = f a

abbrev pub missing : {A : Type 0} → Text → Checked A
missing key = refused (codes "Missing required argument: --" ++ key)

abbrev pub in_range : Text → ℕ → Checked ℕ
in_range key raw =
    if ltb 65535 raw
    then refused (
        codes "Invalid value for --"
        ++ (key ++ (codes ": " ++ (to_text raw ++ codes " (must be within [0, 65535])."))))
    else taken raw

-- `parse_port`
unfoldable pub parse_port : Text → Option ℕ → Checked ℕ
parse_port key none = missing key
parse_port key (some raw) = in_range key raw

abbrev pub require_host : Text → Option Text → Checked Text
require_host key none = missing key
require_host key (some host) = taken host

-- `static_cast<std::uint16_t>(raw)`
abbrev pub to_port : ℕ → ℕ
to_port raw = raw % 2 ^ 16

abbrev pub family_or : AddressFamilyPreference → AddressFamilyPreference → AddressFamilyPreference
family_or preference other = if is_auto preference then other else preference

unfoldable pub custom_config :
    Options → AddressFamilyPreference → ForwardConfig → Checked ForwardConfig
unfolding parse_port
custom_config o preference config = do
  listen_port_raw ← parse_port (codes "listen-port") o.listen_port
  target_port_raw ← parse_port (codes "target-port") o.target_port
  target_host ← require_host (codes "target-host") o.target_host
  taken (record config {
    listen_host = o.listen_host;
    listen_port = to_port listen_port_raw;
    target_host = target_host;
    target_port = to_port target_port_raw;
    listen_family = preference;
    target_family = preference;
  })

unfoldable pub server_config :
    Options → AddressFamilyPreference → ForwardConfig → Checked ForwardConfig
unfolding parse_port
server_config o preference config = do
  listen_port_raw ← parse_port (codes "public-listen-port") o.public_listen_port
  target_port_raw ← parse_port (codes "lan-target-port") o.lan_target_port
  taken (record config {
    listen_host = o.public_listen_host;
    listen_port = to_port listen_port_raw;
    target_host = o.lan_target_host;
    target_port = to_port target_port_raw;
    listen_family = family_or preference ipv6_only;
    target_family = auto;
  })

unfoldable pub client_config :
    Options → AddressFamilyPreference → ForwardConfig → Checked ForwardConfig
unfolding parse_port
client_config o preference config = do
  listen_port_raw ← parse_port (codes "local-listen-port") o.local_listen_port
  target_port_raw ← parse_port (codes "server-port") o.server_port
  target_host ← require_host (codes "server-ipv6-host") o.server_ipv6_host
  taken (record config {
    listen_host = o.local_listen_host;
    listen_port = to_port listen_port_raw;
    target_host = target_host;
    target_port = to_port target_port_raw;
    listen_family = ipv4_only;
    target_family = family_or preference ipv6_only;
  })

unfoldable pub mode_config :
    Options → AddressFamilyPreference → ForwardConfig → Checked ForwardConfig
unfolding custom_config server_config client_config
mode_config o preference config =
    if text_eq o.mode (codes "custom")
    then custom_config o preference config
    else if text_eq o.mode (codes "server")
    then server_config o preference config
    else if text_eq o.mode (codes "client")
    then client_config o preference config
    else refused
        (codes "Invalid run mode: " ++ (o.mode ++ codes " (expected one of: custom|server|client)"))

-- What `main` goes on with: the settings, and for which protocols a forwarder is started.
pub record Setup : Type 0 where
  pub config : ForwardConfig
  pub enable_tcp : Bool
  pub enable_udp : Bool

abbrev pub with_protocol : Options → Text → ForwardConfig → Checked Setup
with_protocol o protocol_input config =
    let both = text_eq protocol_input (codes "both") in
    let enable_tcp = text_eq protocol_input (codes "tcp") || both in
    let enable_udp = text_eq protocol_input (codes "udp") || both in
    if enable_tcp || enable_udp
    then taken (record {
      config = record config {
        dns_refresh_interval_minutes = o.dns_refresh_min;
        udp_session_idle_timeout_seconds = o.udp_idle_timeout_sec;
        udp_debug = o.udp_debug;
      };
      enable_tcp = enable_tcp;
      enable_udp = enable_udp;
    })
    else refused (
        codes "Invalid value for --protocol: "
        ++ (protocol_input ++ codes " (expected one of: tcp|udp|both)"))

unfoldable pub configure : Options → Checked Setup
unfolding mode_config parse_address_family
configure o =
    let preference = parse_address_family o.family in
    mode_config o preference (record default_config { family = preference })
    >>= with_protocol o (lowered o.protocol)
