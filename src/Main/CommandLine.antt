-- ===== src/Main/CommandLine.antt =====
-- src/main.cpp: the command line as `boost::program_options` gives it back, and the defaults that `main`
-- declares for the options.
use port_forward_x.Prelude.{ℕ, Bool, Option, none, some, Text, codes}
use port_forward_x.Main.{Options}

-- The options that were given. `udp_debug` is a switch.
pub record Given : Type 0 where
  pub mode : Option Text
  pub protocol : Option Text
  pub family : Option Text
  pub dns_refresh_min : Option ℕ
  pub udp_idle_timeout_sec : Option ℕ
  pub udp_debug : Bool
  pub listen_host : Option Text
  pub listen_port : Option ℕ
  pub target_host : Option Text
  pub target_port : Option ℕ
  pub public_listen_host : Option Text
  pub public_listen_port : Option ℕ
  pub lan_target_host : Option Text
  pub lan_target_port : Option ℕ
  pub local_listen_host : Option Text
  pub local_listen_port : Option ℕ
  pub server_ipv6_host : Option Text
  pub server_port : Option ℕ

-- `not_parsed` has the text of the exception; `parsed`, whether --help was given.
pub data CommandLine : Type 0 where
  not_parsed : Text → CommandLine
  parsed : Bool → Given → CommandLine

-- `default_value`
abbrev pub default_value : {A : Type 0} → A → Option A → A
default_value a none = a
default_value a (some b) = b

unfoldable pub with_defaults : Given → Options
with_defaults g = record {
  mode = default_value (codes "custom") g.mode;
  protocol = default_value (codes "tcp") g.protocol;
  family = default_value (codes "auto") g.family;
  dns_refresh_min = default_value 10 g.dns_refresh_min;
  udp_idle_timeout_sec = default_value 300 g.udp_idle_timeout_sec;
  udp_debug = g.udp_debug;
  listen_host = default_value (codes "::") g.listen_host;
  listen_port = g.listen_port;
  target_host = g.target_host;
  target_port = g.target_port;
  public_listen_host = default_value (codes "::") g.public_listen_host;
  public_listen_port = g.public_listen_port;
  lan_target_host = default_value (codes "127.0.0.1") g.lan_target_host;
  lan_target_port = g.lan_target_port;
  local_listen_host = default_value (codes "127.0.0.1") g.local_listen_host;
  local_listen_port = g.local_listen_port;
  server_ipv6_host = g.server_ipv6_host;
  server_port = g.server_port;
}
