-- ===== src/Tests/Service.antt =====
-- The theorems on the listener and on the accepting thread at concrete inputs.
use port_forward_x.Prelude.{
  arith, ◌≡◌, refl, true, ◌&&◌, ◌||◌, text_eq, lowered, false, [], some, none, codes, if◌then◌else◌,
}
use port_forward_x.Config.{ForwardConfig, default_config, ipv6_only}
use port_forward_x.System.{handle}
use port_forward_x.System.Sockets.{is_open, is_handle}
use port_forward_x.Tcp.{TcpState, accept_round}
use port_forward_x.Tcp.Ledger.{IsTcpLedger}
use port_forward_x.Tcp.Ids.{IsRegistered, Reach-IsRegistered}
use port_forward_x.Tcp.Threads
use port_forward_x.Tcp.Threads.{Reach-IsTcpLedger}
use port_forward_x.Listen
use port_forward_x.Listen.{idle_listener}
use port_forward_x.Listen.Sockets.{start_sockets}
use port_forward_x.Listen.Started.{start-Starts, Starts}
use port_forward_x.Main.{Options, Setup, configure, parse_port}
use port_forward_x.Main.Modes.{IsFor, configure-IsFor}
use port_forward_x.Tests.Machine.{machine, machine-IsPosix}

abbrev pub local_config : ForwardConfig
local_config = record default_config { target_host = codes "localhost"; target_port = 80 }

abbrev accepting : TcpState
accepting = record {
  config = local_config;
  target_endpoints = [];
  listen_socket = handle 1000;
  sessions = [];
  session_peers = [];
  next_session_id = 0;
}

nothing_open : IsTcpLedger (λ n. 0) [] []
nothing_open = record { counted = λ n. refl; settled = tt }

abbrev before : Threads.System
before = record { state = accepting; trace = [] }

abbrev served : Threads.System
served =
    let (state, trace) = accept_round ⦃os = machine⦄ accepting [] in
    record { state = state; trace = trace }

Reach-IsTcpLedger_example : IsTcpLedger (λ n. 0) served.trace served.state.sessions
Reach-IsTcpLedger_example =
    Reach-IsTcpLedger ⦃os = machine⦄ machine-IsPosix (λ n. 0) {s = before} {t = served} nothing_open
      (Threads.Reach.later Threads.Reach.here (Threads.Step.accepts refl))

start_sockets_example :
    let ((started, (l, _)), u) = Listen.start ⦃os = machine⦄ local_config none idle_listener [] in
    is_open 3 u ≡ (if started && is_handle 3 l.listen_socket then true else is_open 3 [])
start_sockets_example =
    start_sockets ⦃os = machine⦄ 3 machine-IsPosix local_config none idle_listener []

start-Starts_example :
    Starts (Listen.start ⦃os = machine⦄ local_config (some []) idle_listener []).0
start-Starts_example = start-Starts ⦃os = machine⦄ local_config [] idle_listener [] refl

-- `--mode server --public-listen-port 8443 --lan-target-port 80 --protocol both`
abbrev server_options : Options
server_options = record {
  mode = codes "server";
  protocol = codes "Both";
  family = codes "auto";
  dns_refresh_min = 10;
  udp_idle_timeout_sec = 300;
  udp_debug = false;
  listen_host = codes "::";
  listen_port = none;
  target_host = none;
  target_port = none;
  public_listen_host = codes "::";
  public_listen_port = some 8443;
  lan_target_host = codes "127.0.0.1";
  lan_target_port = some 80;
  local_listen_host = codes "127.0.0.1";
  local_listen_port = none;
  server_ipv6_host = none;
  server_port = none;
}

abbrev server_setup : Setup
server_setup = record {
  config = record default_config {
    listen_port = 8443;
    target_host = codes "127.0.0.1";
    target_port = 80;
    listen_family = ipv6_only;
  };
  enable_tcp = true;
  enable_udp = true;
}

configure-IsFor_example :
    IsFor server_options server_setup.config
    × ((server_setup.enable_tcp || server_setup.enable_udp) ≡ true)
unfolding configure parse_port codes text_eq lowered
configure-IsFor_example = configure-IsFor server_options server_setup refl

Reach-IsRegistered_example : IsRegistered served.state
Reach-IsRegistered_example =
    Reach-IsRegistered ⦃os = machine⦄ {s = before} {t = served}
      (Threads.Reach.later Threads.Reach.here (Threads.Step.accepts refl)) (omega arith)
      (record { falling = tt; same_ids = refl })
