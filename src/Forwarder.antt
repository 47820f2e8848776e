-- ===== src/Forwarder.antt =====
-- src/net/forwarder.cpp: the class `Forwarder` and its `Impl` as wholes: their fields, `Start`, and the
-- parts of `Stop` between which other threads run. A flag for a thread is true while its loop goes on.
pub mod Threads
pub mod Account
pub mod Stages
pub mod Started
pub mod Sound
pub mod Stopped
pub mod Going
pub mod Woken
pub mod Returns
pub mod Contract
use port_forward_x.Prelude.{ℕ, Bool, true, false, List, [], ◌∷◌, ◌&&◌, if◌then◌else◌, Text, codes}
use port_forward_x.Config.{ForwardConfig, TransportProtocol, tcp, udp}
use port_forward_x.System.{SocketHandle, invalid_socket, Os, Sys}
use port_forward_x.System.Calls.{◌>>=◌, ◌>>◌, pure}
use port_forward_x.Platform.{ErrorOut, write_error, shutdown_both, close_socket}
use port_forward_x.Endpoint.{now_monotonic_ms}
use port_forward_x.Session.{ForwardSession, is_finished}
use port_forward_x.Session
use port_forward_x.Refresh.{RefreshState, resolver_round}
use port_forward_x.Listen
use port_forward_x.Listen.{Listener, idle_listener}
use port_forward_x.Tcp.{TcpSessions, Peers, TcpState, accept_round, cleanup_finished_sessions}
use port_forward_x.Udp.{UdpSession, Sessions, UdpState, cleanup_idle_udp_sessions}
use port_forward_x.Udp.Loops.{udp_round, upstream_round, change_session}

-- `listener` has `running_`, `listen_socket_`, `listening_port_`, `listening_host_` and
-- `target_endpoints_`; `elapsed` is the variable of `ResolverLoop`.
pub record Impl : Type 0 where
  pub config : ForwardConfig
  pub listener : Listener
  pub accept_thread : Bool
  pub udp_thread : Bool
  pub resolver_thread : Bool
  pub elapsed : ℕ
  pub sessions : TcpSessions
  pub session_peers : Peers
  pub next_session_id : ℕ
  pub udp_sessions : Sessions
  pub last_udp_cleanup_ms : ℕ

abbrev pub make_impl : ForwardConfig → Impl
make_impl config = record {
  config = config;
  listener = idle_listener;
  accept_thread = false;
  udp_thread = false;
  resolver_thread = false;
  elapsed = 0;
  sessions = [];
  session_peers = [];
  next_session_id = 0;
  udp_sessions = [];
  last_udp_cleanup_ms = 0;
}

pub record Forwarder : Type 0 where
  pub running : Bool
  pub listening_port : ℕ
  pub listening_host : Text
  pub impl : Impl

abbrev pub make_forwarder : ForwardConfig → Forwarder
make_forwarder config = record {
  running = false;
  listening_port = 0;
  listening_host = [];
  impl = make_impl config;
}

-- What the accepting thread, the UDP threads and the resolver thread see of `Impl`, and change.
abbrev pub tcp_part : Impl → TcpState
tcp_part i = record {
  config = i.config;
  target_endpoints = i.listener.target_endpoints;
  listen_socket = i.listener.listen_socket;
  sessions = i.sessions;
  session_peers = i.session_peers;
  next_session_id = i.next_session_id;
}

abbrev pub with_tcp : Impl → TcpState → Impl
with_tcp i s = record i {
  listener = record (i.listener) { target_endpoints = s.target_endpoints };
  sessions = s.sessions;
  session_peers = s.session_peers;
  next_session_id = s.next_session_id;
}

abbrev pub udp_part : Impl → UdpState
udp_part i = record {
  config = i.config;
  target_endpoints = i.listener.target_endpoints;
  listen_socket = i.listener.listen_socket;
  udp_sessions = i.udp_sessions;
  last_udp_cleanup_ms = i.last_udp_cleanup_ms;
}

abbrev pub with_udp : Impl → UdpState → Impl
with_udp i s = record i {
  udp_sessions = s.udp_sessions;
  last_udp_cleanup_ms = s.last_udp_cleanup_ms;
}

abbrev pub refresh_part : Impl → RefreshState
refresh_part i = record { elapsed = i.elapsed; target_endpoints = i.listener.target_endpoints }

abbrev pub with_refresh : Impl → RefreshState → Impl
with_refresh i s = record i {
  listener = record (i.listener) { target_endpoints = s.target_endpoints };
  elapsed = s.elapsed;
}

-- `Impl::Stop`: `running_.exchange(false)`, where it was true.
abbrev pub clear_running : Impl → Impl
clear_running i = record i { listener = record (i.listener) { running = false } }

-- Whether every `Join` of `Impl::Stop` returns.
abbrev pub all_finished : TcpSessions → Bool
all_finished [] = true
all_finished ((id, session) ∷ rest) = session.finished && all_finished rest

-- The end of `Impl::Stop`.
abbrev pub clear_sessions : Impl → Impl
clear_sessions i = record i { sessions = []; session_peers = [] }

module _ ⦃os : Os⦄ where
  -- The end of `Impl::Start`; reading the clock is the first act of `UdpLoop`.
  abbrev pub start_threads : TransportProtocol → Impl → Sys Impl
  start_threads tcp i =
      pure (record i { resolver_thread = true; elapsed = 0; accept_thread = true })
  start_threads udp i = do
    now ← now_monotonic_ms
    pure (record i {
      resolver_thread = true;
      elapsed = 0;
      udp_thread = true;
      last_udp_cleanup_ms = now;
    })

  abbrev pub impl_started : Impl → Bool × (Listener × ErrorOut) → Sys (Bool × (Impl × ErrorOut))
  impl_started i (true, (l, error)) = do
    i' ← start_threads i.config.protocol (record i { listener = l })
    pure (true, (i', error))
  impl_started i (false, (l, error)) = pure (false, (record i { listener = l }, error))

  -- `Impl::Start`
  unfoldable pub impl_start : ErrorOut → Impl → Sys (Bool × (Impl × ErrorOut))
  unfolding Listen.start now_monotonic_ms
  impl_start error i = Listen.start i.config error i.listener >>= impl_started i

  abbrev pub started : Forwarder → Bool × (Impl × ErrorOut) → Bool × (Forwarder × ErrorOut)
  started f (true, (i, error)) = (
    true,
    (
      record f {
        running = true;
        listening_port = i.listener.listening_port;
        listening_host = i.listener.listening_host;
        impl = i;
      },
      error,
    ),
  )
  started f (false, (i, error)) = (false, (record f { impl = i }, error))

  -- `Forwarder::Start`
  unfoldable pub start : ErrorOut → Forwarder → Sys (Bool × (Forwarder × ErrorOut))
  unfolding impl_start
  start error f =
      if f.running
      then pure (false, (f, write_error error (codes "Forwarder already running.")))
      else impl_start error f.impl >>= λ r. pure (started f r)

  -- The rounds of the threads, and what each thread does after its loop.
  unfoldable pub accept_work : Impl → Sys Impl
  unfolding accept_round
  accept_work i = accept_round (tcp_part i) >>= λ s. pure (with_tcp i s)

  unfoldable pub accept_end : Impl → Sys Impl
  unfolding cleanup_finished_sessions
  accept_end i = cleanup_finished_sessions (tcp_part i) >>= λ s.
      pure (record (with_tcp i s) { accept_thread = false })

  unfoldable pub udp_work : Impl → Sys Impl
  unfolding udp_round
  udp_work i = udp_round (udp_part i) >>= λ s. pure (with_udp i s)

  unfoldable pub udp_end : Impl → Sys Impl
  unfolding cleanup_idle_udp_sessions
  udp_end i = cleanup_idle_udp_sessions true (udp_part i) >>= λ s.
      pure (record (with_udp i s) { udp_thread = false })

  unfoldable pub upstream_work : Text → UdpSession → Impl → Sys Impl
  unfolding upstream_round
  upstream_work key session i = do
    (goes_on, session') ← upstream_round i.config i.listener.listen_socket session
    pure (with_udp i (change_session key (λ _. session') (udp_part i)))

  unfoldable pub resolver_work : Impl → Sys Impl
  unfolding resolver_round
  resolver_work i = resolver_round i.config (refresh_part i) >>= λ s. pure (with_refresh i s)

  -- `Impl::Stop`: the listening socket is closed.
  unfoldable pub unbind : Impl → Sys Impl
  unfolding shutdown_both close_socket
  unbind i = do
    shutdown_both i.listener.listen_socket
    close_socket i.listener.listen_socket
    pure (record i { listener = record (i.listener) { listen_socket = invalid_socket } })

  -- `CleanupIdleUdpSessions(true)` of `Impl::Stop`
  unfoldable pub clean_udp : Impl → Sys Impl
  unfolding cleanup_idle_udp_sessions
  clean_udp i = cleanup_idle_udp_sessions true (udp_part i) >>= λ s. pure (with_udp i s)

  -- `for (const auto& session : sessions) session->Stop();`
  unfoldable pub stop_each : TcpSessions → Sys TcpSessions
  unfolding Session.stop
  stop_each [] = pure []
  stop_each ((id, session) ∷ rest) = do
    session' ← Session.stop session
    rest' ← stop_each rest
    pure ((id, session') ∷ rest')

  unfoldable pub stop_sessions : Impl → Sys Impl
  unfolding stop_each
  stop_sessions i = stop_each i.sessions >>= λ table. pure (record i { sessions = table })
