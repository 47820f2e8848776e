-- ===== src/Listen.antt =====
-- src/net/forwarder.cpp: `Impl::Start` up to the start of its threads, with the listening socket and the
-- address that it is bound to.
pub mod Sockets
pub mod Started
pub mod Fresh
pub mod Kept
use port_forward_x.Prelude.{
  ℕ, Bool, true, false, not, ◌&&◌, List, [], ◌∷◌, ◌++◌, Option, none, some, is_empty, if◌then◌else◌,
  Text, codes,
}
use port_forward_x.Config.{
  ForwardConfig, TransportProtocol, tcp, udp, AddressFamilyPreference, is_auto,
}
use port_forward_x.Config.Families.{effective_listen_family}
use port_forward_x.System.{
  Bytes, SocketHandle, invalid_socket, handle, NativeFamily, af_inet, af_inet6, Os, Sys,
}
use port_forward_x.System.Calls
use port_forward_x.System.Calls.{◌>>=◌, ◌>>◌, pure}
use port_forward_x.Platform.{
  ErrorOut, write_error, close_socket, ensure_socket_api_initialized, set_reuse_address,
  set_ipv6_only,
}
use port_forward_x.Endpoint.{
  ResolvedEndpoint, is_ipv6_endpoint, native_socket_type, native_socket_protocol, sort_endpoints,
  set_udp_recv_timeout,
}
use port_forward_x.Resolver.{resolve}
use port_forward_x.Connect.{address, prepare_udp}
use port_forward_x.Targets.{Resolved, resolve_target_endpoints}

-- The fields of `Impl` that `Start` sets.
pub record Listener : Type 0 where
  pub running : Bool
  pub listen_socket : SocketHandle
  pub listening_port : ℕ
  pub listening_host : Text
  pub target_endpoints : List ResolvedEndpoint

-- A new `Impl`.
abbrev pub idle_listener : Listener
idle_listener = record {
  running = false;
  listen_socket = invalid_socket;
  listening_port = 0;
  listening_host = [];
  target_endpoints = [];
}

-- `if (error_message != nullptr && error_message->empty()) *error_message = text;`
abbrev pub write_if_empty : ErrorOut → Text → ErrorOut
write_if_empty none text = none
write_if_empty (some old) text = if is_empty old then some text else some old

module _ ⦃os : Os⦄ where
  abbrev pub host_of : Option Text → Text → Text
  host_of none old = old
  host_of (some ip) old = ip

  -- The address that `getsockname` gives, if it is of IPv4 or IPv6.
  abbrev pub with_family : NativeFamily → Bytes → Listener → Listener
  with_family af_inet actual l = record l {
    listening_port = os.sin_port actual;
    listening_host = host_of (os.inet_ntop af_inet actual) l.listening_host;
  }
  with_family af_inet6 actual l = record l {
    listening_port = os.sin6_port actual;
    listening_host = host_of (os.inet_ntop af_inet6 actual) l.listening_host;
  }
  with_family _ actual l = l

  abbrev pub with_address : Option Bytes → Listener → Listener
  with_address none l = l
  with_address (some actual) l = with_family (os.sa_family actual) actual l

  abbrev pub close_candidate : SocketHandle → Sys Bool
  close_candidate candidate = close_socket candidate >> pure false

  -- The body of the loop after `bind`; true where the candidate serves.
  unfoldable pub listen_on : ForwardConfig → TransportProtocol → SocketHandle → Sys Bool
  unfolding prepare_udp set_udp_recv_timeout close_socket
  listen_on config tcp candidate = do
    listening ← Calls.listen candidate config.backlog
    if listening then pure true else close_candidate candidate
  listen_on config udp candidate = do
    prepare_udp candidate
    set_udp_recv_timeout candidate 200
    pure true

  -- The body after `SetReuseAddress`.
  unfoldable pub bind_and_listen :
      ForwardConfig → AddressFamilyPreference → ResolvedEndpoint → SocketHandle → Sys Bool
  unfolding listen_on set_ipv6_only
  bind_and_listen config family endpoint candidate = do
    if is_ipv6_endpoint endpoint && is_auto family
        then set_ipv6_only candidate false none >> pure tt
        else pure tt
    bound ← Calls.bind candidate (address endpoint)
    if bound then listen_on config config.protocol candidate else close_candidate candidate

  -- The body after `::socket`.
  unfoldable pub listen_candidate :
      ForwardConfig → AddressFamilyPreference → ResolvedEndpoint → SocketHandle → Sys Bool
  unfolding bind_and_listen set_reuse_address
  listen_candidate config family endpoint invalid_socket = pure false
  listen_candidate config family endpoint (handle n) = do
    reuse ← set_reuse_address (handle n) (some [])
    if reuse.0
        then bind_and_listen config family endpoint (handle n)
        else close_candidate (handle n)

  unfoldable pub try_listen :
      ForwardConfig → AddressFamilyPreference → ResolvedEndpoint → Sys (Bool × SocketHandle)
  unfolding listen_candidate
  try_listen config family endpoint = do
    candidate ←
        Calls.socket endpoint.family (native_socket_type config.protocol)
          (native_socket_protocol config.protocol)
    serves ← listen_candidate config family endpoint candidate
    pure (serves, candidate)

  abbrev pub listening_on : SocketHandle → Listener → Sys Listener
  listening_on candidate l = do
    actual ← Calls.getsockname candidate
    pure (record (with_address actual l) { listen_socket = candidate; running = true })

  unfoldable pub listen_loop :
      ForwardConfig
      → AddressFamilyPreference
      → List ResolvedEndpoint
      → Listener
      → Sys (Bool × Listener)
  unfolding try_listen
  listen_loop config family [] l = pure (false, l)
  listen_loop config family (endpoint ∷ endpoints) l = do
    attempt ← try_listen config family endpoint
    elim attempt.0 [
      | true ↦ listening_on attempt.1 l >>= λ l'. pure (true, l')
      | false ↦ listen_loop config family endpoints l
    ]

  -- `Start` with the sorted endpoints to listen on.
  unfoldable pub start_on :
      ForwardConfig
      → List ResolvedEndpoint
      → ErrorOut
      → Listener
      → Sys (Bool × (Listener × ErrorOut))
  unfolding listen_loop effective_listen_family
  start_on config [] error l =
      pure (false, (l, write_if_empty error (codes "No listen endpoint available.")))
  start_on config (endpoint ∷ endpoints) error l = do
    (started, l') ← listen_loop config (effective_listen_family config) (endpoint ∷ endpoints) l
    pure (
      started,
      (
        l',
        if started
            then error
            else write_if_empty error (codes "Failed to bind/listen on any resolved endpoint."),
      ),
    )

  -- `Start` once the target is resolved.
  unfoldable pub start_resolved :
      ForwardConfig → Resolved → Listener → Sys (Bool × (Listener × ErrorOut))
  unfolding start_on resolve sort_endpoints effective_listen_family
  start_resolved config r l =
      let l' = record l { target_endpoints = r.target_endpoints } in
      let family = effective_listen_family config in
      if r.ok
      then (do
        answer ← resolve config.listen_host config.listen_port config.protocol family true r.error
        start_on config (sort_endpoints answer.0 family) answer.1 l')
      else pure (false, (l', r.error))

  unfoldable pub start : ForwardConfig → ErrorOut → Listener → Sys (Bool × (Listener × ErrorOut))
  unfolding start_resolved resolve_target_endpoints ensure_socket_api_initialized
  start config error l = do
    ready ← ensure_socket_api_initialized
    if ready
        then (do
          r ← resolve_target_endpoints config l.target_endpoints error
          start_resolved config r l)
        else pure (false, (l, error))
