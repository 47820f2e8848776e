-- ===== src/Connect.antt =====
-- src/net/forwarder.cpp: `ConnectToEndpoints` and `CreateUdpSocketForEndpoint`, which open a socket
-- towards the first endpoint of a list that serves.
pub mod Sockets
pub mod Datagrams
pub mod Connected
pub mod Fresh
use port_forward_x.Prelude.{
  ℕ, ◌*◌, Bool, true, false, List, [], ◌∷◌, ◌++◌, Option, none, some, ◌==◌, ltb, take,
  if◌then◌else◌, Text, codes,
}
use port_forward_x.Config.{TransportProtocol, tcp, udp}
use port_forward_x.System.{
  Bytes, SocketHandle, invalid_socket, handle, Os, Sys, sock_dgram, ipproto_udp,
}
use port_forward_x.System.Calls
use port_forward_x.System.Calls.{◌>>=◌, ◌>>◌, pure}
use port_forward_x.Platform.{
  ErrorOut, write_error, close_socket, set_socket_buffer_size, disable_udp_conn_reset,
  last_socket_error, socket_error_to_string,
}
use port_forward_x.Endpoint.{
  ResolvedEndpoint, native_socket_type, native_socket_protocol, endpoint_to_string,
}

-- `kSocketBufferSize`
abbrev pub socket_buffer_size : ℕ
socket_buffer_size = 2 * 1024 * 1024

-- The `sockaddr` that a system call reads from the bytes of an endpoint.
abbrev pub address : ResolvedEndpoint → Bytes
address endpoint = take endpoint.sockaddr_len endpoint.sockaddr_bytes

-- How the loop over the endpoints ends: with a socket, or with the last error.
pub data Attempt : Type 0 where
  opened : SocketHandle → Attempt
  exhausted : ℕ → Attempt

-- A socket for datagrams with the address of its target.
pub record UdpTarget : Type 0 where
  pub upstream : SocketHandle
  pub target_addr : Bytes
  pub target_label : Text

pub data UdpAttempt : Type 0 where
  created : UdpTarget → UdpAttempt
  exhausted : ℕ → UdpAttempt

module _ ⦃os : Os⦄ where
  -- The settings of a new socket for datagrams.
  unfoldable pub prepare_udp : SocketHandle → Sys (Unit {0})
  unfolding set_socket_buffer_size disable_udp_conn_reset
  prepare_udp candidate = do
    set_socket_buffer_size candidate socket_buffer_size none
    disable_udp_conn_reset candidate none
    pure tt

  unfoldable pub prepare : TransportProtocol → SocketHandle → Sys (Unit {0})
  unfolding prepare_udp
  prepare udp candidate = prepare_udp candidate
  prepare tcp candidate = pure tt

  -- One round of the loop of `ConnectToEndpoints`, after `::socket`.
  unfoldable pub connect_candidate :
      ResolvedEndpoint → TransportProtocol → SocketHandle → Sys Attempt
  unfolding prepare close_socket
  connect_candidate endpoint protocol invalid_socket = do
    err ← last_socket_error
    pure (Attempt.exhausted err)
  connect_candidate endpoint protocol (handle n) = do
    prepare protocol (handle n)
    connected ← Calls.connect (handle n) (address endpoint)
    if connected
        then pure (opened (handle n))
        else (do err ← last_socket_error; close_socket (handle n); pure (Attempt.exhausted err))

  unfoldable pub try_endpoint : ResolvedEndpoint → TransportProtocol → Sys Attempt
  unfolding connect_candidate
  try_endpoint endpoint protocol = do
    candidate ←
        Calls.socket endpoint.family (native_socket_type protocol) (native_socket_protocol protocol)
    connect_candidate endpoint protocol candidate

  unfoldable pub connect_loop : List ResolvedEndpoint → TransportProtocol → ℕ → Sys Attempt
  connect_loop [] protocol last_error = pure (Attempt.exhausted last_error)
  connect_loop (endpoint ∷ endpoints) protocol last_error = do
    attempt ← try_endpoint endpoint protocol
    elim attempt [
      | opened s ↦ pure (opened s)
      | Attempt.exhausted err ↦ connect_loop endpoints protocol err
    ]

  -- The text that both functions leave for the caller when no endpoint serves.
  abbrev pub exhausted_error : Text → ℕ → Text
  exhausted_error what last_error =
      what
      ++ ((if last_error == 0
            then []
            else codes ", last_error=" ++ socket_error_to_string last_error)
          ++ codes ".")

  -- The result and the out-parameters of `ConnectToEndpoints` after its loop.
  abbrev pub connect_result : SocketHandle → ErrorOut → Attempt → Bool × SocketHandle × ErrorOut
  connect_result socket_out error (opened s) = (true, s, error)
  connect_result socket_out error (Attempt.exhausted e) = (
    false,
    socket_out,
    write_error error (exhausted_error (codes "Unable to connect to target endpoint(s)") e),
  )

  unfoldable pub connect_to_endpoints :
      List ResolvedEndpoint
      → TransportProtocol
      → SocketHandle
      → ErrorOut
      → Sys (Bool × SocketHandle × ErrorOut)
  unfolding connect_loop try_endpoint
  connect_to_endpoints endpoints protocol socket_out error = do
    attempt ← connect_loop endpoints protocol 0
    pure (connect_result socket_out error attempt)

  -- One round of the loop of `CreateUdpSocketForEndpoint`, after `::socket`.
  unfoldable pub create_candidate : ResolvedEndpoint → SocketHandle → Sys UdpAttempt
  unfolding prepare_udp
  create_candidate endpoint invalid_socket = do
    err ← last_socket_error
    pure (UdpAttempt.exhausted err)
  create_candidate endpoint (handle n) = do
    prepare_udp (handle n)
    pure (
        created (record {
          upstream = handle n;
          target_addr = address endpoint;
          target_label = endpoint_to_string (address endpoint);
        }))

  unfoldable pub try_udp_endpoint : ResolvedEndpoint → ℕ → Sys UdpAttempt
  unfolding create_candidate
  try_udp_endpoint endpoint last_error =
      if ltb os.sizeof_sockaddr_storage endpoint.sockaddr_len
      then pure (UdpAttempt.exhausted last_error)
      else Calls.socket endpoint.family sock_dgram ipproto_udp >>= create_candidate endpoint

  unfoldable pub create_loop : List ResolvedEndpoint → ℕ → Sys UdpAttempt
  create_loop [] last_error = pure (UdpAttempt.exhausted last_error)
  create_loop (endpoint ∷ endpoints) last_error = do
    attempt ← try_udp_endpoint endpoint last_error
    elim attempt [
      | created target ↦ pure (created target)
      | UdpAttempt.exhausted err ↦ create_loop endpoints err
    ]

  -- The three out-parameters for the target are one record, written on success only.
  abbrev pub create_result : ErrorOut → UdpAttempt → Option UdpTarget × ErrorOut
  create_result error (created target) = (some target, error)
  create_result error (UdpAttempt.exhausted e) = (
    none,
    write_error error
        (exhausted_error (codes "Unable to create UDP socket for target endpoint(s)") e),
  )

  unfoldable pub create_udp_socket_for_endpoint :
      List ResolvedEndpoint → ErrorOut → Sys (Option UdpTarget × ErrorOut)
  unfolding create_loop try_udp_endpoint endpoint_to_string
  create_udp_socket_for_endpoint endpoints error = do
    attempt ← create_loop endpoints 0
    pure (create_result error attempt)
