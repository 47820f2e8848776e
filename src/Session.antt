-- ===== src/Session.antt =====
-- src/net/forward_session.cpp: `ForwardSession`, a pair of sockets with a worker thread that relays
-- both ways between them. A method is a state change that the mutex makes whole.
pub mod Threads
pub mod Ownership
pub mod Stopped
use port_forward_x.Prelude.{ℕ, Bool, true, false, if◌then◌else◌}
use port_forward_x.System.{SocketHandle, invalid_socket, handle, Os, Sys}
use port_forward_x.System.Calls.{◌>>=◌, ◌>>◌, pure}
use port_forward_x.Platform.{close_socket, shutdown_both}

-- The `std::thread` of a session: none, running or ended and not yet joined.
pub data Worker : Type 0 where
  no_thread running ended : Worker

pub record ForwardSession : Type 0 where
  pub client_socket : SocketHandle
  pub upstream_socket : SocketHandle
  pub worker : Worker
  pub stopping : Bool
  pub finished : Bool

unfoldable pub make_session : SocketHandle → SocketHandle → ForwardSession
make_session client upstream = record {
  client_socket = client;
  upstream_socket = upstream;
  worker = no_thread;
  stopping = false;
  finished = false;
}

unfoldable pub start : ForwardSession → ForwardSession
start session = record session { worker = running }

unfoldable pub is_finished : ForwardSession → Bool
is_finished session = session.finished

-- `if (socket != kInvalidSocket) CloseSocket(socket);`
abbrev pub close_valid : SocketHandle → Sys (Unit {0})
close_valid invalid_socket = pure tt
close_valid (handle n) = close_socket (handle n)

unfoldable pub close_sockets : ForwardSession → Sys ForwardSession
unfolding close_socket
close_sockets session = do
  close_valid session.client_socket
  close_valid session.upstream_socket
  pure (record session { client_socket = invalid_socket; upstream_socket = invalid_socket })

module _ ⦃os : Os⦄ where
  unfoldable pub shutdown_sockets : ForwardSession → Sys (Unit {0})
  unfolding shutdown_both
  shutdown_sockets session = do
    shutdown_both session.client_socket
    shutdown_both session.upstream_socket
    pure tt

  unfoldable pub stop : ForwardSession → Sys ForwardSession
  unfolding shutdown_sockets
  stop session =
      if session.stopping
      then pure session
      else shutdown_sockets session >> pure (record session { stopping = true })

-- `Join`, once it has returned: the worker has ended, or it called `Join` itself and was detached; there
-- is no thread left to join.
unfoldable pub join : ForwardSession → ForwardSession
join session = record session { worker = no_thread }

module _ ⦃os : Os⦄ where
  -- `~ForwardSession`
  unfoldable pub destroy : ForwardSession → Sys ForwardSession
  unfolding stop join
  destroy session = stop session >>= λ s. pure (join s)
