-- ===== src/Tcp.antt =====
-- src/net/forwarder.cpp: the TCP side of `Forwarder::Impl`, `AcceptLoop` and
-- `CleanupFinishedSessions`. The two maps from a session's number are lists of pairs; their order
-- stands for the order of the hash tables, which is not specified. The number of a new session is
-- taken to be new: it comes round after 2 ^ 64 sessions.
pub mod Ledger
pub mod Threads
pub mod Ids
pub mod Going
use port_forward_x.Prelude.{
  ℕ, ◌+◌, ◌%◌, ◌^◌, Bool, true, false, List, [], ◌∷◌, ◌++◌, Option, none, some, ◌==◌, is_empty,
  length, if◌then◌else◌, Text, codes, to_text,
}
use port_forward_x.Config.{ForwardConfig, tcp}
use port_forward_x.System.{Bytes, SocketHandle, invalid_socket, handle, Os, Sys}
use port_forward_x.System.Calls
use port_forward_x.System.Calls.{◌>>=◌, ◌>>◌, pure, print}
use port_forward_x.Platform.{ErrorOut, close_socket}
use port_forward_x.Endpoint.{ResolvedEndpoint, endpoint_to_string}
use port_forward_x.Connect.{connect_to_endpoints}
use port_forward_x.Session.{ForwardSession, make_session, start, is_finished}
use port_forward_x.Targets.{resolve_target_endpoints}

abbrev pub TcpSessions : Type 0
TcpSessions = List (ℕ × ForwardSession)

abbrev pub Peers : Type 0
Peers = List (ℕ × Text)

-- The part of the state of `Forwarder::Impl` that the accepting thread uses.
pub record TcpState : Type 0 where
  pub config : ForwardConfig
  pub target_endpoints : List ResolvedEndpoint
  pub listen_socket : SocketHandle
  pub sessions : TcpSessions
  pub session_peers : Peers
  pub next_session_id : ℕ

-- What the log says of a session: its peer, or "unknown".
abbrev pub find_peer : ℕ → Peers → Text
find_peer id [] = codes "unknown"
find_peer id ((k, peer) ∷ rest) = if k == id then peer else find_peer id rest

abbrev pub erase_peer : ℕ → Peers → Peers
erase_peer id [] = []
erase_peer id ((k, peer) ∷ rest) = if k == id then rest else (k, peer) ∷ erase_peer id rest

-- The loop of `CleanupFinishedSessions` under the lock: the sessions and peers that stay, and the
-- peers of the finished sessions.
unfoldable pub sweep_finished : TcpSessions → Peers → TcpSessions × (Peers × List Text)
unfolding is_finished
sweep_finished [] peers = ([], (peers, []))
sweep_finished ((id, session) ∷ rest) peers =
    let left = if is_finished session then erase_peer id peers else peers in
    let (kept, (peers', finished)) = sweep_finished rest left in
    if is_finished session
    then (kept, (peers', find_peer id peers ∷ finished))
    else ((id, session) ∷ kept, (peers', finished))

unfoldable pub print_disconnected : List Text → Sys (Unit {0})
print_disconnected [] = pure tt
print_disconnected (peer ∷ rest) =
    print (codes "[tcp] client disconnected: " ++ peer) >> print_disconnected rest

-- `Join` waits for the end of a thread that has only to return.
unfoldable pub cleanup_finished_sessions : TcpState → Sys TcpState
unfolding sweep_finished print_disconnected
cleanup_finished_sessions s = do
  let (kept, (peers, finished)) = sweep_finished s.sessions s.session_peers
  print_disconnected finished
  pure (record s { sessions = kept; session_peers = peers })

module _ ⦃os : Os⦄ where
  -- The end of a round of `AcceptLoop`: the session is made, entered and started.
  unfoldable pub open_session : SocketHandle → SocketHandle → Bytes → TcpState → Sys TcpState
  unfolding make_session start endpoint_to_string
  open_session client upstream peer s = do
    let label = endpoint_to_string peer
    let id = (s.next_session_id + 1) % 2 ^ 64
    let sessions = (id, start (make_session client upstream)) ∷ s.sessions
    print (
        codes "[tcp] client connected: "
        ++ (label ++ (codes ", active_sessions=" ++ to_text (length sessions))))
    pure (record s {
      sessions = sessions;
      session_peers = (id, label) ∷ s.session_peers;
      next_session_id = id;
    })

  abbrev pub client_connected :
      SocketHandle → Bytes → TcpState → Bool × SocketHandle × ErrorOut → Sys TcpState
  client_connected client peer s (true, upstream, error) = open_session client upstream peer s
  client_connected client peer s (false, upstream, error) = close_socket client >> pure s

  -- `AcceptLoop` once there may be target endpoints.
  unfoldable pub serve_client : SocketHandle → Bytes → TcpState → Sys TcpState
  unfolding open_session connect_to_endpoints close_socket
  serve_client client peer s =
      if is_empty s.target_endpoints
      then close_socket client >> pure s
      else connect_to_endpoints s.target_endpoints tcp invalid_socket (some [])
        >>= client_connected client peer s

  -- The target endpoints are resolved again if there are none.
  unfoldable pub ensure_target : TcpState → Sys TcpState
  unfolding resolve_target_endpoints
  ensure_target s =
      if is_empty s.target_endpoints
      then (do
        r ← resolve_target_endpoints s.config s.target_endpoints (some [])
        pure (record s { target_endpoints = r.target_endpoints }))
      else pure s

  -- `AcceptLoop` after `accept`, where `running_` still reads true.
  abbrev pub accepted : TcpState → SocketHandle × Bytes → Sys TcpState
  accepted s (invalid_socket, peer) = pure s
  accepted s (handle n, peer) = ensure_target s >>= serve_client (handle n) peer

  -- A round of `AcceptLoop`.
  unfoldable pub accept_round : TcpState → Sys TcpState
  unfolding cleanup_finished_sessions ensure_target serve_client
  accept_round s = do
    s' ← cleanup_finished_sessions s
    client ← Calls.accept s'.listen_socket
    accepted s' client
