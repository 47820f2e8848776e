-- ===== src/Udp.antt =====
-- src/net/forwarder.cpp: the sessions of the UDP forwarder, `UdpSession`, `GetOrCreateUdpSession`,
-- `MaybeCleanupIdleUdpSessions` and `CleanupIdleUdpSessions`. The map from the text of the client's
-- address to the shared session is a list of pairs: a thread that holds a session finds it under
-- its key, since `CleanupIdleUdpSessions` joins the thread of each session that it takes out.
-- The line for a closed session shows the counters that the loop under the lock saw.
-- The order of the list stands for the order of the hash table, which is not specified.
pub mod Loops
pub mod Table
pub mod Idle
pub mod Creation
pub mod Cleanup
pub mod Threads
pub mod Datagrams
pub mod Delivery
pub mod Routes
use port_forward_x.Prelude.{
  ℕ, ◌+◌, ◌-◌, ◌*◌, ◌%◌, ◌^◌, Bool, true, false, ◌&&◌, ◌||◌, List, [], ◌∷◌, ◌++◌, Option, none,
  some, ltb, is_empty, if◌then◌else◌, Text, codes, text_eq, to_text,
}
use port_forward_x.Config.{ForwardConfig}
use port_forward_x.System.{Bytes, SocketHandle, invalid_socket, handle, Os, Sys}
use port_forward_x.System.Calls.{◌>>=◌, ◌>>◌, pure, print}
use port_forward_x.Platform.{ErrorOut, text_of, close_socket, shutdown_both}
use port_forward_x.Endpoint.{
  ResolvedEndpoint, endpoint_to_string, client_endpoint_key, now_monotonic_ms, set_udp_recv_timeout,
}
use port_forward_x.Connect.{UdpTarget, create_udp_socket_for_endpoint}

-- The thread is a flag: true while it can be joined. Addresses have their lengths.
pub record UdpSession : Type 0 where
  pub upstream_socket : SocketHandle
  pub target_addr : Bytes
  pub client_addr : Bytes
  pub client_label : Text
  pub target_label : Text
  pub has_thread : Bool
  pub last_active_ms : ℕ
  pub client_to_target_packets : ℕ
  pub client_to_target_bytes : ℕ
  pub target_to_client_packets : ℕ
  pub target_to_client_bytes : ℕ
  pub marked_for_close : Bool

abbrev pub Sessions : Type 0
Sessions = List (Text × UdpSession)

-- The part of the state of `Forwarder::Impl` that the UDP threads use.
pub record UdpState : Type 0 where
  pub config : ForwardConfig
  pub target_endpoints : List ResolvedEndpoint
  pub listen_socket : SocketHandle
  pub udp_sessions : Sessions
  pub last_udp_cleanup_ms : ℕ

-- `kUdpCleanupIntervalMs`
abbrev pub udp_cleanup_interval_ms : ℕ
udp_cleanup_interval_ms = 1000

-- The difference of two values of type `uint64_t`.
abbrev pub sub64 : ℕ → ℕ → ℕ
sub64 a b = (a + 2 ^ 64 - b) % 2 ^ 64

abbrev pub add64 : ℕ → ℕ → ℕ
add64 a b = (a + b) % 2 ^ 64

unfoldable pub find_session : Text → Sessions → Option UdpSession
find_session key [] = none
find_session key ((k, session) ∷ rest) =
    if text_eq k key then some session else find_session key rest

-- A change of the session under a key, by a thread that holds it.
unfoldable pub update_session : Text → (UdpSession → UdpSession) → Sessions → Sessions
update_session key change [] = []
update_session key change ((k, session) ∷ rest) =
    if text_eq k key
    then (k, change session) ∷ rest
    else (k, session) ∷ update_session key change rest

unfoldable pub new_session : UdpTarget → Bytes → Text → ℕ → UdpSession
new_session target client_addr label now = record {
  upstream_socket = target.upstream;
  target_addr = target.target_addr;
  client_addr = client_addr;
  client_label = label;
  target_label = target.target_label;
  has_thread = true;
  last_active_ms = now;
  client_to_target_packets = 0;
  client_to_target_bytes = 0;
  target_to_client_packets = 0;
  target_to_client_bytes = 0;
  marked_for_close = false;
}

-- The test of the loop in `CleanupIdleUdpSessions`.
unfoldable pub idle_timed_out : ℕ → ℕ → UdpSession → Bool
idle_timed_out now idle_timeout_ms session =
    ltb 0 idle_timeout_ms
    && (ltb session.last_active_ms now && ltb idle_timeout_ms (sub64 now session.last_active_ms))

unfoldable pub should_close : Bool → ℕ → ℕ → UdpSession → Bool
unfolding idle_timed_out
should_close force_all now idle_timeout_ms session =
    force_all || (session.marked_for_close || idle_timed_out now idle_timeout_ms session)

pub data Reason : Type 0 where
  marked stopping idle : Reason

unfoldable pub close_reason : Bool → ℕ → ℕ → UdpSession → Reason
unfolding idle_timed_out
close_reason force_all now idle_timeout_ms session =
    if force_all
    then stopping
    else if idle_timed_out now idle_timeout_ms session
    then idle
    else marked

abbrev pub reason_text : Reason → Text
reason_text marked = codes "marked_for_close"
reason_text stopping = codes "stopping"
reason_text idle = codes "idle_timeout"

-- The loop under the lock: the sessions that stay, and those to close, marked, with the reason.
unfoldable pub sweep : Bool → ℕ → ℕ → Sessions → Sessions × List (UdpSession × Reason)
unfolding should_close close_reason
sweep force_all now idle_timeout_ms [] = ([], [])
sweep force_all now idle_timeout_ms ((key, session) ∷ rest) =
    let (kept, closing) = sweep force_all now idle_timeout_ms rest in
    if should_close force_all now idle_timeout_ms session
    then (
      kept,
      (
        record session { marked_for_close = true },
        close_reason force_all now idle_timeout_ms session,
      )
          ∷ closing,
    )
    else ((key, session) ∷ kept, closing)

-- The counters that `udp_debug` adds to the line of a closed session.
abbrev pub counters_text : UdpSession → Text
counters_text s =
    codes ", client_to_target_packets="
    ++ (to_text s.client_to_target_packets
        ++ (codes ", client_to_target_bytes="
            ++ (to_text s.client_to_target_bytes
                ++ (codes ", target_to_client_packets="
                    ++ (to_text s.target_to_client_packets
                        ++ (codes ", target_to_client_bytes="
                            ++ to_text s.target_to_client_bytes))))))

unfoldable pub closing_message : Bool → ℕ → UdpSession → Reason → Text
closing_message debug now s reason =
    codes "[udp] client disconnected: "
    ++ (s.client_label
        ++ (codes ", reason="
            ++ (reason_text reason
                ++ (codes ", idle_ms="
                    ++ (to_text (if ltb s.last_active_ms now then sub64 now s.last_active_ms else 0)
                        ++ (if debug then counters_text s else []))))))

module _ ⦃os : Os⦄ where
  -- The loop over the closing sessions. Each is then closed, with no socket and no thread, and no
  -- longer in the table.
  unfoldable pub close_all : Bool → ℕ → List (UdpSession × Reason) → Sys (Unit {0})
  unfolding closing_message close_socket shutdown_both
  close_all debug now [] = pure tt
  close_all debug now ((session, reason) ∷ rest) = do
    print (closing_message debug now session reason)
    shutdown_both session.upstream_socket
    close_socket session.upstream_socket
    close_all debug now rest

  unfoldable pub cleanup_idle_udp_sessions : Bool → UdpState → Sys UdpState
  unfolding close_all sweep now_monotonic_ms
  cleanup_idle_udp_sessions force_all s = do
    now ← now_monotonic_ms
    let swept =
        sweep force_all now (s.config.udp_session_idle_timeout_seconds * 1000) s.udp_sessions
    close_all s.config.udp_debug now swept.1
    pure (record s { udp_sessions = swept.0 })

  unfoldable pub maybe_cleanup_idle_udp_sessions : UdpState → Sys UdpState
  unfolding cleanup_idle_udp_sessions
  maybe_cleanup_idle_udp_sessions s = do
    now ← now_monotonic_ms
    if ltb (sub64 now s.last_udp_cleanup_ms) udp_cleanup_interval_ms
        then pure s
        else cleanup_idle_udp_sessions false (record s { last_udp_cleanup_ms = now })

  -- `GetOrCreateUdpSession` once there is a socket for the target. Only this thread inserts, so the
  -- key that was not found is still absent, and `emplace` inserts.
  unfoldable pub add_session :
      Text → Bytes → UdpState → UdpTarget → Sys (Option UdpSession × UdpState)
  unfolding new_session set_udp_recv_timeout endpoint_to_string now_monotonic_ms
  add_session key client_addr s target = do
    set_udp_recv_timeout target.upstream 200
    now ← now_monotonic_ms
    let session = new_session target client_addr (endpoint_to_string client_addr) now
    print (codes "[udp] client connected: " ++ session.client_label)
    pure (some session, record s { udp_sessions = (key, session) ∷ s.udp_sessions })

  abbrev pub created_session :
      Text → Bytes → UdpState → Option UdpTarget × ErrorOut → Sys (Option UdpSession × UdpState)
  created_session key client_addr s (some target, error) = add_session key client_addr s target
  created_session key client_addr s (none, error) = do
    print (
        codes "[udp] create upstream failed for client "
        ++ (endpoint_to_string client_addr ++ (codes ", reason=" ++ text_of error)))
    pure (none, s)

  unfoldable pub create_session : Text → Bytes → UdpState → Sys (Option UdpSession × UdpState)
  unfolding add_session create_udp_socket_for_endpoint
  create_session key client_addr s =
      if is_empty s.target_endpoints
      then pure (none, s)
      else create_udp_socket_for_endpoint s.target_endpoints (some [])
        >>= created_session key client_addr s

  abbrev pub get_or_create :
      Text → Bytes → UdpState → Option UdpSession → Sys (Option UdpSession × UdpState)
  get_or_create key client_addr s (some session) = pure (some session, s)
  get_or_create key client_addr s none = create_session key client_addr s

  unfoldable pub get_or_create_udp_session : Bytes → UdpState → Sys (Option UdpSession × UdpState)
  unfolding find_session create_session client_endpoint_key
  get_or_create_udp_session client_addr s =
      let key = client_endpoint_key client_addr in
      get_or_create key client_addr s (find_session key s.udp_sessions)
