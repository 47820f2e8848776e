-- ===== src/Udp/Loops.antt =====
-- src/net/forwarder.cpp: the bodies of the loops of the UDP threads, `UdpLoop` (from the clients)
-- and `UdpUpstreamToClientLoop` (one thread for each session, from its target). A round is one pass
-- through the body in which `running_` reads true.
use port_forward_x.Prelude.{
  ℕ, ◌*◌, Bool, true, false, [], ◌∷◌, ◌++◌, Option, none, some, if◌then◌else◌, Text, codes, to_text,
  length, ℤ, is_nonpos, to_size,
}
use port_forward_x.Config.{ForwardConfig}
use port_forward_x.System.{Bytes, SocketHandle, Os, Sys}
use port_forward_x.System.Calls
use port_forward_x.System.Calls.{◌>>=◌, ◌>>◌, pure, print}
use port_forward_x.Platform.{last_socket_error, socket_error_to_string}
use port_forward_x.Endpoint.{
  endpoint_to_string, client_endpoint_key, now_monotonic_ms, is_transient_recv_error,
}
use port_forward_x.Udp.{
  UdpSession, UdpState, add64, update_session, get_or_create_udp_session,
  maybe_cleanup_idle_udp_sessions,
}

abbrev pub udp_buffer_size : ℕ
udp_buffer_size = 64 * 1024

abbrev pub mark_for_close : UdpSession → UdpSession
mark_for_close session = record session { marked_for_close = true }

-- `session->last_active_ms.store(now)`
abbrev pub touch : ℕ → UdpSession → UdpSession
touch now session = record session { last_active_ms = now }

abbrev pub count_to_target : ℕ → UdpSession → UdpSession
count_to_target sent session = record session {
  client_to_target_packets = add64 session.client_to_target_packets 1;
  client_to_target_bytes = add64 session.client_to_target_bytes sent;
}

abbrev pub count_to_client : ℕ → UdpSession → UdpSession
count_to_client sent session = record session {
  target_to_client_packets = add64 session.target_to_client_packets 1;
  target_to_client_bytes = add64 session.target_to_client_bytes sent;
}

abbrev pub change_session : Text → (UdpSession → UdpSession) → UdpState → UdpState
change_session key change s = record s { udp_sessions = update_session key change s.udp_sessions }

-- `if (config_.udp_debug) std::cout << text;`
unfoldable pub debug_line : Bool → Text → Sys (Unit {0})
debug_line true text = print text
debug_line false text = pure tt

module _ ⦃os : Os⦄ where
  -- `UdpLoop` after `sendto` to the target.
  unfoldable pub sent_to_target : Text → UdpSession → Bytes → ℤ → UdpState → Sys UdpState
  unfolding update_session debug_line
  sent_to_target key session bytes sent s =
      if is_nonpos sent
      then (do
        err ← last_socket_error
        print (
            codes "[udp] client->target failed: client="
            ++ (session.client_label
                ++ (codes ", bytes="
                    ++ (to_text (length bytes)
                        ++ (codes ", reason=" ++ socket_error_to_string err)))))
        pure (change_session key mark_for_close s))
      else (do
        debug_line s.config.udp_debug (
            codes "[udp] client->target: client="
            ++ (session.client_label
                ++ (codes ", bytes="
                    ++ (to_text (to_size sent) ++ (codes ", target=" ++ session.target_label)))))
        pure (change_session key (count_to_target (to_size sent)) s))

  -- `UdpLoop` once it has the session of the client.
  unfoldable pub send_to_target : Text → Bytes → UdpSession → UdpState → Sys UdpState
  unfolding sent_to_target now_monotonic_ms
  send_to_target key bytes session s = do
    now ← now_monotonic_ms
    sent ← Calls.sendto session.upstream_socket bytes session.target_addr
    sent_to_target key session bytes sent (change_session key (touch now) s)

  abbrev pub forward_datagram : Text → Bytes → Option UdpSession × UdpState → Sys UdpState
  forward_datagram key bytes (none, s) = pure s
  forward_datagram key bytes (some session, s) = send_to_target key bytes session s

  -- A round of `UdpLoop` from the result of `recvfrom` on; an empty datagram counts as none.
  unfoldable pub datagram_received : UdpState → Option (Bytes × Bytes) → Sys UdpState
  unfolding send_to_target get_or_create_udp_session maybe_cleanup_idle_udp_sessions
      client_endpoint_key
  datagram_received s none = maybe_cleanup_idle_udp_sessions s
  datagram_received s (some ([], client_addr)) = maybe_cleanup_idle_udp_sessions s
  datagram_received s (some (b ∷ bytes, client_addr)) = do
    found ← get_or_create_udp_session client_addr s
    s' ← forward_datagram (client_endpoint_key client_addr) (b ∷ bytes) found
    maybe_cleanup_idle_udp_sessions s'

  unfoldable pub udp_round : UdpState → Sys UdpState
  unfolding datagram_received
  udp_round s = Calls.recvfrom s.listen_socket udp_buffer_size >>= datagram_received s

  -- The body of `UdpUpstreamToClientLoop` after `sendto`: whether the loop goes on, and the session.
  -- `break` leads to the mark behind the loop.
  unfoldable pub sent_to_client :
      ForwardConfig → UdpSession → Bytes → Bytes → ℤ → Sys (Bool × UdpSession)
  unfolding now_monotonic_ms endpoint_to_string
  sent_to_client config session bytes remote_addr sent =
      if is_nonpos sent
      then (do
        err ← last_socket_error
        print (
            codes "[udp] target->client send failed: client="
            ++ (session.client_label
                ++ (codes ", bytes="
                    ++ (to_text (length bytes)
                        ++ (codes ", reason=" ++ socket_error_to_string err)))))
        pure (false, mark_for_close session))
      else (do
        debug_line config.udp_debug (
            codes "[udp] target->client: client="
            ++ (session.client_label
                ++ (codes ", bytes="
                    ++ (to_text (to_size sent)
                        ++ (codes ", from=" ++ endpoint_to_string remote_addr)))))
        now ← now_monotonic_ms
        pure (true, touch now (count_to_client (to_size sent) session)))

  -- The body after `recvfrom`.
  unfoldable pub upstream_received :
      ForwardConfig → SocketHandle → UdpSession → Option (Bytes × Bytes) → Sys (Bool × UdpSession)
  unfolding sent_to_client is_transient_recv_error
  upstream_received config listen_socket session none = do
    err ← last_socket_error
    if is_transient_recv_error err then pure (true, session) else (do
      print (
          codes "[udp] target->client recv failed: client="
          ++ (session.client_label ++ (codes ", reason=" ++ socket_error_to_string err)))
      pure (false, mark_for_close session))
  upstream_received config listen_socket session (some ([], remote_addr)) =
      pure (false, mark_for_close session)
  upstream_received config listen_socket session (some (b ∷ bytes, remote_addr)) = do
    sent ← Calls.sendto listen_socket (b ∷ bytes) session.client_addr
    sent_to_client config session (b ∷ bytes) remote_addr sent

  -- A round with its test: a session that is marked leaves the loop.
  unfoldable pub upstream_round :
      ForwardConfig → SocketHandle → UdpSession → Sys (Bool × UdpSession)
  unfolding upstream_received
  upstream_round config listen_socket session =
      if session.marked_for_close
      then pure (false, session)
      else Calls.recvfrom session.upstream_socket udp_buffer_size
        >>= upstream_received config listen_socket session
