-- ===== src/Udp/Routes.antt =====
-- Where the datagrams go.
use port_forward_x.Prelude.{
  ◌≡◌, refl, ap, ◌∙◌, ◌⊎◌, inl, inr, List, [], ◌∷◌, Option, none, some, Bool-cases, Option-cases,
  Text, is_nonpos,
}
use port_forward_x.System.{Bytes, SocketHandle, Os, Trace, recvfrom_call}
use port_forward_x.System.Calls
use port_forward_x.Endpoint.{ResolvedEndpoint, client_endpoint_key, is_transient_recv_error}
use port_forward_x.Udp.{
  UdpSession, UdpState, find_session, create_session, get_or_create_udp_session,
}
use port_forward_x.Udp.Loops.{
  udp_buffer_size, udp_round, datagram_received, forward_datagram, upstream_round,
  upstream_received, sent_to_client,
}
use port_forward_x.Udp.Threads.{System, Step, Reach}
use port_forward_x.Udp.Datagrams.{
  Datagram, came, went, made, datagrams, datagrams-debug_line, datagrams-maybe_cleanup,
  datagrams-create_session, after_session,
}
use port_forward_x.Udp.Delivery.{
  AreRoutes, IsTarget, IsRouting, SameEnds, replace-AreRoutes, found_route, maybe_cleanup-IsRouting,
  IsOf, create_session-IsOf, forward-IsRouting, forward-datagrams, handed_on,
}

module _ ⦃os : Os⦄ where
  -- What a round may do with datagrams, in the state `s` with these before: none comes; one comes and is
  -- dropped, which is empty or comes from a client that has no session and gets none; one comes from a
  -- client and goes to the target of its session, through the socket of this session; one comes from a
  -- client without a session, a socket is made, and it goes to a target through this socket, which is
  -- that of the new session; or one comes on the socket of a session and goes to its client.
  pub data Routed (s : UdpState) (before : List Datagram) : List Datagram → Type 0 where
    is_silent : Routed s before before
    is_dropped :
        (on : SocketHandle) (bytes from : Bytes)
        → (bytes ≡ [])
          ⊎ ((on ≡ s.listen_socket)
              × (find_session (client_endpoint_key from) s.udp_sessions ≡ none))
        → Routed s before (came on bytes from ∷ before)
    is_request :
        (session : UdpSession) (bytes from : Bytes)
        → find_session (client_endpoint_key from) s.udp_sessions ≡ some session
        → client_endpoint_key session.client_addr ≡ client_endpoint_key from
        → IsTarget session.target_addr s.target_endpoints
        → Routed s before (
            went session.upstream_socket bytes session.target_addr
            ∷ came s.listen_socket bytes from
            ∷ before)
    is_first :
        (session : UdpSession) (bytes from : Bytes)
        → find_session (client_endpoint_key from) s.udp_sessions ≡ none
        → session.client_addr ≡ from
        → IsTarget session.target_addr s.target_endpoints
        → Routed s before (
            went session.upstream_socket bytes session.target_addr
            ∷ made session.upstream_socket
            ∷ came s.listen_socket bytes from
            ∷ before)
    is_reply :
        (key : Text) (session : UdpSession) (bytes from : Bytes)
        → find_session key s.udp_sessions ≡ some session
        → client_endpoint_key session.client_addr ≡ key
        → Routed s before (
            went s.listen_socket bytes session.client_addr
            ∷ came session.upstream_socket bytes from
            ∷ before)

  along_path :
      (s : UdpState) (before : List Datagram) {after later : List Datagram}
      → later ≡ after
      → Routed s before after
      → Routed s before later
  along_path s before e r = rw e r

  -- The state has its own target endpoints, and its table is one of routes to them.
  abbrev pub HasRoutes : UdpState → Type 0
  HasRoutes s = AreRoutes s.target_endpoints s.udp_sessions

  -- A new session, or none, for a client that has no session.
  new-Routed :
      (s : UdpState) (before : List Datagram) (bytes from : Bytes)
      (r : Option UdpSession × UdpState)
      → find_session (client_endpoint_key from) s.udp_sessions ≡ none
      → IsOf from s.target_endpoints r
      → Routed s before
          (handed_on bytes r.0 (after_session r.0 (came s.listen_socket bytes from ∷ before)))
        × IsRouting s.target_endpoints r.1
  new-Routed s before bytes from (none, s') absent h =
      (is_dropped s.listen_socket bytes from (inr (refl, absent)), h)
  new-Routed s before bytes from (some session, s') absent (same, to, h) =
      (is_first session bytes from absent same to, h)

  -- The datagram is handed on, after the look-up of the session.
  found-Routed :
      (s : UdpState) (before : List Datagram) (bytes from : Bytes) (t : Trace)
      → datagrams t ≡ came s.listen_socket bytes from ∷ before
      → HasRoutes s
      → let ((found, s'), u) = get_or_create_udp_session from s t in
        Routed s before (handed_on bytes found (datagrams u)) × IsRouting s.target_endpoints s'
  unfolding get_or_create_udp_session
  found-Routed s before bytes from t now keyed =
      let key = client_endpoint_key from in
      elim (Option-cases (find_session key s.udp_sessions)) [
        | inl e ↦
            let ((found, s'), u) = create_session key from s t in
            let made_for = create_session-IsOf from s.target_endpoints s t (refl, keyed) in
            let (routed, kept) = new-Routed s before bytes from (found, s') e made_for in
            let path = datagrams-create_session key from s t ∙ ap (after_session found) now in
            rw e (along_path s before (ap (handed_on bytes found) path) routed, kept)
        | inr (session, e) ↦
            let (client, to) = found_route s.target_endpoints key session s.udp_sessions e keyed in
            rw e (
              along_path s before
                  (ap (λ ds. went session.upstream_socket bytes session.target_addr ∷ ds) now)
                  (is_request session bytes from e client to),
              (refl, keyed),
            )
      ]

  received-Routed :
      (s : UdpState) (t : Trace) (r : Option (Bytes × Bytes))
      → HasRoutes s
      → let (s', u) = datagram_received s r (recvfrom_call s.listen_socket udp_buffer_size r ∷ t) in
        Routed s (datagrams t) (datagrams u) × IsRouting s.target_endpoints s'
  unfolding datagram_received
  received-Routed s t none keyed = (
    along_path s (datagrams t) (datagrams-maybe_cleanup s _) is_silent,
    maybe_cleanup-IsRouting s.target_endpoints s _ (refl, keyed),
  )
  received-Routed s t (some ([], from)) keyed = (
    along_path s (datagrams t) (datagrams-maybe_cleanup s _)
        (is_dropped s.listen_socket [] from (inl refl)),
    maybe_cleanup-IsRouting s.target_endpoints s _ (refl, keyed),
  )
  received-Routed s t (some (b ∷ bytes, from)) keyed =
      let es = s.target_endpoints in
      let t1 = recvfrom_call s.listen_socket udp_buffer_size (some (b ∷ bytes, from)) ∷ t in
      let key = client_endpoint_key from in
      let ((found, s1), t2) = get_or_create_udp_session from s t1 in
      let (s2, t3) = forward_datagram key (b ∷ bytes) (found, s1) t2 in
      let (routed, kept) = found-Routed s (datagrams t) (b ∷ bytes) from t1 refl keyed in
      (
        along_path s (datagrams t)
            (datagrams-maybe_cleanup s2 t3 ∙ forward-datagrams key (b ∷ bytes) found s1 t2) routed,
        maybe_cleanup-IsRouting es s2 t3 (forward-IsRouting es key (b ∷ bytes) found s1 t2 kept),
      )

  upstream_received-Routed :
      (s : UdpState) (key : Text) (session : UdpSession) (t : Trace) (r : Option (Bytes × Bytes))
      → find_session key s.udp_sessions ≡ some session
      → HasRoutes s
      → let ((_, session'), u) =
          upstream_received s.config s.listen_socket session r
            (recvfrom_call session.upstream_socket udp_buffer_size r ∷ t) in
        Routed s (datagrams t) (datagrams u) × SameEnds session' session
  unfolding upstream_received sent_to_client
  upstream_received-Routed s key session t none found keyed =
      let t1 = recvfrom_call session.upstream_socket udp_buffer_size none ∷ t in
      elim (Bool-cases (is_transient_recv_error (os.errno t1))) [
        | inl again ↦ rw again (is_silent, (refl, refl))
        | inr failed ↦ rw failed (is_silent, (refl, refl))
      ]
  upstream_received-Routed s key session t (some ([], from)) found keyed =
      (is_dropped session.upstream_socket [] from (inl refl), (refl, refl))
  upstream_received-Routed s key session t (some (b ∷ bytes, from)) found keyed =
      let t1 = recvfrom_call session.upstream_socket udp_buffer_size (some (b ∷ bytes, from)) ∷ t in
      let (sent, t2) = Calls.sendto s.listen_socket (b ∷ bytes) session.client_addr t1 in
      let (client, to) = found_route s.target_endpoints key session s.udp_sessions found keyed in
      let reply = is_reply key session (b ∷ bytes) from found client in
      elim (Bool-cases (is_nonpos sent)) [
        | inl failed ↦ rw failed (reply, (refl, refl))
        | inr ok ↦ rw ok (
          along_path s (datagrams t) (datagrams-debug_line s.config.udp_debug _ t2) reply,
          (refl, refl),
        )
      ]

  upstream_round-Routed :
      (s : UdpState) (key : Text) (session : UdpSession) (t : Trace)
      → find_session key s.udp_sessions ≡ some session
      → HasRoutes s
      → let ((_, session'), u) = upstream_round s.config s.listen_socket session t in
        Routed s (datagrams t) (datagrams u) × SameEnds session' session
  unfolding upstream_round
  upstream_round-Routed s key session t found keyed = elim (Bool-cases session.marked_for_close) [
    | inl marked ↦ simp marked (is_silent, (refl, refl))
    | inr open_ ↦
        let (r, u) = Calls.recvfrom session.upstream_socket udp_buffer_size t in
        simp open_ (upstream_received-Routed s key session t r found keyed)
  ]

  own-HasRoutes : (es : List ResolvedEndpoint) (s : UdpState) → IsRouting es s → HasRoutes s
  own-HasRoutes es s (same, keyed) = rw same keyed

  Step-Routed :
      {s t : System}
      → Step s t
      → HasRoutes s.state
      → Routed s.state (datagrams s.trace) (datagrams t.trace) × HasRoutes t.state
  unfolding udp_round
  Step-Routed {s} (Step.serves_client e) keyed =
      let (r, u) = Calls.recvfrom s.state.listen_socket udp_buffer_size s.trace in
      let s' = (datagram_received s.state r u).0 in
      let (routed, kept) = received-Routed s.state s.trace r keyed in
      rw e (routed, own-HasRoutes s.state.target_endpoints s' kept)
  Step-Routed {s} (Step.serves_target key session found e) keyed =
      let ((on, session'), u) =
        upstream_round s.state.config s.state.listen_socket session s.trace in
      let (routed, same) = upstream_round-Routed s.state key session s.trace found keyed in
      rw e (
        routed,
        replace-AreRoutes s.state.target_endpoints key session session' s.state.udp_sessions found
            same keyed,
      )

  Reach-HasRoutes : {s t : System} → HasRoutes s.state → Reach s t → HasRoutes t.state
  Reach-HasRoutes keyed Reach.here = keyed
  Reach-HasRoutes keyed (Reach.later r step) = (Step-Routed step (Reach-HasRoutes keyed r)).1

  -- Take a state whose table has each session under the text of the address of its client, with the
  -- address of one of the target endpoints of the state as its target; and any interleaving of the
  -- rounds of the UDP threads. Every round that follows does one of these: it gets no datagram; it
  -- drops the one that it gets, which is empty, or comes on the listening socket from a client that has
  -- no session in the table; it hands one datagram from a client, as it is, once, to `sendto` on the
  -- socket of the session of that client, for the target of that session, which is one of the
  -- endpoints; or, where the client has no session, on a socket that it has just made, that of a new
  -- session of that client, for one of the endpoints; or it hands one datagram that came on the socket
  -- of a session in the table, as it is, once, to `sendto` on the listening socket, for the client of
  -- that session.
  pub every_round-Routed :
      {s t u : System}
      → HasRoutes s.state
      → Reach s t
      → Step t u
      → Routed t.state (datagrams t.trace) (datagrams u.trace)
  every_round-Routed keyed r step = (Step-Routed step (Reach-HasRoutes keyed r)).0
