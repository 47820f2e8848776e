-- ===== src/Udp/Delivery.antt =====
-- Lemmas on the table of the sessions and the clients that they belong to, and on the datagrams that
-- the parts of a round hand to the system.
use port_forward_x.Prelude.{
  ℕ, ◌*◌, ◌≡◌, refl, ap, sym, ◌∙◌, ◌⊎◌, inl, inr, arith, Bool, false, List, [], ◌∷◌, All, Option,
  none, some, ltb, is_empty, Bool-cases, Text, text_eq, text_eq_iff, ℤ, is_nonpos, to_size,
}
use port_forward_x.System.{
  Bytes, SocketHandle, invalid_socket, handle, Os, Trace, clock_call, sock_dgram, ipproto_udp,
}
use port_forward_x.System.Calls
use port_forward_x.Platform.{ErrorOut}
use port_forward_x.Connect.{
  UdpTarget, created, address, create_candidate, try_udp_endpoint, create_loop,
  create_udp_socket_for_endpoint,
}
use port_forward_x.Connect.Datagrams.{UdpAttempt-cases}
use port_forward_x.Endpoint.{ResolvedEndpoint, client_endpoint_key, now_monotonic_ms}
use port_forward_x.Udp.{
  UdpSession, UdpState, Sessions, find_session, update_session, sub64, udp_cleanup_interval_ms,
  sweep, should_close, cleanup_idle_udp_sessions, maybe_cleanup_idle_udp_sessions, new_session,
  add_session, created_session, create_session,
}
use port_forward_x.Udp.Loops.{
  change_session, touch, mark_for_close, count_to_target, forward_datagram, send_to_target,
  sent_to_target,
}
use port_forward_x.Udp.Datagrams.{Datagram, went, datagrams, datagrams-debug_line}

module _ ⦃os : Os⦄ where
  -- The address of one of the endpoints.
  abbrev pub IsTarget : Bytes → List ResolvedEndpoint → Type 0
  IsTarget to [] = ⊥
  IsTarget to (e ∷ es) = (to ≡ address e) ⊎ IsTarget to es

  -- Every session is in the table under the text of the address of its client, and its target is one of
  -- the endpoints.
  abbrev pub AreRoutes : List ResolvedEndpoint → Sessions → Type 0
  AreRoutes es table =
      All
        (λ (p : Text × UdpSession).
          (client_endpoint_key p.1.client_addr ≡ p.0) × IsTarget p.1.target_addr es)
        table

  -- Two sessions have the same two addresses.
  abbrev pub SameEnds : UdpSession → UdpSession → Type 0
  SameEnds new old = (new.client_addr ≡ old.client_addr) × (new.target_addr ≡ old.target_addr)

  same-IsTarget : {a b : Bytes} (es : List ResolvedEndpoint) → a ≡ b → IsTarget b es → IsTarget a es
  same-IsTarget es e h = rw e h

  update-AreRoutes :
      (es : List ResolvedEndpoint) (key : Text) (change : UdpSession → UdpSession)
      (table : Sessions)
      → ((s : UdpSession) → SameEnds (change s) s)
      → AreRoutes es table
      → AreRoutes es (update_session key change table)
  unfolding update_session
  update-AreRoutes es key change [] same keyed = tt
  update-AreRoutes es key change ((k, s) ∷ rest) same ((here, to), others) =
      let (client, target) = same s in
      elim (Bool-cases (text_eq k key)) [
        | inl e ↦ rw e ((ap client_endpoint_key client ∙ here, same-IsTarget es target to), others)
        | inr e ↦ rw e ((here, to), update-AreRoutes es key change rest same others)
      ]

  pub replace-AreRoutes :
      (es : List ResolvedEndpoint) (key : Text) (old new : UdpSession) (table : Sessions)
      → find_session key table ≡ some old
      → SameEnds new old
      → AreRoutes es table
      → AreRoutes es (update_session key (λ _. new) table)
  unfolding update_session find_session
  replace-AreRoutes es key old new [] found same keyed = tt
  replace-AreRoutes es key old new ((k, s) ∷ rest) found (client, target) ((here, to), others) =
      elim (Bool-cases (text_eq k key)) [
        | inl e ↦
            let found' = rw e at found in
            let target' : new.target_addr ≡ s.target_addr = cc (target, found') in
            rw e ((cc (here, client, found'), same-IsTarget es target' to), others)
        | inr e ↦ rw e (
          (here, to),
          replace-AreRoutes es key old new rest (rw e at found) (client, target) others,
        )
      ]

  -- What the table says of the session under a key.
  pub found_route :
      (es : List ResolvedEndpoint) (key : Text) (session : UdpSession) (table : Sessions)
      → find_session key table ≡ some session
      → AreRoutes es table
      → (client_endpoint_key session.client_addr ≡ key) × IsTarget session.target_addr es
  unfolding find_session
  found_route es key session [] found keyed = cc
  found_route es key session ((k, s) ∷ rest) found ((here, to), others) =
      elim (Bool-cases (text_eq k key)) [
        | inl e ↦
            let same = rw e at found in
            let target : session.target_addr ≡ s.target_addr = cc same in
            (cc (here, (text_eq_iff k key).0 e, same), same-IsTarget es target to)
        | inr e ↦ found_route es key session rest (rw e at found) others
      ]

  sweep-AreRoutes :
      (es : List ResolvedEndpoint) (force_all : Bool) (now T : ℕ) (table : Sessions)
      → AreRoutes es table
      → AreRoutes es (sweep force_all now T table).0
  unfolding sweep
  sweep-AreRoutes es force_all now T [] keyed = tt
  sweep-AreRoutes es force_all now T ((k, s) ∷ rest) (here, others) =
      let kept = sweep-AreRoutes es force_all now T rest others in
      elim (Bool-cases (should_close force_all now T s)) [
        | inl closes ↦ rw closes kept
        | inr stays ↦ rw stays (here, kept)
      ]

  -- The state has these target endpoints, and its table is one of routes to them.
  abbrev pub IsRouting : List ResolvedEndpoint → UdpState → Type 0
  IsRouting es s = (s.target_endpoints ≡ es) × AreRoutes es s.udp_sessions

  pub maybe_cleanup-IsRouting :
      (es : List ResolvedEndpoint) (s : UdpState) (t : Trace)
      → IsRouting es s
      → IsRouting es (maybe_cleanup_idle_udp_sessions s t).0
  unfolding maybe_cleanup_idle_udp_sessions cleanup_idle_udp_sessions
  maybe_cleanup-IsRouting es s t (same, keyed) =
      let now = os.steady_clock_ms t in
      let T = s.config.udp_session_idle_timeout_seconds * 1000 in
      elim (Bool-cases (ltb (sub64 now s.last_udp_cleanup_ms) udp_cleanup_interval_ms)) [
        | inl early ↦ rw early (same, keyed)
        | inr due ↦ rw due (
          same,
          sweep-AreRoutes es false (os.steady_clock_ms (clock_call now ∷ t)) T s.udp_sessions keyed,
        )
      ]

  candidate-IsTarget :
      (e : ResolvedEndpoint) (s : SocketHandle) (t : Trace) (target : UdpTarget)
      → (create_candidate e s t).0 ≡ created target
      → target.target_addr ≡ address e
  unfolding create_candidate
  candidate-IsTarget e invalid_socket t target h = cc
  candidate-IsTarget e (handle n) t target h = ground (arith, h)

  try-IsTarget :
      (e : ResolvedEndpoint) (last_error : ℕ) (t : Trace) (target : UdpTarget)
      → (try_udp_endpoint e last_error t).0 ≡ created target
      → target.target_addr ≡ address e
  unfolding try_udp_endpoint
  try-IsTarget e last_error t target h =
      elim (Bool-cases (ltb os.sizeof_sockaddr_storage e.sockaddr_len)) [
        | inl long ↦ cc (rw long at h)
        | inr fits ↦
            let (s, u) = Calls.socket e.family sock_dgram ipproto_udp t in
            candidate-IsTarget e s u target (rw fits at h)
      ]

  loop-IsTarget :
      (es : List ResolvedEndpoint) (last_error : ℕ) (t : Trace) (target : UdpTarget)
      → (create_loop es last_error t).0 ≡ created target
      → IsTarget target.target_addr es
  unfolding create_loop
  loop-IsTarget [] last_error t target h = cc
  loop-IsTarget (e ∷ es) last_error t target h =
      elim (UdpAttempt-cases (try_udp_endpoint e last_error t).0) [
        | inl (c, done) ↦ inl (try-IsTarget e last_error t target (ground (arith, done, h)))
        | inr (err, more) ↦ inr (
            loop-IsTarget es err (try_udp_endpoint e last_error t).1 target
              (ground (arith, more, h)))
      ]

  abbrev HasTarget : List ResolvedEndpoint → Option UdpTarget → Type 0
  HasTarget es none = Unit
  HasTarget es (some target) = IsTarget target.target_addr es

  create_udp_socket-HasTarget :
      (es : List ResolvedEndpoint) (error : ErrorOut) (t : Trace)
      → HasTarget es (create_udp_socket_for_endpoint es error t).0.0
  unfolding create_udp_socket_for_endpoint
  create_udp_socket-HasTarget es error t = elim (UdpAttempt-cases (create_loop es 0 t).0) [
    | inl (target, done) ↦ rw done (loop-IsTarget es 0 t target done)
    | inr (err, more) ↦ rw more tt
  ]

  -- A session that is made belongs to the client, and goes to one of the endpoints.
  abbrev pub IsOf : Bytes → List ResolvedEndpoint → Option UdpSession × UdpState → Type 0
  IsOf addr es (none, s) = IsRouting es s
  IsOf addr es (some session, s) =
      (session.client_addr ≡ addr) × IsTarget session.target_addr es × IsRouting es s

  created_session-IsOf :
      (addr : Bytes) (es : List ResolvedEndpoint) (s : UdpState) (r : Option UdpTarget × ErrorOut)
      (t : Trace)
      → HasTarget es r.0
      → IsRouting es s
      → IsOf addr es (created_session (client_endpoint_key addr) addr s r t).0
  unfolding add_session new_session
  created_session-IsOf addr es s (none, error) t to h = h
  created_session-IsOf addr es s (some target, error) t to (same, keyed) =
      (refl, to, (same, ((refl, to), keyed)))

  pub create_session-IsOf :
      (addr : Bytes) (es : List ResolvedEndpoint) (s : UdpState) (t : Trace)
      → IsRouting es s
      → IsOf addr es (create_session (client_endpoint_key addr) addr s t).0
  unfolding create_session
  create_session-IsOf addr es s t (same, keyed) = elim (Bool-cases (is_empty s.target_endpoints)) [
    | inl nothing ↦ rw nothing (same, keyed)
    | inr some_target ↦
        let (r, u) = create_udp_socket_for_endpoint s.target_endpoints (some []) t in
        rw some_target (
          created_session-IsOf addr es s r u
            (with_same r.0 es s same (create_udp_socket-HasTarget s.target_endpoints (some []) t))
            (same, keyed))
  ]
    where
      with_same :
          (o : Option UdpTarget) (es : List ResolvedEndpoint) (s : UdpState)
          → s.target_endpoints ≡ es
          → HasTarget s.target_endpoints o
          → HasTarget es o
      with_same o es s same h = rw (sym same) h

  sent_to_target-IsRouting :
      (es : List ResolvedEndpoint) (key : Text) (session : UdpSession) (bytes : Bytes) (sent : ℤ)
      (s : UdpState) (t : Trace)
      → IsRouting es s
      → IsRouting es (sent_to_target key session bytes sent s t).0
  unfolding sent_to_target
  sent_to_target-IsRouting es key session bytes sent s t (same, keyed) =
      elim (Bool-cases (is_nonpos sent)) [
        | inl failed ↦
            rw failed (
              same,
              update-AreRoutes es key mark_for_close s.udp_sessions (λ _. (refl, refl)) keyed,
            )
        | inr ok ↦ rw ok (
          same,
          update-AreRoutes es key (count_to_target (to_size sent)) s.udp_sessions
              (λ _. (refl, refl)) keyed,
        )
      ]

  sent_to_target-datagrams :
      (key : Text) (session : UdpSession) (bytes : Bytes) (sent : ℤ) (s : UdpState) (t : Trace)
      → datagrams (sent_to_target key session bytes sent s t).1 ≡ datagrams t
  unfolding sent_to_target
  sent_to_target-datagrams key session bytes sent s t = elim (Bool-cases (is_nonpos sent)) [
    | inl failed ↦ rw failed refl
    | inr ok ↦ rw ok (datagrams-debug_line s.config.udp_debug _ t)
  ]

  pub forward-IsRouting :
      (es : List ResolvedEndpoint) (key : Text) (bytes : Bytes) (found : Option UdpSession)
      (s : UdpState) (t : Trace)
      → IsRouting es s
      → IsRouting es (forward_datagram key bytes (found, s) t).0
  unfolding send_to_target now_monotonic_ms
  forward-IsRouting es key bytes none s t h = h
  forward-IsRouting es key bytes (some session) s t (same, keyed) =
      let (now, u) = now_monotonic_ms t in
      let (sent, v) = Calls.sendto session.upstream_socket bytes session.target_addr u in
      sent_to_target-IsRouting es key session bytes sent (change_session key (touch now) s) v
        (same, update-AreRoutes es key (touch now) s.udp_sessions (λ _. (refl, refl)) keyed)

  -- The datagrams with the one that is handed on.
  abbrev pub handed_on : Bytes → Option UdpSession → List Datagram → List Datagram
  handed_on bytes none before = before
  handed_on bytes (some session) before =
      went session.upstream_socket bytes session.target_addr ∷ before

  pub forward-datagrams :
      (key : Text) (bytes : Bytes) (found : Option UdpSession) (s : UdpState) (t : Trace)
      → datagrams (forward_datagram key bytes (found, s) t).1 ≡ handed_on bytes found (datagrams t)
  unfolding send_to_target now_monotonic_ms
  forward-datagrams key bytes none s t = refl
  forward-datagrams key bytes (some session) s t =
      let (now, u) = now_monotonic_ms t in
      let (sent, v) = Calls.sendto session.upstream_socket bytes session.target_addr u in
      sent_to_target-datagrams key session bytes sent (change_session key (touch now) s) v
