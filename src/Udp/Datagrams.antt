-- ===== src/Udp/Datagrams.antt =====
-- The datagrams in a history of calls: those that came, those that were handed to the system, and the
-- sockets that were made.
use port_forward_x.Prelude.{
  ℕ, ◌*◌, ◌≡◌, refl, ◌∙◌, inl, inr, Bool, true, false, List, [], ◌∷◌, Option, none, some, arith,
  ltb, is_empty, Bool-cases, Text,
}
use port_forward_x.System.{
  Bytes, SocketHandle, invalid_socket, handle, Os, Trace, Event, recvfrom_call, sendto_call,
  socket_call, clock_call, sock_dgram, ipproto_udp,
}
use port_forward_x.System.Calls
use port_forward_x.Connect.Datagrams.{UdpAttempt-cases}
use port_forward_x.Platform.{ErrorOut, close_socket, shutdown_both}
use port_forward_x.Endpoint.{ResolvedEndpoint}
use port_forward_x.Connect.{
  UdpTarget, UdpAttempt, created, prepare_udp, create_candidate, try_udp_endpoint, create_loop,
  create_udp_socket_for_endpoint,
}
use port_forward_x.Udp.{
  UdpSession, UdpState, Reason, sweep, close_all, cleanup_idle_udp_sessions,
  maybe_cleanup_idle_udp_sessions, new_session, add_session, created_session, create_session,
}
use port_forward_x.Udp.Loops.{debug_line}

-- A datagram that came on a socket from an address, or went out on one to an address; and a new socket.
pub data Datagram : Type 0 where
  came went : SocketHandle → Bytes → Bytes → Datagram
  made : SocketHandle → Datagram

abbrev with_made : SocketHandle → List Datagram → List Datagram
with_made invalid_socket rest = rest
with_made (handle n) rest = made (handle n) ∷ rest

abbrev pub seen : Event → List Datagram → List Datagram
seen (socket_call f y p s) rest = with_made s rest
seen (recvfrom_call s size (some (bytes, from))) rest = came s bytes from ∷ rest
seen (sendto_call s bytes to sent) rest = went s bytes to ∷ rest
seen _ rest = rest

-- The latest first.
abbrev pub datagrams : Trace → List Datagram
datagrams [] = []
datagrams (e ∷ t) = seen e (datagrams t)

datagrams-close_socket :
    (s : SocketHandle) (t : Trace) → datagrams (close_socket s t).1 ≡ datagrams t
unfolding close_socket
datagrams-close_socket invalid_socket t = refl
datagrams-close_socket (handle n) t = refl

pub datagrams-debug_line :
    (b : Bool) (text : Text) (t : Trace) → datagrams (debug_line b text t).1 ≡ datagrams t
unfolding debug_line
datagrams-debug_line true text t = refl
datagrams-debug_line false text t = refl

module _ ⦃os : Os⦄ where
  datagrams-shutdown_both :
      (s : SocketHandle) (t : Trace) → datagrams (shutdown_both s t).1 ≡ datagrams t
  unfolding shutdown_both
  datagrams-shutdown_both invalid_socket t = refl
  datagrams-shutdown_both (handle n) t = refl

  datagrams-close_all :
      (debug : Bool) (now : ℕ) (closing : List (UdpSession × Reason)) (t : Trace)
      → datagrams (close_all debug now closing t).1 ≡ datagrams t
  unfolding close_all
  datagrams-close_all debug now [] t = refl
  datagrams-close_all debug now ((session, reason) ∷ rest) t =
      datagrams-close_all debug now rest _
      ∙ (datagrams-close_socket session.upstream_socket _
          ∙ datagrams-shutdown_both session.upstream_socket _)

  datagrams-cleanup :
      (force_all : Bool) (s : UdpState) (t : Trace)
      → datagrams (cleanup_idle_udp_sessions force_all s t).1 ≡ datagrams t
  unfolding cleanup_idle_udp_sessions
  datagrams-cleanup force_all s t =
      let now = os.steady_clock_ms t in
      let T = s.config.udp_session_idle_timeout_seconds * 1000 in
      let swept = sweep force_all now T s.udp_sessions in
      datagrams-close_all s.config.udp_debug now swept.1 (clock_call now ∷ t)

  pub datagrams-maybe_cleanup :
      (s : UdpState) (t : Trace) → datagrams (maybe_cleanup_idle_udp_sessions s t).1 ≡ datagrams t
  unfolding maybe_cleanup_idle_udp_sessions
  datagrams-maybe_cleanup s t =
      let now = os.steady_clock_ms t in
      ground (
        arith,
        datagrams-cleanup false (record s { last_udp_cleanup_ms = now }) (clock_call now ∷ t),
      )

  datagrams-prepare_udp :
      (s : SocketHandle) (t : Trace) → datagrams (prepare_udp s t).1 ≡ datagrams t
  unfolding prepare_udp
  datagrams-prepare_udp s t = ground arith

  -- With the socket that an attempt made.
  abbrev after_attempt : UdpAttempt → List Datagram → List Datagram
  after_attempt (created target) rest = made target.upstream ∷ rest
  after_attempt (UdpAttempt.exhausted err) rest = rest

  datagrams-create_candidate :
      (e : ResolvedEndpoint) (s : SocketHandle) (t : Trace) (rest : List Datagram)
      → datagrams t ≡ with_made s rest
      → let (attempt, u) = create_candidate e s t in datagrams u ≡ after_attempt attempt rest
  unfolding create_candidate
  datagrams-create_candidate e invalid_socket t rest h = h
  datagrams-create_candidate e (handle n) t rest h = datagrams-prepare_udp (handle n) t ∙ h

  datagrams-try_udp_endpoint :
      (e : ResolvedEndpoint) (last_error : ℕ) (t : Trace)
      → let (attempt, u) = try_udp_endpoint e last_error t in
        datagrams u ≡ after_attempt attempt (datagrams t)
  unfolding try_udp_endpoint
  datagrams-try_udp_endpoint e last_error t =
      elim (Bool-cases (ltb os.sizeof_sockaddr_storage e.sockaddr_len)) [
        | inl long ↦ rw long refl
        | inr fits ↦
            let (s, u) = Calls.socket e.family sock_dgram ipproto_udp t in
            rw fits (datagrams-create_candidate e s u (datagrams t) refl)
      ]

  datagrams-create_loop :
      (es : List ResolvedEndpoint) (last_error : ℕ) (t : Trace)
      → let (attempt, u) = create_loop es last_error t in
        datagrams u ≡ after_attempt attempt (datagrams t)
  unfolding create_loop
  datagrams-create_loop [] last_error t = refl
  datagrams-create_loop (e ∷ es) last_error t =
      elim (UdpAttempt-cases (try_udp_endpoint e last_error t).0) [
        | inl (target, done) ↦ ground (arith, done, datagrams-try_udp_endpoint e last_error t)
        | inr (err, more) ↦ ground (
          arith,
          more,
          datagrams-try_udp_endpoint e last_error t,
          datagrams-create_loop es err (try_udp_endpoint e last_error t).1,
        )
      ]

  -- With the socket of the target, or of the session, that there is now.
  abbrev after_create : Option UdpTarget → List Datagram → List Datagram
  after_create none rest = rest
  after_create (some target) rest = made target.upstream ∷ rest

  abbrev pub after_session : Option UdpSession → List Datagram → List Datagram
  after_session none rest = rest
  after_session (some session) rest = made session.upstream_socket ∷ rest

  datagrams-create_udp_socket :
      (es : List ResolvedEndpoint) (error : ErrorOut) (t : Trace)
      → let ((target, _), u) = create_udp_socket_for_endpoint es error t in
        datagrams u ≡ after_create target (datagrams t)
  unfolding create_udp_socket_for_endpoint
  datagrams-create_udp_socket es error t = elim (UdpAttempt-cases (create_loop es 0 t).0) [
    | inl (target, done) ↦ ground (arith, done, datagrams-create_loop es 0 t)
    | inr (err, more) ↦ ground (arith, more, datagrams-create_loop es 0 t)
  ]

  datagrams-created_session :
      (key : Text) (addr : Bytes) (s : UdpState) (r : Option UdpTarget × ErrorOut) (t : Trace)
      (rest : List Datagram)
      → datagrams t ≡ after_create r.0 rest
      → let ((found, s'), u) = created_session key addr s r t in
        datagrams u ≡ after_session found rest
  unfolding add_session new_session
  datagrams-created_session key addr s (some target, error) t rest h = h
  datagrams-created_session key addr s (none, error) t rest h = h

  pub datagrams-create_session :
      (key : Text) (addr : Bytes) (s : UdpState) (t : Trace)
      → let ((found, s'), u) = create_session key addr s t in
        datagrams u ≡ after_session found (datagrams t)
  unfolding create_session
  datagrams-create_session key addr s t = elim (Bool-cases (is_empty s.target_endpoints)) [
    | inl nothing ↦ rw nothing refl
    | inr some_target ↦
        let (r, u) = create_udp_socket_for_endpoint s.target_endpoints (some []) t in
        rw some_target (
          datagrams-created_session key addr s r u (datagrams t)
            (datagrams-create_udp_socket s.target_endpoints (some []) t))
  ]
