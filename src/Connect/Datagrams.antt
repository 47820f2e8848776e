-- ===== src/Connect/Datagrams.antt =====
-- Which sockets are open after `CreateUdpSocketForEndpoint`.
use port_forward_x.Prelude.{
  ℕ, ◌≡◌, refl, ◌⊎◌, inl, inr, Bool, true, false, List, [], ◌∷◌, Option, some, none, arith,
  if◌then◌else◌, ltb, Bool-cases, ==_iff,
}
use port_forward_x.System.{SocketHandle, invalid_socket, handle, Os, Trace, sock_dgram, ipproto_udp}
use port_forward_x.System.Sockets.{is_open, is_handle, IsPosix}
use port_forward_x.Platform.{ErrorOut}
use port_forward_x.Endpoint.{ResolvedEndpoint}
use port_forward_x.Connect.{
  UdpTarget, UdpAttempt, created, create_candidate, try_udp_endpoint, create_loop,
  create_udp_socket_for_endpoint,
}
use port_forward_x.Connect.Sockets.{is_open-prepare_udp}

-- `n` is the socket of the target that an attempt or a call hands over.
abbrev gives : ℕ → UdpAttempt → Bool
gives n (created target) = is_handle n target.upstream
gives n (UdpAttempt.exhausted e) = false

abbrev pub has_socket : ℕ → Option UdpTarget → Bool
has_socket n none = false
has_socket n (some target) = is_handle n target.upstream

pub UdpAttempt-cases :
    (a : UdpAttempt)
    → ((s : UdpTarget) × (a ≡ created s)) ⊎ ((e : ℕ) × (a ≡ UdpAttempt.exhausted e))
UdpAttempt-cases (created s) = inl (s, refl)
UdpAttempt-cases (UdpAttempt.exhausted e) = inr (e, refl)

module _ ⦃os : Os⦄ (n : ℕ) where
  is_open-create_candidate :
      (e : ResolvedEndpoint) (s : SocketHandle) (t : Trace) (old : Bool)
      → is_open n t ≡ (if is_handle n s then true else old)
      → is_open n (create_candidate e s t).1
        ≡ (if gives n (create_candidate e s t).0 then true else old)
  unfolding create_candidate
  is_open-create_candidate e invalid_socket t old now = now
  is_open-create_candidate e (handle m) t old now =
      ground (arith, is_open-prepare_udp n (handle m) t)

  is_open-try_udp_endpoint :
      (e : ResolvedEndpoint) (last_error : ℕ) (t : Trace)
      → is_open n (try_udp_endpoint e last_error t).1
        ≡ (if gives n (try_udp_endpoint e last_error t).0 then true else is_open n t)
  unfolding try_udp_endpoint
  is_open-try_udp_endpoint e last_error t =
      elim (Bool-cases (ltb os.sizeof_sockaddr_storage e.sockaddr_len)) [
        | inl long ↦ rw long
        | inr fits ↦ rw fits (is_open-create_candidate e _ _ (is_open n t) refl)
      ]

  is_open-create_loop :
      (es : List ResolvedEndpoint) (last_error : ℕ) (t : Trace)
      → is_open n (create_loop es last_error t).1
        ≡ (if gives n (create_loop es last_error t).0 then true else is_open n t)
  unfolding create_loop
  is_open-create_loop [] last_error t = refl
  is_open-create_loop (e ∷ es) last_error t =
      elim (UdpAttempt-cases (try_udp_endpoint e last_error t).0) [
        | inl (s, done) ↦ ground (arith, done, is_open-try_udp_endpoint e last_error t)
        | inr (err, more) ↦ ground (
          arith,
          more,
          is_open-try_udp_endpoint e last_error t,
          is_open-create_loop es err (try_udp_endpoint e last_error t).1,
        )
      ]

  -- After `create_udp_socket_for_endpoint` the open sockets are those from before and, where it
  -- reports success, the one of the target that it returns.
  pub create_udp_socket_for_endpoint_sockets :
      (es : List ResolvedEndpoint) (error : ErrorOut) (t : Trace)
      → let ((target, _), u) = create_udp_socket_for_endpoint es error t in
        is_open n u ≡ (if has_socket n target then true else is_open n t)
  unfolding create_udp_socket_for_endpoint
  create_udp_socket_for_endpoint_sockets es error t =
      elim (UdpAttempt-cases (create_loop es 0 t).0) [
        | inl (s, done) ↦ ground (arith, done, is_open-create_loop es 0 t)
        | inr (err, more) ↦ ground (arith, more, is_open-create_loop es 0 t)
      ]

  fresh_candidate :
      (e : ResolvedEndpoint) (s : SocketHandle) (t u : Trace)
      → ((m : ℕ) → s ≡ handle m → is_open m u ≡ false)
      → gives n (create_candidate e s t).0 ≡ true
      → is_open n u ≡ false
  unfolding create_candidate
  fresh_candidate e invalid_socket t u fresh h = cc
  fresh_candidate e (handle m) t u fresh h = rw (← (==_iff m n).0 h) (fresh m refl)

  fresh_try :
      IsPosix os
      → (e : ResolvedEndpoint) (last_error : ℕ) (t : Trace)
      → gives n (try_udp_endpoint e last_error t).0 ≡ true
      → is_open n t ≡ false
  unfolding try_udp_endpoint
  fresh_try posix e last_error t h =
      elim (Bool-cases (ltb os.sizeof_sockaddr_storage e.sockaddr_len)) [
        | inl long ↦ cc (rw long at h)
        | inr fits ↦
            fresh_candidate e (os.socket e.family sock_dgram ipproto_udp t) _ t
              (λ m. posix.socket_fresh _ _ _ t m) (rw fits at h)
      ]

  fresh_loop :
      IsPosix os
      → (es : List ResolvedEndpoint) (last_error : ℕ) (t : Trace)
      → gives n (create_loop es last_error t).0 ≡ true
      → is_open n t ≡ false
  unfolding create_loop
  fresh_loop posix [] last_error t h = cc
  fresh_loop posix (e ∷ es) last_error t h =
      elim (UdpAttempt-cases (try_udp_endpoint e last_error t).0) [
        | inl (s, done) ↦ fresh_try posix e last_error t (ground (arith, done, h))
        | inr (err, more) ↦ ground (
          arith,
          more,
          is_open-try_udp_endpoint e last_error t,
          fresh_loop posix es err (try_udp_endpoint e last_error t).1,
        )
      ]

  -- If `socket` returns only descriptors that are not open, the socket of the target that a call
  -- returns was not open before.
  pub create_udp_socket_for_endpoint_fresh :
      IsPosix os
      → (es : List ResolvedEndpoint) (error : ErrorOut) (t : Trace)
      → has_socket n (create_udp_socket_for_endpoint es error t).0.0 ≡ true
      → is_open n t ≡ false
  unfolding create_udp_socket_for_endpoint
  create_udp_socket_for_endpoint_fresh posix es error t h =
      elim (UdpAttempt-cases (create_loop es 0 t).0) [
        | inl (s, done) ↦ fresh_loop posix es 0 t (ground (arith, done, h))
        | inr (err, more) ↦ ground (arith, more, h)
      ]
