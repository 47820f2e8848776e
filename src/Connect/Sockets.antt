-- ===== src/Connect/Sockets.antt =====
-- Which sockets are open after an attempt to reach an endpoint.
use port_forward_x.Prelude.{
  ℕ, ◌≡◌, refl, Bool, true, false, ◌&&◌, ◌⊎◌, inl, inr, List, [], ◌∷◌, arith, if◌then◌else◌,
}
use port_forward_x.Config.{TransportProtocol, tcp, udp}
use port_forward_x.System.{SocketHandle, invalid_socket, handle, Os, Trace}
use port_forward_x.System.Sockets.{is_open, is_handle, IsPosix}
use port_forward_x.Platform.{ErrorOut}
use port_forward_x.Endpoint.{ResolvedEndpoint}
use port_forward_x.Connect.{
  Attempt, opened, connect_loop, connect_to_endpoints, connect_candidate, try_endpoint, prepare,
  prepare_udp,
}

-- `n` is the socket that the attempt hands over.
abbrev pub hands_over : ℕ → Attempt → Bool
hands_over n (opened s) = is_handle n s
hands_over n (Attempt.exhausted e) = false

pub Attempt-cases :
    (a : Attempt) → ((s : SocketHandle) × (a ≡ opened s)) ⊎ ((e : ℕ) × (a ≡ Attempt.exhausted e))
Attempt-cases (opened s) = inl (s, refl)
Attempt-cases (Attempt.exhausted e) = inr (e, refl)

module _ ⦃os : Os⦄ (n : ℕ) where
  pub is_open-prepare_udp :
      (s : SocketHandle) (t : Trace) → is_open n (prepare_udp s t).1 ≡ is_open n t
  unfolding prepare_udp
  is_open-prepare_udp s t = ground arith

  pub is_open-prepare :
      (protocol : TransportProtocol) (s : SocketHandle) (t : Trace)
      → is_open n (prepare protocol s t).1 ≡ is_open n t
  unfolding prepare
  is_open-prepare tcp s t = refl
  is_open-prepare udp s t = ground arith

  module _ (posix : IsPosix os) where
    is_open-connect_candidate :
        (e : ResolvedEndpoint) (protocol : TransportProtocol) (s : SocketHandle) (t u : Trace)
        → ((m : ℕ) → s ≡ handle m → is_open m u ≡ false)
        → is_open n t ≡ (if is_handle n s then true else is_open n u)
        → is_open n (connect_candidate e protocol s t).1
          ≡ (if hands_over n (connect_candidate e protocol s t).0 then true else is_open n u)
    unfolding connect_candidate
    is_open-connect_candidate e protocol invalid_socket t u fresh now = now
    is_open-connect_candidate e protocol (handle m) t u fresh now =
        ground (arith, fresh m refl, is_open-prepare protocol (handle m) t)

    pub is_open-try_endpoint :
        (e : ResolvedEndpoint) (protocol : TransportProtocol) (t : Trace)
        → is_open n (try_endpoint e protocol t).1
          ≡ (if hands_over n (try_endpoint e protocol t).0 then true else is_open n t)
    unfolding try_endpoint
    is_open-try_endpoint e protocol t =
        is_open-connect_candidate e protocol _ _ t (λ m. posix.socket_fresh _ _ _ t m) refl

    is_open-connect_loop :
        (es : List ResolvedEndpoint) (protocol : TransportProtocol) (last_error : ℕ) (t : Trace)
        → is_open n (connect_loop es protocol last_error t).1
          ≡ (if hands_over n (connect_loop es protocol last_error t).0 then true else is_open n t)
    unfolding connect_loop
    is_open-connect_loop [] protocol last_error t = refl
    is_open-connect_loop (e ∷ es) protocol last_error t =
        elim (Attempt-cases (try_endpoint e protocol t).0) [
          | inl (s, done) ↦ ground (arith, done, is_open-try_endpoint e protocol t)
          | inr (err, more) ↦ ground (
            arith,
            more,
            is_open-try_endpoint e protocol t,
            is_open-connect_loop es protocol err (try_endpoint e protocol t).1,
          )
        ]

    -- If `socket` returns only descriptors that are not open, then after `connect_to_endpoints` the
    -- open sockets are those from before and, where it reports success, the one that it returns:
    -- no attempt that failed leaves a socket open.
    pub connect_to_endpoints_sockets :
        (es : List ResolvedEndpoint) (protocol : TransportProtocol) (out : SocketHandle)
        (error : ErrorOut) (t : Trace)
        → let ((connected, s, _), u) = connect_to_endpoints es protocol out error t in
          is_open n u ≡ (if connected && is_handle n s then true else is_open n t)
    unfolding connect_to_endpoints
    connect_to_endpoints_sockets es protocol out error t =
        elim (Attempt-cases (connect_loop es protocol 0 t).0) [
          | inl (s, done) ↦ ground (arith, done, is_open-connect_loop es protocol 0 t)
          | inr (err, more) ↦ ground (arith, more, is_open-connect_loop es protocol 0 t)
        ]
