-- ===== src/Connect/Fresh.antt =====
-- The socket that `ConnectToEndpoints` returns is a new one.
use port_forward_x.Prelude.{
  ℕ, ◌≡◌, ◌==◌, refl, ◌&&◌, inl, inr, true, false, List, [], ◌∷◌, arith, ==_iff,
}
use port_forward_x.Config.{TransportProtocol}
use port_forward_x.System.{SocketHandle, invalid_socket, handle, Os, Trace}
use port_forward_x.System.Sockets.{is_open, is_handle, IsPosix}
use port_forward_x.Platform.{ErrorOut}
use port_forward_x.Endpoint.{ResolvedEndpoint, native_socket_type, native_socket_protocol}
use port_forward_x.Connect.{connect_loop, connect_to_endpoints, connect_candidate, try_endpoint}
use port_forward_x.Connect.Sockets.{hands_over, Attempt-cases, is_open-try_endpoint}

module _ ⦃os : Os⦄ (n : ℕ) where
  fresh_candidate :
      (e : ResolvedEndpoint) (protocol : TransportProtocol) (s : SocketHandle) (t u : Trace)
      → ((m : ℕ) → s ≡ handle m → is_open m u ≡ false)
      → hands_over n (connect_candidate e protocol s t).0 ≡ true
      → is_open n u ≡ false
  unfolding connect_candidate
  fresh_candidate e protocol invalid_socket t u fresh h = cc
  fresh_candidate e protocol (handle m) t u fresh h =
      let same : (m == n) ≡ true = ground arith in rw (← (==_iff m n).0 same) (fresh m refl)

  fresh_try :
      IsPosix os
      → (e : ResolvedEndpoint) (protocol : TransportProtocol) (t : Trace)
      → hands_over n (try_endpoint e protocol t).0 ≡ true
      → is_open n t ≡ false
  unfolding try_endpoint
  fresh_try posix e protocol t h =
      fresh_candidate e protocol
        (os.socket e.family (native_socket_type protocol) (native_socket_protocol protocol) t) _ t
        (λ m. posix.socket_fresh _ _ _ t m) h

  fresh_loop :
      IsPosix os
      → (es : List ResolvedEndpoint) (protocol : TransportProtocol) (last_error : ℕ) (t : Trace)
      → hands_over n (connect_loop es protocol last_error t).0 ≡ true
      → is_open n t ≡ false
  unfolding connect_loop
  fresh_loop posix [] protocol last_error t h = cc
  fresh_loop posix (e ∷ es) protocol last_error t h =
      elim (Attempt-cases (try_endpoint e protocol t).0) [
        | inl (s, done) ↦ fresh_try posix e protocol t (ground (arith, done, h))
        | inr (err, more) ↦ ground (
          arith,
          more,
          is_open-try_endpoint n posix e protocol t,
          fresh_loop posix es protocol err (try_endpoint e protocol t).1,
        )
      ]

  -- If `socket` returns only descriptors that are not open, the socket that a successful call returns
  -- was not open before.
  pub connect_to_endpoints_fresh :
      IsPosix os
      → (es : List ResolvedEndpoint) (protocol : TransportProtocol) (out : SocketHandle)
        (error : ErrorOut) (t : Trace)
      → let (connected, s, _) = (connect_to_endpoints es protocol out error t).0 in
        (connected && is_handle n s) ≡ true → is_open n t ≡ false
  unfolding connect_to_endpoints
  connect_to_endpoints_fresh posix es protocol out error t h =
      elim (Attempt-cases (connect_loop es protocol 0 t).0) [
        | inl (s, done) ↦ fresh_loop posix es protocol 0 t (ground (arith, done, h))
        | inr (err, more) ↦ ground (arith, more, h)
      ]
