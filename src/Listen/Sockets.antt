-- ===== src/Listen/Sockets.antt =====
-- Which sockets are open after `Impl::Start`.
use port_forward_x.Prelude.{
  ℕ, ◌≡◌, ◌==◌, refl, Bool, true, false, ◌&&◌, inl, inr, List, [], ◌∷◌, none, some, arith,
  if◌then◌else◌, Bool-cases, ==_iff, ◌∙◌, ap,
}
use port_forward_x.Config.{
  ForwardConfig, TransportProtocol, tcp, udp, AddressFamilyPreference, is_auto,
}
use port_forward_x.Config.Families.{effective_listen_family}
use port_forward_x.System.{SocketHandle, invalid_socket, handle, Os, Trace, bind_call}
use port_forward_x.System.Sockets.{is_open, is_handle, IsPosix}
use port_forward_x.Platform.{
  ErrorOut, set_ipv6_only, set_reuse_address, close_socket, ensure_socket_api_initialized,
}
use port_forward_x.Platform.Handles.{
  is_open-close_socket, is_open-set_ipv6_only, is_open-set_reuse_address,
}
use port_forward_x.Endpoint.{
  ResolvedEndpoint, is_ipv6_endpoint, set_udp_recv_timeout, native_socket_type,
  native_socket_protocol, sort_endpoints,
}
use port_forward_x.Connect.{address}
use port_forward_x.Connect.Sockets.{is_open-prepare_udp}
use port_forward_x.Resolver.{resolve}
use port_forward_x.Targets.{Resolved, resolve_target_endpoints}
use port_forward_x.Targets.Sockets.{is_open-resolve}
use port_forward_x.Listen.{
  Listener, listen_on, bind_and_listen, listen_candidate, try_listen, listening_on, listen_loop,
  start_on, start_resolved, start,
}

module _ ⦃os : Os⦄ (n : ℕ) where
  -- Of a candidate `m` that was new while `old` told whether `n` is open: it is open if it serves,
  -- and closed otherwise.
  listen_on-open :
      (config : ForwardConfig) (protocol : TransportProtocol) (m : ℕ) (old : Bool) (t : Trace)
      → is_open n t ≡ (if m == n then true else old)
      → ((m == n) ≡ true → old ≡ false)
      → let (serves, u) = listen_on config protocol (handle m) t in
        is_open n u ≡ (if serves && (m == n) then true else old)
  unfolding listen_on close_socket set_udp_recv_timeout
  listen_on-open config tcp m old t now new = ground arith
  listen_on-open config udp m old t now new = ground (arith, is_open-prepare_udp n (handle m) t)

  bound-open :
      (config : ForwardConfig) (m : ℕ) (old bound : Bool) (t : Trace)
      → is_open n t ≡ (if m == n then true else old)
      → ((m == n) ≡ true → old ≡ false)
      → let (serves, u) =
          (if bound
              then listen_on config config.protocol (handle m)
              else port_forward_x.Listen.close_candidate (handle m))
            t in
        is_open n u ≡ (if serves && (m == n) then true else old)
  unfolding close_socket
  bound-open config m old true t now new = listen_on-open config config.protocol m old t now new
  bound-open config m old false t now new = ground arith

  bind_and_listen-open :
      (config : ForwardConfig) (family : AddressFamilyPreference) (e : ResolvedEndpoint) (m : ℕ)
      (old : Bool) (t : Trace)
      → is_open n t ≡ (if m == n then true else old)
      → ((m == n) ≡ true → old ≡ false)
      → let (serves, u) = bind_and_listen config family e (handle m) t in
        is_open n u ≡ (if serves && (m == n) then true else old)
  unfolding bind_and_listen
  bind_and_listen-open config family e m old t now new =
      elim (Bool-cases (is_ipv6_endpoint e && is_auto family)) [
        | inl both ↦
            let u = (set_ipv6_only (handle m) false none t).1 in
            simp both (
              bound-open config m old (os.bind (handle m) (address e) u)
                (bind_call (handle m) (address e) (os.bind (handle m) (address e) u) ∷ u)
                (is_open-set_ipv6_only n (handle m) false none t ∙ now) new)
        | inr other ↦ simp other (
            bound-open config m old (os.bind (handle m) (address e) t)
              (bind_call (handle m) (address e) (os.bind (handle m) (address e) t) ∷ t) now new)
      ]

  listen_candidate-open :
      (config : ForwardConfig) (family : AddressFamilyPreference) (e : ResolvedEndpoint)
      (c : SocketHandle) (old : Bool) (t : Trace)
      → is_open n t ≡ (if is_handle n c then true else old)
      → (is_handle n c ≡ true → old ≡ false)
      → let (serves, u) = listen_candidate config family e c t in
        is_open n u ≡ (if serves && is_handle n c then true else old)
  unfolding listen_candidate
  listen_candidate-open config family e invalid_socket old t now new = now
  listen_candidate-open config family e (handle m) old t now new =
      let (r, u) = set_reuse_address (handle m) (some []) t in
      let same = is_open-set_reuse_address n (handle m) (some []) t in
      elim (Bool-cases r.0) [
        | inl done ↦ simp done (bind_and_listen-open config family e m old u (same ∙ now) new)
        | inr failed ↦ simp failed (ground (arith, is_open-close_socket n (handle m) u, same))
      ]

  pub fresh_handle :
      IsPosix os
      → (e : ResolvedEndpoint) (protocol : TransportProtocol) (t : Trace)
      → is_handle n
          (os.socket e.family (native_socket_type protocol) (native_socket_protocol protocol) t)
        ≡ true
      → is_open n t ≡ false
  fresh_handle posix e protocol t =
      go (os.socket e.family (native_socket_type protocol) (native_socket_protocol protocol) t)
        (λ m. posix.socket_fresh _ _ _ t m)
    where
      go :
          (c : SocketHandle)
          → ((m : ℕ) → c ≡ handle m → is_open m t ≡ false)
          → is_handle n c ≡ true
          → is_open n t ≡ false
      go invalid_socket fresh h = cc
      go (handle m) fresh h = rw (← (==_iff m n).0 h) (fresh m refl)

  pub try_listen-open :
      IsPosix os
      → (config : ForwardConfig) (family : AddressFamilyPreference) (e : ResolvedEndpoint)
        (t : Trace)
      → let ((serves, c), u) = try_listen config family e t in
        is_open n u ≡ (if serves && is_handle n c then true else is_open n t)
  unfolding try_listen
  try_listen-open posix config family e t =
      listen_candidate-open config family e _ (is_open n t) _ refl
        (fresh_handle posix e config.protocol t)

  listen_loop-open :
      IsPosix os
      → (config : ForwardConfig) (family : AddressFamilyPreference) (es : List ResolvedEndpoint)
        (l : Listener) (t : Trace)
      → let ((started, l'), u) = listen_loop config family es l t in
        is_open n u ≡ (if started && is_handle n l'.listen_socket then true else is_open n t)
  unfolding listen_loop
  listen_loop-open posix config family [] l t = refl
  listen_loop-open posix config family (e ∷ es) l t =
      let (attempt, u) = try_listen config family e t in
      let this = try_listen-open posix config family e t in
      elim (Bool-cases attempt.0) [
        | inl done ↦ simp done (simp done at this)
        | inr more ↦
            simp more (ground (arith, more, this, listen_loop-open posix config family es l u))
      ]

  start_on-open :
      IsPosix os
      → (config : ForwardConfig) (es : List ResolvedEndpoint) (error : ErrorOut) (l : Listener)
        (t : Trace)
      → let ((started, (l', _)), u) = start_on config es error l t in
        is_open n u ≡ (if started && is_handle n l'.listen_socket then true else is_open n t)
  unfolding start_on
  start_on-open posix config [] error l t = refl
  start_on-open posix config (e ∷ es) error l t =
      listen_loop-open posix config (effective_listen_family config) (e ∷ es) l t

  start_resolved-open :
      IsPosix os
      → (config : ForwardConfig) (r : Resolved) (l : Listener) (t : Trace)
      → let ((started, (l', _)), u) = start_resolved config r l t in
        is_open n u ≡ (if started && is_handle n l'.listen_socket then true else is_open n t)
  unfolding start_resolved
  start_resolved-open posix config r l t = elim (Bool-cases r.ok) [
    | inl ok ↦
        let family = effective_listen_family config in
        let (answer, u) =
          resolve config.listen_host config.listen_port config.protocol family true r.error t in
        let same =
          is_open-resolve n config.listen_host config.listen_port config.protocol family true
            r.error t in
        let l' = record l { target_endpoints = r.target_endpoints } in
        simp ok (
          start_on-open posix config (sort_endpoints answer.0 family) answer.1 l' u
          ∙ ap
              (λ (b : Bool).
                if (start_on config (sort_endpoints answer.0 family) answer.1 l' u).0.0
                  && is_handle n
                      (start_on config (sort_endpoints answer.0 family) answer.1 l'
                        u).0.1.0.listen_socket
                then true
                else b)
              same)
    | inr failed ↦ simp failed refl
  ]

  -- If `socket` returns only descriptors that are not open, then after `start` the open sockets are
  -- those from before and, where it reports success, the listening socket that it has stored: no
  -- endpoint that failed leaves a socket open.
  pub start_sockets :
      IsPosix os
      → (config : ForwardConfig) (error : ErrorOut) (l : Listener) (t : Trace)
      → let ((started, (l', _)), u) = start config error l t in
        is_open n u ≡ (if started && is_handle n l'.listen_socket then true else is_open n t)
  unfolding start ensure_socket_api_initialized
  start_sockets posix config error l t =
      let (r, u) = resolve_target_endpoints config l.target_endpoints error t in
      start_resolved-open posix config r l u
