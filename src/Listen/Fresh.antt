-- ===== src/Listen/Fresh.antt =====
-- The listening socket that `Impl::Start` stores is a new one, and a start that fails stores none.
use port_forward_x.Prelude.{
  ℕ, ◌≡◌, ◌&&◌, true, false, Bool, List, [], ◌∷◌, arith, Bool-cases, inl, inr, ◌∙◌,
}
use port_forward_x.Config.{ForwardConfig, AddressFamilyPreference}
use port_forward_x.Config.Families.{effective_listen_family}
use port_forward_x.System.{Os, Trace}
use port_forward_x.System.Sockets.{is_open, is_handle, IsPosix}
use port_forward_x.Platform.{ErrorOut, ensure_socket_api_initialized}
use port_forward_x.Endpoint.{ResolvedEndpoint, sort_endpoints}
use port_forward_x.Resolver.{resolve}
use port_forward_x.Targets.{Resolved, resolve_target_endpoints}
use port_forward_x.Targets.Sockets.{is_open-resolve, is_open-resolve_target_endpoints}
use port_forward_x.Listen.{Listener, try_listen, listen_loop, start_on, start_resolved, start}
use port_forward_x.Listen.Sockets.{fresh_handle, try_listen-open}

module _ ⦃os : Os⦄ (n : ℕ) (posix : IsPosix os) where
  -- If `n` is the listening socket after a start, it was closed before.
  abbrev IsFresh : Trace → Bool × Listener → Type 0
  IsFresh t (started, l) = (started && is_handle n l.listen_socket) ≡ true → is_open n t ≡ false

  listen_loop-IsFresh :
      (config : ForwardConfig) (family : AddressFamilyPreference) (es : List ResolvedEndpoint)
      (l : Listener) (t : Trace)
      → IsFresh t (listen_loop config family es l t).0
  unfolding listen_loop try_listen
  listen_loop-IsFresh config family [] l t = λ h. cc
  listen_loop-IsFresh config family (e ∷ es) l t =
      let (attempt, u) = try_listen config family e t in
      elim (Bool-cases attempt.0) [
        | inl done ↦ simp done (λ h. fresh_handle n posix e config.protocol t h)
        | inr more ↦ simp more (λ h. ground (
          arith,
          more,
          try_listen-open n posix config family e t,
          listen_loop-IsFresh config family es l u h,
        ))
      ]

  start_on-IsFresh :
      (config : ForwardConfig) (es : List ResolvedEndpoint) (error : ErrorOut) (l : Listener)
      (t : Trace)
      → let (started, (l', _)) = (start_on config es error l t).0 in IsFresh t (started, l')
  unfolding start_on
  start_on-IsFresh config [] error l t = λ h. cc
  start_on-IsFresh config (e ∷ es) error l t =
      listen_loop-IsFresh config (effective_listen_family config) (e ∷ es) l t

  start_resolved-IsFresh :
      (config : ForwardConfig) (r : Resolved) (l : Listener) (t : Trace)
      → let (started, (l', _)) = (start_resolved config r l t).0 in IsFresh t (started, l')
  unfolding start_resolved
  start_resolved-IsFresh config r l t = elim (Bool-cases r.ok) [
    | inl ok ↦
        let family = effective_listen_family config in
        let (answer, u) =
          resolve config.listen_host config.listen_port config.protocol family true r.error t in
        let l' = record l { target_endpoints = r.target_endpoints } in
        simp ok (λ h.
          is_open-resolve n config.listen_host config.listen_port config.protocol family true
            r.error t
          ∙ start_on-IsFresh config (sort_endpoints answer.0 family) answer.1 l' u h)
    | inr failed ↦ simp failed (λ h. cc)
  ]

  pub start_fresh :
      (config : ForwardConfig) (error : ErrorOut) (l : Listener) (t : Trace)
      → let (started, (l', _)) = (start config error l t).0 in
        (started && is_handle n l'.listen_socket) ≡ true → is_open n t ≡ false
  unfolding start ensure_socket_api_initialized
  start_fresh config error l t h =
      let (r, u) = resolve_target_endpoints config l.target_endpoints error t in
      is_open-resolve_target_endpoints n config l.target_endpoints error t
      ∙ start_resolved-IsFresh config r l u h
