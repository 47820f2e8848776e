-- ===== src/Listen/Kept.antt =====
-- A start sets the listener running, or leaves its socket and its flag as they were.
use port_forward_x.Prelude.{◌≡◌, refl, ◌⊎◌, Bool, true, false, List, [], ◌∷◌, Bool-cases, inl, inr}
use port_forward_x.Config.{ForwardConfig, AddressFamilyPreference}
use port_forward_x.Config.Families.{effective_listen_family}
use port_forward_x.System.{Os, Trace}
use port_forward_x.Platform.{ErrorOut, ensure_socket_api_initialized}
use port_forward_x.Endpoint.{ResolvedEndpoint, sort_endpoints}
use port_forward_x.Resolver.{resolve}
use port_forward_x.Targets.{Resolved, resolve_target_endpoints}
use port_forward_x.Listen.{Listener, try_listen, listen_loop, start_on, start_resolved, start}

abbrev pub IsKept : Listener → Bool × Listener → Type 0
IsKept l (started, l') =
    ((started ≡ true) × (l'.running ≡ true))
    ⊎ ((started ≡ false) × (l'.running ≡ l.running) × (l'.listen_socket ≡ l.listen_socket))

module _ ⦃os : Os⦄ where
  listen_loop-IsKept :
      (config : ForwardConfig) (family : AddressFamilyPreference) (es : List ResolvedEndpoint)
      (l : Listener) (t : Trace)
      → IsKept l (listen_loop config family es l t).0
  unfolding listen_loop
  listen_loop-IsKept config family [] l t = inr (refl, refl, refl)
  listen_loop-IsKept config family (e ∷ es) l t =
      let (attempt, u) = try_listen config family e t in
      elim (Bool-cases attempt.0) [
        | inl done ↦ simp done (inl (refl, refl))
        | inr more ↦ simp more (listen_loop-IsKept config family es l u)
      ]

  start_on-IsKept :
      (config : ForwardConfig) (es : List ResolvedEndpoint) (error : ErrorOut) (l : Listener)
      (t : Trace)
      → let (started, (l', _)) = (start_on config es error l t).0 in IsKept l (started, l')
  unfolding start_on
  start_on-IsKept config [] error l t = inr (refl, refl, refl)
  start_on-IsKept config (e ∷ es) error l t =
      listen_loop-IsKept config (effective_listen_family config) (e ∷ es) l t

  start_resolved-IsKept :
      (config : ForwardConfig) (r : Resolved) (l : Listener) (t : Trace)
      → let (started, (l', _)) = (start_resolved config r l t).0 in IsKept l (started, l')
  unfolding start_resolved
  start_resolved-IsKept config r l t = elim (Bool-cases r.ok) [
    | inl ok ↦
        let family = effective_listen_family config in
        let (answer, u) =
          resolve config.listen_host config.listen_port config.protocol family true r.error t in
        simp ok (
          start_on-IsKept config (sort_endpoints answer.0 family) answer.1
            (record l { target_endpoints = r.target_endpoints }) u)
    | inr failed ↦ simp failed (inr (refl, refl, refl))
  ]

  pub start-IsKept :
      (config : ForwardConfig) (error : ErrorOut) (l : Listener) (t : Trace)
      → let (started, (l', _)) = (start config error l t).0 in IsKept l (started, l')
  unfolding start ensure_socket_api_initialized
  start-IsKept config error l t =
      let (r, u) = resolve_target_endpoints config l.target_endpoints error t in
      start_resolved-IsKept config r l u
