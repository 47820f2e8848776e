-- ===== src/Session/Stopped.antt =====
-- What `ForwardSession::Stop`, `Join` and the destructor do to the sockets of a session.
use port_forward_x.Prelude.{ℕ, ◌≡◌, refl, ◌∙◌, inl, inr, Bool-cases}
use port_forward_x.System.{invalid_socket, Os, Trace}
use port_forward_x.System.Sockets.{is_open}
use port_forward_x.Platform.Handles.{is_open-shutdown_both}
use port_forward_x.Platform.{shutdown_both}
use port_forward_x.Session.{ForwardSession, shutdown_sockets, stop, destroy}

module _ ⦃os : Os⦄ where
  pub stop_fields :
      (session : ForwardSession) (t : Trace)
      → let s = (stop session t).0 in
        (s.client_socket ≡ session.client_socket)
        × (s.upstream_socket ≡ session.upstream_socket)
        × (s.finished ≡ session.finished)
  unfolding stop
  stop_fields session t = elim (Bool-cases session.stopping) [
    | inl before ↦ simp before (refl, refl, refl)
    | inr first ↦ simp first (refl, refl, refl)
  ]

  pub is_open-stop :
      (n : ℕ) (session : ForwardSession) (t : Trace) → is_open n (stop session t).1 ≡ is_open n t
  unfolding stop shutdown_sockets
  is_open-stop n session t = elim (Bool-cases session.stopping) [
    | inl before ↦ simp before refl
    | inr first ↦ simp first (
        is_open-shutdown_both n session.upstream_socket (shutdown_both session.client_socket t).1
        ∙ is_open-shutdown_both n session.client_socket t)
  ]

  -- The destructor of a session that holds no socket makes no call, and leaves no thread.
  destroy_settled :
      (session : ForwardSession) (t : Trace)
      → session.client_socket ≡ invalid_socket
      → session.upstream_socket ≡ invalid_socket
      → (destroy session t).1 ≡ t
  unfolding destroy
  destroy_settled session t ec eu = elim (Bool-cases session.stopping) [
    | inl before ↦ simp before refl
    | inr first ↦ simp (first, ec, eu) refl
  ]
