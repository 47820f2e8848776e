-- ===== src/Tcp/Going.antt =====
-- The TCP sessions that `Stop` was not called on.
use port_forward_x.Prelude.{
  ◌≡◌, refl, ◌∙◌, inl, inr, Bool, true, false, [], ◌∷◌, some, All, is_empty, Bool-cases, ℕ,
}
use port_forward_x.Config.{tcp}
use port_forward_x.System.{Bytes, SocketHandle, invalid_socket, handle, Os, Trace}
use port_forward_x.System.Calls
use port_forward_x.Platform.{ErrorOut}
use port_forward_x.Connect.{connect_to_endpoints}
use port_forward_x.Session.{ForwardSession, is_finished, make_session, start}
use port_forward_x.Tcp.{
  TcpSessions, Peers, TcpState, sweep_finished, cleanup_finished_sessions, open_session,
  client_connected, serve_client, ensure_target, accepted, accept_round,
}
use port_forward_x.Tcp.Ids.{ensure_target-fields}
use port_forward_x.Tcp.Threads.{at}

abbrev pub AreGoing : TcpSessions → Type 0
AreGoing table = All (λ (p : ℕ × ForwardSession). p.1.stopping ≡ false) table

sweep-AreGoing :
    (table : TcpSessions) (peers : Peers) → AreGoing table → AreGoing (sweep_finished table peers).0
unfolding sweep_finished is_finished
sweep-AreGoing [] peers h = tt
sweep-AreGoing ((id, session) ∷ rest) peers (one, h) = elim (Bool-cases session.finished) [
  | inl done ↦ simp done (sweep-AreGoing rest _ h)
  | inr going ↦ simp going (one, sweep-AreGoing rest _ h)
]

pub cleanup-AreGoing :
    (s : TcpState) (t : Trace)
    → AreGoing s.sessions
    → AreGoing (cleanup_finished_sessions s t).0.sessions
unfolding cleanup_finished_sessions
cleanup-AreGoing s t h = sweep-AreGoing s.sessions s.session_peers h

pub at-AreGoing :
    (before : TcpSessions) (id : ℕ) (old new : ForwardSession) (after : TcpSessions)
    → new.stopping ≡ old.stopping
    → AreGoing (at before id after old)
    → AreGoing (at before id after new)
at-AreGoing [] id old new after same (one, h) = (same ∙ one, h)
at-AreGoing (x ∷ before) id old new after same (one, h) =
    (one, at-AreGoing before id old new after same h)

module _ ⦃os : Os⦄ where
  client_connected-AreGoing :
      (client : SocketHandle) (peer : Bytes) (s : TcpState) (r : Bool × SocketHandle × ErrorOut)
      (t : Trace)
      → AreGoing s.sessions
      → AreGoing (client_connected client peer s r t).0.sessions
  unfolding open_session make_session start
  client_connected-AreGoing client peer s (true, upstream, error) t h = (refl, h)
  client_connected-AreGoing client peer s (false, upstream, error) t h = h

  serve_client-AreGoing :
      (client : SocketHandle) (peer : Bytes) (s : TcpState) (t : Trace)
      → AreGoing s.sessions
      → AreGoing (serve_client client peer s t).0.sessions
  unfolding serve_client
  serve_client-AreGoing client peer s t h = elim (Bool-cases (is_empty s.target_endpoints)) [
    | inl nothing ↦ rw nothing h
    | inr something ↦
        let (r, u) = connect_to_endpoints s.target_endpoints tcp invalid_socket (some []) t in
        rw something (client_connected-AreGoing client peer s r u h)
  ]

  accepted-AreGoing :
      (s : TcpState) (client : SocketHandle) (peer : Bytes) (t : Trace)
      → AreGoing s.sessions
      → AreGoing (accepted s (client, peer) t).0.sessions
  accepted-AreGoing s invalid_socket peer t h = h
  accepted-AreGoing s (handle n) peer t h =
      let (s', u) = ensure_target s t in
      let (sessions, peers, next) = ensure_target-fields s t in
      serve_client-AreGoing (handle n) peer s' u (rw sessions h)

  pub accept_round-AreGoing :
      (s : TcpState) (t : Trace) → AreGoing s.sessions → AreGoing (accept_round s t).0.sessions
  unfolding accept_round
  accept_round-AreGoing s t h =
      let (s', u) = cleanup_finished_sessions s t in
      let ((client, peer), v) = Calls.accept s'.listen_socket u in
      accepted-AreGoing s' client peer v (cleanup-AreGoing s t h)
