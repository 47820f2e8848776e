-- ===== src/Tcp/Ledger.antt =====
-- The account of the open sockets on the TCP side: each session holds two of them until it ends.
use port_forward_x.Prelude.{
  ℕ, ◌+◌, ◌≡◌, refl, ◌⊎◌, inl, inr, ◌&&◌, Bool, true, false, List, [], ◌∷◌, some, arith, All,
  if◌then◌else◌, is_empty, Bool-cases, Text, ◌==◌, ◌∙◌, ap, sym,
}
use port_forward_x.Config.{tcp}
use port_forward_x.System.{Bytes, SocketHandle, invalid_socket, handle, Os, Trace, accept_call}
use port_forward_x.System.Sockets.{is_open, is_handle, IsPosix}
use port_forward_x.Platform.{ErrorOut}
use port_forward_x.Platform.Handles.{is_open-close_socket}
use port_forward_x.Connect.{connect_to_endpoints}
use port_forward_x.Connect.Sockets.{connect_to_endpoints_sockets}
use port_forward_x.Connect.Fresh.{connect_to_endpoints_fresh}
use port_forward_x.Session.{ForwardSession, is_finished, make_session, start}
use port_forward_x.Targets.Sockets.{is_open-resolve_target_endpoints}
use port_forward_x.Tcp.{
  TcpSessions, Peers, TcpState, sweep_finished, print_disconnected, cleanup_finished_sessions,
  open_session, erase_peer, client_connected, serve_client, ensure_target, accepted, accept_round,
}
use port_forward_x.Udp.Table.{bit}

-- How many handles of the sessions are the socket `n`.
abbrev pub held : ℕ → ForwardSession → ℕ
held n session = bit (is_handle n session.client_socket) + bit (is_handle n session.upstream_socket)

abbrev pub holders : ℕ → TcpSessions → ℕ
holders n [] = 0
holders n ((id, session) ∷ rest) = held n session + holders n rest

-- A session that is finished holds no socket.
abbrev pub IsSettled : ForwardSession → Type 0
IsSettled session =
    (session.finished ≡ false)
    ⊎ ((session.client_socket ≡ invalid_socket) × (session.upstream_socket ≡ invalid_socket))

abbrev pub AreSettled : TcpSessions → Type 0
AreSettled table = All (λ (p : ℕ × ForwardSession). IsSettled p.1) table

-- Every open socket is held by one session, or is one of the others, and by no two; every socket
-- that is held is open; and finished sessions hold none.
pub record IsTcpLedger (others : ℕ → ℕ) (t : Trace) (table : TcpSessions) : Type 0 where
  pub counted : (n : ℕ) → bit (is_open n t) ≡ others n + holders n table
  pub settled : AreSettled table

sweep-holders :
    (n : ℕ) (table : TcpSessions) (peers : Peers)
    → AreSettled table
    → holders n (sweep_finished table peers).0 ≡ holders n table
unfolding sweep_finished is_finished
sweep-holders n [] peers settled = refl
sweep-holders n ((id, session) ∷ rest) peers (inl going, settled) =
    rw going (ground (arith, sweep-holders n rest peers settled))
sweep-holders n ((id, session) ∷ rest) peers (inr (ec, eu), settled) =
    elim (Bool-cases session.finished) [
      | inl done ↦
          simp (done, ec, eu) (ground (arith, sweep-holders n rest (erase_peer id peers) settled))
      | inr going ↦ simp (going, ec, eu) (ground (arith, sweep-holders n rest peers settled))
    ]

sweep-settled :
    (table : TcpSessions) (peers : Peers)
    → AreSettled table
    → AreSettled (sweep_finished table peers).0
unfolding sweep_finished is_finished
sweep-settled [] peers settled = tt
sweep-settled ((id, session) ∷ rest) peers (one, settled) = elim (Bool-cases session.finished) [
  | inl done ↦ simp done (sweep-settled rest _ settled)
  | inr going ↦ simp going (inl refl, sweep-settled rest _ settled)
]

is_open-print_disconnected :
    (n : ℕ) (peers : List Text) (t : Trace) → is_open n (print_disconnected peers t).1 ≡ is_open n t
unfolding print_disconnected
is_open-print_disconnected n [] t = refl
is_open-print_disconnected n (peer ∷ rest) t = is_open-print_disconnected n rest _

-- The removal of the finished sessions keeps the account: it forgets no socket that is open.
pub cleanup_finished_sessions-IsTcpLedger :
    (others : ℕ → ℕ) (s : TcpState) (t : Trace)
    → IsTcpLedger others t s.sessions
    → let (s', u) = cleanup_finished_sessions s t in IsTcpLedger others u s'.sessions
unfolding cleanup_finished_sessions
cleanup_finished_sessions-IsTcpLedger others s t ledger = record {
  counted = λ n. ground (
    arith,
    is_open-print_disconnected n (sweep_finished s.sessions s.session_peers).1.1 t,
    ledger.counted n,
    sweep-holders n s.sessions s.session_peers ledger.settled,
  );
  settled = sweep-settled s.sessions s.session_peers ledger.settled;
}

module _ ⦃os : Os⦄ (n : ℕ) where
  ensure_target-open :
      (s : TcpState) (t : Trace)
      → let (s', u) = ensure_target s t in (is_open n u ≡ is_open n t) × (s'.sessions ≡ s.sessions)
  unfolding ensure_target
  ensure_target-open s t = elim (Bool-cases (is_empty s.target_endpoints)) [
    | inl none_yet ↦
        simp none_yet
          (is_open-resolve_target_endpoints n s.config s.target_endpoints (some []) t, refl)
    | inr enough ↦ simp enough (refl, refl)
  ]

  client_connected-counted :
      (x c : ℕ) (peer : Bytes) (s : TcpState) (r : Bool × SocketHandle × ErrorOut) (t u : Trace)
      → bit (is_open n t) ≡ x + holders n s.sessions
      → (c ≡ n → is_open n t ≡ false)
      → is_open n u
        ≡ (if r.0 && is_handle n r.1 then true else (if c == n then true else is_open n t))
      → ((r.0 && is_handle n r.1) ≡ true → (if c == n then true else is_open n t) ≡ false)
      → let (s', v) = client_connected (handle c) peer s r u in
        bit (is_open n v) ≡ x + holders n s'.sessions
  unfolding open_session make_session start
  client_connected-counted x c peer s (true, upstream, error) t u before new now fresh =
      ground arith
  client_connected-counted x c peer s (false, upstream, error) t u before new now fresh =
      ground (arith, is_open-close_socket n (handle c) u)

  serve_client-counted :
      IsPosix os
      → (x c : ℕ) (peer : Bytes) (s : TcpState) (t u : Trace)
      → bit (is_open n t) ≡ x + holders n s.sessions
      → (c ≡ n → is_open n t ≡ false)
      → is_open n u ≡ (if c == n then true else is_open n t)
      → let (s', v) = serve_client (handle c) peer s u in
        bit (is_open n v) ≡ x + holders n s'.sessions
  unfolding serve_client
  serve_client-counted posix x c peer s t u before new now =
      elim (Bool-cases (is_empty s.target_endpoints)) [
        | inl nothing ↦ simp nothing (ground (arith, is_open-close_socket n (handle c) u))
        | inr enough ↦
            let (r, v) = connect_to_endpoints s.target_endpoints tcp invalid_socket (some []) u in
            simp enough (
              client_connected-counted x c peer s r t v before new
                (connect_to_endpoints_sockets n posix s.target_endpoints tcp invalid_socket
                    (some []) u
                  ∙ ap (λ (b : Bool). if r.0 && is_handle n r.1 then true else b) now)
                (λ h.
                  sym now
                  ∙ connect_to_endpoints_fresh n posix s.target_endpoints tcp invalid_socket
                      (some []) u h))
      ]

  accepted-counted :
      IsPosix os
      → (x : ℕ) (s : TcpState) (c : SocketHandle) (peer : Bytes) (t u : Trace)
      → bit (is_open n t) ≡ x + holders n s.sessions
      → (c ≡ handle n → is_open n t ≡ false)
      → is_open n u ≡ (if is_handle n c then true else is_open n t)
      → let (s', v) = accepted s (c, peer) u in bit (is_open n v) ≡ x + holders n s'.sessions
  accepted-counted posix x s invalid_socket peer t u before new now = ground (arith)
  accepted-counted posix x s (handle c) peer t u before new now =
      let (s', v) = ensure_target s u in
      let (same_open, same_sessions) = ensure_target-open s u in
      serve_client-counted posix x c peer s' t v
        (before ∙ ap (λ (table : TcpSessions). x + holders n table) (sym same_sessions))
        (λ e. new (ap handle e)) (same_open ∙ now)

module _ ⦃os : Os⦄ where
  client_connected-AreSettled :
      (client : SocketHandle) (peer : Bytes) (s : TcpState) (r : Bool × SocketHandle × ErrorOut)
      (t : Trace)
      → AreSettled s.sessions
      → AreSettled (client_connected client peer s r t).0.sessions
  unfolding open_session make_session start
  client_connected-AreSettled client peer s (true, upstream, error) t settled = (inl refl, settled)
  client_connected-AreSettled client peer s (false, upstream, error) t settled = settled

  serve_client-AreSettled :
      (client : SocketHandle) (peer : Bytes) (s : TcpState) (t : Trace)
      → AreSettled s.sessions
      → AreSettled (serve_client client peer s t).0.sessions
  unfolding serve_client
  serve_client-AreSettled client peer s t settled =
      elim (Bool-cases (is_empty s.target_endpoints)) [
        | inl nothing ↦ simp nothing settled
        | inr enough ↦
            let (r, v) = connect_to_endpoints s.target_endpoints tcp invalid_socket (some []) t in
            simp enough (client_connected-AreSettled client peer s r v settled)
      ]

  accepted-AreSettled :
      (s : TcpState) (c : SocketHandle) (peer : Bytes) (t : Trace)
      → AreSettled s.sessions
      → AreSettled (accepted s (c, peer) t).0.sessions
  accepted-AreSettled s invalid_socket peer t settled = settled
  accepted-AreSettled s (handle c) peer t settled =
      let (s', u) = ensure_target s t in
      serve_client-AreSettled (handle c) peer s' u (rw (ensure_target-open 0 s t).1 settled)

  -- If `socket` and `accept` return only descriptors that are not open, then a round of the accepting
  -- thread keeps the account of the open sockets, whatever fails in it: a client that gets no session
  -- is closed, and a new session holds the two new sockets.
  pub accept_round-IsTcpLedger :
      IsPosix os
      → (others : ℕ → ℕ) (s : TcpState) (t : Trace) → IsTcpLedger others t s.sessions
      → let (s', u) = accept_round s t in IsTcpLedger others u s'.sessions
  unfolding accept_round
  accept_round-IsTcpLedger posix others s t before =
      let (s', u) = cleanup_finished_sessions s t in
      let ledger = cleanup_finished_sessions-IsTcpLedger others s t before in
      let (c, peer) = os.accept s'.listen_socket u in
      let v = accept_call s'.listen_socket c peer ∷ u in
      record {
        counted = λ n.
            accepted-counted n posix (others n) s' c peer u v (ledger.counted n)
              (posix.accept_fresh s'.listen_socket u n) refl;
        settled = accepted-AreSettled s' c peer v ledger.settled;
      }
