-- ===== src/Udp/Cleanup.antt =====
-- A cleanup closes the sockets of the sessions that it takes out, and no other.
use port_forward_x.Prelude.{
  ℕ, ◌+◌, ◌*◌, ◌≡◌, refl, ap, Bool, true, false, [], ◌∷◌, List, arith, ltb, Bool-cases, inl, inr,
}
use port_forward_x.System.{Os, Trace, Event, clock_call, SocketHandle}
use port_forward_x.System.Sockets.{is_open, opens, is_handle}
use port_forward_x.Platform.{close_socket, shutdown_both}
use port_forward_x.Platform.Handles.{is_open-close_socket, is_open-shutdown_both}
use port_forward_x.Udp.{
  UdpSession, UdpState, Sessions, Reason, sweep, close_all, cleanup_idle_udp_sessions,
  maybe_cleanup_idle_udp_sessions, sub64, udp_cleanup_interval_ms,
}
use port_forward_x.Udp.Table.{bit, owners, closing_owners, IsLedger, sweep-owners}

module _ ⦃os : Os⦄ where
  -- One session: a line, `ShutdownBoth` and `CloseSocket`.
  closed_one-bit :
      (n : ℕ) (s : SocketHandle) (line : Event) (t : Trace) (x : ℕ)
      → opens n line (is_open n t) ≡ is_open n t
      → bit (is_open n t) ≡ x + bit (is_handle n s)
      → bit (is_open n (close_socket s (shutdown_both s (line ∷ t)).1).1) ≡ x
  closed_one-bit n s line t x plain h = ground (
    arith,
    is_open-close_socket n s (shutdown_both s (line ∷ t)).1,
    is_open-shutdown_both n s (line ∷ t),
  )

  close_all-bit :
      (n : ℕ) (debug : Bool) (now : ℕ) (closing : List (UdpSession × Reason)) (t : Trace) (x : ℕ)
      → bit (is_open n t) ≡ x + closing_owners n closing
      → bit (is_open n (close_all debug now closing t).1) ≡ x
  unfolding close_all
  close_all-bit n debug now [] t x h = omega arith
  close_all-bit n debug now ((session, reason) ∷ rest) t x h =
      close_all-bit n debug now rest _ x (
        closed_one-bit n session.upstream_socket _ t (x + closing_owners n rest) refl (omega arith))

  -- A cleanup, of all sessions or of some, keeps the account of the open sockets: the sockets of the
  -- sessions that it takes out are closed, and no other socket is.
  pub cleanup-IsLedger :
      (others : ℕ → ℕ) (force_all : Bool) (s : UdpState) (t : Trace)
      → IsLedger others t s.udp_sessions
      → let (s', u) = cleanup_idle_udp_sessions force_all s t in IsLedger others u s'.udp_sessions
  unfolding cleanup_idle_udp_sessions
  cleanup-IsLedger others force_all s t ledger n =
      let now = os.steady_clock_ms t in
      let T = s.config.udp_session_idle_timeout_seconds * 1000 in
      let swept = sweep force_all now T s.udp_sessions in
      let before = ledger n in
      close_all-bit n s.config.udp_debug now swept.1 (clock_call now ∷ t)
        (others n + owners n swept.0)
        (omega (arith, sweep-owners n force_all now T s.udp_sessions, before))

  sweep-all : (now T : ℕ) (table : Sessions) → (sweep true now T table).0 ≡ []
  unfolding sweep
  sweep-all now T [] = refl
  sweep-all now T ((key, session) ∷ rest) = sweep-all now T rest

  pub cleanup_empties :
      (s : UdpState) (t : Trace) → (cleanup_idle_udp_sessions true s t).0.udp_sessions ≡ []
  unfolding cleanup_idle_udp_sessions
  cleanup_empties s t =
      sweep-all (os.steady_clock_ms t) (s.config.udp_session_idle_timeout_seconds * 1000)
        s.udp_sessions

  -- A cleanup of all sessions leaves the table empty, and of the open sockets only the others.
  pub cleanup_all :
      (others : ℕ → ℕ) (s : UdpState) (t : Trace)
      → IsLedger others t s.udp_sessions
      → let (s', u) = cleanup_idle_udp_sessions true s t in
        (s'.udp_sessions ≡ []) × ((n : ℕ) → bit (is_open n u) ≡ others n)
  cleanup_all others s t ledger =
      let none_left = cleanup_empties s t in
      (
        none_left,
        λ n. omega (arith, cleanup-IsLedger others true s t ledger n, ap (owners n) none_left),
      )

  pub maybe_cleanup-IsLedger :
      (others : ℕ → ℕ) (s : UdpState) (t : Trace)
      → IsLedger others t s.udp_sessions
      → let (s', u) = maybe_cleanup_idle_udp_sessions s t in IsLedger others u s'.udp_sessions
  unfolding maybe_cleanup_idle_udp_sessions
  maybe_cleanup-IsLedger others s t ledger =
      let now = os.steady_clock_ms t in
      elim (Bool-cases (ltb (sub64 now s.last_udp_cleanup_ms) udp_cleanup_interval_ms)) [
        | inl early ↦ rw early ledger
        | inr due ↦
            rw due (cleanup-IsLedger others false (record s { last_udp_cleanup_ms = now }) _ ledger)
      ]
