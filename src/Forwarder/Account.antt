-- ===== src/Forwarder/Account.antt =====
-- The account of the open sockets of a forwarder: its listening socket, those of its TCP sessions and
-- those of its UDP sessions.
use port_forward_x.Prelude.{ℕ, ◌+◌, ◌≡◌, refl, ap, ◌∙◌, true, false, [], ◌∷◌, some, arith, Text}
use port_forward_x.System.{invalid_socket, Os, Sys, Trace}
use port_forward_x.System.Sockets.{is_open, is_handle, IsPosix}
use port_forward_x.Platform.{shutdown_both}
use port_forward_x.Platform.Handles.{is_open-close_socket, is_open-shutdown_both}
use port_forward_x.Session.{ForwardSession, close_sockets, shutdown_sockets}
use port_forward_x.Session
use port_forward_x.Session.Stopped.{stop_fields, is_open-stop}
use port_forward_x.Targets.Sockets.{is_open-resolve_target_endpoints}
use port_forward_x.Refresh.{refresh}
use port_forward_x.Tcp.{TcpSessions, TcpState, accept_round}
use port_forward_x.Tcp.Ledger.{
  holders, AreSettled, IsTcpLedger, accept_round-IsTcpLedger, cleanup_finished_sessions-IsTcpLedger,
}
use port_forward_x.Tcp.Threads as TcpThreads
use port_forward_x.Tcp.Threads.{at, Step-IsTcpLedger}
use port_forward_x.Udp.{UdpSession, UdpState, find_session, cleanup_idle_udp_sessions}
use port_forward_x.Udp.Loops.{udp_round, upstream_round, change_session}
use port_forward_x.Udp.Table.{bit, bit_le_one, owners, IsLedger}
use port_forward_x.Udp.Cleanup.{cleanup-IsLedger}
use port_forward_x.Udp.Threads as UdpThreads
use port_forward_x.Udp.Threads.{Step-IsLedger}
use port_forward_x.Forwarder.{
  Impl, tcp_part, with_tcp, udp_part, with_udp, accept_work, accept_end, udp_work, udp_end,
  upstream_work, resolver_work, unbind, clean_udp, stop_each, stop_sessions,
}
use port_forward_x.Forwarder.Threads.{session_close, session_finish}

-- How many of the handles of a forwarder are the socket `n`.
abbrev pub own : ℕ → Impl → ℕ
own n i =
    bit (is_handle n i.listener.listen_socket) + (holders n i.sessions + owners n i.udp_sessions)

-- Every open socket is held by the forwarder, or is one of the others, and by no two; every socket that
-- is held is open; and finished sessions hold none.
pub record IsAccount (others : ℕ → ℕ) (t : Trace) (i : Impl) : Type 0 where
  pub counted : (n : ℕ) → bit (is_open n t) ≡ others n + own n i
  pub settled : AreSettled i.sessions

-- An action that keeps the account.
abbrev pub Keeps : (ℕ → ℕ) → (Impl → Sys Impl) → Impl → Type 0
Keeps others work i =
    (t : Trace) → IsAccount others t i → let (i', u) = work i t in IsAccount others u i'

module _ (others : ℕ → ℕ) (i : Impl) where
  -- What is open besides the sockets of the TCP sessions, and besides those of the UDP sessions.
  abbrev besides_tcp : ℕ → ℕ
  besides_tcp n = others n + (bit (is_handle n i.listener.listen_socket) + owners n i.udp_sessions)

  abbrev besides_udp : ℕ → ℕ
  besides_udp n = others n + (bit (is_handle n i.listener.listen_socket) + holders n i.sessions)

  tcp_view : {t : Trace} → IsAccount others t i → IsTcpLedger besides_tcp t i.sessions
  tcp_view a = record { counted = λ n. omega (arith, a.counted n); settled = a.settled }

  from_tcp :
      (s : TcpState) (t : Trace)
      → IsTcpLedger besides_tcp t s.sessions
      → IsAccount others t (with_tcp i s)
  from_tcp s t a = record { counted = λ n. omega (arith, a.counted n); settled = a.settled }

  udp_view : {t : Trace} → IsAccount others t i → IsLedger besides_udp t i.udp_sessions
  udp_view a n = omega (arith, a.counted n)

  from_udp :
      (s : UdpState) (t : Trace)
      → AreSettled i.sessions
      → IsLedger besides_udp t s.udp_sessions
      → IsAccount others t (with_udp i s)
  from_udp s t settled a = record { counted = λ n. omega (arith, a n); settled = settled }

is_open-resolver_round :
    ⦃os : Os⦄ (n : ℕ) (i : Impl) (t : Trace) → is_open n (resolver_work i t).1 ≡ is_open n t
unfolding resolver_work refresh
is_open-resolver_round n i t =
    ground
      (arith, is_open-resolve_target_endpoints n i.config i.listener.target_endpoints (some []) t)

module _ ⦃os : Os⦄ (others : ℕ → ℕ) (i : Impl) where
  pub accept_end-Keeps : Keeps others accept_end i
  unfolding accept_end
  accept_end-Keeps t a =
      let ledger =
        cleanup_finished_sessions-IsTcpLedger (besides_tcp others i) (tcp_part i) t
          (tcp_view others i a) in
      record { counted = λ n. omega (arith, ledger.counted n); settled = ledger.settled }

  pub udp_end-Keeps : Keeps others udp_end i
  unfolding udp_end
  udp_end-Keeps t a =
      let ledger =
        cleanup-IsLedger (besides_udp others i) true (udp_part i) t (udp_view others i a) in
      record { counted = λ n. omega (arith, ledger n); settled = a.settled }

  pub clean_udp-Keeps : Keeps others clean_udp i
  unfolding clean_udp
  clean_udp-Keeps t a =
      let (s, u) = cleanup_idle_udp_sessions true (udp_part i) t in
      from_udp others i s u a.settled
        (cleanup-IsLedger (besides_udp others i) true (udp_part i) t (udp_view others i a))

  pub resolver_work-Keeps : Keeps others resolver_work i
  unfolding resolver_work
  resolver_work-Keeps t a = record {
    counted = λ n. ap bit (is_open-resolver_round n i t) ∙ a.counted n;
    settled = a.settled;
  }

  pub unbind-Keeps : Keeps others unbind i
  unfolding unbind
  unbind-Keeps t a =
      let s = i.listener.listen_socket in
      let u = (shutdown_both s t).1 in
      record {
        counted = λ n. ground (
          arith,
          is_open-close_socket n s u,
          is_open-shutdown_both n s t,
          bit_le_one (is_open n t),
          a.counted n,
        );
        settled = a.settled;
      }

  module _ (posix : IsPosix os) where
    pub accept_work-Keeps : Keeps others accept_work i
    unfolding accept_work
    accept_work-Keeps t a =
        let (s, u) = accept_round (tcp_part i) t in
        from_tcp others i s u (
          accept_round-IsTcpLedger posix (besides_tcp others i) (tcp_part i) t
            (tcp_view others i a))

    pub udp_work-Keeps : Keeps others udp_work i
    unfolding udp_work
    udp_work-Keeps t a =
        let (s, u) = udp_round (udp_part i) t in
        from_udp others i s u a.settled (
          Step-IsLedger posix (besides_udp others i) {s = record { state = udp_part i; trace = t }}
            {t = record { state = s; trace = u }} (udp_view others i a)
            (UdpThreads.Step.serves_client refl))

    pub upstream_work-Keeps :
        (key : Text) (session : UdpSession)
        → find_session key i.udp_sessions ≡ some session
        → Keeps others (upstream_work key session) i
    unfolding upstream_work
    upstream_work-Keeps key session found t a =
        let (r, u) = upstream_round i.config i.listener.listen_socket session t in
        let s = change_session key (λ _. r.1) (udp_part i) in
        from_udp others i s u a.settled (
          Step-IsLedger posix (besides_udp others i) {s = record { state = udp_part i; trace = t }}
            {t = record { state = s; trace = u }} (udp_view others i a)
            (UdpThreads.Step.serves_target key session found refl))

    pub session_close-Keeps :
        (before : TcpSessions) (id : ℕ) (session : ForwardSession) (after : TcpSessions)
        → i.sessions ≡ at before id after session
        → session.finished ≡ false
        → Keeps others (session_close before id session after) i
    unfolding session_close
    session_close-Keeps before id session after place going t a =
        let (closed, u) = close_sockets session t in
        let s = record (tcp_part i) { sessions = at before id after closed } in
        from_tcp others i s u (
          Step-IsTcpLedger posix (besides_tcp others i)
            {s = record { state = tcp_part i; trace = t }} {t = record { state = s; trace = u }}
            (tcp_view others i a)
            (TcpThreads.Step.session_closes before id session after place going refl))

    pub session_finish-Keeps :
        (before : TcpSessions) (id : ℕ) (session : ForwardSession) (after : TcpSessions)
        → i.sessions ≡ at before id after session
        → session.client_socket ≡ invalid_socket
        → session.upstream_socket ≡ invalid_socket
        → Keeps others (session_finish before id session after) i
    session_finish-Keeps before id session after place ec eu t a =
        let s = record (tcp_part i) {
          sessions = at before id after (record session { finished = true });
        } in
        from_tcp others i s t (
          Step-IsTcpLedger posix (besides_tcp others i)
            {s = record { state = tcp_part i; trace = t }} {t = record { state = s; trace = t }}
            (tcp_view others i a)
            (TcpThreads.Step.session_finishes before id session after place ec eu refl))

module _ ⦃os : Os⦄ where
  stop_each-counted :
      (n : ℕ) (table : TcpSessions) (t : Trace)
      → let (table', u) = stop_each table t in
        (is_open n u ≡ is_open n t) × (holders n table' ≡ holders n table)
  unfolding stop_each
  stop_each-counted n [] t = (refl, refl)
  stop_each-counted n ((id, session) ∷ rest) t =
      let (s, u) = Session.stop session t in
      let (ec, eu, ef) = stop_fields session t in
      let (same, holds) = stop_each-counted n rest u in
      (same ∙ is_open-stop n session t, rw (ec, eu, holds))

  stop_each-AreSettled :
      (table : TcpSessions) (t : Trace) → AreSettled table → AreSettled (stop_each table t).0
  unfolding stop_each
  stop_each-AreSettled [] t settled = tt
  stop_each-AreSettled ((id, session) ∷ rest) t (one, more) =
      let (ec, eu, ef) = stop_fields session t in
      (rw (ec, eu, ef) one, stop_each-AreSettled rest (Session.stop session t).1 more)

  pub stop_sessions-Keeps : (others : ℕ → ℕ) (i : Impl) → Keeps others stop_sessions i
  unfolding stop_sessions
  stop_sessions-Keeps others i t a = record {
    counted = λ n.
        let (same, holds) = stop_each-counted n i.sessions t in
        omega (arith, ap bit same, holds, a.counted n);
    settled = stop_each-AreSettled i.sessions t a.settled;
  }
