-- ===== src/Tcp/Threads.antt =====
-- The threads of the TCP side in any interleaving: rounds of the accepting thread, and the ends of the
-- sessions' threads. A relay neither opens nor closes a socket, so its calls do not appear.
use port_forward_x.Prelude.{ℕ, ◌+◌, ◌≡◌, refl, inr, true, false, [], ◌∷◌, ◌++◌, arith}
use port_forward_x.System.{SocketHandle, invalid_socket, handle, Os, Trace}
use port_forward_x.System.Sockets.{is_open, is_handle, IsPosix}
use port_forward_x.Session.{ForwardSession, close_sockets, close_valid}
use port_forward_x.Platform.{close_socket}
use port_forward_x.Tcp.{TcpSessions, TcpState, accept_round}
use port_forward_x.Tcp.Ledger.{
  held, holders, IsSettled, AreSettled, IsTcpLedger, accept_round-IsTcpLedger,
}
use port_forward_x.Udp.Table.{bit, bit_le_one}

pub record System : Type 0 where
  pub state : TcpState
  pub trace : Trace

-- The table with the session at a place in it.
abbrev pub at : TcpSessions → ℕ → TcpSessions → ForwardSession → TcpSessions
at before id after session = before ++ (id, session) ∷ after

module _ ⦃os : Os⦄ where
  pub data Step (s : System) (t : System) : Type 0 where
    accepts :
        t ≡ (
          let (state, trace) = accept_round s.state s.trace in
          record { state = state; trace = trace })
        → Step s t
    -- `Run` calls `CloseSockets` when both relays have returned, which is here at any time.
    session_closes :
        (before : TcpSessions) (id : ℕ) (session : ForwardSession) (after : TcpSessions)
        → s.state.sessions ≡ at before id after session
        → session.finished ≡ false
        → t ≡ (
            let (closed, trace) = close_sockets session s.trace in
            record {
              state = record (s.state) { sessions = at before id after closed };
              trace = trace;
            })
        → Step s t
    -- Then it sets `finished_`.
    session_finishes :
        (before : TcpSessions) (id : ℕ) (session : ForwardSession) (after : TcpSessions)
        → s.state.sessions ≡ at before id after session
        → session.client_socket ≡ invalid_socket
        → session.upstream_socket ≡ invalid_socket
        → t ≡ record s {
          state = record (s.state) {
            sessions = at before id after (record session { finished = true });
          };
        }
        → Step s t

  pub data Reach (s : System) : System → Type 0 where
    here : Reach s s
    later : {t u : System} → Reach s t → Step t u → Reach s u

holders-at :
    (n : ℕ) (before : TcpSessions) (id : ℕ) (session : ForwardSession) (after : TcpSessions)
    → holders n (at before id after session) ≡ holders n before + holders n after + held n session
holders-at n [] id session after = omega arith
holders-at n ((k, s) ∷ before) id session after =
    omega (arith, holders-at n before id session after)

AreSettled-at :
    (before : TcpSessions) (id : ℕ) (old new : ForwardSession) (after : TcpSessions)
    → IsSettled new
    → AreSettled (at before id after old)
    → AreSettled (at before id after new)
AreSettled-at [] id old new after now (was, rest) = (now, rest)
AreSettled-at ((k, s) ∷ before) id old new after now (one, rest) =
    (one, AreSettled-at before id old new after now rest)

close_valid-counted :
    (n x : ℕ) (c u : SocketHandle) (t : Trace)
    → bit (is_open n t) ≡ x + (bit (is_handle n c) + bit (is_handle n u))
    → bit (is_open n (close_valid u (close_valid c t).1).1) ≡ x
unfolding close_socket
close_valid-counted n x invalid_socket invalid_socket t h = ground (arith, bit_le_one (is_open n t))
close_valid-counted n x invalid_socket (handle b) t h = ground (arith, bit_le_one (is_open n t))
close_valid-counted n x (handle a) invalid_socket t h = ground (arith, bit_le_one (is_open n t))
close_valid-counted n x (handle a) (handle b) t h = ground (arith, bit_le_one (is_open n t))

close_sockets-counted :
    (n x : ℕ) (session : ForwardSession) (t : Trace)
    → bit (is_open n t) ≡ x + held n session
    → bit (is_open n (close_sockets session t).1) ≡ x + held n (close_sockets session t).0
unfolding close_sockets
close_sockets-counted n x session t h =
    omega (arith, close_valid-counted n x session.client_socket session.upstream_socket t h)

close_sockets-IsSettled :
    (session : ForwardSession) (t : Trace) → IsSettled (close_sockets session t).0
unfolding close_sockets
close_sockets-IsSettled session t = inr (refl, refl)

module _ ⦃os : Os⦄ (posix : IsPosix os) (others : ℕ → ℕ) where
  pub Step-IsTcpLedger :
      {s t : System}
      → IsTcpLedger others s.trace s.state.sessions
      → Step s t
      → IsTcpLedger others t.trace t.state.sessions
  Step-IsTcpLedger {s} ledger (Step.accepts e) =
      rw e (accept_round-IsTcpLedger posix others s.state s.trace ledger)
  Step-IsTcpLedger {s} ledger (Step.session_closes before id session after place going e) =
      let closed = (close_sockets session s.trace).0 in
      let settled = rw place at ledger.settled in
      rw e (record {
        counted = λ n.
            let x = others n + (holders n before + holders n after) in
            let now = rw place at ledger.counted n in
            omega (
              arith,
              holders-at n before id closed after,
              close_sockets-counted n x session s.trace
                  (omega (arith, now, holders-at n before id session after)),
            );
        settled =
            AreSettled-at before id session closed after (close_sockets-IsSettled session s.trace)
              settled;
      })
  Step-IsTcpLedger {s} ledger (Step.session_finishes before id session after place ec eu e) =
      let done = record session { finished = true } in
      let settled = rw place at ledger.settled in
      rw e (record {
        counted = λ n.
            let now = rw place at ledger.counted n in
            omega
              (arith, now, holders-at n before id session after, holders-at n before id done after);
        settled = AreSettled-at before id session done after (inr (ec, eu)) settled;
      })

  -- If `socket` and `accept` return only descriptors that are not open, then in every interleaving of the
  -- accepting thread with the ends of the sessions the open sockets are exactly those that the sessions
  -- in the table hold and the others that were open from the start: none leaks, none is closed while a
  -- session holds it, and no two sessions share one.
  pub Reach-IsTcpLedger :
      {s t : System}
      → IsTcpLedger others s.trace s.state.sessions
      → Reach s t
      → IsTcpLedger others t.trace t.state.sessions
  Reach-IsTcpLedger ledger here = ledger
  Reach-IsTcpLedger ledger (later r st) = Step-IsTcpLedger (Reach-IsTcpLedger ledger r) st
