-- ===== src/Udp/Threads.antt =====
-- The UDP threads in any interleaving of their rounds: the one that serves the clients, and one for
-- each session that waits for its target. A round is taken as one step.
use port_forward_x.Prelude.{
  ℕ, ◌+◌, ◌≡◌, refl, ap, inl, inr, Bool, true, false, [], ◌∷◌, Option, some, none, arith, Text, ℤ,
  is_nonpos, to_size, Bool-cases,
}
use port_forward_x.Config.{ForwardConfig}
use port_forward_x.System.{Bytes, SocketHandle, Os, Trace}
use port_forward_x.System.Calls
use port_forward_x.System.Sockets.{is_open, IsPosix}
use port_forward_x.Endpoint.{client_endpoint_key, now_monotonic_ms}
use port_forward_x.Udp.{
  UdpSession, UdpState, Sessions, find_session, update_session, get_or_create_udp_session,
}
use port_forward_x.Udp.Loops.{
  udp_buffer_size, change_session, debug_line, touch, mark_for_close, count_to_target, udp_round,
  datagram_received, forward_datagram, send_to_target, sent_to_target, upstream_round,
  upstream_received, sent_to_client,
}
use port_forward_x.Udp.Table.{bit, owners, IsLedger}
use port_forward_x.Udp.Cleanup.{maybe_cleanup-IsLedger}
use port_forward_x.Udp.Creation.{get_or_create-IsLedger}

pub record System : Type 0 where
  pub state : UdpState
  pub trace : Trace

module _ ⦃os : Os⦄ where
  pub data Step (s : System) (t : System) : Type 0 where
    serves_client :
        t ≡ (
          let (state, trace) = udp_round s.state s.trace in record { state = state; trace = trace })
        → Step s t
    serves_target :
        (key : Text) (session : UdpSession)
        → find_session key s.state.udp_sessions ≡ some session
        → t ≡ (
            let ((_, session'), trace) =
              upstream_round s.state.config s.state.listen_socket session s.trace in
            record { state = change_session key (λ _. session') s.state; trace = trace })
        → Step s t

  pub data Reach (s : System) : System → Type 0 where
    here : Reach s s
    later : {t u : System} → Reach s t → Step t u → Reach s u

update-owners :
    (n : ℕ) (key : Text) (change : UdpSession → UdpSession) (table : Sessions)
    → ((s : UdpSession) → (change s).upstream_socket ≡ s.upstream_socket)
    → owners n (update_session key change table) ≡ owners n table
unfolding update_session
update-owners n key change [] same = refl
update-owners n key change ((k, s) ∷ rest) same =
    ground (arith, same s, update-owners n key change rest same)

replace-owners :
    (n : ℕ) (key : Text) (old new : UdpSession) (table : Sessions)
    → find_session key table ≡ some old
    → new.upstream_socket ≡ old.upstream_socket
    → owners n (update_session key (λ _. new) table) ≡ owners n table
unfolding update_session find_session
replace-owners n key old new [] found same = cc
replace-owners n key old new ((k, s) ∷ rest) found same =
    ground (arith, replace-owners n key old new rest)

is_open-debug_line :
    (n : ℕ) (b : Bool) (text : Text) (t : Trace) → is_open n (debug_line b text t).1 ≡ is_open n t
unfolding debug_line
is_open-debug_line n true text t = refl
is_open-debug_line n false text t = refl

module _ ⦃os : Os⦄ (n : ℕ) where
  sent_to_target-bit :
      (x : ℕ) (key : Text) (session : UdpSession) (bytes : Bytes) (sent : ℤ) (s : UdpState)
      (t : Trace)
      → bit (is_open n t) ≡ x + owners n s.udp_sessions
      → let (s', u) = sent_to_target key session bytes sent s t in
        bit (is_open n u) ≡ x + owners n s'.udp_sessions
  unfolding sent_to_target
  sent_to_target-bit x key session bytes sent s t h = elim (Bool-cases (is_nonpos sent)) [
    | inl failed ↦
        rw failed (ground (arith, h, update-owners n key mark_for_close s.udp_sessions (λ _. refl)))
    | inr ok ↦ rw ok (
        ground (
          arith,
          h,
          is_open-debug_line n s.config.udp_debug _ t,
          update-owners n key (count_to_target (to_size sent)) s.udp_sessions (λ _. refl),
        ))
  ]

  forward-bit :
      (x : ℕ) (key : Text) (bytes : Bytes) (r : Option UdpSession × UdpState) (t : Trace)
      → bit (is_open n t) ≡ x + owners n r.1.udp_sessions
      → let (s', u) = forward_datagram key bytes r t in
        bit (is_open n u) ≡ x + owners n s'.udp_sessions
  unfolding send_to_target now_monotonic_ms
  forward-bit x key bytes (none, s) t h = h
  forward-bit x key bytes (some session, s) t h =
      let (now, u) = now_monotonic_ms t in
      let (sent, v) = Calls.sendto session.upstream_socket bytes session.target_addr u in
      sent_to_target-bit x key session bytes sent (change_session key (touch now) s) v (
        ground
          (arith, h, update-owners n key (touch (os.steady_clock_ms t)) s.udp_sessions (λ _. refl)))

  upstream_received-keeps :
      (config : ForwardConfig) (l : SocketHandle) (session : UdpSession)
      (r : Option (Bytes × Bytes)) (t : Trace)
      → let ((_, session'), u) = upstream_received config l session r t in
        (is_open n u ≡ is_open n t) × (session'.upstream_socket ≡ session.upstream_socket)
  unfolding upstream_received sent_to_client
  upstream_received-keeps config l session none t = ground arith
  upstream_received-keeps config l session (some ([], a)) t = (refl, refl)
  upstream_received-keeps config l session (some (b ∷ bytes, a)) t =
      let sent = os.sendto l (b ∷ bytes) session.client_addr t in
      elim (Bool-cases (is_nonpos sent)) [
        | inl failed ↦ rw failed (refl, refl)
        | inr ok ↦ rw ok (is_open-debug_line n config.udp_debug _ _, refl)
      ]

  upstream_round-keeps :
      (config : ForwardConfig) (l : SocketHandle) (session : UdpSession) (t : Trace)
      → let ((_, session'), u) = upstream_round config l session t in
        (is_open n u ≡ is_open n t) × (session'.upstream_socket ≡ session.upstream_socket)
  unfolding upstream_round
  upstream_round-keeps config l session t = elim (Bool-cases session.marked_for_close) [
    | inl marked ↦ simp marked (refl, refl)
    | inr open_ ↦
        let (r, u) = Calls.recvfrom session.upstream_socket udp_buffer_size t in
        simp open_ (upstream_received-keeps config l session r u)
  ]

module _ ⦃os : Os⦄ (posix : IsPosix os) (others : ℕ → ℕ) where
  datagram-IsLedger :
      (s : UdpState) (r : Option (Bytes × Bytes)) (t : Trace)
      → IsLedger others t s.udp_sessions
      → let (s', u) = datagram_received s r t in IsLedger others u s'.udp_sessions
  unfolding datagram_received
  datagram-IsLedger s none t ledger = maybe_cleanup-IsLedger others s t ledger
  datagram-IsLedger s (some ([], a)) t ledger = maybe_cleanup-IsLedger others s t ledger
  datagram-IsLedger s (some (b ∷ bytes, a)) t ledger =
      let got = get_or_create_udp_session a s t in
      let found = get_or_create-IsLedger posix others a s t ledger in
      let sent = forward_datagram (client_endpoint_key a) (b ∷ bytes) got.0 got.1 in
      maybe_cleanup-IsLedger others sent.0 sent.1
        (λ n. forward-bit n (others n) (client_endpoint_key a) (b ∷ bytes) got.0 got.1 (found n))

  pub Step-IsLedger :
      {s t : System}
      → IsLedger others s.trace s.state.udp_sessions
      → Step s t
      → IsLedger others t.trace t.state.udp_sessions
  unfolding udp_round
  Step-IsLedger {s} ledger (Step.serves_client e) = rw e (datagram-IsLedger s.state _ _ ledger)
  Step-IsLedger {s} ledger (Step.serves_target key session found e) = rw e (λ n.
      let (same_open, same_socket) =
        upstream_round-keeps n s.state.config s.state.listen_socket session s.trace in
      let before = ledger n in
      omega (
        arith,
        ap bit same_open,
        before,
        replace-owners n key session
            (upstream_round s.state.config s.state.listen_socket session s.trace).0.1
            s.state.udp_sessions found same_socket,
      ))

  -- If `socket` returns only descriptors that are not open, then in every interleaving of the rounds
  -- of the UDP threads the open sockets are exactly those of the sessions in the table and the
  -- others that were open from the start: no socket leaks, none is closed while a session in the
  -- table holds it, and no two sessions share one.
  pub Reach-IsLedger :
      {s t : System}
      → IsLedger others s.trace s.state.udp_sessions
      → Reach s t
      → IsLedger others t.trace t.state.udp_sessions
  Reach-IsLedger ledger here = ledger
  Reach-IsLedger ledger (later r st) = Step-IsLedger (Reach-IsLedger ledger r) st
