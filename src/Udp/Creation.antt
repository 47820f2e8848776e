-- ===== src/Udp/Creation.antt =====
-- A session is found under the text of its client's address, or made with a socket of its own.
use port_forward_x.Prelude.{
  ℕ, ◌+◌, ◌≡◌, inl, inr, true, false, [], Option, some, none, arith, is_empty, if◌then◌else◌, Text,
  text_eq_refl, Bool-cases, Option-cases, ◌∙◌,
}
use port_forward_x.System.{Bytes, Os, Trace}
use port_forward_x.System.Sockets.{is_open, IsPosix}
use port_forward_x.Platform.{ErrorOut}
use port_forward_x.Connect.{UdpTarget, create_udp_socket_for_endpoint}
use port_forward_x.Connect.Datagrams.{
  has_socket, create_udp_socket_for_endpoint_sockets, create_udp_socket_for_endpoint_fresh,
}
use port_forward_x.Endpoint.{client_endpoint_key}
use port_forward_x.Udp.{
  UdpSession, UdpState, find_session, new_session, add_session, created_session, create_session,
  get_or_create_udp_session,
}
use port_forward_x.Udp.Table.{bit, owners, IsLedger}

module _ ⦃os : Os⦄ where
  created_session-bit :
      (n x : ℕ) (key : Text) (addr : Bytes) (s : UdpState) (r : Option UdpTarget × ErrorOut)
      (t u : Trace)
      → bit (is_open n t) ≡ x + owners n s.udp_sessions
      → is_open n u ≡ (if has_socket n r.0 then true else is_open n t)
      → (has_socket n r.0 ≡ true → is_open n t ≡ false)
      → let ((found, s'), v) = created_session key addr s r u in
        bit (is_open n v) ≡ x + owners n s'.udp_sessions
  unfolding add_session new_session
  created_session-bit n x key addr s (none, error) t u h now fresh = ground arith
  created_session-bit n x key addr s (some target, error) t u h now fresh = ground arith

  create_session-IsLedger :
      IsPosix os
      → (others : ℕ → ℕ) (key : Text) (addr : Bytes) (s : UdpState) (t : Trace)
      → IsLedger others t s.udp_sessions
      → let ((found, s'), u) = create_session key addr s t in IsLedger others u s'.udp_sessions
  unfolding create_session
  create_session-IsLedger posix others key addr s t ledger n =
      elim (Bool-cases (is_empty s.target_endpoints)) [
        | inl nothing ↦ rw nothing (ledger n)
        | inr some_target ↦ rw some_target (
            created_session-bit n (others n) key addr s _ t _ (ledger n)
              (create_udp_socket_for_endpoint_sockets n s.target_endpoints (some []) t)
              (create_udp_socket_for_endpoint_fresh n posix s.target_endpoints (some []) t))
      ]

  -- If `socket` returns only descriptors that are not open, then finding or making the session of a
  -- client keeps the account of the open sockets: a new session holds the one new socket.
  pub get_or_create-IsLedger :
      IsPosix os
      → (others : ℕ → ℕ) (addr : Bytes) (s : UdpState) (t : Trace)
      → IsLedger others t s.udp_sessions
      → let ((found, s'), u) = get_or_create_udp_session addr s t in
        IsLedger others u s'.udp_sessions
  unfolding get_or_create_udp_session
  get_or_create-IsLedger posix others addr s t ledger =
      elim (Option-cases (find_session (client_endpoint_key addr) s.udp_sessions)) [
        | inl e ↦
            rw e (create_session-IsLedger posix others (client_endpoint_key addr) addr s t ledger)
        | inr (session, e) ↦ rw e ledger
      ]

  abbrev IsFound : Text → Option UdpSession × UdpState → Type 0
  IsFound key (found, s) =
      (session : UdpSession) → found ≡ some session → find_session key s.udp_sessions ≡ found

  created_session-IsFound :
      (key : Text) (addr : Bytes) (s : UdpState) (r : Option UdpTarget × ErrorOut) (t : Trace)
      → IsFound key (created_session key addr s r t).0
  unfolding add_session find_session
  created_session-IsFound key addr s (none, error) t session h = cc
  created_session-IsFound key addr s (some target, error) t session h = rw (text_eq_refl key)

  create_session-IsFound :
      (key : Text) (addr : Bytes) (s : UdpState) (t : Trace)
      → IsFound key (create_session key addr s t).0
  unfolding create_session
  create_session-IsFound key addr s t = elim (Bool-cases (is_empty s.target_endpoints)) [
    | inl nothing ↦ rw nothing (λ session h. cc)
    | inr some_target ↦ rw some_target (
        created_session-IsFound key addr s
          (create_udp_socket_for_endpoint s.target_endpoints (some []) t).0 _)
  ]

  -- If the client has a session, it is returned, and nothing is called and nothing changes.
  pub get_or_create_kept :
      (addr : Bytes) (s : UdpState) (t : Trace) (session : UdpSession)
      → find_session (client_endpoint_key addr) s.udp_sessions ≡ some session
      → get_or_create_udp_session addr s t ≡ ((some session, s), t)
  unfolding get_or_create_udp_session
  get_or_create_kept addr s t session h = rw h

  -- A session that is returned is in the table under the text of the client's address.
  pub get_or_create_found :
      (addr : Bytes) (s : UdpState) (t : Trace) (session : UdpSession)
      → (get_or_create_udp_session addr s t).0.0 ≡ some session
      → find_session
          (client_endpoint_key addr)
          (get_or_create_udp_session addr s t).0.1.udp_sessions
        ≡ some session
  unfolding get_or_create_udp_session
  get_or_create_found addr s t session =
      let key = client_endpoint_key addr in
      elim (Option-cases (find_session key s.udp_sessions)) [
        | inl e ↦ rw e (λ h. create_session-IsFound key addr s t session h ∙ h)
        | inr (old, e) ↦ rw e (λ h. e ∙ h)
      ]
