-- ===== src/Forwarder/Woken.antt =====
-- The sockets that were shut down in both directions: a thread that waits in `recv` or in `accept` on one
-- of them returns.
use port_forward_x.Prelude.{ℕ, ◌≡◌, Bool, true, false, [], ◌∷◌, All, if◌then◌else◌, arith}
use port_forward_x.System.{
  SocketHandle, invalid_socket, handle, Os, Trace, Event, shutdown_call, shut_rdwr, socket_call,
  accept_call,
}
use port_forward_x.System.Sockets.{is_handle}
use port_forward_x.Platform.{shutdown_both, close_socket}
use port_forward_x.Session.{ForwardSession, shutdown_sockets, close_sockets, close_valid}
use port_forward_x.Session
use port_forward_x.Tcp.{TcpSessions}
use port_forward_x.Tcp.Going.{AreGoing}
use port_forward_x.Forwarder.{Impl, stop_each, unbind}

-- What a call does to whether `n` was shut down since it was opened.
abbrev pub wakes : ℕ → Event → Bool → Bool
wakes n (socket_call _ _ _ s) before = if is_handle n s then false else before
wakes n (accept_call _ s _) before = if is_handle n s then false else before
wakes n (shutdown_call s shut_rdwr _) before = if is_handle n s then true else before
wakes n _ before = before

abbrev pub woken : ℕ → Trace → Bool
woken n [] = false
woken n (e ∷ t) = wakes n e (woken n t)

-- A call that waits on this socket returns: it was shut down since it was opened, or it is none.
abbrev pub IsWoken : SocketHandle → Trace → Type 0
IsWoken invalid_socket t = Unit
IsWoken (handle n) t = woken n t ≡ true

close_socket-IsWoken :
    (x s : SocketHandle) (t : Trace) → IsWoken x t → IsWoken x (close_socket s t).1
unfolding close_socket
close_socket-IsWoken invalid_socket s t h = tt
close_socket-IsWoken (handle n) invalid_socket t h = h
close_socket-IsWoken (handle n) (handle m) t h = h

close_valid-IsWoken : (x s : SocketHandle) (t : Trace) → IsWoken x t → IsWoken x (close_valid s t).1
unfolding close_socket
close_valid-IsWoken invalid_socket s t h = tt
close_valid-IsWoken (handle n) invalid_socket t h = h
close_valid-IsWoken (handle n) (handle m) t h = h

close_sockets-IsWoken :
    (x : SocketHandle) (session : ForwardSession) (t : Trace)
    → IsWoken x t
    → IsWoken x (close_sockets session t).1
unfolding close_sockets
close_sockets-IsWoken x session t h =
    close_valid-IsWoken x session.upstream_socket (close_valid session.client_socket t).1
      (close_valid-IsWoken x session.client_socket t h)

-- Both relays of the session return.
abbrev pub IsReleased : Trace → ForwardSession → Type 0
IsReleased t session = IsWoken session.client_socket t × IsWoken session.upstream_socket t

abbrev pub AreReleased : Trace → TcpSessions → Type 0
AreReleased t table = All (λ (p : ℕ × ForwardSession). IsReleased t p.1) table

pub close_sockets-AreReleased :
    (session : ForwardSession) (table : TcpSessions) (t : Trace)
    → AreReleased t table
    → AreReleased (close_sockets session t).1 table
close_sockets-AreReleased session [] t h = tt
close_sockets-AreReleased session ((id, s) ∷ rest) t ((c, u), h) = (
  (
    close_sockets-IsWoken s.client_socket session t c,
    close_sockets-IsWoken s.upstream_socket session t u,
  ),
  close_sockets-AreReleased session rest t h,
)

module _ ⦃os : Os⦄ where
  shutdown_both-wakes : (s : SocketHandle) (t : Trace) → IsWoken s (shutdown_both s t).1
  unfolding shutdown_both
  shutdown_both-wakes invalid_socket t = tt
  shutdown_both-wakes (handle n) t = ground arith

  shutdown_both-IsWoken :
      (x s : SocketHandle) (t : Trace) → IsWoken x t → IsWoken x (shutdown_both s t).1
  unfolding shutdown_both
  shutdown_both-IsWoken invalid_socket s t h = tt
  shutdown_both-IsWoken (handle n) invalid_socket t h = h
  shutdown_both-IsWoken (handle n) (handle m) t h = ground (arith, h)

  -- `Stop` wakes the accepting thread.
  pub unbind-IsWoken : (i : Impl) (t : Trace) → IsWoken i.listener.listen_socket (unbind i t).1
  unfolding unbind
  unbind-IsWoken i t =
      let s = i.listener.listen_socket in
      close_socket-IsWoken s s (shutdown_both s t).1 (shutdown_both-wakes s t)

  stop-IsWoken :
      (x : SocketHandle) (session : ForwardSession) (t : Trace)
      → session.stopping ≡ false
      → IsWoken x t
      → IsWoken x (Session.stop session t).1
  unfolding Session.stop shutdown_sockets
  stop-IsWoken x session t going h = simp going (
      shutdown_both-IsWoken x session.upstream_socket (shutdown_both session.client_socket t).1
        (shutdown_both-IsWoken x session.client_socket t h))

  stop-IsReleased :
      (session : ForwardSession) (t : Trace)
      → session.stopping ≡ false
      → let (s, u) = Session.stop session t in IsReleased u s
  unfolding Session.stop shutdown_sockets
  stop-IsReleased session t going =
      let c = session.client_socket in
      let u = (shutdown_both c t).1 in
      simp going (
        shutdown_both-IsWoken c session.upstream_socket u (shutdown_both-wakes c t),
        shutdown_both-wakes session.upstream_socket u,
      )

  stop_each-IsWoken :
      (x : SocketHandle) (table : TcpSessions) (t : Trace)
      → AreGoing table
      → IsWoken x t
      → IsWoken x (stop_each table t).1
  unfolding stop_each
  stop_each-IsWoken x [] t going h = h
  stop_each-IsWoken x ((id, session) ∷ rest) t (one, going) h =
      stop_each-IsWoken x rest (Session.stop session t).1 going (stop-IsWoken x session t one h)

  -- `Stop` wakes the relays of every session.
  pub stop_each-AreReleased :
      (table : TcpSessions) (t : Trace)
      → AreGoing table
      → let (table', u) = stop_each table t in AreReleased u table'
  unfolding stop_each
  stop_each-AreReleased [] t going = tt
  stop_each-AreReleased ((id, session) ∷ rest) t (one, going) =
      let (s, u) = Session.stop session t in
      let (client, upstream) = stop-IsReleased session t one in
      (
        (
          stop_each-IsWoken s.client_socket rest u going client,
          stop_each-IsWoken s.upstream_socket rest u going upstream,
        ),
        stop_each-AreReleased rest u going,
      )
