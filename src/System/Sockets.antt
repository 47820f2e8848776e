-- ===== src/System/Sockets.antt =====
-- The sockets that are open after a history of calls.
use port_forward_x.Prelude.{ℕ, suc, ◌≡◌, Bool, true, false, [], ◌∷◌, ◌==◌, if◌then◌else◌}
use port_forward_x.System.{
  SocketHandle, handle, invalid_socket, NativeFamily, SocketType, SocketProtocol, Trace, Event, Os,
  socket_call, accept_call, close_call, setsockopt_call, bind_call, listen_call, connect_call,
  shutdown_call, recv_call, send_call, recvfrom_call, sendto_call, getsockname_call,
}

-- `s` is the handle `n`.
abbrev pub is_handle : ℕ → SocketHandle → Bool
is_handle n invalid_socket = false
is_handle n (handle m) = m == n

-- What a call does to the openness of `n`.
abbrev pub opens : ℕ → Event → Bool → Bool
opens n (socket_call _ _ _ s) before = if is_handle n s then true else before
opens n (accept_call _ s _) before = if is_handle n s then true else before
opens n (close_call s) before = if is_handle n s then false else before
opens n _ before = before

abbrev pub is_open : ℕ → Trace → Bool
is_open n [] = false
is_open n (e ∷ t) = opens n e (is_open n t)

-- POSIX: `socket` and `accept` return a descriptor that is not open.
pub record IsPosix (os : Os) : Type 0 where
  pub socket_fresh :
      (f : NativeFamily) (y : SocketType) (p : SocketProtocol) (t : Trace) (n : ℕ)
      → os.socket f y p t ≡ handle n
      → is_open n t ≡ false
  pub accept_fresh :
      (s : SocketHandle) (t : Trace) (n : ℕ) → (os.accept s t).0 ≡ handle n → is_open n t ≡ false

-- The call is on the socket `n`.
abbrev pub touches : ℕ → Event → Bool
touches n (setsockopt_call s _ _) = is_handle n s
touches n (bind_call s _ _) = is_handle n s
touches n (listen_call s _ _) = is_handle n s
touches n (connect_call s _ _) = is_handle n s
touches n (accept_call s _ _) = is_handle n s
touches n (close_call s) = is_handle n s
touches n (shutdown_call s _ _) = is_handle n s
touches n (recv_call s _ _) = is_handle n s
touches n (send_call s _ _) = is_handle n s
touches n (recvfrom_call s _ _) = is_handle n s
touches n (sendto_call s _ _ _) = is_handle n s
touches n (getsockname_call s _) = is_handle n s
touches n _ = false

-- How often the socket `n` was closed.
abbrev pub closes : ℕ → Event → ℕ → ℕ
closes n (close_call s) before = if is_handle n s then suc before else before
closes n _ before = before

abbrev pub times_closed : ℕ → Trace → ℕ
times_closed n [] = 0
times_closed n (e ∷ t) = closes n e (times_closed n t)
