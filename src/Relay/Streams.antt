-- ===== src/Relay/Streams.antt =====
-- The bytes that went through a socket in a history of calls.
use port_forward_x.Prelude.{ℕ, ◌≡◌, [], ◌∷◌, ◌++◌, some, if◌then◌else◌, take, to_size, arith}
use port_forward_x.System.{Bytes, Event, Trace, Os, SocketHandle, send_call, recv_call}
use port_forward_x.System.Sockets.{is_handle}
use port_forward_x.Platform.{shutdown_write, shutdown_both}

-- What a call adds to the bytes that the socket `n` has accepted, and to those got from it.
abbrev pub accepted : ℕ → Event → Bytes → Bytes
accepted n (send_call s bytes r) before =
    if is_handle n s then before ++ take (to_size r) bytes else before
accepted n _ before = before

abbrev pub obtained : ℕ → Event → Bytes → Bytes
obtained n (recv_call s size (some bytes)) before =
    if is_handle n s then before ++ bytes else before
obtained n _ before = before

-- The bytes that the socket `n` has accepted, and those that were received from it, oldest first.
abbrev pub delivered : ℕ → Trace → Bytes
delivered n [] = []
delivered n (e ∷ t) = accepted n e (delivered n t)

abbrev pub received : ℕ → Trace → Bytes
received n [] = []
received n (e ∷ t) = obtained n e (received n t)

module _ ⦃os : Os⦄ (n : ℕ) where
  pub delivered-shutdown_both :
      (s : SocketHandle) (t : Trace) → delivered n (shutdown_both s t).1 ≡ delivered n t
  unfolding shutdown_both
  delivered-shutdown_both s t = ground arith

  pub delivered-shutdown_write :
      (s : SocketHandle) (t : Trace) → delivered n (shutdown_write s t).1 ≡ delivered n t
  unfolding shutdown_write
  delivered-shutdown_write s t = ground arith

  pub received-shutdown_both :
      (s : SocketHandle) (t : Trace) → received n (shutdown_both s t).1 ≡ received n t
  unfolding shutdown_both
  received-shutdown_both s t = ground arith

  pub received-shutdown_write :
      (s : SocketHandle) (t : Trace) → received n (shutdown_write s t).1 ≡ received n t
  unfolding shutdown_write
  received-shutdown_write s t = ground arith
