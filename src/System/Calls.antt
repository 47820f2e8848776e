-- ===== src/System/Calls.antt =====
-- The calls as computations: each asks the system and records the call with its result.
use port_forward_x.Prelude.{ℕ, Bool, Option, Text, ◌∷◌, ℤ}
use port_forward_x.System.{
  Bytes, SocketHandle, NativeFamily, SocketType, SocketProtocol, SocketOption, Direction, Hints,
  Resolution, Event, Trace, Os, Sys,
}

abbrev pub pure : {A : Type 0} → A → Sys A
pure a t = (a, t)

infixl 5 ◌>>=◌ ◌>>◌
abbrev pub ◌>>=◌ : {A B : Type 0} → Sys A → (A → Sys B) → Sys B
◌>>=◌ m f t = let (a, u) = m t in f a u

abbrev pub ◌>>◌ : {A B : Type 0} → Sys A → Sys B → Sys B
m >> k = m >>= λ _. k

-- The answer and its record.
abbrev log : {A : Type 0} → (A → Event) → (Trace → A) → Sys A
log entry answer t = let a = answer t in (a, entry a ∷ t)

abbrev record_call : Event → Sys (Unit {0})
record_call e t = (tt, e ∷ t)

abbrev pub print : Text → Sys (Unit {0})
print s = record_call (Event.print_call s)

module _ ⦃os : Os⦄ where
  abbrev pub socket : NativeFamily → SocketType → SocketProtocol → Sys SocketHandle
  socket f y p = log (Event.socket_call f y p) (os.socket f y p)

  abbrev pub setsockopt : SocketHandle → SocketOption → Sys Bool
  setsockopt s o = log (Event.setsockopt_call s o) (os.setsockopt s o)

  abbrev pub bind : SocketHandle → Bytes → Sys Bool
  bind s a = log (Event.bind_call s a) (os.bind s a)

  abbrev pub listen : SocketHandle → ℕ → Sys Bool
  listen s n = log (Event.listen_call s n) (os.listen s n)

  abbrev pub connect : SocketHandle → Bytes → Sys Bool
  connect s a = log (Event.connect_call s a) (os.connect s a)

  abbrev pub accept : SocketHandle → Sys (SocketHandle × Bytes)
  accept s = log (λ r. Event.accept_call s r.0 r.1) (os.accept s)

  abbrev pub shutdown : SocketHandle → Direction → Sys Bool
  shutdown s d = log (Event.shutdown_call s d) (os.shutdown s d)

  abbrev pub recv : SocketHandle → ℕ → Sys (Option Bytes)
  recv s n = log (Event.recv_call s n) (os.recv s n)

  abbrev pub send : SocketHandle → Bytes → Sys ℤ
  send s b = log (Event.send_call s b) (os.send s b)

  abbrev pub recvfrom : SocketHandle → ℕ → Sys (Option (Bytes × Bytes))
  recvfrom s n = log (Event.recvfrom_call s n) (os.recvfrom s n)

  abbrev pub sendto : SocketHandle → Bytes → Bytes → Sys ℤ
  sendto s b a = log (Event.sendto_call s b a) (os.sendto s b a)

  abbrev pub getsockname : SocketHandle → Sys (Option Bytes)
  getsockname s = log (Event.getsockname_call s) (os.getsockname s)

  abbrev pub getaddrinfo : Option Text → Text → Hints → Sys Resolution
  getaddrinfo n p h = log (Event.getaddrinfo_call n p h) (os.getaddrinfo n p h)

  abbrev pub steady_clock_ms : Sys ℕ
  steady_clock_ms = log Event.clock_call os.steady_clock_ms

  -- Reading `errno` is no call.
  abbrev pub errno : Sys ℕ
  errno t = (os.errno t, t)

abbrev pub close : SocketHandle → Sys (Unit {0})
close s = record_call (Event.close_call s)
