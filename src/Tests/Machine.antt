-- ===== src/Tests/Machine.antt =====
-- A concrete system: it gives new descriptors, accepts three bytes at a time, and reads a message of
-- two parts and then the end of the stream. Its names have an IPv4 and an IPv6 address.
use port_forward_x.Prelude.{
  ℕ, zero, suc, ap, ◌+◌, ◌-◌, ◌*◌, ◌<◌, ◌≡◌, refl, Bool, true, false, List, [], ◌∷◌, some, codes,
  arith, pos, length, ◌==◌, if◌then◌else◌,
}
use port_forward_x.System.{
  Bytes, SocketHandle, invalid_socket, handle, NativeFamily, af_inet, af_inet6, af_unspec, AddrInfo,
  resolved, Event, Trace, Os, socket_call, accept_call, close_call, setsockopt_call, bind_call,
  listen_call, connect_call, shutdown_call, recv_call, send_call, recvfrom_call, sendto_call,
  getsockname_call, getaddrinfo_call, clock_call, print_call,
}
use port_forward_x.System.Sockets.{is_open, is_handle, opens, IsPosix}

-- Greater than every descriptor that the history has.
abbrev above : SocketHandle → ℕ → ℕ
above invalid_socket n = n
above (handle m) n = m + n + 1

abbrev next : Event → ℕ → ℕ
next (socket_call _ _ _ s) n = above s n
next (accept_call _ s _) n = above s n
next _ n = n

abbrev pub next_handle : Trace → ℕ
next_handle [] = 3
next_handle (e ∷ t) = next e (next_handle t)

opened_below :
    (n k : ℕ) (s : SocketHandle) (b : Bool)
    → (b ≡ true → n < k)
    → (if is_handle n s then true else b) ≡ true
    → n < above s k
opened_below n k invalid_socket b below h = below h
opened_below n k (handle m) b below h = ground arith

closed_below :
    (n k : ℕ) (s : SocketHandle) (b : Bool)
    → (b ≡ true → n < k)
    → (if is_handle n s then false else b) ≡ true
    → n < k
closed_below n k s b below h = ground arith

opens-next :
    (n k : ℕ) (e : Event) (b : Bool) → (b ≡ true → n < k) → opens n e b ≡ true → n < next e k
opens-next n k (socket_call _ _ _ s) b below h = opened_below n k s b below h
opens-next n k (accept_call _ s _) b below h = opened_below n k s b below h
opens-next n k (close_call s) b below h = closed_below n k s b below h
opens-next n k (setsockopt_call _ _ _) b below h = below h
opens-next n k (bind_call _ _ _) b below h = below h
opens-next n k (listen_call _ _ _) b below h = below h
opens-next n k (connect_call _ _ _) b below h = below h
opens-next n k (shutdown_call _ _ _) b below h = below h
opens-next n k (recv_call _ _ _) b below h = below h
opens-next n k (send_call _ _ _) b below h = below h
opens-next n k (recvfrom_call _ _ _) b below h = below h
opens-next n k (sendto_call _ _ _ _) b below h = below h
opens-next n k (getsockname_call _ _) b below h = below h
opens-next n k (getaddrinfo_call _ _ _ _) b below h = below h
opens-next n k (clock_call _) b below h = below h
opens-next n k (print_call _) b below h = below h

open_below : (n : ℕ) (t : Trace) → is_open n t ≡ true → n < next_handle t
open_below n [] h = cc
open_below n (e ∷ t) h = opens-next n (next_handle t) e (is_open n t) (open_below n t) h

abbrev descriptor : SocketHandle → ℕ
descriptor invalid_socket = 0
descriptor (handle n) = n

new_is_closed : (n : ℕ) (t : Trace) → handle (next_handle t) ≡ handle n → is_open n t ≡ false
new_is_closed n t e =
    elim (is_open n t) as (λ b. is_open n t ≡ b → b ≡ false) [
      | true ↦ λ h. absurd (omega (arith, open_below n t h, ap descriptor e))
      | false ↦ λ h. refl
    ]
      refl

abbrev family_of : Bytes → NativeFamily
family_of [] = af_unspec
family_of (b ∷ rest) = if b == 4 then af_inet else if b == 6 then af_inet6 else af_unspec

abbrev pub address4 : Bytes
address4 = 4 ∷ 7 ∷ 127 ∷ 1 ∷ []

abbrev pub address6 : Bytes
address6 = 6 ∷ 9 ∷ 0 ∷ 0 ∷ 1 ∷ []

abbrev pub answer : List AddrInfo
answer =
    record { ai_family = af_inet; ai_addr = some address4; ai_addrlen = 4 }
    ∷ record { ai_family = af_inet6; ai_addr = some address6; ai_addrlen = 5 }
    ∷ []

-- The parts of the message that are still to come.
abbrev coming : Trace → ℕ
coming [] = 2
coming (recv_call _ _ _ ∷ t) = coming t - 1
coming (_ ∷ t) = coming t

abbrev next_part : ℕ → Bytes
next_part zero = []
next_part (suc zero) = 104 ∷ 101 ∷ 108 ∷ 108 ∷ 111 ∷ []
next_part _ = 72 ∷ 105 ∷ []

abbrev least : ℕ → ℕ → ℕ
least zero b = 0
least (suc a) zero = 0
least (suc a) (suc b) = suc (least a b)

abbrev pub machine : Os
machine = record {
  socket = λ f y p t. handle (next_handle t);
  setsockopt = λ s o t. true;
  bind = λ s a t. true;
  listen = λ s n t. true;
  connect = λ s a t. true;
  accept = λ s t. (handle (next_handle t), address4);
  shutdown = λ s d t. true;
  recv = λ s n t. some (next_part (coming t));
  send = λ s b t. pos (least 3 (length b));
  recvfrom = λ s n t. some (1 ∷ 2 ∷ 3 ∷ [], address4);
  sendto = λ s b a t. pos (length b);
  getsockname = λ s t. some address4;
  getaddrinfo = λ n p h t. resolved answer;
  steady_clock_ms = λ t. 1000 * length t;
  errno = λ t. 11;
  strerror = λ n. codes "Resource temporarily unavailable";
  gai_strerror = λ n. codes "Name or service not known";
  eagain = 11;
  ewouldblock = 11;
  eintr = 4;
  sizeof_sockaddr_storage = 128;
  sa_family = family_of;
  sin_port = λ b. 80;
  sin6_port = λ b. 80;
  inet_ntop = λ f b. some (codes "127.0.0.1");
  getnameinfo = λ b. some (codes "127.0.0.1", codes "4000");
}

pub machine-IsPosix : IsPosix machine
machine-IsPosix = record {
  socket_fresh = λ f y p t n e. new_is_closed n t e;
  accept_fresh = λ s t n e. new_is_closed n t e;
}
