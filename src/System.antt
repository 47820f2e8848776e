-- ===== src/System.antt =====
-- What the program takes from the operating system: sockets, name resolution, the clock and the
-- console. Nothing of it is defined here. A trace is the history of all calls with their results,
-- the latest first; `Os` gives the result of the next call for every history, so a theorem over
-- every `Os` holds for every behaviour of the system. The build for POSIX is modelled.
pub mod Calls
pub mod Sockets
use port_forward_x.Prelude.{ℕ, Bool, List, Option, Text, ℤ}

-- The bytes of a datagram, of a part of a stream, or of a `sockaddr`.
abbrev pub Bytes : Type 0
Bytes = List ℕ

-- `SocketHandle`; `invalid_socket` is `kInvalidSocket`, -1.
pub data SocketHandle : Type 0 where
  invalid_socket : SocketHandle
  handle : ℕ → SocketHandle

pub data NativeFamily : Type 0 where
  af_unspec af_inet af_inet6 : NativeFamily
  af_other : ℕ → NativeFamily

pub data SocketType : Type 0 where
  sock_stream sock_dgram : SocketType

pub data SocketProtocol : Type 0 where
  ipproto_tcp ipproto_udp : SocketProtocol

pub data SocketOption : Type 0 where
  so_reuseaddr ipv6_v6only so_sndbuf so_rcvbuf : ℕ → SocketOption
  so_rcvtimeo : (seconds microseconds : ℕ) → SocketOption

pub data Direction : Type 0 where
  shut_rd shut_wr shut_rdwr : Direction

-- `addrinfo` as a request, and as an entry of the answer.
pub record Hints : Type 0 where
  pub ai_family : NativeFamily
  pub ai_socktype : SocketType
  pub ai_protocol : SocketProtocol
  pub ai_passive : Bool

pub record AddrInfo : Type 0 where
  pub ai_family : NativeFamily
  pub ai_addr : Option Bytes
  pub ai_addrlen : ℕ

pub data Resolution : Type 0 where
  failed : ℕ → Resolution
  resolved : List AddrInfo → Resolution

-- A `Bool` result is true where the call returns 0. `recv` and `recvfrom` give the bytes that they
-- place in the buffer, `none` where they return -1; `recvfrom` gives the sender's address too.
pub data Event : Type 0 where
  socket_call : NativeFamily → SocketType → SocketProtocol → SocketHandle → Event
  setsockopt_call : SocketHandle → SocketOption → Bool → Event
  bind_call : SocketHandle → Bytes → Bool → Event
  listen_call : SocketHandle → ℕ → Bool → Event
  connect_call : SocketHandle → Bytes → Bool → Event
  accept_call : SocketHandle → SocketHandle → Bytes → Event
  close_call : SocketHandle → Event
  shutdown_call : SocketHandle → Direction → Bool → Event
  recv_call : SocketHandle → ℕ → Option Bytes → Event
  send_call : SocketHandle → Bytes → ℤ → Event
  recvfrom_call : SocketHandle → ℕ → Option (Bytes × Bytes) → Event
  sendto_call : SocketHandle → Bytes → Bytes → ℤ → Event
  getsockname_call : SocketHandle → Option Bytes → Event
  getaddrinfo_call : Option Text → Text → Hints → Resolution → Event
  clock_call : ℕ → Event
  print_call : Text → Event

abbrev pub Trace : Type 0
Trace = List Event

pub record Os : Type 0 where
  pub socket : NativeFamily → SocketType → SocketProtocol → Trace → SocketHandle
  pub setsockopt : SocketHandle → SocketOption → Trace → Bool
  pub bind : SocketHandle → Bytes → Trace → Bool
  pub listen : SocketHandle → ℕ → Trace → Bool
  pub connect : SocketHandle → Bytes → Trace → Bool
  pub accept : SocketHandle → Trace → SocketHandle × Bytes
  pub shutdown : SocketHandle → Direction → Trace → Bool
  pub recv : SocketHandle → ℕ → Trace → Option Bytes
  pub send : SocketHandle → Bytes → Trace → ℤ
  pub recvfrom : SocketHandle → ℕ → Trace → Option (Bytes × Bytes)
  pub sendto : SocketHandle → Bytes → Bytes → Trace → ℤ
  pub getsockname : SocketHandle → Trace → Option Bytes
  pub getaddrinfo : Option Text → Text → Hints → Trace → Resolution
  pub steady_clock_ms : Trace → ℕ
  -- `errno` after the calls so far
  pub errno : Trace → ℕ
  pub strerror : ℕ → Text
  pub gai_strerror : ℕ → Text
  pub eagain : ℕ
  pub ewouldblock : ℕ
  pub eintr : ℕ
  -- The layout of `sockaddr` and the texts of addresses.
  pub sizeof_sockaddr_storage : ℕ
  pub sa_family : Bytes → NativeFamily
  pub sin_port : Bytes → ℕ
  pub sin6_port : Bytes → ℕ
  pub inet_ntop : NativeFamily → Bytes → Option Text
  pub getnameinfo : Bytes → Option (Text × Text)

-- A computation that makes calls.
abbrev pub Sys : Type 0 → Type 0
Sys A = Trace → A × Trace
