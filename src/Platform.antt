-- ===== src/Platform.antt =====
-- src/net/socket_platform.cpp: the thin layer over the socket calls, in its build for POSIX.
-- An `std::string* error_message` is `none` for a null pointer, or holds the text that it points
-- to; a function that may write it returns it.
pub mod Handles
use port_forward_x.Prelude.{
  ℕ, Bool, true, false, ◌&&◌, Option, none, some, [], ◌++◌, if◌then◌else◌, Text, codes, ℤ,
}
use port_forward_x.System.{
  Bytes, SocketHandle, invalid_socket, handle, Direction, shut_rd, shut_wr, shut_rdwr, Os, Sys,
  SocketOption, so_reuseaddr, ipv6_v6only, so_sndbuf, so_rcvbuf,
}
use port_forward_x.System.Calls
use port_forward_x.System.Calls.{◌>>=◌, ◌>>◌, pure}

abbrev pub ErrorOut : Type 0
ErrorOut = Option Text

-- `if (error_message != nullptr) *error_message = text;`
abbrev pub write_error : ErrorOut → Text → ErrorOut
write_error none text = none
write_error (some old) text = some text

-- The text that the pointer points to, of a pointer that is not null.
abbrev pub text_of : ErrorOut → Text
text_of none = []
text_of (some text) = text

unfoldable pub close_socket : SocketHandle → Sys (Unit {0})
close_socket invalid_socket = pure tt
close_socket (handle n) = Calls.close (handle n)

module _ ⦃os : Os⦄ where
  unfoldable pub ensure_socket_api_initialized : Sys Bool
  ensure_socket_api_initialized = pure true

  abbrev pub last_socket_error : Sys ℕ
  last_socket_error = Calls.errno

  abbrev pub socket_error_to_string : ℕ → Text
  socket_error_to_string = os.strerror

  -- What the setters do with the result of `setsockopt`.
  abbrev set_result : Text → ErrorOut → Bool → Sys (Bool × ErrorOut)
  set_result prefix error true = pure (true, error)
  set_result prefix error false = do
    err ← last_socket_error
    pure (false, write_error error (prefix ++ socket_error_to_string err))

  unfoldable pub set_reuse_address : SocketHandle → ErrorOut → Sys (Bool × ErrorOut)
  set_reuse_address socket error = do
    rc ← Calls.setsockopt socket (so_reuseaddr 1)
    set_result (codes "setsockopt(SO_REUSEADDR) failed: ") error rc

  unfoldable pub set_ipv6_only : SocketHandle → Bool → ErrorOut → Sys (Bool × ErrorOut)
  set_ipv6_only socket enabled error = do
    rc ← Calls.setsockopt socket (ipv6_v6only (if enabled then 1 else 0))
    set_result (codes "setsockopt(IPV6_V6ONLY) failed: ") error rc

  unfoldable pub set_socket_buffer_size : SocketHandle → ℕ → ErrorOut → Sys (Bool × ErrorOut)
  set_socket_buffer_size socket buffer_size error = do
    send_rc ← Calls.setsockopt socket (so_sndbuf buffer_size)
    recv_rc ← Calls.setsockopt socket (so_rcvbuf buffer_size)
    set_result (codes "setsockopt(SO_SNDBUF/SO_RCVBUF) failed: ") error (send_rc && recv_rc)

  unfoldable pub disable_udp_conn_reset : SocketHandle → ErrorOut → Sys (Bool × ErrorOut)
  disable_udp_conn_reset socket error = pure (true, error)

  abbrev shutdown_towards : Direction → SocketHandle → Sys Bool
  shutdown_towards d invalid_socket = pure false
  shutdown_towards d (handle n) = Calls.shutdown (handle n) d

  unfoldable pub shutdown_read : SocketHandle → Sys Bool
  shutdown_read = shutdown_towards shut_rd

  unfoldable pub shutdown_write : SocketHandle → Sys Bool
  shutdown_write = shutdown_towards shut_wr

  unfoldable pub shutdown_both : SocketHandle → Sys Bool
  shutdown_both = shutdown_towards shut_rdwr

  abbrev pub recv : SocketHandle → ℕ → Sys (Option Bytes)
  recv = Calls.recv

  abbrev pub send : SocketHandle → Bytes → Sys ℤ
  send = Calls.send
