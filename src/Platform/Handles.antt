-- ===== src/Platform/Handles.antt =====
-- What the functions of src/net/socket_platform.cpp do to the sockets that are open, and the form of
-- an error that is reported.
use port_forward_x.Prelude.{
  ℕ, ◌≡◌, refl, Bool, false, none, some, Text, is_empty, arith, if◌then◌else◌,
}
use port_forward_x.System.{SocketHandle, invalid_socket, handle, Os, Trace}
use port_forward_x.System.Sockets.{is_open, is_handle}
use port_forward_x.Platform.{
  ErrorOut, close_socket, set_reuse_address, set_ipv6_only, set_socket_buffer_size,
  disable_udp_conn_reset, shutdown_write, shutdown_both,
}

-- What is in the place for an error after a failure: a text that is not empty, where there is a place.
abbrev pub IsReported : ErrorOut → ErrorOut → Type 0
IsReported none after = after ≡ none
IsReported (some old) after = (text : Text) × (after ≡ some text) × (is_empty text ≡ false)

pub is_open-close_socket :
    (n : ℕ) (s : SocketHandle) (t : Trace)
    → is_open n (close_socket s t).1 ≡ (if is_handle n s then false else is_open n t)
unfolding close_socket
is_open-close_socket n invalid_socket t = refl
is_open-close_socket n (handle m) t = refl

module _ ⦃os : Os⦄ (n : ℕ) (s : SocketHandle) where
  pub is_open-set_reuse_address :
      (error : ErrorOut) (t : Trace) → is_open n (set_reuse_address s error t).1 ≡ is_open n t
  unfolding set_reuse_address
  is_open-set_reuse_address error t = ground arith

  pub is_open-set_ipv6_only :
      (b : Bool) (error : ErrorOut) (t : Trace)
      → is_open n (set_ipv6_only s b error t).1 ≡ is_open n t
  unfolding set_ipv6_only
  is_open-set_ipv6_only b error t = ground arith

  pub is_open-set_socket_buffer_size :
      (size : ℕ) (error : ErrorOut) (t : Trace)
      → is_open n (set_socket_buffer_size s size error t).1 ≡ is_open n t
  unfolding set_socket_buffer_size
  is_open-set_socket_buffer_size size error t = ground arith

  pub is_open-disable_udp_conn_reset :
      (error : ErrorOut) (t : Trace) → is_open n (disable_udp_conn_reset s error t).1 ≡ is_open n t
  unfolding disable_udp_conn_reset
  is_open-disable_udp_conn_reset error t = refl

  pub is_open-shutdown_both : (t : Trace) → is_open n (shutdown_both s t).1 ≡ is_open n t
  unfolding shutdown_both
  is_open-shutdown_both t = ground arith

  pub is_open-shutdown_write : (t : Trace) → is_open n (shutdown_write s t).1 ≡ is_open n t
  unfolding shutdown_write
  is_open-shutdown_write t = ground arith
