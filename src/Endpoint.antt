-- ===== src/Endpoint.antt =====
-- `ResolvedEndpoint` (include/portforwardx/net/dns_resolver.hpp), and from src/net/forwarder.cpp
-- the native constants, the order of endpoints and their texts. A `std::vector` is a list.
pub mod Order
use port_forward_x.Prelude.{
  ℕ, ◌+◌, ◌*◌, ◌/◌, ◌%◌, Bool, true, false, ◌&&◌, ◌||◌, List, [], ◌∷◌, ◌++◌, none, some, ◌==◌,
  if◌then◌else◌, Text, codes, to_text,
}
use port_forward_x.Config.{
  TransportProtocol, tcp, udp, AddressFamilyPreference, auto, ipv4_only, ipv6_only,
}
use port_forward_x.System.{
  Bytes, NativeFamily, af_unspec, af_inet, af_inet6, af_other, SocketType, sock_stream, sock_dgram,
  SocketProtocol, ipproto_tcp, ipproto_udp, SocketHandle, so_rcvtimeo, Os, Sys,
}
use port_forward_x.System.Calls
use port_forward_x.System.Calls.{◌>>=◌, pure}

pub record ResolvedEndpoint : Type 0 where
  pub ip : Text
  pub port : ℕ
  pub family : NativeFamily
  pub sockaddr_bytes : Bytes
  pub sockaddr_len : ℕ

abbrev pub to_native_family : AddressFamilyPreference → NativeFamily
to_native_family ipv4_only = af_inet
to_native_family ipv6_only = af_inet6
to_native_family auto = af_unspec

abbrev pub family_eq : NativeFamily → NativeFamily → Bool
family_eq af_unspec af_unspec = true
family_eq af_inet af_inet = true
family_eq af_inet6 af_inet6 = true
family_eq (af_other m) (af_other n) = m == n
family_eq _ _ = false

abbrev pub is_ipv6_endpoint : ResolvedEndpoint → Bool
is_ipv6_endpoint endpoint = family_eq endpoint.family af_inet6

abbrev pub is_ipv4_endpoint : ResolvedEndpoint → Bool
is_ipv4_endpoint endpoint = family_eq endpoint.family af_inet

abbrev pub native_socket_type : TransportProtocol → SocketType
native_socket_type udp = sock_dgram
native_socket_type tcp = sock_stream

abbrev pub native_socket_protocol : TransportProtocol → SocketProtocol
native_socket_protocol udp = ipproto_udp
native_socket_protocol tcp = ipproto_tcp

-- The comparison that `SortEndpoints` hands to `std::stable_sort`.
abbrev pub endpoint_less : ResolvedEndpoint → ResolvedEndpoint → Bool
endpoint_less lhs rhs = is_ipv6_endpoint lhs && is_ipv4_endpoint rhs

-- `std::stable_sort`: an item goes before the later ones that are not less than it.
module _ {ℓ} {A : Type ℓ} (less : A → A → Bool) where
  unfoldable pub insert : A → List A → List A
  insert x [] = x ∷ []
  insert x (y ∷ ys) = if less y x then y ∷ insert x ys else x ∷ y ∷ ys

  unfoldable pub stable_sort : List A → List A
  stable_sort [] = []
  stable_sort (x ∷ xs) = insert x (stable_sort xs)

-- The loop of `SortEndpoints` over the endpoints of one family.
unfoldable pub filter_loop :
    NativeFamily → List ResolvedEndpoint → List ResolvedEndpoint → List ResolvedEndpoint
filter_loop native [] filtered = filtered
filter_loop native (endpoint ∷ endpoints) filtered =
    filter_loop native endpoints
      (if family_eq endpoint.family native then filtered ++ (endpoint ∷ []) else filtered)

unfoldable pub sort_endpoints :
    List ResolvedEndpoint → AddressFamilyPreference → List ResolvedEndpoint
unfolding stable_sort insert filter_loop
sort_endpoints endpoints auto = stable_sort endpoint_less endpoints
sort_endpoints endpoints family = filter_loop (to_native_family family) endpoints []

unfoldable pub resolved_endpoint_to_string : ResolvedEndpoint → Text
resolved_endpoint_to_string endpoint =
    if family_eq endpoint.family af_inet6
    then codes "ipv6 [" ++ (endpoint.ip ++ (codes "]:" ++ to_text endpoint.port))
    else if family_eq endpoint.family af_inet
    then codes "ipv4 " ++ (endpoint.ip ++ (codes ":" ++ to_text endpoint.port))
    else codes "unknown " ++ (endpoint.ip ++ (codes ":" ++ to_text endpoint.port))

-- The loop of `FormatResolvedEndpointList` from an index on; `first` says that the index is 0.
format_loop : Bool → List ResolvedEndpoint → Text
format_loop first [] = []
format_loop first (endpoint ∷ endpoints) =
    (if first then [] else codes ", ")
    ++ (resolved_endpoint_to_string endpoint ++ format_loop false endpoints)

unfoldable pub format_resolved_endpoint_list : List ResolvedEndpoint → Text
unfolding format_loop
format_resolved_endpoint_list [] = codes "(none)"
format_resolved_endpoint_list (endpoint ∷ endpoints) = format_loop true (endpoint ∷ endpoints)

module _ ⦃os : Os⦄ where
  unfoldable pub endpoint_to_string : Bytes → Text
  endpoint_to_string address = elim (os.getnameinfo address) [
    | some (host, service) ↦ host ++ (codes ":" ++ service)
    | none ↦ codes "unknown"
  ]

  unfoldable pub client_endpoint_key : Bytes → Text
  client_endpoint_key = endpoint_to_string

  unfoldable pub set_udp_recv_timeout : SocketHandle → ℕ → Sys Bool
  set_udp_recv_timeout socket timeout_ms =
      Calls.setsockopt socket (so_rcvtimeo (timeout_ms / 1000) (timeout_ms % 1000 * 1000))

  unfoldable pub is_transient_recv_error : ℕ → Bool
  is_transient_recv_error code = code == os.eagain || code == os.ewouldblock || code == os.eintr

  unfoldable pub now_monotonic_ms : Sys ℕ
  now_monotonic_ms = Calls.steady_clock_ms
