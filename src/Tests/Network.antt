-- ===== src/Tests/Network.antt =====
-- The theorems on the resolver, on connecting, on the relay and on the session at concrete inputs.
use port_forward_x.Prelude.{
  ℕ, ◌≡◌, refl, ◌⊎◌, inl, inr, true, false, List, [], ◌∷◌, ◌++◌, Option, some, none, Text, codes,
  arith, take, All, keep, is_empty, if◌then◌else◌, ◌&&◌, ap,
}
use port_forward_x.Config.{tcp, udp, auto, ipv4_only, ipv6_only}
use port_forward_x.System.{
  Bytes, invalid_socket, handle, af_inet, af_inet6, Resolution, resolved, failed, AddrInfo, Trace,
  Hints,
}
use port_forward_x.System.Sockets.{is_open, is_handle}
use port_forward_x.Endpoint.{ResolvedEndpoint, sort_endpoints, is_ipv4_endpoint, is_ipv6_endpoint}
use port_forward_x.Endpoint.Order.{sort_endpoints_auto, sort_endpoints_only, ipv6_first}
use port_forward_x.Resolver.{resolve}
use port_forward_x.Resolver.Results.{resolve-Reports, resolve-IsWhole, Reports, IsWhole, IsSound}
use port_forward_x.Connect.{connect_to_endpoints, create_udp_socket_for_endpoint}
use port_forward_x.Connect.Sockets.{connect_to_endpoints_sockets}
use port_forward_x.Connect.Connected.{connect_to_endpoints_result, JustConnected}
use port_forward_x.Connect.Datagrams.{create_udp_socket_for_endpoint_sockets, has_socket}
use port_forward_x.Relay.{send_all, relay_received, relay_one_direction, RelayEnd, send_failed}
use port_forward_x.Relay.Streams.{delivered, received}
use port_forward_x.Relay.SendAll.{send_all_delivers}
use port_forward_x.Relay.Delivery.{relay_one_direction-Forwards}
use port_forward_x.Relay.Progress.{relay_one_direction_ends}
use port_forward_x.Tests.Machine.{machine, machine-IsPosix, address4, address6}

abbrev pub v4 : ResolvedEndpoint
v4 = record {
  ip = codes "127.0.0.1";
  port = 80;
  family = af_inet;
  sockaddr_bytes = address4;
  sockaddr_len = 4;
}

abbrev v6 : ResolvedEndpoint
v6 = record {
  ip = codes "::1";
  port = 80;
  family = af_inet6;
  sockaddr_bytes = address6;
  sockaddr_len = 5;
}

abbrev two : List ResolvedEndpoint
two = v4 ∷ v6 ∷ []

sort_endpoints_auto_example : sort_endpoints two auto ≡ ipv6_first two
sort_endpoints_auto_example = sort_endpoints_auto two (inr refl, (inl refl, tt))

sort_endpoints_only_example :
    (sort_endpoints two ipv4_only ≡ keep is_ipv4_endpoint two)
    × (sort_endpoints two ipv6_only ≡ keep is_ipv6_endpoint two)
sort_endpoints_only_example = sort_endpoints_only two

resolve-Reports_example :
    Reports [] (resolve ⦃os = machine⦄ (codes "localhost") 80 tcp auto false (some []) []).0
resolve-Reports_example = resolve-Reports ⦃os = machine⦄ (codes "localhost") 80 tcp auto false [] []

abbrev entries : Resolution → List AddrInfo
entries (failed rc) = []
entries (resolved result) = result

answer-IsSound :
    (host : Option Text) (service : Text) (hints : Hints) (t : Trace) (result : List AddrInfo)
    → machine.getaddrinfo host service hints t ≡ resolved result
    → All IsSound result
answer-IsSound host service hints t result e =
    rw⁻¹ (ap entries e) ((λ a h. ground arith), ((λ a h. ground arith), tt))

resolve-IsWhole_example :
    All IsWhole (resolve ⦃os = machine⦄ (codes "localhost") 80 udp ipv6_only false none []).0.0
resolve-IsWhole_example =
    resolve-IsWhole ⦃os = machine⦄ answer-IsSound (codes "localhost") 80 udp ipv6_only false none []

connect_to_endpoints_sockets_example :
    let ((connected, s, _), u) =
      connect_to_endpoints ⦃os = machine⦄ two tcp invalid_socket none [] in
    is_open 3 u ≡ (if connected && is_handle 3 s then true else is_open 3 [])
connect_to_endpoints_sockets_example =
    connect_to_endpoints_sockets ⦃os = machine⦄ 3 machine-IsPosix two tcp invalid_socket none []

connect_to_endpoints_result_example :
    let ((connected, s, error), u) =
      connect_to_endpoints ⦃os = machine⦄ two tcp invalid_socket (some []) [] in
    ((connected ≡ true) × (error ≡ some []) × ((n : ℕ) × (s ≡ handle n)) × JustConnected s two u)
    ⊎ ((connected ≡ false)
        × (s ≡ invalid_socket)
        × ((message : Text) × (error ≡ some message) × (is_empty message ≡ false)))
connect_to_endpoints_result_example =
    connect_to_endpoints_result ⦃os = machine⦄ two tcp invalid_socket (some []) []

create_udp_socket_for_endpoint_sockets_example :
    let ((target, _), u) = create_udp_socket_for_endpoint ⦃os = machine⦄ two none [] in
    is_open 3 u ≡ (if has_socket 3 target then true else is_open 3 [])
create_udp_socket_for_endpoint_sockets_example =
    create_udp_socket_for_endpoint_sockets ⦃os = machine⦄ 3 two none []

send_all_delivers_example :
    let (done, u) = send_all ⦃os = machine⦄ (handle 5) address6 [] in
    ((done ≡ some true) × (delivered 5 u ≡ delivered 5 [] ++ address6))
    ⊎ ((done ≡ some false) × ((k : ℕ) × (delivered 5 u ≡ delivered 5 [] ++ take k address6)))
send_all_delivers_example = send_all_delivers ⦃os = machine⦄ 5 address6 []

relay_one_direction-Forwards_example :
    let (ended, u) = relay_one_direction ⦃os = machine⦄ 4 (handle 4) (handle 5) [] in
    (ys zs : Bytes) × (received 4 u ≡ received 4 [] ++ (ys ++ zs))
    × (delivered 5 u ≡ delivered 5 [] ++ ys)
    × ((zs ≡ []) ⊎ (ended ≡ some send_failed))
relay_one_direction-Forwards_example = relay_one_direction-Forwards ⦃os = machine⦄ 4 5 4 []

-- Seven bytes come, fewer than the eight rounds.
relay_one_direction_ends_example :
    (e : RelayEnd) × ((relay_one_direction ⦃os = machine⦄ 8 (handle 4) (handle 5) []).0 ≡ some e)
unfolding relay_one_direction relay_received
relay_one_direction_ends_example = relay_one_direction_ends ⦃os = machine⦄ 4 5 8 [] (omega arith)
