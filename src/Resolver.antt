-- ===== src/Resolver.antt =====
-- src/net/dns_resolver.cpp: `DnsResolver::Resolve`. `freeaddrinfo` has no effect on the model, in
-- which the answer of `getaddrinfo` is a list.
pub mod Results
use port_forward_x.Prelude.{
  ℕ, Bool, true, false, ◌&&◌, ◌||◌, not, List, [], ◌∷◌, ◌++◌, Option, none, some, ◌==◌, ltb, take,
  is_empty, if◌then◌else◌, Text, codes, to_text,
}
use port_forward_x.Config.{TransportProtocol, AddressFamilyPreference}
use port_forward_x.System.{
  Bytes, NativeFamily, af_inet, af_inet6, Hints, AddrInfo, Resolution, failed, resolved, Os, Sys,
}
use port_forward_x.System.Calls
use port_forward_x.System.Calls.{◌>>=◌, pure}
use port_forward_x.Platform.{ErrorOut, write_error, ensure_socket_api_initialized}
use port_forward_x.Endpoint.{
  ResolvedEndpoint, to_native_family, family_eq, native_socket_type, native_socket_protocol,
}

unfoldable pub make_hints : TransportProtocol → AddressFamilyPreference → Bool → Hints
make_hints protocol family passive = record {
  ai_family = to_native_family family;
  ai_socktype = native_socket_type protocol;
  ai_protocol = native_socket_protocol protocol;
  ai_passive = passive;
}

module _ ⦃os : Os⦄ where
  -- `buffer` is the text of `inet_ntop`, or stays empty.
  abbrev text_or_empty : Option Text → Text
  text_or_empty none = []
  text_or_empty (some text) = text

  unfoldable pub to_ip_string : Bytes → Text
  to_ip_string addr =
      if family_eq (os.sa_family addr) af_inet
      then text_or_empty (os.inet_ntop af_inet addr)
      else if family_eq (os.sa_family addr) af_inet6
      then text_or_empty (os.inet_ntop af_inet6 addr)
      else []

  unfoldable pub extract_port : Bytes → ℕ
  extract_port addr =
      if family_eq (os.sa_family addr) af_inet
      then os.sin_port addr
      else if family_eq (os.sa_family addr) af_inet6
      then os.sin6_port addr
      else 0

  unfoldable pub make_endpoint : NativeFamily → Bytes → ℕ → ResolvedEndpoint
  unfolding to_ip_string extract_port
  make_endpoint family addr len = record {
    ip = to_ip_string addr;
    port = extract_port addr;
    family = family;
    sockaddr_bytes = take len addr;
    sockaddr_len = len;
  }

  -- The loop over the answer: an entry with no address is passed over.
  unfoldable pub collect : List AddrInfo → List ResolvedEndpoint
  collect [] = []
  collect (it ∷ rest) = elim it.ai_addr [
    | none ↦ collect rest
    | some addr ↦
        if it.ai_addrlen == 0
        then collect rest
        else make_endpoint it.ai_family addr it.ai_addrlen ∷ collect rest
  ]

  -- The end of `Resolve`, from the answer on.
  abbrev pub conclude : Text → ErrorOut → Resolution → List ResolvedEndpoint × ErrorOut
  conclude host error (failed rc) =
      ([], write_error error (codes "getaddrinfo failed: " ++ os.gai_strerror rc))
  conclude host error (resolved result) =
      let endpoints = collect result in
      if is_empty endpoints
      then (endpoints, write_error error (codes "No endpoint resolved for host: " ++ host))
      else (endpoints, error)

  -- `node` is a null pointer for an empty host.
  abbrev query : Text → ℕ → Hints → ErrorOut → Sys (List ResolvedEndpoint × ErrorOut)
  query host port hints error = do
    result ← Calls.getaddrinfo (if is_empty host then none else some host) (to_text port) hints
    pure (conclude host error result)

  unfoldable pub resolve :
      Text
      → ℕ
      → TransportProtocol
      → AddressFamilyPreference
      → Bool
      → ErrorOut
      → Sys (List ResolvedEndpoint × ErrorOut)
  unfolding ensure_socket_api_initialized make_hints
  resolve host port protocol family passive error = do
    ready ← ensure_socket_api_initialized
    if ready then query host port (make_hints protocol family passive) error else pure ([], error)
