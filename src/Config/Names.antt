-- ===== src/Config/Names.antt =====
-- src/net/forwarder.cpp: `ParseAddressFamily`, `AddressFamilyToString`, `ParseTransportProtocol`
-- and `TransportProtocolToString`.
use port_forward_x.Prelude.{
  ◌≡◌, refl, ◌↔◌, ◌⊎◌, false, ◌||◌, arith, if◌then◌else◌, map, Text, codes, text_eq, text_eq_iff,
  lowered, to_upper,
}
use port_forward_x.Config.{
  TransportProtocol, tcp, udp, AddressFamilyPreference, auto, ipv4_only, ipv6_only, is_udp,
}

unfoldable pub parse_address_family : Text → AddressFamilyPreference
parse_address_family input =
    let name = lowered input in
    if text_eq name (codes "ipv4") || text_eq name (codes "v4")
    then ipv4_only
    else if text_eq name (codes "ipv6") || text_eq name (codes "v6")
    then ipv6_only
    else auto

unfoldable pub address_family_to_string : AddressFamilyPreference → Text
address_family_to_string ipv4_only = codes "ipv4"
address_family_to_string ipv6_only = codes "ipv6"
address_family_to_string auto = codes "auto"

unfoldable pub parse_transport_protocol : Text → TransportProtocol
parse_transport_protocol input = if text_eq (lowered input) (codes "udp") then udp else tcp

unfoldable pub transport_protocol_to_string : TransportProtocol → Text
transport_protocol_to_string protocol = if is_udp protocol then codes "udp" else codes "tcp"

-- Every family is read back from its name, in lower or in upper case, and so is every protocol.
pub parse-print :
    (family : AddressFamilyPreference) (protocol : TransportProtocol)
    → (parse_address_family (address_family_to_string family) ≡ family)
      × (parse_address_family (map to_upper (address_family_to_string family)) ≡ family)
      × (parse_transport_protocol (transport_protocol_to_string protocol) ≡ protocol)
      × (parse_transport_protocol (map to_upper (transport_protocol_to_string protocol)) ≡ protocol)
unfolding parse_address_family address_family_to_string parse_transport_protocol
    transport_protocol_to_string lowered text_eq codes to_upper
parse-print family protocol = (of_family family, ofu family, op protocol, opu protocol)
  where
    of_family :
        (f : AddressFamilyPreference) → parse_address_family (address_family_to_string f) ≡ f
    of_family auto = refl
    of_family ipv4_only = refl
    of_family ipv6_only = refl

    ofu :
        (f : AddressFamilyPreference)
        → parse_address_family (map to_upper (address_family_to_string f)) ≡ f
    ofu auto = refl
    ofu ipv4_only = refl
    ofu ipv6_only = refl

    op : (p : TransportProtocol) → parse_transport_protocol (transport_protocol_to_string p) ≡ p
    op tcp = refl
    op udp = refl

    opu :
        (p : TransportProtocol)
        → parse_transport_protocol (map to_upper (transport_protocol_to_string p)) ≡ p
    opu tcp = refl
    opu udp = refl

names_differ :
    (text_eq (codes "ipv6") (codes "ipv4") ≡ false)
    × (text_eq (codes "ipv6") (codes "v4") ≡ false)
    × (text_eq (codes "v6") (codes "ipv4") ≡ false)
    × (text_eq (codes "v6") (codes "v4") ≡ false)
unfolding text_eq codes
names_differ = (refl, refl, refl, refl)

-- The family that a text selects is IPv4 exactly when its lower-case form is "ipv4" or "v4", and
-- IPv6 exactly when that form is "ipv6" or "v6"; every other text selects the automatic choice.
parse_address_family_iff :
    (input : Text)
    → ((parse_address_family input ≡ ipv4_only)
        ↔ ((lowered input ≡ codes "ipv4") ⊎ (lowered input ≡ codes "v4")))
      × ((parse_address_family input ≡ ipv6_only)
          ↔ ((lowered input ≡ codes "ipv6") ⊎ (lowered input ≡ codes "v6")))
unfolding parse_address_family
parse_address_family_iff input =
    let name = lowered input in
    ground (
      arith,
      text_eq_iff name (codes "ipv4"),
      text_eq_iff name (codes "v4"),
      text_eq_iff name (codes "ipv6"),
      text_eq_iff name (codes "v6"),
      names_differ,
    )
