-- ===== src/Main/Modes.antt =====
-- What `main` makes of the options, in each mode.
use port_forward_x.Prelude.{
  ℕ, ◌^◌, ◌<◌, ◌≤◌, ◌≡◌, refl, ap, ◌⊎◌, inl, inr, true, ◌||◌, Option, none, some, arith, ltb,
  Bool-cases, Text, codes, text_eq, lowered,
}
use port_forward_x.Config.{
  ForwardConfig, default_config, AddressFamilyPreference, auto, ipv4_only, ipv6_only,
}
use port_forward_x.Config.Names.{parse_address_family}
use port_forward_x.Config.Families.{effective_listen_family, effective_target_family}
use port_forward_x.Main.{
  Options, Checked, refused, taken, ◌>>=◌, parse_port, require_host, family_or, to_port,
  custom_config, server_config, client_config, mode_config, Setup, with_protocol, configure,
}

-- The two ports are the given ones, and they are below 2 ^ 16.
abbrev pub ArePorts : Option ℕ → Option ℕ → ForwardConfig → Type 0
ArePorts listen target config =
    (listen ≡ some config.listen_port)
    × (config.listen_port < 2 ^ 16)
    × (target ≡ some config.target_port)
    × (config.target_port < 2 ^ 16)

-- The families that the two sides use.
abbrev pub UsesFamilies : AddressFamilyPreference → AddressFamilyPreference → ForwardConfig → Type 0
UsesFamilies listen target config =
    (effective_listen_family config ≡ listen) × (effective_target_family config ≡ target)

-- The settings that the options ask for.
abbrev pub IsFor : Options → ForwardConfig → Type 0
IsFor o config =
    let preference = parse_address_family o.family in
    ((text_eq o.mode (codes "custom") ≡ true)
      × (ArePorts o.listen_port o.target_port config
          × (o.target_host ≡ some config.target_host)
          × UsesFamilies preference preference config))
    ⊎ ((text_eq o.mode (codes "server") ≡ true)
        × (ArePorts o.public_listen_port o.lan_target_port config
            × (o.lan_target_host ≡ config.target_host)
            × UsesFamilies (family_or preference ipv6_only) auto config))
    ⊎ ((text_eq o.mode (codes "client") ≡ true)
        × (ArePorts o.local_listen_port o.server_port config
            × (o.server_ipv6_host ≡ some config.target_host)
            × UsesFamilies ipv4_only (family_or preference ipv6_only) config))

bind-taken :
    {A B : Type 0} (m : Checked A) (f : A → Checked B) (b : B)
    → (m >>= f) ≡ taken b
    → (a : A) × (m ≡ taken a) × (f a ≡ taken b)
bind-taken (refused message) f b h = cc
bind-taken (taken a) f b h = (a, refl, h)

parse_port-taken :
    (key : Text) (value : Option ℕ) (p : ℕ)
    → parse_port key value ≡ taken p
    → (value ≡ some (to_port p)) × (to_port p < 2 ^ 16)
unfolding parse_port
parse_port-taken key none p h = cc
parse_port-taken key (some raw) p h = elim (Bool-cases (ltb 65535 raw)) [
  | inl large ↦ cc (simp large at h)
  | inr small ↦
      let same : raw ≡ p = cc (simp small at h) in
      let bound : raw ≤ 65535 = ground arith in (ap some (omega arith), omega arith)
]

require_host-taken :
    (key : Text) (value : Option Text) (host : Text)
    → require_host key value ≡ taken host
    → value ≡ some host
require_host-taken key none host h = cc
require_host-taken key (some given) host h = cc

custom-families :
    (p : AddressFamilyPreference) (config : ForwardConfig)
    → config.family ≡ p
    → config.listen_family ≡ p
    → config.target_family ≡ p
    → UsesFamilies p p config
unfolding effective_listen_family effective_target_family
custom-families auto config f l t = simp (f, l, t) (refl, refl)
custom-families ipv4_only config f l t = simp (f, l, t) (refl, refl)
custom-families ipv6_only config f l t = simp (f, l, t) (refl, refl)

server-families :
    (p : AddressFamilyPreference) (config : ForwardConfig)
    → config.listen_family ≡ family_or p ipv6_only
    → config.target_family ≡ auto
    → UsesFamilies (family_or p ipv6_only) auto config
unfolding effective_listen_family effective_target_family
server-families auto config l t = simp (l, t) (refl, refl)
server-families ipv4_only config l t = simp (l, t) (refl, refl)
server-families ipv6_only config l t = simp (l, t) (refl, refl)

client-families :
    (p : AddressFamilyPreference) (config : ForwardConfig)
    → config.listen_family ≡ ipv4_only
    → config.target_family ≡ family_or p ipv6_only
    → UsesFamilies ipv4_only (family_or p ipv6_only) config
unfolding effective_listen_family effective_target_family
client-families auto config l t = simp (l, t) (refl, refl)
client-families ipv4_only config l t = simp (l, t) (refl, refl)
client-families ipv6_only config l t = simp (l, t) (refl, refl)

taken-eq : {A : Type 0} (a b : A) → taken a ≡ taken b → a ≡ b
taken-eq a b h = cc

custom_config-taken :
    (o : Options) (p : AddressFamilyPreference) (config c : ForwardConfig)
    → config.family ≡ p
    → custom_config o p config ≡ taken c
    → ArePorts o.listen_port o.target_port c
      × (o.target_host ≡ some c.target_host)
      × UsesFamilies p p c
unfolding custom_config
custom_config-taken o p config c f h =
    let (l, hl, h1) = bind-taken (parse_port (codes "listen-port") o.listen_port) _ c h in
    let (t, ht, h2) = bind-taken (parse_port (codes "target-port") o.target_port) _ c h1 in
    let (host, hh, h3) = bind-taken (require_host (codes "target-host") o.target_host) _ c h2 in
    let (el, bl) = parse_port-taken (codes "listen-port") o.listen_port l hl in
    let (et, bt) = parse_port-taken (codes "target-port") o.target_port t ht in
    rw⁻¹ (taken-eq _ c h3) (
      (el, bl, et, bt),
      require_host-taken (codes "target-host") o.target_host host hh,
      custom-families p _ f refl refl,
    )

server_config-taken :
    (o : Options) (p : AddressFamilyPreference) (config c : ForwardConfig)
    → server_config o p config ≡ taken c
    → ArePorts o.public_listen_port o.lan_target_port c
      × (o.lan_target_host ≡ c.target_host)
      × UsesFamilies (family_or p ipv6_only) auto c
unfolding server_config
server_config-taken o p config c h =
    let (l, hl, h1) =
      bind-taken (parse_port (codes "public-listen-port") o.public_listen_port) _ c h in
    let (t, ht, h2) = bind-taken (parse_port (codes "lan-target-port") o.lan_target_port) _ c h1 in
    let (el, bl) = parse_port-taken (codes "public-listen-port") o.public_listen_port l hl in
    let (et, bt) = parse_port-taken (codes "lan-target-port") o.lan_target_port t ht in
    rw⁻¹ (taken-eq _ c h2) ((el, bl, et, bt), refl, server-families p _ refl refl)

client_config-taken :
    (o : Options) (p : AddressFamilyPreference) (config c : ForwardConfig)
    → client_config o p config ≡ taken c
    → ArePorts o.local_listen_port o.server_port c
      × (o.server_ipv6_host ≡ some c.target_host)
      × UsesFamilies ipv4_only (family_or p ipv6_only) c
unfolding client_config
client_config-taken o p config c h =
    let (l, hl, h1) =
      bind-taken (parse_port (codes "local-listen-port") o.local_listen_port) _ c h in
    let (t, ht, h2) = bind-taken (parse_port (codes "server-port") o.server_port) _ c h1 in
    let (host, hh, h3) =
      bind-taken (require_host (codes "server-ipv6-host") o.server_ipv6_host) _ c h2 in
    let (el, bl) = parse_port-taken (codes "local-listen-port") o.local_listen_port l hl in
    let (et, bt) = parse_port-taken (codes "server-port") o.server_port t ht in
    rw⁻¹ (taken-eq _ c h3) (
      (el, bl, et, bt),
      require_host-taken (codes "server-ipv6-host") o.server_ipv6_host host hh,
      client-families p _ refl refl,
    )

mode_config-IsFor :
    (o : Options) (config c : ForwardConfig)
    → config.family ≡ parse_address_family o.family
    → mode_config o (parse_address_family o.family) config ≡ taken c
    → IsFor o c
unfolding mode_config
mode_config-IsFor o config c f h =
    let p = parse_address_family o.family in
    elim (Bool-cases (text_eq o.mode (codes "custom"))) [
      | inl custom ↦ inl (custom, custom_config-taken o p config c f (simp custom at h))
      | inr n1 ↦ elim (Bool-cases (text_eq o.mode (codes "server"))) [
        | inl server ↦ inr (inl (server, server_config-taken o p config c (simp (n1, server) at h)))
        | inr n2 ↦ elim (Bool-cases (text_eq o.mode (codes "client"))) [
          | inl client ↦
              inr (inr (client, client_config-taken o p config c (simp (n1, n2, client) at h)))
          | inr n3 ↦ cc (simp (n1, n2, n3) at h)
        ]
      ]
    ]

with_protocol-taken :
    (o : Options) (input : Text) (config : ForwardConfig) (setup : Setup)
    → IsFor o config
    → with_protocol o input config ≡ taken setup
    → IsFor o setup.config × ((setup.enable_tcp || setup.enable_udp) ≡ true)
unfolding effective_listen_family effective_target_family
with_protocol-taken o input config setup for h =
    let both = text_eq input (codes "both") in
    elim (Bool-cases
      ((text_eq input (codes "tcp") || both) || (text_eq input (codes "udp") || both))) [
        | inl some_protocol ↦ rw⁻¹ (taken-eq _ setup (simp some_protocol at h)) (for, some_protocol)
        | inr none_of_them ↦ cc (simp none_of_them at h)
      ]

-- If `main` accepts the options, the mode is one of the three. The two ports are those that were
-- given for this mode, below 2 ^ 16, and the target host is the one given for it. In custom mode
-- both sides use the given family preference; in server mode the listener uses it, or IPv6 for the
-- automatic choice, and the target side makes the automatic choice; in client mode the listener uses
-- IPv4 and the target side the preference, or IPv6 for the automatic choice. And TCP or UDP is
-- enabled.
pub configure-IsFor :
    (o : Options) (setup : Setup)
    → configure o ≡ taken setup
    → IsFor o setup.config × ((setup.enable_tcp || setup.enable_udp) ≡ true)
unfolding configure
configure-IsFor o setup h =
    let config = record default_config { family = parse_address_family o.family } in
    let (c, hc, hs) = bind-taken (mode_config o (parse_address_family o.family) config) _ setup h in
    with_protocol-taken o (lowered o.protocol) c setup (mode_config-IsFor o config c refl hc) hs
