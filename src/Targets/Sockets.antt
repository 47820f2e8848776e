-- ===== src/Targets/Sockets.antt =====
-- A resolution neither opens nor closes a socket that the program sees.
use port_forward_x.Prelude.{ℕ, ◌≡◌, refl, List, Bool}
use port_forward_x.Config.{ForwardConfig, TransportProtocol, AddressFamilyPreference}
use port_forward_x.System.{Os, Trace}
use port_forward_x.System.Sockets.{is_open}
use port_forward_x.Platform.{ErrorOut}
use port_forward_x.Endpoint.{ResolvedEndpoint}
use port_forward_x.Resolver.{resolve}
use port_forward_x.Prelude.{Text}
use port_forward_x.Targets.{resolve_target_endpoints}

module _ ⦃os : Os⦄ (n : ℕ) where
  pub is_open-resolve :
      (host : Text) (port : ℕ) (protocol : TransportProtocol) (family : AddressFamilyPreference)
      (passive : Bool) (error : ErrorOut) (t : Trace)
      → is_open n (resolve host port protocol family passive error t).1 ≡ is_open n t
  unfolding resolve
  is_open-resolve host port protocol family passive error t = refl

  pub is_open-resolve_target_endpoints :
      (config : ForwardConfig) (old : List ResolvedEndpoint) (error : ErrorOut) (t : Trace)
      → is_open n (resolve_target_endpoints config old error t).1 ≡ is_open n t
  unfolding resolve_target_endpoints resolve
  is_open-resolve_target_endpoints config old error t = refl
