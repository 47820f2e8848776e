-- ===== src/Targets.antt =====
-- src/net/forwarder.cpp: `Impl::ResolveTargetEndpoints`. The vector of target endpoints is an
-- argument and a result; the mutex makes the assignment and each copy whole.
pub mod Kept
pub mod Sockets
use port_forward_x.Prelude.{
  Bool, true, false, List, [], ◌∷◌, Option, none, some, is_empty, if◌then◌else◌, Text, codes,
}
use port_forward_x.Config.{ForwardConfig}
use port_forward_x.Config.Families.{effective_target_family}
use port_forward_x.System.{Os, Sys}
use port_forward_x.System.Calls.{◌>>=◌, pure}
use port_forward_x.Platform.{ErrorOut, text_of, write_error}
use port_forward_x.Endpoint.{ResolvedEndpoint, sort_endpoints}
use port_forward_x.Resolver.{resolve}

-- The returned value, the target endpoints and the error after the call.
pub record Resolved : Type 0 where
  pub ok : Bool
  pub target_endpoints : List ResolvedEndpoint
  pub error : ErrorOut

-- The end of `ResolveTargetEndpoints`, on the sorted endpoints.
abbrev pub store_endpoints :
    List ResolvedEndpoint → ErrorOut → Text → List ResolvedEndpoint → Resolved
store_endpoints old error local_error [] = record {
  ok = false;
  target_endpoints = old;
  error =
      write_error error
        (if is_empty local_error then codes "No target endpoint available." else local_error);
}
store_endpoints old error local_error (endpoint ∷ endpoints) = record {
  ok = true;
  target_endpoints = endpoint ∷ endpoints;
  error = error;
}

module _ ⦃os : Os⦄ where
  abbrev pub target_answer : ForwardConfig → Sys (List ResolvedEndpoint × ErrorOut)
  target_answer config =
      resolve config.target_host config.target_port config.protocol (effective_target_family config)
        false (some [])

  unfoldable pub resolve_target_endpoints :
      ForwardConfig → List ResolvedEndpoint → ErrorOut → Sys Resolved
  unfolding resolve sort_endpoints effective_target_family
  resolve_target_endpoints config old error = do
    answer ← target_answer config
    let endpoints = sort_endpoints answer.0 (effective_target_family config)
    pure (store_endpoints old error (text_of answer.1) endpoints)
