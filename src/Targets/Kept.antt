-- ===== src/Targets/Kept.antt =====
-- A failed resolution keeps the target endpoints; a forwarder that has some never loses them all.
use port_forward_x.Prelude.{
  ◌≡◌, refl, ◌⊎◌, inl, inr, true, false, List, [], ◌∷◌, none, some, is_empty, Text, codes,
}
use port_forward_x.Config.{ForwardConfig}
use port_forward_x.System.{Os, Trace}
use port_forward_x.Platform.{ErrorOut, text_of}
use port_forward_x.Platform.Handles.{IsReported}
use port_forward_x.Endpoint.{ResolvedEndpoint}
use port_forward_x.Targets.{Resolved, store_endpoints, target_answer, resolve_target_endpoints}

-- What a resolution does to the endpoints `old` and to the place for an error.
abbrev pub Keeps : List ResolvedEndpoint → ErrorOut → Resolved → Type 0
Keeps old error r =
    ((r.ok ≡ true) × (is_empty r.target_endpoints ≡ false) × (r.error ≡ error))
    ⊎ ((r.ok ≡ false) × (r.target_endpoints ≡ old) × IsReported error r.error)

store_endpoints-Keeps :
    (old : List ResolvedEndpoint) (error : ErrorOut) (local_error : Text)
    (sorted : List ResolvedEndpoint)
    → Keeps old error (store_endpoints old error local_error sorted)
unfolding codes
store_endpoints-Keeps old none local_error [] = inr (refl, refl, refl)
store_endpoints-Keeps old (some message) [] [] = inr (refl, refl, (_, refl, refl))
store_endpoints-Keeps old (some message) (c ∷ s) [] = inr (refl, refl, (_, refl, refl))
store_endpoints-Keeps old error local_error (e ∷ es) = inl (refl, refl, refl)

module _ ⦃os : Os⦄ where
  -- A resolution of the target either succeeds, with at least one endpoint and the place for an error
  -- untouched, or fails, with the endpoints from before and an error that is not empty in the place for
  -- it, if there is one.
  pub resolve_target_endpoints-Keeps :
      (config : ForwardConfig) (old : List ResolvedEndpoint) (error : ErrorOut) (t : Trace)
      → Keeps old error (resolve_target_endpoints config old error t).0
  unfolding resolve_target_endpoints
  resolve_target_endpoints-Keeps config old error t =
      store_endpoints-Keeps old error (text_of (target_answer config t).0.1) _
