-- ===== src/Resolver/Results.antt =====
-- What `resolve` returns: endpoints or a reported error, and endpoints that are whole.
use port_forward_x.Prelude.{
  ℕ, ◌≤◌, ◌<◌, ◌≡◌, refl, ◌⊎◌, inl, inr, Bool, true, false, List, [], ◌∷◌, Option, some, arith,
  is_empty, length, All, Text, codes, Bool-cases, Option-cases, length-take_of_le,
}
use port_forward_x.Config.{TransportProtocol, AddressFamilyPreference}
use port_forward_x.System.{Bytes, AddrInfo, Resolution, failed, resolved, Hints, Os, Trace}
use port_forward_x.Platform.{ErrorOut}
use port_forward_x.Endpoint.{ResolvedEndpoint}
use port_forward_x.Resolver.{make_endpoint, collect, conclude, resolve}

-- Endpoints with the place of the error untouched, or none with a text that is not empty in it.
abbrev pub Reports : Text → List ResolvedEndpoint × ErrorOut → Type 0
Reports old (es, error) =
    ((is_empty es ≡ false) × (error ≡ some old))
    ⊎ ((es ≡ []) × ((message : Text) × (error ≡ some message) × (is_empty message ≡ false)))

is_empty-eq-nil {ℓ} : {A : Type ℓ} (xs : List A) → is_empty xs ≡ true → xs ≡ []
is_empty-eq-nil [] h = refl
is_empty-eq-nil (x ∷ xs) h = cc

-- The endpoint has all the bytes of its address, and at least one.
abbrev pub IsWhole : ResolvedEndpoint → Type 0
IsWhole e = (0 < e.sockaddr_len) × (length e.sockaddr_bytes ≡ e.sockaddr_len)

-- An entry of an answer whose address has the bytes that its length states.
abbrev pub IsSound : AddrInfo → Type 0
IsSound it = (addr : Bytes) → it.ai_addr ≡ some addr → it.ai_addrlen ≤ length addr

module _ ⦃os : Os⦄ where
  conclude-Reports :
      (host old : Text) (answer : Resolution) → Reports old (conclude host (some old) answer)
  unfolding codes
  conclude-Reports host old (failed rc) = inr (refl, (_, refl, refl))
  conclude-Reports host old (resolved result) = elim (Bool-cases (is_empty (collect result))) [
    | inl e ↦ rw e (inr (is_empty-eq-nil (collect result) e, (_, refl, refl)))
    | inr e ↦ rw e (inl (e, refl))
  ]

  -- Of a call with a place for the error: either there are endpoints and the place is untouched, or
  -- there are none and a text that is not empty is in it.
  pub resolve-Reports :
      (host : Text) (port : ℕ) (protocol : TransportProtocol) (family : AddressFamilyPreference)
      (passive : Bool) (old : Text) (t : Trace)
      → Reports old (resolve host port protocol family passive (some old) t).0
  unfolding resolve
  resolve-Reports host port protocol family passive old t = conclude-Reports host old _

  collect-IsWhole : (result : List AddrInfo) → All IsSound result → All IsWhole (collect result)
  unfolding collect make_endpoint
  collect-IsWhole [] h = tt
  collect-IsWhole (it ∷ rest) h = elim (Option-cases it.ai_addr) [
    | inl e ↦ ground (arith, e, collect-IsWhole rest h.1)
    | inr (addr, e) ↦ ground (
      arith,
      e,
      collect-IsWhole rest h.1,
      h.0 addr e,
      length-take_of_le it.ai_addrlen addr (h.0 addr e),
    )
  ]

  conclude-IsWhole :
      (host : Text) (error : ErrorOut) (answer : Resolution)
      → ((result : List AddrInfo) → answer ≡ resolved result → All IsSound result)
      → All IsWhole (conclude host error answer).0
  conclude-IsWhole host error (failed rc) sound = tt
  conclude-IsWhole host error (resolved result) sound =
      ground (arith, collect-IsWhole result (sound result refl))

  -- If every address of every answer has the bytes that its length states, then every endpoint has
  -- an address of its stated length, which is positive.
  pub resolve-IsWhole :
      ((node : Option Text) (service : Text) (hints : Hints) (t : Trace) (result : List AddrInfo)
        → os.getaddrinfo node service hints t ≡ resolved result
        → All IsSound result)
      → (host : Text) (port : ℕ) (protocol : TransportProtocol) (family : AddressFamilyPreference)
        (passive : Bool) (error : ErrorOut) (t : Trace)
      → All IsWhole (resolve host port protocol family passive error t).0.0
  unfolding resolve
  resolve-IsWhole sound host port protocol family passive error t =
      conclude-IsWhole host error _ (sound _ _ _ t)
