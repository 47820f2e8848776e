-- ===== src/Connect/Connected.antt =====
-- What `ConnectToEndpoints` promises of the socket that it returns, and what it reports otherwise.
use port_forward_x.Prelude.{
  ℕ, ◌≡◌, refl, ap, ◌⊎◌, inl, inr, true, false, List, [], ◌∷◌, ◌++◌, none, some, arith, codes,
}
use port_forward_x.Config.{TransportProtocol}
use port_forward_x.System.{SocketHandle, invalid_socket, handle, Os, Trace, connect_call}
use port_forward_x.Platform.{ErrorOut, write_error}
use port_forward_x.Platform.Handles.{IsReported}
use port_forward_x.Endpoint.{ResolvedEndpoint}
use port_forward_x.Connect.{
  address, opened, prepare, connect_candidate, try_endpoint, connect_loop, connect_to_endpoints,
  exhausted_error,
}
use port_forward_x.Connect.Sockets.{Attempt-cases}

-- The last call was a successful `connect` of `s` to the address of an endpoint of the list.
abbrev pub JustConnected : SocketHandle → List ResolvedEndpoint → Trace → Type 0
JustConnected s es t =
    (e : ResolvedEndpoint) × (before after : List ResolvedEndpoint) × (rest : Trace) × (es
      ≡ before ++ e ∷ after)
    × (t ≡ connect_call s (address e) true ∷ rest)

module _ ⦃os : Os⦄ where
  connect_candidate-connects :
      (e : ResolvedEndpoint) (protocol : TransportProtocol) (c s : SocketHandle) (t : Trace)
      → (connect_candidate e protocol c t).0 ≡ opened s
      → (rest : Trace) × ((connect_candidate e protocol c t).1
          ≡ connect_call s (address e) true ∷ rest)
        × ((n : ℕ) × (s ≡ handle n))
  unfolding connect_candidate
  connect_candidate-connects e protocol invalid_socket s t h = cc
  connect_candidate-connects e protocol (handle n) s t h =
      ((prepare protocol (handle n) t).1, ground arith, (n, ground arith))

  try_endpoint-connects :
      (e : ResolvedEndpoint) (protocol : TransportProtocol) (s : SocketHandle) (t : Trace)
      → (try_endpoint e protocol t).0 ≡ opened s
      → (rest : Trace) × ((try_endpoint e protocol t).1 ≡ connect_call s (address e) true ∷ rest)
        × ((n : ℕ) × (s ≡ handle n))
  unfolding try_endpoint
  try_endpoint-connects e protocol s t h = connect_candidate-connects e protocol _ s _ h

  connect_loop-connects :
      (es : List ResolvedEndpoint) (protocol : TransportProtocol) (last_error : ℕ)
      (s : SocketHandle) (t : Trace)
      → (connect_loop es protocol last_error t).0 ≡ opened s
      → JustConnected s es (connect_loop es protocol last_error t).1 × ((n : ℕ) × (s ≡ handle n))
  unfolding connect_loop
  connect_loop-connects [] protocol last_error s t h = cc
  connect_loop-connects (e ∷ es) protocol last_error s t h =
      elim (Attempt-cases (try_endpoint e protocol t).0) [
        | inl (c, done) ↦
            let (rest, called, valid) =
              try_endpoint-connects e protocol s t (ground (arith, done)) in
            ((e, [], es, rest, refl, ground (arith, done, called)), valid)
        | inr (err, more) ↦
            let ((f, before, after, rest, split, called), valid) =
              connect_loop-connects es protocol err s (try_endpoint e protocol t).1
                (ground (arith, more)) in
            ((f, e ∷ before, after, rest, ap (◌∷◌ e) split, ground (arith, more, called)), valid)
      ]

  reported :
      (old : ErrorOut) (err : ℕ)
      → IsReported old
          (write_error old (exhausted_error (codes "Unable to connect to target endpoint(s)") err))
  unfolding codes
  reported none err = refl
  reported (some text) err = (_, refl, refl)

  -- Where `connect_to_endpoints` reports success, it returns a valid socket, and the last call that
  -- it made was a successful `connect` of this socket to the address of one of the endpoints; the place
  -- for an error, if there is one, is as before. Where it reports failure, it leaves the caller's socket
  -- as it was and writes an error that is not empty to the place for it, if there is one.
  pub connect_to_endpoints_result :
      (es : List ResolvedEndpoint) (protocol : TransportProtocol) (out : SocketHandle)
      (old : ErrorOut) (t : Trace)
      → let ((connected, s, error), u) = connect_to_endpoints es protocol out old t in
        ((connected ≡ true) × (error ≡ old) × ((n : ℕ) × (s ≡ handle n)) × JustConnected s es u)
        ⊎ ((connected ≡ false) × (s ≡ out) × IsReported old error)
  unfolding connect_to_endpoints codes
  connect_to_endpoints_result es protocol out old t =
      elim (Attempt-cases (connect_loop es protocol 0 t).0) [
        | inl (s, done) ↦
            let (just, valid) = connect_loop-connects es protocol 0 s t done in
            rw done (inl (refl, refl, valid, just))
        | inr (err, more) ↦ rw more (inr (refl, refl, reported old err))
      ]
