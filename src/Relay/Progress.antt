-- ===== src/Relay/Progress.antt =====
-- The relay ends when its source does: each round that does not end it takes a byte at least.
use port_forward_x.Prelude.{
  ℕ, zero, suc, ◌+◌, ◌<◌, ◌≡◌, refl, ap, inl, inr, [], ◌∷◌, ◌++◌, Option, none, some, arith, Bool,
  true, false, length, length-append,
}
use port_forward_x.System.{Bytes, handle, Os, Trace}
use port_forward_x.Relay.{
  RelayEnd, relay_received, relay_sent, relay_one_direction, relay_buffer_size, send_all,
}
use port_forward_x.Relay.Streams.{received}
use port_forward_x.Relay.SendAll.{received-send_all}
use port_forward_x.Relay.Delivery.{
  round, relay_goes_on, relay_ends, obtained_from, Ended-cases, bytes_of,
}

module _ ⦃os : Os⦄ (m n : ℕ) where
  relay_sent-received :
      (done : Option Bool) (u : Trace)
      → received m (relay_sent (handle m) (handle n) done u).1 ≡ received m u
  unfolding relay_sent
  relay_sent-received (some true) u = refl
  relay_sent-received (some false) u = refl
  relay_sent-received none u = refl

  relay_received-grows :
      (got : Option Bytes) (t u : Trace)
      → received m u ≡ received m t ++ bytes_of got
      → (relay_received (handle m) (handle n) got u).0 ≡ none
      → length (received m t) < length (received m (relay_received (handle m) (handle n) got u).1)
  unfolding relay_received
  relay_received-grows none t u r h = cc
  relay_received-grows (some []) t u r h = cc
  relay_received-grows (some (b ∷ bytes)) t u r h = omega (
    arith,
    ap length (
        relay_sent-received (send_all (handle n) (b ∷ bytes) u).0
          (send_all (handle n) (b ∷ bytes) u).1),
    ap length (received-send_all m (handle n) (b ∷ bytes) u),
    ap length r,
    length-append (received m t) (b ∷ bytes),
  )

  -- A relay that is still going on after `fuel` rounds has received `fuel` bytes at least. So it
  -- ends by one of its `return`s within any number of rounds that exceeds the bytes it receives.
  pub relay_one_direction_ends :
      (fuel : ℕ) (t : Trace)
      → length (received m (relay_one_direction fuel (handle m) (handle n) t).1)
        < length (received m t) + fuel
      → (e : RelayEnd) × ((relay_one_direction fuel (handle m) (handle n) t).0 ≡ some e)
  unfolding relay_one_direction
  relay_one_direction_ends zero t h = absurd (omega arith)
  relay_one_direction_ends (suc fuel) t h = elim (Ended-cases (round m n t).0) [
    | inl more ↦
        let grows =
          relay_received-grows (os.recv (handle m) relay_buffer_size t) t _
            (obtained_from m n (os.recv (handle m) relay_buffer_size t) t) more in
        let same = relay_goes_on m n fuel t more in
        rw same (
          relay_one_direction_ends fuel (round m n t).1
            (let h' = rw same at h in omega (arith, grows, h')))
    | inr (e, done) ↦ (e, rw (relay_ends m n fuel t e done) done)
  ]
