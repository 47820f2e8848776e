-- ===== src/Relay/Delivery.antt =====
-- What the relay delivers: the bytes that the destination accepts are those that the source sent,
-- in their order.
use mathlib.Core.List.{append-nil, append_assoc}
use port_forward_x.Prelude.{
  ℕ, zero, suc, ◌≡◌, refl, ◌∙◌, ◌≢◌, ◌⊎◌, inl, inr, Bool, true, false, [], ◌∷◌, ◌++◌, Option, none,
  some, arith, take, drop, take-append-drop,
}
use port_forward_x.System.{Bytes, handle, Os, Trace, recv_call}
use port_forward_x.Relay.{
  RelayEnd, send_failed, receive_failed, end_of_stream, send_all, relay_received, relay_sent,
  relay_one_direction, relay_buffer_size,
}
use port_forward_x.Relay.Streams.{delivered, received}
use port_forward_x.Relay.SendAll.{send_all_parts, received-send_all}

-- Between `t` and `u`, `ys` and `zs` came from the socket `m` in this order, `ys` went to the
-- socket `n`, and `zs` is empty unless the relay ended because it could not send.
abbrev pub Relayed : ℕ → ℕ → Trace → Option RelayEnd × Trace → Type 0
Relayed m n t (ended, u) =
    (ys zs : Bytes) × (received m u ≡ received m t ++ (ys ++ zs))
    × (delivered n u ≡ delivered n t ++ ys)
    × (ended ≢ some send_failed → zs ≡ [])

abbrev pub bytes_of : Option Bytes → Bytes
bytes_of none = []
bytes_of (some bytes) = bytes

append_swap : (a ys b c : Bytes) → (a ++ (ys ++ [])) ++ (b ++ c) ≡ a ++ ((ys ++ b) ++ c)
append_swap a ys b c = simp (append-nil, append_assoc)

Relayed-trans :
    (m n : ℕ) (t : Trace) (q r : Option RelayEnd × Trace)
    → q.0 ≡ none
    → Relayed m n t q
    → Relayed m n q.1 r
    → Relayed m n t r
Relayed-trans m n t q r more (ys, zs, got, gave, all) (ys', zs', got', gave', all') =
    let empty : zs ≡ [] = all (λ e. cc) in
    (
      ys ++ ys',
      zs',
      rw (got', got, empty) (append_swap (received m t) ys ys' zs'),
      rw (gave', gave) (append_assoc (delivered n t) ys ys'),
      all',
    )

pub Ended-cases : (r : Option RelayEnd) → (r ≡ none) ⊎ ((e : RelayEnd) × (r ≡ some e))
Ended-cases none = inl refl
Ended-cases (some e) = inr (e, refl)

nothing_left :
    (ended : Option RelayEnd) (zs : Bytes)
    → (ended ≢ some send_failed → zs ≡ [])
    → (zs ≡ []) ⊎ (ended ≡ some send_failed)
nothing_left (some send_failed) zs all = inr refl
nothing_left (some receive_failed) zs all = inl (all (λ e. cc))
nothing_left (some end_of_stream) zs all = inl (all (λ e. cc))
nothing_left none zs all = inl (all (λ e. cc))

module _ ⦃os : Os⦄ (m n : ℕ) where
  relay_sent-Relayed :
      (bytes : Bytes) (done : Option Bool) (k : ℕ) (t u : Trace)
      → received m u ≡ received m t ++ bytes
      → delivered n u ≡ delivered n t ++ take k bytes
      → (done ≡ some true → delivered n u ≡ delivered n t ++ bytes)
      → Relayed m n t (relay_sent (handle m) (handle n) done u)
  unfolding relay_sent
  relay_sent-Relayed bytes (some true) k t u r d all =
      (bytes, [], rw append-nil r, all refl, λ _. refl)
  relay_sent-Relayed bytes (some false) k t u r d all =
      (take k bytes, drop k bytes, rw (take-append-drop k bytes) r, d, λ h. absurd (h refl))
  relay_sent-Relayed bytes none k t u r d all =
      (take k bytes, drop k bytes, rw (take-append-drop k bytes) r, d, λ h. absurd (h refl))

  relay_received-Relayed :
      (got : Option Bytes) (t u : Trace)
      → received m u ≡ received m t ++ bytes_of got
      → delivered n u ≡ delivered n t
      → Relayed m n t (relay_received (handle m) (handle n) got u)
  unfolding relay_received
  relay_received-Relayed none t u r d = ([], [], r, rw append-nil d, λ _. refl)
  relay_received-Relayed (some []) t u r d = ([], [], r, rw append-nil d, λ _. refl)
  relay_received-Relayed (some (b ∷ bytes)) t u r d =
      let (total, (k, part), all) = send_all_parts n (b ∷ bytes) u in
      relay_sent-Relayed (b ∷ bytes) (send_all (handle n) (b ∷ bytes) u).0 k t _
        (received-send_all m (handle n) (b ∷ bytes) u ∙ r) (ground (arith, part, d))
        (λ e. ground (arith, all e, d))

  -- A round of the loop: `Recv` and the body.
  abbrev pub round : Trace → Option RelayEnd × Trace
  round t =
      let got = os.recv (handle m) relay_buffer_size t in
      relay_received (handle m) (handle n) got (recv_call (handle m) relay_buffer_size got ∷ t)

  pub relay_goes_on :
      (fuel : ℕ) (t : Trace)
      → (round t).0 ≡ none
      → relay_one_direction (suc fuel) (handle m) (handle n) t
        ≡ relay_one_direction fuel (handle m) (handle n) (round t).1
  unfolding relay_one_direction
  relay_goes_on fuel t more = ground arith

  pub relay_ends :
      (fuel : ℕ) (t : Trace) (e : RelayEnd)
      → (round t).0 ≡ some e
      → relay_one_direction (suc fuel) (handle m) (handle n) t ≡ round t
  unfolding relay_one_direction
  relay_ends fuel t e done = ground arith

  pub obtained_from :
      (got : Option Bytes) (t : Trace)
      → received m (recv_call (handle m) relay_buffer_size got ∷ t) ≡ received m t ++ bytes_of got
  obtained_from none t = rw append-nil
  obtained_from (some bytes) t = ground arith

  round-Relayed : (t : Trace) → Relayed m n t (round t)
  round-Relayed t =
      relay_received-Relayed _ t _ (obtained_from (os.recv (handle m) relay_buffer_size t) t) refl

  relay-Relayed :
      (fuel : ℕ) (t : Trace) → Relayed m n t (relay_one_direction fuel (handle m) (handle n) t)
  unfolding relay_one_direction
  relay-Relayed zero t = ([], [], rw append-nil, rw append-nil, λ _. refl)
  relay-Relayed (suc fuel) t = elim (Ended-cases (round t).0) [
    | inl more ↦ rw (relay_goes_on fuel t more) (
        Relayed-trans m n t (round t) (relay_one_direction fuel (handle m) (handle n) (round t).1)
          more (round-Relayed t) (relay-Relayed fuel (round t).1))
    | inr (e, done) ↦ rw (relay_ends fuel t e done) (round-Relayed t)
  ]

  -- Whatever the system does and however many rounds the relay makes: the bytes that came from the
  -- source meanwhile are `ys` and then `zs`, and the destination has accepted `ys` in this order.
  -- There is nothing in `zs`, unless the relay ended because it could not send.
  pub relay_one_direction-Forwards :
      (fuel : ℕ) (t : Trace)
      → let (ended, u) = relay_one_direction fuel (handle m) (handle n) t in
        (ys zs : Bytes) × (received m u ≡ received m t ++ (ys ++ zs))
        × (delivered n u ≡ delivered n t ++ ys)
        × ((zs ≡ []) ⊎ (ended ≡ some send_failed))
  relay_one_direction-Forwards fuel t =
      let (ys, zs, got, gave, all) = relay-Relayed fuel t in
      (ys, zs, got, gave, nothing_left (relay_one_direction fuel (handle m) (handle n) t).0 zs all)
