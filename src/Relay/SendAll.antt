-- ===== src/Relay/SendAll.antt =====
-- What `SendAll` delivers.
use mathlib.Core.List.{append-nil, append_assoc}
use port_forward_x.Prelude.{
  ◌⊎◌, Option-cases, false, ℕ, zero, suc, ◌+◌, ◌-◌, ◌≤◌, ◌<◌, ◌≡◌, refl, ap, ◌∙◌, ◌≢◌, inl, inr,
  Bool, true, ◌∷◌, ◌++◌, Option, none, some, arith, ltb, length, take, drop, take-add, take_all,
  is_nonpos, to_size, Bool-cases,
}
use port_forward_x.System.{Bytes, SocketHandle, handle, Os, Trace, send_call}
use port_forward_x.Relay.{send_loop, send_all}
use port_forward_x.Relay.Streams.{delivered, received}

module _ ⦃os : Os⦄ where
  send_loop_total :
      (fuel : ℕ) (d : SocketHandle) (bytes : Bytes) (sent : ℕ) (t : Trace)
      → length bytes - sent < fuel
      → (send_loop fuel d bytes sent t).0 ≢ none
  unfolding send_loop
  send_loop_total zero d bytes sent t h = absurd (omega arith)
  send_loop_total (suc fuel) d bytes sent t h = ground (
    arith,
    send_loop_total fuel d bytes (sent + to_size (os.send d (drop sent bytes) t))
        (send_call d (drop sent bytes) (os.send d (drop sent bytes) t) ∷ t),
  )

  -- `SendAll` always ends: its fuel is enough.
  send_all_total : (d : SocketHandle) (bytes : Bytes) (t : Trace) → (send_all d bytes t).0 ≢ none
  unfolding send_all
  send_all_total d bytes t = send_loop_total (length bytes + 1) d bytes 0 t (omega arith)

  abbrev SendLoop : Bytes → ℕ → Bytes → Option Bool × Trace → Type 0
  SendLoop base n bytes (done, u) =
      (k : ℕ) × (delivered n u ≡ base ++ take k bytes) × (done ≡ some true → length bytes ≤ k)

  send_loop-delivered :
      (fuel n : ℕ) (bytes : Bytes) (sent : ℕ) (t : Trace) (base : Bytes)
      → delivered n t ≡ base ++ take sent bytes
      → SendLoop base n bytes (send_loop fuel (handle n) bytes sent t)
  unfolding send_loop
  send_loop-delivered zero n bytes sent t base h = (sent, h, λ e. cc)
  send_loop-delivered (suc fuel) n bytes sent t base h =
      let chunk = os.send (handle n) (drop sent bytes) t in
      let u = send_call (handle n) (drop sent bytes) chunk ∷ t in
      let grown : delivered n u ≡ base ++ take (sent + to_size chunk) bytes = ground (
        arith,
        h,
        take-add sent (to_size chunk) bytes,
        append_assoc base (take sent bytes) (take (to_size chunk) (drop sent bytes)),
      ) in
      elim (Bool-cases (ltb sent (length bytes))) [
        | inl more ↦ elim (Bool-cases (is_nonpos chunk)) [
          | inl stop ↦ (sent, ground (arith, h), ground arith)
          | inr go ↦
              let (k, d, c) =
                send_loop-delivered fuel n bytes (sent + to_size chunk) u base grown in
              (k, ground (arith, d), ground (arith, c))
        ]
        | inr done ↦ (sent, ground (arith, h), ground arith)
      ]

  pub send_all_parts :
      (n : ℕ) (bytes : Bytes) (t : Trace)
      → let (done, u) = send_all (handle n) bytes t in
        (done ≢ none)
        × ((k : ℕ) × (delivered n u ≡ delivered n t ++ take k bytes))
        × (done ≡ some true → delivered n u ≡ delivered n t ++ bytes)
  unfolding send_all
  send_all_parts n bytes t =
      let (k, d, c) =
        send_loop-delivered (length bytes + 1) n bytes 0 t (delivered n t) (rw append-nil) in
      (
        send_all_total (handle n) bytes t,
        (k, d),
        λ e. d ∙ ap (λ (x : Bytes). delivered n t ++ x) (take_all k bytes (c e)),
      )

  -- `SendAll` always returns: true where the destination then has all the given bytes after those
  -- from before, and otherwise false, where it has a first part of them after those from before.
  pub send_all_delivers :
      (n : ℕ) (bytes : Bytes) (t : Trace)
      → let (done, u) = send_all (handle n) bytes t in
        ((done ≡ some true) × (delivered n u ≡ delivered n t ++ bytes))
        ⊎ ((done ≡ some false) × ((k : ℕ) × (delivered n u ≡ delivered n t ++ take k bytes)))
  send_all_delivers n bytes t =
      let (total, part, all) = send_all_parts n bytes t in
      elim (Option-cases (send_all (handle n) bytes t).0) [
        | inl e ↦ absurd (total e)
        | inr (true, e) ↦ inl (e, all e)
        | inr (false, e) ↦ inr (e, part)
      ]

  received-send_loop :
      (fuel m : ℕ) (d : SocketHandle) (bytes : Bytes) (sent : ℕ) (t : Trace)
      → received m (send_loop fuel d bytes sent t).1 ≡ received m t
  unfolding send_loop
  received-send_loop zero m d bytes sent t = refl
  received-send_loop (suc fuel) m d bytes sent t =
      let chunk = os.send d (drop sent bytes) t in
      let u = send_call d (drop sent bytes) chunk ∷ t in
      ground (arith, received-send_loop fuel m d bytes (sent + to_size chunk) u)

  pub received-send_all :
      (m : ℕ) (d : SocketHandle) (bytes : Bytes) (t : Trace)
      → received m (send_all d bytes t).1 ≡ received m t
  unfolding send_all
  received-send_all m d bytes t = received-send_loop (length bytes + 1) m d bytes 0 t
