-- ===== src/Session/Ownership.antt =====
-- A session closes each of its sockets once, and no thread uses one after that.
use port_forward_x.Prelude.{ℕ, ◌≡◌, refl, ◌∙◌, ◌≢◌, true, ◌||◌, [], ◌∷◌, arith, ◌==◌, if◌then◌else◌}
use port_forward_x.System.{SocketHandle, invalid_socket, handle, Event, Os, Trace}
use port_forward_x.System.Sockets.{touches, times_closed}
use port_forward_x.Session.{
  ForwardSession, make_session, start, close_sockets, shutdown_sockets, is_finished,
}
use port_forward_x.Session.Threads.{
  Threads, Phase, joining, closed, done, relaying, Step, Reach, here, later, initial, RelayCall,
  receives, sends, half_closes, ends_source, ends_destination,
}
use port_forward_x.Session.Threads.Step.{
  starts, spawns_up, spawns_down, relays_up, relays_down, returns_up, returns_down, joins, closes,
  finishes, stops, shuts_down,
}

-- No call of the trace is on a socket that an earlier call closed.
abbrev pub IsClean : Trace → Type 0
IsClean [] = Unit {0}
IsClean (e ∷ t) = ((n : ℕ) → touches n e ≡ true → times_closed n t ≡ 0) × IsClean t

-- How often `n` is closed once `CloseSockets` has run for the sockets `c` and `u`.
abbrev pub once : ℕ → ℕ → ℕ → ℕ
once c u n = if (c == n) || (u == n) then 1 else 0

abbrev Open : ℕ → ℕ → ForwardSession → Trace → Type 0
Open c u s t =
    (s.client_socket ≡ handle c) × (s.upstream_socket ≡ handle u) × ((n : ℕ) → times_closed n t ≡ 0)

abbrev Shut : ℕ → ℕ → ForwardSession → Trace → Type 0
Shut c u s t =
    (s.client_socket ≡ invalid_socket)
    × (s.upstream_socket ≡ invalid_socket)
    × ((n : ℕ) → times_closed n t ≡ once c u n)

-- While the sockets are open the session holds them; from `CloseSockets` on it holds none.
abbrev Owns : ℕ → ℕ → Phase → ForwardSession → Trace → Type 0
Owns c u closed = Shut c u
Owns c u done = Shut c u
Owns c u _ = Open c u

record Inv (c u : ℕ) (s : Threads) : Type 0 where
  owns : Owns c u s.phase s.session s.trace
  clean : IsClean s.trace
  up_in : s.up ≡ relaying → s.phase ≡ joining
  down_in : s.down ≡ relaying → s.phase ≡ joining
  finished_in : s.session.finished ≡ true → s.phase ≡ done

Inv-initial : (c u : ℕ) → Inv c u (initial c u)
unfolding make_session
Inv-initial c u = record {
  owns = (refl, refl, λ n. refl);
  clean = tt;
  up_in = λ e. cc;
  down_in = λ e. cc;
  finished_in = λ e. cc;
}

RelayCall-closes :
    {a b : SocketHandle} {e : Event} (n : ℕ) (t : Trace)
    → RelayCall a b e
    → times_closed n (e ∷ t) ≡ times_closed n t
RelayCall-closes n t (receives k r h) = rw h
RelayCall-closes n t (sends b r h) = rw h
RelayCall-closes n t (half_closes r h) = rw h
RelayCall-closes n t (ends_source r h) = rw h
RelayCall-closes n t (ends_destination r h) = rw h

shutdown_sockets-closes :
    ⦃os : Os⦄ (s : ForwardSession) (t : Trace) (n : ℕ)
    → times_closed n (shutdown_sockets s t).1 ≡ times_closed n t
unfolding shutdown_sockets
shutdown_sockets-closes s t n = ground arith

module _ (c u : ℕ) where
  close_sockets-Shut :
      (s : ForwardSession) (t : Trace)
      → c ≢ u
      → Open c u s t
      → IsClean t
      → Shut c u (close_sockets s t).0 (close_sockets s t).1 × IsClean (close_sockets s t).1
  unfolding close_sockets
  close_sockets-Shut s t ne (ec, eu, fresh) clean =
      rw (ec, eu)
        (
          (refl, refl, λ n. ground (arith, fresh n)),
          ((λ n h. ground (arith, fresh n)), ((λ n h. fresh n), clean)),
        )

  relayed-Inv :
      (s : Threads) {a b : SocketHandle} (e : Event)
      → Inv c u s
      → s.phase ≡ joining
      → RelayCall a b e
      → Inv c u (record s { trace = e ∷ s.trace })
  relayed-Inv s e inv ph call =
      let (ec, eu, fresh) = rw ph at inv.owns in
      record {
        owns = rw ph (ec, eu, λ n. RelayCall-closes n s.trace call ∙ fresh n);
        clean = (λ n h. fresh n, inv.clean);
        up_in = inv.up_in;
        down_in = inv.down_in;
        finished_in = inv.finished_in;
      }

  module _ ⦃os : Os⦄ (s : ForwardSession) (t : Trace) where
    shutdown-Open :
        Open c u s t
        → IsClean t
        → Open c u s (shutdown_sockets s t).1 × IsClean (shutdown_sockets s t).1
    unfolding shutdown_sockets
    shutdown-Open (ec, eu, fresh) clean = (
      (ec, eu, λ n. shutdown_sockets-closes s t n ∙ fresh n),
      rw (ec, eu) ((λ n h. fresh n), ((λ n h. fresh n), clean)),
    )

    shutdown-Shut : Shut c u s t → (shutdown_sockets s t).1 ≡ t
    unfolding shutdown_sockets
    shutdown-Shut (ec, eu, counted) = rw (ec, eu)

  module _ ⦃os : Os⦄ (s : ForwardSession) (t : Trace) where
    shutdown_sockets-Owns :
        (p : Phase)
        → Owns c u p s t
        → IsClean t
        → Owns c u p s (shutdown_sockets s t).1 × IsClean (shutdown_sockets s t).1
    shutdown_sockets-Owns closed o clean = rw (shutdown-Shut s t o) (o, clean)
    shutdown_sockets-Owns done o clean = rw (shutdown-Shut s t o) (o, clean)
    shutdown_sockets-Owns _ o clean = shutdown-Open s t o clean

  stopping-Owns :
      (p : Phase) (s : ForwardSession) (t : Trace)
      → Owns c u p s t
      → Owns c u p (record s { stopping = true }) t
  stopping-Owns closed s t o = o
  stopping-Owns done s t o = o
  stopping-Owns _ s t o = o

  module _ ⦃os : Os⦄ where
    Step-Inv : {s t : Threads} → c ≢ u → Inv c u s → Step s t → Inv c u t
    unfolding start close_sockets
    Step-Inv {s} ne inv (starts ph e) = rw e (record {
      owns = rw ph at inv.owns;
      clean = inv.clean;
      up_in = λ _. refl;
      down_in = λ _. refl;
      finished_in = λ f. cc (inv.finished_in f);
    })
    Step-Inv {s} ne inv (spawns_up ph up e) = rw e (record {
      owns = inv.owns;
      clean = inv.clean;
      up_in = λ _. ph;
      down_in = inv.down_in;
      finished_in = inv.finished_in;
    })
    Step-Inv {s} ne inv (spawns_down ph down e) = rw e (record {
      owns = inv.owns;
      clean = inv.clean;
      up_in = inv.up_in;
      down_in = λ _. ph;
      finished_in = inv.finished_in;
    })
    Step-Inv {s} ne inv (relays_up e up call eq) = rw eq (relayed-Inv s e inv (inv.up_in up) call)
    Step-Inv {s} ne inv (relays_down e down call eq) =
        rw eq (relayed-Inv s e inv (inv.down_in down) call)
    Step-Inv {s} ne inv (returns_up up e) = rw e (record {
      owns = inv.owns;
      clean = inv.clean;
      up_in = λ h. cc;
      down_in = inv.down_in;
      finished_in = inv.finished_in;
    })
    Step-Inv {s} ne inv (returns_down down e) = rw e (record {
      owns = inv.owns;
      clean = inv.clean;
      up_in = inv.up_in;
      down_in = λ h. cc;
      finished_in = inv.finished_in;
    })
    Step-Inv {s} ne inv (joins ph up down e) = rw e (record {
      owns = rw ph at inv.owns;
      clean = inv.clean;
      up_in = λ h. cc;
      down_in = λ h. cc;
      finished_in = λ f. cc (inv.finished_in f);
    })
    Step-Inv {s} ne inv (closes ph e) =
        let (shut, clean) = close_sockets-Shut s.session s.trace ne (rw ph at inv.owns) inv.clean in
        rw e (record {
          owns = shut;
          clean = clean;
          up_in = λ h. cc (inv.up_in h);
          down_in = λ h. cc (inv.down_in h);
          finished_in = λ f. cc (inv.finished_in f);
        })
    Step-Inv {s} ne inv (finishes ph e) = rw e (record {
      owns = rw ph at inv.owns;
      clean = inv.clean;
      up_in = λ h. cc (inv.up_in h);
      down_in = λ h. cc (inv.down_in h);
      finished_in = λ _. refl;
    })
    Step-Inv {s} ne inv (stops f e) = rw e (record {
      owns = stopping-Owns s.phase s.session s.trace inv.owns;
      clean = inv.clean;
      up_in = inv.up_in;
      down_in = inv.down_in;
      finished_in = inv.finished_in;
    })
    Step-Inv {s} ne inv (shuts_down f e) =
        let (owns, clean) = shutdown_sockets-Owns s.session s.trace s.phase inv.owns inv.clean in
        rw e (record {
          owns = owns;
          clean = clean;
          up_in = inv.up_in;
          down_in = inv.down_in;
          finished_in = inv.finished_in;
        })

    Reach-Inv : {s : Threads} → c ≢ u → Reach (initial c u) s → Inv c u s
    Reach-Inv ne here = Inv-initial c u
    Reach-Inv ne (later r st) = Step-Inv ne (Reach-Inv ne r) st

    -- In any interleaving of the threads of a session over two different sockets, no call is on a
    -- socket that the session closed before.
    pub session-IsClean : {s : Threads} → c ≢ u → Reach (initial c u) s → IsClean s.trace
    session-IsClean ne r = (Reach-Inv ne r).clean

    -- Once a session over two different sockets is finished, in any interleaving of its threads, it has
    -- closed each of its two sockets exactly once, and no other, and holds none.
    pub session_closes_once :
        {s : Threads}
        → c ≢ u
        → Reach (initial c u) s
        → is_finished s.session ≡ true
        → ((n : ℕ) → times_closed n s.trace ≡ once c u n)
          × (s.session.client_socket ≡ invalid_socket)
          × (s.session.upstream_socket ≡ invalid_socket)
    unfolding is_finished
    session_closes_once {s} ne r f =
        let inv = Reach-Inv ne r in
        let (ec, eu, counted) = rw (inv.finished_in f) at inv.owns in (counted, ec, eu)
