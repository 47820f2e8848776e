-- ===== src/Forwarder/Returns.antt =====
-- Runs of `Stop` to its end, with the ends of the threads that it waits for.
use mathlib.Core.List.{append-nil, append_assoc}
use port_forward_x.Prelude.{
  ℕ, ◌≡◌, refl, ap, ◌∙◌, sym, inl, inr, true, false, [], ◌∷◌, ◌++◌, Bool-cases,
}
use port_forward_x.System.{SocketHandle, invalid_socket, Os, Trace}
use port_forward_x.Session.{ForwardSession, close_sockets}
use port_forward_x.Tcp.{TcpSessions}
use port_forward_x.Forwarder.{
  tcp_part, clear_running, all_finished, accept_end, udp_end, unbind, clean_udp, stop_sessions,
}
use port_forward_x.Forwarder.Threads.{
  Service, with_impl, ready, unbinding, joining, cleaning, stopping_sessions, joining_sessions,
  System, impl_of, act, at_stage, begin_stop, end_stop, session_close, session_finish, ThreadStep,
  StopStep, Reach,
}
use port_forward_x.Forwarder.Threads.ThreadStep.{
  accepting_ends, serving_ends, resolving_ends, session_closes, session_finishes,
}
use port_forward_x.Forwarder.Threads.StopStep.{
  begins, unbinds, joins_threads, cleans, stops_sessions, returns,
}
use port_forward_x.Forwarder.Stages.{IsStaged}
use port_forward_x.Forwarder.Sound.{Reach-IsSound}
use port_forward_x.Forwarder.Stopped.{new_system, new-IsSound}
use port_forward_x.Config.{ForwardConfig}
use port_forward_x.System.Sockets.{is_open, IsPosix}
use port_forward_x.Udp.Table.{bit}
use port_forward_x.Tcp.Going.{AreGoing, cleanup-AreGoing}
use port_forward_x.Forwarder.Going.{Reach-IsGoing}
use port_forward_x.Forwarder.Woken.{
  IsWoken, IsReleased, AreReleased, close_sockets-AreReleased, unbind-IsWoken,
  stop_each-AreReleased,
}

module _ ⦃os : Os⦄ where
  -- What a step of a thread waits for while nobody else does anything: no client connects, nothing comes,
  -- and no stream ends. The accepting thread ends once the socket `listening` that it waits on was shut
  -- down, and the relays of a session once both its sockets were; the other loops look at `running_`
  -- every 200 ms.
  abbrev pub IsDriven : SocketHandle → {s t : System} → ThreadStep s t → Type 0
  IsDriven listening {s} (accepting_ends alive over e) = IsWoken listening s.trace
  IsDriven listening (serving_ends alive over e) = Unit
  IsDriven listening (resolving_ends alive over e) = Unit
  IsDriven listening {s} (session_closes before id session after place going e) =
      IsReleased s.trace session
  IsDriven listening (session_finishes before id session after place ec eu e) = Unit
  IsDriven listening _ = ⊥

  -- A run of `Stop` and of the threads that it waits for.
  pub data Finish (listening : SocketHandle) : System → System → Type 0 where
    over : {s : System} → Finish listening s s
    after_stop : {s t u : System} → StopStep s t → Finish listening t u → Finish listening s u
    after_thread :
        {s t u : System} (step : ThreadStep s t)
        → IsDriven listening step
        → Finish listening t u
        → Finish listening s u

  -- There is a run to the end of `Stop`.
  pub record CanEnd (listening : SocketHandle) (s : System) : Type 0 where
    pub final : System
    pub run : Finish listening s final
    pub idle : final.service.stage ≡ ready
    pub stopped : final.service.forwarder.running ≡ false

  module _ (listening : SocketHandle) where
    stop_then : {s t : System} → StopStep s t → CanEnd listening t → CanEnd listening s
    stop_then step c = record {
      final = c.final;
      run = after_stop step c.run;
      idle = c.idle;
      stopped = c.stopped;
    }

    thread_then :
        {s t : System} (step : ThreadStep s t)
        → IsDriven listening step
        → CanEnd listening t
        → CanEnd listening s
    thread_then step driven c = record {
      final = c.final;
      run = after_thread step driven c.run;
      idle = c.idle;
      stopped = c.stopped;
    }

    at_end :
        (s : System)
        → s.service.stage ≡ ready
        → s.service.forwarder.running ≡ false
        → CanEnd listening s
    at_end s idle stopped = record { final = s; run = over; idle = idle; stopped = stopped }

  all_finished-append :
      (before : TcpSessions) (id : ℕ) (session : ForwardSession)
      → all_finished before ≡ true
      → session.finished ≡ true
      → all_finished (before ++ (id, session) ∷ []) ≡ true
  all_finished-append [] id session all done = simp done refl
  all_finished-append ((k, x) ∷ before) id session all done = elim (Bool-cases x.finished) [
    | inl e ↦ rw e (all_finished-append before id session (rw e at all) done)
    | inr e ↦ cc (rw e at all)
  ]

  closed_sockets :
      (session : ForwardSession) (t : Trace)
      → let s = (close_sockets session t).0 in
        (s.client_socket ≡ invalid_socket) × (s.upstream_socket ≡ invalid_socket)
  unfolding close_sockets
  closed_sockets session t = (refl, refl)

  module _ (listening : SocketHandle) where
    -- The sessions close and finish, one after the other.
    sessions_end :
        (s : System) (before rest : TcpSessions)
        → s.service.stage ≡ joining_sessions
        → (impl_of s).sessions ≡ before ++ rest
        → all_finished before ≡ true
        → AreReleased s.trace rest
        → CanEnd listening s
    unfolding session_close
    sessions_end s before [] stage place all released =
        stop_then listening (returns stage (ap all_finished (place ∙ append-nil before) ∙ all) refl)
          (at_end listening (record s { service = end_stop s.service }) refl refl)
    sessions_end s before ((id, session) ∷ rest) stage place all (one, released) =
        elim (Bool-cases session.finished) [
          | inl done ↦
              sessions_end s (before ++ (id, session) ∷ []) rest stage
                (place ∙ sym (append_assoc before ((id, session) ∷ []) rest))
                (all_finished-append before id session all done) released
          | inr going ↦
              let (closed, u) = close_sockets session s.trace in
              let done = record closed { finished = true } in
              let s' = act (session_close before id session rest) s in
              let s'' = act (session_finish before id closed rest) s' in
              let (ec, eu) = closed_sockets session s.trace in
              thread_then listening (session_closes before id session rest place going refl) one (
                thread_then listening (session_finishes before id closed rest refl ec eu refl) tt (
                  sessions_end s'' (before ++ (id, done) ∷ []) rest stage
                    (sym (append_assoc before ((id, done) ∷ []) rest))
                    (all_finished-append before id done all refl)
                    (close_sockets-AreReleased session rest s.trace released)))
        ]

    stopping_end :
        (s : System)
        → s.service.stage ≡ stopping_sessions
        → AreGoing (impl_of s).sessions
        → CanEnd listening s
    unfolding stop_sessions
    stopping_end s stage going =
        let s' = at_stage joining_sessions (act stop_sessions s) in
        stop_then listening (stops_sessions stage refl) (
          sessions_end s' [] (impl_of s').sessions refl refl refl
            (stop_each-AreReleased (impl_of s).sessions s.trace going))

    cleaning_end :
        (s : System)
        → s.service.stage ≡ cleaning
        → AreGoing (impl_of s).sessions
        → CanEnd listening s
    unfolding clean_udp
    cleaning_end s stage going =
        stop_then listening (cleans stage refl)
          (stopping_end (at_stage stopping_sessions (act clean_udp s)) refl going)

    joined_end :
        (s : System)
        → s.service.stage ≡ joining
        → (impl_of s).accept_thread ≡ false
        → (impl_of s).udp_thread ≡ false
        → (impl_of s).resolver_thread ≡ false
        → AreGoing (impl_of s).sessions
        → CanEnd listening s
    joined_end s stage a u r going =
        stop_then listening (joins_threads stage a u r refl)
          (cleaning_end (at_stage cleaning s) refl going)

    resolver_ends :
        (s : System)
        → s.service.stage ≡ joining
        → (impl_of s).listener.running ≡ false
        → (impl_of s).accept_thread ≡ false
        → (impl_of s).udp_thread ≡ false
        → AreGoing (impl_of s).sessions
        → CanEnd listening s
    resolver_ends s stage flag a u going = elim (Bool-cases (impl_of s).resolver_thread) [
      | inl alive ↦
          let s' = act (λ i t. (record i { resolver_thread = false }, t)) s in
          thread_then listening (resolving_ends alive flag refl) tt
            (joined_end s' stage a u refl going)
      | inr done ↦ joined_end s stage a u done going
    ]

    udp_ends :
        (s : System)
        → s.service.stage ≡ joining
        → (impl_of s).listener.running ≡ false
        → (impl_of s).accept_thread ≡ false
        → AreGoing (impl_of s).sessions
        → CanEnd listening s
    unfolding udp_end
    udp_ends s stage flag a going = elim (Bool-cases (impl_of s).udp_thread) [
      | inl alive ↦
          thread_then listening (serving_ends alive flag refl) tt
            (resolver_ends (act udp_end s) stage flag a refl going)
      | inr done ↦ resolver_ends s stage flag a done going
    ]

    threads_end :
        (s : System)
        → s.service.stage ≡ joining
        → (impl_of s).listener.running ≡ false
        → IsWoken listening s.trace
        → AreGoing (impl_of s).sessions
        → CanEnd listening s
    unfolding accept_end
    threads_end s stage flag woken going = elim (Bool-cases (impl_of s).accept_thread) [
      | inl alive ↦ thread_then listening (accepting_ends alive flag refl) woken (
          udp_ends (act accept_end s) stage flag refl
            (cleanup-AreGoing (tcp_part (impl_of s)) s.trace going))
      | inr done ↦ udp_ends s stage flag done going
    ]

  unbinding_end :
      (s : System)
      → s.service.stage ≡ unbinding
      → (impl_of s).listener.running ≡ false
      → AreGoing (impl_of s).sessions
      → CanEnd (impl_of s).listener.listen_socket s
  unfolding unbind
  unbinding_end s stage flag going =
      let listening = (impl_of s).listener.listen_socket in
      stop_then listening (unbinds stage refl) (
        threads_end listening (at_stage joining (act unbind s)) refl flag
          (unbind-IsWoken (impl_of s) s.trace) going)

  pub can_end :
      (s : System)
      → s.service.stage ≡ ready
      → IsStaged ready s.service.forwarder
      → AreGoing (impl_of s).sessions
      → CanEnd (impl_of s).listener.listen_socket s
  can_end s stage (inl (a, b)) going =
      let listening = (impl_of s).listener.listen_socket in
      let begun : Service = record (with_impl s.service (clear_running (impl_of s))) {
        stage = unbinding;
      } in
      let s' : System = record s { service = begun } in
      let same : begin_stop s.service ≡ begun = simp (a, b) refl in
      stop_then listening (begins stage (ap (λ x. record s { service = x }) (sym same)))
        (unbinding_end s' refl refl going)
  can_end s stage (inr (a, b, q)) going = at_end (impl_of s).listener.listen_socket s stage a

module _ ⦃os : Os⦄ (posix : IsPosix os) (others : ℕ → ℕ) where
  -- If `socket` and `accept` return only descriptors that are not open: take a forwarder that was just
  -- made, while the others are open, and any interleaving of its threads with calls of `Start` and
  -- `Stop`, after which no call is going on. Then a call of `Stop` can return by what it does itself: there
  -- is a run after which no call is going on and the forwarder does not run, in which no client connects,
  -- no datagram and no stream does anything, the accepting thread ends only after the listening socket
  -- was shut down, and a session closes only after both its sockets were shut down.
  pub stop_can_return :
      (config : ForwardConfig) (t : Trace) {s : System}
      → ((n : ℕ) → bit (is_open n t) ≡ others n)
      → Reach (new_system config t) s
      → s.service.stage ≡ ready
      → CanEnd (impl_of s).listener.listen_socket s
  stop_can_return config t {s} before r stage =
      let staged = (Reach-IsSound posix others (new-IsSound others config t before) r).staged in
      elim (Reach-IsGoing (inr tt) r) [
        | inl at_end ↦ cc (stage, at_end)
        | inr going ↦ can_end s stage (rw stage at staged) going
      ]
