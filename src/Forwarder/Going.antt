-- ===== src/Forwarder/Going.antt =====
-- No session was told to stop, but between the calls of `ForwardSession::Stop` and the end of `Stop`.
use port_forward_x.Prelude.{◌≡◌, refl, ◌∙◌, ◌⊎◌, inl, inr, Bool, true, false, Bool-cases}
use port_forward_x.Config.{TransportProtocol, tcp, udp}
use port_forward_x.System.{Os, Trace}
use port_forward_x.Platform.{ErrorOut}
use port_forward_x.Endpoint.{now_monotonic_ms}
use port_forward_x.Session.{close_sockets}
use port_forward_x.Listen
use port_forward_x.Listen.{Listener}
use port_forward_x.Forwarder.Stages.{ThreadStep-kept}
use port_forward_x.Tcp.Going.{AreGoing, cleanup-AreGoing, at-AreGoing, accept_round-AreGoing}
use port_forward_x.Forwarder.{
  Impl, Forwarder, tcp_part, start, started, impl_start, impl_started, start_threads, accept_work,
  accept_end, udp_work, udp_end, upstream_work, resolver_work, unbind, clean_udp,
}
use port_forward_x.Forwarder.Threads.{
  Service, System, impl_of, joining_sessions, session_close, begin_stop, ThreadStep, StopStep, Step,
  Reach,
}
use port_forward_x.Forwarder.Threads.ThreadStep.{
  accepts, accepting_ends, serves_client, serving_ends, serves_target, resolves, resolving_ends,
  session_closes, session_finishes,
}
use port_forward_x.Forwarder.Threads.StopStep.{
  begins, unbinds, joins_threads, cleans, stops_sessions, returns,
}
use port_forward_x.Forwarder.Threads.Step.{starts, stops, runs}

module _ ⦃os : Os⦄ where
  pub ThreadStep-AreGoing :
      {s t : System}
      → ThreadStep s t
      → AreGoing (impl_of s).sessions
      → AreGoing (impl_of t).sessions
  unfolding accept_work accept_end udp_work udp_end upstream_work resolver_work session_close
      close_sockets
  ThreadStep-AreGoing {s} (accepts alive e) h =
      rw e (accept_round-AreGoing (tcp_part (impl_of s)) s.trace h)
  ThreadStep-AreGoing {s} (accepting_ends alive over e) h =
      rw e (cleanup-AreGoing (tcp_part (impl_of s)) s.trace h)
  ThreadStep-AreGoing (serves_client alive e) h = rw e h
  ThreadStep-AreGoing (serving_ends alive over e) h = rw e h
  ThreadStep-AreGoing (serves_target key session found e) h = rw e h
  ThreadStep-AreGoing (resolves alive e) h = rw e h
  ThreadStep-AreGoing (resolving_ends alive over e) h = rw e h
  ThreadStep-AreGoing {s} (session_closes before id session after place going e) h =
      let closed = (close_sockets session s.trace).0 in
      rw e (at-AreGoing before id session closed after refl (rw place at h))
  ThreadStep-AreGoing (session_finishes before id session after place ec eu e) h =
      let done = record session { finished = true } in
      rw e (at-AreGoing before id session done after refl (rw place at h))

  -- The sessions were not told to stop, unless `Stop` waits for them.
  abbrev pub IsGoing : System → Type 0
  IsGoing s = (s.service.stage ≡ joining_sessions) ⊎ AreGoing (impl_of s).sessions

  begin_stop-sessions :
      (s : Service) → (begin_stop s).forwarder.impl.sessions ≡ s.forwarder.impl.sessions
  begin_stop-sessions s = elim (Bool-cases s.forwarder.running) [
    | inl on ↦ elim (Bool-cases s.forwarder.impl.listener.running) [
      | inl serves ↦ simp (on, serves) refl
      | inr rests ↦ simp (on, rests) refl
    ]
    | inr off ↦ simp off refl
  ]

  StopStep-IsGoing : {s t : System} → StopStep s t → IsGoing s → IsGoing t
  unfolding unbind clean_udp
  StopStep-IsGoing (begins stage e) (inl at_end) = cc (stage, at_end)
  StopStep-IsGoing {s} (begins stage e) (inr h) = inr (rw e (rw (begin_stop-sessions s.service) h))
  StopStep-IsGoing (unbinds stage e) (inl at_end) = cc (stage, at_end)
  StopStep-IsGoing (unbinds stage e) (inr h) = inr (rw e h)
  StopStep-IsGoing (joins_threads stage a u r e) (inl at_end) = cc (stage, at_end)
  StopStep-IsGoing (joins_threads stage a u r e) (inr h) = inr (rw e h)
  StopStep-IsGoing (cleans stage e) (inl at_end) = cc (stage, at_end)
  StopStep-IsGoing (cleans stage e) (inr h) = inr (rw e h)
  StopStep-IsGoing (stops_sessions stage e) h = inl (rw e refl)
  StopStep-IsGoing (returns stage all e) h = inr (rw e tt)

  start_threads-sessions :
      (p : TransportProtocol) (i : Impl) (t : Trace) → (start_threads p i t).0.sessions ≡ i.sessions
  unfolding now_monotonic_ms
  start_threads-sessions tcp i t = refl
  start_threads-sessions udp i t = refl

  started-sessions :
      (f : Forwarder) (r : Bool × (Listener × ErrorOut)) (t : Trace)
      → (started f (impl_started f.impl r t).0).1.0.impl.sessions ≡ f.impl.sessions
  started-sessions f (true, (l, error)) t =
      start_threads-sessions f.impl.config.protocol (record (f.impl) { listener = l }) t
  started-sessions f (false, (l, error)) t = refl

  pub start-sessions :
      (error : ErrorOut) (f : Forwarder) (t : Trace)
      → (start error f t).0.1.0.impl.sessions ≡ f.impl.sessions
  unfolding start impl_start
  start-sessions error f t = elim (Bool-cases f.running) [
    | inl on ↦ simp on refl
    | inr off ↦
        let (r, u) = Listen.start f.impl.config error f.impl.listener t in
        simp off (started-sessions f r u)
  ]

  Step-IsGoing : {s t : System} → Step s t → IsGoing s → IsGoing t
  Step-IsGoing (starts error stage e) (inl at_end) = cc (stage, at_end)
  Step-IsGoing {s} (starts error stage e) (inr h) =
      inr (rw e (rw (start-sessions error s.service.forwarder s.trace) h))
  Step-IsGoing (stops step) h = StopStep-IsGoing step h
  Step-IsGoing (runs step) (inl at_end) =
      let (stage, running, flag, listen) = ThreadStep-kept step in inl (stage ∙ at_end)
  Step-IsGoing (runs step) (inr h) = inr (ThreadStep-AreGoing step h)

  pub Reach-IsGoing : {s t : System} → IsGoing s → Reach s t → IsGoing t
  Reach-IsGoing h Reach.here = h
  Reach-IsGoing h (Reach.later r step) = Step-IsGoing step (Reach-IsGoing h r)
