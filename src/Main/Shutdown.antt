-- ===== src/Main/Shutdown.antt =====
-- The run of `main` from the signal to its return.
use port_forward_x.Prelude.{ℕ, ◌≡◌, refl, false, List, [], ◌∷◌, All}
use port_forward_x.System.{SocketHandle, Os, Trace}
use port_forward_x.System.Sockets.{is_open, IsPosix}
use port_forward_x.Forwarder.Threads.{Service, System, ready, ThreadStep}
use port_forward_x.Forwarder.Returns.{IsDriven, Finish, over, after_stop, can_end}
use port_forward_x.Version.{Version}
use port_forward_x.Main.CommandLine.{CommandLine}
use port_forward_x.Main.Run.{waiting, stopping, returned, Program, begin, leave}
use port_forward_x.Main.Threads.{
  system, Step, is_signalled, stops, has_stopped, leaves, runs, Reach,
}
use port_forward_x.Main.Books.{IsHealthy}
use port_forward_x.Main.Idle.{IsIdle, begin-Reach-AreIdle}
use port_forward_x.Main.Exit.{Reach-IsGood, begin-IsGood}

-- The sockets that the forwarders listen on.
abbrev pub listening_of : List Service → List SocketHandle
listening_of [] = []
listening_of (f ∷ rest) = f.forwarder.impl.listener.listen_socket ∷ listening_of rest

module _ ⦃os : Os⦄ where
  -- The next steps of `main` itself, but the end of a call of `Stop`.
  abbrev pub IsOwn : {p q : Program} → Step p q → Type 0
  IsOwn (is_signalled phase e) = Unit
  IsOwn (stops code f after phase place step e) = Unit
  IsOwn (leaves code phase none_left e) = Unit
  IsOwn _ = ⊥

  -- A run of `main` from the signal on. The list has the sockets that the forwarders still to stop were
  -- listening on; only a thread of the first of them makes a step, and only as `IsDriven` allows it.
  pub data Leaving : List SocketHandle → Program → Program → Type 0 where
    gone : {p : Program} → Leaving [] p p
    after_main :
        {sockets : List SocketHandle} {p q r : Program} (step : Step p q)
        → IsOwn step
        → Leaving sockets q r
        → Leaving sockets p r
    after_thread :
        {listening : SocketHandle} {sockets : List SocketHandle} {p r : Program} {s : System}
        (f : Service) (after : List Service)
        → p.forwarders ≡ f ∷ after
        → (step : ThreadStep (system f p.trace) s) → IsDriven listening step
        → Leaving
            (listening ∷ sockets)
            (record p { forwarders = s.service ∷ after; trace = s.trace })
            r
        → Leaving (listening ∷ sockets) p r
    after_forwarder :
        {listening : SocketHandle} {sockets : List SocketHandle} {p r : Program} (code : ℕ)
        (f : Service) (after : List Service)
        → p.phase ≡ stopping code
        → p.forwarders ≡ f ∷ after
        → f.stage ≡ ready
        → f.forwarder.running ≡ false
        → Leaving sockets (record p { stopped = f ∷ p.stopped; forwarders = after }) r
        → Leaving (listening ∷ sockets) p r

  prepend : {p q r : Program} → Step p q → Reach q r → Reach p r
  prepend step Reach.here = Reach.later Reach.here step
  prepend step (Reach.later r last) = Reach.later (prepend step r) last

  -- Each such run is one of `main` with its threads.
  Leaving-Reach : {sockets : List SocketHandle} {p r : Program} → Leaving sockets p r → Reach p r
  Leaving-Reach gone = Reach.here
  Leaving-Reach (after_main step own rest) = prepend step (Leaving-Reach rest)
  Leaving-Reach (after_thread f after place step driven rest) =
      prepend (runs [] f after place step refl) (Leaving-Reach rest)
  Leaving-Reach (after_forwarder code f after phase place idle stopped rest) =
      prepend (has_stopped code f after phase place idle stopped refl) (Leaving-Reach rest)

  -- There is such a run to `return 0`.
  pub record CanExit (sockets : List SocketHandle) (p : Program) : Type 0 where
    pub final : Program
    pub run : Leaving sockets p final
    pub exits : final.phase ≡ returned 0

  main_then :
      {sockets : List SocketHandle} {p q : Program} (step : Step p q)
      → IsOwn step
      → CanExit sockets q
      → CanExit sockets p
  main_then step own c = record {
    final = c.final;
    run = after_main step own c.run;
    exits = c.exits;
  }

  abbrev with_forwarders : Program → List Service → Trace → Program
  with_forwarders p forwarders t = record p { forwarders = forwarders; trace = t }

  -- A run of the first forwarder is a run of `main`.
  lifted :
      {listening : SocketHandle} {sockets : List SocketHandle} {s t : System} (p : Program)
      (code : ℕ) (after : List Service)
      → p.phase ≡ stopping code
      → Finish listening s t
      → CanExit (listening ∷ sockets) (with_forwarders p (t.service ∷ after) t.trace)
      → CanExit (listening ∷ sockets) (with_forwarders p (s.service ∷ after) s.trace)
  lifted p code after phase over c = c
  lifted {s = s} p code after phase (after_stop step rest) c =
      main_then (stops code s.service after phase refl step refl) tt
        (lifted p code after phase rest c)
  lifted {s = s} p code after phase (Finish.after_thread step driven rest) c =
      let d = lifted p code after phase rest c in
      record {
        final = d.final;
        run = after_thread s.service after refl step driven d.run;
        exits = d.exits;
      }

  stopping_exits :
      (p : Program) (forwarders : List Service) (t : Trace)
      → p.phase ≡ stopping 0
      → All IsHealthy forwarders
      → All IsIdle forwarders
      → CanExit (listening_of forwarders) (with_forwarders p forwarders t)
  stopping_exits p [] t phase h idle =
      let p' = with_forwarders p [] t in
      main_then (leaves 0 phase refl refl) tt
        (record { final = leave 0 p'; run = gone; exits = refl })
  stopping_exits p (f ∷ after) t phase ((settled, staged), h) ((stage, going), idle) =
      let c = can_end (system f t) stage (rw stage at staged) going in
      let p' = record p { stopped = c.final.service ∷ p.stopped } in
      let d = stopping_exits p' after c.final.trace phase h idle in
      lifted p 0 after phase c.run (record {
        final = d.final;
        run = after_forwarder 0 c.final.service after phase refl c.idle c.stopped d.run;
        exits = d.exits;
      })

module _ ⦃os : Os⦄ (posix : IsPosix os) where
  -- If `socket` and `accept` return only descriptors that are not open: take any command line, no
  -- open socket, and any interleaving of `main` with the threads of its forwarders, after which `main`
  -- waits for a signal. Then the signal can end the program: there is a run after which `main` has
  -- returned 0, in which `main` stops the forwarders in their order, only threads of the one being
  -- stopped make a step, no client connects, no datagram and no stream does anything, the accepting
  -- thread ends only after its listening socket was shut down, and a session closes only after both its
  -- sockets were shut down.
  pub can_return :
      (v : Version) (line : CommandLine) (t : Trace) {p : Program}
      → ((n : ℕ) → is_open n t ≡ false)
      → Reach (begin v line t) p
      → p.phase ≡ waiting
      → CanExit (listening_of p.forwarders) p
  can_return v line t {p} clean r phase =
      let good = Reach-IsGood posix (begin-IsGood v line t clean) r in
      let idle = rw phase at (begin-Reach-AreIdle v line t r) in
      main_then (is_signalled phase refl) tt (
        stopping_exits (record p { phase = stopping 0 }) p.forwarders p.trace refl
          good.books.healthy idle)
