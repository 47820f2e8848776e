-- ===== src/Main/Idle.antt =====
-- Until `main` stops its forwarders, no call of `Stop` is going on and no session was told to stop.
use port_forward_x.Prelude.{
  ℕ, zero, suc, ◌≡◌, refl, ◌∙◌, Bool, true, false, List, [], ◌∷◌, ◌++◌, All, some,
}
use port_forward_x.Config.{TransportProtocol}
use port_forward_x.System.{Os, Trace}
use port_forward_x.Platform.{ErrorOut}
use port_forward_x.Forwarder
use port_forward_x.Forwarder.{Forwarder, make_forwarder}
use port_forward_x.Forwarder.Threads.{Service, ready}
use port_forward_x.Forwarder.Stages.{ThreadStep-kept}
use port_forward_x.Forwarder.Going.{ThreadStep-AreGoing, start-sessions}
use port_forward_x.Tcp.Going.{AreGoing}
use port_forward_x.Version.{Version}
use port_forward_x.Main.{Options, Checked, refused, taken, Setup, configure}
use port_forward_x.Main.CommandLine.{CommandLine, not_parsed, parsed, with_defaults}
use port_forward_x.Main.Run.{
  Phase, starting, waiting, stopping, returned, Program, prepared, begin, add_forwarder,
  start_forwarder, leave,
}
use port_forward_x.Main.Threads.{
  among, Step, starts_forwarder, waits, is_signalled, stops, has_stopped, leaves, runs,
  runs_stopped, Reach, here, later,
}

abbrev pub IsIdle : Service → Type 0
IsIdle f = (f.stage ≡ ready) × AreGoing f.forwarder.impl.sessions

-- What the phase promises of the forwarders.
abbrev pub AreIdle : Phase → List Service → Type 0
AreIdle (starting rest) forwarders = All IsIdle forwarders
AreIdle waiting forwarders = All IsIdle forwarders
AreIdle (stopping code) forwarders = Unit
AreIdle (returned code) forwarders = Unit

append-IsIdle :
    (forwarders : List Service) (f : Service)
    → IsIdle f
    → All IsIdle forwarders
    → All IsIdle (forwarders ++ f ∷ [])
append-IsIdle [] f one h = (one, tt)
append-IsIdle (x ∷ rest) f one (first, h) = (first, append-IsIdle rest f one h)

among-IsIdle :
    (before : List Service) (f g : Service) (after : List Service)
    → (IsIdle f → IsIdle g)
    → All IsIdle (among before f after)
    → All IsIdle (among before g after)
among-IsIdle [] f g after keeps (one, h) = (keeps one, h)
among-IsIdle (x ∷ before) f g after keeps (first, h) =
    (first, among-IsIdle before f g after keeps h)

among-AreIdle :
    (phase : Phase) (before : List Service) (f g : Service) (after : List Service)
    → (IsIdle f → IsIdle g)
    → AreIdle phase (among before f after)
    → AreIdle phase (among before g after)
among-AreIdle (starting rest) before f g after keeps h = among-IsIdle before f g after keeps h
among-AreIdle waiting before f g after keeps h = among-IsIdle before f g after keeps h
among-AreIdle (stopping code) before f g after keeps h = tt
among-AreIdle (returned code) before f g after keeps h = tt

prepared-AreIdle :
    (o : Options) (t : Trace) (c : Checked Setup)
    → AreIdle (prepared o t c).phase (prepared o t c).forwarders
prepared-AreIdle o t (refused message) = tt
prepared-AreIdle o t (taken setup) = tt

begin-AreIdle :
    (v : Version) (line : CommandLine) (t : Trace)
    → AreIdle (begin v line t).phase (begin v line t).forwarders
unfolding begin
begin-AreIdle v (not_parsed what) t = tt
begin-AreIdle v (parsed true given) t = tt
begin-AreIdle v (parsed false given) t =
    let o = with_defaults given in prepared-AreIdle o t (configure o)

add_forwarder-AreIdle :
    (protocol : TransportProtocol) (rest : List TransportProtocol) (p : Program)
    (r : Bool × (Forwarder × ErrorOut)) (t : Trace)
    → AreGoing r.1.0.impl.sessions
    → All IsIdle p.forwarders
    → let q = add_forwarder protocol rest p r t in AreIdle q.phase q.forwarders
add_forwarder-AreIdle protocol rest p (true, (f, error)) t going h =
    append-IsIdle p.forwarders (record { forwarder = f; stage = ready }) (refl, going) h
add_forwarder-AreIdle protocol rest p (false, (f, error)) t going h = tt

module _ ⦃os : Os⦄ where
  start_forwarder-AreIdle :
      (protocol : TransportProtocol) (rest : List TransportProtocol) (p : Program)
      → All IsIdle p.forwarders
      → let q = start_forwarder protocol rest p in AreIdle q.phase q.forwarders
  start_forwarder-AreIdle protocol rest p h =
      let f = make_forwarder (record (p.config) { protocol = protocol }) in
      let (r, t) = Forwarder.start (some []) f p.trace in
      add_forwarder-AreIdle protocol rest p r t (rw (start-sessions (some []) f p.trace) tt) h

  leave-AreIdle : (code : ℕ) (p : Program) → AreIdle (leave code p).phase (leave code p).forwarders
  leave-AreIdle zero p = tt
  leave-AreIdle (suc code) p = tt

  Step-AreIdle :
      {p q : Program} → Step p q → AreIdle p.phase p.forwarders → AreIdle q.phase q.forwarders
  Step-AreIdle {p} (starts_forwarder protocol rest phase e) h =
      rw e (start_forwarder-AreIdle protocol rest p (rw phase at h))
  Step-AreIdle (waits phase e) h = rw e (rw phase at h)
  Step-AreIdle (is_signalled phase e) h = rw e tt
  Step-AreIdle {p} (stops code f after phase place step e) h = rw e (rw phase tt)
  Step-AreIdle {p} (has_stopped code f after phase place idle over e) h = rw e (rw phase tt)
  Step-AreIdle {p} (leaves code phase none_left e) h = rw e (leave-AreIdle code p)
  Step-AreIdle {p} (runs {s} before f after place step e) h =
      let keeps : IsIdle f → IsIdle s.service =
        λ one. ((ThreadStep-kept step).0 ∙ one.0, ThreadStep-AreGoing step one.1) in
      rw e (among-AreIdle p.phase before f s.service after keeps (rw place at h))
  Step-AreIdle (runs_stopped before f after place step e) h = rw e h

  Reach-AreIdle :
      {p q : Program} → Reach p q → AreIdle p.phase p.forwarders → AreIdle q.phase q.forwarders
  Reach-AreIdle here h = h
  Reach-AreIdle (later r step) h = Step-AreIdle step (Reach-AreIdle r h)

  pub begin-Reach-AreIdle :
      (v : Version) (line : CommandLine) (t : Trace) {p : Program}
      → Reach (begin v line t) p
      → AreIdle p.phase p.forwarders
  begin-Reach-AreIdle v line t r = Reach-AreIdle r (begin-AreIdle v line t)
