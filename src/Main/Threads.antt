-- ===== src/Main/Threads.antt =====
-- src/main.cpp: the run of `main` as steps, in any interleaving with the threads of its forwarders. The
-- start of a forwarder is one step.
use port_forward_x.Prelude.{ℕ, ◌≡◌, false, List, [], ◌∷◌, ◌++◌}
use port_forward_x.Config.{TransportProtocol}
use port_forward_x.System.{Os, Trace}
use port_forward_x.Main.Run.{
  Program, starting, waiting, stopping, start_forwarder, wait_for_signal, leave,
}
use port_forward_x.Forwarder.Threads.{Service, System, ready, ThreadStep, StopStep}

-- The forwarder `f` with the history of calls.
abbrev pub system : Service → Trace → System
system f t = record { service = f; trace = t }

-- The forwarders, with one of them in place.
abbrev pub among : List Service → Service → List Service → List Service
among before f after = before ++ f ∷ after

module _ ⦃os : Os⦄ where
  pub data Step (p : Program) (q : Program) : Type 0 where
    starts_forwarder :
        (protocol : TransportProtocol) (rest : List TransportProtocol)
        → p.phase ≡ starting (protocol ∷ rest)
        → q ≡ start_forwarder protocol rest p
        → Step p q
    waits : p.phase ≡ starting [] → q ≡ wait_for_signal p → Step p q
    is_signalled : p.phase ≡ waiting → q ≡ record p { phase = stopping 0 } → Step p q
    stops :
        {s : System} (code : ℕ) (f : Service) (after : List Service)
        → p.phase ≡ stopping code
        → p.forwarders ≡ f ∷ after
        → StopStep (system f p.trace) s
        → q ≡ record p { forwarders = s.service ∷ after; trace = s.trace }
        → Step p q
    has_stopped :
        (code : ℕ) (f : Service) (after : List Service)
        → p.phase ≡ stopping code
        → p.forwarders ≡ f ∷ after
        → f.stage ≡ ready
        → f.forwarder.running ≡ false
        → q ≡ record p { stopped = f ∷ p.stopped; forwarders = after }
        → Step p q
    leaves : (code : ℕ) → p.phase ≡ stopping code → p.forwarders ≡ [] → q ≡ leave code p → Step p q
    runs :
        {s : System} (before : List Service) (f : Service) (after : List Service)
        → p.forwarders ≡ among before f after
        → ThreadStep (system f p.trace) s
        → q ≡ record p { forwarders = among before s.service after; trace = s.trace }
        → Step p q
    runs_stopped :
        {s : System} (before : List Service) (f : Service) (after : List Service)
        → p.stopped ≡ among before f after
        → ThreadStep (system f p.trace) s
        → q ≡ record p { stopped = among before s.service after; trace = s.trace }
        → Step p q

  pub data Reach (p : Program) : Program → Type 0 where
    here : Reach p p
    later : {q r : Program} → Reach p q → Step q r → Reach p r
