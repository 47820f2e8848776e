-- ===== src/Tests/Exit.antt =====
-- The theorems on `main` at a concrete run.
use port_forward_x.Prelude.{
  ℕ, ◌≡◌, refl, ap, sym, none, ◌⊎◌, false, [], ◌∷◌, All, some, codes, text_eq, lowered,
}
use port_forward_x.Config.{tcp}
use port_forward_x.System.{handle}
use port_forward_x.System.Sockets.{is_open}
use port_forward_x.Forwarder.{accept_end, unbind, clean_udp, stop_sessions}
use port_forward_x.Forwarder.Threads.{
  System, act, at_stage, begin_stop, end_stop, ready, joining, cleaning, stopping_sessions,
  joining_sessions, StopStep, ThreadStep,
}
use port_forward_x.Forwarder.Stages.{IsQuiet}
use port_forward_x.Version.{Version}
use port_forward_x.Main.CommandLine.{Given, CommandLine, parsed, with_defaults}
use port_forward_x.Main.{configure, parse_port, custom_config, mode_config}
use port_forward_x.Main.Run.{
  Program, starting, stopping, begin, start_forwarder, add_forwarder, wait_for_signal, leave,
}
use port_forward_x.Main.Threads.{system, Step, Reach}
use port_forward_x.Main.Exit.{returns_clean}
use port_forward_x.Main.Shutdown.{CanExit, can_return}
use port_forward_x.Tests.Machine.{machine, machine-IsPosix}
use port_forward_x.Tests.Service.{local_config}
use port_forward_x.Tests.Lifecycle.{begun_forwarder, begun_trace, start_is}

-- `--listen-port 0 --target-host localhost --target-port 80`
abbrev given : Given
given = record {
  mode = none;
  protocol = none;
  family = none;
  dns_refresh_min = none;
  udp_idle_timeout_sec = none;
  udp_debug = false;
  listen_host = none;
  listen_port = some 0;
  target_host = some (codes "localhost");
  target_port = some 80;
  public_listen_host = none;
  public_listen_port = none;
  lan_target_host = none;
  lan_target_port = none;
  local_listen_host = none;
  local_listen_port = none;
  server_ipv6_host = none;
  server_port = none;
}

abbrev line : CommandLine
line = parsed false given

abbrev version : Version
version = record { major = 0; minor = 1; patch = 0 }

abbrev at_start : Program
at_start = record {
  run_mode = codes "custom";
  protocol_input = codes "tcp";
  config = local_config;
  phase = starting (tcp ∷ []);
  stopped = [];
  forwarders = [];
  trace = [];
}

at_start_is : at_start ≡ begin version line []
unfolding begin configure mode_config custom_config parse_port with_defaults codes text_eq lowered
at_start_is = refl

abbrev running : Program
running = record at_start {
  phase = starting [];
  forwarders = record { forwarder = begun_forwarder; stage = ready } ∷ [];
  trace = begun_trace;
}

running_is : running ≡ start_forwarder ⦃os = machine⦄ tcp [] at_start
running_is = ap (λ r. add_forwarder tcp [] at_start r.0 r.1) (sym start_is)

abbrev at_rest : Program
at_rest = wait_for_signal running

to_rest : Reach ⦃os = machine⦄ at_start at_rest
to_rest =
    Reach.later (Reach.later Reach.here (Step.starts_forwarder tcp [] refl running_is))
      (Step.waits refl refl)

abbrev signalled : Program
signalled = record at_rest { phase = stopping 0 }

to_signalled : Reach ⦃os = machine⦄ at_start signalled
to_signalled = Reach.later to_rest (Step.is_signalled refl refl)

-- The stop of the one forwarder.
abbrev at_signal : System
at_signal = system (record { forwarder = begun_forwarder; stage = ready }) signalled.trace

abbrev ending : System
ending = record at_signal { service = begin_stop at_signal.service }

abbrev unbound : System
unbound = at_stage joining (act (unbind ⦃os = machine⦄) ending)

abbrev not_resolving : System
not_resolving = act (λ i u. (record i { resolver_thread = false }, u)) unbound

abbrev not_accepting : System
not_accepting = act (accept_end ⦃os = machine⦄) not_resolving

abbrev joined : System
joined = at_stage cleaning not_accepting

abbrev cleaned : System
cleaned = at_stage stopping_sessions (act (clean_udp ⦃os = machine⦄) joined)

abbrev told : System
told = at_stage joining_sessions (act (stop_sessions ⦃os = machine⦄) cleaned)

abbrev ended : System
ended = record told { service = end_stop told.service }

-- The program with its forwarder at this point.
abbrev with_system : System → Program
with_system s = record signalled { forwarders = s.service ∷ []; trace = s.trace }

abbrev idle : Program
idle = record signalled { stopped = ended.service ∷ []; forwarders = []; trace = ended.trace }

abbrev exited : Program
exited = leave 0 idle

to_joined : Reach ⦃os = machine⦄ at_start (with_system joined)
unfolding unbind accept_end
to_joined =
    Reach.later
      (Reach.later
        (Reach.later
          (Reach.later
            (Reach.later to_signalled
              (Step.stops 0 at_signal.service [] refl refl (StopStep.begins refl refl) refl))
            (Step.stops {s = unbound} 0 ending.service [] refl refl (StopStep.unbinds refl refl)
              refl))
          (Step.runs {s = not_resolving} [] unbound.service [] refl
            (ThreadStep.resolving_ends refl refl refl) refl))
        (Step.runs {s = not_accepting} [] not_resolving.service [] refl
          (ThreadStep.accepting_ends refl refl refl) refl))
      (Step.stops {s = joined} 0 not_accepting.service [] refl refl
        (StopStep.joins_threads refl refl refl refl refl) refl)

to_exit : Reach ⦃os = machine⦄ at_start exited
unfolding unbind accept_end clean_udp stop_sessions
to_exit =
    Reach.later
      (Reach.later
        (Reach.later
          (Reach.later
            (Reach.later to_joined (
              Step.stops {s = cleaned} 0 joined.service [] refl refl (StopStep.cleans refl refl)
                refl))
            (Step.stops {s = told} 0 cleaned.service [] refl refl
              (StopStep.stops_sessions refl refl) refl))
          (Step.stops {s = ended} 0 told.service [] refl refl (StopStep.returns refl refl refl)
            refl))
        (Step.has_stopped 0 ended.service [] refl refl refl refl refl))
      (Step.leaves 0 refl refl refl)

abbrev code : ℕ
code = 0

returns_clean_example :
    ((code ≡ 0) ⊎ ((code ≡ 1) ⊎ (code ≡ 2)))
    × ((n : ℕ) → is_open n exited.trace ≡ false)
    × (exited.forwarders ≡ [])
    × All (λ s. IsQuiet s.forwarder.impl) exited.stopped
returns_clean_example =
    returns_clean ⦃os = machine⦄ machine-IsPosix version line [] {p = exited} (λ n. refl)
      (rw⁻¹ at_start_is to_exit) refl

can_return_example : CanExit ⦃os = machine⦄ (handle 3 ∷ []) at_rest
can_return_example =
    can_return ⦃os = machine⦄ machine-IsPosix version line [] {p = at_rest} (λ n. refl)
      (rw⁻¹ at_start_is to_rest) refl
