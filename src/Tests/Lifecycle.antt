-- ===== src/Tests/Lifecycle.antt =====
-- The theorems on a forwarder that is started and stopped, at a concrete run.
use port_forward_x.Prelude.{
  ℕ, Bool, List, Text, codes, to_text, ◌≡◌, refl, ap, sym, false, true, [], ◌∷◌, some,
}
use port_forward_x.Config.Families.{effective_listen_family, effective_target_family}
use port_forward_x.Platform.{
  set_ipv6_only, set_reuse_address, close_socket, ensure_socket_api_initialized,
}
use port_forward_x.Endpoint.{ResolvedEndpoint, sort_endpoints, stable_sort, insert, filter_loop}
use port_forward_x.Resolver.{
  resolve, collect, make_endpoint, to_ip_string, extract_port, make_hints,
}
use port_forward_x.Targets.{resolve_target_endpoints}
use port_forward_x.Listen
use port_forward_x.Listen.{
  start_resolved, start_on, listen_loop, try_listen, listen_candidate, bind_and_listen, listen_on,
}
use port_forward_x.Forwarder
use port_forward_x.System.{
  handle, invalid_socket, Trace, Hints, af_inet, af_inet6, af_unspec, sock_stream, ipproto_tcp,
  so_reuseaddr, ipv6_v6only, resolved, socket_call, setsockopt_call, bind_call, listen_call,
  getsockname_call, getaddrinfo_call,
}
use port_forward_x.System.Sockets.{is_open}
use port_forward_x.Session.{ForwardSession, running}
use port_forward_x.Udp.Table.{bit}
use port_forward_x.Forwarder.{
  Forwarder, make_forwarder, make_impl, impl_start, accept_work, accept_end, unbind, clean_udp,
  stop_sessions,
}
use port_forward_x.Forwarder.Threads.{
  System, impl_of, act, at_stage, begin_stop, end_stop, session_close, session_finish,
  start_service, ready, joining, cleaning, stopping_sessions, joining_sessions, Step, StopStep,
  ThreadStep, Reach,
}
use port_forward_x.Forwarder.Stages.{IsQuiet}
use port_forward_x.Forwarder.Stopped.{new_system, stopped_holds_nothing}
use port_forward_x.Forwarder.Returns.{CanEnd, stop_can_return}
use port_forward_x.Forwarder.Contract.{Run, idle, labels, refines_contract}
use port_forward_x.Tests.Machine.{machine, address4, address6, answer, machine-IsPosix}
use port_forward_x.Tests.Service.{local_config}

-- A forwarder is started; a client is accepted; `Stop` is called while its session goes on.
abbrev ip : Text
ip = 49 ∷ 50 ∷ 55 ∷ 46 ∷ 48 ∷ 46 ∷ 48 ∷ 46 ∷ 49 ∷ []

abbrev target : List ResolvedEndpoint
target =
    record { ip = ip; port = 80; family = af_inet6; sockaddr_bytes = address6; sockaddr_len = 5 }
    ∷ record { ip = ip; port = 80; family = af_inet; sockaddr_bytes = address4; sockaddr_len = 4 }
    ∷ []

abbrev hints : Bool → Hints
hints passive = record {
  ai_family = af_unspec;
  ai_socktype = sock_stream;
  ai_protocol = ipproto_tcp;
  ai_passive = passive;
}

abbrev pub begun_trace : Trace
begun_trace =
    getsockname_call (handle 3) (some address4)
    ∷ listen_call (handle 3) 128 true
    ∷ bind_call (handle 3) address6 true
    ∷ setsockopt_call (handle 3) (ipv6_v6only 0) true
    ∷ setsockopt_call (handle 3) (so_reuseaddr 1) true
    ∷ socket_call af_inet6 sock_stream ipproto_tcp (handle 3)
    ∷ getaddrinfo_call (some (58 ∷ 58 ∷ [])) (48 ∷ []) (hints true) (resolved answer)
    ∷ getaddrinfo_call (some (codes "localhost")) (56 ∷ 48 ∷ []) (hints false) (resolved answer)
    ∷ []

abbrev pub begun_forwarder : Forwarder
begun_forwarder = record {
  running = true;
  listening_port = 80;
  listening_host = ip;
  impl = record (make_impl local_config) {
    listener = record {
      running = true;
      listen_socket = handle 3;
      listening_port = 80;
      listening_host = ip;
      target_endpoints = target;
    };
    accept_thread = true;
    resolver_thread = true;
  };
}

abbrev begun : System
begun = record {
  service = record { forwarder = begun_forwarder; stage = ready };
  trace = begun_trace;
}

-- How `Start` goes on this system.
pub start_is :
    Forwarder.start ⦃os = machine⦄ (some []) (make_forwarder local_config) []
    ≡ ((true, (begun_forwarder, some [])), begun_trace)
unfolding Forwarder.start impl_start Listen.start start_resolved start_on listen_loop try_listen
    listen_candidate bind_and_listen listen_on set_ipv6_only set_reuse_address
    resolve_target_endpoints resolve sort_endpoints stable_sort insert filter_loop collect
    make_endpoint to_ip_string extract_port make_hints ensure_socket_api_initialized
    effective_listen_family effective_target_family codes to_text close_socket
start_is = refl

begun_is : begun ≡ start_service ⦃os = machine⦄ (some []) (new_system local_config [])
begun_is =
    ap (λ r. record { service = record { forwarder = r.0.1.0; stage = ready }; trace = r.1 })
      (sym start_is)

abbrev accepted : System
accepted = act (accept_work ⦃os = machine⦄) begun

abbrev ending : System
ending = record accepted { service = begin_stop accepted.service }

abbrev unbound : System
unbound = at_stage joining (act (unbind ⦃os = machine⦄) ending)

abbrev not_resolving : System
not_resolving = act (λ i u. (record i { resolver_thread = false }, u)) unbound

abbrev not_accepting : System
not_accepting = act (accept_end ⦃os = machine⦄) not_resolving

abbrev cleaned : System
cleaned =
    at_stage stopping_sessions (act (clean_udp ⦃os = machine⦄) (at_stage cleaning not_accepting))

abbrev told : System
told = at_stage joining_sessions (act (stop_sessions ⦃os = machine⦄) cleaned)

abbrev the_session : ForwardSession
the_session = record {
  client_socket = handle 7;
  upstream_socket = handle 15;
  worker = running;
  stopping = true;
  finished = false;
}

abbrev closed_session : ForwardSession
closed_session = record the_session {
  client_socket = invalid_socket;
  upstream_socket = invalid_socket;
}

abbrev closed : System
closed = act (session_close [] 1 the_session []) told

abbrev finished : System
finished = act (session_finish [] 1 closed_session []) closed

abbrev ended : System
ended = record finished { service = end_stop finished.service }

abbrev to_accepted : Reach ⦃os = machine⦄ (new_system local_config []) accepted
to_accepted =
    Reach.later (Reach.later Reach.here (Step.starts (some []) refl begun_is))
      (Step.runs (ThreadStep.accepts refl refl))

abbrev to_ending : Reach ⦃os = machine⦄ (new_system local_config []) ending
to_ending = Reach.later to_accepted (Step.stops (StopStep.begins refl refl))

abbrev to_told : Reach ⦃os = machine⦄ (new_system local_config []) told
unfolding accept_work unbind accept_end
to_told =
    Reach.later
      (Reach.later
        (Reach.later
          (Reach.later
            (Reach.later (Reach.later to_ending (Step.stops (StopStep.unbinds refl refl)))
              (Step.runs (ThreadStep.resolving_ends refl refl refl)))
            (Step.runs (ThreadStep.accepting_ends refl refl refl)))
          (Step.stops (StopStep.joins_threads refl refl refl refl refl)))
        (Step.stops (StopStep.cleans refl refl)))
      (Step.stops (StopStep.stops_sessions refl refl))

abbrev to_end : Reach ⦃os = machine⦄ (new_system local_config []) ended
unfolding stop_sessions clean_udp accept_end unbind accept_work session_close
to_end =
    Reach.later
      (Reach.later
        (Reach.later to_told
          (Step.runs (ThreadStep.session_closes [] 1 the_session [] refl refl refl)))
        (Step.runs (ThreadStep.session_finishes [] 1 closed_session [] refl refl refl refl)))
      (Step.stops (StopStep.returns refl refl refl))

stopped_holds_nothing_example :
    IsQuiet (impl_of ended) × ((n : ℕ) → bit (is_open n ended.trace) ≡ 0)
stopped_holds_nothing_example =
    stopped_holds_nothing ⦃os = machine⦄ machine-IsPosix (λ n. 0) local_config [] {s = ended}
      (λ n. refl) to_end refl refl

refines_contract_example : Run idle (labels ⦃os = machine⦄ to_end) idle
refines_contract_example =
    refines_contract ⦃os = machine⦄ machine-IsPosix (λ n. 0) local_config [] {s = ended} (λ n. refl)
      to_end

stop_can_return_example : CanEnd ⦃os = machine⦄ (handle 3) accepted
unfolding accept_work
stop_can_return_example =
    stop_can_return ⦃os = machine⦄ machine-IsPosix (λ n. 0) local_config [] {s = accepted}
      (λ n. refl) to_accepted refl
