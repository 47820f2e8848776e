-- ===== src/Forwarder/Threads.antt =====
-- One forwarder with all its threads, in any interleaving: the threads of `Impl`, those of its sessions,
-- and the one that calls `Start` and `Stop`, one call at a time (`state_mutex_`). `Start` and each
-- round of a loop is one step; `Stop` is a step for each of its parts. A loop may make a round after
-- `running_` was cleared: it may have read it before. What a thread waits for inside a call is no
-- condition of its steps: the accepting thread may end although `accept` would wait, and a session may
-- close although its relays would go on, so there are more runs than the program has.
use port_forward_x.Prelude.{ℕ, ◌≡◌, true, false, some, if◌then◌else◌, Text}
use port_forward_x.System.{invalid_socket, Os, Sys, Trace}
use port_forward_x.Platform.{ErrorOut}
use port_forward_x.Session.{ForwardSession, close_sockets}
use port_forward_x.Tcp.{TcpSessions}
use port_forward_x.Tcp.Threads.{at}
use port_forward_x.Udp.{UdpSession, find_session}
use port_forward_x.Forwarder.{
  Impl, Forwarder, clear_running, all_finished, clear_sessions, start, accept_work, accept_end,
  udp_work, udp_end, upstream_work, resolver_work, unbind, clean_udp, stop_sessions,
}

-- Where a call of `Stop` stands: none is going on; it will close the listening socket; join the threads;
-- clean the UDP sessions up; stop the TCP sessions; join them.
pub data Stage : Type 0 where
  ready unbinding joining cleaning stopping_sessions joining_sessions : Stage

pub record Service : Type 0 where
  pub forwarder : Forwarder
  pub stage : Stage

pub record System : Type 0 where
  pub service : Service
  pub trace : Trace

abbrev pub impl_of : System → Impl
impl_of s = s.service.forwarder.impl

abbrev pub with_impl : Service → Impl → Service
with_impl s i = record s { forwarder = record (s.forwarder) { impl = i } }

-- An action on `Impl`.
abbrev pub act : (Impl → Sys Impl) → System → System
act work s =
    let (i, u) = work (impl_of s) s.trace in record { service = with_impl s.service i; trace = u }

abbrev pub at_stage : Stage → System → System
at_stage stage s = record s { service = record (s.service) { stage = stage } }

-- `Forwarder::Stop` up to the exchange of `running_`.
abbrev pub begin_stop : Service → Service
begin_stop s =
    if s.forwarder.running
    then (if s.forwarder.impl.listener.running
        then record (with_impl s (clear_running s.forwarder.impl)) { stage = unbinding }
        else record s { forwarder = record (s.forwarder) { running = false } })
    else s

-- Its end, once every session is joined.
abbrev pub end_stop : Service → Service
end_stop s = record s {
  forwarder = record (s.forwarder) { running = false; impl = clear_sessions s.forwarder.impl };
  stage = ready;
}

-- `CloseSockets` in the thread of a session, and the store to `finished_`.
unfoldable pub session_close : TcpSessions → ℕ → ForwardSession → TcpSessions → Impl → Sys Impl
unfolding close_sockets
session_close before id session after i t =
    let (closed, u) = close_sockets session t in
    (record i { sessions = at before id after closed }, u)

abbrev pub session_finish : TcpSessions → ℕ → ForwardSession → TcpSessions → Impl → Sys Impl
session_finish before id session after i t =
    (record i { sessions = at before id after (record session { finished = true }) }, t)

module _ ⦃os : Os⦄ where
  -- The steps of the threads of a forwarder.
  pub data ThreadStep (s : System) (t : System) : Type 0 where
    accepts : (impl_of s).accept_thread ≡ true → t ≡ act accept_work s → ThreadStep s t
    accepting_ends :
        (impl_of s).accept_thread ≡ true
        → (impl_of s).listener.running ≡ false
        → t ≡ act accept_end s
        → ThreadStep s t
    serves_client : (impl_of s).udp_thread ≡ true → t ≡ act udp_work s → ThreadStep s t
    serving_ends :
        (impl_of s).udp_thread ≡ true
        → (impl_of s).listener.running ≡ false
        → t ≡ act udp_end s
        → ThreadStep s t
    serves_target :
        (key : Text) (session : UdpSession)
        → find_session key (impl_of s).udp_sessions ≡ some session
        → t ≡ act (upstream_work key session) s
        → ThreadStep s t
    resolves : (impl_of s).resolver_thread ≡ true → t ≡ act resolver_work s → ThreadStep s t
    resolving_ends :
        (impl_of s).resolver_thread ≡ true
        → (impl_of s).listener.running ≡ false
        → t ≡ act (λ i u. (record i { resolver_thread = false }, u)) s
        → ThreadStep s t
    session_closes :
        (before : TcpSessions) (id : ℕ) (session : ForwardSession) (after : TcpSessions)
        → (impl_of s).sessions ≡ at before id after session
        → session.finished ≡ false
        → t ≡ act (session_close before id session after) s
        → ThreadStep s t
    session_finishes :
        (before : TcpSessions) (id : ℕ) (session : ForwardSession) (after : TcpSessions)
        → (impl_of s).sessions ≡ at before id after session
        → session.client_socket ≡ invalid_socket
        → session.upstream_socket ≡ invalid_socket
        → t ≡ act (session_finish before id session after) s
        → ThreadStep s t

  -- The steps of a call of `Stop`.
  pub data StopStep (s : System) (t : System) : Type 0 where
    begins :
        s.service.stage ≡ ready → t ≡ record s { service = begin_stop s.service } → StopStep s t
    unbinds : s.service.stage ≡ unbinding → t ≡ at_stage joining (act unbind s) → StopStep s t
    joins_threads :
        s.service.stage ≡ joining
        → (impl_of s).accept_thread ≡ false
        → (impl_of s).udp_thread ≡ false
        → (impl_of s).resolver_thread ≡ false
        → t ≡ at_stage cleaning s
        → StopStep s t
    cleans :
        s.service.stage ≡ cleaning → t ≡ at_stage stopping_sessions (act clean_udp s) → StopStep s t
    stops_sessions :
        s.service.stage ≡ stopping_sessions
        → t ≡ at_stage joining_sessions (act stop_sessions s)
        → StopStep s t
    returns :
        s.service.stage ≡ joining_sessions
        → all_finished (impl_of s).sessions ≡ true
        → t ≡ record s { service = end_stop s.service }
        → StopStep s t

  abbrev pub start_service : ErrorOut → System → System
  start_service error s =
      let ((_, (f, _)), u) = start error s.service.forwarder s.trace in
      record { service = record (s.service) { forwarder = f }; trace = u }

  pub data Step (s : System) (t : System) : Type 0 where
    starts : (error : ErrorOut) → s.service.stage ≡ ready → t ≡ start_service error s → Step s t
    stops : StopStep s t → Step s t
    runs : ThreadStep s t → Step s t

  pub data Reach (s : System) : System → Type 0 where
    here : Reach s s
    later : {t u : System} → Reach s t → Step t u → Reach s u
