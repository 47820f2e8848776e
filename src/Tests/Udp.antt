-- ===== src/Tests/Udp.antt =====
-- The theorems on sessions, over TCP and UDP, at concrete inputs.
use port_forward_x.Prelude.{
  ℕ, ◌+◌, ◌*◌, ◌≡◌, refl, inl, keep, true, false, [], ◌∷◌, some, codes, text_eq, arith,
}
use port_forward_x.Config.{default_config}
use port_forward_x.System.{
  invalid_socket, handle, Trace, recv_call, Event, socket_call, af_inet, sock_dgram, ipproto_udp,
}
use port_forward_x.System.Sockets.{is_open, times_closed}
use port_forward_x.Endpoint.{client_endpoint_key, endpoint_to_string}
use port_forward_x.Session.{is_finished, close_sockets, start, make_session}
use port_forward_x.Session.Threads.{Threads, Phase, Relay, initial, Reach, here, later, receives}
use port_forward_x.Session.Threads.Step.{
  starts, spawns_up, spawns_down, relays_up, returns_up, returns_down, joins, closes, finishes,
}
use port_forward_x.Session.Ownership.{session-IsClean, session_closes_once, IsClean, once}
use port_forward_x.Udp.{
  UdpSession, UdpState, Sessions, cleanup_idle_udp_sessions, find_session,
  get_or_create_udp_session,
}
use port_forward_x.Udp.Loops.{udp_round}
use port_forward_x.Udp.Table.{bit, owners}
use port_forward_x.Udp.Cleanup.{cleanup-IsLedger, cleanup_all}
use port_forward_x.Udp.Idle.{is_wanted, cleanup-keep}
use port_forward_x.Udp.Creation.{get_or_create-IsLedger, get_or_create_found}
use port_forward_x.Udp.Datagrams.{datagrams}
use port_forward_x.Udp.Routes.{HasRoutes, Routed, every_round-Routed}
use port_forward_x.Udp.Threads
use port_forward_x.Udp.Threads.{Reach-IsLedger}
use port_forward_x.Tests.Machine.{machine, machine-IsPosix, address4}
use port_forward_x.Tests.Network.{v4}

-- A session that is started, receives the end of the stream from its client, and ends.
abbrev started : Threads
started = record (initial 4 5) { session = start (initial 4 5).session; phase = Phase.joining }

abbrev with_up : Threads
with_up = record started { up = Relay.relaying }

abbrev with_both : Threads
with_both = record with_up { down = Relay.relaying }

abbrev at_end : Event
at_end = recv_call (handle 4) 16384 (some [])

abbrev relayed : Threads
relayed = record with_both { trace = at_end ∷ with_both.trace }

abbrev up_returned : Threads
up_returned = record relayed { up = Relay.returned }

abbrev down_returned : Threads
down_returned = record up_returned { down = Relay.returned }

abbrev after_join : Threads
after_join = record down_returned { phase = Phase.joined }

abbrev after_close : Threads
after_close = record after_join {
  session = (close_sockets after_join.session after_join.trace).0;
  trace = (close_sockets after_join.session after_join.trace).1;
  phase = Phase.closed;
}

abbrev at_last : Threads
at_last = record after_close {
  session = record (after_close.session) { finished = true };
  phase = Phase.done;
}

Reach-at_last : Reach ⦃os = machine⦄ (initial 4 5) at_last
unfolding make_session start
Reach-at_last =
    later {t = after_close}
      (later {t = after_join}
        (later {t = down_returned}
          (later {t = up_returned}
            (later {t = relayed}
              (later {t = with_both}
                (later {t = with_up}
                  (later {t = started} (later here (starts refl refl)) (spawns_up refl refl refl))
                  (spawns_down refl refl refl))
                (relays_up at_end refl (receives 16384 (some []) refl) refl))
              (returns_up refl refl))
            (returns_down refl refl))
          (joins refl refl refl refl))
        (closes refl refl))
      (finishes refl refl)

session-IsClean_example : IsClean at_last.trace
session-IsClean_example =
    session-IsClean 4 5 ⦃os = machine⦄ {s = at_last} (λ e. absurd (omega (arith, e))) Reach-at_last

session_closes_once_example :
    ((n : ℕ) → times_closed n at_last.trace ≡ once 4 5 n)
    × (at_last.session.client_socket ≡ invalid_socket)
    × (at_last.session.upstream_socket ≡ invalid_socket)
unfolding is_finished
session_closes_once_example =
    session_closes_once 4 5 ⦃os = machine⦄ {s = at_last} (λ e. absurd (omega (arith, e)))
      Reach-at_last refl

abbrev one_session : UdpSession
one_session = record {
  upstream_socket = handle 3;
  target_addr = address4;
  client_addr = address4;
  client_label = codes "127.0.0.1:4000";
  target_label = codes "127.0.0.1:80";
  has_thread = true;
  last_active_ms = 5000;
  client_to_target_packets = 0;
  client_to_target_bytes = 0;
  target_to_client_packets = 0;
  target_to_client_bytes = 0;
  marked_for_close = false;
}

abbrev with_table : Sessions → UdpState
with_table table = record {
  config = default_config;
  target_endpoints = v4 ∷ [];
  listen_socket = handle 9;
  udp_sessions = table;
  last_udp_cleanup_ms = 0;
}

abbrev one_open : Trace
one_open = socket_call af_inet sock_dgram ipproto_udp (handle 3) ∷ []

abbrev one_table : Sessions
one_table = (codes "127.0.0.1:4000", one_session) ∷ []

one-IsLedger : (n : ℕ) → bit (is_open n one_open) ≡ 0 + owners n one_table
one-IsLedger n = ground arith

abbrev max_idle : ℕ
max_idle = 300 * 1000

cleanup-keep_example :
    (cleanup_idle_udp_sessions ⦃os = machine⦄ false (with_table one_table) one_open).0
    ≡ record (with_table one_table) {
      udp_sessions = keep (λ p. is_wanted 1000 max_idle p.1) one_table;
    }
cleanup-keep_example =
    cleanup-keep ⦃os = machine⦄ (with_table one_table) one_open (omega arith) (omega arith, tt)

cleanup-IsLedger_example :
    let (s, u) = cleanup_idle_udp_sessions ⦃os = machine⦄ false (with_table one_table) one_open in
    bit (is_open 3 u) ≡ 0 + owners 3 s.udp_sessions
cleanup-IsLedger_example =
    cleanup-IsLedger ⦃os = machine⦄ (λ n. 0) false (with_table one_table) one_open one-IsLedger 3

cleanup_all_example :
    let (s, u) = cleanup_idle_udp_sessions ⦃os = machine⦄ true (with_table one_table) one_open in
    (s.udp_sessions ≡ []) × ((n : ℕ) → bit (is_open n u) ≡ 0)
cleanup_all_example =
    cleanup_all ⦃os = machine⦄ (λ n. 0) (with_table one_table) one_open one-IsLedger

get_or_create-IsLedger_example :
    let ((found, s), u) = get_or_create_udp_session ⦃os = machine⦄ address4 (with_table []) [] in
    bit (is_open 3 u) ≡ 0 + owners 3 s.udp_sessions
get_or_create-IsLedger_example =
    get_or_create-IsLedger ⦃os = machine⦄ machine-IsPosix (λ n. 0) address4 (with_table []) []
      (λ n. refl) 3

get_or_create_found_example :
    find_session
      (client_endpoint_key ⦃os = machine⦄ address4)
      (get_or_create_udp_session ⦃os = machine⦄ address4
        (with_table one_table)
        one_open).0.1.udp_sessions
    ≡ some one_session
unfolding get_or_create_udp_session find_session client_endpoint_key codes text_eq
get_or_create_found_example =
    get_or_create_found ⦃os = machine⦄ address4 (with_table one_table) one_open one_session refl

-- A round for the clients and one for the target of the session that it makes.
abbrev before : Threads.System
before = record { state = with_table one_table; trace = one_open }

abbrev served : Threads.System
served =
    let (state, trace) = udp_round ⦃os = machine⦄ (with_table one_table) one_open in
    record { state = state; trace = trace }

Reach-IsLedger_example : bit (is_open 3 served.trace) ≡ 0 + owners 3 served.state.udp_sessions
Reach-IsLedger_example =
    Reach-IsLedger ⦃os = machine⦄ machine-IsPosix (λ n. 0) {s = before} {t = served} one-IsLedger
      (Threads.Reach.later Threads.Reach.here (Threads.Step.serves_client refl)) 3

one-HasRoutes : HasRoutes ⦃os = machine⦄ before.state
unfolding client_endpoint_key endpoint_to_string codes
one-HasRoutes = ((refl, inl refl), tt)

abbrev served_twice : Threads.System
served_twice =
    let (state, trace) = udp_round ⦃os = machine⦄ served.state served.trace in
    record { state = state; trace = trace }

every_round-Routed_example :
    Routed ⦃os = machine⦄ served.state (datagrams served.trace) (datagrams served_twice.trace)
every_round-Routed_example =
    every_round-Routed ⦃os = machine⦄ {s = before} {t = served} {u = served_twice} one-HasRoutes
      (Threads.Reach.later Threads.Reach.here (Threads.Step.serves_client refl))
      (Threads.Step.serves_client refl)
