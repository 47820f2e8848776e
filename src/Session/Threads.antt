-- ===== src/Session/Threads.antt =====
-- The threads of one `ForwardSession`, interleaved in any order: the worker (`Run`), the two relays
-- that it starts, and any number of callers of `Stop`. The trace holds the calls of this session.
use port_forward_x.Prelude.{ℕ, ◌≡◌, Bool, true, false, Option, [], ◌∷◌, ℤ}
use port_forward_x.System.{
  Bytes, SocketHandle, handle, Event, Os, Trace, recv_call, send_call, shutdown_call, shut_wr,
  shut_rdwr,
}
use port_forward_x.Session.{ForwardSession, make_session, start, close_sockets, shutdown_sockets}

-- A call that the relay from `source` to `destination` can make.
pub data RelayCall (source destination : SocketHandle) (e : Event) : Type 0 where
  receives : (k : ℕ) (r : Option Bytes) → e ≡ recv_call source k r → RelayCall source destination e
  sends : (b : Bytes) (r : ℤ) → e ≡ send_call destination b r → RelayCall source destination e
  half_closes :
      (r : Bool) → e ≡ shutdown_call destination shut_wr r → RelayCall source destination e
  ends_source : (r : Bool) → e ≡ shutdown_call source shut_rdwr r → RelayCall source destination e
  ends_destination :
      (r : Bool) → e ≡ shutdown_call destination shut_rdwr r → RelayCall source destination e

-- A relay thread, and where the worker stands in `Run`.
pub data Relay : Type 0 where
  unborn relaying returned : Relay

pub data Phase : Type 0 where
  created joining joined closed done : Phase

pub record Threads : Type 0 where
  pub session : ForwardSession
  pub phase : Phase
  pub up : Relay
  pub down : Relay
  -- a `Stop` has set the flag and has not shut the sockets down
  pub stop_pending : Bool
  pub trace : Trace

module _ ⦃os : Os⦄ where
  pub data Step (s : Threads) (t : Threads) : Type 0 where
    starts :
        s.phase ≡ created → t ≡ record s { session = start s.session; phase = joining } → Step s t
    spawns_up : s.phase ≡ joining → s.up ≡ unborn → t ≡ record s { up = relaying } → Step s t
    spawns_down : s.phase ≡ joining → s.down ≡ unborn → t ≡ record s { down = relaying } → Step s t
    relays_up :
        (e : Event)
        → s.up ≡ relaying
        → RelayCall s.session.client_socket s.session.upstream_socket e
        → t ≡ record s { trace = e ∷ s.trace }
        → Step s t
    relays_down :
        (e : Event)
        → s.down ≡ relaying
        → RelayCall s.session.upstream_socket s.session.client_socket e
        → t ≡ record s { trace = e ∷ s.trace }
        → Step s t
    returns_up : s.up ≡ relaying → t ≡ record s { up = returned } → Step s t
    returns_down : s.down ≡ relaying → t ≡ record s { down = returned } → Step s t
    joins :
        s.phase ≡ joining
        → s.up ≡ returned
        → s.down ≡ returned
        → t ≡ record s { phase = joined }
        → Step s t
    closes :
        s.phase ≡ joined
        → t ≡ record s {
          session = (close_sockets s.session s.trace).0;
          trace = (close_sockets s.session s.trace).1;
          phase = closed;
        }
        → Step s t
    finishes :
        s.phase ≡ closed
        → t ≡ record s { session = record (s.session) { finished = true }; phase = done }
        → Step s t
    stops :
        s.session.stopping ≡ false
        → t ≡ record s { session = record (s.session) { stopping = true }; stop_pending = true }
        → Step s t
    shuts_down :
        s.stop_pending ≡ true
        → t ≡ record s { trace = (shutdown_sockets s.session s.trace).1; stop_pending = false }
        → Step s t

  pub data Reach (s : Threads) : Threads → Type 0 where
    here : Reach s s
    later : {t u : Threads} → Reach s t → Step t u → Reach s u

-- A session that was just made of two sockets.
abbrev pub initial : ℕ → ℕ → Threads
initial client upstream = record {
  session = make_session (handle client) (handle upstream);
  phase = created;
  up = unborn;
  down = unborn;
  stop_pending = false;
  trace = [];
}
