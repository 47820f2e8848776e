-- ===== src/Forwarder/Sound.antt =====
-- The steps of a forwarder, the account of its sockets and what its stage promises.
use port_forward_x.Prelude.{ℕ, ◌≡◌, refl, ◌∙◌, inl, inr, true, [], ◌∷◌, arith}
use port_forward_x.System.{Os}
use port_forward_x.System.Sockets.{IsPosix}
use port_forward_x.Platform.{ErrorOut}
use port_forward_x.Tcp.{TcpSessions}
use port_forward_x.Tcp.Ledger.{holders, AreSettled}
use port_forward_x.Udp.Cleanup.{cleanup_empties}
use port_forward_x.Forwarder.{all_finished, udp_part, unbind, clean_udp, stop_sessions}
use port_forward_x.Forwarder.Threads.{
  Stage, ready, unbinding, joining, cleaning, stopping_sessions, joining_sessions, System, impl_of,
  begin_stop, ThreadStep, StopStep, start_service, Step, Reach, here, later,
}
use port_forward_x.Forwarder.Threads.ThreadStep.{
  accepts, accepting_ends, serves_client, serving_ends, serves_target, resolves, resolving_ends,
  session_closes, session_finishes,
}
use port_forward_x.Forwarder.Threads.StopStep.{
  begins, unbinds, joins_threads, cleans, stops_sessions, returns,
}
use port_forward_x.Forwarder.Threads.Step.{starts, stops, runs}
use port_forward_x.Forwarder.Account.{
  IsAccount, accept_work-Keeps, accept_end-Keeps, udp_work-Keeps, udp_end-Keeps,
  upstream_work-Keeps, resolver_work-Keeps, unbind-Keeps, clean_udp-Keeps, stop_sessions-Keeps,
  session_close-Keeps, session_finish-Keeps,
}
use port_forward_x.Forwarder.Stages.{
  IsStaged, ThreadStep-kept, ThreadStep-IsIdle, ThreadStep-no_udp, ThreadStep-IsQuiet,
}
use port_forward_x.Forwarder.Started.{start-IsStaged, start-IsAccount}

-- The account and the stage of a forwarder.
pub record IsSound (others : ℕ → ℕ) (s : System) : Type 0 where
  pub account : IsAccount others s.trace (impl_of s)
  pub staged : IsStaged s.service.stage s.service.forwarder

module _ ⦃os : Os⦄ {s t : System} where
  ThreadStep-IsStaged :
      (p : Stage) → ThreadStep s t → IsStaged p s.service.forwarder → IsStaged p t.service.forwarder
  ThreadStep-IsStaged ready step (inl (a, b)) =
      let (stage, running, flag, listen) = ThreadStep-kept step in inl (running ∙ a, flag ∙ b)
  ThreadStep-IsStaged ready step (inr (a, b, q)) =
      let (stage, running, flag, listen) = ThreadStep-kept step in
      inr (running ∙ a, flag ∙ b, ThreadStep-IsQuiet step q)
  ThreadStep-IsStaged unbinding step a =
      let (stage, running, flag, listen) = ThreadStep-kept step in flag ∙ a
  ThreadStep-IsStaged joining step (a, b) =
      let (stage, running, flag, listen) = ThreadStep-kept step in (flag ∙ a, listen ∙ b)
  ThreadStep-IsStaged cleaning step (a, b, i) =
      let (stage, running, flag, listen) = ThreadStep-kept step in
      (flag ∙ a, listen ∙ b, ThreadStep-IsIdle step i)
  ThreadStep-IsStaged stopping_sessions step (a, b, i, none_left) =
      let (stage, running, flag, listen) = ThreadStep-kept step in
      (flag ∙ a, listen ∙ b, ThreadStep-IsIdle step i, ThreadStep-no_udp step i none_left)
  ThreadStep-IsStaged joining_sessions step (a, b, i, none_left) =
      let (stage, running, flag, listen) = ThreadStep-kept step in
      (flag ∙ a, listen ∙ b, ThreadStep-IsIdle step i, ThreadStep-no_udp step i none_left)

  ThreadStep-IsAccount :
      IsPosix os
      → (others : ℕ → ℕ) → ThreadStep s t
      → IsAccount others s.trace (impl_of s)
      → IsAccount others t.trace (impl_of t)
  ThreadStep-IsAccount posix others (accepts alive e) a =
      rw e (accept_work-Keeps others (impl_of s) posix s.trace a)
  ThreadStep-IsAccount posix others (accepting_ends alive over e) a =
      rw e (accept_end-Keeps others (impl_of s) s.trace a)
  ThreadStep-IsAccount posix others (serves_client alive e) a =
      rw e (udp_work-Keeps others (impl_of s) posix s.trace a)
  ThreadStep-IsAccount posix others (serving_ends alive over e) a =
      rw e (udp_end-Keeps others (impl_of s) s.trace a)
  ThreadStep-IsAccount posix others (serves_target key session found e) a =
      rw e (upstream_work-Keeps others (impl_of s) posix key session found s.trace a)
  ThreadStep-IsAccount posix others (resolves alive e) a =
      rw e (resolver_work-Keeps others (impl_of s) s.trace a)
  ThreadStep-IsAccount posix others (resolving_ends alive over e) a =
      rw e (record { counted = a.counted; settled = a.settled })
  ThreadStep-IsAccount posix others (session_closes before id session after place going e) a =
      rw e
        (session_close-Keeps others (impl_of s) posix before id session after place going s.trace a)
  ThreadStep-IsAccount posix others (session_finishes before id session after place ec eu e) a =
      rw e (
        session_finish-Keeps others (impl_of s) posix before id session after place ec eu s.trace a)

  pub ThreadStep-IsSound :
      IsPosix os → (others : ℕ → ℕ) → ThreadStep s t → IsSound others s → IsSound others t
  ThreadStep-IsSound posix others step h =
      let (stage, running, flag, listen) = ThreadStep-kept step in
      record {
        account = ThreadStep-IsAccount posix others step h.account;
        staged = rw stage (ThreadStep-IsStaged s.service.stage step h.staged);
      }

begin_stop-IsSound :
    (others : ℕ → ℕ) (s : System)
    → s.service.stage ≡ ready
    → IsSound others s
    → IsSound others (record s { service = begin_stop s.service })
begin_stop-IsSound others s idle h = elim (rw idle at h.staged) [
  | inl (a, b) ↦
      simp (a, b)
        (record {
          account = record { counted = h.account.counted; settled = h.account.settled };
          staged = refl;
        })
  | inr (a, b, q) ↦ simp a h
]

-- Sessions that are all finished hold no socket.
finished-holders :
    (n : ℕ) (table : TcpSessions)
    → all_finished table ≡ true
    → AreSettled table
    → holders n table ≡ 0
finished-holders n [] all settled = refl
finished-holders n ((id, session) ∷ rest) all (inl going, more) = ground (arith, going)
finished-holders n ((id, session) ∷ rest) all (inr (ec, eu), more) =
    ground (arith, ec, eu, finished-holders n rest)

module _ ⦃os : Os⦄ {s t : System} where
  pub StopStep-IsSound : (others : ℕ → ℕ) → StopStep s t → IsSound others s → IsSound others t
  unfolding unbind clean_udp stop_sessions
  StopStep-IsSound others (begins stage e) h = rw e (begin_stop-IsSound others s stage h)
  StopStep-IsSound others (unbinds stage e) h =
      let flag = rw stage at h.staged in
      rw e (record {
        account = unbind-Keeps others (impl_of s) s.trace h.account;
        staged = (flag, refl);
      })
  StopStep-IsSound others (joins_threads stage a u r e) h =
      let (flag, listen) = rw stage at h.staged in
      rw e (record {
        account = h.account;
        staged = (flag, listen, record { no_accept = a; no_udp = u; no_resolver = r });
      })
  StopStep-IsSound others (cleans stage e) h =
      let (flag, listen, idle) = rw stage at h.staged in
      rw e (record {
        account = clean_udp-Keeps others (impl_of s) s.trace h.account;
        staged = (
          flag,
          listen,
          record {
            no_accept = idle.no_accept;
            no_udp = idle.no_udp;
            no_resolver = idle.no_resolver;
          },
          cleanup_empties (udp_part (impl_of s)) s.trace,
        );
      })
  StopStep-IsSound others (stops_sessions stage e) h =
      let (flag, listen, idle, none_left) = rw stage at h.staged in
      rw e (record {
        account = stop_sessions-Keeps others (impl_of s) s.trace h.account;
        staged = (
          flag,
          listen,
          record {
            no_accept = idle.no_accept;
            no_udp = idle.no_udp;
            no_resolver = idle.no_resolver;
          },
          none_left,
        );
      })
  StopStep-IsSound others (returns stage all e) h =
      let (flag, listen, idle, none_left) = rw stage at h.staged in
      rw e (record {
        account = record {
          counted = λ n. omega (
            arith,
            h.account.counted n,
            finished-holders n (impl_of s).sessions all h.account.settled,
          );
          settled = tt;
        };
        staged = inr (
          refl,
          flag,
          record {
            idle = record {
              no_accept = idle.no_accept;
              no_udp = idle.no_udp;
              no_resolver = idle.no_resolver;
            };
            no_socket = listen;
            no_sessions = refl;
            no_udp_sessions = none_left;
          },
        );
      })

module _ ⦃os : Os⦄ where
  pub start-IsSound :
      IsPosix os
      → (others : ℕ → ℕ) (error : ErrorOut) (s : System) → s.service.stage ≡ ready
      → IsSound others s
      → IsSound others (start_service error s)
  start-IsSound posix others error s idle h =
      let staged = rw idle at h.staged in
      let f = s.service.forwarder in
      record {
        account = start-IsAccount posix others error f s.trace staged h.account;
        staged = rw idle (start-IsStaged error f s.trace staged);
      }

module _ ⦃os : Os⦄ (posix : IsPosix os) (others : ℕ → ℕ) where
  Step-IsSound : {s t : System} → Step s t → IsSound others s → IsSound others t
  Step-IsSound (starts error stage e) h = rw e (start-IsSound posix others error _ stage h)
  Step-IsSound (stops step) h = StopStep-IsSound others step h
  Step-IsSound (runs step) h = ThreadStep-IsSound posix others step h

  pub Reach-IsSound : {s t : System} → IsSound others s → Reach s t → IsSound others t
  Reach-IsSound h here = h
  Reach-IsSound h (later r step) = Step-IsSound step (Reach-IsSound h r)
