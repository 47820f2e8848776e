-- ===== src/Forwarder/Stages.antt =====
-- What holds of a forwarder at each stage of `Stop`, and when none is going on.
use port_forward_x.Prelude.{ℕ, ◌≡◌, refl, ap, sym, Text, ◌∙◌, ◌⊎◌, true, false, [], ◌∷◌, some}
use port_forward_x.System.{invalid_socket, Os}
use port_forward_x.Session.{ForwardSession}
use port_forward_x.Tcp.{TcpSessions}
use port_forward_x.Tcp.Threads.{at}
use port_forward_x.Udp.{UdpSession, Sessions, find_session}
use port_forward_x.Forwarder.{
  Impl, Forwarder, accept_work, accept_end, udp_work, udp_end, upstream_work, resolver_work,
}
use port_forward_x.Forwarder.Threads.{
  Stage, ready, unbinding, joining, cleaning, System, impl_of, ThreadStep, accepts, accepting_ends,
  serves_client, serving_ends, serves_target, resolves, resolving_ends, session_closes,
  session_finishes, session_close,
}

-- No thread of the forwarder is in its loop.
pub record IsIdle (i : Impl) : Type 0 where
  pub no_accept : i.accept_thread ≡ false
  pub no_udp : i.udp_thread ≡ false
  pub no_resolver : i.resolver_thread ≡ false

-- It has ended, and holds nothing.
pub record IsQuiet (i : Impl) : Type 0 where
  pub idle : IsIdle i
  pub no_socket : i.listener.listen_socket ≡ invalid_socket
  pub no_sessions : i.sessions ≡ []
  pub no_udp_sessions : i.udp_sessions ≡ []

abbrev pub IsStaged : Stage → Forwarder → Type 0
IsStaged ready f =
    ((f.running ≡ true) × (f.impl.listener.running ≡ true))
    ⊎ ((f.running ≡ false) × (f.impl.listener.running ≡ false) × IsQuiet f.impl)
IsStaged unbinding f = f.impl.listener.running ≡ false
IsStaged joining f =
    (f.impl.listener.running ≡ false) × (f.impl.listener.listen_socket ≡ invalid_socket)
IsStaged cleaning f =
    (f.impl.listener.running ≡ false)
    × (f.impl.listener.listen_socket ≡ invalid_socket)
    × IsIdle f.impl
IsStaged _ f =
    (f.impl.listener.running ≡ false)
    × (f.impl.listener.listen_socket ≡ invalid_socket)
    × IsIdle f.impl
    × (f.impl.udp_sessions ≡ [])

no_place :
    (before : TcpSessions) (id : ℕ) (session : ForwardSession) (after : TcpSessions)
    → [] ≡ at before id after session
    → ⊥
no_place [] id session after e = cc
no_place (x ∷ before) id session after e = cc

nothing_found :
    {table : Sessions} (key : Text) (session : UdpSession)
    → table ≡ []
    → find_session key table ≡ some session
    → ⊥
unfolding find_session
nothing_found key session e found = cc (ap (find_session key) (sym e) ∙ found)

module _ ⦃os : Os⦄ {s t : System} where
  -- A step of a thread leaves the stage, the flags and the listening socket as they are.
  pub ThreadStep-kept :
      ThreadStep s t
      → (t.service.stage ≡ s.service.stage)
        × (t.service.forwarder.running ≡ s.service.forwarder.running)
        × ((impl_of t).listener.running ≡ (impl_of s).listener.running)
        × ((impl_of t).listener.listen_socket ≡ (impl_of s).listener.listen_socket)
  unfolding accept_work accept_end udp_work udp_end upstream_work resolver_work session_close
  ThreadStep-kept (accepts alive e) = rw e (refl, refl, refl, refl)
  ThreadStep-kept (accepting_ends alive over e) = rw e (refl, refl, refl, refl)
  ThreadStep-kept (serves_client alive e) = rw e (refl, refl, refl, refl)
  ThreadStep-kept (serving_ends alive over e) = rw e (refl, refl, refl, refl)
  ThreadStep-kept (serves_target key session found e) = rw e (refl, refl, refl, refl)
  ThreadStep-kept (resolves alive e) = rw e (refl, refl, refl, refl)
  ThreadStep-kept (resolving_ends alive over e) = rw e (refl, refl, refl, refl)
  ThreadStep-kept (session_closes before id session after place going e) =
      rw e (refl, refl, refl, refl)
  ThreadStep-kept (session_finishes before id session after place ec eu e) =
      rw e (refl, refl, refl, refl)

  -- A thread that has ended does not come back, and an empty table stays empty.
  pub ThreadStep-IsIdle : ThreadStep s t → IsIdle (impl_of s) → IsIdle (impl_of t)
  unfolding accept_work accept_end udp_work udp_end upstream_work resolver_work session_close
  ThreadStep-IsIdle (accepts alive e) h = cc h.no_accept
  ThreadStep-IsIdle (accepting_ends alive over e) h = cc
  ThreadStep-IsIdle (serves_client alive e) h = cc
  ThreadStep-IsIdle (serving_ends alive over e) h = cc
  ThreadStep-IsIdle (serves_target key session found e) h =
      rw e (record { no_accept = h.no_accept; no_udp = h.no_udp; no_resolver = h.no_resolver })
  ThreadStep-IsIdle (resolves alive e) h = cc
  ThreadStep-IsIdle (resolving_ends alive over e) h = cc
  ThreadStep-IsIdle (session_closes before id session after place going e) h =
      rw e (record { no_accept = h.no_accept; no_udp = h.no_udp; no_resolver = h.no_resolver })
  ThreadStep-IsIdle (session_finishes before id session after place ec eu e) h =
      rw e (record { no_accept = h.no_accept; no_udp = h.no_udp; no_resolver = h.no_resolver })

  pub ThreadStep-no_udp :
      ThreadStep s t
      → IsIdle (impl_of s)
      → (impl_of s).udp_sessions ≡ []
      → (impl_of t).udp_sessions ≡ []
  unfolding accept_work accept_end udp_work udp_end upstream_work resolver_work session_close
      find_session
  ThreadStep-no_udp (accepts alive e) h none_left = rw e none_left
  ThreadStep-no_udp (accepting_ends alive over e) h none_left = rw e none_left
  ThreadStep-no_udp (serves_client alive e) h none_left = cc h.no_udp
  ThreadStep-no_udp (serving_ends alive over e) h none_left = cc h.no_udp
  ThreadStep-no_udp (serves_target key session found e) h none_left =
      absurd (nothing_found key session none_left found)
  ThreadStep-no_udp (resolves alive e) h none_left = rw e none_left
  ThreadStep-no_udp (resolving_ends alive over e) h none_left = rw e none_left
  ThreadStep-no_udp (session_closes before id session after place going e) h none_left =
      rw e none_left
  ThreadStep-no_udp (session_finishes before id session after place ec eu e) h none_left =
      rw e none_left

  pub ThreadStep-no_sessions :
      ThreadStep s t → IsIdle (impl_of s) → (impl_of s).sessions ≡ [] → (impl_of t).sessions ≡ []
  unfolding accept_work accept_end udp_work udp_end upstream_work resolver_work session_close
  ThreadStep-no_sessions (accepts alive e) h none_left = cc h.no_accept
  ThreadStep-no_sessions (accepting_ends alive over e) h none_left = cc h.no_accept
  ThreadStep-no_sessions (serves_client alive e) h none_left = rw e none_left
  ThreadStep-no_sessions (serving_ends alive over e) h none_left = rw e none_left
  ThreadStep-no_sessions (serves_target key session found e) h none_left = rw e none_left
  ThreadStep-no_sessions (resolves alive e) h none_left = rw e none_left
  ThreadStep-no_sessions (resolving_ends alive over e) h none_left = rw e none_left
  ThreadStep-no_sessions (session_closes before id session after place going e) h none_left =
      absurd (no_place before id session after (sym none_left ∙ place))
  ThreadStep-no_sessions (session_finishes before id session after place ec eu e) h none_left =
      absurd (no_place before id session after (sym none_left ∙ place))

  pub ThreadStep-IsQuiet : ThreadStep s t → IsQuiet (impl_of s) → IsQuiet (impl_of t)
  ThreadStep-IsQuiet step q =
      let (stage, running, flag, listen) = ThreadStep-kept step in
      record {
        idle = ThreadStep-IsIdle step q.idle;
        no_socket = listen ∙ q.no_socket;
        no_sessions = ThreadStep-no_sessions step q.idle q.no_sessions;
        no_udp_sessions = ThreadStep-no_udp step q.idle q.no_udp_sessions;
      }

  -- A forwarder that is quiet has no thread that could make a step.
  pub quiet_rests : ThreadStep s t → IsQuiet (impl_of s) → ⊥
  quiet_rests (accepts alive e) q = cc q.idle.no_accept
  quiet_rests (accepting_ends alive over e) q = cc q.idle.no_accept
  quiet_rests (serves_client alive e) q = cc q.idle.no_udp
  quiet_rests (serving_ends alive over e) q = cc q.idle.no_udp
  quiet_rests (serves_target key session found e) q =
      nothing_found key session q.no_udp_sessions found
  quiet_rests (resolves alive e) q = cc q.idle.no_resolver
  quiet_rests (resolving_ends alive over e) q = cc q.idle.no_resolver
  quiet_rests (session_closes before id session after place going e) q =
      no_place before id session after (sym q.no_sessions ∙ place)
  quiet_rests (session_finishes before id session after place ec eu e) q =
      no_place before id session after (sym q.no_sessions ∙ place)
