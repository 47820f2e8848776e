-- ===== src/Forwarder/Stopped.antt =====
-- What a forwarder that does not run still holds.
use port_forward_x.Prelude.{ℕ, ◌≡◌, refl, inl, inr, false, arith}
use port_forward_x.System.{Os, Trace}
use port_forward_x.System.Sockets.{is_open, IsPosix}
use port_forward_x.Udp.Table.{bit}
use port_forward_x.Config.{ForwardConfig}
use port_forward_x.Forwarder.{Impl, make_forwarder}
use port_forward_x.Forwarder.Threads.{ready, System, impl_of, Reach}
use port_forward_x.Forwarder.Account.{own, IsAccount}
use port_forward_x.Forwarder.Stages.{IsQuiet}
use port_forward_x.Forwarder.Sound.{IsSound, Reach-IsSound}

-- A forwarder that was just made.
abbrev pub new_system : ForwardConfig → Trace → System
new_system config t = record {
  service = record { forwarder = make_forwarder config; stage = ready };
  trace = t;
}

pub new-IsSound :
    (others : ℕ → ℕ) (config : ForwardConfig) (t : Trace)
    → ((n : ℕ) → bit (is_open n t) ≡ others n)
    → IsSound others (new_system config t)
new-IsSound others config t before = record {
  account = record { counted = λ n. omega (arith, before n); settled = tt };
  staged = inr (
    refl,
    refl,
    record {
      idle = record { no_accept = refl; no_udp = refl; no_resolver = refl };
      no_socket = refl;
      no_sessions = refl;
      no_udp_sessions = refl;
    },
  );
}

pub quiet-own : (n : ℕ) (i : Impl) → IsQuiet i → own n i ≡ 0
quiet-own n i q = simp (q.no_socket, q.no_sessions, q.no_udp_sessions) refl

quiet-counted :
    (others : ℕ → ℕ) (s : System)
    → IsAccount others s.trace (impl_of s)
    → IsQuiet (impl_of s)
    → (n : ℕ) → bit (is_open n s.trace) ≡ others n
quiet-counted others s a q n = omega (arith, a.counted n, quiet-own n (impl_of s) q)

module _ ⦃os : Os⦄ (posix : IsPosix os) (others : ℕ → ℕ) where
  -- If `socket` and `accept` return only descriptors that are not open: take a forwarder that was just
  -- made, while the others are open, and any interleaving of its threads with calls of `Start` and
  -- `Stop`. Whenever no call is going on and it does not run, none of its loops goes on, it has no
  -- listening socket and no sessions, and the open sockets are the others. So neither a start that
  -- failed nor a stop leaves a socket or a thread.
  pub stopped_holds_nothing :
      (config : ForwardConfig) (t : Trace) {s : System}
      → ((n : ℕ) → bit (is_open n t) ≡ others n)
      → Reach (new_system config t) s
      → s.service.stage ≡ ready
      → s.service.forwarder.running ≡ false
      → IsQuiet (impl_of s) × ((n : ℕ) → bit (is_open n s.trace) ≡ others n)
  stopped_holds_nothing config t {s} before r idle over =
      let h = Reach-IsSound posix others (new-IsSound others config t before) r in
      elim (rw idle at h.staged) [
        | inl (a, b) ↦ cc
        | inr (a, b, q) ↦ (q, quiet-counted others s h.account q)
      ]
