-- ===== src/Forwarder/Started.antt =====
-- `Forwarder::Start`, the account of the sockets and the stage.
use port_forward_x.Prelude.{
  ℕ, ◌+◌, ◌&&◌, if◌then◌else◌, arith, Bool-cases, ◌≡◌, refl, ap, ◌∙◌, inl, inr, Bool, true, false,
}
use port_forward_x.System.{invalid_socket, Os, Trace}
use port_forward_x.System.Sockets.{is_open, is_handle, IsPosix}
use port_forward_x.Platform.{ErrorOut}
use port_forward_x.Listen
use port_forward_x.Listen.{Listener}
use port_forward_x.Listen.Kept.{start-IsKept, IsKept}
use port_forward_x.Listen.Fresh.{start_fresh}
use port_forward_x.Listen.Sockets.{start_sockets}
use port_forward_x.Endpoint.{now_monotonic_ms}
use port_forward_x.Config.{TransportProtocol, tcp, udp}
use port_forward_x.Tcp.Ledger.{holders}
use port_forward_x.Udp.Table.{bit, owners}
use port_forward_x.Forwarder.{
  Impl, Forwarder, start, started, impl_start, impl_started, start_threads,
}
use port_forward_x.Forwarder.Threads.{ready}
use port_forward_x.Forwarder.Account.{IsAccount, Keeps}
use port_forward_x.Forwarder.Stages.{IsQuiet, IsStaged}

module _ ⦃os : Os⦄ where
  start_threads-Keeps :
      (others : ℕ → ℕ) (i : Impl) (protocol : TransportProtocol)
      → Keeps others (start_threads protocol) i
  unfolding now_monotonic_ms
  start_threads-Keeps others i tcp t a = record { counted = a.counted; settled = a.settled }
  start_threads-Keeps others i udp t a = record { counted = a.counted; settled = a.settled }

  -- The account after the listener was started, or not.
  listening-IsAccount :
      (others : ℕ → ℕ) (i : Impl) (t u : Trace) (started : Bool) (l : Listener)
      → i.listener.listen_socket ≡ invalid_socket
      → IsKept i.listener (started, l)
      → ((n : ℕ)
          → is_open n u ≡ (if started && is_handle n l.listen_socket then true else is_open n t))
      → ((n : ℕ) → (started && is_handle n l.listen_socket) ≡ true → is_open n t ≡ false)
      → IsAccount others t i
      → IsAccount others u (record i { listener = l })
  listening-IsAccount others i t u true l idle kept now fresh a = record {
    counted = λ n.
        let before : bit (is_open n t)
            ≡ others n + (0 + (holders n i.sessions + owners n i.udp_sessions)) =
          simp idle at (a.counted n) in
        elim (Bool-cases (is_handle n l.listen_socket)) [
          | inl same ↦ ground (arith, same, now n, fresh n, before)
          | inr other ↦ ground (arith, other, now n, before)
        ];
    settled = a.settled;
  }
  listening-IsAccount others i t u false l idle (inl (e, r)) now fresh a = cc
  listening-IsAccount others i t u false l idle (inr (e, r, same)) now fresh a = record {
    counted = λ n.
        let before : bit (is_open n t)
            ≡ others n
              + (bit (is_handle n i.listener.listen_socket)
                  + (holders n i.sessions + owners n i.udp_sessions)) =
          a.counted n in
        rw same (ap bit (now n) ∙ before);
    settled = a.settled;
  }

  impl_started-IsAccount :
      (others : ℕ → ℕ) (i : Impl) (r : Bool × (Listener × ErrorOut)) (u : Trace)
      → IsAccount others u (record i { listener = r.1.0 })
      → let ((_, (i', _)), v) = impl_started i r u in IsAccount others v i'
  impl_started-IsAccount others i (true, (l, error)) u a =
      start_threads-Keeps others (record i { listener = l }) i.config.protocol u a
  impl_started-IsAccount others i (false, (l, error)) u a = a

  impl_start-IsAccount :
      IsPosix os
      → (others : ℕ → ℕ) (error : ErrorOut) (i : Impl) (t : Trace)
      → i.listener.listen_socket ≡ invalid_socket
      → IsAccount others t i
      → let ((_, (i', _)), u) = impl_start error i t in IsAccount others u i'
  unfolding impl_start
  impl_start-IsAccount posix others error i t idle a =
      let (r, u) = Listen.start i.config error i.listener t in
      impl_started-IsAccount others i r u (
        listening-IsAccount others i t u r.0 r.1.0 idle (start-IsKept i.config error i.listener t)
          (λ n. start_sockets n posix i.config error i.listener t)
          (λ n h. start_fresh n posix i.config error i.listener t h) a)

module _ ⦃os : Os⦄ where
  start_threads-listener :
      (p : TransportProtocol) (i : Impl) (t : Trace) → (start_threads p i t).0.listener ≡ i.listener
  unfolding now_monotonic_ms
  start_threads-listener tcp i t = refl
  start_threads-listener udp i t = refl

  impl_started-IsStaged :
      (f : Forwarder) (r : Bool × (Listener × ErrorOut)) (u : Trace)
      → f.running ≡ false
      → f.impl.listener.running ≡ false
      → IsQuiet f.impl
      → IsKept f.impl.listener (r.0, r.1.0)
      → IsStaged ready (started f (impl_started f.impl r u).0).1.0
  impl_started-IsStaged f (true, (l, error)) u a b q (inl (ok, run)) = inl (
    refl,
    ap (λ (x : Listener). x.running)
          (start_threads-listener f.impl.config.protocol (record (f.impl) { listener = l }) u)
        ∙ run,
  )
  impl_started-IsStaged f (true, (l, error)) u a b q (inr (failed, flag, socket)) = cc
  impl_started-IsStaged f (false, (l, error)) u a b q (inl (ok, run)) = cc
  impl_started-IsStaged f (false, (l, error)) u a b q (inr (failed, flag, socket)) = inr (
    a,
    flag ∙ b,
    record {
      idle = record {
        no_accept = q.idle.no_accept;
        no_udp = q.idle.no_udp;
        no_resolver = q.idle.no_resolver;
      };
      no_socket = socket ∙ q.no_socket;
      no_sessions = q.no_sessions;
      no_udp_sessions = q.no_udp_sessions;
    },
  )

  pub start-IsStaged :
      (error : ErrorOut) (f : Forwarder) (t : Trace)
      → IsStaged ready f
      → IsStaged ready (start error f t).0.1.0
  unfolding start impl_start
  start-IsStaged error f t (inl (a, b)) = simp a (inl (refl, b))
  start-IsStaged error f t (inr (a, b, q)) =
      let (r, u) = Listen.start f.impl.config error f.impl.listener t in
      simp a
        (impl_started-IsStaged f r u a b q (start-IsKept f.impl.config error f.impl.listener t))

  started-IsAccount :
      (others : ℕ → ℕ) (f : Forwarder) (r : Bool × (Impl × ErrorOut)) (u : Trace)
      → IsAccount others u r.1.0
      → IsAccount others u (started f r).1.0.impl
  started-IsAccount others f (true, (i, error)) u a = a
  started-IsAccount others f (false, (i, error)) u a = a

  pub start-IsAccount :
      IsPosix os
      → (others : ℕ → ℕ) (error : ErrorOut) (f : Forwarder) (t : Trace) → IsStaged ready f
      → IsAccount others t f.impl
      → let ((_, (f', _)), u) = start error f t in IsAccount others u f'.impl
  unfolding start
  start-IsAccount posix others error f t (inl (a, b)) acc = simp a acc
  start-IsAccount posix others error f t (inr (a, b, q)) acc =
      let (r, u) = impl_start error f.impl t in
      simp a (
        started-IsAccount others f r u
          (impl_start-IsAccount posix others error f.impl t q.no_socket acc))
