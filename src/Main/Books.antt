-- ===== src/Main/Books.antt =====
-- The account of the open sockets of all forwarders of `main`.
use port_forward_x.Prelude.{
  ℕ, ◌+◌, ◌≡◌, refl, inl, inr, Bool, true, false, List, [], ◌∷◌, ◌++◌, arith, All, All-append, ◌∙◌,
}
use port_forward_x.System.{Os, Trace}
use port_forward_x.System.Sockets.{is_open, IsPosix}
use port_forward_x.Config.{ForwardConfig}
use port_forward_x.Platform.{ErrorOut}
use port_forward_x.Tcp.Ledger.{AreSettled}
use port_forward_x.Udp.Table.{bit}
use port_forward_x.Forwarder
use port_forward_x.Forwarder.{Impl, Forwarder, make_forwarder, started, impl_start}
use port_forward_x.Forwarder.Threads.{Service, System, ready, start_service}
use port_forward_x.Forwarder.Account.{own}
use port_forward_x.Forwarder.Stages.{IsQuiet, IsStaged}
use port_forward_x.Forwarder.Sound.{IsSound, start-IsSound}
use port_forward_x.Forwarder.Stopped.{new_system, new-IsSound, quiet-own}
use port_forward_x.Main.Threads.{system, among}

-- How many handles of the forwarders are the socket `n`.
abbrev pub owned : ℕ → List Service → ℕ
owned n [] = 0
owned n (s ∷ rest) = own n s.forwarder.impl + owned n rest

abbrev pub IsHealthy : Service → Type 0
IsHealthy s = AreSettled s.forwarder.impl.sessions × IsStaged s.stage s.forwarder

-- The open sockets are those that the forwarders hold, each held once.
pub record AreBooks (t : Trace) (forwarders : List Service) : Type 0 where
  pub counted : (n : ℕ) → bit (is_open n t) ≡ owned n forwarders
  pub healthy : All IsHealthy forwarders

owned-among :
    (n : ℕ) (before : List Service) (f : Service) (after : List Service)
    → owned n (among before f after) ≡ owned n (before ++ after) + own n f.forwarder.impl
owned-among n [] f after = omega arith
owned-among n (x ∷ before) f after = omega (arith, owned-among n before f after)

All-among :
    {P : Service → Type 0} (before : List Service) (f : Service) (after : List Service)
    → All P (among before f after)
    → P f × ((g : Service) → P g → All P (among before g after))
All-among [] f after (h, rest) = (h, λ g k. (k, rest))
All-among (x ∷ before) f after (h, rest) =
    let (found, put) = All-among before f after rest in (found, λ g k. (h, put g k))

-- One forwarder among the others, and back.
pub take_out :
    (t : Trace) (before : List Service) (f : Service) (after : List Service)
    → AreBooks t (among before f after)
    → IsSound (λ n. owned n (before ++ after)) (system f t)
take_out t before f after h =
    let ((settled, staged), put) = All-among before f after h.healthy in
    record {
      account = record {
        counted = λ n. h.counted n ∙ owned-among n before f after;
        settled = settled;
      };
      staged = staged;
    }

pub put_back :
    (t : Trace) (before : List Service) (f : Service) (after : List Service) (s : System)
    → AreBooks t (among before f after)
    → IsSound (λ n. owned n (before ++ after)) s
    → AreBooks s.trace (among before s.service after)
put_back t before f after s h sound =
    let (found, put) = All-among before f after h.healthy in
    record {
      counted = λ n. omega (arith, sound.account.counted n, owned-among n before s.service after);
      healthy = put s.service (sound.account.settled, sound.staged);
    }

pub owned-quiet :
    (n : ℕ) (f : Service) (after : List Service)
    → IsQuiet f.forwarder.impl
    → owned n (f ∷ after) ≡ owned n after
owned-quiet n f after q = omega (arith, quiet-own n f.forwarder.impl q)

append-owned :
    (n : ℕ) (fs : List Service) (f : Service)
    → owned n (fs ++ f ∷ []) ≡ owned n fs + own n f.forwarder.impl
append-owned n [] f = omega arith
append-owned n (x ∷ fs) f = omega (arith, append-owned n fs f)

pub append-AreBooks :
    (fs : List Service) (s : System) (t : Trace)
    → AreBooks t fs
    → IsSound (λ n. owned n fs) s
    → AreBooks s.trace (fs ++ s.service ∷ [])
append-AreBooks fs s t h sound = record {
  counted = λ n. omega (arith, sound.account.counted n, append-owned n fs s.service);
  healthy =
      All-append IsHealthy fs (s.service ∷ []) h.healthy
        ((sound.account.settled, sound.staged), tt);
}

-- A forwarder that is over is quiet, and holds no socket.
pub over-IsQuiet :
    (f : Service)
    → f.stage ≡ ready
    → f.forwarder.running ≡ false
    → IsHealthy f
    → IsQuiet f.forwarder.impl
over-IsQuiet f idle over (settled, staged) = elim (rw idle at staged) [
  | inl (a, b) ↦ cc
  | inr (a, b, q) ↦ q
]

module _ ⦃os : Os⦄ where
  started_failed :
      (f : Forwarder) (r : Bool × (Impl × ErrorOut))
      → (started f r).0 ≡ false
      → (started f r).1.0.running ≡ f.running
  started_failed f (true, (i, error)) failed = cc
  started_failed f (false, (i, error)) failed = refl

  -- A start that fails leaves the forwarder not running.
  pub start_failed :
      (error : ErrorOut) (config : ForwardConfig) (t : Trace)
      → let (r, u) = Forwarder.start error (make_forwarder config) t in
        r.0 ≡ false → r.1.0.running ≡ false
  unfolding Forwarder.start
  start_failed error config t =
      let f = make_forwarder config in let (r, u) = impl_start error f.impl t in started_failed f r

  -- What the start of a new forwarder keeps of the account.
  pub start_new :
      IsPosix os
      → (fs : List Service) (error : ErrorOut) (config : ForwardConfig) (t : Trace) → AreBooks t fs
      → IsSound (λ n. owned n fs) (start_service error (new_system config t))
  start_new posix fs error config t h =
      start-IsSound posix (λ n. owned n fs) error (new_system config t) refl
        (new-IsSound (λ n. owned n fs) config t h.counted)
