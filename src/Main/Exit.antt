-- ===== src/Main/Exit.antt =====
-- What is left when `main` returns.
use port_forward_x.Prelude.{
  ℕ, zero, suc, Text, ◌≡◌, refl, ◌⊎◌, inl, inr, Bool, true, false, List, [], ◌∷◌, ◌++◌, some, arith,
  All, ap, ◌∙◌,
}
use port_forward_x.Config.{ForwardConfig, TransportProtocol}
use port_forward_x.System.{Os, Trace}
use port_forward_x.System.Sockets.{is_open, IsPosix}
use port_forward_x.Platform.{ErrorOut}
use port_forward_x.Udp.Table.{bit}
use port_forward_x.Forwarder
use port_forward_x.Forwarder.{Forwarder, make_forwarder}
use port_forward_x.Forwarder.Threads.{Service, ready}
use port_forward_x.Forwarder.Stages.{IsQuiet, quiet_rests}
use port_forward_x.Forwarder.Sound.{IsSound, ThreadStep-IsSound, StopStep-IsSound}
use port_forward_x.Version.{Version}
use port_forward_x.Main.CommandLine.{CommandLine, not_parsed, parsed, with_defaults}
use port_forward_x.Main.{Options, Checked, refused, taken, Setup, configure}
use port_forward_x.Main.Run.{
  Phase, starting, waiting, stopping, returned, Program, return_early, prepared, begin,
  add_forwarder, start_forwarder, print_listening, print_banner, leave,
}
use port_forward_x.Main.Threads.{
  among, Step, starts_forwarder, waits, is_signalled, stops, has_stopped, leaves, runs,
  runs_stopped, Reach, here, later,
}
use port_forward_x.Main.Books.{
  owned, AreBooks, take_out, put_back, owned-quiet, append-AreBooks, over-IsQuiet, start_failed,
  start_new,
}

-- What the phase promises: the codes, and that all forwarders are stopped at the end.
abbrev pub IsInPhase : Phase → List Service → Type 0
IsInPhase (starting rest) forwarders = Unit
IsInPhase waiting forwarders = Unit
IsInPhase (stopping code) forwarders = (code ≡ 0) ⊎ (code ≡ 2)
IsInPhase (returned code) forwarders = (forwarders ≡ []) × ((code ≡ 0) ⊎ ((code ≡ 1) ⊎ (code ≡ 2)))

pub record IsGood (p : Program) : Type 0 where
  pub books : AreBooks p.trace p.forwarders
  pub quiet : All (λ s. IsQuiet s.forwarder.impl) p.stopped
  pub phased : IsInPhase p.phase p.forwarders

still-IsInPhase :
    (phase : Phase) (before : List Service) (f g : Service) (after : List Service)
    → IsInPhase phase (among before f after)
    → IsInPhase phase (among before g after)
still-IsInPhase (starting rest) before f g after h = tt
still-IsInPhase waiting before f g after h = tt
still-IsInPhase (stopping code) before f g after h = h
still-IsInPhase (returned code) [] f g after (none_left, codes) = cc
still-IsInPhase (returned code) (x ∷ before) f g after (none_left, codes) = cc

no_stopped_step :
    (before : List Service) (f : Service) (after : List Service)
    → All (λ s. IsQuiet s.forwarder.impl) (among before f after)
    → IsQuiet f.forwarder.impl
no_stopped_step [] f after (q, rest) = q
no_stopped_step (x ∷ before) f after (q, rest) = no_stopped_step before f after rest

same_books :
    (t u : Trace) (forwarders : List Service)
    → ((n : ℕ) → is_open n u ≡ is_open n t)
    → AreBooks t forwarders
    → AreBooks u forwarders
same_books t u forwarders same h = record {
  counted = λ n. ap bit (same n) ∙ h.counted n;
  healthy = h.healthy;
}

is_open-print_listening :
    (n : ℕ) (forwarders : List Service) (t : Trace)
    → is_open n (print_listening forwarders t).1 ≡ is_open n t
unfolding print_listening
is_open-print_listening n [] t = refl
is_open-print_listening n (s ∷ rest) t = is_open-print_listening n rest _

is_open-print_banner :
    (n : ℕ) (run_mode protocol_input : Text) (config : ForwardConfig) (forwarders : List Service)
    (t : Trace)
    → is_open n (print_banner run_mode protocol_input config forwarders t).1 ≡ is_open n t
unfolding print_banner
is_open-print_banner n run_mode protocol_input config forwarders t =
    is_open-print_listening n forwarders _

unset : (b : Bool) → bit b ≡ 0 → b ≡ false
unset true e = cc
unset false e = refl

leave-IsGood :
    (code : ℕ) (p : Program)
    → p.phase ≡ stopping code
    → p.forwarders ≡ []
    → IsGood p
    → IsGood (leave code p)
leave-IsGood zero p phase none_left h = record {
  books = same_books p.trace _ p.forwarders (λ n. refl) h.books;
  quiet = h.quiet;
  phased = (none_left, inl refl);
}
leave-IsGood (suc code) p phase none_left h = record {
  books = h.books;
  quiet = h.quiet;
  phased = (none_left, elim (rw phase at h.phased) [ inl e ↦ cc | inr e ↦ inr (inr e) ]);
}

return_early-IsGood :
    (code : ℕ) (message : Text) (t : Trace)
    → (code ≡ 0) ⊎ ((code ≡ 1) ⊎ (code ≡ 2))
    → ((n : ℕ) → is_open n t ≡ false)
    → IsGood (return_early code message t)
return_early-IsGood code message t known clean = record {
  books = record { counted = λ n. ap bit (clean n); healthy = tt };
  quiet = tt;
  phased = (refl, known);
}

prepared-IsGood :
    (o : Options) (t : Trace) (c : Checked Setup)
    → ((n : ℕ) → is_open n t ≡ false)
    → IsGood (prepared o t c)
prepared-IsGood o t (refused message) clean = return_early-IsGood 1 message t (inr (inl refl)) clean
prepared-IsGood o t (taken setup) clean = record {
  books = record { counted = λ n. ap bit (clean n); healthy = tt };
  quiet = tt;
  phased = tt;
}

pub begin-IsGood :
    (v : Version) (line : CommandLine) (t : Trace)
    → ((n : ℕ) → is_open n t ≡ false)
    → IsGood (begin v line t)
unfolding begin
begin-IsGood v (not_parsed what) t clean = return_early-IsGood 1 _ t (inr (inl refl)) clean
begin-IsGood v (parsed true given) t clean = return_early-IsGood 0 _ t (inl refl) clean
begin-IsGood v (parsed false given) t clean =
    let o = with_defaults given in prepared-IsGood o t (configure o) clean

add_forwarder-IsGood :
    (protocol : TransportProtocol) (rest : List TransportProtocol) (p : Program)
    (r : Bool × (Forwarder × ErrorOut)) (t : Trace)
    → IsGood p
    → (r.0 ≡ false → r.1.0.running ≡ false)
    → IsSound
        (λ n. owned n p.forwarders)
        (record { service = record { forwarder = r.1.0; stage = ready }; trace = t })
    → IsGood (add_forwarder protocol rest p r t)
add_forwarder-IsGood protocol rest p (true, (f, error)) t h over sound = record {
  books = append-AreBooks p.forwarders _ p.trace h.books sound;
  quiet = h.quiet;
  phased = tt;
}
add_forwarder-IsGood protocol rest p (false, (f, error)) t h over sound =
    let s : Service = record { forwarder = f; stage = ready } in
    let q = over-IsQuiet s refl (over refl) (sound.account.settled, sound.staged) in
    record {
      books = record {
        counted = λ n. omega (arith, sound.account.counted n, owned-quiet n s [] q);
        healthy = h.books.healthy;
      };
      quiet = h.quiet;
      phased = inr refl;
    }

module _ ⦃os : Os⦄ (posix : IsPosix os) where
  start_forwarder-IsGood :
      (protocol : TransportProtocol) (rest : List TransportProtocol) (p : Program)
      → IsGood p
      → IsGood (start_forwarder protocol rest p)
  start_forwarder-IsGood protocol rest p h =
      let config = record (p.config) { protocol = protocol } in
      let (r, t) = Forwarder.start (some []) (make_forwarder config) p.trace in
      add_forwarder-IsGood protocol rest p r t h (start_failed (some []) config p.trace)
        (start_new posix p.forwarders (some []) config p.trace h.books)

  pub Step-IsGood : {p q : Program} → Step p q → IsGood p → IsGood q
  Step-IsGood {p} (starts_forwarder protocol rest phase e) h =
      rw e (start_forwarder-IsGood protocol rest p h)
  Step-IsGood {p} (waits phase e) h = rw e (record {
    books =
        same_books p.trace _ p.forwarders
          (λ n. is_open-print_banner n p.run_mode p.protocol_input p.config p.forwarders p.trace)
          h.books;
    quiet = h.quiet;
    phased = tt;
  })
  Step-IsGood (is_signalled phase e) h =
      rw e (record { books = h.books; quiet = h.quiet; phased = inl refl })
  Step-IsGood {p} (stops {s} code f after phase place step e) h =
      let books = rw place at h.books in
      rw e (record {
        books =
            put_back p.trace [] f after s books
              (StopStep-IsSound (λ n. owned n after) step (take_out p.trace [] f after books));
        quiet = h.quiet;
        phased = rw phase (rw phase at h.phased);
      })
  Step-IsGood {p} (has_stopped code f after phase place idle over e) h =
      let books = rw place at h.books in
      let (healthy, rest) = books.healthy in
      let q = over-IsQuiet f idle over healthy in
      rw e (record {
        books = record { counted = λ n. books.counted n ∙ owned-quiet n f after q; healthy = rest };
        quiet = (q, h.quiet);
        phased = rw phase (rw phase at h.phased);
      })
  Step-IsGood {p} (leaves code phase none_left e) h = rw e (leave-IsGood code p phase none_left h)
  Step-IsGood {p} (runs {s} before f after place step e) h =
      let books = rw place at h.books in
      rw e (record {
        books = put_back p.trace before f after s books (
            ThreadStep-IsSound posix (λ n. owned n (before ++ after)) step
              (take_out p.trace before f after books));
        quiet = h.quiet;
        phased = still-IsInPhase p.phase before f s.service after (rw place at h.phased);
      })
  Step-IsGood (runs_stopped before f after place step e) h =
      absurd (quiet_rests step (no_stopped_step before f after (rw place at h.quiet)))

  pub Reach-IsGood : {p q : Program} → IsGood p → Reach p q → IsGood q
  Reach-IsGood h here = h
  Reach-IsGood h (later r step) = Step-IsGood step (Reach-IsGood h r)

  -- If `socket` and `accept` return only descriptors that are not open: take any command line, no
  -- open socket, and any interleaving of `main` with the threads of its forwarders. When `main` has
  -- returned, its code is 0, 1 or 2, no socket is open, and no forwarder has a thread or a session left.
  pub returns_clean :
      (v : Version) (line : CommandLine) (t : Trace) {p : Program} {code : ℕ}
      → ((n : ℕ) → is_open n t ≡ false)
      → Reach (begin v line t) p
      → p.phase ≡ returned code
      → ((code ≡ 0) ⊎ ((code ≡ 1) ⊎ (code ≡ 2)))
        × ((n : ℕ) → is_open n p.trace ≡ false)
        × (p.forwarders ≡ [])
        × All (λ s. IsQuiet s.forwarder.impl) p.stopped
  returns_clean v line t {p} clean r phase =
      let h = Reach-IsGood (begin-IsGood v line t clean) r in
      let (none_left, codes) = rw phase at h.phased in
      (
        codes,
        λ n. unset (is_open n p.trace) (h.books.counted n ∙ ap (owned n) none_left),
        none_left,
        h.quiet,
      )
