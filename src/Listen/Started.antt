-- ===== src/Listen/Started.antt =====
-- What `Impl::Start` promises of its result and of the error.
use port_forward_x.Prelude.{
  ◌≡◌, refl, ap, ◌∙◌, Option, Bool, true, false, ◌⊎◌, inl, inr, List, [], ◌∷◌, some, none,
  if◌then◌else◌, Bool-cases, is_empty, Text, codes,
}
use port_forward_x.Config.{ForwardConfig, AddressFamilyPreference}
use port_forward_x.Config.Families.{effective_listen_family}
use port_forward_x.System.{Bytes, NativeFamily, af_inet, af_inet6, af_unspec, af_other, Os, Trace}
use port_forward_x.Platform.{ErrorOut, ensure_socket_api_initialized}
use port_forward_x.Endpoint.{ResolvedEndpoint, sort_endpoints}
use port_forward_x.Resolver.{resolve}
use port_forward_x.Resolver.Results.{resolve-Reports, Reports}
use port_forward_x.Targets.{Resolved, resolve_target_endpoints}
use port_forward_x.Targets.Kept.{resolve_target_endpoints-Keeps, Keeps}
use port_forward_x.Listen.{
  Listener, listen_loop, try_listen, with_family, with_address, start_on, start_resolved, start,
  write_if_empty,
}

-- Success with the listener running and target endpoints, or failure with the listener not running
-- and an error that is not empty.
abbrev pub Starts : Bool × (Listener × ErrorOut) → Type 0
Starts (started, (l, error)) =
    ((started ≡ true) × (l.running ≡ true) × (is_empty l.target_endpoints ≡ false))
    ⊎ ((started ≡ false)
        × (l.running ≡ false)
        × ((text : Text) × (error ≡ some text) × (is_empty text ≡ false)))

write_if_empty-nonempty :
    (old text : Text)
    → is_empty text ≡ false
    → (final : Text) × (write_if_empty (some old) text ≡ some final) × (is_empty final ≡ false)
write_if_empty-nonempty [] text h = (text, refl, h)
write_if_empty-nonempty (c ∷ old) text h = (c ∷ old, refl, refl)

module _ ⦃os : Os⦄ where
  with_family-targets :
      (f : NativeFamily) (actual : Bytes) (l : Listener)
      → (with_family f actual l).target_endpoints ≡ l.target_endpoints
  with_family-targets af_inet actual l = refl
  with_family-targets af_inet6 actual l = refl
  with_family-targets af_unspec actual l = refl
  with_family-targets (af_other k) actual l = refl

  with_address-targets :
      (actual : Option Bytes) (l : Listener)
      → (with_address actual l).target_endpoints ≡ l.target_endpoints
  with_address-targets none l = refl
  with_address-targets (some actual) l = with_family-targets (os.sa_family actual) actual l

  -- The loop starts the listener, or leaves it as it was.
  abbrev Loops : Listener → Bool × Listener → Type 0
  Loops l (started, l') =
      ((started ≡ true) × (l'.running ≡ true) × (l'.target_endpoints ≡ l.target_endpoints))
      ⊎ ((started ≡ false) × (l' ≡ l))

  listen_loop-Loops :
      (config : ForwardConfig) (family : AddressFamilyPreference) (es : List ResolvedEndpoint)
      (l : Listener) (t : Trace)
      → Loops l (listen_loop config family es l t).0
  unfolding listen_loop
  listen_loop-Loops config family [] l t = inr (refl, refl)
  listen_loop-Loops config family (e ∷ es) l t =
      let (attempt, u) = try_listen config family e t in
      elim (Bool-cases attempt.0) [
        | inl done ↦
            simp done (inl (refl, refl, with_address-targets (os.getsockname attempt.1 u) l))
        | inr more ↦ simp more (listen_loop-Loops config family es l u)
      ]

  finish-Starts :
      (old text : Text) (l : Listener) (r : Bool × Listener)
      → Loops l r
      → l.running ≡ false
      → is_empty l.target_endpoints ≡ false
      → is_empty text ≡ false
      → Starts (r.0, (r.1, if r.0 then some old else write_if_empty (some old) text))
  finish-Starts old text l (true, l') (inl (started, running, same)) idle known h =
      inl (refl, running, ap is_empty same ∙ known)
  finish-Starts old text l (true, l') (inr (failed, same)) idle known h = cc
  finish-Starts old text l (false, l') (inl (started, running, same)) idle known h = cc
  finish-Starts old text l (false, l') (inr (failed, same)) idle known h =
      inr (refl, ap (λ (x : Listener). x.running) same ∙ idle, write_if_empty-nonempty old text h)

  start_on-Starts :
      (config : ForwardConfig) (es : List ResolvedEndpoint) (old : Text) (l : Listener) (t : Trace)
      → l.running ≡ false
      → is_empty l.target_endpoints ≡ false
      → Starts (start_on config es (some old) l t).0
  unfolding start_on codes
  start_on-Starts config [] old l t idle known =
      inr (refl, idle, write_if_empty-nonempty old _ refl)
  start_on-Starts config (e ∷ es) old l t idle known =
      let family = effective_listen_family config in
      finish-Starts old _ l (listen_loop config family (e ∷ es) l t).0
        (listen_loop-Loops config family (e ∷ es) l t) idle known refl

  answered-Starts :
      (config : ForwardConfig) (answer : List ResolvedEndpoint × ErrorOut) (old : Text)
      (l : Listener) (t : Trace)
      → Reports old answer
      → l.running ≡ false
      → is_empty l.target_endpoints ≡ false
      → Starts
          (start_on config
            (sort_endpoints answer.0 (effective_listen_family config))
            answer.1
            l
            t).0
  answered-Starts config (es, error) old l t (inl (some_found, same)) idle known =
      rw same (start_on-Starts config _ old l t idle known)
  answered-Starts config (es, error) old l t (inr (nothing, (message, written, text))) idle known =
      rw written (start_on-Starts config _ message l t idle known)

  start_resolved-Starts :
      (config : ForwardConfig) (r : Resolved) (old : Text) (l : Listener) (t : Trace)
      → Keeps l.target_endpoints (some old) r
      → l.running ≡ false
      → Starts (start_resolved config r l t).0
  unfolding start_resolved
  start_resolved-Starts config r old l t (inl (ok, known, same)) idle =
      let family = effective_listen_family config in
      let (answer, u) =
        resolve config.listen_host config.listen_port config.protocol family true (some old) t in
      simp (ok, same)
        (answered-Starts config answer old (record l { target_endpoints = r.target_endpoints }) u
          (resolve-Reports config.listen_host config.listen_port config.protocol family true old t)
          idle known)
  start_resolved-Starts config r old l t (inr (failed, kept, (text, written, nonempty))) idle =
      simp failed (inr (refl, idle, (text, written, nonempty)))

  -- Of a call with a place for the error, on a listener that is not running: either `start` reports
  -- success, and the listener is running and has target endpoints; or it reports failure, and the
  -- listener is not running and a text that is not empty is in the place for the error.
  pub start-Starts :
      (config : ForwardConfig) (old : Text) (l : Listener) (t : Trace)
      → l.running ≡ false
      → Starts (start config (some old) l t).0
  unfolding start ensure_socket_api_initialized
  start-Starts config old l t idle =
      let (r, u) = resolve_target_endpoints config l.target_endpoints (some old) t in
      start_resolved-Starts config r old l u
        (resolve_target_endpoints-Keeps config l.target_endpoints (some old) t) idle
