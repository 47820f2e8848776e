-- ===== src/Forwarder/Contract.antt =====
-- The contract of the class `Forwarder`: what a caller of `Start` and `Stop` sees of it, whatever the
-- threads do.
use port_forward_x.Prelude.{ℕ, ◌≡◌, inl, inr, Bool, true, false, List, [], ◌∷◌, Bool-cases}
use port_forward_x.Config.{ForwardConfig}
use port_forward_x.System.{Os, Trace}
use port_forward_x.System.Sockets.{is_open, IsPosix}
use port_forward_x.Platform.{ErrorOut}
use port_forward_x.Udp.Table.{bit}
use port_forward_x.Forwarder.{Impl, Forwarder, start, started, impl_start}
use port_forward_x.Forwarder.Threads.{
  Stage, ready, Service, System, begin_stop, StopStep, Step, Reach,
}
use port_forward_x.Forwarder.Threads.StopStep.{
  begins, unbinds, joins_threads, cleans, stops_sessions, returns,
}
use port_forward_x.Forwarder.Threads.Step.{starts, stops, runs}
use port_forward_x.Forwarder.Stages.{IsStaged, ThreadStep-kept}
use port_forward_x.Forwarder.Sound.{IsSound, Reach-IsSound}
use port_forward_x.Forwarder.Stopped.{new_system, new-IsSound}

pub data Status : Type 0 where
  idle serving stopping : Status

-- What a caller sees of a step: `Start` returned this value; `Stop` was called; it returned after it had
-- something to stop; or nothing.
pub data Label : Type 0 where
  start_returned : Bool → Label
  stop_called stop_returned internal : Label

-- The contract. `Start` may fail, and always returns false while the forwarder serves. Only `Stop` ends
-- the service, and it does so before the next start.
pub data Move : Label → Status → Status → Type 0 where
  succeeds : Move (start_returned true) idle serving
  fails : Move (start_returned false) idle idle
  refuses : Move (start_returned false) serving serving
  does_nothing : Move stop_called idle idle
  ends_service : Move stop_called serving stopping
  is_idle_again : Move stop_returned stopping idle
  is_unseen : (p : Status) → Move internal p p

-- A history of the contract, the latest label first.
pub data Run (p : Status) : List Label → Status → Type 0 where
  unmoved : Run p [] p
  moved :
      {labels : List Label} {q r : Status} {label : Label}
      → Run p labels q
      → Move label q r
      → Run p (label ∷ labels) r

-- What a forwarder is to its caller.
abbrev pub status_at : Stage → Bool → Status
status_at ready true = serving
status_at ready false = idle
status_at _ _ = stopping

abbrev pub status : System → Status
status s = status_at s.service.stage s.service.forwarder.running

module _ ⦃os : Os⦄ where
  abbrev pub stop_label : {s t : System} → StopStep s t → Label
  stop_label (begins stage e) = stop_called
  stop_label (returns stage all e) = stop_returned
  stop_label _ = internal

  abbrev pub label : {s t : System} → Step s t → Label
  label {s} (starts error stage e) = start_returned (start error s.service.forwarder s.trace).0.0
  label (stops step) = stop_label step
  label (runs step) = internal

  abbrev pub labels : {s t : System} → Reach s t → List Label
  labels Reach.here = []
  labels (Reach.later r step) = label step ∷ labels r

  started_moves :
      (f : Forwarder) (r : Bool × (Impl × ErrorOut))
      → f.running ≡ false
      → Move (start_returned (started f r).0) idle (status_at ready (started f r).1.0.running)
  started_moves f (true, (i, error)) rest = succeeds
  started_moves f (false, (i, error)) rest = rw rest fails

  start_moves :
      (error : ErrorOut) (f : Forwarder) (t : Trace)
      → let r = (start error f t).0 in
        Move (start_returned r.0) (status_at ready f.running) (status_at ready r.1.0.running)
  unfolding start
  start_moves error f t = elim (Bool-cases f.running) [
    | inl e ↦ simp e refuses
    | inr e ↦ simp e (started_moves f (impl_start error f.impl t).0 e)
  ]

  begin_moves :
      (s : Service)
      → s.stage ≡ ready
      → IsStaged ready s.forwarder
      → let t = begin_stop s in
        Move stop_called
          (status_at s.stage s.forwarder.running)
          (status_at t.stage t.forwarder.running)
  begin_moves s stage (inl (a, b)) = simp (a, b, stage) ends_service
  begin_moves s stage (inr (a, b, q)) = simp (a, stage) does_nothing

  StopStep-Move :
      {s t : System} (step : StopStep s t)
      → IsStaged s.service.stage s.service.forwarder
      → Move (stop_label step) (status s) (status t)
  StopStep-Move {s} (begins stage e) h = rw e (begin_moves s.service stage (rw stage at h))
  StopStep-Move (unbinds stage e) h = rw (e, stage) (is_unseen stopping)
  StopStep-Move (joins_threads stage a u r e) h = rw (e, stage) (is_unseen stopping)
  StopStep-Move (cleans stage e) h = rw (e, stage) (is_unseen stopping)
  StopStep-Move (stops_sessions stage e) h = rw (e, stage) (is_unseen stopping)
  StopStep-Move (returns stage all e) h = rw (e, stage) is_idle_again

  Step-Move :
      {s t : System} (step : Step s t)
      → IsStaged s.service.stage s.service.forwarder
      → Move (label step) (status s) (status t)
  Step-Move {s} (starts error stage e) h =
      rw (e, stage) (start_moves error s.service.forwarder s.trace)
  Step-Move (stops step) h = StopStep-Move step h
  Step-Move {s} (runs step) h =
      let (stage, running, flag, listen) = ThreadStep-kept step in
      rw (stage, running) (is_unseen (status s))

module _ ⦃os : Os⦄ (posix : IsPosix os) (others : ℕ → ℕ) where
  Reach-Run :
      {s t : System} (r : Reach s t) → IsSound others s → Run (status s) (labels r) (status t)
  Reach-Run Reach.here h = unmoved
  Reach-Run (Reach.later r step) h =
      moved (Reach-Run r h) (Step-Move step (Reach-IsSound posix others h r).staged)

  -- If `socket` and `accept` return only descriptors that are not open: the forwarder refines its
  -- contract. Take a forwarder that was just made, while the others are open, and any interleaving of
  -- its threads with calls of `Start` and `Stop`. What its caller sees, the results of `Start` included,
  -- is a history of the contract from `idle` to the status of the forwarder.
  pub refines_contract :
      (config : ForwardConfig) (t : Trace) {s : System}
      → ((n : ℕ) → bit (is_open n t) ≡ others n)
      → (r : Reach (new_system config t) s) → Run idle (labels r) (status s)
  refines_contract config t before r = Reach-Run r (new-IsSound others config t before)
