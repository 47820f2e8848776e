-- ===== src/Tcp/Ids.antt =====
-- The numbers of the TCP sessions, and the table of their peers.
use port_forward_x.Prelude.{
  ℕ, ◌+◌, ◌%◌, ◌^◌, ◌≤◌, ◌<◌, ◌≡◌, refl, ap, sym, ◌∙◌, inl, inr, Bool, true, false, List, [], ◌∷◌,
  some, arith, is_empty, Bool-cases, Text, ◌==◌,
}
use port_forward_x.Config.{tcp}
use port_forward_x.System.{Bytes, SocketHandle, invalid_socket, handle, Os, Trace}
use port_forward_x.System.Calls
use port_forward_x.Platform.{ErrorOut}
use port_forward_x.Connect.{connect_to_endpoints}
use port_forward_x.Session.{ForwardSession, is_finished, close_sockets}
use port_forward_x.Tcp.{
  TcpSessions, Peers, TcpState, erase_peer, sweep_finished, cleanup_finished_sessions, open_session,
  client_connected, serve_client, ensure_target, accepted, accept_round,
}
use port_forward_x.Tcp.Threads.{System, at, Step, Reach}

abbrev pub ids : TcpSessions → List ℕ
ids [] = []
ids ((id, session) ∷ rest) = id ∷ ids rest

abbrev pub peer_ids : Peers → List ℕ
peer_ids [] = []
peer_ids ((id, peer) ∷ rest) = id ∷ peer_ids rest

-- The numbers fall, and are below `n`.
abbrev pub AreFalling : ℕ → List ℕ → Type 0
AreFalling n [] = Unit
AreFalling n (id ∷ rest) = (id < n) × AreFalling id rest

-- No two sessions have the same number, none has a number that is still to come, and the table of the
-- peers has the same numbers.
pub record IsRegistered (s : TcpState) : Type 0 where
  pub falling : AreFalling (s.next_session_id + 1) (ids s.sessions)
  pub same_ids : peer_ids s.session_peers ≡ ids s.sessions

AreFalling-wider : (m n : ℕ) (xs : List ℕ) → m ≤ n → AreFalling m xs → AreFalling n xs
AreFalling-wider m n [] le h = tt
AreFalling-wider m n (id ∷ rest) le (lt, h) = (omega (arith, le, lt), h)

-- A peer whose number is above those of the table is passed over.
skip_peer :
    (n id : ℕ) (label : Text) (table : TcpSessions) (peers : Peers)
    → n ≤ id
    → AreFalling n (ids table)
    → let left = sweep_finished table ((id, label) ∷ peers) in
      let right = sweep_finished table peers in
      (left.0 ≡ right.0) × (left.1.0 ≡ (id, label) ∷ right.1.0)
unfolding sweep_finished is_finished
skip_peer n id label [] peers le h = (refl, refl)
skip_peer n id label ((k, session) ∷ rest) peers le (lt, h) = elim (Bool-cases session.finished) [
  | inl done ↦
      let differ : (id == k) ≡ false = ground (arith, le, lt) in
      let (same, more) = skip_peer k id label rest (erase_peer k peers) (omega (arith, le, lt)) h in
      simp (done, differ, same, more) (refl, refl)
  | inr going ↦
      let (same, more) = skip_peer k id label rest peers (omega (arith, le, lt)) h in
      simp (going, same, more) (refl, refl)
]

-- The sweep keeps the numbers of both tables in step.
sweep_in_step :
    (n : ℕ) (table : TcpSessions) (peers : Peers)
    → AreFalling n (ids table)
    → peer_ids peers ≡ ids table
    → let (kept, (peers', finished)) = sweep_finished table peers in
      AreFalling n (ids kept) × (peer_ids peers' ≡ ids kept)
unfolding sweep_finished is_finished
sweep_in_step n [] peers h same = (tt, same)
sweep_in_step n ((k, session) ∷ rest) [] (lt, h) same = cc
sweep_in_step n ((k, session) ∷ rest) ((id, label) ∷ peers) (lt, h) same =
    let (head, tail) = cons_parts same in
    let (falling, same') = sweep_in_step k rest peers h tail in
    elim (Bool-cases session.finished) [
      | inl done ↦
          let this : (id == k) ≡ true = ground (arith, head) in
          simp (done, this)
            (
              AreFalling-wider k n (ids (sweep_finished rest peers).0) (omega (arith, lt)) falling,
              same',
            )
      | inr going ↦
          let (kept, left) = skip_peer k id label rest peers (omega (arith, head)) h in
          simp (going, kept, left) ((lt, falling), cc (head, same'))
    ]
  where
    cons_parts : {a b : ℕ} {xs ys : List ℕ} → a ∷ xs ≡ b ∷ ys → (a ≡ b) × (xs ≡ ys)
    cons_parts e = (cc e, cc e)

ids-at :
    (before : TcpSessions) (id : ℕ) (old new : ForwardSession) (after : TcpSessions)
    → ids (at before id after new) ≡ ids (at before id after old)
ids-at [] id old new after = refl
ids-at ((k, s) ∷ before) id old new after = ap (λ xs. k ∷ xs) (ids-at before id old new after)

cleanup-IsRegistered :
    (s : TcpState) (t : Trace) → IsRegistered s → IsRegistered (cleanup_finished_sessions s t).0
unfolding cleanup_finished_sessions
cleanup-IsRegistered s t h =
    let (falling, same) =
      sweep_in_step (s.next_session_id + 1) s.sessions s.session_peers h.falling h.same_ids in
    record { falling = falling; same_ids = same }

-- What a round does to the numbers: the table stays in order, and at most one number is used.
abbrev IsNext : TcpState → TcpState → Type 0
IsNext s s' = IsRegistered s' × (s'.next_session_id ≤ s.next_session_id + 1)

module _ ⦃os : Os⦄ where
  open_session-IsNext :
      (client upstream : SocketHandle) (peer : Bytes) (s : TcpState) (t : Trace)
      → s.next_session_id + 1 < 2 ^ 64
      → IsRegistered s
      → IsNext s (open_session client upstream peer s t).0
  unfolding open_session
  open_session-IsNext client upstream peer s t small h =
      let next : (s.next_session_id + 1) % 2 ^ 64 ≡ s.next_session_id + 1 = omega (arith, small) in
      (
        record {
          falling = rw next (omega arith, h.falling);
          same_ids = ap (λ xs. (s.next_session_id + 1) % 2 ^ 64 ∷ xs) h.same_ids;
        },
        omega (arith, next),
      )

  client_connected-IsNext :
      (client : SocketHandle) (peer : Bytes) (s : TcpState) (r : Bool × SocketHandle × ErrorOut)
      (t : Trace)
      → s.next_session_id + 1 < 2 ^ 64
      → IsRegistered s
      → IsNext s (client_connected client peer s r t).0
  client_connected-IsNext client peer s (true, upstream, error) t small h =
      open_session-IsNext client upstream peer s t small h
  client_connected-IsNext client peer s (false, upstream, error) t small h = (h, omega arith)

  serve_client-IsNext :
      (client : SocketHandle) (peer : Bytes) (s : TcpState) (t : Trace)
      → s.next_session_id + 1 < 2 ^ 64
      → IsRegistered s
      → IsNext s (serve_client client peer s t).0
  unfolding serve_client
  serve_client-IsNext client peer s t small h = elim (Bool-cases (is_empty s.target_endpoints)) [
    | inl nothing ↦ rw nothing (h, omega arith)
    | inr something ↦
        let (r, u) = connect_to_endpoints s.target_endpoints tcp invalid_socket (some []) t in
        rw something (client_connected-IsNext client peer s r u small h)
  ]

  pub ensure_target-fields :
      (s : TcpState) (t : Trace)
      → let s' = (ensure_target s t).0 in
        (s'.sessions ≡ s.sessions)
        × (s'.session_peers ≡ s.session_peers)
        × (s'.next_session_id ≡ s.next_session_id)
  unfolding ensure_target
  ensure_target-fields s t = elim (Bool-cases (is_empty s.target_endpoints)) [
    | inl nothing ↦ rw nothing (refl, refl, refl)
    | inr something ↦ rw something (refl, refl, refl)
  ]

  accepted-IsNext :
      (s : TcpState) (client : SocketHandle) (peer : Bytes) (t : Trace)
      → s.next_session_id + 1 < 2 ^ 64
      → IsRegistered s
      → IsNext s (accepted s (client, peer) t).0
  accepted-IsNext s invalid_socket peer t small h = (h, omega arith)
  accepted-IsNext s (handle n) peer t small h =
      let (s', u) = ensure_target s t in
      let (sessions, peers, next) = ensure_target-fields s t in
      let h' : IsRegistered s' = record {
        falling = rw (sessions, next) h.falling;
        same_ids = ap peer_ids peers ∙ (h.same_ids ∙ ap ids (sym sessions));
      } in
      let (registered, bound) =
        serve_client-IsNext (handle n) peer s' u (omega (arith, small, next)) h' in
      (registered, omega (arith, bound, next))

  accept_round-IsNext :
      (s : TcpState) (t : Trace)
      → s.next_session_id + 1 < 2 ^ 64
      → IsRegistered s
      → IsNext s (accept_round s t).0
  unfolding accept_round cleanup_finished_sessions
  accept_round-IsNext s t small h =
      let (s', u) = cleanup_finished_sessions s t in
      let ((client, peer), v) = Calls.accept s'.listen_socket u in
      accepted-IsNext s' client peer v small (cleanup-IsRegistered s t h)

  -- How many rounds of the accepting thread a run has.
  abbrev pub rounds_of : {s t : System} → Step s t → ℕ
  rounds_of (Step.accepts e) = 1
  rounds_of _ = 0

  abbrev pub rounds : {s t : System} → Reach s t → ℕ
  rounds Reach.here = 0
  rounds (Reach.later r step) = rounds r + rounds_of step

  Step-IsNext :
      {s t : System} (step : Step s t)
      → s.state.next_session_id + rounds_of step < 2 ^ 64
      → IsRegistered s.state
      → IsRegistered t.state × (t.state.next_session_id ≤ s.state.next_session_id + rounds_of step)
  Step-IsNext {s} (Step.accepts e) small h = rw e (accept_round-IsNext s.state s.trace small h)
  Step-IsNext {s} (Step.session_closes before id session after place going e) small h =
      let same = ids-at before id session (close_sockets session s.trace).0 after in
      rw e (
        record {
          falling = rw same (rw place at h.falling);
          same_ids = h.same_ids ∙ (ap ids place ∙ sym same);
        },
        omega arith,
      )
  Step-IsNext {s} (Step.session_finishes before id session after place ec eu e) small h =
      let same = ids-at before id session (record session { finished = true }) after in
      rw e (
        record {
          falling = rw same (rw place at h.falling);
          same_ids = h.same_ids ∙ (ap ids place ∙ sym same);
        },
        omega arith,
      )

  Reach-IsNext :
      {s t : System} (r : Reach s t)
      → s.state.next_session_id + rounds r < 2 ^ 64
      → IsRegistered s.state
      → IsRegistered t.state × (t.state.next_session_id ≤ s.state.next_session_id + rounds r)
  Reach-IsNext Reach.here small h = (h, omega arith)
  Reach-IsNext (Reach.later r step) small h =
      let (registered, bound) = Reach-IsNext r (omega (arith, small)) h in
      let (registered', bound') = Step-IsNext step (omega (arith, small, bound)) registered in
      (registered', omega (arith, bound, bound'))

  -- Take a state in which the numbers of the sessions fall along the table, the first is at most the
  -- latest number given, and the table of the peers has exactly these numbers; and any interleaving of
  -- the accepting thread with the ends of the sessions. If the latest number and the count of the rounds
  -- of the accepting thread add up to less than 2 ^ 64, the same holds of the state after it: no two
  -- sessions have the same number, and a new session takes the place of no other.
  pub Reach-IsRegistered :
      {s t : System} (r : Reach s t)
      → s.state.next_session_id + rounds r < 2 ^ 64
      → IsRegistered s.state
      → IsRegistered t.state
  Reach-IsRegistered r small h = (Reach-IsNext r small h).0
