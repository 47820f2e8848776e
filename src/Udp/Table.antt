-- ===== src/Udp/Table.antt =====
-- The account of the open sockets: those that the sessions of a table hold, and others.
use port_forward_x.Prelude.{ℕ, ◌+◌, ◌≤◌, ◌≡◌, refl, Bool, true, false, [], ◌∷◌, List, arith}
use port_forward_x.System.{Trace}
use port_forward_x.System.Sockets.{is_open, is_handle}
use port_forward_x.Udp.{UdpSession, Sessions, Reason, sweep}

abbrev pub bit : Bool → ℕ
bit true = 1
bit false = 0

pub bit_le_one : (b : Bool) → bit b ≤ 1
bit_le_one true = omega arith
bit_le_one false = omega arith

-- How many sessions hold the socket `n`.
abbrev pub owners : ℕ → Sessions → ℕ
owners n [] = 0
owners n ((key, session) ∷ rest) = bit (is_handle n session.upstream_socket) + owners n rest

abbrev pub closing_owners : ℕ → List (UdpSession × Reason) → ℕ
closing_owners n [] = 0
closing_owners n ((session, reason) ∷ rest) =
    bit (is_handle n session.upstream_socket) + closing_owners n rest

-- Every open socket is held by one session, or is one of the others, and by no two; every socket
-- that is held is open.
abbrev pub IsLedger : (ℕ → ℕ) → Trace → Sessions → Type 0
IsLedger others t table = (n : ℕ) → bit (is_open n t) ≡ others n + owners n table

pub sweep-owners :
    (n : ℕ) (force_all : Bool) (now idle_timeout_ms : ℕ) (table : Sessions)
    → owners n table
      ≡ owners n (sweep force_all now idle_timeout_ms table).0
        + closing_owners n (sweep force_all now idle_timeout_ms table).1
unfolding sweep
sweep-owners n force_all now T [] = refl
sweep-owners n force_all now T ((key, session) ∷ rest) =
    ground (arith, sweep-owners n force_all now T rest)
