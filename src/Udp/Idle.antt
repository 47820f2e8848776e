-- ===== src/Udp/Idle.antt =====
-- Which sessions a cleanup takes out.
use port_forward_x.Prelude.{
  ℕ, ◌+◌, ◌*◌, ◌^◌, ◌<◌, ◌≡◌, refl, ap, not, ◌&&◌, ◌||◌, ◌==◌, leb, Bool, false, [], ◌∷◌, arith,
  keep, All, Text,
}
use port_forward_x.System.{Os, Trace}
use port_forward_x.Udp.{
  UdpSession, UdpState, Sessions, should_close, sweep, cleanup_idle_udp_sessions,
}

-- A session that an unforced cleanup leaves: it is not marked, and there is no time-out or it was active
-- within it.
abbrev pub is_wanted : (now T : ℕ) → UdpSession → Bool
is_wanted now T session =
    not session.marked_for_close && (T == 0 || leb now (session.last_active_ms + T))

stays-is_wanted :
    (now T : ℕ) (session : UdpSession)
    → now < 2 ^ 64
    → session.last_active_ms < 2 ^ 64
    → not (should_close false now T session) ≡ is_wanted now T session
unfolding should_close
stays-is_wanted now T session a b = ground arith

abbrev pub AreTimes : Sessions → Type 0
AreTimes table = All (λ (p : Text × UdpSession). p.1.last_active_ms < 2 ^ 64) table

sweep-is_wanted :
    (now T : ℕ) (table : Sessions)
    → now < 2 ^ 64
    → AreTimes table
    → (sweep false now T table).0 ≡ keep (λ (p : Text × UdpSession). is_wanted now T p.1) table
unfolding sweep
sweep-is_wanted now T [] a b = refl
sweep-is_wanted now T ((key, session) ∷ rest) a (b, more) =
    ground (arith, stays-is_wanted now T session a b, sweep-is_wanted now T rest a more)

module _ ⦃os : Os⦄ where
  -- If the clock and the times in the table are below 2 ^ 64: a cleanup that is not forced leaves in the
  -- table exactly the sessions that are not marked and, where there is a time-out, were active within it;
  -- these stay as they are, in their order. The rest of the state does not change.
  pub cleanup-keep :
      (s : UdpState) (t : Trace)
      → os.steady_clock_ms t < 2 ^ 64
      → AreTimes s.udp_sessions
      → let T = s.config.udp_session_idle_timeout_seconds * 1000 in
        (cleanup_idle_udp_sessions false s t).0 ≡ record s {
          udp_sessions = keep (λ p. is_wanted (os.steady_clock_ms t) T p.1) s.udp_sessions;
        }
  unfolding cleanup_idle_udp_sessions
  cleanup-keep s t a b =
      let T = s.config.udp_session_idle_timeout_seconds * 1000 in
      ap (λ table. record s { udp_sessions = table })
        (sweep-is_wanted (os.steady_clock_ms t) T s.udp_sessions a b)
