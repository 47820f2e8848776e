-- ===== src/Relay.antt =====
-- src/net/forward_session.cpp: `SendAll` and `RelayOneDirection`. The loop of `SendAll` makes at
-- most one round for each byte, so that its fuel is the number of bytes plus one. The loop of
-- `RelayOneDirection` runs as long as its source sends, on fuel that the caller chooses.
pub mod Streams
pub mod SendAll
pub mod Delivery
pub mod Progress
use port_forward_x.Prelude.{
  ℕ, zero, suc, ◌+◌, ◌*◌, Bool, true, false, [], ◌∷◌, Option, none, some, ltb, if◌then◌else◌,
  length, drop, is_nonpos, to_size,
}
use port_forward_x.System.{Bytes, SocketHandle, Os, Sys}
use port_forward_x.System.Calls.{◌>>=◌, ◌>>◌, pure}
use port_forward_x.Platform.{recv, send, shutdown_write, shutdown_both}

-- The size of the array into which `RelayOneDirection` receives.
abbrev pub relay_buffer_size : ℕ
relay_buffer_size = 16 * 1024

-- The `return` by which `RelayOneDirection` ends.
pub data RelayEnd : Type 0 where
  end_of_stream receive_failed send_failed : RelayEnd

module _ ⦃os : Os⦄ where
  -- The loop of `SendAll`; `none` means that the fuel ran out.
  send_loop : ℕ → SocketHandle → Bytes → ℕ → Sys (Option Bool)
  send_loop zero destination bytes sent = pure none
  send_loop (suc fuel) destination bytes sent =
      if ltb sent (length bytes)
      then (do
        chunk ← send destination (drop sent bytes)
        if is_nonpos chunk
            then pure (some false)
            else send_loop fuel destination bytes (sent + to_size chunk))
      else pure (some true)

  unfoldable pub send_all : SocketHandle → Bytes → Sys (Option Bool)
  unfolding send_loop
  send_all destination bytes = send_loop (length bytes + 1) destination bytes 0

  -- The end of the body of the loop of `RelayOneDirection`, after `SendAll`.
  unfoldable pub relay_sent : SocketHandle → SocketHandle → Option Bool → Sys (Option RelayEnd)
  unfolding shutdown_both
  relay_sent source destination (some true) = pure none
  relay_sent source destination _ = do
    shutdown_both source
    shutdown_both destination
    pure (some send_failed)

  -- The body of the loop of `RelayOneDirection`, after `Recv`: `none` to go on, or how it ends.
  unfoldable pub relay_received : SocketHandle → SocketHandle → Option Bytes → Sys (Option RelayEnd)
  unfolding send_all relay_sent shutdown_write shutdown_both
  relay_received source destination none = do shutdown_both destination; pure (some receive_failed)
  relay_received source destination (some []) = do
    shutdown_write destination
    pure (some end_of_stream)
  relay_received source destination (some (b ∷ bytes)) =
      send_all destination (b ∷ bytes) >>= relay_sent source destination

  unfoldable pub relay_one_direction : ℕ → SocketHandle → SocketHandle → Sys (Option RelayEnd)
  relay_one_direction zero source destination = pure none
  relay_one_direction (suc fuel) source destination = do
    received ← recv source relay_buffer_size
    ended ← relay_received source destination received
    elim ended [
      | some reason ↦ pure (some reason)
      | none ↦ relay_one_direction fuel source destination
    ]
