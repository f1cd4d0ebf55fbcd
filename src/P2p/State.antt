-- ===== src/P2p/State.antt =====
-- src/p2p/state.rs: the states of a connection. An `Instant` is a number of nanoseconds, and the
-- time at which it is asked is an argument.
use ruvname.Prelude.{ℕ, ◌-◌, ◌/◌, Bool, true, false, ltb}
use ruvname.Bytes.{Bytes}

-- The field `data` of `Message` is `payload`: a message as serde_cbor writes it.
pub data State : Type 0 where
  connecting : State
  connected : (from : ℕ) → State
  server_handshake : (from : ℕ) → State
  handshake_finished : State
  idle : (from : ℕ) → State
  message : (payload : Bytes) → State
  error : State
  banned : State
  send_loop : State
  loop : State
  twin : State
  offline : (from : ℕ) → State

-- `from.elapsed().as_secs()`
abbrev pub elapsed_secs : (now from : ℕ) → ℕ
elapsed_secs now from = (now - from) / 1000000000

unfoldable pub is_idle : State → Bool
is_idle (State.idle from) = true
is_idle s = false

unfoldable pub is_connecting : State → Bool
is_connecting State.connecting = true
is_connecting s = false

unfoldable pub is_message : State → Bool
is_message (State.message payload) = true
is_message s = false

unfoldable pub is_timed_out : (now : ℕ) → State → Bool
is_timed_out now State.error = true
is_timed_out now State.banned = true
is_timed_out now (State.idle from) = ltb 60 (elapsed_secs now from)
is_timed_out now (State.connected from) = ltb 10 (elapsed_secs now from)
is_timed_out now s = false

unfoldable pub is_loop : State → Bool
is_loop State.loop = true
is_loop State.send_loop = true
is_loop s = false

unfoldable pub disabled : (now : ℕ) → State → Bool
disabled now State.error = true
disabled now State.banned = true
disabled now (State.offline from) = ltb (elapsed_secs now from) 60
disabled now s = false

unfoldable pub need_reconnect : (now : ℕ) → State → Bool
need_reconnect now (State.offline from) = ltb 60 (elapsed_secs now from)
need_reconnect now s = false
