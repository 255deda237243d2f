-- ===== src/Discord/Gateway/State.antt =====
-- The state of one connection of internal/discord/gateway.go, behind its hello, and the steps of its
-- goroutines: the loop of `connectAndServe`, `heartbeatLoop`, and the one that hands on its failure. A
-- step is what a goroutine does up to where another can come between. `heard` keeps the envelopes
-- that the loop took, and `sent` the packets that went out, in their order.
use wrapping_bot.Base.{ℕ, Bool, true, false, List, Option}
use wrapping_bot.Base.Bytes.{Bytes}
use wrapping_bot.Base.Int.{ℤ}
use wrapping_bot.Discord.Gateway.{Gateway, GatewayEnvelope, Packet}

-- Where `heartbeatLoop` stands: before its first beat, before a tick, in `sendHeartbeat` before it
-- reads the sequence or before it writes, or at its end. A ticker of no positive interval ends the
-- program.
pub data Heart : Type 0 where
  starting waiting beating : Heart
  writing : Option ℕ → Heart
  stopped panicked : Heart

-- Where `connectAndServe` stands: before it writes the first packet, which resumes a session or opens
-- one, at the `select` of its loop, at `ReadJSON`, or at its end.
pub data Reader : Type 0 where
  greeting_next : Bool → Reader
  selecting reading : Reader
  returned : Bytes → Reader

abbrev pub is_panicked : Heart → Bool
is_panicked panicked = true
is_panicked _ = false

abbrev pub is_reading : Reader → Bool
is_reading reading = true
is_reading _ = false

pub record Link : Type 0 where
  pub gateway : Gateway
  pub reader : Reader
  pub heart : Heart
  pub interval : ℤ
  pub heartbeat_ack : Bool
  pub heartbeat_failure : Option Bytes
  pub heartbeat_err : Option Bytes
  pub closed : Bool
  pub heard : List GatewayEnvelope
  pub sent : List Packet

pub data Step : Type 0 where
  -- the timer or the ticker of `heartbeatLoop` fires, its `sendHeartbeat` reads the sequence, and its
  -- write returns; or its context is done
  ticks reads_sequence : Step
  writes : Option Bytes → Step
  quits : Step
  -- a failure is handed on; the connection is closed since the context is done
  forwards closes : Step
  -- the write of the first packet returns
  greets : Option Bytes → Step
  -- the `select` of the loop, with the error of the context where it takes that one; `ReadJSON`
  -- returns an envelope, with what a write on it returns, or fails
  selects : Option Bytes → Step
  hears : GatewayEnvelope → Option Bytes → Step
  breaks : Bytes → Step
