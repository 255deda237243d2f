-- ===== src/Discord/Gateway/Heartbeat.antt =====
-- The heartbeats of a connection of internal/discord/gateway.go: the steps of `heartbeatLoop`, with its
-- `sendHeartbeat`, and of the goroutine that hands on its failure. A step of a goroutine that stands
-- elsewhere changes nothing.
use wrapping_bot.Base.{zero, suc, true, false, [], ◌∷◌, ◌++◌, Option, some, none, if◌then◌else◌}
use wrapping_bot.Base.Bytes.{Bytes, str}
use wrapping_bot.Base.Int.{ℤ, pos, negsuc}
use wrapping_bot.Discord.Gateway.{heartbeat, beat_of}
use wrapping_bot.Discord.Gateway.State.{
  Heart, starting, waiting, beating, writing, stopped, panicked, Link,
}

unfoldable pub no_ack_error : Bytes
no_ack_error = str "Discord Gateway heartbeat was not acknowledged"

abbrev pub heartbeat_error : Bytes → Bytes
heartbeat_error text = str "send Discord Gateway heartbeat: " ++ text

-- `errCh <- err`, of a channel with room for one, and the end of `heartbeatLoop`.
unfoldable pub fail_heart : Bytes → Link → Link
fail_heart text l = elim l.heartbeat_failure [
  | none ↦ record l { heart = stopped; heartbeat_failure = some text }
  | some old ↦ record l { heart = stopped }
]

unfoldable pub tick : Link → Link
unfolding fail_heart
tick l = elim l.heart [
  | starting ↦ record l { heart = beating; heartbeat_ack = false }
  | waiting ↦
      if l.heartbeat_ack
      then record l { heart = beating; heartbeat_ack = false }
      else fail_heart no_ack_error (record l { heartbeat_ack = false })
  | _ ↦ l
]

unfoldable pub read_sequence : Link → Link
read_sequence l = elim l.heart [
  | beating ↦ record l { heart = writing (beat_of l.gateway.sequence) }
  | _ ↦ l
]

-- `time.NewTicker`, behind the first beat.
abbrev pub next_wait : ℤ → Heart
next_wait (pos zero) = panicked
next_wait (pos (suc n)) = waiting
next_wait (negsuc n) = panicked

unfoldable pub write_heartbeat : Option Bytes → Link → Link
unfolding fail_heart
write_heartbeat write l = elim l.heart [
  | writing n ↦ elim write [
    | none ↦ record l { heart = next_wait l.interval; sent = l.sent ++ (heartbeat n ∷ []) }
    | some text ↦ fail_heart (heartbeat_error text) l
  ]
  | _ ↦ l
]

unfoldable pub quit : Link → Link
quit l = elim l.heart [
  | starting ↦ record l { heart = stopped }
  | waiting ↦ record l { heart = stopped }
  | _ ↦ l
]

unfoldable pub forward : Link → Link
forward l = elim l.heartbeat_failure [
  | none ↦ l
  | some text ↦ elim l.heartbeat_err [
    | none ↦ record l { heartbeat_failure = none; heartbeat_err = some text; closed = true }
    | some old ↦ record l { heartbeat_failure = none; closed = true }
  ]
]
