-- ===== src/Discord/Gateway/Connection.antt =====
-- One connection of internal/discord/gateway.go, behind its hello: the steps of the loop of
-- `connectAndServe`, and `serve`, which interleaves them with those of the heartbeats by a list. A step
-- of a goroutine that stands elsewhere changes nothing.
use wrapping_bot.Base.{ℕ, Bool, true, false, List, [], ◌∷◌, ◌++◌, Option, some, none, if◌then◌else◌}
use wrapping_bot.Base.Bytes.{Bytes, str, bytes_eq}
use wrapping_bot.Base.Int.{pos, int_eq}
use wrapping_bot.Base.Result.{ok, error}
use wrapping_bot.Discord.Gateway.{
  Gateway, GatewayEnvelope, heartbeat, Outside, clear_session, beat_of, greeting,
}
use wrapping_bot.Discord.Gateway.State.{
  greeting_next, selecting, reading, returned, is_panicked, is_reading, Link, Step, ticks,
  reads_sequence, writes, quits, forwards, closes, greets, selects, hears, breaks,
}
use wrapping_bot.Discord.Gateway.Heartbeat.{
  heartbeat_error, tick, read_sequence, write_heartbeat, quit, forward,
}

unfoldable pub select : Option Bytes → Link → Link
select done l = elim l.reader [
  | selecting ↦ elim done [
    | some text ↦ record l { reader = returned text }
    | none ↦ elim l.heartbeat_err [
      | some text ↦ record l { reader = returned text; heartbeat_err = none }
      | none ↦ record l { reader = reading }
    ]
  ]
  | _ ↦ l
]

abbrev pub greet_error : Bool → Bytes → Bytes
greet_error true text = str "resume Discord Gateway session: " ++ text
greet_error false text = str "identify Discord Gateway session: " ++ text

unfoldable pub greet : Bytes → Option Bytes → Link → Link
unfolding greeting
greet goos write l = elim l.reader [
  | greeting_next resuming ↦ elim write [
    | none ↦ record l {
      reader = selecting;
      sent = l.sent ++ (greeting goos resuming l.gateway ∷ []);
    }
    | some text ↦ record l { reader = returned (greet_error resuming text) }
  ]
  | _ ↦ l
]

unfoldable pub take_sequence : GatewayEnvelope → Gateway → Gateway
take_sequence e g = elim e.s [ none ↦ g | some n ↦ record g { sequence = n } ]

abbrev pub going : Link → Link
going l = record l { reader = selecting }

abbrev pub return : Bytes → Link → Link
return text l = record l { reader = returned text }

abbrev pub keep : Gateway → Link → Link
keep g l = record l { gateway = g }

module _ (lib : Outside) where
  unfoldable pub take_ready : GatewayEnvelope → Link → Link
  take_ready e l = elim (lib.decode_ready e.d) [
    | error text ↦ return (str "decode Discord READY event: " ++ text) l
    | ok ready ↦ going (record l {
      gateway = record l.gateway {
        session_id = ready.session_id;
        resume_gateway_url = ready.resume_gateway_url;
        connected = true;
      };
    })
  ]

  unfoldable pub take_dispatch : GatewayEnvelope → Link → Link
  unfolding take_ready bytes_eq
  take_dispatch e l =
      if bytes_eq e.t (str "READY")
      then take_ready e l
      else if bytes_eq e.t (str "RESUMED")
      then going (keep (record l.gateway { connected = true }) l)
      else going l

  unfoldable pub answer_heartbeat : Option Bytes → Link → Link
  answer_heartbeat (some text) l =
      return (heartbeat_error text) (record l { heartbeat_ack = false })
  answer_heartbeat none l = going (record l {
    heartbeat_ack = false;
    sent = l.sent ++ (heartbeat (beat_of l.gateway.sequence) ∷ []);
  })

  abbrev pub is_op : ℕ → GatewayEnvelope → Bool
  is_op n e = int_eq e.op (pos n)

  unfoldable pub invalidate : GatewayEnvelope → Gateway → Gateway
  unfolding clear_session
  invalidate e g = if lib.decode_bool e.d then g else clear_session g

  -- The `switch` on the opcode.
  unfoldable pub take_op : GatewayEnvelope → Option Bytes → Link → Link
  unfolding take_dispatch answer_heartbeat int_eq invalidate
  take_op e write l =
      if is_op 0 e
      then take_dispatch e l
      else if is_op 1 e
      then answer_heartbeat write l
      else if is_op 7 e
      then return (str "Discord requested Gateway reconnect") l
      else if is_op 9 e
      then return (str "Discord Gateway session became invalid") (keep (invalidate e l.gateway) l)
      else if is_op 11 e
      then going (record l { heartbeat_ack = true })
      else going l

  -- The envelope is read, and its sequence is kept.
  abbrev pub note : GatewayEnvelope → Link → Link
  note e l = record l { gateway = take_sequence e l.gateway; heard = l.heard ++ (e ∷ []) }

  unfoldable pub hear : GatewayEnvelope → Option Bytes → Link → Link
  unfolding take_sequence take_op
  hear e write l = if is_reading l.reader then take_op e write (note e l) else l

  unfoldable pub break_off : Bytes → Link → Link
  break_off text l = elim l.reader [
    | reading ↦ return (str "read Discord Gateway event: " ++ text) l
    | _ ↦ l
  ]

  unfoldable pub move : Step → Link → Link
  unfolding tick read_sequence write_heartbeat quit forward greet select hear break_off
  move ticks l = tick l
  move reads_sequence l = read_sequence l
  move (writes write) l = write_heartbeat write l
  move quits l = quit l
  move forwards l = forward l
  move closes l = record l { closed = true }
  move (greets write) l = greet lib.goos write l
  move (selects done) l = select done l
  move (hears e write) l = hear e write l
  move (breaks text) l = break_off text l

  -- Nothing moves in a program that has panicked.
  unfoldable pub step : Step → Link → Link
  unfolding move
  step s l = if is_panicked l.heart then l else move s l

  unfoldable pub serve : List Step → Link → Link
  unfolding step
  serve [] l = l
  serve (s ∷ steps) l = serve steps (step s l)
