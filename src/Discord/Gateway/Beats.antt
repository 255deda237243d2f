-- ===== src/Discord/Gateway/Beats.antt =====
-- What holds of the heartbeats of internal/discord/gateway.go, in every interleaving.
use wrapping_bot.Base.{
  ℕ, ◌+◌, ◌≤◌, Bool, List, [], ◌∷◌, ◌++◌, Option, ◌≡◌, arith, if◌then◌else◌, if_both,
}
use wrapping_bot.Base.Bytes.{Bytes}
use wrapping_bot.Base.Int.{ℤ, pos, int_eq}
use wrapping_bot.Discord.Gateway.{Gateway, GatewayEnvelope, Packet, heartbeat, Outside, greeting}
use wrapping_bot.Discord.Gateway.Connection.{
  note, is_op, greet, select, take_op, take_dispatch, take_ready, answer_heartbeat, hear, break_off,
  move, serve,
}
use wrapping_bot.Discord.Gateway.Heartbeat.{
  fail_heart, tick, read_sequence, write_heartbeat, quit, forward,
}
use wrapping_bot.Discord.Gateway.State.{
  is_reading, Heart, starting, waiting, beating, writing, stopped, panicked, Link, Step, ticks,
  writes, greets, hears,
}
use wrapping_bot.Discord.Gateway.Keeps.{serve-keeps, take_op-heard}
use wrapping_bot.Discord.Gateway.Run.{open_link}

abbrev pub is_heartbeat : Packet → ℕ
is_heartbeat (heartbeat n) = 1
is_heartbeat _ = 0

abbrev pub heartbeats : List Packet → ℕ
heartbeats [] = 0
heartbeats (p ∷ ps) = is_heartbeat p + heartbeats ps

-- The envelopes of an opcode.
unfoldable pub count_op : ℕ → List GatewayEnvelope → ℕ
unfolding int_eq
count_op n [] = 0
count_op n (e ∷ es) = (if int_eq e.op (pos n) then 1 else 0) + count_op n es

heartbeats-append : (ps qs : List Packet) → heartbeats (ps ++ qs) ≡ heartbeats ps + heartbeats qs
heartbeats-append [] qs = omega arith
heartbeats-append (p ∷ ps) qs = omega (arith, heartbeats-append ps qs)

count_op-append :
    (n : ℕ) (es fs : List GatewayEnvelope) → count_op n (es ++ fs) ≡ count_op n es + count_op n fs
unfolding count_op
count_op-append n [] fs = omega arith
count_op-append n (e ∷ es) fs = omega (arith, count_op-append n es fs)

-- The heartbeats that can still go out before the next acknowledgement.
abbrev pub credit : Heart → Bool → ℕ
credit starting acked = 1
credit waiting acked = if acked then 1 else 0
credit beating acked = if acked then 2 else 1
credit (writing n) acked = if acked then 2 else 1
credit stopped acked = 0
credit panicked acked = 0

abbrev pub Paced : Link → Type 0
Paced l =
    heartbeats l.sent + credit l.heart l.heartbeat_ack
    ≤ 1 + count_op 11 l.heard + count_op 1 l.heard

ruleset counting = (arith, heartbeats-append, count_op-append)

module _ (lib : Outside) where
  tick-Paced : (l : Link) → Paced l → Paced (tick l)
  unfolding tick fail_heart
  tick-Paced l h = grind counting

  write_heartbeat-Paced : (w : Option Bytes) (l : Link) → Paced l → Paced (write_heartbeat w l)
  unfolding write_heartbeat fail_heart
  write_heartbeat-Paced w l h = grind counting

  abbrev paid : GatewayEnvelope → ℕ
  paid e = (if is_op lib 11 e then 1 else 0) + (if is_op lib 1 e then 1 else 0)

  answer_heartbeat-paid :
      (w : Option Bytes) (l : Link)
      → let m = answer_heartbeat lib w l in
        heartbeats m.sent + credit m.heart m.heartbeat_ack
        ≤ heartbeats l.sent + credit l.heart l.heartbeat_ack + 1
  unfolding answer_heartbeat
  answer_heartbeat-paid w l = grind counting

  take_op-paid :
      (e : GatewayEnvelope) (w : Option Bytes) (l : Link)
      → let m = take_op lib e w l in
        heartbeats m.sent + credit m.heart m.heartbeat_ack
        ≤ heartbeats l.sent + credit l.heart l.heartbeat_ack + paid e
  unfolding take_op take_dispatch take_ready int_eq
  take_op-paid e w l = ground (arith, answer_heartbeat-paid w l)

  counted :
      (e : GatewayEnvelope) (es : List GatewayEnvelope)
      → count_op 11 (es ++ (e ∷ [])) + count_op 1 (es ++ (e ∷ []))
        ≡ count_op 11 es + count_op 1 es + paid e
  unfolding count_op
  counted e es = omega (arith, count_op-append 11 es (e ∷ []), count_op-append 1 es (e ∷ []))

  hear-Paced :
      (e : GatewayEnvelope) (w : Option Bytes) (l : Link) → Paced l → Paced (hear lib e w l)
  unfolding hear
  hear-Paced e w l h = if_both Paced (is_reading l.reader) heard h
    where
      heard : Paced (take_op lib e w (note lib e l))
      heard =
          rw (take_op-heard lib e w (note lib e l))
            (omega (arith, take_op-paid e w (note lib e l), counted e l.heard, h))

  move-Paced : (s : Step) (l : Link) → Paced l → Paced (move lib s l)
  unfolding move read_sequence quit forward greet select break_off greeting
  move-Paced ticks l h = tick-Paced l h
  move-Paced (writes w) l h = write_heartbeat-Paced w l h
  move-Paced (hears e w) l h = hear-Paced e w l h
  move-Paced (greets w) l h = grind counting
  move-Paced _ l h = ground arith

  -- In every interleaving, the heartbeats written are at most one more than the acknowledgements
  -- and the requests for a heartbeat that were read.
  pub serve-Paced :
      (steps : List Step) (resuming : Bool) (interval : ℤ) (g : Gateway)
      → let l = serve lib steps (open_link resuming interval g) in
        heartbeats l.sent ≤ 1 + count_op 11 l.heard + count_op 1 l.heard
  unfolding open_link
  serve-Paced steps resuming interval g =
      omega (
        arith,
        serve-keeps lib Paced move-Paced steps (open_link resuming interval g) (omega arith),
      )
