-- ===== src/Discord/Gateway/Replay.antt =====
-- What a connection of internal/discord/gateway.go knows of its session is what it was told: whatever
-- the heartbeats do meanwhile, the state is a function of the envelopes read.
use wrapping_bot.Base.{
  zero, suc, Bool, true, not, ◌&&◌, List, [], ◌∷◌, ◌++◌, Option, some, none, ◌≡◌, refl, arith,
  if◌then◌else◌, if_both,
}
use wrapping_bot.Base.Bytes.{Bytes, str, bytes_eq}
use wrapping_bot.Base.Int.{ℤ, pos, negsuc, int_eq}
use wrapping_bot.Base.Result.{ok, error}
use wrapping_bot.Discord.Gateway.{Gateway, GatewayEnvelope, GatewayReady, Outside, clear_session}
use wrapping_bot.Discord.Gateway.Connection.{
  note, take_sequence, greet, select, take_op, take_dispatch, take_ready, answer_heartbeat,
  invalidate, hear, break_off, move, serve,
}
use wrapping_bot.Discord.Gateway.Heartbeat.{
  fail_heart, tick, read_sequence, write_heartbeat, quit, forward,
}
use wrapping_bot.Discord.Gateway.State.{Link, Step, hears, is_reading}
use wrapping_bot.Discord.Gateway.Keeps.{serve-keeps, take_op-heard}
use wrapping_bot.Discord.Gateway.Run.{open_link}

-- What an envelope tells of the session: it begins, it goes on, it is void, or nothing.
pub data Meaning : Type 0 where
  begins : GatewayReady → Meaning
  continues voids silent : Meaning

abbrev pub told : Meaning → Gateway → Gateway
told (begins r) g = record g {
  session_id = r.session_id;
  resume_gateway_url = r.resume_gateway_url;
  connected = true;
}
told continues g = record g { connected = true }
told voids g = record g { session_id = []; resume_gateway_url = []; sequence = negsuc zero }
told silent g = g

abbrev pub counted : Option ℤ → Gateway → Gateway
counted none g = g
counted (some n) g = record g { sequence = n }

module _ (lib : Outside) where
  unfoldable pub dispatched : GatewayEnvelope → Meaning
  unfolding bytes_eq
  dispatched e =
      if bytes_eq e.t (str "READY")
      then elim (lib.decode_ready e.d) [ ok ready ↦ begins ready | error text ↦ silent ]
      else if bytes_eq e.t (str "RESUMED")
      then continues
      else silent

  unfoldable pub meaning : GatewayEnvelope → Meaning
  unfolding dispatched int_eq
  meaning e = elim e.op [
    | pos zero ↦ dispatched e
    | pos (suc n) ↦ if int_eq (pos n) (pos 8) && not (lib.decode_bool e.d) then voids else silent
    | negsuc n ↦ silent
  ]

  unfoldable pub replay : List GatewayEnvelope → Gateway → Gateway
  unfolding meaning
  replay [] g = g
  replay (e ∷ es) g = replay es (told (meaning e) (counted e.s g))

  pub replay-append :
      (es fs : List GatewayEnvelope) (g : Gateway) → replay (es ++ fs) g ≡ replay fs (replay es g)
  unfolding replay
  replay-append [] fs g = refl
  replay-append (e ∷ es) fs g = replay-append es fs (told (meaning e) (counted e.s g))

  take_dispatch-told :
      (e : GatewayEnvelope) (l : Link)
      → (take_dispatch lib e l).gateway ≡ told (dispatched e) l.gateway
  unfolding take_dispatch take_ready dispatched
  take_dispatch-told e l = ground arith

  take_op-told :
      (e : GatewayEnvelope) (w : Option Bytes) (l : Link)
      → (take_op lib e w l).gateway ≡ told (meaning e) l.gateway
  unfolding take_op answer_heartbeat invalidate clear_session meaning int_eq
  take_op-told e w l = ground (arith, take_dispatch-told e l)

  abbrev pub Follows : Gateway → Link → Type 0
  Follows g l = l.gateway ≡ replay l.heard g

  take_sequence-counted : (e : GatewayEnvelope) (g : Gateway) → take_sequence e g ≡ counted e.s g
  unfolding take_sequence
  take_sequence-counted e g = ground arith

  replay-snoc :
      (es : List GatewayEnvelope) (e : GatewayEnvelope) (g : Gateway)
      → replay (es ++ (e ∷ [])) g ≡ told (meaning e) (counted e.s (replay es g))
  unfolding replay
  replay-snoc es e g = rw (replay-append es (e ∷ []) g) refl

  hear-Follows :
      (g : Gateway) (e : GatewayEnvelope) (w : Option Bytes) (l : Link)
      → Follows g l
      → Follows g (hear lib e w l)
  unfolding hear
  hear-Follows g e w l h = if_both (Follows g) (is_reading l.reader) heard h
    where
      heard : Follows g (take_op lib e w (note lib e l))
      heard =
          rw
            (
              take_op-heard lib e w (note lib e l),
              take_op-told e w (note lib e l),
              take_sequence-counted e l.gateway,
              replay-snoc l.heard e g,
              h,
            )
            refl

  move-Follows : (g : Gateway) (s : Step) (l : Link) → Follows g l → Follows g (move lib s l)
  unfolding move tick read_sequence write_heartbeat fail_heart quit forward greet select break_off
  move-Follows g (hears e w) l h = hear-Follows g e w l h
  move-Follows g _ l h = ground arith

  -- In every interleaving, the state of the session is what the envelopes that were read tell of it,
  -- from the state that the connection began with.
  pub serve-replay :
      (steps : List Step) (resuming : Bool) (interval : ℤ) (g : Gateway)
      → let l = serve lib steps (open_link resuming interval g) in l.gateway ≡ replay l.heard g
  unfolding open_link replay
  serve-replay steps resuming interval g =
      serve-keeps lib (Follows g) (move-Follows g) steps (open_link resuming interval g) refl
