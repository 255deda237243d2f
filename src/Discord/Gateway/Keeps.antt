-- ===== src/Discord/Gateway/Keeps.antt =====
-- What every step of a connection of internal/discord/gateway.go keeps holds of all of it.
use wrapping_bot.Base.{if_both, List, [], ◌∷◌, Option, ◌≡◌, arith}
use wrapping_bot.Base.Bytes.{Bytes}
use wrapping_bot.Discord.Gateway.{GatewayEnvelope, Outside}
use wrapping_bot.Discord.Gateway.Connection.{
  take_ready, take_dispatch, answer_heartbeat, take_op, move, step, serve,
}
use wrapping_bot.Discord.Gateway.State.{Link, is_panicked, Step}

pub take_op-heard :
    (lib : Outside) (e : GatewayEnvelope) (w : Option Bytes) (l : Link)
    → (take_op lib e w l).heard ≡ l.heard
unfolding take_op take_dispatch take_ready answer_heartbeat
take_op-heard lib e w l = ground arith

module _ {ℓ} (lib : Outside) (P : Link → Type ℓ)
    (keep : (s : Step) (l : Link) → P l → P (move lib s l)) where
  step-keeps : (s : Step) (l : Link) → P l → P (step lib s l)
  unfolding step
  step-keeps s l h = if_both P (is_panicked l.heart) h (keep s l h)

  pub serve-keeps : (steps : List Step) (l : Link) → P l → P (serve lib steps l)
  unfolding serve
  serve-keeps [] l h = h
  serve-keeps (s ∷ steps) l h = serve-keeps steps (step lib s l) (step-keeps s l h)
