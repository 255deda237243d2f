-- ===== src/Discord/Gateway/Failures.antt =====
-- When the heartbeats of internal/discord/gateway.go end the program.
use wrapping_bot.Base.{◌≤◌, Bool, List, [], ◌∷◌, none, ◌≡◌, ◌≢◌, refl, arith, if_both}
use wrapping_bot.Base.Int.{ℤ, pos, negsuc}
use wrapping_bot.Discord.Gateway.{Gateway, Outside}
use wrapping_bot.Discord.Gateway.Connection.{
  greet, select, take_op, take_dispatch, take_ready, answer_heartbeat, hear, break_off, move, step,
  serve,
}
use wrapping_bot.Discord.Gateway.Heartbeat.{
  fail_heart, tick, read_sequence, write_heartbeat, quit, forward,
}
use wrapping_bot.Discord.Gateway.State.{
  panicked, Link, Step, ticks, reads_sequence, writes, hears, is_reading,
}
use wrapping_bot.Discord.Gateway.Keeps.{serve-keeps}
use wrapping_bot.Discord.Gateway.Run.{open_link}

abbrev pub IsPositive : ℤ → Type 0
IsPositive (pos n) = 1 ≤ n
IsPositive (negsuc n) = ⊥

abbrev pub first_beat : List Step
first_beat = ticks ∷ reads_sequence ∷ writes none ∷ []

module _ (lib : Outside) where
  abbrev Ticking : ℤ → Link → Type 0
  Ticking interval l = (l.interval ≡ interval) × (l.heart ≢ panicked)

  move-Ticking :
      (interval : ℤ)
      → IsPositive interval
      → (s : Step) (l : Link) → Ticking interval l
      → Ticking interval (move lib s l)
  unfolding move tick read_sequence write_heartbeat fail_heart quit forward greet select break_off
      hear take_op take_dispatch take_ready answer_heartbeat
  move-Ticking interval p (hears e w) l h =
      if_both (Ticking interval) (is_reading l.reader) (ground arith) h
  move-Ticking interval p _ l h = ground arith

  serve-ticking :
      (steps : List Step) (resuming : Bool) (interval : ℤ) (g : Gateway)
      → IsPositive interval
      → (serve lib steps (open_link resuming interval g)).heart ≢ panicked
  unfolding open_link
  serve-ticking steps resuming interval g p =
      (serve-keeps lib (Ticking interval) (move-Ticking interval p) steps
        (open_link resuming interval g) (refl, λ e. cc)).1

  first_beat-panics :
      (resuming : Bool) (interval : ℤ) (g : Gateway)
      → ¬ IsPositive interval
      → (serve lib first_beat (open_link resuming interval g)).heart ≡ panicked
  unfolding serve open_link step move tick read_sequence write_heartbeat
  first_beat-panics resuming interval g h = ground arith

  -- Where some interleaving makes the program panic, the interval of the hello is no positive number of
  -- nanoseconds, and then the first heartbeat does it.
  pub serve-panicked :
      (steps : List Step) (resuming : Bool) (interval : ℤ) (g : Gateway)
      → (serve lib steps (open_link resuming interval g)).heart ≡ panicked
      → ¬ IsPositive interval
        × ((serve lib first_beat (open_link resuming interval g)).heart ≡ panicked)
  serve-panicked steps resuming interval g e =
      let bad : ¬ IsPositive interval = λ p. serve-ticking steps resuming interval g p e in
      (bad, first_beat-panics resuming interval g bad)
