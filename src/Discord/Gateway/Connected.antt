-- ===== src/Discord/Gateway/Connected.antt =====
-- What `Connected` of internal/discord/gateway.go says, over all of `Run`.
use wrapping_bot.Base.{
  ℕ, false, List, [], ◌∷◌, ◌++◌, Option, ◌≡◌, ◌⊎◌, inl, inr, refl, sym, ap, ◌∙◌, arith,
}
use wrapping_bot.Base.Bytes.{Bytes}
use wrapping_bot.Base.Int.{ℤ}
use wrapping_bot.Base.Result.{ok, error, Result-cases}
use wrapping_bot.Discord.Gateway.{Gateway, GatewayEnvelope, Outside, can_resume}
use wrapping_bot.Discord.Gateway.Connection.{serve}
use wrapping_bot.Discord.Gateway.State.{Link}
use wrapping_bot.Discord.Gateway.Replay.{
  Meaning, begins, continues, voids, silent, meaning, told, counted, replay, serve-replay,
}
use wrapping_bot.Discord.Gateway.Lost.{connect-open_link}
use wrapping_bot.Discord.Gateway.Run.{
  second, Meeting, fails, stays, Outcome, stopped, serving, open_link, connect, served,
  connect_and_serve, disconnected, next_backoff, run_from, run, run_from-round, fails_stays,
}

abbrev pub Announces : Meaning → Type 0
Announces (begins ready) = Unit
Announces continues = Unit
Announces voids = ⊥
Announces silent = ⊥

told-connected :
    (m : Meaning) (s : Option ℤ) (g : Gateway)
    → (Announces m) ⊎ ((told m (counted s g)).connected ≡ g.connected)
told-connected m s g = ground arith

served-stays : {l0 l : Link} → served l0 ≡ stays l → l ≡ l0
served-stays {l0} e = ground arith

module _ (lib : Outside) where
  -- READY or RESUMED is among the envelopes.
  abbrev pub Announced : List GatewayEnvelope → Type 0
  Announced [] = ⊥
  Announced (e ∷ es) = Announces (meaning lib e) ⊎ Announced es

  replay-connected :
      (es : List GatewayEnvelope) (g : Gateway)
      → ((replay lib es g).connected ≡ g.connected) ⊎ Announced es
  unfolding replay
  replay-connected [] g = inl refl
  replay-connected (e ∷ es) g = ground (
    arith,
    told-connected (meaning lib e) e.s g,
    replay-connected es (told (meaning lib e) (counted e.s g)),
  )

  failing :
      (m : Meeting) (g : Gateway) (text : Bytes)
      → connect lib m g ≡ error text
      → connect_and_serve lib m g ≡ fails text g
  unfolding connect_and_serve
  failing m g text f = rw (connect_and_serve, f) refl

  opening :
      (m : Meeting) (g : Gateway) (l : Link)
      → connect lib m g ≡ ok l
      → connect_and_serve lib m g ≡ served (serve lib m.steps l)
  unfolding connect_and_serve
  opening m g l f = rw (connect_and_serve, f) refl

  connect_and_serve-stays :
      (m : Meeting) (g : Gateway) (l : Link)
      → connect_and_serve lib m g ≡ stays l
      → (interval : ℤ) × (l ≡ serve lib m.steps (open_link (can_resume g) interval g))
  connect_and_serve-stays m g l e = elim (Result-cases (connect lib m g)) [
    | inr (text, f) ↦ absurd (fails_stays (sym (failing m g text f) ∙ e))
    | inl (l0, f) ↦
        let (interval, opened) = connect-open_link lib m g l0 f in
        (interval, served-stays (sym (opening m g l0 f) ∙ e) ∙ ap (λ k. serve lib m.steps k) opened)
  ]

  -- A gateway that has stopped is not connected; one that is connected was told so by the connection
  -- that stands.
  abbrev pub Honest : Outcome → Type 0
  Honest (stopped g waits) = g.connected ≡ false
  Honest (serving l waits) = (l.gateway.connected ≡ false) ⊎ Announced l.heard

  run_from-Honest :
      (ms : List Meeting) (backoff : ℕ) (waits : List ℕ) (g : Gateway)
      → g.connected ≡ false
      → Honest (run_from lib backoff waits g ms)
  unfolding run_from
  run_from-Honest [] backoff waits g h = refl
  run_from-Honest (m ∷ ms) backoff waits g h =
      run_from-round lib Honest backoff waits g m ms
        (λ l e. stands l (connect_and_serve-stays m g l e)) (λ text g1 e. refl) (λ text g1 e. refl)
        (λ text g1 e.
          run_from-Honest ms (next_backoff backoff) (waits ++ (backoff ∷ [])) (disconnected g1)
            refl)
    where
      stands :
          (l : Link)
          → (interval : ℤ) × (l ≡ serve lib m.steps (open_link (can_resume g) interval g))
          → Honest (serving l waits)
      stands l (interval, same) = rw same (
          ground (
            arith,
            serve-replay lib m.steps (can_resume g) interval g,
            replay-connected (serve lib m.steps (open_link (can_resume g) interval g)).heard g,
          ))

  -- From a gateway that is not connected: when `Run` has returned it is not; while `Run` goes on it is
  -- connected only where READY or RESUMED came on the connection that stands.
  pub run-Honest : (g : Gateway) (ms : List Meeting) → g.connected ≡ false → Honest (run lib g ms)
  unfolding run
  run-Honest g ms h = run_from-Honest ms second [] g h
