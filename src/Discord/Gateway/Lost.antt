-- ===== src/Discord/Gateway/Lost.antt =====
-- Sessions of internal/discord/gateway.go that are void, and those that cannot be resumed.
use wrapping_bot.Base.{
  ℕ, Bool, true, false, List, [], ◌∷◌, ◌++◌, none, ◌≡◌, refl, sym, ap, ◌∙◌, arith,
}
use wrapping_bot.Base.Bytes.{Bytes}
use wrapping_bot.Base.Int.{ℤ}
use wrapping_bot.Base.Result.{ok, error, ok_then, ok_then-ok, ok_injective}
use wrapping_bot.Discord.Gateway.{
  Gateway, GatewayEnvelope, Request, Asked, Outside, can_resume, with_gateway_query, connection_url,
  beat_of,
}
use wrapping_bot.Discord.Gateway.Connection.{serve}
use wrapping_bot.Discord.Gateway.State.{greeting_next, Link, Step}
use wrapping_bot.Discord.Gateway.Replay.{voids, meaning, replay, replay-append, serve-replay}
use wrapping_bot.Discord.Gateway.Run.{
  Meeting, fails, Outcome, stopped, serving, open_link, connect, connect_and_serve, disconnected,
  next_backoff, run_from, run_from-round, fails_injective, fails_stays,
}

-- `Run` has returned, and knows the session as before.
abbrev pub Stuck : Gateway → Outcome → Type 0
Stuck g (stopped g1 waits) = g1 ≡ disconnected g
Stuck g (serving l waits) = ⊥

Stuck-disconnected : (g : Gateway) (o : Outcome) → Stuck (disconnected g) o → Stuck g o
Stuck-disconnected g (stopped g1 waits) h = h
Stuck-disconnected g (serving l waits) h = h

module _ (lib : Outside) where
  connection_url-resuming :
      (http : Request → Asked) (g : Gateway) (endpoint : Bytes) (resuming : Bool)
      → connection_url lib http g ≡ ok (endpoint, resuming)
      → resuming ≡ can_resume g
  unfolding connection_url ok_then
  connection_url-resuming http g endpoint resuming e = ground (arith)

  -- A connection that opens begins with a resume where there is a session to resume.
  pub connect-open_link :
      (m : Meeting) (g : Gateway) (l : Link)
      → connect lib m g ≡ ok l
      → (interval : ℤ) × (l ≡ open_link (can_resume g) interval g)
  unfolding connect
  connect-open_link m g l e =
      let (found, url, e1) = ok_then-ok (connection_url lib m.http g) _ l e in
      let (conn, dials, e2) = ok_then-ok _ _ l e1 in
      let (interval, greeted, e3) = ok_then-ok _ _ l e2 in
      (
        interval,
        sym (ok_injective e3)
            ∙ ap (λ b. open_link b interval g)
                (connection_url-resuming m.http g found.0 found.1 url),
      )

  last-voids :
      (es : List GatewayEnvelope) (e : GatewayEnvelope) (g : Gateway)
      → meaning lib e ≡ voids
      → let g1 = replay lib (es ++ e ∷ []) g in
        (can_resume g1 ≡ false) × (beat_of g1.sequence ≡ none)
  unfolding replay
  last-voids es e g h = rw (replay-append lib es (e ∷ []) g, h) (refl, refl)

  -- Behind a connection that was told last that its session is void, the next that opens identifies
  -- anew, and its heartbeats have no sequence until one is read.
  pub connect-voids :
      (steps : List Step) (resuming : Bool) (interval : ℤ) (g : Gateway) (es : List GatewayEnvelope)
      (e : GatewayEnvelope) (m : Meeting) (l : Link)
      → let next = disconnected (serve lib steps (open_link resuming interval g)).gateway in
        (serve lib steps (open_link resuming interval g)).heard ≡ es ++ e ∷ []
        → meaning lib e ≡ voids
        → connect lib m next ≡ ok l
        → (l.reader ≡ greeting_next false) × (beat_of l.gateway.sequence ≡ none)
  unfolding open_link
  connect-voids steps resuming interval g es e m l heard v opens =
      let next = disconnected (serve lib steps (open_link resuming interval g)).gateway in
      let (interval1, opened) = connect-open_link m next l opens in
      let (fresh, silent) = last-voids es e g v in
      rw (opened, serve-replay lib steps resuming interval g, heard)
        (ap (λ b. greeting_next b) fresh, silent)

  stuck_round :
      (m : Meeting) (g : Gateway) (text : Bytes)
      → can_resume g ≡ true
      → with_gateway_query lib g.resume_gateway_url ≡ error text
      → connect_and_serve lib m g ≡ fails text g
  unfolding connect_and_serve connect connection_url ok_then
  stuck_round m g text h e = rw (connect_and_serve, connect, connection_url, h, e) refl

  stuck_same :
      (m : Meeting) (g : Gateway) (text : Bytes)
      → can_resume g ≡ true
      → with_gateway_query lib g.resume_gateway_url ≡ error text
      → {t : Bytes} {g1 : Gateway} → connect_and_serve lib m g ≡ fails t g1
      → g1 ≡ g
  stuck_same m g text h e f = fails_injective (sym f ∙ stuck_round m g text h e)

  -- Where the URL to resume at is not valid, every connection fails before it is made, and the session
  -- is kept: however often it is tried, no other URL is.
  pub run_from-Stuck :
      (ms : List Meeting) (backoff : ℕ) (waits : List ℕ) (g : Gateway) (text : Bytes)
      → can_resume g ≡ true
      → with_gateway_query lib g.resume_gateway_url ≡ error text
      → Stuck g (run_from lib backoff waits g ms)
  unfolding run_from
  run_from-Stuck [] backoff waits g text h e = refl
  run_from-Stuck (m ∷ ms) backoff waits g text h e =
      run_from-round lib (Stuck g) backoff waits g m ms
        (λ l f. absurd (fails_stays (sym (stuck_round m g text h e) ∙ f)))
        (λ t g1 f. ap disconnected (stuck_same m g text h e f))
        (λ t g1 f. ap disconnected (stuck_same m g text h e f))
        (λ t g1 f. rw (stuck_same m g text h e f) (
          Stuck-disconnected g _ (
            run_from-Stuck ms (next_backoff backoff) (waits ++ (backoff ∷ [])) (disconnected g) text
              h e)))
