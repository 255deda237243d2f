-- ===== src/Discord/Gateway/Resume.antt =====
-- How a connection of internal/discord/gateway.go follows on the one before.
use wrapping_bot.Base.{
  Bool, true, List, [], ◌∷◌, ◌++◌, some, none, ◌≡◌, ◌≢◌, ◌⊎◌, refl, ◌∙◌, arith, All,
}
use wrapping_bot.Base.Int.{ℤ}
use wrapping_bot.Base.Result.{ok, ok_then}
use wrapping_bot.Discord.Gateway.{
  Gateway, GatewayEnvelope, GatewayReady, resume, Request, Asked, Outside, greeting, can_resume,
  with_gateway_query, connection_url,
}
use wrapping_bot.Discord.Gateway.Connection.{serve}
use wrapping_bot.Discord.Gateway.State.{Step}
use wrapping_bot.Discord.Gateway.Replay.{
  Meaning, begins, continues, silent, meaning, told, counted, replay, replay-append, serve-replay,
}
use wrapping_bot.Discord.Gateway.Run.{open_link, disconnected}

-- The last sequence that envelopes give.
abbrev pub last_sequence : ℤ → List GatewayEnvelope → ℤ
last_sequence n [] = n
last_sequence n (e ∷ es) = last_sequence (elim e.s [ none ↦ n | some k ↦ k ]) es

can_resume-full :
    (g : Gateway) → g.session_id ≢ [] → g.resume_gateway_url ≢ [] → can_resume g ≡ true
can_resume-full g h k = ground arith

module _ (lib : Outside) where
  -- It neither begins a session nor voids one.
  abbrev pub Quiet : GatewayEnvelope → Type 0
  Quiet e = (meaning lib e ≡ silent) ⊎ (meaning lib e ≡ continues)

  abbrev Session : Gateway → GatewayReady → ℤ → Gateway → Type 0
  Session g r n g1 =
      (g1.session_id ≡ r.session_id)
      × (g1.resume_gateway_url ≡ r.resume_gateway_url)
      × (g1.sequence ≡ n)
      × (g1.bot_token ≡ g.bot_token)

  quiet-Session :
      (g g1 : Gateway) (r : GatewayReady) (n : ℤ) (es : List GatewayEnvelope)
      → All Quiet es
      → Session g r n g1
      → Session g r (last_sequence n es) (replay lib es g1)
  unfolding replay
  quiet-Session g g1 r n [] h s = s
  quiet-Session g g1 r n (e ∷ es) (q, h) s =
      quiet-Session g (told (meaning lib e) (counted e.s g1)) r (elim e.s [ none ↦ n | some k ↦ k ])
        es h (ground arith)

  told-token : (m : Meaning) (g : Gateway) → (told m g).bot_token ≡ g.bot_token
  told-token m g = ground arith

  replay-token :
      (es : List GatewayEnvelope) (g : Gateway) → (replay lib es g).bot_token ≡ g.bot_token
  unfolding replay
  replay-token [] g = refl
  replay-token (e ∷ es) g = replay-token es (told (meaning lib e) (counted e.s g)) ∙ (ground arith)

  ready-Session :
      (g : Gateway) (e : GatewayEnvelope) (r : GatewayReady) (es fs : List GatewayEnvelope)
      → meaning lib e ≡ begins r
      → All Quiet fs
      → Session g r
          (last_sequence (replay lib es g).sequence (e ∷ fs))
          (replay lib (es ++ e ∷ fs) g)
  unfolding replay
  ready-Session g e r es fs m h =
      rw (replay-append lib es (e ∷ fs) g)
        (quiet-Session g _ r _ fs h (ground (arith, replay-token es g)))

  -- A connection that was told of a session, and then of no other and not that it is void, is followed
  -- by one that goes to the session's URL and resumes it behind the last sequence that was read. The
  -- session's identifier and URL are not empty.
  pub connection_url-resumes :
      (steps : List Step) (resuming : Bool) (interval : ℤ) (g : Gateway) (http : Request → Asked)
      (es fs : List GatewayEnvelope) (e : GatewayEnvelope) (r : GatewayReady)
      → (serve lib steps (open_link resuming interval g)).heard ≡ es ++ e ∷ fs
      → meaning lib e ≡ begins r
      → All Quiet fs
      → r.session_id ≢ []
      → r.resume_gateway_url ≢ []
      → let next = disconnected (serve lib steps (open_link resuming interval g)).gateway in
        (connection_url lib http next
          ≡ ok_then (with_gateway_query lib r.resume_gateway_url) (λ url. ok (url, true)))
        × (greeting lib.goos true next
            ≡ resume (record {
              token = g.bot_token;
              session_id = r.session_id;
              sequence = last_sequence (replay lib es g).sequence (e ∷ fs);
            }))
  unfolding connection_url greeting
  connection_url-resumes steps resuming interval g http es fs e r heard m quiet id url =
      rw (serve-replay lib steps resuming interval g, heard)
        (resumed (replay lib (es ++ e ∷ fs) g) (ready-Session g e r es fs m quiet))
    where
      n : ℤ
      n = last_sequence (replay lib es g).sequence (e ∷ fs)

      resumed :
          (g1 : Gateway)
          → Session g r n g1
          → (connection_url lib http (disconnected g1)
              ≡ ok_then (with_gateway_query lib r.resume_gateway_url) (λ url. ok (url, true)))
            × (greeting lib.goos true (disconnected g1)
                ≡ resume (record { token = g.bot_token; session_id = r.session_id; sequence = n }))
      resumed g1 (a, b, c, d) = ground (arith, can_resume-full g1)
