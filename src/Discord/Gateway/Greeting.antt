-- ===== src/Discord/Gateway/Greeting.antt =====
-- The first packet of a connection of internal/discord/gateway.go.
use wrapping_bot.Base.{
  ℕ, Bool, true, false, List, [], ◌∷◌, ◌++◌, Option, some, none, ◌≡◌, ◌⊎◌, inl, inr, refl, ◌∙◌,
  arith, Bool-cases, append-nil,
}
use wrapping_bot.Base.Bytes.{Bytes}
use wrapping_bot.Base.Int.{ℤ}
use wrapping_bot.Discord.Gateway.{
  Gateway, GatewayEnvelope, Packet, heartbeat, Outside, greeting, beat_of,
}
use wrapping_bot.Discord.Gateway.Connection.{
  note, greet, select, take_op, take_dispatch, take_ready, answer_heartbeat, hear, break_off, move,
  serve,
}
use wrapping_bot.Discord.Gateway.Heartbeat.{
  fail_heart, tick, read_sequence, write_heartbeat, quit, forward,
}
use wrapping_bot.Discord.Gateway.State.{
  greeting_next, returned, Reader, Link, Step, writes, greets, hears, is_reading,
}
use wrapping_bot.Discord.Gateway.Keeps.{serve-keeps}
use wrapping_bot.Discord.Gateway.Run.{open_link}

-- The packets that are no heartbeats.
abbrev pub greetings : List Packet → List Packet
greetings [] = []
greetings (heartbeat n ∷ ps) = greetings ps
greetings (p ∷ ps) = p ∷ greetings ps

greetings-append : (ps qs : List Packet) → greetings (ps ++ qs) ≡ greetings ps ++ greetings qs
greetings-append [] qs = refl
greetings-append (heartbeat n ∷ ps) qs = greetings-append ps qs
greetings-append (Packet.identify i ∷ ps) qs = rw (greetings-append ps qs) refl
greetings-append (Packet.resume r ∷ ps) qs = rw (greetings-append ps qs) refl

greetings-beat :
    (ps : List Packet) (n : Option ℕ) → greetings (ps ++ (heartbeat n ∷ [])) ≡ greetings ps
greetings-beat ps n = rw (greetings-append ps (heartbeat n ∷ [])) (append-nil (greetings ps))

greetings-first :
    (ps : List Packet) (goos : Bytes) (resuming : Bool) (g : Gateway)
    → greetings ps ≡ []
    → greetings (ps ++ (greeting goos resuming g ∷ [])) ≡ greeting goos resuming g ∷ []
unfolding greeting
greetings-first ps goos true g h = rw (greetings-append ps (greeting goos true g ∷ []), h) refl
greetings-first ps goos false g h = rw (greetings-append ps (greeting goos false g ∷ []), h) refl

abbrev is_past : Reader → Bool
is_past (greeting_next r) = false
is_past _ = true

module _ (lib : Outside) (resuming : Bool) (g : Gateway) where
  abbrev first : Packet
  first = greeting lib.goos resuming g

  -- By where the reader stands.
  abbrev pub Greets : Reader → List GatewayEnvelope → List Packet → Gateway → Type 0
  Greets (greeting_next r) heard sent g1 =
      (r ≡ resuming) × (g1 ≡ g) × (heard ≡ []) × (greetings sent ≡ [])
  Greets (returned text) heard sent g1 =
      ((heard ≡ []) × (greetings sent ≡ [])) ⊎ (greetings sent ≡ first ∷ [])
  Greets _ heard sent g1 = greetings sent ≡ first ∷ []

  abbrev pub Greeted : Link → Type 0
  Greeted l = Greets l.reader l.heard l.sent l.gateway

  write-Greeted : (w : Option Bytes) (l : Link) → Greeted l → Greeted (write_heartbeat w l)
  unfolding write_heartbeat fail_heart
  write-Greeted w l h = grind (arith, greetings-beat)

  greet-Greeted : (w : Option Bytes) (l : Link) → Greeted l → Greeted (greet lib.goos w l)
  unfolding greet
  greet-Greeted w l h = ground (arith, greetings-first l.sent lib.goos resuming g)

  answer-greetings :
      (w : Option Bytes) (l : Link) → greetings (answer_heartbeat lib w l).sent ≡ greetings l.sent
  unfolding answer_heartbeat
  answer-greetings none l = greetings-beat l.sent (beat_of l.gateway.sequence)
  answer-greetings (some text) l = refl

  take_op-greetings :
      (e : GatewayEnvelope) (w : Option Bytes) (l : Link)
      → greetings (take_op lib e w l).sent ≡ greetings l.sent
  unfolding take_op take_dispatch take_ready
  take_op-greetings e w l = ground (arith, answer-greetings w l)

  take_op-reader :
      (e : GatewayEnvelope) (w : Option Bytes) (l : Link)
      → is_past (take_op lib e w l).reader ≡ true
  unfolding take_op take_dispatch take_ready answer_heartbeat
  take_op-reader e w l = ground arith

  past-Greets :
      (r : Reader) (heard : List GatewayEnvelope) (sent : List Packet) (g1 : Gateway)
      → is_past r ≡ true
      → greetings sent ≡ first ∷ []
      → Greets r heard sent g1
  past-Greets (greeting_next b) heard sent g1 p h = absurd (cc)
  past-Greets (returned text) heard sent g1 p h = inr h
  past-Greets _ heard sent g1 p h = h

  read-greetings :
      (l : Link) → is_reading l.reader ≡ true → Greeted l → greetings l.sent ≡ first ∷ []
  read-greetings l r h = ground arith

  hear-Greeted :
      (e : GatewayEnvelope) (w : Option Bytes) (l : Link) → Greeted l → Greeted (hear lib e w l)
  unfolding hear
  hear-Greeted e w l h = elim (Bool-cases (is_reading l.reader)) [
    | inr other ↦ rw other h
    | inl at ↦
        let m = note lib e l in
        rw at (
          past-Greets (take_op lib e w m).reader (take_op lib e w m).heard (take_op lib e w m).sent
            (take_op lib e w m).gateway (take_op-reader e w m)
            (take_op-greetings e w m ∙ read-greetings l at h))
  ]

  move-Greeted : (s : Step) (l : Link) → Greeted l → Greeted (move lib s l)
  unfolding move tick read_sequence fail_heart quit forward select break_off
  move-Greeted (writes w) l h = write-Greeted w l h
  move-Greeted (greets w) l h = greet-Greeted w l h
  move-Greeted (hears e w) l h = hear-Greeted e w l h
  move-Greeted _ l h = ground arith

  -- A connection writes its first packet at most once, and reads nothing before; all else that it writes
  -- is heartbeats.
  pub serve-greeting :
      (steps : List Step) (interval : ℤ)
      → let l = serve lib steps (open_link resuming interval g) in
        (greetings l.sent ≡ first ∷ []) ⊎ ((l.heard ≡ []) × (greetings l.sent ≡ []))
  unfolding open_link
  serve-greeting steps interval = ground (
    arith,
    serve-keeps lib Greeted move-Greeted steps (open_link resuming interval g)
        (refl, refl, refl, refl),
  )
