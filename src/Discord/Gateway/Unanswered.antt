-- ===== src/Discord/Gateway/Unanswered.antt =====
-- A heartbeat of internal/discord/gateway.go that is not acknowledged ends the connection.
use wrapping_bot.Base.{
  ℕ, ◌+◌, ◌≤◌, ◌≢◌, true, false, List, [], ◌∷◌, ◌++◌, Option, none, ◌≡◌, refl, ap, ◌∙◌, sym, arith,
  Bool-cases, inl, inr, length, length-snoc, All, if_both,
}
use wrapping_bot.Base.Bytes.{Bytes}
use wrapping_bot.Discord.Gateway.{GatewayEnvelope, Outside}
use wrapping_bot.Discord.Gateway.Connection.{
  is_op, note, greet, select, take_op, take_dispatch, take_ready, answer_heartbeat, hear, break_off,
  move, step, serve,
}
use wrapping_bot.Discord.Gateway.Heartbeat.{
  fail_heart, tick, read_sequence, write_heartbeat, quit, forward,
}
use wrapping_bot.Discord.Gateway.State.{
  waiting, stopped, Reader, greeting_next, selecting, reading, returned, Link, Step, ticks, quits,
  forwards, greets, selects, hears, breaks, is_reading, is_panicked,
}
use wrapping_bot.Discord.Gateway.Keeps.{take_op-heard, serve-keeps}

abbrev pub IsReturned : Reader → Type 0
IsReturned (returned text) = Unit
IsReturned _ = ⊥

-- The loop waits for a tick, and its last beat has no acknowledgement yet.
abbrev pub Unanswered : Link → Type 0
Unanswered l = (l.heart ≡ waiting) × (l.heartbeat_ack ≡ false) × (l.heartbeat_failure ≡ none)

-- The heartbeats have ended with a failure that is not yet handed on.
abbrev Failing : Link → Type 0
Failing l = (l.heart ≡ stopped) × (l.heartbeat_failure ≢ none)

-- The error waits for the `select` of the loop, or the loop has returned; at most `n` envelopes are
-- taken in all.
abbrev Due : ℕ → ℕ → Option Bytes → Reader → Type 0
Due n heard err (returned text) = heard ≤ n
Due n heard err reading = (err ≢ none) × (heard + 1 ≤ n)
Due n heard err _ = (err ≢ none) × (heard ≤ n)

abbrev Ending : ℕ → Link → Type 0
Ending n l =
    (l.heart ≡ stopped) × (l.closed ≡ true) × Due n (length l.heard) l.heartbeat_err l.reader

module _ (lib : Outside) where
  -- No tick, no acknowledgement, and the context is not done.
  abbrev pub IsSilent : Step → Type 0
  IsSilent ticks = ⊥
  IsSilent quits = ⊥
  IsSilent (hears e write) = is_op lib 11 e ≡ false
  IsSilent _ = Unit

  abbrev pub IsHeld : Step → Type 0
  IsHeld forwards = ⊥
  IsHeld _ = Unit

  -- What the `switch` on the opcode leaves as it is.
  take_op-kept :
      (e : GatewayEnvelope) (w : Option Bytes) (l : Link)
      → let m = take_op lib e w l in
        (m.heart ≡ l.heart)
        × (m.closed ≡ l.closed)
        × (m.heartbeat_err ≡ l.heartbeat_err)
        × (m.heartbeat_failure ≡ l.heartbeat_failure)
  unfolding take_op take_dispatch take_ready answer_heartbeat
  take_op-kept e w l = ground arith

  take_op-ack :
      (e : GatewayEnvelope) (w : Option Bytes) (l : Link)
      → is_op lib 11 e ≡ false
      → l.heartbeat_ack ≡ false
      → (take_op lib e w l).heartbeat_ack ≡ false
  unfolding take_op take_dispatch take_ready answer_heartbeat
  take_op-ack e w l h a = ground arith

  abbrev IsBack : Reader → Type 0
  IsBack selecting = Unit
  IsBack (returned text) = Unit
  IsBack _ = ⊥

  take_op-IsBack :
      (e : GatewayEnvelope) (w : Option Bytes) (l : Link) → IsBack (take_op lib e w l).reader
  unfolding take_op take_dispatch take_ready answer_heartbeat
  take_op-IsBack e w l = ground arith

  step-by {ℓ} :
      (P : Link → Type ℓ) (s : Step) (l : Link) → P l → P (move lib s l) → P (step lib s l)
  unfolding step
  step-by P s l h moved = if_both P (is_panicked l.heart) h moved

  move-Unanswered : (s : Step) (l : Link) → IsSilent s → Unanswered l → Unanswered (move lib s l)
  unfolding move read_sequence write_heartbeat forward greet select break_off hear
  move-Unanswered (hears e w) l q (h, a, f) =
      if_both Unanswered (is_reading l.reader)
        (let (h', _, _, f') = take_op-kept e w (note lib e l) in
          (h' ∙ h, take_op-ack e w (note lib e l) q a, f' ∙ f))
        (h, a, f)
  move-Unanswered ticks l q h = absurd q
  move-Unanswered quits l q h = absurd q
  move-Unanswered _ l q h = ground arith

  tick-Failing : (l : Link) → Unanswered l → Failing (step lib ticks l)
  unfolding step move tick fail_heart
  tick-Failing l h = ground arith

  move-Failing : (s : Step) (l : Link) → IsHeld s → Failing l → Failing (move lib s l)
  unfolding move tick fail_heart quit read_sequence write_heartbeat greet select break_off hear
  move-Failing (hears e w) l q (h, f) =
      if_both Failing (is_reading l.reader)
        (let (h', _, _, f') = take_op-kept e w (note lib e l) in (h' ∙ h, λ n. f (sym f' ∙ n)))
        (h, f)
  move-Failing forwards l q h = absurd q
  move-Failing _ l q h = ground arith

  forward-Ending : (l : Link) → Failing l → Ending (length l.heard + 1) (step lib forwards l)
  unfolding step move forward
  forward-Ending l h = ground arith

  Due-back :
      (n : ℕ) (heard : ℕ) (err : Option Bytes) (r : Reader)
      → IsBack r
      → err ≢ none
      → heard ≤ n
      → Due n heard err r
  Due-back n heard err selecting b e h = (e, h)
  Due-back n heard err (returned text) b e h = h
  Due-back n heard err (greeting_next _) b e h = absurd b
  Due-back n heard err reading b e h = absurd b

  Due-reading :
      (n : ℕ) (heard : ℕ) (err : Option Bytes) (r : Reader)
      → is_reading r ≡ true
      → Due n heard err r
      → (err ≢ none) × (heard + 1 ≤ n)
  Due-reading n heard err reading e h = h
  Due-reading n heard err (returned text) e h = absurd (cc)
  Due-reading n heard err (greeting_next _) e h = absurd (cc)
  Due-reading n heard err selecting e h = absurd (cc)

  hear-Ending :
      (n : ℕ) (e : GatewayEnvelope) (w : Option Bytes) (l : Link)
      → Ending n l
      → Ending n (hear lib e w l)
  unfolding hear
  hear-Ending n e w l (stops, shut, due) = elim (Bool-cases (is_reading l.reader)) [
    | inr elsewhere ↦ rw (hear, elsewhere) (stops, shut, due)
    | inl here ↦
        let (waits, room) = Due-reading n (length l.heard) l.heartbeat_err l.reader here due in
        let l1 : Link = note lib e l in
        let m : Link = take_op lib e w l1 in
        let (h, c, err, _) = take_op-kept e w l1 in
        let more : length m.heard ≡ length l.heard + 1 =
          ap length (take_op-heard lib e w l1) ∙ length-snoc l.heard e ∙ omega arith in
        let ended : Ending n m = (
          h ∙ stops,
          c ∙ shut,
          Due-back n (length m.heard) m.heartbeat_err m.reader (take_op-IsBack e w l1)
              (λ none_left. waits (sym err ∙ none_left)) (omega arith),
        ) in
        rw (hear, here) ended
  ]

  move-Ending : (n : ℕ) (s : Step) (l : Link) → Ending n l → Ending n (move lib s l)
  unfolding move tick fail_heart quit read_sequence write_heartbeat forward greet select break_off
  move-Ending n (hears e w) l h = hear-Ending n e w l h
  move-Ending n _ l h = ground arith

  serve-each {ℓ} :
      (P : Link → Type ℓ) (Q : Step → Type 0)
      → ((s : Step) (l : Link) → Q s → P l → P (move lib s l))
      → (steps : List Step) (l : Link) → All Q steps
      → P l
      → P (serve lib steps l)
  unfolding serve
  serve-each P Q keep [] l q h = h
  serve-each P Q keep (s ∷ steps) l (q, qs) h =
      serve-each P Q keep steps (step lib s l) qs (step-by P s l h (keep s l q h))

  serve-append :
      (xs ys : List Step) (l : Link) → serve lib (xs ++ ys) l ≡ serve lib ys (serve lib xs l)
  unfolding serve
  serve-append [] ys l = refl
  serve-append (x ∷ xs) ys l = serve-append xs ys (step lib x l)

  Due-heard : (n : ℕ) (heard : ℕ) (err : Option Bytes) (r : Reader) → Due n heard err r → heard ≤ n
  Due-heard n heard err (returned text) h = h
  Due-heard n heard err reading h = omega arith
  Due-heard n heard err selecting h = h.1
  Due-heard n heard err (greeting_next _) h = h.1

  forward-heard : (l : Link) → (step lib forwards l).heard ≡ l.heard
  unfolding step move forward
  forward-heard l = ground arith

  ends :
      (n : ℕ) (m : Link) (w : Option Bytes) (text : Bytes) (cause : Option Bytes)
      → Ending n m
      → IsReturned (serve lib (greets w ∷ breaks text ∷ selects cause ∷ []) m).reader
  unfolding serve step move greet break_off select
  ends n m w text cause h = ground arith

  -- From where the heartbeats wait for the next tick, none has failed, and the last has no
  -- acknowledgement: whatever else happens up to that tick, with no acknowledgement read and the
  -- context not done (`before`), from there until the failure is handed on (`held`), and behind
  -- that (`rest`), the heartbeats have ended, the connection is closed, and the loop takes at most
  -- one envelope more. Once its writes and reads have then returned, `connectAndServe` has
  -- returned.
  pub serve-stopped :
      (l : Link) (before held rest : List Step) (w : Option Bytes) (text : Bytes)
      (cause : Option Bytes)
      → Unanswered l
      → All IsSilent before
      → All IsHeld held
      → let k = serve lib (before ++ (ticks ∷ (held ++ (forwards ∷ [])))) l in
        let m = serve lib rest k in
        (m.heart ≡ stopped)
        × (m.closed ≡ true)
        × (length m.heard ≤ length k.heard + 1)
        × IsReturned (serve lib (greets w ∷ breaks text ∷ selects cause ∷ []) m).reader
  unfolding serve
  serve-stopped l before held rest w text cause h silent holds =
      let l1 = serve lib before l in
      let h1 = serve-each Unanswered IsSilent move-Unanswered before l silent h in
      let l2 = step lib ticks l1 in
      let l3 = serve lib held l2 in
      let h3 = serve-each Failing IsHeld move-Failing held l2 holds (tick-Failing l1 h1) in
      let k = step lib forwards l3 in
      let n = length l3.heard + 1 in
      let same : serve lib (before ++ (ticks ∷ (held ++ (forwards ∷ [])))) l ≡ k =
        serve-append before (ticks ∷ (held ++ (forwards ∷ []))) l
        ∙ serve-append held (forwards ∷ []) l2 in
      let h4 = serve-keeps lib (Ending n) (move-Ending n) rest k (forward-Ending l3 h3) in
      let (stops, shut, due) = h4 in
      let m = serve lib rest k in
      rw same (
        stops,
        shut,
        omega (
          arith,
          Due-heard n (length m.heard) m.heartbeat_err m.reader due,
          ap length (forward-heard l3),
        ),
        ends n m w text cause h4,
      )
