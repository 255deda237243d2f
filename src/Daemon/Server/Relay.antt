-- ===== src/Daemon/Server/Relay.antt =====
-- The batcher as the handler of internal/daemon/server.go drives it: from its start to the return of
-- its `Close`, behind any schedule of the goroutine.
use wrapping_bot.Base.{
  ℕ, zero, suc, ◌+◌, true, false, List, [], ◌∷◌, ◌++◌, Option, ◌≡◌, refl, sym, ap, ◌∙◌, arith,
  length, map, replicate, append_assoc, append-nil, ◌⊎◌, inl, inr,
}
use wrapping_bot.Base.Bytes.{Bytes}
use wrapping_bot.Daemon.Batcher.{
  OutputRecord, Settings, Batcher, Action, adds, closes, delivers, ticks, new_batcher, add, deliver,
  step, run,
}
use wrapping_bot.Daemon.Batcher.Delivery.{
  flush-events, receive-events, finish-events, tagged_outputs, tagged_records,
}
use wrapping_bot.Daemon.Batcher.History.{last_words, takes}
use wrapping_bot.Daemon.Batcher.Queue.{receives, empty-length, close_ends}
use wrapping_bot.Daemon.Batcher.Runs.{taken_along, run_all_sent}
use wrapping_bot.Daemon.Batcher.Sends.{Output, rendered}
use wrapping_bot.Daemon.Server.{Config}
use wrapping_bot.Daemon.Server.Handle.{Pulse, receive, tick, pulse, weave, settings, relay_output}
use wrapping_bot.Protocol.{Event}

-- Records that are some of the outputs, in their order, each with its stream and its text, and the
-- bytes of the outputs that are left out.
pub data Picked : List (Bytes × Bytes) → List OutputRecord → ℕ → Type 0 where
  none_left : Picked [] [] 0
  kept :
      {added : List (Bytes × Bytes)} {taken : List OutputRecord} {lost : ℕ}
      → (stream payload : Bytes) → Picked added taken lost
      → Picked ((stream, payload) ∷ added) (record { stream = stream; text = payload } ∷ taken) lost
  left_out :
      {added : List (Bytes × Bytes)} {taken : List OutputRecord} {lost : ℕ}
      → (stream payload : Bytes) → Picked added taken lost
      → Picked ((stream, payload) ∷ added) taken (length payload + lost)

module _ (cfg : Settings) (answer : ℕ → Option Bytes) where
  pub run-append :
      (b : Batcher) (xs ys : List Action)
      → run cfg answer b (xs ++ ys) ≡ run cfg answer (run cfg answer b xs) ys
  unfolding run
  run-append b [] ys = refl
  run-append b (x ∷ xs) ys = run-append (step cfg answer b x) xs ys

  taken_along-append :
      (b : Batcher) (xs ys : List Action)
      → taken_along cfg answer b (xs ++ ys)
        ≡ taken_along cfg answer b xs ++ taken_along cfg answer (run cfg answer b xs) ys
  unfolding run
  taken_along-append b [] ys = refl
  taken_along-append b (x ∷ xs) ys =
      ap (λ t. takes cfg b x ++ t) (taken_along-append (step cfg answer b x) xs ys)
      ∙ sym (append_assoc (takes cfg b x) _ _)

  -- An action that neither closes the queue, nor takes a record, nor drops one.
  abbrev IsQuiet : Batcher → Batcher → Type 0
  IsQuiet b c = (c.closed ≡ b.closed) × (c.dropped ≡ b.dropped)

  deliver-IsQuiet :
      (b : Batcher) (events : List OutputRecord) → IsQuiet b (deliver cfg answer b events)
  unfolding deliver
  deliver-IsQuiet b [] = ground (arith, finish-events cfg answer b)
  deliver-IsQuiet b (r ∷ rest) =
      ground (arith, receive-events cfg answer (record b { events = rest }) r)

  pulse-IsQuiet : (b : Batcher) (p : Pulse) → IsQuiet b (step cfg answer b (pulse p))
  unfolding step
  pulse-IsQuiet b receive = ground (arith, deliver-IsQuiet b b.events)
  pulse-IsQuiet b tick = ground (arith, flush-events cfg answer b)

  pulses-IsQuiet :
      (b : Batcher) (ps : List Pulse)
      → (taken_along cfg answer b (map pulse ps) ≡ []) × IsQuiet b (run cfg answer b (map pulse ps))
  unfolding run
  pulses-IsQuiet b [] = (refl, (refl, refl))
  pulses-IsQuiet b (receive ∷ ps) =
      let (c, d) = pulse-IsQuiet b receive in
      let (none_taken, (c', d')) = pulses-IsQuiet (step cfg answer b delivers) ps in
      (none_taken, (c' ∙ c, d' ∙ d))
  pulses-IsQuiet b (tick ∷ ps) =
      let (c, d) = pulse-IsQuiet b tick in
      let (none_taken, (c', d')) = pulses-IsQuiet (step cfg answer b ticks) ps in
      (none_taken, (c' ∙ c, d' ∙ d))

  -- From `b` the actions lead to a closed queue, and take of `added` what `Picked` says.
  abbrev Picks : Batcher → List Action → List (Bytes × Bytes) → Type 0
  Picks b acts added =
      (lost : ℕ) × Picked added (taken_along cfg answer b acts) lost
      × ((run cfg answer b acts).dropped ≡ b.dropped + lost)
      × ((run cfg answer b acts).closed ≡ true)

  pulses-Picks :
      (b : Batcher) (ps : List Pulse) (acts : List Action) (added : List (Bytes × Bytes))
      → Picks (run cfg answer b (map pulse ps)) acts added
      → Picks b (map pulse ps ++ acts) added
  pulses-Picks b ps acts added (lost, picked, count, shut) =
      let (none_taken, (_, d)) = pulses-IsQuiet b ps in
      rw (taken_along-append b (map pulse ps) acts, run-append b (map pulse ps) acts, none_taken)
        (lost, picked, count ∙ ap (λ n. n + lost) d, shut)

  -- An `Add` to the open queue takes its record or drops it.
  adds-cases :
      (b : Batcher) (stream payload : Bytes)
      → b.closed ≡ false
      → let c = step cfg answer b (adds stream payload) in
        (c.closed ≡ false)
        × ((takes cfg b (adds stream payload) ≡ record { stream = stream; text = payload } ∷ [])
              × (c.dropped ≡ b.dropped)
            ⊎ (takes cfg b (adds stream payload) ≡ []) × (c.dropped ≡ b.dropped + length payload))
  unfolding step add
  adds-cases b stream payload live = ground (arith, empty-length payload)

  adds-Picks :
      (b : Batcher) (stream payload : Bytes) (acts : List Action) (added : List (Bytes × Bytes))
      → b.closed ≡ false
      → Picks (step cfg answer b (adds stream payload)) acts added
      → Picks b (adds stream payload ∷ acts) ((stream, payload) ∷ added)
  unfolding run
  adds-Picks b stream payload acts added live (lost, picked, count, shut) =
      elim (adds-cases b stream payload live).1 [
        | inl (takes_it, d) ↦
            rw takes_it (lost, Picked.kept stream payload picked, omega (arith, count, d), shut)
        | inr (takes_none, d) ↦ rw takes_none (
          length payload + lost,
          Picked.left_out stream payload picked,
          omega (arith, count, d),
          shut,
        )
      ]

  closes-Picks : (b : Batcher) (ps : List Pulse) → Picks b (closes ∷ map pulse ps) []
  unfolding run step
  closes-Picks b ps =
      let (none_taken, (c, d)) = pulses-IsQuiet (record b { closed = true }) ps in
      rw none_taken (0, Picked.none_left, omega (arith, d), c)

  -- The handler offers all outputs and then closes, whatever the goroutine does in between.
  pub weave-Picks :
      (schedule : ℕ → List Pulse) (n : ℕ) (b : Batcher) (added : List (Bytes × Bytes))
      → b.closed ≡ false
      → Picks b (weave schedule n added) added
  unfolding weave
  weave-Picks schedule n b [] live =
      pulses-Picks b (schedule n) _ []
        (closes-Picks (run cfg answer b (map pulse (schedule n))) (schedule (suc n)))
  weave-Picks schedule n b ((stream, payload) ∷ rest) live =
      let c : Batcher = run cfg answer b (map pulse (schedule n)) in
      let (_, (kept_open, _)) = pulses-IsQuiet b (schedule n) in
      let live' : c.closed ≡ false = kept_open ∙ live in
      pulses-Picks b (schedule n) _ ((stream, payload) ∷ rest) (
        adds-Picks c stream payload (weave schedule (suc n) rest) rest live' (
          weave-Picks schedule (suc n) (step cfg answer c (adds stream payload)) rest
            (adds-cases c stream payload live').0))

  -- Behind the close nothing is taken or dropped.
  delivers-IsQuiet :
      (b : Batcher) (k : ℕ)
      → (taken_along cfg answer b (replicate k delivers) ≡ [])
        × IsQuiet b (run cfg answer b (replicate k delivers))
  unfolding run
  delivers-IsQuiet b zero = (refl, (refl, refl))
  delivers-IsQuiet b (suc k) =
      let (c, d) = pulse-IsQuiet b receive in
      let (none_taken, (c', d')) = delivers-IsQuiet (step cfg answer b delivers) k in
      (none_taken, (c' ∙ c, d' ∙ d))

pub receives-replicate : (k : ℕ) → receives (replicate k delivers) ≡ k
receives-replicate zero = refl
receives-replicate (suc k) = omega (arith, receives-replicate k)

module _ (cfg : Config) (answer : ℕ → Option Bytes) (schedule : ℕ → List Pulse) (start : Event)
    (added : List (Bytes × Bytes)) where
  abbrev conf : Settings
  conf = settings cfg start

  -- All that the batcher does until `Close` has returned.
  abbrev acts : List Action
  acts =
      weave schedule 0 added
      ++ replicate (suc (length (run conf answer new_batcher (weave schedule 0 added)).events))
          delivers

  pub relay_output-run :
      relay_output cfg answer schedule start added ≡ run conf answer new_batcher acts
  unfolding relay_output
  relay_output-run = sym (run-append conf answer new_batcher (weave schedule 0 added) _)

  abbrev woven : Batcher
  woven = run conf answer new_batcher (weave schedule 0 added)

  relay-Picks : Picks conf answer new_batcher (weave schedule 0 added) added
  relay-Picks = weave-Picks conf answer schedule 0 new_batcher added (unfold new_batcher in refl)

  relay-Picked :
      Picked added
        (taken_along conf answer new_batcher acts)
        (run conf answer new_batcher acts).dropped
  unfolding new_batcher
  relay-Picked =
      let (lost, picked, count, _) = relay-Picks in
      let (none_taken, (_, d)) = delivers-IsQuiet conf answer woven (suc (length woven.events)) in
      let taken_is : taken_along conf answer new_batcher acts
          ≡ taken_along conf answer new_batcher (weave schedule 0 added) =
        taken_along-append conf answer new_batcher (weave schedule 0 added) _
        ∙ ap (λ t. taken_along conf answer new_batcher (weave schedule 0 added) ++ t) none_taken
        ∙ append-nil _ in
      let lost_is : (run conf answer new_batcher acts).dropped ≡ lost =
        ap (λ b. b.dropped) (run-append conf answer new_batcher (weave schedule 0 added) _)
        ∙ d
        ∙ count
        ∙ omega arith in
      rw (taken_is, lost_is) picked

  relay-done : (run conf answer new_batcher acts).done ≡ true
  relay-done =
      let (_, _, _, shut) = relay-Picks in
      ap (λ d. d.done) (run-append conf answer new_batcher (weave schedule 0 added) _)
      ∙ close_ends conf answer woven (replicate (suc (length woven.events)) delivers) shut
          (omega (arith, receives-replicate (suc (length woven.events))))

  -- Whatever the goroutine does meanwhile: the batcher of a run has ended when the handler goes on,
  -- and the outputs of its messages spell, each byte with its stream and in order, the text of the
  -- records that the queue took, then the notice if bytes were dropped. The records taken are some of
  -- the stream's outputs, in their order and each whole with its stream, and the bytes of all others
  -- are counted as dropped.
  pub relay_output-delivers :
      let b = relay_output cfg answer schedule start added in
      (b.done ≡ true)
      × ((outs : List Output) × (taken : List OutputRecord) × (b.sent ≡ rendered conf outs)
          × (tagged_outputs outs ≡ tagged_records conf taken ++ last_words b.dropped)
          × Picked added taken b.dropped)
  relay_output-delivers = rw relay_output-run (
      let (outs, sent_is, spells) = run_all_sent conf answer acts relay-done in
      (relay-done, (outs, taken_along conf answer new_batcher acts, sent_is, spells, relay-Picked)))
