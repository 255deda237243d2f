-- ===== src/Daemon/Batcher/Runs.antt =====
-- The delivery of log text along a whole run: every interleaving of the handler and the loop.
use wrapping_bot.Base.{
  ℕ, true, false, List, [], ◌∷◌, ◌++◌, Option, ◌≡◌, refl, sym, subst, ap, ◌∙◌, arith, ◌⊎◌, inl, inr,
  append_assoc, append-nil, Bool-cases, if◌then◌else◌,
}
use wrapping_bot.Base.Bytes.{Bytes}
use wrapping_bot.Daemon.Batcher.{
  OutputRecord, Settings, Batcher, Action, adds, closes, delivers, ticks, new_batcher, add, flush,
  finish, deliver, step, run,
}
use wrapping_bot.Daemon.Batcher.Sends.{Output, rendered}
use wrapping_bot.Daemon.Batcher.Delivery.{tagged, tagged_outputs, tagged_records}
use wrapping_bot.Daemon.Batcher.History.{
  last_words, notice, takes, Delivers, add-Delivers, flush-Delivers, receive-Delivers,
  finish-Delivers,
}

module _ (cfg : Settings) where
  module _ (answer : ℕ → Option Bytes) where
    -- The cases of a step: nothing happens, or one of the operations takes place.
    adds-cases :
        (b : Batcher) (stream text : Bytes)
        → (step cfg answer b (adds stream text) ≡ b) × (takes cfg b (adds stream text) ≡ [])
          ⊎ (b.closed ≡ false)
            × (step cfg answer b (adds stream text) ≡ add cfg answer b stream text)
    unfolding step
    adds-cases b stream text = ground arith

    delivers-cases :
        (b : Batcher)
        → (step cfg answer b delivers ≡ b)
          ⊎ ((b.done ≡ false) × (step cfg answer b delivers ≡ deliver cfg answer b b.events))
    unfolding step
    delivers-cases b = ground arith

    closes-step : (b : Batcher) → step cfg answer b closes ≡ record b { closed = true }
    unfolding step
    closes-step b = refl

    ticks-cases :
        (b : Batcher)
        → (step cfg answer b ticks ≡ b)
          ⊎ ((b.done ≡ false) × (step cfg answer b ticks ≡ flush cfg answer b))
    unfolding step
    ticks-cases b = ground arith

    deliver-Delivers :
        (b : Batcher) (events : List OutputRecord) (outs : List Output) (taken : List OutputRecord)
        → b.events ≡ events
        → b.done ≡ false
        → Delivers cfg b outs taken
        → (outs' : List Output) × Delivers cfg (deliver cfg answer b events) outs' taken
    unfolding deliver
    deliver-Delivers b [] outs taken e live h = elim (Bool-cases b.closed) [
      | inl shut ↦
          subst
            (λ c. (os : List Output) × Delivers cfg (if c then finish cfg answer b else b) os taken)
            (sym shut) (finish-Delivers cfg answer b outs taken live shut e h)
      | inr open_still ↦
          subst
            (λ c. (os : List Output) × Delivers cfg (if c then finish cfg answer b else b) os taken)
            (sym open_still) (outs, h)
    ]
    deliver-Delivers b (r ∷ rest) outs taken e live h =
        receive-Delivers cfg answer b r rest outs taken live e h

    pub step-Delivers :
        (b : Batcher) (a : Action) (outs : List Output) (taken : List OutputRecord)
        → Delivers cfg b outs taken
        → (outs' : List Output) × Delivers cfg (step cfg answer b a) outs' (taken ++ takes cfg b a)
    step-Delivers b (adds stream text) outs taken h = elim (adds-cases b stream text) [
      | inl (p, q) ↦ (outs, rw (p, q, append-nil taken) h)
      | inr (e, p) ↦ (outs, rw p (add-Delivers cfg answer b stream text outs taken h e))
    ]
    step-Delivers b closes outs taken h =
        rw (append-nil taken, closes-step b)
          (
            outs,
            record {
              text = h.text;
              spelled = h.spelled;
              in_order = h.in_order;
              drained = λ e. ((h.drained e).0, (h.drained e).1, refl);
            },
          )
    step-Delivers b delivers outs taken h = rw (append-nil taken) (elim (delivers-cases b) [
      | inl p ↦ (outs, rw p h)
      | inr (live, p) ↦ rw p (deliver-Delivers b b.events outs taken refl live h)
    ])
    step-Delivers b ticks outs taken h = rw (append-nil taken) (elim (ticks-cases b) [
      | inl p ↦ (outs, rw p h)
      | inr (live, p) ↦ rw p (flush-Delivers cfg answer b outs taken live h)
    ])

    -- The records that the queue takes along a run.
    abbrev pub taken_along : Batcher → List Action → List OutputRecord
    taken_along b [] = []
    taken_along b (a ∷ rest) = takes cfg b a ++ taken_along (step cfg answer b a) rest

    run-Delivers :
        (b : Batcher) (acts : List Action) (outs : List Output) (taken : List OutputRecord)
        → Delivers cfg b outs taken
        → (outs' : List Output) × Delivers cfg
            (run cfg answer b acts)
            outs'
            (taken ++ taken_along b acts)
    unfolding run
    run-Delivers b [] outs taken h = rw (append-nil taken) (outs, h)
    run-Delivers b (a ∷ rest) outs taken h =
        let (outs1, h1) = step-Delivers b a outs taken h in
        rw (← append_assoc taken (takes cfg b a) (taken_along (step cfg answer b a) rest))
          (run-Delivers (step cfg answer b a) rest outs1 (taken ++ takes cfg b a) h1)

    new_batcher-Delivers : Delivers cfg new_batcher [] []
    unfolding new_batcher
    new_batcher-Delivers = record {
      text = [];
      spelled = record { sent_is = refl; spells = refl; fresh = λ _. refl };
      in_order = refl;
      drained = λ e. absurd (cc);
    }

    -- After every run from a new batcher, the messages sent are those of some outputs; the text of
    -- these outputs, of the buffer and of the queue, each byte with its stream, is the text of the
    -- records that the queue took, in their order, and the notice of dropped bytes once the loop has
    -- ended. Records are taken with their stream normalized and, if so set, ANSI sequences removed.
    pub run_in_order :
        (acts : List Action)
        → let b = run cfg answer new_batcher acts in
          (outs : List Output) × (b.sent ≡ rendered cfg outs)
          × ((tagged_outputs outs ++ tagged b.current_stream b.buffer)
                ++ tagged_records cfg b.events
              ≡ tagged_records cfg (taken_along new_batcher acts) ++ notice b)
    run_in_order acts =
        let (outs, h) = run-Delivers new_batcher acts [] [] new_batcher-Delivers in
        (
          outs,
          h.spelled.sent_is,
          ap (λ t. t ++ tagged_records cfg (run cfg answer new_batcher acts).events)
                h.spelled.spells
              ∙ h.in_order,
        )

    -- Once the loop has ended, all of it is sent: the outputs alone spell the text of the records
    -- taken, and then the notice if bytes were dropped.
    pub run_all_sent :
        (acts : List Action)
        → let b = run cfg answer new_batcher acts in
          b.done ≡ true
          → (outs : List Output) × (b.sent ≡ rendered cfg outs)
            × (tagged_outputs outs
                ≡ tagged_records cfg (taken_along new_batcher acts) ++ last_words b.dropped)
    run_all_sent acts ended =
        let b : Batcher = run cfg answer new_batcher acts in
        let (outs, h) = run-Delivers new_batcher acts [] [] new_batcher-Delivers in
        let (empty, none_left, _) = h.drained ended in
        (
          outs,
          h.spelled.sent_is,
          sym (append-nil (tagged_outputs outs))
              ∙ ap (λ t. tagged_outputs outs ++ tagged b.current_stream t) (sym empty)
              ∙ h.spelled.spells
              ∙ sym (append-nil h.text)
              ∙ ap (λ t. h.text ++ tagged_records cfg t) (sym none_left)
              ∙ h.in_order
              ∙ ap
                  (λ d.
                    tagged_records cfg (taken_along new_batcher acts)
                    ++ (if d then last_words b.dropped else []))
                  ended,
        )
