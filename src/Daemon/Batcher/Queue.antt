-- ===== src/Daemon/Batcher/Queue.antt =====
-- The bounded queue of the batcher: its bound, the count of dropped bytes, and the end of the loop.
use wrapping_bot.Base.{
  ℕ, suc, ◌+◌, ◌≤◌, ◌<◌, true, List, [], ◌∷◌, ◌++◌, Option, ◌≡◌, refl, arith, if◌then◌else◌, length,
  length-append, inl, inr, ◌⊎◌,
}
use wrapping_bot.Base.Bytes.{Bytes, is_empty}
use wrapping_bot.Daemon.Batcher.{
  OutputRecord, Settings, Batcher, Action, adds, closes, delivers, ticks, new_batcher, add, deliver,
  step, run,
}
use wrapping_bot.Daemon.Batcher.Delivery.{flush-events, receive-events, finish-events}
use wrapping_bot.Daemon.Batcher.History.{takes}
use wrapping_bot.Daemon.Batcher.Runs.{taken_along}

abbrev pub text_length : List OutputRecord → ℕ
text_length [] = 0
text_length (r ∷ rs) = length r.text + text_length rs

text_length-append :
    (rs qs : List OutputRecord) → text_length (rs ++ qs) ≡ text_length rs + text_length qs
text_length-append [] qs = omega arith
text_length-append (r ∷ rs) qs = omega (arith, text_length-append rs qs)

-- The bytes that the handler hands to `Add` before it closes the queue.
abbrev pub offered : Batcher → Action → ℕ
offered b (adds stream text) = if b.closed then 0 else length text
offered b _ = 0

-- How often a run receives from the queue.
abbrev pub receives : List Action → ℕ
receives [] = 0
receives (adds _ _ ∷ rest) = receives rest
receives (closes ∷ rest) = receives rest
receives (delivers ∷ rest) = suc (receives rest)
receives (ticks ∷ rest) = receives rest

pub empty-length : (s : Bytes) → is_empty s ≡ true → length s ≡ 0
empty-length [] e = refl
empty-length (c ∷ s) e = absurd (cc)

module _ (cfg : Settings) (answer : ℕ → Option Bytes) where
  abbrev pub offered_along : Batcher → List Action → ℕ
  offered_along b [] = 0
  offered_along b (a ∷ rest) = offered b a + offered_along (step cfg answer b a) rest

  deliver-dropped :
      (b : Batcher) (events : List OutputRecord)
      → b.events ≡ events
      → ((deliver cfg answer b events).dropped ≡ b.dropped)
        × (length (deliver cfg answer b events).events ≤ length b.events)
  unfolding deliver
  deliver-dropped b [] e = ground (arith, finish-events cfg answer b)
  deliver-dropped b (r ∷ rest) e =
      ground (arith, receive-events cfg answer (record b { events = rest }) r)

  -- Each action takes or drops what it is offered, whole.
  step-counts :
      (b : Batcher) (a : Action)
      → ((step cfg answer b a).dropped + text_length (takes cfg b a) ≡ b.dropped + offered b a)
        × (length b.events ≤ cfg.queue_size → length (step cfg answer b a).events ≤ cfg.queue_size)
  unfolding step add
  step-counts b (adds stream text) = ground (
    arith,
    empty-length text,
    length-append b.events (record { stream = stream; text = text } ∷ []),
  )
  step-counts b closes = ground arith
  step-counts b delivers = ground (arith, deliver-dropped b b.events refl)
  step-counts b ticks = ground (arith, flush-events cfg answer b)

  run-counts :
      (b : Batcher) (acts : List Action)
      → ((run cfg answer b acts).dropped + text_length (taken_along cfg answer b acts)
          ≡ b.dropped + offered_along b acts)
        × (length b.events ≤ cfg.queue_size
            → length (run cfg answer b acts).events ≤ cfg.queue_size)
  unfolding run
  run-counts b [] = (omega arith, λ h. h)
  run-counts b (a ∷ rest) =
      let (count, bound) = step-counts b a in
      let (counts, bounds) = run-counts (step cfg answer b a) rest in
      (
        omega (
          arith,
          text_length-append (takes cfg b a) (taken_along cfg answer (step cfg answer b a) rest),
        ),
        λ h. bounds (bound h),
      )

  -- After every run from a new batcher, each byte offered before the close is either in a record that
  -- the queue took or counted as dropped, and the queue holds at most `queue_size` records.
  pub run_accounts :
      (acts : List Action)
      → (offered_along new_batcher acts
          ≡ text_length (taken_along cfg answer new_batcher acts)
            + (run cfg answer new_batcher acts).dropped)
        × (length (run cfg answer new_batcher acts).events ≤ cfg.queue_size)
  unfolding new_batcher
  run_accounts acts =
      let (count, bound) = run-counts new_batcher acts in (omega arith, bound (omega arith))

  deliver-progress :
      (b : Batcher) (events : List OutputRecord)
      → b.events ≡ events
      → b.closed ≡ true
      → ((deliver cfg answer b events).closed ≡ true)
        × (((deliver cfg answer b events).done ≡ true)
            ⊎ (length (deliver cfg answer b events).events < length b.events))
  unfolding deliver
  deliver-progress b [] e shut = ground (arith, finish-events cfg answer b)
  deliver-progress b (r ∷ rest) e shut =
      ground (arith, receive-events cfg answer (record b { events = rest }) r)

  -- Behind the close no action opens the queue, fills it or undoes the end of the loop.
  pub closed-step :
      (b : Batcher) (a : Action)
      → b.closed ≡ true
      → ((step cfg answer b a).closed ≡ true)
        × (length (step cfg answer b a).events ≤ length b.events)
        × (b.done ≡ true → (step cfg answer b a).done ≡ true)
  unfolding step
  closed-step b (adds stream text) shut = ground arith
  closed-step b closes shut = ground arith
  closed-step b delivers shut =
      ground (arith, deliver-dropped b b.events refl, deliver-progress b b.events refl)
  closed-step b ticks shut = ground (arith, flush-events cfg answer b)

  delivers-progress :
      (b : Batcher)
      → b.closed ≡ true
      → ((step cfg answer b delivers).done ≡ true)
        ⊎ (length (step cfg answer b delivers).events < length b.events)
  unfolding step
  delivers-progress b shut = ground (arith, deliver-progress b b.events refl)

  done-run :
      (b : Batcher) (acts : List Action)
      → b.closed ≡ true
      → b.done ≡ true
      → (run cfg answer b acts).done ≡ true
  unfolding run
  done-run b [] shut ended = ended
  done-run b (a ∷ rest) shut ended =
      let (shut', _, ended') = closed-step b a shut in
      done-run (step cfg answer b a) rest shut' (ended' ended)

  -- From a closed queue the loop ends, and so `Close` returns, in every run that has one receive more
  -- than records wait, whatever else happens in it.
  pub close_ends :
      (b : Batcher) (acts : List Action)
      → b.closed ≡ true
      → length b.events < receives acts
      → (run cfg answer b acts).done ≡ true
  unfolding run
  close_ends b [] shut h = absurd (omega arith)
  close_ends b (adds stream text ∷ rest) shut h =
      let (shut', fewer, _) = closed-step b (adds stream text) shut in
      close_ends (step cfg answer b (adds stream text)) rest shut' (omega arith)
  close_ends b (closes ∷ rest) shut h =
      let (shut', fewer, _) = closed-step b closes shut in
      close_ends (step cfg answer b closes) rest shut' (omega arith)
  close_ends b (delivers ∷ rest) shut h =
      let (shut', _, _) = closed-step b delivers shut in
      elim (delivers-progress b shut) [
        | inl ended ↦ done-run (step cfg answer b delivers) rest shut' ended
        | inr fewer ↦ close_ends (step cfg answer b delivers) rest shut' (omega arith)
      ]
  close_ends b (ticks ∷ rest) shut h =
      let (shut', fewer, _) = closed-step b ticks shut in
      close_ends (step cfg answer b ticks) rest shut' (omega arith)
