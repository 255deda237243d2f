-- ===== src/Discord/Gateway/Waits.antt =====
-- How long `Run` of internal/discord/gateway.go waits behind its connections.
use wrapping_bot.Base.{
  ℕ, zero, suc, ◌+◌, ◌*◌, ◌^◌, min, List, [], ◌∷◌, ◌++◌, ◌≡◌, refl, ap, subst, arith,
}
use wrapping_bot.Discord.Gateway.{Gateway, Outside}
use wrapping_bot.Discord.Gateway.Run.{
  second, Meeting, Outcome, stopped, serving, next_backoff, disconnected, run_from, run,
  run_from-round,
}

abbrev pub waits_of : Outcome → List ℕ
waits_of (stopped g waits) = waits
waits_of (serving l waits) = waits

-- The first `count` of the waits 1, 2, 4, ... seconds, none above 30, from the `n`-th on.
abbrev pub nth_wait : ℕ → ℕ
nth_wait n = min (2 ^ n) 30 * second

abbrev pub schedule : ℕ → ℕ → List ℕ
schedule n zero = []
schedule n (suc count) = nth_wait n ∷ schedule (suc n) count

next_backoff-nth_wait : (n : ℕ) → next_backoff (nth_wait n) ≡ nth_wait (suc n)
unfolding next_backoff
next_backoff-nth_wait n = ground arith

schedule-snoc :
    (n count : ℕ) → schedule n count ++ (nth_wait (n + count) ∷ []) ≡ schedule n (suc count)
schedule-snoc n zero = ground arith
schedule-snoc n (suc count) =
    ap (λ r. nth_wait n ∷ r)
      (subst (λ k. schedule (suc n) count ++ (nth_wait k ∷ []) ≡ schedule (suc n) (suc count))
        (omega arith) (schedule-snoc (suc n) count))

schedule-next : (count : ℕ) → schedule 0 count ++ (nth_wait count ∷ []) ≡ schedule 0 (suc count)
schedule-next count =
    subst (λ k. schedule 0 count ++ (nth_wait k ∷ []) ≡ schedule 0 (suc count)) (omega arith)
      (schedule-snoc 0 count)

abbrev pub Scheduled : Outcome → Type 0
Scheduled o = (count : ℕ) × (waits_of o ≡ schedule 0 count)

module _ (lib : Outside) where
  run_from-Scheduled :
      (ms : List Meeting) (count : ℕ) (g : Gateway)
      → Scheduled (run_from lib (nth_wait count) (schedule 0 count) g ms)
  unfolding run_from
  run_from-Scheduled [] count g = (count, refl)
  run_from-Scheduled (m ∷ ms) count g =
      run_from-round lib Scheduled (nth_wait count) (schedule 0 count) g m ms (λ l e. (count, refl))
        (λ text g1 e. (count, refl)) (λ text g1 e. (suc count, schedule-next count))
        (λ text g1 e.
          rw (schedule-next count, next_backoff-nth_wait count)
            (run_from-Scheduled ms (suc count) (disconnected g1)))

  -- The waits behind the connections of a gateway are 1, 2, 4, 8 and 16 seconds, and 30 from then on:
  -- the n-th is the smaller of 2^n seconds and 30.
  pub run-schedule : (g : Gateway) (ms : List Meeting) → Scheduled (run lib g ms)
  unfolding run
  run-schedule g ms = run_from-Scheduled ms 0 g
