-- ===== src/Tests/Logs.antt =====
-- A run of the batcher of internal/daemon/batcher.go: two records of different streams, a record that
-- the queue has no room for, and the close.
use wrapping_bot.Base.{
  ℕ, ◌≤◌, ◌+◌, true, false, List, [], ◌∷◌, ◌++◌, Option, some, none, ◌≡◌, refl, arith, All, length,
  ◌==◌, if◌then◌else◌,
}
use wrapping_bot.Base.Bytes.{Bytes, str, bytes_eq}
use wrapping_bot.Base.Decimal.{decimal}
use wrapping_bot.Daemon.Batcher.{Settings, Action, adds, closes, delivers, ticks, new_batcher, run}
use wrapping_bot.Daemon.Batcher.Delivery.{tagged, tagged_outputs, tagged_records}
use wrapping_bot.Daemon.Batcher.Errors.{first_error, run-first_error}
use wrapping_bot.Daemon.Batcher.History.{last_words, notice}
use wrapping_bot.Daemon.Batcher.Limit.{IsSendable, run-IsSendable}
use wrapping_bot.Daemon.Batcher.Queue.{text_length, offered_along, run_accounts, close_ends}
use wrapping_bot.Daemon.Batcher.Runs.{taken_along, run_in_order, run_all_sent}
use wrapping_bot.Daemon.Batcher.Sends.{Output, rendered}
use wrapping_bot.Text.Fence.{escape_code_fence}
use wrapping_bot.Text.Split.{split_utf8}

abbrev cfg : Settings
cfg = record {
  channel_id = str "1";
  run_id = str "run-12345";
  max_log_bytes = 256;
  queue_size = 2;
  strip = false;
}

-- The second message fails.
abbrev answer : ℕ → Option Bytes
answer n = if n == 1 then some (str "x") else none

abbrev before_close : List Action
before_close =
    adds (str "stdout") (str "a")
    ∷ adds (str "stderr") (str "b")
    ∷ adds (str "stdout") (str "c")
    ∷ closes
    ∷ []

abbrev acts : List Action
acts = before_close ++ delivers ∷ ticks ∷ delivers ∷ delivers ∷ []

abbrev rest : List Action
rest = delivers ∷ ticks ∷ delivers ∷ delivers ∷ []

closed_then :
    ((run cfg answer new_batcher before_close).closed ≡ true)
    × (length (run cfg answer new_batcher before_close).events ≡ 2)
unfolding run new_batcher split_utf8 escape_code_fence bytes_eq decimal
closed_then = (refl, refl)

ended : (run cfg answer new_batcher acts).done ≡ true
unfolding run new_batcher split_utf8 escape_code_fence bytes_eq decimal
ended = refl

outcome :
    ((run cfg answer new_batcher acts).dropped ≡ 1)
    × (length (run cfg answer new_batcher acts).sent ≡ 3)
    × ((run cfg answer new_batcher acts).first_err ≡ some (str "x"))
unfolding run new_batcher split_utf8 escape_code_fence bytes_eq decimal
outcome = (refl, refl, refl)

run_in_order_example :
    let b = run cfg answer new_batcher acts in
    (outs : List Output) × (b.sent ≡ rendered cfg outs)
    × ((tagged_outputs outs ++ tagged b.current_stream b.buffer) ++ tagged_records cfg b.events
        ≡ tagged_records cfg (taken_along cfg answer new_batcher acts) ++ notice b)
run_in_order_example = run_in_order cfg answer acts

run_all_sent_example :
    let b = run cfg answer new_batcher acts in
    (outs : List Output) × (b.sent ≡ rendered cfg outs)
    × (tagged_outputs outs
        ≡ tagged_records cfg (taken_along cfg answer new_batcher acts) ++ last_words b.dropped)
run_all_sent_example = run_all_sent cfg answer acts ended

run_accounts_example :
    (offered_along cfg answer new_batcher acts
      ≡ text_length (taken_along cfg answer new_batcher acts)
        + (run cfg answer new_batcher acts).dropped)
    × (length (run cfg answer new_batcher acts).events ≤ 2)
run_accounts_example = run_accounts cfg answer acts

close_ends_example : (run cfg answer (run cfg answer new_batcher before_close) rest).done ≡ true
close_ends_example =
    close_ends cfg answer (run cfg answer new_batcher before_close) rest closed_then.0
      (omega (arith, closed_then.1))

run-IsSendable_example :
    All (IsSendable cfg (omega arith, omega arith)) (run cfg answer new_batcher acts).sent
run-IsSendable_example = run-IsSendable cfg (omega arith, omega arith) answer acts

run-first_error_example :
    let b = run cfg answer new_batcher acts in
    (b.first_err ≡ first_error answer (length b.sent))
    × (b.sent ≡ (run cfg (λ n. none) new_batcher acts).sent)
run-first_error_example = run-first_error cfg answer acts
