-- ===== src/Daemon/Batcher.antt =====
-- internal/daemon/batcher.go: output records wait in a bounded queue; a loop joins those of one
-- stream in a buffer and sends the buffer as Discord messages. `step` is one action of the handler
-- (`Add`, `Close`) or of the loop's goroutine (a receive, a tick), and a list of actions is one
-- interleaving of the two. `answer n` is what the n-th call of `MessageSender.Send` returns.
pub mod Sends
pub mod Delivery
pub mod History
pub mod Runs
pub mod Queue
pub mod Invariant
pub mod Limit
pub mod Errors
use wrapping_bot.Base.{
  ℕ, suc, zero, ◌+◌, Bool, true, false, ◌||◌, ◌&&◌, not, List, [], ◌∷◌, ◌++◌, Option, some, none,
  ltb, leb, ◌==◌, if◌then◌else◌, take, length,
}
use wrapping_bot.Base.Bytes.{Bytes, str, bytes_eq, is_empty}
use wrapping_bot.Base.Decimal.{decimal}
use wrapping_bot.Protocol.{stream_stdout, stream_stderr, stream_system}
use wrapping_bot.Text.Ansi.{strip_ansi}
use wrapping_bot.Text.Fence.{escape_code_fence}
use wrapping_bot.Text.Split.{split_utf8}

pub record OutputRecord : Type 0 where
  pub stream : Bytes
  pub text : Bytes

pub record Message : Type 0 where
  pub channel_id : Bytes
  pub content : Bytes

-- What `NewBatcher` is given. The flush interval only says how often ticks come, so it is left out.
pub record Settings : Type 0 where
  pub channel_id : Bytes
  pub run_id : Bytes
  pub max_log_bytes : ℕ
  pub queue_size : ℕ
  pub strip : Bool

pub record Batcher : Type 0 where
  pub events : List OutputRecord
  pub closed : Bool
  pub done : Bool
  pub dropped : ℕ
  pub first_err : Option Bytes
  pub current_stream : Bytes
  pub buffer : Bytes
  pub sent : List Message

unfoldable pub normalize_stream : Bytes → Bytes
normalize_stream stream =
    if bytes_eq stream stream_stdout
      || bytes_eq stream stream_stderr
      || bytes_eq stream stream_system
    then stream
    else stream_system

unfoldable pub short_run_id : Bytes → Bytes
short_run_id run_id = if leb (length run_id) 8 then run_id else take 8 run_id

-- `strings.TrimSuffix(part, "\n")`
unfoldable pub trim_newline : Bytes → Bytes
trim_newline [] = []
trim_newline (c ∷ []) = if c == b'\n' then [] else c ∷ []
trim_newline (c ∷ d ∷ s) = c ∷ trim_newline (d ∷ s)

unfoldable pub new_batcher : Batcher
new_batcher = record {
  events = [];
  closed = false;
  done = false;
  dropped = 0;
  first_err = none;
  current_stream = [];
  buffer = [];
  sent = [];
}

unfoldable pub record_error : Batcher → Bytes → Batcher
record_error b err = elim b.first_err [ none ↦ record b { first_err = some err } | some first ↦ b ]

unfoldable pub overflow_notice : ℕ → Bytes
overflow_notice dropped =
    str "[wrapping-bot daemon queue overflow: " ++ decimal dropped ++ str " bytes omitted]\n"

unfoldable pub message_content : Settings → Bytes → Bytes → Bytes
unfolding short_run_id trim_newline
message_content cfg stream part =
    str "**`"
    ++ short_run_id cfg.run_id
    ++ str "` · `"
    ++ stream
    ++ str "`**\n```text\n"
    ++ trim_newline part
    ++ str "\n```"

-- What can happen next: the handler calls `Add` or closes the queue, the loop's goroutine receives
-- from the queue, or its ticker fires.
pub data Action : Type 0 where
  adds : Bytes → Bytes → Action
  closes : Action
  delivers : Action
  ticks : Action

module _ (cfg : Settings) (answer : ℕ → Option Bytes) where
  unfoldable pub add : Batcher → Bytes → Bytes → Batcher
  add b stream text =
      if is_empty text
      then b
      else if ltb (length b.events) cfg.queue_size
      then record b { events = b.events ++ (record { stream = stream; text = text } ∷ []) }
      else record b { dropped = b.dropped + length text }

  unfoldable pub send : Batcher → Bytes → Batcher
  unfolding record_error
  send b content =
      let b' = record b {
        sent = b.sent ++ (record { channel_id = cfg.channel_id; content = content } ∷ []);
      } in
      elim (answer (length b.sent)) [ none ↦ b' | some err ↦ record_error b' err ]

  unfoldable pub send_parts : Batcher → Bytes → List Bytes → Batcher
  unfolding send message_content
  send_parts b stream [] = b
  send_parts b stream (part ∷ parts) =
      send_parts (send b (message_content cfg stream part)) stream parts

  unfoldable pub send_output : Batcher → Bytes → Bytes → Batcher
  unfolding send_parts
  send_output b stream text =
      send_parts b stream (split_utf8 (escape_code_fence text) cfg.max_log_bytes)

  unfoldable pub flush : Batcher → Batcher
  unfolding send_output
  flush b =
      if is_empty b.buffer
      then b
      else record (send_output b b.current_stream b.buffer) { buffer = [] }

  -- The loop's case of a record.
  unfoldable pub receive : Batcher → OutputRecord → Batcher
  unfolding flush normalize_stream
  receive b r =
      let stream = normalize_stream r.stream in
      let b1 =
        if not (is_empty b.current_stream) && not (bytes_eq stream b.current_stream)
        then flush b
        else b in
      let text = if cfg.strip then strip_ansi r.text else r.text in
      let b2 = record b1 { current_stream = stream; buffer = b1.buffer ++ text } in
      if leb cfg.max_log_bytes (length b2.buffer) then flush b2 else b2

  -- The loop's case of the closed and empty queue, where the goroutine ends.
  unfoldable pub finish : Batcher → Batcher
  unfolding flush overflow_notice
  finish b =
      let b1 =
        if ltb 0 b.dropped
        then (let f = flush b in
            record f {
              current_stream = stream_system;
              buffer = f.buffer ++ overflow_notice b.dropped;
            })
        else b in
      record (flush b1) { done = true }

  -- A receive; with nothing in the open queue the loop waits.
  unfoldable pub deliver : Batcher → List OutputRecord → Batcher
  unfolding receive finish
  deliver b [] = if b.closed then finish b else b
  deliver b (r ∷ rest) = receive (record b { events = rest }) r

  -- The handler adds nothing behind its `Close`, and the goroutine does nothing when it has ended.
  unfoldable pub step : Batcher → Action → Batcher
  unfolding add deliver flush
  step b (adds stream text) = if b.closed then b else add b stream text
  step b closes = record b { closed = true }
  step b delivers = if b.done then b else deliver b b.events
  step b ticks = if b.done then b else flush b

  unfoldable pub run : Batcher → List Action → Batcher
  unfolding step
  run b [] = b
  run b (a ∷ rest) = run (step b a) rest

  -- What `Close` returns when the goroutine has ended: the bytes dropped and the first error.
  abbrev pub close_result : Batcher → ℕ × Option Bytes
  close_result b = (b.dropped, b.first_err)
