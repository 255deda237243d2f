-- ===== src/Daemon/Server/Handle.antt =====
-- `sendLong` and the whole of `handleStream` of internal/daemon/server.go.
use wrapping_bot.Base.{
  ℕ, suc, ◌+◌, true, List, [], ◌∷◌, ◌++◌, Option, some, none, map, length, replicate,
}
use wrapping_bot.Base.Bytes.{Bytes, str}
use wrapping_bot.Daemon.Batcher.{
  Message, Settings, Batcher, Action, adds, closes, delivers, ticks, short_run_id, new_batcher, run,
}
use wrapping_bot.Daemon.Format.{inline_code, format_start, format_exit, variation_selector}
use wrapping_bot.Daemon.Server.{
  Outside, Config, Request, Response, Decoded, refused, admitted, admit, rejection, Stream,
  read_stream,
}
use wrapping_bot.Protocol.{Event}
use wrapping_bot.Text.Split.{split_utf8}

-- The messages sent so far, and the error of the last operation.
pub record Sending : Type 0 where
  pub sent : List Message
  pub failure : Option Bytes

-- What the batcher's goroutine does while the handler works.
pub data Pulse : Type 0 where
  receive tick : Pulse

abbrev pub pulse : Pulse → Action
pulse receive = delivers
pulse tick = ticks

module _ (answer : ℕ → Option Bytes) where
  unfoldable pub send_parts : Bytes → List Message → List Bytes → Sending
  send_parts channel_id sent [] = record { sent = sent; failure = none }
  send_parts channel_id sent (part ∷ parts) =
      let sent' = sent ++ (record { channel_id = channel_id; content = part } ∷ []) in
      let rest = send_parts channel_id sent' parts in
      elim (answer (length sent)) [
        | some err ↦ record { sent = sent'; failure = some err }
        | none ↦ rest
      ]

  unfoldable pub send_long : List Message → Bytes → Bytes → Sending
  unfolding send_parts
  send_long sent channel_id content = send_parts channel_id sent (split_utf8 content 1900)

-- The operations of the handler on the batcher, each behind the goroutine's actions before it. The
-- handler adds in the order of the stream and then closes.
unfoldable pub weave : (ℕ → List Pulse) → ℕ → List (Bytes × Bytes) → List Action
weave schedule n [] = map pulse (schedule n) ++ closes ∷ map pulse (schedule (suc n))
weave schedule n ((stream, payload) ∷ rest) =
    map pulse (schedule n) ++ (adds stream payload ∷ weave schedule (suc n) rest)

abbrev pub settings : Config → Event → Settings
settings cfg start = record {
  channel_id = start.channel_id;
  run_id = start.run_id;
  max_log_bytes = cfg.max_log_chunk_bytes;
  queue_size = cfg.queue_size;
  strip = cfg.strip_ansi;
}

-- The batcher from `NewBatcher` to the return of `Close`, which waits until the queue is empty.
unfoldable pub relay_output :
    Config → (ℕ → Option Bytes) → (ℕ → List Pulse) → Event → List (Bytes × Bytes) → Batcher
unfolding weave
relay_output cfg answer schedule start added =
    let b = run (settings cfg start) answer new_batcher (weave schedule 0 added) in
    run (settings cfg start) answer b (replicate (suc (length b.events)) delivers)

abbrev pub interrupted : Event → Bytes → Bytes
interrupted start err =
    str "⚠"
    ++ variation_selector
    ++ str " **Run relay interrupted**\nRun: `"
    ++ short_run_id start.run_id
    ++ str "`\nReason: `"
    ++ inline_code err
    ++ str "`"

abbrev pub no_exit : Event → Bytes
no_exit start =
    str "⚠"
    ++ variation_selector
    ++ str " **Run connection closed without an exit event**\nRun: `"
    ++ short_run_id start.run_id
    ++ str "`"

pub record Handled : Type 0 where
  pub response : Response
  pub sent : List Message

-- The response of a run whose messages all went well, or of one where a message failed.
abbrev pub verdict : Event → ℕ → Option Bytes → Response
verdict start dropped none = record {
  status = 200;
  body = record { run_id = start.run_id; accepted = true; dropped_bytes = dropped; error = [] };
}
verdict start dropped (some err) =
    rejection 502 start.run_id dropped (str "one or more Discord messages failed")

abbrev pub first_failure : Option Bytes → Option Bytes → Option Bytes
first_failure (some err) later = some err
first_failure none later = later

module _ (lib : Outside) (cfg : Config) (answer : ℕ → Option Bytes) where
  -- Behind `streamDone`, with what `batcher.Close` returned.
  unfoldable pub finish_exit : Event → List Message → ℕ → Option Bytes → Event → Handled
  unfolding send_long
  finish_exit start sent dropped batch_err exit =
      let s =
        send_long answer sent start.channel_id
          (format_exit lib.show_duration start exit dropped batch_err) in
      record { response = verdict start dropped (first_failure batch_err s.failure); sent = s.sent }

  unfoldable pub finish_stream : Event → List Message → ℕ → Option Bytes → Stream → Handled
  unfolding finish_exit send_long
  finish_stream start sent dropped batch_err stream = elim stream.stream_err [
    | some err ↦
        let s = send_long answer sent start.channel_id (interrupted start err) in
        record { response = rejection 400 start.run_id dropped err; sent = s.sent }
    | none ↦ elim stream.exit_event [
      | none ↦
          let s = send_long answer sent start.channel_id (no_exit start) in
          record {
            response = rejection 400 start.run_id dropped (str "stream closed without exit event");
            sent = s.sent;
          }
      | some exit ↦ finish_exit start sent dropped batch_err exit
    ]
  ]

  -- A run whose start message was sent: `sent` holds the messages so far.
  unfoldable pub relay_run : (ℕ → List Pulse) → Event → List Decoded → List Message → Handled
  unfolding finish_stream relay_output
  relay_run schedule start rest sent =
      let stream = read_stream lib start none rest in
      let b = relay_output cfg (λ n. answer (length sent + n)) schedule start stream.added in
      finish_stream start (sent ++ b.sent) b.dropped b.first_err stream

  unfoldable pub start_run : (ℕ → List Pulse) → Event → List Decoded → Handled
  unfolding relay_run send_long
  start_run schedule start rest =
      let s = send_long answer [] start.channel_id (format_start start) in
      elim s.failure [
        | some err ↦ record {
          response = rejection 502 start.run_id 0 (str "failed to send Discord message");
          sent = s.sent;
        }
        | none ↦ relay_run schedule start rest s.sent
      ]

  unfoldable pub handle_stream : ℕ → (ℕ → List Pulse) → Request → Handled
  unfolding start_run
  handle_stream in_use schedule request = elim (admit lib cfg in_use request) [
    | refused response ↦ record { response = response; sent = [] }
    | admitted start rest ↦ start_run schedule start rest
  ]
