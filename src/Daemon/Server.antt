-- ===== src/Daemon/Server.antt =====
-- internal/daemon/server.go: the handler of a stream of events. `Outside` holds what the handler takes
-- from Go's library and is not modelled. `answer n` is what the n-th call of `MessageSender.Send`
-- returns, and `schedule n` what the batcher's goroutine does before the n-th operation of the
-- handler on the batcher; so the definitions cover every interleaving of the two.
pub mod Accepts
pub mod Parts
pub mod Reading
pub mod Relay
pub mod Verdict
pub mod Outcome
pub mod Handle
use wrapping_bot.Base.{
  ℕ, zero, suc, ◌+◌, ◌-◌, ◌*◌, Bool, true, false, not, ◌&&◌, ◌||◌, List, [], ◌∷◌, ◌++◌, Option,
  some, none, ltb, leb, if◌then◌else◌, map, length, take, replicate,
}
use wrapping_bot.Base.Bytes.{Bytes, str, is_empty, bytes_eq, has_prefix, trim_prefix, has_text}
use wrapping_bot.Base.Int.{itoa, int_eq}
use wrapping_bot.Base.Space.{trim_space}
use wrapping_bot.Daemon.Batcher.{
  Message, Settings, Batcher, Action, adds, closes, delivers, ticks, short_run_id, new_batcher, run,
}
use wrapping_bot.Daemon.Channel.{is_discord_channel_id}
use wrapping_bot.Daemon.Format.{inline_code, format_start, format_exit, variation_selector}
use wrapping_bot.Protocol
use wrapping_bot.Protocol.{Event, StreamResponse, event_start, event_output, event_exit}
use wrapping_bot.Text.Split.{split_utf8}

abbrev pub max_output_event_data_bytes : ℕ
max_output_event_data_bytes = 64 * 1024

-- SHA-256, the `%q` of package `fmt`, and the print of the time between two events.
pub record Outside : Type 0 where
  pub sha256 : Bytes → Bytes
  pub quoted : Bytes → Bytes
  pub show_duration : ℕ → ℕ → Bytes

-- The fields of `Config` that the handler reads.
pub record Config : Type 0 where
  pub shared_token : Bytes
  pub allowed_channel_ids : List Bytes
  pub max_log_chunk_bytes : ℕ
  pub queue_size : ℕ
  pub max_stream_bytes : ℕ
  pub max_concurrent_runs : ℕ
  pub strip_ansi : Bool

-- What `decoder.Decode` returns: an event, or an error other than the end of the stream.
pub data Decoded : Type 0 where
  decoded : Event → Decoded
  invalid : Bytes → Decoded

-- The value of the Authorization header, and the body: what Decode makes of each value, with the bytes
-- from the end of the value before to the end of this one, and the bytes behind the last.
pub record Request : Type 0 where
  pub authorization : Bytes
  pub values : List (ℕ × Decoded)
  pub trailing : ℕ

abbrev pub too_large : Bytes
too_large = str "http: request body too large"

-- What Decode returns behind `http.MaxBytesReader`, until the stream ends: the values in the first
-- `left` bytes, and an error where there are more bytes.
unfoldable pub limited : ℕ → ℕ → List (ℕ × Decoded) → List Decoded
limited trailing left [] = if leb trailing left then [] else invalid too_large ∷ []
limited trailing left ((size, value) ∷ rest) =
    let later = limited trailing (left - size) rest in
    if leb size left then value ∷ later else invalid too_large ∷ []

pub record Response : Type 0 where
  pub status : ℕ
  pub body : StreamResponse

abbrev pub rejection : ℕ → Bytes → ℕ → Bytes → Response
rejection status run_id dropped err = record {
  status = status;
  body = record { run_id = run_id; accepted = false; dropped_bytes = dropped; error = err };
}

abbrev bearer : Bytes
bearer = str "Bearer "

unfoldable pub authorized : Outside → Config → Bytes → Bool
authorized lib cfg header =
    if has_prefix header bearer
    then bytes_eq (lib.sha256 (trim_space (trim_prefix header bearer)))
        (lib.sha256 cfg.shared_token)
    else false

-- `none` is a valid start event.
unfoldable pub validate_start : Event → Option Bytes
validate_start event =
    if not (int_eq event.version Protocol.version)
    then some (str "unsupported protocol version " ++ itoa event.version)
    else if not (bytes_eq event.type event_start)
    then some (str "first event must be start")
    else if is_empty (trim_space event.run_id) || ltb 128 (length event.run_id)
    then some (str "invalid run ID")
    else if not (is_discord_channel_id event.channel_id)
    then some (str "invalid Discord channel ID")
    else if leb (length event.command) 0
    then some (str "command is required")
    else if ltb 128 (length event.environment)
    then some (str "too many environment fields")
    else none

-- An empty list allows every channel.
unfoldable pub channel_allowed : Config → Bytes → Bool
channel_allowed cfg channel_id =
    leb (length cfg.allowed_channel_ids) 0 || has_text cfg.allowed_channel_ids channel_id

-- The handler up to the start message: a response, or a start event and the rest of the stream.
pub data Admission : Type 0 where
  refused : Response → Admission
  admitted : Event → List Decoded → Admission

unfoldable pub check_start : Config → Event → List Decoded → Admission
check_start cfg start rest = elim (validate_start start) [
  | some err ↦ refused (rejection 400 start.run_id 0 err)
  | none ↦
      if channel_allowed cfg start.channel_id
      then admitted start rest
      else refused (rejection 403 start.run_id 0 (str "channel ID is not allowed by the relay"))
]

unfoldable pub first_event : Config → List Decoded → Admission
unfolding check_start
first_event cfg (decoded start ∷ rest) = check_start cfg start rest
first_event cfg _ = refused (rejection 400 [] 0 (str "missing or invalid start event"))

unfoldable pub body_events : Config → Request → List Decoded
unfolding limited
body_events cfg request = limited request.trailing cfg.max_stream_bytes request.values

-- `in_use` counts the runs that hold a slot of the semaphore.
unfoldable pub admit : Outside → Config → ℕ → Request → Admission
unfolding first_event body_events
admit lib cfg in_use request =
    if not (authorized lib cfg request.authorization)
    then refused (rejection 401 [] 0 (str "unauthorized"))
    else if not (ltb in_use cfg.max_concurrent_runs)
    then refused (rejection 429 [] 0 (str "maximum concurrent runs reached"))
    else first_event cfg (body_events cfg request)

-- The loop over the rest of the stream: what is handed to `batcher.Add`, the last exit event, and
-- the error that ends the loop early.
pub record Stream : Type 0 where
  pub added : List (Bytes × Bytes)
  pub exit_event : Option Event
  pub stream_err : Option Bytes

unfoldable pub truncate_payload : Bytes → Bytes
truncate_payload payload =
    if ltb max_output_event_data_bytes (length payload)
    then take max_output_event_data_bytes payload ++ str "\n[output event truncated by daemon]\n"
    else payload

abbrev pub adding : Bytes → Bytes → Stream → Stream
adding stream payload s = record s { added = (stream, payload) ∷ s.added }

unfoldable pub read_stream : Outside → Event → Option Event → List Decoded → Stream
unfolding truncate_payload
read_stream lib start exit [] = record { added = []; exit_event = exit; stream_err = none }
read_stream lib start exit (invalid err ∷ rest) = record {
  added = [];
  exit_event = exit;
  stream_err = some err;
}
read_stream lib start exit (decoded event ∷ rest) =
    let failed = λ (err : Bytes).
      let s : Stream = record { added = []; exit_event = exit; stream_err = some err } in s in
    let output =
      adding event.stream (truncate_payload event.payload) (read_stream lib start exit rest) in
    let ended = read_stream lib start (some event) rest in
    if not (int_eq event.version Protocol.version) || not (bytes_eq event.run_id start.run_id)
    then failed (str "event version or run ID mismatch")
    else if bytes_eq event.type event_output
    then output
    else if bytes_eq event.type event_exit
    then ended
    else failed (str "unsupported event type " ++ lib.quoted event.type)
