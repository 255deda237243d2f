-- ===== src/Tests/Streams.antt =====
-- A request to internal/daemon/server.go: a start event, an output and an exit.
use wrapping_bot.Base.{
  inl, inr, ℕ, ◌↔◌, ◌≤◌, true, false, List, [], ◌∷◌, ◌++◌, Option, some, none, ◌≡◌, refl, All,
  length,
}
use wrapping_bot.Base.Bytes.{has_prefix, trim_prefix, Bytes, str, bytes_eq}
use wrapping_bot.Base.Int.{int_eq, itoa, pos}
use wrapping_bot.Daemon.Batcher.{short_run_id, run, new_batcher, OutputRecord}
use wrapping_bot.Daemon.Batcher.Delivery.{tagged_outputs, tagged_records}
use wrapping_bot.Daemon.Batcher.History.{last_words}
use wrapping_bot.Daemon.Batcher.Sends.{Output, rendered}
use wrapping_bot.Daemon.Server.{
  authorized, channel_allowed, Outside, Config, Request, Decoded, decoded, admitted, admit,
  read_stream, validate_start,
}
use wrapping_bot.Daemon.Server.Accepts.{IsAdmitted, IsRefusal, admit_iff}
use wrapping_bot.Daemon.Server.Handle.{Pulse, receive, tick, settings, relay_output, handle_stream}
use wrapping_bot.Daemon.Server.Outcome.{IsRelayed, handle_stream_iff}
use wrapping_bot.Daemon.Server.Reading.{Reads, read_stream_iff}
use wrapping_bot.Daemon.Server.Parts.{IsPart}
use wrapping_bot.Daemon.Server.Relay.{Picked, relay_output-delivers}
use wrapping_bot.Base.Decimal.{decimal}
use wrapping_bot.Base.Number.{parse_uint}
use wrapping_bot.Base.Space.{trim_space}
use wrapping_bot.Daemon.Channel.{is_discord_channel_id}
use wrapping_bot.Daemon.Format.{format_start, inline_code, format_exit}
use wrapping_bot.Shell.{format_command, is_safe, shell_quote}
use wrapping_bot.Text.Ansi.{strip_ansi}
use wrapping_bot.Text.Fence.{escape_code_fence}
use wrapping_bot.Text.Split.{split_utf8}
use wrapping_bot.Protocol.{Event, event_start, event_output, event_exit}

abbrev outside : Outside
outside = record { sha256 = λ s. s; quoted = λ s. s; show_duration = λ a b. str "1s" }

abbrev cfg : Config
cfg = record {
  shared_token = str "secret";
  allowed_channel_ids = [];
  max_log_chunk_bytes = 1500;
  queue_size = 8;
  max_stream_bytes = 401;
  max_concurrent_runs = 1;
  strip_ansi = true;
}

abbrev start : Event
start = record {
  version = pos 2;
  type = event_start;
  run_id = str "run-12345";
  timestamp = none;
  channel_id = str "123456789012345678";
  name = str "job";
  command = str "ls" ∷ [];
  shell = false;
  hostname = [];
  working_directory = [];
  environment = [];
  stream = [];
  payload = [];
  exit_code = none;
  error = [];
}

abbrev output : Event
output = record start { type = event_output; stream = str "stdout"; payload = str "hi\n" }

abbrev exit : Event
exit = record start { type = event_exit; exit_code = some (pos 0) }

abbrev rest : List Decoded
rest = decoded output ∷ decoded exit ∷ []

abbrev request : Request
request = record {
  authorization = str "Bearer secret";
  values = (200, decoded start) ∷ (100, decoded output) ∷ (100, decoded exit) ∷ [];
  trailing = 1;
}

abbrev written : List (Bytes × Bytes)
written = (str "stdout", str "hi\n") ∷ []

abbrev all_well : ℕ → Option Bytes
all_well n = none

abbrev schedule : ℕ → List Pulse
schedule n = receive ∷ tick ∷ []

admit_iff_example :
    (admit outside cfg 0 request ≡ admitted start rest
      ↔ IsAdmitted outside cfg 0 request start rest)
    × IsRefusal outside cfg 0 request (admit outside cfg 0 request)
admit_iff_example = admit_iff outside cfg 0 request start rest

read_stream_iff_example :
    ((read_stream outside start none rest).stream_err ≡ none ↔ All (IsPart outside start) rest)
    × Reads outside start none rest (read_stream outside start none rest)
read_stream_iff_example = read_stream_iff outside start rest

rest-IsPart : All (IsPart outside start) rest
rest-IsPart = ((refl, refl, inl refl), ((refl, refl, inr refl), tt))

relay_output-delivers_example :
    let b = relay_output cfg all_well schedule start written in
    (b.done ≡ true)
    × ((outs : List Output) × (taken : List OutputRecord) × (b.sent
          ≡ rendered (settings cfg start) outs)
        × (tagged_outputs outs ≡ tagged_records (settings cfg start) taken ++ last_words b.dropped)
        × Picked written taken b.dropped)
relay_output-delivers_example = relay_output-delivers cfg all_well schedule start written

handle_stream_iff_example :
    let h = handle_stream outside cfg all_well 0 schedule request in
    (h.response.body.accepted ≡ true ↔ IsRelayed outside cfg all_well 0 request h.sent)
    × (h.response.status ≡ 200 ↔ h.response.body.accepted ≡ true)
    × (h.response.body.accepted ≡ false → 400 ≤ h.response.status)
handle_stream_iff_example = handle_stream_iff outside cfg all_well 0 schedule request

-- The run is accepted: a start message, a message of output and an exit message were sent.
run_accepted :
    let h = handle_stream outside cfg all_well 0 schedule request in
    (h.response.status ≡ 200) × (length h.sent ≡ 3)
unfolding handle_stream admit authorized has_prefix bytes_eq trim_space trim_prefix validate_start
    int_eq is_discord_channel_id parse_uint channel_allowed split_utf8 format_start short_run_id
    escape_code_fence format_command is_safe shell_quote read_stream run new_batcher relay_output
    strip_ansi itoa decimal inline_code format_exit
run_accepted = (refl, refl)

-- One byte more is too much: the run is interrupted behind its last event.
over_limit :
    (handle_stream outside cfg all_well 0 schedule
      (record request { trailing = 2 })).response.status
    ≡ 400
unfolding handle_stream admit authorized has_prefix bytes_eq trim_space trim_prefix validate_start
    int_eq is_discord_channel_id parse_uint channel_allowed split_utf8 format_start short_run_id
    escape_code_fence format_command is_safe shell_quote read_stream run new_batcher relay_output
    strip_ansi itoa decimal inline_code format_exit
over_limit = refl
