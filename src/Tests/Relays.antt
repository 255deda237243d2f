-- ===== src/Tests/Relays.antt =====
-- A run from a session of internal/clientstream/session.go through the handler of
-- internal/daemon/server.go to the result of the upload.
use wrapping_bot.Base.{
  ℕ, ◌≤◌, ◌↔◌, false, List, [], ◌∷◌, Option, some, none, ◌≡◌, refl, sym, ap, arith, length, ◌==◌,
  if◌then◌else◌,
}
use wrapping_bot.Base.Bytes.{Bytes, str, has_prefix, trim_prefix, bytes_eq}
use wrapping_bot.Base.Decimal.{decimal}
use wrapping_bot.Base.Int.{int_eq, itoa}
use wrapping_bot.Base.Number.{parse_uint}
use wrapping_bot.Base.Result.{ok}
use wrapping_bot.Base.Space.{trim_space}
use wrapping_bot.Client.Session.{run, close, client_notice}
use wrapping_bot.Client.Session.Relayed.{upload-handle_stream}
use wrapping_bot.Client.Session.Accepted.{asked, total}
use wrapping_bot.Client.Session.Sound.{history}
use wrapping_bot.Client.Session.Upload.{Response, upload_request, upload, responds}
use wrapping_bot.Daemon.Batcher
use wrapping_bot.Daemon.Batcher.{short_run_id, new_batcher}
use wrapping_bot.Daemon.Batcher.Errors.{first_error}
use wrapping_bot.Daemon.Channel.{is_discord_channel_id}
use wrapping_bot.Daemon.Format.{format_start, inline_code, format_exit}
use wrapping_bot.Daemon.Server.{admit, authorized, channel_allowed, read_stream, validate_start}
use wrapping_bot.Daemon.Server.Accepts.{IsStart, validate_start_iff}
use wrapping_bot.Daemon.Server.Handle.{Pulse, receive, tick, relay_output, handle_stream}
use wrapping_bot.Protocol.{Event, StreamResponse}
use wrapping_bot.Shell.{format_command, is_safe, shell_quote}
use wrapping_bot.Tests.Clients.{
  json, opened, cfg, outside, start, exit, begun, acts, wire, begun-starts, wire-Keeps,
  run_id-IsUtf8,
}
use wrapping_bot.Text.Ansi.{strip_ansi}
use wrapping_bot.Text.Fence.{escape_code_fence}
use wrapping_bot.Text.Split.{split_utf8}

-- Discord refuses the second message.
abbrev answer : ℕ → Option Bytes
answer n = if n == 1 then some (str "down") else none

abbrev schedule : ℕ → List Pulse
schedule n = receive ∷ tick ∷ []

abbrev events : List Event
events = history (close 2 3 2 exit (run 2 start.run_id begun acts))

abbrev response : StreamResponse
response = record {
  run_id = start.run_id;
  accepted = false;
  dropped_bytes = 0;
  error = str "one or more Discord messages failed";
}

abbrev replied : Response
replied = record { status_code = 502; status = str "502 Bad Gateway"; body = str "{..}" }

token_is : trim_space opened.token ≡ cfg.shared_token
unfolding trim_space
token_is = refl

start-IsStart : IsStart (wire start)
unfolding validate_start bytes_eq int_eq trim_space is_discord_channel_id parse_uint
start-IsStart = (validate_start_iff start).0 refl

handled :
    (handle_stream outside cfg answer 0 schedule (asked wire json opened events)).response
    ≡ record { status = 502; body = response }
unfolding handle_stream admit authorized has_prefix bytes_eq trim_space trim_prefix validate_start
    int_eq is_discord_channel_id parse_uint channel_allowed split_utf8 format_start short_run_id
    escape_code_fence format_command is_safe shell_quote read_stream Batcher.run new_batcher
    relay_output strip_ansi itoa decimal inline_code format_exit run close upload_request
    client_notice
handled = refl

upload-handle_stream_example :
    let h = handle_stream outside cfg answer 0 schedule (asked wire json opened events) in
    let u = upload (λ s. ok response) (λ n. none) (responds replied) events in
    (u.err ≡ none
      ↔ (total json events ≤ cfg.max_stream_bytes) × (first_error answer (length h.sent) ≡ none))
    × (u.response ≡ h.response.body)
unfolding channel_allowed
upload-handle_stream_example =
    upload-handle_stream outside wire wire-Keeps start run_id-IsUtf8 cfg answer 0 opened json 2 3 2
      exit begun acts (omega arith) (omega arith) refl refl refl begun-starts token_is (omega arith)
      start-IsStart refl schedule
      (handle_stream outside cfg answer 0 schedule (asked wire json opened events)) refl
      (λ s. ok response) replied (sym (ap (λ r. r.status) handled)) (omega arith) (omega arith)
      (ap (λ r. ok r.body) (sym handled))
