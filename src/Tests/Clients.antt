-- ===== src/Tests/Clients.antt =====
-- A session of internal/clientstream/session.go whose queue overflows once.
use wrapping_bot.Base.{
  ℕ, ◌≤◌, ◌<◌, ◌⊎◌, true, false, List, [], ◌∷◌, some, none, ◌≡◌, refl, arith, map, All, length,
  if◌then◌else◌, leb, ◌&&◌, ◌-◌,
}
use wrapping_bot.Base.Bytes.{Bytes, trim_prefix, bytes_eq, has_text, contains, str}
use wrapping_bot.Base.Decimal.{decimal}
use wrapping_bot.Base.Int.{pos}
use wrapping_bot.Client.Environment.{collect_environment}
use wrapping_bot.Client.Environment.Selected.{MayLeave, collect_environment-MayLeave}
use wrapping_bot.Base.Space.{trim_space}
use wrapping_bot.Client.EnvFile.{load_lines}
use wrapping_bot.Client.Session.{
  Session, new_session, Action, writes, receives, starts, enqueue, send_start, run, close,
}
use wrapping_bot.Client.Session.Accepted.{Keeps, asked, total, IsCutOff, close-run-read}
use wrapping_bot.Client.Session.Upload.{Opened}
use wrapping_bot.Client.Session.Sound.{history}
use wrapping_bot.Client.Session.Stream.{IsStream, close-run-IsStream}
use wrapping_bot.Daemon.Server.{Outside, Config, Decoded, decoded, body_events, read_stream}
use wrapping_bot.Protocol.{Event, event_start, event_exit}
use wrapping_bot.Text.Utf8.{IsUtf8, is_ascii-IsUtf8}

abbrev pub outside : Outside
outside = record { sha256 = λ s. s; quoted = λ s. s; show_duration = λ a b. str "1s" }

abbrev pub start : Event
start = record {
  version = pos 2;
  type = event_start;
  run_id = str "run-12345";
  timestamp = none;
  channel_id = str "123456789012345678";
  name = [];
  command = str "ls" ∷ [];
  shell = false;
  hostname = [];
  working_directory = [];
  environment = [];
  stream = [];
  payload = [];
  exit_code = none;
  error = [];
}

abbrev pub exit : Event
exit = record start { type = event_exit; exit_code = some (pos 0) }

abbrev pub begun : Session
begun = enqueue start new_session

pub begun-starts : send_start 2 start new_session ≡ starts begun
unfolding send_start
begun-starts = refl

-- The second write finds the queue full.
abbrev pub acts : List Action
acts = writes 1 (str "stdout") (str "a") ∷ writes 2 (str "stderr") (str "bc") ∷ receives ∷ []

overflow :
    ((run 2 (str "run-12345") begun acts).dropped ≡ 2)
    × (length (history (close 2 3 2 exit (run 2 (str "run-12345") begun acts))) ≡ 4)
unfolding run close
overflow = (refl, refl)

close-run-IsStream_example :
    IsStream 2
      (str "run-12345")
      start
      3
      2
      exit
      refl
      acts
      (close 2 3 2 exit (run 2 (str "run-12345") begun acts))
close-run-IsStream_example =
    close-run-IsStream 2 (str "run-12345") start 3 2 exit refl begun acts begun-starts

abbrev pub wire : Event → Event
wire e = e

pub wire-Keeps : Keeps wire
wire-Keeps e = (refl, λ h. refl, λ h. refl)

pub run_id-IsUtf8 : IsUtf8 start.run_id
run_id-IsUtf8 = is_ascii-IsUtf8 start.run_id refl

abbrev pub json : Event → ℕ
json e = 100

abbrev pub opened : Opened
opened = record {
  endpoint = str "https://relay";
  token = str "secret";
  queue_size = 2;
  finish_timeout = 1000;
}

abbrev pub cfg : Config
cfg = record {
  shared_token = str "secret";
  allowed_channel_ids = [];
  max_log_chunk_bytes = 1500;
  queue_size = 8;
  max_stream_bytes = 1000;
  max_concurrent_runs = 1;
  strip_ansi = true;
}

fits :
    total json (history (close 2 3 2 exit (run 2 start.run_id begun acts))) ≤ cfg.max_stream_bytes
unfolding run close
fits = omega arith

close-run-read_example :
    let c = close 2 3 2 exit (run 2 (str "run-12345") begun acts) in
    let body = body_events cfg (asked wire json opened (history c)) in
    (total json (history c) ≤ cfg.max_stream_bytes)
      × ((stream : List Decoded) × (body ≡ decoded (wire start) ∷ stream)
          × ((read_stream outside (wire start) none stream).stream_err ≡ none)
          × ((read_stream outside (wire start) none stream).exit_event ≡ some (wire exit)))
    ⊎ (cfg.max_stream_bytes < total json (history c)) × IsCutOff outside wire start body
close-run-read_example =
    close-run-read outside wire wire-Keeps start run_id-IsUtf8 2 3 2 exit begun acts (omega arith)
      (omega arith) refl refl refl begun-starts json opened cfg

-- One letter at a time, for ASCII.
abbrev upper : Bytes → Bytes
upper = map (λ c. if leb b'a' c && leb c b'z' then c - 32 else c)

abbrev environ : List Bytes
environ = str "EXP_A=1" ∷ str "EXP_TOKEN=x" ∷ str "RUN_ID=2=3" ∷ str "HOME=/" ∷ []

collected :
    collect_environment upper false environ (str "RUN_ID" ∷ []) (str "EXP_" ∷ [])
    ≡ (str "RUN_ID", str "2=3") ∷ (str "EXP_A", str "1") ∷ []
unfolding collect_environment bytes_eq has_text contains
collected = refl

collect_environment-MayLeave_example :
    All
      (MayLeave upper false)
      (collect_environment upper false environ (str "RUN_ID" ∷ []) (str "EXP_" ∷ []))
    × (length (collect_environment upper false environ (str "RUN_ID" ∷ []) (str "EXP_" ∷ [])) ≤ 128)
collect_environment-MayLeave_example =
    collect_environment-MayLeave upper false environ (str "RUN_ID" ∷ []) (str "EXP_" ∷ [])

abbrev file_lines : List Bytes
file_lines = str "# a comment" ∷ str "export HOME='/tmp'" ∷ str "SEED = 7 # seven" ∷ []

abbrev before_file : List (Bytes × Bytes)
before_file = (str "HOME", str "/root") ∷ []

loaded :
    load_lines (λ s. none) (λ s. s) (str "client.env") 1 file_lines before_file
    ≡ ((str "HOME", str "/root") ∷ (str "SEED", str "7") ∷ [], none)
unfolding load_lines trim_space bytes_eq trim_prefix
loaded = refl

located_error :
    (load_lines (λ s. none) (λ s. s) (str "client.env") 1 (str "" ∷ str "no value" ∷ []) []).1
    ≡ some (str "client.env:2: expected KEY=VALUE")
unfolding load_lines trim_space bytes_eq trim_prefix decimal
located_error = refl
