-- ===== src/Tests/Runs.antt =====
-- Runs of cmd/wrapping-bot/main.go and of cmd/wrapping-botd/main.go.
use wrapping_bot.Base.{
  All, ◌≤◌, ◌*◌, true, false, List, [], ◌∷◌, ◌++◌, none, ◌≡◌, ◌⊎◌, refl, arith, map, max, replicate,
  All-replicate, ◌<◌,
}
use wrapping_bot.Base.Bytes.{Bytes, str, bytes_eq, has_prefix}
use wrapping_bot.Base.Int.{pos}
use wrapping_bot.Base.Number.{parse_uint}
use wrapping_bot.Base.Result.{ok, error, ok_then}
use wrapping_bot.Base.Space.{trim_space}
use wrapping_bot.Client.Command.{exited}
use wrapping_bot.Client.Flags.{Outside, Flag, name_flag, queue_size_flag, parse_flags}
use wrapping_bot.Client.Flags.RoundTrip.{spell}
use wrapping_bot.Client.Flags.Given.{IsValid, given_options, parse_flags-given}
use wrapping_bot.Client.Options.{resolve_client_env_path, default_options}
use wrapping_bot.Client.Run.{World, missing, run}
use wrapping_bot.Client.Run.Ends.{Ends, run-Ends}
use wrapping_bot.Client.Session.Upload.{millisecond, failed, close_result}
use wrapping_bot.Client.Session.Waits.{InTime, close_result-InTime}
use wrapping_bot.Daemon.Process.{Process, start, handle_health, HealthOutside, healthcheck}
use wrapping_bot.Daemon.Process.Started.{Agrees, start-loaded}
use wrapping_bot.Tests.Configs
use wrapping_bot.Tests.Configs.{config, config-loaded}
use wrapping_bot.Tests.Gateways

start-loaded_example :
    (p : Process) × (start Configs.outside Gateways.outside ≡ ok p)
    × (p.config ≡ config)
    × (p.sender.bot_token ≡ str "bot")
    × Agrees config p.sender p.gateway
start-loaded_example =
    start-loaded Configs.outside Gateways.outside config (λ s e. refl) config-loaded

abbrev lib : Outside
lib = record {
  get = λ key. [];
  parse_int_literal = λ s. ok (pos 7);
  parse_duration = λ s. none;
  quoted = λ s. s;
}

abbrev given : List (Flag × Bytes)
given = (name_flag, str "a=b") ∷ (queue_size_flag, str "7") ∷ []

abbrev command : List Bytes
command = str "ls" ∷ str "--name" ∷ str "--" ∷ []

parse_flags-given_example :
    let r = parse_flags lib none (map spell given ++ (str "--" ∷ command)) (default_options lib) in
    All (IsValid lib) given × (r ≡ ok (given_options lib given (default_options lib), command))
    ⊎ (¬ All (IsValid lib) given) × ((text : Bytes) × (r ≡ error text))
parse_flags-given_example = parse_flags-given lib given command (default_options lib)

-- The path behind one dash is an option, but the file of the client environment stays the default one.
one_dash :
    resolve_client_env_path lib (str "-client-env=x" ∷ str "ls" ∷ []) ≡ ok (str "client.env", false)
unfolding resolve_client_env_path bytes_eq has_prefix trim_space
one_dash = refl

-- And an argument of the command itself is taken for the path.
of_the_command :
    resolve_client_env_path lib (str "ls" ∷ str "--client-env" ∷ str "x" ∷ []) ≡ ok (str "x", true)
unfolding resolve_client_env_path bytes_eq has_prefix trim_space
of_the_command = refl

abbrev world : World
world = record {
  environ =
      (str "WRAPPING_BOT_TOKEN", str "t")
      ∷ (str "WRAPPING_BOT_CHANNEL_ID", str "123456789012345678")
      ∷ [];
  entries = λ env. [];
  file = λ path. missing (str "no such file");
  unquote = λ s. none;
  parse_int_literal = λ s. ok (pos 7);
  parse_duration = λ s. none;
  quoted = λ s. s;
  to_upper = λ s. s;
  random = ok (replicate 16 7);
  hostname = str "host";
  working_directory = str "/";
  started_at = 1;
  finished_at = 2;
  child = λ cmd. exited (pos 3);
  uploaded = λ first last. failed (str "refused");
}

abbrev args : List Bytes
args = str "--name=x" ∷ str "--" ∷ str "ls" ∷ str "-l" ∷ []

-- The command's code is kept, and the failure of the upload is printed.
ran :
    ((run world args).exit_code ≡ pos 3)
    × ((run world args).stderr ≡ str "wrapping-bot: relay error: refused" ∷ [])
unfolding run ok_then parse_uint
ran = (refl, refl)

run-Ends_example : Ends world args (run world args)
run-Ends_example = run-Ends world args (All-replicate (λ c. c < 256) 16 7 (omega arith), refl)

close_result-InTime_example :
    let c = close_result (λ t. str "late") (pos 100) 7 none in
    (c.at ≤ max 100 (250 * millisecond))
    × ((c.result ≡ failed (str "late")) ⊎ InTime 100 none c.result)
close_result-InTime_example = close_result-InTime (λ t. str "late") (pos 100) 7 none

abbrev health : HealthOutside
health = record {
  get = λ key. [];
  request = λ url. ok (record { status_code = handle_health.code; status = []; body = [] });
  decode_status = λ body. ok handle_health.status;
  quoted = λ s. s;
}

healthy : healthcheck health ≡ none
unfolding healthcheck bytes_eq trim_space
healthy = refl
