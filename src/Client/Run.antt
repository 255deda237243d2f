-- ===== src/Client/Run.antt =====
-- `run` of cmd/wrapping-bot/main.go, from its arguments to its exit code. The file of the client
-- environment, the random bytes of the run ID, the child process and the upload come as what they lead
-- to. A line printed to the standard error is an element of `stderr`.
pub mod Ends
use wrapping_bot.Base.{
  ℕ, zero, suc, ◌-◌, Bool, true, false, not, ◌&&◌, ◌||◌, List, [], ◌∷◌, ◌++◌, Option, some, none,
  ltb, if◌then◌else◌, length,
}
use wrapping_bot.Base.Bytes.{Bytes, str, is_empty}
use wrapping_bot.Base.Decimal.{decimal}
use wrapping_bot.Base.Int.{ℤ, pos, negsuc}
use wrapping_bot.Base.Result.{Result, ok, error, ok_then}
use wrapping_bot.Client.Command.{
  Cmd, Child, child_code, child_error, child_notice, should_use_shell, build_command,
}
use wrapping_bot.Client.Environment.{Env, lookup}
use wrapping_bot.Client.EnvFile.{load_lines}
use wrapping_bot.Client.Flags.{Options, Outside}
use wrapping_bot.Client.Options.{parse_options, resolve_client_env_path}
use wrapping_bot.Client.Session.{Start, fails, new_session, send_start}
use wrapping_bot.Client.Session.Upload.{Config, Opened, Uploaded, open_session}
use wrapping_bot.Client.Start.{Setting, start_event, encode_hex, exit_event}
use wrapping_bot.Protocol.{Event}

-- The file is not there, or cannot be opened, or it has these lines and then an error, if there is one.
pub data File : Type 0 where
  missing : Bytes → File
  unopened : Bytes → File
  lines : List Bytes → Option Bytes → File

pub record World : Type 0 where
  pub environ : Env
  pub entries : Env → List Bytes
  pub file : Bytes → File
  pub unquote : Bytes → Option Bytes
  pub parse_int_literal : Bytes → Result ℤ
  pub parse_duration : Bytes → Option ℤ
  pub quoted : Bytes → Bytes
  pub to_upper : Bytes → Bytes
  pub random : Result Bytes
  pub hostname : Bytes
  pub working_directory : Bytes
  pub started_at : ℕ
  pub finished_at : ℕ
  pub child : Cmd → Child
  pub uploaded : Event → Event → Uploaded

-- The exit code, what is printed, and the first and the last event of the run, where it comes so far.
pub record Finished : Type 0 where
  pub exit_code : ℤ
  pub stderr : List Bytes
  pub events : Option (Event × Event)

abbrev pub stop : ℕ → Bytes → Finished
stop code text = record { exit_code = pos code; stderr = text ∷ []; events = none }

abbrev pub text_of : Option Bytes → Bytes
text_of none = []
text_of (some value) = value

unfoldable pub relay_notice : Uploaded → List Bytes
relay_notice u = elim u.err [
  | some text ↦ (str "wrapping-bot: relay error: " ++ text) ∷ []
  | none ↦
      if ltb 0 u.response.dropped_bytes
      then (str "wrapping-bot: daemon omitted "
          ++ (decimal u.response.dropped_bytes ++ str " log bytes"))
        ∷ []
      else []
]

module _ (w : World) where
  -- The lines of the file, as far as they are set, and its error.
  unfoldable pub load_client_env : Bytes → Bool → Env × Option Bytes
  unfolding load_lines
  load_client_env path required = elim (w.file path) [
    | missing text ↦
        if required
        then (w.environ, some (str "open " ++ path ++ str ": " ++ text))
        else (w.environ, none)
    | unopened text ↦ (w.environ, some (str "open " ++ path ++ str ": " ++ text))
    | lines texts scan_error ↦
        let (env, err) = load_lines w.unquote w.quoted path 1 texts w.environ in
        elim err [
          | some text ↦ (env, some text)
          | none ↦ elim scan_error [
            | some text ↦ (env, some (str "read " ++ path ++ str ": " ++ text))
            | none ↦ (env, none)
          ]
        ]
  ]

  abbrev pub outside : Env → Outside
  outside env = record {
    get = λ key. text_of (lookup key env);
    parse_int_literal = w.parse_int_literal;
    parse_duration = w.parse_duration;
    quoted = w.quoted;
  }

  abbrev pub session_config : Options → Config
  session_config o = record {
    endpoint = o.endpoint;
    token = o.token;
    queue_size = o.queue_size;
    finish_timeout = o.finish_timeout;
  }

  abbrev pub setting : Env → Options → Setting
  setting env o = record {
    channel_id = o.channel_id;
    name = o.name;
    env_keys = o.env_keys;
    env_prefixes = o.env_prefixes;
    allow_secrets = o.allow_secrets;
    hostname = w.hostname;
    working_directory = w.working_directory;
    environ = w.entries env;
  }

  -- Behind the start event: the command, and the end of the session.
  unfoldable pub run_command : Bytes → Event → List Bytes → Bool → Finished
  unfolding build_command exit_event relay_notice
  run_command run_id start command shell =
      let child = w.child (build_command command shell) in
      let exit = exit_event w.finished_at run_id (child_code child) (child_error child) in
      record {
        exit_code = child_code child;
        stderr = child_notice child ++ relay_notice (w.uploaded start exit);
        events = some (start, exit);
      }

  -- A queue that has just been made has room for the start event.
  unfoldable pub run_session : Env → Options → List Bytes → Bytes → Opened → Finished
  unfolding start_event encode_hex should_use_shell send_start run_command
  run_session env o command random opened =
      let shell = o.shell || should_use_shell command in
      let start = start_event w.to_upper (setting env o) w.started_at random command shell in
      elim (send_start opened.queue_size start new_session) [
        | fails text ↦ stop 1 (str "wrapping-bot: initialize relay: " ++ text)
        | _ ↦ run_command (encode_hex random) start command shell
      ]

  unfoldable pub run_options : Env → Options → List Bytes → Finished
  unfolding open_session run_session
  run_options env o command = elim w.random [
    | error text ↦ stop 1 (str "wrapping-bot: generate run ID: " ++ text)
    | ok random ↦ elim (open_session (session_config o)) [
      | error text ↦ stop 2 (str "wrapping-bot: " ++ text)
      | ok opened ↦ run_session env o command random opened
    ]
  ]

  -- With the environment behind the file; the text of the usage follows an error of the options.
  unfoldable pub run_loaded : List Bytes → Env → Finished
  unfolding parse_options run_options
  run_loaded args env = elim (parse_options (outside env) args) [
    | error text ↦ stop 2 (str "wrapping-bot: " ++ text)
    | ok (o, command) ↦ run_options env o command
  ]

  unfoldable pub run : List Bytes → Finished
  unfolding resolve_client_env_path load_client_env run_loaded
  run args = elim (resolve_client_env_path (outside w.environ) args) [
    | error text ↦ stop 2 (str "wrapping-bot: " ++ text)
    | ok (path, required) ↦ elim (load_client_env path required).1 [
      | some text ↦ stop 2 (str "wrapping-bot: load client environment: " ++ text)
      | none ↦ run_loaded args (load_client_env path required).0
    ]
  ]
