-- ===== src/Client/Start.antt =====
-- The run ID and the events that `run` of cmd/wrapping-bot/main.go makes. The bytes of the run ID come
-- from `crypto/rand`, and are an argument.
pub mod Valid
use wrapping_bot.Base.{
  ℕ, ◌+◌, ◌-◌, ◌/◌, ◌%◌, Bool, false, List, [], ◌∷◌, ◌++◌, Option, some, none, ltb, if◌then◌else◌,
}
use wrapping_bot.Base.Bytes.{Bytes}
use wrapping_bot.Base.Int.{ℤ, pos}
use wrapping_bot.Client.Environment.{collect_environment}
use wrapping_bot.Protocol
use wrapping_bot.Protocol.{Event, event_start, event_exit}

abbrev pub hex_digit : ℕ → ℕ
hex_digit n = if ltb n 10 then b'0' + n else b'a' + (n - 10)

-- `hex.EncodeToString`
unfoldable pub encode_hex : Bytes → Bytes
encode_hex [] = []
encode_hex (c ∷ s) = hex_digit (c / 16) ∷ hex_digit (c % 16) ∷ encode_hex s

-- What `parseOptions` gives, and the system: name of the host and working directory.
pub record Setting : Type 0 where
  pub channel_id : Bytes
  pub name : Bytes
  pub env_keys : List Bytes
  pub env_prefixes : List Bytes
  pub allow_secrets : Bool
  pub hostname : Bytes
  pub working_directory : Bytes
  pub environ : List Bytes

unfoldable pub start_event : (Bytes → Bytes) → Setting → ℕ → Bytes → List Bytes → Bool → Event
unfolding encode_hex collect_environment
start_event to_upper setting now random command shell = record {
  version = Protocol.version;
  type = event_start;
  run_id = encode_hex random;
  timestamp = some now;
  channel_id = setting.channel_id;
  name = setting.name;
  command = command;
  shell = shell;
  hostname = setting.hostname;
  working_directory = setting.working_directory;
  environment =
      collect_environment to_upper setting.allow_secrets setting.environ setting.env_keys
        setting.env_prefixes;
  stream = [];
  payload = [];
  exit_code = none;
  error = [];
}

unfoldable pub exit_event : ℕ → Bytes → ℤ → Bytes → Event
exit_event now run_id exit_code err = record {
  version = Protocol.version;
  type = event_exit;
  run_id = run_id;
  timestamp = some now;
  channel_id = [];
  name = [];
  command = [];
  shell = false;
  hostname = [];
  working_directory = [];
  environment = [];
  stream = [];
  payload = [];
  exit_code = some exit_code;
  error = err;
}
