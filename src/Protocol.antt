-- ===== src/Protocol.antt =====
-- internal/protocol/event.go: the records of the stream from the wrapper to the daemon.
use wrapping_bot.Base.{ℕ, Bool, List, Option}
use wrapping_bot.Base.Bytes.{Bytes, str}
use wrapping_bot.Base.Int.{ℤ, pos}

abbrev pub version : ℤ
version = pos 2

abbrev pub event_start : Bytes
event_start = str "start"

abbrev pub event_output : Bytes
event_output = str "output"

abbrev pub event_exit : Bytes
event_exit = str "exit"

abbrev pub stream_stdout : Bytes
stream_stdout = str "stdout"

abbrev pub stream_stderr : Bytes
stream_stderr = str "stderr"

abbrev pub stream_system : Bytes
stream_system = str "system"

-- A missing string is empty, as in Go; the zero time and a null exit code are `none`. A time is in
-- nanoseconds, and the map of the environment is a list of its entries, each key once.
pub record Event : Type 0 where
  pub version : ℤ
  pub type : Bytes
  pub run_id : Bytes
  pub timestamp : Option ℕ
  pub channel_id : Bytes
  pub name : Bytes
  pub command : List Bytes
  pub shell : Bool
  pub hostname : Bytes
  pub working_directory : Bytes
  pub environment : List (Bytes × Bytes)
  pub stream : Bytes
  pub payload : Bytes
  pub exit_code : Option ℤ
  pub error : Bytes

pub record StreamResponse : Type 0 where
  pub run_id : Bytes
  pub accepted : Bool
  pub dropped_bytes : ℕ
  pub error : Bytes
