-- ===== src/Client/Session.antt =====
-- internal/clientstream/session.go: a bounded queue of events between the writers of a command's
-- output and the upload. Each write to the queue is made under a lock, so a list of actions is one
-- interleaving of the writers of both streams and the upload. `now` is the time of an action.
pub mod Chunks
pub mod Sound
pub mod Picked
pub mod Stream
pub mod Accepted
pub mod Relayed
pub mod Upload
pub mod Waits
use wrapping_bot.Base.{
  ℕ, zero, suc, ◌+◌, ◌*◌, min, Bool, true, false, ◌&&◌, List, [], ◌∷◌, ◌++◌, Option, some, none,
  ltb, leb, if◌then◌else◌, map, length, take, drop,
}
use wrapping_bot.Base.Bytes.{Bytes, str, is_empty}
use wrapping_bot.Base.Decimal.{decimal}
use wrapping_bot.Base.Int.{pos}
use wrapping_bot.Protocol
use wrapping_bot.Protocol.{Event, event_output, stream_system}

abbrev pub max_output_event_bytes : ℕ
max_output_event_bytes = 8 * 1024

-- `uploaded` holds the events that the upload has received.
pub record Session : Type 0 where
  pub events : List Event
  pub closed : Bool
  pub dropped : ℕ
  pub uploaded : List Event

abbrev pub new_session : Session
new_session = record { events = []; closed = false; dropped = 0; uploaded = [] }

unfoldable pub output_event : Bytes → ℕ → Bytes → Bytes → Event
output_event run_id now stream text = record {
  version = Protocol.version;
  type = event_output;
  run_id = run_id;
  timestamp = some now;
  channel_id = [];
  name = [];
  command = [];
  shell = false;
  hostname = [];
  working_directory = [];
  environment = [];
  stream = stream;
  payload = text;
  exit_code = none;
  error = [];
}

-- The pieces in which `Write` hands on its bytes; the fuel is their number or more.
unfoldable pub chunks : ℕ → Bytes → List Bytes
chunks zero p = []
chunks (suc fuel) p =
    let n = min (length p) max_output_event_bytes in
    let rest = chunks fuel (drop n p) in if is_empty p then [] else take n p ∷ rest

-- A writer hands on one piece at a time, or the upload receives an event.
pub data Action : Type 0 where
  writes : ℕ → Bytes → Bytes → Action
  receives : Action

-- `Write` as actions, where nothing else happens in between.
unfoldable pub write : ℕ → Bytes → Bytes → List Action
unfolding chunks
write now stream p = map (writes now stream) (chunks (length p) p)

unfoldable pub receive_event : List Event → Session → Session
receive_event [] s = s
receive_event (e ∷ rest) s = record s { events = rest; uploaded = s.uploaded ++ (e ∷ []) }

-- The upload receives so many events while `Close` waits.
unfoldable pub receive_events : ℕ → Session → Session
unfolding receive_event
receive_events zero s = s
receive_events (suc n) s = receive_events n (receive_event s.events s)

abbrev pub enqueue : Event → Session → Session
enqueue e s = record s { events = s.events ++ (e ∷ []) }

unfoldable pub client_notice : ℕ → Bytes
client_notice dropped =
    str "[wrapping-bot client queue overflow: " ++ decimal dropped ++ str " bytes omitted]\n"

-- What `SendStart` does: it returns an error, puts the event into the queue, or waits for room.
pub data Start : Type 0 where
  fails : Bytes → Start
  starts : Session → Start
  waits : Start

module _ (queue_size : ℕ) where
  unfoldable pub send_start : Event → Session → Start
  send_start event s =
      if s.closed
      then fails (str "relay session is closed")
      else if ltb (length s.events) queue_size
      then starts (enqueue event s)
      else waits

  -- One round of the loop of `Write`.
  unfoldable pub write_chunk : Bytes → ℕ → Bytes → Bytes → Session → Session
  unfolding output_event
  write_chunk run_id now stream chunk s =
      if s.closed
      then s
      else if ltb (length s.events) queue_size
      then enqueue (output_event run_id now stream chunk) s
      else record s { dropped = s.dropped + length chunk }

  unfoldable pub step : Bytes → Session → Action → Session
  unfolding write_chunk receive_event
  step run_id s (writes now stream chunk) = write_chunk run_id now stream chunk s
  step run_id s receives = receive_event s.events s

  unfoldable pub run : Bytes → Session → List Action → Session
  unfolding step
  run run_id s [] = s
  run run_id s (a ∷ acts) = run run_id (step run_id s a) acts

  -- The notice of dropped bytes is left out where there is no room for it.
  unfoldable pub add_notice : Bytes → ℕ → Session → Session
  unfolding client_notice output_event
  add_notice run_id now s =
      if ltb 0 s.dropped && ltb (length s.events) queue_size
      then enqueue (output_event run_id now stream_system (client_notice s.dropped)) s
      else s

  -- `Close` up to the closing of the queue: the exit event is left out if there is no room for it
  -- until the timer fires, before which the upload receives `waited` events.
  unfoldable pub close : ℕ → ℕ → Event → Session → Session
  unfolding add_notice receive_events
  close now waited exit s0 =
      let s = receive_events waited (add_notice exit.run_id now s0) in
      let room = ltb (length s.events) queue_size in
      if s0.closed
      then s0
      else if room
      then record (enqueue exit s) { closed = true }
      else record s { closed = true }
