-- ===== src/Client/Session/Upload.antt =====
-- `New`, the waits of `Close`, and `upload` of internal/clientstream/session.go. Durations are in
-- nanoseconds. What `net/http` and the pipe do comes as arguments, and so does the decoding of JSON.
use wrapping_bot.Base.{
  ℕ, zero, suc, ◌*◌, ◌/◌, ◌^◌, min, max, false, ◌||◌, List, [], ◌∷◌, ◌++◌, Option, some, none, ltb,
  leb, if◌then◌else◌, take,
}
use wrapping_bot.Base.Bytes.{Bytes, str, is_empty, trim_slashes}
use wrapping_bot.Base.Int.{ℤ, pos, negsuc}
use wrapping_bot.Base.Result.{Result, ok, error}
use wrapping_bot.Base.Space.{trim_space}
use wrapping_bot.Protocol.{Event, StreamResponse}

abbrev pub millisecond : ℕ
millisecond = 1_000_000

abbrev pub default_timeout : ℕ
default_timeout = 15_000 * millisecond

pub record Config : Type 0 where
  pub endpoint : Bytes
  pub token : Bytes
  pub queue_size : ℤ
  pub finish_timeout : ℤ

-- A number above 0, or else the default.
abbrev pub or_default : ℕ → ℤ → ℕ
or_default fallback (pos zero) = fallback
or_default fallback (pos (suc n)) = suc n
or_default fallback (negsuc n) = fallback

-- What `New` makes the queue and the upload of.
pub record Opened : Type 0 where
  pub endpoint : Bytes
  pub token : Bytes
  pub queue_size : ℕ
  pub finish_timeout : ℕ

unfoldable pub open_session : Config → Result Opened
unfolding trim_space
open_session cfg =
    if is_empty (trim_space cfg.endpoint)
    then error (str "relay endpoint is required")
    else if is_empty (trim_space cfg.token)
    then error (str "relay token is required")
    else ok (record {
      endpoint = cfg.endpoint;
      token = cfg.token;
      queue_size = or_default 1024 cfg.queue_size;
      finish_timeout = or_default default_timeout cfg.finish_timeout;
    })

-- The result of an upload.
pub record Uploaded : Type 0 where
  pub response : StreamResponse
  pub err : Option Bytes

abbrev pub no_response : StreamResponse
no_response = record { run_id = []; accepted = false; dropped_bytes = 0; error = [] }

abbrev pub failed : Bytes → Uploaded
failed text = record { response = no_response; err = some text }

-- How long `Close` waits for room for the exit event.
unfoldable pub final_send_timeout : ℕ → ℕ
final_send_timeout timeout = max (250 * millisecond) (min (5_000 * millisecond) (timeout / 3))

pub record Closed : Type 0 where
  pub at : ℕ
  pub result : Uploaded

-- When `Close` returns, from its start on, and what. There is room for the exit event after `room`, and
-- the upload ends after `done`, if it does; `late` is the error that names the timeout. Where two
-- things happen at once the code may see either first.
unfoldable pub close_result : (ℕ → Bytes) → ℤ → ℕ → Option (ℕ × Uploaded) → Closed
unfolding final_send_timeout
close_result late given room done =
    let timeout = or_default default_timeout given in
    let sent = min room (final_send_timeout timeout) in
    let expired : Closed = record { at = max sent timeout; result = failed (late timeout) } in
    if leb timeout sent then expired else elim done [
      | none ↦ expired
      | some (time, result) ↦
          if ltb time timeout then record { at = max sent time; result = result } else expired
    ]

pub record Request : Type 0 where
  pub url : Bytes
  pub authorization : Bytes
  pub content_type : Bytes
  pub user_agent : Bytes

unfoldable pub upload_request : Opened → Request
unfolding trim_slashes
upload_request cfg = record {
  url = trim_slashes cfg.endpoint ++ str "/v1/runs/stream";
  authorization = str "Bearer " ++ cfg.token;
  content_type = str "application/x-ndjson";
  user_agent = str "wrapping-bot/1";
}

pub record Response : Type 0 where
  pub status_code : ℕ
  pub status : Bytes
  pub body : Bytes

-- No request can be made, it meets no response, its response cannot be read, or there is one.
pub data Reply : Type 0 where
  unasked : Bytes → Reply
  unreached : Bytes → Reply
  unread : Bytes → Reply
  responds : Response → Reply

unfoldable pub take_decoded : Response → StreamResponse → Uploaded
unfolding trim_space
take_decoded r response =
    let message =
      if is_empty response.error then trim_space (take (2 ^ 20) r.body) else response.error in
    if ltb r.status_code 200 || leb 300 r.status_code
    then record {
      response = response;
      err = some (str "relay returned " ++ r.status ++ str ": " ++ message);
    }
    else record { response = response; err = none }

unfoldable pub take_response : (Bytes → Result StreamResponse) → Response → Uploaded
unfolding take_decoded
take_response decode r =
    if is_empty (take (2 ^ 20) r.body)
    then take_decoded r no_response
    else elim (decode (take (2 ^ 20) r.body)) [
      | ok response ↦ take_decoded r response
      | error text ↦ failed (str "decode relay response: " ++ text)
    ]

unfoldable pub take_reply : (Bytes → Result StreamResponse) → Reply → Uploaded
unfolding take_response
take_reply decode (unasked text) = failed text
take_reply decode (unreached text) = failed text
take_reply decode (unread text) = failed text
take_reply decode (responds r) = take_response decode r

-- The loop over the queue: the events that are written, and the first error of `Encode`, behind which
-- events are received and left out. `encode n` is what the call for the n-th event returns.
unfoldable pub encode_events : (ℕ → Option Bytes) → ℕ → List Event → List Event × Option Bytes
encode_events encode n [] = ([], none)
encode_events encode n (e ∷ events) =
    let (written, err) = encode_events encode (suc n) events in
    elim (encode n) [ some text ↦ ([], some text) | none ↦ (e ∷ written, err) ]

abbrev pub with_error : Option Bytes → Uploaded → Uploaded
with_error none r = r
with_error (some text) r = elim r.err [ none ↦ record r { err = some text } | some old ↦ r ]

-- What `upload` sends as the result, once the queue is closed; no event is taken where no request can
-- be made.
unfoldable pub upload :
    (Bytes → Result StreamResponse) → (ℕ → Option Bytes) → Reply → List Event → Uploaded
unfolding take_reply encode_events
upload decode encode (unasked text) events = failed text
upload decode encode reply events =
    with_error (encode_events encode 0 events).1 (take_reply decode reply)
