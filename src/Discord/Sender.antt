-- ===== src/Discord/Sender.antt =====
-- `Send` of internal/discord/sender.go. `reply n` is what the n-th request of the call meets. Times
-- are in nanoseconds since some origin; the floating-point numbers of headers and bodies come as the
-- durations that `durationFromSeconds` makes of them, with 0 where there is none or none above 0.
pub mod New
pub mod Attempts
pub mod Spacing
pub mod Retries
use wrapping_bot.Base.{
  ℕ, zero, suc, ◌+◌, ◌-◌, ◌*◌, ◌^◌, min, max, Bool, true, false, ◌&&◌, ◌||◌, List, [], ◌∷◌, ◌++◌,
  Option, some, none, ltb, leb, ◌==◌, if◌then◌else◌, length,
}
use wrapping_bot.Base.Bytes.{Bytes, str, is_empty, bytes_eq}
use wrapping_bot.Base.Space.{trim_space}
use wrapping_bot.Discord.Sender.New.{NewSender, CreateMessageRequest, message_request}

abbrev pub millisecond : ℕ
millisecond = 1_000_000

-- What the code reads of a response.
pub record Answer : Type 0 where
  pub status : ℕ
  pub status_line : Bytes
  pub status_text : Bytes
  pub body : Bytes
  pub remaining : Bytes
  pub reset_after : ℕ
  pub body_retry_after : ℕ
  pub header_retry_after : ℕ

-- No request can be made, or it fails, its response cannot be read, or there is a response.
pub data Reply : Type 0 where
  unmade : Bytes → Reply
  unreachable : Bytes → Reply
  unreadable : Bytes → Reply
  answered : Answer → Reply

-- A request and its time.
pub record Post : Type 0 where
  pub request : CreateMessageRequest
  pub at : ℕ

pub record Sender : Type 0 where
  pub next_send : ℕ
  pub now : ℕ
  pub posts : List Post

-- What the code takes from elsewhere: the print of a duration, and how long a request takes.
pub record Outside : Type 0 where
  pub show_duration : ℕ → Bytes
  pub elapsed : ℕ → ℕ

unfoldable pub retry_backoff : ℕ → ℕ
retry_backoff attempt = 2 ^ min attempt 5 * (250 * millisecond)

abbrev pub sleep : ℕ → Sender → Sender
sleep duration s = record s { now = s.now + duration }

-- The wait for `nextSend`.
abbrev pub wait_turn : Sender → Sender
wait_turn s = record s { now = max s.now s.next_send }

unfoldable pub update_rate_window : Answer → Sender → Sender
update_rate_window a s =
    if bytes_eq a.remaining (str "0") && ltb 0 a.reset_after
    then record s { next_send = s.now + a.reset_after }
    else s

-- How long a 429 makes the next request wait.
unfoldable pub rate_limit_wait : ℕ → Answer → ℕ
unfolding retry_backoff
rate_limit_wait attempt a =
    let wait = max a.body_retry_after a.header_retry_after in
    if wait == 0 then retry_backoff attempt else wait

unfoldable pub api_error : Answer → Bytes
api_error a =
    let message = trim_space a.body in
    str "Discord API returned "
    ++ a.status_line
    ++ str ": "
    ++ (if is_empty message then a.status_text else message)

-- What an attempt leads to: `Send` returns, or the loop goes on with this as `lastErr`.
pub data Attempt : Type 0 where
  returns : Option Bytes → Sender → Attempt
  continues : Bytes → Sender → Attempt

module _ (lib : Outside) where
  -- Behind the response; `last` says that no attempt is left.
  unfoldable pub take_answer : Bool → ℕ → Answer → Sender → Attempt
  unfolding update_rate_window rate_limit_wait retry_backoff api_error
  take_answer last attempt a s0 =
      let s = update_rate_window a s0 in
      let wait = rate_limit_wait attempt a in
      if leb 200 a.status && ltb a.status 300
      then returns none s
      else if a.status == 429
      then continues (str "Discord rate limited request for " ++ lib.show_duration wait)
          (record s { next_send = s.now + wait })
      else if ltb a.status 500 || last
      then returns (some (api_error a)) s
      else continues (api_error a) (sleep (retry_backoff attempt) s)

  unfoldable pub take_reply : Bool → ℕ → Reply → Sender → Attempt
  unfolding take_answer retry_backoff
  take_reply last attempt (unmade err) s = returns (some err) s
  take_reply last attempt (unreachable err) s =
      if last then returns (some err) s else continues err (sleep (retry_backoff attempt) s)
  take_reply last attempt (unreadable err) s = returns (some err) s
  take_reply last attempt (answered a) s = take_answer last attempt a s

  module _ (cfg : NewSender) where
    abbrev pub post : Bytes → Bytes → Reply → Sender → Sender
    post channel_id content reply s0 =
        let s = wait_turn s0 in
        elim reply [
          | unmade err ↦ s
          | _ ↦ record s {
            now = s.now + lib.elapsed (length s.posts);
            posts =
                s.posts
                ++ (record { request = message_request cfg channel_id content; at = s.now } ∷ []);
          }
        ]

    -- The loop, with `left` attempts to go; `attempt` counts those made.
    unfoldable pub send_loop :
        (ℕ → Reply) → Bytes → Bytes → ℕ → ℕ → Option Bytes → Sender → Option Bytes × Sender
    unfolding take_reply message_request
    send_loop reply channel_id content zero attempt last_err s = (last_err, s)
    send_loop reply channel_id content (suc left) attempt last_err s =
        let s1 = post channel_id content (reply attempt) s in
        elim (take_reply (left == 0) attempt (reply attempt) s1) [
          | returns result s2 ↦ (result, s2)
          | continues err s2 ↦ send_loop reply channel_id content left (suc attempt) (some err) s2
        ]

    unfoldable pub send : (ℕ → Reply) → Bytes → Bytes → Sender → Option Bytes × Sender
    unfolding send_loop
    send reply channel_id content s =
        let channel_id' = trim_space channel_id in
        if is_empty channel_id'
        then (some (str "Discord channel ID is required"), s)
        else if is_empty content
        then (none, s)
        else send_loop reply channel_id' content (suc cfg.max_retries) 0 none s
