-- ===== src/Discord/Gateway.antt =====
-- The data of internal/discord/gateway.go, `NewGateway`, and where a connection goes. The calls of
-- `net/url`, `net/http` and `encoding/json` come as functions; an interval of type `float64` comes as
-- the duration in nanoseconds that the code makes of it, with whether it is above 0.
pub mod State
pub mod Heartbeat
pub mod Connection
pub mod Run
pub mod Keeps
pub mod Beats
pub mod Replay
pub mod Greeting
pub mod Resume
pub mod Waits
pub mod Lost
pub mod Connected
pub mod Failures
pub mod Unanswered
use wrapping_bot.Base.{
  ℕ, zero, suc, Bool, true, false, not, ◌&&◌, ◌||◌, List, [], ◌∷◌, ◌++◌, Option, some, none, ltb,
  leb, if◌then◌else◌,
}
use wrapping_bot.Base.Bytes.{Bytes, str, is_empty, bytes_eq, has_text, trim_slashes}
use wrapping_bot.Base.Int.{ℤ, pos, negsuc, int_eq}
use wrapping_bot.Base.Result.{Result, ok, error, ok_then}
use wrapping_bot.Base.Space.{trim_space}
use wrapping_bot.Discord.Presence.{presences, base_url}

pub record GatewayConfig : Type 0 where
  pub bot_token : Bytes
  pub api_base_url : Bytes
  pub gateway_url : Bytes
  pub status : Bytes
  pub activity : Bytes

-- A sequence of -1 is that there is none.
pub record Gateway : Type 0 where
  pub bot_token : Bytes
  pub api_base_url : Bytes
  pub gateway_url : Bytes
  pub status : Bytes
  pub activity : Bytes
  pub connected : Bool
  pub session_id : Bytes
  pub resume_gateway_url : Bytes
  pub sequence : ℤ

pub record GatewayEnvelope : Type 0 where
  pub op : ℤ
  pub d : Bytes
  pub s : Option ℤ
  pub t : Bytes

pub record GatewayHello : Type 0 where
  pub positive : Bool
  pub interval : ℤ

pub record GatewayReady : Type 0 where
  pub session_id : Bytes
  pub resume_gateway_url : Bytes

pub record GatewayActivity : Type 0 where
  pub name : Bytes
  pub kind : ℕ

pub record GatewayPresence : Type 0 where
  pub since : Option ℤ
  pub activities : List GatewayActivity
  pub status : Bytes
  pub afk : Bool

pub record GatewayIdentifyProperties : Type 0 where
  pub os : Bytes
  pub browser : Bytes
  pub device : Bytes

pub record GatewayIdentify : Type 0 where
  pub token : Bytes
  pub intents : ℕ
  pub properties : GatewayIdentifyProperties
  pub presence : GatewayPresence

pub record GatewayResume : Type 0 where
  pub token : Bytes
  pub session_id : Bytes
  pub sequence : ℤ

-- What the code writes to the connection: the `d` of opcode 1, 2 and 6.
pub data Packet : Type 0 where
  heartbeat : Option ℕ → Packet
  identify : GatewayIdentify → Packet
  resume : GatewayResume → Packet

-- An URL that parses: the two parts that are looked at, and its text once keys of its query are set.
pub record ParsedUrl : Type 0 where
  pub scheme : Bytes
  pub host : Bytes
  pub with_query : List (Bytes × Bytes) → Bytes

pub record Request : Type 0 where
  pub url : Bytes
  pub authorization : Bytes
  pub user_agent : Bytes

pub record Response : Type 0 where
  pub status_code : ℕ
  pub status : Bytes
  pub body : Bytes

-- No request can be made of it, it meets no response, or it meets one.
pub data Asked : Type 0 where
  unasked : Bytes → Asked
  unreached : Bytes → Asked
  responds : Response → Asked

pub record Outside : Type 0 where
  pub to_lower : Bytes → Bytes
  pub quoted : Bytes → Bytes
  pub goos : Bytes
  pub parse_url : Bytes → Option ParsedUrl
  pub decode_bot : Bytes → Result Bytes
  pub decode_hello : Bytes → Option GatewayHello
  pub decode_ready : Bytes → Result GatewayReady
  pub decode_bool : Bytes → Bool

abbrev pub gateway_query : List (Bytes × Bytes)
gateway_query = (str "v", str "10") ∷ (str "encoding", str "json") ∷ []

abbrev pub bot_request : Gateway → Request
bot_request g = record {
  url = g.api_base_url ++ str "/gateway/bot";
  authorization = str "Bot " ++ g.bot_token;
  user_agent = str "wrapping-bot/1";
}

abbrev pub can_resume : Gateway → Bool
can_resume g = not (is_empty g.session_id) && not (is_empty g.resume_gateway_url)

module _ (lib : Outside) where
  unfoldable pub presence_of : Bytes → Bytes
  unfolding trim_space
  presence_of setting =
      let status = lib.to_lower (trim_space setting) in
      if is_empty status then str "online" else status

  unfoldable pub new_gateway : GatewayConfig → Result Gateway
  unfolding base_url presence_of trim_space
  new_gateway cfg =
      let bot_token = trim_space cfg.bot_token in
      let status = presence_of cfg.status in
      if is_empty bot_token
      then error (str "Discord bot token is required")
      else if has_text presences status
      then ok (record {
        bot_token = bot_token;
        api_base_url = base_url cfg.api_base_url;
        gateway_url = trim_space cfg.gateway_url;
        status = status;
        activity = trim_space cfg.activity;
        connected = false;
        session_id = [];
        resume_gateway_url = [];
        sequence = negsuc 0;
      })
      else error (str "unsupported Discord presence status " ++ lib.quoted status)

  unfoldable pub with_gateway_query : Bytes → Result Bytes
  unfolding trim_space
  with_gateway_query raw =
      let wrong = error (str "invalid Discord Gateway URL " ++ lib.quoted raw) in
      elim (lib.parse_url (trim_space raw)) [
        | none ↦ wrong
        | some u ↦
            if is_empty u.scheme || is_empty u.host then wrong else ok (u.with_query gateway_query)
      ]

  unfoldable pub asked_url : Asked → Result Bytes
  unfolding with_gateway_query
  asked_url (unasked text) = error text
  asked_url (unreached text) = error (str "get Discord Gateway URL: " ++ text)
  asked_url (responds r) =
      if ltb r.status_code 200 || leb 300 r.status_code
      then error (str "Discord Gateway URL request returned " ++ r.status)
      else elim (lib.decode_bot r.body) [
        | error text ↦ error (str "decode Discord Gateway URL: " ++ text)
        | ok url ↦ with_gateway_query url
      ]

  -- The URL, and whether the session there goes on.
  unfoldable pub connection_url : (Request → Asked) → Gateway → Result (Bytes × Bool)
  unfolding with_gateway_query asked_url
  connection_url http g =
      if can_resume g
      then ok_then (with_gateway_query g.resume_gateway_url) (λ url. ok (url, true))
      else if not (is_empty g.gateway_url)
      then ok_then (with_gateway_query g.gateway_url) (λ url. ok (url, false))
      else ok_then (asked_url (http (bot_request g))) (λ url. ok (url, false))

unfoldable pub clear_session : Gateway → Gateway
clear_session g = record g { session_id = []; resume_gateway_url = []; sequence = negsuc 0 }

-- `sendHeartbeat` writes what it reads of the sequence.
abbrev pub beat_of : ℤ → Option ℕ
beat_of (pos n) = some n
beat_of (negsuc n) = none

-- The first packet of a connection.
unfoldable pub greeting : Bytes → Bool → Gateway → Packet
greeting goos resuming g =
    if resuming
    then resume (record { token = g.bot_token; session_id = g.session_id; sequence = g.sequence })
    else identify (record {
      token = g.bot_token;
      intents = 0;
      properties = record { os = goos; browser = str "wrapping-bot"; device = str "wrapping-bot" };
      presence = record {
        since = none;
        activities =
            (if is_empty g.activity then [] else record { name = g.activity; kind = 3 } ∷ []);
        status = g.status;
        afk = false;
      };
    })
