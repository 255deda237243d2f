-- ===== src/Discord/Sender/New.antt =====
-- `NewSender` of internal/discord/sender.go, and the request that its sender makes of a message.
use wrapping_bot.Base.{
  ℕ, List, [], ◌++◌, ◌^◌, ◌≡◌, sym, ap, ◌∙◌, refl, Bool-cases, inl, inr, if◌then◌else◌,
}
use wrapping_bot.Base.Bytes.{Bytes, str, is_empty}
use wrapping_bot.Base.Result.{Result, ok, error}
use wrapping_bot.Base.Space.{trim_space}
use wrapping_bot.Discord.Presence.{base_url}

pub record NewSender : Type 0 where
  pub bot_token : Bytes
  pub base_url : Bytes
  pub max_retries : ℕ

unfoldable pub new_sender : Bytes → Bytes → Result NewSender
unfolding trim_space base_url
new_sender token url =
    let bot_token = trim_space token in
    if is_empty bot_token
    then error (str "Discord bot token is required")
    else ok (record { bot_token = bot_token; base_url = base_url url; max_retries = 6 })

-- The payload, as it is before it is JSON, and the headers.
pub record CreateMessageRequest : Type 0 where
  pub url : Bytes
  pub authorization : Bytes
  pub content_type : Bytes
  pub user_agent : Bytes
  pub content : Bytes
  pub parse : List Bytes
  pub flags : ℕ

unfoldable pub message_request : NewSender → Bytes → Bytes → CreateMessageRequest
message_request cfg channel_id content = record {
  url = cfg.base_url ++ str "/channels/" ++ channel_id ++ str "/messages";
  authorization = str "Bot " ++ cfg.bot_token;
  content_type = str "application/json";
  user_agent = str "wrapping-bot/1";
  content = content;
  parse = [];
  flags = 2 ^ 12;
}

abbrev retries : Result NewSender → ℕ
retries (ok cfg) = cfg.max_retries
retries (error text) = 6

retries-new_sender : (token url : Bytes) → retries (new_sender token url) ≡ 6
unfolding new_sender
retries-new_sender token url = elim (Bool-cases (is_empty (trim_space token))) [
  | inl blank ↦ rw blank refl
  | inr full ↦ rw full refl
]

-- A sender makes six tries more where its first fails.
pub new_sender-max_retries :
    (token url : Bytes) (cfg : NewSender) → new_sender token url ≡ ok cfg → cfg.max_retries ≡ 6
new_sender-max_retries token url cfg e = sym (ap retries e) ∙ retries-new_sender token url
