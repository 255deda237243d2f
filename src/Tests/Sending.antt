-- ===== src/Tests/Sending.antt =====
-- A message of internal/discord/sender.go that meets a rate limit before it is delivered.
use wrapping_bot.Base.{ℕ, ◌↔◌, ◌==◌, if◌then◌else◌, [], none, ◌≡◌, refl, length}
use wrapping_bot.Base.Bytes.{str, bytes_eq}
use wrapping_bot.Base.Result.{ok}
use wrapping_bot.Base.Space.{trim_space}
use wrapping_bot.Discord.Sender.{Answer, Reply, answered, Sender, Outside, send}
use wrapping_bot.Discord.Presence.{base_url, default_api_base_url}
use wrapping_bot.Discord.Sender.New.{NewSender, new_sender}
use wrapping_bot.Discord.Sender.Spacing.{Sent}
use wrapping_bot.Discord.Sender.Retries.{Succeeds, send-Outcome}

abbrev outside : Outside
outside = record { show_duration = λ d. str "1s"; elapsed = λ n. 5 }

abbrev limited : Answer
limited = record {
  status = 429;
  status_line = str "429";
  status_text = [];
  body = [];
  remaining = str "0";
  reset_after = 1000;
  body_retry_after = 2000;
  header_retry_after = 0;
}

abbrev reply : ℕ → Reply
reply n = if n == 0 then answered limited else answered (record limited { status = 200 })

abbrev cfg : NewSender
cfg = record { bot_token = str "bot"; base_url = default_api_base_url; max_retries = 6 }

made : new_sender (str "bot") [] ≡ ok cfg
unfolding new_sender trim_space base_url
made = refl

abbrev at_rest : Sender
at_rest = record { next_send = 0; now = 10; posts = [] }

trimmed : trim_space (str "1") ≡ str "1"
unfolding trim_space
trimmed = refl

send-Outcome_example :
    let out = send outside cfg reply (str "1") (str "hi") at_rest in
    (out.0 ≡ none ↔ Succeeds reply 0 7)
    × Sent outside reply cfg (str "1") (str "hi") 7 0 at_rest out.1
send-Outcome_example =
    send-Outcome outside cfg reply (str "1") (str "hi") (str "bot") [] at_rest made trimmed
      (λ e. absurd (cc)) (λ e. absurd (cc))

-- The second request waits for the longer of the two times.
second_request :
    let out = send outside cfg reply (str "1") (str "hi") at_rest in
    (out.0 ≡ none) × (length out.1.posts ≡ 2) × (out.1.now ≡ 2020)
unfolding send trim_space bytes_eq
second_request = (refl, refl, refl)
