-- ===== src/Tests/Configs.antt =====
-- An environment for internal/daemon/config.go that sets the tokens and a list of channels.
use wrapping_bot.Base.{true, [], ◌∷◌, none, ◌≡◌, refl, if◌then◌else◌}
use wrapping_bot.Base.Bytes.{Bytes, str, bytes_eq, has_text, split_from}
use wrapping_bot.Base.Int.{pos}
use wrapping_bot.Base.Number.{parse_uint}
use wrapping_bot.Base.Space.{trim_space}
use wrapping_bot.Daemon.Channel.{is_discord_channel_id}
use wrapping_bot.Daemon.Config.{LoadedConfig, Outside, loaded, load_then, check_ranges, load_config}
use wrapping_bot.Daemon.Config.Ranges.{IsUsable, load_config-IsUsable}

abbrev variables : Bytes → Bytes
variables key =
    if bytes_eq key (str "DISCORD_BOT_TOKEN")
    then str "bot"
    else if bytes_eq key (str "WRAPPING_BOT_SHARED_TOKEN")
    then str "secret"
    else if bytes_eq key (str "WRAPPING_BOT_ALLOWED_CHANNEL_IDS")
    then str "123456789012345678, "
    else if bytes_eq key (str "WRAPPING_BOT_QUEUE_SIZE")
    then str "+16"
    else []

abbrev pub outside : Outside
outside = record { get = variables; parse_duration = λ s. none; to_lower = λ s. s; quoted = λ s. s }

abbrev pub config : LoadedConfig
config = record {
  listen_addr = str ":8080";
  discord_bot_token = str "bot";
  discord_api_base_url = str "https://discord.com/api/v10";
  discord_gateway_enabled = true;
  discord_gateway_url = [];
  discord_presence_status = str "online";
  discord_activity = str "process logs";
  shared_token = str "secret";
  allowed_channel_ids = str "123456789012345678" ∷ [];
  flush_interval = pos 1_500_000_000;
  max_log_chunk_bytes = pos 1600;
  queue_size = pos 16;
  max_concurrent_runs = pos 32;
  max_stream_bytes = pos 1_073_741_824;
  strip_ansi = true;
}

pub config-loaded : load_config outside ≡ loaded config
unfolding load_config load_then check_ranges bytes_eq has_text trim_space is_discord_channel_id
    parse_uint split_from
config-loaded = refl

load_config-IsUsable_example : IsUsable config
load_config-IsUsable_example = load_config-IsUsable outside config config-loaded
