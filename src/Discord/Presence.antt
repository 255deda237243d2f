-- ===== src/Discord/Presence.antt =====
-- The presence statuses that internal/discord/gateway.go and internal/daemon/config.go both know, and
-- the base URL that sender.go and gateway.go make of the same setting.
use wrapping_bot.Base.{List, [], ◌∷◌, if◌then◌else◌}
use wrapping_bot.Base.Bytes.{Bytes, str, is_empty, trim_slashes}
use wrapping_bot.Base.Space.{trim_space}

abbrev pub presences : List Bytes
presences = str "online" ∷ str "idle" ∷ str "dnd" ∷ str "invisible" ∷ []

abbrev pub default_api_base_url : Bytes
default_api_base_url = str "https://discord.com/api/v10"

-- The base of the REST API, from a setting that may be empty or end in slashes.
unfoldable pub base_url : Bytes → Bytes
unfolding trim_slashes trim_space
base_url url =
    let base = trim_slashes (trim_space url) in if is_empty base then default_api_base_url else base
