-- ===== src/Daemon/Config.antt =====
-- `LoadConfigFromEnv` of internal/daemon/config.go. `get` is `os.Getenv`, which gives an empty text for
-- a variable that is not set. `parse_duration` stands for `time.ParseDuration`, in nanoseconds,
-- `to_lower` for `strings.ToLower`, and `quoted` for the `%q` of package `fmt`.
pub mod Ranges
use wrapping_bot.Base.{
  ℕ, zero, suc, ◌-◌, ◌*◌, ◌^◌, Bool, true, false, not, ◌&&◌, ◌||◌, List, [], ◌∷◌, ◌++◌, Option,
  some, none, ltb, leb, ◌==◌, if◌then◌else◌, length,
}
use wrapping_bot.Base.Bytes.{Bytes, str, is_empty, bytes_eq, has_text, split_commas}
use wrapping_bot.Base.Int.{ℤ, pos, negsuc}
use wrapping_bot.Base.Number.{parse_uint}
use wrapping_bot.Base.Space.{trim_space}
use wrapping_bot.Discord.Presence.{presences}
use wrapping_bot.Daemon.Channel.{is_discord_channel_id}

pub record LoadedConfig : Type 0 where
  pub listen_addr : Bytes
  pub discord_bot_token : Bytes
  pub discord_api_base_url : Bytes
  pub discord_gateway_enabled : Bool
  pub discord_gateway_url : Bytes
  pub discord_presence_status : Bytes
  pub discord_activity : Bytes
  pub shared_token : Bytes
  pub allowed_channel_ids : List Bytes
  pub flush_interval : ℤ
  pub max_log_chunk_bytes : ℤ
  pub queue_size : ℤ
  pub max_concurrent_runs : ℤ
  pub max_stream_bytes : ℤ
  pub strip_ansi : Bool

pub record Outside : Type 0 where
  pub get : Bytes → Bytes
  pub parse_duration : Bytes → Option ℤ
  pub to_lower : Bytes → Bytes
  pub quoted : Bytes → Bytes

pub data Loaded {ℓ} (A : Type ℓ) : Type ℓ where
  loaded : A → Loaded A
  invalid : Bytes → Loaded A

unfoldable pub load_then {ℓ κ} : {A : Type ℓ} {B : Type κ} → Loaded A → (A → Loaded B) → Loaded B
load_then (loaded a) f = f a
load_then (invalid err) f = invalid err

-- Whether a number is at least, or at most, a natural number.
abbrev pub at_least : ℕ → ℤ → Bool
at_least n (pos k) = leb n k
at_least n (negsuc k) = false

abbrev pub at_most : ℕ → ℤ → Bool
at_most n (pos k) = leb k n
at_most n (negsuc k) = true

-- `strconv.ParseBool`
unfoldable pub parse_bool : Bytes → Option Bool
parse_bool s =
    if has_text (str "1" ∷ str "t" ∷ str "T" ∷ str "true" ∷ str "TRUE" ∷ str "True" ∷ []) s
    then some true
    else if has_text (str "0" ∷ str "f" ∷ str "F" ∷ str "false" ∷ str "FALSE" ∷ str "False" ∷ []) s
    then some false
    else none

abbrev pub bounded : ℕ → (ℕ → ℤ) → Option ℕ → Option ℤ
bounded limit sign (some n) = if leb n limit then some (sign n) else none
bounded limit sign none = none

abbrev pub negative : ℕ → ℤ
negative zero = pos zero
negative (suc n) = negsuc n

-- `strconv.Atoi` and `ParseInt` of base ten: 64 bits, with a sign or without one.
unfoldable pub parse_int : Bytes → Option ℤ
parse_int [] = none
parse_int (c ∷ s) =
    if c == b'-'
    then bounded (2 ^ 63) negative (parse_uint s)
    else if c == b'+'
    then bounded (2 ^ 63 - 1) pos (parse_uint s)
    else bounded (2 ^ 63 - 1) pos (parse_uint (c ∷ s))

module _ (lib : Outside) where
  abbrev pub env : Bytes → Bytes
  env key = trim_space (lib.get key)

  unfoldable pub env_or : Bytes → Bytes → Bytes
  env_or key fallback = if is_empty (env key) then fallback else env key

  -- `envInt` and `envInt64`
  unfoldable pub env_int : Bytes → ℕ → Loaded ℤ
  unfolding parse_int
  env_int key fallback =
      if is_empty (env key) then loaded (pos fallback) else elim (parse_int (env key)) [
        | some n ↦ loaded n
        | none ↦ invalid (str "invalid " ++ key ++ str ": " ++ lib.quoted (env key))
      ]

  unfoldable pub env_bool : Bytes → Bool → Loaded Bool
  unfolding parse_bool
  env_bool key fallback =
      if is_empty (env key) then loaded fallback else elim (parse_bool (env key)) [
        | some b ↦ loaded b
        | none ↦ invalid (str "invalid " ++ key ++ str ": " ++ lib.quoted (env key))
      ]

  unfoldable pub env_interval : Bytes → ℕ → Loaded ℤ
  env_interval key fallback =
      let wrong = str "invalid " ++ key ++ str ": " ++ lib.quoted (env key) in
      if is_empty (env key) then loaded (pos fallback) else elim (lib.parse_duration (env key)) [
        | some d ↦ if at_least 1 d then loaded d else invalid wrong
        | none ↦ invalid wrong
      ]

  -- The parts of `strings.Split(…, ",")`, each trimmed, as the keys of a map.
  unfoldable pub allowed_channels : List Bytes → List Bytes → Loaded (List Bytes)
  allowed_channels [] ids = loaded ids
  allowed_channels (part ∷ parts) ids =
      let id = trim_space part in
      let without = allowed_channels parts ids in
      let with_it = allowed_channels parts (if has_text ids id then ids else ids ++ (id ∷ [])) in
      if is_empty id
      then without
      else if not (is_discord_channel_id id)
      then invalid (str "invalid channel ID in WRAPPING_BOT_ALLOWED_CHANNEL_IDS: " ++ lib.quoted id)
      else with_it

  unfoldable pub check_ranges : LoadedConfig → Loaded LoadedConfig
  check_ranges cfg =
      if not (at_least 256 cfg.max_log_chunk_bytes) || not (at_most 1800 cfg.max_log_chunk_bytes)
      then invalid (str "WRAPPING_BOT_MAX_LOG_CHUNK_BYTES must be between 256 and 1800")
      else if not (at_least 1 cfg.queue_size)
          || not (at_least 1 cfg.max_concurrent_runs)
          || not (at_least 1 cfg.max_stream_bytes)
      then invalid (str "queue size, concurrency, and stream byte limits must be positive")
      else loaded cfg

  unfoldable pub presence_status : Bytes
  unfolding env_or
  presence_status =
      lib.to_lower (trim_space (env_or (str "WRAPPING_BOT_DISCORD_STATUS") (str "online")))

  -- Behind the checks of the tokens and of the status.
  unfoldable pub load_rest : Bool → Loaded LoadedConfig
  unfolding env_or env_int env_bool env_interval allowed_channels presence_status
  load_rest gateway =
      load_then
        (allowed_channels (split_commas (lib.get (str "WRAPPING_BOT_ALLOWED_CHANNEL_IDS"))) [])
        (λ channels.
          load_then (env_interval (str "WRAPPING_BOT_FLUSH_INTERVAL") (1500 * 1_000_000))
            (λ interval. load_then (env_int (str "WRAPPING_BOT_MAX_LOG_CHUNK_BYTES") 1600) (λ chunk.
              load_then (env_int (str "WRAPPING_BOT_QUEUE_SIZE") 1024) (λ queue.
                load_then (env_int (str "WRAPPING_BOT_MAX_CONCURRENT_RUNS") 32) (λ runs.
                  load_then (env_int (str "WRAPPING_BOT_MAX_STREAM_BYTES") (2 ^ 30)) (λ bytes.
                    load_then (env_bool (str "WRAPPING_BOT_STRIP_ANSI") true) (λ strip.
                      check_ranges (record {
                        listen_addr = env_or (str "WRAPPING_BOT_LISTEN_ADDR") (str ":8080");
                        discord_bot_token = env (str "DISCORD_BOT_TOKEN");
                        discord_api_base_url =
                            env_or (str "DISCORD_API_BASE_URL") (str "https://discord.com/api/v10");
                        discord_gateway_enabled = gateway;
                        discord_gateway_url = env (str "DISCORD_GATEWAY_URL");
                        discord_presence_status = presence_status;
                        discord_activity =
                            env_or (str "WRAPPING_BOT_DISCORD_ACTIVITY") (str "process logs");
                        shared_token = env (str "WRAPPING_BOT_SHARED_TOKEN");
                        allowed_channel_ids = channels;
                        flush_interval = interval;
                        max_log_chunk_bytes = chunk;
                        queue_size = queue;
                        max_concurrent_runs = runs;
                        max_stream_bytes = bytes;
                        strip_ansi = strip;
                      }))))))))

  unfoldable pub load_config : Loaded LoadedConfig
  unfolding load_rest presence_status env_bool
  load_config =
      if is_empty (env (str "DISCORD_BOT_TOKEN"))
      then invalid (str "DISCORD_BOT_TOKEN is required")
      else if is_empty (env (str "WRAPPING_BOT_SHARED_TOKEN"))
      then invalid (str "WRAPPING_BOT_SHARED_TOKEN is required")
      else load_then (env_bool (str "WRAPPING_BOT_GATEWAY_ENABLED") true) (λ gateway.
        if has_text presences presence_status
        then load_rest gateway
        else invalid (str "invalid WRAPPING_BOT_DISCORD_STATUS: " ++ lib.quoted presence_status))
