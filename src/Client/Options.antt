-- ===== src/Client/Options.antt =====
-- `parseOptions` of cmd/wrapping-bot/main.go with the environment variables that it reads, and
-- `resolveClientEnvPath`.
pub mod Checked
use wrapping_bot.Base.{
  ℕ, ◌*◌, Bool, true, false, not, ◌&&◌, ◌||◌, List, [], ◌∷◌, ◌++◌, Option, some, none, ◌==◌,
  if◌then◌else◌,
}
use wrapping_bot.Base.Bytes.{Bytes, str, is_empty, bytes_eq, has_prefix, trim_prefix, split_commas}
use wrapping_bot.Base.Int.{ℤ, pos, negsuc}
use wrapping_bot.Base.Result.{Result, ok, error, ok_then}
use wrapping_bot.Base.Space.{trim_space}
use wrapping_bot.Client.Flags.{Options, Outside, parse_flags}
use wrapping_bot.Daemon.Channel.{is_discord_channel_id}
use wrapping_bot.Daemon.Config.{at_least, parse_bool, parse_int}

unfoldable pub keep_full : List Bytes → List Bytes
unfolding trim_space
keep_full [] = []
keep_full (value ∷ values) =
    let rest = keep_full values in
    let trimmed = trim_space value in if is_empty trimmed then rest else trimmed ∷ rest

-- `parseCSV`
unfoldable pub parse_csv : Bytes → List Bytes
unfolding keep_full
parse_csv raw = keep_full (split_commas raw)

abbrev no_texts : List Bytes → Bool
no_texts [] = true
no_texts (t ∷ ts) = false

module _ (lib : Outside) where
  abbrev pub env : Bytes → Bytes
  env key = trim_space (lib.get key)

  unfoldable pub env_or : Bytes → Bytes → Bytes
  env_or key fallback = if is_empty (env key) then fallback else env key

  unfoldable pub env_int : Bytes → ℤ → ℤ
  unfolding parse_int
  env_int key fallback = elim (parse_int (env key)) [
    | none ↦ fallback
    | some n ↦ if at_least 1 n then n else fallback
  ]

  unfoldable pub env_bool : Bytes → Bool → Bool
  unfolding parse_bool
  env_bool key fallback = elim (parse_bool (env key)) [ none ↦ fallback | some b ↦ b ]

  unfoldable pub env_duration : Bytes → ℤ → ℤ
  env_duration key fallback = elim (lib.parse_duration (env key)) [
    | none ↦ fallback
    | some d ↦ if at_least 1 d then d else fallback
  ]

  -- The keys and prefixes of the environment, or the defaults where both are empty.
  unfoldable pub default_names : List Bytes × List Bytes
  unfolding parse_csv
  default_names =
      let keys = parse_csv (lib.get (str "WRAPPING_BOT_ENV_KEYS")) in
      let prefixes = parse_csv (lib.get (str "WRAPPING_BOT_ENV_PREFIXES")) in
      if no_texts keys && no_texts prefixes
      then (
        str "RUN_ID" ∷ str "TOPOLOGY" ∷ str "PROTOCOL" ∷ str "NODES" ∷ str "SEED" ∷ [],
        str "EXP_" ∷ str "PEERKIT_" ∷ [],
      )
      else (keys, prefixes)

  -- `clientEnvPathFromEnvironment`
  abbrev pub env_path : Bytes
  env_path = env (str "WRAPPING_BOT_CLIENT_ENV_FILE")

  unfoldable pub default_options : Options
  unfolding env_or env_int env_bool env_duration default_names
  default_options = record {
    client_env = env_path;
    endpoint = env_or (str "WRAPPING_BOT_ENDPOINT") (str "http://127.0.0.1:8080");
    token = env (str "WRAPPING_BOT_TOKEN");
    channel_id = env (str "WRAPPING_BOT_CHANNEL_ID");
    name = env (str "WRAPPING_BOT_RUN_NAME");
    shell = false;
    env_keys = default_names.0;
    env_prefixes = default_names.1;
    allow_secrets = env_bool (str "WRAPPING_BOT_ALLOW_SECRET_ENV") false;
    queue_size = env_int (str "WRAPPING_BOT_CLIENT_QUEUE_SIZE") (pos 1024);
    finish_timeout = env_duration (str "WRAPPING_BOT_FINISH_TIMEOUT") (pos (15 * 1_000_000_000));
  }

  -- Behind `fs.Parse`.
  unfoldable pub check_options : Options → List Bytes → Result (Options × List Bytes)
  unfolding trim_space is_discord_channel_id
  check_options o command =
      if no_texts command
      then error (str "command is required")
      else if is_empty (trim_space o.token)
      then error (str "WRAPPING_BOT_TOKEN or --token is required")
      else if not (is_discord_channel_id o.channel_id)
      then error
          (str "WRAPPING_BOT_CHANNEL_ID or --channel-id must be a 17-20 digit Discord channel ID")
      else if not (at_least 1 o.queue_size)
      then error (str "queue size must be positive")
      else ok (o, command)

  unfoldable pub parse_options : List Bytes → Result (Options × List Bytes)
  unfolding parse_flags default_options check_options
  parse_options args =
      ok_then (parse_flags lib none args default_options) (λ (o, command). check_options o command)

  -- The path, and whether it must be there.
  unfoldable pub given_path : Bytes → Result (Bytes × Bool)
  unfolding trim_space
  given_path text =
      let path = trim_space text in
      if is_empty path
      then error (str "--client-env requires a non-empty path")
      else ok (path, true)

  unfoldable pub resolve_client_env_path : List Bytes → Result (Bytes × Bool)
  unfolding given_path bytes_eq has_prefix trim_prefix
  resolve_client_env_path [] =
      if is_empty env_path then ok (str "client.env", false) else ok (env_path, true)
  resolve_client_env_path (arg ∷ args) =
      let rest = resolve_client_env_path args in
      if bytes_eq arg (str "--")
      then (if is_empty env_path then ok (str "client.env", false) else ok (env_path, true))
      else if bytes_eq arg (str "--client-env")
      then elim args [
        | [] ↦ error (str "--client-env requires a path")
        | path ∷ more ↦ given_path path
      ]
      else if has_prefix arg (str "--client-env=")
      then given_path (trim_prefix arg (str "--client-env="))
      else rest
