-- ===== src/Client/Flags.antt =====
-- The options of cmd/wrapping-bot/main.go, and how package `flag` sets them from the arguments in
-- `parseOptions`. `parse_int_literal` stands for `strconv.ParseInt` of base 0 with the error that `flag`
-- makes of its, `parse_duration` for `time.ParseDuration`, and `quoted` for the `%q` of package `fmt`.
pub mod RoundTrip
pub mod Given
use wrapping_bot.Base.{
  ℕ, Bool, true, false, not, ◌&&◌, ◌||◌, List, [], ◌∷◌, ◌++◌, Option, some, none, ◌==◌,
  if◌then◌else◌,
}
use wrapping_bot.Base.Bytes.{Bytes, str, is_empty, bytes_eq}
use wrapping_bot.Base.Int.{ℤ}
use wrapping_bot.Base.Result.{Result, ok, error, ok_then}
use wrapping_bot.Base.Space.{trim_space}
use wrapping_bot.Client.Environment.{cut_entry}
use wrapping_bot.Daemon.Config.{parse_bool}

pub record Options : Type 0 where
  pub client_env : Bytes
  pub endpoint : Bytes
  pub token : Bytes
  pub channel_id : Bytes
  pub name : Bytes
  pub shell : Bool
  pub env_keys : List Bytes
  pub env_prefixes : List Bytes
  pub allow_secrets : Bool
  pub queue_size : ℤ
  pub finish_timeout : ℤ

pub record Outside : Type 0 where
  pub get : Bytes → Bytes
  pub parse_int_literal : Bytes → Result ℤ
  pub parse_duration : Bytes → Option ℤ
  pub quoted : Bytes → Bytes

pub data Flag : Type 0 where
  client_env_flag endpoint_flag token_flag channel_id_flag name_flag shell_flag : Flag
  env_flag env_prefix_flag allow_secret_env_flag queue_size_flag finish_timeout_flag : Flag

abbrev pub flag_name : Flag → Bytes
flag_name client_env_flag = str "client-env"
flag_name endpoint_flag = str "endpoint"
flag_name token_flag = str "token"
flag_name channel_id_flag = str "channel-id"
flag_name name_flag = str "name"
flag_name shell_flag = str "shell"
flag_name env_flag = str "env"
flag_name env_prefix_flag = str "env-prefix"
flag_name allow_secret_env_flag = str "allow-secret-env"
flag_name queue_size_flag = str "queue-size"
flag_name finish_timeout_flag = str "finish-timeout"

abbrev pub all_flags : List Flag
all_flags =
    client_env_flag ∷ endpoint_flag ∷ token_flag ∷ channel_id_flag ∷ name_flag ∷ shell_flag
    ∷ env_flag ∷ env_prefix_flag ∷ allow_secret_env_flag ∷ queue_size_flag ∷ finish_timeout_flag
    ∷ []

unfoldable pub find_flag : List Flag → Bytes → Option Flag
unfolding bytes_eq
find_flag [] name = none
find_flag (f ∷ fs) name =
    let rest = find_flag fs name in if bytes_eq (flag_name f) name then some f else rest

abbrev pub is_bool_flag : Flag → Bool
is_bool_flag shell_flag = true
is_bool_flag allow_secret_env_flag = true
is_bool_flag _ = false

-- `stringList.Set`
unfoldable pub add_text : Bytes → List Bytes → List Bytes
unfolding trim_space
add_text value texts =
    let trimmed = trim_space value in if is_empty trimmed then texts else texts ++ (trimmed ∷ [])

-- What an argument is: one of no flag, the end of the flags, none that has a name, or a flag with its
-- name and with a value or without.
pub data Argument : Type 0 where
  positional terminator malformed : Argument
  flagged : Bytes → Option Bytes → Argument

unfoldable pub read_name : Bytes → Argument
unfolding cut_entry
read_name [] = malformed
read_name (c ∷ s) = if c == b'-' || c == b'=' then malformed else elim (cut_entry (c ∷ s)) [
  | some (name, value) ↦ flagged name (some value)
  | none ↦ flagged (c ∷ s) none
]

unfoldable pub read_argument : Bytes → Argument
unfolding read_name
read_argument [] = positional
read_argument (c ∷ []) = positional
read_argument (c ∷ d ∷ s) =
    if not (c == b'-')
    then positional
    else if d == b'-'
    then (if is_empty s then terminator else read_name s)
    else read_name (d ∷ s)

unfoldable pub unknown_flag : Bytes → Bytes
unfolding bytes_eq
unknown_flag name =
    if bytes_eq name (str "help") || bytes_eq name (str "h")
    then str "flag: help requested"
    else str "flag provided but not defined: -" ++ name

abbrev pub bool_text : Option Bytes → Bytes
bool_text none = str "true"
bool_text (some value) = value

module _ (lib : Outside) where
  abbrev invalid_value : Flag → Bytes → Bytes → Bytes
  invalid_value f value err =
      str "invalid value "
      ++ lib.quoted value
      ++ str " for flag -"
      ++ flag_name f
      ++ str ": "
      ++ err

  abbrev invalid_bool : Flag → Bytes → Bytes
  invalid_bool f value =
      str "invalid boolean value "
      ++ lib.quoted value
      ++ str " for -"
      ++ flag_name f
      ++ str ": parse error"

  unfoldable pub set_flag : Flag → Bytes → Options → Result Options
  unfolding add_text parse_bool
  set_flag client_env_flag value o = ok (record o { client_env = value })
  set_flag endpoint_flag value o = ok (record o { endpoint = value })
  set_flag token_flag value o = ok (record o { token = value })
  set_flag channel_id_flag value o = ok (record o { channel_id = value })
  set_flag name_flag value o = ok (record o { name = value })
  set_flag shell_flag value o = elim (parse_bool value) [
    | some b ↦ ok (record o { shell = b })
    | none ↦ error (invalid_bool shell_flag value)
  ]
  set_flag env_flag value o = ok (record o { env_keys = add_text value o.env_keys })
  set_flag env_prefix_flag value o = ok (record o { env_prefixes = add_text value o.env_prefixes })
  set_flag allow_secret_env_flag value o = elim (parse_bool value) [
    | some b ↦ ok (record o { allow_secrets = b })
    | none ↦ error (invalid_bool allow_secret_env_flag value)
  ]
  set_flag queue_size_flag value o = elim (lib.parse_int_literal value) [
    | ok n ↦ ok (record o { queue_size = n })
    | error err ↦ error (invalid_value queue_size_flag value err)
  ]
  set_flag finish_timeout_flag value o = elim (lib.parse_duration value) [
    | some d ↦ ok (record o { finish_timeout = d })
    | none ↦ error (invalid_value finish_timeout_flag value (str "parse error"))
  ]

  -- A flag, with what parses the arguments behind it.
  unfoldable pub take_flag :
      (Option Flag → Options → Result (Options × List Bytes))
      → Flag
      → Option Bytes
      → Options
      → Result (Options × List Bytes)
  unfolding set_flag
  take_flag next f value o =
      if is_bool_flag f
      then ok_then (set_flag f (bool_text value) o) (λ o1. next none o1)
      else elim value [
        | some text ↦ ok_then (set_flag f text o) (λ o1. next none o1)
        | none ↦ next (some f) o
      ]

  unfoldable pub take_found :
      (Option Flag → Options → Result (Options × List Bytes))
      → Option Flag
      → Bytes
      → Option Bytes
      → Options
      → Result (Options × List Bytes)
  unfolding take_flag unknown_flag
  take_found next none name value o = error (unknown_flag name)
  take_found next (some f) name value o = take_flag next f value o

  unfoldable pub take_argument :
      (Option Flag → Options → Result (Options × List Bytes))
      → Argument
      → Bytes
      → List Bytes
      → Options
      → Result (Options × List Bytes)
  unfolding take_found find_flag
  take_argument next positional arg args o = ok (o, arg ∷ args)
  take_argument next terminator arg args o = ok (o, args)
  take_argument next malformed arg args o = error (str "bad flag syntax: " ++ arg)
  take_argument next (flagged name value) arg args o =
      take_found next (find_flag all_flags name) name value o

  -- `fs.Parse`: the options, and what is left of the arguments. A flag that waits for its value takes
  -- the next argument.
  unfoldable pub parse_flags : Option Flag → List Bytes → Options → Result (Options × List Bytes)
  unfolding read_argument set_flag take_argument
  parse_flags none [] o = ok (o, [])
  parse_flags (some f) [] o = error (str "flag needs an argument: -" ++ flag_name f)
  parse_flags (some f) (value ∷ args) o =
      ok_then (set_flag f value o) (λ o1. parse_flags none args o1)
  parse_flags none (arg ∷ args) o =
      take_argument (λ waits o1. parse_flags waits args o1) (read_argument arg) arg args o
