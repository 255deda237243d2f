-- ===== src/Daemon/Process.antt =====
-- cmd/wrapping-botd/main.go, and `handleHealth` of internal/daemon/server.go. The environment, the
-- requests and what the HTTP server does come as arguments.
pub mod Started
use wrapping_bot.Base.{
  ℕ, zero, suc, Bool, true, false, not, ◌&&◌, List, [], ◌∷◌, ◌++◌, Option, some, none, ltb, ◌==◌,
  if◌then◌else◌, length, get_elem?,
}
use wrapping_bot.Base.Bytes.{Bytes, str, is_empty, bytes_eq}
use wrapping_bot.Base.Result.{Result, ok, error, ok_then}
use wrapping_bot.Base.Space.{trim_space}
use wrapping_bot.Daemon.Config.{LoadedConfig, Loaded, loaded, invalid, load_config}
use wrapping_bot.Discord.Gateway.{GatewayConfig, Gateway, new_gateway}
use wrapping_bot.Discord.Sender.New.{NewSender, new_sender}
use wrapping_bot.Daemon.Config
use wrapping_bot.Discord.Gateway
use wrapping_bot.Protocol

-- What `serve` has made when it begins to listen.
pub record Process : Type 0 where
  pub config : LoadedConfig
  pub sender : NewSender
  pub gateway : Option Gateway

unfoldable pub in_context {ℓ} : {A : Type ℓ} → Bytes → Result A → Result A
in_context context (ok a) = ok a
in_context context (error text) = error (context ++ text)

abbrev pub gateway_config : LoadedConfig → GatewayConfig
gateway_config cfg = record {
  bot_token = cfg.discord_bot_token;
  api_base_url = cfg.discord_api_base_url;
  gateway_url = cfg.discord_gateway_url;
  status = cfg.discord_presence_status;
  activity = cfg.discord_activity;
}

-- How `ListenAndServe` ends: it was shut down, or it failed.
pub data Listened : Type 0 where
  server_closed : Listened
  listen_failed : Bytes → Listened

-- What the `select` of `serve` meets: a signal, with what `Shutdown` returns, or the server's end.
pub data Ending : Type 0 where
  signalled : Option Bytes → Ending
  listened : Listened → Ending

unfoldable pub ended : Ending → Option Bytes
ended (signalled shutdown) = shutdown
ended (listened server_closed) = none
ended (listened (listen_failed text)) = some text

module _ (lib : Config.Outside) (net : Gateway.Outside) where
  unfoldable pub start_gateway : LoadedConfig → Result (Option Gateway)
  unfolding new_gateway in_context
  start_gateway cfg =
      if cfg.discord_gateway_enabled
      then ok_then
          (in_context (str "initialize Discord Gateway: ") (new_gateway net (gateway_config cfg)))
          (λ g. ok (some g))
      else ok none

  unfoldable pub start_with : LoadedConfig → Result Process
  unfolding new_sender in_context start_gateway
  start_with cfg =
      ok_then
        (in_context (str "initialize Discord client: ")
          (new_sender cfg.discord_bot_token cfg.discord_api_base_url))
        (λ sender.
          ok_then (start_gateway cfg)
            (λ g. ok (record { config = cfg; sender = sender; gateway = g })))

  -- `serve`, up to where it listens.
  unfoldable pub start : Result Process
  unfolding load_config start_with
  start = elim (load_config lib) [ invalid text ↦ error text | loaded cfg ↦ start_with cfg ]

  -- The error that `serve` returns.
  unfoldable pub serve : Ending → Option Bytes
  unfolding start ended
  serve ending = elim start [ error text ↦ some text | ok process ↦ ended ending ]

-- The answer to `GET /healthz`: its code, and the fields of its body.
pub record Health : Type 0 where
  pub code : ℕ
  pub status : Bytes
  pub version : ℕ

abbrev pub handle_health : Health
handle_health = record { code = 200; status = str "ok"; version = 2 }

pub record HealthResponse : Type 0 where
  pub status_code : ℕ
  pub status : Bytes
  pub body : Bytes

-- What `healthcheck` takes from elsewhere: the environment, the request, the `status` in a JSON body,
-- and the `%q` of package `fmt`.
pub record HealthOutside : Type 0 where
  pub get : Bytes → Bytes
  pub request : Bytes → Result HealthResponse
  pub decode_status : Bytes → Result Bytes
  pub quoted : Bytes → Bytes

module _ (lib : HealthOutside) where
  unfoldable pub health_url : Bytes
  unfolding trim_space
  health_url =
      let url = trim_space (lib.get (str "WRAPPING_BOT_HEALTHCHECK_URL")) in
      if is_empty url then str "http://127.0.0.1:8080/healthz" else url

  unfoldable pub check_response : HealthResponse → Option Bytes
  unfolding bytes_eq
  check_response r =
      if not (r.status_code == 200)
      then some (str "healthcheck returned " ++ r.status)
      else elim (lib.decode_status r.body) [
        | error text ↦ some text
        | ok status ↦
            if bytes_eq status (str "ok")
            then none
            else some (str "unexpected health status " ++ lib.quoted status)
      ]

  unfoldable pub healthcheck : Option Bytes
  unfolding health_url check_response
  healthcheck = elim (lib.request health_url) [ error text ↦ some text | ok r ↦ check_response r ]

-- The exit code, and what is printed to the standard error.
pub record Exit : Type 0 where
  pub code : ℕ
  pub stderr : Bytes

abbrev exit_with : Bytes → Option Bytes → Exit
exit_with prefix none = record { code = 0; stderr = [] }
exit_with prefix (some text) = record { code = 1; stderr = prefix ++ text ++ str "\n" }

unfoldable pub main : Config.Outside → Gateway.Outside → HealthOutside → List Bytes → Ending → Exit
unfolding serve healthcheck bytes_eq
main lib net health args ending = elim (get_elem? args 1) [
  | none ↦ exit_with (str "wrapping-botd: ") (serve lib net ending)
  | some arg ↦
      if bytes_eq arg (str "healthcheck")
      then exit_with [] (healthcheck health)
      else exit_with (str "wrapping-botd: ") (serve lib net ending)
]
