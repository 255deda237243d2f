-- ===== src/Daemon/Process/Started.antt =====
-- The daemon of cmd/wrapping-botd/main.go starts from every configuration that is loaded.
use wrapping_bot.Base.{
  true, false, List, [], ◌∷◌, Option, some, none, ◌≡◌, inl, inr, refl, sym, subst, All, arith,
  Bool-cases,
}
use wrapping_bot.Base.Bytes.{Bytes, is_empty, bytes_eq, bytes_eq_iff, has_text}
use wrapping_bot.Base.Int.{negsuc}
use wrapping_bot.Base.Result.{ok, ok_then}
use wrapping_bot.Base.Space.{trim_space}
use wrapping_bot.Daemon.Config.{LoadedConfig, loaded, load_config}
use wrapping_bot.Daemon.Config.Ranges.{IsUsable, load_config-IsUsable}
use wrapping_bot.Daemon.Process.{
  Process, in_context, gateway_config, start_gateway, start_with, start,
}
use wrapping_bot.Discord.Gateway.{Gateway, can_resume, presence_of, new_gateway}
use wrapping_bot.Discord.Presence.{presences, base_url}
use wrapping_bot.Discord.Sender.New.{NewSender, new_sender}
use wrapping_bot.Daemon.Config
use wrapping_bot.Discord.Gateway

-- The gateway is there where it is enabled: of the bot and the interface that the sender uses too, with
-- the presence of the configuration, not connected, and with no session.
abbrev pub Agrees : LoadedConfig → NewSender → Option Gateway → Type 0
Agrees cfg sender none = cfg.discord_gateway_enabled ≡ false
Agrees cfg sender (some g) =
    (cfg.discord_gateway_enabled ≡ true)
    × (g.bot_token ≡ sender.bot_token)
    × (g.api_base_url ≡ sender.base_url)
    × (g.status ≡ cfg.discord_presence_status)
    × (g.connected ≡ false)
    × (can_resume g ≡ false)

-- Members of a list of texts that all satisfy a predicate satisfy it.
has_text-All :
    (P : Bytes → Type 0) (ss : List Bytes) → All P ss → (s : Bytes) → has_text ss s ≡ true → P s
unfolding has_text
has_text-All P [] h s e = absurd (cc)
has_text-All P (t ∷ ss) (ht, h) s e = elim (Bool-cases (bytes_eq t s)) [
  | inl here ↦ subst P ((bytes_eq_iff t s).0 here) ht
  | inr later ↦ has_text-All P ss h s (ground arith)
]

abbrev IsTrimmed : Bytes → Type 0
IsTrimmed s = (trim_space s ≡ s) × (is_empty s ≡ false)

presences-IsTrimmed : All IsTrimmed presences
unfolding trim_space
presences-IsTrimmed = ((refl, refl), ((refl, refl), ((refl, refl), ((refl, refl), tt))))

abbrev made : LoadedConfig → Gateway
made cfg = record {
  bot_token = cfg.discord_bot_token;
  api_base_url = base_url cfg.discord_api_base_url;
  gateway_url = trim_space cfg.discord_gateway_url;
  status = cfg.discord_presence_status;
  activity = trim_space cfg.discord_activity;
  connected = false;
  session_id = [];
  resume_gateway_url = [];
  sequence = negsuc 0;
}

module _ (lib : Config.Outside) (net : Gateway.Outside) where
  sender-ok :
      (cfg : LoadedConfig)
      → IsUsable cfg
      → new_sender cfg.discord_bot_token cfg.discord_api_base_url
        ≡ ok (record {
          bot_token = cfg.discord_bot_token;
          base_url = base_url cfg.discord_api_base_url;
          max_retries = 6;
        })
  unfolding new_sender
  sender-ok cfg h = rw (h.token_is_trimmed, h.has_bot_token) refl

  presence-same :
      (s : Bytes)
      → ((t : Bytes) → has_text presences t ≡ true → net.to_lower t ≡ t)
      → has_text presences s ≡ true
      → presence_of net s ≡ s
  unfolding presence_of
  presence-same s lower e =
      let (trimmed, full) = has_text-All IsTrimmed presences presences-IsTrimmed s e in
      rw (trimmed, lower s e, full) refl

  new_gateway-ok :
      (cfg : LoadedConfig)
      → IsUsable cfg
      → presence_of net cfg.discord_presence_status ≡ cfg.discord_presence_status
      → new_gateway net (gateway_config cfg) ≡ ok (made cfg)
  unfolding new_gateway
  new_gateway-ok cfg h same = rw (h.token_is_trimmed, h.has_bot_token, same, h.status_is) refl

  gateway-ok :
      (cfg : LoadedConfig) (sender : NewSender)
      → IsUsable cfg
      → presence_of net cfg.discord_presence_status ≡ cfg.discord_presence_status
      → sender.bot_token ≡ cfg.discord_bot_token
      → sender.base_url ≡ base_url cfg.discord_api_base_url
      → (g : Option Gateway) × (start_gateway lib net cfg ≡ ok g) × Agrees cfg sender g
  unfolding start_gateway in_context ok_then
  gateway-ok cfg sender h same token url = elim (Bool-cases cfg.discord_gateway_enabled) [
    | inr off ↦ (none, rw off refl, off)
    | inl on ↦ (
      some (made cfg),
      rw (on, new_gateway-ok cfg h same) refl,
      (on, sym token, sym url, refl, refl, refl),
    )
  ]

  start-ok :
      (cfg : LoadedConfig) (sender : NewSender) (g : Option Gateway)
      → load_config lib ≡ loaded cfg
      → new_sender cfg.discord_bot_token cfg.discord_api_base_url ≡ ok sender
      → start_gateway lib net cfg ≡ ok g
      → start lib net ≡ ok (record { config = cfg; sender = sender; gateway = g })
  unfolding start start_with in_context ok_then
  start-ok cfg sender g e made_sender made_gateway =
      rw (start, start_with, e, made_sender, made_gateway) refl

  -- A configuration that is loaded starts the daemon: neither the client of Discord's HTTP interface
  -- nor the gateway is refused, if `ToLower` leaves the names of the four statuses as they are.
  pub start-loaded :
      (cfg : LoadedConfig)
      → ((s : Bytes) → has_text presences s ≡ true → net.to_lower s ≡ s)
      → load_config lib ≡ loaded cfg
      → (p : Process) × (start lib net ≡ ok p)
        × (p.config ≡ cfg)
        × (p.sender.bot_token ≡ cfg.discord_bot_token)
        × Agrees cfg p.sender p.gateway
  start-loaded cfg lower e =
      let h = load_config-IsUsable lib cfg e in
      let same = presence-same cfg.discord_presence_status lower h.status_is in
      let sender : NewSender = record {
        bot_token = cfg.discord_bot_token;
        base_url = base_url cfg.discord_api_base_url;
        max_retries = 6;
      } in
      let (g, started, agrees) = gateway-ok cfg sender h same refl refl in
      (
        record { config = cfg; sender = sender; gateway = g },
        start-ok cfg sender g e (sender-ok cfg h) started,
        refl,
        refl,
        agrees,
      )
