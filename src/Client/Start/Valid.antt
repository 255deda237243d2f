-- ===== src/Client/Start/Valid.antt =====
-- The start event of cmd/wrapping-bot/main.go passes the validation of internal/daemon/server.go.
use wrapping_bot.Base.{
  ℕ, ◌*◌, ◌≤◌, ◌<◌, Bool, true, List, [], ◌∷◌, none, ◌≡◌, refl, sym, ap, ◌∙◌, arith, length, All,
}
use wrapping_bot.Base.Bytes.{Bytes}
use wrapping_bot.Base.Space.{Solid, trim_space-Solid}
use wrapping_bot.Client.Environment.Selected.{collect_environment-MayLeave}
use wrapping_bot.Client.Start.{encode_hex, Setting, start_event}
use wrapping_bot.Daemon.Channel.{is_discord_channel_id, is_discord_channel_id_iff}
use wrapping_bot.Daemon.Server.{validate_start}
use wrapping_bot.Daemon.Server.Accepts.{validate_start_iff}

encode_hex-Solid :
    (s : Bytes)
    → All (λ c. c < 256) s
    → All Solid (encode_hex s) × (length (encode_hex s) ≡ 2 * length s)
unfolding encode_hex
encode_hex-Solid [] h = (tt, refl)
encode_hex-Solid (c ∷ s) (hc, h) =
    let (solid, len) = encode_hex-Solid s h in
    ((ground arith, (ground arith, solid)), omega (arith, len))

-- The start event that the client makes of 1 to 64 random bytes, a channel ID that its options have
-- checked, and a command of at least one word passes the daemon's validation, whatever the
-- environment.
pub validate_start-start_event :
    (to_upper : Bytes → Bytes) (setting : Setting) (now : ℕ) (random : Bytes) (command : List Bytes)
    (shell : Bool)
    → All (λ c. c < 256) random
    → 1 ≤ length random
    → length random ≤ 64
    → is_discord_channel_id setting.channel_id ≡ true
    → 1 ≤ length command
    → validate_start (start_event to_upper setting now random command shell) ≡ none
unfolding start_event
validate_start-start_event to_upper setting now random command shell bytes some_bytes few channel
      full =
    let (solid, len) = encode_hex-Solid random bytes in
    (validate_start_iff (start_event to_upper setting now random command shell)).1 (record {
      version_is = refl;
      type_is = refl;
      run_id_full = λ e.
          let none_left : length (encode_hex random) ≡ 0 =
            ap length (sym (trim_space-Solid (encode_hex random) solid) ∙ e) in
          absurd (omega (arith, none_left, len));
      run_id_short = omega (arith, len);
      channel_is = (is_discord_channel_id_iff setting.channel_id).0 channel;
      command_full = full;
      environment_small =
          (collect_environment-MayLeave to_upper setting.allow_secrets setting.environ
            setting.env_keys setting.env_prefixes).1;
    })
