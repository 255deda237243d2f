-- ===== src/Daemon/Channel.antt =====
-- `isDiscordChannelID` of internal/daemon/server.go, which cmd/wrapping-bot/main.go has too.
use wrapping_bot.Base.{
  ℕ, ◌≤◌, ◌≢◌, ◌↔◌, Bool, true, false, not, ◌||◌, [], ◌∷◌, Option, some, none, ◌≡◌, arith, ltb,
  if◌then◌else◌, length, All, Option-cases, inl, inr,
}
use wrapping_bot.Base.Bytes.{Bytes, bytes_eq, bytes_eq_iff}
use wrapping_bot.Base.Decimal.{decimal_value}
use wrapping_bot.Base.Number.{max_u64, IsDigit, parse_uint, parse_uint_sound, parse_uint_complete}
use wrapping_bot.Base.Space.{trim_space, Solid, trim_space-Solid}

abbrev succeeds : Option ℕ → Bool
succeeds none = false
succeeds (some n) = true

unfoldable pub is_discord_channel_id : Bytes → Bool
is_discord_channel_id value =
    if not (bytes_eq value (trim_space value)) || ltb (length value) 17 || ltb 20 (length value)
    then false
    else succeeds (parse_uint value)

-- A snowflake: 17 to 20 digits that spell a 64-bit number.
abbrev pub IsSnowflake : Bytes → Type 0
IsSnowflake v = All IsDigit v × (17 ≤ length v) × (length v ≤ 20) × (decimal_value 0 v ≤ max_u64)

digits-Solid : (s : Bytes) → All IsDigit s → All Solid s
digits-Solid [] h = tt
digits-Solid (c ∷ s) (hc, h) = (omega arith, digits-Solid s h)

full : (s : Bytes) → 17 ≤ length s → s ≢ []
full [] h e = absurd (omega arith)
full (c ∷ s) h e = cc

-- Exactly the snowflakes are accepted. So nothing but digits ever stands in the URL of a channel.
pub is_discord_channel_id_iff : (v : Bytes) → (is_discord_channel_id v ≡ true) ↔ IsSnowflake v
unfolding is_discord_channel_id
is_discord_channel_id_iff v = (accepted, complete)
  where
    accepted : is_discord_channel_id v ≡ true → IsSnowflake v
    accepted e = elim (Option-cases (parse_uint v)) [
      | inl n ↦ ground arith
      | inr (r, p) ↦ ground (arith, parse_uint_sound v p)
    ]

    complete : IsSnowflake v → is_discord_channel_id v ≡ true
    complete (digits, low, high, fits) = ground (
      arith,
      trim_space-Solid v (digits-Solid v digits),
      bytes_eq_iff v (trim_space v),
      parse_uint_complete v (full v low) digits fits,
    )
