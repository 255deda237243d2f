-- ===== src/Daemon/Config/Ranges.antt =====
-- What holds of every configuration that `LoadConfigFromEnv` of internal/daemon/config.go returns.
use wrapping_bot.Base.{
  ℕ, ◌*◌, ◌≤◌, Bool, true, false, not, ◌||◌, List, [], ◌∷◌, ◌++◌, ◌≡◌, inl, inr, refl, subst, arith,
  if◌then◌else◌, All, All-append, Bool-cases, Option-cases, if_both,
}
use wrapping_bot.Base.Bytes.{Bytes, str, is_empty, has_text}
use wrapping_bot.Base.Int.{ℤ, pos, negsuc}
use wrapping_bot.Base.Space.{trim_space}
use wrapping_bot.Base.Trim.{trim_space-again}
use wrapping_bot.Discord.Presence.{presences}
use wrapping_bot.Daemon.Channel.{is_discord_channel_id, IsSnowflake, is_discord_channel_id_iff}
use wrapping_bot.Daemon.Config.{
  LoadedConfig, Outside, Loaded, loaded, invalid, load_then, at_least, at_most, env, env_bool,
  env_interval, split_commas, allowed_channels, check_ranges, presence_status, load_rest,
  load_config,
}

abbrev pub IsAtLeast : ℕ → ℤ → Type 0
IsAtLeast n (pos k) = n ≤ k
IsAtLeast n (negsuc k) = ⊥

abbrev pub IsAtMost : ℕ → ℤ → Type 0
IsAtMost n (pos k) = k ≤ n
IsAtMost n (negsuc k) = Unit

pub at_least-IsAtLeast : (n : ℕ) (z : ℤ) → at_least n z ≡ true → IsAtLeast n z
at_least-IsAtLeast n (pos k) e = ground arith
at_least-IsAtLeast n (negsuc k) e = absurd (cc)

at_most-IsAtMost : (n : ℕ) (z : ℤ) → at_most n z ≡ true → IsAtMost n z
at_most-IsAtMost n (pos k) e = ground arith
at_most-IsAtMost n (negsuc k) e = tt

-- If a value is returned, this holds of it.
unfoldable Sat {ℓ κ} : {A : Type ℓ} (P : A → Type κ) → Loaded A → Type κ
Sat P (loaded a) = P a
Sat P (invalid err) = Unit

load_then-Sat {ℓ κ μ} :
    {A : Type ℓ} {B : Type κ} (P : A → Type μ) (Q : B → Type μ) (r : Loaded A) (f : A → Loaded B)
    → Sat P r
    → ((a : A) → P a → Sat Q (f a))
    → Sat Q (load_then r f)
unfolding load_then Sat
load_then-Sat P Q (loaded a) f h k = k a h
load_then-Sat P Q (invalid err) f h k = tt

anything : {A : Type 0} (r : Loaded A) → Sat (λ a. Unit {0}) r
unfolding Sat
anything (loaded a) = tt
anything (invalid err) = tt

-- What the other parts of the daemon rely on.
pub record IsUsable (cfg : LoadedConfig) : Type 0 where
  pub has_bot_token : is_empty cfg.discord_bot_token ≡ false
  pub token_is_trimmed : trim_space cfg.discord_bot_token ≡ cfg.discord_bot_token
  pub status_is : has_text presences cfg.discord_presence_status ≡ true
  pub has_shared_token : is_empty cfg.shared_token ≡ false
  pub channels_are : All IsSnowflake cfg.allowed_channel_ids
  pub interval_is : IsAtLeast 1 cfg.flush_interval
  pub chunk_least : IsAtLeast 256 cfg.max_log_chunk_bytes
  pub chunk_most : IsAtMost 1800 cfg.max_log_chunk_bytes
  pub queue_is : IsAtLeast 1 cfg.queue_size
  pub runs_are : IsAtLeast 1 cfg.max_concurrent_runs
  pub bytes_are : IsAtLeast 1 cfg.max_stream_bytes

both_true : (a b : Bool) → (not a || not b) ≡ false → (a ≡ true) × (b ≡ true)
both_true true true e = (refl, refl)
both_true true false e = absurd (cc)
both_true false b e = absurd (cc)

all_true : (a b c : Bool) → (not a || not b || not c) ≡ false → (a ≡ true) × (b ≡ true) × (c ≡ true)
all_true true b c e = let (second, third) = both_true b c e in (refl, second, third)
all_true false b c e = absurd (cc)

module _ (lib : Outside) where
  allowed_channels-Sat :
      (parts ids : List Bytes)
      → All IsSnowflake ids
      → Sat (All IsSnowflake) (allowed_channels lib parts ids)
  unfolding allowed_channels Sat
  allowed_channels-Sat [] ids h = h
  allowed_channels-Sat (part ∷ parts) ids h =
      let id = trim_space part in
      let without = allowed_channels-Sat parts ids h in
      elim (Bool-cases (is_empty id)) [
        | inl blank ↦ rw blank without
        | inr full ↦ elim (Bool-cases (is_discord_channel_id id)) [
          | inr wrong ↦ rw (full, wrong) tt
          | inl right ↦
              rw (full, right)
                (allowed_channels-Sat parts (if has_text ids id then ids else ids ++ (id ∷ [])) (
                  if_both (All IsSnowflake) (has_text ids id) h (
                    All-append IsSnowflake ids (id ∷ []) h
                      ((is_discord_channel_id_iff id).0 right, tt))))
        ]
      ]

  env_interval-Sat :
      (key : Bytes) (fallback : ℕ)
      → 1 ≤ fallback
      → Sat (IsAtLeast 1) (env_interval lib key fallback)
  unfolding env_interval Sat
  env_interval-Sat key fallback h = elim (Bool-cases (is_empty (env lib key))) [
    | inl unset ↦ rw unset h
    | inr there ↦ elim (Option-cases (lib.parse_duration (env lib key))) [
      | inl wrong ↦ rw (there, wrong) tt
      | inr (d, e) ↦ elim (Bool-cases (at_least 1 d)) [
        | inl fine ↦ rw (there, e, fine) (at_least-IsAtLeast 1 d fine)
        | inr short ↦ rw (there, e, short) tt
      ]
    ]
  ]

  check_ranges-Sat :
      (cfg : LoadedConfig)
      → is_empty cfg.discord_bot_token ≡ false
      → trim_space cfg.discord_bot_token ≡ cfg.discord_bot_token
      → has_text presences cfg.discord_presence_status ≡ true
      → is_empty cfg.shared_token ≡ false
      → All IsSnowflake cfg.allowed_channel_ids
      → IsAtLeast 1 cfg.flush_interval
      → Sat IsUsable (check_ranges lib cfg)
  unfolding check_ranges Sat
  check_ranges-Sat cfg bot trimmed status shared channels interval =
      elim (Bool-cases (
        not (at_least 256 cfg.max_log_chunk_bytes) || not (at_most 1800 cfg.max_log_chunk_bytes))) [
          | inl wrong ↦ rw wrong tt
          | inr chunk ↦
              elim (Bool-cases (
                not (at_least 1 cfg.queue_size)
                || not (at_least 1 cfg.max_concurrent_runs)
                || not (at_least 1 cfg.max_stream_bytes))) [
                  | inl wrong ↦ rw (chunk, wrong) tt
                  | inr positive ↦
                      let (least, most) =
                        both_true (at_least 256 cfg.max_log_chunk_bytes)
                          (at_most 1800 cfg.max_log_chunk_bytes) chunk in
                      let (queue, runs, bytes) =
                        all_true (at_least 1 cfg.queue_size) (at_least 1 cfg.max_concurrent_runs)
                          (at_least 1 cfg.max_stream_bytes) positive in
                      rw (chunk, positive)
                        (record {
                          has_bot_token = bot;
                          token_is_trimmed = trimmed;
                          status_is = status;
                          has_shared_token = shared;
                          channels_are = channels;
                          interval_is = interval;
                          chunk_least = at_least-IsAtLeast 256 cfg.max_log_chunk_bytes least;
                          chunk_most = at_most-IsAtMost 1800 cfg.max_log_chunk_bytes most;
                          queue_is = at_least-IsAtLeast 1 cfg.queue_size queue;
                          runs_are = at_least-IsAtLeast 1 cfg.max_concurrent_runs runs;
                          bytes_are = at_least-IsAtLeast 1 cfg.max_stream_bytes bytes;
                        })
                ]
        ]

  load_rest-Sat :
      (gateway : Bool)
      → is_empty (env lib (str "DISCORD_BOT_TOKEN")) ≡ false
      → is_empty (env lib (str "WRAPPING_BOT_SHARED_TOKEN")) ≡ false
      → has_text presences (presence_status lib) ≡ true
      → Sat IsUsable (load_rest lib gateway)
  unfolding load_rest
  load_rest-Sat gateway bot shared status =
      load_then-Sat (All IsSnowflake) IsUsable _ _
        (allowed_channels-Sat (split_commas (lib.get (str "WRAPPING_BOT_ALLOWED_CHANNEL_IDS"))) []
          tt)
        (λ channels are_ids.
          load_then-Sat (IsAtLeast 1) IsUsable _ _
            (env_interval-Sat (str "WRAPPING_BOT_FLUSH_INTERVAL") (1500 * 1_000_000) (omega arith))
            (λ interval some_time.
              load_then-Sat (λ a. Unit {0}) IsUsable _ _ (anything _)
                (λ chunk _.
                  load_then-Sat (λ a. Unit {0}) IsUsable _ _ (anything _)
                    (λ queue _.
                      load_then-Sat (λ a. Unit {0}) IsUsable _ _ (anything _)
                        (λ runs _.
                          load_then-Sat (λ a. Unit {0}) IsUsable _ _ (anything _)
                            (λ bytes _.
                              load_then-Sat (λ a. Unit {0}) IsUsable _ _ (anything _)
                                (λ strip _.
                                  check_ranges-Sat _ bot
                                    (trim_space-again (lib.get (str "DISCORD_BOT_TOKEN"))) status
                                    shared are_ids some_time)))))))

  load_config-Sat : Sat IsUsable (load_config lib)
  unfolding load_config
  load_config-Sat = elim (Bool-cases (is_empty (env lib (str "DISCORD_BOT_TOKEN")))) [
    | inl missing ↦ rw missing (unfold Sat in tt)
    | inr bot ↦ elim (Bool-cases (is_empty (env lib (str "WRAPPING_BOT_SHARED_TOKEN")))) [
      | inl missing ↦ rw (bot, missing) (unfold Sat in tt)
      | inr shared ↦
          rw (bot, shared)
            (load_then-Sat (λ a. Unit {0}) IsUsable
              (env_bool lib (str "WRAPPING_BOT_GATEWAY_ENABLED") true) _
              (anything (env_bool lib (str "WRAPPING_BOT_GATEWAY_ENABLED") true))
              (λ gateway _. elim (Bool-cases (has_text presences (presence_status lib))) [
                | inl status ↦ rw status (load_rest-Sat gateway bot shared status)
                | inr unknown ↦ rw unknown (unfold Sat in tt)
              ]))
    ]
  ]

  -- Every configuration that is returned has both tokens, of which that of the bot is trimmed, a known
  -- presence status, only snowflakes as allowed channels, a
  -- positive flush interval, 256 to 1800 bytes of log text in a message, and a positive queue size,
  -- number of runs and number of bytes in a stream, whatever the environment holds.
  pub load_config-IsUsable : (cfg : LoadedConfig) → load_config lib ≡ loaded cfg → IsUsable cfg
  unfolding Sat
  load_config-IsUsable cfg e = subst (Sat IsUsable) e load_config-Sat
