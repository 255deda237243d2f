-- ===== src/Daemon/Batcher/Limit.antt =====
-- Discord's limit on messages, kept by every message of the batcher.
use wrapping_bot.Base.{
  ℕ, ◌+◌, ◌≤◌, max, List, [], ◌∷◌, Option, ◌≡◌, refl, arith, length, length-append, length-take,
  map, All, All-append,
}
use wrapping_bot.Base.Bytes.{Bytes, bytes_eq_iff}
use wrapping_bot.Protocol.{stream_stdout, stream_stderr, stream_system}
use wrapping_bot.Text.Fence.{escape_code_fence}
use wrapping_bot.Text.Split.Laws.{split_utf8-limited}
use wrapping_bot.Daemon.Batcher.{
  Message, Settings, Batcher, Action, new_batcher, run, short_run_id, trim_newline,
  normalize_stream, message_content, send_output,
}
use wrapping_bot.Daemon.Batcher.Invariant.{Holds, run-Holds}
use wrapping_bot.Daemon.Batcher.Sends.{messages, message, send_output-Sends}

abbrev pub discord_limit : ℕ
discord_limit = 2000

length-short_run_id : (s : Bytes) → length (short_run_id s) ≤ 8
unfolding short_run_id
length-short_run_id s = ground (arith, length-take 8 s)

length-trim_newline : (s : Bytes) → length (trim_newline s) ≤ length s
unfolding trim_newline
length-trim_newline [] = omega arith
length-trim_newline (c ∷ []) = ground arith
length-trim_newline (c ∷ d ∷ s) = omega (arith, length-trim_newline (d ∷ s))

length-normalize_stream : (s : Bytes) → length (normalize_stream s) ≤ 6
unfolding normalize_stream
length-normalize_stream s = ground (
  arith,
  bytes_eq_iff s stream_stdout,
  bytes_eq_iff s stream_stderr,
  bytes_eq_iff s stream_system,
)

-- The header and the fences take 25 bytes, and the run ID at most eight.
length-message_content :
    (cfg : Settings) (stream part : Bytes)
    → length (message_content cfg stream part) ≤ 33 + length stream + length part
unfolding message_content
length-message_content cfg stream part =
    simp length-append (omega (arith, length-short_run_id cfg.run_id, length-trim_newline part))

-- The configuration admits 256 to 1800 bytes of log text in a message.
module _ (cfg : Settings) (room : (4 ≤ cfg.max_log_bytes) × (cfg.max_log_bytes ≤ 1800)) where
  abbrev pub IsSendable : Message → Type 0
  IsSendable m = (length m.content ≤ discord_limit) × (m.channel_id ≡ cfg.channel_id)

  map-IsSendable :
      (stream : Bytes) (parts : List Bytes)
      → length stream ≤ 6
      → All (λ c. length c ≤ max cfg.max_log_bytes 4) parts
      → All IsSendable (map (message cfg stream) parts)
  map-IsSendable stream [] short h = tt
  map-IsSendable stream (p ∷ ps) short (hp, h) =
      ((omega (arith, length-message_content cfg stream p), refl), map-IsSendable stream ps short h)

  messages-IsSendable :
      (stream text : Bytes) → length stream ≤ 6 → All IsSendable (messages cfg stream text)
  messages-IsSendable stream text short =
      map-IsSendable stream _ short
        (split_utf8-limited (escape_code_fence text) cfg.max_log_bytes (omega arith))

  abbrev pub Limits : Option Bytes → List Message → Bytes → Type 0
  Limits first_err sent stream = (length stream ≤ 6) × All IsSendable sent

  module _ (answer : ℕ → Option Bytes) where
    send_output-Limits :
        (b : Batcher)
        → Holds Limits b
        → Holds Limits (send_output cfg answer b b.current_stream b.buffer)
    send_output-Limits b h =
        let p = send_output-Sends cfg answer b b.current_stream b.buffer in
        rw (p.stream_kept, p.sent_is)
          (
            h.0,
            All-append IsSendable b.sent _ h.1 (messages-IsSendable b.current_stream b.buffer h.0),
          )

    -- Where a message has room for 4 to 1800 bytes of log text, every message of every run from a new
    -- batcher goes to the channel of the run and has at most 2000 bytes, Discord's limit.
    pub run-IsSendable :
        (acts : List Action) → All IsSendable (run cfg answer new_batcher acts).sent
    unfolding new_batcher
    run-IsSendable acts =
        (run-Holds cfg answer Limits send_output-Limits
          (λ b stream h. (length-normalize_stream stream, h.1)) new_batcher acts
          (omega arith, tt)).1
