-- ===== src/Daemon/Batcher/Sends.antt =====
-- What `sendOutput` of internal/daemon/batcher.go sends, and what it leaves alone.
use wrapping_bot.Base.{
  ℕ, List, [], ◌∷◌, ◌++◌, Option, ◌≡◌, refl, sym, ap, ◌∙◌, arith, map, append_assoc, append-nil,
}
use wrapping_bot.Base.Bytes.{Bytes}
use wrapping_bot.Text.Fence.{escape_code_fence}
use wrapping_bot.Text.Split.{split_utf8}
use wrapping_bot.Daemon.Batcher.{
  Message, Settings, Batcher, message_content, send, send_parts, send_output,
}

-- A call of `sendOutput`: a stream and the text joined from its records.
pub record Output : Type 0 where
  pub stream : Bytes
  pub text : Bytes

module _ (cfg : Settings) where
  abbrev pub message : Bytes → Bytes → Message
  message stream part = record {
    channel_id = cfg.channel_id;
    content = message_content cfg stream part;
  }

  -- The messages of one output, and of several in their order.
  abbrev pub messages : Bytes → Bytes → List Message
  messages stream text =
      map (message stream) (split_utf8 (escape_code_fence text) cfg.max_log_bytes)

  abbrev pub rendered : List Output → List Message
  rendered [] = []
  rendered (o ∷ os) = messages o.stream o.text ++ rendered os

  pub rendered-append : (os qs : List Output) → rendered (os ++ qs) ≡ rendered os ++ rendered qs
  rendered-append [] qs = refl
  rendered-append (o ∷ os) qs =
      ap (λ r. messages o.stream o.text ++ r) (rendered-append os qs)
      ∙ sym (append_assoc (messages o.stream o.text) (rendered os) (rendered qs))

-- `c` is `b` after some more messages, with everything else but the first error as it was.
pub record Sends (b c : Batcher) (ms : List Message) : Type 0 where
  pub sent_is : c.sent ≡ b.sent ++ ms
  pub events_kept : c.events ≡ b.events
  pub closed_kept : c.closed ≡ b.closed
  pub done_kept : c.done ≡ b.done
  pub dropped_kept : c.dropped ≡ b.dropped
  pub stream_kept : c.current_stream ≡ b.current_stream
  pub buffer_kept : c.buffer ≡ b.buffer

Sends-nil : (b : Batcher) → Sends b b []
Sends-nil b = record {
  sent_is = sym (append-nil b.sent);
  events_kept = refl;
  closed_kept = refl;
  done_kept = refl;
  dropped_kept = refl;
  stream_kept = refl;
  buffer_kept = refl;
}

Sends-trans :
    {b c d : Batcher} {ms ns : List Message} → Sends b c ms → Sends c d ns → Sends b d (ms ++ ns)
Sends-trans {b} {c} {d} {ms} {ns} p q = record {
  sent_is = q.sent_is ∙ ap (λ r. r ++ ns) p.sent_is ∙ append_assoc b.sent ms ns;
  events_kept = q.events_kept ∙ p.events_kept;
  closed_kept = q.closed_kept ∙ p.closed_kept;
  done_kept = q.done_kept ∙ p.done_kept;
  dropped_kept = q.dropped_kept ∙ p.dropped_kept;
  stream_kept = q.stream_kept ∙ p.stream_kept;
  buffer_kept = q.buffer_kept ∙ p.buffer_kept;
}

module _ (cfg : Settings) (answer : ℕ → Option Bytes) where
  send-Sends :
      (b : Batcher) (stream part : Bytes)
      → Sends b (send cfg answer b (message_content cfg stream part)) (message cfg stream part ∷ [])
  unfolding send message_content
  send-Sends b stream part = ground arith

  send_parts-Sends :
      (b : Batcher) (stream : Bytes) (parts : List Bytes)
      → Sends b (send_parts cfg answer b stream parts) (map (message cfg stream) parts)
  unfolding send_parts
  send_parts-Sends b stream [] = Sends-nil b
  send_parts-Sends b stream (part ∷ parts) =
      Sends-trans (send-Sends b stream part)
        (send_parts-Sends (send cfg answer b (message_content cfg stream part)) stream parts)

  pub send_output-Sends :
      (b : Batcher) (stream text : Bytes)
      → Sends b (send_output cfg answer b stream text) (messages cfg stream text)
  unfolding send_output
  send_output-Sends b stream text = send_parts-Sends b stream _
