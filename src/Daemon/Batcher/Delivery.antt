-- ===== src/Daemon/Batcher/Delivery.antt =====
-- The log text that the batcher sends is the text that its queue took, byte for byte, in order and
-- under its stream; stated of every interleaving of the handler and the loop.
use wrapping_bot.Base.{
  ℕ, true, false, ◌&&◌, not, List, [], ◌∷◌, ◌++◌, Option, ◌≡◌, refl, sym, ap, ◌∙◌, arith, map, ◌⊎◌,
  inl, inr, append_assoc, append-nil, Bool-cases, if◌then◌else◌, length, ltb, leb,
}
use wrapping_bot.Base.Bytes.{Bytes, bytes_eq, bytes_eq_iff, is_empty, is_empty→nil}
use wrapping_bot.Protocol.{stream_system}
use wrapping_bot.Text.Ansi.{strip_ansi}
use wrapping_bot.Daemon.Batcher.{
  OutputRecord, Message, Settings, Batcher, normalize_stream, overflow_notice, flush, receive,
  finish, send_output,
}
use wrapping_bot.Daemon.Batcher.Sends.{
  Output, messages, rendered, rendered-append, Sends, send_output-Sends,
}

-- Each byte of a text with the stream that it belongs to.
abbrev pub tagged : Bytes → Bytes → List (Bytes × ℕ)
tagged stream = map (λ c. (stream, c))

abbrev pub tagged_outputs : List Output → List (Bytes × ℕ)
tagged_outputs [] = []
tagged_outputs (o ∷ os) = tagged o.stream o.text ++ tagged_outputs os

tagged_outputs-append :
    (os qs : List Output) → tagged_outputs (os ++ qs) ≡ tagged_outputs os ++ tagged_outputs qs
tagged_outputs-append [] qs = refl
tagged_outputs-append (o ∷ os) qs =
    ap (λ r. tagged o.stream o.text ++ r) (tagged_outputs-append os qs)
    ∙ sym (append_assoc (tagged o.stream o.text) (tagged_outputs os) (tagged_outputs qs))

tagged-append : (stream s t : Bytes) → tagged stream (s ++ t) ≡ tagged stream s ++ tagged stream t
tagged-append stream [] t = refl
tagged-append stream (c ∷ s) t = ap (λ r. (stream, c) ∷ r) (tagged-append stream s t)

normalize_stream-full : (s : Bytes) → is_empty (normalize_stream s) ≡ false
unfolding normalize_stream bytes_eq
normalize_stream-full [] = refl
normalize_stream-full (c ∷ s) = ground arith

module _ (cfg : Settings) where
  -- The bytes of the records, as they are to be sent.
  abbrev pub tagged_record : OutputRecord → List (Bytes × ℕ)
  tagged_record r =
      tagged (normalize_stream r.stream) (if cfg.strip then strip_ansi r.text else r.text)

  abbrev pub tagged_records : List OutputRecord → List (Bytes × ℕ)
  tagged_records [] = []
  tagged_records (r ∷ rs) = tagged_record r ++ tagged_records rs

  pub tagged_records-append :
      (rs qs : List OutputRecord)
      → tagged_records (rs ++ qs) ≡ tagged_records rs ++ tagged_records qs
  tagged_records-append [] qs = refl
  tagged_records-append (r ∷ rs) qs =
      ap (λ t. tagged_record r ++ t) (tagged_records-append rs qs)
      ∙ sym (append_assoc (tagged_record r) (tagged_records rs) (tagged_records qs))

  -- What was sent renders `outs`, which with the buffer spell `text`.
  pub record IsSpelled (sent : List Message) (stream buffer : Bytes) (outs : List Output)
      (text : List (Bytes × ℕ)) : Type 0 where
    pub sent_is : sent ≡ rendered cfg outs
    pub spells : tagged_outputs outs ++ tagged stream buffer ≡ text
    pub fresh : is_empty stream ≡ true → buffer ≡ []

  abbrev pub Spells : Batcher → List Output → List (Bytes × ℕ) → Type 0
  Spells b = IsSpelled b.sent b.current_stream b.buffer

  module _ (answer : ℕ → Option Bytes) where
    pub flush-Spells :
        (b : Batcher) (outs : List Output) (text : List (Bytes × ℕ))
        → Spells b outs text
        → (outs' : List Output) × Spells (flush cfg answer b) outs' text
          × ((flush cfg answer b).buffer ≡ [])
    unfolding flush
    flush-Spells b outs text h = elim (Bool-cases (is_empty b.buffer)) [
      | inl e ↦ rw e (outs, h, is_empty→nil b.buffer e)
      | inr e ↦ rw e (
          let o : Output = record { stream = b.current_stream; text = b.buffer } in
          let p : Sends b (send_output cfg answer b o.stream o.text)
              (messages cfg o.stream o.text) =
            send_output-Sends cfg answer b o.stream o.text in
          (
            outs ++ o ∷ [],
            record {
              sent_is = p.sent_is ∙ simp (h.sent_is, rendered-append, append-nil);
              spells = simp (tagged_outputs-append, append-nil) h.spells;
              fresh = λ _. refl;
            },
            refl,
          ))
    ]

    -- A flush leaves the queue and the counters alone.
    pub flush-events :
        (b : Batcher)
        → ((flush cfg answer b).events ≡ b.events)
          × ((flush cfg answer b).closed ≡ b.closed)
          × ((flush cfg answer b).done ≡ b.done)
          × ((flush cfg answer b).dropped ≡ b.dropped)
    unfolding flush
    flush-events b = ground (arith, send_output-Sends cfg answer b b.current_stream b.buffer)

    -- Text of a stream joins the buffer, if that is empty or of this stream.
    pub append-Spells :
        (b : Batcher) (outs : List Output) (text : List (Bytes × ℕ)) (stream more : Bytes)
        → Spells b outs text
        → (b.buffer ≡ []) ⊎ (stream ≡ b.current_stream)
        → is_empty stream ≡ false
        → Spells
            (record b { current_stream = stream; buffer = b.buffer ++ more })
            outs
            (text ++ tagged stream more)
    append-Spells b outs text stream more h (inl e) full = record {
      sent_is = h.sent_is;
      spells =
          ap (λ t. tagged_outputs outs ++ tagged stream (t ++ more)) e
          ∙ ap (λ t. t ++ tagged stream more)
              (sym (append-nil (tagged_outputs outs))
                ∙ ap (λ t. tagged_outputs outs ++ t) (ap (tagged b.current_stream) (sym e))
                ∙ h.spells);
      fresh = λ empty. absurd (cc);
    }
    append-Spells b outs text stream more h (inr e) full = record {
      sent_is = h.sent_is;
      spells = rw e (simp (tagged-append, ← h.spells, append_assoc));
      fresh = λ empty. absurd (cc);
    }

    -- The buffer in front of a record: empty, or of the stream of the record.
    turn : Batcher → Bytes → Batcher
    turn b stream =
        if not (is_empty b.current_stream) && not (bytes_eq stream b.current_stream)
        then flush cfg answer b
        else b

    turn-Spells :
        (b : Batcher) (outs : List Output) (text : List (Bytes × ℕ)) (stream : Bytes)
        → Spells b outs text
        → (outs' : List Output) × Spells (turn b stream) outs' text
          × (((turn b stream).buffer ≡ []) ⊎ (stream ≡ (turn b stream).current_stream))
    unfolding turn
    turn-Spells b outs text stream h = elim (Bool-cases (is_empty b.current_stream)) [
      | inl e ↦ rw e (outs, h, inl (h.fresh e))
      | inr e ↦ rw e (elim (Bool-cases (bytes_eq stream b.current_stream)) [
        | inl same ↦ rw same (outs, h, inr ((bytes_eq_iff stream b.current_stream).0 same))
        | inr other ↦
            rw other (let (outs', h', empty) = flush-Spells b outs text h in (outs', h', inl empty))
      ])
    ]

    pub receive-Spells :
        (b : Batcher) (outs : List Output) (text : List (Bytes × ℕ)) (r : OutputRecord)
        → Spells b outs text
        → (outs' : List Output) × Spells (receive cfg answer b r) outs' (text ++ tagged_record r)
    unfolding receive turn
    receive-Spells b outs text r h =
        let stream = normalize_stream r.stream in
        let more : Bytes = if cfg.strip then strip_ansi r.text else r.text in
        let (outs1, h1, fits) = turn-Spells b outs text stream h in
        let c : Batcher = turn b stream in
        let b2 : Batcher = record c { current_stream = stream; buffer = c.buffer ++ more } in
        let h2 : Spells b2 outs1 (text ++ tagged_record r) =
          append-Spells c outs1 text stream more h1 fits (normalize_stream-full r.stream) in
        elim (Bool-cases (leb cfg.max_log_bytes (length b2.buffer))) [
          | inl full ↦ rw full (let (outs3, h3, _) = flush-Spells b2 outs1 _ h2 in (outs3, h3))
          | inr room ↦ rw room (outs1, h2)
        ]

    turn-events :
        (b : Batcher) (stream : Bytes)
        → ((turn b stream).events ≡ b.events)
          × ((turn b stream).closed ≡ b.closed)
          × ((turn b stream).done ≡ b.done)
          × ((turn b stream).dropped ≡ b.dropped)
    unfolding turn
    turn-events b stream = ground (arith, flush-events b)

    -- So does the processing of a record.
    pub receive-events :
        (b : Batcher) (r : OutputRecord)
        → ((receive cfg answer b r).events ≡ b.events)
          × ((receive cfg answer b r).closed ≡ b.closed)
          × ((receive cfg answer b r).done ≡ b.done)
          × ((receive cfg answer b r).dropped ≡ b.dropped)
    unfolding receive turn
    receive-events b r =
        let stream = normalize_stream r.stream in
        let more : Bytes = if cfg.strip then strip_ansi r.text else r.text in
        let c : Batcher = turn b stream in
        let b2 : Batcher = record c { current_stream = stream; buffer = c.buffer ++ more } in
        elim (Bool-cases (leb cfg.max_log_bytes (length b2.buffer))) [
          | inl full ↦ rw full (
              let (p, q, d, n) = flush-events b2 in
              let (p', q', d', n') = turn-events b stream in (p ∙ p', q ∙ q', d ∙ d', n ∙ n'))
          | inr room ↦ rw room (turn-events b stream)
        ]

    -- And the end of the loop, which `done` marks.
    pub finish-events :
        (b : Batcher)
        → ((finish cfg answer b).events ≡ b.events)
          × ((finish cfg answer b).closed ≡ b.closed)
          × ((finish cfg answer b).done ≡ true)
          × ((finish cfg answer b).dropped ≡ b.dropped)
    unfolding finish
    finish-events b = elim (Bool-cases (ltb 0 b.dropped)) [
      | inl some_dropped ↦ rw some_dropped (
          let f : Batcher = flush cfg answer b in
          let b1 : Batcher = record f {
            current_stream = stream_system;
            buffer = f.buffer ++ overflow_notice b.dropped;
          } in
          let (p, q, _, n) = flush-events b in
          let (p', q', _, n') = flush-events b1 in (p' ∙ p, q' ∙ q, refl, n' ∙ n))
      | inr none_dropped ↦ rw none_dropped (let (p, q, _, n) = flush-events b in (p, q, refl, n))
    ]
