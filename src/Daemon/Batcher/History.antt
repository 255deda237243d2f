-- ===== src/Daemon/Batcher/History.antt =====
-- The delivery of log text, through each operation of the handler and of the loop.
use wrapping_bot.Base.{
  ℕ, ◌+◌, true, false, ◌||◌, List, [], ◌∷◌, ◌++◌, Option, ◌≡◌, refl, sym, ap, ◌∙◌, arith, ◌⊎◌, inl,
  inr, append_assoc, append-nil, Bool-cases, if◌then◌else◌, length, ltb, leb,
}
use wrapping_bot.Base.Bytes.{Bytes, is_empty}
use wrapping_bot.Protocol.{stream_system}
use wrapping_bot.Daemon.Batcher.{
  OutputRecord, Settings, Batcher, Action, adds, overflow_notice, add, flush, receive, finish,
}
use wrapping_bot.Daemon.Batcher.Sends.{Output}
use wrapping_bot.Daemon.Batcher.Delivery.{
  tagged, tagged_record, tagged_records, tagged_records-append, Spells, flush-Spells, flush-events,
  append-Spells, receive-Spells, receive-events,
}

-- The notice of dropped bytes, once the loop has ended.
abbrev pub last_words : ℕ → List (Bytes × ℕ)
last_words dropped = if ltb 0 dropped then tagged stream_system (overflow_notice dropped) else []

abbrev pub notice : Batcher → List (Bytes × ℕ)
notice b = if b.done then last_words b.dropped else []

module _ (cfg : Settings) where
  -- The text processed, then the queue, spell the records taken and the notice.
  pub record Delivers (b : Batcher) (outs : List Output) (taken : List OutputRecord) : Type 0 where
    pub text : List (Bytes × ℕ)
    pub spelled : Spells cfg b outs text
    pub in_order : text ++ tagged_records cfg b.events ≡ tagged_records cfg taken ++ notice b
    pub drained : b.done ≡ true → (b.buffer ≡ []) × (b.events ≡ []) × (b.closed ≡ true)

  -- The record that the queue takes at an action.
  abbrev pub takes : Batcher → Action → List OutputRecord
  takes b (adds stream text) =
      if b.closed || is_empty text || leb cfg.queue_size (length b.events)
      then []
      else record { stream = stream; text = text } ∷ []
  takes b _ = []

  notice-live : (b : Batcher) → b.done ≡ false → notice b ≡ []
  notice-live b e = rw e

  live-Delivers :
      {b : Batcher} {outs : List Output} {taken : List OutputRecord}
      → Delivers b outs taken
      → b.closed ≡ false
      → b.done ≡ false
  live-Delivers {b} h open_still = elim (Bool-cases b.done) [
    | inl e ↦ absurd (cc ((h.drained e).2))
    | inr e ↦ e
  ]

  -- While the loop runs there is no notice.
  live-in_order :
      {b : Batcher} {outs : List Output} {taken : List OutputRecord} (h : Delivers b outs taken)
      → b.done ≡ false
      → h.text ++ tagged_records cfg b.events ≡ tagged_records cfg taken
  live-in_order {b} {taken = taken} h live =
      h.in_order
      ∙ ap (λ t. tagged_records cfg taken ++ t) (notice-live b live)
      ∙ append-nil (tagged_records cfg taken)

  in_order-live :
      (b : Batcher) (taken : List OutputRecord) {text : List (Bytes × ℕ)}
      → b.done ≡ false
      → text ≡ tagged_records cfg taken
      → text ≡ tagged_records cfg taken ++ notice b
  in_order-live b taken live e =
      e
      ∙ sym (append-nil (tagged_records cfg taken))
      ∙ ap (λ t. tagged_records cfg taken ++ t) (sym (notice-live b live))

  module _ (answer : ℕ → Option Bytes) where
    -- `Add` before the close does nothing, counts the bytes, or queues the record.
    add-cases :
        (b : Batcher) (stream text : Bytes)
        → b.closed ≡ false
        → (add cfg answer b stream text ≡ b) × (takes b (adds stream text) ≡ [])
          ⊎ ((add cfg answer b stream text ≡ record b { dropped = b.dropped + length text })
                × (takes b (adds stream text) ≡ [])
              ⊎ (add cfg answer b stream text ≡ record b {
                events = b.events ++ (record { stream = stream; text = text } ∷ []);
              })
                × (takes b (adds stream text) ≡ record { stream = stream; text = text } ∷ []))
    unfolding add
    add-cases b stream text e = ground arith

    pub add-Delivers :
        (b : Batcher) (stream text : Bytes) (outs : List Output) (taken : List OutputRecord)
        → Delivers b outs taken
        → b.closed ≡ false
        → Delivers (add cfg answer b stream text) outs (taken ++ takes b (adds stream text))
    add-Delivers b stream text outs taken h e = elim (add-cases b stream text e) [
      | inl (p, q) ↦ rw (p, q, append-nil) h
      | inr (inl (p, q)) ↦
          rw (p, q, append-nil)
            (record {
              text = h.text;
              spelled = h.spelled;
              in_order = ground (arith, h.in_order, live-Delivers h e);
              drained = λ d. absurd (cc (live-Delivers h e));
            })
      | inr (inr (p, q)) ↦
          rw (p, q)
            (record {
              text = h.text;
              spelled = h.spelled;
              in_order =
                  let r : OutputRecord = record { stream = stream; text = text } in
                  in_order-live (record b { events = b.events ++ r ∷ [] }) (taken ++ r ∷ [])
                    (live-Delivers h e)
                    (ap (λ t. h.text ++ t) (tagged_records-append cfg b.events (r ∷ []))
                      ∙ sym (append_assoc h.text (tagged_records cfg b.events) _)
                      ∙ ap (λ t. t ++ tagged_records cfg (r ∷ []))
                          (live-in_order h (live-Delivers h e))
                      ∙ sym (tagged_records-append cfg taken (r ∷ [])));
              drained = λ d. absurd (cc (live-Delivers h e));
            })
    ]

    pub flush-Delivers :
        (b : Batcher) (outs : List Output) (taken : List OutputRecord)
        → b.done ≡ false
        → Delivers b outs taken
        → (outs' : List Output) × Delivers (flush cfg answer b) outs' taken
    flush-Delivers b outs taken live h =
        let (outs', s, _) = flush-Spells cfg answer b outs h.text h.spelled in
        let (events, closed, done, dropped) = flush-events cfg answer b in
        (
          outs',
          record {
            text = h.text;
            spelled = s;
            in_order = rw (events, done, dropped) h.in_order;
            drained = λ e. absurd (cc);
          },
        )

    pub receive-Delivers :
        (b : Batcher) (r : OutputRecord) (rest : List OutputRecord) (outs : List Output)
        (taken : List OutputRecord)
        → b.done ≡ false
        → b.events ≡ r ∷ rest
        → Delivers b outs taken
        → (outs' : List Output) × Delivers
            (receive cfg answer (record b { events = rest }) r)
            outs'
            taken
    receive-Delivers b r rest outs taken live e h =
        let b' : Batcher = record b { events = rest } in
        let (outs', s) = receive-Spells cfg answer b' outs h.text r h.spelled in
        let (events, closed, done, dropped) = receive-events cfg answer b' r in
        (
          outs',
          record {
            text = h.text ++ tagged_record cfg r;
            spelled = s;
            in_order =
                rw (events, done, dropped)
                  (append_assoc h.text (tagged_record cfg r) (tagged_records cfg rest)
                    ∙ ap (λ t. h.text ++ tagged_records cfg t) (sym e)
                    ∙ h.in_order);
            drained = λ d'. absurd (cc done);
          },
        )

    -- The last flush, of the notice too if bytes were dropped.
    last_flush :
        (b : Batcher) (outs : List Output) (text : List (Bytes × ℕ))
        → Spells cfg b outs text
        → (outs' : List Output) × (b' : Batcher) × (finish cfg answer b ≡ record b' { done = true })
          × Spells cfg b' outs' (text ++ last_words b.dropped)
          × (b'.buffer ≡ [])
          × (b'.events ≡ b.events)
          × (b'.closed ≡ b.closed)
          × (b'.dropped ≡ b.dropped)
    unfolding finish
    last_flush b outs text h = elim (Bool-cases (ltb 0 b.dropped)) [
      | inl some_dropped ↦ rw some_dropped (
          let (outs1, s1, empty) = flush-Spells cfg answer b outs text h in
          let f : Batcher = flush cfg answer b in
          let words : Bytes = overflow_notice b.dropped in
          let b1 : Batcher = record f {
            current_stream = stream_system;
            buffer = f.buffer ++ words;
          } in
          let s2 : Spells cfg b1 outs1 (text ++ tagged stream_system words) =
            append-Spells cfg answer f outs1 text stream_system words s1 (inl empty) refl in
          let (outs2, s3, empty2) = flush-Spells cfg answer b1 outs1 _ s2 in
          let (p, q, _, n) = flush-events cfg answer b in
          let (p', q', _, n') = flush-events cfg answer b1 in
          (outs2, flush cfg answer b1, refl, s3, empty2, p' ∙ p, q' ∙ q, n' ∙ n))
      | inr none_dropped ↦
          rw (none_dropped, append-nil text)
            (let (outs1, s1, empty) = flush-Spells cfg answer b outs text h in
              let (p, q, _, n) = flush-events cfg answer b in
              (outs1, flush cfg answer b, refl, s1, empty, p, q, n))
    ]

    pub finish-Delivers :
        (b : Batcher) (outs : List Output) (taken : List OutputRecord)
        → b.done ≡ false
        → b.closed ≡ true
        → b.events ≡ []
        → Delivers b outs taken
        → (outs' : List Output) × Delivers (finish cfg answer b) outs' taken
    finish-Delivers b outs taken live shut none_left h =
        let (outs', b', e, s, empty, events, closed, dropped) =
          last_flush b outs h.text h.spelled in
        (
          outs',
          rw e (record {
            text = _;
            spelled = s;
            in_order =
                ap (λ t. (h.text ++ last_words b.dropped) ++ tagged_records cfg t)
                  (events ∙ none_left)
                ∙ append-nil (h.text ++ last_words b.dropped)
                ∙ ap (λ t. t ++ last_words b.dropped)
                    (sym (append-nil h.text)
                      ∙ ap (λ t. h.text ++ tagged_records cfg t) (sym none_left)
                      ∙ live-in_order h live)
                ∙ ap (λ n. tagged_records cfg taken ++ last_words n) (sym dropped);
            drained = λ _. (empty, events ∙ none_left, closed ∙ shut);
          }),
        )
