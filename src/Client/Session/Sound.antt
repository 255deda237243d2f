-- ===== src/Client/Session/Sound.antt =====
-- What holds of every open session of internal/clientstream/session.go.
use wrapping_bot.Base.{
  ℕ, zero, suc, ◌+◌, ◌≤◌, ◌<◌, false, List, [], ◌∷◌, ◌++◌, ◌≡◌, ◌⊎◌, inl, inr, refl, sym, subst, ap,
  ◌∙◌, arith, ltb, length, length-snoc, append_assoc, All, All-append, Bool-cases,
}
use wrapping_bot.Base.Bytes.{Bytes}
use wrapping_bot.Protocol
use wrapping_bot.Protocol.{Event, event_output, stream_system}
use wrapping_bot.Client.Session.{
  Session, new_session, output_event, Action, writes, receives, receive_event, starts, enqueue,
  send_start, write_chunk, step, run, receive_events,
}

-- All events so far, in their order.
abbrev pub history : Session → List Event
history s = s.uploaded ++ s.events

abbrev pub output_length : List Event → ℕ
output_length [] = 0
output_length (e ∷ es) = length e.payload + output_length es

output_length-append :
    (xs ys : List Event) → output_length (xs ++ ys) ≡ output_length xs + output_length ys
output_length-append [] ys = omega arith
output_length-append (x ∷ xs) ys = omega (arith, output_length-append xs ys)

-- The bytes that the writers hand on.
abbrev pub written_by : Action → ℕ
written_by (writes now stream chunk) = length chunk
written_by receives = 0

abbrev pub written_length : List Action → ℕ
written_length [] = 0
written_length (a ∷ acts) = written_by a + written_length acts

-- An output event of the run.
abbrev pub IsOutput : Bytes → Event → Type 0
IsOutput run_id e = (e.version ≡ Protocol.version) × (e.run_id ≡ run_id) × (e.type ≡ event_output)

pub history-enqueue : (e : Event) (s : Session) → history (enqueue e s) ≡ history s ++ (e ∷ [])
history-enqueue e s = sym (append_assoc s.uploaded s.events (e ∷ []))

-- The upload takes an event from the queue; the history stays.
pub receive_event-kept :
    (events : List Event) (s : Session)
    → s.events ≡ events
    → (history (receive_event events s) ≡ history s)
      × ((receive_event events s).closed ≡ s.closed)
      × ((receive_event events s).dropped ≡ s.dropped)
      × (length (receive_event events s).events ≤ length s.events)
      × (1 ≤ length s.events → length (receive_event events s).events < length s.events)
unfolding receive_event
receive_event-kept [] s e = (refl, refl, refl, omega arith, λ full. absurd (ground arith))
receive_event-kept (x ∷ rest) s e = (
  append_assoc s.uploaded (x ∷ []) rest ∙ ap (λ q. s.uploaded ++ q) (sym e),
  refl,
  refl,
  ground arith,
  λ full. ground arith,
)

-- While `Close` waits nothing but the upload goes on.
pub receive_events-kept :
    (n : ℕ) (s : Session)
    → (history (receive_events n s) ≡ history s)
      × ((receive_events n s).dropped ≡ s.dropped)
      × (length (receive_events n s).events ≤ length s.events)
      × (1 ≤ n → 1 ≤ length s.events → length (receive_events n s).events < length s.events)
unfolding receive_events
receive_events-kept zero s = (refl, refl, omega arith, λ more full. absurd (omega arith))
receive_events-kept (suc n) s =
    let (same, _, drops, fewer, strict) = receive_event-kept s.events s refl in
    let (same', drops', fewer', _) = receive_events-kept n (receive_event s.events s) in
    (
      same' ∙ same,
      drops' ∙ drops,
      omega (arith, fewer, fewer'),
      λ more full. omega (arith, strict full, fewer'),
    )

module _ (queue_size : ℕ) (run_id : Bytes) (start : Event) where
  -- An open session that has started with this event, and what was written to it.
  pub record Sound (written : ℕ) (s : Session) : Type 0 where
    pub outs : List Event
    pub history_is : history s ≡ start ∷ outs
    pub are_outputs : All (IsOutput run_id) outs
    pub counted : written ≡ output_length outs + s.dropped
    pub bounded : length s.events ≤ queue_size
    pub is_open : s.closed ≡ false

  enqueue-Sound :
      (written now : ℕ) (stream chunk : Bytes) (s : Session)
      → length s.events < queue_size
      → Sound written s
      → Sound (written + length chunk) (enqueue (output_event run_id now stream chunk) s)
  unfolding output_event
  enqueue-Sound written now stream chunk s room h =
      let e = output_event run_id now stream chunk in
      record {
        outs = h.outs ++ (e ∷ []);
        history_is = history-enqueue e s ∙ ap (λ q. q ++ (e ∷ [])) h.history_is;
        are_outputs = All-append (IsOutput run_id) h.outs _ h.are_outputs ((refl, refl, refl), tt);
        counted = omega (arith, h.counted, output_length-append h.outs (e ∷ []));
        bounded = omega (arith, length-snoc s.events e);
        is_open = h.is_open;
      }

  pub write_chunk-cases :
      (now : ℕ) (stream chunk : Bytes) (s : Session)
      → s.closed ≡ false
      → ((length s.events < queue_size)
          × (write_chunk queue_size run_id now stream chunk s
              ≡ enqueue (output_event run_id now stream chunk) s))
        ⊎ (write_chunk queue_size run_id now stream chunk s
            ≡ record s { dropped = s.dropped + length chunk })
  unfolding write_chunk
  write_chunk-cases now stream chunk s e = ground arith

  write_chunk-Sound :
      (written now : ℕ) (stream chunk : Bytes) (s : Session)
      → Sound written s
      → Sound (written + length chunk) (write_chunk queue_size run_id now stream chunk s)
  write_chunk-Sound written now stream chunk s h =
      elim (write_chunk-cases now stream chunk s h.is_open) [
        | inl (room, same) ↦ rw same (enqueue-Sound written now stream chunk s room h)
        | inr same ↦ rw same (record {
          outs = h.outs;
          history_is = h.history_is;
          are_outputs = h.are_outputs;
          counted = omega (arith, h.counted);
          bounded = h.bounded;
          is_open = h.is_open;
        })
      ]

  step-Sound :
      (written : ℕ) (s : Session) (a : Action)
      → Sound written s
      → Sound (written + written_by a) (step queue_size run_id s a)
  unfolding step
  step-Sound written s (writes now stream chunk) h = write_chunk-Sound written now stream chunk s h
  step-Sound written s receives h =
      let (same, shut, drops, fewer, _) = receive_event-kept s.events s refl in
      record {
        outs = h.outs;
        history_is = same ∙ h.history_is;
        are_outputs = h.are_outputs;
        counted = omega (arith, h.counted, drops);
        bounded = omega (arith, fewer, h.bounded);
        is_open = shut ∙ h.is_open;
      }

  pub run-Sound :
      (written : ℕ) (s : Session) (acts : List Action)
      → Sound written s
      → Sound (written + written_length acts) (run queue_size run_id s acts)
  unfolding run
  run-Sound written s [] h = subst (λ n. Sound n s) (omega arith) h
  run-Sound written s (a ∷ acts) h =
      subst (λ n. Sound n (run queue_size run_id (step queue_size run_id s a) acts)) (omega arith)
        (run-Sound (written + written_by a) (step queue_size run_id s a) acts
          (step-Sound written s a h))

  pub send_start-fresh :
      (s : Session)
      → send_start queue_size start new_session ≡ starts s
      → (history s ≡ start ∷ []) × (s.dropped ≡ 0)
  unfolding send_start
  send_start-fresh s e = elim (Bool-cases (ltb 0 queue_size)) [
    | inl room ↦ let same : s ≡ enqueue start new_session = ground arith in rw same (refl, refl)
    | inr none_at_all ↦ absurd (ground arith)
  ]

  pub send_start-Sound :
      (s : Session) → send_start queue_size start new_session ≡ starts s → Sound 0 s
  unfolding send_start
  send_start-Sound s e = elim (Bool-cases (ltb 0 queue_size)) [
    | inl room ↦
        let same : s ≡ enqueue start new_session = ground arith in
        rw same (record {
          outs = [];
          history_is = refl;
          are_outputs = tt;
          counted = refl;
          bounded = ground arith;
          is_open = refl;
        })
    | inr none_at_all ↦ absurd (ground arith)
  ]
