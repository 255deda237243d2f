-- ===== src/Client/Session/Accepted.antt =====
-- The two ends of the protocol of internal/protocol/event.go: the events of a session of
-- internal/clientstream/session.go, as they are decoded in internal/daemon/server.go.
use wrapping_bot.Base.{
  ℕ, ◌+◌, ◌-◌, ◌≤◌, ◌<◌, ◌⊎◌, ◌≢◌, leb, Bool-cases, false, List, [], ◌∷◌, ◌++◌, some, none, ◌≡◌,
  inl, inr, refl, sym, subst, ap, ◌∙◌, arith, map, All, All-append,
}
use native.Mathlib.Decide.{dec_le}
use wrapping_bot.Base.Bytes.{Bytes, str, bytes_eq, bytes_eq_iff}
use wrapping_bot.Client.Session.{Session, new_session, Action, starts, send_start, run, close}
use wrapping_bot.Client.Session.Sound.{history, IsOutput}
use wrapping_bot.Client.Session.Stream.{close-run-IsStream}
use wrapping_bot.Client.Session.Upload.{Opened, upload_request}
use wrapping_bot.Daemon.Server.{
  Outside, Config, Request, Decoded, decoded, invalid, limited, body_events, read_stream,
}
use wrapping_bot.Daemon.Server.Parts.{IsPart, last_exit, read_stream-parts, parts-read_stream}
use wrapping_bot.Protocol
use wrapping_bot.Protocol.{Event, event_output, event_exit}
use wrapping_bot.Text.Utf8.{IsUtf8, is_ascii-IsUtf8}

-- What the wire makes of an event: the client encodes it as JSON and the daemon decodes it. Strings
-- that are valid UTF-8 come through it as they are.
abbrev pub Keeps : (Event → Event) → Type 0
Keeps wire =
    (e : Event)
    → ((wire e).version ≡ e.version)
      × (IsUtf8 e.run_id → (wire e).run_id ≡ e.run_id)
      × (IsUtf8 e.type → (wire e).type ≡ e.type)

abbrev pub received : (Event → Event) → Event → Decoded
received wire e = decoded (wire e)

-- The values of a body with these events, where the encoder writes `json e` bytes of an event and then
-- ends the line; `gap` are the bytes of the line end before.
abbrev pub lines : (Event → Event) → (Event → ℕ) → ℕ → List Event → List (ℕ × Decoded)
lines wire json gap [] = []
lines wire json gap (e ∷ es) = (gap + json e, received wire e) ∷ lines wire json 1 es

-- The length of the body.
abbrev pub total : (Event → ℕ) → List Event → ℕ
total json [] = 0
total json (e ∷ es) = json e + 1 + total json es

-- What the daemon is asked for.
abbrev pub asked : (Event → Event) → (Event → ℕ) → Opened → List Event → Request
asked wire json o events = record {
  authorization = (upload_request o).authorization;
  values = lines wire json 0 events;
  trailing = 1;
}

limited-lines :
    (wire : Event → Event) (json : Event → ℕ) (left : ℕ) (events : List Event)
    → 1 + total json events ≤ left
    → limited 1 left (lines wire json 1 events) ≡ map (received wire) events
unfolding limited
limited-lines wire json left [] h = ground arith
limited-lines wire json left (e ∷ es) h =
    rw (limited-lines wire json (left - (1 + json e)) es (omega arith)) (ground arith)

-- A body that is not too large is read to its end.
pub body_events-lines :
    (wire : Event → Event) (json : Event → ℕ) (o : Opened) (cfg : Config) (e : Event)
    (es : List Event)
    → total json (e ∷ es) ≤ cfg.max_stream_bytes
    → body_events cfg (asked wire json o (e ∷ es)) ≡ received wire e ∷ map (received wire) es
unfolding body_events limited
body_events-lines wire json o cfg e es h =
    rw (limited-lines wire json (cfg.max_stream_bytes - (0 + json e)) es (omega arith))
      (ground arith)

module _ (lib : Outside) (wire : Event → Event) (start : Event) where
  -- Behind the start event there is an error where the body is too large.
  limited-over :
      (json : Event → ℕ) (left : ℕ) (events : List Event)
      → left < 1 + total json events
      → ¬ All (IsPart lib (wire start)) (limited 1 left (lines wire json 1 events))
  unfolding limited
  limited-over json left [] h = elim (Bool-cases (leb 1 left)) [
    | inl e ↦ absurd (ground arith)
    | inr e ↦ rw e (λ (bad, _). bad)
  ]
  limited-over json left (e ∷ es) h = elim (Bool-cases (leb (1 + json e) left)) [
    | inl fits ↦
        rw fits (λ (_, parts). limited-over json (left - (1 + json e)) es (ground arith) parts)
    | inr long ↦ rw long (λ (bad, _). bad)
  ]

  -- The start event is not decoded, or the stream behind it ends with an error.
  abbrev pub IsCutOff : List Decoded → Type 0
  IsCutOff body =
      (body ≡ invalid (str "http: request body too large") ∷ [])
      ⊎ (stream : List Decoded) × (body ≡ decoded (wire start) ∷ stream)
        × ((read_stream lib (wire start) none stream).stream_err ≢ none)

  pub body_events-IsCutOff :
      (json : Event → ℕ) (o : Opened) (cfg : Config) (es : List Event)
      → cfg.max_stream_bytes < total json (start ∷ es)
      → IsCutOff (body_events cfg (asked wire json o (start ∷ es)))
  unfolding body_events limited
  body_events-IsCutOff json o cfg es h =
      elim (Bool-cases (leb (0 + json start) cfg.max_stream_bytes)) [
        | inl fits ↦
            let left = cfg.max_stream_bytes - (0 + json start) in
            let stream = limited 1 left (lines wire json 1 es) in
            rw fits (
              inr (
                stream,
                refl,
                λ fine.
                    limited-over json left es (ground arith)
                      (parts-read_stream lib (wire start) stream none fine),
              ))
        | inr long ↦ rw long (inl refl)
      ]

module _ (lib : Outside) (wire : Event → Event) (keeps : Keeps wire) (start : Event)
    (valid : IsUtf8 start.run_id) where
  carried :
      (e : Event) (type : Bytes)
      → IsUtf8 type
      → e.version ≡ Protocol.version
      → e.run_id ≡ start.run_id
      → e.type ≡ type
      → ((wire e).version ≡ Protocol.version)
        × ((wire e).run_id ≡ (wire start).run_id)
        × ((wire e).type ≡ type)
  carried e type u v r t =
      let (v', r', t') = keeps e in
      let (_, start_kept, _) = keeps start in
      (
        v' ∙ v,
        r' (subst IsUtf8 (sym r) valid) ∙ r ∙ sym (start_kept valid),
        t' (subst IsUtf8 (sym t) u) ∙ t,
      )

  outputs-IsPart :
      (es : List Event)
      → All (IsOutput start.run_id) es
      → All (IsPart lib (wire start)) (map (received wire) es)
  outputs-IsPart [] h = tt
  outputs-IsPart (e ∷ es) ((v, r, t), h) =
      let (v', r', t') = carried e event_output (is_ascii-IsUtf8 event_output refl) v r t in
      ((v', r', inl t'), outputs-IsPart es h)

  output_type : bytes_eq event_output event_exit ≡ false
  unfolding bytes_eq
  output_type = refl

  map-received :
      (xs ys : List Event)
      → map (received wire) (xs ++ ys) ≡ map (received wire) xs ++ map (received wire) ys
  map-received [] ys = refl
  map-received (x ∷ xs) ys = ap (λ r. received wire x ∷ r) (map-received xs ys)

  last_exit-outputs :
      (es : List Event) (rest : List Decoded)
      → All (IsOutput start.run_id) es
      → last_exit lib (wire start) none (map (received wire) es ++ rest)
        ≡ last_exit lib (wire start) none rest
  last_exit-outputs [] rest h = refl
  last_exit-outputs (e ∷ es) rest ((v, r, t), h) =
      let (_, _, t') = carried e event_output (is_ascii-IsUtf8 event_output refl) v r t in
      let other : bytes_eq (wire e).type event_exit ≡ false =
        ap (λ y. bytes_eq y event_exit) t' ∙ output_type in
      ground (arith, other, last_exit-outputs es rest h)

  pub close-run-parts :
      (queue_size now waited : ℕ) (exit : Event) (s : Session) (acts : List Action)
      → 1 ≤ queue_size
      → 1 ≤ waited
      → exit.version ≡ Protocol.version
      → exit.run_id ≡ start.run_id
      → exit.type ≡ event_exit
      → send_start queue_size start new_session ≡ starts s
      → let c = close queue_size now waited exit (run queue_size start.run_id s acts) in
        (rest : List Event) × (history c ≡ start ∷ rest)
        × ((read_stream lib (wire start) none (map (received wire) rest)).stream_err ≡ none)
        × ((read_stream lib (wire start) none (map (received wire) rest)).exit_event
            ≡ some (wire exit))
  close-run-parts queue_size now waited exit s acts room more v r t started =
      let h = close-run-IsStream queue_size start.run_id start now waited exit r s acts started in
      let all_outputs : List Event = h.outs ++ h.note in
      let whole : h.last ≡ exit ∷ [] = elim h.last_is [
        | inl e ↦ e
        | inr (_, inl never) ↦ absurd (omega arith)
        | inr (_, inr never) ↦ absurd (omega arith)
      ] in
      let rest = all_outputs ++ (exit ∷ []) in
      let (v', r', t') = carried exit event_exit (is_ascii-IsUtf8 event_exit refl) v r t in
      let parts : All (IsPart lib (wire start)) (map (received wire) rest) =
        subst (All (IsPart lib (wire start))) (sym (map-received all_outputs (exit ∷ []))) (
          All-append (IsPart lib (wire start)) (map (received wire) all_outputs) _
            (outputs-IsPart all_outputs h.are_outputs) ((v', r', inr t'), tt)) in
      let read = read_stream-parts lib (wire start) (map (received wire) rest) none parts in
      (
        rest,
        h.history_is ∙ ap (λ l. start ∷ (all_outputs ++ l)) whole,
        ap (λ x. x.stream_err) read,
        ap (λ x. x.exit_event) read
            ∙ ap (last_exit lib (wire start) none) (map-received all_outputs (exit ∷ []))
            ∙ last_exit-outputs all_outputs (received wire exit ∷ []) h.are_outputs
            ∙ ground (arith, (bytes_eq_iff (wire exit).type event_exit).1 t'),
      )

  -- A session that has started with an event of its run, whose ID is valid UTF-8, and is closed with
  -- an exit event of that run while the upload still receives. If the body that the upload writes is
  -- no longer than the daemon's limit, the handler reads of it the start event and then a stream that
  -- ends with no error, and whose last exit event is that exit event; if it is longer, there is no
  -- start event to read, or the stream behind it ends with an error. This holds whatever is written,
  -- whatever is dropped, and whatever the upload receives in between.
  pub close-run-read :
      (queue_size now waited : ℕ) (exit : Event) (s : Session) (acts : List Action)
      → 1 ≤ queue_size
      → 1 ≤ waited
      → exit.version ≡ Protocol.version
      → exit.run_id ≡ start.run_id
      → exit.type ≡ event_exit
      → send_start queue_size start new_session ≡ starts s
      → (json : Event → ℕ) (o : Opened) (cfg : Config)
      → let c = close queue_size now waited exit (run queue_size start.run_id s acts) in
        let body = body_events cfg (asked wire json o (history c)) in
        (total json (history c) ≤ cfg.max_stream_bytes)
          × ((stream : List Decoded) × (body ≡ decoded (wire start) ∷ stream)
              × ((read_stream lib (wire start) none stream).stream_err ≡ none)
              × ((read_stream lib (wire start) none stream).exit_event ≡ some (wire exit)))
        ⊎ (cfg.max_stream_bytes < total json (history c)) × IsCutOff lib wire start body
  close-run-read queue_size now waited exit s acts room more v r t started json o cfg =
      let (rest, whole, fine, ended) =
        close-run-parts queue_size now waited exit s acts room more v r t started in
      let size = total json (start ∷ rest) in
      rw whole (elim (dec_le size cfg.max_stream_bytes) [
        | yes fits ↦ inl (
          fits,
          (
            map (received wire) rest,
            body_events-lines wire json o cfg start rest fits,
            fine,
            ended,
          ),
        )
        | no long ↦
            inr (omega arith, body_events-IsCutOff lib wire start json o cfg rest (omega arith))
      ])
