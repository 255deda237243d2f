-- ===== src/Client/Session/Relayed.antt =====
-- A run from the session of internal/clientstream/session.go, over the wire, through the handler of
-- internal/daemon/server.go, to the result of the upload.
use wrapping_bot.Base.{
  ℕ, suc, ltb, leb, ◌||◌, ◌≤◌, ◌<◌, ◌^◌, ◌↔◌, true, false, List, [], ◌∷◌, Option, some, none, ◌≡◌,
  inl, inr, refl, sym, subst, ap, ◌∙◌, arith, map, length, take_all, Bool-cases, All,
}
use native.Mathlib.Decide.{dec_le}
use wrapping_bot.Base.Bytes.{Bytes, is_empty, bytes_eq_iff, has_prefix, trim_prefix}
use wrapping_bot.Base.Result.{Result, ok}
use wrapping_bot.Base.Space.{trim_space}
use wrapping_bot.Client.Session.{Session, new_session, Action, starts, send_start, run, close}
use wrapping_bot.Client.Session.Accepted.{
  Keeps, received, asked, total, body_events-lines, body_events-IsCutOff, close-run-parts,
}
use wrapping_bot.Client.Session.Sound.{history}
use wrapping_bot.Client.Session.Upload.{
  Opened, Uploaded, upload_request, upload, responds, encode_events, take_decoded, take_response,
  take_reply,
}
use wrapping_bot.Client.Session.Upload
use wrapping_bot.Daemon.Batcher.{Message}
use wrapping_bot.Daemon.Batcher.Errors.{first_error}
use wrapping_bot.Daemon.Server.{Outside, Config, authorized, channel_allowed, read_stream}
use wrapping_bot.Daemon.Server.Accepts.{IsStart}
use wrapping_bot.Daemon.Server.Handle.{Pulse, Handled, handle_stream}
use wrapping_bot.Daemon.Server.Outcome.{IsRelayed, Answers, handle_stream_iff}
use wrapping_bot.Daemon.Server.Parts.{IsPart, read_stream-parts}
use wrapping_bot.Daemon.Server.Reading.{read_stream_iff}
use wrapping_bot.Protocol
use wrapping_bot.Protocol.{Event, StreamResponse, event_exit}
use wrapping_bot.Text.Utf8.{IsUtf8}

-- The token that the client sends is the one that the daemon looks for.
authorized-upload_request :
    (lib : Outside) (cfg : Config) (o : Opened)
    → trim_space o.token ≡ cfg.shared_token
    → authorized lib cfg (upload_request o).authorization ≡ true
unfolding authorized upload_request has_prefix trim_prefix
authorized-upload_request lib cfg o e =
    (bytes_eq_iff (lib.sha256 (trim_space o.token)) (lib.sha256 cfg.shared_token)).1
      (ap lib.sha256 e)

encode_events-none :
    (n : ℕ) (events : List Event) → encode_events (λ k. none) n events ≡ (events, none)
unfolding encode_events
encode_events-none n [] = refl
encode_events-none n (e ∷ events) = rw (encode_events-none (suc n) events) refl

is_empty-short : (s : Bytes) → 1 ≤ length s → is_empty s ≡ false
is_empty-short [] h = absurd (omega arith)
is_empty-short (c ∷ s) h = refl

module _ (decode : Bytes → Result StreamResponse) (r : Upload.Response) (response : StreamResponse)
    (full : 1 ≤ length r.body) (small : length r.body ≤ 2 ^ 20)
    (decoded : decode r.body ≡ ok response) where
  take_response-success :
      (ltb r.status_code 200 || leb 300 r.status_code) ≡ false
      → take_response decode r ≡ record { response = response; err = none }
  unfolding take_response
  take_response-success e =
      rw (take_all (2 ^ 20) r.body small, is_empty-short r.body full, decoded) (rw e refl)

  take_response-failure :
      (ltb r.status_code 200 || leb 300 r.status_code) ≡ true
      → (text : Bytes) × (take_response decode r ≡ record { response = response; err = some text })
  unfolding take_response
  take_response-failure e =
      rw (take_all (2 ^ 20) r.body small, is_empty-short r.body full, decoded) (rw e (_, refl))

  upload-response :
      (events : List Event) → upload decode (λ n. none) (responds r) events ≡ take_response decode r
  unfolding upload take_reply
  upload-response events = rw (encode_events-none 0 events) refl

  -- Where the status says what the response says, so does the result of the upload.
  upload-accepts :
      (events : List Event)
      → (r.status_code ≡ 200) ↔ (response.accepted ≡ true)
      → (response.accepted ≡ false → 400 ≤ r.status_code)
      → let u = upload decode (λ n. none) (responds r) events in
        (u.err ≡ none ↔ response.accepted ≡ true) × (u.response ≡ response)
  upload-accepts events good bad = elim (Bool-cases response.accepted) [
    | inl yes_it ↦
        let status = good.1 yes_it in
        rw (upload-response events, take_response-success (ground arith))
          ((λ _. yes_it, λ _. refl), refl)
    | inr denied ↦
        let status = bad denied in
        let (text, e) = take_response-failure (ground arith) in
        rw (upload-response events, e) ((λ none_it. absurd (cc), λ yes_it. absurd (cc)), refl)
  ]

module _ (lib : Outside) (wire : Event → Event) (keeps : Keeps wire) (start : Event)
    (valid : IsUtf8 start.run_id) (cfg : Config) (answer : ℕ → Option Bytes) (in_use : ℕ)
    (o : Opened) (json : Event → ℕ) where
  -- The run is served only where its body is no longer than the limit.
  IsRelayed-fits :
      (rest : List Event) (sent : List Message)
      → IsRelayed lib cfg answer in_use (asked wire json o (start ∷ rest)) sent
      → total json (start ∷ rest) ≤ cfg.max_stream_bytes
  IsRelayed-fits rest sent h = elim (dec_le (total json (start ∷ rest)) cfg.max_stream_bytes) [
    | yes fits ↦ fits
    | no long ↦ elim (body_events-IsCutOff lib wire start json o cfg rest (omega arith)) [
      | inl e ↦ let begins = h.is_admitted.begins in absurd (cc)
      | inr (stream, e, bad) ↦
          let begins = h.is_admitted.begins in
          let same_start : h.start ≡ wire start = cc in
          let same_rest : h.rest ≡ stream = cc in
          let parts : All (IsPart lib (wire start)) stream =
            subst (λ s. All (IsPart lib s) stream) same_start
              (subst (All (IsPart lib h.start)) same_rest h.is_good.are_parts) in
          absurd
            (bad (ap (λ s. s.stream_err) (read_stream-parts lib (wire start) stream none parts)))
    ]
  ]

  IsRelayed-all_sent :
      (rest : List Event) (exit : Event) (sent : List Message)
      → trim_space o.token ≡ cfg.shared_token
      → in_use < cfg.max_concurrent_runs
      → IsStart (wire start)
      → channel_allowed cfg (wire start).channel_id ≡ true
      → (read_stream lib (wire start) none (map (received wire) rest)).stream_err ≡ none
      → (read_stream lib (wire start) none (map (received wire) rest)).exit_event ≡ some (wire exit)
      → IsRelayed lib cfg answer in_use (asked wire json o (start ∷ rest)) sent
        ↔ (total json (start ∷ rest) ≤ cfg.max_stream_bytes)
          × (first_error answer (length sent) ≡ none)
  IsRelayed-all_sent rest exit sent token slot is_start allowed fine ended =
      let stream = map (received wire) rest in
      let parts = (read_stream_iff lib (wire start) stream).0.0 fine in
      let last = ap (λ s. s.exit_event) (read_stream-parts lib (wire start) stream none parts) in
      (
        λ h. (IsRelayed-fits rest sent h, h.is_good.all_sent),
        λ (fits, all_sent). record {
          start = wire start;
          rest = stream;
          is_admitted = record {
            is_authorized = authorized-upload_request lib cfg o token;
            has_slot = slot;
            begins = body_events-lines wire json o cfg start rest fits;
            is_start = is_start;
            is_allowed = allowed;
          };
          is_good = record {
            are_parts = parts;
            exits = λ n. let found = sym ended ∙ last ∙ n in absurd (cc);
            all_sent = all_sent;
          };
        },
      )

  -- A session that has started with an event that the daemon serves, whose run ID is valid UTF-8,
  -- and that is closed with an exit event of that run while the upload still receives; a client
  -- that has the daemon's token, an allowed channel, a free slot, and no failure where the upload
  -- writes. Where the response of the handler, of at most 2^20 bytes, reaches the upload, the
  -- upload ends with no error exactly if its body is no longer than the daemon's limit and none of
  -- the messages that the daemon sent failed, and its response is that of the handler; whatever is
  -- written, whatever is dropped, and whatever the upload and the batcher's goroutine do in
  -- between.
  pub upload-handle_stream :
      (queue_size now waited : ℕ) (exit : Event) (s : Session) (acts : List Action)
      → 1 ≤ queue_size
      → 1 ≤ waited
      → exit.version ≡ Protocol.version
      → exit.run_id ≡ start.run_id
      → exit.type ≡ event_exit
      → send_start queue_size start new_session ≡ starts s
      → trim_space o.token ≡ cfg.shared_token
      → in_use < cfg.max_concurrent_runs
      → IsStart (wire start)
      → channel_allowed cfg (wire start).channel_id ≡ true
      → (schedule : ℕ → List Pulse) (h : Handled)
      → handle_stream lib cfg answer in_use schedule (
          asked wire json o
            (history (close queue_size now waited exit (run queue_size start.run_id s acts))))
        ≡ h
      → (decode : Bytes → Result StreamResponse) (r : Upload.Response)
      → r.status_code ≡ h.response.status
      → 1 ≤ length r.body
      → length r.body ≤ 2 ^ 20
      → decode r.body ≡ ok h.response.body
      → let events =
          history (close queue_size now waited exit (run queue_size start.run_id s acts)) in
        let u = upload decode (λ n. none) (responds r) events in
        (u.err ≡ none
          ↔ (total json events ≤ cfg.max_stream_bytes)
            × (first_error answer (length h.sent) ≡ none))
        × (u.response ≡ h.response.body)
  upload-handle_stream queue_size now waited exit s acts room more v k t started token slot is_start
        allowed schedule h handled decode r status full small decoded =
      let events =
        history (close queue_size now waited exit (run queue_size start.run_id s acts)) in
      let (rest, whole, fine, ended) =
        close-run-parts lib wire keeps start valid queue_size now waited exit s acts room more v k t
          started in
      let (accepted, good, bad) =
        subst (Answers lib cfg answer in_use schedule (asked wire json o events)) handled
          (handle_stream_iff lib cfg answer in_use schedule (asked wire json o events)) in
      let (ends, same) =
        upload-accepts decode r h.response.body full small decoded events (rw status good)
          (rw status bad) in
      let all_sent : IsRelayed lib cfg answer in_use (asked wire json o events) h.sent
          ↔ (total json events ≤ cfg.max_stream_bytes)
            × (first_error answer (length h.sent) ≡ none) =
        rw whole (IsRelayed-all_sent rest exit h.sent token slot is_start allowed fine ended) in
      ((λ e. all_sent.0 (accepted.0 (ends.0 e)), λ e. ends.1 (accepted.1 (all_sent.1 e))), same)
