-- ===== src/Daemon/Server/Verdict.antt =====
-- The response of a run that was let in, against what its stream held and which messages failed;
-- `sendLong` and `handleStream` of internal/daemon/server.go.
use wrapping_bot.Base.{
  ℕ, ◌+◌, ◌≤◌, ◌≢◌, ◌⊎◌, subst, true, false, List, [], ◌∷◌, ◌++◌, Option, some, none, ◌≡◌, refl,
  sym, ap, ◌∙◌, arith, length, length-append, length-snoc, Option-cases, inl, inr, All,
}
use wrapping_bot.Base.Bytes.{Bytes}
use wrapping_bot.Daemon.Batcher.{Message}
use wrapping_bot.Daemon.Batcher.Errors.{first_error, first_error-add, run-first_error}
use wrapping_bot.Daemon.Format.{format_start, format_exit}
use wrapping_bot.Daemon.Server.{Outside, Config, Decoded, Stream, read_stream}
use wrapping_bot.Daemon.Server.Handle.{
  Sending, Pulse, settings, send_parts, send_long, relay_output, Handled, verdict, first_failure,
  finish_exit, finish_stream, relay_run, start_run,
}
use wrapping_bot.Daemon.Server.Relay.{relay_output-run}
use wrapping_bot.Daemon.Server.Parts.{IsPart, last_exit, read_stream-parts}
use wrapping_bot.Daemon.Server.Reading.{read_stream_iff}
use wrapping_bot.Protocol.{Event}
use wrapping_bot.Text.Split.{split_utf8}

module _ (answer : ℕ → Option Bytes) where
  -- What `sendLong` returns joins the errors of the messages before it.
  send_parts-first_error :
      (channel_id : Bytes) (sent : List Message) (parts : List Bytes)
      → first_error answer (length (send_parts answer channel_id sent parts).sent)
        ≡ first_failure
            (first_error answer (length sent))
            (send_parts answer channel_id sent parts).failure
  unfolding send_parts
  send_parts-first_error channel_id sent [] = ground arith
  send_parts-first_error channel_id sent (part ∷ parts) =
      let m : Message = record { channel_id = channel_id; content = part } in
      elim (Option-cases (answer (length sent))) [
        | inl e ↦
            rw (e, send_parts)
              (ground (
                arith,
                ap (first_error answer) (length-snoc sent m),
                send_parts-first_error channel_id (sent ++ m ∷ []) parts,
              ))
        | inr (err, e) ↦
            rw (e, send_parts) (ground (arith, ap (first_error answer) (length-snoc sent m)))
      ]

  send_long-first_error :
      (sent : List Message) (channel_id content : Bytes)
      → first_error answer (length (send_long answer sent channel_id content).sent)
        ≡ first_failure
            (first_error answer (length sent))
            (send_long answer sent channel_id content).failure
  unfolding send_long
  send_long-first_error sent channel_id content =
      send_parts-first_error channel_id sent (split_utf8 content 1900)

module _ (lib : Outside) (cfg : Config) (answer : ℕ → Option Bytes) (start : Event) where
  -- What the handler owes its client: it accepts the run exactly if the stream of the run held only
  -- its output and exit events, one of them an exit, and no message failed.
  pub record IsGood (rest : List Decoded) (sent : List Message) : Type 0 where
    pub are_parts : All (IsPart lib start) rest
    pub exits : last_exit lib start none rest ≢ none
    pub all_sent : first_error answer (length sent) ≡ none

  finish_exit-verdict :
      (sent : List Message) (dropped : ℕ) (batch_err : Option Bytes) (exit : Event)
      → batch_err ≡ first_error answer (length sent)
      → (finish_exit lib cfg answer start sent dropped batch_err exit).response
        ≡ verdict start dropped (
            first_error answer
              (length (finish_exit lib cfg answer start sent dropped batch_err exit).sent))
  unfolding finish_exit
  finish_exit-verdict sent dropped batch_err exit h =
      let content = format_exit lib.show_duration start exit dropped batch_err in
      ap
        (λ e.
          verdict start dropped
            (first_failure e (send_long answer sent start.channel_id content).failure))
        h
      ∙ ap (verdict start dropped)
          (sym (send_long-first_error answer sent start.channel_id content))

  finish_stream-cases :
      (sent : List Message) (dropped : ℕ) (batch_err : Option Bytes) (stream : Stream)
      → let h = finish_stream lib cfg answer start sent dropped batch_err stream in
        ((stream.stream_err ≢ none)
          × (h.response.body.accepted ≡ false)
          × (h.response.status ≡ 400))
        ⊎ ((stream.exit_event ≡ none)
            × (h.response.body.accepted ≡ false)
            × (h.response.status ≡ 400))
        ⊎ ((stream.stream_err ≡ none)
            × ((exit : Event) × (stream.exit_event ≡ some exit)
                × (h ≡ finish_exit lib cfg answer start sent dropped batch_err exit)))
  unfolding finish_stream
  finish_stream-cases sent dropped batch_err stream = elim (Option-cases stream.stream_err) [
    | inr (err, e) ↦ inl ((λ n. absurd (cc)), rw e refl, rw e refl)
    | inl e ↦ inr (elim (Option-cases stream.exit_event) [
      | inl f ↦ inl (f, rw (e, f) refl, rw (e, f) refl)
      | inr (exit, f) ↦ inr (e, (exit, f, rw (e, f) refl))
    ])
  ]

  -- A response that accepts the run, or one that does not.
  abbrev pub Tells : List Decoded → Handled → Type 0
  Tells rest h =
      ((h.response.body.accepted ≡ true) × (h.response.status ≡ 200) × IsGood rest h.sent)
      ⊎ ((h.response.body.accepted ≡ false) × (400 ≤ h.response.status) × ¬ IsGood rest h.sent)

  good-Tells :
      (rest : List Decoded) (h : Handled) (dropped : ℕ)
      → All (IsPart lib start) rest
      → last_exit lib start none rest ≢ none
      → h.response ≡ verdict start dropped (first_error answer (length h.sent))
      → Tells rest h
  good-Tells rest h dropped parts exits e =
      elim (Option-cases (first_error answer (length h.sent))) [
        | inl n ↦
            let shown = e ∙ ap (verdict start dropped) n in
            inl (
              ap (λ r. r.body.accepted) shown,
              ap (λ r. r.status) shown,
              record { are_parts = parts; exits = exits; all_sent = n },
            )
        | inr (err, f) ↦
            let shown = e ∙ ap (verdict start dropped) f in
            inr (
              ap (λ r. r.body.accepted) shown,
              (let bad = ap (λ r. r.status) shown in omega arith),
              λ good. let all = good.all_sent in absurd (cc),
            )
      ]

  -- Behind the start message: what the stream held and what was sent decide the response.
  finish_stream-Tells :
      (sent : List Message) (dropped : ℕ) (batch_err : Option Bytes) (rest : List Decoded)
      → batch_err ≡ first_error answer (length sent)
      → Tells rest (
          finish_stream lib cfg answer start sent dropped batch_err
            (read_stream lib start none rest))
  finish_stream-Tells sent dropped batch_err rest kept =
      let stream = read_stream lib start none rest in
      let exit_read = λ (h : All (IsPart lib start) rest).
        ap (λ r. r.exit_event) (read_stream-parts lib start rest none h) in
      let ((parts, no_error), _) = read_stream_iff lib start rest in
      elim (finish_stream-cases sent dropped batch_err stream) [
        | inl (bad, refused_it, status) ↦
            inr (refused_it, omega arith, λ good. bad (no_error good.are_parts))
        | inr (inl (left, refused_it, status)) ↦
            inr
              (refused_it, omega arith, λ good. good.exits (sym (exit_read good.are_parts) ∙ left))
        | inr (inr (fine, (exit, ended, same))) ↦
            let all_parts = parts fine in
            subst (Tells rest) (sym same) (
              good-Tells rest (finish_exit lib cfg answer start sent dropped batch_err exit) dropped
                all_parts (λ n. let found = exit_read all_parts ∙ n in absurd (cc))
                (finish_exit-verdict sent dropped batch_err exit kept))
      ]

  relay_run-Tells :
      (schedule : ℕ → List Pulse) (rest : List Decoded) (sent : List Message)
      → first_error answer (length sent) ≡ none
      → Tells rest (relay_run lib cfg answer schedule start rest sent)
  unfolding relay_run
  relay_run-Tells schedule rest sent fine =
      let added = (read_stream lib start none rest).added in
      let later : ℕ → Option Bytes = λ n. answer (length sent + n) in
      let b = relay_output cfg later schedule start added in
      let kept : b.first_err ≡ first_error later (length b.sent) =
        rw (relay_output-run cfg later schedule start added)
          (run-first_error (settings cfg start) later _).0 in
      finish_stream-Tells (sent ++ b.sent) b.dropped b.first_err rest (
        kept
        ∙ sym (
            ap (first_error answer) (length-append sent b.sent)
            ∙ first_error-add answer (length sent) (length b.sent)
            ∙ ap (λ e. elim e [ some err ↦ some err | none ↦ first_error later (length b.sent) ])
                fine))

  pub start_run-Tells :
      (schedule : ℕ → List Pulse) (rest : List Decoded)
      → Tells rest (start_run lib cfg answer schedule start rest)
  unfolding start_run
  start_run-Tells schedule rest =
      let s : Sending = send_long answer [] start.channel_id (format_start start) in
      let kept = send_long-first_error answer [] start.channel_id (format_start start) in
      elim (Option-cases s.failure) [
        | inl e ↦ rw (e, start_run) (relay_run-Tells schedule rest s.sent (kept ∙ e))
        | inr (err, e) ↦
            rw (e, start_run)
              (inr (refl, omega arith, λ good. let all = good.all_sent in absurd (cc)))
      ]
