-- ===== src/Daemon/Server/Outcome.antt =====
-- What a client is told by the handler of internal/daemon/server.go, against what happened.
use wrapping_bot.Base.{
  ℕ, ◌↔◌, ◌≤◌, arith, subst, true, false, List, [], Option, ◌≡◌, refl, sym, inl, inr,
}
use wrapping_bot.Base.Bytes.{Bytes}
use wrapping_bot.Daemon.Batcher.{Message}
use wrapping_bot.Daemon.Server.{
  Outside, Config, Request, Response, Decoded, Admission, refused, admitted, admit,
}
use wrapping_bot.Daemon.Server.Accepts.{IsAdmitted, admit-Admits, Admits, admit_iff}
use wrapping_bot.Daemon.Server.Handle.{Pulse, Handled, start_run, handle_stream}
use wrapping_bot.Protocol.{Event}
use wrapping_bot.Daemon.Server.Verdict.{IsGood, Tells, start_run-Tells}

-- A run was let in, and all of it went well.
pub record IsRelayed (lib : Outside) (cfg : Config) (answer : ℕ → Option Bytes) (in_use : ℕ)
    (request : Request) (sent : List Message) : Type 0 where
  pub start : Event
  pub rest : List Decoded
  pub is_admitted : IsAdmitted lib cfg in_use request start rest
  pub is_good : IsGood lib cfg answer start rest sent

module _ (lib : Outside) (cfg : Config) (answer : ℕ → Option Bytes) (in_use : ℕ)
    (schedule : ℕ → List Pulse) (request : Request) where
  handle_stream-admitted :
      (start : Event) (rest : List Decoded)
      → admit lib cfg in_use request ≡ admitted start rest
      → handle_stream lib cfg answer in_use schedule request
        ≡ start_run lib cfg answer schedule start rest
  unfolding handle_stream
  handle_stream-admitted start rest e = rw (e, handle_stream) refl

  handle_stream-refused :
      (response : Response)
      → admit lib cfg in_use request ≡ refused response
      → handle_stream lib cfg answer in_use schedule request
        ≡ record { response = response; sent = [] }
  unfolding handle_stream
  handle_stream-refused response e = rw (e, handle_stream) refl

  abbrev pub Answers : Handled → Type 0
  Answers h =
      (h.response.body.accepted ≡ true ↔ IsRelayed lib cfg answer in_use request h.sent)
      × (h.response.status ≡ 200 ↔ h.response.body.accepted ≡ true)
      × (h.response.body.accepted ≡ false → 400 ≤ h.response.status)

  same-IsGood :
      (start : Event) (rest : List Decoded) (sent : List Message)
      → admit lib cfg in_use request ≡ admitted start rest
      → IsRelayed lib cfg answer in_use request sent
      → IsGood lib cfg answer start rest sent
  same-IsGood start rest sent e h =
      let f = (admit_iff lib cfg in_use request h.start h.rest).0.1 h.is_admitted in
      let same_start : h.start ≡ start = cc in
      let same_rest : h.rest ≡ rest = cc in
      subst (λ s. IsGood lib cfg answer s rest sent) same_start
        (subst (λ r. IsGood lib cfg answer h.start r sent) same_rest h.is_good)

  told-Answers :
      (start : Event) (rest : List Decoded) (h : Handled)
      → admit lib cfg in_use request ≡ admitted start rest
      → Tells lib cfg answer start rest h
      → Answers h
  told-Answers start rest h e (inl (accepted, status, good)) = (
    (
      λ _. record {
        start = start;
        rest = rest;
        is_admitted = (admit_iff lib cfg in_use request start rest).0.0 e;
        is_good = good;
      },
      λ _. accepted,
    ),
    (λ _. accepted, λ _. status),
    λ denied. absurd (cc),
  )
  told-Answers start rest h e (inr (denied, status, bad)) = (
    (λ yes_it. absurd (cc), λ relayed. absurd (bad (same-IsGood start rest h.sent e relayed))),
    (λ ok. absurd (omega arith), λ yes_it. absurd (cc)),
    λ _. status,
  )

  refused-Answers :
      (response : Response)
      → admit lib cfg in_use request ≡ refused response
      → (response.body.accepted ≡ false) × (400 ≤ response.status)
      → Answers (record { response = response; sent = [] })
  refused-Answers response e (denied, status) = (
    (
      λ yes_it. absurd (cc),
      λ h.
          let f = (admit_iff lib cfg in_use request h.start h.rest).0.1 h.is_admitted in
          absurd (cc),
    ),
    (λ ok. absurd (omega arith), λ yes_it. absurd (cc)),
    λ _. status,
  )

  -- Whatever the batcher's goroutine does in between: the response accepts the run exactly if the
  -- run was let in, its stream held only output and exit events of the run, with an exit event, and
  -- none of the messages sent for it failed. The status is 200 exactly if the run is accepted, and
  -- 400 or more if it is not.
  pub handle_stream_iff :
      let h = handle_stream lib cfg answer in_use schedule request in
      (h.response.body.accepted ≡ true ↔ IsRelayed lib cfg answer in_use request h.sent)
      × (h.response.status ≡ 200 ↔ h.response.body.accepted ≡ true)
      × (h.response.body.accepted ≡ false → 400 ≤ h.response.status)
  handle_stream_iff = answers (admit lib cfg in_use request) refl
    where
      answers :
          (a : Admission)
          → admit lib cfg in_use request ≡ a
          → Answers (handle_stream lib cfg answer in_use schedule request)
      answers (refused response) e = subst Answers (sym (handle_stream-refused response e)) (
          refused-Answers response e
            (subst (Admits lib cfg in_use request) e (admit-Admits lib cfg in_use request)))
      answers (admitted start rest) e = subst Answers (sym (handle_stream-admitted start rest e)) (
          told-Answers start rest (start_run lib cfg answer schedule start rest) e
            (start_run-Tells lib cfg answer start schedule rest))
