-- ===== src/Daemon/Server/Parts.antt =====
-- The elements that the loop over the stream of internal/daemon/server.go takes.
use wrapping_bot.Base.{
  true, false, List, [], ◌∷◌, Option, some, none, ◌≡◌, ◌⊎◌, inl, inr, refl, ap, ◌∙◌, arith,
  if◌then◌else◌, All,
}
use wrapping_bot.Base.Bytes.{Bytes, bytes_eq, bytes_eq_iff}
use wrapping_bot.Base.Int.{int_eq, int_eq_iff}
use wrapping_bot.Daemon.Server.{
  Outside, Decoded, decoded, invalid, read_stream, truncate_payload, adding,
}
use wrapping_bot.Protocol
use wrapping_bot.Protocol.{Event, event_output, event_exit}

-- The stream behind the start event: what each element must be, and what the handler makes of it.
module _ (lib : Outside) (start : Event) where
  abbrev pub IsPart : Decoded → Type 0
  IsPart (decoded e) =
      (e.version ≡ Protocol.version)
      × (e.run_id ≡ start.run_id)
      × ((e.type ≡ event_output) ⊎ (e.type ≡ event_exit))
  IsPart (invalid err) = ⊥

  -- The outputs of a stream, each cut at its limit, and its last exit event.
  abbrev pub outputs : List Decoded → List (Bytes × Bytes)
  outputs [] = []
  outputs (invalid err ∷ rest) = outputs rest
  outputs (decoded e ∷ rest) =
      if bytes_eq e.type event_output
      then (e.stream, truncate_payload e.payload) ∷ outputs rest
      else outputs rest

  abbrev pub last_exit : Option Event → List Decoded → Option Event
  last_exit exit [] = exit
  last_exit exit (invalid err ∷ rest) = last_exit exit rest
  last_exit exit (decoded e ∷ rest) =
      last_exit (if bytes_eq e.type event_exit then some e else exit) rest

  pub output_tag :
      (bytes_eq event_output event_output ≡ true) × (bytes_eq event_output event_exit ≡ false)
  unfolding bytes_eq
  output_tag = (refl, refl)

  pub exit_tag :
      (bytes_eq event_exit event_exit ≡ true) × (bytes_eq event_exit event_output ≡ false)
  unfolding bytes_eq
  exit_tag = (refl, refl)

  pub read-output :
      (e : Event) (rest : List Decoded) (exit : Option Event)
      → int_eq e.version Protocol.version ≡ true
      → bytes_eq e.run_id start.run_id ≡ true
      → bytes_eq e.type event_output ≡ true
      → read_stream lib start exit (decoded e ∷ rest)
        ≡ adding e.stream (truncate_payload e.payload) (read_stream lib start exit rest)
  unfolding read_stream
  read-output e rest exit v r t = ground arith

  pub read-exit :
      (e : Event) (rest : List Decoded) (exit : Option Event)
      → int_eq e.version Protocol.version ≡ true
      → bytes_eq e.run_id start.run_id ≡ true
      → bytes_eq e.type event_output ≡ false
      → bytes_eq e.type event_exit ≡ true
      → read_stream lib start exit (decoded e ∷ rest) ≡ read_stream lib start (some e) rest
  unfolding read_stream
  read-exit e rest exit v r t u = ground arith

  read-inversion :
      (e : Event) (rest : List Decoded) (exit : Option Event)
      → (read_stream lib start exit (decoded e ∷ rest)).stream_err ≡ none
      → (int_eq e.version Protocol.version ≡ true)
        × (bytes_eq e.run_id start.run_id ≡ true)
        × ((bytes_eq e.type event_output ≡ true)
              × ((read_stream lib start exit rest).stream_err ≡ none)
            ⊎ (bytes_eq e.type event_exit ≡ true)
              × ((read_stream lib start (some e) rest).stream_err ≡ none))
  unfolding read_stream
  read-inversion e rest exit h = ground arith

  -- Of output and exit events of this version and run all outputs are added, in order and each cut
  -- at 64 KiB with a note, and the last exit event counts, or the one before them if there is none.
  pub read_stream-parts :
      (rest : List Decoded) (exit : Option Event)
      → All IsPart rest
      → read_stream lib start exit rest
        ≡ record { added = outputs rest; exit_event = last_exit exit rest; stream_err = none }
  read_stream-parts [] exit h = unfold read_stream in refl
  read_stream-parts (invalid err ∷ rest) exit (bad, h) = absurd bad
  read_stream-parts (decoded e ∷ rest) exit ((v, r, inl t), h) = ground (
    arith,
    read-output e rest exit ((int_eq_iff e.version Protocol.version).1 v)
        ((bytes_eq_iff e.run_id start.run_id).1 r) ((bytes_eq_iff e.type event_output).1 t),
    ap (λ y. bytes_eq y event_exit) t ∙ output_tag.1,
    ap (λ y. bytes_eq y event_output) t ∙ output_tag.0,
    read_stream-parts rest exit h,
  )
  read_stream-parts (decoded e ∷ rest) exit ((v, r, inr t), h) = ground (
    arith,
    read-exit e rest exit ((int_eq_iff e.version Protocol.version).1 v)
        ((bytes_eq_iff e.run_id start.run_id).1 r)
        (ap (λ y. bytes_eq y event_output) t ∙ exit_tag.1) ((bytes_eq_iff e.type event_exit).1 t),
    ap (λ y. bytes_eq y event_exit) t ∙ exit_tag.0,
    ap (λ y. bytes_eq y event_output) t ∙ exit_tag.1,
    read_stream-parts rest (some e) h,
  )

  -- Any other element ends the reading with an error.
  pub parts-read_stream :
      (rest : List Decoded) (exit : Option Event)
      → (read_stream lib start exit rest).stream_err ≡ none
      → All IsPart rest
  parts-read_stream [] exit h = tt
  parts-read_stream (invalid err ∷ rest) exit h = unfold read_stream in absurd (cc)
  parts-read_stream (decoded e ∷ rest) exit h =
      let (v, r, more) = read-inversion e rest exit h in
      elim more [
        | inl (t, later) ↦ (
          (
            (int_eq_iff e.version Protocol.version).0 v,
            (bytes_eq_iff e.run_id start.run_id).0 r,
            inl ((bytes_eq_iff e.type event_output).0 t),
          ),
          parts-read_stream rest exit later,
        )
        | inr (t, later) ↦ (
          (
            (int_eq_iff e.version Protocol.version).0 v,
            (bytes_eq_iff e.run_id start.run_id).0 r,
            inr ((bytes_eq_iff e.type event_exit).0 t),
          ),
          parts-read_stream rest (some e) later,
        )
      ]
