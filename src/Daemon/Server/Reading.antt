-- ===== src/Daemon/Server/Reading.antt =====
-- What the handler of internal/daemon/server.go makes of the stream behind the start event.
use wrapping_bot.Base.{
  ◌↔◌, ◌≢◌, ◌≤◌, ◌<◌, ◌++◌, ◌&&◌, ◌||◌, not, sym, length, take, ltb, Bool-cases, true, false, List,
  [], ◌∷◌, Option, some, none, ◌≡◌, ◌⊎◌, inl, inr, refl, ap, ◌∙◌, arith, if◌then◌else◌, All,
}
use wrapping_bot.Base.Bytes.{Bytes, str, bytes_eq, bytes_eq_iff}
use wrapping_bot.Base.Int.{int_eq, int_eq_iff}
use wrapping_bot.Daemon.Server.{
  Outside, Decoded, decoded, invalid, read_stream, truncate_payload, adding, Stream,
}
use wrapping_bot.Protocol
use wrapping_bot.Protocol.{Event, event_output, event_exit}
use wrapping_bot.Daemon.Server.Parts.{
  IsPart, last_exit, output_tag, exit_tag, read-output, read-exit, read_stream-parts,
  parts-read_stream,
}

module _ (lib : Outside) (start : Event) where
  -- An output of up to 64 KiB is handed on whole, and of a longer one the first 64 KiB and a note.
  pub data IsCut : Bytes → Bytes → Type 0 where
    whole : (text : Bytes) → length text ≤ 65536 → IsCut text text
    cut :
        (text : Bytes)
        → 65536 < length text
        → IsCut text (take 65536 text ++ str "\n[output event truncated by daemon]\n")

  -- The outputs of a stream, in their order, as they are handed on.
  pub data Adds : List Decoded → List (Bytes × Bytes) → Type 0 where
    no_more : Adds [] []
    adds_output :
        {rest : List Decoded} {added : List (Bytes × Bytes)}
        → (e : Event) (text : Bytes) → e.type ≡ event_output
        → IsCut e.payload text
        → Adds rest added
        → Adds (decoded e ∷ rest) ((e.stream, text) ∷ added)
    adds_nothing :
        {rest : List Decoded} {added : List (Bytes × Bytes)}
        → (e : Event) → e.type ≡ event_exit
        → Adds rest added
        → Adds (decoded e ∷ rest) added

  abbrev pub Stops : List Decoded → Type 0
  Stops [] = ⊥
  Stops (d ∷ rest) = ¬ IsPart lib start d

  -- What is read of a stream: all up to its end, or up to the first element that is no part of the run.
  pub record Reads (before : Option Event) (rest : List Decoded) (s : Stream) : Type 0 where
    pub parts : List Decoded
    pub tail : List Decoded
    pub split : rest ≡ parts ++ tail
    pub are_parts : All (IsPart lib start) parts
    pub adds : Adds parts s.added
    pub exit_is : s.exit_event ≡ last_exit lib start before parts
    pub ends : (tail ≡ []) × (s.stream_err ≡ none) ⊎ Stops tail × (s.stream_err ≢ none)

  truncate_payload-IsCut : (text : Bytes) → IsCut text (truncate_payload text)
  unfolding truncate_payload
  truncate_payload-IsCut text = elim (Bool-cases (ltb 65536 (length text))) [
    | inl long ↦ rw long (IsCut.cut text (ground arith))
    | inr short ↦ rw short (IsCut.whole text (ground arith))
  ]

  stops-Reads :
      (before : Option Event) (d : Decoded) (rest : List Decoded) (err : Bytes)
      → ¬ IsPart lib start d
      → Reads before (d ∷ rest) (record { added = []; exit_event = before; stream_err = some err })
  stops-Reads before d rest err bad = record {
    parts = [];
    tail = d ∷ rest;
    split = refl;
    are_parts = tt;
    adds = Adds.no_more;
    exit_is = refl;
    ends = inr (bad, λ e. absurd (cc));
  }

  output-Reads :
      (before : Option Event) (e : Event) (rest : List Decoded) (s : Stream)
      → IsPart lib start (decoded e)
      → e.type ≡ event_output
      → Reads before rest s
      → Reads before (decoded e ∷ rest) (adding e.stream (truncate_payload e.payload) s)
  output-Reads before e rest s part t h = record {
    parts = decoded e ∷ h.parts;
    tail = h.tail;
    split = ap (λ r. decoded e ∷ r) h.split;
    are_parts = (part, h.are_parts);
    adds =
        Adds.adds_output e (truncate_payload e.payload) t (truncate_payload-IsCut e.payload) h.adds;
    exit_is =
        h.exit_is
        ∙ ap (λ b. last_exit lib start (if b then some e else before) h.parts)
            (sym (ap (λ y. bytes_eq y event_exit) t ∙ (output_tag lib start).1));
    ends = h.ends;
  }

  exit-Reads :
      (before : Option Event) (e : Event) (rest : List Decoded) (s : Stream)
      → IsPart lib start (decoded e)
      → e.type ≡ event_exit
      → Reads (some e) rest s
      → Reads before (decoded e ∷ rest) s
  exit-Reads before e rest s part t h = record {
    parts = decoded e ∷ h.parts;
    tail = h.tail;
    split = ap (λ r. decoded e ∷ r) h.split;
    are_parts = (part, h.are_parts);
    adds = Adds.adds_nothing e t h.adds;
    exit_is =
        h.exit_is
        ∙ ap (λ b. last_exit lib start (if b then some e else before) h.parts)
            (sym (ap (λ y. bytes_eq y event_exit) t ∙ (exit_tag lib start).0));
    ends = h.ends;
  }

  -- An event that does not pass the tests ends the loop.
  read-stops :
      (e : Event) (rest : List Decoded) (before : Option Event)
      → (int_eq e.version Protocol.version
          && bytes_eq e.run_id start.run_id
          && (bytes_eq e.type event_output || bytes_eq e.type event_exit))
        ≡ false
      → (err : Bytes) × (read_stream lib start before (decoded e ∷ rest)
          ≡ record { added = []; exit_event = before; stream_err = some err })
  unfolding read_stream
  read-stops e rest before h =
      elim (Bool-cases
        (not (int_eq e.version Protocol.version) || not (bytes_eq e.run_id start.run_id))) [
          | inl other ↦ rw other (_, refl)
          | inr same ↦
              let t : bytes_eq e.type event_output ≡ false = ground arith in
              let u : bytes_eq e.type event_exit ≡ false = ground arith in rw (same, t, u) (_, refl)
        ]

  pub read_stream-Reads :
      (rest : List Decoded) (before : Option Event)
      → Reads before rest (read_stream lib start before rest)
  read_stream-Reads [] before =
      unfold read_stream in
      record {
        parts = [];
        tail = [];
        split = refl;
        are_parts = tt;
        adds = Adds.no_more;
        exit_is = refl;
        ends = inl (refl, refl);
      }
  read_stream-Reads (invalid err ∷ rest) before =
      unfold read_stream in stops-Reads before (invalid err) rest err (λ bad. bad)
  read_stream-Reads (decoded e ∷ rest) before =
      let ok_version = int_eq e.version Protocol.version in
      let ok_run = bytes_eq e.run_id start.run_id in
      let is_output = bytes_eq e.type event_output in
      let is_exit = bytes_eq e.type event_exit in
      elim (Bool-cases (ok_version && ok_run && (is_output || is_exit))) [
        | inr bad ↦
            let (err, same) = read-stops e rest before bad in
            rw same (stops-Reads before (decoded e) rest err (refuses e bad))
        | inl good ↦
            let v : int_eq e.version Protocol.version ≡ true = ground arith in
            let r : bytes_eq e.run_id start.run_id ≡ true = ground arith in
            let v' = (int_eq_iff e.version Protocol.version).0 v in
            let r' = (bytes_eq_iff e.run_id start.run_id).0 r in
            elim (Bool-cases (bytes_eq e.type event_output)) [
              | inl t ↦
                  let t' = (bytes_eq_iff e.type event_output).0 t in
                  rw (read-output lib start e rest before v r t) (
                    output-Reads before e rest (read_stream lib start before rest) (v', r', inl t')
                      t' (read_stream-Reads rest before))
              | inr t ↦
                  let u : bytes_eq e.type event_exit ≡ true = ground arith in
                  let u' = (bytes_eq_iff e.type event_exit).0 u in
                  rw (read-exit lib start e rest before v r t u) (
                    exit-Reads before e rest (read_stream lib start (some e) rest) (v', r', inr u')
                      u' (read_stream-Reads rest (some e)))
            ]
      ]
    where
      refuses :
          (e : Event)
          → (int_eq e.version Protocol.version
              && bytes_eq e.run_id start.run_id
              && (bytes_eq e.type event_output || bytes_eq e.type event_exit))
            ≡ false
          → ¬ IsPart lib start (decoded e)
      refuses e bad (v, r, inl t) =
          let v' = (int_eq_iff e.version Protocol.version).1 v in
          let r' = (bytes_eq_iff e.run_id start.run_id).1 r in
          let t' = (bytes_eq_iff e.type event_output).1 t in absurd (ground arith)
      refuses e bad (v, r, inr t) =
          let v' = (int_eq_iff e.version Protocol.version).1 v in
          let r' = (bytes_eq_iff e.run_id start.run_id).1 r in
          let t' = (bytes_eq_iff e.type event_exit).1 t in absurd (ground arith)

  -- The stream is read to its end without an error exactly if each element is an output or an exit
  -- event of this version and run. In any case what is read are the elements up to the first that is
  -- none, or all: their outputs are handed on in order, each with its stream, whole up to 64 KiB and
  -- else its first 64 KiB and a note; and the last exit event among them is kept.
  pub read_stream_iff :
      (rest : List Decoded)
      → ((read_stream lib start none rest).stream_err ≡ none ↔ All (IsPart lib start) rest)
        × Reads none rest (read_stream lib start none rest)
  read_stream_iff rest = (
    (
      parts-read_stream lib start rest none,
      λ h. ap (λ s. s.stream_err) (read_stream-parts lib start rest none h),
    ),
    read_stream-Reads rest none,
  )
