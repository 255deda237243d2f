-- ===== src/Daemon/Batcher/Invariant.antt =====
-- An invariant of what a batcher has sent, of its first error and of its stream holds along every
-- run, if a call of `sendOutput` keeps it and so does the change to another stream.
use wrapping_bot.Base.{
  ℕ, not, ◌&&◌, List, [], ◌∷◌, ◌++◌, Option, if◌then◌else◌, if_both, length, ltb, leb,
}
use wrapping_bot.Base.Bytes.{Bytes, is_empty, bytes_eq}
use wrapping_bot.Protocol.{stream_system}
use wrapping_bot.Text.Ansi.{strip_ansi}
use wrapping_bot.Daemon.Batcher.{
  OutputRecord, Message, Settings, Batcher, Action, adds, closes, delivers, ticks, normalize_stream,
  overflow_notice, add, deliver, receive, finish, flush, send_output, step, run,
}

abbrev pub Holds : (Option Bytes → List Message → Bytes → Type 0) → Batcher → Type 0
Holds P b = P b.first_err b.sent b.current_stream

module _ (cfg : Settings) (answer : ℕ → Option Bytes)
    (P : Option Bytes → List Message → Bytes → Type 0)
    (outputs : (b : Batcher)
      → Holds P b
      → Holds P (send_output cfg answer b b.current_stream b.buffer))
    (renames : (b : Batcher) (stream : Bytes)
      → Holds P b
      → P b.first_err b.sent (normalize_stream stream)) where
  abbrev Inv : Batcher → Type 0
  Inv = Holds P

  flush-Inv : (b : Batcher) → Inv b → Inv (flush cfg answer b)
  unfolding flush
  flush-Inv b h = if_both Inv (is_empty b.buffer) h (outputs b h)

  receive-Inv : (b : Batcher) (r : OutputRecord) → Inv b → Inv (receive cfg answer b r)
  unfolding receive
  receive-Inv b r h =
      let stream = normalize_stream r.stream in
      let turned = not (is_empty b.current_stream) && not (bytes_eq stream b.current_stream) in
      let c : Batcher = if turned then flush cfg answer b else b in
      let h1 : Inv c = if_both Inv turned (flush-Inv b h) h in
      let more : Bytes = if cfg.strip then strip_ansi r.text else r.text in
      let b2 : Batcher = record c { current_stream = stream; buffer = c.buffer ++ more } in
      let h2 : Inv b2 = renames c r.stream h1 in
      if_both Inv (leb cfg.max_log_bytes (length b2.buffer)) {x = flush cfg answer b2} {y = b2}
        (flush-Inv b2 h2) h2

  finish-Inv : (b : Batcher) → Inv b → Inv (finish cfg answer b)
  unfolding finish normalize_stream bytes_eq
  finish-Inv b h =
      let f : Batcher = flush cfg answer b in
      let b1 : Batcher = record f {
        current_stream = stream_system;
        buffer = f.buffer ++ overflow_notice b.dropped;
      } in
      let h1 : Inv b1 = renames f stream_system (flush-Inv b h) in
      let b2 : Batcher = if ltb 0 b.dropped then b1 else b in
      let h2 : Inv b2 = if_both Inv (ltb 0 b.dropped) h1 h in flush-Inv b2 h2

  deliver-Inv :
      (b : Batcher) (events : List OutputRecord) → Inv b → Inv (deliver cfg answer b events)
  unfolding deliver
  deliver-Inv b [] h = if_both Inv b.closed (finish-Inv b h) h
  deliver-Inv b (r ∷ rest) h = receive-Inv (record b { events = rest }) r h

  step-Inv : (b : Batcher) (a : Action) → Inv b → Inv (step cfg answer b a)
  unfolding step add
  step-Inv b (adds stream text) h =
      if_both Inv b.closed h
        (if_both Inv (is_empty text) h (if_both Inv (ltb (length b.events) cfg.queue_size) h h))
  step-Inv b closes h = h
  step-Inv b delivers h = if_both Inv b.done h (deliver-Inv b b.events h)
  step-Inv b ticks h = if_both Inv b.done h (flush-Inv b h)

  pub run-Holds : (b : Batcher) (acts : List Action) → Holds P b → Holds P (run cfg answer b acts)
  unfolding run
  run-Holds b [] h = h
  run-Holds b (a ∷ rest) h = run-Holds (step cfg answer b a) rest (step-Inv b a h)
