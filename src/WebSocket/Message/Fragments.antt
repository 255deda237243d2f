-- ===== src/WebSocket/Message/Fragments.antt =====
-- `readMessage` of internal/wsclient/wsclient.go joins the fragments of a message, and answers the
-- pings that stand between them.
use wrapping_bot.Base.{
  ℕ, zero, suc, ◌+◌, ◌≤◌, ◌<◌, Bool, true, false, List, [], ◌∷◌, ◌++◌, Option, some, none, ◌≡◌,
  refl, sym, ap, ◌∙◌, arith, if◌then◌else◌, length, length-append, map, append_assoc, append-nil,
}
use wrapping_bot.Base.Bytes.{Bytes}
use wrapping_bot.WebSocket.{
  op_continuation, op_text, op_ping, op_pong, max_message_size, Frame, got, read_frame,
}
use wrapping_bot.WebSocket.Message.{
  Progress, Outcome, complete, goes, stops, append_payload, answer_ping, take_frame, reply,
  Received, read_loop, read_message,
}
use wrapping_bot.WebSocket.Message.Bounds.{read_frame-got}

-- The stream `s` begins with these frames, and goes on with `rest`.
pub data Holds (rest : Bytes) : Bytes → List Frame → Type 0 where
  none_left : Holds rest rest []
  frame :
      {s t : Bytes} {f : Frame} {fs : List Frame}
      → read_frame s ≡ got f t
      → Holds rest t fs
      → Holds rest s (f ∷ fs)

abbrev pub frame_of : Bool → ℕ → Bytes → Frame
frame_of fin opcode payload = record { fin = fin; opcode = opcode; payload = payload }

abbrev pub next_opcode : Bool → ℕ
next_opcode started = if started then op_continuation else op_text

-- Frames that make up the rest of a message, with pings and pongs between them: the text that the
-- fragments hold, and the payloads of the pings.
pub data Fragments : Bool → List Frame → Bytes → List Bytes → Type 0 where
  last :
      {started : Bool} (text : Bytes)
      → Fragments started (frame_of true (next_opcode started) text ∷ []) text []
  part :
      {started : Bool} {fs : List Frame} {more : Bytes} {pings : List Bytes} (text : Bytes)
      → Fragments true fs more pings
      → Fragments started (frame_of false (next_opcode started) text ∷ fs) (text ++ more) pings
  ping :
      {started : Bool} {fs : List Frame} {more : Bytes} {pings : List Bytes} (payload : Bytes)
      → Fragments started fs more pings
      → Fragments started (frame_of true op_ping payload ∷ fs) more (payload ∷ pings)
  pong :
      {started : Bool} {fs : List Frame} {more : Bytes} {pings : List Bytes} (payload : Bytes)
      → Fragments started fs more pings
      → Fragments started (frame_of true op_pong payload ∷ fs) more pings

abbrev pub pongs : List Bytes → List (ℕ × Bytes)
pongs = map (λ payload. (op_pong, payload))

module _ (answer : ℕ → Option Bytes) (well : (n : ℕ) → answer n ≡ none) where
  take-data :
      (fin : Bool) (text : Bytes) (p : Progress)
      → take_frame answer (frame_of fin (next_opcode p.started) text) p
        ≡ append_payload (frame_of fin (next_opcode p.started) text) p
  unfolding take_frame
  take-data fin text p = ground arith

  take-ping :
      (payload : Bytes) (p : Progress)
      → take_frame answer (frame_of true op_ping payload) p ≡ goes (reply op_pong payload p)
  unfolding take_frame answer_ping
  take-ping payload p = ground (arith, well (length p.replies))

  take-pong :
      (payload : Bytes) (p : Progress)
      → take_frame answer (frame_of true op_pong payload) p ≡ goes p
  unfolding take_frame
  take-pong payload p = refl

  read_loop-goes :
      (fuel : ℕ) (p q : Progress) (s t : Bytes) (f : Frame)
      → read_frame s ≡ got f t
      → take_frame answer f p ≡ goes q
      → read_loop (suc fuel) answer p s ≡ read_loop fuel answer q t
  unfolding read_loop
  read_loop-goes fuel p q s t f e h = rw (read_loop, e, h) refl

  read_loop-stops :
      (fuel : ℕ) (p q : Progress) (s t : Bytes) (f : Frame) (o : Outcome)
      → read_frame s ≡ got f t
      → take_frame answer f p ≡ stops o q
      → read_loop (suc fuel) answer p s
        ≡ some (record { outcome = o; replies = q.replies; rest = t })
  unfolding read_loop
  read_loop-stops fuel p q s t f o e h = rw (read_loop, e, h) refl

  take-last :
      (text : Bytes) (p : Progress)
      → length p.message + length text ≤ max_message_size
      → take_frame answer (frame_of true (next_opcode p.started) text) p
        ≡ stops
            (complete (p.message ++ text))
            (record p { message = p.message ++ text; started = true })
  unfolding append_payload
  take-last text p room = take-data true text p ∙ ground (arith, length-append p.message text)

  take-part :
      (text : Bytes) (p : Progress)
      → length p.message + length text ≤ max_message_size
      → take_frame answer (frame_of false (next_opcode p.started) text) p
        ≡ goes (record p { message = p.message ++ text; started = true })
  unfolding append_payload
  take-part text p room = take-data false text p ∙ ground (arith, length-append p.message text)

  abbrev progress : Bytes → Bool → List (ℕ × Bytes) → Progress
  progress m started rs = record { message = m; started = started; replies = rs }

  abbrev received : Bytes → List (ℕ × Bytes) → Bytes → Option Received
  received m rs rest = some (record { outcome = complete m; replies = rs; rest = rest })

  read_loop-Fragments :
      (fuel : ℕ) (m : Bytes) (started : Bool) (rs : List (ℕ × Bytes)) (s rest : Bytes)
      (fs : List Frame) (text : Bytes) (pings : List Bytes)
      → length s < fuel
      → Holds rest s fs
      → Fragments started fs text pings
      → length m + length text ≤ max_message_size
      → read_loop fuel answer (progress m started rs) s
        ≡ received (m ++ text) (rs ++ pongs pings) rest
  read_loop-Fragments zero m started rs s rest fs text pings h held parts room =
      absurd (omega arith)
  read_loop-Fragments (suc fuel) m started rs s _ _ text pings h none_left parts room =
      elim parts [ ]
  read_loop-Fragments (suc fuel) m started rs s rest fs _ pings h (frame {t = t} e none_left)
        (Fragments.last text) room =
      read_loop-stops fuel (progress m started rs) _ s rest _ _ e
        (take-last text (progress m started rs) room)
      ∙ ap (λ r. received (m ++ text) r rest) (sym (append-nil rs))
  read_loop-Fragments (suc fuel) m started rs s rest fs _ pings h (frame {t = t} e held)
        (Fragments.part {fs = gs} {more = more} head parts) room =
      read_loop-goes fuel (progress m started rs) _ s t _ e
        (take-part head (progress m started rs) (omega (arith, length-append head more)))
      ∙ read_loop-Fragments fuel (m ++ head) true rs t rest gs more pings
          (omega (arith, read_frame-got s _ t e)) held parts
          (omega (arith, length-append head more, length-append m head))
      ∙ ap (λ x. received x (rs ++ pongs pings) rest) (append_assoc m head more)
  read_loop-Fragments (suc fuel) m started rs s rest fs text _ h (frame {t = t} e held)
        (Fragments.ping {fs = gs} {pings = more} payload parts) room =
      read_loop-goes fuel (progress m started rs) _ s t _ e
        (take-ping payload (progress m started rs))
      ∙ read_loop-Fragments fuel m started (rs ++ (op_pong, payload) ∷ []) t rest gs text more
          (omega (arith, read_frame-got s _ t e)) held parts room
      ∙ ap (λ x. received (m ++ text) x rest)
          (append_assoc rs ((op_pong, payload) ∷ []) (pongs more))
  read_loop-Fragments (suc fuel) m started rs s rest fs text pings h (frame {t = t} e held)
        (Fragments.pong {fs = gs} payload parts) room =
      read_loop-goes fuel (progress m started rs) _ s t _ e
        (take-pong payload (progress m started rs))
      ∙ read_loop-Fragments fuel m started rs t rest gs text pings
          (omega (arith, read_frame-got s _ t e)) held parts room

  -- Where every pong can be written: from a stream that begins with the fragments of a message of at
  -- most 16 MiB, with pings and pongs between them, `readMessage` returns the fragments joined. It has
  -- answered each ping by a pong with the same payload, in order, and written nothing else, and the
  -- stream goes on behind the last fragment.
  pub read_message-joins :
      (s rest : Bytes) (fs : List Frame) (text : Bytes) (pings : List Bytes)
      → Holds rest s fs
      → Fragments false fs text pings
      → length text ≤ max_message_size
      → read_message answer s
        ≡ some (record { outcome = complete text; replies = pongs pings; rest = rest })
  unfolding read_message
  read_message-joins s rest fs text pings held parts room =
      read_loop-Fragments (suc (length s)) [] false [] s rest fs text pings (omega arith) held parts
        (omega arith)
