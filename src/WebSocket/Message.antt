-- ===== src/WebSocket/Message.antt =====
-- `readMessage` of internal/wsclient/wsclient.go. `answer n` is what the n-th call of `writeFrame` in
-- it returns; the frames handed to `writeFrame` are kept in `replies`.
pub mod Bounds
pub mod Fragments
use wrapping_bot.Base.{
  ℕ, zero, suc, ◌+◌, Bool, true, false, not, List, [], ◌∷◌, ◌++◌, Option, some, none, ltb, ◌==◌,
  if◌then◌else◌, length,
}
use wrapping_bot.Base.Bytes.{Bytes, str}
use wrapping_bot.Base.Decimal.{decimal}
use wrapping_bot.WebSocket.{
  op_continuation, op_text, op_close, op_ping, op_pong, max_message_size, Frame, Read, got, failed,
  read_frame,
}

pub record Progress : Type 0 where
  pub message : Bytes
  pub started : Bool
  pub replies : List (ℕ × Bytes)

pub data Outcome : Type 0 where
  complete : Bytes → Outcome
  broken : Bytes → Outcome

-- What a frame leads to: the loop goes on, or it returns.
pub data Turn : Type 0 where
  goes : Progress → Turn
  stops : Outcome → Progress → Turn

abbrev pub reply : ℕ → Bytes → Progress → Progress
reply opcode payload p = record p { replies = p.replies ++ ((opcode, payload) ∷ []) }

-- Behind the `switch`.
unfoldable pub append_payload : Frame → Progress → Turn
append_payload f p =
    let q : Progress = record p { message = p.message ++ f.payload; started = true } in
    if ltb max_message_size (length q.message)
    then stops (broken (str "WebSocket message exceeds size limit")) q
    else if f.fin
    then stops (complete q.message) q
    else goes q

unfoldable pub answer_ping : (ℕ → Option Bytes) → Bytes → Progress → Turn
answer_ping answer payload p = elim (answer (length p.replies)) [
  | some err ↦ stops (broken err) (reply op_pong payload p)
  | none ↦ goes (reply op_pong payload p)
]

unfoldable pub take_frame : (ℕ → Option Bytes) → Frame → Progress → Turn
unfolding append_payload answer_ping
take_frame answer f p =
    if f.opcode == op_ping
    then answer_ping answer f.payload p
    else if f.opcode == op_pong
    then goes p
    else if f.opcode == op_close
    then stops (broken (str "EOF")) (reply op_close f.payload p)
    else if f.opcode == op_text
    then (if p.started
        then stops (broken (str "unexpected new WebSocket data frame")) p
        else append_payload f p)
    else if f.opcode == op_continuation
    then (if p.started
        then append_payload f p
        else stops (broken (str "unexpected WebSocket continuation frame")) p)
    else stops (broken (str "unsupported WebSocket opcode " ++ decimal f.opcode)) p

-- What `readMessage` returns, the frames that it wrote, and the stream that is left; behind a read that
-- failed nothing is kept of it.
pub record Received : Type 0 where
  pub outcome : Outcome
  pub replies : List (ℕ × Bytes)
  pub rest : Bytes

-- The loop; `none` is that the fuel ran out.
unfoldable pub read_loop : ℕ → (ℕ → Option Bytes) → Progress → Bytes → Option Received
unfolding take_frame
read_loop zero answer p s = none
read_loop (suc fuel) answer p s = elim (read_frame s) [
  | failed err ↦ some (record { outcome = broken err; replies = p.replies; rest = [] })
  | got f rest ↦ elim (take_frame answer f p) [
    | goes q ↦ read_loop fuel answer q rest
    | stops outcome q ↦ some (record { outcome = outcome; replies = q.replies; rest = rest })
  ]
]

abbrev pub fresh : Progress
fresh = record { message = []; started = false; replies = [] }

unfoldable pub read_message : (ℕ → Option Bytes) → Bytes → Option Received
unfolding read_loop
read_message answer s = read_loop (suc (length s)) answer fresh s
