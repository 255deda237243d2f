-- ===== src/WebSocket/Json.antt =====
-- `ReadJSON`, `WriteJSON` and `Close` of internal/wsclient/wsclient.go, and what their peers read.
-- `marshal` and `unmarshal` stand for `encoding/json`.
use wrapping_bot.Base.{
  ℕ, ◌≤◌, true, [], ◌∷◌, ◌++◌, Option, some, none, ◌≡◌, refl, arith, length, All,
}
use wrapping_bot.Base.Bytes.{Bytes}
use wrapping_bot.Base.Int.{ℤ, itoa}
use wrapping_bot.Base.Result.{Result, ok, error}
use wrapping_bot.WebSocket.{op_text, op_close, max_message_size, Mask, got, read_frame}
use wrapping_bot.WebSocket.Message.{Outcome, complete, broken, read_message}
use wrapping_bot.WebSocket.Message.Fragments.{Holds, Fragments, frame_of, read_message-joins}
use wrapping_bot.WebSocket.RoundTrip.{read_frame-write_frame}
use wrapping_bot.WebSocket.Words.{IsByte, put_uint16, big_endian}
use wrapping_bot.WebSocket.Write.{Written, written, rejected, write_frame, parse_close_code}

module _ {ℓ} {A : Type ℓ} where
  abbrev pub decode_outcome : (Bytes → Result A) → Outcome → Result A
  decode_outcome unmarshal (complete payload) = unmarshal payload
  decode_outcome unmarshal (broken text) = error text

  unfoldable pub read_json : (Bytes → Result A) → (ℕ → Option Bytes) → Bytes → Option (Result A)
  unfolding read_message
  read_json unmarshal answer s = elim (read_message answer s) [
    | none ↦ none
    | some r ↦ some (decode_outcome unmarshal r.outcome)
  ]

  unfoldable pub write_json : (A → Result Bytes) → Mask → A → Written
  unfolding write_frame
  write_json marshal mask value = elim (marshal value) [
    | error text ↦ rejected text
    | ok payload ↦ write_frame mask op_text payload
  ]

-- What `Close` writes before it closes the connection.
unfoldable pub close : Mask → Written
unfolding write_frame put_uint16
close mask = write_frame mask op_close (put_uint16 1000)

-- `HeaderValueLength`
unfoldable pub header_value_length : ℤ → Bytes
unfolding itoa
header_value_length n = itoa n

close-payload : All IsByte (put_uint16 1000)
unfolding put_uint16
close-payload = (omega arith, (omega arith, tt))

-- The frame that `Close` writes is read as a last one of opcode 8, whatever the mask, and its close code
-- is 1000.
pub read_frame-close :
    (mask : Mask) (rest : Bytes)
    → (bytes : Bytes) × (payload : Bytes) × (close mask ≡ written bytes)
      × (read_frame (bytes ++ rest)
          ≡ got (record { fin = true; opcode = op_close; payload = payload }) rest)
      × (parse_close_code payload ≡ 1000)
unfolding close
read_frame-close mask rest =
    let (bytes, writes, reads) =
      read_frame-write_frame mask op_close (put_uint16 1000) rest (omega arith) close-payload
        (omega arith, λ control. (refl, omega arith)) in
    (bytes, put_uint16 1000, writes, reads, unfold parse_close_code put_uint16 big_endian in refl)

module _ {ℓ} {A : Type ℓ} (marshal : A → Result Bytes) (unmarshal : Bytes → Result A) where
  read_json-complete :
      (answer : ℕ → Option Bytes) (s rest text : Bytes) (value : A)
      → unmarshal text ≡ ok value
      → read_message answer s ≡ some (record { outcome = complete text; replies = []; rest = rest })
      → read_json unmarshal answer s ≡ some (ok value)
  unfolding read_json
  read_json-complete answer s rest text value decodes reads = rw (read_json, reads, decodes) refl

  -- A value that `WriteJSON` writes is read by `ReadJSON` of the other side as the same, if JSON text of
  -- it decodes to it, has at most 16 MiB, and pongs can be written.
  pub read_json-write_json :
      (answer : ℕ → Option Bytes) (mask : Mask) (value : A) (text rest : Bytes)
      → ((n : ℕ) → answer n ≡ none)
      → marshal value ≡ ok text
      → unmarshal text ≡ ok value
      → All IsByte text
      → length text ≤ max_message_size
      → (bytes : Bytes) × (write_json marshal mask value ≡ written bytes)
        × (read_json unmarshal answer (bytes ++ rest) ≡ some (ok value))
  unfolding write_json
  read_json-write_json answer mask value text rest well encodes decodes all fits =
      let (bytes, writes, reads) =
        read_frame-write_frame mask op_text text rest (omega arith) all
          (fits, λ control. absurd (omega arith)) in
      (
        bytes,
        rw (write_json, encodes) writes,
        read_json-complete answer (bytes ++ rest) rest text value decodes (
            read_message-joins answer well (bytes ++ rest) rest (frame_of true op_text text ∷ [])
              text [] (Holds.frame reads Holds.none_left) (Fragments.last text) fits),
      )
