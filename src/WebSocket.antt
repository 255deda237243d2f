-- ===== src/WebSocket.antt =====
-- The frames of internal/wsclient/wsclient.go. The stream of the reader is a list of bytes that ends
-- where the connection does; the four bytes of a mask, which the code takes from `crypto/rand`, are
-- an argument.
pub mod Words
pub mod Write
pub mod Lengths
pub mod RoundTrip
pub mod Frames
pub mod Message
pub mod Handshake
pub mod Json
use wrapping_bot.Base.{
  ℕ, zero, suc, ◌+◌, ◌*◌, ◌%◌, bit_and, bit_or, Bool, true, false, not, ◌&&◌, ◌||◌, List, [], ◌∷◌,
  ◌++◌, Option, some, none, ltb, leb, ◌==◌, if◌then◌else◌, take, drop, length,
}
use wrapping_bot.Base.Bytes.{Bytes, str, is_empty}
use wrapping_bot.Text.Split.{byte_at}
use wrapping_bot.WebSocket.Words.{byte_xor, put_uint16, put_uint64, big_endian}

abbrev pub op_continuation : ℕ
op_continuation = 0x0

abbrev pub op_text : ℕ
op_text = 0x1

abbrev pub op_close : ℕ
op_close = 0x8

abbrev pub op_ping : ℕ
op_ping = 0x9

abbrev pub op_pong : ℕ
op_pong = 0xA

abbrev pub max_message_size : ℕ
max_message_size = 16 * 0x10_0000

pub record Mask : Type 0 where
  pub mask_0 : ℕ
  pub mask_1 : ℕ
  pub mask_2 : ℕ
  pub mask_3 : ℕ

abbrev pub mask_bytes : Mask → Bytes
mask_bytes m = m.mask_0 ∷ m.mask_1 ∷ m.mask_2 ∷ m.mask_3 ∷ []

-- The mask whose next byte is the second one of this.
abbrev pub turn : Mask → Mask
turn m = record { mask_0 = m.mask_1; mask_1 = m.mask_2; mask_2 = m.mask_3; mask_3 = m.mask_0 }

-- `payload[i] ^= mask[i%4]`
unfoldable pub apply_mask : Mask → Bytes → Bytes
apply_mask m [] = []
apply_mask m (c ∷ s) = byte_xor c m.mask_0 ∷ apply_mask (turn m) s

-- Opcode and payload of a frame, and whether it is the last of its message.
pub record Frame : Type 0 where
  pub fin : Bool
  pub opcode : ℕ
  pub payload : Bytes

-- What a read returns: a value and the rest of the stream, or an error.
pub data Read {ℓ} (A : Type ℓ) : Type ℓ where
  got : A → Bytes → Read A
  failed : Bytes → Read A

abbrev pub and_then {ℓ κ} : {A : Type ℓ} {B : Type κ} → Read A → (A → Bytes → Read B) → Read B
and_then (got a s) f = f a s
and_then (failed err) f = failed err

-- `io.ReadFull` of as many bytes.
unfoldable pub read_full : ℕ → Bytes → Read Bytes
read_full n s =
    if leb n (length s)
    then got (take n s) (drop n s)
    else failed (if is_empty s then str "EOF" else str "unexpected EOF")

-- The length of the payload, of which the header holds `short`.
unfoldable pub read_extended : ℕ → Bytes → Read ℕ
unfolding read_full
read_extended short s =
    if short == 126
    then and_then (read_full 2 s) (λ extended rest. got (big_endian 0 extended) rest)
    else if short == 127
    then and_then (read_full 8 s) (λ extended rest. got (big_endian 0 extended) rest)
    else got short s

abbrev pub no_mask : Mask
no_mask = record { mask_0 = 0; mask_1 = 0; mask_2 = 0; mask_3 = 0 }

abbrev pub mask_of : Bytes → Mask
mask_of s = record {
  mask_0 = byte_at s 0;
  mask_1 = byte_at s 1;
  mask_2 = byte_at s 2;
  mask_3 = byte_at s 3;
}

unfoldable pub read_mask : Bool → Bytes → Read Mask
unfolding read_full byte_at
read_mask masked s =
    if masked
    then and_then (read_full 4 s) (λ mask rest. got (mask_of mask) rest)
    else got no_mask s

-- Behind the payload.
unfoldable pub check_frame : Bool → ℕ → Bytes → Bytes → Read Frame
check_frame fin opcode payload rest =
    if leb op_close opcode && (not fin || ltb 125 (length payload))
    then failed (str "invalid WebSocket control frame")
    else got (record { fin = fin; opcode = opcode; payload = payload }) rest

-- Behind the length.
unfoldable pub read_payload : Bool → ℕ → Bool → ℕ → Bytes → Read Frame
unfolding read_mask check_frame apply_mask
read_payload fin opcode masked size s =
    if ltb max_message_size size
    then failed (str "WebSocket frame exceeds size limit")
    else and_then (read_mask masked s) (λ mask s1. and_then (read_full size s1) (λ payload rest.
      check_frame fin opcode (if masked then apply_mask mask payload else payload) rest))

-- `length&(1<<63) != 0` says that a length of 64 bits is 2^63 or more.
unfoldable pub read_frame : Bytes → Read Frame
unfolding read_extended read_payload byte_at
read_frame s = and_then (read_full 2 s) (λ header s1.
    let fin = not (bit_and (byte_at header 0) 0x80 == 0) in
    let opcode = bit_and (byte_at header 0) 0x0F in
    let masked = not (bit_and (byte_at header 1) 0x80 == 0) in
    let short = bit_and (byte_at header 1) 0x7F in
    and_then (read_extended short s1) (λ size s2.
      if short == 127 && leb 0x8000_0000_0000_0000 size
      then failed (str "invalid WebSocket frame length")
      else read_payload fin opcode masked size s2))
