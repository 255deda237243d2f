-- ===== src/WebSocket/Write.antt =====
-- The frames that internal/wsclient/wsclient.go writes, and its reader of client frames.
use wrapping_bot.Base.{
  ℕ, ◌%◌, bit_and, bit_or, [], ◌∷◌, ◌++◌, ltb, leb, ◌==◌, if◌then◌else◌, length, take,
}
use wrapping_bot.Base.Bytes.{Bytes, str}
use wrapping_bot.Text.Split.{byte_at}
use wrapping_bot.WebSocket.{
  max_message_size, Mask, mask_bytes, mask_of, apply_mask, Read, got, failed, and_then, read_full,
  read_extended,
}
use wrapping_bot.WebSocket.Words.{put_uint16, put_uint64, big_endian}

-- The second byte of a client's header and what stands behind it, for a payload of `n` bytes.
unfoldable pub client_length : ℕ → Bytes
unfolding put_uint16 put_uint64
client_length n =
    if leb n 125
    then bit_or 0x80 (n % 0x100) ∷ []
    else if leb n 65535
    then bit_or 0x80 126 ∷ put_uint16 n
    else bit_or 0x80 127 ∷ put_uint64 n

-- What is written to the connection, or an error.
pub data Written : Type 0 where
  written : Bytes → Written
  rejected : Bytes → Written

-- The connection takes the header and then the masked payload; its own errors are not modelled.
unfoldable pub write_frame : Mask → ℕ → Bytes → Written
unfolding client_length apply_mask
write_frame mask opcode payload =
    if ltb max_message_size (length payload)
    then rejected (str "WebSocket payload exceeds size limit")
    else written (
        bit_or 0x80 opcode
        ∷ (client_length (length payload) ++ (mask_bytes mask ++ apply_mask mask payload)))

unfoldable pub server_length : ℕ → Bytes
unfolding put_uint16 put_uint64
server_length n =
    if leb n 125
    then (n % 0x100) ∷ []
    else if leb n 65535
    then 126 ∷ put_uint16 n
    else 127 ∷ put_uint64 n

-- `ServerFrame`
unfoldable pub server_frame : ℕ → Bytes → Bytes
unfolding server_length
server_frame opcode payload = bit_or 0x80 opcode ∷ (server_length (length payload) ++ payload)

unfoldable pub read_client_payload : ℕ → ℕ → Bytes → Read (ℕ × Bytes)
unfolding read_full apply_mask byte_at
read_client_payload opcode size s =
    if ltb max_message_size size
    then failed (str "client frame exceeds size limit")
    else and_then (read_full 4 s) (λ mask s1.
      and_then (read_full size s1)
        (λ payload rest. got (opcode, apply_mask (mask_of mask) payload) rest))

-- `ReadClientFrame`
unfoldable pub read_client_frame : Bytes → Read (ℕ × Bytes)
unfolding read_full read_extended read_client_payload byte_at
read_client_frame s = and_then (read_full 2 s) (λ header s1.
    if bit_and (byte_at header 1) 0x80 == 0
    then failed (str "client WebSocket frame is not masked")
    else and_then (read_extended (bit_and (byte_at header 1) 0x7F) s1)
        (λ size s2. read_client_payload (bit_and (byte_at header 0) 0x0F) size s2))

-- `ParseCloseCode` and `FormatClosePayload`, whose codes are positive.
unfoldable pub parse_close_code : Bytes → ℕ
unfolding big_endian
parse_close_code payload = if ltb (length payload) 2 then 0 else big_endian 0 (take 2 payload)

unfoldable pub format_close_payload : ℕ → Bytes → Bytes
unfolding put_uint16
format_close_payload code reason = put_uint16 (code % 0x1_0000) ++ reason
