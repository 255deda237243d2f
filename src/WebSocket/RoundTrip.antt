-- ===== src/WebSocket/RoundTrip.antt =====
-- Frames of internal/wsclient/wsclient.go are read as they were written, in both directions.
use wrapping_bot.Base.{
  ℕ, ◌≤◌, ◌<◌, bit_and, bit_or, Bool, true, false, not, [], ◌∷◌, ◌++◌, ◌≡◌, refl, sym, ap, ◌∙◌,
  arith, ltb, ◌==◌, length, All, append_assoc,
}
use native.Mathlib.Decide.{dec_le}
use wrapping_bot.Base.Bytes.{Bytes}
use wrapping_bot.Text.Split.{byte_at}
use wrapping_bot.WebSocket.{
  op_close, max_message_size, Mask, mask_bytes, apply_mask, got, read_full, read_mask, read_payload,
  check_frame, read_frame,
}
use wrapping_bot.WebSocket.Words.{IsByte, put_uint16, big_endian}
use wrapping_bot.WebSocket.Write.{
  client_length, server_length, written, write_frame, server_frame, read_client_payload,
  read_client_frame, parse_close_code, format_close_payload,
}
use wrapping_bot.WebSocket.Lengths.{
  read_full-append, apply_mask-apply_mask, length-apply_mask, opcode_bits, Spells,
  server_length-Spells, client_length-Spells,
}

abbrev pub IsFit : Bool → ℕ → Bytes → Type 0
IsFit fin opcode payload =
    (length payload ≤ max_message_size)
    × (op_close ≤ opcode → (fin ≡ true) × (length payload ≤ 125))

read_frame-field :
    (first bit n : ℕ) (field s : Bytes)
    → Spells bit n field
    → read_frame (first ∷ (field ++ s))
      ≡ read_payload (not (bit_and first 0x80 == 0)) (bit_and first 0x0F) (not (bit == 0)) n s
unfolding read_frame byte_at
read_frame-field first bit n field s h =
    rw
      (h.field_is, read_full-append (first ∷ h.head ∷ []) (h.tail ++ s), h.masks, h.reads s, h.fits)
      refl

check_frame-fit :
    (fin : Bool) (opcode : ℕ) (payload rest : Bytes)
    → IsFit fin opcode payload
    → check_frame fin opcode payload rest
      ≡ got (record { fin = fin; opcode = opcode; payload = payload }) rest
unfolding check_frame
check_frame-fit true opcode payload rest (_, h) = elim (dec_le op_close opcode) [
  | yes control ↦ let (_, short) = h control in ground arith
  | no plain ↦ ground arith
]
check_frame-fit false opcode payload rest (_, h) = elim (dec_le op_close opcode) [
  | yes control ↦ let (last, _) = h control in absurd (cc)
  | no plain ↦ ground arith
]

plain-read_payload :
    (fin : Bool) (opcode : ℕ) (payload rest : Bytes)
    → IsFit fin opcode payload
    → read_payload fin opcode false (length payload) (payload ++ rest)
      ≡ got (record { fin = fin; opcode = opcode; payload = payload }) rest
unfolding read_payload read_mask
plain-read_payload fin opcode payload rest h =
    let small : ltb max_message_size (length payload) ≡ false = ground arith in
    rw (small, read_full-append payload rest, check_frame-fit fin opcode payload rest h) refl

read_full-masked :
    (mask : Mask) (payload rest : Bytes)
    → read_full (length payload) (apply_mask mask payload ++ rest)
      ≡ got (apply_mask mask payload) rest
read_full-masked mask payload rest =
    ap (λ n. read_full n (apply_mask mask payload ++ rest)) (sym (length-apply_mask mask payload))
    ∙ read_full-append (apply_mask mask payload) rest

masked-read_payload :
    (fin : Bool) (opcode : ℕ) (mask : Mask) (payload rest : Bytes)
    → All IsByte payload
    → IsFit fin opcode payload
    → read_payload fin opcode true
        (length payload)
        (mask_bytes mask ++ (apply_mask mask payload ++ rest))
      ≡ got (record { fin = fin; opcode = opcode; payload = payload }) rest
unfolding read_payload read_mask byte_at
masked-read_payload fin opcode mask payload rest bytes h =
    let small : ltb max_message_size (length payload) ≡ false = ground arith in
    let masked = apply_mask mask payload in
    rw
      (
        small,
        read_full-append (mask_bytes mask) (masked ++ rest),
        read_full-masked mask payload rest,
        apply_mask-apply_mask mask payload bytes,
        check_frame-fit fin opcode payload rest h,
      )
      refl

-- A frame that the server writes is read with its opcode and payload, as a last one, and the rest of
-- the stream stays. Its opcode has four bits, it holds at most 16 MiB, and at most 125 bytes if it is
-- a control frame.
pub read_frame-server_frame :
    (opcode : ℕ) (payload rest : Bytes)
    → opcode < 16
    → IsFit true opcode payload
    → read_frame (server_frame opcode payload ++ rest)
      ≡ got (record { fin = true; opcode = opcode; payload = payload }) rest
unfolding server_frame
read_frame-server_frame opcode payload rest small h =
    let field = server_length (length payload) in
    let (last, code) = opcode_bits opcode small in
    rw
      (
        append_assoc field payload rest,
        read_frame-field (bit_or 0x80 opcode) 0 (length payload) field (payload ++ rest)
            (server_length-Spells (length payload) h.0),
        last,
        code,
      )
      (plain-read_payload true opcode payload rest h)

read_client_frame-field :
    (first n : ℕ) (field s : Bytes)
    → Spells 0x80 n field
    → read_client_frame (first ∷ (field ++ s)) ≡ read_client_payload (bit_and first 0x0F) n s
unfolding read_client_frame byte_at
read_client_frame-field first n field s h =
    rw (h.field_is, read_full-append (first ∷ h.head ∷ []) (h.tail ++ s), h.masks, h.reads s) refl

masked-read_client_payload :
    (opcode : ℕ) (mask : Mask) (payload rest : Bytes)
    → All IsByte payload
    → length payload ≤ max_message_size
    → read_client_payload opcode
        (length payload)
        (mask_bytes mask ++ (apply_mask mask payload ++ rest))
      ≡ got (opcode, payload) rest
unfolding read_client_payload byte_at
masked-read_client_payload opcode mask payload rest bytes h =
    let small : ltb max_message_size (length payload) ≡ false = ground arith in
    let masked = apply_mask mask payload in
    rw
      (
        small,
        read_full-append (mask_bytes mask) (masked ++ rest),
        read_full-masked mask payload rest,
        apply_mask-apply_mask mask payload bytes,
      )
      refl

-- What the client writes for a payload of at most 16 MiB is read by `ReadClientFrame` with its
-- opcode, of four bits, and its payload, whatever the mask, and the rest of the stream stays.
pub read_client_frame-write_frame :
    (mask : Mask) (opcode : ℕ) (payload rest : Bytes)
    → opcode < 16
    → All IsByte payload
    → length payload ≤ max_message_size
    → (bytes : Bytes) × (write_frame mask opcode payload ≡ written bytes)
      × (read_client_frame (bytes ++ rest) ≡ got (opcode, payload) rest)
read_client_frame-write_frame mask opcode payload rest small bytes h =
    let n = length payload in
    let field = client_length n in
    let masked = apply_mask mask payload in
    let (last, code) = opcode_bits opcode small in
    (
      bit_or 0x80 opcode ∷ (field ++ (mask_bytes mask ++ masked)),
      unfold write_frame in ground arith,
      rw
          (
            append_assoc field (mask_bytes mask ++ masked) rest,
            read_client_frame-field (bit_or 0x80 opcode) n field
                (mask_bytes mask ++ (masked ++ rest)) (client_length-Spells n h),
            code,
          )
          (masked-read_client_payload opcode mask payload rest bytes h),
    )

-- And it is read by `readFrame` as a last frame, whatever the mask, unless it is a control frame of
-- more than 125 bytes.
pub read_frame-write_frame :
    (mask : Mask) (opcode : ℕ) (payload rest : Bytes)
    → opcode < 16
    → All IsByte payload
    → IsFit true opcode payload
    → (bytes : Bytes) × (write_frame mask opcode payload ≡ written bytes)
      × (read_frame (bytes ++ rest)
          ≡ got (record { fin = true; opcode = opcode; payload = payload }) rest)
read_frame-write_frame mask opcode payload rest small bytes h =
    let n = length payload in
    let field = client_length n in
    let masked = apply_mask mask payload in
    let (last, code) = opcode_bits opcode small in
    (
      bit_or 0x80 opcode ∷ (field ++ (mask_bytes mask ++ masked)),
      unfold write_frame in ground arith,
      rw
          (
            append_assoc field (mask_bytes mask ++ masked) rest,
            read_frame-field (bit_or 0x80 opcode) 0x80 n field (mask_bytes mask ++ (masked ++ rest))
                (client_length-Spells n h.0),
            last,
            code,
          )
          (masked-read_payload true opcode mask payload rest bytes h),
    )

-- A close code below 2^16 is read back from its payload, whatever the reason.
pub parse_close_code-format_close_payload :
    (code : ℕ) (reason : Bytes)
    → code < 0x1_0000
    → parse_close_code (format_close_payload code reason) ≡ code
unfolding parse_close_code format_close_payload put_uint16 big_endian
parse_close_code-format_close_payload code reason h = ground arith
