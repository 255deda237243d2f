-- ===== src/WebSocket/Frames.antt =====
-- A client's frame of internal/wsclient/wsclient.go is read as it was written by both readers.
use wrapping_bot.Base.{ℕ, ◌<◌, true, ◌++◌, ◌≡◌, sym, subst, ◌∙◌, All}
use wrapping_bot.Base.Bytes.{Bytes}
use wrapping_bot.WebSocket.{Mask, got, read_frame}
use wrapping_bot.WebSocket.RoundTrip.{IsFit, read_frame-write_frame, read_client_frame-write_frame}
use wrapping_bot.WebSocket.Words.{IsByte}
use wrapping_bot.WebSocket.Write.{written, write_frame, read_client_frame}

written_injective : {a b : Bytes} → written a ≡ written b → a ≡ b
written_injective e = cc

-- What the client writes for a payload is read with its opcode, of four bits, and its payload, whatever
-- the mask, and the rest of the stream stays: by `readFrame`, as a last frame, and by
-- `ReadClientFrame`. The payload has at most 16 MiB, and at most 125 bytes in a control frame.
pub reads-write_frame :
    (mask : Mask) (opcode : ℕ) (payload rest : Bytes)
    → opcode < 16
    → All IsByte payload
    → IsFit true opcode payload
    → (bytes : Bytes) × (write_frame mask opcode payload ≡ written bytes)
      × (read_frame (bytes ++ rest)
          ≡ got (record { fin = true; opcode = opcode; payload = payload }) rest)
      × (read_client_frame (bytes ++ rest) ≡ got (opcode, payload) rest)
reads-write_frame mask opcode payload rest small bytes h =
    let (b, writes, reads) = read_frame-write_frame mask opcode payload rest small bytes h in
    let (c, writes', reads') =
      read_client_frame-write_frame mask opcode payload rest small bytes h.0 in
    let same : c ≡ b = written_injective (sym writes' ∙ writes) in
    (
      b,
      writes,
      reads,
      subst (λ x. read_client_frame (x ++ rest) ≡ got (opcode, payload) rest) same reads',
    )
