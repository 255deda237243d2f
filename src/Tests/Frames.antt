-- ===== src/Tests/Frames.antt =====
-- Concrete frames for internal/wsclient/wsclient.go.
use wrapping_bot.Base.{
  All, ℕ, true, false, List, [], ◌∷◌, ◌++◌, Option, some, none, ◌≡◌, ◌↔◌, refl, arith,
}
use wrapping_bot.Base.Bytes.{Bytes, str}
use wrapping_bot.Base.Result.{ok}
use wrapping_bot.WebSocket.{op_text, Mask, Frame, got, read_frame}
use wrapping_bot.WebSocket.Message.{Received, complete, read_message}
use wrapping_bot.WebSocket.Message.Bounds.{Bounded, read_message-ends}
use wrapping_bot.WebSocket.Message.Fragments.{Holds, Fragments, frame_of, pongs, read_message-joins}
use wrapping_bot.WebSocket.Frames.{reads-write_frame}
use wrapping_bot.WebSocket.Handshake.{ParsedUrl, Outside, handshake}
use wrapping_bot.WebSocket.Handshake.Agreed.{Agrees, switched, handshake_iff}
use wrapping_bot.WebSocket.Json.{read_json, write_json, read_json-write_json}
use wrapping_bot.WebSocket.Words.{IsByte}
use wrapping_bot.WebSocket.Write.{written, write_frame, read_client_frame}

abbrev hi : Bytes
hi = b'h' ∷ b'i' ∷ []

abbrev mask : Mask
mask = record { mask_0 = 1; mask_1 = 2; mask_2 = 3; mask_3 = 4 }

hi-bytes : All IsByte hi
hi-bytes = (omega arith, (omega arith, tt))

abbrev no_error : ℕ → Option Bytes
no_error n = none

reads-write_frame_example :
    (bytes : Bytes) × (write_frame mask op_text hi ≡ written bytes)
    × (read_frame (bytes ++ str "more") ≡ got (frame_of true op_text hi) (str "more"))
    × (read_client_frame (bytes ++ str "more") ≡ got (op_text, hi) (str "more"))
reads-write_frame_example =
    reads-write_frame mask op_text hi (str "more") (omega arith) hi-bytes
      (omega arith, λ control. absurd (omega arith))

read_json-write_json_example :
    (bytes : Bytes) × (write_json (λ s. ok s) mask hi ≡ written bytes)
    × (read_json (λ s. ok s) no_error (bytes ++ str "more") ≡ some (ok hi))
read_json-write_json_example =
    read_json-write_json (λ s. ok s) (λ s. ok s) no_error mask hi hi (str "more") (λ n. refl) refl
      refl hi-bytes (omega arith)

-- "h" as a first fragment, a ping "p", and "i" as the last fragment; then a byte of another frame.
abbrev stream : Bytes
stream = 0x01 ∷ 0x01 ∷ b'h' ∷ 0x89 ∷ 0x01 ∷ b'p' ∷ 0x80 ∷ 0x01 ∷ b'i' ∷ 0x88 ∷ []

abbrev frames : List Frame
frames =
    frame_of false 1 (b'h' ∷ []) ∷ frame_of true 9 (b'p' ∷ []) ∷ frame_of true 0 (b'i' ∷ []) ∷ []

stream-Holds : Holds (0x88 ∷ []) stream frames
unfolding read_frame
stream-Holds = Holds.frame refl (Holds.frame refl (Holds.frame refl Holds.none_left))

frames-Fragments : Fragments false frames hi ((b'p' ∷ []) ∷ [])
frames-Fragments =
    Fragments.part (b'h' ∷ []) (Fragments.ping (b'p' ∷ []) (Fragments.last (b'i' ∷ [])))

read_message-joins_example :
    read_message no_error stream
    ≡ some (record { outcome = complete hi; replies = pongs ((b'p' ∷ []) ∷ []); rest = 0x88 ∷ [] })
read_message-joins_example =
    read_message-joins no_error (λ n. refl) stream (0x88 ∷ []) frames hi ((b'p' ∷ []) ∷ [])
      stream-Holds frames-Fragments (omega arith)

read_message-ends_example :
    (r : Received) × (read_message no_error stream ≡ some r) × Bounded r.outcome
read_message-ends_example = read_message-ends no_error stream

abbrev outside : Outside
outside = record {
  parse_url = λ s. ok (record {
    scheme = str "ws";
    host = str "h";
    hostname = str "h";
    port = [];
    request_uri = [];
  });
  quoted = λ s. s;
  sha1 = λ s. s;
  base64 = λ s. s;
  connect = λ secure address. none;
  exchange = λ secure address r. ok (record {
    status_code = 101;
    status = str "101 Switching Protocols";
    header =
        (str "Upgrade", str "websocket")
        ∷ (str "Connection", str "Upgrade")
        ∷ (str "Sec-Websocket-Accept", str "wrong")
        ∷ [];
  });
}

abbrev url : ParsedUrl
url = record { scheme = str "ws"; host = str "h"; hostname = str "h"; port = []; request_uri = [] }

handshake_iff_example :
    (handshake outside false (str "h:80") url (str "key") ≡ none)
    ↔ Agrees outside (str "key") (switched outside (str "wrong"))
handshake_iff_example =
    handshake_iff outside false (str "h:80") url (str "key") (switched outside (str "wrong")) refl
