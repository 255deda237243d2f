-- ===== src/WebSocket/Handshake.antt =====
-- `DialContext` and `handshake` of internal/wsclient/wsclient.go, and the server's side of it in
-- `UpgradeForTest`. The 16 random bytes are an argument, as are `net/url`, `net`, `crypto/sha1`,
-- `encoding/base64`, and the reading and writing of HTTP by `net/http`. A header is a list of names in
-- their canonical form and values.
pub mod Agreed
use wrapping_bot.Base.{
  ℕ, zero, suc, ◌+◌, ◌-◌, Bool, true, false, not, ◌&&◌, ◌||◌, List, [], ◌∷◌, ◌++◌, Option, some,
  none, leb, ◌==◌, if◌then◌else◌,
}
use wrapping_bot.Base.Bytes.{Bytes, str, is_empty, bytes_eq, contains, split_commas}
use wrapping_bot.Base.Result.{Result, ok, error, ok_then}
use wrapping_bot.Base.Space.{trim_space}

abbrev pub websocket_guid : Bytes
websocket_guid = str "258EAFA5-E914-47DA-95CA-C5AB0DC85B11"

abbrev pub Header : Type 0
Header = List (Bytes × Bytes)

pub record ParsedUrl : Type 0 where
  pub scheme : Bytes
  pub host : Bytes
  pub hostname : Bytes
  pub port : Bytes
  pub request_uri : Bytes

pub record Request : Type 0 where
  pub host : Bytes
  pub request_uri : Bytes
  pub header : Header

pub record Response : Type 0 where
  pub status_code : ℕ
  pub status : Bytes
  pub header : Header

-- `exchange` writes a request and reads the response, on a connection to the address that is made with
-- TLS or without.
pub record Outside : Type 0 where
  pub parse_url : Bytes → Result ParsedUrl
  pub quoted : Bytes → Bytes
  pub sha1 : Bytes → Bytes
  pub base64 : Bytes → Bytes
  pub connect : Bool → Bytes → Option Bytes
  pub exchange : Bool → Bytes → Request → Result Response

-- `net.JoinHostPort`
abbrev pub join_host_port : Bytes → Bytes → Bytes
join_host_port host port =
    if contains host (str ":") then str "[" ++ host ++ str "]:" ++ port else host ++ str ":" ++ port

-- The form by which `strings.EqualFold` compares with a text of lower ASCII letters: the Kelvin sign
-- folds to `k`, and the long s to `s`.
unfoldable pub fold : Bytes → Bytes
fold [] = []
fold (a ∷ []) = (if leb b'A' a && leb a b'Z' then a + 32 else a) ∷ []
fold (a ∷ b ∷ []) =
    if a == 0xC5 && b == 0xBF
    then b's' ∷ []
    else (if leb b'A' a && leb a b'Z' then a + 32 else a) ∷ fold (b ∷ [])
fold (a ∷ b ∷ c ∷ s) =
    let rest = fold (b ∷ c ∷ s) in
    let behind_two = fold (c ∷ s) in
    let behind_three = fold s in
    if a == 0xC5 && b == 0xBF
    then b's' ∷ behind_two
    else if a == 0xE2 && b == 0x84 && c == 0xAA
    then b'k' ∷ behind_three
    else (if leb b'A' a && leb a b'Z' then a + 32 else a) ∷ rest

-- `header.Values(key)`
unfoldable pub values : Bytes → Header → List Bytes
unfolding bytes_eq
values key [] = []
values key ((k, v) ∷ header) =
    let rest = values key header in if bytes_eq k key then v ∷ rest else rest

unfoldable pub has_part : List Bytes → Bytes → Bool
unfolding fold bytes_eq trim_space
has_part [] token = false
has_part (part ∷ parts) token = bytes_eq (fold (trim_space part)) token || has_part parts token

unfoldable pub has_token : List Bytes → Bytes → Bool
unfolding has_part
has_token [] token = false
has_token (v ∷ vs) token = has_part (split_commas v) token || has_token vs token

unfoldable pub header_contains_token : Header → Bytes → Bytes → Bool
unfolding values has_token
header_contains_token header key token = has_token (values key header) token

-- `header.Get(key)`
unfoldable pub header_get : Bytes → Header → Bytes
unfolding values
header_get key header = elim (values key header) [ [] ↦ [] | v ∷ vs ↦ v ]

abbrev pub default_port : Bool → Bytes
default_port secure = if secure then str "443" else str "80"

abbrev pub switching_protocols : Bytes → Bytes
switching_protocols accept =
    str "HTTP/1.1 101 Switching Protocols\r\n"
    ++ (str "Upgrade: websocket\r\n"
        ++ (str "Connection: Upgrade\r\n"
            ++ (str "Sec-WebSocket-Accept: " ++ (accept ++ str "\r\n\r\n"))))

module _ (lib : Outside) where
  unfoldable pub accept_key : Bytes → Bytes
  accept_key key = lib.base64 (lib.sha1 (key ++ websocket_guid))

  unfoldable pub upgrade_request : ParsedUrl → Bytes → Request
  upgrade_request u key = record {
    host = u.host;
    request_uri = (if is_empty u.request_uri then str "/" else u.request_uri);
    header =
        (str "Upgrade", str "websocket")
        ∷ (str "Connection", str "Upgrade")
        ∷ (str "Sec-Websocket-Key", key)
        ∷ (str "Sec-Websocket-Version", str "13")
        ∷ (str "User-Agent", str "wrapping-bot/1")
        ∷ [];
  }

  unfoldable pub check_upgrade : Bytes → Response → Option Bytes
  unfolding header_contains_token header_get accept_key bytes_eq
  check_upgrade key r =
      if not (r.status_code == 101)
      then some (str "WebSocket upgrade returned " ++ r.status)
      else if not (header_contains_token r.header (str "Connection") (str "upgrade"))
          || not (header_contains_token r.header (str "Upgrade") (str "websocket"))
      then some (str "invalid WebSocket upgrade headers")
      else if not (bytes_eq (header_get (str "Sec-Websocket-Accept") r.header) (accept_key key))
      then some (str "invalid Sec-WebSocket-Accept header")
      else none

  unfoldable pub handshake : Bool → Bytes → ParsedUrl → Bytes → Option Bytes
  unfolding upgrade_request check_upgrade
  handshake secure address u random =
      let key = lib.base64 random in
      elim (lib.exchange secure address (upgrade_request u key)) [
        | error text ↦ some text
        | ok r ↦ check_upgrade key r
      ]

  -- The address, and whether TLS is used there.
  unfoldable pub dial_target : ParsedUrl → Result (Bool × Bytes)
  unfolding bytes_eq contains
  dial_target u =
      let secure = bytes_eq u.scheme (str "wss") in
      if not (bytes_eq u.scheme (str "ws")) && not secure
      then error (str "unsupported WebSocket scheme " ++ lib.quoted u.scheme)
      else if is_empty u.host
      then error (str "WebSocket URL has no host")
      else ok (
        secure,
        join_host_port u.hostname (if is_empty u.port then default_port secure else u.port),
      )

  unfoldable pub connected_to : Bool → Bytes → Result Bytes
  connected_to secure address = elim (lib.connect secure address) [
    | some text ↦ error text
    | none ↦ ok address
  ]

  abbrev shaken : Bytes → Option Bytes → Result Bytes
  shaken address none = ok address
  shaken address (some text) = error text

  -- The address that the connection, behind its handshake, leads to.
  unfoldable pub dial_context : Bytes → Bytes → Result Bytes
  unfolding dial_target connected_to handshake
  dial_context random raw_url = ok_then (lib.parse_url raw_url) (λ u.
      ok_then (dial_target u) (λ (secure, address).
        ok_then (connected_to secure address)
          (λ conn. shaken conn (handshake secure address u random))))

  -- What `UpgradeForTest` answers to a request, if it can take over the connection and write to it.
  unfoldable pub upgrade_for_test : Request → Result Bytes
  unfolding header_get accept_key
  upgrade_for_test r =
      let key = header_get (str "Sec-Websocket-Key") r.header in
      if is_empty key
      then error (str "missing Sec-WebSocket-Key")
      else ok (switching_protocols (accept_key key))
