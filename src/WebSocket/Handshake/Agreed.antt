-- ===== src/WebSocket/Handshake/Agreed.antt =====
-- Which responses `handshake` of internal/wsclient/wsclient.go takes for an upgrade.
use wrapping_bot.Base.{Bool, true, List, [], ◌∷◌, ◌++◌, none, ◌≡◌, ◌≢◌, ◌↔◌, refl, ◌∙◌, arith, Any}
use wrapping_bot.Base.Bytes.{
  Bytes, str, bytes_eq, bytes_eq_iff, bytes_eq_refl, split_commas, split_from,
}
use wrapping_bot.Base.Result.{Result, ok, ok_then}
use wrapping_bot.Base.Space.{trim_space}
use wrapping_bot.WebSocket.Handshake.{
  websocket_guid, Header, ParsedUrl, Response, Outside, fold, values, has_part, has_token,
  header_contains_token, header_get, accept_key, upgrade_request, check_upgrade, handshake,
  switching_protocols, upgrade_for_test,
}

-- The token is among the parts between commas of the values of a header.
abbrev pub HasToken : Header → Bytes → Bytes → Type 0
HasToken header key token =
    Any (λ v. Any (λ part. fold (trim_space part) ≡ token) (split_commas v)) (values key header)

has_part_iff :
    (parts : List Bytes) (token : Bytes)
    → (has_part parts token ≡ true) ↔ Any (λ part. fold (trim_space part) ≡ token) parts
unfolding has_part
has_part_iff [] token = ground arith
has_part_iff (part ∷ parts) token =
    ground (arith, bytes_eq_iff (fold (trim_space part)) token, has_part_iff parts token)

has_token_iff :
    (vs : List Bytes) (token : Bytes)
    → (has_token vs token ≡ true)
      ↔ Any (λ v. Any (λ part. fold (trim_space part) ≡ token) (split_commas v)) vs
unfolding has_token
has_token_iff [] token = ground arith
has_token_iff (v ∷ vs) token =
    ground (arith, has_part_iff (split_commas v) token, has_token_iff vs token)

module _ (lib : Outside) where
  -- A response that agrees to the upgrade that was asked for with this key.
  abbrev pub Agrees : Bytes → Response → Type 0
  Agrees key r =
      (r.status_code ≡ 101)
      × HasToken r.header (str "Connection") (str "upgrade")
      × HasToken r.header (str "Upgrade") (str "websocket")
      × (header_get (str "Sec-Websocket-Accept") r.header
          ≡ lib.base64 (lib.sha1 (key ++ websocket_guid)))

  check_upgrade_iff : (key : Bytes) (r : Response) → (check_upgrade lib key r ≡ none) ↔ Agrees key r
  unfolding check_upgrade header_contains_token accept_key
  check_upgrade_iff key r = ground (
    arith,
    has_token_iff (values (str "Connection") r.header) (str "upgrade"),
    has_token_iff (values (str "Upgrade") r.header) (str "websocket"),
    bytes_eq_iff (header_get (str "Sec-Websocket-Accept") r.header) (accept_key lib key),
  )

  handshake-response :
      (secure : Bool) (address : Bytes) (u : ParsedUrl) (random : Bytes) (r : Response)
      → lib.exchange secure address (upgrade_request lib u (lib.base64 random)) ≡ ok r
      → handshake lib secure address u random ≡ check_upgrade lib (lib.base64 random) r
  unfolding handshake
  handshake-response secure address u random r e = rw (handshake, e) refl

  -- Where a response is read, the handshake succeeds exactly if its code is 101, its headers
  -- `Connection` and `Upgrade` have the tokens, and it holds the accept key that belongs to the random
  -- key of the request.
  pub handshake_iff :
      (secure : Bool) (address : Bytes) (u : ParsedUrl) (random : Bytes) (r : Response)
      → lib.exchange secure address (upgrade_request lib u (lib.base64 random)) ≡ ok r
      → (handshake lib secure address u random ≡ none) ↔ Agrees (lib.base64 random) r
  handshake_iff secure address u random r e =
      rw (handshake-response secure address u random r e) (check_upgrade_iff (lib.base64 random) r)

  abbrev pub switched : Bytes → Response
  switched accept = record {
    status_code = 101;
    status = str "101 Switching Protocols";
    header =
        (str "Upgrade", str "websocket")
        ∷ (str "Connection", str "Upgrade")
        ∷ (str "Sec-Websocket-Accept", accept)
        ∷ [];
  }

  switched-Agrees : (key : Bytes) → check_upgrade lib key (switched (accept_key lib key)) ≡ none
  unfolding check_upgrade header_contains_token header_get values has_token has_part fold trim_space
      bytes_eq split_from
  switched-Agrees key = rw (bytes_eq_refl (accept_key lib key)) refl

  upgrade-key :
      (u : ParsedUrl) (key : Bytes)
      → key ≢ []
      → upgrade_for_test lib (upgrade_request lib u key)
        ≡ ok (switching_protocols (accept_key lib key))
  unfolding upgrade_for_test upgrade_request header_get values bytes_eq
  upgrade-key u key h = ground arith

  -- The client's handshake succeeds with a server that answers by `UpgradeForTest`, if the server's
  -- text is read as the response that it spells and the base64 text of the random bytes is not empty.
  pub handshake-upgrade_for_test :
      (secure : Bool) (address : Bytes) (u : ParsedUrl) (random : Bytes)
      (read : Bytes → Result Response)
      → ((accept : Bytes) → read (switching_protocols accept) ≡ ok (switched accept))
      → lib.base64 random ≢ []
      → lib.exchange secure address (upgrade_request lib u (lib.base64 random))
        ≡ ok_then (upgrade_for_test lib (upgrade_request lib u (lib.base64 random))) read
      → handshake lib secure address u random ≡ none
  unfolding ok_then
  handshake-upgrade_for_test secure address u random read reads full answers =
      let key = lib.base64 random in
      handshake-response secure address u random (switched (accept_key lib key))
        (answers ∙ rw (upgrade-key u key full) (reads (accept_key lib key)))
      ∙ switched-Agrees key
