-- ===== src/WebSocket/Server/Handshake.antt =====
-- The loop of `establishHttpConnection` in backend/WEBSOCKET/src/WebSocketServer.cpp.
use full_stack_shinfeld.Common.{
  ℕ, ◌≤◌, ◌≡◌, refl, ◌++◌, ◌∙◌, Bool, true, false, List, [], ◌∷◌, Option, none, some, length, take,
  take_all, All, ◌==◌, arith,
}
use full_stack_shinfeld.Text.{IsWord, break_on, break_by-none}
use full_stack_shinfeld.WebSocket.Http.{Headers, HttpRequest, magic, validate_request}
use full_stack_shinfeld.WebSocket.Http.Others.{IsOther}
use full_stack_shinfeld.WebSocket.Http.Requests.{IsHeader, OnOneLine}
use full_stack_shinfeld.WebSocket.Http.Answers.{
  accepted, upgrade_request, generate_response-read, read, validate_request-upgrade_request,
}
use full_stack_shinfeld.WebSocket.Server.{Established, c_string, establish, request_size, respond}

-- What `recv` gave is no valid request.
abbrev pub IsRejected : Option (List ℕ) → Type 0
IsRejected none = 0 ≤ 0
IsRejected (some bytes) = validate_request (c_string (take request_size bytes)) ≡ none

-- No byte is zero.
abbrev pub HasNoZero : List ℕ → Type 0
HasNoZero bytes = All (λ (c : ℕ). (c == 0) ≡ false) bytes

c_string-HasNoZero : (bytes : List ℕ) → HasNoZero bytes → c_string bytes ≡ bytes
unfolding c_string break_on
c_string-HasNoZero bytes h = ground (arith, break_by-none (λ (c : ℕ). c == 0) bytes h)

module _ (sha1 : List ℕ → Option (List ℕ)) (encode_block : List ℕ → List ℕ) where
  establish-rejected :
      (succeeds : Bool) (earlier later : List (Option (List ℕ)))
      → All IsRejected earlier
      → establish sha1 encode_block succeeds (earlier ++ later)
        ≡ establish sha1 encode_block succeeds later
  unfolding establish
  establish-rejected succeeds [] later h = refl
  establish-rejected succeeds (none ∷ rest) later h = establish-rejected succeeds rest later h.1
  establish-rejected succeeds (some bytes ∷ rest) later h =
      ground (arith, h.0, establish-rejected succeeds rest later h.1)

  establish-valid :
      (succeeds : Bool) (bytes : List ℕ) (later : List (Option (List ℕ))) (request : HttpRequest)
      → length bytes ≤ request_size
      → HasNoZero bytes
      → validate_request bytes ≡ some request
      → establish sha1 encode_block succeeds (some bytes ∷ later)
        ≡ respond sha1 encode_block succeeds request
  unfolding establish
  establish-valid succeeds bytes later request small h e =
      rw (establish, take_all request_size bytes small, c_string-HasNoZero bytes h, e) refl

  -- After whatever is no valid request, errors and the end of the connection included, a request
  -- that arrives whole, is a GET with the five headers Host, Connection, Upgrade,
  -- Sec-WebSocket-Version and Sec-WebSocket-Key first in this order, then any headers with other names
  -- than Upgrade, Connection and Sec-WebSocket-Version, and any path, host, body and key of 24 bytes, is answered with the response of RFC 6455: the accept key is the encoded digest of its
  -- key and the magic text.
  pub establish-upgrade_request :
      (earlier later : List (Option (List ℕ))) (path host key : List ℕ) (more : Headers)
      (body digest : List ℕ)
      → All IsRejected earlier
      → All IsHeader more
      → All IsOther more
      → IsWord path
      → OnOneLine host
      → IsWord key
      → length key ≡ 24
      → length (upgrade_request path host key more body) ≤ request_size
      → HasNoZero (upgrade_request path host key more body)
      → sha1 (key ++ magic) ≡ some digest
      → establish sha1 encode_block true
          (earlier ++ some (upgrade_request path host key more body) ∷ later)
        ≡ Established.established (accepted (encode_block digest))
  unfolding respond
  establish-upgrade_request earlier later path host key more body digest r m others p h w size small
        zeros e =
      let bytes = upgrade_request path host key more body in
      establish-rejected true earlier (some bytes ∷ later) r
      ∙ establish-valid true bytes later (read path host key more) small zeros
          (validate_request-upgrade_request path host key more body m others p h w size)
      ∙ ground (
        arith,
        generate_response-read sha1 encode_block path host key digest more others w size e,
      )
