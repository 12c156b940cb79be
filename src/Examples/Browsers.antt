-- ===== src/Examples/Browsers.antt =====
-- The request of a browser, after a chunk that is none. The digest is the text itself, and its
-- encoding the same.
use full_stack_shinfeld.Common.{ℕ, ◌≡◌, ◌++◌, List, [], ◌∷◌, Option, some, none, refl, true, arith}
use full_stack_shinfeld.Text.{codes, same, is_blank, skip_blanks, break_by, break_on}
use full_stack_shinfeld.WebSocket.Http.{
  Headers, rtrim, trim, get_line, get_word, magic, parse_first_line, parse_request,
  validate_request,
}
use full_stack_shinfeld.WebSocket.Http.Requests.{
  headers_text, new_request, parse_request-request_text, request_text, with_headers,
}
use full_stack_shinfeld.WebSocket.Http.Answers.{accepted, upgrade_headers, upgrade_request}
use full_stack_shinfeld.WebSocket.Server.{Established, c_string, establish}
use full_stack_shinfeld.WebSocket.Server.Handshake.{establish-upgrade_request}

abbrev digest_of : List ℕ → Option (List ℕ)
digest_of text = some text

abbrev encoded : List ℕ → List ℕ
encoded digest = digest

-- The key of the example in RFC 6455.
abbrev key : List ℕ
key = codes "dGhlIHNhbXBsZSBub25jZQ=="

abbrev earlier : List (Option (List ℕ))
earlier = none ∷ some (codes "GET") ∷ []

parse_request-request_text_example :
    parse_request (
      request_text
        (codes "GET")
        (codes "/chat")
        (codes "HTTP/1.1")
        (upgrade_headers (codes "here") key)
        [])
    ≡ some (
        with_headers
          (new_request (codes "GET") (codes "/chat") (codes "HTTP/1.1"))
          (upgrade_headers (codes "here") key))
unfolding is_blank
parse_request-request_text_example =
    parse_request-request_text (codes "GET") (codes "/chat") (codes "HTTP/1.1") []
      (upgrade_headers (codes "here") key) (ground arith) (ground arith) (ground arith)
      (ground arith)

-- Headers that browsers add.
abbrev more : Headers
more =
    (codes "Origin", codes " http://here")
    ∷ (codes "User-Agent", codes " Mozilla/5.0")
    ∷ (codes "Sec-WebSocket-Extensions", codes " permessage-deflate")
    ∷ []

establish-upgrade_request_example :
    establish digest_of encoded true
      (earlier ++ some (upgrade_request (codes "/chat") (codes "here") key more []) ∷ [])
    ≡ Established.established (accepted (key ++ magic))
unfolding is_blank headers_text validate_request parse_request parse_first_line get_line get_word
    c_string break_on break_by skip_blanks trim rtrim same
establish-upgrade_request_example =
    establish-upgrade_request digest_of encoded earlier [] (codes "/chat") (codes "here") key more
      [] (key ++ magic) (omega arith, (refl, _)) (ground arith) (ground arith) (ground arith)
      (ground arith) (ground arith) refl (omega arith) (ground arith) refl
