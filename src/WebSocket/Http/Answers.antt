-- ===== src/WebSocket/Http/Answers.antt =====
-- A request with the five headers of the handshake, and the answer of backend/WEBSOCKET/src/HttpHandler.cpp to it.
use full_stack_shinfeld.Common.{
  ℕ, ◌≡◌, refl, ◌++◌, true, false, List, [], ◌∷◌, Option, some, length, All, arith,
}
use full_stack_shinfeld.Text.{IsWord, codes, same, is_blank, skip_blanks}
use full_stack_shinfeld.WebSocket.Http.{
  Headers, HttpRequest, compute_accept_key, find_header, generate_response, header_lines,
  is_valid_request, precedes, magic, put, response_text, rtrim, same_header, trim, validate_header,
  validate_request, with_header,
}
use full_stack_shinfeld.WebSocket.Http.Others.{IsAccepted, IsOther, with_headers-IsAccepted}
use full_stack_shinfeld.WebSocket.Http.Requests.{
  IsHeader, OnOneLine, new_request, parse_request-request_text, request_text, with_headers,
  word-OnOneLine,
}

-- The five headers that the code looks at, in one order; the key is a word.
abbrev pub upgrade_headers : List ℕ → List ℕ → Headers
upgrade_headers host key =
    (codes "Host", codes " " ++ host)
    ∷ (codes "Connection", codes " Upgrade")
    ∷ (codes "Upgrade", codes " websocket")
    ∷ (codes "Sec-WebSocket-Version", codes " 13")
    ∷ (codes "Sec-WebSocket-Key", codes " " ++ key)
    ∷ []

abbrev pub upgrade_request : List ℕ → List ℕ → List ℕ → Headers → List ℕ → List ℕ
upgrade_request path host key more body =
    request_text (codes "GET") path (codes "HTTP/1.1") (upgrade_headers host key ++ more) body

blank_space : is_blank 32 ≡ true
unfolding is_blank
blank_space = refl

rtrim-word : (word : List ℕ) → All (λ (c : ℕ). is_blank c ≡ false) word → rtrim word ≡ word
unfolding rtrim
rtrim-word [] h = refl
rtrim-word (c ∷ rest) (h, hs) = ground (arith, h, rtrim-word rest hs)

trim-word : (word : List ℕ) → IsWord word → trim (32 ∷ word) ≡ word
unfolding trim rtrim skip_blanks
trim-word [] (e, h) = ground (arith, e)
trim-word (c ∷ rest) (e, h) = rw (rtrim-word (c ∷ rest) h) (ground (arith, h.0, blank_space))

get_IsWord : IsWord (codes "GET")
unfolding is_blank
get_IsWord = ground arith

version_IsWord : IsWord (codes "HTTP/1.1")
unfolding is_blank
version_IsWord = ground arith

-- The response of RFC 6455 with an accept key, in the order of the names of its headers.
abbrev pub accepted : List ℕ → List ℕ
accepted accept =
    codes "HTTP/1.1 101 Switching Protocols"
    ++ (13 ∷ 10 ∷ codes "Connection: Upgrade"
        ++ (13 ∷ 10 ∷ codes "Upgrade: websocket"
            ++ (13 ∷ 10 ∷ codes "Sec-WebSocket-Accept: " ++ (accept ++ (13 ∷ 10 ∷ 13 ∷ 10 ∷ [])))))

abbrev pub read : List ℕ → List ℕ → List ℕ → Headers → HttpRequest
read path host key more =
    with_headers (new_request (codes "GET") path (codes "HTTP/1.1"))
      (upgrade_headers host key ++ more)

first_headers-IsAccepted :
    (path host key : List ℕ) → IsWord key → length key ≡ 24 → IsAccepted (read path host key []) key
unfolding with_headers with_header is_valid_request validate_header same_header find_header put same
    precedes trim rtrim skip_blanks is_blank
first_headers-IsAccepted path host key w size =
    let trimmed = trim-word key w in (ground (arith, trimmed, size), trimmed, refl)

read-IsAccepted :
    (path host key : List ℕ) (more : Headers)
    → All IsOther more
    → IsWord key
    → length key ≡ 24
    → IsAccepted (read path host key more) key
unfolding with_headers
read-IsAccepted path host key more others w size =
    with_headers-IsAccepted (read path host key []) key more size others
      (first_headers-IsAccepted path host key w size)

upgrade_headers-IsHeader :
    (host key : List ℕ) (more : Headers)
    → OnOneLine host
    → IsWord key
    → All IsHeader more
    → All IsHeader (upgrade_headers host key ++ more)
upgrade_headers-IsHeader host key more h w m =
    let key_line = word-OnOneLine key w.1 in
    (
      (ground arith, ground arith, (refl, h)),
      (
        ground arith,
        (ground arith, (ground arith, ((ground arith, ground arith, (refl, key_line)), m))),
      ),
    )

-- The request with these headers is valid: its method and version are read, its key is the one it sent.
pub validate_request-upgrade_request :
    (path host key : List ℕ) (more : Headers) (body : List ℕ)
    → All IsHeader more
    → All IsOther more
    → IsWord path
    → OnOneLine host
    → IsWord key
    → length key ≡ 24
    → validate_request (upgrade_request path host key more body) ≡ some (read path host key more)
unfolding validate_request
validate_request-upgrade_request path host key more body m others p h w size = ground (
  arith,
  parse_request-request_text (codes "GET") path (codes "HTTP/1.1") body
      (upgrade_headers host key ++ more) get_IsWord p version_IsWord
      (upgrade_headers-IsHeader host key more h w m),
  (read-IsAccepted path host key more others w size).0,
)

module _ (sha1 : List ℕ → Option (List ℕ)) (encode_block : List ℕ → List ℕ) where
  generate_response-accepted :
      (request : HttpRequest) (key digest : List ℕ)
      → request.version ≡ codes "HTTP/1.1"
      → request.websocket_key ≡ key
      → sha1 (key ++ magic) ≡ some digest
      → generate_response sha1 encode_block request ≡ accepted (encode_block digest)
  unfolding generate_response compute_accept_key response_text header_lines put precedes same
  generate_response-accepted request key digest version its_key e =
      rw (generate_response, compute_accept_key, its_key, e, response_text, version) refl

  -- What the server answers to it, given the digest.
  pub generate_response-read :
      (path host key digest : List ℕ) (more : Headers)
      → All IsOther more
      → IsWord key
      → length key ≡ 24
      → sha1 (key ++ magic) ≡ some digest
      → generate_response sha1 encode_block (read path host key more)
        ≡ accepted (encode_block digest)
  generate_response-read path host key digest more others w size e =
      let facts = read-IsAccepted path host key more others w size in
      generate_response-accepted (read path host key more) key digest (facts.2) (facts.1) e
