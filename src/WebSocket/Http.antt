-- ===== src/WebSocket/Http.antt =====
-- backend/WEBSOCKET/src/HttpHandler.cpp and include/HttpHandler.hpp: the request of the handshake and
-- the answer to it. SHA1 and the base64 encoder are OpenSSL's and are parameters. Logging is left
-- out; a handler is used once, so a function that returns `false` gives `none`.
pub mod Requests
pub mod Others
pub mod Answers
use full_stack_shinfeld.Common.{
  ℕ, zero, suc, ◌++◌, Bool, true, false, ◌&&◌, ◌||◌, not, List, [], ◌∷◌, Option, none, some, ◌==◌,
  ltb, length, is_empty, if◌then◌else◌,
}
use full_stack_shinfeld.Text.{codes, same, is_blank, skip_blanks, break_by, break_on}

-- `std::map<std::string, std::string>`, in the order of the keys.
abbrev pub Headers : Type 0
Headers = List (List ℕ × List ℕ)

unfoldable pub precedes : List ℕ → List ℕ → Bool
precedes xs [] = false
precedes [] (y ∷ ys) = true
precedes (x ∷ xs) (y ∷ ys) = ltb x y || x == y && precedes xs ys

unfoldable pub put : List ℕ → List ℕ → Headers → Headers
put k v [] = (k, v) ∷ []
put k v ((j, w) ∷ rest) =
    if same k j
    then (k, v) ∷ rest
    else if precedes k j
    then (k, v) ∷ (j, w) ∷ rest
    else (j, w) ∷ put k v rest

unfoldable pub find_header : List ℕ → Headers → Option (List ℕ)
find_header k [] = none
find_header k ((j, w) ∷ rest) = if same k j then some w else find_header k rest

pub record HttpRequest : Type 0 where
  pub method : List ℕ
  pub path : List ℕ
  pub version : List ℕ
  pub headers : Headers
  pub websocket_key : List ℕ
  pub origin : List ℕ

pub record HttpResponse : Type 0 where
  pub status_code : List ℕ
  pub status_message : List ℕ
  pub headers : Headers
  pub websocket_accept : List ℕ

unfoldable pub rtrim : List ℕ → List ℕ
rtrim [] = []
rtrim (c ∷ rest) =
    let trimmed = rtrim rest in if is_empty trimmed && is_blank c then [] else c ∷ trimmed

unfoldable pub trim : List ℕ → List ℕ
trim s = skip_blanks (rtrim s)

-- `std::getline`: the line and what is left; `none` at the end.
unfoldable pub get_line : List ℕ → Option (List ℕ × List ℕ)
get_line text = elim (break_on 10 text) [
  | some (line, rest) ↦ some (line, rest)
  | none ↦ if is_empty text then none else some (text, [])
]

-- `stream >> word`.
unfoldable pub get_word : List ℕ → Option (List ℕ × List ℕ)
get_word text = elim (skip_blanks text) [
  | [] ↦ none
  | c ∷ rest ↦ elim (break_by is_blank (c ∷ rest)) [
    | none ↦ some (c ∷ rest, [])
    | some (word, after) ↦ some (word, after)
  ]
]

-- A header with its trimmed name and value.
unfoldable pub with_header : HttpRequest → List ℕ → List ℕ → HttpRequest
with_header request key value =
    if is_empty request.websocket_key && same key (codes "Sec-WebSocket-Key")
    then record request { websocket_key = value }
    else if is_empty request.origin && same key (codes "Origin")
    then record request { origin = value }
    else record request { headers = put key value request.headers }

-- A line without a colon is passed over.
unfoldable pub with_line : HttpRequest → List ℕ → HttpRequest
with_line request line = elim (break_on b':' line) [
  | none ↦ request
  | some (key, value) ↦ with_header request (trim key) (trim value)
]

unfoldable pub ends_headers : List ℕ → Bool
ends_headers line = same line (13 ∷ []) || is_empty line

-- The loop over the lines. Each round takes at least a byte, so more fuel than bytes is enough.
unfoldable pub parse_headers : ℕ → HttpRequest → List ℕ → HttpRequest
parse_headers zero request text = request
parse_headers (suc fuel) request text = elim (get_line text) [
  | none ↦ request
  | some (line, rest) ↦
      let parsed = parse_headers fuel (with_line request line) rest in
      if ends_headers line then request else parsed
]

-- The three words of the first line.
unfoldable pub parse_first_line : List ℕ → Option HttpRequest
parse_first_line line = elim (get_word line) [
  | none ↦ none
  | some (method, rest) ↦ elim (get_word rest) [
    | none ↦ none
    | some (path, rest') ↦ elim (get_word rest') [
      | none ↦ none
      | some (version, _) ↦ some (record {
        method = method;
        path = path;
        version = version;
        headers = [];
        websocket_key = [];
        origin = [];
      })
    ]
  ]
]

unfoldable pub parse_request : List ℕ → Option HttpRequest
parse_request raw = elim (get_line raw) [
  | none ↦ none
  | some (line, rest) ↦ elim (parse_first_line line) [
    | none ↦ none
    | some request ↦ some (parse_headers (suc (length rest)) request rest)
  ]
]

same_header : Option (List ℕ) → List ℕ → Bool
same_header none expected = false
same_header (some value) expected = same value expected

unfoldable pub validate_header : HttpRequest → List ℕ → List ℕ → Bool
unfolding same_header
validate_header request key expected = same_header (find_header key request.headers) expected

unfoldable pub is_valid_request : HttpRequest → Bool
is_valid_request request =
    same request.method (codes "GET")
    && same request.version (codes "HTTP/1.1")
    && validate_header request (codes "Upgrade") (codes "websocket")
    && validate_header request (codes "Connection") (codes "Upgrade")
    && validate_header request (codes "Sec-WebSocket-Version") (codes "13")
    && length request.websocket_key == 24

-- The request, if it is valid.
unfoldable pub validate_request : List ℕ → Option HttpRequest
validate_request raw = elim (parse_request raw) [
  | none ↦ none
  | some request ↦ if is_valid_request request then some request else none
]

abbrev pub magic : List ℕ
magic = codes "258EAFA5-E914-47DA-95CA-C5AB0DC85B11"

unfoldable pub header_lines : Headers → List ℕ
header_lines [] = []
header_lines ((k, v) ∷ rest) = k ++ (codes ": " ++ (v ++ (13 ∷ 10 ∷ header_lines rest)))

-- `SHA1`, which fails when OpenSSL does, and `EVP_EncodeBlock`.
module _ (sha1 : List ℕ → Option (List ℕ)) (encode_block : List ℕ → List ℕ) where
  unfoldable pub compute_accept_key : List ℕ → Option (List ℕ)
  compute_accept_key key = elim (sha1 (key ++ magic)) [
    | none ↦ none
    | some digest ↦ some (encode_block digest)
  ]

  -- The response as it is sent.
  unfoldable pub response_text : HttpRequest → HttpResponse → List ℕ
  response_text request response =
      request.version
      ++ (32 ∷ response.status_code
          ++ (32 ∷ response.status_message
              ++ (13 ∷ 10 ∷ header_lines response.headers
                  ++ (codes "Sec-WebSocket-Accept: "
                      ++ (response.websocket_accept ++ (13 ∷ 10 ∷ 13 ∷ 10 ∷ []))))))

  -- The empty text when the accept key cannot be computed.
  unfoldable pub generate_response : HttpRequest → List ℕ
  generate_response request = elim (compute_accept_key request.websocket_key) [
    | none ↦ []
    | some accept ↦ response_text request (record {
      status_code = codes "101";
      status_message = codes "Switching Protocols";
      headers =
          put (codes "Connection") (codes "Upgrade") (put (codes "Upgrade") (codes "websocket") []);
      websocket_accept = accept;
    })
  ]
