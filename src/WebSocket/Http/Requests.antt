-- ===== src/WebSocket/Http/Requests.antt =====
-- A request as it is written, and what `parseRequest` of backend/WEBSOCKET/src/HttpHandler.cpp reads.
use full_stack_shinfeld.Common.{
  ℕ, zero, suc, ◌<◌, ◌≤◌, ◌≡◌, refl, ◌∙◌, ◌++◌, true, false, List, [], ◌∷◌, some, length,
  length-append, All, All-append, ◌==◌, arith, if◌then◌else◌,
}
use full_stack_shinfeld.Text.{IsWord, same, is_blank, skip_blanks, break_on, break_by-append}
use full_stack_shinfeld.WebSocket.Http.{
  Headers, HttpRequest, ends_headers, get_line, get_word, parse_first_line, parse_headers,
  parse_request, rtrim, trim, with_header, with_line,
}

-- No byte is a line feed.
abbrev pub OnOneLine : List ℕ → Type 0
OnOneLine text = All (λ (c : ℕ). (c == 10) ≡ false) text

-- A header has its name before the first colon, and stands on one line.
abbrev pub IsHeader : List ℕ × List ℕ → Type 0
IsHeader (key, value) = All (λ (c : ℕ). (c == b':') ≡ false) key × OnOneLine key × OnOneLine value

abbrev header_line : List ℕ → List ℕ → List ℕ
header_line key value = key ++ b':' ∷ (value ++ 13 ∷ [])

unfoldable pub headers_text : List ℕ → Headers → List ℕ
headers_text body [] = (13 ∷ []) ++ 10 ∷ body
headers_text body ((key, value) ∷ rest) = header_line key value ++ 10 ∷ headers_text body rest

abbrev pub request_text : List ℕ → List ℕ → List ℕ → Headers → List ℕ → List ℕ
request_text method path version headers body =
    (method ++ 32 ∷ (path ++ 32 ∷ (version ++ 13 ∷ []))) ++ 10 ∷ headers_text body headers

-- The headers one after the other, trimmed.
unfoldable pub with_headers : HttpRequest → Headers → HttpRequest
with_headers request [] = request
with_headers request ((key, value) ∷ rest) =
    with_headers (with_header request (trim key) (trim value)) rest

abbrev pub new_request : List ℕ → List ℕ → List ℕ → HttpRequest
new_request method path version = record {
  method = method;
  path = path;
  version = version;
  headers = [];
  websocket_key = [];
  origin = [];
}

rtrim-append : (value : List ℕ) → rtrim (value ++ 13 ∷ []) ≡ rtrim value
unfolding rtrim is_blank
rtrim-append [] = refl
rtrim-append (c ∷ rest) = ground (arith, rtrim-append rest)

trim-append : (value : List ℕ) → trim (value ++ 13 ∷ []) ≡ trim value
unfolding trim
trim-append value = rw (rtrim-append value) refl

get_line-append :
    (line rest : List ℕ) → OnOneLine line → get_line (line ++ 10 ∷ rest) ≡ some (line, rest)
unfolding get_line break_on
get_line-append line rest h =
    ground (arith, break_by-append (λ (c : ℕ). c == 10) line 10 rest h refl)

with_line-header :
    (request : HttpRequest) (key value : List ℕ)
    → IsHeader (key, value)
    → with_line request (header_line key value) ≡ with_header request (trim key) (trim value)
unfolding with_line break_on
with_line-header request key value h = ground (
  arith,
  break_by-append (λ (c : ℕ). c == b':') key b':' (value ++ 13 ∷ []) h.0 refl,
  trim-append value,
)

goes_on : (key value : List ℕ) → ends_headers (header_line key value) ≡ false
unfolding ends_headers same
goes_on [] value = refl
goes_on (c ∷ []) value = ground arith
goes_on (c ∷ d ∷ key) value = ground arith

line-OnOneLine : (key value : List ℕ) → IsHeader (key, value) → OnOneLine (header_line key value)
line-OnOneLine key value h =
    All-append (λ (c : ℕ). (c == 10) ≡ false) key (b':' ∷ (value ++ 13 ∷ [])) h.1
      (refl, All-append (λ (c : ℕ). (c == 10) ≡ false) value (13 ∷ []) h.2 (refl, _))

parse_headers-line :
    (fuel : ℕ) (request : HttpRequest) (line rest : List ℕ)
    → OnOneLine line
    → parse_headers (suc fuel) request (line ++ 10 ∷ rest)
      ≡ (if ends_headers line then request else parse_headers fuel (with_line request line) rest)
unfolding parse_headers
parse_headers-line fuel request line rest h = ground (arith, get_line-append line rest h)

parse_headers-headers_text :
    (fuel : ℕ) (request : HttpRequest) (body : List ℕ) (headers : Headers)
    → length headers < fuel
    → All IsHeader headers
    → parse_headers fuel request (headers_text body headers) ≡ with_headers request headers
unfolding headers_text with_headers ends_headers same
parse_headers-headers_text zero request body headers small h = ground (arith, small)
parse_headers-headers_text (suc fuel) request body [] small h =
    parse_headers-line fuel request (13 ∷ []) body (refl, _)
parse_headers-headers_text (suc fuel) request body ((key, value) ∷ rest) small h =
    parse_headers-line fuel request (header_line key value) (headers_text body rest)
      (line-OnOneLine key value h.0)
    ∙ rw (goes_on key value, with_line-header request key value h.0)
        (parse_headers-headers_text fuel (with_header request (trim key) (trim value)) body rest
          (omega arith) h.1)

length-headers_text :
    (body : List ℕ) (headers : Headers) → length headers ≤ length (headers_text body headers)
unfolding headers_text
length-headers_text body [] = omega arith
length-headers_text body ((key, value) ∷ rest) = omega (
  arith,
  length-append (header_line key value) (10 ∷ headers_text body rest),
  length-headers_text body rest,
)

space_blank : is_blank 32 ≡ true
unfolding is_blank
space_blank = refl

return_blank : is_blank 13 ≡ true
unfolding is_blank
return_blank = refl

get_word-append :
    (word : List ℕ) (c : ℕ) (rest : List ℕ)
    → IsWord word
    → is_blank c ≡ true
    → get_word (word ++ c ∷ rest) ≡ some (word, rest)
unfolding get_word skip_blanks
get_word-append [] c rest (e, h) b = ground (arith, e)
get_word-append (d ∷ word) c rest (e, h) b =
    ground (arith, h.0, break_by-append is_blank (d ∷ word) c rest h b)

parse_first_line-words :
    (method path version : List ℕ)
    → IsWord method
    → IsWord path
    → IsWord version
    → parse_first_line (method ++ 32 ∷ (path ++ 32 ∷ (version ++ 13 ∷ [])))
      ≡ some (new_request method path version)
unfolding parse_first_line
parse_first_line-words method path version m p v = ground (
  arith,
  get_word-append method 32 (path ++ 32 ∷ (version ++ 13 ∷ [])) m space_blank,
  get_word-append path 32 (version ++ 13 ∷ []) p space_blank,
  get_word-append version 13 [] v return_blank,
)

-- A blank is what `isspace` says; a line feed is one, so no word has one.
pub word-OnOneLine : (word : List ℕ) → All (λ (c : ℕ). is_blank c ≡ false) word → OnOneLine word
unfolding is_blank
word-OnOneLine [] h = _
word-OnOneLine (c ∷ rest) (h, hs) = (ground (arith, h), word-OnOneLine rest hs)

first_line-OnOneLine :
    (method path version : List ℕ)
    → IsWord method
    → IsWord path
    → IsWord version
    → OnOneLine (method ++ 32 ∷ (path ++ 32 ∷ (version ++ 13 ∷ [])))
first_line-OnOneLine method path version m p v =
    let no_feed = λ (c : ℕ). (c == 10) ≡ false in
    All-append no_feed method (32 ∷ (path ++ 32 ∷ (version ++ 13 ∷ []))) (word-OnOneLine method m.1)
      (
        refl,
        All-append no_feed path (32 ∷ (version ++ 13 ∷ [])) (word-OnOneLine path p.1)
            (refl, All-append no_feed version (13 ∷ []) (word-OnOneLine version v.1) (refl, _)),
      )

-- A request that is written as a first line of three words, lines of headers and an empty line, is
-- read as these words and the headers one after the other, their names and values trimmed, whatever
-- follows the empty line.
pub parse_request-request_text :
    (method path version body : List ℕ) (headers : Headers)
    → IsWord method
    → IsWord path
    → IsWord version
    → All IsHeader headers
    → parse_request (request_text method path version headers body)
      ≡ some (with_headers (new_request method path version) headers)
unfolding parse_request
parse_request-request_text method path version body headers m p v h =
    let rest = headers_text body headers in
    ground (
      arith,
      get_line-append (method ++ 32 ∷ (path ++ 32 ∷ (version ++ 13 ∷ []))) rest
          (first_line-OnOneLine method path version m p v),
      parse_first_line-words method path version m p v,
      parse_headers-headers_text (suc (length rest)) (new_request method path version) body headers
          (omega (arith, length-headers_text body headers)) h,
    )
