-- ===== src/WebSocket/Http/Others.antt =====
-- What backend/WEBSOCKET/src/HttpHandler.cpp makes of headers whose value it does not test.
use full_stack_shinfeld.Common.{
  Bool-cases, inl, inr, ◌∙◌, sym, ℕ, ◌≡◌, true, false, List, [], ◌∷◌, length, All, arith,
}
use full_stack_shinfeld.Text.{codes, same}
use full_stack_shinfeld.WebSocket.Http.{
  Headers, HttpRequest, find_header, is_valid_request, put, trim, validate_header, with_header,
}
use full_stack_shinfeld.WebSocket.Http.Requests.{with_headers}

-- A valid request with its key.
abbrev pub IsAccepted : HttpRequest → List ℕ → Type 0
IsAccepted request key =
    (is_valid_request request ≡ true)
    × (request.websocket_key ≡ key)
    × (request.version ≡ codes "HTTP/1.1")

-- A header that is none of the three whose value the code tests.
abbrev pub IsOther : List ℕ × List ℕ → Type 0
IsOther (key, value) =
    (same (codes "Upgrade") (trim key) ≡ false)
    × (same (codes "Connection") (trim key) ≡ false)
    × (same (codes "Sec-WebSocket-Version") (trim key) ≡ false)

same-trans-false : (k j i : List ℕ) → same k j ≡ false → same j i ≡ true → same k i ≡ false
unfolding same
same-trans-false [] [] i different e = ground arith
same-trans-false [] (y ∷ j) [] different e = ground arith
same-trans-false [] (y ∷ j) (z ∷ i) different e = ground arith
same-trans-false (x ∷ k) [] [] different e = ground arith
same-trans-false (x ∷ k) [] (z ∷ i) different e = ground arith
same-trans-false (x ∷ k) (y ∷ j) [] different e = ground arith
same-trans-false (x ∷ k) (y ∷ j) (z ∷ i) different e =
    let tail : same j i ≡ true = ground (arith, e) in
    elim (Bool-cases (same k j)) [
      | inl t ↦ ground (arith, t, tail, different, e)
      | inr t ↦ ground (arith, same-trans-false k j i t tail)
    ]

find_header-put :
    (k j v : List ℕ) (headers : Headers)
    → same k j ≡ false
    → find_header k (put j v headers) ≡ find_header k headers
unfolding put find_header
find_header-put k j v [] different = ground (arith, different)
find_header-put k j v ((i, w) ∷ rest) different = elim (Bool-cases (same j i)) [
  | inl t ↦ ground (arith, t, different, same-trans-false k j i different t)
  | inr t ↦ ground (arith, t, different, find_header-put k j v rest different)
]

validate_header-with_header :
    (request : HttpRequest) (k v name expected : List ℕ)
    → same name k ≡ false
    → validate_header (with_header request k v) name expected
      ≡ validate_header request name expected
unfolding validate_header with_header
validate_header-with_header request k v name expected different =
    ground (arith, find_header-put name k v request.headers different)

with_header-same :
    (request : HttpRequest) (k v key : List ℕ)
    → request.websocket_key ≡ key
    → length key ≡ 24
    → ((with_header request k v).websocket_key ≡ key)
      × ((with_header request k v).version ≡ request.version)
      × ((with_header request k v).method ≡ request.method)
unfolding with_header
with_header-same request k v [] its_key size = absurd (omega (arith, size))
with_header-same request k v (c ∷ key) its_key size = ground (arith, its_key)

pub with_headers-IsAccepted :
    (request : HttpRequest) (key : List ℕ) (more : Headers)
    → length key ≡ 24
    → All IsOther more
    → IsAccepted request key
    → IsAccepted (with_headers request more) key
unfolding with_headers is_valid_request
with_headers-IsAccepted request key [] size others h = h
with_headers-IsAccepted request key ((k, v) ∷ rest) size others h =
    let name = trim k in
    let value = trim v in
    let kept = with_header-same request name value key h.1 size in
    let tested = validate_header-with_header request name value in
    with_headers-IsAccepted (with_header request name value) key rest size others.1 (
      rw
          (
            tested (codes "Upgrade") (codes "websocket") others.0.0,
            tested (codes "Connection") (codes "Upgrade") others.0.1,
            tested (codes "Sec-WebSocket-Version") (codes "13") others.0.2,
            kept.0 ∙ sym h.1,
            kept.1,
            kept.2,
          )
          h.0,
      kept.0,
      kept.1 ∙ h.2,
    )
