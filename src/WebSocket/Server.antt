-- ===== src/WebSocket/Server.antt =====
-- backend/WEBSOCKET/src/WebSocketServer.cpp: the handshake over the socket, and the two threads. What
-- `recv` and `send` return is an argument; the calls that set up and close the socket are left out.
pub mod Handshake
pub mod Running
use full_stack_shinfeld.Common.{
  ℕ, ◌++◌, Bool, List, [], ◌∷◌, Option, none, some, take, if◌then◌else◌,
}
use full_stack_shinfeld.Text.{break_on}
use full_stack_shinfeld.WebSocket.Http.{HttpRequest, generate_response, validate_request}

-- `char buffer[1024]`, of which the last byte is the end of the string, and `uint8_t buffer[1024]`.
abbrev pub request_size : ℕ
request_size = 1023

abbrev pub buffer_size : ℕ
buffer_size = 1024

-- `std::string(buffer)`: the bytes before the first zero.
unfoldable pub c_string : List ℕ → List ℕ
c_string bytes = elim (break_on 0 bytes) [ none ↦ bytes | some (before, _) ↦ before ]

-- The handshake is waiting, or the response was handed to `send`, which succeeded or failed.
pub data Established : Type 0 where
  waiting : Established
  established : List ℕ → Established
  failed : Established

module _ (sha1 : List ℕ → Option (List ℕ)) (encode_block : List ℕ → List ℕ) where
  unfoldable pub respond : Bool → HttpRequest → Established
  respond succeeds request =
      if succeeds
      then Established.established (generate_response sha1 encode_block request)
      else Established.failed

  -- The loop of `establishHttpConnection` over what `recv` gives in turn: bytes, or `none` for an error
  -- or the end of the connection. Every chunk is taken for a whole request.
  unfoldable pub establish : Bool → List (Option (List ℕ)) → Established
  establish succeeds [] = Established.waiting
  establish succeeds (none ∷ rest) = establish succeeds rest
  establish succeeds (some bytes ∷ rest) =
      elim (validate_request (c_string (take request_size bytes))) [
        | none ↦ establish succeeds rest
        | some request ↦ respond succeeds request
      ]

-- `receiveData`: the chunks up to the first failure are pushed.
unfoldable pub receive_data : List (List ℕ) → List (Option (List ℕ)) → List (List ℕ)
receive_data queue [] = queue
receive_data queue (none ∷ rest) = queue
receive_data queue (some bytes ∷ rest) = receive_data (queue ++ take buffer_size bytes ∷ []) rest
