-- ===== src/WebSocket/Server/Running.antt =====
-- How a server of backend/WEBSOCKET/src/WebSocketServer.cpp is started and stopped. What the system
-- calls return is an argument, and the calls that are made are kept in order; a thread is a flag that
-- says whether it may be joined.
pub mod Sockets
use full_stack_shinfeld.Common.{
  ℕ, ◌++◌, Bool, true, false, List, [], ◌∷◌, Option, none, some, if◌then◌else◌,
}
use full_stack_shinfeld.Tcp.Queue.{Queue, Popped, close, pop}
use full_stack_shinfeld.Sockets.{Descriptor, SystemCall}
use full_stack_shinfeld.WebSocket.Server.{Established}

pub record WebSocketServer : Type 0 where
  pub port : ℕ
  pub server_socket : Descriptor
  pub client_socket : Descriptor
  pub receiver_queue : Queue (List ℕ)
  pub sender_queue : Queue (List ℕ)
  pub receiver_thread : Bool
  pub sender_thread : Bool
  pub running : Bool
  pub calls : List SystemCall

-- What the system will answer: the descriptors of `socket` and `accept`, or `none` for a negative
-- result, and whether the others succeed.
pub record Answers : Type 0 where
  pub socket_gives : Option ℕ
  pub bind_succeeds : Bool
  pub timeout_succeeds : Bool
  pub listen_succeeds : Bool
  pub accept_gives : Option ℕ

abbrev pub default_listen : ℕ
default_listen = 5

-- `tv_sec`.
abbrev pub timeout_seconds : ℕ
timeout_seconds = 5

unfoldable pub new_server : Queue (List ℕ) → Queue (List ℕ) → ℕ → WebSocketServer
new_server receiver_queue sender_queue port = record {
  port = port;
  server_socket = Descriptor.unset;
  client_socket = Descriptor.unset;
  receiver_queue = receiver_queue;
  sender_queue = sender_queue;
  receiver_thread = false;
  sender_thread = false;
  running = false;
  calls = [];
}

unfoldable pub called : WebSocketServer → SystemCall → WebSocketServer
called server call = record server { calls = server.calls ++ call ∷ [] }

-- With the socket: the three calls that follow, each only if the one before succeeds.
unfoldable pub init_with : Answers → WebSocketServer → ℕ → WebSocketServer × Bool
init_with answers server fd =
    let bound = called server (SystemCall.bind fd server.port) in
    let timed = called bound (SystemCall.set_timeout fd timeout_seconds) in
    let listening = called timed (SystemCall.listen fd default_listen) in
    if answers.bind_succeeds
    then (if answers.timeout_succeeds then (listening, answers.listen_succeeds) else (timed, false))
    else (bound, false)

unfoldable pub socket_init : Answers → WebSocketServer → WebSocketServer × Bool
socket_init answers server = elim answers.socket_gives [
  | none ↦ (record server { server_socket = Descriptor.negative }, false)
  | some fd ↦
      init_with answers
        (called (record server { server_socket = Descriptor.descriptor fd }) (SystemCall.socket fd))
        fd
]

unfoldable pub accept_client : Answers → WebSocketServer → WebSocketServer × Bool
accept_client answers server = elim answers.accept_gives [
  | none ↦ (record server { client_socket = Descriptor.negative }, false)
  | some fd ↦ (
    called (record server { client_socket = Descriptor.descriptor fd }) (SystemCall.accept fd),
    true,
  )
]

-- The result of `establishHttpConnection`; `none` as long as it waits.
unfoldable pub http_result : Established → Option Bool
http_result Established.waiting = none
http_result (Established.established response) = some true
http_result Established.failed = some false

-- `start` and its result; `none` as long as the handshake waits.
unfoldable pub start : Answers → Established → WebSocketServer → Option (WebSocketServer × Bool)
start answers handshake server =
    let ready = socket_init answers server in
    let accepted = accept_client answers ready.0 in
    if ready.1
    then (if accepted.1
        then elim (http_result handshake) [
          | none ↦ none
          | some false ↦ some (accepted.0, false)
          | some true ↦ some (
            record (accepted.0) { running = true; sender_thread = true; receiver_thread = true },
            true,
          )
        ]
        else some (accepted.0, false))
    else some (ready.0, false)

-- `if (fd >= 0) close(fd)`; `none` where the member is read before it is initialised.
unfoldable pub close_if_open : Descriptor → WebSocketServer → Option WebSocketServer
close_if_open Descriptor.unset server = none
close_if_open Descriptor.negative server = some server
close_if_open (Descriptor.descriptor fd) server =
    some (called server (SystemCall.close_socket (Descriptor.descriptor fd)))

-- `stop`, which joins the threads; `none` where it reads a member that is not initialised.
unfoldable pub stop : WebSocketServer → Option WebSocketServer
stop server =
    let closing : WebSocketServer = record server {
      running = false;
      sender_queue = close server.sender_queue;
      receiver_queue = close server.receiver_queue;
    } in
    let shut =
      called (called closing (SystemCall.shut_down server.client_socket))
        (SystemCall.shut_down server.server_socket) in
    let joined : WebSocketServer = record shut { receiver_thread = false; sender_thread = false } in
    elim (close_if_open server.client_socket joined) [
      | none ↦ none
      | some closed ↦ close_if_open server.server_socket closed
    ]

-- What one round of `sendData` does with the queue of the sender: it waits in `pop`, finds the queue
-- closed, or hands the bytes of an item to `send`.
pub data SendRound : Type 0 where
  waits ignored : SendRound
  sends : List ℕ → Queue (List ℕ) → SendRound

unfoldable pub send_round : Queue (List ℕ) → SendRound
send_round queue = elim (pop queue) [
  | Popped.waits ↦ SendRound.waits
  | Popped.closed_and_empty ↦ SendRound.ignored
  | Popped.item bytes rest ↦ SendRound.sends bytes rest
]
