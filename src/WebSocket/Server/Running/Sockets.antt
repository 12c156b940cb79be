-- ===== src/WebSocket/Server/Running/Sockets.antt =====
-- The sockets that a server of backend/WEBSOCKET/src/WebSocketServer.cpp opens and closes.
use mathlib.Core.Path.{subst}
use full_stack_shinfeld.Common.{
  ℕ, ◌≡◌, refl, ap, ◌∙◌, ◌++◌, Bool, true, false, List, [], ◌∷◌, Option, none, some, append_assoc,
}
use full_stack_shinfeld.Tcp.Queue.{close}
use full_stack_shinfeld.Sockets.{
  Descriptor, SystemCall, still_open, still_open-append, without_same, five,
}
use full_stack_shinfeld.WebSocket.Server.{Established}
use full_stack_shinfeld.WebSocket.Server.Running.{
  WebSocketServer, Answers, start, stop, called, socket_init, init_with, accept_client, http_result,
  close_if_open,
}

-- The calls of a start with the two descriptors, and of the stop after it.
abbrev start_calls : ℕ → ℕ → ℕ → List SystemCall
start_calls s c port =
    SystemCall.socket s
    ∷ SystemCall.bind s port
    ∷ SystemCall.set_timeout s 5
    ∷ SystemCall.listen s 5
    ∷ SystemCall.accept c
    ∷ []

abbrev stop_calls : ℕ → ℕ → List SystemCall
stop_calls s c =
    SystemCall.shut_down (Descriptor.descriptor c)
    ∷ SystemCall.shut_down (Descriptor.descriptor s)
    ∷ SystemCall.close_socket (Descriptor.descriptor c)
    ∷ SystemCall.close_socket (Descriptor.descriptor s)
    ∷ []

-- A server that runs with its two sockets.
pub record IsRunning (before after : WebSocketServer) : Type 0 where
  pub server_fd : ℕ
  pub client_fd : ℕ
  pub at_server : after.server_socket ≡ Descriptor.descriptor server_fd
  pub at_client : after.client_socket ≡ Descriptor.descriptor client_fd
  pub is_running : after.running ≡ true
  pub receives : after.receiver_thread ≡ true
  pub sends : after.sender_thread ≡ true
  pub made : after.calls ≡ before.calls ++ start_calls server_fd client_fd before.port

-- The server after a start that succeeds with the two descriptors.
abbrev running_with : WebSocketServer → ℕ → ℕ → WebSocketServer
running_with server s c = record server {
  server_socket = Descriptor.descriptor s;
  client_socket = Descriptor.descriptor c;
  running = true;
  sender_thread = true;
  receiver_thread = true;
  calls =
      ((((server.calls ++ SystemCall.socket s ∷ []) ++ SystemCall.bind s server.port ∷ [])
          ++ SystemCall.set_timeout s 5 ∷ [])
        ++ SystemCall.listen s 5 ∷ [])
      ++ SystemCall.accept c ∷ [];
}

running_with-IsRunning :
    (server : WebSocketServer) (s c : ℕ) → IsRunning server (running_with server s c)
running_with-IsRunning server s c = record {
  server_fd = s;
  client_fd = c;
  at_server = refl;
  at_client = refl;
  is_running = refl;
  receives = refl;
  sends = refl;
  made = five server.calls _ _ _ _ _;
}

module _ (server after : WebSocketServer) where
  start-IsRunning :
      (socket accept : Option ℕ) (binds times listens : Bool) (handshake : Established)
      → start
          (record {
            socket_gives = socket;
            bind_succeeds = binds;
            timeout_succeeds = times;
            listen_succeeds = listens;
            accept_gives = accept;
          })
          handshake
          server
        ≡ some (after, true)
      → IsRunning server after
  unfolding start socket_init init_with accept_client http_result called
  start-IsRunning none accept binds times listens handshake e = absurd (cc)
  start-IsRunning (some s) accept false times listens handshake e = absurd (cc)
  start-IsRunning (some s) accept true false listens handshake e = absurd (cc)
  start-IsRunning (some s) accept true true false handshake e = absurd (cc)
  start-IsRunning (some s) none true true true handshake e = absurd (cc)
  start-IsRunning (some s) (some c) true true true Established.waiting e = absurd (cc)
  start-IsRunning (some s) (some c) true true true Established.failed e = absurd (cc)
  start-IsRunning (some s) (some c) true true true (Established.established r) e =
      let same : running_with server s c ≡ after = cc in
      subst (λ x. IsRunning server x) same (running_with-IsRunning server s c)

-- What is left of a server that was stopped.
pub record IsStopped (before after : WebSocketServer) : Type 0 where
  pub closes_sockets : (fds : List ℕ) → still_open fds after.calls ≡ still_open fds before.calls
  pub not_running : after.running ≡ false
  pub receives_no_more : after.receiver_thread ≡ false
  pub sends_no_more : after.sender_thread ≡ false
  pub receiver_closed : after.receiver_queue.closed ≡ true
  pub sender_closed : after.sender_queue.closed ≡ true

balanced :
    (fds : List ℕ) (s c port : ℕ) → still_open fds (start_calls s c port ++ stop_calls s c) ≡ fds
unfolding still_open
balanced fds s c port = rw (without_same c (s ∷ fds)) (without_same s fds)

stop_with :
    (server : WebSocketServer) (s c : ℕ)
    → server.server_socket ≡ Descriptor.descriptor s
    → server.client_socket ≡ Descriptor.descriptor c
    → stop server
      ≡ some (record server {
        running = false;
        sender_queue = close server.sender_queue;
        receiver_queue = close server.receiver_queue;
        receiver_thread = false;
        sender_thread = false;
        calls =
            (((server.calls ++ SystemCall.shut_down (Descriptor.descriptor c) ∷ [])
                ++ SystemCall.shut_down (Descriptor.descriptor s) ∷ [])
              ++ SystemCall.close_socket (Descriptor.descriptor c) ∷ [])
            ++ SystemCall.close_socket (Descriptor.descriptor s) ∷ [];
      })
unfolding stop close_if_open called
stop_with server s c e f = rw (e, f) refl

four :
    (calls : List SystemCall) (a b c d : SystemCall)
    → (((calls ++ a ∷ []) ++ b ∷ []) ++ c ∷ []) ++ d ∷ [] ≡ calls ++ a ∷ b ∷ c ∷ d ∷ []
four [] a b c d = refl
four (x ∷ calls) a b c d = ap (λ l. x ∷ l) (four calls a b c d)

all_closed :
    (fds : List ℕ) (calls : List SystemCall) (s c port : ℕ)
    → still_open fds ((calls ++ start_calls s c port) ++ stop_calls s c) ≡ still_open fds calls
all_closed fds calls s c port =
    ap (λ l. still_open fds l) (append_assoc calls (start_calls s c port) (stop_calls s c))
    ∙ still_open-append fds calls (start_calls s c port ++ stop_calls s c)
    ∙ balanced (still_open fds calls) s c port

running-IsStopped :
    (server after : WebSocketServer)
    → IsRunning server after
    → (stopped : WebSocketServer) × (stop after ≡ some stopped) × IsStopped server stopped
unfolding close
running-IsStopped server after r = (
  _,
  stop_with after r.server_fd r.client_fd r.at_server r.at_client,
  record {
    closes_sockets = λ fds.
        ap (λ l. still_open fds l)
          (four after.calls _ _ _ _ ∙ ap (λ l. l ++ stop_calls r.server_fd r.client_fd) r.made)
        ∙ all_closed fds server.calls r.server_fd r.client_fd server.port;
    not_running = refl;
    receives_no_more = refl;
    sends_no_more = refl;
    receiver_closed = refl;
    sender_closed = refl;
  },
)

-- When `start` returns true, then the server runs, and `stop` reads no member that is not initialised;
-- after it no thread is left, both queues are closed, and of the sockets exactly those are open that
-- were before the start.
pub start-stop :
    (answers : Answers) (handshake : Established) (server after : WebSocketServer)
    → start answers handshake server ≡ some (after, true)
    → (after.running ≡ true)
      × ((stopped : WebSocketServer) × (stop after ≡ some stopped) × IsStopped server stopped)
start-stop answers handshake server after e =
    let r =
      start-IsRunning server after answers.socket_gives answers.accept_gives answers.bind_succeeds
        answers.timeout_succeeds answers.listen_succeeds handshake e in
    (r.is_running, running-IsStopped server after r)
