-- ===== src/Examples/Servers.antt =====
-- A logger whose file is opened, and a server of the frames that is started and stopped.
use full_stack_shinfeld.Common.{
  ℕ, ◌≡◌, refl, ◌++◌, true, List, [], ◌∷◌, some, is_empty, if◌then◌else◌,
}
use full_stack_shinfeld.Text.{codes}
use full_stack_shinfeld.Logger.{
  LogLevel, Formatting, Logger, new_logger, set_priority, enable_file_output,
  generate_log_file_name,
}
use full_stack_shinfeld.Logger.Filter.{Call, src, plain, log_all, select, text_of, enable-log_all}
use full_stack_shinfeld.Sockets.{Descriptor, SystemCall}
use full_stack_shinfeld.Tcp.Queue.{new_queue}
use full_stack_shinfeld.WebSocket.Server.{established}
use full_stack_shinfeld.WebSocket.Server.Running.{
  WebSocketServer, Answers, new_server, start, stop, called, socket_init, init_with, accept_client,
  http_result,
}
use full_stack_shinfeld.WebSocket.Server.Running.Sockets.{IsStopped, start-stop}

-- A format that is copied, and numbers in unary.
abbrev simple : Formatting ℕ
simple = record {
  put_time = λ format seconds. format;
  decimal = λ n. n ∷ [];
  format = λ msg args. msg ++ args;
}

abbrev warnings_on : Logger
warnings_on = set_priority new_logger LogLevel.warning

abbrev two_calls : List (Call ℕ)
two_calls =
    src 1000 12 (codes "Client.cpp") LogLevel.error (codes "lost") []
    ∷ plain 1001 LogLevel.info (codes "ready") (7 ∷ [])
    ∷ []

enable-log_all_example :
    (log_all simple
      (enable_file_output simple true 1000 warnings_on (codes "a.log")).0
      two_calls).written
    ≡ warnings_on.written
      ++ (if true
          then select
              (λ call. (
                if is_empty (codes "a.log")
                    then generate_log_file_name simple (codes "app") 1000
                    else codes "a.log",
                text_of simple call,
              ))
              warnings_on.priority
              two_calls
          else [])
enable-log_all_example = enable-log_all simple true 1000 warnings_on (codes "a.log") two_calls

abbrev server : WebSocketServer
server = new_server new_queue new_queue 8080

abbrev all_succeed : Answers
all_succeed = record {
  socket_gives = some 3;
  bind_succeeds = true;
  timeout_succeeds = true;
  listen_succeeds = true;
  accept_gives = some 4;
}

-- The server after the five calls of a start that succeeds.
abbrev running : WebSocketServer
running = record server {
  server_socket = Descriptor.descriptor 3;
  client_socket = Descriptor.descriptor 4;
  running = true;
  sender_thread = true;
  receiver_thread = true;
  calls =
      SystemCall.socket 3
      ∷ SystemCall.bind 3 8080
      ∷ SystemCall.set_timeout 3 5
      ∷ SystemCall.listen 3 5
      ∷ SystemCall.accept 4
      ∷ [];
}

server_starts : start all_succeed (established []) server ≡ some (running, true)
unfolding start socket_init init_with accept_client http_result called new_server
server_starts = refl

start-stop_example :
    (running.running ≡ true)
    × ((stopped : WebSocketServer) × (stop running ≡ some stopped) × IsStopped server stopped)
start-stop_example = start-stop all_succeed (established []) server running server_starts
