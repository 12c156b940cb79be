-- ===== src/Tcp/SocketHandler/Running.antt =====
-- How the threads of backend/TCP/src/SocketHandler.cpp are started and stopped. What the system calls
-- return is an argument, and the calls that are made are kept in order; a thread is a flag that says
-- whether it may be joined.
use mathlib.Core.Path.{subst}
use full_stack_shinfeld.Common.{
  ℕ, ◌≡◌, ap, ◌∙◌, ◌++◌, Bool, true, false, List, [], ◌∷◌, Option, none, some, if◌then◌else◌,
}
use full_stack_shinfeld.Sockets.{
  Descriptor, SystemCall, still_open, still_open-append, without_same, five,
}
use full_stack_shinfeld.Tcp.Segment.{Segment}
use full_stack_shinfeld.Tcp.Queue.{Queue, close}
use full_stack_shinfeld.Tcp.Connection.{Outgoing}

pub record SocketHandler : Type 0 where
  pub port : ℕ
  pub socketfd : Descriptor
  pub receiver_queue : Queue Segment
  pub sender_queue : Queue Outgoing
  pub receiver_thread : Bool
  pub sender_thread : Bool
  pub running : Bool
  pub calls : List SystemCall

unfoldable pub new_handler : ℕ → Queue Segment → Queue Outgoing → SocketHandler
new_handler port receiver_queue sender_queue = record {
  port = port;
  socketfd = Descriptor.negative;
  receiver_queue = receiver_queue;
  sender_queue = sender_queue;
  receiver_thread = false;
  sender_thread = false;
  running = false;
  calls = [];
}

-- `tv_sec`.
abbrev pub timeout_seconds : ℕ
timeout_seconds = 5

unfoldable pub called : SocketHandler → SystemCall → SocketHandler
called handler call = record handler { calls = handler.calls ++ call ∷ [] }

-- `start`, from what `socket` gives and whether the other two calls succeed; `none` where the process
-- exits.
unfoldable pub start : Option ℕ → Bool → Bool → SocketHandler → Option SocketHandler
start none binds times handler = none
start (some fd) binds times handler =
    let made =
      called (record handler { socketfd = Descriptor.descriptor fd }) (SystemCall.socket fd) in
    let bound = called made (SystemCall.bind fd handler.port) in
    let timed = called bound (SystemCall.set_timeout fd timeout_seconds) in
    if binds
    then (if times
        then some (record timed { running = true; receiver_thread = true; sender_thread = true })
        else none)
    else none

-- `stop`, which joins the threads.
unfoldable pub stop : SocketHandler → SocketHandler
stop handler =
    let closing : SocketHandler = record handler {
      running = false;
      sender_queue = close handler.sender_queue;
      receiver_queue = close handler.receiver_queue;
    } in
    let shut = called closing (SystemCall.shut_down handler.socketfd) in
    let joined : SocketHandler = record shut { receiver_thread = false; sender_thread = false } in
    called joined (SystemCall.close_socket handler.socketfd)

-- The threads after a start with a descriptor.
abbrev running_with : SocketHandler → ℕ → SocketHandler
running_with handler fd = record handler {
  socketfd = Descriptor.descriptor fd;
  running = true;
  receiver_thread = true;
  sender_thread = true;
  calls =
      ((handler.calls ++ SystemCall.socket fd ∷ []) ++ SystemCall.bind fd handler.port ∷ [])
      ++ SystemCall.set_timeout fd timeout_seconds ∷ [];
}

-- After a start that does not end the process, and a stop, exactly those sockets are open that were
-- before.
pub handler_start-stop :
    (socket : Option ℕ) (binds times : Bool) (handler after : SocketHandler) (fds : List ℕ)
    → start socket binds times handler ≡ some after
    → still_open fds (stop after).calls ≡ still_open fds handler.calls
unfolding start stop called still_open
handler_start-stop none binds times handler after fds e = absurd (cc)
handler_start-stop (some fd) false times handler after fds e = absurd (cc)
handler_start-stop (some fd) true false handler after fds e = absurd (cc)
handler_start-stop (some fd) true true handler after fds e =
    let later =
      SystemCall.socket fd
      ∷ SystemCall.bind fd handler.port
      ∷ SystemCall.set_timeout fd timeout_seconds
      ∷ SystemCall.shut_down (Descriptor.descriptor fd)
      ∷ SystemCall.close_socket (Descriptor.descriptor fd)
      ∷ [] in
    let same : running_with handler fd ≡ after = cc in
    subst (λ x. still_open fds (stop x).calls ≡ still_open fds handler.calls) same
      (ap (λ l. still_open fds l) (five handler.calls _ _ _ _ _)
        ∙ still_open-append fds handler.calls later
        ∙ without_same fd (still_open fds handler.calls))
