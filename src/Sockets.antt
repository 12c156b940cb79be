-- ===== src/Sockets.antt =====
-- The calls for sockets that backend/TCP/src/SocketHandler.cpp and
-- backend/WEBSOCKET/src/WebSocketServer.cpp make: the calls themselves as data, and the descriptors that
-- are open after them.
use full_stack_shinfeld.Common.{ℕ, ◌≡◌, refl, ap, ◌++◌, List, [], ◌∷◌, ◌==◌, arith, if◌then◌else◌}

-- A member that is not initialised, a negative result, or a descriptor.
pub data Descriptor : Type 0 where
  unset negative : Descriptor
  descriptor : ℕ → Descriptor

-- A call that the system was given; `socket` and `accept` with the descriptor that they returned, and
-- only if it is not negative.
pub data SystemCall : Type 0 where
  socket accept : ℕ → SystemCall
  bind : ℕ → ℕ → SystemCall
  set_timeout : ℕ → ℕ → SystemCall
  listen : ℕ → ℕ → SystemCall
  shut_down close_socket : Descriptor → SystemCall

-- One descriptor less.
unfoldable pub without : ℕ → List ℕ → List ℕ
without fd [] = []
without fd (x ∷ rest) = if x == fd then rest else x ∷ without fd rest

-- The descriptors that are open after the calls, if those were before.
unfoldable pub still_open : List ℕ → List SystemCall → List ℕ
still_open fds [] = fds
still_open fds (SystemCall.socket fd ∷ rest) = still_open (fd ∷ fds) rest
still_open fds (SystemCall.accept fd ∷ rest) = still_open (fd ∷ fds) rest
still_open fds (SystemCall.close_socket (Descriptor.descriptor fd) ∷ rest) =
    still_open (without fd fds) rest
still_open fds (_ ∷ rest) = still_open fds rest

pub still_open-append :
    (fds : List ℕ) (calls later : List SystemCall)
    → still_open fds (calls ++ later) ≡ still_open (still_open fds calls) later
unfolding still_open
still_open-append fds [] later = refl
still_open-append fds (SystemCall.socket fd ∷ rest) later = still_open-append (fd ∷ fds) rest later
still_open-append fds (SystemCall.accept fd ∷ rest) later = still_open-append (fd ∷ fds) rest later
still_open-append fds (SystemCall.close_socket (Descriptor.descriptor fd) ∷ rest) later =
    still_open-append (without fd fds) rest later
still_open-append fds (SystemCall.close_socket Descriptor.unset ∷ rest) later =
    still_open-append fds rest later
still_open-append fds (SystemCall.close_socket Descriptor.negative ∷ rest) later =
    still_open-append fds rest later
still_open-append fds (SystemCall.bind fd port ∷ rest) later = still_open-append fds rest later
still_open-append fds (SystemCall.set_timeout fd n ∷ rest) later = still_open-append fds rest later
still_open-append fds (SystemCall.listen fd n ∷ rest) later = still_open-append fds rest later
still_open-append fds (SystemCall.shut_down fd ∷ rest) later = still_open-append fds rest later

pub without_same : (fd : ℕ) (fds : List ℕ) → without fd (fd ∷ fds) ≡ fds
unfolding without
without_same fd fds = ground arith

pub five :
    (calls : List SystemCall) (a b c d e : SystemCall)
    → ((((calls ++ a ∷ []) ++ b ∷ []) ++ c ∷ []) ++ d ∷ []) ++ e ∷ []
      ≡ calls ++ a ∷ b ∷ c ∷ d ∷ e ∷ []
five [] a b c d e = refl
five (x ∷ calls) a b c d e = ap (λ l. x ∷ l) (five calls a b c d e)
