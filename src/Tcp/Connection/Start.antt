-- ===== src/Tcp/Connection/Start.antt =====
-- Two connections from their constructors on: `connect` and the start of `communicate` in
-- backend/TCP/src/Connection.cpp, up to the end of the handshake.
use full_stack_shinfeld.Common.{ℕ, ◌≡◌, refl, [], ◌∷◌, true, false, some, ◌==◌, arith}
use full_stack_shinfeld.Tcp.ClientMap
use full_stack_shinfeld.Tcp.Flags.{State}
use full_stack_shinfeld.Tcp.Client.{Client, Doubles, new_client}
use full_stack_shinfeld.Tcp.Connection.{Connection, new_connection, new_connection_to}
use full_stack_shinfeld.Tcp.Connection.Accepting.{IsEstablished}
use full_stack_shinfeld.Tcp.Connection.Handshake.{exchange, handshake}
use full_stack_shinfeld.Tcp.Connection.Loop.{connect, send_syn, start_communicating}

module _ {D : Type 0} (F : Doubles D) (port target_port ip target_ip : ℕ)
    (has_port : (target_port == 0) ≡ false) where
  abbrev target : Client D
  target = new_client F target_port target_ip 0 0 0 State.none_state

  abbrev caller : Connection D
  caller = record (new_connection_to port target_port ip target_ip) {
    running = true;
    clients = (target_port, target) ∷ [];
  }

  abbrev listener : Connection D
  listener = record (new_connection target_port target_ip) { running = true }

  target_found : ClientMap.find target_port ((target_port, target) ∷ []) ≡ some target
  unfolding ClientMap.find
  target_found = ground arith

  connect-caller : connect F (new_connection_to port target_port ip target_ip) ≡ caller
  unfolding connect new_connection_to new_connection ClientMap.try_emplace ClientMap.find
      ClientMap.insert
  connect-caller = ground (arith, has_port)

  connect-listener : connect F (new_connection target_port target_ip) ≡ listener
  unfolding connect new_connection
  connect-listener = refl

  start_communicating-caller : start_communicating F caller ≡ some (send_syn F caller target_port)
  unfolding start_communicating new_connection_to new_connection
  start_communicating-caller = ground (arith, target_found)

  start_communicating-listener : start_communicating F listener ≡ some listener
  unfolding start_communicating new_connection
  start_communicating-listener = refl

  -- A new connection with a target, whose port is not 0, and a new connection without one at that
  -- port and address both start, and after three segments have crossed, each only to its address, each
  -- has the other ESTABLISHED, both with the numbers 1001, and nothing is queued.
  pub connect-IsEstablished :
      (t1 t2 t3 : ℕ)
      → (a : Connection D) × (b : Connection D) × (start_communicating F
            (connect F (new_connection_to port target_port ip target_ip))
          ≡ some a)
        × (start_communicating F (connect F (new_connection target_port target_ip)) ≡ some b)
        × IsEstablished (exchange F t1 t2 t3 a b).0 target_port 1001 1001
        × IsEstablished (exchange F t1 t2 t3 a b).1 port 1001 1001
        × ((exchange F t1 t2 t3 a b).0.sender_queue ≡ [])
        × ((exchange F t1 t2 t3 a b).1.sender_queue ≡ [])
  unfolding new_client new_connection_to new_connection ClientMap.find
  connect-IsEstablished t1 t2 t3 =
      let done =
        handshake F t1 t2 t3 caller listener target target_found refl refl refl refl refl refl refl
          refl refl refl in
      (
        send_syn F caller target_port,
        listener,
        rw connect-caller start_communicating-caller,
        rw connect-listener start_communicating-listener,
        done.0,
        done.1,
        done.2,
        done.3,
      )
