-- ===== src/Tcp/Connection/Loop.antt =====
-- `Connection::communicate` of backend/TCP/src/Connection.cpp: the dispatch on the type of a segment,
-- and one round of the loop, with `messageResendCheck`, `addClient`, `connect` and the flag that
-- `disconnect` sets; `now` is the time of the steady clock. The sleeps are left out.
pub mod Ending
pub mod Waiting
use full_stack_shinfeld.Common.{
  ℕ, ◌+◌, ◌-◌, ◌++◌, Bool, true, false, ◌&&◌, not, List, [], ◌∷◌, Option, none, some, ◌==◌, ltb,
  length, is_empty, nonzero, if◌then◌else◌,
}
use full_stack_shinfeld.Common.Bits.{u32}
use full_stack_shinfeld.Tcp.ClientMap
use full_stack_shinfeld.Tcp.Flags.{State, Flags, FlagType, create_flag, decode_flags}
use full_stack_shinfeld.Tcp.Segment.{Segment}
use full_stack_shinfeld.Tcp.Client.{
  Client, Doubles, new_client, check_tracker_segment, double_timeout_interval,
}
use full_stack_shinfeld.Tcp.Client.Sent.{get_message_time_sent, has_messages}
use full_stack_shinfeld.Tcp.Connection.{Connection, syn_flag, create_message, update_client}
use full_stack_shinfeld.Tcp.Connection.Sending.{resend_messages, send_fin, send_messages}
use full_stack_shinfeld.Tcp.Connection.Receiving.{
  on_ack_for, on_fin_for, on_fin_ack_for, on_syn_ack_for,
}

unfoldable pub takes_input : State → Bool
takes_input State.established = true
takes_input State.closing = true
takes_input _ = false

unfoldable pub is_closed_state : State → Bool
is_closed_state State.closed = true
is_closed_state _ = false

unfoldable pub is_time_wait : State → Bool
is_time_wait State.time_wait = true
is_time_wait _ = false

module _ {D : Type 0} (F : Doubles D) where
  -- A new or known peer asks for a connection.
  unfoldable pub on_syn : Connection D → Segment → Connection D
  on_syn conn seg =
      let port = seg.source_port_address in
      let ack = u32 (seg.sequence_number + 1) in
      let peer = new_client F port seg.destination_ip 0 ack 0 State.syn_received in
      let known = record conn { clients = ClientMap.try_emplace port peer conn.clients } in
      let replied =
        create_message known conn.source_port port conn.default_sequence_number ack
          (create_flag Flags.syn Flags.ack) conn.window_size conn.urgent_pointer seg.destination_ip
          State.syn_sent 0 0 in
      update_client replied port
        λ c. record c { expected_sequence = u32 (conn.default_sequence_number + 1) }

  -- The handler of a known client, with the round trip that its tracked segment gives.
  unfoldable pub with_client :
      ℕ
      → Connection D
      → Segment
      → (Connection D → ℕ → Client D → Segment → Connection D)
      → Connection D
  with_client now conn seg handler = elim (ClientMap.find seg.source_port_address conn.clients) [
    | none ↦ conn
    | some client ↦
        let timed = check_tracker_segment F conn.store now client seg.acknowledgement_number in
        handler (update_client conn seg.source_port_address (λ _. timed)) seg.source_port_address
          timed seg
  ]

  -- A SYN_ACK counts, also for the round trip, only with the number that is expected.
  unfoldable pub on_syn_ack : ℕ → Connection D → Segment → Connection D
  on_syn_ack now conn seg = elim (ClientMap.find seg.source_port_address conn.clients) [
    | none ↦ conn
    | some client ↦
        if seg.acknowledgement_number == client.expected_sequence
        then with_client now conn seg on_syn_ack_for
        else conn
  ]

  unfoldable pub receive_segment : ℕ → Connection D → Segment → Connection D
  receive_segment now conn seg =
      if not (seg.destination_port_address == conn.source_port)
      then conn
      else elim (decode_flags seg.flags) [
        | FlagType.syn ↦ on_syn conn seg
        | FlagType.syn_ack ↦ on_syn_ack now conn seg
        | FlagType.fin ↦ with_client now conn seg on_fin_for
        | FlagType.fin_ack ↦ with_client now conn seg on_fin_ack_for
        | FlagType.ack ↦ with_client now conn seg on_ack_for
        | _ ↦ conn
      ]

  -- The SYN to a client, and the sequence number behind it.
  unfoldable pub send_syn : Connection D → ℕ → Connection D
  send_syn conn port =
      let sent =
        create_message conn conn.source_port port conn.default_sequence_number
          conn.default_ack_number syn_flag conn.window_size conn.urgent_pointer conn.destination_ip
          State.syn_sent 0 0 in
      update_client sent port
        λ c. record c { expected_sequence = u32 (conn.default_sequence_number + 1) }

  unfoldable pub add_client : Connection D → ℕ → ℕ → Connection D
  add_client conn port ip =
      let peer = new_client F port ip 0 0 0 State.none_state in
      send_syn (record conn { clients = ClientMap.try_emplace port peer conn.clients }) port

  -- What `connect` does to the state: the client of the destination, if there is one.
  unfoldable pub connect : Connection D → Connection D
  connect conn =
      let target = new_client F conn.destination_port conn.destination_ip 0 0 0 State.none_state in
      record conn {
        running = true;
        clients =
            if not (conn.destination_port == 0) && conn.has_destination
            then ClientMap.try_emplace conn.destination_port target conn.clients
            else conn.clients;
      }

  -- The first steps of `communicate`; `none` is the exception of `clients.at`.
  unfoldable pub start_communicating : Connection D → Option (Connection D)
  start_communicating conn =
      if is_empty conn.clients
      then some conn
      else elim (ClientMap.find conn.destination_port conn.clients) [
        | none ↦ none
        | some client ↦ some (send_syn conn conn.destination_port)
      ]

  -- The front of the queue was sent, and longer ago than the limit.
  unfoldable pub is_overdue : ℕ → Connection D → Client D → D → Bool
  is_overdue now conn client limit =
      let sent = get_message_time_sent conn.store client in
      has_messages client && nonzero sent && F.less limit (F.of_num (now - sent))

  -- One client in `messageResendCheck`: the connection after it, and whether the client goes.
  unfoldable pub resend_check_one : ℕ → Connection D → ℕ → Connection D × Bool
  resend_check_one now conn port = elim (ClientMap.find port conn.clients) [
    | none ↦ (conn, false)
    | some client ↦
        if is_closed_state client.state
        then (conn, true)
        else if is_overdue now conn client client.transmission_info.timeout_interval
        then (
          update_client (resend_messages conn port) port (double_timeout_interval F),
          ltb 10 (double_timeout_interval F client).transmission_info.number_of_timeouts,
        )
        else (conn, false)
  ]

  -- A loop over the clients that collects those to erase.
  sweep : (Connection D → ℕ → Connection D × Bool) → List ℕ → Connection D → List ℕ → Connection D
  sweep one [] conn [] = conn
  sweep one [] conn (port ∷ rest) =
      sweep one [] (record conn { clients = ClientMap.erase port conn.clients }) rest
  sweep one (port ∷ ports) conn gone =
      let done = one conn port in
      sweep one ports (done.0) (if done.1 then gone ++ port ∷ [] else gone)

  unfoldable pub message_resend_check : ℕ → Connection D → Connection D
  unfolding sweep
  message_resend_check now conn = sweep (resend_check_one now) (ClientMap.keys conn.clients) conn []

  -- One client while the connection is to close: its FIN once all data is sent, or whether it goes.
  unfoldable pub close_one : ℕ → Connection D → ℕ → Connection D × Bool
  close_one now conn port = elim (ClientMap.find port conn.clients) [
    | none ↦ (conn, false)
    | some client ↦
        if not client.is_fin_sent
        then (
          if client.last_byte_sent == length conn.send_buffer
              then send_fin conn port client
                  (if takes_input client.state then State.fin_wait_1 else State.last_ack)
              else conn,
          false,
        )
        else if is_time_wait client.state
        then (
          conn,
          is_overdue now conn client (F.mul (F.of_num 2) client.transmission_info.timeout_interval),
        )
        else (conn, is_closed_state client.state)
  ]

  unfoldable pub close_clients : ℕ → Connection D → Connection D
  unfolding sweep
  close_clients now conn =
      if is_empty conn.clients
      then record conn { running = false; can_close_down = true }
      else sweep (close_one now) (ClientMap.keys conn.clients) conn []

  -- The new input goes to every client whose state lets it.
  feed : List ℕ → Connection D → Connection D
  feed [] conn = conn
  feed (port ∷ ports) conn = feed ports (elim (ClientMap.find port conn.clients) [
    | none ↦ conn
    | some client ↦ if takes_input client.state then send_messages conn port 0 else conn
  ])

  unfoldable pub take_input : Connection D → List ℕ → Connection D
  unfolding feed
  take_input conn input =
      feed (ClientMap.keys conn.clients) (record conn { send_buffer = conn.send_buffer ++ input })

  idle_round : ℕ → Connection D → Connection D
  idle_round now conn =
      if conn.time_to_close
      then close_clients now conn
      else if not (is_empty conn.clients)
      then message_resend_check now conn
      else conn

  input_round : ℕ → Connection D → List (List ℕ) → Connection D
  unfolding idle_round
  input_round now conn [] = idle_round now conn
  input_round now conn (input ∷ rest) = take_input (record conn { input_queue = rest }) input

  unfoldable pub receive_round : ℕ → Connection D → List Segment → Connection D
  unfolding input_round
  receive_round now conn [] = input_round now conn conn.input_queue
  receive_round now conn (seg ∷ rest) =
      receive_segment now (record conn { receiver_queue = rest }) seg

  -- One round of `while (running)`: a received segment, or input, or closing, or what is overdue.
  unfoldable pub communicate_round : ℕ → Connection D → Connection D
  unfolding receive_round
  communicate_round now conn = receive_round now conn conn.receiver_queue

  -- `disconnect` sets the flag, and then waits for `can_close_down`.
  unfoldable pub disconnect : Connection D → Connection D
  disconnect conn = record conn { time_to_close = true }
