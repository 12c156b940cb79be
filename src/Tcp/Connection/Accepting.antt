-- ===== src/Tcp/Connection/Accepting.antt =====
-- An acknowledgement without data that ends the handshake in backend/TCP/src/Connection.cpp.
use full_stack_shinfeld.Common.{ℕ, ◌≡◌, ◌≤◌, refl, ◌∙◌, false, [], some, arith, length}
use full_stack_shinfeld.Tcp.ClientMap
use full_stack_shinfeld.Tcp.Flags.{State}
use full_stack_shinfeld.Tcp.Segment.{Segment}
use full_stack_shinfeld.Tcp.Client.{Client}
use full_stack_shinfeld.Tcp.Client.Sent.{check_front_all}
use full_stack_shinfeld.Tcp.Connection.{Connection, ack_flag, update_client}
use full_stack_shinfeld.Tcp.Connection.Round.{find-modify_same}
use full_stack_shinfeld.Tcp.Connection.Receiving.{on_ack_for, ack_in_order, state_after_ack}
use full_stack_shinfeld.Tcp.Connection.Sending.{
  fin_if_done, handle_in_order, message_handler, send_messages, send_messages_for, take_ack,
}

-- A connection that has established its client at a port, with the numbers of the next bytes.
pub record IsEstablished {D : Type 0} (conn : Connection D) (port seq ack : ℕ) : Type 0 where
  pub client : Client D
  pub found : ClientMap.find port conn.clients ≡ some client
  pub in_state : client.state ≡ State.established
  pub at_seq : client.expected_sequence ≡ seq
  pub at_ack : client.expected_ack ≡ ack

module _ {D : Type 0} where
  -- An acknowledgement without data, when everything is sent and nothing is to be closed.
  handle_in_order-idle :
      (conn : Connection D) (port : ℕ) (client : Client D) (seg : Segment)
      → ClientMap.find port conn.clients ≡ some client
      → client.last_byte_sent ≡ length conn.send_buffer
      → client.state ≡ State.established
      → seg.flags ≡ ack_flag
      → conn.time_to_close ≡ false
      → handle_in_order conn port seg 0 ≡ conn
  unfolding handle_in_order send_messages send_messages_for fin_if_done
  handle_in_order-idle conn port client seg found sent state flags closing =
      ground (arith, found, sent, state, flags, closing)

  message_handler-idle :
      (conn : Connection D) (client : Client D) (seg : Segment)
      → ClientMap.find seg.source_port_address conn.clients ≡ some client
      → client.last_byte_sent ≡ length conn.send_buffer
      → client.state ≡ State.established
      → seg.flags ≡ ack_flag
      → seg.sequence_number ≤ client.expected_ack
      → conn.time_to_close ≡ false
      → message_handler conn seg 0 ≡ take_ack conn seg.source_port_address seg
  unfolding message_handler take_ack update_client check_front_all
  message_handler-idle conn client seg found sent state flags order closing =
      let port = seg.source_port_address in
      let idle =
        handle_in_order-idle (take_ack conn port seg) port _ seg
          (find-modify_same port _ conn.clients client found) sent state flags closing in
      ground (arith, found, idle)

  ack_in_order-idle :
      (conn : Connection D) (port : ℕ) (client : Client D) (seg : Segment)
      → client.state ≡ State.syn_sent
      → seg.payload ≡ []
      → ack_in_order conn port client seg
        ≡ message_handler
            (update_client conn port (λ _. record client { state = State.established }))
            seg
            0
  unfolding ack_in_order state_after_ack
  ack_in_order-idle conn port client seg state no_data = rw (state, no_data) refl

  on_ack_for-accepted :
      (conn : Connection D) (port : ℕ) (client : Client D) (seg : Segment)
      → seg.sequence_number ≡ client.expected_ack
      → seg.acknowledgement_number ≡ client.expected_sequence
      → client.last_ack ≤ seg.acknowledgement_number
      → on_ack_for conn port client seg ≡ ack_in_order conn port client seg
  unfolding on_ack_for
  on_ack_for-accepted conn port client seg seq ack fresh = ground arith

  pub on_ack_for-IsEstablished :
      (conn : Connection D) (client : Client D) (seg : Segment)
      → ClientMap.find seg.source_port_address conn.clients ≡ some client
      → client.state ≡ State.syn_sent
      → client.last_byte_sent ≡ length conn.send_buffer
      → conn.time_to_close ≡ false
      → seg.payload ≡ []
      → seg.flags ≡ ack_flag
      → seg.sequence_number ≡ client.expected_ack
      → seg.acknowledgement_number ≡ client.expected_sequence
      → client.last_ack ≤ seg.acknowledgement_number
      → IsEstablished
          (on_ack_for conn seg.source_port_address client seg)
          seg.source_port_address
          client.expected_sequence
          client.expected_ack
        × ((on_ack_for conn seg.source_port_address client seg).sender_queue ≡ conn.sender_queue)
  unfolding take_ack update_client check_front_all
  on_ack_for-IsEstablished conn client seg found state sent closing no_data flags seq ack fresh =
      let port = seg.source_port_address in
      let entered = record client { state = State.established } in
      let there = find-modify_same port (λ _. entered) conn.clients client found in
      rw
        (on_ack_for-accepted conn port client seg seq ack fresh
          ∙ ack_in_order-idle conn port client seg state no_data
          ∙ message_handler-idle (update_client conn port (λ _. entered)) entered seg there sent
              refl flags (omega (arith, seq)) closing)
        (
          record {
            client = record (check_front_all conn.store entered seg.acknowledgement_number) {
              last_ack = seg.acknowledgement_number;
              window_size = seg.window_size;
            };
            found = find-modify_same port _ _ entered there;
            in_state = refl;
            at_seq = refl;
            at_ack = refl;
          },
          refl,
        )
