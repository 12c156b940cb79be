-- ===== src/Tcp/Connection/Receiving.antt =====
-- The cases of the switch in `Connection::communicate` of backend/TCP/src/Connection.cpp, one handler
-- for each type of segment; `now` is the time of the steady clock.
use full_stack_shinfeld.Common.{
  ℕ, zero, suc, ◌+◌, ◌++◌, Bool, true, false, ◌&&◌, List, [], ◌∷◌, Option, none, some, ◌==◌, ltb,
  leb, length, is_empty, if◌then◌else◌,
}
use full_stack_shinfeld.Common.Bits.{u32}
use full_stack_shinfeld.Tcp.Flags.{State, Flags, create_flag}
use full_stack_shinfeld.Tcp.Segment.{Segment, set_seq_num}
use full_stack_shinfeld.Tcp.Client.{Client}
use full_stack_shinfeld.Tcp.Client.Sent.{
  check_front_all, close_file, pop_item_message_buffer, set_item_message_buffer, write_file,
}
use full_stack_shinfeld.Tcp.Connection.{Connection, ack_flag, create_message, update_client}
use full_stack_shinfeld.Tcp.Connection.Sending.{message_handler}

-- The states out of which a FIN and a FIN_ACK lead, and where to; `none_state` for no transition.
unfoldable pub state_after_fin : State → State
state_after_fin State.established = State.closing
state_after_fin State.fin_wait_2 = State.time_wait
state_after_fin _ = State.none_state

unfoldable pub state_after_fin_ack : State → State
state_after_fin_ack State.fin_wait_1 = State.fin_wait_2
state_after_fin_ack State.last_ack = State.closed
state_after_fin_ack _ = State.none_state

unfoldable pub state_after_ack : State → State
state_after_ack State.syn_sent = State.established
state_after_ack other = other

unfoldable pub is_none_state : State → Bool
is_none_state State.none_state = true
is_none_state _ = false

-- The client, the next sequence number and the bytes of the last write, with the last segment that
-- left the buffer.
pub record Reassembled (D : Type 0) : Type 0 where
  pub client : Client D
  pub next_seq : ℕ
  pub data_written : ℕ
  pub last : Option Segment

unfoldable pub or_last : Option Segment → Segment → Segment
or_last none seg = seg
or_last (some s) seg = s

module _ {D : Type 0} where
  -- The data of a segment is handed on and written.
  unfoldable pub deliver : Client D → List ℕ → Client D
  deliver client bytes =
      write_file (record client { received_data = client.received_data ++ bytes ∷ [] }) bytes

  -- The loop over the buffered segments that continue the data; it also takes out the first that is
  -- no data. Each round takes one out, so the size of the buffer is enough fuel.
  unfoldable pub reassemble : ℕ → Reassembled D → Reassembled D
  reassemble zero r = r
  reassemble (suc fuel) r = elim (pop_item_message_buffer (r.client) r.next_seq) [
    | none ↦ r
    | some (s, client) ↦ elim (s.flags == ack_flag && ltb 0 (length s.payload)) [
      | true ↦ reassemble fuel (record {
        client = deliver client s.payload;
        next_seq = u32 (r.next_seq + length s.payload);
        data_written = length s.payload;
        last = some s;
      })
      | false ↦ record {
        client = client;
        next_seq = r.next_seq;
        data_written = r.data_written;
        last = some s;
      }
    ]
  ]

  -- The data of a segment that is in order, and of those that it makes be in order.
  unfoldable pub receive_data : Client D → Segment → Reassembled D
  receive_data client seg =
      let delivered = deliver client seg.payload in
      reassemble (length (delivered.message_buffer)) (record {
        client = delivered;
        next_seq = u32 (seg.sequence_number + length seg.payload);
        data_written = length seg.payload;
        last = none;
      })

  -- An acknowledgement in order: its data, the end of the handshake, and what may be sent now.
  unfoldable pub ack_in_order : Connection D → ℕ → Client D → Segment → Connection D
  unfolding or_last
  ack_in_order conn port client seg =
      let arrived = receive_data client seg in
      let with_data : Client D =
        if is_empty seg.payload
        then client
        else record (close_file (arrived.client)) { expected_ack = arrived.next_seq } in
      let seg' : Segment =
        if is_empty seg.payload
        then seg
        else set_seq_num (or_last (arrived.last) seg) (arrived.next_seq) in
      let data_written : ℕ = if is_empty seg.payload then 0 else arrived.data_written in
      let entered : Client D = record with_data { state = state_after_ack (with_data.state) } in
      message_handler (update_client conn port (λ _. entered)) seg' data_written

  -- Kept for later, with the peer's window.
  unfoldable pub buffer_segment : Connection D → ℕ → Segment → Connection D
  buffer_segment conn port seg = update_client conn port λ c.
      set_item_message_buffer (record c { window_size = seg.window_size }) seg.sequence_number seg

  unfoldable pub on_ack_for : Connection D → ℕ → Client D → Segment → Connection D
  on_ack_for conn port client seg =
      let ack = seg.acknowledgement_number in
      if ltb client.expected_ack seg.sequence_number
      then (if ltb client.last_ack ack && leb ack client.expected_sequence
          then message_handler conn seg 0
          else buffer_segment conn port seg)
      else if leb client.last_ack ack
          && leb ack client.expected_sequence
          && seg.sequence_number == client.expected_ack
      then ack_in_order conn port client seg
      else conn

  -- A FIN in order, in a state that it leads out of.
  unfoldable pub fin_in_order : Connection D → ℕ → Client D → Segment → State → Connection D
  fin_in_order conn port client seg new_state =
      let replied =
        create_message conn conn.source_port client.port client.expected_sequence
          (u32 (seg.sequence_number + 1)) (create_flag Flags.fin Flags.ack) conn.window_size
          conn.urgent_pointer client.ip new_state 0 0 in
      let updated = update_client replied port λ c. record c {
        window_size = seg.window_size;
        last_ack = seg.acknowledgement_number;
        expected_ack = u32 (seg.sequence_number + 1);
        expected_sequence = u32 (c.expected_sequence + 1);
      } in
      elim new_state [ State.closing ↦ message_handler updated seg 0 | _ ↦ updated ]

  unfoldable pub on_fin_for : Connection D → ℕ → Client D → Segment → Connection D
  on_fin_for conn port client seg =
      let ack = seg.acknowledgement_number in
      let ack_fits = leb client.last_ack ack && leb ack client.expected_sequence in
      let new_state = state_after_fin client.state in
      if ltb client.expected_ack seg.sequence_number
      then (if ack_fits then message_handler conn seg 0 else buffer_segment conn port seg)
      else if ack_fits && seg.sequence_number == client.expected_ack
      then (if is_none_state new_state then conn else fin_in_order conn port client seg new_state)
      else conn

  unfoldable pub on_fin_ack_for : Connection D → ℕ → Client D → Segment → Connection D
  on_fin_ack_for conn port client seg =
      let ack = seg.acknowledgement_number in
      if ltb client.expected_ack seg.sequence_number
      then (if ltb client.last_ack ack && leb ack client.expected_sequence
          then message_handler conn seg 0
          else conn)
      else if ack == client.expected_sequence && seg.sequence_number == client.expected_ack
      then update_client conn port (λ c. record (check_front_all conn.store c ack) {
        expected_sequence = ack;
        expected_ack = u32 (seg.sequence_number + 1);
        last_ack = ack;
        window_size = seg.window_size;
        state = state_after_fin_ack c.state;
      })
      else conn

  unfoldable pub on_syn_ack_for : Connection D → ℕ → Client D → Segment → Connection D
  on_syn_ack_for conn port client seg =
      let replied =
        create_message conn conn.source_port client.port client.expected_sequence
          (u32 (seg.sequence_number + 1)) ack_flag conn.window_size conn.urgent_pointer client.ip
          State.established 0 0 in
      update_client replied port λ c.
        record (check_front_all replied.store c seg.acknowledgement_number) {
          last_ack = seg.acknowledgement_number;
          window_size = seg.window_size;
        }
