-- ===== src/Tcp/Connection/Sending.antt =====
-- What backend/TCP/src/Connection.cpp sends: `sendMessages`, `messageHandler`, `resendMessages`.
-- `messageHandler` evaluates `setItemMessageBuffer(seg->getSeqNum(), std::move(seg))`; the model reads
-- the number first, C++ leaves the order open.
use full_stack_shinfeld.Common.{
  ℕ, zero, suc, ◌+◌, ◌-◌, ◌^◌, ◌++◌, min, Bool, true, false, ◌&&◌, ◌||◌, not, [], ◌∷◌, none, some,
  ◌==◌, ltb, leb, length, nonzero, if◌then◌else◌,
}
use full_stack_shinfeld.Common.Bits.{u16, u32}
use full_stack_shinfeld.Tcp.ClientMap
use full_stack_shinfeld.Tcp.Flags.{State}
use full_stack_shinfeld.Tcp.Segment.{Segment, header_size}
use full_stack_shinfeld.Tcp.SegmentInfo.{deref}
use full_stack_shinfeld.Tcp.Client.{Client}
use full_stack_shinfeld.Tcp.Client.Sent.{check_front_all, copy_front, set_item_message_buffer}
use full_stack_shinfeld.Tcp.Connection.{
  Connection, ack_flag, fin_flag, max_data_size, create_message, update_client,
}

abbrev pub is_closing : State → Bool
is_closing State.closing = true
is_closing _ = false

-- The end of the next segment: at most `max_data_size` bytes, what the window leaves, and no further
-- than the buffer.
unfoldable pub next_end : ℕ → ℕ → ℕ → ℕ
next_end available start buffer_size =
    let max_data = min max_data_size (available - header_size) in
    min (u32 (start + max_data)) (u32 buffer_size)

module _ {D : Type 0} where
  -- The bare acknowledgement that `sendMessages` makes in three places.
  unfoldable pub send_ack : Connection D → Client D → Connection D
  send_ack conn client =
      create_message conn conn.source_port client.port client.expected_sequence client.expected_ack
        ack_flag conn.window_size conn.urgent_pointer client.ip client.state 0 0

  -- One round of the loop of `sendMessages`: a segment with the next bytes, for the client at `port`.
  unfoldable pub send_round : Connection D → ℕ → Client D → ℕ → Connection D
  send_round conn port client end =
      let start = client.last_byte_sent in
      let sent =
        create_message conn conn.source_port client.port client.expected_sequence
          client.expected_ack ack_flag conn.window_size conn.urgent_pointer client.ip client.state
          start end in
      update_client sent port λ c. record c {
        last_byte_sent = end;
        expected_sequence = u32 (c.expected_sequence + u16 (end + 2 ^ 32 - start));
      }

  -- The loop, and whether it sent anything. Each round takes at least a header off `available`, so
  -- that much fuel is enough.
  unfoldable pub send_loop : ℕ → Connection D → ℕ → ℕ → Bool → Connection D × Bool
  send_loop zero conn port available sent_data = (conn, sent_data)
  send_loop (suc fuel) conn port available sent_data = elim (ClientMap.find port conn.clients) [
    | none ↦ (conn, sent_data)
    | some client ↦
        elim (ltb header_size available && ltb client.last_byte_sent (length conn.send_buffer)) [
          | false ↦ (conn, sent_data)
          | true ↦
              let end = next_end available client.last_byte_sent (length conn.send_buffer) in
              let payload = u16 (end + 2 ^ 32 - client.last_byte_sent) in
              send_loop fuel (send_round conn port client end) port
                (u16 (available + 2 ^ 16 - u16 (payload + header_size))) true
        ]
  ]

  -- After the loop, an acknowledgement of received data that no segment carried.
  unfoldable pub finish_sending : Connection D → ℕ → Bool → ℕ → Connection D
  finish_sending conn port sent_data data_written =
      if not sent_data && nonzero data_written
      then elim (ClientMap.find port conn.clients) [
        | none ↦ conn
        | some client ↦ send_ack conn client
      ]
      else conn

  unfoldable pub send_messages_for : Connection D → ℕ → Client D → ℕ → Connection D
  send_messages_for conn port client data_written =
      if client.last_byte_sent == length conn.send_buffer
        || leb client.window_size client.total_size_of_messages_sent
      then (if nonzero data_written then send_ack conn client else conn)
      else let available = client.window_size - client.total_size_of_messages_sent in
        let looped = send_loop available conn port available false in
        finish_sending (looped.0) port (looped.1) data_written

  unfoldable pub send_messages : Connection D → ℕ → ℕ → Connection D
  send_messages conn port data_written = elim (ClientMap.find port conn.clients) [
    | none ↦ conn
    | some client ↦ send_messages_for conn port client data_written
  ]

  -- The FIN once all data is sent, in the state that follows.
  unfoldable pub send_fin : Connection D → ℕ → Client D → State → Connection D
  send_fin conn port client state =
      let sent =
        create_message conn conn.source_port client.port client.expected_sequence
          client.expected_ack fin_flag conn.window_size conn.urgent_pointer client.ip state 0 0 in
      update_client sent port
        λ c. record c { is_fin_sent = true; expected_sequence = u32 (c.expected_sequence + 1) }

  unfoldable pub fin_if_done : Connection D → ℕ → Connection D
  fin_if_done conn port = elim (ClientMap.find port conn.clients) [
    | none ↦ conn
    | some client ↦
        if not client.is_fin_sent
          && client.last_byte_sent == length conn.send_buffer
          && (conn.time_to_close || is_closing client.state)
        then send_fin conn port client
            (if is_closing client.state then State.last_ack else State.fin_wait_1)
        else conn
  ]

  -- The client after an acknowledgement: what it acknowledges leaves the queue.
  unfoldable pub take_ack : Connection D → ℕ → Segment → Connection D
  take_ack conn port seg = update_client conn port λ c.
      record (check_front_all conn.store c seg.acknowledgement_number) {
        last_ack = seg.acknowledgement_number;
        window_size = seg.window_size;
      }

  unfoldable pub handle_in_order : Connection D → ℕ → Segment → ℕ → Connection D
  handle_in_order conn port seg data_written =
      let sent = send_messages conn port data_written in
      let queued : Connection D =
        if seg.flags == fin_flag
        then record sent { receiver_queue = sent.receiver_queue ++ seg ∷ [] }
        else sent in
      fin_if_done queued port

  unfoldable pub message_handler : Connection D → Segment → ℕ → Connection D
  message_handler conn seg data_written =
      elim (ClientMap.find seg.source_port_address conn.clients) [
        | none ↦ conn
        | some client ↦
            let acked = take_ack conn seg.source_port_address seg in
            if ltb client.expected_ack seg.sequence_number
            then update_client acked seg.source_port_address
                (λ c. set_item_message_buffer c seg.sequence_number seg)
            else handle_in_order acked seg.source_port_address seg data_written
      ]

  -- The segment at the front of the queue once more, with the client's window in place of our own.
  unfoldable pub resend_front : Connection D → ℕ → ℕ × Client D → Connection D
  resend_front conn port (p, client) =
      let info = deref conn.store p in
      let copied = update_client conn port (λ _. client) in
      create_message copied conn.source_port client.port info.sequence_number client.expected_ack
        info.flag client.window_size conn.urgent_pointer client.ip client.state info.start
        (u32 (info.start + info.data_size))

  unfoldable pub resend_messages : Connection D → ℕ → Connection D
  resend_messages conn port = elim (ClientMap.find port conn.clients) [
    | none ↦ conn
    | some client ↦ elim (copy_front conn.store client) [
      | none ↦ conn
      | some front ↦ resend_front conn port front
    ]
  ]
