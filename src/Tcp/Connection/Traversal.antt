-- ===== src/Tcp/Connection/Traversal.antt =====
-- What all that `messageHandler` sends in answer keeps, in backend/TCP/src/Connection.cpp: a property of
-- the connection that shows the client at a port is kept if a bare acknowledgement and a round of the
-- loop of `sendMessages` keep it.
use full_stack_shinfeld.Common.{
  ℕ, zero, suc, ◌+◌, ◌-◌, ◌^◌, ◌≡◌, inl, inr, List, ◌&&◌, ◌||◌, not, Bool, true, false, some, ◌==◌,
  ltb, length, nonzero, arith, Bool-cases, if◌then◌else◌,
}
use full_stack_shinfeld.Common.Bits.{u16}
use full_stack_shinfeld.Tcp.ClientMap
use full_stack_shinfeld.Tcp.Flags.{State}
use full_stack_shinfeld.Tcp.Segment.{Segment, header_size}
use full_stack_shinfeld.Tcp.Client.{Client}
use full_stack_shinfeld.Tcp.Client.Sent.{set_item_message_buffer}
use full_stack_shinfeld.Tcp.Connection.{Connection, fin_flag, update_client}
use full_stack_shinfeld.Tcp.Connection.Sending.{
  is_closing, next_end, send_ack, send_round, send_loop, finish_sending, send_messages_for,
  send_messages, send_fin, fin_if_done, take_ack, handle_in_order, message_handler,
}

module _ {D : Type 0} (P : Connection D → Type 0) where
  pub if-kept : (b : Bool) (x y : Connection D) → P x → P y → P (if b then x else y)
  if-kept true x y h k = h
  if-kept false x y h k = k

-- A property that shows the client at a port, and that sending keeps.
pub record IsKept {D : Type 0} (port : ℕ) (P : Connection D → Type 0) : Type 0 where
  pub current : (conn : Connection D) → P conn → Client D
  pub found :
      (conn : Connection D) (h : P conn) → ClientMap.find port conn.clients ≡ some (current conn h)
  pub ack : (conn : Connection D) (h : P conn) → P (send_ack conn (current conn h))
  pub round :
      (conn : Connection D) (h : P conn) (end : ℕ) → P (send_round conn port (current conn h) end)
  pub queue :
      (conn : Connection D) (queue : List Segment)
      → P conn
      → P (record conn { receiver_queue = queue })

module _ {D : Type 0} where
  pub handler_found :
      (conn : Connection D) (client : Client D) (seg : Segment) (data_written : ℕ)
      → ClientMap.find seg.source_port_address conn.clients ≡ some client
      → message_handler conn seg data_written ≡ (
          if ltb client.expected_ack seg.sequence_number
          then update_client
              (take_ack conn seg.source_port_address seg)
              seg.source_port_address
              (λ c. set_item_message_buffer c seg.sequence_number seg)
          else handle_in_order
              (take_ack conn seg.source_port_address seg)
              seg.source_port_address
              seg
              data_written)
  unfolding message_handler
  handler_found conn client seg data_written e = ground (arith, e)

module _ {D : Type 0} (port : ℕ) where
  loop_found :
      (fuel : ℕ) (conn : Connection D) (client : Client D) (available : ℕ) (sent : Bool)
      → ClientMap.find port conn.clients ≡ some client
      → send_loop (suc fuel) conn port available sent ≡ (
          let end = next_end available client.last_byte_sent (length conn.send_buffer) in
          let payload = u16 (end + 2 ^ 32 - client.last_byte_sent) in
          let rest =
            send_loop fuel
              (send_round conn port client end)
              port
              (u16 (available + 2 ^ 16 - u16 (payload + header_size)))
              true in
          if ltb header_size available && ltb client.last_byte_sent (length conn.send_buffer)
          then rest
          else (conn, sent))
  unfolding send_loop
  loop_found fuel conn client available sent e = ground (arith, e)

  found_else :
      (conn : Connection D) (client : Client D) (sent : Bool) (data_written : ℕ)
      → ClientMap.find port conn.clients ≡ some client
      → finish_sending conn port sent data_written
        ≡ (if not sent && nonzero data_written then send_ack conn client else conn)
  unfolding finish_sending
  found_else conn client sent data_written e = ground (arith, e)

  messages_found :
      (conn : Connection D) (client : Client D) (data_written : ℕ)
      → ClientMap.find port conn.clients ≡ some client
      → send_messages conn port data_written ≡ send_messages_for conn port client data_written
  unfolding send_messages
  messages_found conn client data_written e = ground (arith, e)

  fin_found :
      (conn : Connection D) (client : Client D)
      → ClientMap.find port conn.clients ≡ some client
      → fin_if_done conn port ≡ (
          if not client.is_fin_sent
            && client.last_byte_sent == length conn.send_buffer
            && (conn.time_to_close || is_closing client.state)
          then send_fin conn port client
              (if is_closing client.state then State.last_ack else State.fin_wait_1)
          else conn)
  unfolding fin_if_done
  fin_found conn client e = ground (arith, e)

module _ {D : Type 0} (port : ℕ) (P : Connection D → Type 0) (kept : IsKept port P) where
  send_loop-kept :
      (fuel : ℕ) (conn : Connection D) (available : ℕ) (sent : Bool)
      → P conn
      → P (send_loop fuel conn port available sent).0
  unfolding send_loop
  send_loop-kept zero conn available sent h = h
  send_loop-kept (suc fuel) conn available sent h =
      let client = kept.current conn h in
      let end = next_end available client.last_byte_sent (length conn.send_buffer) in
      let left =
        u16 (available + 2 ^ 16 - u16 (u16 (end + 2 ^ 32 - client.last_byte_sent) + header_size)) in
      let later =
        send_loop-kept fuel (send_round conn port client end) left true (kept.round conn h end) in
      rw (loop_found port fuel conn client available sent (kept.found conn h))
        (elim (Bool-cases
          (ltb header_size available && ltb client.last_byte_sent (length conn.send_buffer))) [
            | inl t ↦ rw t later
            | inr t ↦ rw t h
          ])

  finish_sending-kept :
      (conn : Connection D) (sent : Bool) (data_written : ℕ)
      → P conn
      → P (finish_sending conn port sent data_written)
  finish_sending-kept conn sent data_written h =
      rw (found_else port conn (kept.current conn h) sent data_written (kept.found conn h))
        (if-kept P (not sent && nonzero data_written) _ _ (kept.ack conn h) h)

  pub send_messages-kept :
      (conn : Connection D) (data_written : ℕ) → P conn → P (send_messages conn port data_written)
  unfolding send_messages_for
  send_messages-kept conn data_written h =
      let client = kept.current conn h in
      let available = client.window_size - client.total_size_of_messages_sent in
      let looped = send_loop available conn port available false in
      rw (messages_found port conn client data_written (kept.found conn h)) (
        if-kept P _ _ _ (if-kept P (nonzero data_written) _ _ (kept.ack conn h) h) (
          finish_sending-kept looped.0 looped.1 data_written
            (send_loop-kept available conn available false h)))

  -- The FIN may change the property into another.
  module _ (Q : Connection D → Type 0) (stays : (x : Connection D) → P x → Q x)
      (ends : (x : Connection D) (h : P x)
        → Q (
            send_fin x port (kept.current x h) (
              if is_closing (kept.current x h).state
              then State.last_ack
              else State.fin_wait_1))) where
    fin_if_done-kept : (conn : Connection D) → P conn → Q (fin_if_done conn port)
    fin_if_done-kept conn h =
        rw (fin_found port conn (kept.current conn h) (kept.found conn h))
          (if-kept Q _ _ _ (ends conn h) (stays conn h))

    pub handle_in_order-kept :
        (conn : Connection D) (seg : Segment) (data_written : ℕ)
        → P conn
        → Q (handle_in_order conn port seg data_written)
    unfolding handle_in_order
    handle_in_order-kept conn seg data_written h =
        let sent = send_messages conn port data_written in
        let good = send_messages-kept conn data_written h in
        fin_if_done-kept _ (if-kept P (seg.flags == fin_flag) _ _ (kept.queue sent _ good) good)
