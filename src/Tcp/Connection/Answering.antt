-- ===== src/Tcp/Connection/Answering.antt =====
-- What the first FIN of the other side makes of a connection in backend/TCP/src/Connection.cpp: its
-- answer, and a FIN of its own.
use full_stack_shinfeld.Common.{
  ℕ, ◌+◌, ◌≡◌, ◌≤◌, refl, sym, ap, ◌∙◌, ◌++◌, false, List, [], ◌∷◌, some, arith, length,
  append_assoc,
}
use full_stack_shinfeld.Common.Bits.{u32}
use full_stack_shinfeld.Tcp.ClientMap
use full_stack_shinfeld.Tcp.Flags.{State, Flags, create_flag}
use full_stack_shinfeld.Tcp.Segment.{Segment, segment_of_range}
use full_stack_shinfeld.Tcp.Client.{Client}
use full_stack_shinfeld.Tcp.Client.Sent.{check_front_all}
use full_stack_shinfeld.Tcp.Connection.{Connection, Outgoing, fin_flag, update_client}
use full_stack_shinfeld.Tcp.Connection.Round.{find-modify_same}
use full_stack_shinfeld.Tcp.Connection.Sending.{
  fin_if_done, handle_in_order, message_handler, send_fin, send_messages, send_messages_for,
  take_ack,
}
use full_stack_shinfeld.Tcp.Connection.Receiving.{
  fin_in_order, is_none_state, on_fin_for, state_after_fin,
}
use full_stack_shinfeld.Tcp.Connection.Closing.{fin_reply, send_fin-IsQueued, fin_reply-IsQueued}

module _ {D : Type 0} where
  pub on_fin_for-closing :
      (conn : Connection D) (port : ℕ) (client : Client D) (seg : Segment)
      → client.state ≡ State.established
      → seg.sequence_number ≡ client.expected_ack
      → client.last_ack ≤ seg.acknowledgement_number
      → seg.acknowledgement_number ≤ client.expected_sequence
      → on_fin_for conn port client seg
        ≡ message_handler (fin_reply conn port client seg State.closing) seg 0
  unfolding on_fin_for fin_in_order state_after_fin is_none_state
  on_fin_for-closing conn port client seg state seq low high = ground (arith, state, seq, low, high)

  pub on_fin_for-time_wait :
      (conn : Connection D) (port : ℕ) (client : Client D) (seg : Segment)
      → client.state ≡ State.fin_wait_2
      → seg.sequence_number ≡ client.expected_ack
      → client.last_ack ≤ seg.acknowledgement_number
      → seg.acknowledgement_number ≤ client.expected_sequence
      → on_fin_for conn port client seg ≡ fin_reply conn port client seg State.time_wait
  unfolding on_fin_for fin_in_order state_after_fin is_none_state
  on_fin_for-time_wait conn port client seg state seq low high =
      ground (arith, state, seq, low, high)

  -- The FIN is put back into the queue of received segments, and answered by a FIN.
  abbrev put_back : Connection D → Segment → Connection D
  put_back conn seg = record conn { receiver_queue = conn.receiver_queue ++ seg ∷ [] }

  handle_in_order-closing :
      (conn : Connection D) (port : ℕ) (client : Client D) (seg : Segment)
      → ClientMap.find port conn.clients ≡ some client
      → client.last_byte_sent ≡ length conn.send_buffer
      → client.state ≡ State.closing
      → client.is_fin_sent ≡ false
      → seg.flags ≡ fin_flag
      → handle_in_order conn port seg 0 ≡ send_fin (put_back conn seg) port client State.last_ack
  unfolding handle_in_order send_messages send_messages_for fin_if_done
  handle_in_order-closing conn port client seg found sent state not_sent flags =
      ground (arith, found, sent, state, not_sent, flags)

  message_handler-closing :
      (conn : Connection D) (client : Client D) (seg : Segment)
      → ClientMap.find seg.source_port_address conn.clients ≡ some client
      → client.last_byte_sent ≡ length conn.send_buffer
      → client.state ≡ State.closing
      → client.is_fin_sent ≡ false
      → seg.flags ≡ fin_flag
      → seg.sequence_number ≤ client.expected_ack
      → message_handler conn seg 0
        ≡ send_fin
            (put_back (take_ack conn seg.source_port_address seg) seg)
            seg.source_port_address
            (record (check_front_all conn.store client seg.acknowledgement_number) {
              last_ack = seg.acknowledgement_number;
              window_size = seg.window_size;
            })
            State.last_ack
  unfolding message_handler take_ack update_client check_front_all
  message_handler-closing conn client seg found sent state not_sent flags order =
      let port = seg.source_port_address in
      let closed =
        handle_in_order-closing (take_ack conn port seg) port _ seg
          (find-modify_same port _ conn.clients client found) sent state not_sent flags in
      ground (arith, found, closed)

-- A segment without data for a port and an address, with its numbers and flags.
pub record IsBare (segment : Segment) (source port seq ack flag ip : ℕ) : Type 0 where
  pub window : ℕ
  pub urgent : ℕ
  pub its_members : segment ≡ segment_of_range source port seq ack flag window urgent ip 0 0

-- A connection whose client has answered a FIN and sent its own: both segments are queued, and the FIN
-- is received again.
pub record IsLastAck {D : Type 0} (conn conn' : Connection D) (port seq ack ip : ℕ) (seg : Segment)
    : Type 0 where
  pub client : Client D
  pub first : Outgoing
  pub second : Outgoing
  pub found : ClientMap.find port conn'.clients ≡ some client
  pub own_port : client.port ≡ port
  pub in_state : client.state ≡ State.last_ack
  pub at_seq : client.expected_sequence ≡ u32 (u32 (seq + 1) + 1)
  pub at_ack : client.expected_ack ≡ u32 (ack + 1)
  pub queued : conn'.sender_queue ≡ conn.sender_queue ++ first ∷ second ∷ []
  pub answer :
      IsBare
        (first.segment)
        conn.source_port
        port
        seq
        (u32 (ack + 1))
        (create_flag Flags.fin Flags.ack)
        ip
  pub its_fin :
      IsBare (second.segment) conn.source_port port (u32 (seq + 1)) (u32 (ack + 1)) fin_flag ip
  pub same_source : conn'.source_port ≡ conn.source_port
  pub same_self : conn'.source_ip ≡ conn.source_ip
  pub puts_back : conn'.receiver_queue ≡ conn.receiver_queue ++ seg ∷ []

pub bare-same :
    (port ack flag window urgent : ℕ) {source source' seq seq' ack' ip ip' : ℕ}
    → source ≡ source'
    → seq ≡ seq'
    → ack' ≡ ack
    → ip ≡ ip'
    → segment_of_range source port seq ack' flag window urgent ip 0 0
      ≡ segment_of_range source' port seq' ack flag window urgent ip' 0 0
bare-same port ack flag window urgent e f g h = rw (e, f, g, h) refl

module _ {D : Type 0} (conn : Connection D) (client : Client D) (seg : Segment)
    (found : ClientMap.find seg.source_port_address conn.clients ≡ some client)
    (own : client.port ≡ seg.source_port_address) where
  -- In the order of the code: the answer is queued, then the FIN is put back and answered by a FIN.
  pub on_fin_for-IsLastAck :
      client.state ≡ State.established
      → client.last_byte_sent ≡ length conn.send_buffer
      → client.is_fin_sent ≡ false
      → seg.flags ≡ fin_flag
      → seg.sequence_number ≡ client.expected_ack
      → seg.sequence_number ≤ u32 (seg.sequence_number + 1)
      → client.last_ack ≤ seg.acknowledgement_number
      → seg.acknowledgement_number ≤ client.expected_sequence
      → IsLastAck conn
          (on_fin_for conn seg.source_port_address client seg)
          seg.source_port_address
          client.expected_sequence
          seg.sequence_number
          client.ip
          seg
  unfolding take_ack update_client check_front_all
  on_fin_for-IsLastAck state sent not_sent flags seq order low high =
      let port = seg.source_port_address in
      let reply = fin_reply conn port client seg State.closing in
      let q = fin_reply-IsQueued conn port client found own seg State.closing in
      let after = q.0 in
      let acked = record (check_front_all reply.store after.client seg.acknowledgement_number) {
        last_ack = seg.acknowledgement_number;
        window_size = seg.window_size;
      } in
      let behind = put_back (take_ack reply port seg) seg in
      let f =
        send_fin-IsQueued behind port acked
          (find-modify_same port _ reply.clients after.client after.found) after.own_port
          State.last_ack in
      rw
        (on_fin_for-closing conn port client seg state seq low high
          ∙ message_handler-closing reply after.client seg after.found
              (after.at_byte ∙ sent ∙ sym (ap length after.same_buffer)) after.in_state
              (q.1 ∙ not_sent) flags (rw after.at_ack order))
        record {
          client = f.client;
          first = after.item;
          second = f.item;
          found = f.found;
          own_port = f.own_port;
          in_state = f.in_state;
          at_seq = f.at_seq ∙ ap (λ (n : ℕ). u32 (n + 1)) after.at_seq;
          at_ack = f.at_ack ∙ after.at_ack;
          queued =
              f.queued
              ∙ ap (λ (l : List Outgoing). l ++ f.item ∷ []) after.queued
              ∙ append_assoc conn.sender_queue (after.item ∷ []) (f.item ∷ []);
          answer = record {
            window = conn.window_size;
            urgent = conn.urgent_pointer;
            its_members = after.carries;
          };
          its_fin = record {
            window = behind.window_size;
            urgent = behind.urgent_pointer;
            its_members =
                f.carries
                ∙ bare-same port (u32 (seg.sequence_number + 1)) fin_flag behind.window_size
                    behind.urgent_pointer after.same_source after.at_seq after.at_ack after.at_ip;
          };
          same_source = f.same_source ∙ after.same_source;
          same_self = f.same_self ∙ after.same_self;
          puts_back =
              f.same_receiver ∙ ap (λ (l : List Segment). l ++ seg ∷ []) after.same_receiver;
        }
