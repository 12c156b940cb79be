-- ===== src/Tcp/Connection/Closing.antt =====
-- The FINs of backend/TCP/src/Connection.cpp, and the answers to them.
use full_stack_shinfeld.Common.{ℕ, ◌+◌, ◌≡◌, refl, ap, ◌∙◌, true, some}
use full_stack_shinfeld.Common.Bits.{u32}
use full_stack_shinfeld.Tcp.ClientMap
use full_stack_shinfeld.Tcp.Flags.{State, Flags, create_flag}
use full_stack_shinfeld.Tcp.Segment.{Segment, segment_of_range}
use full_stack_shinfeld.Tcp.Client.{Client}
use full_stack_shinfeld.Tcp.Connection.{Connection, fin_flag, create_message, update_client}
use full_stack_shinfeld.Tcp.Connection.Round.{find-modify_same}
use full_stack_shinfeld.Tcp.Connection.Message.{create_message-IsMessage}
use full_stack_shinfeld.Tcp.Connection.Opening.{IsQueued}
use full_stack_shinfeld.Tcp.Connection.Sending.{send_fin}

module _ {D : Type 0} (conn : Connection D) (port : ℕ) (client : Client D) where
  -- The FIN, in the state that follows.
  abbrev pub fin_of : Segment
  fin_of =
      segment_of_range conn.source_port port client.expected_sequence client.expected_ack fin_flag
        conn.window_size conn.urgent_pointer client.ip 0 0

  -- The answer to a FIN, and the client that is changed behind it.
  abbrev pub fin_reply : Segment → State → Connection D
  fin_reply seg state =
      update_client
        (create_message conn conn.source_port client.port client.expected_sequence
          (u32 (seg.sequence_number + 1)) (create_flag Flags.fin Flags.ack) conn.window_size
          conn.urgent_pointer client.ip state 0 0)
        port
        λ c. record c {
          window_size = seg.window_size;
          last_ack = seg.acknowledgement_number;
          expected_ack = u32 (seg.sequence_number + 1);
          expected_sequence = u32 (c.expected_sequence + 1);
        }

  abbrev pub fin_ack_of : Segment → Segment
  fin_ack_of seg =
      segment_of_range conn.source_port port client.expected_sequence
        (u32 (seg.sequence_number + 1)) (create_flag Flags.fin Flags.ack) conn.window_size
        conn.urgent_pointer client.ip 0 0

module _ {D : Type 0} (conn : Connection D) (port : ℕ) (client : Client D)
    (found : ClientMap.find port conn.clients ≡ some client) (own : client.port ≡ port) where
  pub send_fin-IsQueued :
      (state : State)
      → IsQueued conn
          (send_fin conn port client state)
          port
          (fin_of conn port client)
          state
          (u32 (client.expected_sequence + 1))
          client.expected_ack
          client.last_ack
          client.last_byte_sent
          client.ip
  unfolding send_fin update_client
  send_fin-IsQueued state =
      let m =
        create_message-IsMessage conn client conn.source_port port client.expected_sequence
          client.expected_ack fin_flag conn.window_size conn.urgent_pointer client.ip state 0 0
          found in
      rw own record {
        client = record (m.after) {
          is_fin_sent = true;
          expected_sequence = u32 (m.after.expected_sequence + 1);
        };
        item = m.outgoing;
        found = find-modify_same port _ _ m.after m.found;
        own_port = m.numbers.port ∙ own;
        in_state = m.in_state;
        at_seq = ap (λ (n : ℕ). u32 (n + 1)) m.numbers.sequence;
        at_ack = m.expects;
        acked = m.numbers.acked;
        at_byte = m.numbers.last_byte;
        at_ip = m.numbers.ip;
        queued = m.queued;
        carries = m.carries;
        same_source = m.same_source;
        same_self = m.same_self;
        same_receiver = m.same_receiver;
        same_buffer = m.same_buffer;
        same_closing = m.same_closing;
      }

  pub fin_reply-IsQueued :
      (seg : Segment) (state : State)
      → (q : IsQueued conn
          (fin_reply conn port client seg state)
          port
          (fin_ack_of conn port client seg)
          state
          (u32 (client.expected_sequence + 1))
          (u32 (seg.sequence_number + 1))
          seg.acknowledgement_number
          client.last_byte_sent
          client.ip)
        × (q.client.is_fin_sent ≡ client.is_fin_sent)
  unfolding update_client
  fin_reply-IsQueued seg state =
      let m =
        create_message-IsMessage conn client conn.source_port port client.expected_sequence
          (u32 (seg.sequence_number + 1)) (create_flag Flags.fin Flags.ack) conn.window_size
          conn.urgent_pointer client.ip state 0 0 found in
      rw own (
        record {
          client = record (m.after) {
            window_size = seg.window_size;
            last_ack = seg.acknowledgement_number;
            expected_ack = u32 (seg.sequence_number + 1);
            expected_sequence = u32 (m.after.expected_sequence + 1);
          };
          item = m.outgoing;
          found = find-modify_same port _ _ m.after m.found;
          own_port = m.numbers.port ∙ own;
          in_state = m.in_state;
          at_seq = ap (λ (n : ℕ). u32 (n + 1)) m.numbers.sequence;
          at_ack = refl;
          acked = refl;
          at_byte = m.numbers.last_byte;
          at_ip = m.numbers.ip;
          queued = m.queued;
          carries = m.carries;
          same_source = m.same_source;
          same_self = m.same_self;
          same_receiver = m.same_receiver;
          same_buffer = m.same_buffer;
          same_closing = m.same_closing;
        },
        m.numbers.fin_sent,
      )
