-- ===== src/Tcp/Connection/Opening.antt =====
-- What the handlers of the handshake in backend/TCP/src/Connection.cpp queue: the SYN, the answer to
-- it, and the answer to a SYN_ACK.
use full_stack_shinfeld.Common.{
  ℕ, ◌+◌, ◌≡◌, refl, ◌∙◌, ◌++◌, List, [], ◌∷◌, Option, none, some, arith,
}
use full_stack_shinfeld.Common.Bits.{u32}
use full_stack_shinfeld.Tcp.ClientMap
use full_stack_shinfeld.Tcp.Flags.{State, Flags, create_flag}
use full_stack_shinfeld.Tcp.Segment.{Segment, segment_of_range}
use full_stack_shinfeld.Tcp.SegmentInfo.{Store}
use full_stack_shinfeld.Tcp.Client.{
  Client, Doubles, new_client, check_tracker_segment, check_tracker, update_transmission_info,
}
use full_stack_shinfeld.Tcp.Client.Sent.{check_front_all}
use full_stack_shinfeld.Tcp.Connection.{
  Connection, Outgoing, ack_flag, syn_flag, create_message, update_client,
}
use full_stack_shinfeld.Tcp.Connection.Round.{find-modify_same}
use full_stack_shinfeld.Tcp.Connection.Message.{HasSameNumbers, create_message-IsMessage}
use full_stack_shinfeld.Tcp.Connection.Receiving.{on_syn_ack_for}
use full_stack_shinfeld.Tcp.Connection.Loop.{send_syn, on_syn}

-- A connection that has queued a segment for a client, and what it keeps of that client.
pub record IsQueued {D : Type 0} (conn conn' : Connection D) (port : ℕ) (segment : Segment)
    (state : State) (seq ack last byte ip : ℕ) : Type 0 where
  pub client : Client D
  pub item : Outgoing
  pub found : ClientMap.find port conn'.clients ≡ some client
  pub own_port : client.port ≡ port
  pub in_state : client.state ≡ state
  pub at_seq : client.expected_sequence ≡ seq
  pub at_ack : client.expected_ack ≡ ack
  pub acked : client.last_ack ≡ last
  pub at_byte : client.last_byte_sent ≡ byte
  pub at_ip : client.ip ≡ ip
  pub queued : conn'.sender_queue ≡ conn.sender_queue ++ item ∷ []
  pub carries : item.segment ≡ segment
  pub same_source : conn'.source_port ≡ conn.source_port
  pub same_self : conn'.source_ip ≡ conn.source_ip
  pub same_receiver : conn'.receiver_queue ≡ conn.receiver_queue
  pub same_buffer : conn'.send_buffer ≡ conn.send_buffer
  pub same_closing : conn'.time_to_close ≡ conn.time_to_close

module _ {A : Type 0} where
  find-insert :
      (k : ℕ) (a : A) (m : List (ℕ × A))
      → ClientMap.find k m ≡ none
      → ClientMap.find k (ClientMap.insert k a m) ≡ some a
  unfolding ClientMap.find ClientMap.insert
  find-insert k a [] e = ground arith
  find-insert k a ((j, b) ∷ rest) e = ground (arith, e, find-insert k a rest)

  pub find-try_emplace :
      (k : ℕ) (a : A) (m : List (ℕ × A))
      → ClientMap.find k m ≡ none
      → ClientMap.find k (ClientMap.try_emplace k a m) ≡ some a
  unfolding ClientMap.try_emplace
  find-try_emplace k a m e = ground (arith, e, find-insert k a m e)

module _ {D : Type 0} (F : Doubles D) where
  pub send_syn-IsQueued :
      (conn : Connection D) (port : ℕ) (peer : Client D)
      → ClientMap.find port conn.clients ≡ some peer
      → peer.port ≡ port
      → IsQueued conn
          (send_syn F conn port)
          port
          (segment_of_range conn.source_port port conn.default_sequence_number
            conn.default_ack_number syn_flag conn.window_size conn.urgent_pointer
            conn.destination_ip 0 0)
          State.syn_sent
          (u32 (conn.default_sequence_number + 1))
          conn.default_ack_number
          peer.last_ack
          peer.last_byte_sent
          peer.ip
  unfolding send_syn update_client
  send_syn-IsQueued conn port peer e own =
      let m =
        create_message-IsMessage conn peer conn.source_port port conn.default_sequence_number
          conn.default_ack_number syn_flag conn.window_size conn.urgent_pointer conn.destination_ip
          State.syn_sent 0 0 e in
      record {
        client = record (m.after) { expected_sequence = u32 (conn.default_sequence_number + 1) };
        item = m.outgoing;
        found = find-modify_same port _ _ m.after m.found;
        own_port = m.numbers.port ∙ own;
        in_state = m.in_state;
        at_seq = refl;
        at_ack = m.expects;
        acked = m.numbers.acked;
        at_byte = m.numbers.last_byte;
        at_ip = m.numbers.ip;
        queued = m.queued;
        carries = m.carries;
        same_source = m.same_source;
        same_self = m.same_self;
        same_receiver = m.same_receiver;
        same_buffer = m.same_buffer;
        same_closing = m.same_closing;
      }

  pub on_syn-IsQueued :
      (conn : Connection D) (seg : Segment)
      → ClientMap.find seg.source_port_address conn.clients ≡ none
      → IsQueued conn
          (on_syn F conn seg)
          seg.source_port_address
          (segment_of_range conn.source_port seg.source_port_address conn.default_sequence_number
            (u32 (seg.sequence_number + 1))
            (create_flag Flags.syn Flags.ack)
            conn.window_size
            conn.urgent_pointer
            seg.destination_ip
            0
            0)
          State.syn_sent
          (u32 (conn.default_sequence_number + 1))
          (u32 (seg.sequence_number + 1))
          0
          0
          seg.destination_ip
  unfolding on_syn update_client new_client
  on_syn-IsQueued conn seg e =
      let port = seg.source_port_address in
      let ack = u32 (seg.sequence_number + 1) in
      let peer = new_client F port seg.destination_ip 0 ack 0 State.syn_received in
      let known = record conn { clients = ClientMap.try_emplace port peer conn.clients } in
      let m =
        create_message-IsMessage known peer conn.source_port port conn.default_sequence_number ack
          (create_flag Flags.syn Flags.ack) conn.window_size conn.urgent_pointer seg.destination_ip
          State.syn_sent 0 0 (find-try_emplace port peer conn.clients e) in
      record {
        client = record (m.after) { expected_sequence = u32 (conn.default_sequence_number + 1) };
        item = m.outgoing;
        found = find-modify_same port _ _ m.after m.found;
        own_port = m.numbers.port;
        in_state = m.in_state;
        at_seq = refl;
        at_ack = m.expects;
        acked = m.numbers.acked;
        at_byte = m.numbers.last_byte;
        at_ip = m.numbers.ip;
        queued = m.queued;
        carries = m.carries;
        same_source = m.same_source;
        same_self = m.same_self;
        same_receiver = m.same_receiver;
        same_buffer = m.same_buffer;
        same_closing = m.same_closing;
      }

  check_tracker-keeps :
      (tracker : Option ℕ) (store : Store) (now : ℕ) (client : Client D) (ack : ℕ)
      → let after = check_tracker F tracker store now client ack in
        HasSameNumbers client after
        × (after.state ≡ client.state)
        × (after.expected_ack ≡ client.expected_ack)
  unfolding check_tracker update_transmission_info
  check_tracker-keeps none store now client ack = (
    record {
      port = refl;
      ip = refl;
      sequence = refl;
      acked = refl;
      last_byte = refl;
      fin_sent = refl;
      buffer = refl;
    },
    refl,
    refl,
  )
  check_tracker-keeps (some p) store now client ack = ground arith

  pub check_tracker_segment-keeps :
      (store : Store) (now : ℕ) (client : Client D) (ack : ℕ)
      → let after = check_tracker_segment F store now client ack in
        HasSameNumbers client after
        × (after.state ≡ client.state)
        × (after.expected_ack ≡ client.expected_ack)
  unfolding check_tracker_segment
  check_tracker_segment-keeps store now client ack =
      check_tracker-keeps client.tracker_segment store now client ack

  pub on_syn_ack_for-IsQueued :
      (conn : Connection D) (port : ℕ) (client : Client D) (seg : Segment)
      → ClientMap.find port conn.clients ≡ some client
      → client.port ≡ port
      → IsQueued conn
          (on_syn_ack_for conn port client seg)
          port
          (segment_of_range conn.source_port port client.expected_sequence
            (u32 (seg.sequence_number + 1))
            ack_flag
            conn.window_size
            conn.urgent_pointer
            client.ip
            0
            0)
          State.established
          client.expected_sequence
          (u32 (seg.sequence_number + 1))
          seg.acknowledgement_number
          client.last_byte_sent
          client.ip
  unfolding on_syn_ack_for update_client check_front_all
  on_syn_ack_for-IsQueued conn port client seg e own =
      let m =
        create_message-IsMessage conn client conn.source_port port client.expected_sequence
          (u32 (seg.sequence_number + 1)) ack_flag conn.window_size conn.urgent_pointer client.ip
          State.established 0 0 e in
      rw own record {
        client =
            record (check_front_all
              (create_message conn conn.source_port port client.expected_sequence
                (u32 (seg.sequence_number + 1)) ack_flag conn.window_size conn.urgent_pointer
                client.ip State.established 0 0).store
              m.after seg.acknowledgement_number) {
                last_ack = seg.acknowledgement_number;
                window_size = seg.window_size;
              };
        item = m.outgoing;
        found = find-modify_same port _ _ m.after m.found;
        own_port = m.numbers.port ∙ own;
        in_state = m.in_state;
        at_seq = m.numbers.sequence;
        at_ack = m.expects;
        acked = refl;
        at_byte = m.numbers.last_byte;
        at_ip = m.numbers.ip;
        queued = m.queued;
        carries = m.carries;
        same_source = m.same_source;
        same_self = m.same_self;
        same_receiver = m.same_receiver;
        same_buffer = m.same_buffer;
        same_closing = m.same_closing;
      }
