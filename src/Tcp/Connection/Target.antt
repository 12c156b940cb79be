-- ===== src/Tcp/Connection/Target.antt =====
-- Where `Connection::addClient` of backend/TCP/src/Connection.cpp sends its SYN.
use full_stack_shinfeld.Common.{ℕ, ◌+◌, ◌≡◌, ap, ◌++◌, [], ◌∷◌, none, some}
use full_stack_shinfeld.Common.Bits.{u32}
use full_stack_shinfeld.Tcp.ClientMap
use full_stack_shinfeld.Tcp.Flags.{State}
use full_stack_shinfeld.Tcp.Segment.{Segment, segment_of_range}
use full_stack_shinfeld.Tcp.Client.{Client, Doubles, new_client}
use full_stack_shinfeld.Tcp.Connection.{Connection, Outgoing, syn_flag, update_client}
use full_stack_shinfeld.Tcp.Connection.Round.{find-modify_same}
use full_stack_shinfeld.Tcp.Connection.Message.{create_message-IsMessage}
use full_stack_shinfeld.Tcp.Connection.Loop.{send_syn}
use full_stack_shinfeld.Tcp.Connection.Opening.{find-try_emplace}
use full_stack_shinfeld.Tcp.Connection.Loop.{add_client}

module _ {D : Type 0} (F : Doubles D) where
  -- For a port that is not known yet, the client has the address that was given and is in SYN_SENT, and
  -- one segment is queued for it: the SYN of the connection to that port, which goes to the address in
  -- the connection, whichever was given.
  pub add_client-destination :
      (conn : Connection D) (port ip : ℕ)
      → ClientMap.find port conn.clients ≡ none
      → let after = add_client F conn port ip in
        (client : Client D) × (item : Outgoing) × (ClientMap.find port after.clients ≡ some client)
        × (client.ip ≡ ip)
        × (client.state ≡ State.syn_sent)
        × (after.sender_queue ≡ conn.sender_queue ++ item ∷ [])
        × (item.segment
            ≡ segment_of_range conn.source_port port conn.default_sequence_number
                conn.default_ack_number syn_flag conn.window_size conn.urgent_pointer
                conn.destination_ip 0 0)
        × (item.segment.destination_ip ≡ conn.destination_ip)
  unfolding add_client send_syn update_client new_client segment_of_range
  add_client-destination conn port ip e =
      let peer = new_client F port ip 0 0 0 State.none_state in
      let known = record conn { clients = ClientMap.try_emplace port peer conn.clients } in
      let m =
        create_message-IsMessage known peer conn.source_port port conn.default_sequence_number
          conn.default_ack_number syn_flag conn.window_size conn.urgent_pointer conn.destination_ip
          State.syn_sent 0 0 (find-try_emplace port peer conn.clients e) in
      (
        record (m.after) { expected_sequence = u32 (conn.default_sequence_number + 1) },
        m.outgoing,
        find-modify_same port _ _ m.after m.found,
        m.numbers.ip,
        m.in_state,
        m.queued,
        m.carries,
        ap (λ (s : Segment). s.destination_ip) m.carries,
      )
