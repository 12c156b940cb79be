-- ===== src/Tcp/Connection/Resets.antt =====
-- The case SYN of `communicate` in backend/TCP/src/Connection.cpp for a client that is known already.
use full_stack_shinfeld.Common.{ℕ, ◌+◌, ◌≡◌, refl, ◌++◌, [], ◌∷◌, some, arith}
use full_stack_shinfeld.Common.Bits.{u32}
use full_stack_shinfeld.Tcp.ClientMap
use full_stack_shinfeld.Tcp.Flags.{State, Flags, create_flag}
use full_stack_shinfeld.Tcp.Segment.{Segment}
use full_stack_shinfeld.Tcp.Client.{Client, Doubles, new_client}
use full_stack_shinfeld.Tcp.Connection.{Connection, Outgoing, update_client}
use full_stack_shinfeld.Tcp.Connection.Loop.{on_syn}
use full_stack_shinfeld.Tcp.Connection.Message.{create_message-IsMessage}
use full_stack_shinfeld.Tcp.Connection.Round.{find-modify_same}

-- The client is back at the start of the handshake, but keeps what it had acknowledged and the place in
-- the send buffer.
pub record IsReset {D : Type 0} (conn : Connection D) (seg : Segment) (before after : Client D)
    : Type 0 where
  pub in_state : after.state ≡ State.syn_sent
  pub at_seq : after.expected_sequence ≡ u32 (conn.default_sequence_number + 1)
  pub at_ack : after.expected_ack ≡ u32 (seg.sequence_number + 1)
  pub same_acked : after.last_ack ≡ before.last_ack
  pub same_byte : after.last_byte_sent ≡ before.last_byte_sent

module _ {D : Type 0} (F : Doubles D) where
  pub try_emplace-found :
      (k : ℕ) (a b : Client D) (m : _)
      → ClientMap.find k m ≡ some b
      → ClientMap.try_emplace k a m ≡ m
  unfolding ClientMap.try_emplace
  try_emplace-found k a b m e = ground (arith, e)

  -- A SYN from a known client, in whatever state it is, is answered with one segment and puts the
  -- client back to SYN_SENT with the first numbers, while its last acknowledgement and the last byte
  -- sent stay.
  pub on_syn-IsReset :
      (conn : Connection D) (seg : Segment) (client : Client D)
      → ClientMap.find seg.source_port_address conn.clients ≡ some client
      → let after = on_syn F conn seg in
        (client' : Client D) × (item : Outgoing) × (ClientMap.find seg.source_port_address
            after.clients
          ≡ some client')
        × IsReset conn seg client client'
        × (after.sender_queue ≡ conn.sender_queue ++ item ∷ [])
  unfolding on_syn update_client
  on_syn-IsReset conn seg client e =
      let port = seg.source_port_address in
      let ack = u32 (seg.sequence_number + 1) in
      let peer = new_client F port seg.destination_ip 0 ack 0 State.syn_received in
      let known = record conn { clients = ClientMap.try_emplace port peer conn.clients } in
      let same = try_emplace-found port peer client conn.clients e in
      let m =
        create_message-IsMessage known client conn.source_port port conn.default_sequence_number ack
          (create_flag Flags.syn Flags.ack) conn.window_size conn.urgent_pointer seg.destination_ip
          State.syn_sent 0 0 (rw same e) in
      (
        record (m.after) { expected_sequence = u32 (conn.default_sequence_number + 1) },
        m.outgoing,
        find-modify_same port _ _ m.after m.found,
        record {
          in_state = m.in_state;
          at_seq = refl;
          at_ack = m.expects;
          same_acked = m.numbers.acked;
          same_byte = m.numbers.last_byte;
        },
        m.queued,
      )
