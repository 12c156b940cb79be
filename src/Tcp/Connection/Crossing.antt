-- ===== src/Tcp/Connection/Crossing.antt =====
-- A segment that crosses from one connection to another, and what the other makes of the segments of
-- the handshake.
use full_stack_shinfeld.Common.{
  ℕ, ◌+◌, ◌==◌, if◌then◌else◌, ◌≡◌, ◌≤◌, refl, sym, ap, ◌∙◌, ◌++◌, false, List, [], ◌∷◌, some,
  arith, length,
}
use full_stack_shinfeld.Common.Bits.{u32}
use full_stack_shinfeld.Tcp.ClientMap
use full_stack_shinfeld.Tcp.Flags.{State, Flags, create_flag, flag_byte, decode_flags}
use full_stack_shinfeld.Tcp.Segment.{Segment, segment_of_range}
use full_stack_shinfeld.Tcp.Client.{Client, Doubles, check_tracker_segment}
use full_stack_shinfeld.Tcp.Connection.{Connection, Outgoing, ack_flag, syn_flag, update_client}
use full_stack_shinfeld.Tcp.Connection.Round.{find-modify_same}
use full_stack_shinfeld.Tcp.Connection.Receiving.{on_syn_ack_for, on_ack_for}
use full_stack_shinfeld.Tcp.Connection.Loop.{
  on_syn, on_syn_ack, with_client, receive_segment, communicate_round, receive_round,
}
use full_stack_shinfeld.Tcp.SocketHandler.{on_sent}
use full_stack_shinfeld.Tcp.SocketHandler.Delivery.{arrived}
use full_stack_shinfeld.Tcp.Connection.Opening.{
  IsQueued, on_syn_ack_for-IsQueued, check_tracker_segment-keeps,
}
use full_stack_shinfeld.Tcp.Connection.Accepting.{IsEstablished, on_ack_for-IsEstablished}

-- Two connections, the first of which has queued an item for the second.
module _ {D : Type 0} (F : Doubles D) (now : ℕ) where
  carry_first : Connection D → Connection D → List Outgoing → Connection D × Connection D
  carry_first from to [] = (from, to)
  carry_first from to (item ∷ rest) = (
    record from { sender_queue = rest; store = on_sent now from.store item.on_sent },
    if item.segment.destination_ip == to.source_ip
        then communicate_round F now (record to {
          receiver_queue = to.receiver_queue ++ arrived from.source_ip item.segment ∷ [];
        })
        else to,
  )

  -- The first segment that a connection has queued is sent. When it is addressed to the peer, it joins the
  -- segments that the peer has received, and the peer makes a round of its loop. Otherwise the peer never
  -- sees it.
  unfoldable pub carry : Connection D → Connection D → Connection D × Connection D
  unfolding carry_first
  carry from to = carry_first from to from.sender_queue

  abbrev pub after_send : Connection D → Outgoing → Connection D
  after_send from item = record from {
    sender_queue = [];
    store = on_sent now from.store item.on_sent;
  }

  communicate_round-first :
      (to : Connection D) (seg : Segment)
      → to.receiver_queue ≡ []
      → communicate_round F now (record to { receiver_queue = to.receiver_queue ++ seg ∷ [] })
        ≡ receive_segment F now to seg
  unfolding communicate_round receive_round
  communicate_round-first to seg none_received =
      ap
        (λ (q : List Segment).
          communicate_round F now (record to { receiver_queue = q ++ seg ∷ [] }))
        none_received
      ∙ ap (λ (q : List Segment). receive_segment F now (record to { receiver_queue = q }) seg)
          (sym none_received)

  pub carry-first :
      (from to : Connection D) (item : Outgoing) (rest : List Outgoing) (segment : Segment)
      → from.sender_queue ≡ item ∷ rest
      → item.segment ≡ segment
      → segment.destination_ip ≡ to.source_ip
      → to.receiver_queue ≡ []
      → carry from to ≡ (
        record from { sender_queue = rest; store = on_sent now from.store item.on_sent },
        receive_segment F now to (arrived from.source_ip segment),
      )
  unfolding carry carry_first
  carry-first from to item rest segment queue its_segment addressed none_received =
      let received = communicate_round-first to (arrived from.source_ip segment) none_received in
      ground (arith, queue, its_segment, addressed, received)

  pub carry-queued :
      (from to : Connection D) (item : Outgoing) (segment : Segment)
      → from.sender_queue ≡ item ∷ []
      → item.segment ≡ segment
      → segment.destination_ip ≡ to.source_ip
      → to.receiver_queue ≡ []
      → carry from to
        ≡ (after_send from item, receive_segment F now to (arrived from.source_ip segment))
  carry-queued from to item segment = carry-first from to item [] segment

  pub receive_segment-syn :
      (conn : Connection D) (seg : Segment)
      → seg.destination_port_address ≡ conn.source_port
      → seg.flags ≡ syn_flag
      → receive_segment F now conn seg ≡ on_syn F conn seg
  unfolding receive_segment decode_flags
  receive_segment-syn conn seg ours flags = rw flags (ground (arith, ours))

  pub with_client-found :
      (conn : Connection D) (client : Client D) (seg : Segment)
      (handler : Connection D → ℕ → Client D → Segment → Connection D)
      → ClientMap.find seg.source_port_address conn.clients ≡ some client
      → with_client F now conn seg handler ≡ (
          let timed = check_tracker_segment F conn.store now client seg.acknowledgement_number in
          handler
            (update_client conn seg.source_port_address (λ _. timed))
            seg.source_port_address
            timed
            seg)
  unfolding with_client
  with_client-found conn client seg handler e = ground (arith, e)

  receive_segment-syn_ack :
      (conn : Connection D) (client : Client D) (seg : Segment)
      → seg.destination_port_address ≡ conn.source_port
      → seg.flags ≡ create_flag Flags.syn Flags.ack
      → ClientMap.find seg.source_port_address conn.clients ≡ some client
      → seg.acknowledgement_number ≡ client.expected_sequence
      → receive_segment F now conn seg ≡ with_client F now conn seg on_syn_ack_for
  unfolding receive_segment decode_flags on_syn_ack create_flag flag_byte
  receive_segment-syn_ack conn client seg ours flags found ack =
      rw flags (ground (arith, ours, found, ack))

  receive_segment-ack :
      (conn : Connection D) (seg : Segment)
      → seg.destination_port_address ≡ conn.source_port
      → seg.flags ≡ ack_flag
      → receive_segment F now conn seg ≡ with_client F now conn seg on_ack_for
  unfolding receive_segment decode_flags
  receive_segment-ack conn seg ours flags = rw flags (ground (arith, ours))

module _ {D : Type 0} (F : Doubles D) (now : ℕ) (conn : Connection D) (client : Client D)
    (seg : Segment) (ours : seg.destination_port_address ≡ conn.source_port)
    (found : ClientMap.find seg.source_port_address conn.clients ≡ some client) where
  abbrev pub timed : Client D
  timed = check_tracker_segment F conn.store now client seg.acknowledgement_number

  abbrev pub with_timed : Connection D
  with_timed = update_client conn seg.source_port_address (λ _. timed)

  pub with_timed-found : ClientMap.find seg.source_port_address (with_timed).clients ≡ some timed
  unfolding update_client
  with_timed-found = find-modify_same seg.source_port_address (λ _. timed) conn.clients client found

  reply-same :
      (ack : ℕ) {seq seq' ip ip' : ℕ}
      → seq ≡ seq'
      → ip ≡ ip'
      → segment_of_range conn.source_port seg.source_port_address seq ack ack_flag conn.window_size
          conn.urgent_pointer ip 0 0
        ≡ segment_of_range conn.source_port seg.source_port_address seq' ack ack_flag
            conn.window_size conn.urgent_pointer ip' 0 0
  reply-same ack same_seq same_ip = rw (same_seq, same_ip) refl

  pub receive_segment-IsQueued :
      seg.flags ≡ create_flag Flags.syn Flags.ack
      → client.port ≡ seg.source_port_address
      → seg.acknowledgement_number ≡ client.expected_sequence
      → IsQueued conn
          (receive_segment F now conn seg)
          seg.source_port_address
          (segment_of_range conn.source_port seg.source_port_address client.expected_sequence
            (u32 (seg.sequence_number + 1))
            ack_flag
            conn.window_size
            conn.urgent_pointer
            client.ip
            0
            0)
          State.established
          client.expected_sequence
          (u32 (seg.sequence_number + 1))
          seg.acknowledgement_number
          client.last_byte_sent
          client.ip
  unfolding update_client
  receive_segment-IsQueued flags own ack =
      let keeps = check_tracker_segment-keeps F conn.store now client seg.acknowledgement_number in
      let q =
        on_syn_ack_for-IsQueued F with_timed seg.source_port_address timed seg with_timed-found
          (keeps.0.port ∙ own) in
      rw
        (receive_segment-syn_ack F now conn client seg ours flags found ack
          ∙ with_client-found F now conn client seg on_syn_ack_for found)
        record {
          client = q.client;
          item = q.item;
          found = q.found;
          own_port = q.own_port;
          in_state = q.in_state;
          at_seq = q.at_seq ∙ keeps.0.sequence;
          at_ack = q.at_ack;
          acked = q.acked;
          at_byte = q.at_byte ∙ keeps.0.last_byte;
          at_ip = q.at_ip ∙ keeps.0.ip;
          queued = q.queued;
          carries =
              q.carries ∙ reply-same (u32 (seg.sequence_number + 1)) keeps.0.sequence keeps.0.ip;
          same_source = q.same_source;
          same_self = q.same_self;
          same_receiver = q.same_receiver;
          same_buffer = q.same_buffer;
          same_closing = q.same_closing;
        }

  pub receive_segment-IsEstablished :
      client.state ≡ State.syn_sent
      → client.last_byte_sent ≡ length conn.send_buffer
      → conn.time_to_close ≡ false
      → seg.payload ≡ []
      → seg.flags ≡ ack_flag
      → seg.sequence_number ≡ client.expected_ack
      → seg.acknowledgement_number ≡ client.expected_sequence
      → client.last_ack ≤ seg.acknowledgement_number
      → IsEstablished
          (receive_segment F now conn seg)
          seg.source_port_address
          client.expected_sequence
          client.expected_ack
        × ((receive_segment F now conn seg).sender_queue ≡ conn.sender_queue)
  unfolding update_client
  receive_segment-IsEstablished state sent closing no_data flags seq ack fresh =
      let keeps = check_tracker_segment-keeps F conn.store now client seg.acknowledgement_number in
      let same = keeps.0 in
      let done =
        on_ack_for-IsEstablished with_timed timed seg with_timed-found (keeps.1 ∙ state)
          (same.last_byte ∙ sent) closing no_data flags (seq ∙ sym keeps.2)
          (ack ∙ sym same.sequence) (omega (arith, same.acked, fresh)) in
      rw
        (receive_segment-ack F now conn seg ours flags
          ∙ with_client-found F now conn client seg on_ack_for found)
        (
          record {
            client = done.0.client;
            found = done.0.found;
            in_state = done.0.in_state;
            at_seq = done.0.at_seq ∙ same.sequence;
            at_ack = done.0.at_ack ∙ keeps.2;
          },
          done.1,
        )
