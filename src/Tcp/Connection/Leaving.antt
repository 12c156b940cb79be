-- ===== src/Tcp/Connection/Leaving.antt =====
-- What a connection makes of the segments that close it, in backend/TCP/src/Connection.cpp: the FIN of
-- either side, and the answers to both.
use full_stack_shinfeld.Common.{
  ℕ, ◌+◌, ◌≡◌, ◌≤◌, refl, sym, ap, ◌∙◌, ◌++◌, false, [], ◌∷◌, some, arith, length,
}
use full_stack_shinfeld.Common.Bits.{u32}
use full_stack_shinfeld.Tcp.ClientMap
use full_stack_shinfeld.Tcp.Flags.{State, Flags, create_flag, decode_flags, flag_byte}
use full_stack_shinfeld.Tcp.Segment.{Segment}
use full_stack_shinfeld.Tcp.Client.{Client, Doubles}
use full_stack_shinfeld.Tcp.Client.Sent.{check_front_all}
use full_stack_shinfeld.Tcp.Connection.{Connection, Outgoing, fin_flag, update_client}
use full_stack_shinfeld.Tcp.Connection.Round.{find-modify_same}
use full_stack_shinfeld.Tcp.Connection.Opening.{check_tracker_segment-keeps}
use full_stack_shinfeld.Tcp.Connection.Answering.{
  IsBare, IsLastAck, bare-same, on_fin_for-IsLastAck, on_fin_for-time_wait,
}
use full_stack_shinfeld.Tcp.Connection.Closing.{fin_reply-IsQueued}
use full_stack_shinfeld.Tcp.Connection.Crossing.{
  timed, with_timed, with_timed-found, with_client-found,
}
use full_stack_shinfeld.Tcp.Connection.Receiving.{on_fin_for, on_fin_ack_for, state_after_fin_ack}
use full_stack_shinfeld.Tcp.Connection.Loop.{receive_segment, with_client}

module _ {D : Type 0} (F : Doubles D) (now : ℕ) where
  pub receive_segment-fin :
      (conn : Connection D) (seg : Segment)
      → seg.destination_port_address ≡ conn.source_port
      → seg.flags ≡ fin_flag
      → receive_segment F now conn seg ≡ with_client F now conn seg on_fin_for
  unfolding receive_segment decode_flags
  receive_segment-fin conn seg ours flags = rw flags (ground (arith, ours))

  receive_segment-fin_ack :
      (conn : Connection D) (seg : Segment)
      → seg.destination_port_address ≡ conn.source_port
      → seg.flags ≡ create_flag Flags.fin Flags.ack
      → receive_segment F now conn seg ≡ with_client F now conn seg on_fin_ack_for
  unfolding receive_segment decode_flags create_flag flag_byte
  receive_segment-fin_ack conn seg ours flags = rw flags (ground (arith, ours))

pub IsBare-same :
    {segment : Segment} {source port seq seq' ack flag ip ip' : ℕ}
    → seq ≡ seq'
    → ip ≡ ip'
    → IsBare segment source port seq ack flag ip
    → IsBare segment source port seq' ack flag ip'
IsBare-same {source = source} {port = port} {ack = ack} {flag = flag} e f b = record {
  window = b.window;
  urgent = b.urgent;
  its_members = b.its_members ∙ bare-same port ack flag b.window b.urgent refl e refl f;
}

-- A client whose FIN is acknowledged by a FIN_ACK.
pub record IsAcknowledged {D : Type 0} (conn conn' : Connection D) (port : ℕ) (state : State)
    (seq ack ip : ℕ) : Type 0 where
  pub client : Client D
  pub found : ClientMap.find port conn'.clients ≡ some client
  pub own_port : client.port ≡ port
  pub in_state : client.state ≡ state
  pub at_seq : client.expected_sequence ≡ seq
  pub at_ack : client.expected_ack ≡ ack
  pub acked : client.last_ack ≡ seq
  pub at_ip : client.ip ≡ ip
  pub queued : conn'.sender_queue ≡ conn.sender_queue
  pub same_source : conn'.source_port ≡ conn.source_port
  pub same_self : conn'.source_ip ≡ conn.source_ip
  pub same_receiver : conn'.receiver_queue ≡ conn.receiver_queue

-- A client that has answered the FIN of the other side, after its own was acknowledged.
pub record IsTimeWait {D : Type 0} (conn conn' : Connection D) (port seq ack ip : ℕ) : Type 0 where
  pub client : Client D
  pub item : Outgoing
  pub found : ClientMap.find port conn'.clients ≡ some client
  pub in_state : client.state ≡ State.time_wait
  pub queued : conn'.sender_queue ≡ conn.sender_queue ++ item ∷ []
  pub answer :
      IsBare (item.segment) conn.source_port port seq ack (create_flag Flags.fin Flags.ack) ip
  pub same_receiver : conn'.receiver_queue ≡ conn.receiver_queue

module _ {D : Type 0} (F : Doubles D) (now : ℕ) (conn : Connection D) (client : Client D)
    (seg : Segment) (ours : seg.destination_port_address ≡ conn.source_port)
    (found : ClientMap.find seg.source_port_address conn.clients ≡ some client)
    (own : client.port ≡ seg.source_port_address) where
  on_fin_ack_for-accepted :
      (c : Client D) (before : Connection D)
      → seg.sequence_number ≡ c.expected_ack
      → seg.acknowledgement_number ≡ c.expected_sequence
      → on_fin_ack_for before seg.source_port_address c seg
        ≡ update_client before seg.source_port_address (λ c'.
          record (check_front_all before.store c' seg.acknowledgement_number) {
            expected_sequence = seg.acknowledgement_number;
            expected_ack = u32 (seg.sequence_number + 1);
            last_ack = seg.acknowledgement_number;
            window_size = seg.window_size;
            state = state_after_fin_ack c'.state;
          })
  unfolding on_fin_ack_for
  on_fin_ack_for-accepted c before seq ack = ground (arith, seq, ack)

  pub receive_segment-IsAcknowledged :
      seg.flags ≡ create_flag Flags.fin Flags.ack
      → seg.sequence_number ≡ client.expected_ack
      → seg.acknowledgement_number ≡ client.expected_sequence
      → IsAcknowledged conn
          (receive_segment F now conn seg)
          seg.source_port_address
          (state_after_fin_ack client.state)
          seg.acknowledgement_number
          (u32 (seg.sequence_number + 1))
          client.ip
  unfolding update_client check_front_all
  receive_segment-IsAcknowledged flags seq ack =
      let keeps = check_tracker_segment-keeps F conn.store now client seg.acknowledgement_number in
      let before = with_timed F now conn client seg ours found in
      let c = timed F now conn client seg ours found in
      rw
        (receive_segment-fin_ack F now conn seg ours flags
          ∙ with_client-found F now conn client seg on_fin_ack_for found
          ∙ on_fin_ack_for-accepted c before (seq ∙ sym keeps.2) (ack ∙ sym keeps.0.sequence))
        record {
          client = record (check_front_all conn.store c seg.acknowledgement_number) {
            expected_sequence = seg.acknowledgement_number;
            expected_ack = u32 (seg.sequence_number + 1);
            last_ack = seg.acknowledgement_number;
            window_size = seg.window_size;
            state = state_after_fin_ack c.state;
          };
          found =
              find-modify_same seg.source_port_address _ _ c
                (with_timed-found F now conn client seg ours found);
          own_port = keeps.0.port ∙ own;
          in_state = ap state_after_fin_ack keeps.1;
          at_seq = refl;
          at_ack = refl;
          acked = refl;
          at_ip = keeps.0.ip;
          queued = refl;
          same_source = refl;
          same_self = refl;
          same_receiver = refl;
        }

  -- The first FIN: it is answered, and followed by our own.
  pub receive_segment-IsLastAck :
      client.state ≡ State.established
      → client.last_byte_sent ≡ length conn.send_buffer
      → client.is_fin_sent ≡ false
      → seg.flags ≡ fin_flag
      → seg.sequence_number ≡ client.expected_ack
      → seg.sequence_number ≤ u32 (seg.sequence_number + 1)
      → client.last_ack ≤ seg.acknowledgement_number
      → seg.acknowledgement_number ≤ client.expected_sequence
      → IsLastAck conn
          (receive_segment F now conn seg)
          seg.source_port_address
          client.expected_sequence
          seg.sequence_number
          client.ip
          seg
  unfolding update_client
  receive_segment-IsLastAck state sent not_sent flags seq order low high =
      let keeps = check_tracker_segment-keeps F conn.store now client seg.acknowledgement_number in
      let same = keeps.0 in
      let before = with_timed F now conn client seg ours found in
      let l =
        on_fin_for-IsLastAck before (timed F now conn client seg ours found) seg
          (with_timed-found F now conn client seg ours found) (same.port ∙ own) (keeps.1 ∙ state)
          (same.last_byte ∙ sent) (same.fin_sent ∙ not_sent) flags (seq ∙ sym keeps.2) order
          (omega (arith, same.acked, low)) (omega (arith, same.sequence, high)) in
      rw
        (receive_segment-fin F now conn seg ours flags
          ∙ with_client-found F now conn client seg on_fin_for found)
        record {
          client = l.client;
          first = l.first;
          second = l.second;
          found = l.found;
          own_port = l.own_port;
          in_state = l.in_state;
          at_seq = l.at_seq ∙ ap (λ (n : ℕ). u32 (u32 (n + 1) + 1)) same.sequence;
          at_ack = l.at_ack;
          queued = l.queued;
          answer = IsBare-same same.sequence same.ip l.answer;
          its_fin = IsBare-same (ap (λ (n : ℕ). u32 (n + 1)) same.sequence) same.ip l.its_fin;
          same_source = l.same_source;
          same_self = l.same_self;
          puts_back = l.puts_back;
        }

  -- The FIN of the other side, when ours is acknowledged.
  pub receive_segment-IsTimeWait :
      client.state ≡ State.fin_wait_2
      → seg.flags ≡ fin_flag
      → seg.sequence_number ≡ client.expected_ack
      → client.last_ack ≤ seg.acknowledgement_number
      → seg.acknowledgement_number ≤ client.expected_sequence
      → IsTimeWait conn
          (receive_segment F now conn seg)
          seg.source_port_address
          client.expected_sequence
          (u32 (seg.sequence_number + 1))
          client.ip
  unfolding update_client
  receive_segment-IsTimeWait state flags seq low high =
      let keeps = check_tracker_segment-keeps F conn.store now client seg.acknowledgement_number in
      let same = keeps.0 in
      let before = with_timed F now conn client seg ours found in
      let c = timed F now conn client seg ours found in
      let q =
        fin_reply-IsQueued before seg.source_port_address c
          (with_timed-found F now conn client seg ours found) (same.port ∙ own) seg
          State.time_wait in
      rw
        (receive_segment-fin F now conn seg ours flags
          ∙ with_client-found F now conn client seg on_fin_for found
          ∙ on_fin_for-time_wait before seg.source_port_address c seg (keeps.1 ∙ state)
              (seq ∙ sym keeps.2) (omega (arith, same.acked, low))
              (omega (arith, same.sequence, high)))
        record {
          client = q.0.client;
          item = q.0.item;
          found = q.0.found;
          in_state = q.0.in_state;
          queued = q.0.queued;
          same_receiver = q.0.same_receiver;
          answer = IsBare-same same.sequence same.ip record {
            window = conn.window_size;
            urgent = conn.urgent_pointer;
            its_members = q.0.carries;
          };
        }
