-- ===== src/Tcp/Connection/Message.antt =====
-- What one call of `createMessage` for a known client does.
use full_stack_shinfeld.Common.{
  ℕ, ◌≡◌, refl, ◌++◌, [], ◌∷◌, none, some, arith, Bool-cases, inl, inr, if◌then◌else◌,
}
use full_stack_shinfeld.Tcp.ClientMap
use full_stack_shinfeld.Tcp.Flags.{State}
use full_stack_shinfeld.Tcp.Segment.{Segment, segment_of_range}
use full_stack_shinfeld.Tcp.SegmentInfo.{Store}
use full_stack_shinfeld.Tcp.Client.{Client}
use full_stack_shinfeld.Tcp.Client.Sent.{push_message}
use full_stack_shinfeld.Tcp.Connection.{
  Connection, Outgoing, Tracked, is_tracked, track, create_message, create_message_for,
}
use full_stack_shinfeld.Tcp.Connection.Round.{find-modify_same, create_message-found}

-- The members of a client that a message leaves as they are.
pub record HasSameNumbers {D : Type 0} (c c' : Client D) : Type 0 where
  pub port : c'.port ≡ c.port
  pub ip : c'.ip ≡ c.ip
  pub sequence : c'.expected_sequence ≡ c.expected_sequence
  pub acked : c'.last_ack ≡ c.last_ack
  pub last_byte : c'.last_byte_sent ≡ c.last_byte_sent
  pub fin_sent : c'.is_fin_sent ≡ c.is_fin_sent
  pub buffer : c'.message_buffer ≡ c.message_buffer

-- The connection after a message to a client: the segment is queued, and the client has the state and
-- the expected number of the message.
pub record IsMessage {D : Type 0} (conn conn' : Connection D) (port : ℕ) (client : Client D)
    (segment : Segment) (ack : ℕ) (state : State) : Type 0 where
  pub after : Client D
  pub outgoing : Outgoing
  pub found : ClientMap.find port conn'.clients ≡ some after
  pub numbers : HasSameNumbers client after
  pub in_state : after.state ≡ state
  pub expects : after.expected_ack ≡ ack
  pub queued : conn'.sender_queue ≡ conn.sender_queue ++ outgoing ∷ []
  pub carries : outgoing.segment ≡ segment
  pub same_source : conn'.source_port ≡ conn.source_port
  pub same_self : conn'.source_ip ≡ conn.source_ip
  pub same_receiver : conn'.receiver_queue ≡ conn.receiver_queue
  pub same_buffer : conn'.send_buffer ≡ conn.send_buffer
  pub same_closing : conn'.time_to_close ≡ conn.time_to_close

module _ {D : Type 0} where
  track-HasSameNumbers :
      (store : Store) (client : Client D) (seq_num flag start end : ℕ)
      → HasSameNumbers client (track store client seq_num flag start end).client
  unfolding track push_message
  track-HasSameNumbers store client seq_num flag start end = ground arith

  abbrev tracked_as : Connection D → Client D → ℕ → ℕ → ℕ → ℕ → Tracked D
  tracked_as conn client seq_num flag start end =
      if is_tracked flag end
      then track conn.store client seq_num flag start end
      else record { store = conn.store; client = client; on_sent = none }

  tracked_as-HasSameNumbers :
      (conn : Connection D) (client : Client D) (seq_num flag start end : ℕ)
      → HasSameNumbers client (tracked_as conn client seq_num flag start end).client
  tracked_as-HasSameNumbers conn client seq_num flag start end =
      let same = track-HasSameNumbers conn.store client seq_num flag start end in
      elim (Bool-cases (is_tracked flag end)) [
        | inl t ↦ rw t same
        | inr t ↦ rw t (record {
          port = refl;
          ip = refl;
          sequence = refl;
          acked = refl;
          last_byte = refl;
          fin_sent = refl;
          buffer = refl;
        })
      ]

  pub create_message-IsMessage :
      (conn : Connection D) (client : Client D) (src port seq_num ack flag window urgent ip : ℕ)
      (state : State) (start end : ℕ)
      → ClientMap.find port conn.clients ≡ some client
      → IsMessage conn
          (create_message conn src port seq_num ack flag window urgent ip state start end)
          port
          client
          (segment_of_range src port seq_num ack flag window urgent ip start end)
          ack
          state
  unfolding create_message_for
  create_message-IsMessage conn client src port seq_num ack flag window urgent ip state start end
        e =
      let tracked = tracked_as conn client seq_num flag start end in
      let same = tracked_as-HasSameNumbers conn client seq_num flag start end in
      rw
        (create_message-found conn client src port seq_num ack flag window urgent ip state start end
          e)
        (record {
          after = record (tracked.client) { state = state; expected_ack = ack };
          outgoing = record {
            segment = segment_of_range src port seq_num ack flag window urgent ip start end;
            on_sent = tracked.on_sent;
          };
          found = find-modify_same port _ conn.clients client e;
          numbers = record {
            port = same.port;
            ip = same.ip;
            sequence = same.sequence;
            acked = same.acked;
            last_byte = same.last_byte;
            fin_sent = same.fin_sent;
            buffer = same.buffer;
          };
          in_state = refl;
          expects = refl;
          queued = refl;
          carries = refl;
          same_source = refl;
          same_self = refl;
          same_receiver = refl;
          same_buffer = refl;
          same_closing = refl;
        })
