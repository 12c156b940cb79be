-- ===== src/Tcp/Connection/Round.antt =====
-- One round of the loop of `Connection::sendMessages`: the segment it queues, and the client after it.
use full_stack_shinfeld.Common.{
  ℕ, ◌+◌, ◌-◌, ◌^◌, ◌≡◌, inl, inr, refl, sym, ap, ◌∙◌, ◌++◌, List, [], ◌∷◌, none, some, arith,
  Bool-cases, if◌then◌else◌,
}
use full_stack_shinfeld.Common.Bits.{u16, u32}
use full_stack_shinfeld.Tcp.ClientMap
use full_stack_shinfeld.Tcp.Flags.{State}
use full_stack_shinfeld.Tcp.Segment.{segment_of_range}
use full_stack_shinfeld.Tcp.SegmentInfo.{Store}
use full_stack_shinfeld.Tcp.Client.{Client}
use full_stack_shinfeld.Tcp.Client.Sent.{push_message}
use full_stack_shinfeld.Tcp.Connection.{
  Connection, Outgoing, Tracked, ack_flag, is_tracked, track, create_message, create_message_for,
  update_client,
}
use full_stack_shinfeld.Tcp.Connection.Sending.{send_round}

module _ {A : Type 0} where
  pub find-modify_same :
      (k : ℕ) (f : A → A) (m : List (ℕ × A)) (a : A)
      → ClientMap.find k m ≡ some a
      → ClientMap.find k (ClientMap.modify k f m) ≡ some (f a)
  find-modify_same k f m a e = ground (arith, e, ClientMap.find-modify k k f m)

module _ {D : Type 0} where
  -- What tracking a segment leaves as it is.
  track_keeps :
      (store : Store) (client : Client D) (seq_num flag start end : ℕ)
      → ((track store client seq_num flag start end).client.port ≡ client.port)
        × ((track store client seq_num flag start end).client.expected_sequence
            ≡ client.expected_sequence)
  unfolding track push_message
  track_keeps store client seq_num flag start end = ground arith

  pub create_message-found :
      (conn : Connection D) (client : Client D) (src dst seq_num ack_num flag window urgent ip : ℕ)
      (state : State) (start end : ℕ)
      → ClientMap.find dst conn.clients ≡ some client
      → create_message conn src dst seq_num ack_num flag window urgent ip state start end
        ≡ create_message_for conn client src dst seq_num ack_num flag window urgent ip state start
            end
  unfolding create_message
  create_message-found conn client src dst seq_num ack_num flag window urgent ip state start end e =
      ground (arith, e)

-- What one round leaves: the same buffer, one more segment, and the client behind it.
pub record IsRound {D : Type 0} (conn conn' : Connection D) (port : ℕ) (client : Client D) (end : ℕ)
    : Type 0 where
  pub sent : Outgoing
  pub after : Client D
  pub queued : conn'.sender_queue ≡ conn.sender_queue ++ sent ∷ []
  pub same_buffer : conn'.send_buffer ≡ conn.send_buffer
  pub its_start : sent.segment.start ≡ some client.last_byte_sent
  pub its_end : sent.segment.end ≡ some end
  pub its_seq : sent.segment.sequence_number ≡ client.expected_sequence
  pub found : ClientMap.find port conn'.clients ≡ some after
  pub own_port : after.port ≡ port
  pub at_end : after.last_byte_sent ≡ end
  pub at_seq :
      after.expected_sequence
      ≡ u32 (client.expected_sequence + u16 (end + 2 ^ 32 - client.last_byte_sent))

module _ {D : Type 0} where
  abbrev tracked_for : Connection D → Client D → ℕ → ℕ → ℕ → Tracked D
  tracked_for conn client seq_num flag end =
      if is_tracked flag end
      then track conn.store client seq_num flag client.last_byte_sent end
      else record { store = conn.store; client = client; on_sent = none }

  tracked_for_keeps :
      (conn : Connection D) (client : Client D) (seq_num flag end : ℕ)
      → ((tracked_for conn client seq_num flag end).client.port ≡ client.port)
        × ((tracked_for conn client seq_num flag end).client.expected_sequence
            ≡ client.expected_sequence)
  tracked_for_keeps conn client seq_num flag end =
      let keeps = track_keeps conn.store client seq_num flag client.last_byte_sent end in
      elim (Bool-cases (is_tracked flag end)) [ inl t ↦ rw t keeps | inr t ↦ rw t (refl, refl) ]

  -- A message that is made for a client, and the client that is changed behind it.
  for_client :
      (conn : Connection D) (client : Client D) (port src seq_num ack_num flag window urgent ip : ℕ)
      (state : State) (end : ℕ)
      → ClientMap.find port conn.clients ≡ some client
      → client.port ≡ port
      → client.expected_sequence ≡ seq_num
      → IsRound conn
          (update_client
            (create_message_for conn client src port seq_num ack_num flag window urgent ip state
              client.last_byte_sent end)
            port
            (λ c. record c {
              last_byte_sent = end;
              expected_sequence =
                  u32 (c.expected_sequence + u16 (end + 2 ^ 32 - client.last_byte_sent));
            }))
          port
          client
          end
  unfolding update_client create_message_for segment_of_range
  for_client conn client port src seq_num ack_num flag window urgent ip state end e own seq =
      record {
        sent = record {
          segment =
              segment_of_range src port seq_num ack_num flag window urgent ip client.last_byte_sent
                end;
          on_sent = (tracked_for conn client seq_num flag end).on_sent;
        };
        after = record ((tracked_for conn client seq_num flag end).client) {
          state = state;
          expected_ack = ack_num;
          last_byte_sent = end;
          expected_sequence = u32 (
              (tracked_for conn client seq_num flag end).client.expected_sequence
              + u16 (end + 2 ^ 32 - client.last_byte_sent));
        };
        queued = refl;
        same_buffer = refl;
        its_start = refl;
        its_end = refl;
        its_seq = sym seq;
        found =
            find-modify_same port _ (ClientMap.modify port _ conn.clients) _
              (find-modify_same port _ conn.clients client e);
        own_port = (tracked_for_keeps conn client seq_num flag end).0 ∙ own;
        at_end = refl;
        at_seq =
            ap (λ (n : ℕ). u32 (n + u16 (end + 2 ^ 32 - client.last_byte_sent)))
              (tracked_for_keeps conn client seq_num flag end).1;
      }

  pub round_lem :
      (conn : Connection D) (client : Client D) (port end : ℕ)
      → ClientMap.find port conn.clients ≡ some client
      → client.port ≡ port
      → IsRound conn (send_round conn port client end) port client end
  unfolding send_round
  round_lem conn client port end e own =
      simp
        (
          own,
          create_message-found conn client conn.source_port port client.expected_sequence
              client.expected_ack ack_flag conn.window_size conn.urgent_pointer client.ip
              client.state client.last_byte_sent end e,
        )
        (for_client conn client port conn.source_port client.expected_sequence client.expected_ack
          ack_flag conn.window_size conn.urgent_pointer client.ip client.state end e own refl)
