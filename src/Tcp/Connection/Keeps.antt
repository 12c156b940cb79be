-- ===== src/Tcp/Connection/Keeps.antt =====
-- What sending leaves of a client as it is: the received file, the buffered segments and the next
-- sequence number that is expected of the peer.
use full_stack_shinfeld.Common.{
  ℕ, ◌≡◌, inl, inr, refl, ◌∙◌, List, none, some, arith, Bool-cases, if◌then◌else◌,
}
use full_stack_shinfeld.Tcp.ClientMap
use full_stack_shinfeld.Tcp.Flags.{State}
use full_stack_shinfeld.Tcp.MessageBuffer.{MessageBuffer}
use full_stack_shinfeld.Tcp.SegmentInfo.{Store}
use full_stack_shinfeld.Tcp.Client.{Client}
use full_stack_shinfeld.Tcp.Client.Sent.{push_message}
use full_stack_shinfeld.Tcp.Connection.{
  Connection, Tracked, is_tracked, track, create_message, create_message_for, update_client,
}
use full_stack_shinfeld.Tcp.Connection.Sending.{send_ack, send_round, send_fin}
use full_stack_shinfeld.Tcp.Connection.Round.{find-modify_same, create_message-found}

-- The client at a port, with what it has received.
pub record HasReceived {D : Type 0} (conn : Connection D) (port ack : ℕ) (file : List ℕ)
    (buffer : MessageBuffer) : Type 0 where
  pub current : Client D
  pub found : ClientMap.find port conn.clients ≡ some current
  pub own_port : current.port ≡ port
  pub same_ack : current.expected_ack ≡ ack
  pub same_file : current.file ≡ file
  pub same_buffer : current.message_buffer ≡ buffer

-- Two clients agree in what they have received.
pub record IsSameView {D : Type 0} (c c' : Client D) : Type 0 where
  pub port : c'.port ≡ c.port
  pub ack : c'.expected_ack ≡ c.expected_ack
  pub file : c'.file ≡ c.file
  pub buffer : c'.message_buffer ≡ c.message_buffer

module _ {D : Type 0} where
  track-IsSameView :
      (store : Store) (client : Client D) (seq_num flag start end : ℕ)
      → IsSameView client (track store client seq_num flag start end).client
  unfolding track push_message
  track-IsSameView store client seq_num flag start end = ground arith

module _ {D : Type 0} where
  abbrev tracked : Connection D → Client D → ℕ → ℕ → ℕ → ℕ → Tracked D
  tracked conn client seq_num flag start end =
      if is_tracked flag end
      then track conn.store client seq_num flag start end
      else record { store = conn.store; client = client; on_sent = none }

  tracked-IsSameView :
      (conn : Connection D) (client : Client D) (seq_num flag start end : ℕ)
      → IsSameView client (tracked conn client seq_num flag start end).client
  tracked-IsSameView conn client seq_num flag start end =
      let same = track-IsSameView conn.store client seq_num flag start end in
      elim (Bool-cases (is_tracked flag end)) [
        | inl t ↦ rw t same
        | inr t ↦ rw t (record { port = refl; ack = refl; file = refl; buffer = refl })
      ]

module _ {D : Type 0} {port ack : ℕ} {file : List ℕ} {buffer : MessageBuffer} where
  pub update_client-HasReceived :
      (conn : Connection D) (f : Client D → Client D) (h : HasReceived conn port ack file buffer)
      → IsSameView h.current (f h.current)
      → HasReceived (update_client conn port f) port ack file buffer
  unfolding update_client
  update_client-HasReceived conn f h v = record {
    current = f h.current;
    found = find-modify_same port f conn.clients h.current h.found;
    own_port = v.port ∙ h.own_port;
    same_ack = v.ack ∙ h.same_ack;
    same_file = v.file ∙ h.same_file;
    same_buffer = v.buffer ∙ h.same_buffer;
  }

  -- A message to the client that carries the number that it expects.
  pub create_message-HasReceived :
      (conn : Connection D) (src seq_num flag window urgent ip : ℕ) (state : State) (start end : ℕ)
      → HasReceived conn port ack file buffer
      → HasReceived
          (create_message conn src port seq_num ack flag window urgent ip state start end)
          port
          ack
          file
          buffer
  unfolding create_message_for
  create_message-HasReceived conn src seq_num flag window urgent ip state start end h =
      let same = tracked-IsSameView conn h.current seq_num flag start end in
      rw
        (create_message-found conn h.current src port seq_num ack flag window urgent ip state start
          end h.found)
        (record {
          current = record ((tracked conn h.current seq_num flag start end).client) {
            state = state;
            expected_ack = ack;
          };
          found = find-modify_same port _ conn.clients h.current h.found;
          own_port = same.port ∙ h.own_port;
          same_ack = refl;
          same_file = same.file ∙ h.same_file;
          same_buffer = same.buffer ∙ h.same_buffer;
        })

  -- The same for the client that was looked up.
  own_message-HasReceived :
      (conn : Connection D) (src seq_num flag window urgent ip : ℕ) (state : State) (start end : ℕ)
      (h : HasReceived conn port ack file buffer)
      → HasReceived
          (create_message conn src h.current.port seq_num h.current.expected_ack flag window urgent
            ip state start end)
          port
          ack
          file
          buffer
  own_message-HasReceived conn src seq_num flag window urgent ip state start end h =
      simp (h.own_port, h.same_ack)
        (create_message-HasReceived conn src seq_num flag window urgent ip state start end h)

  pub send_ack-HasReceived :
      (conn : Connection D) (h : HasReceived conn port ack file buffer)
      → HasReceived (send_ack conn h.current) port ack file buffer
  unfolding send_ack
  send_ack-HasReceived conn h = own_message-HasReceived conn _ _ _ _ _ _ _ _ _ h

  pub send_round-HasReceived :
      (conn : Connection D) (end : ℕ) (h : HasReceived conn port ack file buffer)
      → HasReceived (send_round conn port h.current end) port ack file buffer
  unfolding send_round
  send_round-HasReceived conn end h =
      update_client-HasReceived _ _ (own_message-HasReceived conn _ _ _ _ _ _ _ _ _ h)
        (record { port = refl; ack = refl; file = refl; buffer = refl })

  pub send_fin-HasReceived :
      (conn : Connection D) (state : State) (h : HasReceived conn port ack file buffer)
      → HasReceived (send_fin conn port h.current state) port ack file buffer
  unfolding send_fin
  send_fin-HasReceived conn state h =
      update_client-HasReceived _ _ (own_message-HasReceived conn _ _ _ _ _ _ _ _ _ h)
        (record { port = refl; ack = refl; file = refl; buffer = refl })
