-- ===== src/Tcp/Connection/Handshake.antt =====
-- The three-way handshake between two connections: `addClient` or the start of `communicate` on one
-- side, the cases SYN, SYN_ACK and ACK of `communicate`.
use full_stack_shinfeld.Common.{
  ℕ, ◌+◌, ◌≡◌, refl, sym, ap, ◌∙◌, ◌++◌, false, List, [], ◌∷◌, none, some, arith, length,
}
use full_stack_shinfeld.Common.Bits.{u32}
use full_stack_shinfeld.Tcp.ClientMap
use full_stack_shinfeld.Tcp.Flags.{State, Flags, create_flag}
use full_stack_shinfeld.Tcp.Segment.{Segment, segment_of_range, segment_of_payload}
use full_stack_shinfeld.Tcp.Client.{Client, Doubles}
use full_stack_shinfeld.Tcp.Connection.{Connection, Outgoing, ack_flag, syn_flag}
use full_stack_shinfeld.Tcp.Connection.Loop.{send_syn, on_syn, receive_segment}
use full_stack_shinfeld.Tcp.SocketHandler.Delivery.{arrived}
use full_stack_shinfeld.Tcp.Connection.Opening.{IsQueued, send_syn-IsQueued, on_syn-IsQueued}
use full_stack_shinfeld.Tcp.Connection.Accepting.{IsEstablished}
use full_stack_shinfeld.Tcp.Connection.Crossing.{
  after_send, carry, carry-queued, receive_segment-syn, receive_segment-IsQueued,
  receive_segment-IsEstablished,
}

module _ {D : Type 0} (F : Doubles D) where
  -- Three segments cross: one of the first connection, its answer, and the answer to that.
  unfoldable pub exchange : ℕ → ℕ → ℕ → Connection D → Connection D → Connection D × Connection D
  exchange t1 t2 t3 a b =
      let first = carry F t1 a b in
      let second = carry F t2 first.1 first.0 in carry F t3 second.1 second.0

  abbrev syn_of : Connection D → ℕ → Segment
  syn_of a port =
      segment_of_range a.source_port port a.default_sequence_number a.default_ack_number syn_flag
        a.window_size a.urgent_pointer a.destination_ip 0 0

  queued_alone :
      (conn conn' : Connection D) (port : ℕ) (segment : Segment) (state : State)
      (seq ack last byte ip : ℕ) (q : IsQueued conn conn' port segment state seq ack last byte ip)
      → conn.sender_queue ≡ []
      → conn'.sender_queue ≡ q.item ∷ []
  queued_alone conn conn' port segment state seq ack last byte ip q empty =
      q.queued ∙ ap (λ (l : List Outgoing). l ++ q.item ∷ []) empty

  first_crossing :
      (t : ℕ) (a b : Connection D) (peer : Client D)
      (e : ClientMap.find b.source_port a.clients ≡ some peer) (own : peer.port ≡ b.source_port)
      → a.destination_ip ≡ b.source_ip
      → b.receiver_queue ≡ []
      → a.sender_queue ≡ []
      → let q = send_syn-IsQueued F a b.source_port peer e own in
        let a1 = send_syn F a b.source_port in
        carry F t a1 b
        ≡ (after_send F t a1 q.item, on_syn F b (arrived a1.source_ip (syn_of a b.source_port)))
  unfolding arrived segment_of_payload segment_of_range
  first_crossing t a b peer e own addressed none_received empty =
      let q = send_syn-IsQueued F a b.source_port peer e own in
      let a1 = send_syn F a b.source_port in
      carry-queued F t a1 b q.item (syn_of a b.source_port)
        (queued_alone a a1 b.source_port _ _ _ _ _ _ _ q empty) q.carries addressed none_received
      ∙ ap (λ (c : Connection D). (after_send F t a1 q.item, c))
          (receive_segment-syn F t b (arrived a1.source_ip (syn_of a b.source_port)) refl refl)

  final_ack-same :
      (conn : Connection D) (port ack ip : ℕ) {source source' seq seq' : ℕ}
      → source ≡ source'
      → seq ≡ seq'
      → segment_of_range source port seq ack ack_flag conn.window_size conn.urgent_pointer ip 0 0
        ≡ segment_of_range source' port seq' ack ack_flag conn.window_size conn.urgent_pointer ip 0
            0
  final_ack-same conn port ack ip same_source same_seq = rw (same_source, same_seq) refl

  exchange-steps :
      (t1 t2 t3 : ℕ) (a b : Connection D) (first second third : Connection D × Connection D)
      → carry F t1 a b ≡ first
      → carry F t2 (first.1) (first.0) ≡ second
      → carry F t3 (second.1) (second.0) ≡ third
      → exchange t1 t2 t3 a b ≡ third
  unfolding exchange
  exchange-steps t1 t2 t3 a b first second third e1 e2 e3 = rw (e1, e2, e3) refl

  -- A connection that sends a SYN to a client it knows, whose target address and whose client's address
  -- are those of the other connection, and one that does not know the sender, has nothing to send and is
  -- not closing: when neither has anything else received or queued, the three segments that then cross, each only to its
  -- address, make both sides ESTABLISHED, each expects the number that the other uses next, and both
  -- queues are empty. The times of the three crossings are arbitrary.
  pub handshake :
      (t1 t2 t3 : ℕ) (a b : Connection D) (peer : Client D)
      → ClientMap.find b.source_port a.clients ≡ some peer
      → peer.port ≡ b.source_port
      → a.destination_ip ≡ b.source_ip
      → peer.ip ≡ b.source_ip
      → a.receiver_queue ≡ []
      → b.receiver_queue ≡ []
      → ClientMap.find a.source_port b.clients ≡ none
      → a.sender_queue ≡ []
      → b.sender_queue ≡ []
      → b.send_buffer ≡ []
      → b.time_to_close ≡ false
      → let after = exchange t1 t2 t3 (send_syn F a b.source_port) b in
        IsEstablished
          (after.0)
          b.source_port
          (u32 (a.default_sequence_number + 1))
          (u32 (b.default_sequence_number + 1))
        × IsEstablished
            (after.1)
            a.source_port
            (u32 (b.default_sequence_number + 1))
            (u32 (a.default_sequence_number + 1))
        × ((after.0).sender_queue ≡ [])
        × ((after.1).sender_queue ≡ [])
  unfolding segment_of_range segment_of_payload arrived
  handshake t1 t2 t3 a b peer found own addressed peer_ip a_received b_received unknown a_empty
        b_empty no_data open_ =
      let q1 = send_syn-IsQueued F a b.source_port peer found own in
      let a1 = send_syn F a b.source_port in
      let a2 = after_send F t1 a1 q1.item in
      let seg1 = arrived a1.source_ip (syn_of a b.source_port) in
      let q2 = on_syn-IsQueued F b seg1 unknown in
      let b1 = on_syn F b seg1 in
      let b2 = after_send F t2 b1 q2.item in
      let s2 =
        segment_of_range b.source_port a.source_port b.default_sequence_number
          (u32 (a.default_sequence_number + 1)) (create_flag Flags.syn Flags.ack) b.window_size
          b.urgent_pointer a1.source_ip 0 0 in
      let seg2 = arrived b1.source_ip s2 in
      let q3 =
        receive_segment-IsQueued F t2 a2 q1.client seg2 (sym q1.same_source) q1.found refl
          q1.own_port (sym q1.at_seq) in
      let a3 = receive_segment F t2 a2 seg2 in
      let s3 =
        segment_of_range a.source_port b.source_port (u32 (a.default_sequence_number + 1))
          (u32 (b.default_sequence_number + 1)) ack_flag a2.window_size a2.urgent_pointer
          (q1.client).ip 0 0 in
      let seg3 = arrived a3.source_ip s3 in
      let done =
        receive_segment-IsEstablished F t3 b2 q2.client seg3 (sym q2.same_source) q2.found
          q2.in_state (q2.at_byte ∙ sym (ap length (q2.same_buffer ∙ no_data)))
          (q2.same_closing ∙ open_) refl refl (sym q2.at_ack) (sym q2.at_seq)
          (omega (arith, q2.acked)) in
      rw
        (exchange-steps t1 t2 t3 a1 b (a2, b1) (b2, a3)
          (after_send F t3 a3 q3.item, receive_segment F t3 b2 seg3)
          (first_crossing t1 a b peer found own addressed b_received a_empty)
          (carry-queued F t2 b1 a2 q2.item s2
            (queued_alone b b1 a.source_port _ _ _ _ _ _ _ q2 b_empty) q2.carries refl
            (q1.same_receiver ∙ a_received))
          (carry-queued F t3 a3 b2 q3.item s3
            (queued_alone a2 a3 b.source_port _ _ _ _ _ _ _ q3 refl)
            (q3.carries ∙ final_ack-same a2 b.source_port _ _ q1.same_source q1.at_seq)
            (q1.at_ip ∙ peer_ip ∙ sym q2.same_self) (q2.same_receiver ∙ b_received)))
        (
          record {
            client = q3.client;
            found = q3.found;
            in_state = q3.in_state;
            at_seq = q3.at_seq ∙ q1.at_seq;
            at_ack = q3.at_ack;
          },
          record {
            client = done.0.client;
            found = done.0.found;
            in_state = done.0.in_state;
            at_seq = done.0.at_seq ∙ q2.at_seq;
            at_ack = done.0.at_ack ∙ q2.at_ack;
          },
          refl,
          done.1,
        )
