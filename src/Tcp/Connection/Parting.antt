-- ===== src/Tcp/Connection/Parting.antt =====
-- The two halves of the end of two connections in backend/TCP/src/Connection.cpp: a FIN and the answer
-- to it, and then the FIN of the other side and the answer to that.
use full_stack_shinfeld.Common.{
  ℕ, ◌+◌, ◌^◌, ◌<◌, ◌≡◌, ◌≤◌, refl, sym, ap, ap₂, ◌∙◌, ◌++◌, false, List, [], ◌∷◌, some, arith,
  length,
}
use full_stack_shinfeld.Common.Bits.{u32}
use full_stack_shinfeld.Tcp.ClientMap
use full_stack_shinfeld.Tcp.Flags.{State, Flags, create_flag}
use full_stack_shinfeld.Tcp.Segment.{Segment, segment_of_range, segment_of_payload}
use full_stack_shinfeld.Tcp.Client.{Client, Doubles}
use full_stack_shinfeld.Tcp.Connection.{Connection, Outgoing, fin_flag}
use full_stack_shinfeld.Tcp.Connection.Sending.{send_fin}
use full_stack_shinfeld.Tcp.Connection.Receiving.{state_after_fin_ack}
use full_stack_shinfeld.Tcp.Connection.Loop.{receive_segment}
use full_stack_shinfeld.Tcp.SocketHandler.Delivery.{arrived}
use full_stack_shinfeld.Tcp.Connection.Crossing.{after_send, carry, carry-first, carry-queued}
use full_stack_shinfeld.Tcp.Connection.Answering.{IsBare, bare-same}
use full_stack_shinfeld.Tcp.Connection.Closing.{fin_of, send_fin-IsQueued}
use full_stack_shinfeld.Tcp.Connection.Leaving.{
  IsBare-same, receive_segment-IsAcknowledged, receive_segment-IsLastAck,
  receive_segment-IsTimeWait,
}

-- A connection has a peer at a port and an address ESTABLISHED, all data sent and no FIN yet.
pub record IsOpen {D : Type 0} (conn : Connection D) (port ip : ℕ) (client : Client D)
    : Type 0 where
  pub found : ClientMap.find port conn.clients ≡ some client
  pub own_port : client.port ≡ port
  pub own_ip : client.ip ≡ ip
  pub in_state : client.state ≡ State.established
  pub all_sent : client.last_byte_sent ≡ length conn.send_buffer
  pub no_fin : client.is_fin_sent ≡ false
  pub nothing_queued : conn.sender_queue ≡ []
  pub nothing_received : conn.receiver_queue ≡ []

-- The numbers of two clients, each the other's peer, agree.
pub record Agree {D : Type 0} (c d : Client D) : Type 0 where
  pub forth : d.expected_ack ≡ c.expected_sequence
  pub back : c.expected_ack ≡ d.expected_sequence
  pub acked : d.last_ack ≤ d.expected_sequence
  pub no_wrap : c.expected_sequence + 1 < 2 ^ 32

-- Between the two halves: the FIN of the first connection is acknowledged, and that of the second is
-- queued.
pub record IsHalfway {D : Type 0} (a b : Connection D) (a_port b_port seq ack : ℕ)
    (received : List Segment) : Type 0 where
  pub waiting : Client D
  pub leaving : Client D
  pub item : Outgoing
  pub waiting_found : ClientMap.find b_port a.clients ≡ some waiting
  pub waiting_port : waiting.port ≡ b_port
  pub waiting_ip : waiting.ip ≡ b.source_ip
  pub waiting_state : waiting.state ≡ State.fin_wait_2
  pub waiting_seq : waiting.expected_sequence ≡ seq
  pub waiting_ack : waiting.expected_ack ≡ ack
  pub waiting_acked : waiting.last_ack ≡ seq
  pub waiting_queue : a.sender_queue ≡ []
  pub waiting_received : a.receiver_queue ≡ []
  pub waiting_source : a.source_port ≡ a_port
  pub leaving_found : ClientMap.find a_port b.clients ≡ some leaving
  pub leaving_port : leaving.port ≡ a_port
  pub leaving_state : leaving.state ≡ State.last_ack
  pub leaving_seq : leaving.expected_sequence ≡ u32 (ack + 1)
  pub leaving_ack : leaving.expected_ack ≡ seq
  pub leaving_queue : b.sender_queue ≡ item ∷ []
  pub leaving_received : b.receiver_queue ≡ received
  pub leaving_source : b.source_port ≡ b_port
  pub its_fin : IsBare (item.segment) b_port a_port ack seq fin_flag a.source_ip

small_u32 : (n : ℕ) → n + 1 < 2 ^ 32 → n ≤ u32 (n + 1)
small_u32 n h = omega arith

fin_wait_2_after : state_after_fin_ack State.fin_wait_1 ≡ State.fin_wait_2
unfolding state_after_fin_ack
fin_wait_2_after = refl

closed_after : state_after_fin_ack State.last_ack ≡ State.closed
unfolding state_after_fin_ack
closed_after = refl

-- What both sides have come to.
pub record IsClosed {D : Type 0} (a b : Connection D) (a_port b_port : ℕ) : Type 0 where
  pub closer : Client D
  pub closed : Client D
  pub closer_found : ClientMap.find b_port a.clients ≡ some closer
  pub closed_found : ClientMap.find a_port b.clients ≡ some closed
  pub closer_waits : closer.state ≡ State.time_wait
  pub is_closed : closed.state ≡ State.closed
  pub closer_queue : a.sender_queue ≡ []
  pub closed_queue : b.sender_queue ≡ []
  pub closer_received : a.receiver_queue ≡ []
  pub closed_received : b.receiver_queue ≡ []

module _ {D : Type 0} (F : Doubles D) where
  -- Each way one segment, from the first connection and then from the second.
  unfoldable pub there_and_back : ℕ → ℕ → Connection D → Connection D → Connection D × Connection D
  there_and_back t1 t2 a b = let first = carry F t1 a b in carry F t2 first.1 first.0

  there_and_back-steps :
      (t1 t2 : ℕ) (a b : Connection D) (first second : Connection D × Connection D)
      → carry F t1 a b ≡ first
      → carry F t2 (first.1) (first.0) ≡ second
      → there_and_back t1 t2 a b ≡ second
  unfolding there_and_back
  there_and_back-steps t1 t2 a b first second e1 e2 = rw (e1, e2) refl

  -- The FIN of the first connection, as it arrives.
  abbrev pub fin_arrived : Connection D → ℕ → Client D → Segment
  fin_arrived a port c = arrived a.source_ip (fin_of a port c)

  pub first_half :
      (t1 t2 : ℕ) (a b : Connection D) (c d : Client D)
      → IsOpen a b.source_port b.source_ip c
      → IsOpen b a.source_port a.source_ip d
      → Agree c d
      → let half = there_and_back t1 t2 (send_fin a b.source_port c State.fin_wait_1) b in
        IsHalfway
          (half.1)
          (half.0)
          a.source_port
          b.source_port
          (u32 (c.expected_sequence + 1))
          (u32 (d.expected_sequence + 1))
          (fin_arrived a b.source_port c ∷ [])
  unfolding segment_of_range segment_of_payload arrived
  first_half t1 t2 a b c d open_a open_b agree =
      let a1 = send_fin a b.source_port c State.fin_wait_1 in
      let q1 = send_fin-IsQueued a b.source_port c open_a.found open_a.own_port State.fin_wait_1 in
      let a2 = after_send F t1 a1 q1.item in
      let seg1 = arrived a1.source_ip (fin_of a b.source_port c) in
      let l =
        receive_segment-IsLastAck F t1 b d seg1 refl open_b.found open_b.own_port open_b.in_state
          open_b.all_sent open_b.no_fin refl (sym agree.forth)
          (small_u32 c.expected_sequence agree.no_wrap) (omega (arith, agree.acked, agree.back))
          (omega (arith, agree.back)) in
      let b1 = receive_segment F t1 b seg1 in
      let s2 =
        segment_of_range b.source_port a.source_port d.expected_sequence
          (u32 (c.expected_sequence + 1)) (create_flag Flags.fin Flags.ack) l.answer.window
          l.answer.urgent d.ip 0 0 in
      let seg2 = arrived b1.source_ip s2 in
      let q3 =
        receive_segment-IsAcknowledged F t2 a2 q1.client seg2 (sym q1.same_source) q1.found
          q1.own_port refl (sym agree.back ∙ sym q1.at_ack) (sym q1.at_seq) in
      rw
        (there_and_back-steps t1 t2 a1 b (a2, b1) _
          (carry-queued F t1 a1 b q1.item _
            (q1.queued ∙ ap (λ (x : List Outgoing). x ++ q1.item ∷ []) open_a.nothing_queued)
            q1.carries open_a.own_ip open_b.nothing_received)
          (carry-first F t2 b1 a2 l.first (l.second ∷ []) s2
            (l.queued
              ∙ ap (λ (x : List Outgoing). x ++ l.first ∷ l.second ∷ []) open_b.nothing_queued)
            l.answer.its_members (open_b.own_ip ∙ sym q1.same_self)
            (q1.same_receiver ∙ open_a.nothing_received)))
        record {
          waiting = q3.client;
          leaving = l.client;
          item = l.second;
          waiting_found = q3.found;
          waiting_port = q3.own_port;
          waiting_ip = q3.at_ip ∙ q1.at_ip ∙ open_a.own_ip ∙ sym l.same_self;
          waiting_state = q3.in_state ∙ ap state_after_fin_ack q1.in_state ∙ fin_wait_2_after;
          waiting_seq = q3.at_seq;
          waiting_ack = q3.at_ack;
          waiting_acked = q3.acked;
          waiting_queue = q3.queued;
          waiting_received = q3.same_receiver ∙ q1.same_receiver ∙ open_a.nothing_received;
          waiting_source = q3.same_source ∙ q1.same_source;
          leaving_found = l.found;
          leaving_port = l.own_port;
          leaving_state = l.in_state;
          leaving_seq = l.at_seq;
          leaving_ack = l.at_ack;
          leaving_queue = refl;
          leaving_received =
              l.puts_back
              ∙ ap₂ (λ (x : List Segment) (s : Segment). x ++ s ∷ []) open_b.nothing_received
                  (ap (λ (ip : ℕ). arrived ip (fin_of a b.source_port c)) q1.same_self);
          leaving_source = l.same_source;
          its_fin =
              IsBare-same refl (open_b.own_ip ∙ sym q1.same_self ∙ sym q3.same_self) l.its_fin;
        }

  pub second_half :
      (t3 t4 : ℕ) (a b : Connection D) (a_port b_port seq ack : ℕ)
      → IsHalfway a b a_port b_port seq ack []
      → let after = there_and_back t3 t4 b a in IsClosed (after.0) (after.1) a_port b_port
  unfolding segment_of_range segment_of_payload arrived
  second_half t3 t4 a b a_port b_port seq ack h =
      let s3 =
        segment_of_range b_port a_port ack seq fin_flag h.its_fin.window h.its_fin.urgent
          a.source_ip 0 0 in
      let b3 = after_send F t3 b h.item in
      let seg3 = arrived b.source_ip s3 in
      let q4 =
        receive_segment-IsTimeWait F t3 a h.waiting seg3 (sym h.waiting_source) h.waiting_found
          h.waiting_port h.waiting_state refl (sym h.waiting_ack) (omega (arith, h.waiting_acked))
          (omega (arith, h.waiting_seq)) in
      let a4 = receive_segment F t3 a seg3 in
      let s4 =
        segment_of_range a_port b_port seq (u32 (ack + 1)) (create_flag Flags.fin Flags.ack)
          q4.answer.window q4.answer.urgent h.waiting.ip 0 0 in
      let seg4 = arrived a4.source_ip s4 in
      let q5 =
        receive_segment-IsAcknowledged F t4 b3 h.leaving seg4 (sym h.leaving_source) h.leaving_found
          h.leaving_port refl (sym h.leaving_ack) (sym h.leaving_seq) in
      rw
        (there_and_back-steps t3 t4 b a (b3, a4) _
          (carry-queued F t3 b a h.item s3 h.leaving_queue h.its_fin.its_members refl
            h.waiting_received)
          (carry-queued F t4 a4 b3 q4.item s4
            (q4.queued ∙ ap (λ (x : List Outgoing). x ++ q4.item ∷ []) h.waiting_queue)
            (q4.answer.its_members
              ∙ bare-same b_port _ _ _ _ h.waiting_source h.waiting_seq refl refl)
            h.waiting_ip h.leaving_received))
        record {
          closer = q4.client;
          closed = q5.client;
          closer_found = q4.found;
          closed_found = q5.found;
          closer_waits = q4.in_state;
          is_closed = q5.in_state ∙ ap state_after_fin_ack h.leaving_state ∙ closed_after;
          closer_queue = refl;
          closed_queue = q5.queued;
          closer_received = q4.same_receiver ∙ h.waiting_received;
          closed_received = q5.same_receiver ∙ h.leaving_received;
        }
