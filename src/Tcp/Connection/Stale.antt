-- ===== src/Tcp/Connection/Stale.antt =====
-- The FIN that backend/TCP/src/Connection.cpp puts back into the queue of received segments, when the
-- loop of `communicate` takes it up again.
use full_stack_shinfeld.Common.{ℕ, ◌+◌, ◌^◌, ◌<◌, ◌≡◌, refl, ◌∙◌, [], ◌∷◌, some, arith}
use full_stack_shinfeld.Common.Bits.{u32}
use full_stack_shinfeld.Tcp.ClientMap
use full_stack_shinfeld.Tcp.Segment.{Segment}
use full_stack_shinfeld.Tcp.Client.{Client, Doubles}
use full_stack_shinfeld.Tcp.Connection.{Connection, fin_flag, update_client}
use full_stack_shinfeld.Tcp.Connection.Receiving.{on_fin_for}
use full_stack_shinfeld.Tcp.Connection.Loop.{communicate_round, receive_round, receive_segment}
use full_stack_shinfeld.Tcp.Connection.Opening.{check_tracker_segment-keeps}
use full_stack_shinfeld.Tcp.Connection.Crossing.{
  timed, with_timed, with_timed-found, with_client-found,
}
use full_stack_shinfeld.Tcp.Connection.Leaving.{receive_segment-fin}
use full_stack_shinfeld.Tcp.Connection.Parting.{IsHalfway}

pub before_next : (n : ℕ) → n + 1 < 2 ^ 32 → n < u32 (n + 1)
before_next n h = omega arith

module _ {D : Type 0} (F : Doubles D) (now : ℕ) where
  on_fin_for-stale :
      (conn : Connection D) (port : ℕ) (client : Client D) (seg : Segment)
      → seg.sequence_number < client.expected_ack
      → on_fin_for conn port client seg ≡ conn
  unfolding on_fin_for
  on_fin_for-stale conn port client seg old = ground (arith, old)

  -- Its number is below the expected one: only the round trip time can change.
  receive_segment-stale :
      (conn : Connection D) (client : Client D) (seg : Segment)
      (ours : seg.destination_port_address ≡ conn.source_port)
      (found : ClientMap.find seg.source_port_address conn.clients ≡ some client)
      → seg.flags ≡ fin_flag
      → seg.sequence_number < client.expected_ack
      → receive_segment F now conn seg ≡ with_timed F now conn client seg ours found
  receive_segment-stale conn client seg ours found flags old =
      let keeps = check_tracker_segment-keeps F conn.store now client seg.acknowledgement_number in
      receive_segment-fin F now conn seg ours flags
      ∙ with_client-found F now conn client seg on_fin_for found
      ∙ on_fin_for-stale (with_timed F now conn client seg ours found) seg.source_port_address
          (timed F now conn client seg ours found) seg (omega (arith, keeps.2, old))

  communicate_round-received :
      (conn : Connection D) (seg : Segment)
      → conn.receiver_queue ≡ seg ∷ []
      → communicate_round F now conn
        ≡ receive_segment F now (record conn { receiver_queue = [] }) seg
  unfolding communicate_round receive_round
  communicate_round-received conn seg e = rw e refl

  pub round-IsHalfway :
      (a b : Connection D) (b_port seq ack : ℕ) (seg : Segment)
      → seg.destination_port_address ≡ b_port
      → seg.flags ≡ fin_flag
      → seg.sequence_number < seq
      → IsHalfway a b seg.source_port_address b_port seq ack (seg ∷ [])
      → IsHalfway a (communicate_round F now b) seg.source_port_address b_port seq ack []
  unfolding update_client
  round-IsHalfway a b b_port seq ack seg ours flags old h =
      let rest = record b { receiver_queue = [] } in
      let to_b : seg.destination_port_address ≡ rest.source_port =
        omega (arith, ours, h.leaving_source) in
      let keeps = check_tracker_segment-keeps F b.store now h.leaving seg.acknowledgement_number in
      rw
        (communicate_round-received b seg h.leaving_received
          ∙ receive_segment-stale rest h.leaving seg to_b h.leaving_found flags
              (omega (arith, h.leaving_ack, old)))
        record {
          waiting = h.waiting;
          leaving = timed F now rest h.leaving seg to_b h.leaving_found;
          item = h.item;
          waiting_found = h.waiting_found;
          waiting_port = h.waiting_port;
          waiting_ip = h.waiting_ip;
          waiting_state = h.waiting_state;
          waiting_seq = h.waiting_seq;
          waiting_ack = h.waiting_ack;
          waiting_acked = h.waiting_acked;
          waiting_queue = h.waiting_queue;
          waiting_received = h.waiting_received;
          waiting_source = h.waiting_source;
          leaving_found = with_timed-found F now rest h.leaving seg to_b h.leaving_found;
          leaving_port = keeps.0.port ∙ h.leaving_port;
          leaving_state = keeps.1 ∙ h.leaving_state;
          leaving_seq = keeps.0.sequence ∙ h.leaving_seq;
          leaving_ack = keeps.2 ∙ h.leaving_ack;
          leaving_queue = h.leaving_queue;
          leaving_received = refl;
          leaving_source = h.leaving_source;
          its_fin = h.its_fin;
        }
