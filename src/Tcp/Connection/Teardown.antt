-- ===== src/Tcp/Connection/Teardown.antt =====
-- The end of two connections in backend/TCP/src/Connection.cpp: the FIN that `communicate` makes when it
-- is time to close, and the cases FIN and FIN_ACK of `communicate` on both sides.
use full_stack_shinfeld.Common.{ℕ, ◌≡◌, refl, arith}
use full_stack_shinfeld.Tcp.Flags.{State}
use full_stack_shinfeld.Tcp.Client.{Client, Doubles}
use full_stack_shinfeld.Tcp.Connection.{Connection}
use full_stack_shinfeld.Tcp.Connection.Sending.{send_fin}
use full_stack_shinfeld.Tcp.Connection.Loop.{close_one, takes_input}
use full_stack_shinfeld.Tcp.Connection.Loop.{communicate_round}
use full_stack_shinfeld.Tcp.Segment.{segment_of_payload, segment_of_range}
use full_stack_shinfeld.Tcp.SocketHandler.Delivery.{arrived}
use full_stack_shinfeld.Tcp.Connection.Stale.{before_next, round-IsHalfway}
use full_stack_shinfeld.Tcp.Connection.Parting.{
  fin_arrived, Agree, IsClosed, IsOpen, first_half, second_half, there_and_back,
}

module _ {D : Type 0} (F : Doubles D) where
  -- Four segments cross: a FIN, the two that answer it, and the answer to the second of these. Before
  -- the last two, the second connection makes a round with the FIN that it has put back.
  unfoldable pub farewell :
      ℕ → ℕ → ℕ → ℕ → ℕ → Connection D → Connection D → Connection D × Connection D
  farewell t1 t2 t3 t4 t5 a b =
      let half = there_and_back F t1 t2 a b in
      there_and_back F t4 t5 (communicate_round F t3 half.0) half.1

  close_one-IsOpen :
      (now : ℕ) (conn : Connection D) (port ip : ℕ) (client : Client D)
      → IsOpen conn port ip client
      → (close_one F now conn port).0 ≡ send_fin conn port client State.fin_wait_1
  unfolding close_one takes_input
  close_one-IsOpen now conn port ip client o =
      ground (arith, o.found, o.in_state, o.all_sent, o.no_fin)

  -- Two connections that have each other's port and address ESTABLISHED with numbers that agree, nothing
  -- queued or received and all data sent, the number of the first below 2 ^ 32 - 1: when the first makes
  -- its FIN because it is time to close, and four segments have crossed, each only to its address, with a
  -- round between them in which the other side takes up the FIN that it has put back, its peer is in TIME_WAIT, the other side has
  -- it CLOSED, nothing is queued or received. The times are arbitrary.
  pub teardown :
      (t0 t1 t2 t3 t4 t5 : ℕ) (a b : Connection D) (c d : Client D)
      → IsOpen a b.source_port b.source_ip c
      → IsOpen b a.source_port a.source_ip d
      → Agree c d
      → let after = farewell t1 t2 t3 t4 t5 (close_one F t0 a b.source_port).0 b in
        IsClosed (after.0) (after.1) a.source_port b.source_port
  unfolding farewell arrived segment_of_payload segment_of_range
  teardown t0 t1 t2 t3 t4 t5 a b c d open_a open_b agree =
      rw (close_one-IsOpen t0 a b.source_port b.source_ip c open_a) (
        second_half F t4 t5 _ _ a.source_port b.source_port _ _ (
          round-IsHalfway F t3 _ _ b.source_port _ _ (fin_arrived F a b.source_port c) refl refl
            (before_next c.expected_sequence agree.no_wrap)
            (first_half F t1 t2 a b c d open_a open_b agree)))
