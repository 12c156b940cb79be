-- ===== src/Tcp/Connection/Answers.antt =====
-- Everything that `messageHandler` sends in answer leaves the received file, the buffered segments
-- and the expected number of the client as they are.
use full_stack_shinfeld.Common.{ℕ, refl, List}
use full_stack_shinfeld.Tcp.MessageBuffer.{MessageBuffer}
use full_stack_shinfeld.Tcp.Segment.{Segment}
use full_stack_shinfeld.Tcp.Client.Sent.{check_front_all}
use full_stack_shinfeld.Tcp.Connection.{Connection}
use full_stack_shinfeld.Tcp.Connection.Sending.{take_ack, handle_in_order}
use full_stack_shinfeld.Tcp.Connection.Traversal.{IsKept, handle_in_order-kept}
use full_stack_shinfeld.Tcp.Connection.Keeps.{
  HasReceived, update_client-HasReceived, send_ack-HasReceived, send_round-HasReceived,
  send_fin-HasReceived,
}

module _ {D : Type 0} (port ack : ℕ) (file : List ℕ) (buffer : MessageBuffer) where
  abbrev Good : Connection D → Type 0
  Good conn = HasReceived conn port ack file buffer

  Good-IsKept : IsKept port Good
  Good-IsKept = record {
    current = λ conn h. h.current;
    found = λ conn h. h.found;
    ack = send_ack-HasReceived;
    round = λ conn h end. send_round-HasReceived conn end h;
    queue = λ conn queue h. record {
      current = h.current;
      found = h.found;
      own_port = h.own_port;
      same_ack = h.same_ack;
      same_file = h.same_file;
      same_buffer = h.same_buffer;
    };
  }

  pub handle_in_order-Good :
      (conn : Connection D) (seg : Segment) (data_written : ℕ)
      → HasReceived conn port ack file buffer
      → HasReceived (handle_in_order conn port seg data_written) port ack file buffer
  unfolding Good-IsKept
  handle_in_order-Good conn seg data_written h =
      handle_in_order-kept port Good Good-IsKept Good (λ x k. k) (λ x k. send_fin-HasReceived x _ k)
        conn seg data_written h

  pub take_ack-Good :
      (conn : Connection D) (seg : Segment)
      → HasReceived conn port ack file buffer
      → HasReceived (take_ack conn port seg) port ack file buffer
  unfolding take_ack check_front_all
  take_ack-Good conn seg h =
      update_client-HasReceived conn _ h
        (record { port = refl; ack = refl; file = refl; buffer = refl })
