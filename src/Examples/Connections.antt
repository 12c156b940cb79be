-- ===== src/Examples/Connections.antt =====
-- A connection that sends three bytes, and one that takes a segment back from its buffer.
use full_stack_shinfeld.Common.{ℕ, ◌≡◌, refl, [], ◌∷◌, some, none, false, arith}
use full_stack_shinfeld.Tcp.ClientMap
use full_stack_shinfeld.Tcp.Flags.{State}
use full_stack_shinfeld.Tcp.Segment.{Segment}
use full_stack_shinfeld.Tcp.Client.{Client, new_client}
use full_stack_shinfeld.Tcp.Connection.{Connection, new_connection}
use full_stack_shinfeld.Tcp.Connection.Sending.{send_loop}
use full_stack_shinfeld.Tcp.Connection.Receiving.{Reassembled, reassemble}
use full_stack_shinfeld.Tcp.Connection.Tiling.{IsTiled, cursor_of, send_loop-IsTiled}
use full_stack_shinfeld.Tcp.Connection.Reassembly.{IsInOrder, reassemble-IsInOrder}
use full_stack_shinfeld.Examples.Clients.{whole}

abbrev pub peer : Client ℕ
peer = record (new_client whole 8080 0x7f000001 1001 501 1001 State.established) {
  window_size = 1000;
}

abbrev pub sending : Connection ℕ
sending = record (new_connection 9090 0x7f000001) {
  clients = (8080, peer) ∷ [];
  send_buffer = 104 ∷ 105 ∷ 33 ∷ [];
}

pub peer_found : ClientMap.find 8080 sending.clients ≡ some peer
unfolding ClientMap.find new_connection
peer_found = refl

send_loop-IsTiled_example :
    IsTiled sending (send_loop 1000 sending 8080 1000 false).0 8080 (cursor_of peer 1000)
unfolding new_client new_connection
send_loop-IsTiled_example =
    send_loop-IsTiled 1000 sending peer 8080 1000 false peer_found refl (omega arith) (omega arith)
      (omega arith) (omega arith)

abbrev late : Segment
late = record {
  source_port_address = 8080;
  destination_port_address = 9090;
  sequence_number = 503;
  acknowledgement_number = 1001;
  header_length = 5;
  reserved = 0;
  flags = 16;
  window_size = 1000;
  checksum = 0;
  urgent_pointer = 0;
  destination_ip = 0;
  start = none;
  end = none;
  payload = 104 ∷ 105 ∷ [];
}

abbrev buffered : Reassembled ℕ
buffered = record {
  client = record peer { message_buffer = (503, late) ∷ [] };
  next_seq = 503;
  data_written = 2;
  last = none;
}

reassemble-IsInOrder_example : IsInOrder buffered (reassemble 1 buffered)
reassemble-IsInOrder_example = reassemble-IsInOrder 1 buffered (omega arith)
