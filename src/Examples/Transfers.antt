-- ===== src/Examples/Transfers.antt =====
-- Three bytes on their way from the send buffer to the peer's file.
use full_stack_shinfeld.Common.{
  ℕ, ◌≡◌, ◌≤◌, ◌++◌, refl, List, [], ◌∷◌, some, none, true, false, length, slice, arith,
}
use full_stack_shinfeld.Tcp.ClientMap
use full_stack_shinfeld.Tcp.Flags.{FlagType, decode_flags}
use full_stack_shinfeld.Tcp.Segment.{Segment, segment_of_range, segment_of_payload, set_payload}
use full_stack_shinfeld.Tcp.Client.{Client, new_client}
use full_stack_shinfeld.Tcp.Connection.{Connection, Outgoing, new_connection}
use full_stack_shinfeld.Tcp.Connection.Sending.{send_loop}
use full_stack_shinfeld.Tcp.Connection.Prefix.{IsReceiving}
use full_stack_shinfeld.Tcp.Connection.Arrivals.{receive_all, receive_all-IsReceiving}
use full_stack_shinfeld.Tcp.SocketHandler.{Datagram, send, receive, from, on_sent}
use full_stack_shinfeld.Tcp.SocketHandler.Delivery.{arrived, receive-send}
use full_stack_shinfeld.Tcp.SocketHandler.SentBytes.{sent_data, send_loop-sent_data}
use full_stack_shinfeld.Examples.Clients.{whole}
use full_stack_shinfeld.Examples.Connections.{peer, sending, peer_found}

send_loop-sent_data_example :
    let after = (send_loop 1000 sending 8080 1000 false).0 in
    (out : List Outgoing) × (client : Client ℕ) × (after.sender_queue ≡ sending.sender_queue ++ out)
    × (ClientMap.find 8080 after.clients ≡ some client)
    × (peer.last_byte_sent ≤ client.last_byte_sent)
    × (client.last_byte_sent ≤ length sending.send_buffer)
    × (sent_data sending.send_buffer out
        ≡ slice sending.send_buffer peer.last_byte_sent client.last_byte_sent)
unfolding new_client new_connection
send_loop-sent_data_example =
    send_loop-sent_data 1000 sending peer 8080 1000 false peer_found refl (omega arith)
      (omega arith) (omega arith) (omega arith)

abbrev outgoing : Outgoing
unfolding segment_of_range
outgoing = record {
  segment = segment_of_range 9090 8080 1001 501 16 1000 0 0x0a000001 0 3;
  on_sent = none;
}

abbrev queued : Connection ℕ
queued = record sending { sender_queue = outgoing ∷ [] }

abbrev receiving : Connection ℕ
receiving = new_connection 8080 0x0a000001

receive-send_example :
    (d : Datagram) × (send queued 7 true
      ≡ some (
        record queued { sender_queue = []; store = on_sent 7 queued.store outgoing.on_sent },
        d ∷ [],
      ))
    × (receive receiving (from queued.source_ip d.bytes) ≡ record receiving {
      receiver_queue =
          receiving.receiver_queue
          ++ arrived queued.source_ip (set_payload outgoing.segment (slice queued.send_buffer 0 3))
            ∷ [];
    })
unfolding segment_of_range new_connection
receive-send_example =
    receive-send queued receiving outgoing [] 0 3 7 refl
      (record {
        source_port = omega arith;
        destination_port = omega arith;
        sequence = omega arith;
        acknowledgement = omega arith;
        header = refl;
        known_flags = omega arith;
        window = omega arith;
        urgent = omega arith;
        ip = omega arith;
      })
      refl refl (omega arith) (omega arith) (omega arith) (omega arith) (omega arith) refl

abbrev listening : Connection ℕ
listening = record (new_connection 9090 0x7f000001) { clients = (8080, peer) ∷ [] }

-- The last byte arrives before the first two.
abbrev segments : List (ℕ × Segment)
unfolding segment_of_payload
segments =
    (10, segment_of_payload 8080 9090 503 1001 16 1000 0 0x0a000001 (33 ∷ []))
    ∷ (20, segment_of_payload 8080 9090 501 1001 16 1000 0 0x0a000001 (104 ∷ 105 ∷ []))
    ∷ []

ack_byte : decode_flags 16 ≡ FlagType.ack
unfolding decode_flags
ack_byte = refl

receive_all-IsReceiving_example :
    IsReceiving (104 ∷ 105 ∷ 33 ∷ []) 501 8080 (receive_all whole listening segments)
unfolding new_client new_connection ClientMap.find segment_of_payload
receive_all-IsReceiving_example =
    receive_all-IsReceiving whole (104 ∷ 105 ∷ 33 ∷ []) 501 8080 (omega arith) segments listening
      (record {
        client = peer;
        found = refl;
        own_port = refl;
        prefix = record {
          from_first = omega arith;
          inside = omega arith;
          written = refl;
          parts = tt;
        };
      })
      (
        (ack_byte, (omega arith, omega arith, refl, refl)),
        ((ack_byte, (omega arith, omega arith, refl, refl)), tt),
      )
