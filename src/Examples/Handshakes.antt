-- ===== src/Examples/Handshakes.antt =====
-- Two connections that open, one that is given a client, and one whose client sends a SYN again.
use full_stack_shinfeld.Common.{ℕ, ◌≡◌, ◌+◌, ◌++◌, ◌∷◌, [], some, refl}
use full_stack_shinfeld.Common.Bits.{u32}
use full_stack_shinfeld.Tcp.ClientMap
use full_stack_shinfeld.Tcp.Flags.{State}
use full_stack_shinfeld.Tcp.Segment.{Segment, segment_of_range, segment_of_payload}
use full_stack_shinfeld.Tcp.Client.{Client, new_client}
use full_stack_shinfeld.Tcp.Connection.{
  Connection, Outgoing, syn_flag, new_connection, new_connection_to,
}
use full_stack_shinfeld.Tcp.Connection.Accepting.{IsEstablished}
use full_stack_shinfeld.Tcp.Connection.Handshake.{exchange, handshake}
use full_stack_shinfeld.Tcp.Connection.Loop.{
  connect, start_communicating, add_client, on_syn, send_syn,
}
use full_stack_shinfeld.Tcp.Connection.Start.{connect-IsEstablished}
use full_stack_shinfeld.Tcp.Connection.Resets.{IsReset, on_syn-IsReset}
use full_stack_shinfeld.Tcp.Connection.Target.{add_client-destination}
use full_stack_shinfeld.Examples.Clients.{whole}
use full_stack_shinfeld.Examples.Connections.{peer, peer_found, sending}

abbrev listener : Connection ℕ
listener = new_connection 8080 0x7f000001

abbrev target : Client ℕ
target = new_client whole 8080 0x7f000001 0 0 0 State.none_state

abbrev caller : Connection ℕ
caller = record (new_connection_to 9090 8080 0x0a000001 0x7f000001) {
  clients = (8080, target) ∷ [];
}

handshake_example :
    let after = exchange whole 1 2 3 (send_syn whole caller listener.source_port) listener in
    IsEstablished
      (after.0)
      listener.source_port
      (u32 (caller.default_sequence_number + 1))
      (u32 (listener.default_sequence_number + 1))
    × IsEstablished
        (after.1)
        caller.source_port
        (u32 (listener.default_sequence_number + 1))
        (u32 (caller.default_sequence_number + 1))
    × ((after.0).sender_queue ≡ [])
    × ((after.1).sender_queue ≡ [])
unfolding new_client new_connection new_connection_to ClientMap.find
handshake_example =
    handshake whole 1 2 3 caller listener target refl refl refl refl refl refl refl refl refl refl
      refl

add_client-destination_example :
    let after = add_client whole listener 9090 0x0a000001 in
    (client : Client ℕ) × (item : Outgoing) × (ClientMap.find 9090 after.clients ≡ some client)
    × (client.ip ≡ 0x0a000001)
    × (client.state ≡ State.syn_sent)
    × (after.sender_queue ≡ listener.sender_queue ++ item ∷ [])
    × (item.segment ≡ segment_of_range 8080 9090 1000 0 syn_flag 1000 0 listener.destination_ip 0 0)
    × (item.segment.destination_ip ≡ listener.destination_ip)
unfolding new_connection ClientMap.find
add_client-destination_example = add_client-destination whole listener 9090 0x0a000001 refl

-- A SYN from the client that is established already.
abbrev again : Segment
again = segment_of_payload 8080 9090 700 0 2 1000 0 0x0a000001 []

on_syn-IsReset_example :
    let after = on_syn whole sending again in
    (client : Client ℕ) × (item : Outgoing) × (ClientMap.find 8080 after.clients ≡ some client)
    × IsReset sending again peer client
    × (after.sender_queue ≡ sending.sender_queue ++ item ∷ [])
unfolding segment_of_payload
on_syn-IsReset_example = on_syn-IsReset whole sending again peer peer_found

connect-IsEstablished_example :
    (a : Connection ℕ) × (b : Connection ℕ) × (start_communicating whole
        (connect whole (new_connection_to 9090 8080 0x0a000001 0x7f000001))
      ≡ some a)
    × (start_communicating whole (connect whole (new_connection 8080 0x7f000001)) ≡ some b)
    × IsEstablished (exchange whole 1 2 3 a b).0 8080 1001 1001
    × IsEstablished (exchange whole 1 2 3 a b).1 9090 1001 1001
    × ((exchange whole 1 2 3 a b).0.sender_queue ≡ [])
    × ((exchange whole 1 2 3 a b).1.sender_queue ≡ [])
connect-IsEstablished_example =
    connect-IsEstablished whole 9090 8080 0x0a000001 0x7f000001 refl 1 2 3
