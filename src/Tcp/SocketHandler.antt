-- ===== src/Tcp/SocketHandler.antt =====
-- backend/TCP/src/SocketHandler.cpp: the threads between the queues of a connection and the socket.
-- The queues, the send buffer and the store are those of the connection. What `sendto` and
-- `recvfrom` do is an argument of each round; the creation of the socket, the threads and the
-- closing are left out.
pub mod Delivery
pub mod SentBytes
pub mod Running
use full_stack_shinfeld.Common.{
  ℕ, ◌-◌, ◌++◌, Bool, true, false, ◌&&◌, not, List, [], ◌∷◌, Option, none, some, leb, ltb, ◌==◌,
  length, take, drop, nonzero, if◌then◌else◌,
}
use full_stack_shinfeld.Tcp.Flags.{FlagType, decode_flags}
use full_stack_shinfeld.Tcp.Segment.{Segment, set_payload, set_destination_ip, encode, decode}
use full_stack_shinfeld.Tcp.SegmentInfo.{Store, set_time_sent}
use full_stack_shinfeld.Tcp.Connection.{Connection, Outgoing}

pub record Datagram : Type 0 where
  pub port : ℕ
  pub ip : ℕ
  pub bytes : List ℕ

abbrev pub protocol : ℕ
protocol = 6

abbrev pub buffer_size : ℕ
buffer_size = 1024

-- The bytes from `start` up to `end`; `none` where the iterators leave the vector.
unfoldable pub range : List ℕ → ℕ → ℕ → Option (List ℕ)
range bytes start end =
    if leb start end && leb end (length bytes)
    then some (take (end - start) (drop start bytes))
    else none

-- `setData` with the range of the send buffer, unless the end is 0; `none` where a member that no
-- constructor has set is read, or the range leaves the buffer.
unfoldable pub with_data : List ℕ → Segment → Option Segment
with_data send_buffer segment = elim segment.end [
  | none ↦ none
  | some end ↦ if not (nonzero end) then some segment else elim segment.start [
    | none ↦ none
    | some start ↦ elim (range send_buffer start end) [
      | none ↦ none
      | some payload ↦ some (set_payload segment payload)
    ]
  ]
]

-- The datagram that is handed to `sendto`.
unfoldable pub datagram_of : ℕ → Segment → Datagram
datagram_of self_ip segment = record {
  port = segment.destination_port_address;
  ip = segment.destination_ip;
  bytes = (encode segment self_ip segment.destination_ip protocol).0;
}

-- The closure of a sent segment, if it has one.
unfoldable pub on_sent : ℕ → Store → Option ℕ → Store
on_sent now store none = store
on_sent now store (some p) = set_time_sent store p now

-- `!= FlagType::INVALID`.
unfoldable pub is_valid : FlagType → Bool
is_valid FlagType.invalid = false
is_valid _ = true

-- What arrived counts if it decodes and its flags are valid; its sender is noted in it.
unfoldable pub receive_segment : ℕ → ℕ → List ℕ → Option Segment
receive_segment self_ip source_ip payload = elim (decode source_ip self_ip protocol payload) [
  | none ↦ none
  | some segment ↦
      if is_valid (decode_flags segment.flags)
      then some (set_destination_ip segment source_ip)
      else none
]

-- What `recvfrom` gave: a datagram from an address, cut to the buffer, or nothing.
pub data Received : Type 0 where
  nothing : Received
  from : ℕ → List ℕ → Received

module _ {D : Type 0} where
  send_next : Connection D → ℕ → Bool → List Outgoing → Option (Connection D × List Datagram)
  send_next conn now succeeds [] = some (conn, [])
  send_next conn now succeeds (item ∷ rest) = elim (with_data conn.send_buffer item.segment) [
    | none ↦ none
    | some segment ↦ some (
      record conn {
        sender_queue = rest;
        store = if succeeds then on_sent now conn.store item.on_sent else conn.store;
      },
      datagram_of conn.source_ip segment ∷ [],
    )
  ]

  -- One round of `send`: the connection and the datagram that is sent at the time `now`, if there is
  -- one to send; `none` where the range leaves the buffer. `succeeds` says what `sendto` returned.
  unfoldable pub send : Connection D → ℕ → Bool → Option (Connection D × List Datagram)
  unfolding send_next
  send conn now succeeds = send_next conn now succeeds conn.sender_queue

  push_received : Connection D → Option Segment → Connection D
  push_received conn none = conn
  push_received conn (some segment) = record conn {
    receiver_queue = conn.receiver_queue ++ segment ∷ [];
  }

  -- One round of `receive`.
  unfoldable pub receive : Connection D → Received → Connection D
  unfolding push_received
  receive conn nothing = conn
  receive conn (from source_ip bytes) =
      let payload = take buffer_size bytes in
      if nonzero (length payload)
      then push_received conn (receive_segment conn.source_ip source_ip payload)
      else conn
