-- ===== src/Tcp/Connection/Arrivals.antt =====
-- The received file stays a prefix of the peer's stream, whatever ACK segments of it arrive.
use mathlib.Core.Path.{subst}
use full_stack_shinfeld.Common.{
  ℕ, ◌+◌, ◌^◌, ◌<◌, ◌≡◌, inl, inr, ◌∙◌, List, [], ◌∷◌, some, ◌==◌, length, All, arith, Bool-cases,
}
use full_stack_shinfeld.Tcp.ClientMap
use full_stack_shinfeld.Tcp.Flags.{FlagType, decode_flags}
use full_stack_shinfeld.Tcp.Segment.{Segment}
use full_stack_shinfeld.Tcp.SegmentInfo.{Store}
use full_stack_shinfeld.Tcp.Client.{
  Client, Doubles, check_tracker_segment, update_transmission_info,
}
use full_stack_shinfeld.Tcp.Connection.{Connection, update_client}
use full_stack_shinfeld.Tcp.Connection.Receiving.{on_ack_for}
use full_stack_shinfeld.Tcp.Connection.Loop.{with_client, receive_segment}
use full_stack_shinfeld.Tcp.Connection.Round.{find-modify_same}
use full_stack_shinfeld.Tcp.Connection.Keeps.{IsSameView}
use full_stack_shinfeld.Tcp.Connection.Stream.{IsPart}
use full_stack_shinfeld.Tcp.Connection.Prefix.{IsReceiving, on_ack_for-IsReceiving}

module _ {D : Type 0} (F : Doubles D) where
  check_tracker_segment-IsSameView :
      (store : Store) (now : ℕ) (c : Client D) (seq_num : ℕ)
      → IsSameView c (check_tracker_segment F store now c seq_num)
  unfolding check_tracker_segment update_transmission_info
  check_tracker_segment-IsSameView store now c seq_num = ground arith

  module _ (stream : List ℕ) (first : ℕ) (fits : first + length stream < 2 ^ 32) where
    client_found :
        (now : ℕ) (conn : Connection D) (seg : Segment) (client : Client D)
        (handler : Connection D → ℕ → Client D → Segment → Connection D)
        → ClientMap.find seg.source_port_address conn.clients ≡ some client
        → let timed = check_tracker_segment F conn.store now client seg.acknowledgement_number in
          with_client F now conn seg handler
          ≡ handler
              (update_client conn seg.source_port_address (λ _. timed))
              seg.source_port_address
              timed
              seg
    unfolding with_client
    client_found now conn seg client handler e = ground (arith, e)

    own_segment-IsReceiving :
        (now : ℕ) (conn : Connection D) (seg : Segment)
        → IsReceiving stream first seg.source_port_address conn
        → decode_flags seg.flags ≡ FlagType.ack
        → IsPart stream first seg.source_port_address seg.sequence_number seg
        → IsReceiving stream first seg.source_port_address (receive_segment F now conn seg)
    unfolding receive_segment update_client
    own_segment-IsReceiving now conn seg h type part =
        let port = seg.source_port_address in
        let timed = check_tracker_segment F conn.store now h.client seg.acknowledgement_number in
        let same =
          check_tracker_segment-IsSameView conn.store now h.client seg.acknowledgement_number in
        elim (Bool-cases (seg.destination_port_address == conn.source_port)) [
          | inl t ↦
              rw (t, type, client_found now conn seg h.client on_ack_for h.found)
                (on_ack_for-IsReceiving stream first port fits _ timed seg
                  (find-modify_same port (λ _. timed) conn.clients h.client h.found)
                  (same.port ∙ h.own_port) (rw (same.ack, same.file, same.buffer) h.prefix) part)
          | inr t ↦ rw t h
        ]

-- The segments that `communicate` takes off its queue, each with the time at which it does.
pub receive_all : {D : Type 0} → Doubles D → Connection D → List (ℕ × Segment) → Connection D
receive_all F conn [] = conn
receive_all F conn ((now, seg) ∷ rest) = receive_all F (receive_segment F now conn seg) rest

-- An ACK segment of the peer at the port, whose data is a part of the stream.
abbrev pub IsArrival : List ℕ → ℕ → ℕ → Segment → Type 0
IsArrival stream first port seg =
    (decode_flags seg.flags ≡ FlagType.ack) × IsPart stream first port seg.sequence_number seg

module _ {D : Type 0} (F : Doubles D) (stream : List ℕ) (first port : ℕ)
    (fits : first + length stream < 2 ^ 32) where
  receive_segment-IsReceiving :
      (now : ℕ) (conn : Connection D) (seg : Segment)
      → IsReceiving stream first port conn
      → IsArrival stream first port seg
      → IsReceiving stream first port (receive_segment F now conn seg)
  receive_segment-IsReceiving now conn seg h (type, part) =
      subst
        (λ q.
          IsReceiving stream first q conn
          → IsPart stream first q seg.sequence_number seg
          → IsReceiving stream first q (receive_segment F now conn seg))
        part.3 (λ h' part'. own_segment-IsReceiving F stream first fits now conn seg h' type part')
        h part

  -- Take a stream of bytes, the first with a number such that none wraps, and a client that has
  -- written the stream up to the number that it expects next and has buffered only parts of it.
  -- Whatever ACK segments of its peer with parts of the stream arrive, in whichever order, early,
  -- late or more than once, the client has again written the stream up to the number that it expects
  -- next, has buffered only parts of it, and is in the map under its port.
  pub receive_all-IsReceiving :
      (arrivals : List (ℕ × Segment)) (conn : Connection D)
      → IsReceiving stream first port conn
      → All (λ arrival. IsArrival stream first port arrival.1) arrivals
      → IsReceiving stream first port (receive_all F conn arrivals)
  unfolding receive_all
  receive_all-IsReceiving [] conn h all = h
  receive_all-IsReceiving ((now, seg) ∷ rest) conn h all =
      receive_all-IsReceiving rest (receive_segment F now conn seg)
        (receive_segment-IsReceiving now conn seg h all.0) all.1
