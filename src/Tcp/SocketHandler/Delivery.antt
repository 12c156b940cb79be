-- ===== src/Tcp/SocketHandler/Delivery.antt =====
-- What arrives of what was sent.
use full_stack_shinfeld.Common.{
  ℕ, zero, suc, ◌+◌, ◌-◌, ◌^◌, ◌≤◌, ◌<◌, ◌≡◌, refl, ap, ◌++◌, true, List, [], ◌∷◌, some, length,
  take, drop, take_all, slice, length-slice, All-take, All-drop, le→leb, arith, test_all,
  test_all_lem, nonzero,
}
use full_stack_shinfeld.Bytes.{IsBytes}
use full_stack_shinfeld.Tcp.Flags.{decode_flags}
use full_stack_shinfeld.Tcp.Segment.{
  Segment, segment_of_payload, set_payload, set_destination_ip, encode, decode,
}
use full_stack_shinfeld.Tcp.Segment.RoundTrip.{IsSegment, decode-encode}
use full_stack_shinfeld.Tcp.Segment.Size.{length-encode}
use full_stack_shinfeld.Tcp.SocketHandler.{
  Datagram, protocol, buffer_size, range, with_data, datagram_of, is_valid, receive_segment, send,
  receive, from, on_sent,
}
use full_stack_shinfeld.Tcp.Connection.{Connection, Outgoing}

valid_flags_table : test_all (λ v. is_valid (decode_flags v)) 64 ≡ true
unfolding test_all is_valid decode_flags
valid_flags_table = refl

is_valid-decode_flags : (v : ℕ) → v < 64 → is_valid (decode_flags v) ≡ true
is_valid-decode_flags v h = test_all_lem _ 64 v h valid_flags_table

-- What the peer makes of a segment: its members and data, the checksum, and the sender's address.
unfoldable pub arrived : ℕ → Segment → Segment
arrived self_ip s =
    record (segment_of_payload s.source_port_address s.destination_port_address s.sequence_number
      s.acknowledgement_number s.flags s.window_size s.urgent_pointer self_ip s.payload) {
        checksum = (encode s self_ip s.destination_ip protocol).1.checksum;
      }

receive_segment-decoded :
    (self_ip source_ip : ℕ) (payload : List ℕ) (s : Segment)
    → decode source_ip self_ip protocol payload ≡ some s
    → is_valid (decode_flags s.flags) ≡ true
    → receive_segment self_ip source_ip payload ≡ some (set_destination_ip s source_ip)
unfolding receive_segment
receive_segment-decoded self_ip source_ip payload s e v = ground (arith, e, v)

module _ {s : Segment} {self_ip : ℕ} (h : IsSegment s) (small : length s.payload ≤ 1004)
    (flags_known : s.flags < 64) (self_fits : self_ip < 2 ^ 32)
    (ip_fits : s.destination_ip < 2 ^ 32) where
  receive_segment-datagram_of :
      receive_segment s.destination_ip self_ip (take buffer_size (datagram_of self_ip s).bytes)
      ≡ some (arrived self_ip s)
  unfolding datagram_of set_destination_ip segment_of_payload arrived
  receive_segment-datagram_of =
      let bytes = (encode s self_ip s.destination_ip protocol).0 in
      rw
        (take_all buffer_size bytes
          (omega (arith, length-encode s self_ip s.destination_ip protocol)))
        (receive_segment-decoded s.destination_ip self_ip bytes (arrived self_ip s)
          (decode-encode {s = s} {source_ip = self_ip} {destination_ip = s.destination_ip}
            {protocol = protocol} h self_fits ip_fits (omega arith))
          (is_valid-decode_flags s.flags flags_known))

-- The data that a segment gets from the send buffer, when its range lies in it.
pub with_data-slice :
    (buffer : List ℕ) (s : Segment) (start end : ℕ)
    → s.start ≡ some start
    → s.end ≡ some end
    → start < end
    → end ≤ length buffer
    → with_data buffer s ≡ some (set_payload s (slice buffer start end))
unfolding with_data range
with_data-slice buffer s start end e f h k =
    ground (arith, e, f, le→leb start end (omega arith), le→leb end (length buffer) k)

-- The members of a segment without its data fit their types.
pub record HasHeader (s : Segment) : Type 0 where
  pub source_port : s.source_port_address < 2 ^ 16
  pub destination_port : s.destination_port_address < 2 ^ 16
  pub sequence : s.sequence_number < 2 ^ 32
  pub acknowledgement : s.acknowledgement_number < 2 ^ 32
  pub header : s.header_length ≡ 5
  pub known_flags : s.flags < 64
  pub window : s.window_size < 2 ^ 16
  pub urgent : s.urgent_pointer < 2 ^ 16
  pub ip : s.destination_ip < 2 ^ 32

pos-nonzero : (n : ℕ) → 0 < n → nonzero n ≡ true
pos-nonzero zero h = absurd (omega arith)
pos-nonzero (suc n) h = refl

module _ {D : Type 0} where
  send_one :
      (conn : Connection D) (item : Outgoing) (rest : List Outgoing) (segment : Segment) (now : ℕ)
      → conn.sender_queue ≡ item ∷ rest
      → with_data conn.send_buffer item.segment ≡ some segment
      → send conn now true
        ≡ some (
          record conn { sender_queue = rest; store = on_sent now conn.store item.on_sent },
          datagram_of conn.source_ip segment ∷ [],
        )
  unfolding send
  send_one conn item rest segment now queue filled = rw queue (ground (arith, filled))

  receive_one :
      (peer : Connection D) (source_ip : ℕ) (bytes : List ℕ) (segment : Segment)
      → 0 < length (take buffer_size bytes)
      → receive_segment peer.source_ip source_ip (take buffer_size bytes) ≡ some segment
      → receive peer (from source_ip bytes)
        ≡ record peer { receiver_queue = peer.receiver_queue ++ segment ∷ [] }
  unfolding receive
  receive_one peer source_ip bytes segment long e =
      rw (pos-nonzero (length (take buffer_size bytes)) long, e)

module _ {D : Type 0} (conn peer : Connection D) (item : Outgoing) (rest : List Outgoing)
    (start end now : ℕ) where
  filled-IsSegment :
      HasHeader item.segment
      → IsBytes conn.send_buffer
      → start < end
      → end ≤ length conn.send_buffer
      → end ≤ start + 1000
      → IsSegment (set_payload item.segment (slice conn.send_buffer start end))
  unfolding set_payload
  filled-IsSegment h bytes some_data inside small = record {
    source_port = h.source_port;
    destination_port = h.destination_port;
    sequence = h.sequence;
    acknowledgement = h.acknowledgement;
    header = h.header;
    flag = omega (arith, h.known_flags);
    window = h.window;
    urgent = h.urgent;
    payload_bytes =
        All-take _ (end - start) (drop start conn.send_buffer)
          (All-drop _ start conn.send_buffer bytes);
    payload_size = omega (arith, length-slice start end conn.send_buffer (omega arith) inside);
  }

  -- The oldest entry of the sender's queue, with a range of at most 1000 bytes of the send buffer: a
  -- round of `send` whose `sendto` succeeds takes it off the queue, notes the time, and sends one
  -- datagram, and when the peer with the address of the segment gets that datagram from ours, a round
  -- of its `receive` appends to its queue the segment with the same ports, numbers, flags and window,
  -- that range of our buffer as its data, and our address. The members fit their types, and the
  -- buffer holds bytes.
  pub receive-send :
      conn.sender_queue ≡ item ∷ rest
      → HasHeader item.segment
      → item.segment.start ≡ some start
      → item.segment.end ≡ some end
      → start < end
      → end ≤ start + 1000
      → end ≤ length conn.send_buffer
      → IsBytes conn.send_buffer
      → conn.source_ip < 2 ^ 32
      → peer.source_ip ≡ item.segment.destination_ip
      → (d : Datagram) × (send conn now true
          ≡ some (
            record conn { sender_queue = rest; store = on_sent now conn.store item.on_sent },
            d ∷ [],
          ))
        × (receive peer (from conn.source_ip d.bytes) ≡ record peer {
          receiver_queue =
              peer.receiver_queue
              ++ arrived conn.source_ip
                  (set_payload item.segment (slice conn.send_buffer start end))
                ∷ [];
        })
  unfolding datagram_of set_payload
  receive-send queue h its_start its_end some_data small inside bytes ip_fits same_ip =
      let s = set_payload item.segment (slice conn.send_buffer start end) in
      let packet = (encode s conn.source_ip s.destination_ip protocol).0 in
      let size = length-slice start end conn.send_buffer (omega arith) inside in
      let whole =
        take_all buffer_size packet
          (omega (arith, size, length-encode s conn.source_ip s.destination_ip protocol)) in
      (
        datagram_of conn.source_ip s,
        send_one conn item rest s now queue (
            with_data-slice conn.send_buffer item.segment start end its_start its_end some_data
              inside),
        receive_one peer conn.source_ip packet (arrived conn.source_ip s)
            (omega
              (arith, ap length whole, length-encode s conn.source_ip s.destination_ip protocol))
            (rw same_ip (
              receive_segment-datagram_of {s = s} {self_ip = conn.source_ip}
                (filled-IsSegment h bytes some_data inside small) (omega (arith, size))
                h.known_flags ip_fits h.ip)),
      )
