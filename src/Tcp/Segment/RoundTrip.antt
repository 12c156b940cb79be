-- ===== src/Tcp/Segment/RoundTrip.antt =====
-- `decode` of what `encode` makes.
use full_stack_shinfeld.Common.{
  ℕ, ◌+◌, ◌-◌, ◌%◌, ◌^◌, ◌≤◌, ◌<◌, ◌≡◌, refl, sym, ap, le→ltb, true, List, ◌∷◌, length, arith, some,
}
use full_stack_shinfeld.Common.Bits.{u8, u16, ◌<<◌, ◌>>◌}
use full_stack_shinfeld.Bytes.{IsBytes}
use full_stack_shinfeld.Bytes.Laws.{combine_bytes_16, combine_bytes_32, shift_zero}
use full_stack_shinfeld.Tcp.Segment.Checksum.{
  word_total, pseudo_total, ones_sum, InRange, total, calculate_checksum-ones_sum,
  check_checksum_iff,
}
use full_stack_shinfeld.Tcp.Segment.{
  Segment, segment_of_payload, header_and_data, encode, decode, decode_fields, create_checksum,
  check_checksum,
}

-- The values that the types of the members allow, a header of five words, and a packet of the size
-- of a UDP datagram.
pub record IsSegment (s : Segment) : Type 0 where
  pub source_port : s.source_port_address < 2 ^ 16
  pub destination_port : s.destination_port_address < 2 ^ 16
  pub sequence : s.sequence_number < 2 ^ 32
  pub acknowledgement : s.acknowledgement_number < 2 ^ 32
  pub header : s.header_length ≡ 5
  pub flag : s.flags < 2 ^ 8
  pub window : s.window_size < 2 ^ 16
  pub urgent : s.urgent_pointer < 2 ^ 16
  pub payload_bytes : IsBytes s.payload
  pub payload_size : length s.payload < 2 ^ 16 - 20

-- The bytes of a packet, with the two of the checksum given.
packet_with : Segment → ℕ → List ℕ
packet_with s checksum =
    u8 (s.source_port_address >> 8)
    ∷ u8 (s.source_port_address >> 0)
    ∷ u8 (s.destination_port_address >> 8)
    ∷ u8 (s.destination_port_address >> 0)
    ∷ u8 (s.sequence_number >> 24)
    ∷ u8 (s.sequence_number >> 16)
    ∷ u8 (s.sequence_number >> 8)
    ∷ u8 (s.sequence_number >> 0)
    ∷ u8 (s.acknowledgement_number >> 24)
    ∷ u8 (s.acknowledgement_number >> 16)
    ∷ u8 (s.acknowledgement_number >> 8)
    ∷ u8 (s.acknowledgement_number >> 0)
    ∷ u8 (s.header_length << 4)
    ∷ s.flags
    ∷ u8 (s.window_size >> 8)
    ∷ u8 (s.window_size >> 0)
    ∷ u8 (checksum >> 8)
    ∷ u8 checksum
    ∷ u8 (s.urgent_pointer >> 8)
    ∷ u8 (s.urgent_pointer >> 0)
    ∷ s.payload

header_and_data-eq : (s : Segment) → header_and_data s ≡ packet_with s 0
unfolding header_and_data packet_with
header_and_data-eq s = refl

encode-eq :
    (s : Segment) (source_ip destination_ip protocol : ℕ)
    → (encode s source_ip destination_ip protocol).0
      ≡ packet_with s (create_checksum source_ip destination_ip protocol (packet_with s 0))
unfolding encode packet_with
encode-eq s source_ip destination_ip protocol = refl

word_total-packet_with :
    (s : Segment) (c : ℕ)
    → c < 2 ^ 16
    → word_total (packet_with s c) ≡ word_total (packet_with s 0) + c
unfolding packet_with word_total
word_total-packet_with s c h = omega arith

packet_with-InRange :
    {s : Segment} {source_ip destination_ip protocol : ℕ} (c : ℕ)
    → IsSegment s
    → source_ip < 2 ^ 32
    → destination_ip < 2 ^ 32
    → protocol < 256
    → InRange source_ip destination_ip protocol (packet_with s c)
unfolding packet_with
packet_with-InRange c h hs hd hp = record {
  source = hs;
  destination = hd;
  protocol_byte = hp;
  size = omega (arith, h.payload_size);
  bytes_fit = grind (arith, h.payload_bytes);
}

-- The checksum is chosen so that the sum of the whole packet is a multiple of 65535.
complement_closes : (t : ℕ) → 0 < t → (t + u16 (2 ^ 32 - 1 - ones_sum t)) % 65535 ≡ 0
unfolding ones_sum
complement_closes t h = ground arith

-- A segment as its receiver sees it: its address is the sender's, its range is not known.
received : Segment → ℕ → ℕ → Segment
received s source_ip checksum =
    record (segment_of_payload s.source_port_address s.destination_port_address s.sequence_number
      s.acknowledgement_number s.flags s.window_size s.urgent_pointer source_ip s.payload) {
        checksum = checksum;
      }

decode_fields-packet_with :
    {s : Segment} (source_ip c : ℕ)
    → IsSegment s
    → c < 2 ^ 16
    → decode_fields source_ip (packet_with s c) ≡ some (received s source_ip c)
unfolding decode_fields packet_with received
decode_fields-packet_with {s} source_ip c h hc = rw (
  combine_bytes_16 (packet_with s c) 0 s.source_port_address (omega arith) h.source_port refl refl,
  combine_bytes_16 (packet_with s c) 2 s.destination_port_address (omega arith) h.destination_port
      refl refl,
  combine_bytes_32 (packet_with s c) 4 s.sequence_number (omega arith) h.sequence refl refl refl
      refl,
  combine_bytes_32 (packet_with s c) 8 s.acknowledgement_number (omega arith) h.acknowledgement refl
      refl refl refl,
  combine_bytes_16 (packet_with s c) 14 s.window_size (omega arith) h.window refl refl,
  combine_bytes_16 (packet_with s c) 16 c (omega arith) hc refl (sym (ap u8 (shift_zero c))),
  combine_bytes_16 (packet_with s c) 18 s.urgent_pointer (omega arith) h.urgent refl refl,
)

module _ {s : Segment} {source_ip destination_ip protocol : ℕ} (h : IsSegment s)
    (hs : source_ip < 2 ^ 32) (hd : destination_ip < 2 ^ 32) (hp : protocol < 256) where
  abbrev sent_checksum : ℕ
  sent_checksum = create_checksum source_ip destination_ip protocol (packet_with s 0)

  sent_total-pos : 0 < total source_ip destination_ip protocol (packet_with s 0)
  unfolding pseudo_total packet_with
  sent_total-pos = omega arith

  sent_checksum-eq :
      sent_checksum
      ≡ u16 (2 ^ 32 - 1 - ones_sum (total source_ip destination_ip protocol (packet_with s 0)))
  unfolding create_checksum
  sent_checksum-eq =
      ap (λ (t : ℕ). u16 (2 ^ 32 - 1 - t))
        (calculate_checksum-ones_sum source_ip destination_ip protocol (packet_with s 0)
          (packet_with-InRange 0 h hs hd hp))

  total-packet_with :
      total source_ip destination_ip protocol (packet_with s sent_checksum)
      ≡ total source_ip destination_ip protocol (packet_with s 0) + sent_checksum
  total-packet_with = omega (
    arith,
    word_total-packet_with s sent_checksum (omega (arith, sent_checksum-eq)),
    ap (pseudo_total source_ip destination_ip protocol) same_length,
  )
    where
      same_length : length (packet_with s sent_checksum) ≡ length (packet_with s 0)
      same_length = unfold packet_with in refl

  check_checksum-packet_with :
      check_checksum source_ip destination_ip protocol (packet_with s sent_checksum) ≡ true
  check_checksum-packet_with =
      (check_checksum_iff source_ip destination_ip protocol (packet_with s sent_checksum)
          (packet_with-InRange sent_checksum h hs hd hp)).1
        (closes, omega (arith, total-packet_with, sent_total-pos))
    where
      closes : total source_ip destination_ip protocol (packet_with s sent_checksum) % 65535 ≡ 0
      closes = rw (total-packet_with, sent_checksum-eq) (complement_closes _ sent_total-pos)

  decode-packet_with :
      decode source_ip destination_ip protocol (packet_with s sent_checksum)
      ≡ some (received s source_ip sent_checksum)
  unfolding decode
  decode-packet_with =
      let long : 20 ≤ length (packet_with s sent_checksum) = unfold packet_with in omega arith in
      let fits : sent_checksum < 2 ^ 16 = omega (arith, sent_checksum-eq) in
      rw (le→ltb _ 20 long, check_checksum-packet_with)
        (decode_fields-packet_with source_ip sent_checksum h fits)

  -- For a segment whose members are in the range of their types, whose header has five words and
  -- whose packet fits a UDP datagram, what `encode` makes passes the checksum and `decode`s to a
  -- segment with the same ports, numbers, flags, window, urgent pointer and data, with the
  -- checksum that `encode` kept, and with the sender's address in place of the receiver's.
  pub decode-encode :
      let sent = encode s source_ip destination_ip protocol in
      decode source_ip destination_ip protocol sent.0
      ≡ some
          (record (segment_of_payload s.source_port_address s.destination_port_address
            s.sequence_number s.acknowledgement_number s.flags s.window_size s.urgent_pointer
            source_ip s.payload) { checksum = sent.1.checksum })
  unfolding encode packet_with received
  decode-encode = decode-packet_with
