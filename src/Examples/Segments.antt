-- ===== src/Examples/Segments.antt =====
-- Flags, segments and their checksum at concrete inputs.
use full_stack_shinfeld.Common.{
  ℕ, ◌<◌, ◌≤◌, ◌≡◌, ◌↔◌, ◌%◌, refl, true, List, [], ◌∷◌, some, none, set, arith,
}
use full_stack_shinfeld.Tcp.Flags.{FlagType, decode_flags}
use full_stack_shinfeld.Tcp.Flags.Table.{flag_type, decode_flags-eq-flag_type}
use full_stack_shinfeld.Tcp.Segment.{
  Segment, encode, decode, check_checksum, segment_of_payload, fold_carries, sum_words,
  pseudo_header, calculate_checksum,
}
use full_stack_shinfeld.Tcp.Segment.Checksum.{InRange, total, check_checksum_iff, fold_carries_ends}
use full_stack_shinfeld.Tcp.Segment.RoundTrip.{IsSegment, decode-encode}
use full_stack_shinfeld.Tcp.Segment.Corruption.{decode_corrupted}

decode_flags-eq-flag_type_example : decode_flags 18 ≡ flag_type 18
decode_flags-eq-flag_type_example = decode_flags-eq-flag_type 18 (omega arith)

syn_ack_byte : decode_flags 18 ≡ FlagType.syn_ack
unfolding decode_flags
syn_ack_byte = refl

abbrev hello : Segment
hello = record {
  source_port_address = 8080;
  destination_port_address = 9090;
  sequence_number = 1000;
  acknowledgement_number = 7;
  header_length = 5;
  reserved = 0;
  flags = 16;
  window_size = 1000;
  checksum = 0;
  urgent_pointer = 0;
  destination_ip = 0;
  start = none;
  end = none;
  payload = 104 ∷ 105 ∷ 33 ∷ [];
}

hello-IsSegment : IsSegment hello
hello-IsSegment = record {
  source_port = omega arith;
  destination_port = omega arith;
  sequence = omega arith;
  acknowledgement = omega arith;
  header = refl;
  flag = omega arith;
  window = omega arith;
  urgent = omega arith;
  payload_bytes = omega arith;
  payload_size = omega arith;
}

decode-encode_example :
    decode 0x7f000001 0x0a000001 6 (encode hello 0x7f000001 0x0a000001 6).0
    ≡ some
        (record (segment_of_payload 8080 9090 1000 7 16 1000 0 0x7f000001 (104 ∷ 105 ∷ 33 ∷ [])) {
          checksum = (encode hello 0x7f000001 0x0a000001 6).1.checksum;
        })
decode-encode_example =
    decode-encode {s = hello} {source_ip = 0x7f000001} {destination_ip = 0x0a000001} {protocol = 6}
      hello-IsSegment (omega arith) (omega arith) (omega arith)

-- A packet of four bytes whose sum is 65535.
abbrev tiny : List ℕ
tiny = 0xff ∷ 0xf5 ∷ 0 ∷ 0 ∷ []

tiny-InRange : InRange 0 0 6 tiny
tiny-InRange = record {
  source = omega arith;
  destination = omega arith;
  protocol_byte = omega arith;
  size = omega arith;
  bytes_fit = omega arith;
}

tiny_passes : check_checksum 0 0 6 tiny ≡ true
unfolding check_checksum calculate_checksum pseudo_header sum_words fold_carries
tiny_passes = refl

check_checksum_iff_example :
    (check_checksum 0 0 6 tiny ≡ true) ↔ (total 0 0 6 tiny % 65535 ≡ 0) × (0 < total 0 0 6 tiny)
check_checksum_iff_example = check_checksum_iff 0 0 6 tiny tiny-InRange

decode_corrupted_example : decode 0 0 6 (set tiny 2 9) ≡ none
decode_corrupted_example =
    decode_corrupted tiny-InRange 2 9 (omega arith) (omega arith) (omega arith) tiny_passes

fold_carries_ends_example :
    (fold_carries 5 0xffff_ffff ≡ fold_carries 2 0xffff_ffff) × (fold_carries 2 0xffff_ffff ≤ 65535)
fold_carries_ends_example = fold_carries_ends 0xffff_ffff 3 (omega arith)
