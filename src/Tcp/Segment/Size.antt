-- ===== src/Tcp/Segment/Size.antt =====
-- How long a packet is.
use full_stack_shinfeld.Common.{ℕ, ◌+◌, ◌≡◌, ◌∙◌, length, length-set, arith, set}
use full_stack_shinfeld.Common.Bits.{u8, ◌>>◌}
use full_stack_shinfeld.Tcp.Segment.{Segment, encode, header_and_data, create_checksum}

length-header_and_data : (s : Segment) → length (header_and_data s) ≡ 20 + length s.payload
unfolding header_and_data
length-header_and_data s = omega arith

-- The header has 20 bytes.
pub length-encode :
    (s : Segment) (source_ip destination_ip protocol : ℕ)
    → length (encode s source_ip destination_ip protocol).0 ≡ 20 + length s.payload
unfolding encode
length-encode s source_ip destination_ip protocol =
    let packet = header_and_data s in
    let checksum = create_checksum source_ip destination_ip protocol packet in
    length-set (set packet 16 (u8 (checksum >> 8))) 17 (u8 checksum)
    ∙ length-set packet 16 (u8 (checksum >> 8))
    ∙ length-header_and_data s
