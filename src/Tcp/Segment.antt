-- ===== src/Tcp/Segment.antt =====
-- backend/TCP/src/Segment.cpp and include/Segment.hpp: a segment, its bytes and its checksum.
-- `start` and `end` are `none` where a constructor leaves the member uninitialised. Logging is left
-- out. Numbers stand for the unsigned fields, the ranges are hypotheses of the theorems.
pub mod Checksum
pub mod RoundTrip
pub mod Corruption
pub mod Size
use full_stack_shinfeld.Common.{
  ℕ, zero, suc, ◌+◌, ◌-◌, ◌<◌, ◌%◌, ◌^◌, ◌++◌, bit_or, Bool, ◌||◌, not, List, [], ◌∷◌, Option, none,
  some, ltb, ◌==◌, length, get_or, set, drop, if◌then◌else◌,
}
use full_stack_shinfeld.Common.Bits.{u8, u16, u32, ◌<<◌, ◌>>◌}
use full_stack_shinfeld.Bytes.{append_bits, combine_bytes}

pub record Segment : Type 0 where
  pub source_port_address : ℕ
  pub destination_port_address : ℕ
  pub sequence_number : ℕ
  pub acknowledgement_number : ℕ
  pub header_length : ℕ
  pub reserved : ℕ
  pub flags : ℕ
  pub window_size : ℕ
  pub checksum : ℕ
  pub urgent_pointer : ℕ
  pub destination_ip : ℕ
  pub start : Option ℕ
  pub end : Option ℕ
  pub payload : List ℕ

abbrev pub header_size : ℕ
header_size = 20

-- The constructor of a segment whose data is a range of the send buffer.
unfoldable pub segment_of_range : ℕ → ℕ → ℕ → ℕ → ℕ → ℕ → ℕ → ℕ → ℕ → ℕ → Segment
segment_of_range src_port dest_port seq_num ack_num flags window urgent_ptr ip start end = record {
  source_port_address = src_port;
  destination_port_address = dest_port;
  sequence_number = seq_num;
  acknowledgement_number = ack_num;
  header_length = 5;
  reserved = 0;
  flags = flags;
  window_size = window;
  checksum = 0;
  urgent_pointer = urgent_ptr;
  destination_ip = ip;
  start = some start;
  end = some end;
  payload = [];
}

-- The constructor of a segment that holds its data.
unfoldable pub segment_of_payload : ℕ → ℕ → ℕ → ℕ → ℕ → ℕ → ℕ → ℕ → List ℕ → Segment
segment_of_payload src_port dest_port seq_num ack_num flags window urgent_ptr ip payload = record {
  source_port_address = src_port;
  destination_port_address = dest_port;
  sequence_number = seq_num;
  acknowledgement_number = ack_num;
  header_length = 5;
  reserved = 0;
  flags = flags;
  window_size = window;
  checksum = 0;
  urgent_pointer = urgent_ptr;
  destination_ip = ip;
  start = none;
  end = none;
  payload = payload;
}

unfoldable pub set_seq_num : Segment → ℕ → Segment
set_seq_num s val = record s { sequence_number = val }

unfoldable pub set_ack_num : Segment → ℕ → Segment
set_ack_num s val = record s { acknowledgement_number = val }

unfoldable pub set_flag : Segment → ℕ → Segment
set_flag s val = record s { flags = val }

unfoldable pub set_window_size : Segment → ℕ → Segment
set_window_size s val = record s { window_size = val }

unfoldable pub set_urgent_pointer : Segment → ℕ → Segment
set_urgent_pointer s val = record s { urgent_pointer = val }

unfoldable pub set_start : Segment → ℕ → Segment
set_start s val = record s { start = some val }

unfoldable pub set_end : Segment → ℕ → Segment
set_end s val = record s { end = some val }

unfoldable pub set_payload : Segment → List ℕ → Segment
set_payload s payload = record s { payload = payload }

unfoldable pub set_destination_ip : Segment → ℕ → Segment
set_destination_ip s ip = record s { destination_ip = ip }

-- The loop over the bytes, two at a time; the last of an odd number is a high byte.
unfoldable pub sum_words : ℕ → List ℕ → ℕ
sum_words sum [] = sum
sum_words sum (x ∷ []) = u32 (sum + u16 (x << 8))
sum_words sum (x ∷ y ∷ rest) = sum_words (u32 (sum + u16 (bit_or (u16 (x << 8)) y))) rest

-- `while (sum > 0xFFFF) sum = (sum >> 16) + (sum & 0xFFFF)`; with no fuel the sum is left as it is.
unfoldable pub fold_carries : ℕ → ℕ → ℕ
fold_carries zero sum = sum
fold_carries (suc fuel) sum =
    let rest = fold_carries fuel ((sum >> 16) + u16 sum) in if ltb 0xFFFF sum then rest else sum

-- The sum before the loop: the pseudo header.
unfoldable pub pseudo_header : ℕ → ℕ → ℕ → ℕ → ℕ
pseudo_header source_ip destination_ip protocol segment_size =
    let sum1 = u32 (u16 (source_ip >> 16) + u16 source_ip) in
    let sum2 = u32 (sum1 + (u16 (destination_ip >> 16) + u16 destination_ip)) in
    let sum3 = u32 (sum2 + u16 protocol) in u32 (sum3 + u16 segment_size)

unfoldable pub calculate_checksum : ℕ → ℕ → ℕ → List ℕ → ℕ
calculate_checksum source_ip destination_ip protocol bytes =
    fold_carries 2
      (sum_words (pseudo_header source_ip destination_ip protocol (length bytes)) bytes)

-- `return ~sum` as a uint16_t.
pub create_checksum : ℕ → ℕ → ℕ → List ℕ → ℕ
create_checksum source_ip destination_ip protocol bytes =
    u16 (2 ^ 32 - 1 - calculate_checksum source_ip destination_ip protocol bytes)

unfoldable pub check_checksum : ℕ → ℕ → ℕ → List ℕ → Bool
check_checksum source_ip destination_ip protocol bytes =
    calculate_checksum source_ip destination_ip protocol bytes == 0xFFFF

-- The packet before its checksum is known.
pub header_and_data : Segment → List ℕ
unfolding append_bits
header_and_data s =
    let packet1 = append_bits 2 [] s.source_port_address in
    let packet2 = append_bits 2 packet1 s.destination_port_address in
    let packet3 = append_bits 4 packet2 s.sequence_number in
    let packet4 = append_bits 4 packet3 s.acknowledgement_number in
    let packet5 = packet4 ++ u8 (s.header_length << 4) ∷ [] in
    let packet6 = packet5 ++ s.flags ∷ [] in
    let packet7 = append_bits 2 packet6 s.window_size in
    let packet8 = packet7 ++ 0x00 ∷ [] in
    let packet9 = packet8 ++ 0x00 ∷ [] in append_bits 2 packet9 s.urgent_pointer ++ s.payload

-- The packet, and the segment, which keeps the checksum.
unfoldable pub encode : Segment → ℕ → ℕ → ℕ → List ℕ × Segment
unfolding header_and_data create_checksum
encode s source_ip destination_ip protocol =
    let packet = header_and_data s in
    let checksum = create_checksum source_ip destination_ip protocol packet in
    (set (set packet 16 (u8 (checksum >> 8))) 17 (u8 checksum), record s { checksum = checksum })

-- `none` is the null pointer.
infixl 5 ◌>>=◌
abbrev ◌>>=◌ {ℓ κ} : {A : Type ℓ} {B : Type κ} → Option A → (A → Option B) → Option B
none >>= k = none
some a >>= k = k a

-- A field that cannot be read ends the program; after the test of the size it can be.
pub decode_fields : ℕ → List ℕ → Option Segment
unfolding segment_of_payload
decode_fields source_ip bytes = do
  src_port ← combine_bytes 2 bytes 0
  dest_port ← combine_bytes 2 bytes 2
  seq_num ← combine_bytes 4 bytes 4
  ack_num ← combine_bytes 4 bytes 8
  window ← combine_bytes 2 bytes 14
  checksum ← combine_bytes 2 bytes 16
  urgent_ptr ← combine_bytes 2 bytes 18
  let segment =
      segment_of_payload src_port dest_port seq_num ack_num (get_or bytes 13 0) window urgent_ptr
        source_ip (drop 20 bytes)
  some (record segment { checksum = checksum })

unfoldable pub decode : ℕ → ℕ → ℕ → List ℕ → Option Segment
unfolding decode_fields
decode source_ip destination_ip protocol bytes =
    if ltb (length bytes) 20 || not (check_checksum source_ip destination_ip protocol bytes)
    then none
    else decode_fields source_ip bytes
