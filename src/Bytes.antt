-- ===== src/Bytes.antt =====
-- Big-endian fields of a packet: the templates `appendBits` and `combineBytes` of
-- backend/TCP/src/Segment.cpp (backend/VIM-MESSAGE/src/VIMPacket.cpp has its own copy of
-- `appendBits`), and the shifts by which VIMPacket.cpp reads a field back. A byte is a number below
-- 256, a `std::vector<uint8_t>` is a list of them.
pub mod Laws
use full_stack_shinfeld.Common.{
  ℕ, zero, suc, ◌+◌, ◌*◌, ◌<◌, bit_or, List, [], ◌∷◌, ◌++◌, Option, none, some, ltb, length, get_or,
  if◌then◌else◌, All,
}
use full_stack_shinfeld.Common.Bits.{u8, ◌<<◌, ◌>>◌}

abbrev pub IsBytes : List ℕ → Type 0
IsBytes = All (λ b. b < 256)

-- `for (i = size; i > 0; --i) packet.push_back((value >> (8 * (i - 1))) & 0xFF)`.
unfoldable pub append_bits : ℕ → List ℕ → ℕ → List ℕ
append_bits zero packet value = packet
append_bits (suc i) packet value = append_bits i (packet ++ u8 (value >> 8 * i) ∷ []) value

-- The loop of `combineBytes` with `left` rounds to go, at index `i`.
combine_loop : ℕ → ℕ → List ℕ → ℕ → ℕ
combine_loop zero temp bytes i = temp
combine_loop (suc left) temp bytes i =
    combine_loop left (bit_or temp (get_or bytes i 0 << 8 * left)) bytes (i + 1)

-- `none` is the call of `exit(1)`.
unfoldable pub combine_bytes : ℕ → List ℕ → ℕ → Option ℕ
unfolding combine_loop
combine_bytes size bytes start =
    if ltb (length bytes) (start + size) then none else some (combine_loop size 0 bytes start)

-- `(packet[i] << 8) | packet[i + 1]`.
unfoldable pub read_16 : List ℕ → ℕ → ℕ
read_16 packet i = bit_or (get_or packet i 0 << 8) (get_or packet (i + 1) 0)

-- `(packet[i] << 24) | (packet[i + 1] << 16) | (packet[i + 2] << 8) | packet[i + 3]`.
unfoldable pub read_32 : List ℕ → ℕ → ℕ
read_32 packet i =
    bit_or
      (bit_or (bit_or (get_or packet i 0 << 24) (get_or packet (i + 1) 0 << 16))
        (get_or packet (i + 2) 0 << 8))
      (get_or packet (i + 3) 0)
