-- ===== src/WebSocket/Frame/Bounds.antt =====
-- When `decodeFrame` reads outside of the vector that it is given.
use full_stack_shinfeld.Common.{
  ℕ, zero, suc, ◌+◌, ◌-◌, ◌^◌, ◌≤◌, ◌<◌, ◌≡◌, refl, true, false, List, [], ◌∷◌, ◌++◌, length,
  get_or, arith, ltb, le→ltb, lt→ltb, ltb→lt, test_all, test_all_lem,
}
use full_stack_shinfeld.Common.Bits.{u8, u64, ◌>>◌}
use full_stack_shinfeld.Bytes.{IsBytes}
use full_stack_shinfeld.Bytes.Laws.{or_16}
use full_stack_shinfeld.WebSocket.Frame.{
  decode_frame, decode_length, decode_key, decode_payload, out_of_range, shift_in, validate_opcode,
  payload_length, mask, opcode,
}
use full_stack_shinfeld.WebSocket.Frame.Masking.{shift_in_64}

-- The eight bytes of a length field, highest first.
abbrev pub long_length : ℕ → List ℕ
long_length v =
    u8 (v >> 56)
    ∷ u8 (v >> 48)
    ∷ u8 (v >> 40)
    ∷ u8 (v >> 32)
    ∷ u8 (v >> 24)
    ∷ u8 (v >> 16)
    ∷ u8 (v >> 8)
    ∷ u8 (v >> 0)
    ∷ []

-- Every unmasked frame with a known opcode whose 64-bit length is one of the ten highest passes the
-- test of the size, since the sum with the header's length wraps, and is read out of range.
pub decode_frame_wraps :
    (b0 b1 v : ℕ) (rest : List ℕ)
    → validate_opcode (opcode b0) ≡ true
    → payload_length b1 ≡ 127
    → mask b1 ≡ false
    → 2 ^ 64 - 10 ≤ v
    → v < 2 ^ 64
    → length rest < 2 ^ 63
    → decode_frame (b0 ∷ b1 ∷ (long_length v ++ rest)) ≡ out_of_range
unfolding decode_frame decode_length decode_key decode_payload
decode_frame_wraps b0 b1 v rest known long unmasked high low size =
    let frame = b0 ∷ b1 ∷ (long_length v ++ rest) in
    rw (
      le→ltb (length frame) 2 (omega arith),
      known,
      long,
      le→ltb (length frame) 10 (omega arith),
      shift_in_64 v 2 frame low refl refl refl refl refl refl refl refl,
      unmasked,
      le→ltb (length frame) (u64 (10 + v)) (omega arith),
      lt→ltb (length frame) (10 + v) (omega arith),
    )

get_or-byte : (bytes : List ℕ) (i : ℕ) → IsBytes bytes → get_or bytes i 0 < 256
get_or-byte [] i h = omega arith
get_or-byte (x ∷ rest) zero h = h.0
get_or-byte (x ∷ rest) (suc i) h = get_or-byte rest i h.1

seven_bits : test_all (λ b. ltb (payload_length b) 128) 256 ≡ true
unfolding test_all payload_length
seven_bits = refl

payload_length-lt : (b : ℕ) → b < 256 → payload_length b < 128
payload_length-lt b h = ltb→lt _ 128 (test_all_lem _ 256 b h seven_bits)

-- A read out of range comes only from a length field of eight bytes that is so large that its sum
-- with the position of the payload, at most 14, wraps.
pub decode_frame-out_of_range :
    (frame : List ℕ)
    → IsBytes frame
    → decode_frame frame ≡ out_of_range
    → (payload_length (get_or frame 1 0) ≡ 127) × (2 ^ 64 - 14 ≤ shift_in 64 8 0 frame 2)
unfolding decode_frame decode_length decode_key decode_payload
decode_frame-out_of_range frame h e =
    let short = payload_length-lt (get_or frame 1 0) (get_or-byte frame 1 h) in
    ground (
      arith,
      e,
      short,
      or_16 (get_or frame 2 0) (get_or frame 3 0) (get_or-byte frame 3 h),
      get_or-byte frame 2 h,
    )
