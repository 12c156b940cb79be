-- ===== src/Examples/Frames.antt =====
-- Frames at concrete inputs.
use full_stack_shinfeld.Common.{
  ℕ, ◌≡◌, refl, List, [], ◌∷◌, ◌++◌, true, false, arith, ◌-◌, ◌^◌, ◌≤◌,
}
use full_stack_shinfeld.WebSocket.Frame.{
  decode_frame, encode_frame, web_socket_frame, decoded, out_of_range, validate_opcode, opcode,
  payload_length, mask, shift_in, decode_length, decode_key, decode_payload,
}
use full_stack_shinfeld.WebSocket.Frame.RoundTrip.{decode_frame-encode_frame}
use full_stack_shinfeld.WebSocket.Frame.Bounds.{
  long_length, decode_frame_wraps, decode_frame-out_of_range,
}

known : validate_opcode 1 ≡ true
unfolding validate_opcode
known = refl

decode_frame-encode_frame_example :
    decode_frame
      (encode_frame (web_socket_frame true false false false 1 true 2 0x12345678 (104 ∷ 105 ∷ [])))
    ≡ decoded (web_socket_frame true false false false 1 true 2 0x12345678 (104 ∷ 105 ∷ []))
decode_frame-encode_frame_example =
    decode_frame-encode_frame true false false false 1 0x12345678 (104 ∷ 105 ∷ []) known
      (omega arith) (omega arith)

-- A text frame whose header gives the highest length, and no payload.
abbrev huge : List ℕ
huge = 0x81 ∷ 127 ∷ (long_length (2 ^ 64 - 1) ++ [])

huge_known : validate_opcode (opcode 0x81) ≡ true
unfolding validate_opcode opcode
huge_known = refl

huge_long : payload_length 127 ≡ 127
unfolding payload_length
huge_long = refl

huge_unmasked : mask 127 ≡ false
unfolding mask
huge_unmasked = refl

decode_frame_wraps_example : decode_frame huge ≡ out_of_range
decode_frame_wraps_example =
    decode_frame_wraps 0x81 127 (2 ^ 64 - 1) [] huge_known huge_long huge_unmasked (omega arith)
      (omega arith) (omega arith)

huge_wraps : decode_frame huge ≡ out_of_range
unfolding decode_frame validate_opcode opcode decode_length payload_length decode_key mask
    decode_payload shift_in
huge_wraps = refl

decode_frame-out_of_range_example :
    (payload_length 127 ≡ 127) × (2 ^ 64 - 14 ≤ shift_in 64 8 0 huge 2)
decode_frame-out_of_range_example = decode_frame-out_of_range huge (omega arith) huge_wraps
