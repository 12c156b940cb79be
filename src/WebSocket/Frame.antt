-- ===== src/WebSocket/Frame.antt =====
-- backend/WEBSOCKET/src/WebSocketFrame.cpp and include/WebSocketFrame.hpp: a WebSocket frame, its
-- bytes, and the two header bytes with their bit fields. `size_t` and `uint64_t` have 64 bits.
-- `printFrame` only prints.
pub mod Bits
pub mod Masking
pub mod RoundTrip
pub mod Bounds
use full_stack_shinfeld.Common.{
  ℕ, zero, suc, ◌+◌, ◌-◌, ◌*◌, ◌/◌, ◌%◌, ◌^◌, ◌++◌, bit_and, bit_or, bit_xor, Bool, true, false,
  not, List, [], ◌∷◌, Option, none, some, leb, ltb, ◌==◌, length, get_or, take, drop, nonzero,
  bool_to_num, if◌then◌else◌,
}
use full_stack_shinfeld.Common.Bits.{u8, u32, u64, ◌<<◌, ◌>>◌}
use full_stack_shinfeld.Bytes.{append_bits}

-- The members of `FIN_OPCODE` and `MASK_LENGTH`, over their byte.
unfoldable pub fin : ℕ → Bool
fin byte = nonzero (bit_and byte 0x80)

unfoldable pub rsv1 : ℕ → Bool
rsv1 byte = nonzero (bit_and byte 0x40)

unfoldable pub rsv2 : ℕ → Bool
rsv2 byte = nonzero (bit_and byte 0x20)

unfoldable pub rsv3 : ℕ → Bool
rsv3 byte = nonzero (bit_and byte 0x10)

unfoldable pub opcode : ℕ → ℕ
opcode byte = bit_and byte 0x0F

unfoldable pub mask : ℕ → Bool
mask byte = nonzero (bit_and byte 0x80)

unfoldable pub payload_length : ℕ → ℕ
payload_length byte = bit_and byte 0x7F

unfoldable pub no_mask : ℕ → ℕ
no_mask byte = bit_and byte 0x7F

-- `toggle_fin` and `toggle_mask`, which do the same to their bytes.
unfoldable pub toggle_fin : ℕ → ℕ
toggle_fin byte = bit_xor byte 0x80

unfoldable pub toggle_mask : ℕ → ℕ
toggle_mask byte = bit_xor byte 0x80

pub record WebSocketFrame : Type 0 where
  pub fin_opcode_byte : ℕ
  pub mask_length_byte : ℕ
  pub payload_length : ℕ
  pub mask_key : ℕ
  pub payload : List ℕ

-- The first header byte that the constructor builds, bit by bit.
unfoldable pub make_fin_opcode : Bool → Bool → Bool → Bool → ℕ → ℕ
make_fin_opcode fin rsv1 rsv2 rsv3 opcode =
    let byte1 = u8 (bit_or 0 (bool_to_num fin << 7)) in
    let byte2 = u8 (bit_or byte1 (bool_to_num rsv1 << 6)) in
    let byte3 = u8 (bit_or byte2 (bool_to_num rsv2 << 5)) in
    let byte4 = u8 (bit_or byte3 (bool_to_num rsv3 << 4)) in u8 (bit_or byte4 opcode)

-- The 7-bit length of the second header byte.
unfoldable pub short_length : ℕ → ℕ
short_length payload_length =
    if leb payload_length 125
    then u8 payload_length
    else if leb payload_length 0xFFFF
    then 126
    else 127

unfoldable pub make_mask_length : Bool → ℕ → ℕ
make_mask_length mask payload_length =
    u8 (bit_or (u8 (bit_or 0 (bool_to_num mask << 7))) (short_length payload_length))

unfoldable pub web_socket_frame :
    Bool → Bool → Bool → Bool → ℕ → Bool → ℕ → ℕ → List ℕ → WebSocketFrame
web_socket_frame fin rsv1 rsv2 rsv3 opcode mask payload_length mask_key payload = record {
  fin_opcode_byte = make_fin_opcode fin rsv1 rsv2 rsv3 opcode;
  mask_length_byte = make_mask_length mask payload_length;
  payload_length = payload_length;
  mask_key = mask_key;
  payload = payload;
}

unfoldable pub set_payload : WebSocketFrame → List ℕ → WebSocketFrame
set_payload f payload = record f { payload = payload }

unfoldable pub set_mask_key : WebSocketFrame → ℕ → WebSocketFrame
set_mask_key f key = record f { mask_key = key }

unfoldable pub remove_mask : WebSocketFrame → WebSocketFrame
unfolding no_mask
remove_mask f = record f { mask_key = 0; mask_length_byte = no_mask f.mask_length_byte }

-- The payload that leaves the frame, and the frame with none.
unfoldable pub extract_payload : WebSocketFrame → List ℕ × WebSocketFrame
extract_payload f = (f.payload, record f { payload = [] })

-- `for (i = 0; i < payload.size(); ++i) msg.push_back(payload[i] ^ msg[maskStart + (i % 4)])`.
pub mask_loop : ℕ → ℕ → List ℕ → List ℕ → List ℕ
mask_loop mask_start i [] msg = msg
mask_loop mask_start i (x ∷ xs) msg =
    mask_loop mask_start (i + 1) xs (msg ++ bit_xor x (get_or msg (mask_start + i % 4) 0) ∷ [])

-- The header and the extended length; the loops that push a number from its highest byte down are
-- `append_bits`.
unfoldable pub push_length : ℕ → ℕ → ℕ → List ℕ
push_length fin_opcode_byte mask_length_byte len =
    let msg = fin_opcode_byte ∷ mask_length_byte ∷ [] in
    if payload_length mask_length_byte == 126
    then append_bits 2 msg len
    else if payload_length mask_length_byte == 127
    then append_bits 8 msg len
    else msg

unfoldable pub encode_frame : WebSocketFrame → List ℕ
unfolding push_length
encode_frame f =
    let msg = push_length f.fin_opcode_byte f.mask_length_byte f.payload_length in
    let keyed = append_bits 4 msg f.mask_key in
    let mask_start = length keyed - 4 in
    if nonzero f.mask_key then mask_loop mask_start 0 f.payload keyed else msg ++ f.payload

unfoldable pub validate_opcode : ℕ → Bool
validate_opcode opcode =
    if opcode == 0x0
    then true
    else if opcode == 0x1
    then true
    else if opcode == 0x2
    then true
    else if opcode == 0x8
    then true
    else if opcode == 0x9
    then true
    else if opcode == 0xA
    then true
    else false

-- A decoded frame, a null pointer, or a read outside of the vector, which C++ leaves undefined.
pub data Decoded : Type 0 where
  decoded : WebSocketFrame → Decoded
  invalid out_of_range : Decoded

-- `for (i = 0; i < count; ++i) value = (value << 8) | frame[pos + i]` on an integer of `bits` bits.
unfoldable pub shift_in : ℕ → ℕ → ℕ → List ℕ → ℕ → ℕ
shift_in bits zero value frame pos = value
shift_in bits (suc count) value frame pos =
    shift_in bits count (bit_or ((value << 8) % 2 ^ bits) (get_or frame pos 0)) frame (pos + 1)

-- A number of the header and the position behind it; or the frame is too short, which the code tests;
-- or bytes are read outside of the vector.
pub data Field : Type 0 where
  too_short outside : Field
  field : ℕ → ℕ → Field

-- A read of `count` bytes from a position on, which gives the value if they are in the vector.
unfoldable pub reads : List ℕ → ℕ → ℕ → ℕ → Field
reads frame pos count value =
    if ltb (length frame) (pos + count) then outside else field value (pos + count)

-- The payload's length and the position behind it.
unfoldable pub decode_length : List ℕ → ℕ → Field
unfolding reads
decode_length frame second_byte =
    if payload_length second_byte == 126
    then (if ltb (length frame) 4
        then too_short
        else reads frame 2 2 (bit_or (get_or frame 2 0 << 8) (get_or frame 3 0)))
    else if payload_length second_byte == 127
    then (if ltb (length frame) 10 then too_short else reads frame 2 8 (shift_in 64 8 0 frame 2))
    else field (payload_length second_byte) 2

-- The mask key and the position behind it.
unfoldable pub decode_key : List ℕ → ℕ → ℕ → Field
unfolding reads
decode_key frame second_byte pos =
    if mask second_byte
    then (if ltb (length frame) (pos + 4)
        then too_short
        else reads frame pos 4 (shift_in 32 4 0 frame pos))
    else field 0 pos

-- `for (i = 0; i < payload.size(); ++i) payload[i] ^= maskBytes[i % 4]`.
pub unmask_loop : List ℕ → ℕ → List ℕ → List ℕ
unmask_loop mask_bytes i [] = []
unmask_loop mask_bytes i (x ∷ xs) =
    bit_xor x (get_or mask_bytes (i % 4) 0) ∷ unmask_loop mask_bytes (i + 1) xs

unfoldable pub mask_bytes_of : ℕ → List ℕ
mask_bytes_of key = u8 (key >> 24) ∷ u8 (key >> 16) ∷ u8 (key >> 8) ∷ u8 key ∷ []

-- `frame.begin() + pos` up to `frame.begin() + pos + payloadLength`, behind the test of the size, in
-- which `pos + payloadLength` wraps.
unfoldable pub decode_payload : List ℕ → ℕ → ℕ → ℕ → ℕ → ℕ → Decoded
decode_payload frame first_byte second_byte length_field mask_key pos =
    if ltb (length frame) (u64 (pos + length_field))
    then invalid
    else if ltb (length frame) (pos + length_field)
    then out_of_range
    else let payload = take length_field (drop pos frame) in
      let unmasked : List ℕ =
        if mask second_byte then unmask_loop (mask_bytes_of mask_key) 0 payload else payload in
      decoded (
        web_socket_frame (fin first_byte) (rsv1 first_byte) (rsv2 first_byte) (rsv3 first_byte)
          (opcode first_byte) (mask second_byte) length_field mask_key unmasked)

infixl 5 ◌>>=◌
abbrev ◌>>=◌ : Field → (ℕ → ℕ → Decoded) → Decoded
too_short >>= k = invalid
outside >>= k = out_of_range
field value pos >>= k = k value pos

unfoldable pub decode_frame : List ℕ → Decoded
unfolding reads
decode_frame frame =
    if ltb (length frame) 2
    then invalid
    else reads frame 0 2 0 >>= λ _ _.
        (let first_byte = get_or frame 0 0 in
          let second_byte = get_or frame 1 0 in
          if not (validate_opcode (opcode first_byte))
          then invalid
          else decode_length frame second_byte >>= λ len behind.
              (decode_key frame second_byte behind >>= λ key pos.
              decode_payload frame first_byte second_byte len key pos))
