-- ===== src/Vim/Packet/RoundTrip.antt =====
-- `decodePacket` and `createPacket` undo one another.
use full_stack_shinfeld.Common.{
  is_empty, if◌then◌else◌, ℕ, ◌^◌, ◌<◌, ◌≡◌, ◌⊎◌, inl, inr, List, [], ◌∷◌, length, arith, none,
  some, lt→leb, bit_or,
}
use full_stack_shinfeld.Common.Bits.{u8, u16, u32, ◌>>◌, ◌<<◌}
use full_stack_shinfeld.Bytes.Laws.{or_bytes_16, or_bytes_32, shift_zero}
use full_stack_shinfeld.Vim.Packet.{
  message_packet, creation_packet, confirmation_packet, create_message, create_creation,
  create_confirmation, decode_packet, decode_msg_packet, decode_user_creation,
  decode_user_confirmation,
}

-- A field of four bytes, put together by shifts, and one of two.
field_32 :
    (v : ℕ)
    → v < 2 ^ 32
    → u32 (
        bit_or
          (bit_or (bit_or (u8 (v >> 24) << 24) (u8 (v >> 16) << 16)) (u8 (v >> 8) << 8))
          (u8 (v >> 0)))
      ≡ v
field_32 v h = rw (shift_zero v, or_bytes_32 v h) (omega arith)

field_16 : (v : ℕ) → v < 2 ^ 16 → u16 (bit_or (u8 (v >> 8) << 8) (u8 (v >> 0))) ≡ v
field_16 v h = rw (shift_zero v, or_bytes_16 v h) (omega arith)

-- A message of type 1 or 2 with at least one byte of text decodes to the type, the ids and the text
-- that it was created from.
pub decode_packet-create_message :
    (type user_id msg_id first : ℕ) (rest : List ℕ)
    → (type ≡ 1) ⊎ (type ≡ 2)
    → user_id < 2 ^ 32
    → msg_id < 2 ^ 16
    → decode_packet (create_message type user_id msg_id (first ∷ rest))
      ≡ some (message_packet type user_id msg_id (first ∷ rest))
unfolding decode_packet decode_msg_packet create_message
decode_packet-create_message type user_id msg_id first rest known hu hm =
    let packet = create_message type user_id msg_id (first ∷ rest) in
    rw (lt→leb (length packet) 0 (omega arith)) (elim known [
      | inl t ↦
          rw (t, lt→leb (length packet) 7 (omega arith), field_32 user_id hu, field_16 msg_id hm)
      | inr t ↦
          rw (t, lt→leb (length packet) 7 (omega arith), field_32 user_id hu, field_16 msg_id hm)
    ])

-- A message without text is not accepted, whatever its type and ids.
decode_packet-create_message_empty :
    (type user_id msg_id : ℕ)
    → (type ≡ 1) ⊎ (type ≡ 2)
    → decode_packet (create_message type user_id msg_id []) ≡ none
unfolding decode_packet decode_msg_packet create_message
decode_packet-create_message_empty type user_id msg_id (inl t) = rw t
decode_packet-create_message_empty type user_id msg_id (inr t) = rw t

-- A message of type 1 or 2, whose ids are within their fields, decodes to the type, the ids and the
-- text that it was created from, unless it has no text: then it is not accepted.
pub decode_packet-create_any_message :
    (type user_id msg_id : ℕ) (text : List ℕ)
    → (type ≡ 1) ⊎ (type ≡ 2)
    → user_id < 2 ^ 32
    → msg_id < 2 ^ 16
    → decode_packet (create_message type user_id msg_id text)
      ≡ (if is_empty text then none else some (message_packet type user_id msg_id text))
decode_packet-create_any_message type user_id msg_id [] known hu hm =
    decode_packet-create_message_empty type user_id msg_id known
decode_packet-create_any_message type user_id msg_id (first ∷ rest) known hu hm =
    decode_packet-create_message type user_id msg_id first rest known hu hm

-- A request to create a user decodes to the address that it was created from.
pub decode_packet-create_creation :
    (ip port : ℕ)
    → ip < 2 ^ 32
    → port < 2 ^ 16
    → decode_packet (create_creation 3 ip port) ≡ some (creation_packet 3 ip port)
unfolding decode_packet decode_user_creation create_creation
decode_packet-create_creation ip port hi hp = rw (field_32 ip hi, field_16 port hp)

-- A confirmation decodes to the address and the user id that it was created from.
pub decode_packet-create_confirmation :
    (ip port user_id : ℕ)
    → ip < 2 ^ 32
    → port < 2 ^ 16
    → user_id < 2 ^ 32
    → decode_packet (create_confirmation 4 ip port user_id)
      ≡ some (confirmation_packet 4 ip port user_id)
unfolding decode_packet decode_user_confirmation create_confirmation
decode_packet-create_confirmation ip port user_id hi hp hu =
    rw (field_32 ip hi, field_16 port hp, field_32 user_id hu)

-- A request to create a user and the confirmation that answers it decode to the address, and to the
-- address and the user id, that they were created from, all within the widths of their fields.
pub decode_packet-create_user :
    (ip port user_id : ℕ)
    → ip < 2 ^ 32
    → port < 2 ^ 16
    → user_id < 2 ^ 32
    → (decode_packet (create_creation 3 ip port) ≡ some (creation_packet 3 ip port))
      × (decode_packet (create_confirmation 4 ip port user_id)
          ≡ some (confirmation_packet 4 ip port user_id))
decode_packet-create_user ip port user_id hi hp hu = (
  decode_packet-create_creation ip port hi hp,
  decode_packet-create_confirmation ip port user_id hi hp hu,
)
