-- ===== src/Vim/Message/Forwarding.antt =====
-- What reaches the browser of what a peer sent.
use full_stack_shinfeld.Common.{
  ℕ, ◌+◌, ◌-◌, ◌^◌, ◌<◌, ◌≡◌, inl, inr, refl, ◌++◌, Bool, true, false, List, [], ◌∷◌, some, length,
  arith,
}
use full_stack_shinfeld.WebSocket.Frame.{
  WebSocketFrame, web_socket_frame, decode_frame, decoded, validate_opcode,
}
use full_stack_shinfeld.WebSocket.Frame.RoundTrip.{decode_frame-encode_frame}
use full_stack_shinfeld.Vim.Packet.{
  VimPacket, message_packet, confirmation_packet, creation_packet, create_message, create_creation,
  create_confirmation, decode_packet,
}
use full_stack_shinfeld.Vim.Packet.RoundTrip.{
  decode_packet-create_message, decode_packet-create_creation, decode_packet-create_confirmation,
}
use full_stack_shinfeld.Vim.Message.{
  VimMessage, frame_of, push_frame, push_input, handle_packet, handle_bytes,
}

pub length-create_message :
    (type user_id msg_id : ℕ) (text : List ℕ)
    → length (create_message type user_id msg_id text) ≡ 7 + length text
unfolding create_message
length-create_message type user_id msg_id text = omega arith

length-create_confirmation :
    (type ip port user_id : ℕ) → length (create_confirmation type ip port user_id) ≡ 11
unfolding create_confirmation
length-create_confirmation type ip port user_id = omega arith

pub binary_known : validate_opcode 0x2 ≡ true
unfolding validate_opcode
binary_known = refl

frame_of_lem :
    (packet : List ℕ)
    → length packet < 2 ^ 64 - 14
    → decode_frame (frame_of packet)
      ≡ decoded (web_socket_frame true false false false 0x2 false (length packet) 0 packet)
unfolding frame_of
frame_of_lem packet h =
    decode_frame-encode_frame true false false false 0x2 0 packet binary_known (omega arith) h

-- The frames that are queued for the browser grow by one frame that decodes to a payload that is the
-- packet.
abbrev pub Forwards : {D : Type 0} → VimMessage D → VimMessage D → List ℕ → Type 0
Forwards server after packet =
    (bytes : List ℕ) × (frame : WebSocketFrame) × (after.ws_sender_queue
      ≡ server.ws_sender_queue ++ bytes ∷ [])
    × (decode_frame bytes ≡ decoded frame)
    × (frame.payload ≡ packet)

module _ {D : Type 0} (server : VimMessage D) where
  push_frame-Forwards :
      (packet : List ℕ)
      → length packet < 2 ^ 64 - 14
      → Forwards server (push_frame server packet) packet
  unfolding push_frame web_socket_frame
  push_frame-Forwards packet h = (
    frame_of packet,
    web_socket_frame true false false false 0x2 false (length packet) 0 packet,
    refl,
    frame_of_lem packet h,
    refl,
  )

  handle_bytes-decoded :
      (bytes : List ℕ) (packet : VimPacket) (has_data : Bool)
      → decode_packet bytes ≡ some packet
      → handle_bytes server bytes has_data ≡ handle_packet server packet
  unfolding handle_bytes
  handle_bytes-decoded bytes packet has_data e = ground (arith, e)

  -- A message of type 1 with text, as a peer sent it, is queued for the browser in one frame, which
  -- decodes to a packet with the same ids and text and type 2; the connection is left as it is. The
  -- ids fit their fields, and the text is shorter than 2 ^ 63 bytes.
  pub handle_bytes_message :
      (user_id msg_id first : ℕ) (rest : List ℕ) (has_data : Bool)
      → user_id < 2 ^ 32
      → msg_id < 2 ^ 16
      → length (first ∷ rest) < 2 ^ 63
      → let after = handle_bytes server (create_message 1 user_id msg_id (first ∷ rest)) has_data in
        (bytes : List ℕ) × (frame : WebSocketFrame) × (after.0.ws_sender_queue
          ≡ server.ws_sender_queue ++ bytes ∷ [])
        × (decode_frame bytes ≡ decoded frame)
        × (decode_packet frame.payload ≡ some (message_packet 2 user_id msg_id (first ∷ rest)))
        × (after.0.connection ≡ server.connection)
        × (after.1 ≡ true)
  unfolding handle_packet message_packet push_frame web_socket_frame
  handle_bytes_message user_id msg_id first rest has_data hu hm hl =
      rw
        (handle_bytes-decoded (create_message 1 user_id msg_id (first ∷ rest))
          (message_packet 1 user_id msg_id (first ∷ rest)) has_data
          (decode_packet-create_message 1 user_id msg_id first rest (inl refl) hu hm))
        (
          frame_of (create_message 2 user_id msg_id (first ∷ rest)),
          web_socket_frame true false false false 0x2 false
              (length (create_message 2 user_id msg_id (first ∷ rest))) 0
              (create_message 2 user_id msg_id (first ∷ rest)),
          refl,
          frame_of_lem (create_message 2 user_id msg_id (first ∷ rest))
              (omega (arith, length-create_message 2 user_id msg_id (first ∷ rest))),
          decode_packet-create_message 2 user_id msg_id first rest (inr refl) hu hm,
          refl,
          refl,
        )

  -- A request to create a user, as a peer sent it, is answered twice: one frame for the browser and
  -- one input for the peers, which both decode to the confirmation of that address for user 1. The
  -- address fits its fields.
  pub handle_bytes_creation :
      (ip port : ℕ) (has_data : Bool)
      → ip < 2 ^ 32
      → port < 2 ^ 16
      → let after = handle_bytes server (create_creation 3 ip port) has_data in
        (bytes packet : List ℕ) × (frame : WebSocketFrame) × (after.0.ws_sender_queue
          ≡ server.ws_sender_queue ++ bytes ∷ [])
        × (decode_frame bytes ≡ decoded frame)
        × (after.0.connection.input_queue ≡ server.connection.input_queue ++ packet ∷ [])
        × (frame.payload ≡ packet)
        × (decode_packet packet ≡ some (confirmation_packet 4 ip port 1))
        × (after.1 ≡ true)
  unfolding handle_packet creation_packet push_frame push_input web_socket_frame
  handle_bytes_creation ip port has_data hi hp =
      rw
        (handle_bytes-decoded (create_creation 3 ip port) (creation_packet 3 ip port) has_data
          (decode_packet-create_creation ip port hi hp))
        (
          frame_of (create_confirmation 4 ip port 1),
          create_confirmation 4 ip port 1,
          web_socket_frame true false false false 0x2 false
              (length (create_confirmation 4 ip port 1)) 0 (create_confirmation 4 ip port 1),
          refl,
          frame_of_lem (create_confirmation 4 ip port 1)
              (omega (arith, length-create_confirmation 4 ip port 1)),
          refl,
          refl,
          decode_packet-create_confirmation ip port 1 hi hp (omega arith),
          refl,
        )
