-- ===== src/Vim/Message/Input.antt =====
-- What reaches the connection of what the browser sent.
use full_stack_shinfeld.Common.{
  ℕ, ◌^◌, ◌<◌, ◌≡◌, inl, refl, true, false, List, ◌∷◌, some, length, arith, nonzero,
}
use full_stack_shinfeld.WebSocket.Frame.{
  WebSocketFrame, web_socket_frame, encode_frame, decode_frame, decoded, extract_payload,
}
use full_stack_shinfeld.WebSocket.Frame.RoundTrip.{decode_frame-encode_frame}
use full_stack_shinfeld.Vim.Packet.{message_packet, create_message, decode_packet}
use full_stack_shinfeld.Vim.Packet.RoundTrip.{decode_packet-create_message}
use full_stack_shinfeld.Tcp.Client.{Doubles}
use full_stack_shinfeld.Vim.Message.{
  VimMessage, push_input, take_payload, websocket_frames, websocket_handler,
}
use full_stack_shinfeld.Vim.Message.Forwarding.{binary_known, length-create_message}

module _ {D : Type 0} (F : Doubles D) (server : VimMessage D) where
  frames-decoded :
      (bytes : List ℕ) (rest : List (List ℕ)) (frame : WebSocketFrame)
      → decode_frame bytes ≡ decoded frame
      → websocket_frames F server (bytes ∷ rest)
        ≡ some (take_payload F (record server { ws_receiver_queue = rest }) frame.payload, true)
  unfolding websocket_frames extract_payload
  frames-decoded bytes rest frame e = ground (arith, e)

  payload-message :
      (packet : List ℕ) (user_id msg_id : ℕ) (text : List ℕ)
      → decode_packet packet ≡ some (message_packet 1 user_id msg_id text)
      → take_payload F server packet ≡ push_input server packet
  unfolding take_payload message_packet
  payload-message packet user_id msg_id text e = ground (arith, e)

module _ {D : Type 0} (F : Doubles D) (server : VimMessage D) (key user_id msg_id first : ℕ)
    (text : List ℕ) (others : List (List ℕ)) where
  abbrev pub packet : List ℕ
  packet = create_message 1 user_id msg_id (first ∷ text)

  abbrev pub frame : WebSocketFrame
  frame = web_socket_frame true false false false 0x2 (nonzero key) (length packet) key packet

  -- When the oldest of the received frames is a binary frame around a message of type 1 with text,
  -- masked with any key that is not 0 or unmasked for the key 0, `websocketHandler` takes it off its
  -- queue, appends the packet's bytes to the input of the connection, changes nothing else and
  -- returns true. The ids and the key fit their fields, and the text is shorter than 2 ^ 63 bytes.
  pub websocket_handler_message :
      server.ws_receiver_queue ≡ encode_frame frame ∷ others
      → user_id < 2 ^ 32
      → msg_id < 2 ^ 16
      → key < 2 ^ 32
      → length (first ∷ text) < 2 ^ 63
      → websocket_handler F server
        ≡ some (push_input (record server { ws_receiver_queue = others }) packet, true)
  unfolding websocket_handler web_socket_frame
  websocket_handler_message oldest hu hm hk hl =
      let popped : VimMessage D = record server { ws_receiver_queue = others } in
      rw (
        oldest,
        frames-decoded F server (encode_frame frame) others frame (
            decode_frame-encode_frame true false false false 0x2 key packet binary_known hk
              (omega (arith, length-create_message 1 user_id msg_id (first ∷ text)))),
        payload-message F popped packet user_id msg_id (first ∷ text)
            (decode_packet-create_message 1 user_id msg_id first text (inl refl) hu hm),
      )
