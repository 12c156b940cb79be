-- ===== src/Examples/Messages.antt =====
-- The server of the messenger at concrete inputs.
use full_stack_shinfeld.Common.{ℕ, ◌≡◌, refl, ◌++◌, List, [], ◌∷◌, some, true, false, arith}
use full_stack_shinfeld.WebSocket.Frame.{WebSocketFrame, encode_frame, decode_frame, decoded}
use full_stack_shinfeld.Vim.Packet.{
  message_packet, confirmation_packet, create_message, create_creation, decode_packet,
}
use full_stack_shinfeld.Vim.Message.{
  VimMessage, new_vim_message, handle_bytes, websocket_handler, push_input,
}
use full_stack_shinfeld.Vim.Message.Input.{frame, websocket_handler_message}
use full_stack_shinfeld.Examples.Clients.{whole}
use full_stack_shinfeld.Vim.Message.Forwarding.{handle_bytes_message, handle_bytes_creation}

abbrev server : VimMessage ℕ
server = new_vim_message 9090 0x7f000001

handle_bytes_message_example :
    let after = handle_bytes server (create_message 1 7 3 (104 ∷ 105 ∷ [])) false in
    (bytes : List ℕ) × (frame : WebSocketFrame) × (after.0.ws_sender_queue
      ≡ server.ws_sender_queue ++ bytes ∷ [])
    × (decode_frame bytes ≡ decoded frame)
    × (decode_packet frame.payload ≡ some (message_packet 2 7 3 (104 ∷ 105 ∷ [])))
    × (after.0.connection ≡ server.connection)
    × (after.1 ≡ true)
handle_bytes_message_example =
    handle_bytes_message server 7 3 104 (105 ∷ []) false (omega arith) (omega arith) (omega arith)

handle_bytes_creation_example :
    let after = handle_bytes server (create_creation 3 0x7f000001 8080) false in
    (bytes packet : List ℕ) × (frame : WebSocketFrame) × (after.0.ws_sender_queue
      ≡ server.ws_sender_queue ++ bytes ∷ [])
    × (decode_frame bytes ≡ decoded frame)
    × (after.0.connection.input_queue ≡ server.connection.input_queue ++ packet ∷ [])
    × (frame.payload ≡ packet)
    × (decode_packet packet ≡ some (confirmation_packet 4 0x7f000001 8080 1))
    × (after.1 ≡ true)
handle_bytes_creation_example =
    handle_bytes_creation server 0x7f000001 8080 false (omega arith) (omega arith)

-- A server that has received one masked frame.
abbrev asked : VimMessage ℕ
asked = record server {
  ws_receiver_queue = encode_frame (frame whole server 0x12345678 7 3 104 (105 ∷ []) []) ∷ [];
}

websocket_handler_message_example :
    websocket_handler whole asked
    ≡ some (
      push_input (record asked { ws_receiver_queue = [] }) (create_message 1 7 3 (104 ∷ 105 ∷ [])),
      true,
    )
websocket_handler_message_example =
    websocket_handler_message whole asked 0x12345678 7 3 104 (105 ∷ []) [] refl (omega arith)
      (omega arith) (omega arith) (omega arith)
