-- ===== src/Vim/Message.antt =====
-- backend/VIM-MESSAGE/src/VIMMessage.cpp: the handlers that pass packets between the browser's frames
-- and the peers. The queue of input and the clients are those of the connection. The sockets, the
-- threads and logging are left out, and each handler runs as a whole.
pub mod Forwarding
pub mod Input
use full_stack_shinfeld.Common.{
  ℕ, ◌++◌, Bool, true, false, ◌&&◌, not, List, [], ◌∷◌, Option, none, some, ◌==◌, length, is_some,
  if◌then◌else◌,
}
use full_stack_shinfeld.Tcp.ClientMap
use full_stack_shinfeld.Tcp.Client.{Client, Doubles}
use full_stack_shinfeld.Tcp.Connection.{Connection, new_connection, update_client}
use full_stack_shinfeld.Tcp.Connection.Loop.{add_client, connect}
use full_stack_shinfeld.WebSocket.Frame.{
  WebSocketFrame, web_socket_frame, encode_frame, decode_frame, Decoded, decoded, invalid,
  out_of_range, extract_payload,
}
use full_stack_shinfeld.Vim.Packet.{VimPacket, create_message, create_confirmation, decode_packet}

pub record VimMessage (D : Type 0) : Type 0 where
  pub running : Bool
  pub connection : Connection D
  pub ws_receiver_queue : List (List ℕ)
  pub ws_sender_queue : List (List ℕ)

-- A final, unmasked binary frame around a packet.
unfoldable pub frame_of : List ℕ → List ℕ
frame_of packet =
    encode_frame (web_socket_frame true false false false 0x2 false (length packet) 0 packet)

module _ {D : Type 0} where
  unfoldable pub new_vim_message : ℕ → ℕ → VimMessage D
  new_vim_message tcp_port tcp_ip = record {
    running = false;
    connection = new_connection tcp_port tcp_ip;
    ws_receiver_queue = [];
    ws_sender_queue = [];
  }

  unfoldable pub push_frame : VimMessage D → List ℕ → VimMessage D
  push_frame server packet = record server {
    ws_sender_queue = server.ws_sender_queue ++ frame_of packet ∷ [];
  }

  unfoldable pub push_input : VimMessage D → List ℕ → VimMessage D
  push_input server packet = record server {
    connection = record (server.connection) {
      input_queue = server.connection.input_queue ++ packet ∷ [];
    };
  }

  -- The switch of `tcpHandler` on the type of a packet, with `hasData` after it.
  unfoldable pub handle_packet : VimMessage D → VimPacket → VimMessage D × Bool
  handle_packet server packet =
      if packet.type == 1
      then (push_frame server (create_message 2 packet.user_id packet.msg_id packet.msg_data), true)
      else if packet.type == 2
      then (server, true)
      else if packet.type == 3
      then (
        push_input (push_frame server (create_confirmation 4 packet.ip packet.port 1))
            (create_confirmation 4 packet.ip packet.port 1),
        true,
      )
      else if packet.type == 4
      then (push_frame server (create_confirmation 4 packet.ip packet.port 1), true)
      else (server, false)

  -- A received packet, `hasData` as it was if it does not decode.
  unfoldable pub handle_bytes : VimMessage D → List ℕ → Bool → VimMessage D × Bool
  handle_bytes server bytes has_data = elim (decode_packet bytes) [
    | none ↦ (server, has_data)
    | some packet ↦ handle_packet server packet
  ]

  -- `tryPop` on what a client received.
  take_received : VimMessage D → ℕ → List (List ℕ) → Bool → VimMessage D × Bool
  take_received server port [] has_data = (server, has_data)
  take_received server port (bytes ∷ rest) has_data =
      handle_bytes
        (record server {
          connection =
              update_client (server.connection) port (λ c. record c { received_data = rest });
        })
        bytes has_data

  -- The loop of `tcpHandler` over the clients, at most one packet from each.
  unfoldable pub tcp_loop : VimMessage D → List ℕ → Bool → VimMessage D × Bool
  unfolding take_received
  tcp_loop server [] has_data = (server, has_data)
  tcp_loop server (port ∷ ports) has_data =
      let done : VimMessage D × Bool = elim (ClientMap.find port server.connection.clients) [
        | none ↦ (server, has_data)
        | some client ↦ take_received server port client.received_data has_data
      ] in
      tcp_loop (done.0) ports (done.1)

  unfoldable pub tcp_handler : VimMessage D → VimMessage D × Bool
  tcp_handler server = tcp_loop server (ClientMap.keys server.connection.clients) false

module _ {D : Type 0} (F : Doubles D) where
  -- A payload that is a packet becomes input of the connection; a request to create a user adds the
  -- client first, if its port is new.
  unfoldable pub take_payload : VimMessage D → List ℕ → VimMessage D
  take_payload server payload = elim (decode_packet payload) [
    | none ↦ server
    | some packet ↦
        let is_new =
          packet.type == 3
          && not (is_some (ClientMap.find packet.port server.connection.clients)) in
        let added : VimMessage D =
          if is_new
          then record server { connection = add_client F (server.connection) packet.port packet.ip }
          else server in
        push_input added payload
  ]

  unfoldable pub websocket_frames : VimMessage D → List (List ℕ) → Option (VimMessage D × Bool)
  websocket_frames server [] = some (server, false)
  websocket_frames server (bytes ∷ rest) =
      let popped : VimMessage D = record server { ws_receiver_queue = rest } in
      elim (decode_frame bytes) [
        | decoded frame ↦ some (take_payload popped (extract_payload frame).0, true)
        | invalid ↦ some (popped, false)
        | out_of_range ↦ none
      ]

  -- `none` where decoding reads outside of the frame.
  unfoldable pub websocket_handler : VimMessage D → Option (VimMessage D × Bool)
  unfolding websocket_frames
  websocket_handler server = websocket_frames server server.ws_receiver_queue

  -- One round of `startMessageHandler`.
  unfoldable pub message_round : VimMessage D → Option (VimMessage D)
  message_round server = elim (websocket_handler server) [
    | none ↦ none
    | some (after, true) ↦ some after
    | some (after, false) ↦ some (tcp_handler after).0
  ]

  -- `start` without the server of the frames and the thread.
  unfoldable pub start : VimMessage D → VimMessage D
  start server = record server { running = true; connection = connect F (server.connection) }
