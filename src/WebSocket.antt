-- ===== src/WebSocket.antt =====
-- backend/WEBSOCKET: the server that the browser talks to: its handshake, its threads and its frames.
pub mod Frame
pub mod Http
pub mod Server
