-- ===== src/Vim.antt =====
-- backend/VIM-MESSAGE: the messenger's packets and the loop that forwards them.
pub mod Packet
pub mod Message
