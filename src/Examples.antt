-- ===== src/Examples.antt =====
-- The theorems at concrete inputs.
mod Segments
mod Packets
mod Frames
mod Queues
mod Clients
mod Connections
mod Transfers
mod Messages
mod Handshakes
mod Closings
mod Tables
mod Browsers
mod Servers
