-- ===== src/Tcp.antt =====
-- backend/TCP: the TCP-like protocol over UDP.
pub mod Flags
pub mod Segment
pub mod Queue
pub mod MessageBuffer
pub mod SegmentInfo
pub mod Client
pub mod ClientMap
pub mod Connection
pub mod SocketHandler
