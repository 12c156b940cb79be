-- ===== src/Lib.antt =====
-- full-stack-shinfeld: the TCP, message and WebSocket layers of the backend.
--
-- The program is a messenger whose layers are written by hand. backend/TCP sends and receives
-- segments over UDP sockets: a communication thread (Connection::communicate) keeps one Client for
-- each peer, takes received segments from one thread-safe queue, and puts the segments that it
-- makes into another, from which a socket thread encodes and sends them. backend/VIM-MESSAGE
-- defines the packets of the messenger, backend/WEBSOCKET the frames in which a browser exchanges
-- them and the handshake before them, and backend/RELATIONAL-DATABASE the parser of a database that
-- is not written yet.
--
-- Common (with Tests, Lists and Bits) has the tests on numbers, the lists and the unsigned integers
-- that the parts share. A w-bit unsigned integer is a number below 2 ^ w, and each place where the
-- code wraps has its remainder written out.
--
-- Bytes models the templates appendBits and combineBytes of backend/TCP/src/Segment.cpp and the
-- reads of fields by shifts in backend/VIM-MESSAGE/src/VIMPacket.cpp.
--
-- Tcp.Flags models backend/TCP/include/Flags.hpp; Tcp.Segment models backend/TCP/src/Segment.cpp:
-- encode, decode, calculateCheckSum, create_checksum and check_checksum. The loop that folds the
-- carries has fuel 2, which is enough for every 32-bit sum.
--
-- Tcp.Queue models backend/TCP/include/ThreadSafeQueue.hpp. Each method holds the lock, so an
-- execution is a sequence of whole calls, and Tcp.Queue.Order defines all of them.
--
-- Tcp.SegmentInfo models backend/TCP/src/SegmentInfo.cpp: the shared objects live in a store, a
-- std::shared_ptr is an index into it. Tcp.MessageBuffer, Tcp.Client and Tcp.Client.Sent model
-- backend/TCP/src/Client.cpp. The type double and its operations are a parameter.
--
-- Tcp.ClientMap is the std::map of the clients. Tcp.Connection and its modules Sending, Receiving
-- and Loop model backend/TCP/src/Connection.cpp: createMessage, sendMessages, messageHandler,
-- resendMessages, messageResendCheck, addClient, connect and each case of communicate. The loop of
-- sendMessages has as much fuel as the window leaves bytes, since each round uses at least the 20
-- bytes of a header; the loop over buffered segments has the size of the buffer as its fuel, since
-- each round takes one out.
--
-- Below Tcp.Connection the proofs are grouped by what they are about: Tiling and Round the loop of
-- sendMessages; Reassembly, Stream, Prefix and Arrivals what is received; Opening, Accepting,
-- Crossing, Handshake and Start the opening of two connections, between which a segment crosses
-- only to its address, into the queue of received segments from which a round of the loop takes it;
-- Closing, Answering, Leaving, Parting, Stale and Teardown their end; Next, States, Transitions,
-- StateMachine and Received the state machine of a client; Loop.Waiting and Loop.Ending the rounds
-- in which nothing arrives once it is time to close; Traversal what everything that messageHandler
-- sends keeps.
--
-- Tcp.SocketHandler models backend/TCP/src/SocketHandler.cpp: a round of send and a round of
-- receive, with the outcome of sendto and recvfrom as an argument, and in Running how its threads
-- are started and stopped. Sockets has the system calls for sockets as data, and which descriptors
-- are open after them. Logger models backend/TCP/include/Logger.hpp, with the formatting of the C
-- and C++ libraries as a parameter.
--
-- Vim.Packet models backend/VIM-MESSAGE/src/VIMPacket.cpp, and WebSocket.Frame models
-- backend/WEBSOCKET/src/WebSocketFrame.cpp, where a read outside of the vector is a result of its
-- own. Vim.Message models backend/VIM-MESSAGE/src/VIMMessage.cpp: websocketHandler passes the
-- packets of the browser's frames to the connection, tcpHandler passes what the peers sent to the
-- browser.
--
-- Text has the searches of std::string: a position is what stands before it and what stands behind
-- it. WebSocket.Http models backend/WEBSOCKET/src/HttpHandler.cpp, with SHA1 and the base64 encoder
-- of OpenSSL as parameters, WebSocket.Server the loops over recv of
-- backend/WEBSOCKET/src/WebSocketServer.cpp, and WebSocket.Server.Running its start and stop.
-- Database.Parser models backend/RELATIONAL-DATABASE/src/Parser.cpp, where the end of a function
-- without a return is a result of its own. The loops over lines, headers and words have one more
-- than the number of bytes as their fuel, since each round takes a byte.
--
-- Not modelled: what the system does behind the calls for sockets, the threads themselves, the stop
-- of VIMMessage, printing, the sleeps, and the frontend. Addresses enter as numbers, since the
-- system converts their text. Files are the bytes written to them; the log is what was written to
-- which file, and writing to an open file succeeds.
pub mod Common
pub mod Bytes
pub mod Text
pub mod Logger
pub mod Sockets
pub mod Tcp
pub mod Vim
pub mod WebSocket
pub mod Database
pub mod Examples
