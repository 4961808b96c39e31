-- ===== src/Tcp.antt =====
-- The transports over TCP: src/tcp_client.h, src/tcp_client.cpp, src/tcp_server.h and
-- src/tcp_server.cpp.
pub mod Asio
pub mod Endpoint
pub mod Client
pub mod Server
pub mod Framing
pub mod Receiving
pub mod Streams
pub mod Writing
pub mod Stable
pub mod Turns
pub mod Life
pub mod Links
pub mod Refused
